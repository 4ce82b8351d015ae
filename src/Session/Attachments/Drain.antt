-- ===== src/Session/Attachments/Drain.antt =====
-- crates/ai-daemon/src/session.rs, `attach`: what its loop takes off the stream.
use ai_daemon.Prelude.{
  ℕ, ◌≤◌, ◌≡◌, refl, sym, ap, append-nil, append_assoc, ◌∙◌, subst, inl, inr, true, false, List, [],
  ◌∷◌, ◌++◌, map, arith, length, ltb, leb, if◌then◌else◌, Bool-cases,
}
use ai_daemon.Wire.{Bytes, Frame, cbor, blob}
use ai_daemon.Wire.Payload.{joined}
use ai_daemon.Session.Attachments.{Drained, all_there, interrupted, exhausted, too_long, drain}

abbrev taken_of : Drained → Bytes
taken_of (all_there p) = p
taken_of interrupted = []
taken_of exhausted = []
taken_of too_long = []

-- What `drain` took: whole frames, all of them BLOBs, with `len` bytes in all.
pub record Took {V : Type 0} (len : ℕ) (acc payload : Bytes) (frames left : List (Frame V))
    : Type 0 where
  pub blobs : List Bytes
  pub off_stream : frames ≡ map blob blobs ++ left
  pub joins : payload ≡ acc ++ joined blobs
  pub length_is : length payload ≡ len

Took-none :
    {V : Type 0} (len : ℕ) (acc payload : Bytes) (frames : List (Frame V))
    → length acc ≤ len
    → len ≤ length acc
    → all_there acc ≡ all_there payload
    → Took len acc payload frames frames
Took-none len acc payload frames h k e =
    let same : acc ≡ payload = ap taken_of e in
    record {
      blobs = [];
      off_stream = refl;
      joins = sym same ∙ sym (append-nil acc);
      length_is = ap length (sym same) ∙ omega (arith, h, k);
    }

Took-more :
    {V : Type 0} (len : ℕ) (acc chunk payload : Bytes) (frames left : List (Frame V))
    → Took len (acc ++ chunk) payload frames left
    → Took len acc payload (blob chunk ∷ frames) left
Took-more len acc chunk payload frames left t = record {
  blobs = chunk ∷ t.blobs;
  off_stream = ap (λ l. blob chunk ∷ l) t.off_stream;
  joins = t.joins ∙ append_assoc acc chunk (joined t.blobs);
  length_is = t.length_is;
}

drain_full :
    {V : Type 0} (len : ℕ) (acc : Bytes) (frames : List (Frame V))
    → leb len (length acc) ≡ true
    → drain len acc frames ≡ (all_there acc, frames)
unfolding drain
drain_full len acc [] e = rw (e, drain)
drain_full len acc (cbor v ∷ frames) e = rw (e, drain)
drain_full len acc (blob chunk ∷ frames) e = rw (e, drain)

drain_blob :
    {V : Type 0} (len : ℕ) (acc chunk : Bytes) (frames : List (Frame V))
    → leb len (length acc) ≡ false
    → drain len acc (blob chunk ∷ frames) ≡ (
        if ltb len (length (acc ++ chunk))
        then (too_long, frames)
        else drain len (acc ++ chunk) frames)
unfolding drain
drain_blob len acc chunk frames e = rw (e, drain)

drain_empty :
    {V : Type 0} (len : ℕ) (acc : Bytes)
    → leb len (length acc) ≡ false
    → drain {V = V} len acc [] ≡ (exhausted, [])
unfolding drain
drain_empty len acc e = rw (e, drain)

drain_cbor :
    {V : Type 0} (len : ℕ) (acc : Bytes) (frames : List (Frame V)) (v : V)
    → leb len (length acc) ≡ false
    → drain len acc (cbor v ∷ frames) ≡ (interrupted, frames)
unfolding drain
drain_cbor len acc frames v e = rw (e, drain)

unfoldable pub TookAll :
    {V : Type 0} → ℕ → Bytes → Bytes → List (Frame V) → Drained × List (Frame V) → Type 0
TookAll len acc payload frames r = r.0 ≡ all_there payload → Took len acc payload frames r.1

pub drain-Took :
    {V : Type 0} (len : ℕ) (acc payload : Bytes) (frames : List (Frame V))
    → length acc ≤ len
    → TookAll len acc payload frames (drain len acc frames)
unfolding TookAll
drain-Took len acc payload [] h = elim (Bool-cases (leb len (length acc))) [
  | inl e ↦
      subst (TookAll len acc payload []) (sym (drain_full len acc [] e))
        (Took-none len acc payload [] h (ground arith))
  | inr e ↦ subst (TookAll len acc payload []) (sym (drain_empty len acc e)) (λ x. cc)
]
drain-Took len acc payload (cbor v ∷ frames) h = elim (Bool-cases (leb len (length acc))) [
  | inl e ↦
      subst (TookAll len acc payload (cbor v ∷ frames))
        (sym (drain_full len acc (cbor v ∷ frames) e))
        (Took-none len acc payload (cbor v ∷ frames) h (ground arith))
  | inr e ↦
      subst (TookAll len acc payload (cbor v ∷ frames)) (sym (drain_cbor len acc frames v e))
        (λ x. cc)
]
drain-Took len acc payload (blob chunk ∷ frames) h = elim (Bool-cases (leb len (length acc))) [
  | inl e ↦
      subst (TookAll len acc payload (blob chunk ∷ frames))
        (sym (drain_full len acc (blob chunk ∷ frames) e))
        (Took-none len acc payload (blob chunk ∷ frames) h (ground arith))
  | inr e ↦
      subst (TookAll len acc payload (blob chunk ∷ frames))
        (sym (drain_blob len acc chunk frames e))
        (elim (Bool-cases (ltb len (length (acc ++ chunk)))) [
          | inl over ↦ rw over (λ x. cc)
          | inr within ↦ rw within (λ x.
              Took-more len acc chunk payload frames (drain len (acc ++ chunk) frames).1
                (drain-Took len (acc ++ chunk) payload frames (ground arith) x))
        ])
]
