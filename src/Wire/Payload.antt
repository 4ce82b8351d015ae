-- ===== src/Wire/Payload.antt =====
-- crates/ai-daemon-proto/src/frame.rs, `write_blob`, and crates/ai-daemon/src/decode.rs, the loop
-- of `read_reply`: a payload of any length, in frames of at most 8 MiB.
use ai_daemon.Prelude.{
  ℕ, zero, suc, ◌+◌, ◌≤◌, ◌<◌, ◌≡◌, refl, sym, ap, append-nil, append_assoc, ◌∙◌, subst, inl, inr,
  true, false, Option, none, some, List, [], ◌∷◌, ◌++◌, arith, length, All, length-append, leb,
  Option-cases,
}
use ai_daemon.Wire.{
  Bytes, kind_blob, max_frame, blob_chunk, blob, got, split_at, header, chunks, write_chunks,
  write_blob, interpret, read_frame, whole, gather,
}
use Prim.{absurd}
use ai_daemon.Wire.Header.{read_frame-header, write_raw-fits}

pair_parts :
    (u v a b : Bytes)
    → ◌≡◌ {A = Option (Bytes × Bytes)} (some (u, v)) (some (a, b))
    → (u ≡ a) × (v ≡ b)
pair_parts u v a b h = (
  ap (λ (o : Option (Bytes × Bytes)). elim o [ none ↦ u | some p ↦ p.0 ]) h,
  ap (λ (o : Option (Bytes × Bytes)). elim o [ none ↦ v | some p ↦ p.1 ]) h,
)

pub split_at-some :
    (n : ℕ) (xs a b : Bytes) → split_at n xs ≡ some (a, b) → (xs ≡ a ++ b) × (length a ≡ n)
unfolding split_at
split_at-some zero xs a b h =
    let (e, f) = pair_parts [] xs a b h in subst (λ u. (xs ≡ u ++ b) × (length u ≡ 0)) e (f, refl)
split_at-some (suc n) [] a b h = cc
split_at-some (suc n) (x ∷ xs) a b h = elim (Option-cases (split_at n xs)) [
  | inl e ↦ absurd (ground (arith, e, h))
  | inr ((c, d), e) ↦
      let parts = split_at-some n xs c d e in
      let whole_eq : ◌≡◌ {A = Option (Bytes × Bytes)} (some (x ∷ c, d)) (some (a, b)) = rw e at h in
      let (first, second) = pair_parts (x ∷ c) d a b whole_eq in
      subst (λ u. (x ∷ xs ≡ u ++ b) × (length u ≡ suc n)) first
        (subst (λ v. (x ∷ xs ≡ x ∷ (c ++ v)) × (suc (length c) ≡ suc n)) second
          (ap (λ l. x ∷ l) parts.0, omega (arith, parts.1)))
]

split_at-none : (n : ℕ) (xs : Bytes) → split_at n xs ≡ none → length xs < n
unfolding split_at
split_at-none zero xs h = cc
split_at-none (suc n) [] h = omega arith
split_at-none (suc n) (x ∷ xs) h = elim (Option-cases (split_at n xs)) [
  | inl e ↦ omega (arith, split_at-none n xs e)
  | inr ((c, d), e) ↦
      let bad : ◌≡◌ {A = Option (Bytes × Bytes)} (some (x ∷ c, d)) none = rw e at h in cc
]

abbrev pub joined : List Bytes → Bytes
joined [] = []
joined (c ∷ cs) = c ++ joined cs

abbrev Fits : Bytes → Type 0
Fits c = (0 < length c) × (length c ≤ max_frame)

record Cut (xs : Bytes) (cs : List Bytes) : Type 0 where
  fit : All Fits cs
  same : joined cs ≡ xs
  few : length cs ≤ length xs

Cut-one : (x : ℕ) (xs : Bytes) → length (x ∷ xs) ≤ max_frame → Cut (x ∷ xs) ((x ∷ xs) ∷ [])
Cut-one x xs h = record {
  fit = ((omega arith, h), tt);
  same = append-nil (x ∷ xs);
  few = omega arith;
}

Cut-more : (xs a b : Bytes) (cs : List Bytes) → Fits a → xs ≡ a ++ b → Cut b cs → Cut xs (a ∷ cs)
Cut-more xs a b cs f e c = record {
  fit = (f, c.fit);
  same = ap (λ l. a ++ l) c.same ∙ sym e;
  few =
      subst (λ l. suc (length cs) ≤ length l) (sym e)
        (omega (arith, length-append a b, c.few, f.0));
}

chunks_full :
    (fuel size x : ℕ) (xs a b : Bytes)
    → split_at size (x ∷ xs) ≡ some (a, b)
    → chunks (suc fuel) size (x ∷ xs) ≡ a ∷ chunks fuel size b
unfolding chunks
chunks_full fuel size x xs a b e = rw (chunks, e)

chunks_last :
    (fuel size x : ℕ) (xs : Bytes)
    → split_at size (x ∷ xs) ≡ none
    → chunks (suc fuel) size (x ∷ xs) ≡ (x ∷ xs) ∷ []
unfolding chunks
chunks_last fuel size x xs e = rw (chunks, e)

-- The chunks are the payload, none is empty and none too large for a frame.
chunks-Cut :
    (fuel size : ℕ) (xs : Bytes)
    → 0 < size
    → size ≤ max_frame
    → length xs ≤ fuel
    → Cut xs (chunks fuel size xs)
unfolding chunks
chunks-Cut zero size [] p m h = record { fit = tt; same = refl; few = omega arith }
chunks-Cut zero size (x ∷ xs) p m h = absurd (omega (arith, h))
chunks-Cut (suc fuel) size [] p m h = record { fit = tt; same = refl; few = omega arith }
chunks-Cut (suc fuel) size (x ∷ xs) p m h = elim (Option-cases (split_at size (x ∷ xs))) [
  | inl e ↦
      subst (Cut (x ∷ xs)) (sym (chunks_last fuel size x xs e))
        (Cut-one x xs (omega (arith, split_at-none size (x ∷ xs) e)))
  | inr ((a, b), e) ↦
      let parts = split_at-some size (x ∷ xs) a b e in
      let lengths : suc (length xs) ≡ length a + length b = ap length parts.0 ∙ length-append a b in
      subst (Cut (x ∷ xs)) (sym (chunks_full fuel size x xs a b e)) (
        Cut-more (x ∷ xs) a b (chunks fuel size b) (omega (arith, parts.1), omega (arith, parts.1))
          parts.0 (chunks-Cut fuel size b p m (omega (arith, lengths, parts.1))))
]

abbrev framed : List Bytes → Bytes
framed [] = []
framed (c ∷ cs) = (header (length c) kind_blob ++ c) ++ framed cs

write_chunks-framed : (cs : List Bytes) → All Fits cs → write_chunks cs ≡ some (framed cs)
unfolding write_chunks
write_chunks-framed [] a = refl
write_chunks-framed (c ∷ cs) a =
    rw (write_chunks, write_raw-fits kind_blob c a.0.1, write_chunks-framed cs a.1)

module _ {V : Type 0} (from_reader : Bytes → Option V) where
  read_blob :
      (c rest : Bytes)
      → Fits c
      → read_frame from_reader ((header (length c) kind_blob ++ c) ++ rest) ≡ got (blob c) rest
  unfolding interpret
  read_blob c rest f = read_frame-header from_reader kind_blob c rest f.1

  gather_got :
      (fuel len : ℕ) (acc c s rest : Bytes)
      → length acc < len
      → read_frame from_reader s ≡ got (blob c) rest
      → gather from_reader (suc fuel) len acc s ≡ gather from_reader fuel len (acc ++ c) rest
  unfolding gather
  gather_got fuel len acc c s rest h e =
      let more : leb len (length acc) ≡ false = ground arith in rw (gather, more, e)

  gather_done :
      (fuel len : ℕ) (acc s : Bytes)
      → len ≤ length acc
      → gather from_reader (suc fuel) len acc s ≡ whole acc s
  unfolding gather
  gather_done fuel len acc s h =
      let enough : leb len (length acc) ≡ true = ground arith in rw (gather, enough)

  gather-framed :
      (cs : List Bytes) (fuel len : ℕ) (acc rest : Bytes)
      → All Fits cs
      → length cs < fuel
      → len ≡ length (acc ++ joined cs)
      → gather from_reader fuel len acc (framed cs ++ rest) ≡ whole (acc ++ joined cs) rest
  gather-framed cs zero len acc rest a f e = absurd (omega (arith, f))
  gather-framed [] (suc fuel) len acc rest a f e =
      let nothing : acc ++ [] ≡ acc = append-nil acc in
      let reached : len ≡ length acc = e ∙ ap length nothing in
      gather_done fuel len acc rest (omega (arith, reached)) ∙ ap (λ d. whole d rest) (sym nothing)
  gather-framed (c ∷ cs) (suc fuel) len acc rest a f e =
      let regroup : (acc ++ c) ++ joined cs ≡ acc ++ (c ++ joined cs) =
        append_assoc acc c (joined cs) in
      let total_len : len ≡ length acc + (length c + length (joined cs)) =
        e
        ∙ length-append acc (c ++ joined cs)
        ∙ ap (λ n. length acc + n) (length-append c (joined cs)) in
      let frame_bytes = header (length c) kind_blob ++ c in
      ap (gather from_reader (suc fuel) len acc) (append_assoc frame_bytes (framed cs) rest)
      ∙ gather_got fuel len acc c (frame_bytes ++ (framed cs ++ rest)) (framed cs ++ rest)
          (omega (arith, total_len, a.0.0)) (read_blob c (framed cs ++ rest) a.0)
      ∙ gather-framed cs fuel len (acc ++ c) rest a.1 (omega (arith, f))
          (e ∙ ap length (sym regroup))
      ∙ ap (λ d. whole d rest) regroup

  -- A payload of any length arrives: `write_blob` never fails, and the reader that was told the
  -- length gathers the same bytes and stops at the first byte after them, on fuel for one round
  -- more than the payload has bytes.
  pub gather-write_blob :
      (payload : Bytes) (fuel : ℕ)
      → length payload < fuel
      → (bytes : Bytes) × (write_blob payload ≡ some bytes)
        × ((rest : Bytes)
            → gather from_reader fuel (length payload) [] (bytes ++ rest) ≡ whole payload rest)
  unfolding write_blob
  gather-write_blob payload fuel f =
      let cs = chunks (length payload) blob_chunk payload in
      let cut =
        chunks-Cut (length payload) blob_chunk payload (omega arith) (omega arith) (omega arith) in
      (
        framed cs,
        write_chunks-framed cs cut.fit,
        (λ rest.
            gather-framed cs fuel (length payload) [] rest cut.fit (omega (arith, cut.few, f))
              (ap length (sym cut.same))
            ∙ ap (λ d. whole d rest) cut.same),
      )
