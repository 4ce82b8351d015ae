-- ===== src/Wire/Ends.antt =====
-- crates/ai-daemon/src/decode.rs: the loop of `read_reply` ends on any stream.
use ai_daemon.Prelude.{
  ℕ, zero, suc, ◌≤◌, ◌<◌, ◌≡◌, refl, ap, ◌∙◌, subst, ◌≢◌, ◌⊎◌, inl, inr, true, Option, [], ◌∷◌,
  ◌++◌, arith, length, length-append, ltb, leb, Bool-cases, Option-cases,
}
use Prim.{absurd}
use ai_daemon.Wire.{
  Bytes, ReadError, max_frame, Frame, cbor, blob, Read, closed, failed, got, split_at, interpret,
  read_body, from_be_bytes, read_frame, whole, stopped_midway, interrupted, out_of_fuel, broken,
  gather,
}
use ai_daemon.Wire.Payload.{split_at-some}

module _ {V : Type 0} (from_reader : Bytes → Option V) where
  -- The stream that a read leaves, where it gives a frame.
  abbrev left_of : Read V → Bytes → Bytes
  left_of closed s = s
  left_of (failed why) s = s
  left_of (got f rest) s = rest

  interpret-left :
      (kind : ℕ) (p rest s : Bytes)
      → length rest ≤ length s
      → length (left_of (interpret from_reader kind p rest) s) ≤ length s
  unfolding interpret
  interpret-left kind p rest s h = ground arith

  read_body-left :
      (len kind : ℕ) (s : Bytes) → length (left_of (read_body from_reader len kind s) s) ≤ length s
  unfolding read_body
  read_body-left len kind s = elim (Bool-cases (ltb max_frame len)) [
    | inl e ↦ rw (e, read_body) (omega arith)
    | inr e ↦ elim (Option-cases (split_at len s)) [
      | inl n ↦ rw (e, n, read_body) (omega arith)
      | inr ((p, rest), found) ↦
          let parts = split_at-some len s p rest found in
          let shorter = ap length parts.0 ∙ length-append p rest in
          rw (e, found, read_body) (interpret-left kind p rest s (omega (arith, shorter)))
    ]
  ]

  read_frame-left :
      (s : Bytes) (f : Frame V) (rest : Bytes)
      → read_frame from_reader s ≡ got f rest
      → length rest < length s
  unfolding read_frame
  read_frame-left [] f rest h = cc
  read_frame-left (a ∷ []) f rest h = cc
  read_frame-left (a ∷ b ∷ []) f rest h = cc
  read_frame-left (a ∷ b ∷ c ∷ []) f rest h = cc
  read_frame-left (a ∷ b ∷ c ∷ d ∷ []) f rest h = cc
  read_frame-left (a ∷ b ∷ c ∷ d ∷ kind ∷ s) f rest h =
      let bound = read_body-left (from_be_bytes a b c d) kind s in
      omega (arith, subst (λ r. length (left_of r s) ≤ length s) h bound)

  read_cases :
      (r : Read V)
      → (r ≡ closed)
        ⊎ (((why : ReadError) × (r ≡ failed why))
            ⊎ (((v : V) × (rest : Bytes) × (r ≡ got (cbor v) rest))
                ⊎ ((chunk : Bytes) × (rest : Bytes) × (r ≡ got (blob chunk) rest))))
  read_cases closed = inl refl
  read_cases (failed why) = inr (inl (why, refl))
  read_cases (got (cbor v) rest) = inr (inr (inl (v, rest, refl)))
  read_cases (got (blob chunk) rest) = inr (inr (inr (chunk, rest, refl)))

  gather_full :
      (fuel len : ℕ) (acc s : Bytes)
      → leb len (length acc) ≡ true
      → gather from_reader (suc fuel) len acc s ≡ whole acc s
  unfolding gather
  gather_full fuel len acc s e = rw (e, gather)

  -- The loop ends on every stream, the peer's worst included: on fuel for one round more than
  -- the stream has bytes it never runs out, since every frame takes at least its header.
  pub gather_ends :
      (fuel len : ℕ) (acc s : Bytes)
      → length s < fuel
      → gather from_reader fuel len acc s ≢ out_of_fuel
  unfolding gather
  gather_ends zero len acc s h e = absurd (omega (arith, h))
  gather_ends (suc fuel) len acc s h e = elim (Bool-cases (leb len (length acc))) [
    | inl enough ↦ ground (arith, e, gather_full fuel len acc s enough)
    | inr more ↦ elim (read_cases (read_frame from_reader s)) [
      | inl r ↦ let stops : stopped_midway ≡ out_of_fuel = rw (more, r) at e in cc
      | inr (inl (why, r)) ↦ let stops : broken why ≡ out_of_fuel = rw (more, r) at e in cc
      | inr (inr (inl (v, rest, r))) ↦
          let stops : interrupted ≡ out_of_fuel = rw (more, r) at e in cc
      | inr (inr (inr (chunk, rest, r))) ↦
          gather_ends fuel len (acc ++ chunk) rest
            (omega (arith, h, read_frame-left s (blob chunk) rest r)) (rw (more, r) at e)
    ]
  ]
