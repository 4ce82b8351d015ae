-- ===== src/Decoder/Png/Chunks.antt =====
-- crates/ai-daemon-decode/src/main.rs, `mod png`: the header and the chunks are read in bounds.
use ai_daemon.Prelude.{
  ℕ, zero, suc, ◌+◌, ◌≤◌, ◌<◌, ◌≡◌, refl, inl, inr, ◌&&◌, ◌||◌, not, Option, none, some, [], ◌∷◌,
  arith, get_elem?, drop, slice, All-take, All-drop, length, All, ltb, ◌==◌, ltb-false, Bool-cases,
  u32_mod,
}
use Prim.{absurd}
use ai_daemon.Decoder.{Result, ok, ◌>>=◌, index, be32}
use ai_daemon.Decoder.Bits.{Bytes}
use ai_daemon.Decoder.Outcome.{Gives, Gives-bind, index-Gives, sub-slice, sub_from-drop}
use ai_daemon.Decoder.Png.{
  Header, accept_header, parse, Parts, take_chunk, read_chunks, bytes_eq, ihdr, idat, iend,
}
use ai_daemon.Decoder.Png.Filters.{IsByte}

be32-Below : (bytes : Bytes) → All IsByte bytes → Gives (λ n. n < u32_mod) (be32 bytes)
unfolding be32
be32-Below [] h = refl
be32-Below (a ∷ []) h = refl
be32-Below (a ∷ b ∷ []) h = refl
be32-Below (a ∷ b ∷ c ∷ []) h = refl
be32-Below (a ∷ b ∷ c ∷ d ∷ bytes) (ha, (hb, (hc, (hd, h)))) = omega (arith, ha, hb, hc, hd)

-- The height of a header is a 32-bit number.
abbrev pub IsTall : Header → Type 0
IsTall header = header.height < u32_mod

accept_header-IsTall :
    (width height depth colour interlace : ℕ)
    → height < u32_mod
    → Gives IsTall (accept_header width height depth colour interlace)
unfolding accept_header
accept_header-IsTall width height depth colour interlace tall =
    elim (Bool-cases (width == 0 || height == 0)) [
      | inl e ↦ rw (e, Gives) refl
      | inr e ↦ elim (Bool-cases (depth == 8)) [
        | inr e₁ ↦ rw (e, e₁, Gives) refl
        | inl e₁ ↦ elim (Bool-cases (interlace == 0)) [
          | inr e₂ ↦ rw (e, e₁, e₂, Gives) refl
          | inl e₂ ↦ elim (Bool-cases (not (colour == 2) && not (colour == 6))) [
            | inl e₃ ↦ rw (e, e₁, e₂, e₃, Gives) refl
            | inr e₃ ↦ rw (e, e₁, e₂, e₃, Gives) tall
          ]
        ]
      ]
    ]

-- A read in bounds, of which nothing more is known.
pub then_index :
    {B : Type 0} (Q : B → Type 0) (xs : Bytes) (i : ℕ) (f : ℕ → Result B)
    → i < length xs
    → ((x : ℕ) → Gives Q (f x))
    → Gives Q (index xs i >>= f)
then_index Q xs i f h k =
    Gives-bind (λ x. get_elem? xs i ≡ some x) Q (index xs i) f (index-Gives xs i h) (λ x e. k x)

parse-IsTall : (bytes : Bytes) → All IsByte bytes → Gives IsTall (parse bytes)
unfolding parse
parse-IsTall bytes a = elim (Bool-cases (ltb (length bytes) 13)) [
  | inl e ↦ rw (e, Gives) refl
  | inr e ↦
      let long = ltb-false (length bytes) 13 e in
      let rest = All-drop IsByte 4 bytes a in
      rw (e, sub_from-drop 4 bytes (omega (arith, long)))
        (Gives-bind (λ n. n < u32_mod) IsTall (be32 bytes) _ (be32-Below bytes a)
          (λ width w.
            Gives-bind (λ n. n < u32_mod) IsTall (be32 (drop 4 bytes)) _
              (be32-Below (drop 4 bytes) rest)
              (λ height h. then_index IsTall bytes 8 _ (omega (arith, long)) (λ depth.
                then_index IsTall bytes 9 _ (omega (arith, long)) (λ colour.
                  then_index IsTall bytes 12 _ (omega (arith, long))
                    (λ interlace. accept_header-IsTall width height depth colour interlace h))))))
]

abbrev pub HasTall : Parts → Type 0
HasTall parts = elim parts.0 [ none ↦ Unit {0} | some header ↦ IsTall header ]

abbrev StillTall : Option Parts → Type 0
StillTall none = Unit {0}
StillTall (some parts) = HasTall parts

take_chunk-StillTall :
    (kind payload : Bytes) (parts : Parts)
    → All IsByte payload
    → HasTall parts
    → Gives StillTall (take_chunk kind payload parts)
unfolding take_chunk
take_chunk-StillTall kind payload (header, compressed) a t =
    elim (Bool-cases (bytes_eq kind ihdr)) [
      | inl e ↦
          rw e (
            Gives-bind IsTall StillTall (parse payload) _ (parse-IsTall payload a) (λ h tall. tall))
      | inr e ↦ elim (Bool-cases (bytes_eq kind idat)) [
        | inl e₁ ↦ rw (e, e₁, Gives) t
        | inr e₁ ↦ elim (Bool-cases (bytes_eq kind iend)) [
          | inl e₂ ↦ rw (e, e₁, e₂, Gives) tt
          | inr e₂ ↦ rw (e, e₁, e₂, Gives) t
        ]
      ]
    ]

after_chunk :
    (fuel : ℕ) (bytes : Bytes) (offset : ℕ) (parts : Parts) (after : Option Parts)
    → HasTall parts
    → ((grown : Parts) → HasTall grown → Gives HasTall (read_chunks fuel bytes offset grown))
    → StillTall after
    → Gives HasTall
        (elim after [ none ↦ ok parts | some grown ↦ read_chunks fuel bytes offset grown ])
after_chunk fuel bytes offset parts none t k a = t
after_chunk fuel bytes offset parts (some grown) t k a = k grown a

All-slice : (start len : ℕ) (bytes : Bytes) → All IsByte bytes → All IsByte (slice start len bytes)
All-slice start len bytes a = All-take IsByte len (drop start bytes) (All-drop IsByte start bytes a)

pub read_chunks-HasTall :
    (fuel : ℕ) (bytes : Bytes) (offset : ℕ) (parts : Parts)
    → All IsByte bytes
    → HasTall parts
    → offset ≤ length bytes
    → length bytes < offset + fuel
    → Gives HasTall (read_chunks fuel bytes offset parts)
unfolding read_chunks
read_chunks-HasTall zero bytes offset parts a t inside h = absurd (omega (arith, inside, h))
read_chunks-HasTall (suc fuel) bytes offset parts a t inside h =
    elim (Bool-cases (ltb (length bytes) (offset + 8))) [
      | inl e ↦ rw (e, Gives) t
      | inr e ↦
          let long = ltb-false (length bytes) (offset + 8) e in
          let here = sub_from-drop offset bytes inside in
          let kind = sub-slice (offset + 4) 4 bytes (omega (arith, long)) in
          rw (e, here, kind)
            (Gives-bind (λ n. n < u32_mod) HasTall (be32 (drop offset bytes)) _
              (be32-Below (drop offset bytes) (All-drop IsByte offset bytes a))
              (λ len l. elim (Bool-cases (ltb (length bytes) (offset + 8 + len + 4))) [
                | inl e' ↦ rw (e', Gives) refl
                | inr e' ↦
                    let room = ltb-false (length bytes) _ e' in
                    let payload = sub-slice (offset + 8) len bytes (omega (arith, room)) in
                    rw (e', payload)
                      (Gives-bind StillTall HasTall _ _
                        (take_chunk-StillTall (slice (offset + 4) 4 bytes)
                          (slice (offset + 8) len bytes) parts (All-slice (offset + 8) len bytes a)
                          t)
                        (λ after s.
                          after_chunk fuel bytes (offset + 8 + len + 4) parts after t
                            (λ grown g.
                              read_chunks-HasTall fuel bytes (offset + 8 + len + 4) grown a g room
                                (omega (arith, h)))
                            s))
              ]))
    ]
