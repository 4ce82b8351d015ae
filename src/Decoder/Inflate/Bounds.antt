-- ===== src/Decoder/Inflate/Bounds.antt =====
-- crates/ai-daemon-decode/src/main.rs, `mod inflate`: the decoder on any bytes whatever.
use ai_daemon.Prelude.{
  ℕ, zero, suc, ◌+◌, ◌*◌, ◌/◌, ◌%◌, ◌≤◌, ◌<◌, refl, inl, inr, [], ◌∷◌, arith, length, ◌==◌,
  Bool-cases,
}
use Prim.{absurd}
use ai_daemon.Decoder.Bits.{Bytes, bit, bits}
use ai_daemon.Decoder.Bits.Bounds.{Further, NoNearer, bit-Further, bits-NoNearer}
use ai_daemon.Decoder.Outcome.{Gives, Gives-bind, Gives-imp}
use ai_daemon.Decoder.Inflate.{typed_block, inflate_from, inflate, zlib}
use ai_daemon.Decoder.Inflate.Blocks.{Grown, typed_block-Grown}

-- The output is longer than the limit by at most the length of the stream.
abbrev pub Bounded : ℕ → ℕ → Bytes → Type 0
Bounded max_output size out = length out ≤ max_output + size

inflate_from-Bounded :
    (fuel inner : ℕ) (bytes : Bytes) (max_output : ℕ) (out : Bytes) (position : ℕ)
    → 8 * length out ≤ 8 * max_output + position
    → position ≤ 8 * length bytes
    → 8 * length bytes < position + fuel
    → 8 * length bytes < inner
    → Gives
        (Bounded max_output (length bytes))
        (inflate_from fuel inner bytes max_output out position)
unfolding inflate_from
inflate_from-Bounded zero inner bytes max_output out position small inside enough much =
    absurd (omega (arith, inside, enough))
inflate_from-Bounded (suc fuel) inner bytes max_output out position small inside enough much =
    Gives-bind (Further bytes position) (Bounded max_output (length bytes)) (bit bytes position) _
      (bit-Further bytes position)
      (λ (final, position₁) (moved₁, inside₁).
        Gives-bind (NoNearer bytes position₁) (Bounded max_output (length bytes))
          (bits bytes 2 position₁) _ (bits-NoNearer bytes 2 position₁ inside₁)
          (λ (kind, position₂) (moved₂, inside₂).
            Gives-bind (Grown bytes max_output position₂) (Bounded max_output (length bytes))
              (typed_block inner bytes max_output kind out position₂) _
              (typed_block-Grown inner bytes max_output kind out position₂
                (omega (arith, small, moved₁, moved₂)) inside₂ (omega (arith, much)))
              (λ (grown, position₃) (small₃, (moved₃, inside₃)). elim (Bool-cases (final == 1)) [
                | inl e ↦ rw (e, Gives) (omega (arith, small₃, inside₃))
                | inr e ↦
                    rw (e, Gives)
                      (inflate_from-Bounded fuel inner bytes max_output grown position₃ small₃
                        inside₃ (omega (arith, enough, moved₁, moved₂, moved₃)) much)
              ])))

inflate-Bounded :
    (bytes : Bytes) (max_output : ℕ)
    → Gives (Bounded max_output (length bytes)) (inflate bytes max_output)
unfolding inflate
inflate-Bounded bytes max_output =
    inflate_from-Bounded _ _ bytes max_output [] 0 (omega arith) (omega arith) (omega arith)
      (omega arith)

-- On any bytes whatever the decompressor ends with an output or a refusal: no table, symbol or
-- byte is read out of bounds, none of its loops runs for ever, and the output is longer than the
-- limit by at most the length of the input (a stored block is not held to the limit).
pub zlib_never_panics :
    (bytes : Bytes) (max_output : ℕ)
    → Gives (λ out. length out ≤ max_output + length bytes) (zlib bytes max_output)
unfolding zlib
zlib_never_panics [] max_output = refl
zlib_never_panics (cmf ∷ []) max_output = refl
zlib_never_panics (cmf ∷ flags ∷ bytes) max_output = elim (Bool-cases (cmf % 16 == 8)) [
  | inr e ↦ rw (e, Gives) refl
  | inl e ↦ elim (Bool-cases ((cmf * 256 + flags) % 31 == 0)) [
    | inr e₁ ↦ rw (e, e₁, Gives) refl
    | inl e₁ ↦ elim (Bool-cases (flags / 32 % 2 == 1)) [
      | inl e₂ ↦ rw (e, e₁, e₂, Gives) refl
      | inr e₂ ↦
          rw (e, e₁, e₂)
            (Gives-imp (Bounded max_output (length bytes)) _ (inflate bytes max_output)
              (inflate-Bounded bytes max_output) (λ out small. omega (arith, small)))
    ]
  ]
]
