-- ===== src/Decoder/Bits/Bounds.antt =====
-- crates/ai-daemon-decode/src/main.rs, `struct Bits`: the reader stays within its bytes.
use ai_daemon.Prelude.{
  ℕ, zero, suc, ◌+◌, ◌*◌, ◌/◌, ◌≤◌, ◌<◌, refl, inl, inr, arith, get_elem?, length, count,
  Option-cases,
}
use ai_daemon.Prelude.{get_elem?-within}
use Prim.{absurd}
use ai_daemon.Decoder.{Result, ◌>>=◌}
use ai_daemon.Decoder.Bits.{Bytes, bit, bits_from, bits}
use ai_daemon.Decoder.Outcome.{Gives, Gives-bind, Gives-imp}

-- A reader that stood at `position` now stands further on, and no further than the end.
abbrev pub Further : {A : Type 0} → Bytes → ℕ → A × ℕ → Type 0
Further bytes position r = (position < r.1) × (r.1 ≤ 8 * length bytes)

abbrev pub NoNearer : {A : Type 0} → Bytes → ℕ → A × ℕ → Type 0
NoNearer bytes position r = (position ≤ r.1) × (r.1 ≤ 8 * length bytes)

pub bit-Further :
    (bytes : Bytes) (position : ℕ) → Gives (Further bytes position) (bit bytes position)
unfolding bit
bit-Further bytes position = elim (Option-cases (get_elem? bytes (position / 8))) [
  | inl e ↦ rw (e, Gives, bit) refl
  | inr (x, e) ↦
      let inside = get_elem?-within bytes _ x e in
      rw (e, Gives, bit) (omega arith, omega (arith, inside))
]

pub bits_from-NoNearer :
    (bytes : Bytes) (count place value position : ℕ)
    → position ≤ 8 * length bytes
    → Gives (NoNearer bytes position) (bits_from bytes count place value position)
unfolding bits_from
bits_from-NoNearer bytes zero place value position h = (omega arith, h)
bits_from-NoNearer bytes (suc count) place value position h =
    Gives-bind (Further bytes position) (NoNearer bytes position) (bit bytes position) _
      (bit-Further bytes position)
      (λ (b, next) (further, inside).
        Gives-imp (NoNearer bytes next) (NoNearer bytes position) _
          (bits_from-NoNearer bytes count (place * 2) (value + b * place) next inside)
          (λ r (more, within). (omega (arith, further, more), within)))

pub bits-NoNearer :
    (bytes : Bytes) (count position : ℕ)
    → position ≤ 8 * length bytes
    → Gives (NoNearer bytes position) (bits bytes count position)
unfolding bits
bits-NoNearer bytes count position h = bits_from-NoNearer bytes count 1 0 position h

pub Further-NoNearer :
    {A : Type 0} (bytes : Bytes) (position : ℕ) (r : Result (A × ℕ))
    → Gives (Further bytes position) r
    → Gives (NoNearer bytes position) r
Further-NoNearer bytes position r g =
    Gives-imp (Further bytes position) (NoNearer bytes position) r g
      (λ a (moved, inside). (omega (arith, moved), inside))

-- Two parsers in sequence, neither of which moves the reader back.
pub NoNearer-bind :
    {A B : Type 0} (bytes : Bytes) (position : ℕ) (r : Result (A × ℕ)) (f : A × ℕ → Result (B × ℕ))
    → Gives (NoNearer bytes position) r
    → ((a : A) (next : ℕ) → next ≤ 8 * length bytes → Gives (NoNearer bytes next) (f (a, next)))
    → Gives (NoNearer bytes position) (r >>= f)
NoNearer-bind bytes position r f g k =
    Gives-bind (NoNearer bytes position) (NoNearer bytes position) r f g
      (λ (a, next) (moved, inside).
        Gives-imp (NoNearer bytes next) (NoNearer bytes position) (f (a, next)) (k a next inside)
          (λ b (more, within). (omega (arith, moved, more), within)))

-- `place` after `count` doublings.
abbrev pub doubled : ℕ → ℕ → ℕ
doubled zero place = place
doubled (suc count) place = doubled count (place * 2)

abbrev Below : ℕ → ℕ × ℕ → Type 0
Below limit r = r.0 < limit

bit-Below : (bytes : Bytes) (position : ℕ) → Gives (Below 2) (bit bytes position)
unfolding bit
bit-Below bytes position = elim (Option-cases (get_elem? bytes (position / 8))) [
  | inl e ↦ rw (e, Gives, bit) refl
  | inr (x, e) ↦ rw (e, Gives, bit) (ground arith)
]

place_value : (b place value : ℕ) → b < 2 → value < place → value + b * place < place * 2
place_value zero place value s h = omega (arith, h)
place_value (suc zero) place value s h = omega (arith, h)
place_value (suc (suc b)) place value s h = absurd (omega (arith, s))

bits_from-Below :
    (bytes : Bytes) (count place value position : ℕ)
    → value < place
    → Gives (Below (doubled count place)) (bits_from bytes count place value position)
unfolding bits_from
bits_from-Below bytes zero place value position h = h
bits_from-Below bytes (suc count) place value position h =
    Gives-bind (Below 2) (Below (doubled (suc count) place)) (bit bytes position) _
      (bit-Below bytes position)
      (λ (b, next) small.
        bits_from-Below bytes count (place * 2) (value + b * place) next
          (place_value b place value small h))

pub bits-Below :
    (bytes : Bytes) (count position : ℕ)
    → Gives (λ (r : ℕ × ℕ). r.0 < doubled count 1) (bits bytes count position)
unfolding bits
bits-Below bytes count position = bits_from-Below bytes count 1 0 position (omega arith)
