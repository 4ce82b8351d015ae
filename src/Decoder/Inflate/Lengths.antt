-- ===== src/Decoder/Inflate/Lengths.antt =====
-- crates/ai-daemon-decode/src/main.rs, `inflate`: the code lengths of a dynamic block.
use ai_daemon.Prelude.{
  ℕ, zero, suc, ◌+◌, ◌*◌, ◌≤◌, ◌<◌, ◌≡◌, refl, subst, inl, inr, some, List, [], ◌∷◌, ◌++◌, arith,
  set, replicate, All-set, All-replicate, length, All, All-append, ltb, leb, ◌==◌, Bool-cases,
  Option-cases,
}
use Prim.{absurd}
use ai_daemon.Decoder.{Result, ok, ◌>>=◌}
use ai_daemon.Decoder.Bits.{Bytes, bits}
use ai_daemon.Decoder.Bits.Bounds.{Further, NoNearer, bits-NoNearer, bits-Below}
use ai_daemon.Decoder.Outcome.{Gives, Gives-bind, Gives-imp, Gives-both}
use ai_daemon.Decoder.Huffman.{Huffman, decode}
use ai_daemon.Decoder.Huffman.Places.{IsComplete, IsLength, decode-Further}
use ai_daemon.Decoder.Inflate.{read_code_lengths, last_of, repeat_last, length_step, read_lengths}

-- Code lengths that a reader gives, which does not move back.
abbrev pub Lengths : Bytes → ℕ → List ℕ × ℕ → Type 0
Lengths bytes position r = All IsLength r.0 × NoNearer bytes position r

Lengths-later :
    (bytes : Bytes) (position next : ℕ) (r : Result (List ℕ × ℕ))
    → position ≤ next
    → Gives (Lengths bytes next) r
    → Gives (Lengths bytes position) r
Lengths-later bytes position next r h g =
    Gives-imp (Lengths bytes next) (Lengths bytes position) r g
      (λ a (small, (moved, inside)). (small, (omega (arith, h, moved), inside)))

pub read_code_lengths-Lengths :
    (bytes : Bytes) (places lengths : List ℕ) (position : ℕ)
    → All IsLength lengths
    → position ≤ 8 * length bytes
    → Gives (Lengths bytes position) (read_code_lengths bytes places lengths position)
unfolding read_code_lengths
read_code_lengths-Lengths bytes [] lengths position a inside = (a, (omega arith, inside))
read_code_lengths-Lengths bytes (place ∷ places) lengths position a inside =
    Gives-bind _ (Lengths bytes position) (bits bytes 3 position) _
      (Gives-both (λ (r : ℕ × ℕ). r.0 < 8) (NoNearer bytes position) (bits bytes 3 position)
        (bits-Below bytes 3 position) (bits-NoNearer bytes 3 position inside))
      (λ (l, next) (small, (moved, within)). Lengths-later bytes position next _ moved (
        read_code_lengths-Lengths bytes places (set lengths place l) next
          (All-set IsLength lengths place l (omega (arith, small)) a) within))

All-last_of : (xs : List ℕ) (x : ℕ) → All IsLength xs → last_of xs ≡ some x → IsLength x
All-last_of [] x a e = cc
All-last_of (y ∷ []) x a e = subst IsLength (cc e) a.0
All-last_of (y ∷ z ∷ zs) x a e = All-last_of (z ∷ zs) x a.1 e

repeat_last-Lengths :
    (bytes : Bytes) (wanted : ℕ) (lengths : List ℕ) (times position : ℕ)
    → All IsLength lengths
    → position ≤ 8 * length bytes
    → Gives (Lengths bytes position) (repeat_last wanted lengths times position)
unfolding repeat_last
repeat_last-Lengths bytes wanted lengths times position a inside =
    elim (Option-cases (last_of lengths)) [
      | inl e ↦ rw (e, Gives) refl
      | inr (x, e) ↦ elim (Bool-cases (ltb wanted (length lengths + times))) [
        | inl e' ↦ rw (e, e', Gives) refl
        | inr e' ↦
            rw (e, e', Gives)
              (
                All-append IsLength lengths (replicate times x) a
                    (All-replicate IsLength times x (All-last_of lengths x a e)),
                (omega arith, inside),
              )
      ]
    ]

zeros-Lengths :
    (bytes : Bytes) (lengths : List ℕ) (width base position : ℕ)
    → All IsLength lengths
    → position ≤ 8 * length bytes
    → Gives
        (Lengths bytes position)
        (bits bytes width position >>= λ r. ok (lengths ++ replicate (base + r.0) 0, r.1))
zeros-Lengths bytes lengths width base position a inside =
    Gives-bind (NoNearer bytes position) (Lengths bytes position) (bits bytes width position) _
      (bits-NoNearer bytes width position inside)
      (λ (n, next) moved. (
        All-append IsLength lengths (replicate (base + n) 0) a
            (All-replicate IsLength (base + n) 0 (omega arith)),
        moved,
      ))

repeats-Lengths :
    (bytes : Bytes) (wanted : ℕ) (lengths : List ℕ) (position : ℕ)
    → All IsLength lengths
    → position ≤ 8 * length bytes
    → Gives
        (Lengths bytes position)
        (bits bytes 2 position >>= λ r. repeat_last wanted lengths (3 + r.0) r.1)
repeats-Lengths bytes wanted lengths position a inside =
    Gives-bind (NoNearer bytes position) (Lengths bytes position) (bits bytes 2 position) _
      (bits-NoNearer bytes 2 position inside)
      (λ (n, next) (moved, within).
        Lengths-later bytes position next _ moved
          (repeat_last-Lengths bytes wanted lengths (3 + n) next a within))

length_step-Lengths :
    (bytes : Bytes) (wanted : ℕ) (lengths : List ℕ) (symbol position : ℕ)
    → All IsLength lengths
    → position ≤ 8 * length bytes
    → Gives (Lengths bytes position) (length_step bytes wanted lengths symbol position)
unfolding length_step
length_step-Lengths bytes wanted lengths symbol position a inside =
    elim (Bool-cases (ltb symbol 16)) [
      | inl e ↦
          rw (e, Gives)
            (
              All-append IsLength lengths (symbol ∷ []) a (ground (arith, e), tt),
              (omega arith, inside),
            )
      | inr e ↦ elim (Bool-cases (symbol == 16)) [
        | inl e₁ ↦ elim (Bool-cases (length lengths == 0)) [
          | inl z ↦ rw (e, e₁, z, Gives) refl
          | inr z ↦ rw (e, e₁, z) (repeats-Lengths bytes wanted lengths position a inside)
        ]
        | inr e₁ ↦ elim (Bool-cases (symbol == 17)) [
          | inl e₂ ↦ rw (e, e₁, e₂) (zeros-Lengths bytes lengths 3 3 position a inside)
          | inr e₂ ↦ elim (Bool-cases (symbol == 18)) [
            | inl e₃ ↦ rw (e, e₁, e₂, e₃) (zeros-Lengths bytes lengths 7 11 position a inside)
            | inr e₃ ↦ rw (e, e₁, e₂, e₃, Gives) refl
          ]
        ]
      ]
    ]

pub read_lengths-Lengths :
    (fuel : ℕ) (bytes : Bytes) (h : Huffman) (wanted : ℕ) (lengths : List ℕ) (position : ℕ)
    → IsComplete h
    → All IsLength lengths
    → position ≤ 8 * length bytes
    → 8 * length bytes < position + fuel
    → Gives (Lengths bytes position) (read_lengths fuel bytes h wanted lengths position)
unfolding read_lengths
read_lengths-Lengths zero bytes h wanted lengths position c a inside enough =
    absurd (omega (arith, inside, enough))
read_lengths-Lengths (suc fuel) bytes h wanted lengths position c a inside enough =
    elim (Bool-cases (leb wanted (length lengths))) [
      | inl e ↦ rw (e, Gives) (a, (omega arith, inside))
      | inr e ↦
          rw (e, Gives)
            (Gives-bind (Further bytes position) (Lengths bytes position) (decode bytes h position)
              _ (decode-Further bytes h position c)
              (λ (symbol, next) (moved, within).
                Gives-bind (Lengths bytes next) (Lengths bytes position)
                  (length_step bytes wanted lengths symbol next) _
                  (length_step-Lengths bytes wanted lengths symbol next a within)
                  (λ (lengths', next') (small, (more, within')).
                    Lengths-later bytes position next' _ (omega (arith, moved, more)) (
                      read_lengths-Lengths fuel bytes h wanted lengths' next' c small within'
                        (omega (arith, enough, moved, more))))))
    ]
