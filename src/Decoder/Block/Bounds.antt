-- ===== src/Decoder/Block/Bounds.antt =====
-- crates/ai-daemon-decode/src/main.rs, `block`: the tables and the output are read in bounds.
use ai_daemon.Prelude.{
  ℕ, zero, suc, ◌+◌, ◌-◌, ◌*◌, ◌≤◌, ◌<◌, ◌≡◌, refl, inl, inr, none, some, [], ◌∷◌, ◌++◌, arith,
  get_elem?, all-get_elem?, length, length-append, ltb, leb, ◌==◌, Bool-cases,
}
use Prim.{absurd}
use ai_daemon.Decoder.{ok, ◌>>=◌, index}
use ai_daemon.Decoder.Bits.{Bytes, bits}
use ai_daemon.Decoder.Bits.Bounds.{
  Further-NoNearer, NoNearer-bind, Further, NoNearer, bits-NoNearer,
}
use ai_daemon.Decoder.Outcome.{Gives, Gives-bind, Gives-imp, index-Gives}
use ai_daemon.Decoder.Huffman.{Huffman, decode}
use ai_daemon.Decoder.Huffman.Places.{IsComplete, decode-Further}
use ai_daemon.Decoder.Block.{
  length_base, length_extra, distance_base, distance_extra, copy_back, refer_back, read_distance,
  back_reference, symbol_step, block,
}

copy_back-length :
    (n start : ℕ) (out : Bytes)
    → start < length out
    → Gives (λ grown. length grown ≡ length out + n) (copy_back n start out)
unfolding copy_back
copy_back-length zero start out h = omega arith
copy_back-length (suc n) start out h =
    Gives-bind (λ byte. get_elem? out start ≡ some byte) _ (index out start) _
      (index-Gives out start h)
      (λ byte found.
        let longer = length-append out (byte ∷ []) in
        Gives-imp (λ (grown : Bytes). length grown ≡ length (out ++ byte ∷ []) + n)
          (λ (grown : Bytes). length grown ≡ length out + suc n) _
          (copy_back-length n (start + 1) (out ++ byte ∷ []) (omega (arith, h, longer)))
          (λ grown same. omega (arith, same, longer)))

refer_back-NoNearer :
    (bytes : Bytes) (copied distance : ℕ) (out : Bytes) (position : ℕ)
    → 0 < distance
    → position ≤ 8 * length bytes
    → Gives (NoNearer bytes position) (refer_back copied distance out position)
unfolding refer_back
refer_back-NoNearer bytes copied distance out position h inside =
    elim (Bool-cases (ltb (length out) distance)) [
      | inl e ↦ rw (e, Gives) refl
      | inr e ↦
          let within : distance ≤ length out = ground (arith, e) in
          rw (e, Gives)
            (Gives-bind (λ (grown : Bytes). length grown ≡ length out + copied)
              (NoNearer bytes position) (copy_back copied (length out - distance) out)
              (λ grown. ok (grown, position))
              (copy_back-length copied (length out - distance) out (omega (arith, within, h)))
              (λ grown same. (omega arith, inside)))
    ]

-- A distance is at least 1.
abbrev Distance : Bytes → ℕ → ℕ × ℕ → Type 0
Distance bytes position r = (0 < r.0) × NoNearer bytes position r

listed-Distance-Distance :
    (bytes : Bytes) (symbol position : ℕ)
    → symbol < 30
    → position ≤ 8 * length bytes
    → Gives (Distance bytes position) (do
      far_base ← index distance_base symbol
      far_extra ← index distance_extra symbol
      (further, next) ← bits bytes far_extra position
      ok (far_base + further, next))
listed-Distance-Distance bytes symbol position h inside =
    Gives-bind (λ x. get_elem? distance_base symbol ≡ some x) (Distance bytes position)
      (index distance_base symbol) _ (index-Gives distance_base symbol h)
      (λ base e.
        Gives-bind (λ x. get_elem? distance_extra symbol ≡ some x) (Distance bytes position)
          (index distance_extra symbol) _ (index-Gives distance_extra symbol h)
          (λ extra e'.
            Gives-bind (NoNearer bytes position) (Distance bytes position)
              (bits bytes extra position) _ (bits-NoNearer bytes extra position inside)
              (λ (further, next) (moved, within).
                let some_way = all-get_elem? (λ x. ltb 0 x) distance_base symbol base refl e in
                (ground (arith, some_way), (moved, within)))))

read_distance-Distance :
    (bytes : Bytes) (symbol position : ℕ)
    → position ≤ 8 * length bytes
    → Gives (Distance bytes position) (read_distance bytes symbol position)
unfolding read_distance
read_distance-Distance bytes symbol position inside = elim (Bool-cases (leb 30 symbol)) [
  | inl e ↦ rw (e, Gives) refl
  | inr e ↦
      rw (e, Gives) (listed-Distance-Distance bytes symbol position (ground (arith, e)) inside)
]

reference-NoNearer :
    (bytes : Bytes) (copied symbol : ℕ) (out : Bytes) (position : ℕ)
    → position ≤ 8 * length bytes
    → Gives
        (NoNearer bytes position)
        (read_distance bytes symbol position >>= λ r. refer_back copied r.0 out r.1)
reference-NoNearer bytes copied symbol out position inside =
    Gives-bind (Distance bytes position) (NoNearer bytes position)
      (read_distance bytes symbol position) _ (read_distance-Distance bytes symbol position inside)
      (λ (distance, next) (some_way, (moved, within)).
        Gives-imp (NoNearer bytes next) (NoNearer bytes position) _
          (refer_back-NoNearer bytes copied distance out next some_way within)
          (λ r (more, within'). (omega (arith, moved, more), within')))

back_reference-NoNearer :
    (bytes : Bytes) (distances : Huffman) (i : ℕ) (out : Bytes) (position : ℕ)
    → IsComplete distances
    → i < 29
    → position ≤ 8 * length bytes
    → Gives (NoNearer bytes position) (back_reference bytes distances i out position)
unfolding back_reference
back_reference-NoNearer bytes distances i out position c h inside =
    Gives-bind (λ x. get_elem? length_base i ≡ some x) (NoNearer bytes position)
      (index length_base i) _ (index-Gives length_base i h)
      (λ base e.
        Gives-bind (λ x. get_elem? length_extra i ≡ some x) (NoNearer bytes position)
          (index length_extra i) _ (index-Gives length_extra i h)
          (λ extra e'.
            NoNearer-bind bytes position (bits bytes extra position) _
              (bits-NoNearer bytes extra position inside)
              (λ more position₁ inside₁.
                NoNearer-bind bytes position₁ (decode bytes distances position₁) _
                  (Further-NoNearer bytes position₁ _ (decode-Further bytes distances position₁ c))
                  (λ symbol position₂ inside₂.
                    reference-NoNearer bytes (base + more) symbol out position₂ inside₂))))

symbol_step-NoNearer :
    (bytes : Bytes) (distances : Huffman) (symbol : ℕ) (out : Bytes) (position : ℕ)
    → IsComplete distances
    → position ≤ 8 * length bytes
    → Gives (NoNearer bytes position) (symbol_step bytes distances symbol out position)
unfolding symbol_step
symbol_step-NoNearer bytes distances symbol out position c inside =
    elim (Bool-cases (ltb symbol 256)) [
      | inl e ↦ rw (e, Gives) (omega arith, inside)
      | inr e ↦ elim (Bool-cases (symbol == 256)) [
        | inl e' ↦ rw (e, e', Gives) (omega arith, inside)
        | inr e' ↦ elim (Bool-cases (leb symbol 285)) [
          | inl e'' ↦
              rw (e, e', e'', Gives)
                (NoNearer-bind bytes position
                  (back_reference bytes distances (symbol - 257) out position)
                  (λ x. ok (some x.0, x.1))
                  (back_reference-NoNearer bytes distances (symbol - 257) out position c
                    (ground (arith, e, e', e'')) inside)
                  (λ grown next within. (omega arith, within)))
          | inr e'' ↦ rw (e, e', e'', Gives) refl
        ]
      ]
    ]

-- What a block leaves: the reader is further on, and the output is within the limit.
abbrev pub Filled : Bytes → ℕ → ℕ → Bytes × ℕ → Type 0
Filled bytes max_output position r = (length r.0 ≤ max_output) × Further bytes position r

pub block-Filled :
    (fuel : ℕ) (bytes : Bytes) (literals distances : Huffman) (max_output : ℕ) (out : Bytes)
    (position : ℕ)
    → IsComplete literals
    → IsComplete distances
    → position ≤ 8 * length bytes
    → 8 * length bytes < position + fuel
    → Gives
        (Filled bytes max_output position)
        (block fuel bytes literals distances max_output out position)
unfolding block
block-Filled zero bytes literals distances max_output out position c c' inside enough =
    absurd (omega (arith, inside, enough))
block-Filled (suc fuel) bytes literals distances max_output out position c c' inside enough =
    elim (Bool-cases (ltb max_output (length out))) [
      | inl e ↦ rw (e, Gives) refl
      | inr e ↦
          let fits : length out ≤ max_output = ground (arith, e) in
          rw (e, Gives)
            (Gives-bind (Further bytes position) (Filled bytes max_output position)
              (decode bytes literals position) _ (decode-Further bytes literals position c)
              (λ (symbol, position₁) (moved, inside₁).
                Gives-bind (NoNearer bytes position₁) (Filled bytes max_output position)
                  (symbol_step bytes distances symbol out position₁) _
                  (symbol_step-NoNearer bytes distances symbol out position₁ c' inside₁)
                  (λ (step, position₂) (more, inside₂).
                    elim step
                      as (λ s. Gives (Filled bytes max_output position) (elim s [
                        | none ↦ ok (out, position₂)
                        | some grown ↦
                            block fuel bytes literals distances max_output grown position₂
                      ])) [
                        | none ↦ (fits, (omega (arith, moved, more), inside₂))
                        | some grown ↦
                            Gives-imp (Filled bytes max_output position₂)
                              (Filled bytes max_output position) _
                              (block-Filled fuel bytes literals distances max_output grown position₂
                                c c' inside₂ (omega (arith, enough, moved, more)))
                              (λ r (small, (further, within)).
                                (small, (omega (arith, moved, more, further), within)))
                      ])))
    ]
