-- ===== src/Decoder/Inflate/Blocks.antt =====
-- crates/ai-daemon-decode/src/main.rs, `mod inflate`: each block is read in bounds.
use ai_daemon.Prelude.{
  ℕ, ◌+◌, ◌*◌, ◌/◌, ◌≤◌, ◌<◌, ◌≡◌, refl, inl, inr, some, List, [], ◌++◌, arith, get_elem?,
  replicate, take, drop, slice, length-slice, All-replicate, All-take, All-drop, length, All,
  All-append, length-append, ltb, ◌==◌, if◌then◌else◌, Bool-cases,
}
use ai_daemon.Decoder.{Result, err, ◌>>=◌, index, Fault}
use ai_daemon.Decoder.Bits.{Bytes, bits, align}
use ai_daemon.Decoder.Bits.Bounds.{Further, NoNearer, bits-NoNearer}
use ai_daemon.Decoder.Outcome.{Gives, Gives-bind, Gives-imp, index-Gives}
use ai_daemon.Decoder.Huffman.{new_huffman}
use ai_daemon.Decoder.Huffman.Places.{IsComplete, IsLength, new_huffman-IsComplete}
use ai_daemon.Decoder.Block.{block}
use ai_daemon.Decoder.Block.Bounds.{Filled, block-Filled}
use ai_daemon.Decoder.Inflate.{
  le16, stored_bytes, stored_block, fixed_lengths, order, read_code_lengths, read_lengths,
  dynamic_block, fixed_block, typed_block,
}
use ai_daemon.Decoder.Inflate.Lengths.{Lengths, read_code_lengths-Lengths, read_lengths-Lengths}

-- The output is within the limit but for as many bytes as were read.
abbrev pub Grown : Bytes → ℕ → ℕ → Bytes × ℕ → Type 0
Grown bytes max_output position r =
    (8 * length r.0 ≤ 8 * max_output + r.1) × Further bytes position r

stored_bytes-Grown :
    (bytes out : Bytes) (max_output from len position : ℕ)
    → 8 * length out ≤ 8 * max_output + position
    → position < 8 * from
    → Gives (Grown bytes max_output position) (stored_bytes bytes out from len)
unfolding stored_bytes
stored_bytes-Grown bytes out max_output from len position small h =
    elim (Bool-cases (ltb (length bytes) (from + len))) [
      | inl e ↦ rw (e, Gives) refl
      | inr e ↦
          let within : from + len ≤ length bytes = ground (arith, e) in
          let longer = length-append out (slice from len bytes) in
          rw (e, Gives)
            (
              omega (arith, small, h, longer, length-slice from len bytes within),
              (omega (arith, h), omega (arith, within)),
            )
    ]

in_bounds :
    (P : Bytes × ℕ → Type 0) (bytes : Bytes) (i : ℕ) (f : ℕ → Result (Bytes × ℕ))
    → i < length bytes
    → ((x : ℕ) → Gives P (f x))
    → Gives P (index bytes i >>= f)
in_bounds P bytes i f h k =
    Gives-bind (λ x. get_elem? bytes i ≡ some x) P (index bytes i) f (index-Gives bytes i h)
      (λ x e. k x)

stored_block-Grown :
    (bytes out : Bytes) (max_output position : ℕ)
    → 8 * length out ≤ 8 * max_output + position
    → Gives (Grown bytes max_output position) (stored_block bytes out position)
unfolding stored_block align
stored_block-Grown bytes out max_output position small =
    let start = align position / 8 in
    elim (Bool-cases (ltb (length bytes) (start + 4))) [
      | inl e ↦ rw (e, Gives) refl
      | inr e ↦
          let within : start + 4 ≤ length bytes = ground (arith, e) in
          rw e (
            in_bounds (Grown bytes max_output position) bytes start _ (omega (arith, within)) (λ a.
              in_bounds (Grown bytes max_output position) bytes (start + 1) _
                (omega (arith, within))
                (λ b.
                  in_bounds (Grown bytes max_output position) bytes (start + 2) _
                    (omega (arith, within))
                    (λ c.
                      in_bounds (Grown bytes max_output position) bytes (start + 3) _
                        (omega (arith, within))
                        (λ d. elim (Bool-cases (le16 a b + le16 c d == 65535)) [
                          | inl e' ↦ rw e' (
                              stored_bytes-Grown bytes out max_output (start + 4) (le16 a b)
                                position small (omega arith))
                          | inr e' ↦ rw (e', Gives) refl
                        ])))))
    ]

Filled-Grown :
    (bytes : Bytes) (max_output position next : ℕ) (r : Result (Bytes × ℕ))
    → position ≤ next
    → Gives (Filled bytes max_output next) r
    → Gives (Grown bytes max_output position) r
Filled-Grown bytes max_output position next r h g =
    Gives-imp (Filled bytes max_output next) (Grown bytes max_output position) r g
      (λ a (small, (moved, inside)). (omega (arith, small), (omega (arith, h, moved), inside)))

coded_block-Grown :
    (fuel : ℕ) (bytes : Bytes) (max_output : ℕ) (out : Bytes) (position next : ℕ)
    (lengths far : List ℕ)
    → All IsLength lengths
    → All IsLength far
    → position ≤ next
    → next ≤ 8 * length bytes
    → 8 * length bytes < next + fuel
    → Gives (Grown bytes max_output position) (do
      literals ← new_huffman lengths
      distances ← new_huffman far
      block fuel bytes literals distances max_output out next)
coded_block-Grown fuel bytes max_output out position next lengths far a b h inside enough =
    Gives-bind IsComplete (Grown bytes max_output position) (new_huffman lengths) _
      (new_huffman-IsComplete lengths a)
      (λ literals c.
        Gives-bind IsComplete (Grown bytes max_output position) (new_huffman far) _
          (new_huffman-IsComplete far b)
          (λ distances c'.
            Filled-Grown bytes max_output position next _ h
              (block-Filled fuel bytes literals distances max_output out next c c' inside enough)))

fixed_lengths-IsLength : All IsLength fixed_lengths
fixed_lengths-IsLength =
    let small = All-replicate IsLength in
    let eights : List ℕ = replicate 8 8 in
    let sevens : List ℕ = replicate 24 7 ++ eights in
    let nines : List ℕ = replicate 112 9 ++ sevens in
    All-append IsLength (replicate 144 8) nines (small 144 8 (omega arith)) (
      All-append IsLength (replicate 112 9) sevens (small 112 9 (omega arith)) (
        All-append IsLength (replicate 24 7) eights (small 24 7 (omega arith))
          (small 8 8 (omega arith))))

fixed_block-Grown :
    (fuel : ℕ) (bytes : Bytes) (max_output : ℕ) (out : Bytes) (position : ℕ)
    → position ≤ 8 * length bytes
    → 8 * length bytes < position + fuel
    → Gives (Grown bytes max_output position) (fixed_block fuel bytes max_output out position)
unfolding fixed_block
fixed_block-Grown fuel bytes max_output out position inside enough =
    coded_block-Grown fuel bytes max_output out position position fixed_lengths (replicate 30 5)
      fixed_lengths-IsLength (All-replicate IsLength 30 5 (omega arith)) (omega arith) inside enough

-- What a dynamic block does once its numbers of lengths are read.
described_block-Grown :
    (fuel : ℕ) (bytes : Bytes) (max_output : ℕ) (out : Bytes) (l d c position : ℕ)
    → position ≤ 8 * length bytes
    → 8 * length bytes < position + fuel
    → Gives (Grown bytes max_output position) (do
      (code_lengths, position₄) ←
          read_code_lengths bytes (take (c + 4) order) (replicate 19 0) position
      let wanted = l + 257 + (d + 1)
      codes ← new_huffman code_lengths
      (lengths, position₅) ← read_lengths fuel bytes codes wanted [] position₄
      if ltb wanted (length lengths) then err Fault.overrun else (do
        literals ← new_huffman (take (l + 257) lengths)
        distances ← new_huffman (drop (l + 257) lengths)
        block fuel bytes literals distances max_output out position₅))
described_block-Grown fuel bytes max_output out l d c position inside enough =
    let wanted = l + 257 + (d + 1) in
    Gives-bind (Lengths bytes position) (Grown bytes max_output position) _ _
      (read_code_lengths-Lengths bytes (take (c + 4) order) (replicate 19 0) position
        (All-replicate IsLength 19 0 (omega arith)) inside)
      (λ (code_lengths, position₄) (a, (moved, inside₄)).
        Gives-bind IsComplete (Grown bytes max_output position) (new_huffman code_lengths) _
          (new_huffman-IsComplete code_lengths a)
          (λ codes complete.
            Gives-bind (Lengths bytes position₄) (Grown bytes max_output position)
              (read_lengths fuel bytes codes wanted [] position₄) _
              (read_lengths-Lengths fuel bytes codes wanted [] position₄ complete tt inside₄
                (omega (arith, enough, moved)))
              (λ (lengths, position₅) (b, (more, inside₅)).
                elim (Bool-cases (ltb wanted (length lengths))) [
                  | inl e ↦ rw (e, Gives) refl
                  | inr e ↦ rw e (
                      coded_block-Grown fuel bytes max_output out position position₅
                        (take (l + 257) lengths) (drop (l + 257) lengths)
                        (All-take IsLength (l + 257) lengths b)
                        (All-drop IsLength (l + 257) lengths b) (omega (arith, moved, more)) inside₅
                        (omega (arith, enough, moved, more)))
                ])))

dynamic_block-Grown :
    (fuel : ℕ) (bytes : Bytes) (max_output : ℕ) (out : Bytes) (position : ℕ)
    → position ≤ 8 * length bytes
    → 8 * length bytes < position + fuel
    → Gives (Grown bytes max_output position) (dynamic_block fuel bytes max_output out position)
unfolding dynamic_block
dynamic_block-Grown fuel bytes max_output out position inside enough =
    let Out = Grown bytes max_output position in
    Gives-bind (NoNearer bytes position) Out (bits bytes 5 position) _
      (bits-NoNearer bytes 5 position inside)
      (λ (l, p₁) (m₁, i₁).
        Gives-bind (NoNearer bytes p₁) Out (bits bytes 5 p₁) _ (bits-NoNearer bytes 5 p₁ i₁)
          (λ (d, p₂) (m₂, i₂).
            Gives-bind (NoNearer bytes p₂) Out (bits bytes 4 p₂) _ (bits-NoNearer bytes 4 p₂ i₂)
              (λ (c, p₃) (m₃, i₃).
                Gives-imp (Grown bytes max_output p₃) Out _
                  (described_block-Grown fuel bytes max_output out l d c p₃ i₃
                    (omega (arith, enough, m₁, m₂, m₃)))
                  (λ r (small, (more, within)).
                    (small, (omega (arith, m₁, m₂, m₃, more), within))))))

pub typed_block-Grown :
    (fuel : ℕ) (bytes : Bytes) (max_output kind : ℕ) (out : Bytes) (position : ℕ)
    → 8 * length out ≤ 8 * max_output + position
    → position ≤ 8 * length bytes
    → 8 * length bytes < position + fuel
    → Gives (Grown bytes max_output position) (typed_block fuel bytes max_output kind out position)
unfolding typed_block
typed_block-Grown fuel bytes max_output kind out position small inside enough =
    elim (Bool-cases (kind == 0)) [
      | inl e ↦ rw e (stored_block-Grown bytes out max_output position small)
      | inr e ↦ elim (Bool-cases (kind == 1)) [
        | inl e₁ ↦ rw (e, e₁) (fixed_block-Grown fuel bytes max_output out position inside enough)
        | inr e₁ ↦ elim (Bool-cases (kind == 2)) [
          | inl e₂ ↦
              rw (e, e₁, e₂) (dynamic_block-Grown fuel bytes max_output out position inside enough)
          | inr e₂ ↦ rw (e, e₁, e₂, Gives) refl
        ]
      ]
    ]
