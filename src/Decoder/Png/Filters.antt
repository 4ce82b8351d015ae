-- ===== src/Decoder/Png/Filters.antt =====
-- crates/ai-daemon-decode/src/main.rs: the row filters of `unfilter` against the encoder's side of
-- them, which is that of `build` in the tests, with a filter for each row.
use ai_daemon.Prelude.{
  ℕ, zero, suc, ◌+◌, ◌-◌, ◌*◌, ◌/◌, ◌%◌, ◌≤◌, ◌<◌, ◌≡◌, refl, sym, ap, append-nil, append_assoc,
  ◌∙◌, ◌⊎◌, inl, inr, ◌&&◌, Option, none, some, [], ◌∷◌, ◌++◌, arith, get_elem?, length, filter,
  All, length-append, leb, ◌==◌, if◌then◌else◌, Bool-cases,
}
use Prim.{absurd}
use ai_daemon.Decoder.{ok, index}
use ai_daemon.Decoder.Bits.{Bytes}
use ai_daemon.Decoder.Png.{distance, paeth, unfilter_byte, above, unfilter_row}

abbrev pub IsByte : ℕ → Type 0
IsByte x = x < 256

-- How far apart two numbers are.
abbrev apart : ℕ → ℕ → ℕ
apart m n = if leb m n then n - m else m - n

-- The encoder's own `paeth`, where `p` is `a + b - c`: `p - a` is `b - c`, `p - b` is `a - c`, and
-- `p - c` is `a + b` less twice `c`.
unfoldable pub reference_paeth : ℕ → ℕ → ℕ → ℕ
reference_paeth a b c =
    let pa = apart b c in
    let pb = apart a c in
    let pc = apart (a + b) (2 * c) in
    if leb pa pb && leb pa pc then a else if leb pb pc then b else c

apart-distance : (m n k : ℕ) → apart m n ≡ distance (k + m) (k + n)
apart-distance m n k = ground arith

reference_paeth-paeth : (a b c : ℕ) → reference_paeth a b c ≡ paeth a b c
unfolding reference_paeth paeth
reference_paeth-paeth a b c =
    let pa = apart-distance b c a in
    let pb : apart a c ≡ distance (a + b) (b + c) = ground arith in
    let pc : apart (a + b) (2 * c) ≡ distance (a + b) (c + c) = ground arith in rw (pa, pb, pc) refl

-- The prediction that a filter subtracts.
unfoldable pub predicted : ℕ → ℕ → ℕ → ℕ → ℕ
predicted filter a b c =
    if filter == 0
    then 0
    else if filter == 1
    then a
    else if filter == 2
    then b
    else if filter == 3
    then (a + b) / 2
    else reference_paeth a b c

-- `raw.wrapping_sub(..)`.
unfoldable pub filter_byte : ℕ → ℕ → ℕ → ℕ → ℕ → ℕ
filter_byte filter x a b c = (x + (256 - predicted filter a b c % 256)) % 256

abbrev pub at : Bytes → ℕ → ℕ
at xs i = elim (get_elem? xs i) [ none ↦ 0 | some x ↦ x ]

abbrev pub over : Option Bytes → ℕ → ℕ
over none i = 0
over (some previous) i = at previous i

-- The bytes of `row` from `i` on, filtered.
unfoldable pub filter_from : ℕ → ℕ → Option Bytes → Bytes → ℕ → Bytes → Bytes
filter_from filter channels previous row i [] = []
filter_from filter channels previous row i (x ∷ rest) =
    let a = if leb channels i then at row (i - channels) else 0 in
    let c = if leb channels i then over previous (i - channels) else 0 in
    filter_byte filter x a (over previous i) c
    ∷ filter_from filter channels previous row (i + 1) rest

abbrev pub filter_row : ℕ → ℕ → Option Bytes → Bytes → Bytes
filter_row filter channels previous row = filter_from filter channels previous row 0 row

pub length-filter_from :
    (filter channels : ℕ) (previous : Option Bytes) (row : Bytes) (i : ℕ) (rest : Bytes)
    → length (filter_from filter channels previous row i rest) ≡ length rest
unfolding filter_from
length-filter_from filter channels previous row i [] = refl
length-filter_from filter channels previous row i (x ∷ rest) =
    ap suc (length-filter_from filter channels previous row (i + 1) rest)

wrapping : (x p : ℕ) → x < 256 → ((x + (256 - p % 256)) % 256 + p) % 256 ≡ x
wrapping x p h = omega arith

filter_cases :
    (filter : ℕ)
    → filter ≤ 4
    → (filter ≡ 0) ⊎ ((filter ≡ 1) ⊎ ((filter ≡ 2) ⊎ ((filter ≡ 3) ⊎ (filter ≡ 4))))
filter_cases filter h = ground arith

unfilter_byte-filter_byte :
    (filter x a b c : ℕ)
    → filter ≤ 4
    → IsByte x
    → unfilter_byte filter (filter_byte filter x a b c) a b c ≡ ok x
unfolding unfilter_byte filter_byte predicted
unfilter_byte-filter_byte filter x a b c h byte = elim (filter_cases filter h) [
  | inl e ↦ rw e (ap ok (omega (arith, byte)))
  | inr (inl e) ↦ rw e (ap ok (wrapping x a byte))
  | inr (inr (inl e)) ↦ rw e (ap ok (wrapping x b byte))
  | inr (inr (inr (inl e))) ↦ rw e (ap ok (omega (arith, byte)))
  | inr (inr (inr (inr e))) ↦
      rw (e, reference_paeth-paeth a b c) (ap ok (wrapping x (paeth a b c) byte))
]

at-append : (xs ys : Bytes) (i : ℕ) → i < length xs → index xs i ≡ ok (at (xs ++ ys) i)
at-append [] ys i h = absurd (omega (arith, h))
at-append (x ∷ xs) ys zero h = refl
at-append (x ∷ xs) ys (suc i) h = at-append xs ys i (omega (arith, h))

index-at : (xs : Bytes) (i : ℕ) → i < length xs → index xs i ≡ ok (at xs i)
index-at [] i h = absurd (omega (arith, h))
index-at (x ∷ xs) zero h = refl
index-at (x ∷ xs) (suc i) h = index-at xs i (omega (arith, h))

-- The row above is as long as the row.
abbrev pub Covers : ℕ → Option Bytes → Type 0
Covers size none = Unit {0}
Covers size (some previous) = size ≤ length previous

pub Covers-less :
    {m n : ℕ} (previous : Option Bytes) → m ≤ n → Covers n previous → Covers m previous
Covers-less none h c = tt
Covers-less (some previous) h c = omega (arith, h, c)

above-over :
    (size : ℕ) (previous : Option Bytes) (i : ℕ)
    → Covers size previous
    → i < size
    → above previous i ≡ ok (over previous i)
above-over size none i c h = refl
above-over size (some previous) i c h = index-at previous i (omega (arith, c, h))

-- What the loop does at one byte, once its neighbours are known.
row_step :
    (filter channels : ℕ) (previous : Option Bytes) (current rest : Bytes) (x y : ℕ)
    → 0 < channels
    → Covers (length current + 1) previous
    → let i = length current in
      let a = if leb channels i then at (current ++ rest) (i - channels) else 0 in
      let c = if leb channels i then over previous (i - channels) else 0 in
      unfilter_byte filter x a (over previous i) c ≡ ok y
      → (src : Bytes)
      → unfilter_row filter channels previous current (x ∷ src)
        ≡ unfilter_row filter channels previous (current ++ (y ∷ [])) src
unfolding unfilter_row
row_step filter channels previous current rest x y pos covers e src =
    let i = length current in
    let b = above-over (i + 1) previous i covers (omega arith) in
    elim (Bool-cases (leb channels i)) [
      | inl k ↦
          let back : channels ≤ i = ground (arith, k) in
          let a = at-append current rest (i - channels) (omega (arith, back, pos)) in
          let c = above-over (i + 1) previous (i - channels) covers (omega (arith, back)) in
          let e' = rw k at e in rw (k, a, b, c, e') refl
      | inr k ↦ let e' = rw k at e in rw (k, b, e') refl
    ]

unfilter_row-filter_from :
    (filter channels : ℕ) (previous : Option Bytes) (current rest : Bytes)
    → filter ≤ 4
    → 0 < channels
    → Covers (length current + length rest) previous
    → All IsByte rest
    → unfilter_row filter channels previous current
        (filter_from filter channels previous (current ++ rest) (length current) rest)
      ≡ ok (current ++ rest)
unfolding filter_from unfilter_row
unfilter_row-filter_from filter channels previous current [] h pos covers bytes =
    ap ok (sym (append-nil current))
unfilter_row-filter_from filter channels previous current (x ∷ rest) h pos covers bytes =
    let i = length current in
    let row = current ++ x ∷ rest in
    let a = if leb channels i then at row (i - channels) else 0 in
    let c = if leb channels i then over previous (i - channels) else 0 in
    let y = filter_byte filter x a (over previous i) c in
    let first =
      row_step filter channels previous current (x ∷ rest) y x pos
        (Covers-less previous (omega arith) covers)
        (unfilter_byte-filter_byte filter x a (over previous i) c h bytes.0)
        (filter_from filter channels previous row (i + 1) rest) in
    let grown = append_assoc current (x ∷ []) rest in
    let more =
      unfilter_row-filter_from filter channels previous (current ++ x ∷ []) rest h pos
        (Covers-less previous (omega (arith, length-append current (x ∷ []))) covers) bytes.1 in
    let size : length (current ++ x ∷ []) ≡ length current + 1 = length-append current (x ∷ []) in
    first ∙ (rw (grown, size) at more)

pub unfilter_row-filter_row :
    (filter channels : ℕ) (previous : Option Bytes) (row : Bytes)
    → filter ≤ 4
    → 0 < channels
    → Covers (length row) previous
    → All IsByte row
    → unfilter_row filter channels previous [] (filter_row filter channels previous row) ≡ ok row
unfilter_row-filter_row filter channels previous row h pos covers bytes =
    unfilter_row-filter_from filter channels previous [] row h pos
      (Covers-less previous (omega arith) covers) bytes
