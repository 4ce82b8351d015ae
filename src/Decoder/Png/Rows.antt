-- ===== src/Decoder/Png/Rows.antt =====
-- crates/ai-daemon-decode/src/main.rs: `unfilter` on a whole image, against the encoder in the
-- tests (`build`), with a filter for each row.
use ai_daemon.Prelude.{
  ℕ, suc, ◌+◌, ◌-◌, ◌*◌, ◌%◌, ◌≤◌, ◌<◌, ◌≡◌, refl, sym, ap, append-nil, append_assoc, ◌∙◌, subst,
  false, Option, none, some, List, [], ◌∷◌, ◌++◌, arith, get_elem?, drop, take-append, drop-append,
  length, All, length-append, ltb, ◌==◌, if◌then◌else◌, u64_mod,
}
use ai_daemon.Decoder.{sub, ok, index}
use ai_daemon.Decoder.Bits.{Bytes}
use ai_daemon.Decoder.Outcome.{index-some}
use ai_daemon.Decoder.Png.{Header, unfilter_row, unfilter_rows, unfilter}
use ai_daemon.Decoder.Png.Filters.{
  IsByte, Covers, filter_row, length-filter_from, unfilter_row-filter_row,
}

-- A row of an image, and the filter that the encoder chose for it.
pub record Row : Type 0 where
  pub filter : ℕ
  pub pixels : Bytes

-- The filtered bytes of the rows, the first of which stands under `previous`.
unfoldable pub filter_rows : ℕ → Option Bytes → List Row → Bytes
filter_rows channels previous [] = []
filter_rows channels previous (r ∷ rs) =
    r.filter
    ∷ (filter_row r.filter channels previous r.pixels ++ filter_rows channels (some r.pixels) rs)

unfoldable pub pixels_of : List Row → Bytes
pixels_of [] = []
pixels_of (r ∷ rs) = r.pixels ++ pixels_of rs

-- A row of `stride` bytes under one of the five filters.
abbrev pub IsRow : ℕ → Row → Type 0
IsRow stride r = (r.filter ≤ 4) × (length r.pixels ≡ stride) × All IsByte r.pixels

drop-past : {A : Type 0} (xs ys : List A) (k : ℕ) → drop (length xs + k) (xs ++ ys) ≡ drop k ys
drop-past [] ys k = ap (λ n. drop n ys) (omega arith)
drop-past (x ∷ xs) ys k =
    let more : suc (length xs) + k ≡ suc (length xs + k) = omega arith in
    ap (λ n. drop n (x ∷ (xs ++ ys))) more ∙ drop-past xs ys k

get_elem?-past :
    {A : Type 0} (xs : List A) (y : A) (ys : List A) → get_elem? (xs ++ y ∷ ys) (length xs) ≡ some y
get_elem?-past [] y ys = refl
get_elem?-past (x ∷ xs) y ys = get_elem?-past xs y ys

-- The slice of a row, which stands behind its filter.
sub-row :
    (before row after : Bytes) (f : ℕ)
    → sub (length before + 1) (length row) (before ++ f ∷ (row ++ after)) ≡ ok row
sub-row before row after f =
    let all = before ++ f ∷ (row ++ after) in
    let whole : length all ≡ length before + suc (length row + length after) =
      length-append before (f ∷ (row ++ after))
      ∙ ap (λ n. length before + suc n) (length-append row after) in
    let within : ltb (length all) (length before + 1 + length row) ≡ false =
      ground (arith, whole) in
    rw (within, drop-past before (f ∷ (row ++ after)) 1, take-append row after) refl

-- The row above in the buffer.
abbrev Above : ℕ → ℕ → Bytes → Option Bytes → Type 0
Above row stride out previous =
    (if row == 0 then none else some (drop ((row - 1) * stride) out)) ≡ previous

Above-next :
    (row stride : ℕ) (out pixels : Bytes)
    → length out ≡ row * stride
    → Above (row + 1) stride (out ++ pixels) (some pixels)
Above-next row stride out pixels h =
    let later : (row + 1 == 0) ≡ false = ground arith in
    let back : (row + 1 - 1) * stride ≡ length out = ap (λ n. n * stride) (omega arith) ∙ sym h in
    rw (later, back, drop-append out pixels) refl

row_done :
    (n row stride channels size f : ℕ) (raw out src pixels : Bytes) (previous : Option Bytes)
    → index raw (row * (stride + 1)) ≡ ok f
    → sub (row * (stride + 1) + 1) stride raw ≡ ok src
    → row * stride + stride ≤ size
    → Above row stride out previous
    → unfilter_row f channels previous [] src ≡ ok pixels
    → unfilter_rows (suc n) row stride channels size raw out
      ≡ unfilter_rows n (row + 1) stride channels size raw (out ++ pixels)
unfolding unfilter_rows
row_done n row stride channels size f raw out src pixels previous e₁ e₂ fits above e₃ =
    let within : ltb size (row * stride + stride) ≡ false = ground (arith, fits) in
    rw (e₁, e₂, within, above, e₃) refl

pub room_now :
    (row n stride size : ℕ) → (row + suc n) * stride ≤ size → row * stride + stride ≤ size
room_now row n stride size h = omega (arith, h)

pub room_later :
    (row n stride size : ℕ) → (row + suc n) * stride ≤ size → (row + 1 + n) * stride ≤ size
room_later row n stride size h = omega (arith, h)

pub next_offset : (row width m n : ℕ) → m ≡ row * width → n ≡ width → m + n ≡ (row + 1) * width
next_offset row width m n e f = omega (arith, e, f)

unfilter_rows-filter_rows :
    (rows : List Row) (row stride channels size : ℕ) (previous : Option Bytes) (before out : Bytes)
    → 0 < channels
    → All (IsRow stride) rows
    → (row + length rows) * stride ≤ size
    → length before ≡ row * (stride + 1)
    → length out ≡ row * stride
    → Covers stride previous
    → Above row stride out previous
    → unfilter_rows
        (length rows)
        row
        stride
        channels
        size
        (before ++ filter_rows channels previous rows)
        out
      ≡ ok (out ++ pixels_of rows)
unfolding unfilter_rows filter_rows pixels_of
unfilter_rows-filter_rows [] row stride channels size previous before out pos a fits b o c above =
    ap ok (sym (append-nil out))
unfilter_rows-filter_rows (r ∷ rs) row stride channels size previous before out pos a fits b o c
      above =
    let (low, size_r, bytes) = a.0 in
    let filtered = filter_row r.filter channels previous r.pixels in
    let after = filter_rows channels (some r.pixels) rs in
    let raw = before ++ r.filter ∷ (filtered ++ after) in
    let wide : length filtered ≡ stride =
      length-filter_from r.filter channels previous r.pixels 0 r.pixels ∙ size_r in
    let e₁ : index raw (row * (stride + 1)) ≡ ok r.filter =
      index-some raw _ r.filter (rw (sym b) (get_elem?-past before r.filter (filtered ++ after))) in
    let e₂ : sub (row * (stride + 1) + 1) stride raw ≡ ok filtered =
      rw (sym b, sym wide) (sub-row before filtered after r.filter) in
    let e₃ =
      unfilter_row-filter_row r.filter channels previous r.pixels low pos
        (subst (λ n. Covers n previous) (sym size_r) c) bytes in
    row_done (length rs) row stride channels size r.filter raw out filtered r.pixels previous e₁ e₂
      (room_now row (length rs) stride size fits) above e₃
    ∙ subst
        (λ l.
          unfilter_rows (length rs) (row + 1) stride channels size l (out ++ r.pixels)
          ≡ ok (out ++ (r.pixels ++ pixels_of rs)))
        (append_assoc before (r.filter ∷ filtered) after)
        (subst
          (λ l.
            unfilter_rows (length rs) (row + 1) stride channels size
              ((before ++ r.filter ∷ filtered) ++ after) (out ++ r.pixels)
            ≡ ok l)
          (append_assoc out r.pixels (pixels_of rs))
          (unfilter_rows-filter_rows rs (row + 1) stride channels size (some r.pixels)
            (before ++ r.filter ∷ filtered) (out ++ r.pixels) pos a.1
            (room_later row (length rs) stride size fits)
            (length-append before (r.filter ∷ filtered)
              ∙ next_offset row (stride + 1) _ _ b (ap suc wide ∙ omega arith))
            (length-append out r.pixels ∙ next_offset row stride _ _ o size_r)
            (omega (arith, size_r)) (Above-next row stride out r.pixels o)))

length-filter_rows :
    (rows : List Row) (stride channels : ℕ) (previous : Option Bytes)
    → All (IsRow stride) rows
    → length (filter_rows channels previous rows) ≡ (stride + 1) * length rows
unfolding filter_rows
length-filter_rows [] stride channels previous a = omega arith
length-filter_rows (r ∷ rs) stride channels previous ((low, size, bytes), a) =
    let filtered = filter_row r.filter channels previous r.pixels in
    let after = filter_rows channels (some r.pixels) rs in
    let wide = length-filter_from r.filter channels previous r.pixels 0 r.pixels in
    let more = length-filter_rows rs stride channels (some r.pixels) a in
    omega (arith, length-append filtered after, wide, size, more)

-- `unfilter` undoes the encoder's row filters: for an image of any size whose filtered bytes a
-- 64-bit word counts, under any choice of the five filters row by row, it gives back every pixel.
pub unfilter-filter_rows :
    (header : Header) (channels : ℕ) (rows : List Row)
    → 0 < channels
    → length rows ≡ header.height
    → All (IsRow (header.width * channels)) rows
    → (header.width * channels + 1) * header.height < u64_mod
    → unfilter (filter_rows channels none rows) header channels ≡ ok (pixels_of rows)
unfolding unfilter
unfilter-filter_rows header channels rows pos tall a small =
    let stride = header.width * channels in
    let raw = filter_rows channels none rows in
    let whole : length raw ≡ (stride + 1) * header.height =
      length-filter_rows rows stride channels none a ∙ ap (λ n. (stride + 1) * n) tall in
    let enough : ltb (length raw) ((stride + 1) * header.height % u64_mod) ≡ false =
      ground (arith, whole, small) in
    let size : stride * header.height % u64_mod ≡ stride * header.height = omega (arith, small) in
    rw (enough, size, sym tall)
      (unfilter_rows-filter_rows rows 0 stride channels (stride * length rows) none [] [] pos a
        (omega arith) (omega arith) (omega arith) tt refl)
