-- ===== src/Decoder/Png.antt =====
-- crates/ai-daemon-decode/src/main.rs, `mod png`. `usize` is taken to have 64 bits.
pub mod Filters
pub mod Rows
pub mod Chunks
pub mod Sizes
pub mod Bounds
use ai_daemon.Prelude.{
  ℕ, zero, suc, ◌+◌, ◌-◌, ◌*◌, ◌/◌, ◌%◌, ◌^◌, ◌≤◌, ◌<◌, String, ◌≡◌, refl, sym, ap, ap₂, append-nil,
  append_assoc, ◌∙◌, subst, ◌≢◌, ◌↔◌, ◌⊎◌, inl, inr, Bool, true, false, ◌&&◌, ◌||◌, not, Option,
  none, some, List, [], ◌∷◌, ◌++◌, map, Memᴰ, arith, get_elem?, set, replicate, take, drop, slice,
  length-set, length-replicate, get_elem?-lt, take-drop, length-take_le, take-append, drop-append,
  length-drop, get_elem?-replicate, all-get_elem?, get_elem?-within, get_elem?-set_same,
  get_elem?-set_other, length-slice, All-set, All-replicate, All-take, All-drop, sum, sum-set,
  sum-replicate_zero, length, any, all, filter, find, count, All, All-mem, all-mem, find-mem,
  mem-append_left, mem-append_right, All-append, All-append_left, All-append_right, All-filter_test,
  All-both, All-filter, length-append, count-append, count-filter-le, mem-map, map-append_one, Uniq,
  Uniq-filter, Uniq-append, Uniq-append_left, Uniq-append_one, All-imp, mem-filter,
  mem-append_cases, mem-of_map, not-mem_nil, StrMap, get, insert, remove, Distinct, total, weight,
  get-insert, get-remove_ne, get-remove_self, remove-Distinct, insert-Distinct, total-insert,
  total-remove, weight-le-total, All-get, keys_ne, Distinct-Uniq, total-append, total-filters,
  get-mem, sort_insert, sort_by_key, IsSortedBy, All-sort_by_key, sort_by_key-IsSortedBy,
  sort_by_key-perm, Uniq-sort_by_key, mem-sort_by_key, IsSortedBy-split, total-sort_by_key, ltb,
  leb, ◌==◌, str_eq, if◌then◌else◌, str_eq_iff, str_eq_refl, str_eq_ne, ltb→lt, ltb-false, leb→le,
  Bool-cases, Option-cases, and_true, u64_mod, add_u64, u32_mod, str_append, is_whitespace,
  is_blank,
}
use ai_daemon.Decoder.{
  Fault, not_png, truncated_chunk, short_header, no_header, zero_sized, unsupported_depth,
  interlaced, unsupported_colour, too_few_bytes, unknown_filter, over_limit, panicked, out_of_fuel,
  Result, ok, err, ◌>>=◌, index, be32, sub, sub_from,
}
use ai_daemon.Decoder.Bits.{Bytes}
use ai_daemon.Decoder.Inflate.{zlib}

pub record Header : Type 0 where
  pub width : ℕ
  pub height : ℕ
  pub colour : ℕ

-- What the decoder returns of an image.
pub record Decoded : Type 0 where
  pub w : ℕ
  pub h : ℕ
  pub has_alpha : Bool
  pub pixels : Bytes

-- The tests of `Header::parse` on what it read.
unfoldable pub accept_header : ℕ → ℕ → ℕ → ℕ → ℕ → Result Header
accept_header width height depth colour interlace =
    if width == 0 || height == 0
    then err zero_sized
    else if not (depth == 8)
    then err unsupported_depth
    else if not (interlace == 0)
    then err interlaced
    else if not (colour == 2) && not (colour == 6)
    then err unsupported_colour
    else ok (record { width = width; height = height; colour = colour })

unfoldable pub parse : Bytes → Result Header
parse bytes = if ltb (length bytes) 13 then err short_header else (do
  width ← be32 bytes
  later ← sub_from 4 bytes
  height ← be32 later
  depth ← index bytes 8
  colour ← index bytes 9
  interlace ← index bytes 12
  accept_header width height depth colour interlace)

unfoldable pub channels_of : Header → ℕ
channels_of header = if header.colour == 6 then 4 else 3

abbrev pub bytes_eq : Bytes → Bytes → Bool
bytes_eq [] [] = true
bytes_eq [] (y ∷ ys) = false
bytes_eq (x ∷ xs) [] = false
bytes_eq (x ∷ xs) (y ∷ ys) = (x == y) && bytes_eq xs ys

-- "IHDR", "IDAT" and "IEND".
abbrev pub ihdr : Bytes
ihdr = 73 ∷ 72 ∷ 68 ∷ 82 ∷ []

abbrev pub idat : Bytes
idat = 73 ∷ 68 ∷ 65 ∷ 84 ∷ []

abbrev pub iend : Bytes
iend = 73 ∷ 69 ∷ 78 ∷ 68 ∷ []

abbrev pub magic : Bytes
magic = 137 ∷ 80 ∷ 78 ∷ 71 ∷ 13 ∷ 10 ∷ 26 ∷ 10 ∷ []

-- What the loop over the chunks has read: the header and the compressed data.
abbrev pub Parts : Type 0
Parts = Option Header × Bytes

-- One chunk; `none` is the end of the image.
unfoldable pub take_chunk : Bytes → Bytes → Parts → Result (Option Parts)
take_chunk kind payload (header, compressed) =
    if bytes_eq kind ihdr
    then (parse payload >>= λ h. ok (some (some h, compressed)))
    else if bytes_eq kind idat
    then ok (some (header, compressed ++ payload))
    else if bytes_eq kind iend
    then ok none
    else ok (some (header, compressed))

unfoldable pub read_chunks : ℕ → Bytes → ℕ → Parts → Result Parts
read_chunks zero bytes offset parts = err out_of_fuel
read_chunks (suc fuel) bytes offset parts =
    if ltb (length bytes) (offset + 8) then ok parts else (do
      here ← sub_from offset bytes
      len ← be32 here
      kind ← sub (offset + 4) 4 bytes
      let start = offset + 8
      if ltb (length bytes) (start + len + 4) then err truncated_chunk else (do
        payload ← sub start len bytes
        after ← take_chunk kind payload parts
        elim after [
          | none ↦ ok parts
          | some grown ↦ read_chunks fuel bytes (start + len + 4) grown
        ]))

abbrev pub distance : ℕ → ℕ → ℕ
distance m n = (m - n) + (n - m)

-- `paeth`: `p` is `a + b - c`, so that the distance of `p` from `x` is that of `a + b` from
-- `x + c`.
unfoldable pub paeth : ℕ → ℕ → ℕ → ℕ
paeth a b c =
    let pa = distance (a + b) (a + c) in
    let pb = distance (a + b) (b + c) in
    let pc = distance (a + b) (c + c) in
    if leb pa pb && leb pa pc then a else if leb pb pc then b else c

-- The value of the filtered byte `x`, from its neighbours to the left, above, and above to the
-- left.
unfoldable pub unfilter_byte : ℕ → ℕ → ℕ → ℕ → ℕ → Result ℕ
unfilter_byte filter x a b c =
    if filter == 0
    then ok x
    else if filter == 1
    then ok ((x + a) % 256)
    else if filter == 2
    then ok ((x + b) % 256)
    else if filter == 3
    then ok ((x + (a + b) / 2 % 256) % 256)
    else if filter == 4
    then ok ((x + paeth a b c) % 256)
    else err unknown_filter

-- The byte above, which is 0 in the first row.
abbrev pub above : Option Bytes → ℕ → Result ℕ
above none i = ok 0
above (some previous) i = index previous i

-- The loop over the bytes of a row; `current` holds those that are done.
unfoldable pub unfilter_row : ℕ → ℕ → Option Bytes → Bytes → Bytes → Result Bytes
unfilter_row filter channels previous current [] = ok current
unfilter_row filter channels previous current (x ∷ src) = do
  let i = length current
  a ← (if leb channels i then index current (i - channels) else ok 0)
  b ← above previous i
  c ← (if leb channels i then above previous (i - channels) else ok 0)
  y ← unfilter_byte filter x a b c
  unfilter_row filter channels previous (current ++ (y ∷ [])) src

-- The loop over the rows, `rows` of which are left; `out` holds those that are done, of a buffer
-- of `size` bytes.
unfoldable pub unfilter_rows : ℕ → ℕ → ℕ → ℕ → ℕ → Bytes → Bytes → Result Bytes
unfilter_rows zero row stride channels size raw out = ok out
unfilter_rows (suc rows) row stride channels size raw out = do
  filter ← index raw (row * (stride + 1))
  src ← sub (row * (stride + 1) + 1) stride raw
  if ltb size (row * stride + stride) then err panicked else (do
    let previous = if row == 0 then none else some (drop ((row - 1) * stride) out)
    current ← unfilter_row filter channels previous [] src
    unfilter_rows rows (row + 1) stride channels size raw (out ++ current))

-- Sums and products of `usize` wrap. The offsets in the loop do not: they stay below `size`,
-- since a row that passes it panics.
unfoldable pub unfilter : Bytes → Header → ℕ → Result Bytes
unfilter raw header channels =
    let stride = header.width * channels in
    if ltb (length raw) ((stride + 1) * header.height % u64_mod)
    then err too_few_bytes
    else unfilter_rows header.height 0 stride channels (stride * header.height % u64_mod) raw []

-- `decode` once the chunks are read.
unfoldable pub decode_image : Header → Bytes → ℕ → Result Decoded
decode_image header compressed max_output =
    let channels = channels_of header in
    let output_len = header.width * header.height % u64_mod * channels % u64_mod in
    if ltb max_output output_len then err over_limit else (do
      raw ← zlib compressed ((output_len + header.height * 2) % u64_mod)
      pixels ← unfilter raw header channels
      ok (record {
        w = header.width;
        h = header.height;
        has_alpha = channels == 4;
        pixels = pixels;
      }))

-- `decode` behind the magic bytes.
unfoldable pub decode_chunks : Bytes → ℕ → Result Decoded
decode_chunks bytes max_output = do
  parts ← read_chunks (length bytes) bytes 8 (none, [])
  elim parts.0 [ none ↦ err no_header | some header ↦ decode_image header parts.1 max_output ]

-- The test of the magic bytes slices only what the test before it found long enough.
unfoldable pub decode_png : Bytes → ℕ → Result Decoded
decode_png bytes max_output = if ltb (length bytes) 8 then err not_png else (do
  begin ← sub 0 8 bytes
  if not (bytes_eq begin magic) then err not_png else decode_chunks bytes max_output)
