-- ===== src/Decoder/Inflate.antt =====
-- crates/ai-daemon-decode/src/main.rs, `mod inflate`: the blocks of a stream and their headers.
pub mod Lengths
pub mod Blocks
pub mod Bounds
use ai_daemon.Prelude.{
  ℕ, zero, suc, ◌+◌, ◌-◌, ◌*◌, ◌/◌, ◌%◌, ◌^◌, ◌≤◌, ◌<◌, String, ◌≡◌, refl, sym, ap, ap₂, append-nil,
  append_assoc, ◌∙◌, subst, ◌≢◌, ◌↔◌, ◌⊎◌, inl, inr, Bool, true, false, ◌&&◌, ◌||◌, not, Option,
  none, some, List, [], ◌∷◌, ◌++◌, map, Memᴰ, arith, get_elem?, set, replicate, take, drop, slice,
  length-set, length-replicate, get_elem?-lt, take-drop, length-take_le, take-append, drop-append,
  length-drop, get_elem?-replicate, all-get_elem?, get_elem?-within, get_elem?-set_same,
  get_elem?-set_other, length-slice, All-set, All-replicate, All-take, All-drop, sum, sum-set,
  sum-replicate_zero, length, any, all, filter, find, count, All, All-mem, all-mem, find-mem,
  mem-append_left, mem-append_right, All-append, All-append_left, All-append_right, All-filter_test,
  All-both, All-filter, length-append, count-append, count-filter-le, mem-map, map-append_one, Uniq,
  Uniq-filter, Uniq-append, Uniq-append_left, Uniq-append_one, All-imp, mem-filter,
  mem-append_cases, mem-of_map, not-mem_nil, StrMap, get, insert, remove, Distinct, total, weight,
  get-insert, get-remove_ne, get-remove_self, remove-Distinct, insert-Distinct, total-insert,
  total-remove, weight-le-total, All-get, keys_ne, Distinct-Uniq, total-append, total-filters,
  get-mem, sort_insert, sort_by_key, IsSortedBy, All-sort_by_key, sort_by_key-IsSortedBy,
  sort_by_key-perm, Uniq-sort_by_key, mem-sort_by_key, IsSortedBy-split, total-sort_by_key, ltb,
  leb, ◌==◌, str_eq, if◌then◌else◌, str_eq_iff, str_eq_refl, str_eq_ne, ltb→lt, ltb-false, leb→le,
  Bool-cases, Option-cases, and_true, u64_mod, add_u64, u32_mod, str_append, is_whitespace,
  is_blank,
}
use ai_daemon.Decoder.{
  Fault, bad_symbol, bad_block, overrun, no_stream, bad_header, out_of_fuel, truncated, unsupported,
  Result, ok, err, ◌>>=◌, index, sub,
}
use ai_daemon.Decoder.Bits.{Bytes, bit, bits, align}
use ai_daemon.Decoder.Huffman.{Huffman, new_huffman, decode}
use ai_daemon.Decoder.Block.{block}

unfoldable pub le16 : ℕ → ℕ → ℕ
le16 a b = a + b * 256

-- The bytes of a stored block, once its length is known to match its complement.
unfoldable pub stored_bytes : Bytes → Bytes → ℕ → ℕ → Result (Bytes × ℕ)
stored_bytes bytes out from len =
    if ltb (length bytes) (from + len)
    then err truncated
    else (sub from len bytes >>= λ part. ok (out ++ part, (from + len) * 8))

unfoldable pub stored_block : Bytes → Bytes → ℕ → Result (Bytes × ℕ)
stored_block bytes out position =
    let start = align position / 8 in
    if ltb (length bytes) (start + 4) then err truncated else (do
      a ← index bytes start
      b ← index bytes (start + 1)
      c ← index bytes (start + 2)
      d ← index bytes (start + 3)
      if le16 a b + le16 c d == 65535
          then stored_bytes bytes out (start + 4) (le16 a b)
          else err bad_block)

abbrev pub fixed_lengths : List ℕ
fixed_lengths = replicate 144 8 ++ (replicate 112 9 ++ (replicate 24 7 ++ replicate 8 8))

abbrev pub order : List ℕ
order = 16 ∷ 17 ∷ 18 ∷ 0 ∷ 8 ∷ 7 ∷ 9 ∷ 6 ∷ 10 ∷ 5 ∷ 11 ∷ 4 ∷ 12 ∷ 3 ∷ 13 ∷ 2 ∷ 14 ∷ 1 ∷ 15 ∷ []

-- The lengths of the code in which the code lengths are written, in the order of `places`.
unfoldable pub read_code_lengths : Bytes → List ℕ → List ℕ → ℕ → Result (List ℕ × ℕ)
read_code_lengths bytes [] lengths position = ok (lengths, position)
read_code_lengths bytes (place ∷ places) lengths position = do
  (l, next) ← bits bytes 3 position
  read_code_lengths bytes places (set lengths place l) next

abbrev pub last_of : List ℕ → Option ℕ
last_of [] = none
last_of (x ∷ []) = some x
last_of (x ∷ y ∷ ys) = last_of (y ∷ ys)

-- A repetition of the length before.
unfoldable pub repeat_last : ℕ → List ℕ → ℕ → ℕ → Result (List ℕ × ℕ)
repeat_last wanted lengths times position = elim (last_of lengths) [
  | none ↦ err bad_block
  | some previous ↦
      if ltb wanted (length lengths + times)
      then err overrun
      else ok (lengths ++ replicate times previous, position)
]

-- One symbol of the code lengths; `lengths` are those written so far. A run of zeros may pass the
-- end, which is refused after the loop.
unfoldable pub length_step : Bytes → ℕ → List ℕ → ℕ → ℕ → Result (List ℕ × ℕ)
length_step bytes wanted lengths symbol position =
    if ltb symbol 16
    then ok (lengths ++ (symbol ∷ []), position)
    else if symbol == 16
    then (if length lengths == 0
        then err bad_block
        else (bits bytes 2 position >>= λ r. repeat_last wanted lengths (3 + r.0) r.1))
    else if symbol == 17
    then (bits bytes 3 position >>= λ r. ok (lengths ++ replicate (3 + r.0) 0, r.1))
    else if symbol == 18
    then (bits bytes 7 position >>= λ r. ok (lengths ++ replicate (11 + r.0) 0, r.1))
    else err bad_symbol

unfoldable pub read_lengths : ℕ → Bytes → Huffman → ℕ → List ℕ → ℕ → Result (List ℕ × ℕ)
read_lengths zero bytes h wanted lengths position = err out_of_fuel
read_lengths (suc fuel) bytes h wanted lengths position = elim (leb wanted (length lengths)) [
  | true ↦ ok (lengths, position)
  | false ↦ do
    (symbol, next) ← decode bytes h position
    (lengths', next') ← length_step bytes wanted lengths symbol next
    read_lengths fuel bytes h wanted lengths' next'
]

unfoldable pub dynamic_block : ℕ → Bytes → ℕ → Bytes → ℕ → Result (Bytes × ℕ)
dynamic_block fuel bytes max_output out position = do
  (l, position₁) ← bits bytes 5 position
  (d, position₂) ← bits bytes 5 position₁
  (c, position₃) ← bits bytes 4 position₂
  (code_lengths, position₄) ←
      read_code_lengths bytes (take (c + 4) order) (replicate 19 0) position₃
  let wanted = l + 257 + (d + 1)
  codes ← new_huffman code_lengths
  (lengths, position₅) ← read_lengths fuel bytes codes wanted [] position₄
  if ltb wanted (length lengths) then err overrun else (do
    literals ← new_huffman (take (l + 257) lengths)
    distances ← new_huffman (drop (l + 257) lengths)
    block fuel bytes literals distances max_output out position₅)

unfoldable pub fixed_block : ℕ → Bytes → ℕ → Bytes → ℕ → Result (Bytes × ℕ)
fixed_block fuel bytes max_output out position = do
  literals ← new_huffman fixed_lengths
  distances ← new_huffman (replicate 30 5)
  block fuel bytes literals distances max_output out position

-- A block of the type `kind`.
unfoldable pub typed_block : ℕ → Bytes → ℕ → ℕ → Bytes → ℕ → Result (Bytes × ℕ)
typed_block fuel bytes max_output kind out position =
    if kind == 0
    then stored_block bytes out position
    else if kind == 1
    then fixed_block fuel bytes max_output out position
    else if kind == 2
    then dynamic_block fuel bytes max_output out position
    else err bad_block

-- The loop of `inflate`; the inner loops have `inner` rounds each.
unfoldable pub inflate_from : ℕ → ℕ → Bytes → ℕ → Bytes → ℕ → Result Bytes
inflate_from zero inner bytes max_output out position = err out_of_fuel
inflate_from (suc fuel) inner bytes max_output out position = do
  (final, position₁) ← bit bytes position
  (kind, position₂) ← bits bytes 2 position₁
  (grown, position₃) ← typed_block inner bytes max_output kind out position₂
  elim (final == 1) [
    | true ↦ ok grown
    | false ↦ inflate_from fuel inner bytes max_output grown position₃
  ]

-- Every round of every loop reads a bit, so that a round for each bit and one more are enough.
unfoldable pub inflate : Bytes → ℕ → Result Bytes
inflate bytes max_output =
    let rounds = suc (8 * length bytes) in inflate_from rounds rounds bytes max_output [] 0

-- `zlib`: the two bytes of the header, then the stream.
unfoldable pub zlib : Bytes → ℕ → Result Bytes
zlib [] max_output = err no_stream
zlib (cmf ∷ []) max_output = err no_stream
zlib (cmf ∷ flags ∷ bytes) max_output =
    if not (cmf % 16 == 8)
    then err bad_header
    else if not ((cmf * 256 + flags) % 31 == 0)
    then err bad_header
    else if flags / 32 % 2 == 1
    then err unsupported
    else inflate bytes max_output
