-- ===== src/Decoder/Block.antt =====
-- crates/ai-daemon-decode/src/main.rs, `mod inflate`: the symbols of a compressed block.
pub mod Bounds
use ai_daemon.Prelude.{
  ℕ, zero, suc, ◌+◌, ◌-◌, ◌*◌, ◌/◌, ◌%◌, ◌^◌, ◌≤◌, ◌<◌, String, ◌≡◌, refl, sym, ap, ap₂, append-nil,
  append_assoc, ◌∙◌, subst, ◌≢◌, ◌↔◌, ◌⊎◌, inl, inr, Bool, true, false, ◌&&◌, ◌||◌, not, Option,
  none, some, List, [], ◌∷◌, ◌++◌, map, Memᴰ, arith, get_elem?, set, replicate, take, drop,
  length-set, length-replicate, get_elem?-lt, take-drop, length-take_le, take-append, drop-append,
  length-drop, length, any, all, filter, find, count, All, All-mem, all-mem, find-mem,
  mem-append_left, mem-append_right, All-append, All-append_left, All-append_right, All-filter_test,
  All-both, All-filter, length-append, count-append, count-filter-le, mem-map, map-append_one, Uniq,
  Uniq-filter, Uniq-append, Uniq-append_left, Uniq-append_one, All-imp, mem-filter,
  mem-append_cases, mem-of_map, not-mem_nil, StrMap, get, insert, remove, Distinct, total, weight,
  get-insert, get-remove_ne, get-remove_self, remove-Distinct, insert-Distinct, total-insert,
  total-remove, weight-le-total, All-get, keys_ne, Distinct-Uniq, total-append, total-filters,
  get-mem, sort_insert, sort_by_key, IsSortedBy, All-sort_by_key, sort_by_key-IsSortedBy,
  sort_by_key-perm, Uniq-sort_by_key, mem-sort_by_key, IsSortedBy-split, total-sort_by_key, ltb,
  leb, ◌==◌, str_eq, if◌then◌else◌, str_eq_iff, str_eq_refl, str_eq_ne, ltb→lt, ltb-false, leb→le,
  Bool-cases, Option-cases, and_true, u64_mod, add_u64, u32_mod, str_append, is_whitespace,
  is_blank,
}
use ai_daemon.Decoder.{
  Fault, bad_symbol, over_limit, panicked, out_of_fuel, Result, ok, err, ◌>>=◌, index,
}
use ai_daemon.Decoder.Bits.{Bytes, bits}
use ai_daemon.Decoder.Huffman.{Huffman, decode}

abbrev pub length_base : List ℕ
length_base =
    3 ∷ 4 ∷ 5 ∷ 6 ∷ 7 ∷ 8 ∷ 9 ∷ 10 ∷ 11 ∷ 13 ∷ 15 ∷ 17 ∷ 19 ∷ 23 ∷ 27 ∷ 31 ∷ 35 ∷ 43 ∷ 51 ∷ 59 ∷ 67
    ∷ 83 ∷ 99 ∷ 115 ∷ 131 ∷ 163 ∷ 195 ∷ 227 ∷ 258 ∷ []

abbrev pub length_extra : List ℕ
length_extra =
    0 ∷ 0 ∷ 0 ∷ 0 ∷ 0 ∷ 0 ∷ 0 ∷ 0 ∷ 1 ∷ 1 ∷ 1 ∷ 1 ∷ 2 ∷ 2 ∷ 2 ∷ 2 ∷ 3 ∷ 3 ∷ 3 ∷ 3 ∷ 4 ∷ 4 ∷ 4 ∷ 4
    ∷ 5 ∷ 5 ∷ 5 ∷ 5 ∷ 0 ∷ []

abbrev pub distance_base : List ℕ
distance_base =
    1 ∷ 2 ∷ 3 ∷ 4 ∷ 5 ∷ 7 ∷ 9 ∷ 13 ∷ 17 ∷ 25 ∷ 33 ∷ 49 ∷ 65 ∷ 97 ∷ 129 ∷ 193 ∷ 257 ∷ 385 ∷ 513 ∷ 769
    ∷ 1025 ∷ 1537 ∷ 2049 ∷ 3073 ∷ 4097 ∷ 6145 ∷ 8193 ∷ 12289 ∷ 16385 ∷ 24577 ∷ []

abbrev pub distance_extra : List ℕ
distance_extra =
    0 ∷ 0 ∷ 0 ∷ 0 ∷ 1 ∷ 1 ∷ 2 ∷ 2 ∷ 3 ∷ 3 ∷ 4 ∷ 4 ∷ 5 ∷ 5 ∷ 6 ∷ 6 ∷ 7 ∷ 7 ∷ 8 ∷ 8 ∷ 9 ∷ 9 ∷ 10 ∷ 10
    ∷ 11 ∷ 11 ∷ 12 ∷ 12 ∷ 13 ∷ 13 ∷ []

-- `length` bytes from `start` on, each read after the one before it was pushed.
unfoldable pub copy_back : ℕ → ℕ → Bytes → Result Bytes
copy_back zero start out = ok out
copy_back (suc n) start out = do
  byte ← index out start
  copy_back n (start + 1) (out ++ (byte ∷ []))

-- The copy of a back-reference, once its length and distance are known.
unfoldable pub refer_back : ℕ → ℕ → Bytes → ℕ → Result (Bytes × ℕ)
refer_back copied distance out position =
    if ltb (length out) distance
    then err bad_symbol
    else copy_back copied (length out - distance) out >>= λ grown. ok (grown, position)

-- The distance of a back-reference, once its symbol is known.
unfoldable pub read_distance : Bytes → ℕ → ℕ → Result (ℕ × ℕ)
read_distance bytes symbol position = if leb 30 symbol then err bad_symbol else (do
  far_base ← index distance_base symbol
  far_extra ← index distance_extra symbol
  (further, next) ← bits bytes far_extra position
  ok (far_base + further, next))

-- A back-reference, once its length symbol is known.
unfoldable pub back_reference : Bytes → Huffman → ℕ → Bytes → ℕ → Result (Bytes × ℕ)
back_reference bytes distances i out position = do
  base ← index length_base i
  extra ← index length_extra i
  (more, position₁) ← bits bytes extra position
  (symbol, position₂) ← decode bytes distances position₁
  (distance, position₃) ← read_distance bytes symbol position₂
  refer_back (base + more) distance out position₃

-- One round of `block`, for a symbol that was read: `none` is its end.
unfoldable pub symbol_step : Bytes → Huffman → ℕ → Bytes → ℕ → Result (Option Bytes × ℕ)
symbol_step bytes distances symbol out position =
    if ltb symbol 256
    then ok (some (out ++ (symbol ∷ [])), position)
    else if symbol == 256
    then ok (none, position)
    else if leb symbol 285
    then (do
      (grown, next) ← back_reference bytes distances (symbol - 257) out position
      ok (some grown, next))
    else err bad_symbol

-- `block`, on as much fuel as it may read symbols.
unfoldable pub block : ℕ → Bytes → Huffman → Huffman → ℕ → Bytes → ℕ → Result (Bytes × ℕ)
block zero bytes literals distances max_output out position = err out_of_fuel
block (suc fuel) bytes literals distances max_output out position =
    if ltb max_output (length out) then err over_limit else (do
      (symbol, position₁) ← decode bytes literals position
      (step, position₂) ← symbol_step bytes distances symbol out position₁
      elim step [
        | none ↦ ok (out, position₂)
        | some grown ↦ block fuel bytes literals distances max_output grown position₂
      ])
