-- ===== src/Decoder.antt =====
-- crates/ai-daemon-decode/src/main.rs: the parsers that read an attachment's encoded bytes. A read
-- or a slice out of bounds, where the source would panic, is the fault `panicked`; `out_of_fuel` is no fault
-- of the source but of a loop that was given too little fuel.
pub mod Bits
pub mod Huffman
pub mod Block
pub mod Outcome
pub mod Inflate
pub mod Png
pub mod Wav
pub mod Tests
use ai_daemon.Prelude.{
  ℕ, zero, suc, ◌+◌, ◌-◌, ◌*◌, ◌/◌, ◌%◌, ◌^◌, ◌≤◌, ◌<◌, String, ◌≡◌, refl, sym, ap, ap₂, append-nil,
  append_assoc, ◌∙◌, subst, ◌≢◌, ◌↔◌, ◌⊎◌, inl, inr, Bool, true, false, ◌&&◌, ◌||◌, not, Option,
  none, some, List, [], ◌∷◌, ◌++◌, map, Memᴰ, arith, get_elem?, set, replicate, take, drop, slice,
  length-set, length-replicate, get_elem?-lt, take-drop, length-take_le, take-append, drop-append,
  length-drop, length, any, all, filter, find, count, All, All-mem, all-mem, find-mem,
  mem-append_left, mem-append_right, All-append, All-append_left, All-append_right, All-filter_test,
  All-both, All-filter, length-append, count-append, count-filter-le, mem-map, map-append_one, Uniq,
  Uniq-filter, Uniq-append, Uniq-append_left, Uniq-append_one, All-imp, mem-filter,
  mem-append_cases, mem-of_map, not-mem_nil, StrMap, get, insert, remove, Distinct, total, weight,
  get-insert, get-remove_ne, get-remove_self, remove-Distinct, insert-Distinct, total-insert,
  total-remove, weight-le-total, All-get, keys_ne, Distinct-Uniq, total-append, total-filters,
  get-mem, sort_insert, sort_by_key, IsSortedBy, All-sort_by_key, sort_by_key-IsSortedBy,
  sort_by_key-perm, Uniq-sort_by_key, mem-sort_by_key, IsSortedBy-split, total-sort_by_key, ltb,
  leb, ◌==◌, str_eq, if◌then◌else◌, str_eq_iff, str_eq_refl, str_eq_ne, ltb→lt, ltb-false, leb→le,
  Bool-cases, Option-cases, and_true, u64_mod, add_u64, u32_mod, str_append, is_whitespace,
  is_blank,
}

pub data Fault : Type 0 where
  -- of compressed data
  no_stream bad_header unsupported stream_ended truncated : Fault
  bad_code bad_symbol bad_block overrun over_limit : Fault
  -- of an image
  not_png truncated_integer truncated_chunk short_header no_header zero_sized : Fault
  unsupported_depth interlaced unsupported_colour too_few_bytes unknown_filter : Fault
  -- of a sound
  not_wave short_format no_format no_data unsupported_format : Fault
  panicked out_of_fuel : Fault

pub data Result {ℓ} (A : Type ℓ) : Type ℓ where
  ok : A → Result A
  err : Fault → Result A

infixl 5 ◌>>=◌
abbrev pub ◌>>=◌ {ℓ κ} : {A : Type ℓ} {B : Type κ} → Result A → (A → Result B) → Result B
ok a >>= f = f a
err e >>= f = err e

-- An index that is out of bounds panics.
abbrev pub index {ℓ} : {A : Type ℓ} → List A → ℕ → Result A
index xs i = elim (get_elem? xs i) [ none ↦ err panicked | some x ↦ ok x ]

-- A slice that passes the end panics.
abbrev pub sub {ℓ} : {A : Type ℓ} → ℕ → ℕ → List A → Result (List A)
sub start len xs = if ltb (length xs) (start + len) then err panicked else ok (slice start len xs)

-- A slice to the end, which panics when it starts behind it.
abbrev pub sub_from {ℓ} : {A : Type ℓ} → ℕ → List A → Result (List A)
sub_from start xs = if ltb (length xs) start then err panicked else ok (drop start xs)

-- `u32::from_be_bytes` of the first four bytes.
unfoldable pub be32 : List ℕ → Result ℕ
be32 (a ∷ b ∷ c ∷ d ∷ rest) = ok (a * 16777216 + b * 65536 + c * 256 + d)
be32 [] = err truncated_integer
be32 (a ∷ []) = err truncated_integer
be32 (a ∷ b ∷ []) = err truncated_integer
be32 (a ∷ b ∷ c ∷ []) = err truncated_integer
