-- ===== src/Decoder/Bits.antt =====
-- crates/ai-daemon-decode/src/main.rs, `mod inflate`: the reader of bits, which is the position of
-- its next bit, since the bytes do not change. `bits` adds where the source ors, since the bits
-- are disjoint.
pub mod Bounds
use ai_daemon.Prelude.{
  ℕ, zero, suc, ◌+◌, ◌-◌, ◌*◌, ◌/◌, ◌%◌, ◌^◌, ◌≤◌, ◌<◌, String, ◌≡◌, refl, sym, ap, ap₂, append-nil,
  append_assoc, ◌∙◌, subst, ◌≢◌, ◌↔◌, ◌⊎◌, inl, inr, Bool, true, false, ◌&&◌, ◌||◌, not, Option,
  none, some, List, [], ◌∷◌, ◌++◌, map, Memᴰ, arith, get_elem?, set, replicate, take, drop,
  length-set, length-replicate, get_elem?-lt, take-drop, length-take_le, take-append, drop-append,
  length-drop, length, any, all, filter, find, count, All, All-mem, all-mem, find-mem,
  mem-append_left, mem-append_right, All-append, All-append_left, All-append_right, All-filter_test,
  All-both, All-filter, length-append, count-append, count-filter-le, mem-map, map-append_one, Uniq,
  Uniq-filter, Uniq-append, Uniq-append_left, Uniq-append_one, All-imp, mem-filter,
  mem-append_cases, mem-of_map, not-mem_nil, StrMap, get, insert, remove, Distinct, total, weight,
  get-insert, get-remove_ne, get-remove_self, remove-Distinct, insert-Distinct, total-insert,
  total-remove, weight-le-total, All-get, keys_ne, Distinct-Uniq, total-append, total-filters,
  get-mem, sort_insert, sort_by_key, IsSortedBy, All-sort_by_key, sort_by_key-IsSortedBy,
  sort_by_key-perm, Uniq-sort_by_key, mem-sort_by_key, IsSortedBy-split, total-sort_by_key, ltb,
  leb, ◌==◌, str_eq, if◌then◌else◌, str_eq_iff, str_eq_refl, str_eq_ne, ltb→lt, ltb-false, leb→le,
  Bool-cases, Option-cases, and_true, u64_mod, add_u64, u32_mod, str_append, is_whitespace,
  is_blank,
}
use ai_daemon.Decoder.{Fault, stream_ended, Result, ok, err, ◌>>=◌}

abbrev pub Bytes : Type 0
Bytes = List ℕ

-- `Bits::bit`.
unfoldable pub bit : Bytes → ℕ → Result (ℕ × ℕ)
bit bytes position = elim (get_elem? bytes (position / 8)) [
  | none ↦ err stream_ended
  | some byte ↦ ok (byte / 2 ^ (position % 8) % 2, position + 1)
]

-- The loop of `Bits::bits`: `count` more bits, from the place value `place` on.
unfoldable pub bits_from : Bytes → ℕ → ℕ → ℕ → ℕ → Result (ℕ × ℕ)
bits_from bytes zero place value position = ok (value, position)
bits_from bytes (suc count) place value position = do
  (b, next) ← bit bytes position
  bits_from bytes count (place * 2) (value + b * place) next

unfoldable pub bits : Bytes → ℕ → ℕ → Result (ℕ × ℕ)
bits bytes count position = bits_from bytes count 1 0 position

-- `Bits::align`.
unfoldable pub align : ℕ → ℕ
align position = (position + 7) / 8 * 8
