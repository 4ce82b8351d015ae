-- ===== src/Decoder/Huffman.antt =====
-- crates/ai-daemon-decode/src/main.rs, `mod inflate`: canonical Huffman codes.
pub mod Places
use ai_daemon.Prelude.{
  ℕ, zero, suc, ◌+◌, ◌-◌, ◌*◌, ◌/◌, ◌%◌, ◌^◌, ◌≤◌, ◌<◌, String, ◌≡◌, refl, sym, ap, ap₂, append-nil,
  append_assoc, ◌∙◌, subst, ◌≢◌, ◌↔◌, ◌⊎◌, inl, inr, Bool, true, false, ◌&&◌, ◌||◌, not, Option,
  none, some, List, [], ◌∷◌, ◌++◌, map, Memᴰ, arith, get_elem?, set, replicate, take, drop,
  length-set, length-replicate, get_elem?-lt, take-drop, length-take_le, take-append, drop-append,
  length-drop, length, any, all, filter, find, count, All, All-mem, all-mem, find-mem,
  mem-append_left, mem-append_right, All-append, All-append_left, All-append_right, All-filter_test,
  All-both, All-filter, length-append, count-append, count-filter-le, mem-map, map-append_one, Uniq,
  Uniq-filter, Uniq-append, Uniq-append_left, Uniq-append_one, All-imp, mem-filter,
  mem-append_cases, mem-of_map, not-mem_nil, StrMap, get, insert, remove, Distinct, total, weight,
  get-insert, get-remove_ne, get-remove_self, remove-Distinct, insert-Distinct, total-insert,
  total-remove, weight-le-total, All-get, keys_ne, Distinct-Uniq, total-append, total-filters,
  get-mem, sort_insert, sort_by_key, IsSortedBy, All-sort_by_key, sort_by_key-IsSortedBy,
  sort_by_key-perm, Uniq-sort_by_key, mem-sort_by_key, IsSortedBy-split, total-sort_by_key, ltb,
  leb, ◌==◌, str_eq, if◌then◌else◌, str_eq_iff, str_eq_refl, str_eq_ne, ltb→lt, ltb-false, leb→le,
  Bool-cases, Option-cases, and_true, u64_mod, add_u64, u32_mod, str_append, is_whitespace,
  is_blank,
}
use ai_daemon.Decoder.{Fault, bad_code, panicked, Result, ok, err, ◌>>=◌, index}
use ai_daemon.Decoder.Bits.{Bytes, bit}

pub record Huffman : Type 0 where
  pub counts : List ℕ
  pub symbols : List ℕ

-- How many codes of each length there are; the entry for length 0 is cleared after the loop.
unfoldable pub counts_of : List ℕ → List ℕ → Result (List ℕ)
counts_of counts [] = ok (set counts 0 0)
counts_of counts (l ∷ ls) = do n ← index counts l; counts_of (set counts l (n + 1)) ls

-- `offsets[index] = offsets[index - 1] + counts[index - 1]`, from index 1 on.
unfoldable pub offsets_of : ℕ → List ℕ → List ℕ
offsets_of offset [] = []
offsets_of offset (c ∷ cs) = offset ∷ offsets_of (offset + c) cs

-- The loop that puts each symbol with a code in its place.
unfoldable pub place_symbols : List ℕ → List ℕ → List ℕ → ℕ → Result (List ℕ)
place_symbols symbols offsets [] symbol = ok symbols
place_symbols symbols offsets (zero ∷ ls) symbol = place_symbols symbols offsets ls (symbol + 1)
place_symbols symbols offsets (suc l ∷ ls) symbol = do
  place ← index offsets (suc l)
  before ← index symbols place
  place_symbols (set symbols place symbol) (set offsets (suc l) (place + 1)) ls (symbol + 1)

-- `Huffman::new`.
unfoldable pub new_huffman : List ℕ → Result Huffman
new_huffman lengths = do
  counts ← counts_of (replicate 16 0) lengths
  symbols ← place_symbols (replicate (length lengths) 0) (offsets_of 0 counts) lengths 0
  ok (record { counts = counts; symbols = symbols })

-- The loop of `Huffman::decode`, over the counts of the lengths that are left. `code` is never
-- below `first`, so that the test is that of the source's signed numbers.
unfoldable pub decode_from : Bytes → List ℕ → List ℕ → ℕ → ℕ → ℕ → ℕ → Result (ℕ × ℕ)
decode_from bytes symbols [] code first base position = err bad_code
decode_from bytes symbols (n ∷ counts) code first base position = do
  (b, next) ← bit bytes position
  elim (ltb (code + b) (first + n)) [
    | true ↦ index symbols (base + (code + b - first)) >>= λ symbol. ok (symbol, next)
    | false ↦ decode_from bytes symbols counts ((code + b) * 2) ((first + n) * 2) (base + n) next
  ]

unfoldable pub decode : Bytes → Huffman → ℕ → Result (ℕ × ℕ)
decode bytes h position = decode_from bytes h.symbols (drop 1 h.counts) 0 0 0 position
