-- ===== src/Grammar.antt =====
-- crates/ai-daemon/src/grammar.rs: the rule of an object, as a syntax tree whose text is
-- `print`.
pub mod Objects
pub mod Tests
use ai_daemon.Prelude.{
  ℕ, zero, suc, ◌+◌, ◌-◌, ◌*◌, ◌/◌, ◌%◌, ◌^◌, ◌≤◌, ◌<◌, String, ◌≡◌, refl, sym, ap, ap₂, append-nil,
  append_assoc, ◌∙◌, subst, ◌≢◌, ◌↔◌, ◌⊎◌, inl, inr, Bool, true, false, ◌&&◌, ◌||◌, not, Option,
  none, some, List, [], ◌∷◌, ◌++◌, map, Memᴰ, arith, get_elem?, set, replicate, take, drop, slice,
  length-set, length-replicate, get_elem?-lt, take-drop, length-take_le, take-append, drop-append,
  length-drop, get_elem?-replicate, all-get_elem?, get_elem?-within, get_elem?-set_same,
  get_elem?-set_other, length-slice, All-set, All-replicate, All-take, All-drop, sum, sum-set,
  sum-replicate_zero, length, any, all, filter, find, count, All, All-mem, all-mem, find-mem,
  mem-append_left, mem-append_right, All-append, All-append_left, All-append_right, All-filter_test,
  All-both, All-filter, length-append, count-append, count-filter-le, mem-map, map-append_one, Uniq,
  Uniq-filter, Uniq-append, Uniq-append_left, Uniq-append_one, All-imp, mem-filter,
  mem-append_cases, mem-of_map, not-mem_nil, StrMap, get, insert, remove, Distinct, total, weight,
  get-insert, get-remove_ne, get-remove_self, remove-Distinct, insert-Distinct, total-insert,
  total-remove, weight-le-total, All-get, keys_ne, Distinct-Uniq, total-append, total-filters,
  get-mem, sort_insert, sort_by_key, IsSortedBy, All-sort_by_key, sort_by_key-IsSortedBy,
  sort_by_key-perm, Uniq-sort_by_key, mem-sort_by_key, IsSortedBy-split, total-sort_by_key, ltb,
  leb, ◌==◌, str_eq, if◌then◌else◌, str_eq_iff, str_eq_refl, str_eq_ne, ltb→lt, ltb-false, leb→le,
  Bool-cases, Option-cases, and_true, u64_mod, add_u64, u32_mod, str_append, is_whitespace,
  is_blank,
}

-- The terminals of a rule; `pair` is the text of a key with its value.
pub data Token : Type 0 where
  opening closing comma : Token
  pair : String → Token

-- A token, or `(…)?` around some.
pub data Item : Type 0 where
  tok : Token → Item
  maybe : List Token → Item

-- An item, `( … | … )?`, or the text of an object with no properties.
pub data Piece : Type 0 where
  item : Item → Piece
  braces : Piece
  choice : List (List Item) → Piece

unfoldable pub first_or_later : List String → List Item
first_or_later [] = []
first_or_later (part ∷ parts) = tok comma ∷ tok (pair part) ∷ first_or_later parts

-- The required pairs, a comma before each but the first.
unfoldable pub required_items : List String → List Item
required_items [] = []
required_items (part ∷ parts) = tok (pair part) ∷ first_or_later parts

-- An optional pair with its comma.
unfoldable pub optional_item : String → Item
optional_item part = maybe (comma ∷ pair part ∷ [])

-- One alternative for each optional that may come first.
unfoldable pub alternatives : List String → List (List Item)
alternatives [] = []
alternatives (first ∷ later) = (tok (pair first) ∷ map optional_item later) ∷ alternatives later

unfoldable pub object_body : List String → List String → List Piece
object_body [] [] = braces ∷ []
object_body [] (o ∷ os) =
    item (tok opening) ∷ choice (alternatives (o ∷ os)) ∷ item (tok closing) ∷ []
object_body (r ∷ rs) optional =
    item (tok opening)
    ∷ (map item (required_items (r ∷ rs) ++ map optional_item optional) ++ item (tok closing) ∷ [])

abbrev join : String → List String → String
join sep [] = ""
join sep (s ∷ []) = s
join sep (s ∷ t ∷ ss) = str_append s (str_append sep (join sep (t ∷ ss)))

abbrev optionally : String → String
optionally s = str_append "(" (str_append s ")?")

abbrev print_token : Token → String
print_token opening = "\"{\" ws"
print_token closing = "ws \"}\""
print_token comma = "ws \",\" ws"
print_token (pair part) = part

abbrev print_item : Item → String
print_item (tok t) = print_token t
print_item (maybe ts) = optionally (join " " (map print_token ts))

abbrev print_piece : Piece → String
print_piece (item i) = print_item i
print_piece braces = "\"{\" ws \"}\""
print_piece (choice alts) = optionally (join " | " (map (λ a. join " " (map print_item a)) alts))

-- The text that the source builds.
abbrev pub print : List Piece → String
print ps = join " " (map print_piece ps)
