-- ===== src/Identity.antt =====
-- crates/ai-daemon/src/identity.rs: the key that grants are kept by. A text is the list of its
-- characters, by their codes.
pub mod Key
pub mod Launches
pub mod Tests
use ai_daemon.Prelude.{
  ℕ, zero, suc, ◌+◌, ◌-◌, ◌*◌, ◌/◌, ◌%◌, ◌^◌, ◌≤◌, ◌<◌, String, ◌≡◌, refl, sym, ap, ap₂, append-nil,
  append_assoc, ◌∙◌, subst, ◌≢◌, ◌↔◌, ◌⊎◌, inl, inr, Bool, true, false, ◌&&◌, ◌||◌, not, Option,
  none, some, List, [], ◌∷◌, ◌++◌, map, Memᴰ, arith, get_elem?, set, replicate, take, drop, slice,
  length-set, length-replicate, get_elem?-lt, take-drop, length-take_le, take-append, drop-append,
  length-drop, get_elem?-replicate, all-get_elem?, get_elem?-within, get_elem?-set_same,
  get_elem?-set_other, length-slice, All-set, All-replicate, All-take, All-drop, sum, sum-set,
  sum-replicate_zero, length, any, all, filter, find, count, All, All-mem, all-mem, find-mem,
  mem-append_left, mem-append_right, All-append, All-append_left, All-append_right, All-filter_test,
  All-both, All-filter, length-append, count-append, count-filter-le, mem-map, map-append_one, Uniq,
  Uniq-filter, Uniq-append, Uniq-append_left, Uniq-append_one, All-imp, mem-filter,
  mem-append_cases, mem-of_map, not-mem_nil, StrMap, get, insert, remove, Distinct, total, weight,
  get-insert, get-remove_ne, get-remove_self, remove-Distinct, insert-Distinct, total-insert,
  total-remove, weight-le-total, All-get, keys_ne, Distinct-Uniq, total-append, total-filters,
  get-mem, sort_insert, sort_by_key, IsSortedBy, All-sort_by_key, sort_by_key-IsSortedBy,
  sort_by_key-perm, Uniq-sort_by_key, mem-sort_by_key, IsSortedBy-split, total-sort_by_key, ltb,
  leb, ◌==◌, str_eq, if◌then◌else◌, str_eq_iff, str_eq_refl, str_eq_ne, ltb→lt, ltb-false, leb→le,
  Bool-cases, Option-cases, and_true, u64_mod, add_u64, u32_mod, str_append, is_whitespace,
  is_blank,
}

abbrev pub Text : Type 0
Text = List ℕ

-- `-`, `.`, `/`, `:` and `@`.
abbrev pub dash : ℕ
dash = 45

abbrev pub dot : ℕ
dot = 46

abbrev pub text_eq : Text → Text → Bool
text_eq [] [] = true
text_eq [] (y ∷ ys) = false
text_eq (x ∷ xs) [] = false
text_eq (x ∷ xs) (y ∷ ys) = (x == y) && text_eq xs ys

unfoldable pub cut_prefix : Text → Text → Option Text
cut_prefix [] t = some t
cut_prefix (p ∷ ps) [] = none
cut_prefix (p ∷ ps) (c ∷ t) = elim (p == c) [ true ↦ cut_prefix ps t | false ↦ none ]

abbrev pub back_onto : Text → Text → Text
back_onto [] acc = acc
back_onto (c ∷ t) acc = back_onto t (c ∷ acc)

abbrev pub reversed : Text → Text
reversed t = back_onto t []

abbrev pub map_some : (Text → Text) → Option Text → Option Text
map_some f none = none
map_some f (some t) = some (f t)

-- `strip_suffix`: the prefix of the reversed text.
unfoldable pub cut_suffix : Text → Text → Option Text
cut_suffix s t = map_some reversed (cut_prefix (reversed s) (reversed t))

abbrev pub starts_with : Text → Text → Bool
starts_with t p = elim (cut_prefix p t) [ none ↦ false | some rest ↦ true ]

-- `split`, which gives at least one part.
abbrev pub onto_first : ℕ → List Text → List Text
onto_first c [] = (c ∷ []) ∷ []
onto_first c (part ∷ parts) = (c ∷ part) ∷ parts

unfoldable pub split : ℕ → Text → List Text
split sep [] = [] ∷ []
split sep (c ∷ t) = let rest = split sep t in if c == sep then [] ∷ rest else onto_first c rest

unfoldable pub join : ℕ → List Text → Text
join sep [] = []
join sep (part ∷ []) = part
join sep (part ∷ next ∷ parts) = part ++ sep ∷ join sep (next ∷ parts)

abbrev pub is_digit : ℕ → Bool
is_digit c = leb 48 c && leb c 57

abbrev pub is_hexdigit : ℕ → Bool
is_hexdigit c = is_digit c || ((leb 65 c && leb c 70) || (leb 97 c && leb c 102))

unfoldable pub is_launch_token : Text → Bool
is_launch_token part =
    not (length part == 0) && (all is_digit part || (leb 6 (length part) && all is_hexdigit part))

abbrev pub last_part : List Text → Option Text
last_part [] = none
last_part (p ∷ []) = some p
last_part (p ∷ q ∷ ps) = last_part (q ∷ ps)

abbrev pub without_last : List Text → List Text
without_last [] = []
without_last (p ∷ []) = []
without_last (p ∷ q ∷ ps) = p ∷ without_last (q ∷ ps)

-- A trailing launch token is taken off, unless nothing else is there.
unfoldable pub drop_token : List Text → List Text
drop_token parts =
    let ends : Bool = elim (last_part parts) [ none ↦ false | some t ↦ is_launch_token t ] in
    if ltb 1 (length parts) && ends then without_last parts else parts

-- A launcher, which stands before a dotted application id.
unfoldable pub drop_launcher : List Text → List Text
drop_launcher [] = []
drop_launcher (first ∷ parts) =
    if not (any (λ c. c == dot) first) && any (λ p. any (λ c. c == dot) p) parts
    then parts
    else first ∷ parts

-- The widths of the five groups of a uuid.
abbrev pub groups : List ℕ
groups = 8 ∷ 4 ∷ 4 ∷ 4 ∷ 12 ∷ []

abbrev pub is_uuid : List ℕ → List Text → Bool
is_uuid [] parts = true
is_uuid (w ∷ ws) [] = true
is_uuid (w ∷ ws) (p ∷ ps) = ((length p == w) && all is_hexdigit p) && is_uuid ws ps

unfoldable pub strip_launch_uuid : Text → Option Text
strip_launch_uuid name =
    let parts = split dash name in
    if leb (length parts) 5
    then none
    else if is_uuid groups (drop (length parts - 5) parts)
    then some (take (length name - 37) name)
    else none

-- ".service", ".scope", "user@", "vte-spawn-", "session-", "init", "snap.", "app-airun-", "app-".
abbrev pub dot_service : Text
dot_service = 46 ∷ 115 ∷ 101 ∷ 114 ∷ 118 ∷ 105 ∷ 99 ∷ 101 ∷ []

abbrev pub dot_scope : Text
dot_scope = 46 ∷ 115 ∷ 99 ∷ 111 ∷ 112 ∷ 101 ∷ []

abbrev pub user_at : Text
user_at = 117 ∷ 115 ∷ 101 ∷ 114 ∷ 64 ∷ []

abbrev pub vte_spawn : Text
vte_spawn = 118 ∷ 116 ∷ 101 ∷ 45 ∷ 115 ∷ 112 ∷ 97 ∷ 119 ∷ 110 ∷ 45 ∷ []

abbrev pub session : Text
session = 115 ∷ 101 ∷ 115 ∷ 115 ∷ 105 ∷ 111 ∷ 110 ∷ 45 ∷ []

abbrev pub init : Text
init = 105 ∷ 110 ∷ 105 ∷ 116 ∷ []

abbrev pub snap : Text
snap = 115 ∷ 110 ∷ 97 ∷ 112 ∷ 46 ∷ []

abbrev pub app : Text
app = 97 ∷ 112 ∷ 112 ∷ 45 ∷ []

abbrev pub airun : Text
airun = 97 ∷ 105 ∷ 114 ∷ 117 ∷ 110 ∷ 45 ∷ []

-- The body of `app-….scope`, whose launcher and launch token are taken off.
unfoldable pub app_id : Text → Text
app_id body = elim (cut_prefix airun body) [
  | some given ↦ join dash (drop_token (split dash given))
  | none ↦ join dash (drop_launcher (drop_token (split dash body)))
]

-- `normalise_unit` on a scope, without its suffix.
unfoldable pub scope_unit : Text → Text → Option Text
scope_unit component name =
    if starts_with name vte_spawn || (starts_with name session || text_eq name init)
    then none
    else if starts_with name snap
    then some (elim (strip_launch_uuid name) [ none ↦ name | some stripped ↦ stripped ])
    else elim (cut_prefix app name) [ none ↦ some component | some body ↦ some (app_id body) ]

unfoldable pub normalise_unit : Text → Option Text
normalise_unit component = elim (cut_suffix dot_service component) [
  | some name ↦ if starts_with name user_at then none else some component
  | none ↦ elim (cut_suffix dot_scope component) [
    | none ↦ none
    | some name ↦ scope_unit component name
  ]
]

-- The first of some candidates, the innermost component first.
unfoldable pub first_unit : List Text → Option Text
first_unit [] = none
first_unit (c ∷ cs) = elim (normalise_unit c) [ none ↦ first_unit cs | some unit ↦ some unit ]

abbrev pub reversed_parts : List Text → List Text → List Text
reversed_parts [] acc = acc
reversed_parts (p ∷ ps) acc = reversed_parts ps (p ∷ acc)

-- What follows the last `:` of a line, of "::" as well.
unfoldable pub after_last : ℕ → Text → Text
after_last sep line = elim (last_part (split sep line)) [ none ↦ line | some path ↦ path ]

unfoldable pub unit_of_line : Text → Option Text
unit_of_line line = first_unit (reversed_parts (split 47 (after_last 58 line)) [])

unfoldable pub unit_from_lines : List Text → Option Text
unit_from_lines [] = none
unit_from_lines (l ∷ ls) =
    let rest = unit_from_lines ls in elim (unit_of_line l) [ none ↦ rest | some unit ↦ some unit ]

-- `unit_from_cgroup`; on a text without carriage returns `lines` is `split` at the newline, and an empty last line has no unit.
unfoldable pub unit_from_cgroup : Text → Option Text
unit_from_cgroup text = unit_from_lines (split 10 text)
