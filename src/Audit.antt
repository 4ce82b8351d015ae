-- ===== src/Audit.antt =====
-- crates/ai-daemon/src/audit.rs: the hash-chained log. The hash of a line, the JSON of a record and
-- the JSON that a reader makes of a line are parameters, since sha2 and serde_json are libraries:
-- `to_line r` is the line of `r`, `none` where serialising fails; `carried l` is `none` where `l`
-- is no record, and otherwise what its field `prev` holds.
pub mod Chain
pub mod Lost
pub mod Tamper
pub mod Tests
use ai_daemon.Prelude.{
  ℕ, zero, suc, ◌+◌, ◌-◌, ◌*◌, ◌/◌, ◌%◌, ◌^◌, ◌≤◌, ◌<◌, String, ◌≡◌, refl, sym, ap, ap₂, append-nil,
  ◌∙◌, subst, ◌≢◌, ◌↔◌, ◌⊎◌, inl, inr, Bool, true, false, ◌&&◌, ◌||◌, not, Option, none, some, List,
  [], ◌∷◌, ◌++◌, map, Memᴰ, arith, length, any, all, filter, find, count, All, All-mem, all-mem,
  find-mem, mem-append_left, mem-append_right, All-append, All-append_left, All-append_right,
  All-filter_test, All-both, All-filter, length-append, count-append, count-filter-le, mem-map,
  map-append_one, Uniq, Uniq-filter, Uniq-append, Uniq-append_left, Uniq-append_one, All-imp,
  mem-filter, mem-append_cases, mem-of_map, not-mem_nil, StrMap, get, insert, remove, Distinct,
  total, weight, get-insert, get-remove_ne, get-remove_self, remove-Distinct, insert-Distinct,
  total-insert, total-remove, weight-le-total, All-get, keys_ne, Distinct-Uniq, total-append,
  total-filters, get-mem, sort_insert, sort_by_key, IsSortedBy, All-sort_by_key,
  sort_by_key-IsSortedBy, sort_by_key-perm, Uniq-sort_by_key, mem-sort_by_key, IsSortedBy-split,
  total-sort_by_key, ltb, leb, ◌==◌, str_eq, if◌then◌else◌, str_eq_iff, str_eq_refl, str_eq_ne,
  ltb→lt, ltb-false, leb→le, Bool-cases, Option-cases, and_true, u64_mod, add_u64, u32_mod,
  str_append, is_whitespace, is_blank,
}

-- Of `Identity` what a record names.
pub record Identity : Type 0 where
  pub key : String
  pub class : String
  pub uid : ℕ
  pub pid : ℕ

pub record Record : Type 0 where
  pub at : ℕ
  pub event : String
  pub identity : String
  pub class : String
  pub uid : ℕ
  pub pid : ℕ
  pub session : Option String
  pub model : Option String
  pub digest : Option String
  pub local : Option Bool
  pub prompt_tokens : Option ℕ
  pub completion_tokens : Option ℕ
  pub attachment_bytes : Option ℕ
  pub detail : Option String
  pub prev : Option String

-- The file is its complete lines and what follows the last newline, "" but after a killed write.
pub record Audit : Type 0 where
  pub open_file : Bool
  pub lines : List String
  pub partial : String
  pub head : Option String

abbrev pub record_of : ℕ → String → Identity → Record
record_of now event who = record {
  at = now;
  event = event;
  identity = who.key;
  class = who.class;
  uid = who.uid;
  pid = who.pid;
  session = none;
  model = none;
  digest = none;
  local = none;
  prompt_tokens = none;
  completion_tokens = none;
  attachment_bytes = none;
  detail = none;
  prev = none;
}

unfoldable pub session_start : ℕ → Identity → String → String → String → Bool → Record
session_start now who session model digest local = record (record_of now "session-start" who) {
  session = some session;
  model = some model;
  digest = some digest;
  local = some local;
}

unfoldable pub session_end : ℕ → Identity → String → String → ℕ → ℕ → ℕ → Record
session_end now who session model prompt_tokens completion_tokens attachment_bytes =
    record (record_of now "session-end" who) {
      session = some session;
      model = some model;
      prompt_tokens = some prompt_tokens;
      completion_tokens = some completion_tokens;
      attachment_bytes = some attachment_bytes;
    }

-- The capability stands in the field of the model.
unfoldable pub denied : ℕ → Identity → String → String → Record
denied now who capability reason = record (record_of now "denied" who) {
  model = some capability;
  detail = some reason;
}

-- `text.lines()` of the file.
unfoldable pub all_lines : List String → String → List String
all_lines lines partial = if str_eq partial "" then lines else lines ++ (partial ∷ [])

abbrev pub backwards : List String → List String → List String
backwards [] acc = acc
backwards (l ∷ ls) acc = backwards ls (l ∷ acc)

abbrev pub filled : String → Bool
filled l = not (is_blank l)

-- Why the chain stops being checkable at a line.
pub data Break : Type 0 where
  not_a_record missing_before restarts changed : Break

-- The loop of `verify`: what it expects next, the records checked, and the number of the next
-- line; or the number of the line where it stopped.
pub data Progress : Type 0 where
  going : Option String → ℕ → ℕ → Progress
  stopped : ℕ → Break → Progress

unfoldable pub check_link : Option String → Option String → Option Break
check_link none none = none
check_link none (some got) = some missing_before
check_link (some want) none = some restarts
check_link (some want) (some got) = if str_eq want got then none else some changed

module _ (hash_line : String → String) (carried : String → Option (Option String)) where
  unfoldable pub head_of : List String → String → Option String
  head_of lines partial = elim (find filled (backwards (all_lines lines partial) [])) [
    | none ↦ none
    | some last ↦ elim (carried last) [ none ↦ none | some prev ↦ some (hash_line last) ]
  ]

  -- `Audit::new` over a file; `opened` is whether it can be opened.
  unfoldable pub new_audit : Bool → List String → String → Audit
  new_audit opened lines partial = record {
    open_file = opened;
    lines = lines;
    partial = partial;
    head = if opened then head_of lines partial else none;
  }

  -- A line, once it is known to be a record.
  unfoldable pub step_record : String → Option String → ℕ → ℕ → Option String → Progress
  step_record line expected checked number prev = elim (check_link expected prev) [
    | none ↦ going (some (hash_line line)) (checked + 1) (number + 1)
    | some why ↦ stopped number why
  ]

  unfoldable pub step_line : String → Progress → Progress
  step_line line (stopped number why) = stopped number why
  step_line line (going expected checked number) =
      if is_blank line then going expected checked (number + 1) else elim (carried line) [
        | none ↦ stopped number not_a_record
        | some prev ↦ step_record line expected checked number prev
      ]

  unfoldable pub walk : List String → Progress → Progress
  walk [] p = p
  walk (l ∷ ls) p = walk ls (step_line l p)

  unfoldable pub verify : List String → String → Progress
  verify lines partial = walk (all_lines lines partial) (going none 0 1)

-- What `writeln!` brings into the file: the line with its newline, or, when it fails, a text that is
-- the start of the line or "".
pub data Wrote : Type 0 where
  whole_line : Wrote
  cut : String → Wrote

unfoldable pub write_line : Wrote → String → Audit → Audit
write_line whole_line line s = record s {
  lines = s.lines ++ (str_append s.partial line ∷ []);
  partial = "";
}
write_line (cut text) line s = record s { partial = str_append s.partial text }

-- `Audit::append`: the link is set here and nowhere else. The head is replaced before the write,
-- and an error of the write is ignored.
unfoldable pub append :
    (String → String) → (Record → Option String) → Wrote → Record → Audit → Audit
append hash_line to_line wrote r s =
    if s.open_file
    then elim (to_line (record r { prev = s.head })) [
      | none ↦ s
      | some line ↦ write_line wrote line (record s { head = some (hash_line line) })
    ]
    else s
