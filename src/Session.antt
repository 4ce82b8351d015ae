-- ===== src/Session.antt =====
-- crates/ai-daemon/src/session.rs: the worker of a session, as far as tool calls, the hello and
-- attachments go. What a turn or another request does beyond that is a call, an `Out`. `P` and `T`
-- are the parameters of a generation and a tool's schema.
pub mod Answers
pub mod Attachments
pub mod Tests
use ai_daemon.Prelude.{
  ℕ, zero, suc, ◌+◌, ◌-◌, ◌*◌, ◌/◌, ◌%◌, ◌^◌, ◌≤◌, ◌<◌, String, ◌≡◌, refl, sym, ap, ap₂, append-nil,
  append_assoc, ◌∙◌, subst, ◌≢◌, ◌↔◌, ◌⊎◌, inl, inr, Bool, true, false, ◌&&◌, ◌||◌, not, Option,
  none, some, List, [], ◌∷◌, ◌++◌, map, Memᴰ, arith, length, any, all, filter, find, count, All,
  All-mem, all-mem, find-mem, mem-append_left, mem-append_right, All-append, All-append_left,
  All-append_right, All-filter_test, All-both, All-filter, length-append, count-append,
  count-filter-le, mem-map, map-append_one, Uniq, Uniq-filter, Uniq-append, Uniq-append_left,
  Uniq-append_one, All-imp, mem-filter, mem-append_cases, mem-of_map, not-mem_nil, StrMap, get,
  insert, remove, Distinct, total, weight, get-insert, get-remove_ne, get-remove_self,
  remove-Distinct, insert-Distinct, total-insert, total-remove, weight-le-total, All-get, keys_ne,
  Distinct-Uniq, total-append, total-filters, get-mem, sort_insert, sort_by_key, IsSortedBy,
  All-sort_by_key, sort_by_key-IsSortedBy, sort_by_key-perm, Uniq-sort_by_key, mem-sort_by_key,
  IsSortedBy-split, total-sort_by_key, ltb, leb, ◌==◌, str_eq, if◌then◌else◌, str_eq_iff,
  str_eq_refl, str_eq_ne, ltb→lt, ltb-false, leb→le, Bool-cases, Option-cases, and_true, u64_mod,
  add_u64, u32_mod, str_append, is_whitespace, is_blank,
}

pub record Message : Type 0 where
  pub role : String
  pub content : String
  pub attachments : List String
  pub tool_call_id : Option String

pub record ToolResultItem : Type 0 where
  pub id : String
  pub content : String

pub record Generate (P T : Type 0) : Type 0 where
  pub messages : List Message
  pub stream : Bool
  pub params : P
  pub grammar : Option String
  pub tools : Option (List T)

-- Of `Worker` what the requests change.
pub record Worker (P T : Type 0) : Type 0 where
  pub history : List Message
  pub tools : Option (List T)
  pub params : P
  pub grammar : Option String
  pub pending_tool_calls : List String
  pub proto : ℕ

-- An error event of the protocol, a hello with what was negotiated, or the start of a turn.
pub data Out : Type 0 where
  no_call_outstanding unknown_call : Out
  unsupported_protocol : ℕ → Out
  hello : ℕ → Out
  turn : Bool → Out

abbrev pub data_proto : ℕ
data_proto = 2

abbrev pub min_data_proto : ℕ
min_data_proto = 1

-- The first place that holds `x` is taken out (`position`, then `remove`).
unfoldable pub remove_first : String → List String → Option (List String)
remove_first x [] = none
remove_first x (y ∷ ys) =
    let rest = remove_first x ys in
    if str_eq y x then some ys else elim rest [ none ↦ none | some zs ↦ some (y ∷ zs) ]

abbrev pub answer_message : ToolResultItem → Message
answer_message r = record {
  role = "tool";
  content = r.content;
  attachments = [];
  tool_call_id = some r.id;
}

abbrev pub is_empty : List String → Bool
is_empty [] = true
is_empty (x ∷ xs) = false

module _ {P T : Type 0} where
  abbrev pub take_one : ToolResultItem → List String → Worker P T → Worker P T
  take_one r rest s = record s {
    pending_tool_calls = rest;
    history = s.history ++ (answer_message r ∷ []);
  }

  -- The loop of `answer_tools`; `false` is its early return.
  unfoldable pub take_answers : List ToolResultItem → Worker P T → Worker P T × Bool
  take_answers [] s = (s, true)
  take_answers (r ∷ rs) s = elim (remove_first r.id s.pending_tool_calls) [
    | none ↦ (s, false)
    | some rest ↦ take_answers rs (take_one r rest s)
  ]

  unfoldable pub resume : Worker P T × Bool → Worker P T × List Out
  resume (s, false) = (s, unknown_call ∷ [])
  resume (s, true) = (s, if is_empty s.pending_tool_calls then turn true ∷ [] else [])

  -- `Worker::answer_tools`.
  unfoldable pub answer_tools : List ToolResultItem → Worker P T → Worker P T × List Out
  answer_tools rs s =
      if is_empty s.pending_tool_calls
      then (s, no_call_outstanding ∷ [])
      else resume (take_answers rs s)

  -- The branch of `dispatch` for a hello; `false` ends the session.
  unfoldable pub greet : ℕ → Worker P T → Worker P T × List Out × Bool
  greet proto s =
      let asked = if proto == 0 then data_proto else proto in
      if leb min_data_proto asked && leb asked data_proto
      then (record s { proto = asked }, hello asked ∷ [], true)
      else (s, unsupported_protocol asked ∷ [], false)

  -- The branch of `dispatch` for a generation.
  unfoldable pub generate : Generate P T → Worker P T → Worker P T × List Out
  generate g s = (
    record s {
      history = g.messages;
      params = g.params;
      tools = g.tools;
      grammar = g.grammar;
      pending_tool_calls = [];
    },
    turn g.stream ∷ [],
  )

pub record ToolCall : Type 0 where
  pub name : String
  pub arguments : String

-- `calls_are_ones_we_offered`, over the offered tools' names; `is_json` is serde_json's.
unfoldable pub calls_are_ones_we_offered :
    (String → Bool) → Option (List String) → List ToolCall → Bool
calls_are_ones_we_offered is_json none calls = false
calls_are_ones_we_offered is_json (some offered) calls =
    all (λ (c : ToolCall). any (λ t. str_eq t c.name) offered && is_json c.arguments) calls
