-- ===== src/Sched/Kv.antt =====
-- crates/ai-daemon/src/sched.rs: the KV budget. `reserve_kv` plans whom to evict before it
-- touches anybody, and commits the plan only if it is enough.
pub mod Plan
pub mod Commit
pub mod Reserve
pub mod Choice
pub mod Order
pub mod Refusal
use ai_daemon.Prelude.{
  ℕ, zero, suc, ◌+◌, ◌-◌, ◌*◌, ◌/◌, ◌%◌, ◌^◌, ◌≤◌, ◌<◌, String, ◌≡◌, refl, sym, ap, ◌∙◌, subst, ◌≢◌,
  ◌↔◌, ◌⊎◌, inl, inr, Bool, true, false, ◌&&◌, ◌||◌, not, Option, none, some, List, [], ◌∷◌, ◌++◌,
  map, Memᴰ, arith, length, any, all, filter, find, count, All, All-mem, all-mem, find-mem,
  mem-append_left, mem-append_right, All-append, All-append_left, All-append_right, All-filter_test,
  All-both, All-filter, length-append, count-append, count-filter-le, mem-map, map-append_one, Uniq,
  Uniq-filter, Uniq-append, Uniq-append_left, Uniq-append_one, All-imp, StrMap, get, insert, remove,
  Distinct, total, weight, get-insert, get-remove_ne, get-remove_self, remove-Distinct,
  insert-Distinct, total-insert, total-remove, weight-le-total, All-get, keys_ne, Distinct-Uniq,
  total-append, total-filters, sort_insert, sort_by_key, IsSortedBy, All-sort_by_key,
  sort_by_key-IsSortedBy, sort_by_key-perm, Uniq-sort_by_key, total-sort_by_key, ltb, leb, ◌==◌,
  str_eq, if◌then◌else◌, str_eq_iff, str_eq_refl, str_eq_ne, ltb→lt, leb→le, Bool-cases,
  Option-cases, and_true, u64_mod, add_u64, u32_mod,
}
use ai_daemon.Sched.{
  Class, interactive, background, class_eq, KvEntry, Inner, Caps, Signal, drop_cache,
}

-- What the plan holds of an entry that is to go.
pub record Victim : Type 0 where
  pub id : String
  pub backend : String
  pub bytes : ℕ

pub data ReserveError : Type 0 where
  -- The growth alone exceeds the whole budget.
  over_budget : ℕ → ℕ → ReserveError
  -- In use, budget, evictable, needed.
  exhausted : ℕ → ℕ → ℕ → ℕ → ReserveError

pub data Reserved : Type 0 where
  ok : List String → Reserved
  err : ReserveError → Reserved

-- Whether `extra` bytes fit once `freed` bytes are back.
unfoldable pub fits : ℕ → ℕ → ℕ → ℕ → Bool
fits budget used extra freed = leb (add_u64 (used - freed) extra) budget

abbrev pub is_candidate : String → Class → String × KvEntry → Bool
is_candidate session pass (id, e) =
    not (str_eq id session) && (class_eq e.class pass && not e.active)

abbrev last_used_of : String × KvEntry → ℕ
last_used_of (id, e) = e.last_used

-- The idle caches of one class but the requester's own, least recently used first.
unfoldable pub candidates : String → StrMap KvEntry → Class → List (String × KvEntry)
candidates session kv pass = sort_by_key last_used_of (filter (is_candidate session pass) kv)

abbrev pub victim_of : String × KvEntry → Victim
victim_of (id, e) = record { id = id; backend = e.backend; bytes = e.bytes }

-- The inner loop: victims in order, until the reservation fits.
unfoldable pub plan_pass : (ℕ → Bool) → ℕ → List (String × KvEntry) → ℕ × List Victim
plan_pass enough freed [] = (freed, [])
plan_pass enough freed (c ∷ cs) =
    let (freed', victims) = plan_pass enough (add_u64 freed (c.1).bytes) cs in
    if enough freed then (freed, []) else (freed', victim_of c ∷ victims)

-- The outer loop, over the classes in the order in which they are given up.
unfoldable pub plan_passes :
    (ℕ → Bool) → (Class → List (String × KvEntry)) → ℕ → List Class → ℕ × List Victim
plan_passes enough cands freed [] = (freed, [])
plan_passes enough cands freed (pass ∷ rest) =
    let (freed₁, victims₁) = plan_pass enough freed (cands pass) in
    let (freed₂, victims₂) = plan_passes enough cands freed₁ rest in
    if enough freed then (freed, []) else (freed₂, victims₁ ++ victims₂)

abbrev pub both_passes : List Class
both_passes = background ∷ interactive ∷ []

unfoldable pub plan : Caps → String → ℕ → Inner → ℕ × List Victim
plan caps session extra s =
    plan_passes (fits caps.kv_budget s.kv_used extra) (candidates session s.kv) 0 both_passes

unfoldable pub commit : List Victim → Inner → Inner
commit [] s = s
commit (v ∷ vs) s = commit vs (record s { kv = remove v.id s.kv; kv_used = s.kv_used - v.bytes })

abbrev pub drops : List Victim → List Signal
drops = map λ (v : Victim). drop_cache v.backend v.id

abbrev pub ids : List Victim → List String
ids = map λ (v : Victim). v.id

unfoldable pub previous_bytes : String → Inner → ℕ
previous_bytes session s = elim (get session s.kv) [ none ↦ 0 | some e ↦ e.bytes ]

unfoldable pub store : String → String → Class → ℕ → ℕ → Inner → Inner
store session backend class bytes now s =
    let entry : KvEntry = record {
      bytes = bytes;
      class = class;
      last_used = now;
      backend = backend;
      active = true;
    } in
    record s { kv = insert session entry s.kv }

-- The reservation of a session that grows by `extra` bytes.
unfoldable pub grow :
    Caps → String → String → Class → ℕ → ℕ → ℕ → Inner → Inner × Reserved × List Signal
grow caps session backend class bytes now extra s =
    let (freed, victims) = plan caps session extra s in
    let cleared = commit victims s in
    if ltb caps.kv_budget extra
    then (s, err (over_budget extra caps.kv_budget), [])
    else if not (fits caps.kv_budget s.kv_used extra freed)
    then (s, err (exhausted s.kv_used caps.kv_budget freed extra), [])
    else (
      store session backend class bytes now
          (record cleared { kv_used = add_u64 cleared.kv_used extra }),
      ok (ids victims),
      drops victims,
    )

unfoldable pub shrink : String → String → Class → ℕ → ℕ → ℕ → Inner → Inner × Reserved × List Signal
shrink session backend class bytes now excess s =
    (store session backend class bytes now (record s { kv_used = s.kv_used - excess }), ok [], [])

-- `Scheduler::reserve_kv` at time `now`.
unfoldable pub reserve_kv :
    Caps → String → String → Class → ℕ → ℕ → Inner → Inner × Reserved × List Signal
reserve_kv caps session backend class bytes now s =
    let previous = previous_bytes session s in
    if ltb previous bytes
    then grow caps session backend class bytes now (bytes - previous) s
    else shrink session backend class bytes now (previous - bytes) s

unfoldable pub mark_idle : String → ℕ → Inner → Inner
mark_idle session now s = elim (get session s.kv) [
  | none ↦ s
  | some e ↦ record s { kv = insert session (record e { active = false; last_used = now }) s.kv }
]

unfoldable pub release_kv : String → Inner → Inner
release_kv session s = elim (get session s.kv) [
  | none ↦ s
  | some e ↦ record s { kv = remove session s.kv; kv_used = s.kv_used - e.bytes }
]
