-- ===== src/Sched.antt =====
-- crates/ai-daemon/src/sched.rs: the scheduler's state. Its decode slots are in Sched/Slots.antt
-- and its KV budget is in Sched/Kv.antt. Everything between taking and dropping the lock is one
-- step; calls of the `Preemptor`, which are made after the lock is dropped, are returned as a
-- list in the order in which they are made. An `Instant` is a number.
pub mod Slots
pub mod Kv
pub mod Steps
pub mod Tests
use ai_daemon.Prelude.{
  ℕ, zero, suc, ◌+◌, ◌-◌, ◌*◌, ◌/◌, ◌%◌, ◌^◌, ◌≤◌, ◌<◌, String, ◌≡◌, refl, sym, ap, ◌∙◌, subst, ◌≢◌,
  ◌↔◌, ◌⊎◌, inl, inr, Bool, true, false, ◌&&◌, ◌||◌, not, Option, none, some, List, [], ◌∷◌, ◌++◌,
  map, Memᴰ, arith, length, any, all, filter, find, count, All, StrMap, get, insert, remove,
  Distinct, total, weight, get-insert, get-remove_ne, get-remove_self, remove-Distinct,
  insert-Distinct, total-insert, total-remove, weight-le-total, sort_insert, sort_by_key,
  IsSortedBy, All-sort_by_key, sort_by_key-IsSortedBy, sort_by_key-perm, ltb, leb, ◌==◌, str_eq,
  if◌then◌else◌, str_eq_iff, str_eq_refl, str_eq_ne, ltb→lt, leb→le, Bool-cases, Option-cases,
  and_true, u64_mod, add_u64,
}

pub data Class : Type 0 where
  interactive background : Class

unfoldable pub parse : String → Class
parse text =
    if str_eq text "background"
    then background
    else if str_eq text "batch"
    then background
    else interactive

unfoldable pub as_str : Class → String
as_str interactive = "interactive"
as_str background = "background"

-- The derived order of the enum: the declaration order.
abbrev pub class_rank : Class → ℕ
class_rank interactive = 0
class_rank background = 1

abbrev pub class_eq : Class → Class → Bool
class_eq interactive interactive = true
class_eq background background = true
class_eq interactive background = false
class_eq background interactive = false

pub record Running : Type 0 where
  pub ticket : ℕ
  pub session : String
  pub class : Class
  pub backend : Option String
  pub req_id : Option ℕ
  pub paused : Bool

pub record Waiter : Type 0 where
  pub ticket : ℕ
  pub session : String
  pub class : Class

pub record KvEntry : Type 0 where
  pub bytes : ℕ
  pub class : Class
  pub last_used : ℕ
  pub backend : String
  pub active : Bool

pub record Inner : Type 0 where
  pub running : List Running
  pub waiting : List Waiter
  pub served : StrMap ℕ
  pub kv : StrMap KvEntry
  pub kv_used : ℕ
  pub next_ticket : ℕ

-- The limits of `Scheduler`, which do not change after `new`.
pub record Caps : Type 0 where
  pub max_interactive : ℕ
  pub max_background : ℕ
  pub kv_budget : ℕ

-- A call of the trait `Preemptor`.
pub data Signal : Type 0 where
  set_paused : String → ℕ → Bool → Signal
  drop_cache : String → String → Signal

abbrev at_least_one : ℕ → ℕ
at_least_one zero = 1
at_least_one (suc n) = suc n

-- `Scheduler::new`: what the configuration asks for, with at least one slot in each class.
unfoldable pub new_caps : ℕ → ℕ → ℕ → Caps
new_caps max_concurrent_interactive max_concurrent_background kv_budget_bytes = record {
  max_interactive = at_least_one max_concurrent_interactive;
  max_background = at_least_one max_concurrent_background;
  kv_budget = kv_budget_bytes;
}

unfoldable pub new_inner : Inner
new_inner = record {
  running = [];
  waiting = [];
  served = [];
  kv = [];
  kv_used = 0;
  next_ticket = 1;
}

unfoldable pub kv_used_of : Caps → Inner → ℕ × ℕ
kv_used_of caps s = (s.kv_used, caps.kv_budget)

unfoldable pub running_of : Inner → List (String × String × Bool)
unfolding as_str
running_of s = map (λ (r : Running). (r.session, as_str r.class, r.paused)) s.running
