-- ===== src/Sched/Slots.antt =====
-- crates/ai-daemon/src/sched.rs: decode slots. `admit` is `enqueue`, which takes a ticket, and
-- then `try_admit`, one round of its loop; a waiter makes rounds until one of them admits it.
pub mod Tickets
pub mod Turn
pub mod Preemption
pub mod Invariant
use ai_daemon.Prelude.{
  ℕ, zero, suc, ◌+◌, ◌-◌, ◌*◌, ◌/◌, ◌%◌, ◌^◌, ◌≤◌, ◌<◌, String, ◌≡◌, refl, sym, ap, ◌∙◌, subst, ◌≢◌,
  ◌↔◌, ◌⊎◌, inl, inr, Bool, true, false, ◌&&◌, ◌||◌, not, Option, none, some, List, [], ◌∷◌, ◌++◌,
  map, Memᴰ, arith, length, any, all, filter, find, count, All, StrMap, get, insert, remove,
  Distinct, total, weight, get-insert, get-remove_ne, get-remove_self, remove-Distinct,
  insert-Distinct, total-insert, total-remove, weight-le-total, sort_insert, sort_by_key,
  IsSortedBy, All-sort_by_key, sort_by_key-IsSortedBy, sort_by_key-perm, ltb, leb, ◌==◌, str_eq,
  if◌then◌else◌, str_eq_iff, str_eq_refl, str_eq_ne, ltb→lt, leb→le, Bool-cases, Option-cases,
  and_true, u64_mod, add_u64,
}
use ai_daemon.Sched.{
  Class, interactive, background, class_rank, class_eq, Running, Waiter, KvEntry, Inner, Caps,
  Signal, set_paused,
}
use ai_daemon.Prelude.{u32_mod, ◌%◌}

abbrev is_class : Class → Running → Bool
is_class c r = class_eq r.class c

-- The order of `(Class, u64, u64)`.
unfoldable pub key_le : ℕ × ℕ × ℕ → ℕ × ℕ × ℕ → Bool
key_le (c, s, t) (c', s', t') =
    if ltb c c'
    then true
    else if ltb c' c
    then false
    else if ltb s s'
    then true
    else if ltb s' s
    then false
    else leb t t'

unfoldable pub served_of : Inner → String → ℕ
served_of s session = elim (get session s.served) [ none ↦ 0 | some n ↦ n ]

unfoldable pub waiter_key : Inner → Waiter → ℕ × ℕ × ℕ
waiter_key s w = (class_rank w.class, served_of s w.session, w.ticket)

unfoldable pub cap_of : Caps → Class → ℕ
cap_of caps interactive = caps.max_interactive
cap_of caps background = caps.max_background

-- `count() as u32`.
unfoldable pub running_in : Inner → Class → ℕ
running_in s c = count (is_class c) s.running % u32_mod

unfoldable pub find_waiter : ℕ → List Waiter → Option Waiter
find_waiter ticket = find (λ w. w.ticket == ticket)

-- Whether a waiter that was found is the one to go next.
unfoldable pub is_next : Caps → Inner → Waiter → Bool
is_next caps s me =
    if leb (cap_of caps me.class) (running_in s me.class)
    then false
    else all (λ w. key_le (waiter_key s me) (waiter_key s w)) s.waiting

unfoldable pub is_turn : Caps → Inner → ℕ → Bool
unfolding is_next
is_turn caps s ticket = elim (find_waiter ticket s.waiting) [
  | none ↦ false
  | some me ↦ is_next caps s me
]

unfoldable pub enqueue : String → Class → Inner → Inner × ℕ
enqueue session class s = (
  record s {
    waiting = s.waiting ++ record { ticket = s.next_ticket; session = session; class = class } ∷ [];
    next_ticket = add_u64 s.next_ticket 1;
  },
  s.next_ticket,
)

-- Sets `paused` on what `test` picks, whatever is attached.
unfoldable pub mark : (Running → Bool) → Bool → List Running → List Running
mark test paused [] = []
mark test paused (r ∷ rs) =
    (if test r then record r { paused = paused } else r) ∷ mark test paused rs

-- The call for a request that has reached its backend; one that has not yet gets none.
unfoldable pub signal_for : Bool → Running → List Signal
signal_for paused r = elim r.backend [
  | none ↦ []
  | some b ↦ elim r.req_id [ none ↦ [] | some q ↦ set_paused b q paused ∷ [] ]
]

unfoldable pub signals : (Running → Bool) → Bool → List Running → List Signal
unfolding signal_for
signals test paused [] = []
signals test paused (r ∷ rs) =
    (if test r then signal_for paused r else []) ++ signals test paused rs

abbrev pub pausable : Running → Bool
pausable r = class_eq r.class background && not r.paused

abbrev pub is_paused_entry : Running → Bool
is_paused_entry r = r.paused

-- Admits the ticket: out of the queue, into the running, with the preemption that follows.
unfoldable pub grant : String → Class → ℕ → Inner → Inner × List Signal
unfolding mark signals
grant session class ticket s =
    let entry : Running = record {
      ticket = ticket;
      session = session;
      class = class;
      backend = none;
      req_id = none;
      paused = false;
    } in
    let seated = s.running ++ entry ∷ [] in
    let queue = filter (λ w. not (w.ticket == ticket)) s.waiting in
    if class_eq class interactive
    then (
      record s { waiting = queue; running = mark pausable true seated },
      signals pausable true seated,
    )
    else (record s { waiting = queue; running = seated }, [])

-- One round of the loop of `admit`; `none` means that it waits on.
unfoldable pub try_admit : Caps → String → Class → ℕ → Inner → Option (Inner × List Signal)
unfolding grant
try_admit caps session class ticket s =
    if is_turn caps s ticket then some (grant session class ticket s) else none

abbrev pub any_interactive : List Running → Bool
any_interactive = any (is_class interactive)

abbrev other_interactive : ℕ → List Running → Bool
other_interactive ticket = any (λ r. is_class interactive r && not (r.ticket == ticket))

pub attach_entry : Bool → String → ℕ → Running → Running × List Signal
attach_entry should_pause backend req_id r =
    if class_eq r.class background && should_pause
    then (
      record r { backend = some backend; req_id = some req_id; paused = true },
      set_paused backend req_id true ∷ [],
    )
    else (record r { backend = some backend; req_id = some req_id }, [])

-- `find` and the update of the first entry with the ticket.
pub attach_first : Bool → ℕ → String → ℕ → List Running → List Running × List Signal
unfolding attach_entry
attach_first should_pause ticket backend req_id [] = ([], [])
attach_first should_pause ticket backend req_id (r ∷ rs) =
    let (rs', out) = attach_first should_pause ticket backend req_id rs in
    let (r', now) = attach_entry should_pause backend req_id r in
    if r.ticket == ticket then (r' ∷ rs, now) else (r ∷ rs', out)

-- `Slot::attach`.
unfoldable pub attach : ℕ → String → ℕ → Inner → Inner × List Signal
unfolding attach_first
attach ticket backend req_id s =
    let (running, out) =
      attach_first (other_interactive ticket s.running) ticket backend req_id s.running in
    (record s { running = running }, out)

-- `Slot::is_paused`.
unfoldable pub is_paused : ℕ → Inner → Bool
is_paused ticket s = any (λ r. r.ticket == ticket && r.paused) s.running

pub touch : ℕ → KvEntry → KvEntry
touch now e = record e { last_used = now }

pub update_kv : (KvEntry → KvEntry) → String → StrMap KvEntry → StrMap KvEntry
update_kv f session kv = elim (get session kv) [ none ↦ kv | some e ↦ insert session (f e) kv ]

-- `Slot::charge`.
unfoldable pub charge : String → ℕ → ℕ → Inner → Inner
unfolding touch update_kv
charge session tokens now s = record s {
  served = insert session (add_u64 (served_of s session) tokens) s.served;
  kv = update_kv (touch now) session s.kv;
}

-- `Scheduler::release`, which dropping a slot calls.
unfoldable pub release : ℕ → Inner → Inner × List Signal
unfolding mark signals
release ticket s =
    let left = filter (λ r. not (r.ticket == ticket)) s.running in
    if any_interactive left then (record s { running = left }, []) else (
      record s { running = mark is_paused_entry false left },
      signals is_paused_entry false left,
    )
