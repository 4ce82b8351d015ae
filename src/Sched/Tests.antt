-- ===== src/Sched/Tests.antt =====
-- crates/ai-daemon/src/sched.rs: the theorems at concrete schedulers, and the cases of its tests.
use ai_daemon.Prelude.{
  ℕ, ◌+◌, ◌≤◌, ◌<◌, String, ◌≡◌, refl, ◌≢◌, ◌⊎◌, true, false, some, [], ◌∷◌, Memᴰ, arith, All, get,
  insert, remove, total, sort_by_key, str_eq_iff,
}
use ai_daemon.Sched.{
  interactive, background, class_rank, Running, Waiter, KvEntry, Inner, Caps, set_paused,
  drop_cache, new_inner,
}
use ai_daemon.Sched.Slots.{
  is_next, find_waiter, key_le, waiter_key, is_turn, enqueue, grant, try_admit, release, served_of,
  running_in, cap_of,
}
use ai_daemon.Sched.Slots.Turn.{turn_unique, turn_order, turn_progress}
use ai_daemon.Sched.Slots.Preemption.{others, grant_preempts, release_resumes}
use ai_daemon.Sched.Kv.{
  ok, err, exhausted, reserve_kv, grow, shrink, plan, plan_passes, plan_pass, candidates, fits,
  commit, store, previous_bytes,
}
use ai_daemon.Sched.Kv.Plan.{size}
use ai_daemon.Sched.Kv.Reserve.{KvInv}
use ai_daemon.Sched.Kv.Choice.{reserve_kv-Evicts, Evicts}
use ai_daemon.Sched.Kv.Order.{evicted-GoesBefore, GoesBefore}
use ai_daemon.Sched.Kv.Refusal.{refused_changes_nothing, refused_for_cause}
use ai_daemon.Sched.Steps.{here, next, enqueues, admits, Sound, Limits, scheduler-Sound}

abbrev caps : Caps
caps = record { max_interactive = 2; max_background = 1; kv_budget = 1000 }

abbrev caps_limits : Limits caps
caps_limits = record {
  caps_fit = record { fit_interactive = omega arith; fit_background = omega arith };
  budget_fits = omega arith;
}

abbrev first_waiter : Waiter
first_waiter = record { ticket = 1; session = "batch"; class = background }

abbrev chat_waiter : Waiter
chat_waiter = record { ticket = 2; session = "chat"; class = interactive }

-- A batch runs at its backend, and a chat waits.
abbrev batch_running : Running
batch_running = record {
  ticket = 1;
  session = "batch";
  class = background;
  backend = some "mock";
  req_id = some 1;
  paused = false;
}

abbrev busy : Inner
busy = record {
  running = batch_running ∷ [];
  waiting = chat_waiter ∷ [];
  served = [];
  kv = [];
  kv_used = 0;
  next_ticket = 3;
}

abbrev chat_running : Running
chat_running = record {
  ticket = 2;
  session = "chat";
  class = interactive;
  backend = some "mock";
  req_id = some 2;
  paused = false;
}

-- The chat runs, and the batch is held still.
abbrev held : Inner
held = record {
  running = record batch_running { paused = true } ∷ chat_running ∷ [];
  waiting = [];
  served = [];
  kv = [];
  kv_used = 0;
  next_ticket = 3;
}

turn_unique_example : ◌≡◌ {A = ℕ} 2 2
unfolding is_turn is_next find_waiter cap_of running_in key_le waiter_key served_of get
turn_unique_example = turn_unique caps busy 2 2 refl refl

turn_order_example :
    (class_rank interactive ≤ class_rank interactive)
    × (interactive ≡ interactive → served_of busy "chat" ≤ served_of busy "chat")
    × (interactive ≡ interactive → served_of busy "chat" ≡ served_of busy "chat" → ◌≤◌ 2 2)
unfolding is_turn is_next find_waiter cap_of running_in key_le waiter_key served_of get
turn_order_example = turn_order caps busy 2 chat_waiter chat_waiter refl refl (Memᴰ.head refl)

turn_progress_example :
    (w : Waiter) × Memᴰ w busy.waiting
    × (running_in busy w.class < cap_of caps w.class → is_turn caps busy w.ticket ≡ true)
turn_progress_example = turn_progress caps busy chat_waiter [] refl (tt, tt)

grant_preempts_told : Memᴰ (set_paused "mock" 1 true) (grant "chat" interactive 2 busy).1
grant_preempts_told =
    (grant_preempts "chat" 2 busy).1 batch_running "mock" 1 (Memᴰ.head refl) refl refl refl refl

grant_preempts_example :
    let (after, out) = grant "chat" interactive 2 busy in
    All (λ (r : Running). r.class ≡ background → r.paused ≡ true) after.running
    × ((r : Running) (b : String) (q : ℕ)
        → Memᴰ r busy.running
        → r.class ≡ background
        → r.paused ≡ false
        → r.backend ≡ some b
        → r.req_id ≡ some q
        → Memᴰ (set_paused b q true) out)
grant_preempts_example = grant_preempts "chat" 2 busy

release_resumes_example :
    let (after, out) = release 2 held in
    All (λ (r : Running). r.paused ≡ false) after.running
    × ((r : Running) (b : String) (q : ℕ)
        → Memᴰ r (others 2 held.running)
        → r.paused ≡ true
        → r.backend ≡ some b
        → r.req_id ≡ some q
        → Memᴰ (set_paused b q false) out)
release_resumes_example = release_resumes 2 held refl

scheduler-Sound_example :
    Sound caps (grant "chat" interactive 1 (enqueue "chat" interactive new_inner).0).0
unfolding new_inner enqueue try_admit grant is_turn is_next find_waiter cap_of running_in key_le
    waiter_key served_of get
scheduler-Sound_example =
    scheduler-Sound caps (grant "chat" interactive 1 (enqueue "chat" interactive new_inner).0).0
      caps_limits
      (next [] (next [] here (enqueues "chat" interactive (omega arith) refl))
        (admits (record { ticket = 1; session = "chat"; class = interactive }) refl refl))

abbrev a_cache : KvEntry
a_cache = record {
  bytes = 400;
  class = interactive;
  last_used = 1;
  backend = "mock";
  active = false;
}

abbrev b_cache : KvEntry
b_cache = record {
  bytes = 200;
  class = background;
  last_used = 2;
  backend = "mock";
  active = false;
}

abbrev loaded : Inner
loaded = record {
  running = [];
  waiting = [];
  served = [];
  kv = ("A", a_cache) ∷ ("B", b_cache) ∷ [];
  kv_used = 600;
  next_ticket = 1;
}

loaded-KvInv : KvInv caps loaded
unfolding get
loaded-KvInv = record { distinct = (refl, (refl, tt)); exact = refl; within = omega arith }

-- Only B goes: background first, and once it fits nobody else is touched.
b_goes : (reserve_kv caps "C" "mock" interactive 500 9 loaded).1 ≡ ok ("B" ∷ [])
unfolding reserve_kv grow shrink plan plan_passes plan_pass candidates fits commit store
    previous_bytes get insert remove sort_by_key
b_goes = refl

b_dropped : (reserve_kv caps "C" "mock" interactive 500 9 loaded).2 ≡ drop_cache "mock" "B" ∷ []
unfolding reserve_kv grow shrink plan plan_passes plan_pass candidates fits commit store
    previous_bytes get insert remove sort_by_key
b_dropped = refl

both_go : (reserve_kv caps "C" "mock" interactive 900 9 loaded).1 ≡ ok ("B" ∷ "A" ∷ [])
unfolding reserve_kv grow shrink plan plan_passes plan_pass candidates fits commit store
    previous_bytes get insert remove sort_by_key
both_go = refl

-- A is in use, so that nothing can make room.
abbrev a_active : Inner
a_active = record loaded { kv = ("A", record a_cache { active = true }) ∷ ("B", b_cache) ∷ [] }

a_active-KvInv : KvInv caps a_active
unfolding get
a_active-KvInv = record { distinct = (refl, (refl, tt)); exact = refl; within = omega arith }

too_much :
    (reserve_kv caps "C" "mock" interactive 700 9 a_active).1 ≡ err (exhausted 600 1000 200 700)
unfolding reserve_kv grow shrink plan plan_passes plan_pass candidates fits commit store
    previous_bytes get insert remove sort_by_key
too_much = refl

reserve_kv-Evicts_example :
    Evicts "C" loaded
      (reserve_kv caps "C" "mock" interactive 500 9 loaded).0
      ("B" ∷ [])
      (reserve_kv caps "C" "mock" interactive 500 9 loaded).2
reserve_kv-Evicts_example =
    reserve_kv-Evicts caps "C" "mock" interactive 500 9 loaded ("B" ∷ []) (omega arith) loaded-KvInv
      b_goes

a_ne_c : ◌≢◌ {A = String} "A" "C"
a_ne_c = ground (arith, str_eq_iff "A" "C")

evicted-GoesBefore_example : GoesBefore b_cache a_cache
unfolding get
evicted-GoesBefore_example =
    evicted-GoesBefore caps "C" "mock" interactive 500 9 loaded ("B" ∷ []) "B" "A" b_cache a_cache
      (omega arith) loaded-KvInv b_goes (Memᴰ.head refl) refl refl refl refl a_ne_c

refused_changes_nothing_example :
    ((reserve_kv caps "C" "mock" interactive 700 9 a_active).0 ≡ a_active)
    × ((reserve_kv caps "C" "mock" interactive 700 9 a_active).2 ≡ [])
refused_changes_nothing_example =
    refused_changes_nothing caps "C" "mock" interactive 700 9 a_active (exhausted 600 1000 200 700)
      too_much

refused_for_cause_example :
    (1000 + previous_bytes "C" a_active < 700)
    ⊎ (1000
          + previous_bytes "C" a_active
          + total size (candidates "C" a_active.kv background)
          + total size (candidates "C" a_active.kv interactive)
        < 600 + 700)
refused_for_cause_example =
    refused_for_cause caps "C" "mock" interactive 700 9 a_active (exhausted 600 1000 200 700)
      (omega arith) a_active-KvInv too_much
