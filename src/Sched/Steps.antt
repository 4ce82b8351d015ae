-- ===== src/Sched/Steps.antt =====
-- crates/ai-daemon/src/sched.rs: the scheduler as a whole. Session threads take the lock in any
-- order, so a run is any sequence of the steps below, each under the lock from end to end.
use ai_daemon.Prelude.{
  ℕ, ◌+◌, ◌-◌, ◌<◌, String, ◌≡◌, refl, ap, subst, inl, inr, true, Option, none, some, List, arith,
  find-mem, get, weight, insert-Distinct, total-insert, ltb, ◌==◌, Bool-cases, Option-cases,
  u64_mod,
}
use ai_daemon.Sched.{
  Class, interactive, background, Waiter, KvEntry, Inner, Caps, Signal, new_inner,
}
use ai_daemon.Sched.Slots.{
  any_interactive, find_waiter, is_turn, enqueue, grant, try_admit, attach, charge, release,
  update_kv, is_next,
}
use ai_daemon.Sched.Slots.Turn.{is_next_parts}
use ai_daemon.Sched.Slots.Preemption.{others}
use ai_daemon.Sched.Slots.Invariant.{
  SlotsInv, CapsFit, new_inner-SlotsInv, enqueue-SlotsInv, grant-SlotsInv, attach-SlotsInv,
  release-SlotsInv,
}
use ai_daemon.Sched.Kv.{
  Reserved, plan, previous_bytes, store, shrink, reserve_kv, mark_idle, release_kv,
}
use ai_daemon.Sched.Kv.Plan.{size}
use ai_daemon.Sched.Kv.Commit.{SameSlots, commit-SameSlots}
use ai_daemon.Sched.Kv.Reserve.{
  KvInv, BudgetFits, refused, granted, grow-Grown, new_inner-KvInv, reserve_kv-KvInv,
  mark_idle-KvInv, release_kv-KvInv,
}

-- One step from `s` to `t` that makes the calls `out`. A thread that waits in `admit` holds the
-- session and class of its entry in the queue.
pub data Step (caps : Caps) (s : Inner) (out : List Signal) (t : Inner) : Type 0 where
  enqueues :
      (session : String) (class : Class)
      → s.next_ticket + 1 < u64_mod
      → t ≡ (enqueue session class s).0
      → Step caps s out t
  admits :
      (me : Waiter)
      → find_waiter me.ticket s.waiting ≡ some me
      → try_admit caps me.session me.class me.ticket s ≡ some (t, out)
      → Step caps s out t
  attaches :
      (ticket : ℕ) (backend : String) (q : ℕ)
      → attach ticket backend q s ≡ (t, out)
      → Step caps s out t
  charges :
      (session : String) (tokens now : ℕ) → t ≡ charge session tokens now s → Step caps s out t
  releases : (ticket : ℕ) → release ticket s ≡ (t, out) → Step caps s out t
  reserves :
      (session backend : String) (class : Class) (bytes now : ℕ) (r : Reserved)
      → reserve_kv caps session backend class bytes now s ≡ (t, r, out)
      → Step caps s out t
  idles : (session : String) (now : ℕ) → t ≡ mark_idle session now s → Step caps s out t
  releases_kv : (session : String) → t ≡ release_kv session s → Step caps s out t

pub data Reach (caps : Caps) (s : Inner) : Inner → Type 0 where
  here : Reach caps s s
  next : {t u : Inner} (out : List Signal) → Reach caps s t → Step caps t out u → Reach caps s u

SlotsInv-same : (caps : Caps) (s t : Inner) → SameSlots s t → SlotsInv caps s → SlotsInv caps t
SlotsInv-same caps s t e v = record {
  issued = rw (e.running, e.waiting, e.next_ticket) v.issued;
  interactive_cap = rw e.running v.interactive_cap;
  background_cap = rw e.running v.background_cap;
  settled = rw e.running v.settled;
}

charge-SlotsInv :
    (caps : Caps) (session : String) (tokens now : ℕ) (s : Inner)
    → SlotsInv caps s
    → SlotsInv caps (charge session tokens now s)
unfolding charge
charge-SlotsInv caps session tokens now s v = record {
  issued = v.issued;
  interactive_cap = v.interactive_cap;
  background_cap = v.background_cap;
  settled = v.settled;
}

charge-KvInv :
    (caps : Caps) (session : String) (tokens now : ℕ) (s : Inner)
    → KvInv caps s
    → KvInv caps (charge session tokens now s)
unfolding charge
charge-KvInv caps session tokens now s v = elim (Option-cases (get session s.kv)) [
  | inl e ↦ record {
    distinct = rw (e, update_kv) v.distinct;
    exact = rw (e, update_kv) v.exact;
    within = v.within;
  }
  | inr (old, e) ↦
      let fresh : KvEntry = record old { last_used = now } in
      let w : weight size (get session s.kv) ≡ old.bytes = rw e in
      record {
        distinct = rw (e, update_kv) (insert-Distinct session fresh s.kv v.distinct);
        exact = rw (e, update_kv) (omega (arith, total-insert size session fresh s.kv, w, v.exact));
        within = v.within;
      }
]

store-SameSlots :
    (session backend : String) (class : Class) (bytes now : ℕ) (s t : Inner)
    → SameSlots s t
    → SameSlots s (store session backend class bytes now t)
unfolding store
store-SameSlots session backend class bytes now s t e = record {
  running = e.running;
  waiting = e.waiting;
  served = e.served;
  next_ticket = e.next_ticket;
}

same : (s : Inner) → SameSlots s s
same s = record { running = refl; waiting = refl; served = refl; next_ticket = refl }

-- A reservation does not touch the slots.
reserve_kv-SameSlots :
    (caps : Caps) (session backend : String) (class : Class) (bytes now : ℕ) (s : Inner)
    → SameSlots s (reserve_kv caps session backend class bytes now s).0
unfolding reserve_kv shrink
reserve_kv-SameSlots caps session backend class bytes now s =
    elim (Bool-cases (ltb (previous_bytes session s) bytes)) [
      | inl e ↦
          let extra = bytes - previous_bytes session s in
          rw e (elim (grow-Grown caps session backend class bytes now extra s) [
            | refused er r w ↦ rw r (same s)
            | granted small f r ↦
                let c = commit-SameSlots (plan caps session extra s).1 s in
                rw r (
                  store-SameSlots session backend class bytes now s _ (record {
                    running = c.running;
                    waiting = c.waiting;
                    served = c.served;
                    next_ticket = c.next_ticket;
                  }))
          ])
      | inr e ↦ rw e (
          store-SameSlots session backend class bytes now s _
            (record { running = refl; waiting = refl; served = refl; next_ticket = refl }))
    ]

mark_idle-SameSlots :
    (session : String) (now : ℕ) (s : Inner) → SameSlots s (mark_idle session now s)
unfolding mark_idle
mark_idle-SameSlots session now s = elim (Option-cases (get session s.kv)) [
  | inl e ↦ rw (e, mark_idle) (same s)
  | inr (old, e) ↦
      rw (e, mark_idle)
        (record { running = refl; waiting = refl; served = refl; next_ticket = refl })
]

release_kv-SameSlots : (session : String) (s : Inner) → SameSlots s (release_kv session s)
unfolding release_kv
release_kv-SameSlots session s = elim (Option-cases (get session s.kv)) [
  | inl e ↦ rw (e, release_kv) (same s)
  | inr (old, e) ↦
      rw (e, release_kv)
        (record { running = refl; waiting = refl; served = refl; next_ticket = refl })
]

enqueue-KvInv :
    (caps : Caps) (session : String) (class : Class) (s : Inner)
    → KvInv caps s
    → KvInv caps (enqueue session class s).0
unfolding enqueue
enqueue-KvInv caps session class s v = record {
  distinct = v.distinct;
  exact = v.exact;
  within = v.within;
}

grant-KvInv :
    (caps : Caps) (session : String) (class : Class) (ticket : ℕ) (s : Inner)
    → KvInv caps s
    → KvInv caps (grant session class ticket s).0
unfolding grant
grant-KvInv caps session interactive ticket s v = record {
  distinct = v.distinct;
  exact = v.exact;
  within = v.within;
}
grant-KvInv caps session background ticket s v = record {
  distinct = v.distinct;
  exact = v.exact;
  within = v.within;
}

attach-KvInv :
    (caps : Caps) (ticket : ℕ) (backend : String) (q : ℕ) (s : Inner)
    → KvInv caps s
    → KvInv caps (attach ticket backend q s).0
unfolding attach
attach-KvInv caps ticket backend q s v = record {
  distinct = v.distinct;
  exact = v.exact;
  within = v.within;
}

release-KvInv :
    (caps : Caps) (ticket : ℕ) (s : Inner) → KvInv caps s → KvInv caps (release ticket s).0
unfolding release
release-KvInv caps ticket s v = elim (Bool-cases (any_interactive (others ticket s.running))) [
  | inl e ↦ rw (e, release) (record { distinct = v.distinct; exact = v.exact; within = v.within })
  | inr e ↦ rw (e, release) (record { distinct = v.distinct; exact = v.exact; within = v.within })
]

-- What the scheduler keeps between any two steps.
pub record Sound (caps : Caps) (s : Inner) : Type 0 where
  pub slots : SlotsInv caps s
  pub cache : KvInv caps s

-- Limits that the machine's integers can hold.
pub record Limits (caps : Caps) : Type 0 where
  pub caps_fit : CapsFit caps
  pub budget_fits : BudgetFits caps

try_admit-Sound :
    (caps : Caps) (me : Waiter) (s t : Inner) (out : List Signal)
    → Limits caps
    → find_waiter me.ticket s.waiting ≡ some me
    → try_admit caps me.session me.class me.ticket s ≡ some (t, out)
    → Sound caps s
    → Sound caps t
unfolding try_admit is_turn find_waiter
try_admit-Sound caps me s t out l f h v = elim (Bool-cases (is_turn caps s me.ticket)) [
  | inl turn ↦
      let next : is_next caps s me ≡ true = rw (f, is_turn) at turn in
      let result : some (grant me.session me.class me.ticket s) ≡ some (t, out) = rw turn at h in
      let after : (grant me.session me.class me.ticket s).0 ≡ t = cc result in
      let waits = (find-mem (λ (w : Waiter). w.ticket == me.ticket) s.waiting f).1 in
      subst (Sound caps) after (record {
        slots = grant-SlotsInv caps me s l.caps_fit waits (is_next_parts caps s me next).0 v.slots;
        cache = grant-KvInv caps me.session me.class me.ticket s v.cache;
      })
  | inr wait ↦
      let wrong : ◌≡◌ {A = Option (Inner × List Signal)} none (some (t, out)) = rw wait at h in
      absurd (cc)
]

-- Every step keeps the scheduler sound.
pub Step-Sound :
    {caps : Caps} {s t : Inner} {out : List Signal}
    → Limits caps
    → Step caps s out t
    → Sound caps s
    → Sound caps t
Step-Sound {caps} {s} l (enqueues session class h e) v = rw e (record {
  slots = enqueue-SlotsInv caps session class s h v.slots;
  cache = enqueue-KvInv caps session class s v.cache;
})
Step-Sound {caps} {s} {t} {out} l (admits me f h) v = try_admit-Sound caps me s t out l f h v
Step-Sound {caps} {s} l (attaches ticket backend q e) v =
    subst (Sound caps) (ap (λ (r : Inner × List Signal). r.0) e) (record {
      slots = attach-SlotsInv caps ticket backend q s v.slots;
      cache = attach-KvInv caps ticket backend q s v.cache;
    })
Step-Sound {caps} {s} l (charges session tokens now e) v = rw e (record {
  slots = charge-SlotsInv caps session tokens now s v.slots;
  cache = charge-KvInv caps session tokens now s v.cache;
})
Step-Sound {caps} {s} l (releases ticket e) v =
    subst (Sound caps) (ap (λ (r : Inner × List Signal). r.0) e) (record {
      slots = release-SlotsInv caps ticket s v.slots;
      cache = release-KvInv caps ticket s v.cache;
    })
Step-Sound {caps} {s} l (reserves session backend class bytes now r e) v =
    subst (Sound caps) (ap (λ (x : Inner × Reserved × List Signal). x.0) e) (record {
      slots =
          SlotsInv-same caps s _ (reserve_kv-SameSlots caps session backend class bytes now s)
            v.slots;
      cache = reserve_kv-KvInv caps session backend class bytes now s l.budget_fits v.cache;
    })
Step-Sound {caps} {s} l (idles session now e) v = rw e (record {
  slots = SlotsInv-same caps s _ (mark_idle-SameSlots session now s) v.slots;
  cache = mark_idle-KvInv caps session now s v.cache;
})
Step-Sound {caps} {s} l (releases_kv session e) v = rw e (record {
  slots = SlotsInv-same caps s _ (release_kv-SameSlots session s) v.slots;
  cache = release_kv-KvInv caps session s v.cache;
})

Reach-Sound :
    {caps : Caps} {s t : Inner} → Limits caps → Sound caps s → Reach caps s t → Sound caps t
Reach-Sound l v here = v
Reach-Sound l v (next out r st) = Step-Sound l st (Reach-Sound l v r)

-- In every state that a new scheduler can reach, whatever threads do and in whatever order:
-- no ticket is held twice, no class runs more than its limit, a background request at a backend
-- is paused exactly while an interactive one runs and nothing interactive ever is, the bytes in
-- use are the sum of the caches, and they are within the budget. The limits on slots are below
-- 2^32 and twice the budget is below 2^64, and fewer than 2^64 - 1 tickets were handed out.
pub scheduler-Sound :
    (caps : Caps) (t : Inner) → Limits caps → Reach caps new_inner t → Sound caps t
scheduler-Sound caps t l r =
    Reach-Sound l (record { slots = new_inner-SlotsInv caps; cache = new_inner-KvInv caps }) r
