-- ===== src/Sched/Slots/Invariant.antt =====
-- crates/ai-daemon/src/sched.rs: what holds of the decode slots between two steps.
use ai_daemon.Prelude.{
  ℕ, ◌+◌, ◌≤◌, ◌<◌, String, ◌≡◌, refl, ◌∙◌, inl, inr, true, false, not, none, List, [], ◌∷◌, ◌++◌,
  map, Memᴰ, arith, filter, count, count-append, count-filter-le, mem-map, map-append_one, ◌==◌,
  if◌then◌else◌, Bool-cases, u64_mod, u32_mod,
}
use ai_daemon.Sched.{
  Class, interactive, background, class_eq, Running, Waiter, Inner, Caps, new_inner,
}
use ai_daemon.Sched.Slots.{
  is_class, any_interactive, is_paused_entry, pausable, cap_of, running_in, enqueue, grant, attach,
  other_interactive, release,
}
use ai_daemon.Sched.Slots.Tickets.{
  Tickets, without, enqueue-Tickets, grant-Tickets, release-Tickets,
}
use ai_daemon.Sched.Slots.Turn.{waiting_tickets}
use ai_daemon.Sched.Slots.Preemption.{
  AllSettled, tickets, others, tickets-mark, count-mark, count-attach_first, tickets-attach_first,
  grant-AllSettled, release-AllSettled, attach-AllSettled,
}

-- Tickets are distinct and were all issued; each class keeps to its limit; and who is paused
-- follows from who runs.
pub record SlotsInv (caps : Caps) (s : Inner) : Type 0 where
  pub issued : Tickets (tickets s.running) (waiting_tickets s) s.next_ticket
  pub interactive_cap : count (is_class interactive) s.running ≤ caps.max_interactive
  pub background_cap : count (is_class background) s.running ≤ caps.max_background
  pub settled : AllSettled s.running

-- The limits are u32.
pub record CapsFit (caps : Caps) : Type 0 where
  pub fit_interactive : caps.max_interactive < u32_mod
  pub fit_background : caps.max_background < u32_mod

pub new_inner-SlotsInv : (caps : Caps) → SlotsInv caps new_inner
unfolding new_inner
new_inner-SlotsInv caps = record {
  issued = record {
    uniq_running = tt;
    uniq_waiting = tt;
    separate = tt;
    fresh_running = tt;
    fresh_waiting = tt;
  };
  interactive_cap = omega arith;
  background_cap = omega arith;
  settled = tt;
}

pub enqueue-SlotsInv :
    (caps : Caps) (session : String) (class : Class) (s : Inner)
    → s.next_ticket + 1 < u64_mod
    → SlotsInv caps s
    → SlotsInv caps (enqueue session class s).0
unfolding enqueue
enqueue-SlotsInv caps session class s h v = record {
  issued =
      rw (map-append_one (λ (w : Waiter). w.ticket) s.waiting _)
        (enqueue-Tickets (tickets s.running) (waiting_tickets s) s.next_ticket h v.issued);
  interactive_cap = v.interactive_cap;
  background_cap = v.background_cap;
  settled = v.settled;
}

tickets-filter :
    (t : ℕ) (ws : List Waiter)
    → map (λ (w : Waiter). w.ticket) (filter (λ (w : Waiter). not (w.ticket == t)) ws)
      ≡ without t (map (λ (w : Waiter). w.ticket) ws)
tickets-filter t [] = refl
tickets-filter t (w ∷ ws) = ground (arith, tickets-filter t ws)

tickets-others : (t : ℕ) (rs : List Running) → tickets (others t rs) ≡ without t (tickets rs)
tickets-others t [] = refl
tickets-others t (r ∷ rs) = ground (arith, tickets-others t rs)

-- The fields that `grant` changes, with the marks on `paused` taken off.
grant_fields :
    (session : String) (class : Class) (t : ℕ) (s : Inner)
    → let after = (grant session class t s).0 in
      (tickets after.running ≡ tickets s.running ++ t ∷ [])
      × (waiting_tickets after ≡ without t (waiting_tickets s))
      × (after.next_ticket ≡ s.next_ticket)
unfolding grant
grant_fields session interactive t s = (
  tickets-mark pausable true _ ∙ map-append_one (λ (r : Running). r.ticket) s.running _,
  tickets-filter t s.waiting,
  refl,
)
grant_fields session background t s =
    (map-append_one (λ (r : Running). r.ticket) s.running _, tickets-filter t s.waiting, refl)

count-grant :
    (session : String) (class c : Class) (t : ℕ) (s : Inner)
    → count (is_class c) (grant session class t s).0.running
      ≡ count (is_class c) s.running + (if class_eq class c then 1 else 0)
unfolding grant
count-grant session interactive c t s =
    let new : Running = record {
      ticket = t;
      session = session;
      class = interactive;
      backend = none;
      req_id = none;
      paused = false;
    } in
    ground (
      arith,
      count-mark c pausable true (s.running ++ new ∷ []),
      count-append (is_class c) s.running (new ∷ []),
    )
count-grant session background c t s =
    let new : Running = record {
      ticket = t;
      session = session;
      class = background;
      backend = none;
      req_id = none;
      paused = false;
    } in
    ground (arith, count-append (is_class c) s.running (new ∷ []))

-- Admission keeps the invariant: a class never runs more than its limit.
pub grant-SlotsInv :
    (caps : Caps) (me : Waiter) (s : Inner)
    → CapsFit caps
    → Memᴰ me s.waiting
    → running_in s me.class < cap_of caps me.class
    → SlotsInv caps s
    → SlotsInv caps (grant me.session me.class me.ticket s).0
unfolding running_in cap_of
grant-SlotsInv caps me s fit m room v =
    let (rt, wt, nt) = grant_fields me.session me.class me.ticket s in
    record {
      issued =
          rw (rt, wt, nt)
            (grant-Tickets me.ticket (tickets s.running) (waiting_tickets s) s.next_ticket
              (mem-map (λ (w : Waiter). w.ticket) s.waiting m) v.issued);
      interactive_cap = ground (arith, count-grant me.session me.class interactive me.ticket s);
      background_cap = ground (arith, count-grant me.session me.class background me.ticket s);
      settled = grant-AllSettled me.session me.class me.ticket s v.settled;
    }

count-others :
    (c : Class) (t : ℕ) (rs : List Running)
    → count (is_class c) (others t rs) ≤ count (is_class c) rs
count-others c t rs = count-filter-le (is_class c) (λ r. not (r.ticket == t)) rs

release_fields :
    (t : ℕ) (s : Inner)
    → let after = (release t s).0 in
      (tickets after.running ≡ without t (tickets s.running))
      × (waiting_tickets after ≡ waiting_tickets s)
      × (after.next_ticket ≡ s.next_ticket)
      × ((c : Class) → count (is_class c) after.running ≤ count (is_class c) s.running)
unfolding release
release_fields t s = elim (Bool-cases (any_interactive (others t s.running))) [
  | inl e ↦
      rw (e, release) (tickets-others t s.running, refl, refl, λ c. count-others c t s.running)
  | inr e ↦
      rw (e, release)
        (
          tickets-mark is_paused_entry false (others t s.running) ∙ tickets-others t s.running,
          refl,
          refl,
          λ c. omega (
            arith,
            count-mark c is_paused_entry false (others t s.running),
            count-others c t s.running,
          ),
        )
]

pub release-SlotsInv :
    (caps : Caps) (t : ℕ) (s : Inner) → SlotsInv caps s → SlotsInv caps (release t s).0
release-SlotsInv caps t s v =
    let (rt, wt, nt, le) = release_fields t s in
    record {
      issued =
          rw (rt, wt, nt)
            (release-Tickets t (tickets s.running) (waiting_tickets s) s.next_ticket v.issued);
      interactive_cap = omega (arith, le interactive, v.interactive_cap);
      background_cap = omega (arith, le background, v.background_cap);
      settled = release-AllSettled t s v.settled;
    }

pub attach-SlotsInv :
    (caps : Caps) (t : ℕ) (backend : String) (q : ℕ) (s : Inner)
    → SlotsInv caps s
    → SlotsInv caps (attach t backend q s).0
unfolding attach
attach-SlotsInv caps t backend q s v =
    let b = other_interactive t s.running in
    record {
      issued = rw (tickets-attach_first b t backend q s.running) v.issued;
      interactive_cap =
          rw (count-attach_first interactive b t backend q s.running) v.interactive_cap;
      background_cap = rw (count-attach_first background b t backend q s.running) v.background_cap;
      settled = attach-AllSettled t backend q s v.issued.uniq_running v.settled;
    }
