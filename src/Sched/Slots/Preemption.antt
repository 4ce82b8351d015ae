-- ===== src/Sched/Slots/Preemption.antt =====
-- crates/ai-daemon/src/sched.rs: preemption. Who is paused follows from who runs.
use ai_daemon.Prelude.{
  ℕ, String, ◌≡◌, refl, ap, ◌∙◌, ◌≢◌, inl, inr, Bool, true, false, ◌||◌, not, none, some, List, [],
  ◌∷◌, ◌++◌, map, Memᴰ, arith, all, filter, count, All, All-mem, mem-append_left, mem-append_right,
  All-append, All-filter, mem-map, Uniq, ◌==◌, if◌then◌else◌, Bool-cases,
}
use ai_daemon.Sched.{Class, interactive, background, Running, Inner, set_paused}
use ai_daemon.Sched.Slots.{
  is_class, pausable, is_paused_entry, mark, signal_for, signals, grant, any_interactive,
  other_interactive, attach_entry, attach_first, attach, release,
}

-- What one entry owes to `b`, which says whether an interactive request is running: it is never
-- paused if it is interactive; if it is background and has reached a backend, it is paused
-- exactly when `b`; and nothing is paused without `b`.
abbrev pub Settled : Bool → Running → Type 0
Settled b r =
    (r.class ≡ interactive → r.paused ≡ false)
    × (r.class ≡ background → r.req_id ≢ none → r.paused ≡ b)
    × (r.paused ≡ true → b ≡ true)

abbrev pub AllSettled : List Running → Type 0
AllSettled rs = All (Settled (any_interactive rs)) rs

abbrev pub tickets : List Running → List ℕ
tickets = map (λ (r : Running). r.ticket)

-- `mark` changes `paused` alone.
pub tickets-mark :
    (p : Running → Bool) (b : Bool) (rs : List Running) → tickets (mark p b rs) ≡ tickets rs
unfolding mark
tickets-mark p b [] = refl
tickets-mark p b (r ∷ rs) = ground (arith, tickets-mark p b rs)

pub any_interactive-mark :
    (p : Running → Bool) (b : Bool) (rs : List Running)
    → any_interactive (mark p b rs) ≡ any_interactive rs
unfolding mark
any_interactive-mark p b [] = refl
any_interactive-mark p b (r ∷ rs) = ground (arith, any_interactive-mark p b rs)

pub count-mark :
    (c : Class) (p : Running → Bool) (b : Bool) (rs : List Running)
    → count (is_class c) (mark p b rs) ≡ count (is_class c) rs
unfolding mark
count-mark c p b [] = refl
count-mark c p b (r ∷ rs) = ground (arith, count-mark c p b rs)

pub any_interactive-append :
    (rs : List Running) (r : Running)
    → any_interactive (rs ++ r ∷ []) ≡ (any_interactive rs || is_class interactive r)
any_interactive-append [] r = ground arith
any_interactive-append (x ∷ xs) r = ground (arith, any_interactive-append xs r)

pause_one :
    (b : Bool) (r : Running)
    → Settled b r
    → Settled true (if pausable r then record r { paused = true } else r)
pause_one b r s = ground arith

pause-All :
    (b : Bool) (rs : List Running) → All (Settled b) rs → All (Settled true) (mark pausable true rs)
unfolding mark
pause-All b [] a = tt
pause-All b (r ∷ rs) a = (pause_one b r a.0, pause-All b rs a.1)

resume_one :
    (b : Bool) (r : Running)
    → is_class interactive r ≡ false
    → Settled b r
    → Settled false (if is_paused_entry r then record r { paused = false } else r)
resume_one b r n s = ground arith

resume-All :
    (b : Bool) (rs : List Running)
    → any_interactive rs ≡ false
    → All (Settled b) rs
    → All (Settled false) (mark is_paused_entry false rs)
unfolding mark
resume-All b [] n a = tt
resume-All b (r ∷ rs) n a = (resume_one b r (ground arith) a.0, resume-All b rs (ground arith) a.1)

abbrev seated : String → Class → ℕ → Running
seated session class ticket = record {
  ticket = ticket;
  session = session;
  class = class;
  backend = none;
  req_id = none;
  paused = false;
}

pub grant-AllSettled :
    (session : String) (class : Class) (ticket : ℕ) (s : Inner)
    → AllSettled s.running
    → AllSettled (grant session class ticket s).0.running
unfolding grant
grant-AllSettled session interactive ticket s a =
    let new = seated session interactive ticket in
    let seat : All (Settled (any_interactive s.running)) (s.running ++ new ∷ []) =
      All-append (Settled (any_interactive s.running)) s.running (new ∷ []) a (ground arith) in
    let busy : any_interactive (mark pausable true (s.running ++ new ∷ [])) ≡ true = ground (
      arith,
      any_interactive-mark pausable true (s.running ++ new ∷ []),
      any_interactive-append s.running new,
    ) in
    rw busy (pause-All (any_interactive s.running) (s.running ++ new ∷ []) seat)
grant-AllSettled session background ticket s a =
    let new = seated session background ticket in
    let same : any_interactive (s.running ++ new ∷ []) ≡ any_interactive s.running =
      ground (arith, any_interactive-append s.running new) in
    rw same (All-append (Settled (any_interactive s.running)) s.running (new ∷ []) a (ground arith))

any_interactive-filter :
    (p : Running → Bool) (rs : List Running)
    → any_interactive (filter p rs) ≡ true
    → any_interactive rs ≡ true
any_interactive-filter p [] h = h
any_interactive-filter p (r ∷ rs) h = ground (arith, any_interactive-filter p rs)

abbrev pub others : ℕ → List Running → List Running
others ticket = filter (λ r. not (r.ticket == ticket))

release_left :
    (ticket : ℕ) (s : Inner)
    → AllSettled s.running
    → any_interactive (others ticket s.running) ≡ true
    → AllSettled (others ticket s.running)
release_left ticket s a e =
    let before = any_interactive-filter (λ r. not (r.ticket == ticket)) s.running e in
    let kept : All (Settled (any_interactive s.running)) (others ticket s.running) =
      All-filter (Settled (any_interactive s.running)) (λ r. not (r.ticket == ticket)) s.running
        a in
    rw (e, ← before) kept

pub release-AllSettled :
    (ticket : ℕ) (s : Inner) → AllSettled s.running → AllSettled (release ticket s).0.running
unfolding release
release-AllSettled ticket s a = elim (Bool-cases (any_interactive (others ticket s.running))) [
  | inl e ↦ rw (e, release) (release_left ticket s a e)
  | inr e ↦
      let left = others ticket s.running in
      let idle : any_interactive (mark is_paused_entry false left) ≡ false =
        any_interactive-mark is_paused_entry false left ∙ e in
      rw (e, release)
        (rw idle (
          resume-All (any_interactive s.running) left e (
            All-filter (Settled (any_interactive s.running)) (λ r. not (r.ticket == ticket))
              s.running a)))
]

-- `attach` changes nothing that the class counts read.
attach_first-any :
    (b : Bool) (ticket : ℕ) (backend : String) (q : ℕ) (rs : List Running)
    → any_interactive (attach_first b ticket backend q rs).0 ≡ any_interactive rs
unfolding attach_first
attach_first-any b ticket backend q [] = refl
attach_first-any b ticket backend q (r ∷ rs) =
    ground (arith, attach_first-any b ticket backend q rs)

pub count-attach_first :
    (c : Class) (b : Bool) (ticket : ℕ) (backend : String) (q : ℕ) (rs : List Running)
    → count (is_class c) (attach_first b ticket backend q rs).0 ≡ count (is_class c) rs
unfolding attach_first
count-attach_first c b ticket backend q [] = refl
count-attach_first c b ticket backend q (r ∷ rs) =
    ground (arith, count-attach_first c b ticket backend q rs)

pub tickets-attach_first :
    (b : Bool) (ticket : ℕ) (backend : String) (q : ℕ) (rs : List Running)
    → tickets (attach_first b ticket backend q rs).0 ≡ tickets rs
unfolding attach_first
tickets-attach_first b ticket backend q [] = refl
tickets-attach_first b ticket backend q (r ∷ rs) =
    ground (arith, tickets-attach_first b ticket backend q rs)

-- With distinct tickets, an entry that is not interactive sees in the others what it would see
-- in all.
other_interactive-absent :
    (ticket : ℕ) (rs : List Running)
    → All (λ t. t ≢ ticket) (tickets rs)
    → other_interactive ticket rs ≡ any_interactive rs
other_interactive-absent ticket [] a = refl
other_interactive-absent ticket (r ∷ rs) a = ground (arith, other_interactive-absent ticket rs a.1)

-- `b` is what the entry sees in the others; `all` is what holds of all.
attach_entry-Settled :
    (b all : Bool) (backend : String) (q : ℕ) (r : Running)
    → (r.class ≡ background → b ≡ all)
    → Settled all r
    → Settled all (attach_entry b backend q r).0
unfolding attach_entry
attach_entry-Settled b all backend q r e s = ground arith

attach_first-Settled :
    (b all : Bool) (ticket : ℕ) (backend : String) (q : ℕ) (rs : List Running)
    → ((r : Running) → Memᴰ r rs → r.ticket ≡ ticket → r.class ≡ background → b ≡ all)
    → All (Settled all) rs
    → All (Settled all) (attach_first b ticket backend q rs).0
unfolding attach_first
attach_first-Settled b all ticket backend q [] f a = tt
attach_first-Settled b all ticket backend q (r ∷ rs) f a = elim (Bool-cases (r.ticket == ticket)) [
  | inl e ↦
      rw (e, attach_first)
        (attach_entry-Settled b all backend q r (f r (Memᴰ.head refl) (ground arith)) a.0, a.1)
  | inr e ↦
      rw (e, attach_first)
        (a.0, attach_first-Settled b all ticket backend q rs (λ x m. f x (Memᴰ.tail m)) a.1)
]

other_interactive-own :
    (ticket : ℕ) (rs : List Running) (r : Running)
    → Uniq (tickets rs)
    → Memᴰ r rs
    → r.ticket ≡ ticket
    → r.class ≡ background
    → other_interactive ticket rs ≡ any_interactive rs
other_interactive-own ticket [] r u m t c = elim m [ ]
other_interactive-own ticket (x ∷ xs) r u (Memᴰ.head e) t c =
    let same : x.ticket ≡ ticket = cc (ap (λ (z : Running). z.ticket) e) in
    let bg : x.class ≡ background = cc (ap (λ (z : Running). z.class) e) in
    let rest = other_interactive-absent ticket xs (rw (← same) u.0) in ground arith
other_interactive-own ticket (x ∷ xs) r u (Memᴰ.tail m) t c =
    let differs : r.ticket ≢ x.ticket =
      All-mem (λ y. y ≢ x.ticket) (tickets xs) u.0 (mem-map (λ (z : Running). z.ticket) xs m) in
    let rest = other_interactive-own ticket xs r u.1 m t c in ground arith

pub attach-AllSettled :
    (ticket : ℕ) (backend : String) (q : ℕ) (s : Inner)
    → Uniq (tickets s.running)
    → AllSettled s.running
    → AllSettled (attach ticket backend q s).0.running
unfolding attach
attach-AllSettled ticket backend q s u a =
    let b = other_interactive ticket s.running in
    rw (attach_first-any b ticket backend q s.running) (
      attach_first-Settled b (any_interactive s.running) ticket backend q s.running
        (λ r m t c. other_interactive-own ticket s.running r u m t c) a)

-- Whoever is picked and has reached its backend is told.
pub signals-mem :
    (test : Running → Bool) (p : Bool) (r : Running) (rs : List Running) (b : String) (q : ℕ)
    → Memᴰ r rs
    → test r ≡ true
    → r.backend ≡ some b
    → r.req_id ≡ some q
    → Memᴰ (set_paused b q p) (signals test p rs)
unfolding signals
signals-mem test p r [] b q m t hb hq = elim m [ ]
signals-mem test p r (x ∷ xs) b q (Memᴰ.head e) t hb hq =
    let chosen : test x ≡ true = cc (ap test e) in
    let at_b : x.backend ≡ some b = cc (ap (λ (z : Running). z.backend) e) in
    let at_q : x.req_id ≡ some q = cc (ap (λ (z : Running). z.req_id) e) in
    rw (chosen, at_b, at_q, signal_for) (Memᴰ.head refl)
signals-mem test p r (x ∷ xs) b q (Memᴰ.tail m) t hb hq =
    mem-append_right (if test x then signal_for p x else []) (signals test p xs)
      (signals-mem test p r xs b q m t hb hq)

background_paused :
    (b : Bool) (r : Running)
    → Settled b r
    → r.class ≡ background
    → (if pausable r then record r { paused = true } else r).paused ≡ true
background_paused b r s c = ground arith

mark-paused :
    (rs : List Running) → All (λ r. r.class ≡ background → r.paused ≡ true) (mark pausable true rs)
unfolding mark
mark-paused [] = tt
mark-paused (r ∷ rs) = (λ c. ground arith, mark-paused rs)

-- Admitting an interactive request holds every background request still at once, and every one
-- of them that was moving and has reached a backend is told so.
pub grant_preempts :
    (session : String) (ticket : ℕ) (s : Inner)
    → let (after, out) = grant session interactive ticket s in
      All (λ r. r.class ≡ background → r.paused ≡ true) after.running
      × ((r : Running) (b : String) (q : ℕ)
          → Memᴰ r s.running
          → r.class ≡ background
          → r.paused ≡ false
          → r.backend ≡ some b
          → r.req_id ≡ some q
          → Memᴰ (set_paused b q true) out)
unfolding grant
grant_preempts session ticket s = (
  mark-paused (s.running ++ seated session interactive ticket ∷ []),
  λ r b q m c p hb hq.
      signals-mem pausable true r (s.running ++ seated session interactive ticket ∷ []) b q
        (mem-append_left s.running _ m) (ground arith) hb hq,
)

mark-resumed : (rs : List Running) → All (λ r. r.paused ≡ false) (mark is_paused_entry false rs)
unfolding mark
mark-resumed [] = tt
mark-resumed (r ∷ rs) = (ground arith, mark-resumed rs)

-- Once the last interactive request has gone, nothing stays paused, and every request that was
-- held still at a backend is told to go on.
pub release_resumes :
    (ticket : ℕ) (s : Inner)
    → any_interactive (others ticket s.running) ≡ false
    → let (after, out) = release ticket s in
      All (λ r. r.paused ≡ false) after.running
      × ((r : Running) (b : String) (q : ℕ)
          → Memᴰ r (others ticket s.running)
          → r.paused ≡ true
          → r.backend ≡ some b
          → r.req_id ≡ some q
          → Memᴰ (set_paused b q false) out)
unfolding release
release_resumes ticket s e =
    rw (e, release)
      (
        mark-resumed (others ticket s.running),
        λ r b q m p hb hq.
            signals-mem is_paused_entry false r (others ticket s.running) b q m p hb hq,
      )
