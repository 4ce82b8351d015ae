-- ===== src/Sched/Slots/Turn.antt =====
-- crates/ai-daemon/src/sched.rs, `is_turn`: who gets the next free slot.
use ai_daemon.Prelude.{
  ℕ, ◌≤◌, ◌<◌, ◌≡◌, refl, sym, subst, ◌≢◌, inl, inr, true, false, some, List, [], ◌∷◌, map, Memᴰ,
  arith, all, All, All-mem, all-mem, find-mem, mem-map, Uniq, ◌==◌, Bool-cases, Option-cases,
}
use ai_daemon.Sched.{class_rank, Waiter, Inner, Caps}
use ai_daemon.Sched.Slots.{
  key_le, served_of, waiter_key, cap_of, running_in, find_waiter, is_next, is_turn,
}

pub key_le_antisymm : (j k : ℕ × ℕ × ℕ) → key_le j k ≡ true → key_le k j ≡ true → j.2 ≡ k.2
unfolding key_le
key_le_antisymm (a, b, c) (a', b', c') h k = ground arith

pub key_le-total : (j k : ℕ × ℕ × ℕ) → key_le j k ≡ false → key_le k j ≡ true
unfolding key_le
key_le-total (a, b, c) (a', b', c') h = ground arith

pub key_le_trans : (i j k : ℕ × ℕ × ℕ) → key_le i j ≡ true → key_le j k ≡ true → key_le i k ≡ true
unfolding key_le
key_le_trans (a, b, c) (a', b', c') (a'', b'', c'') h k = ground arith

-- What a turn means: the waiter it was given to, the free slot, and its place in the order.
pub record Turn (caps : Caps) (s : Inner) (ticket : ℕ) : Type 0 where
  pub waiter : Waiter
  pub waits : Memᴰ waiter s.waiting
  pub holds : waiter.ticket ≡ ticket
  pub room : running_in s waiter.class < cap_of caps waiter.class
  pub first : (w : Waiter) → Memᴰ w s.waiting → key_le (waiter_key s waiter) (waiter_key s w) ≡ true

pub is_next_parts :
    (caps : Caps) (s : Inner) (me : Waiter)
    → is_next caps s me ≡ true
    → (running_in s me.class < cap_of caps me.class)
      × (all (λ w. key_le (waiter_key s me) (waiter_key s w)) s.waiting ≡ true)
unfolding is_next
is_next_parts caps s me h = ground arith

pub is_turn-Turn :
    (caps : Caps) (s : Inner) (ticket : ℕ) → is_turn caps s ticket ≡ true → Turn caps s ticket
unfolding is_turn find_waiter
is_turn-Turn caps s ticket h = elim (Option-cases (find_waiter ticket s.waiting)) [
  | inl e ↦ let impossible : false ≡ true = rw (e, is_turn) at h in cc
  | inr (me, e) ↦
      let next : is_next caps s me ≡ true = rw (e, is_turn) at h in
      let parts = is_next_parts caps s me next in
      let found = find-mem (λ w. w.ticket == ticket) s.waiting e in
      record {
        waiter = me;
        waits = found.1;
        holds = ground (arith, found.0);
        room = parts.0;
        first = λ w m. all-mem (λ w. key_le (waiter_key s me) (waiter_key s w)) s.waiting parts.1 m;
      }
]

-- At most one ticket has its turn: two waiters never take the same slot.
pub turn_unique :
    (caps : Caps) (s : Inner) (t u : ℕ) → is_turn caps s t ≡ true → is_turn caps s u ≡ true → t ≡ u
unfolding waiter_key
turn_unique caps s t u h k =
    let a = is_turn-Turn caps s t h in
    let b = is_turn-Turn caps s u k in
    let same =
      key_le_antisymm (waiter_key s a.waiter) (waiter_key s b.waiter) (a.first b.waiter b.waits)
        (b.first a.waiter a.waits) in
    omega (arith, a.holds, b.holds, same)

-- The order in which slots are given: whoever has its turn is in the most urgent class that
-- waits, has been served least among the waiters of its class, and among those served as much
-- has waited longest.
pub turn_order :
    (caps : Caps) (s : Inner) (ticket : ℕ) (me w : Waiter)
    → find_waiter ticket s.waiting ≡ some me
    → is_turn caps s ticket ≡ true
    → Memᴰ w s.waiting
    → (class_rank me.class ≤ class_rank w.class)
      × (me.class ≡ w.class → served_of s me.session ≤ served_of s w.session)
      × (me.class ≡ w.class → served_of s me.session ≡ served_of s w.session → me.ticket ≤ w.ticket)
unfolding waiter_key key_le is_turn
turn_order caps s ticket me w e turn m =
    let next : is_next caps s me ≡ true = rw (e, is_turn) at turn in
    let ahead =
      all-mem (λ v. key_le (waiter_key s me) (waiter_key s v)) s.waiting
        (is_next_parts caps s me next).1 m in
    ground (arith, ahead)

abbrev pub waiting_tickets : Inner → List ℕ
waiting_tickets s = map (λ (w : Waiter). w.ticket) s.waiting

pub find_waiter_own :
    (ws : List Waiter) (w : Waiter)
    → Uniq (map (λ (v : Waiter). v.ticket) ws)
    → Memᴰ w ws
    → find_waiter w.ticket ws ≡ some w
unfolding find_waiter
find_waiter_own [] w a m = elim m [ ]
find_waiter_own (v ∷ vs) w a (Memᴰ.head e) = rw e (ground arith)
find_waiter_own (v ∷ vs) w a (Memᴰ.tail m) = ground (
  arith,
  All-mem (λ t. t ≢ v.ticket) (map (λ (u : Waiter). u.ticket) vs) a.0
      (mem-map (λ (u : Waiter). u.ticket) vs m),
  find_waiter_own vs w a.1 m,
)

abbrev Least : Inner → Waiter → List Waiter → Type 0
Least s w ws = All (λ v. key_le (waiter_key s w) (waiter_key s v) ≡ true) ws

Least-trans :
    (s : Inner) (u w : Waiter) (ws : List Waiter)
    → key_le (waiter_key s u) (waiter_key s w) ≡ true
    → Least s w ws
    → Least s u ws
Least-trans s u w [] h l = tt
Least-trans s u w (v ∷ vs) h l = (
  key_le_trans (waiter_key s u) (waiter_key s w) (waiter_key s v) h l.0,
  Least-trans s u w vs h l.1,
)

key_le_refl : (k : ℕ × ℕ × ℕ) → key_le k k ≡ true
unfolding key_le
key_le_refl (a, b, c) = ground arith

-- Some waiter comes first.
least :
    (s : Inner) (x : Waiter) (xs : List Waiter)
    → (w : Waiter) × Memᴰ w (x ∷ xs) × Least s w (x ∷ xs)
least s x [] = (x, Memᴰ.head refl, (key_le_refl (waiter_key s x), tt))
least s x (y ∷ ys) =
    let (w, m, l) = least s y ys in
    elim (Bool-cases (key_le (waiter_key s x) (waiter_key s w))) [
      | inl e ↦ (x, Memᴰ.head refl, (key_le_refl (waiter_key s x), Least-trans s x w (y ∷ ys) e l))
      | inr e ↦ (w, Memᴰ.tail m, (key_le-total (waiter_key s x) (waiter_key s w) e, l))
    ]

Least-all :
    (s : Inner) (w : Waiter) (ws : List Waiter)
    → Least s w ws
    → all (λ v. key_le (waiter_key s w) (waiter_key s v)) ws ≡ true
Least-all s w [] l = refl
Least-all s w (v ∷ vs) l = rw l.0 (Least-all s w vs l.1)

-- The queue never stalls on its own: while anyone waits, and the tickets that wait are distinct,
-- there is a waiter that has its turn as soon as its own class has a free slot.
pub turn_progress :
    (caps : Caps) (s : Inner) (x : Waiter) (xs : List Waiter)
    → s.waiting ≡ x ∷ xs
    → Uniq (waiting_tickets s)
    → (w : Waiter) × Memᴰ w s.waiting
      × (running_in s w.class < cap_of caps w.class → is_turn caps s w.ticket ≡ true)
unfolding is_turn is_next
turn_progress caps s x xs e a =
    let (w, m, l) = least s x xs in
    let waits : Memᴰ w s.waiting = subst (Memᴰ w) (sym e) m in
    let found : find_waiter w.ticket s.waiting ≡ some w = find_waiter_own s.waiting w a waits in
    let first : Least s w s.waiting = subst (Least s w) (sym e) l in
    (w, waits, λ room. rw (found, is_turn) (ground (arith, Least-all s w s.waiting first)))
