-- ===== src/Sched/Kv/Choice.antt =====
-- crates/ai-daemon/src/sched.rs, `reserve_kv`: who is evicted.
use ai_daemon.Prelude.{
  ℕ, ◌-◌, String, ◌≡◌, refl, sym, ap, ◌∙◌, ◌≢◌, inl, inr, true, false, none, some, List, [], ◌∷◌,
  map, Memᴰ, arith, filter, All, mem-filter, StrMap, get, get-insert, get-mem, mem-sort_by_key, ltb,
  if◌then◌else◌, str_eq_iff, str_eq_ne, Bool-cases,
}
use ai_daemon.Sched.{Class, KvEntry, Inner, Caps, Signal, drop_cache}
use ai_daemon.Sched.Kv.{
  Victim, victim_of, ids, candidates, is_candidate, last_used_of, plan, previous_bytes, store, grow,
  shrink, reserve_kv, Reserved, ok, drops,
}
use ai_daemon.Sched.Kv.Plan.{Cache}
use ai_daemon.Sched.Kv.Commit.{names, commit-get, named}
use ai_daemon.Sched.Kv.Reserve.{
  KvInv, BudgetFits, Evictable, planned, taken, taken-Evictable, refused, granted, grow-Grown,
}

-- An idle cache that the requester does not own is a candidate of its class.
pub candidate-mem :
    (session : String) (kv : StrMap KvEntry) (id : String) (e : KvEntry)
    → get id kv ≡ some e
    → id ≢ session
    → e.active ≡ false
    → Memᴰ (id, e) (candidates session kv e.class)
unfolding candidates
candidate-mem session kv id e f n a =
    mem-sort_by_key last_used_of (filter (is_candidate session e.class) kv) (
      mem-filter (is_candidate session e.class) kv (get-mem id e kv f)
        (ground (arith, str_eq_iff id session)))

-- The session whose cache a call drops.
abbrev pub dropped : Signal → String
dropped (drop_cache backend id) = id
dropped _ = ""

dropped-drops : (vs : List Victim) → map dropped (drops vs) ≡ ids vs
dropped-drops [] = refl
dropped-drops (v ∷ vs) = ap (◌∷◌ v.id) (dropped-drops vs)

pub ids-victims : (cs : List Cache) → ids (map victim_of cs) ≡ names cs
ids-victims [] = refl
ids-victims (c ∷ cs) = ap (◌∷◌ c.0) (ids-victims cs)

-- The session had an idle cache and is not the requester.
abbrev pub IdleOther : String → Inner → String → Type 0
IdleOther session s id =
    (e : KvEntry) × (get id s.kv ≡ some e) × (e.active ≡ false) × (id ≢ session)

All-idle :
    (session : String) (s : Inner) (cs : List Cache)
    → All (Evictable session s.kv) cs
    → All (IdleOther session s) (names cs)
All-idle session s [] a = tt
All-idle session s (c ∷ cs) a = ((c.1, a.0.found, a.0.idle, a.0.other), All-idle session s cs a.1)

-- What a grant does to everybody else.
abbrev pub Evicts : String → Inner → Inner → List String → List Signal → Type 0
Evicts session s after evicted out =
    All (IdleOther session s) evicted
    × ((id : String)
        → id ≢ session
        → get id after.kv ≡ (if named id evicted then none else get id s.kv))
    × (map dropped out ≡ evicted)

store-get :
    (session backend : String) (class : Class) (bytes now : ℕ) (s : Inner) (id : String)
    → id ≢ session
    → get id (store session backend class bytes now s).kv ≡ get id s.kv
unfolding store
store-get session backend class bytes now s id n =
    let entry : KvEntry = record {
      bytes = bytes;
      class = class;
      last_used = now;
      backend = backend;
      active = true;
    } in
    get-insert session id entry s.kv ∙ rw (str_eq_ne session id (λ e. n (sym e)))

pub grow-Evicts :
    (caps : Caps) (session backend : String) (class : Class) (bytes now extra : ℕ) (s : Inner)
    (evicted : List String)
    → BudgetFits caps
    → KvInv caps s
    → (grow caps session backend class bytes now extra s).1 ≡ ok evicted
    → (evicted ≡ ids (plan caps session extra s).1)
      × Evicts session s
          (grow caps session backend class bytes now extra s).0
          evicted
          (grow caps session backend class bytes now extra s).2
grow-Evicts caps session backend class bytes now extra s evicted fit v h =
    elim (grow-Grown caps session backend class bytes now extra s) [
      | refused e r w ↦ absurd (cc (ap (λ (x : Inner × Reserved × List Signal). x.1) r))
      | granted small f r ↦
          let victims = (plan caps session extra s).1 in
          let list : evicted ≡ ids victims =
            cc (ap (λ (x : Inner × Reserved × List Signal). x.1) r) in
          let p = planned caps session extra s v fit in
          let known : ids victims ≡ names (taken caps session extra s v fit) =
            ap ids p.victims ∙ ids-victims (taken caps session extra s v fit) in
          (
            list,
            rw (list, r)
                (
                  rw known (
                      All-idle session s (taken caps session extra s v fit)
                        (taken-Evictable caps session extra s v fit)),
                  λ id n.
                      store-get session backend class bytes now _ id n
                      ∙ commit-get victims s id v.distinct,
                  dropped-drops victims,
                ),
          )
    ]

-- A granted reservation evicts only idle caches of others, takes from the map exactly those
-- that it reports, and has exactly those dropped at the backends. Twice the budget is below 2^64,
-- and the cache's books were in order before.
pub reserve_kv-Evicts :
    (caps : Caps) (session backend : String) (class : Class) (bytes now : ℕ) (s : Inner)
    (evicted : List String)
    → BudgetFits caps
    → KvInv caps s
    → (reserve_kv caps session backend class bytes now s).1 ≡ ok evicted
    → Evicts session s
        (reserve_kv caps session backend class bytes now s).0
        evicted
        (reserve_kv caps session backend class bytes now s).2
unfolding reserve_kv shrink
reserve_kv-Evicts caps session backend class bytes now s evicted fit v h =
    elim (Bool-cases (ltb (previous_bytes session s) bytes)) [
      | inl e ↦
          let extra = bytes - previous_bytes session s in
          let got : (grow caps session backend class bytes now extra s).1 ≡ ok evicted =
            rw e at h in
          rw e (grow-Evicts caps session backend class bytes now extra s evicted fit v got).1
      | inr e ↦
          let got : ok [] ≡ ok evicted = rw e at h in
          let none_gone : evicted ≡ [] = cc got in
          rw (e, none_gone) (tt, λ id n. store-get session backend class bytes now _ id n, refl)
    ]
