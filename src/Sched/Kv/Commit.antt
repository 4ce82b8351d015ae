-- ===== src/Sched/Kv/Commit.antt =====
-- crates/ai-daemon/src/sched.rs, `reserve_kv`: carrying the plan out.
use ai_daemon.Prelude.{
  ◌+◌, ◌-◌, String, ◌≡◌, refl, sym, ◌∙◌, ◌≢◌, Bool, none, some, List, [], ◌∷◌, map, arith, any, All,
  Uniq, StrMap, get, remove, Distinct, total, weight, get-remove_ne, get-remove_self,
  remove-Distinct, total-remove, str_eq, if◌then◌else◌, str_eq_iff,
}
use ai_daemon.Sched.{KvEntry, Inner}
use ai_daemon.Sched.Kv.{Victim, victim_of, ids, commit}
use ai_daemon.Sched.Kv.Plan.{Cache, size}

abbrev pub names : List Cache → List String
names = map λ (c : Cache). c.0

abbrev pub Found : StrMap KvEntry → List Cache → Type 0
Found kv cs = All (λ c. get c.0 kv ≡ some c.1) cs

Found-after :
    (kv : StrMap KvEntry) (id : String) (cs : List Cache)
    → All (λ n. n ≢ id) (names cs)
    → Found kv cs
    → Found (remove id kv) cs
Found-after kv id [] a f = tt
Found-after kv id (c ∷ cs) a f =
    (get-remove_ne id c.0 kv (λ e. a.0 (sym e)) ∙ f.0, Found-after kv id cs a.1 f.1)

-- Every byte of a victim is given back, once.
pub commit-total :
    (cs : List Cache) (s : Inner)
    → Found s.kv cs
    → Uniq (names cs)
    → total size (commit (map victim_of cs) s).kv + total size cs ≡ total size s.kv
unfolding commit
commit-total [] s f u = omega arith
commit-total (c ∷ cs) s f u =
    let s' : Inner = record s { kv = remove c.0 s.kv; kv_used = s.kv_used - (c.1).bytes } in
    let gone : weight size (get c.0 s.kv) ≡ (c.1).bytes = rw f.0 in
    omega (
      arith,
      commit-total cs s' (Found-after s.kv c.0 cs u.0 f.1) u.1,
      total-remove size c.0 s.kv,
      gone,
    )

pub commit-used :
    (cs : List Cache) (s : Inner)
    → (commit (map victim_of cs) s).kv_used ≡ s.kv_used - total size cs
unfolding commit
commit-used [] s = omega arith
commit-used (c ∷ cs) s =
    omega
      (arith, commit-used cs (record s { kv = remove c.0 s.kv; kv_used = s.kv_used - (c.1).bytes }))

pub commit-Distinct : (vs : List Victim) (s : Inner) → Distinct s.kv → Distinct (commit vs s).kv
unfolding commit
commit-Distinct [] s d = d
commit-Distinct (v ∷ vs) s d = commit-Distinct vs _ (remove-Distinct v.id s.kv d)

abbrev pub named : String → List String → Bool
named id = any (str_eq id)

-- Exactly the named sessions lose their cache.
pub commit-get :
    (vs : List Victim) (s : Inner) (id : String)
    → Distinct s.kv
    → get id (commit vs s).kv ≡ (if named id (ids vs) then none else get id s.kv)
unfolding commit
commit-get [] s id d = refl
commit-get (v ∷ vs) s id d = ground (
  arith,
  commit-get vs (record s { kv = remove v.id s.kv; kv_used = s.kv_used - v.bytes }) id
      (remove-Distinct v.id s.kv d),
  str_eq_iff id v.id,
  get-remove_ne v.id id s.kv,
  get-remove_self v.id s.kv d,
)

pub record SameSlots (s t : Inner) : Type 0 where
  pub running : t.running ≡ s.running
  pub waiting : t.waiting ≡ s.waiting
  pub served : t.served ≡ s.served
  pub next_ticket : t.next_ticket ≡ s.next_ticket

pub commit-SameSlots : (vs : List Victim) (s : Inner) → SameSlots s (commit vs s)
unfolding commit
commit-SameSlots [] s = record { running = refl; waiting = refl; served = refl; next_ticket = refl }
commit-SameSlots (v ∷ vs) s =
    let r =
      commit-SameSlots vs (record s { kv = remove v.id s.kv; kv_used = s.kv_used - v.bytes }) in
    record {
      running = r.running;
      waiting = r.waiting;
      served = r.served;
      next_ticket = r.next_ticket;
    }
