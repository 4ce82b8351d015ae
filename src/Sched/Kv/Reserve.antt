-- ===== src/Sched/Kv/Reserve.antt =====
-- crates/ai-daemon/src/sched.rs: the KV accounting is exact and stays within the budget.
use ai_daemon.Prelude.{
  ℕ, ◌+◌, ◌-◌, ◌≤◌, ◌<◌, String, ◌≡◌, refl, sym, ap, ◌∙◌, subst, ◌≢◌, ◌⊎◌, inl, inr, Bool, true,
  false, some, List, [], ◌∷◌, ◌++◌, map, arith, All, All-append, All-append_left, Uniq, Uniq-append,
  Uniq-append_left, All-imp, StrMap, get, Distinct, total, weight, remove-Distinct, insert-Distinct,
  total-insert, total-remove, weight-le-total, ltb, str_eq_iff, ltb-false, Bool-cases, Option-cases,
  u64_mod, add_u64,
}
use mathlib.Core.List.{map-append}
use ai_daemon.Sched.{Class, interactive, background, KvEntry, Inner, Caps, Signal, new_inner}
use ai_daemon.Sched.Kv.{
  victim_of, ids, fits, candidates, plan, commit, previous_bytes, store, grow, shrink, reserve_kv,
  mark_idle, release_kv, Reserved, ok, err, ReserveError, drops, over_budget, exhausted,
}
use ai_daemon.Sched.Kv.Plan.{
  Cache, size, Planned, plan_passes-Planned, Candidate, candidates-Candidate, candidates-total,
  candidates-Uniq,
}
use ai_daemon.Sched.Kv.Commit.{
  names, Found, commit-total, commit-used, commit-Distinct, commit-get, named,
}

-- What `kv_used` says is the sum of the entries, and no more than the budget.
pub record KvInv (caps : Caps) (s : Inner) : Type 0 where
  pub distinct : Distinct s.kv
  pub exact : s.kv_used ≡ total size s.kv
  pub within : s.kv_used ≤ caps.kv_budget

-- Twice the budget is a u64.
abbrev pub BudgetFits : Caps → Type 0
BudgetFits caps = caps.kv_budget + caps.kv_budget < u64_mod

pub new_inner-KvInv : (caps : Caps) → KvInv caps new_inner
unfolding new_inner
new_inner-KvInv caps = record { distinct = tt; exact = refl; within = omega arith }

-- A cache that the plan may take.
pub record Evictable (session : String) (kv : StrMap KvEntry) (c : Cache) : Type 0 where
  pub found : get c.0 kv ≡ some c.1
  pub other : c.0 ≢ session
  pub idle : (c.1).active ≡ false

class_clash :
    (session : String) (kv : StrMap KvEntry) (c d : Cache)
    → Candidate session kv background c
    → Candidate session kv interactive d
    → d.0 ≢ c.0
class_clash session kv c d k l e =
    let same : some (d.1) ≡ some (c.1) = sym l.found ∙ rw e k.found in
    let entry : d.1 ≡ c.1 = cc same in
    let clash : interactive ≡ background =
      sym l.class ∙ ap (λ (x : KvEntry). x.class) entry ∙ k.class in
    cc clash

apart_one :
    (session : String) (kv : StrMap KvEntry) (c : Cache) (ys : List Cache)
    → Candidate session kv background c
    → All (Candidate session kv interactive) ys
    → All (λ n. n ≢ c.0) (names ys)
apart_one session kv c [] k a = tt
apart_one session kv c (y ∷ ys) k a =
    (class_clash session kv c y k a.0, apart_one session kv c ys k a.1)

apart-All :
    (session : String) (kv : StrMap KvEntry) (xs ys : List Cache)
    → All (Candidate session kv background) xs
    → All (Candidate session kv interactive) ys
    → All (λ m. All (λ n. n ≢ m) (names ys)) (names xs)
apart-All session kv [] ys a b = tt
apart-All session kv (x ∷ xs) ys a b =
    (apart_one session kv x ys a.0 b, apart-All session kv xs ys a.1 b)

unnamed :
    (session : String) (kv : StrMap KvEntry) (cs : List Cache)
    → All (Evictable session kv) cs
    → named session (ids (map victim_of cs)) ≡ false
unnamed session kv [] a = refl
unnamed session kv (c ∷ cs) a =
    ground (arith, str_eq_iff session c.0, a.0.other, unnamed session kv cs a.1)

module _ (caps : Caps) (session : String) (extra : ℕ) (s : Inner) (v : KvInv caps s)
    (fit : BudgetFits caps) where
  abbrev enough : ℕ → Bool
  enough = fits caps.kv_budget s.kv_used extra

  pub planned : Planned enough (candidates session s.kv) (plan caps session extra s)
  unfolding plan
  planned =
      plan_passes-Planned enough (candidates session s.kv)
        (omega (arith, candidates-total session s.kv, v.exact, v.within))

  abbrev pub taken : List Cache
  taken = planned.bg_taken ++ planned.int_taken

  of_class :
      (pass : Class) (xs ys : List Cache)
      → candidates session s.kv pass ≡ xs ++ ys
      → All (Candidate session s.kv pass) xs
  of_class pass xs ys e = All-append_left (Candidate session s.kv pass) xs ys (
      subst (All (Candidate session s.kv pass)) e
        (candidates-Candidate session s.kv pass v.distinct))

  pub taken-Evictable : All (Evictable session s.kv) taken
  taken-Evictable =
      All-append (Evictable session s.kv) planned.bg_taken planned.int_taken
        (All-imp (Candidate session s.kv background) (Evictable session s.kv) planned.bg_taken
          (λ c k. record { found = k.found; other = k.other; idle = k.idle })
          (of_class background planned.bg_taken planned.bg_left planned.bg))
        (All-imp (Candidate session s.kv interactive) (Evictable session s.kv) planned.int_taken
          (λ c k. record { found = k.found; other = k.other; idle = k.idle })
          (of_class interactive planned.int_taken planned.int_left planned.int))

  Uniq-class :
      (pass : Class) (xs ys : List Cache)
      → candidates session s.kv pass ≡ xs ++ ys
      → Uniq (names xs)
  Uniq-class pass xs ys e = Uniq-append_left (names xs) (names ys) (
      rw (← map-append)
        (subst (λ l. Uniq (names l)) e (candidates-Uniq session s.kv pass v.distinct)))

  pub taken-Uniq : Uniq (names taken)
  taken-Uniq = rw map-append (
      Uniq-append (names planned.bg_taken) (names planned.int_taken)
        (Uniq-class background planned.bg_taken planned.bg_left planned.bg)
        (Uniq-class interactive planned.int_taken planned.int_left planned.int)
        (apart-All session s.kv planned.bg_taken planned.int_taken
          (of_class background planned.bg_taken planned.bg_left planned.bg)
          (of_class interactive planned.int_taken planned.int_left planned.int)))

  -- The state after the plan has been carried out.
  abbrev pub cleared : Inner
  cleared = commit (map victim_of taken) s

  taken-Found : Found s.kv taken
  taken-Found =
      All-imp (Evictable session s.kv) (λ c. get c.0 s.kv ≡ some c.1) taken (λ c e. e.found)
        taken-Evictable

  pub cleared_facts :
      (total size cleared.kv + total size taken ≡ total size s.kv)
      × (cleared.kv_used ≡ s.kv_used - total size taken)
      × Distinct cleared.kv
      × (get session cleared.kv ≡ get session s.kv)
  cleared_facts = (
    commit-total taken s taken-Found taken-Uniq,
    commit-used taken s,
    commit-Distinct (map victim_of taken) s v.distinct,
    commit-get (map victim_of taken) s session v.distinct
        ∙ rw (unnamed session s.kv taken taken-Evictable),
  )

store-KvInv :
    (caps : Caps) (session backend : String) (class : Class) (bytes now : ℕ) (s : Inner)
    → Distinct s.kv
    → s.kv_used + weight size (get session s.kv) ≡ total size s.kv + bytes
    → s.kv_used ≤ caps.kv_budget
    → KvInv caps (store session backend class bytes now s)
unfolding store
store-KvInv caps session backend class bytes now s d e w =
    let entry : KvEntry = record {
      bytes = bytes;
      class = class;
      last_used = now;
      backend = backend;
      active = true;
    } in
    record {
      distinct = insert-Distinct session entry s.kv d;
      exact = omega (arith, total-insert size session entry s.kv);
      within = w;
    }

previous_weight :
    (session : String) (s : Inner) → previous_bytes session s ≡ weight size (get session s.kv)
unfolding previous_bytes
previous_weight session s = ground arith

-- What a reservation that needs more room comes to: refused with nothing done, or granted.
pub data Grown (caps : Caps) (session backend : String) (class : Class) (bytes now extra : ℕ)
    (s : Inner) (r : Inner × Reserved × List Signal) : Type 0 where
  refused :
      (e : ReserveError)
      → r ≡ (s, err e, [])
      → (caps.kv_budget < extra)
        ⊎ (fits caps.kv_budget s.kv_used extra (plan caps session extra s).0 ≡ false)
      → Grown caps session backend class bytes now extra s r
  granted :
      extra ≤ caps.kv_budget
      → fits caps.kv_budget s.kv_used extra (plan caps session extra s).0 ≡ true
      → r ≡ (
        store session backend class bytes now (record (commit (plan caps session extra s).1 s) {
          kv_used = add_u64 (commit (plan caps session extra s).1 s).kv_used extra;
        }),
        ok (ids (plan caps session extra s).1),
        drops (plan caps session extra s).1,
      )
      → Grown caps session backend class bytes now extra s r

pub grow-Grown :
    (caps : Caps) (session backend : String) (class : Class) (bytes now extra : ℕ) (s : Inner)
    → Grown caps session backend class bytes now extra s
        (grow caps session backend class bytes now extra s)
unfolding grow
grow-Grown caps session backend class bytes now extra s =
    elim (Bool-cases (ltb caps.kv_budget extra)) [
      | inl e ↦ refused (over_budget extra caps.kv_budget) (rw e) (inl (ground arith))
      | inr e ↦
          elim (Bool-cases (fits caps.kv_budget s.kv_used extra (plan caps session extra s).0)) [
            | inl f ↦ granted (ground arith) f (rw (e, f))
            | inr f ↦
                refused (exhausted s.kv_used caps.kv_budget (plan caps session extra s).0 extra)
                  (rw (e, f)) (inr f)
          ]
    ]

granted-KvInv :
    (caps : Caps) (session backend : String) (class : Class) (bytes now : ℕ) (s : Inner)
    → BudgetFits caps
    → KvInv caps s
    → previous_bytes session s < bytes
    → let extra = bytes - previous_bytes session s in
      let victims = (plan caps session extra s).1 in
      extra ≤ caps.kv_budget
      → fits caps.kv_budget s.kv_used extra (plan caps session extra s).0 ≡ true
      → KvInv caps (
          store session backend class bytes now
            (record (commit victims s) { kv_used = add_u64 (commit victims s).kv_used extra }))
unfolding fits
granted-KvInv caps session backend class bytes now s fit v more small enough_room =
    let extra = bytes - previous_bytes session s in
    let p = planned caps session extra s v fit in
    let (sum, used, d, same) = cleared_facts caps session extra s v fit in
    let before = previous_weight session s in
    let kept : weight size
          (get session (commit (map victim_of (taken caps session extra s v fit)) s).kv)
        ≡ weight size (get session s.kv) =
      rw same in
    rw p.victims (
      store-KvInv caps session backend class bytes now _ d
        (omega (arith, sum, used, kept, before, v.exact, v.within))
        (ground (arith, sum, used, v.exact, v.within, p.freed_sum)))

-- A reservation keeps the accounting exact and within the budget, on every branch.
pub reserve_kv-KvInv :
    (caps : Caps) (session backend : String) (class : Class) (bytes now : ℕ) (s : Inner)
    → BudgetFits caps
    → KvInv caps s
    → KvInv caps (reserve_kv caps session backend class bytes now s).0
unfolding reserve_kv shrink
reserve_kv-KvInv caps session backend class bytes now s fit v =
    elim (Bool-cases (ltb (previous_bytes session s) bytes)) [
      | inl e ↦
          rw e
            (elim (grow-Grown caps session backend class bytes now
              (bytes - previous_bytes session s) s) [
                | refused er r w ↦ rw r v
                | granted small f r ↦ rw r (
                    granted-KvInv caps session backend class bytes now s fit v (ground arith) small
                      f)
              ])
      | inr e ↦ rw e (
          store-KvInv caps session backend class bytes now _ v.distinct
            (omega (
              arith,
              previous_weight session s,
              weight-le-total size session s.kv,
              v.exact,
              ltb-false (previous_bytes session s) bytes e,
            ))
            (omega (arith, v.within)))
    ]

pub mark_idle-KvInv :
    (caps : Caps) (session : String) (now : ℕ) (s : Inner)
    → KvInv caps s
    → KvInv caps (mark_idle session now s)
unfolding mark_idle
mark_idle-KvInv caps session now s v = elim (Option-cases (get session s.kv)) [
  | inl e ↦ rw (e, mark_idle) v
  | inr (old, e) ↦
      let fresh : KvEntry = record old { active = false; last_used = now } in
      let w : weight size (get session s.kv) ≡ old.bytes = rw e in
      rw (e, mark_idle)
        (record {
          distinct = insert-Distinct session fresh s.kv v.distinct;
          exact = omega (arith, total-insert size session fresh s.kv, w, v.exact);
          within = v.within;
        })
]

pub release_kv-KvInv :
    (caps : Caps) (session : String) (s : Inner) → KvInv caps s → KvInv caps (release_kv session s)
unfolding release_kv
release_kv-KvInv caps session s v = elim (Option-cases (get session s.kv)) [
  | inl e ↦ rw (e, release_kv) v
  | inr (old, e) ↦
      let w : weight size (get session s.kv) ≡ old.bytes = rw e in
      rw (e, release_kv)
        (record {
          distinct = remove-Distinct session s.kv v.distinct;
          exact = omega (arith, total-remove size session s.kv, w, v.exact);
          within = omega (arith, v.within);
        })
]
