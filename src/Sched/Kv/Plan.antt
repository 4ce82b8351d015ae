-- ===== src/Sched/Kv/Plan.antt =====
-- crates/ai-daemon/src/sched.rs, `reserve_kv`: what the plan takes of the candidates.
use ai_daemon.Prelude.{
  ℕ, ◌+◌, ◌≤◌, ◌<◌, String, ◌≡◌, refl, sym, ap, ap₂, append-nil, ◌∙◌, ◌≢◌, ◌⊎◌, inl, inr, Bool,
  true, false, some, List, [], ◌∷◌, ◌++◌, map, arith, filter, All, All-filter_test, All-both,
  All-filter, Uniq, All-imp, StrMap, get, Distinct, total, All-get, Distinct-Uniq, total-append,
  total-filters, All-sort_by_key, Uniq-sort_by_key, total-sort_by_key, str_eq_iff, Bool-cases,
  u64_mod, add_u64,
}
use ai_daemon.Sched.{Class, interactive, background, KvEntry}
use ai_daemon.Sched.Kv.{
  Victim, victim_of, plan_pass, plan_passes, candidates, is_candidate, last_used_of, both_passes,
}

abbrev pub Cache : Type 0
Cache = String × KvEntry

abbrev pub size : KvEntry → ℕ
size e = e.bytes

-- One pass takes a first part of the candidates, and stops short only when that is enough.
pub record Pass (enough : ℕ → Bool) (freed : ℕ) (cs : List Cache) (r : ℕ × List Victim)
    : Type 0 where
  pub taken : List Cache
  pub left : List Cache
  pub split : cs ≡ taken ++ left
  pub victims : r.1 ≡ map victim_of taken
  pub freed_sum : r.0 ≡ freed + total size taken
  pub stop : (left ≡ []) ⊎ (enough r.0 ≡ true)

pub plan_pass-Pass :
    (enough : ℕ → Bool) (freed : ℕ) (cs : List Cache)
    → freed + total size cs < u64_mod
    → Pass enough freed cs (plan_pass enough freed cs)
unfolding plan_pass
plan_pass-Pass enough freed [] h = record {
  taken = [];
  left = [];
  split = refl;
  victims = refl;
  freed_sum = omega arith;
  stop = inl refl;
}
plan_pass-Pass enough freed (c ∷ cs) h = elim (Bool-cases (enough freed)) [
  | inl e ↦
      rw (e, plan_pass)
        (record {
          taken = [];
          left = c ∷ cs;
          split = refl;
          victims = refl;
          freed_sum = omega arith;
          stop = inr e;
        })
  | inr e ↦
      let sum : add_u64 freed (c.1).bytes ≡ freed + (c.1).bytes = omega arith in
      let rest = plan_pass-Pass enough (add_u64 freed (c.1).bytes) cs (omega arith) in
      rw (e, plan_pass)
        (record {
          taken = c ∷ rest.taken;
          left = rest.left;
          split = ap (◌∷◌ c) rest.split;
          victims = ap (◌∷◌ (victim_of c)) rest.victims;
          freed_sum = omega (arith, rest.freed_sum);
          stop = rest.stop;
        })
]

-- What the whole plan takes: a first part of the idle background caches, then a first part of
-- the idle interactive ones, the latter only after all of the former.
pub record Planned (enough : ℕ → Bool) (cands : Class → List Cache) (r : ℕ × List Victim)
    : Type 0 where
  pub bg_taken : List Cache
  pub bg_left : List Cache
  pub int_taken : List Cache
  pub int_left : List Cache
  pub bg : cands background ≡ bg_taken ++ bg_left
  pub int : cands interactive ≡ int_taken ++ int_left
  pub victims : r.1 ≡ map victim_of (bg_taken ++ int_taken)
  pub freed_sum : r.0 ≡ total size (bg_taken ++ int_taken)
  pub order : (bg_left ≡ []) ⊎ (int_taken ≡ [])
  pub stop : (enough r.0 ≡ true) ⊎ ((bg_left ≡ []) × (int_left ≡ []))

map-append_victims :
    (xs ys : List Cache) → map victim_of (xs ++ ys) ≡ map victim_of xs ++ map victim_of ys
map-append_victims [] ys = refl
map-append_victims (x ∷ xs) ys = ap (◌∷◌ (victim_of x)) (map-append_victims xs ys)

second-Pass :
    (enough : ℕ → Bool) (cands : Class → List Cache)
    → total size (cands background) + total size (cands interactive) < u64_mod
    → enough 0 ≡ false
    → (p : Pass enough 0 (cands background) (plan_pass enough 0 (cands background)))
    → enough (plan_pass enough 0 (cands background)).0 ≡ false
    → Planned enough cands (plan_passes enough cands 0 both_passes)
unfolding plan_passes
second-Pass enough cands h none_yet p more =
    let f₁ = (plan_pass enough 0 (cands background)).0 in
    let sum₁ : total size (cands background) ≡ total size p.taken + total size p.left =
      ap (total size) p.split ∙ total-append size p.taken p.left in
    let q = plan_pass-Pass enough f₁ (cands interactive) (omega (arith, p.freed_sum, sum₁)) in
    let all_gone : p.left ≡ [] = elim p.stop [ inl e ↦ e | inr e ↦ absurd (ground arith) ] in
    rw (none_yet, more, plan_passes)
      (record {
        bg_taken = p.taken;
        bg_left = p.left;
        int_taken = q.taken;
        int_left = q.left;
        bg = p.split;
        int = q.split;
        victims =
            ap₂ ◌++◌ p.victims (append-nil _ ∙ q.victims)
            ∙ sym (map-append_victims p.taken q.taken);
        freed_sum = omega (arith, p.freed_sum, q.freed_sum, total-append size p.taken q.taken);
        order = inl all_gone;
        stop = elim q.stop [ inl e ↦ inr (all_gone, e) | inr e ↦ inl e ];
      })

first-Pass :
    (enough : ℕ → Bool) (cands : Class → List Cache)
    → enough 0 ≡ false
    → (p : Pass enough 0 (cands background) (plan_pass enough 0 (cands background)))
    → enough (plan_pass enough 0 (cands background)).0 ≡ true
    → Planned enough cands (plan_passes enough cands 0 both_passes)
unfolding plan_passes
first-Pass enough cands none_yet p done =
    rw (none_yet, done, plan_passes)
      (record {
        bg_taken = p.taken;
        bg_left = p.left;
        int_taken = [];
        int_left = cands interactive;
        bg = p.split;
        int = refl;
        victims = append-nil _ ∙ p.victims ∙ ap (map victim_of) (sym (append-nil p.taken));
        freed_sum = omega (arith, p.freed_sum, total-append size p.taken []);
        order = inr refl;
        stop = inl done;
      })

pub plan_passes-Planned :
    (enough : ℕ → Bool) (cands : Class → List Cache)
    → total size (cands background) + total size (cands interactive) < u64_mod
    → Planned enough cands (plan_passes enough cands 0 both_passes)
unfolding plan_passes
plan_passes-Planned enough cands h = elim (Bool-cases (enough 0)) [
  | inl e ↦
      rw (e, plan_passes)
        (record {
          bg_taken = [];
          bg_left = cands background;
          int_taken = [];
          int_left = cands interactive;
          bg = refl;
          int = refl;
          victims = refl;
          freed_sum = refl;
          order = inr refl;
          stop = inl e;
        })
  | inr e ↦
      let p = plan_pass-Pass enough 0 (cands background) (omega arith) in
      elim (Bool-cases (enough (plan_pass enough 0 (cands background)).0)) [
        | inl done ↦ first-Pass enough cands e p done
        | inr more ↦ second-Pass enough cands h e p more
      ]
]

-- What a candidate is: an idle cache of the class, and not the requester's.
pub record Candidate (session : String) (kv : StrMap KvEntry) (pass : Class) (c : Cache)
    : Type 0 where
  pub found : get c.0 kv ≡ some c.1
  pub other : c.0 ≢ session
  pub class : (c.1).class ≡ pass
  pub idle : (c.1).active ≡ false

Candidate-test :
    (session : String) (kv : StrMap KvEntry) (pass : Class) (c : Cache)
    → (get c.0 kv ≡ some c.1) × (is_candidate session pass c ≡ true)
    → Candidate session kv pass c
Candidate-test session kv pass (id, e) (f, t) = record {
  found = f;
  other = ground (arith, str_eq_iff id session);
  class = ground arith;
  idle = ground arith;
}

pub candidates-Candidate :
    (session : String) (kv : StrMap KvEntry) (pass : Class)
    → Distinct kv
    → All (Candidate session kv pass) (candidates session kv pass)
unfolding candidates
candidates-Candidate session kv pass d =
    All-sort_by_key last_used_of (Candidate session kv pass) (filter (is_candidate session pass) kv)
      (All-imp (λ c. (get c.0 kv ≡ some c.1) × (is_candidate session pass c ≡ true))
        (Candidate session kv pass) (filter (is_candidate session pass) kv)
        (Candidate-test session kv pass)
        (All-both (λ c. get c.0 kv ≡ some c.1) (λ c. is_candidate session pass c ≡ true)
          (filter (is_candidate session pass) kv)
          (All-filter (λ c. get c.0 kv ≡ some c.1) (is_candidate session pass) kv (All-get kv d))
          (All-filter_test (is_candidate session pass) kv)))

class_apart :
    (session : String) (c : Cache)
    → is_candidate session background c ≡ true
    → is_candidate session interactive c ≡ true
    → ⊥
class_apart session (id, e) h k = ground arith

pub candidates-total :
    (session : String) (kv : StrMap KvEntry)
    → total size (candidates session kv background) + total size (candidates session kv interactive)
      ≤ total size kv
unfolding candidates
candidates-total session kv = omega (
  arith,
  total-sort_by_key last_used_of size (filter (is_candidate session background) kv),
  total-sort_by_key last_used_of size (filter (is_candidate session interactive) kv),
  total-filters size (is_candidate session background) (is_candidate session interactive) kv
      (class_apart session),
)

names_filter :
    (p : Cache → Bool) (kv : List Cache)
    → Uniq (map (λ (c : Cache). c.0) kv)
    → Uniq (map (λ (c : Cache). c.0) (filter p kv))
names_filter p [] u = tt
names_filter p (c ∷ cs) u = elim (Bool-cases (p c)) [
  | inl e ↦ rw e (names_ne c.0 cs u.0, names_filter p cs u.1)
  | inr e ↦ rw e (names_filter p cs u.1)
]
  where
    names_ne :
        (id : String) (ds : List Cache)
        → All (λ n. n ≢ id) (map (λ (c : Cache). c.0) ds)
        → All (λ n. n ≢ id) (map (λ (c : Cache). c.0) (filter p ds))
    names_ne id [] a = tt
    names_ne id (d ∷ ds) a = elim (Bool-cases (p d)) [
      | inl e ↦ rw e (a.0, names_ne id ds a.1)
      | inr e ↦ rw e (names_ne id ds a.1)
    ]

pub candidates-Uniq :
    (session : String) (kv : StrMap KvEntry) (pass : Class)
    → Distinct kv
    → Uniq (map (λ (c : Cache). c.0) (candidates session kv pass))
unfolding candidates
candidates-Uniq session kv pass d =
    Uniq-sort_by_key last_used_of (λ (c : Cache). c.0) (filter (is_candidate session pass) kv)
      (names_filter (is_candidate session pass) kv (Distinct-Uniq kv d))
