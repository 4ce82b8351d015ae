-- ===== src/Sched/Kv/Order.antt =====
-- crates/ai-daemon/src/sched.rs, `reserve_kv`: in which order caches are given up.
use ai_daemon.Prelude.{
  ℕ, ◌-◌, ◌≤◌, String, ◌≡◌, refl, sym, ap, ◌∙◌, subst, ◌≢◌, ◌⊎◌, inl, inr, true, false, some, List,
  [], ◌∷◌, ◌++◌, Memᴰ, arith, filter, All, All-mem, mem-append_left, mem-append_right,
  All-append_left, mem-map, mem-append_cases, mem-of_map, not-mem_nil, StrMap, get, IsSortedBy,
  sort_by_key-IsSortedBy, IsSortedBy-split, ltb, str_eq_iff, Bool-cases,
}
use ai_daemon.Sched.{Class, interactive, background, class_rank, KvEntry, Inner, Caps}
use ai_daemon.Sched.Kv.{
  ids, candidates, is_candidate, last_used_of, plan, previous_bytes, grow, shrink, reserve_kv, ok,
}
use ai_daemon.Sched.Kv.Plan.{Cache, Candidate, candidates-Candidate}
use ai_daemon.Sched.Kv.Commit.{names, named}
use ai_daemon.Sched.Kv.Reserve.{KvInv, BudgetFits, Evictable, planned, taken, taken-Evictable}
use ai_daemon.Sched.Kv.Choice.{candidate-mem, grow-Evicts, ids-victims}

-- `d` is a worse victim than `c`: of a class given up no earlier, and used no earlier within it.
abbrev pub GoesBefore : KvEntry → KvEntry → Type 0
GoesBefore e f =
    (class_rank f.class ≤ class_rank e.class) × (e.class ≡ f.class → e.last_used ≤ f.last_used)

pub named-mem : (id : String) (l : List String) → Memᴰ id l → named id l ≡ true
named-mem id [] m = elim m [ ]
named-mem id (x ∷ xs) (Memᴰ.head e) = ground (arith, str_eq_iff id x)
named-mem id (x ∷ xs) (Memᴰ.tail m) = ground (arith, named-mem id xs m)

sorted_pass :
    (session : String) (kv : StrMap KvEntry) (pass : Class) (xs ys : List Cache) (c d : Cache)
    → candidates session kv pass ≡ xs ++ ys
    → Memᴰ c xs
    → Memᴰ d ys
    → last_used_of c ≤ last_used_of d
unfolding candidates
sorted_pass session kv pass xs ys c d e m n =
    IsSortedBy-split last_used_of xs ys
      (subst (IsSortedBy last_used_of) e
        (sort_by_key-IsSortedBy last_used_of (filter (is_candidate session pass) kv)))
      m n

module _ (caps : Caps) (session : String) (extra : ℕ) (s : Inner) (v : KvInv caps s)
    (fit : BudgetFits caps) where
  open planned caps session extra s v fit use {
    bg_taken, bg_left, int_taken, int_left, bg, int, order,
  }

  class_of_taken : (c : Cache) → Memᴰ c bg_taken → (c.1).class ≡ background
  class_of_taken c m =
      (All-mem (Candidate session s.kv background) bg_taken
        (All-append_left (Candidate session s.kv background) bg_taken bg_left (
          subst (All (Candidate session s.kv background)) bg
            (candidates-Candidate session s.kv background v.distinct)))
        m).class

  class_of_taken_int : (c : Cache) → Memᴰ c int_taken → (c.1).class ≡ interactive
  class_of_taken_int c m =
      (All-mem (Candidate session s.kv interactive) int_taken
        (All-append_left (Candidate session s.kv interactive) int_taken int_left (
          subst (All (Candidate session s.kv interactive)) int
            (candidates-Candidate session s.kv interactive v.distinct)))
        m).class

  -- A candidate that is not taken is left.
  left_of :
      (pass : Class) (d : Cache) (xs ys : List Cache)
      → candidates session s.kv pass ≡ xs ++ ys
      → Memᴰ d (candidates session s.kv pass)
      → ¬ Memᴰ d xs
      → Memᴰ d ys
  left_of pass d xs ys e m out = elim (mem-append_cases xs ys (subst (Memᴰ d) e m)) [
    | inl k ↦ absurd (out k)
    | inr k ↦ k
  ]

  taken_before :
      (k : Class) (c d : Cache)
      → (d.1).class ≡ k
      → Memᴰ c bg_taken ⊎ Memᴰ c int_taken
      → Memᴰ d (candidates session s.kv k)
      → ¬ Memᴰ d (bg_taken ++ int_taken)
      → GoesBefore (c.1) (d.1)
  taken_before background c d e (inl m) n out =
      let d_left =
        left_of background d bg_taken bg_left bg n
          (λ x. out (mem-append_left bg_taken int_taken x)) in
      let older = sorted_pass session s.kv background bg_taken bg_left c d bg m d_left in
      ground (arith, class_of_taken c m, older)
  taken_before interactive c d e (inl m) n out = ground (arith, class_of_taken c m)
  taken_before background c d e (inr m) n out =
      let d_left =
        left_of background d bg_taken bg_left bg n
          (λ x. out (mem-append_left bg_taken int_taken x)) in
      elim order [ inl gone ↦ not-mem_nil gone d_left | inr idle ↦ not-mem_nil idle m ]
  taken_before interactive c d e (inr m) n out =
      let d_left =
        left_of interactive d int_taken int_left int n
          (λ x. out (mem-append_right bg_taken int_taken x)) in
      let older = sorted_pass session s.kv interactive int_taken int_left c d int m d_left in
      ground (arith, class_of_taken_int c m, older)

grow-order :
    (caps : Caps) (session : String) (extra : ℕ) (s : Inner) (id id' : String) (e e' : KvEntry)
    → BudgetFits caps
    → KvInv caps s
    → Memᴰ id (ids (plan caps session extra s).1)
    → get id s.kv ≡ some e
    → named id' (ids (plan caps session extra s).1) ≡ false
    → get id' s.kv ≡ some e'
    → e'.active ≡ false
    → id' ≢ session
    → GoesBefore e e'
grow-order caps session extra s id id' e e' fit v m f out f' idle other =
    let p = planned caps session extra s v fit in
    let all_taken = taken caps session extra s v fit in
    let known : ids (plan caps session extra s).1 ≡ names all_taken =
      ap ids p.victims ∙ ids-victims all_taken in
    let (c, mc, ec) = mem-of_map (λ (x : Cache). x.0) all_taken (subst (Memᴰ id) known m) in
    let found =
      (All-mem (Evictable session s.kv) all_taken (taken-Evictable caps session extra s v fit)
        mc).found in
    let same : some (c.1) ≡ some e = sym found ∙ rw (← ec) f in
    let entry : c.1 ≡ e = cc same in
    let not_taken : ¬ Memᴰ (id', e') all_taken = λ k.
      let hit = named-mem id' (names all_taken) (mem-map (λ (x : Cache). x.0) all_taken k) in
      let miss : named id' (names all_taken) ≡ false = rw (← known) out in cc (hit, miss) in
    subst (λ x. GoesBefore x e') entry
      (taken_before caps session extra s v fit e'.class c (id', e') refl
        (mem-append_cases p.bg_taken p.int_taken mc)
        (candidate-mem session s.kv id' e' f' other idle) not_taken)

-- Who goes first: whenever one session was evicted and another one's idle cache was kept, the
-- kept one is of a class given up no earlier, and within one class was used no earlier. Twice the
-- budget is below 2^64, and the cache's books were in order before.
pub evicted-GoesBefore :
    (caps : Caps) (session backend : String) (class : Class) (bytes now : ℕ) (s : Inner)
    (evicted : List String) (id id' : String) (e e' : KvEntry)
    → BudgetFits caps
    → KvInv caps s
    → (reserve_kv caps session backend class bytes now s).1 ≡ ok evicted
    → Memᴰ id evicted
    → get id s.kv ≡ some e
    → named id' evicted ≡ false
    → get id' s.kv ≡ some e'
    → e'.active ≡ false
    → id' ≢ session
    → GoesBefore e e'
unfolding reserve_kv shrink
evicted-GoesBefore caps session backend class bytes now s evicted id id' e e' fit v h m f out f'
      idle other =
    elim (Bool-cases (ltb (previous_bytes session s) bytes)) [
      | inl more ↦
          let extra = bytes - previous_bytes session s in
          let got : (grow caps session backend class bytes now extra s).1 ≡ ok evicted =
            rw more at h in
          let list =
            (grow-Evicts caps session backend class bytes now extra s evicted fit v got).0 in
          grow-order caps session extra s id id' e e' fit v (subst (Memᴰ id) list m) f
            (subst (λ l. named id' l ≡ false) list out) f' idle other
      | inr less ↦
          let got : ok [] ≡ ok evicted = rw less at h in
          let none_gone : evicted ≡ [] = cc got in not-mem_nil none_gone m
    ]
