-- ===== src/Sched/Kv/Refusal.antt =====
-- crates/ai-daemon/src/sched.rs, `reserve_kv`: when the answer is no.
use ai_daemon.Prelude.{
  ℕ, ◌+◌, ◌-◌, ◌<◌, String, ◌≡◌, ap, ◌∙◌, ◌⊎◌, inl, inr, false, List, [], ◌++◌, arith, StrMap,
  total, total-append, ltb, ltb→lt, Bool-cases,
}
use ai_daemon.Sched.{Class, interactive, background, KvEntry, Inner, Caps, Signal}
use ai_daemon.Sched.Kv.{
  fits, candidates, plan, previous_bytes, grow, shrink, reserve_kv, Reserved, ok, err, ReserveError,
}
use ai_daemon.Sched.Kv.Plan.{Cache, size}
use ai_daemon.Sched.Kv.Reserve.{KvInv, BudgetFits, planned, refused, granted, grow-Grown}

-- A reservation that fails changes nothing and costs nobody a cache.
pub refused_changes_nothing :
    (caps : Caps) (session backend : String) (class : Class) (bytes now : ℕ) (s : Inner)
    (e : ReserveError)
    → (reserve_kv caps session backend class bytes now s).1 ≡ err e
    → ((reserve_kv caps session backend class bytes now s).0 ≡ s)
      × ((reserve_kv caps session backend class bytes now s).2 ≡ [])
unfolding reserve_kv shrink grow
refused_changes_nothing caps session backend class bytes now s e h = ground arith

total_pass :
    (session : String) (kv : StrMap KvEntry) (pass : Class) (xs ys : List Cache)
    → candidates session kv pass ≡ xs ++ ys
    → ys ≡ []
    → total size (candidates session kv pass) ≡ total size xs
total_pass session kv pass xs ys e z =
    ap (total size) e ∙ total-append size xs ys ∙ rw z (omega arith)

-- When the plan is not enough, it held every idle cache.
short_of_room :
    (caps : Caps) (session : String) (extra : ℕ) (s : Inner)
    → KvInv caps s
    → BudgetFits caps
    → fits caps.kv_budget s.kv_used extra (plan caps session extra s).0 ≡ false
    → (caps.kv_budget < extra)
      ⊎ (caps.kv_budget
            + total size (candidates session s.kv background)
            + total size (candidates session s.kv interactive)
          < s.kv_used + extra)
unfolding fits
short_of_room caps session extra s v fit misses =
    let p = planned caps session extra s v fit in
    elim p.stop [
      | inl enough ↦ absurd (cc)
      | inr (bg_all, int_all) ↦ ground (
        arith,
        total_pass session s.kv background p.bg_taken p.bg_left p.bg bg_all,
        total_pass session s.kv interactive p.int_taken p.int_left p.int int_all,
        total-append size p.bg_taken p.int_taken,
        p.freed_sum,
      )
    ]

-- A reservation is refused only where it cannot be met: the growth alone is over the budget, or
-- it would be even with every idle cache of the others gone. Twice the budget is below 2^64, and
-- the cache's books were in order before.
pub refused_for_cause :
    (caps : Caps) (session backend : String) (class : Class) (bytes now : ℕ) (s : Inner)
    (e : ReserveError)
    → BudgetFits caps
    → KvInv caps s
    → (reserve_kv caps session backend class bytes now s).1 ≡ err e
    → (caps.kv_budget + previous_bytes session s < bytes)
      ⊎ (caps.kv_budget
            + previous_bytes session s
            + total size (candidates session s.kv background)
            + total size (candidates session s.kv interactive)
          < s.kv_used + bytes)
unfolding reserve_kv shrink fits
refused_for_cause caps session backend class bytes now s e fit v h =
    elim (Bool-cases (ltb (previous_bytes session s) bytes)) [
      | inl more ↦
          let extra = bytes - previous_bytes session s in
          let got : (grow caps session backend class bytes now extra s).1 ≡ err e = rw more at h in
          elim (grow-Grown caps session backend class bytes now extra s) [
            | refused er r w ↦ elim w [
              | inl big ↦ inl (omega arith)
              | inr misses ↦ ground (
                arith,
                short_of_room caps session extra s v fit misses,
                ltb→lt (previous_bytes session s) bytes more,
              )
            ]
            | granted small f r ↦ absurd (cc (ap (λ (x : Inner × Reserved × List Signal). x.1) r))
          ]
      | inr less ↦ let wrong : ok [] ≡ err e = rw less at h in absurd (cc)
    ]
