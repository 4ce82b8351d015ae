-- ===== src/Policy/Spend.antt =====
-- crates/ai-daemon/src/policy.rs: the spend ledger and the ceiling on it. A ledger entry is a time
-- and an amount in micro-units; a time is in seconds.
pub mod Ledger
use ai_daemon.Prelude.{
  ℕ, zero, suc, ◌+◌, ◌-◌, ◌*◌, ◌/◌, ◌%◌, ◌^◌, ◌≤◌, ◌<◌, String, ◌≡◌, refl, sym, ap, ap₂, append-nil,
  ◌∙◌, subst, ◌≢◌, ◌↔◌, ◌⊎◌, inl, inr, Bool, true, false, ◌&&◌, ◌||◌, not, Option, none, some, List,
  [], ◌∷◌, ◌++◌, map, Memᴰ, arith, length, any, all, filter, find, count, All, All-mem, all-mem,
  find-mem, mem-append_left, mem-append_right, All-append, All-append_left, All-append_right,
  All-filter_test, All-both, All-filter, length-append, count-append, count-filter-le, mem-map,
  map-append_one, Uniq, Uniq-filter, Uniq-append, Uniq-append_left, Uniq-append_one, All-imp,
  mem-filter, mem-append_cases, mem-of_map, not-mem_nil, StrMap, get, insert, remove, Distinct,
  total, weight, get-insert, get-remove_ne, get-remove_self, remove-Distinct, insert-Distinct,
  total-insert, total-remove, weight-le-total, All-get, keys_ne, Distinct-Uniq, total-append,
  total-filters, get-mem, sort_insert, sort_by_key, IsSortedBy, All-sort_by_key,
  sort_by_key-IsSortedBy, sort_by_key-perm, Uniq-sort_by_key, mem-sort_by_key, IsSortedBy-split,
  total-sort_by_key, ltb, leb, ◌==◌, str_eq, if◌then◌else◌, str_eq_iff, str_eq_refl, str_eq_ne,
  ltb→lt, ltb-false, leb→le, Bool-cases, Option-cases, and_true, u64_mod, add_u64, u32_mod,
  str_append, is_whitespace, is_blank,
}
use ai_daemon.Policy.{Floats, Limits}

abbrev pub Ledger : Type 0
Ledger = StrMap (List (ℕ × ℕ))

-- `SPEND_WINDOW`.
abbrev pub window : ℕ
window = 24 * 60 * 60

abbrev pub fresh : ℕ → ℕ × ℕ → Bool
fresh now e = ltb (now - e.0) window

unfoldable pub entry_of : String → Ledger → List (ℕ × ℕ)
entry_of who spend = elim (get who spend) [ none ↦ [] | some xs ↦ xs ]

abbrev pub amounts : List (ℕ × ℕ) → ℕ
amounts [] = 0
amounts (e ∷ es) = e.1 + amounts es

-- `charge_spend`, with the day's running total, a u64.
unfoldable pub charge_spend : ℕ → String → ℕ → Ledger → Ledger × ℕ
charge_spend now who micros spend =
    let kept = filter (fresh now) (entry_of who spend) in
    let pushed = if ltb 0 micros then kept ++ ((now, micros) ∷ []) else kept in
    (insert who pushed spend, amounts pushed % u64_mod)

unfoldable pub spent_by : ℕ → String → Ledger → Ledger × ℕ
spent_by now who spend = elim (get who spend) [
  | none ↦ (spend, 0)
  | some xs ↦ let kept = filter (fresh now) xs in (insert who kept spend, amounts kept % u64_mod)
]

pub record ModelPrice (F : Type 0) : Type 0 where
  pub model : String
  pub input_per_mtok : F
  pub output_per_mtok : F

-- `u64::saturating_add`.
abbrev pub saturating_add : ℕ → ℕ → ℕ
saturating_add a b = if ltb (a + b) u64_mod then a + b else u64_mod - 1

module _ (fl : Floats) where
  open fl use {F, is_finite, is_positive, ceil_times}

  unfoldable pub price_for : List (ModelPrice F) → String → Option (ModelPrice F)
  price_for prices model = elim (find (λ p. str_eq p.model model) prices) [
    | some p ↦ some p
    | none ↦ find (λ p. str_eq p.model "*") prices
  ]

  unfoldable pub micros_of : F → ℕ → ℕ
  micros_of per_mtok tokens =
      if not (is_finite per_mtok) || not (is_positive per_mtok)
      then 0
      else ceil_times per_mtok tokens

  unfoldable pub price_of : List (ModelPrice F) → String → ℕ → ℕ → ℕ
  price_of prices model prompt_tokens completion_tokens = elim (price_for prices model) [
    | none ↦ 0
    | some p ↦
        saturating_add (micros_of p.input_per_mtok prompt_tokens)
          (micros_of p.output_per_mtok completion_tokens)
  ]

  -- `spend_permits`; `false` is the refusal.
  unfoldable pub spend_permits :
      List (ModelPrice F) → ℕ → String → Limits → String → Ledger → Ledger × Bool
  spend_permits prices now who l model spend =
      let (after, spent) = spent_by now who spend in
      if l.daily_spend_micros == 0 || price_of prices model 1 1 == 0
      then (spend, true)
      else (after, ltb spent l.daily_spend_micros)
