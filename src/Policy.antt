-- ===== src/Policy.antt =====
-- crates/ai-daemon/src/policy.rs and the configuration it reads (crates/ai-daemon/src/config.rs):
-- the limits of an identity. Grants are in Policy/Grants.antt, the spend ledger in
-- Policy/Spend.antt and the session counts in Policy/Sessions.antt.
pub mod Grants
pub mod Spend
pub mod Sessions
pub mod Tests
use ai_daemon.Prelude.{
  ℕ, zero, suc, ◌+◌, ◌-◌, ◌*◌, ◌/◌, ◌%◌, ◌^◌, ◌≤◌, ◌<◌, String, ◌≡◌, refl, sym, ap, ap₂, append-nil,
  ◌∙◌, subst, ◌≢◌, ◌↔◌, ◌⊎◌, inl, inr, Bool, true, false, ◌&&◌, ◌||◌, not, Option, none, some, List,
  [], ◌∷◌, ◌++◌, map, Memᴰ, arith, length, any, all, filter, find, count, All, All-mem, all-mem,
  find-mem, mem-append_left, mem-append_right, All-append, All-append_left, All-append_right,
  All-filter_test, All-both, All-filter, length-append, count-append, count-filter-le, mem-map,
  map-append_one, Uniq, Uniq-filter, Uniq-append, Uniq-append_left, Uniq-append_one, All-imp,
  mem-filter, mem-append_cases, mem-of_map, not-mem_nil, StrMap, get, insert, remove, Distinct,
  total, weight, get-insert, get-remove_ne, get-remove_self, remove-Distinct, insert-Distinct,
  total-insert, total-remove, weight-le-total, All-get, keys_ne, Distinct-Uniq, total-append,
  total-filters, get-mem, sort_insert, sort_by_key, IsSortedBy, All-sort_by_key,
  sort_by_key-IsSortedBy, sort_by_key-perm, Uniq-sort_by_key, mem-sort_by_key, IsSortedBy-split,
  total-sort_by_key, ltb, leb, ◌==◌, str_eq, if◌then◌else◌, str_eq_iff, str_eq_refl, str_eq_ne,
  ltb→lt, ltb-false, leb→le, Bool-cases, Option-cases, and_true, u64_mod, add_u64, u32_mod,
  str_append, is_whitespace, is_blank,
}

-- What the program uses of f64. `round_micros x` is `(x * 1_000_000.0).round() as u64`, and
-- `ceil_times p n` is `(p * n as f64).ceil().max(0.0) as u64`.
pub record Floats : Type 1 where
  pub F : Type 0
  pub is_finite : F → Bool
  pub is_positive : F → Bool
  pub round_micros : F → ℕ
  pub ceil_times : F → ℕ → ℕ

-- Of `IdentityRule` and `Policy` the fields that limits and consent read.
pub record IdentityRule (F : Type 0) : Type 0 where
  pub identity : String
  pub capabilities : List String
  pub max_context : Option ℕ
  pub max_sessions : Option ℕ
  pub tokens_per_minute : Option ℕ
  pub daily_spend : Option F
  pub prelude : Option String
  pub mark_provenance : Option Bool
  pub allowed_models : Option (List String)

pub data Consent : Type 0 where
  polkit allow deny : Consent

pub record PolicyConfig (F : Type 0) : Type 0 where
  pub consent : Consent
  pub max_context : ℕ
  pub max_sessions : ℕ
  pub tokens_per_minute : ℕ
  pub daily_spend : F
  pub prelude : String
  pub mark_provenance : Bool
  pub allowed_models : List String

pub record Limits : Type 0 where
  pub max_context : ℕ
  pub max_sessions : ℕ
  pub tokens_per_minute : ℕ
  pub daily_spend_micros : ℕ
  pub prelude : String
  pub mark_provenance : Bool
  pub session_rate : Option ℕ
  pub no_tools : Bool
  pub allowed_models : List String

unfoldable pub permits_model : Limits → String → Bool
permits_model l model = any (λ m. str_eq m "*" || str_eq m model) l.allowed_models

abbrev or_default {ℓ} : {A : Type ℓ} → Option A → A → A
or_default none d = d
or_default (some a) d = a

module _ (fl : Floats) where
  open fl use {F, is_finite, is_positive, round_micros}

  unfoldable pub to_micros : F → ℕ
  to_micros units =
      if not (is_finite units) || not (is_positive units) then 0 else round_micros units

  unfoldable pub rule_for : List (IdentityRule F) → String → Option (IdentityRule F)
  rule_for identities who = find (λ r. str_eq r.identity who) identities

  unfoldable pub default_limits : PolicyConfig F → Limits
  default_limits d = record {
    max_context = d.max_context;
    max_sessions = d.max_sessions;
    tokens_per_minute = d.tokens_per_minute;
    daily_spend_micros = to_micros d.daily_spend;
    prelude = d.prelude;
    mark_provenance = d.mark_provenance;
    session_rate = none;
    no_tools = false;
    allowed_models = d.allowed_models;
  }

  abbrev or_micros : Option F → ℕ → ℕ
  or_micros none d = d
  or_micros (some v) d = to_micros v

  unfoldable pub apply_rule : IdentityRule F → Limits → Limits
  apply_rule r l = record l {
    max_context = or_default r.max_context l.max_context;
    max_sessions = or_default r.max_sessions l.max_sessions;
    tokens_per_minute = or_default r.tokens_per_minute l.tokens_per_minute;
    daily_spend_micros = or_micros r.daily_spend l.daily_spend_micros;
    prelude = or_default r.prelude l.prelude;
    mark_provenance = or_default r.mark_provenance l.mark_provenance;
    allowed_models = or_default r.allowed_models l.allowed_models;
  }

  -- `PolicyEngine::limits_for`: the defaults, then the identity's rule.
  unfoldable pub limits_for : PolicyConfig F → List (IdentityRule F) → String → Limits
  limits_for defaults identities who = elim (rule_for identities who) [
    | none ↦ default_limits defaults
    | some r ↦ apply_rule r (default_limits defaults)
  ]
