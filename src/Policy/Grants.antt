-- ===== src/Policy/Grants.antt =====
-- crates/ai-daemon/src/policy.rs: who may use which capability. The polkit authority is the
-- parameter `ask`, from an action to its answer, `none` where nobody could be asked; the outcome
-- of writing the grant file is the parameter `saved`. A reason is a constructor in place of its
-- text. The table is a list, at most one grant for an identity and a capability.
pub mod Remembered
use ai_daemon.Prelude.{
  ℕ, zero, suc, ◌+◌, ◌-◌, ◌*◌, ◌/◌, ◌%◌, ◌^◌, ◌≤◌, ◌<◌, String, ◌≡◌, refl, sym, ap, ap₂, append-nil,
  ◌∙◌, subst, ◌≢◌, ◌↔◌, ◌⊎◌, inl, inr, Bool, true, false, ◌&&◌, ◌||◌, not, Option, none, some, List,
  [], ◌∷◌, ◌++◌, map, Memᴰ, arith, length, any, all, filter, find, count, All, All-mem, all-mem,
  find-mem, mem-append_left, mem-append_right, All-append, All-append_left, All-append_right,
  All-filter_test, All-both, All-filter, length-append, count-append, count-filter-le, mem-map,
  map-append_one, Uniq, Uniq-filter, Uniq-append, Uniq-append_left, Uniq-append_one, All-imp,
  mem-filter, mem-append_cases, mem-of_map, not-mem_nil, StrMap, get, insert, remove, Distinct,
  total, weight, get-insert, get-remove_ne, get-remove_self, remove-Distinct, insert-Distinct,
  total-insert, total-remove, weight-le-total, All-get, keys_ne, Distinct-Uniq, total-append,
  total-filters, get-mem, sort_insert, sort_by_key, IsSortedBy, All-sort_by_key,
  sort_by_key-IsSortedBy, sort_by_key-perm, Uniq-sort_by_key, mem-sort_by_key, IsSortedBy-split,
  total-sort_by_key, ltb, leb, ◌==◌, str_eq, if◌then◌else◌, str_eq_iff, str_eq_refl, str_eq_ne,
  ltb→lt, ltb-false, leb→le, Bool-cases, Option-cases, and_true, u64_mod, add_u64, u32_mod,
  str_append, is_whitespace, is_blank,
}
use ai_daemon.Policy.{
  Floats, IdentityRule, Consent, polkit, allow as consent_allow, deny as consent_deny, rule_for,
}

pub data Decision : Type 0 where
  allow deny : Decision

pub record Grant : Type 0 where
  pub identity : String
  pub capability : String
  pub decision : Decision
  pub decided_at : ℕ
  pub via : String

-- Of `PolicyState` what grants concern, with what the grant file holds.
pub record GrantState (B : Type 0) : Type 0 where
  pub grants : List Grant
  pub buckets : StrMap B
  pub file : List Grant

pub data Refusal : Type 0 where
  not_configured remembered unreachable may_not : Refusal

pub data Verdict : Type 0 where
  ok : Verdict
  err : Refusal → Verdict

abbrev pub is_for : String → String → Grant → Bool
is_for who capability g = str_eq g.identity who && str_eq g.capability capability

unfoldable pub find_grant : String → String → List Grant → Option Grant
find_grant who capability grants = find (is_for who capability) grants

unfoldable pub put_grant : Grant → List Grant → List Grant
put_grant g grants = g ∷ filter (λ h. not (is_for g.identity g.capability h)) grants

abbrev pub model_admin : String
model_admin = "model-admin"

unfoldable pub action_of : String → String
action_of capability =
    if str_eq capability "embed"
    then "io.github.agraves.aidaemon.embed"
    else if str_eq capability "generate-tools"
    then "io.github.agraves.aidaemon.generate-tools"
    else if str_eq capability "generate-media"
    then "io.github.agraves.aidaemon.generate-media"
    else "io.github.agraves.aidaemon.generate"

unfoldable pub from_polkit : Option Bool → Option (Decision × String)
from_polkit none = none
from_polkit (some true) = some (allow, "polkit")
from_polkit (some false) = some (deny, "polkit")

unfoldable pub by_consent : Consent → (String → Option Bool) → String → Option (Decision × String)
unfolding from_polkit
by_consent consent_deny ask capability = some (deny, "default")
by_consent consent_allow ask capability = some (allow, "config")
by_consent polkit ask capability = from_polkit (ask (action_of capability))

unfoldable pub decide : Consent → (String → Option Bool) → String → Option (Decision × String)
decide consent ask capability =
    if str_eq capability model_admin
    then from_polkit (ask "io.github.agraves.aidaemon.model-admin")
    else by_consent consent ask capability

abbrev pub verdict_of : Refusal → Decision → Verdict
verdict_of why allow = ok
verdict_of why deny = err why

unfoldable pub remember : {B : Type 0} → Bool → Grant → GrantState B → GrantState B
remember saved g s =
    let grants = put_grant g s.grants in
    record s { grants = grants; file = if saved then grants else s.file }

unfoldable pub set_grant :
    {B : Type 0} → Bool → String → String → Decision → String → ℕ → GrantState B → GrantState B
set_grant saved who capability decision via now s =
    remember saved
      (record {
        identity = who;
        capability = capability;
        decision = decision;
        decided_at = now;
        via = via;
      })
      s

-- The grants of `who` and its bucket go; the result has how many grants went.
unfoldable pub revoke : {B : Type 0} → Bool → String → GrantState B → GrantState B × ℕ
revoke saved who s =
    let grants = filter (λ g. not (str_eq g.identity who)) s.grants in
    (
      record {
        grants = grants;
        buckets = remove who s.buckets;
        file = if saved then grants else s.file;
      },
      length s.grants - length grants,
    )

module _ (fl : Floats) where
  open fl use {F}

  unfoldable pub configured : List (IdentityRule F) → String → List String
  configured identities who = elim (rule_for fl identities who) [
    | none ↦ []
    | some r ↦ r.capabilities
  ]

-- The end of `check`: nothing is known yet, so that somebody is asked.
unfoldable pub check_fresh :
    {B : Type 0}
    → Option (Decision × String)
    → Bool
    → ℕ
    → String
    → String
    → GrantState B
    → GrantState B × Verdict
unfolding set_grant
check_fresh none saved now who capability s = (s, err unreachable)
check_fresh (some (decision, via)) saved now who capability s =
    (set_grant saved who capability decision via now s, verdict_of may_not decision)

unfoldable pub check_table :
    {B : Type 0}
    → Consent
    → (String → Option Bool)
    → Bool
    → ℕ
    → String
    → String
    → GrantState B
    → GrantState B × Verdict
check_table consent ask saved now who capability s = elim (find_grant who capability s.grants) [
  | some g ↦ (s, verdict_of remembered g.decision)
  | none ↦ check_fresh (decide consent ask capability) saved now who capability s
]

-- `PolicyEngine::check`, where `rule` is what the configuration lists for the identity.
unfoldable pub check :
    {B : Type 0}
    → List String
    → Consent
    → (String → Option Bool)
    → Bool
    → ℕ
    → String
    → String
    → GrantState B
    → GrantState B × Verdict
check [] consent ask saved now who capability s = check_table consent ask saved now who capability s
check (c ∷ cs) consent ask saved now who capability s =
    (s, if any (λ x. str_eq x capability) (c ∷ cs) then ok else err not_configured)
