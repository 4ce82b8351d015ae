-- ===== src/Policy/Grants/Remembered.antt =====
-- crates/ai-daemon/src/policy.rs, `check`, `remember` and `revoke`: which source decides, and what
-- the table holds afterwards.
use ai_daemon.Prelude.{
  ℕ, ◌+◌, ◌-◌, String, ◌≡◌, refl, sym, ap, ◌∙◌, subst, ◌≢◌, ◌⊎◌, inl, inr, Bool, true, false, not,
  Option, none, some, List, [], ◌∷◌, arith, length, any, filter, find, count, get, Distinct,
  get-remove_self, str_eq, if◌then◌else◌, str_eq_iff, str_eq_refl, Bool-cases, Option-cases,
}
use ai_daemon.Policy.{Consent, polkit, allow as consent_allow, deny as consent_deny}
use Prim.{⊥, Unit, absurd}
use ai_daemon.Policy.Grants.{
  Decision, allow, deny, Grant, GrantState, is_for, find_grant, put_grant, model_admin, Verdict, ok,
  err, remembered, unreachable, may_not, verdict_of, set_grant, remember, decide, by_consent,
  from_polkit, check, check_table, check_fresh, revoke, action_of,
}

find-filter_kept :
    {A : Type 0} (p q : A → Bool) (xs : List A)
    → ((x : A) → p x ≡ true → q x ≡ true)
    → find p (filter q xs) ≡ find p xs
find-filter_kept p q [] h = refl
find-filter_kept p q (x ∷ xs) h = ground (arith, h x, find-filter_kept p q xs h)

find-filter_dropped :
    {A : Type 0} (p q : A → Bool) (xs : List A)
    → ((x : A) → p x ≡ true → q x ≡ false)
    → find p (filter q xs) ≡ none
find-filter_dropped p q [] h = refl
find-filter_dropped p q (x ∷ xs) h = ground (arith, h x, find-filter_dropped p q xs h)

other_key :
    (g h : Grant) (who capability : String)
    → is_for who capability g ≡ false
    → is_for who capability h ≡ true
    → not (is_for g.identity g.capability h) ≡ true
other_key g h who capability n e = ground (
  arith,
  str_eq_iff h.identity who,
  str_eq_iff h.capability capability,
  str_eq_iff h.identity g.identity,
  str_eq_iff h.capability g.capability,
  str_eq_iff g.identity who,
  str_eq_iff g.capability capability,
)

-- What was put is found, and every other identity and capability finds what it found.
pub find-put :
    (g : Grant) (who capability : String) (gs : List Grant)
    → find_grant who capability (put_grant g gs)
      ≡ (if is_for who capability g then some g else find_grant who capability gs)
unfolding find_grant put_grant
find-put g who capability gs = elim (Bool-cases (is_for who capability g)) [
  | inl e ↦ rw e
  | inr e ↦ rw e (
      find-filter_kept (is_for who capability) (λ h. not (is_for g.identity g.capability h)) gs
        (λ h. other_key g h who capability e))
]

is_for_refl :
    (who capability via : String) (d : Decision) (now : ℕ)
    → is_for who capability (record {
      identity = who;
      capability = capability;
      decision = d;
      decided_at = now;
      via = via;
    })
      ≡ true
is_for_refl who capability via d now = ground (arith, str_eq_refl who, str_eq_refl capability)

set_grant-finds :
    {B : Type 0} (saved : Bool) (who capability via : String) (d : Decision) (now : ℕ)
    (s : GrantState B)
    → find_grant who capability (set_grant saved who capability d via now s).grants
      ≡ some (record {
        identity = who;
        capability = capability;
        decision = d;
        decided_at = now;
        via = via;
      })
unfolding set_grant remember
set_grant-finds saved who capability via d now s =
    find-put _ who capability s.grants ∙ rw (is_for_refl who capability via d now)

-- How a remembered decision is answered.
abbrev pub recalled : Verdict → Verdict
recalled ok = ok
recalled (err why) = err remembered

check_table-some :
    {B : Type 0} (consent : Consent) (ask : String → Option Bool) (saved : Bool) (now : ℕ)
    (who capability : String) (s : GrantState B) (g : Grant)
    → find_grant who capability s.grants ≡ some g
    → check_table consent ask saved now who capability s ≡ (s, verdict_of remembered g.decision)
unfolding check_table
check_table-some consent ask saved now who capability s g e = rw (e, check_table)

check_table-none :
    {B : Type 0} (consent : Consent) (ask : String → Option Bool) (saved : Bool) (now : ℕ)
    (who capability : String) (s : GrantState B)
    → find_grant who capability s.grants ≡ none
    → check_table consent ask saved now who capability s
      ≡ check_fresh (decide consent ask capability) saved now who capability s
unfolding check_table
check_table-none consent ask saved now who capability s e = rw (e, check_table)

-- After `s` has answered `v`, any later question is answered the same way and changes nothing.
Settled : {B : Type 0} → String → String → GrantState B × Verdict → Type 0
Settled {B} who capability r =
    (consent : Consent) (ask : String → Option Bool) (saved : Bool) (now : ℕ)
    → check_table consent ask saved now who capability r.0 ≡ (r.0, recalled r.1)

recalled_same : (why : Decision) → verdict_of remembered why ≡ recalled (verdict_of remembered why)
recalled_same allow = refl
recalled_same deny = refl

recalled_fresh : (why : Decision) → verdict_of remembered why ≡ recalled (verdict_of may_not why)
recalled_fresh allow = refl
recalled_fresh deny = refl

check_fresh-Settled :
    {B : Type 0} (answer : Option (Decision × String)) (saved : Bool) (now : ℕ)
    (who capability : String) (s : GrantState B)
    → (check_fresh answer saved now who capability s).1 ≢ err unreachable
    → Settled who capability (check_fresh answer saved now who capability s)
unfolding check_fresh Settled
check_fresh-Settled none saved now who capability s n = absurd (n refl)
check_fresh-Settled (some (d, via)) saved now who capability s n = λ consent ask saved' now'.
    check_table-some consent ask saved' now' who capability
      (set_grant saved who capability d via now s) _
      (set_grant-finds saved who capability via d now s)
    ∙ ap (λ v. (set_grant saved who capability d via now s, v)) (recalled_fresh d)

-- A question that was answered is not asked again: whatever the consent mode and polkit would
-- say later, the same identity gets the same answer for the same capability from the table, and
-- the table stays as it is. The configuration names no capabilities for the identity, and the
-- first answer is not that nobody could be asked.
pub answered_once :
    {B : Type 0} (consent consent' : Consent) (ask ask' : String → Option Bool)
    (saved saved' : Bool) (now now' : ℕ) (who capability : String) (s : GrantState B)
    → (check [] consent ask saved now who capability s).1 ≢ err unreachable
    → check [] consent' ask' saved' now' who capability
        (check [] consent ask saved now who capability s).0
      ≡ (
        (check [] consent ask saved now who capability s).0,
        recalled (check [] consent ask saved now who capability s).1,
      )
unfolding check Settled
answered_once consent consent' ask ask' saved saved' now now' who capability s n =
    elim (Option-cases (find_grant who capability s.grants)) [
      | inl e ↦
          let fresh = check_table-none consent ask saved now who capability s e in
          subst
            (λ r.
              r.1 ≢ err unreachable
              → check_table consent' ask' saved' now' who capability r.0 ≡ (r.0, recalled r.1))
            (sym fresh)
            (λ m.
              check_fresh-Settled (decide consent ask capability) saved now who capability s m
                consent' ask' saved' now')
            n
      | inr (g, e) ↦ rw (check_table-some consent ask saved now who capability s g e) (
          check_table-some consent' ask' saved' now' who capability s g e
          ∙ ap (λ v. (s, v)) (recalled_same g.decision))
    ]

-- Somebody with a say allowed it: for `model-admin` polkit alone, for anything else the consent
-- mode or, where that leaves it to polkit, polkit under the capability's own action.
abbrev pub Authorised : Consent → (String → Option Bool) → String → Type 0
Authorised consent ask capability =
    ((capability ≡ model_admin) × (ask "io.github.agraves.aidaemon.model-admin" ≡ some true))
    ⊎ ((capability ≢ model_admin)
        × ((consent ≡ consent_allow)
            ⊎ ((consent ≡ polkit) × (ask (action_of capability) ≡ some true))))

abbrev Allows : Option (Decision × String) → Type 0
Allows none = ⊥
Allows (some (allow, via)) = Unit
Allows (some (deny, via)) = ⊥

from_polkit-Allows : (a : Option Bool) → Allows (from_polkit a) → a ≡ some true
unfolding from_polkit
from_polkit-Allows none h = absurd h
from_polkit-Allows (some true) h = refl
from_polkit-Allows (some false) h = absurd h

by_consent-Allows :
    (consent : Consent) (ask : String → Option Bool) (capability : String)
    → Allows (by_consent consent ask capability)
    → (consent ≡ consent_allow) ⊎ ((consent ≡ polkit) × (ask (action_of capability) ≡ some true))
unfolding by_consent
by_consent-Allows consent_deny ask capability h = absurd h
by_consent-Allows consent_allow ask capability h = inl refl
by_consent-Allows polkit ask capability h =
    inr (refl, from_polkit-Allows (ask (action_of capability)) h)

decide-Allows :
    (consent : Consent) (ask : String → Option Bool) (capability : String)
    → Allows (decide consent ask capability)
    → Authorised consent ask capability
unfolding decide
decide-Allows consent ask capability h = elim (Bool-cases (str_eq capability model_admin)) [
  | inl e ↦
      inl ((str_eq_iff capability model_admin).0 e, from_polkit-Allows _ (rw (e, decide) at h))
  | inr e ↦ inr (
    (λ same. ground (arith, e, (str_eq_iff capability model_admin).1 same)),
    by_consent-Allows consent ask capability (rw (e, decide) at h),
  )
]

check_fresh-ok :
    {B : Type 0} (answer : Option (Decision × String)) (saved : Bool) (now : ℕ)
    (who capability : String) (s : GrantState B)
    → (check_fresh answer saved now who capability s).1 ≡ ok
    → Allows answer
unfolding check_fresh
check_fresh-ok none saved now who capability s h = cc
check_fresh-ok (some (allow, via)) saved now who capability s h = tt
check_fresh-ok (some (deny, via)) saved now who capability s h = cc

allows_it : (d : Decision) → verdict_of remembered d ≡ ok → d ≡ allow
allows_it allow h = refl
allows_it deny h = cc

-- No capability is used on invented consent. Where `check` says yes, the configuration lists the
-- capability for the identity; or it lists none at all, and the table holds a grant that allows
-- it; or the table holds none, and polkit or the consent mode allowed it now, `model-admin` never
-- by the consent mode.
pub allowed_by_someone :
    {B : Type 0} (rule : List String) (consent : Consent) (ask : String → Option Bool)
    (saved : Bool) (now : ℕ) (who capability : String) (s : GrantState B)
    → (check rule consent ask saved now who capability s).1 ≡ ok
    → (any (λ c. str_eq c capability) rule ≡ true)
      ⊎ ((rule ≡ [])
          × (((g : Grant) × (find_grant who capability s.grants ≡ some g) × (g.decision ≡ allow))
              ⊎ ((find_grant who capability s.grants ≡ none) × Authorised consent ask capability)))
unfolding check
allowed_by_someone [] consent ask saved now who capability s h =
    elim (Option-cases (find_grant who capability s.grants)) [
      | inl e ↦
          let fresh : (check_fresh (decide consent ask capability) saved now who capability s).1
              ≡ ok =
            rw (check_table-none consent ask saved now who capability s e) at h in
          inr (
            refl,
            inr (
              e,
              decide-Allows consent ask capability
                  (check_fresh-ok (decide consent ask capability) saved now who capability s fresh),
            ),
          )
      | inr (g, e) ↦
          let known : verdict_of remembered g.decision ≡ ok =
            rw (check_table-some consent ask saved now who capability s g e) at h in
          inr (refl, inl (g, e, allows_it g.decision known))
    ]
allowed_by_someone (c ∷ cs) consent ask saved now who capability s h = inl (ground arith)

filter-length :
    {A : Type 0} (p : A → Bool) (xs : List A)
    → length (filter (λ x. not (p x)) xs) + count p xs ≡ length xs
filter-length p [] = omega arith
filter-length p (x ∷ xs) = ground (arith, filter-length p xs)

length-dropped :
    {A : Type 0} (p : A → Bool) (xs : List A)
    → length xs - length (filter (λ x. not (p x)) xs) ≡ count p xs
length-dropped p xs = omega (arith, filter-length p xs)

-- After `revoke` the identity has no grant for any capability and, where the buckets have
-- distinct keys, no bucket; every other identity's grants are what they were; and the result is
-- how many grants the identity had.
pub revoke_forgets :
    {B : Type 0} (saved : Bool) (who : String) (s : GrantState B)
    → ((capability : String) → find_grant who capability (revoke saved who s).0.grants ≡ none)
      × (Distinct s.buckets → get who (revoke saved who s).0.buckets ≡ none)
      × ((j capability : String)
          → j ≢ who
          → find_grant j capability (revoke saved who s).0.grants
            ≡ find_grant j capability s.grants)
      × ((revoke saved who s).1 ≡ count (λ (g : Grant). str_eq g.identity who) s.grants)
unfolding revoke find_grant
revoke_forgets saved who s = (
  (λ capability. find-filter_dropped _ _ s.grants (λ g h. ground arith)),
  (get-remove_self who s.buckets),
  (λ j capability n.
      find-filter_kept _ _ s.grants
        (λ g h. ground (arith, str_eq_iff g.identity j, str_eq_iff g.identity who))),
  length-dropped _ s.grants,
)
