-- ===== src/Manager/Attenuate.antt =====
-- crates/ai-daemon/src/dbusapi.rs, `attenuate`: what a session's options can and cannot do to the
-- limits of the identity that opens it.
use ai_daemon.Prelude.{
  ℕ, ◌≤◌, ◌<◌, String, ◌≡◌, refl, ap, ◌∙◌, subst, inl, inr, Bool, true, false, ◌||◌, Option, none,
  some, List, [], ◌∷◌, arith, any, filter, str_eq, str_eq_iff, Bool-cases,
}
use ai_daemon.Policy.{Floats, Limits, permits_model}
use ai_daemon.Manager.{
  Options, star, narrow_rate, narrow_sessions, narrow_spend, narrow_tools, intersect_models,
  narrow_models, extend_prelude, narrow_provenance, attenuate, asked_micros,
}

-- `l'` allows no more than `l`, the models aside: a rate, a session count and a context that are
-- no larger; a ceiling that stays where there was one and is no larger; no tools and marking
-- that stay on.
pub record Narrower (l l' : Limits) : Type 0 where
  pub rate : l'.tokens_per_minute ≤ l.tokens_per_minute
  pub sessions : l'.max_sessions ≤ l.max_sessions
  pub context : l'.max_context ≡ l.max_context
  pub ceiling : 0 < l.daily_spend_micros → 0 < l'.daily_spend_micros
  pub spend : 0 < l.daily_spend_micros → l'.daily_spend_micros ≤ l.daily_spend_micros
  pub tools : l.no_tools ≡ true → l'.no_tools ≡ true
  pub marked : l.mark_provenance ≡ true → l'.mark_provenance ≡ true

Narrower-trans : {a b c : Limits} → Narrower a b → Narrower b c → Narrower a c
Narrower-trans x y = ground arith

narrow_rate-Narrower : (v : Option ℕ) (l : Limits) → Narrower l (narrow_rate v l)
unfolding narrow_rate
narrow_rate-Narrower none l = ground arith
narrow_rate-Narrower (some v) l = ground arith

narrow_sessions-Narrower : (v : Option ℕ) (l : Limits) → Narrower l (narrow_sessions v l)
unfolding narrow_sessions
narrow_sessions-Narrower none l = ground arith
narrow_sessions-Narrower (some v) l = ground arith

narrow_spend-Narrower : (v : ℕ) (l : Limits) → Narrower l (narrow_spend v l)
unfolding narrow_spend
narrow_spend-Narrower v l = ground arith

narrow_tools-Narrower : (b : Bool) (l : Limits) → Narrower l (narrow_tools b l)
unfolding narrow_tools
narrow_tools-Narrower b l = ground arith

narrow_models-Narrower : (m : Option (List String)) (l : Limits) → Narrower l (narrow_models m l)
unfolding narrow_models
narrow_models-Narrower none l = ground arith
narrow_models-Narrower (some m) l = ground arith

extend_prelude-Narrower : (t : Option String) (l : Limits) → Narrower l (extend_prelude t l)
unfolding extend_prelude
extend_prelude-Narrower none l = ground arith
extend_prelude-Narrower (some t) l = ground arith

narrow_provenance-Narrower : (b : Bool) (l : Limits) → Narrower l (narrow_provenance b l)
unfolding narrow_provenance
narrow_provenance-Narrower b l = ground arith

abbrev models_of : Limits → List String
models_of l = l.allowed_models

rate-models : (v : Option ℕ) (l : Limits) → models_of (narrow_rate v l) ≡ models_of l
unfolding narrow_rate
rate-models none l = refl
rate-models (some v) l = ground arith

sessions-models : (v : Option ℕ) (l : Limits) → models_of (narrow_sessions v l) ≡ models_of l
unfolding narrow_sessions
sessions-models none l = refl
sessions-models (some v) l = refl

spend-models : (v : ℕ) (l : Limits) → models_of (narrow_spend v l) ≡ models_of l
unfolding narrow_spend
spend-models v l = ground arith

tools-models : (b : Bool) (l : Limits) → models_of (narrow_tools b l) ≡ models_of l
unfolding narrow_tools
tools-models b l = ground arith

prelude-models : (t : Option String) (l : Limits) → models_of (extend_prelude t l) ≡ models_of l
unfolding extend_prelude
prelude-models none l = refl
prelude-models (some t) l = ground arith

provenance-models : (b : Bool) (l : Limits) → models_of (narrow_provenance b l) ≡ models_of l
unfolding narrow_provenance
provenance-models b l = ground arith

abbrev asked_models : Option (List String) → List String → List String
asked_models none held = held
asked_models (some models) held = intersect_models held models

models-models :
    (m : Option (List String)) (l : Limits)
    → models_of (narrow_models m l) ≡ asked_models m (models_of l)
unfolding narrow_models
models-models none l = refl
models-models (some m) l = refl

-- Only one of the steps touches the models.
attenuate-models :
    (fl : Floats) (l : Limits) (o : Options (Floats.F fl))
    → models_of (attenuate fl l o) ≡ asked_models o.allowed_models (models_of l)
unfolding attenuate
attenuate-models fl l o =
    let l₁ = narrow_rate o.max_tokens_per_minute l in
    let l₂ = narrow_sessions o.max_sessions l₁ in
    let l₃ = narrow_spend (asked_micros fl o.daily_spend) l₂ in
    let l₄ = narrow_tools o.no_tools l₃ in
    let l₅ = narrow_models o.allowed_models l₄ in
    let l₆ = extend_prelude o.prelude l₅ in
    let before : models_of l₄ ≡ models_of l =
      tools-models o.no_tools l₃
      ∙ spend-models (asked_micros fl o.daily_spend) l₂
      ∙ sessions-models o.max_sessions l₁
      ∙ rate-models o.max_tokens_per_minute l in
    provenance-models o.mark_provenance l₆
    ∙ prelude-models o.prelude l₅
    ∙ models-models o.allowed_models l₄
    ∙ ap (asked_models o.allowed_models) before

-- Whatever is asked, the limits only narrow: no rate, count, context or ceiling grows, and
-- neither the refusal of tools nor the marking can be switched off.
pub attenuate-Narrower :
    (fl : Floats) (l : Limits) (o : Options (Floats.F fl)) → Narrower l (attenuate fl l o)
unfolding attenuate
attenuate-Narrower fl l o =
    let l₁ = narrow_rate o.max_tokens_per_minute l in
    let l₂ = narrow_sessions o.max_sessions l₁ in
    let l₃ = narrow_spend (asked_micros fl o.daily_spend) l₂ in
    let l₄ = narrow_tools o.no_tools l₃ in
    let l₅ = narrow_models o.allowed_models l₄ in
    let l₆ = extend_prelude o.prelude l₅ in
    Narrower-trans (narrow_rate-Narrower o.max_tokens_per_minute l) (
      Narrower-trans (narrow_sessions-Narrower o.max_sessions l₁) (
        Narrower-trans (narrow_spend-Narrower (asked_micros fl o.daily_spend) l₂) (
          Narrower-trans (narrow_tools-Narrower o.no_tools l₃) (
            Narrower-trans (narrow_models-Narrower o.allowed_models l₄) (
              Narrower-trans (extend_prelude-Narrower o.prelude l₅)
                (narrow_provenance-Narrower o.mark_provenance l₆))))))

abbrev permitted_by : List String → String → Bool
permitted_by held model = any (λ m. star m || str_eq m model) held

any-mem :
    (model : String) (held : List String)
    → any (λ a. str_eq a model) held ≡ true
    → permitted_by held model ≡ true
any-mem model [] h = h
any-mem model (x ∷ xs) h = ground (arith, any-mem model xs)

-- An entry that was asked for and kept permits what was permitted before, `*` aside.
filtered_permits :
    (held models : List String) (model : String)
    → any star models ≡ false
    → permitted_by (filter (λ m. star m || any (λ a. str_eq a m) held) models) model ≡ true
    → permitted_by held model ≡ true
filtered_permits held [] model n h = cc
filtered_permits held (x ∷ xs) model n h = elim (Bool-cases (any (λ a. str_eq a x) held)) [
  | inl e ↦ elim (Bool-cases (str_eq x model)) [
    | inl same ↦
        any-mem model held
          (subst (λ m. any (λ a. str_eq a m) held ≡ true) ((str_eq_iff x model).0 same) e)
    | inr other ↦ filtered_permits held xs model (ground arith) (ground arith)
  ]
  | inr e ↦ filtered_permits held xs model (ground arith) (ground arith)
]

star_permits :
    (held : List String) (model : String) → any star held ≡ true → permitted_by held model ≡ true
star_permits [] model h = h
star_permits (x ∷ xs) model h = ground (arith, star_permits xs model)

intersect_permits :
    (held models : List String) (model : String)
    → any star models ≡ false
    → permitted_by (intersect_models held models) model ≡ true
    → permitted_by held model ≡ true
unfolding intersect_models
intersect_permits held models model n h = elim (Bool-cases (any star held)) [
  | inl e ↦ star_permits held model e
  | inr e ↦ filtered_permits held models model n (rw (e, intersect_models) at h)
]

-- A list of models that does not name `*` gives no model that was not permitted before.
pub attenuate_models_narrow :
    (fl : Floats) (l : Limits) (o : Options (Floats.F fl)) (models : List String) (model : String)
    → o.allowed_models ≡ some models
    → any star models ≡ false
    → permits_model (attenuate fl l o) model ≡ true
    → permits_model l model ≡ true
unfolding permits_model
attenuate_models_narrow fl l o models model asked n h =
    let result : models_of (attenuate fl l o) ≡ intersect_models (models_of l) models =
      attenuate-models fl l o ∙ rw asked in
    intersect_permits (models_of l) models model n
      (subst (λ held. permitted_by held model ≡ true) result h)

star_kept :
    (held models : List String)
    → any star models ≡ true
    → any star (filter (λ m. star m || any (λ a. str_eq a m) held) models) ≡ true
star_kept held [] h = h
star_kept held (x ∷ xs) h = ground (arith, star_kept held xs)

intersect_star :
    (held models : List String)
    → any star models ≡ true
    → any star (intersect_models held models) ≡ true
unfolding intersect_models
intersect_star held models h = elim (Bool-cases (any star held)) [
  | inl e ↦ rw (e, intersect_models) h
  | inr e ↦ rw (e, intersect_models) (star_kept held models h)
]

-- But a list that names `*` gives every model, whatever the identity was permitted.
pub attenuate-star_widens :
    (fl : Floats) (l : Limits) (o : Options (Floats.F fl)) (models : List String) (model : String)
    → o.allowed_models ≡ some models
    → any star models ≡ true
    → permits_model (attenuate fl l o) model ≡ true
unfolding permits_model
attenuate-star_widens fl l o models model asked n =
    let result : models_of (attenuate fl l o) ≡ intersect_models (models_of l) models =
      attenuate-models fl l o ∙ rw asked in
    rw result (
      star_permits (intersect_models (models_of l) models) model
        (intersect_star (models_of l) models n))
