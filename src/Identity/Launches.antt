-- ===== src/Identity/Launches.antt =====
-- crates/ai-daemon/src/identity.rs, `normalise_unit`: what a launch leaves in the key.
use ai_daemon.Prelude.{
  ℕ, ◌≡◌, refl, sym, ap, ap₂, append-nil, ◌∙◌, ◌≢◌, inl, inr, true, false, ◌&&◌, not, none, some,
  List, [], ◌∷◌, ◌++◌, arith, length, all, length-append, ltb, leb, ◌==◌, Bool-cases, Option-cases,
  and_true,
}
use Prim.{absurd}
use ai_daemon.Identity.{
  Text, dash, cut_prefix, back_onto, map_some, cut_suffix, onto_first, split, join, is_digit,
  is_hexdigit, is_launch_token, last_part, without_last, drop_token, drop_launcher, dot_service,
  dot_scope, app, airun, app_id, scope_unit, normalise_unit,
}

split-cons : (sep : ℕ) (t : Text) → (p : Text) × (ps : List Text) × (split sep t ≡ p ∷ ps)
unfolding split
split-cons sep [] = ([], [], refl)
split-cons sep (c ∷ t) = elim (Bool-cases (c == sep)) [
  | inl e ↦ ([], split sep t, (rw (e, split) refl))
  | inr e ↦ let (p, ps, f) = split-cons sep t in (c ∷ p, ps, (rw (e, f, split) refl))
]

onto_first-append :
    (c sep : ℕ) (t : Text) (ps : List Text)
    → onto_first c (split sep t ++ ps) ≡ onto_first c (split sep t) ++ ps
onto_first-append c sep t ps = let (q, qs, e) = split-cons sep t in rw e refl

-- Two texts with a separator between them are split apart.
split-append : (sep : ℕ) (x t : Text) → split sep (x ++ sep ∷ t) ≡ split sep x ++ split sep t
unfolding split
split-append sep [] t = let same : (sep == sep) ≡ true = ground arith in rw (same, split) refl
split-append sep (c ∷ x) t = elim (Bool-cases (c == sep)) [
  | inl e ↦ rw (e, split) (ap (λ l. [] ∷ l) (split-append sep x t))
  | inr e ↦
      rw (e, split)
        (ap (onto_first c) (split-append sep x t) ∙ onto_first-append c sep x (split sep t))
]

split-whole : (sep : ℕ) (t : Text) → all (λ c. not (c == sep)) t ≡ true → split sep t ≡ t ∷ []
unfolding split
split-whole sep [] h = refl
split-whole sep (c ∷ t) h =
    let (first, rest) = and_true (not (c == sep)) _ h in
    let other : (c == sep) ≡ false = ground (arith, first) in
    rw (other, split-whole sep t rest, split) refl

join-onto_first :
    (sep c : ℕ) (p : Text) (ps : List Text) → join sep ((c ∷ p) ∷ ps) ≡ c ∷ join sep (p ∷ ps)
unfolding join
join-onto_first sep c p [] = refl
join-onto_first sep c p (q ∷ qs) = refl

-- What was split is joined again.
join-split : (sep : ℕ) (t : Text) → join sep (split sep t) ≡ t
unfolding split join
join-split sep [] = refl
join-split sep (c ∷ t) =
    let (p, ps, e) = split-cons sep t in
    let ih : join sep (p ∷ ps) ≡ t = rw e at (join-split sep t) in
    elim (Bool-cases (c == sep)) [
      | inl k ↦
          let same : sep ≡ c = ground (arith, k) in
          rw (k, e, split, join) (ap₂ (λ x l. x ∷ l) same ih)
      | inr k ↦ rw (k, e, split) (join-onto_first sep c p ps ∙ ap (λ l. c ∷ l) ih)
    ]

digits_are_hex : (t : Text) → all is_digit t ≡ true → all is_hexdigit t ≡ true
digits_are_hex [] h = refl
digits_are_hex (c ∷ t) h =
    let (first, rest) = and_true (is_digit c) (all is_digit t) h in
    rw (first, digits_are_hex t rest) refl

is_launch_token-all : (t : Text) → is_launch_token t ≡ true → all is_hexdigit t ≡ true
unfolding is_launch_token
is_launch_token-all t h =
    let (_, kind) = and_true (not (length t == 0)) _ h in
    elim (Bool-cases (all is_digit t)) [
      | inl e ↦ digits_are_hex t e
      | inr e ↦
          let long : (leb 6 (length t) && all is_hexdigit t) ≡ true = rw e at kind in
          (and_true (leb 6 (length t)) (all is_hexdigit t) long).1
    ]

hexdigit_is_no_dash : (t : Text) → all is_hexdigit t ≡ true → all (λ c. not (c == dash)) t ≡ true
hexdigit_is_no_dash [] h = refl
hexdigit_is_no_dash (c ∷ t) h =
    let (first, rest) = and_true (is_hexdigit c) (all is_hexdigit t) h in
    let other : (c == dash) ≡ false = ground (arith, first) in
    rw (other, hexdigit_is_no_dash t rest) refl

split-is_launch_token : (t : Text) → is_launch_token t ≡ true → split dash t ≡ t ∷ []
split-is_launch_token t h = split-whole dash t (hexdigit_is_no_dash t (is_launch_token-all t h))

last_part-append : (ps : List Text) (t : Text) → last_part (ps ++ t ∷ []) ≡ some t
last_part-append [] t = refl
last_part-append (p ∷ []) t = refl
last_part-append (p ∷ q ∷ ps) t = last_part-append (q ∷ ps) t

without_last-append : (ps : List Text) (t : Text) → without_last (ps ++ t ∷ []) ≡ ps
without_last-append [] t = refl
without_last-append (p ∷ []) t = refl
without_last-append (p ∷ q ∷ ps) t = ap (λ l. p ∷ l) (without_last-append (q ∷ ps) t)

-- A launch token behind something else is taken off.
drop_token-split :
    (x t : Text) → is_launch_token t ≡ true → drop_token (split dash (x ++ dash ∷ t)) ≡ split dash x
unfolding drop_token
drop_token-split x t h =
    let parts : split dash (x ++ dash ∷ t) ≡ split dash x ++ t ∷ [] =
      split-append dash x t ∙ ap (λ l. split dash x ++ l) (split-is_launch_token t h) in
    let (p, ps, e) = split-cons dash x in
    let many : ltb 1 (length (split dash x ++ t ∷ [])) ≡ true =
      rw e (ground (arith, length-append ps (t ∷ []))) in
    rw
      (
        parts,
        many,
        last_part-append (split dash x) t,
        h,
        without_last-append (split dash x) t,
        drop_token,
      )
      refl

-- Whether a marked prefix stands before a dash is decided before it.
cut_prefix-dash :
    (q x t : Text)
    → all (λ c. not (c == dash)) q ≡ true
    → x ≢ q
    → cut_prefix (q ++ dash ∷ []) (x ++ dash ∷ t)
      ≡ map_some (λ r. r ++ dash ∷ t) (cut_prefix (q ++ dash ∷ []) x)
unfolding cut_prefix
cut_prefix-dash [] [] t h apart = absurd (apart refl)
cut_prefix-dash [] (c ∷ x) t h apart = elim (Bool-cases (dash == c)) [
  | inl e ↦ rw (e, cut_prefix) refl
  | inr e ↦ rw (e, cut_prefix) refl
]
cut_prefix-dash (p ∷ q) [] t h apart =
    let (first, rest) = and_true (not (p == dash)) _ h in
    let other : (p == dash) ≡ false = ground (arith, first) in rw (other, cut_prefix) refl
cut_prefix-dash (p ∷ q) (c ∷ x) t h apart = elim (Bool-cases (p == c)) [
  | inr e ↦ rw (e, cut_prefix) refl
  | inl e ↦
      let same : p ≡ c = ground (arith, e) in
      rw (e, cut_prefix)
        (cut_prefix-dash q x t (and_true _ _ h).1 (λ k. apart (ap₂ (λ y l. y ∷ l) (sym same) k)))
]

-- "airun", which `airun` ends with a dash.
abbrev pub airun_name : Text
airun_name = 97 ∷ 105 ∷ 114 ∷ 117 ∷ 110 ∷ []

-- What is left of the body of a scope once its launch token is off.
abbrev lasting : Text → Text
lasting x = elim (cut_prefix airun x) [
  | some given ↦ given
  | none ↦ join dash (drop_launcher (split dash x))
]

app_id-lasting :
    (x t : Text) → x ≢ airun_name → is_launch_token t ≡ true → app_id (x ++ dash ∷ t) ≡ lasting x
unfolding app_id join
app_id-lasting x t apart h =
    let marked = cut_prefix-dash airun_name x t refl apart in
    elim (Option-cases (cut_prefix airun x)) [
      | inl e ↦
          let gone : cut_prefix airun (x ++ dash ∷ t) ≡ none = rw e at marked in
          rw (gone, e, drop_token-split x t h, app_id, lasting) refl
      | inr (given, e) ↦
          let found : cut_prefix airun (x ++ dash ∷ t) ≡ some (given ++ dash ∷ t) =
            rw e at marked in
          rw (found, e, drop_token-split given t h, app_id, lasting) (join-split dash given)
    ]

back_onto-append : (x y acc : Text) → back_onto (x ++ y) acc ≡ back_onto y (back_onto x acc)
back_onto-append [] y acc = refl
back_onto-append (c ∷ x) y acc = back_onto-append x y (c ∷ acc)

back_onto-back_onto : (x acc y : Text) → back_onto (back_onto x acc) y ≡ back_onto acc (x ++ y)
back_onto-back_onto [] acc y = refl
back_onto-back_onto (c ∷ x) acc y = back_onto-back_onto x (c ∷ acc) y

cut_suffix-dot_scope : (x : Text) → cut_suffix dot_scope (x ++ dot_scope) ≡ some x
unfolding cut_suffix cut_prefix
cut_suffix-dot_scope x =
    rw (back_onto-append x dot_scope [], cut_suffix)
      (ap some (back_onto-back_onto x [] [] ∙ append-nil x))

cut_suffix-dot_service : (x : Text) → cut_suffix dot_service (x ++ dot_scope) ≡ none
unfolding cut_suffix cut_prefix
cut_suffix-dot_service x = rw (back_onto-append x dot_scope [], cut_suffix) refl

-- The unit `app-<body>.scope`.
abbrev pub app_scope : Text → Text
app_scope body = (app ++ body) ++ dot_scope

normalise_unit-app_scope : (body : Text) → normalise_unit (app_scope body) ≡ some (app_id body)
unfolding normalise_unit scope_unit cut_prefix
normalise_unit-app_scope body =
    rw (cut_suffix-dot_service (app ++ body), cut_suffix-dot_scope (app ++ body), normalise_unit)
      refl

-- A grant is kept by the application and not by its launch: two scopes of a desktop application
-- that differ in nothing but their launch tokens have the same unit. The name "airun" alone, with
-- which the token itself becomes the name, is left out.
pub normalise_unit-is_launch_token :
    (x t u : Text)
    → x ≢ airun_name
    → is_launch_token t ≡ true
    → is_launch_token u ≡ true
    → normalise_unit (app_scope (x ++ dash ∷ t)) ≡ normalise_unit (app_scope (x ++ dash ∷ u))
normalise_unit-is_launch_token x t u apart h k =
    normalise_unit-app_scope (x ++ dash ∷ t)
    ∙ ap some (app_id-lasting x t apart h ∙ sym (app_id-lasting x u apart k))
    ∙ sym (normalise_unit-app_scope (x ++ dash ∷ u))

-- The name that `ai-run --as` is given is the unit, exactly: whatever the name, the scope that it
-- makes for a process is read back as that name.
pub normalise_unit-airun :
    (name pid : Text)
    → is_launch_token pid ≡ true
    → normalise_unit (app_scope ((airun ++ name) ++ dash ∷ pid)) ≡ some name
unfolding cut_prefix
normalise_unit-airun name pid h =
    normalise_unit-app_scope ((airun ++ name) ++ dash ∷ pid)
    ∙ ap some (app_id-lasting (airun ++ name) pid (λ e. absurd (omega (arith, ap length e))) h)
