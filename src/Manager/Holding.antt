-- ===== src/Manager/Holding.antt =====
-- crates/ai-daemon/src/dbusapi.rs, `create_session`, and session.rs, `retire`: the sessions that an
-- identity really holds, beside the counts that the policy engine keeps.
use ai_daemon.Prelude.{
  ℕ, ◌+◌, ◌-◌, ◌≤◌, ◌<◌, String, ◌≡◌, refl, subst, inl, inr, Bool, true, false, ◌&&◌, Option, none,
  some, List, [], ◌∷◌, arith, StrMap, get, str_eq, if◌then◌else◌, str_eq_iff, Bool-cases,
}
use ai_daemon.Policy.{Floats, Limits}
use ai_daemon.Policy.Sessions.{held, open_session, held-open, held-close}
use ai_daemon.Manager.{
  Options, Failure, at_backend, before_session, after_session, Created, model_denied, too_many,
  failed, created, create_session, retire_count,
}
use ai_daemon.Manager.Create.{finish-held, finish-outcome, opened_now}

abbrev pub was_created : Created → Bool
was_created c = elim c [
  | created l ↦ true
  | model_denied ↦ false
  | too_many ↦ false
  | failed f ↦ false
]

-- The backend starts, whatever else fails.
abbrev pub starts : Option Failure → Bool
starts none = true
starts (some at_backend) = false
starts (some before_session) = true
starts (some after_session) = true

-- The engine's counts, and for each session that lives the identity that holds it.
pub record World : Type 0 where
  pub counts : StrMap ℕ
  pub live : List String

abbrev pub drop_first : String → List String → List String
drop_first who [] = []
drop_first who (w ∷ ws) = if str_eq who w then ws else w ∷ drop_first who ws

-- How many sessions `j` holds.
abbrev pub holds : String → List String → ℕ
holds j [] = 0
holds j (w ∷ ws) = (if str_eq w j then 1 else 0) + holds j ws

holds-drop_first :
    (who j : String) (ws : List String)
    → holds j (drop_first who ws) ≡ holds j ws - (if str_eq who j then 1 else 0)
holds-drop_first who j [] = ground arith
holds-drop_first who j (w ∷ ws) =
    ground (arith, holds-drop_first who j ws, str_eq_iff who w, str_eq_iff w j, str_eq_iff who j)

module _ (fl : Floats) (limits : String → Limits) where
  -- An identity asks for a session, with the point where the creation fails if it does; or one of
  -- its sessions ends.
  pub data Event : Type 0 where
    asks : String → Options (Floats.F fl) → String → Option Failure → Event
    ends : String → Event

  unfoldable pub advance : Event → World → World
  advance (asks who o model f) w =
      let (counts', result) = create_session fl (limits who) o model f who w.counts in
      record { counts = counts'; live = if was_created result then who ∷ w.live else w.live }
  advance (ends who) w = record { counts = retire_count who w.counts; live = drop_first who w.live }

  unfoldable pub after : List Event → World → World
  after [] w = w
  after (e ∷ es) w = after es (advance e w)

  abbrev pub AllStart : List Event → Type 0
  AllStart [] = Unit {0}
  AllStart (asks who o model f ∷ es) = (starts f ≡ true) × AllStart es
  AllStart (ends who ∷ es) = AllStart es

  -- The engine's count is the number of sessions held, and that is within the limit.
  abbrev Counted : World → Type 0
  Counted w =
      (j : String) → (held j w.counts ≡ holds j w.live) × (holds j w.live ≤ (limits j).max_sessions)

  create-held :
      (who j : String) (o : Options (Floats.F fl)) (model : String) (f : Option Failure)
      (s : StrMap ℕ)
      → starts f ≡ true
      → let after = create_session fl (limits who) o model f who s in
        held j after.0 ≡ held j s + (if was_created after.1 && str_eq who j then 1 else 0)
  unfolding create_session
  create-held who j o model none s h =
      let l = limits who in
      let opened = (open_session who l.max_sessions s).0 in
      ground (
        arith,
        held-open who j l.max_sessions s,
        finish-held fl l o none who j opened,
        finish-outcome fl l o none who opened,
      )
  create-held who j o model (some at_backend) s h = cc
  create-held who j o model (some before_session) s h =
      let l = limits who in
      let opened = (open_session who l.max_sessions s).0 in
      ground (
        arith,
        held-open who j l.max_sessions s,
        finish-held fl l o (some before_session) who j opened,
        finish-outcome fl l o (some before_session) who opened,
      )
  create-held who j o model (some after_session) s h =
      let l = limits who in
      let opened = (open_session who l.max_sessions s).0 in
      ground (
        arith,
        held-open who j l.max_sessions s,
        finish-held fl l o (some after_session) who j opened,
        finish-outcome fl l o (some after_session) who opened,
      )

  create-room :
      (who : String) (o : Options (Floats.F fl)) (model : String) (f : Option Failure)
      (s : StrMap ℕ)
      → was_created (create_session fl (limits who) o model f who s).1 ≡ true
      → held who s < (limits who).max_sessions
  unfolding create_session
  create-room who o model f s h = ground (arith, opened_now who (limits who).max_sessions s)

  advance-Counted : (e : Event) (w : World) → AllStart (e ∷ []) → Counted w → Counted (advance e w)
  unfolding advance retire_count
  advance-Counted (asks who o model f) w (h, _) c j =
      let result = (create_session fl (limits who) o model f who w.counts).1 in
      let counted = create-held who j o model f w.counts h in
      let room = create-room who o model f w.counts in
      let (exact, within) = c j in
      elim (Bool-cases (was_created result)) [
        | inr e ↦ let same = rw e at counted in rw e (omega (arith, same, exact), within)
        | inl e ↦
            let more = rw e at counted in
            let free = room e in
            rw e (elim (Bool-cases (str_eq who j)) [
              | inr e' ↦
                  let same = rw e' at more in
                  rw e' (omega (arith, same, exact), omega (arith, within))
              | inl e' ↦
                  let one = rw e' at more in
                  let who_is : who ≡ j = (str_eq_iff who j).0 e' in
                  let free' = subst (λ x. held x w.counts < (limits x).max_sessions) who_is free in
                  rw e' (omega (arith, one, exact), omega (arith, exact, free'))
            ])
      ]
  advance-Counted (ends who) w h c j =
      ground (arith, held-close who j w.counts, holds-drop_first who j w.live, c j)

  after-Counted : (es : List Event) (w : World) → AllStart es → Counted w → Counted (after es w)
  unfolding after
  after-Counted [] w h c = c
  after-Counted (asks who o model f ∷ es) w (h, hs) c =
      let e = asks who o model f in
      after-Counted es (advance e w) hs (advance-Counted e w (h, tt) c)
  after-Counted (ends who ∷ es) w hs c =
      after-Counted es (advance (ends who) w) hs (advance-Counted (ends who) w tt c)

  -- No identity holds more sessions than it may, as long as the backends start: from a daemon
  -- without sessions, after any requests and ends of sessions, with any other failure on the way of
  -- a creation, the sessions that an identity really holds are as many as the engine counts for it,
  -- and at most its `max_sessions`, the limits of each identity being fixed.
  pub sessions_within_limit :
      (es : List Event) (j : String)
      → AllStart es
      → let w = after es (record { counts = []; live = [] }) in
        (held j w.counts ≡ holds j w.live) × (holds j w.live ≤ (limits j).max_sessions)
  unfolding held get
  sessions_within_limit es j h =
      after-Counted es (record { counts = []; live = [] }) h (λ k. (refl, omega arith)) j
