-- ===== src/Manager.antt =====
-- crates/ai-daemon/src/dbusapi.rs: what `CreateSession` decides. D-Bus itself, and the conversion
-- of a D-Bus value to the type that an option has, are outside: the options come as a record.
pub mod Attenuate
pub mod Create
pub mod Holding
pub mod Tests
use ai_daemon.Prelude.{
  ℕ, zero, suc, ◌+◌, ◌-◌, ◌*◌, ◌/◌, ◌%◌, ◌^◌, ◌≤◌, ◌<◌, String, ◌≡◌, refl, sym, ap, ap₂, append-nil,
  ◌∙◌, subst, ◌≢◌, ◌↔◌, ◌⊎◌, inl, inr, Bool, true, false, ◌&&◌, ◌||◌, not, Option, none, some, List,
  [], ◌∷◌, ◌++◌, map, Memᴰ, arith, length, any, all, filter, find, count, All, All-mem, all-mem,
  find-mem, mem-append_left, mem-append_right, All-append, All-append_left, All-append_right,
  All-filter_test, All-both, All-filter, length-append, count-append, count-filter-le, mem-map,
  map-append_one, Uniq, Uniq-filter, Uniq-append, Uniq-append_left, Uniq-append_one, All-imp,
  mem-filter, mem-append_cases, mem-of_map, not-mem_nil, StrMap, get, insert, remove, Distinct,
  total, weight, get-insert, get-remove_ne, get-remove_self, remove-Distinct, insert-Distinct,
  total-insert, total-remove, weight-le-total, All-get, keys_ne, Distinct-Uniq, total-append,
  total-filters, get-mem, sort_insert, sort_by_key, IsSortedBy, All-sort_by_key,
  sort_by_key-IsSortedBy, sort_by_key-perm, Uniq-sort_by_key, mem-sort_by_key, IsSortedBy-split,
  total-sort_by_key, ltb, leb, ◌==◌, str_eq, if◌then◌else◌, str_eq_iff, str_eq_refl, str_eq_ne,
  ltb→lt, ltb-false, leb→le, Bool-cases, Option-cases, and_true, u64_mod, add_u64, u32_mod,
  str_append, is_whitespace, is_blank,
}
use ai_daemon.Policy.{Floats, Limits, to_micros, permits_model}
use ai_daemon.Policy.Sessions.{open_session, close_session}

pub record Options (F : Type 0) : Type 0 where
  pub max_tokens_per_minute : Option ℕ
  pub max_sessions : Option ℕ
  pub max_context : Option ℕ
  pub daily_spend : Option F
  pub no_tools : Bool
  pub allowed_models : Option (List String)
  pub prelude : Option String
  pub mark_provenance : Bool

abbrev pub star : String → Bool
star m = str_eq m "*"

abbrev min_nat : ℕ → ℕ → ℕ
min_nat a b = if leb a b then a else b

unfoldable pub narrow_rate : Option ℕ → Limits → Limits
narrow_rate none l = l
narrow_rate (some v) l =
    if ltb v l.tokens_per_minute
    then record l { session_rate = some v; tokens_per_minute = v }
    else l

unfoldable pub narrow_sessions : Option ℕ → Limits → Limits
narrow_sessions none l = l
narrow_sessions (some v) l = record l { max_sessions = min_nat l.max_sessions v }

-- `asked` is in micro-units; zero would mean no ceiling, and is passed over.
unfoldable pub narrow_spend : ℕ → Limits → Limits
narrow_spend asked l =
    if ltb 0 asked
    then record l {
      daily_spend_micros =
          if l.daily_spend_micros == 0 then asked else min_nat l.daily_spend_micros asked;
    }
    else l

unfoldable pub narrow_tools : Bool → Limits → Limits
narrow_tools asked l = if asked then record l { no_tools = true } else l

unfoldable pub intersect_models : List String → List String → List String
intersect_models held models =
    if any star held then models else filter (λ m. star m || any (λ a. str_eq a m) held) models

unfoldable pub narrow_models : Option (List String) → Limits → Limits
narrow_models none l = l
narrow_models (some models) l = record l {
  allowed_models = intersect_models l.allowed_models models;
}

unfoldable pub extend_prelude : Option String → Limits → Limits
extend_prelude none l = l
extend_prelude (some text) l =
    if is_blank text
    then l
    else if is_blank l.prelude
    then record l { prelude = text }
    else record l { prelude = str_append l.prelude (str_append "\n" text) }

unfoldable pub narrow_provenance : Bool → Limits → Limits
narrow_provenance asked l = if asked then record l { mark_provenance = true } else l

module _ (fl : Floats) where
  open fl use {F}

  asked_micros : Option F → ℕ
  unfolding to_micros
  asked_micros none = 0
  asked_micros (some v) = to_micros fl v

  -- `attenuate`.
  unfoldable pub attenuate : Limits → Options F → Limits
  unfolding asked_micros
  attenuate l o = narrow_provenance o.mark_provenance (
      extend_prelude o.prelude (
        narrow_models o.allowed_models (
          narrow_tools o.no_tools (
            narrow_spend (asked_micros o.daily_spend)
              (narrow_sessions o.max_sessions (narrow_rate o.max_tokens_per_minute l))))))

-- What is left of an asked context after the identity's limit and the model's; a model's zero
-- means unknown, so the bound is u32's largest.
unfoldable pub session_context : Option ℕ → ℕ → ℕ → ℕ
session_context asked limit model_max =
    let requested : ℕ = elim asked [ none ↦ limit | some n ↦ n ] in
    min_nat (min_nat requested limit) (if model_max == 0 then u32_mod - 1 else model_max)

-- `SessionSlot`: what an abandoned creation still has to give back.
pub record SessionSlot : Type 0 where
  pub session : Bool
  pub armed : Bool

-- The count that `session::retire` gives back.
unfoldable pub retire_count : String → StrMap ℕ → StrMap ℕ
retire_count who sessions = close_session who sessions

-- `Drop for SessionSlot`, as far as the counts go.
unfoldable pub drop_slot : String → SessionSlot → StrMap ℕ → StrMap ℕ
unfolding retire_count
drop_slot who slot sessions =
    if not slot.armed
    then sessions
    else if slot.session
    then retire_count who sessions
    else close_session who sessions

-- Where `CreateSession` fails after it has taken a slot: starting the backend; before the
-- session is in the daemon's map (the socket pair, the object path); or after (the bus object,
-- the worker thread).
pub data Failure : Type 0 where
  at_backend before_session after_session : Failure

pub data Created : Type 0 where
  model_denied too_many : Created
  failed : Failure → Created
  created : Limits → Created

module _ (fl : Floats) where
  open fl use {F}

  -- The end of `create_session`, from the armed slot on.
  unfoldable pub finish_create :
      Limits → Options F → Option Failure → String → StrMap ℕ → StrMap ℕ × Created
  unfolding drop_slot
  finish_create l o (some at_backend) who s = (
    drop_slot who (record { session = false; armed = true }) (close_session who s),
    failed at_backend,
  )
  finish_create l o (some before_session) who s =
      (drop_slot who (record { session = false; armed = true }) s, failed before_session)
  finish_create l o (some after_session) who s =
      (drop_slot who (record { session = true; armed = true }) s, failed after_session)
  finish_create l o none who s =
      (drop_slot who (record { session = true; armed = false }) s, created (attenuate fl l o))

  -- `create_session`, for the identity `who` with limits `l`, from the test of the model on; what
  -- comes before (the gate, the registry) refuses without touching the counts.
  unfoldable pub create_session :
      Limits → Options F → String → Option Failure → String → StrMap ℕ → StrMap ℕ × Created
  create_session l o model failure who s =
      let (opened, granted) = open_session who l.max_sessions s in
      if not (permits_model l model)
      then (s, model_denied)
      else if not granted
      then (opened, too_many)
      else finish_create l o failure who opened
