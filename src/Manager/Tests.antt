-- ===== src/Manager/Tests.antt =====
-- crates/ai-daemon/src/dbusapi.rs: the theorems on `attenuate` and `create_session` at concrete
-- limits and options.
use ai_daemon.Prelude.{
  ℕ, ◌*◌, ◌≤◌, ◌≡◌, refl, true, false, none, some, List, [], ◌∷◌, StrMap, get, insert, ltb, str_eq,
  if◌then◌else◌,
}
use ai_daemon.Policy.{Floats, Limits, permits_model, to_micros}
use ai_daemon.Policy.Sessions.{held, open_session, close_session}
use ai_daemon.Manager.{
  Options, attenuate, session_context, create_session, finish_create, at_backend, before_session,
  retire_count, drop_slot, narrow_rate, narrow_sessions, narrow_spend, narrow_tools,
  intersect_models, asked_micros, narrow_models, extend_prelude, narrow_provenance,
}
use ai_daemon.Manager.Attenuate.{
  Narrower, attenuate-Narrower, attenuate_models_narrow, attenuate-star_widens,
}
use ai_daemon.Manager.Create.{count_after, create_session_counts}
use ai_daemon.Manager.Holding.{Event, asks, ends, after, advance, holds, sessions_within_limit}

-- Whole units in place of floats.
abbrev units : Floats
units = record {
  F = ℕ;
  is_finite = λ _. true;
  is_positive = λ x. ltb 0 x;
  round_micros = λ x. x * 1000000;
  ceil_times = λ p n. p * n;
}

abbrev limits : Limits
limits = record {
  max_context = 4096;
  max_sessions = 2;
  tokens_per_minute = 600;
  daily_spend_micros = 5000000;
  prelude = "Be brief.";
  mark_provenance = false;
  session_rate = none;
  no_tools = false;
  allowed_models = "chat" ∷ "code" ∷ [];
}

abbrev asked : Options ℕ
asked = record {
  max_tokens_per_minute = some 60;
  max_sessions = some 9;
  max_context = some 9000;
  daily_spend = some 2;
  no_tools = true;
  allowed_models = some ("code" ∷ "vision" ∷ []);
  prelude = none;
  mark_provenance = false;
}

abbrev asks_star : Options ℕ
asks_star = record asked { allowed_models = some ("*" ∷ []) }

narrowed : attenuate units limits asked ≡ record limits {
  tokens_per_minute = 60;
  daily_spend_micros = 2000000;
  session_rate = some 60;
  no_tools = true;
  allowed_models = "code" ∷ [];
}
unfolding attenuate narrow_rate narrow_sessions narrow_spend narrow_tools intersect_models
    narrow_models extend_prelude narrow_provenance to_micros asked_micros
narrowed = refl

context_bounds : session_context (some 9000) 4096 0 ≡ 4096
unfolding session_context
context_bounds = refl

attenuate-Narrower_example : Narrower limits (attenuate units limits asked)
attenuate-Narrower_example = attenuate-Narrower units limits asked

attenuate_models_narrow_example : permits_model limits "code" ≡ true
unfolding permits_model attenuate narrow_rate narrow_sessions narrow_spend narrow_tools
    intersect_models narrow_models extend_prelude narrow_provenance to_micros asked_micros
attenuate_models_narrow_example =
    attenuate_models_narrow units limits asked ("code" ∷ "vision" ∷ []) "code" refl refl refl

attenuate-star_widens_example : permits_model (attenuate units limits asks_star) "vision" ≡ true
attenuate-star_widens_example =
    attenuate-star_widens units limits asks_star ("*" ∷ []) "vision" refl refl

abbrev counts : StrMap ℕ
counts = ("alice", 1) ∷ ("bob", 2) ∷ []

-- Alice holds one session, a second fails at its backend, and her count falls to zero.
create_session_counts_example :
    held "alice" (create_session units limits asked "chat" (some at_backend) "alice" counts).0 ≡ (
      if str_eq "alice" "alice"
      then count_after
          (create_session units limits asked "chat" (some at_backend) "alice" counts).1
          (held "alice" counts)
      else held "alice" counts)
create_session_counts_example =
    create_session_counts units limits asked "chat" (some at_backend) "alice" "alice" counts

given_back_twice :
    held "alice" (create_session units limits asked "chat" (some at_backend) "alice" counts).0 ≡ 0
unfolding create_session finish_create drop_slot open_session close_session held get insert
    permits_model
given_back_twice = refl

-- Alice, who may hold two sessions, asks for three, ends one, and is given another only at the second
-- attempt.
abbrev a_day : List (Event units (λ who. limits))
a_day =
    asks "alice" asked "chat" none
    ∷ asks "alice" asked "code" none
    ∷ asks "alice" asked "chat" none
    ∷ ends "alice"
    ∷ asks "alice" asked "chat" (some before_session)
    ∷ asks "alice" asked "chat" none
    ∷ []

sessions_within_limit_example :
    let w = after units (λ who. limits) a_day (record { counts = []; live = [] }) in
    (held "alice" w.counts ≡ holds "alice" w.live) × (holds "alice" w.live ≤ 2)
sessions_within_limit_example =
    sessions_within_limit units (λ who. limits) a_day "alice"
      (refl, (refl, (refl, (refl, (refl, tt)))))

two_at_the_end :
    (after units (λ who. limits) a_day (record { counts = []; live = [] })).live
    ≡ "alice" ∷ "alice" ∷ []
unfolding after advance retire_count create_session finish_create drop_slot open_session
    close_session held get insert permits_model
two_at_the_end = refl
