-- ===== src/Manager/Create.antt =====
-- crates/ai-daemon/src/dbusapi.rs, `create_session`: what each way out does to the session counts.
use ai_daemon.Prelude.{
  ℕ, ◌+◌, ◌-◌, ◌≤◌, ◌<◌, String, ◌≡◌, refl, true, Option, none, some, arith, StrMap, str_eq,
  if◌then◌else◌,
}
use ai_daemon.Policy.{Floats, Limits}
use ai_daemon.Policy.Sessions.{
  held, open_session, close_session, held-open, held-close, open_session_limit,
}
use ai_daemon.Manager.{
  Options, Failure, at_backend, before_session, after_session, Created, model_denied, too_many,
  failed, created, finish_create, create_session, attenuate,
}

-- What the count of the identity becomes on each way out.
abbrev pub count_after : Created → ℕ → ℕ
count_after (created l) n = n + 1
count_after (failed at_backend) n = n - 1
count_after (failed before_session) n = n
count_after (failed after_session) n = n
count_after model_denied n = n
count_after too_many n = n

abbrev given_back : Option Failure → ℕ → ℕ
given_back none n = n
given_back (some at_backend) n = n - 1 - 1
given_back (some before_session) n = n - 1
given_back (some after_session) n = n - 1

pub finish-held :
    (fl : Floats) (l : Limits) (o : Options (Floats.F fl)) (f : Option Failure) (who j : String)
    (s : StrMap ℕ)
    → held j (finish_create fl l o f who s).0
      ≡ (if str_eq who j then given_back f (held j s) else held j s)
unfolding finish_create
finish-held fl l o none who j s = ground arith
finish-held fl l o (some at_backend) who j s =
    ground (arith, held-close who j s, held-close who j (close_session who s))
finish-held fl l o (some before_session) who j s = ground (arith, held-close who j s)
finish-held fl l o (some after_session) who j s = ground (arith, held-close who j s)

abbrev outcome_of : (fl : Floats) → Limits → Options (Floats.F fl) → Option Failure → Created
outcome_of fl l o none = created (attenuate fl l o)
outcome_of fl l o (some f) = failed f

pub finish-outcome :
    (fl : Floats) (l : Limits) (o : Options (Floats.F fl)) (f : Option Failure) (who : String)
    (s : StrMap ℕ)
    → (finish_create fl l o f who s).1 ≡ outcome_of fl l o f
unfolding finish_create
finish-outcome fl l o none who s = refl
finish-outcome fl l o (some at_backend) who s = refl
finish-outcome fl l o (some before_session) who s = refl
finish-outcome fl l o (some after_session) who s = refl

opened_then :
    (fl : Floats) (l : Limits) (o : Options (Floats.F fl)) (f : Option Failure) (n : ℕ)
    → given_back f (n + 1) ≡ count_after (outcome_of fl l o f) n
opened_then fl l o none n = refl
opened_then fl l o (some at_backend) n = omega arith
opened_then fl l o (some before_session) n = omega arith
opened_then fl l o (some after_session) n = omega arith

-- What each way out of `create_session` does to every identity's count: a session that was
-- created counts one more for its own identity; a refusal and every failure but one leave the
-- count as it was; and a backend that does not start takes one away that was never added, since
-- both the handler and the dropped guard give the slot back. No other identity is touched.
pub create_session_counts :
    (fl : Floats) (l : Limits) (o : Options (Floats.F fl)) (model : String) (f : Option Failure)
    (who j : String) (s : StrMap ℕ)
    → held j (create_session fl l o model f who s).0 ≡ (
        if str_eq who j
        then count_after (create_session fl l o model f who s).1 (held j s)
        else held j s)
unfolding create_session
create_session_counts fl l o model f who j s =
    let opened = (open_session who l.max_sessions s).0 in
    ground (
      arith,
      held-open who j l.max_sessions s,
      finish-held fl l o f who j opened,
      finish-outcome fl l o f who opened,
      opened_then fl l o f (held j s),
    )

pub opened_now :
    (who : String) (m : ℕ) (s : StrMap ℕ)
    → (open_session who m s).1 ≡ true
    → (held who s < m) × (held who (open_session who m s).0 ≤ m)
unfolding open_session
opened_now who m s g = ground (arith, open_session_limit who m s)
