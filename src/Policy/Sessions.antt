-- ===== src/Policy/Sessions.antt =====
-- crates/ai-daemon/src/policy.rs: how many sessions each identity holds.
use ai_daemon.Prelude.{
  ℕ, ◌+◌, ◌-◌, ◌≤◌, String, ◌≡◌, inl, inr, Bool, true, false, ◌&&◌, none, some, arith, StrMap, get,
  insert, get-insert, leb, str_eq, if◌then◌else◌, str_eq_iff, str_eq_refl, Option-cases,
}

unfoldable pub held : String → StrMap ℕ → ℕ
held who sessions = elim (get who sessions) [ none ↦ 0 | some n ↦ n ]

-- `PolicyEngine::open_session`; `false` is the refusal. The entry is made either way, as
-- `entry(..).or_insert(0)` does.
unfoldable pub open_session : String → ℕ → StrMap ℕ → StrMap ℕ × Bool
open_session who max_sessions sessions =
    let count = held who sessions in
    if leb max_sessions count
    then (insert who count sessions, false)
    else (insert who (count + 1) sessions, true)

unfoldable pub close_session : String → StrMap ℕ → StrMap ℕ
close_session who sessions = elim (get who sessions) [
  | none ↦ sessions
  | some n ↦ insert who (n - 1) sessions
]

held-insert :
    (who j : String) (n : ℕ) (s : StrMap ℕ)
    → held j (insert who n s) ≡ (if str_eq who j then n else held j s)
unfolding held
held-insert who j n s = rw (get-insert who j n s, held) (ground arith)

held-same : (who j : String) (s : StrMap ℕ) → str_eq who j ≡ true → held j s ≡ held who s
held-same who j s e = rw ((str_eq_iff who j).0 e)

held-none : (who : String) (s : StrMap ℕ) → get who s ≡ none → held who s ≡ 0
unfolding held
held-none who s e = rw (e, held)

held-some : (who : String) (s : StrMap ℕ) (n : ℕ) → get who s ≡ some n → held who s ≡ n
unfolding held
held-some who s n e = rw (e, held)

-- Opening counts one more session for the identity, where it is not refused, and nothing else.
pub held-open :
    (who j : String) (m : ℕ) (s : StrMap ℕ)
    → held j (open_session who m s).0
      ≡ held j s + (if str_eq who j && (open_session who m s).1 then 1 else 0)
unfolding open_session
held-open who j m s = ground (
  arith,
  held-insert who j (held who s) s,
  held-insert who j (held who s + 1) s,
  held-same who j s,
)

pub held-close :
    (who j : String) (s : StrMap ℕ)
    → held j (close_session who s) ≡ held j s - (if str_eq who j then 1 else 0)
unfolding close_session
held-close who j s = elim (Option-cases (get who s)) [
  | inl e ↦
      let empty : held who s ≡ 0 = held-none who s e in
      rw (e, close_session) (ground (arith, held-same who j s, empty))
  | inr (n, e) ↦
      let value : held who s ≡ n = held-some who s n e in
      rw (e, close_session) (ground (arith, held-insert who j (n - 1) s, held-same who j s, value))
]

-- An opening that is not refused leaves the count at or under the limit, and one that is refused
-- found it there already.
pub open_session_limit :
    (who : String) (m : ℕ) (s : StrMap ℕ)
    → ((open_session who m s).1 ≡ true → held who (open_session who m s).0 ≤ m)
      × ((open_session who m s).1 ≡ false → m ≤ held who s)
unfolding open_session
open_session_limit who m s = ground (arith, held-insert who who (held who s + 1) s, str_eq_refl who)
