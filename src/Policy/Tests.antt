-- ===== src/Policy/Tests.antt =====
-- crates/ai-daemon/src/policy.rs: the theorems at concrete ledgers and grant tables.
use ai_daemon.Prelude.{
  ℕ, ◌+◌, ◌*◌, ◌%◌, ◌≤◌, ◌<◌, String, ◌≡◌, refl, ◌≢◌, ◌↔◌, ◌⊎◌, true, false, none, some, List, [],
  ◌∷◌, arith, any, count, get, Distinct, ltb, str_eq, u64_mod,
}
use ai_daemon.Policy.{Floats, Limits, polkit}
use ai_daemon.Policy.Spend.{
  charge_spend, spent_by, ModelPrice, price_of, price_for, micros_of, spend_permits,
}
use ai_daemon.Policy.Spend.Ledger.{
  Event, charged, asked, play, billed, InOrder, spent_by_exact, charge_spend_exact,
  spend_permits_exact,
}
use ai_daemon.Policy.Grants.{
  allow, deny, Grant, GrantState, find_grant, check, check_table, check_fresh, decide, by_consent,
  from_polkit, revoke,
}
use ai_daemon.Policy.Grants.Remembered.{
  recalled, answered_once, Authorised, allowed_by_someone, revoke_forgets,
}

abbrev units : Floats
units = record {
  F = ℕ;
  is_finite = λ _. true;
  is_positive = λ x. ltb 0 x;
  round_micros = λ x. x * 1000000;
  ceil_times = λ p n. p * n;
}

-- Two charges a day apart, a question between them, and somebody else's charge.
abbrev day : List Event
day =
    charged 100 "alice" 7 ∷ charged 200 "bob" 50 ∷ asked 5000 "alice" ∷ charged 86600 "alice" 5 ∷ []

day-InOrder : InOrder 0 day 86700
day-InOrder = (omega arith, (omega arith, (omega arith, (omega arith, omega arith))))

spent_by_exact_example :
    (spent_by 86700 "alice" (play day [])).1 ≡ billed 86700 "alice" day % u64_mod
spent_by_exact_example = spent_by_exact day 86700 "alice" day-InOrder

only_today : billed 86700 "alice" day ≡ 5
only_today = refl

charge_spend_exact_example :
    (charge_spend 86700 "alice" 3 (play day [])).1 ≡ (billed 86700 "alice" day + 3) % u64_mod
charge_spend_exact_example = charge_spend_exact day 86700 "alice" 3 day-InOrder

abbrev hosted : List (ModelPrice ℕ)
hosted = record { model = "gpt"; input_per_mtok = 2; output_per_mtok = 8 } ∷ []

abbrev capped : Limits
capped = record {
  max_context = 4096;
  max_sessions = 2;
  tokens_per_minute = 600;
  daily_spend_micros = 5;
  prelude = "";
  mark_provenance = false;
  session_rate = none;
  no_tools = false;
  allowed_models = "*" ∷ [];
}

spend_permits_exact_example :
    ((spend_permits units hosted 86700 "alice" capped "gpt" (play day [])).1 ≡ false) ↔ (
      (0 < capped.daily_spend_micros)
      × (0 < price_of units hosted "gpt" 1 1)
      × (capped.daily_spend_micros ≤ billed 86700 "alice" day % u64_mod))
spend_permits_exact_example =
    spend_permits_exact units hosted day 86700 "alice" capped "gpt" day-InOrder

priced : price_of units hosted "gpt" 10 3 ≡ 44
unfolding price_of price_for micros_of
priced = refl

abbrev bobs : Grant
bobs = record {
  identity = "bob";
  capability = "generate";
  decision = deny;
  decided_at = 5;
  via = "polkit";
}

abbrev table : GrantState ℕ
table = record { grants = bobs ∷ []; buckets = ("bob", 3) ∷ []; file = bobs ∷ [] }

-- Polkit says yes, once, and is not asked the second time.
answered_once_example :
    check [] polkit
      (λ _. none)
      true
      9
      "alice"
      "embed"
      (check [] polkit (λ _. some true) true 8 "alice" "embed" table).0
    ≡ (
      (check [] polkit (λ _. some true) true 8 "alice" "embed" table).0,
      recalled (check [] polkit (λ _. some true) true 8 "alice" "embed" table).1,
    )
unfolding check check_table check_fresh decide by_consent from_polkit find_grant
answered_once_example =
    answered_once polkit polkit (λ _. some true) (λ _. none) true true 8 9 "alice" "embed" table
      (λ e. ground arith)

allowed_by_someone_example :
    (any (λ (c : String). str_eq c "embed") [] ≡ true)
    ⊎ ((◌≡◌ {A = List String} [] [])
        × (((g : Grant) × (find_grant "alice" "embed" table.grants ≡ some g) × (g.decision ≡ allow))
            ⊎ ((find_grant "alice" "embed" table.grants ≡ none)
                × Authorised polkit (λ _. some true) "embed")))
unfolding check check_table check_fresh decide by_consent from_polkit find_grant
allowed_by_someone_example =
    allowed_by_someone [] polkit (λ _. some true) true 8 "alice" "embed" table refl

revoke_forgets_example :
    ((capability : String) → find_grant "bob" capability (revoke true "bob" table).0.grants ≡ none)
    × (Distinct table.buckets → get "bob" (revoke true "bob" table).0.buckets ≡ none)
    × ((j capability : String)
        → j ≢ "bob"
        → find_grant j capability (revoke true "bob" table).0.grants
          ≡ find_grant j capability table.grants)
    × ((revoke true "bob" table).1 ≡ count (λ (g : Grant). str_eq g.identity "bob") table.grants)
revoke_forgets_example = revoke_forgets true "bob" table
