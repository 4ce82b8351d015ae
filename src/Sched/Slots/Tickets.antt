-- ===== src/Sched/Slots/Tickets.antt =====
-- crates/ai-daemon/src/sched.rs: what the tickets of the running and of the waiting have in
-- common, as two lists of numbers and the counter `next_ticket`.
use ai_daemon.Prelude.{
  ℕ, ◌+◌, ◌<◌, sym, ◌≢◌, inl, inr, not, List, [], ◌∷◌, ◌++◌, Memᴰ, arith, filter, All, All-mem,
  All-append, All-filter, Uniq, Uniq-filter, Uniq-append_one, All-imp, ◌==◌, Bool-cases, u64_mod,
  add_u64,
}

pub record Tickets (running waiting : List ℕ) (next : ℕ) : Type 0 where
  pub uniq_running : Uniq running
  pub uniq_waiting : Uniq waiting
  pub separate : All (λ w. All (λ r. r ≢ w) running) waiting
  pub fresh_running : All (λ t. t < next) running
  pub fresh_waiting : All (λ t. t < next) waiting

abbrev pub without : ℕ → List ℕ → List ℕ
without t = filter (λ x. not (x == t))

pub All-without : (t : ℕ) (xs : List ℕ) → All (λ x. x ≢ t) (without t xs)
All-without t [] = tt
All-without t (x ∷ xs) = elim (Bool-cases (x == t)) [
  | inl e ↦ rw e (All-without t xs)
  | inr e ↦ rw e (ground arith, All-without t xs)
]

grown :
    (n : ℕ) (xs : List ℕ) → n + 1 < u64_mod → All (λ t. t < n) xs → All (λ t. t < add_u64 n 1) xs
grown n xs h = All-imp (λ t. t < n) (λ t. t < add_u64 n 1) xs (λ t l. omega arith)

newer : (n : ℕ) (xs : List ℕ) → All (λ t. t < n) xs → All (λ t. t ≢ n) xs
newer n xs = All-imp (λ t. t < n) (λ t. t ≢ n) xs (λ t l. omega arith)

pub enqueue-Tickets :
    (rs ws : List ℕ) (n : ℕ)
    → n + 1 < u64_mod
    → Tickets rs ws n
    → Tickets rs (ws ++ n ∷ []) (add_u64 n 1)
enqueue-Tickets rs ws n h v = record {
  uniq_running = v.uniq_running;
  uniq_waiting = Uniq-append_one n ws (newer n ws v.fresh_waiting) v.uniq_waiting;
  separate =
      All-append (λ w. All (λ r. r ≢ w) rs) ws (n ∷ []) v.separate (newer n rs v.fresh_running, tt);
  fresh_running = grown n rs h v.fresh_running;
  fresh_waiting =
      All-append (λ t. t < add_u64 n 1) ws (n ∷ []) (grown n ws h v.fresh_waiting)
        (omega arith, tt);
}

apart_after :
    (t : ℕ) (rs ws : List ℕ)
    → All (λ w. w ≢ t) ws
    → All (λ w. All (λ r. r ≢ w) rs) ws
    → All (λ w. All (λ r. r ≢ w) (rs ++ t ∷ [])) ws
apart_after t rs [] d s = tt
apart_after t rs (w ∷ ws) d s =
    (All-append (λ r. r ≢ w) rs (t ∷ []) s.0 ((λ e. d.0 (sym e)), tt), apart_after t rs ws d.1 s.1)

-- A ticket moves from the queue to the running.
pub grant-Tickets :
    (t : ℕ) (rs ws : List ℕ) (n : ℕ)
    → Memᴰ t ws
    → Tickets rs ws n
    → Tickets (rs ++ t ∷ []) (without t ws) n
grant-Tickets t rs ws n m v = record {
  uniq_running =
      Uniq-append_one t rs (All-mem (λ w. All (λ r. r ≢ w) rs) ws v.separate m) v.uniq_running;
  uniq_waiting = Uniq-filter (λ x. not (x == t)) ws v.uniq_waiting;
  separate =
      apart_after t rs (without t ws) (All-without t ws)
        (All-filter (λ w. All (λ r. r ≢ w) rs) (λ x. not (x == t)) ws v.separate);
  fresh_running =
      All-append (λ x. x < n) rs (t ∷ []) v.fresh_running
        (All-mem (λ x. x < n) ws v.fresh_waiting m, tt);
  fresh_waiting = All-filter (λ x. x < n) (λ x. not (x == t)) ws v.fresh_waiting;
}

pub release-Tickets :
    (t : ℕ) (rs ws : List ℕ) (n : ℕ) → Tickets rs ws n → Tickets (without t rs) ws n
release-Tickets t rs ws n v = record {
  uniq_running = Uniq-filter (λ x. not (x == t)) rs v.uniq_running;
  uniq_waiting = v.uniq_waiting;
  separate =
      All-imp (λ w. All (λ r. r ≢ w) rs) (λ w. All (λ r. r ≢ w) (without t rs)) ws
        (λ w a. All-filter (λ r. r ≢ w) (λ x. not (x == t)) rs a) v.separate;
  fresh_running = All-filter (λ x. x < n) (λ x. not (x == t)) rs v.fresh_running;
  fresh_waiting = v.fresh_waiting;
}
