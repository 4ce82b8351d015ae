-- ===== src/Policy/Spend/Ledger.antt =====
-- crates/ai-daemon/src/policy.rs: the ledger is pruned each time it is touched. What it answers is
-- compared here with the whole history of the charges, of which nothing is ever dropped.
use ai_daemon.Prelude.{
  ℕ, ◌+◌, ◌-◌, ◌%◌, ◌≤◌, ◌<◌, String, ◌≡◌, refl, sym, ap, ◌∙◌, ◌↔◌, inl, inr, true, false, ◌&&◌,
  none, some, List, [], ◌∷◌, ◌++◌, arith, filter, get, insert, get-insert, ltb, str_eq,
  if◌then◌else◌, str_eq_iff, Bool-cases, Option-cases, u64_mod,
}
use ai_daemon.Policy.{Floats, Limits}
use ai_daemon.Policy.Spend.{
  Ledger, window, fresh, entry_of, amounts, charge_spend, spent_by, ModelPrice, price_of,
  spend_permits,
}

-- The calls that touch the ledger, with their time.
pub data Event : Type 0 where
  charged : ℕ → String → ℕ → Event
  asked : ℕ → String → Event

abbrev pub time_of : Event → ℕ
time_of (charged t who m) = t
time_of (asked t who) = t

abbrev pub play_one : Event → Ledger → Ledger
play_one (charged t who m) s = (charge_spend t who m s).0
play_one (asked t who) s = (spent_by t who s).0

abbrev pub play : List Event → Ledger → Ledger
play [] s = s
play (e ∷ es) s = play es (play_one e s)

-- The calls come in the order of their times, and none is later than `end`.
abbrev pub InOrder : ℕ → List Event → ℕ → Type 0
InOrder start [] end = start ≤ end
InOrder start (e ∷ es) end = (start ≤ time_of e) × InOrder (time_of e) es end

-- What the history says `who` was charged in the window before `end`.
abbrev pub billed_one : ℕ → String → Event → ℕ
billed_one end who (charged t k m) = if str_eq k who && ltb (end - t) window then m else 0
billed_one end who (asked t k) = 0

abbrev pub billed : ℕ → String → List Event → ℕ
billed end who [] = 0
billed end who (e ∷ es) = billed_one end who e + billed end who es

abbrev live : ℕ → List (ℕ × ℕ) → ℕ
live end xs = amounts (filter (fresh end) xs)

-- What is dropped now would not count later.
live-filter :
    (now end : ℕ) (xs : List (ℕ × ℕ)) → now ≤ end → live end (filter (fresh now) xs) ≡ live end xs
live-filter now end [] h = refl
live-filter now end (x ∷ xs) h = ground (arith, live-filter now end xs)

live-append :
    (end t m : ℕ) (xs : List (ℕ × ℕ))
    → live end (xs ++ ((t, m) ∷ [])) ≡ live end xs + (if ltb (end - t) window then m else 0)
live-append end t m [] = ground arith
live-append end t m (x ∷ xs) = ground (arith, live-append end t m xs)

entry_of-insert :
    (k who : String) (v : List (ℕ × ℕ)) (s : Ledger)
    → entry_of who (insert k v s) ≡ (if str_eq k who then v else entry_of who s)
unfolding entry_of
entry_of-insert k who v s = rw (get-insert k who v s, entry_of) (ground arith)

entry_same : (k who : String) (s : Ledger) → str_eq k who ≡ true → entry_of k s ≡ entry_of who s
entry_same k who s e = rw ((str_eq_iff k who).0 e)

entry_of-none : (who : String) (s : Ledger) → get who s ≡ none → entry_of who s ≡ []
unfolding entry_of
entry_of-none who s e = rw (e, entry_of)

entry_of-some :
    (who : String) (s : Ledger) (xs : List (ℕ × ℕ)) → get who s ≡ some xs → entry_of who s ≡ xs
unfolding entry_of
entry_of-some who s xs e = rw (e, entry_of)

pushed-live :
    (now end m : ℕ) (xs : List (ℕ × ℕ))
    → now ≤ end
    → live end
        (let kept = filter (fresh now) xs in if ltb 0 m then kept ++ ((now, m) ∷ []) else kept)
      ≡ live end xs + (if ltb (end - now) window then m else 0)
pushed-live now end m xs h =
    ground (arith, live-filter now end xs, live-append end now m (filter (fresh now) xs))

charge-live :
    (now end : ℕ) (k who : String) (m : ℕ) (s : Ledger)
    → now ≤ end
    → live end (entry_of who (charge_spend now k m s).0)
      ≡ live end (entry_of who s) + billed_one end who (charged now k m)
unfolding charge_spend
charge-live now end k who m s h =
    let kept = filter (fresh now) (entry_of k s) in
    let pushed = if ltb 0 m then kept ++ ((now, m) ∷ []) else kept in
    rw (entry_of-insert k who pushed s) (elim (Bool-cases (str_eq k who)) [
      | inl e ↦ rw (e, sym (entry_same k who s e)) (pushed-live now end m (entry_of k s) h)
      | inr e ↦ rw e (omega arith)
    ])

asked-live :
    (now end : ℕ) (k who : String) (s : Ledger)
    → now ≤ end
    → live end (entry_of who (spent_by now k s).0) ≡ live end (entry_of who s)
unfolding spent_by
asked-live now end k who s h = elim (Option-cases (get k s)) [
  | inl e ↦ rw (e, spent_by)
  | inr (xs, e) ↦
      rw (e, spent_by)
        (rw (entry_of-insert k who (filter (fresh now) xs) s) (elim (Bool-cases (str_eq k who)) [
          | inl same ↦
              rw (same, sym (entry_same k who s same), entry_of-some k s xs e)
                (live-filter now end xs h)
          | inr other ↦ rw other
        ]))
]

play_one-live :
    (e : Event) (end : ℕ) (who : String) (s : Ledger)
    → time_of e ≤ end
    → live end (entry_of who (play_one e s)) ≡ live end (entry_of who s) + billed_one end who e
play_one-live (charged t k m) end who s h = charge-live t end k who m s h
play_one-live (asked t k) end who s h = omega (arith, asked-live t end k who s h)

InOrder-end : (start : ℕ) (es : List Event) (end : ℕ) → InOrder start es end → start ≤ end
InOrder-end start [] end h = h
InOrder-end start (e ∷ es) end h = omega (arith, InOrder-end (time_of e) es end h.1, h.0)

play-live :
    (start : ℕ) (es : List Event) (end : ℕ) (who : String) (s : Ledger)
    → InOrder start es end
    → live end (entry_of who (play es s)) ≡ live end (entry_of who s) + billed end who es
play-live start [] end who s h = omega arith
play-live start (e ∷ es) end who s h = omega (
  arith,
  play-live (time_of e) es end who (play_one e s) h.1,
  play_one-live e end who s (InOrder-end (time_of e) es end h.1),
)

spent_by-live :
    (now : ℕ) (who : String) (s : Ledger)
    → (spent_by now who s).1 ≡ live now (entry_of who s) % u64_mod
unfolding spent_by
spent_by-live now who s = elim (Option-cases (get who s)) [
  | inl e ↦ rw (e, spent_by, entry_of-none who s e)
  | inr (xs, e) ↦ rw (e, spent_by, entry_of-some who s xs e)
]

history-live :
    (es : List Event) (end : ℕ) (who : String)
    → InOrder 0 es end
    → live end (entry_of who (play es [])) ≡ billed end who es
unfolding entry_of get
history-live es end who h = omega (arith, play-live 0 es end who [] h)

amounts-append : (t m : ℕ) (xs : List (ℕ × ℕ)) → amounts (xs ++ ((t, m) ∷ [])) ≡ amounts xs + m
amounts-append t m [] = omega arith
amounts-append t m (x ∷ xs) = omega (arith, amounts-append t m xs)

pushed-amounts :
    (t m : ℕ) (xs : List (ℕ × ℕ))
    → amounts (if ltb 0 m then xs ++ ((t, m) ∷ []) else xs) ≡ amounts xs + m
pushed-amounts t m xs = ground (arith, amounts-append t m xs)

-- After any calls in the order of their times, from an empty ledger, the answer at a later time
-- is the sum, modulo 2^64, of every charge of the identity that is less than a day old, however
-- often the ledger was pruned in between and for whom.
pub spent_by_exact :
    (es : List Event) (end : ℕ) (who : String)
    → InOrder 0 es end
    → (spent_by end who (play es [])).1 ≡ billed end who es % u64_mod
spent_by_exact es end who h =
    spent_by-live end who (play es []) ∙ ap (λ n. n % u64_mod) (history-live es end who h)

-- A charge answers with that same sum, the charge itself included.
pub charge_spend_exact :
    (es : List Event) (now : ℕ) (who : String) (m : ℕ)
    → InOrder 0 es now
    → (charge_spend now who m (play es [])).1 ≡ (billed now who es + m) % u64_mod
unfolding charge_spend
charge_spend_exact es now who m h =
    let kept = filter (fresh now) (entry_of who (play es [])) in
    ap (λ n. n % u64_mod) (pushed-amounts now m kept ∙ ap (λ n. n + m) (history-live es now who h))

-- The ceiling: a model is refused just where there is a ceiling, the model costs something, and
-- what was charged in the last day has reached the ceiling.
pub spend_permits_exact :
    (fl : Floats) (prices : List (ModelPrice (Floats.F fl))) (es : List Event) (now : ℕ)
    (who : String) (l : Limits) (model : String)
    → InOrder 0 es now
    → ((spend_permits fl prices now who l model (play es [])).1 ≡ false) ↔ (
        (0 < l.daily_spend_micros)
        × (0 < price_of fl prices model 1 1)
        × (l.daily_spend_micros ≤ billed now who es % u64_mod))
unfolding spend_permits
spend_permits_exact fl prices es now who l model h = ground (arith, spent_by_exact es now who h)
