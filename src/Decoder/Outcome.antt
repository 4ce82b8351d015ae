-- ===== src/Decoder/Outcome.antt =====
-- crates/ai-daemon-decode/src/main.rs: how the parsers end, as a predicate on results.
use ai_daemon.Prelude.{
  arith, ltb, ◌≤◌, ◌+◌, slice, drop, ℕ, ◌<◌, ◌≡◌, refl, sym, subst, Bool, true, false, some, List,
  get_elem?, get_elem?-lt, length,
}
use ai_daemon.Decoder.{Fault, panicked, out_of_fuel, Result, ok, err, ◌>>=◌, index, sub, sub_from}

-- The faults that are refusals of the input.
abbrev pub is_refusal : Fault → Bool
is_refusal e = elim e [ panicked ↦ false | out_of_fuel ↦ false | _ ↦ true ]

-- The result is one of which `P` holds, or the input is refused; there is no panic, and the fuel
-- is enough.
abbrev pub Gives : {A : Type 0} → (A → Type 0) → Result A → Type 0
Gives P (ok a) = P a
Gives P (err e) = is_refusal e ≡ true

pub Gives-bind :
    {A B : Type 0} (P : A → Type 0) (Q : B → Type 0) (r : Result A) (f : A → Result B)
    → Gives P r
    → ((a : A) → P a → Gives Q (f a))
    → Gives Q (r >>= f)
Gives-bind P Q (ok a) f p k = k a p
Gives-bind P Q (err e) f p k = p

pub Gives-imp :
    {A : Type 0} (P Q : A → Type 0) (r : Result A) → Gives P r → ((a : A) → P a → Q a) → Gives Q r
Gives-imp P Q (ok a) p k = k a p
Gives-imp P Q (err e) p k = p

pub index-some :
    {A : Type 0} (xs : List A) (i : ℕ) (x : A) → get_elem? xs i ≡ some x → index xs i ≡ ok x
index-some xs i x e = rw (e, index) refl

pub index-Gives :
    {A : Type 0} (xs : List A) (i : ℕ)
    → i < length xs
    → Gives (λ x. get_elem? xs i ≡ some x) (index xs i)
index-Gives xs i h =
    let (x, e) = get_elem?-lt xs i h in
    subst (Gives (λ y. get_elem? xs i ≡ some y)) (sym (index-some xs i x e)) e

-- A slice in bounds is the slice.
pub sub-slice :
    {A : Type 0} (start len : ℕ) (xs : List A)
    → start + len ≤ length xs
    → sub start len xs ≡ ok (slice start len xs)
sub-slice start len xs h =
    let within : ltb (length xs) (start + len) ≡ false = ground (arith, h) in rw within refl

pub sub_from-drop :
    {A : Type 0} (start : ℕ) (xs : List A)
    → start ≤ length xs
    → sub_from start xs ≡ ok (drop start xs)
sub_from-drop start xs h =
    let within : ltb (length xs) start ≡ false = ground (arith, h) in rw within refl

pub Gives-both :
    {A : Type 0} (P Q : A → Type 0) (r : Result A)
    → Gives P r
    → Gives Q r
    → Gives (λ a. P a × Q a) r
Gives-both P Q (ok a) p q = (p, q)
Gives-both P Q (err e) p q = p

-- A sequence, where the second part may use what the first returned.
pub Gives-bind_of :
    {A B : Type 0} (P : A → Type 0) (Q : B → Type 0) (r : Result A) (f : A → Result B)
    → Gives P r
    → ((a : A) → r ≡ ok a → P a → Gives Q (f a))
    → Gives Q (r >>= f)
Gives-bind_of P Q (ok a) f p k = k a refl p
Gives-bind_of P Q (err e) f p k = p
