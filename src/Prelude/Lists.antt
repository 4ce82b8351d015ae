-- ===== src/Prelude/Lists.antt =====
-- Lists: Rust's iterator adaptors over Boolean tests, lengths in native numbers, and the
-- predicates by which theorems speak of every element and of some element.
use Prim.Native.Nat.{ℕ, suc}
use mathlib.Core.Bool.{Bool, true, false, ◌&&◌, ◌||◌}
use mathlib.Core.Option.{Option, none, some}
use mathlib.Core.Logic.{◌≢◌, ◌⊎◌}
use mathlib.Core.List.{map, List, [], ◌∷◌, ◌++◌, Memᴰ}
use mathlib.Core.Path.{refl, ◌≡◌, subst, sym, ap}
use mathlib.Core.Logic.{inl, inr}
use Prim.Native.Nat.{◌+◌, ◌≤◌}
use native.Mathlib.Omega.{arith}
use ai_daemon.Prelude.Tests.{if◌then◌else◌, Bool-cases, and_true}

module _ {ℓ} {A : Type ℓ} where
  abbrev pub length : List A → ℕ
  length [] = 0
  length (x ∷ xs) = suc (length xs)

  abbrev pub any : (A → Bool) → List A → Bool
  any p [] = false
  any p (x ∷ xs) = p x || any p xs

  abbrev pub all : (A → Bool) → List A → Bool
  all p [] = true
  all p (x ∷ xs) = p x && all p xs

  abbrev pub filter : (A → Bool) → List A → List A
  filter p [] = []
  filter p (x ∷ xs) = let rest = filter p xs in if p x then x ∷ rest else rest

  abbrev pub find : (A → Bool) → List A → Option A
  find p [] = none
  find p (x ∷ xs) = if p x then some x else find p xs

  abbrev pub count : (A → Bool) → List A → ℕ
  count p xs = length (filter p xs)

  -- Every element satisfies `P`.
  abbrev pub All {κ} : (A → Type κ) → List A → Type κ
  All P [] = Unit
  All P (x ∷ xs) = P x × All P xs

module _ {ℓ} {A : Type ℓ} where
  pub All-mem {κ} : (P : A → Type κ) {x : A} (xs : List A) → All P xs → Memᴰ x xs → P x
  All-mem P [] a m = elim m [ ]
  All-mem P (y ∷ ys) a (Memᴰ.head e) = subst P (sym e) a.0
  All-mem P (y ∷ ys) a (Memᴰ.tail m) = All-mem P ys a.1 m

  pub all-mem : (p : A → Bool) {x : A} (xs : List A) → all p xs ≡ true → Memᴰ x xs → p x ≡ true
  all-mem p [] h m = elim m [ ]
  all-mem p (y ∷ ys) h (Memᴰ.head e) = rw e (and_true (p y) (all p ys) h).0
  all-mem p (y ∷ ys) h (Memᴰ.tail m) = all-mem p ys (and_true (p y) (all p ys) h).1 m

  -- What `find` returns passes the test and stands in the list.
  pub find-mem :
      (p : A → Bool) (xs : List A) {x : A} → find p xs ≡ some x → (p x ≡ true) × Memᴰ x xs
  find-mem p [] h = cc
  find-mem p (y ∷ ys) {x} h = elim (Bool-cases (p y)) [
    | inl e ↦
        let found : some y ≡ some x = rw e at h in
        let same : y ≡ x = cc found in (subst (λ z. p z ≡ true) same e, Memᴰ.head (sym same))
    | inr e ↦
        let found : find p ys ≡ some x = rw e at h in
        let rest = find-mem p ys found in (rest.0, Memᴰ.tail rest.1)
  ]

  pub mem-append_left : {x : A} (xs ys : List A) → Memᴰ x xs → Memᴰ x (xs ++ ys)
  mem-append_left xs ys (Memᴰ.head e) = Memᴰ.head e
  mem-append_left (z ∷ zs) ys (Memᴰ.tail m) = Memᴰ.tail (mem-append_left zs ys m)

  pub mem-append_right : {x : A} (xs ys : List A) → Memᴰ x ys → Memᴰ x (xs ++ ys)
  mem-append_right [] ys m = m
  mem-append_right (z ∷ zs) ys m = Memᴰ.tail (mem-append_right zs ys m)

  pub All-append {κ} : (P : A → Type κ) (xs ys : List A) → All P xs → All P ys → All P (xs ++ ys)
  All-append P [] ys a b = b
  All-append P (x ∷ xs) ys a b = (a.0, All-append P xs ys a.1 b)

  pub All-append_left {κ} : (P : A → Type κ) (xs ys : List A) → All P (xs ++ ys) → All P xs
  All-append_left P [] ys a = tt
  All-append_left P (x ∷ xs) ys a = (a.0, All-append_left P xs ys a.1)

  pub All-append_right {κ} : (P : A → Type κ) (xs ys : List A) → All P (xs ++ ys) → All P ys
  All-append_right P [] ys a = a
  All-append_right P (x ∷ xs) ys a = All-append_right P xs ys a.1

  -- What a filter keeps passes its test.
  pub All-filter_test : (p : A → Bool) (xs : List A) → All (λ x. p x ≡ true) (filter p xs)
  All-filter_test p [] = tt
  All-filter_test p (x ∷ xs) = elim (Bool-cases (p x)) [
    | inl e ↦ rw e (e, All-filter_test p xs)
    | inr e ↦ rw e (All-filter_test p xs)
  ]

  pub All-both {κ μ} :
      (P : A → Type κ) (Q : A → Type μ) (xs : List A)
      → All P xs
      → All Q xs
      → All (λ x. P x × Q x) xs
  All-both P Q [] a b = tt
  All-both P Q (x ∷ xs) a b = ((a.0, b.0), All-both P Q xs a.1 b.1)

  pub All-filter {κ} :
      (P : A → Type κ) (p : A → Bool) (xs : List A) → All P xs → All P (filter p xs)
  All-filter P p [] a = tt
  All-filter P p (x ∷ xs) a = elim (Bool-cases (p x)) [
    | inl e ↦ rw e (a.0, All-filter P p xs a.1)
    | inr e ↦ rw e (All-filter P p xs a.1)
  ]

  pub length-append : (xs ys : List A) → length (xs ++ ys) ≡ length xs + length ys
  length-append [] ys = omega arith
  length-append (x ∷ xs) ys = omega (arith, length-append xs ys)

  pub count-append : (p : A → Bool) (xs ys : List A) → count p (xs ++ ys) ≡ count p xs + count p ys
  count-append p [] ys = omega arith
  count-append p (x ∷ xs) ys = ground (arith, count-append p xs ys)

  pub count-filter-le : (p q : A → Bool) (xs : List A) → count p (filter q xs) ≤ count p xs
  count-filter-le p q [] = omega arith
  count-filter-le p q (x ∷ xs) = ground (arith, count-filter-le p q xs)

  pub mem-map {κ} :
      {B : Type κ} (f : A → B) {x : A} (xs : List A) → Memᴰ x xs → Memᴰ (f x) (map f xs)
  mem-map f [] m = elim m [ ]
  mem-map f (y ∷ ys) (Memᴰ.head e) = Memᴰ.head (ap f e)
  mem-map f (y ∷ ys) (Memᴰ.tail m) = Memᴰ.tail (mem-map f ys m)

  pub map-append_one {κ} :
      {B : Type κ} (f : A → B) (xs : List A) (y : A) → map f (xs ++ y ∷ []) ≡ map f xs ++ f y ∷ []
  map-append_one f [] y = refl
  map-append_one f (x ∷ xs) y = ap (◌∷◌ (f x)) (map-append_one f xs y)

module _ {ℓ} {A : Type ℓ} where
  -- No element stands twice.
  abbrev pub Uniq : List A → Type ℓ
  Uniq [] = Unit
  Uniq (x ∷ xs) = All (λ y. y ≢ x) xs × Uniq xs

  pub Uniq-filter : (p : A → Bool) (xs : List A) → Uniq xs → Uniq (filter p xs)
  Uniq-filter p [] u = tt
  Uniq-filter p (x ∷ xs) u = elim (Bool-cases (p x)) [
    | inl e ↦ rw e (All-filter (λ y. y ≢ x) p xs u.0, Uniq-filter p xs u.1)
    | inr e ↦ rw e (Uniq-filter p xs u.1)
  ]

  pub Uniq-append :
      (xs ys : List A) → Uniq xs → Uniq ys → All (λ x. All (λ y. y ≢ x) ys) xs → Uniq (xs ++ ys)
  Uniq-append [] ys u v a = v
  Uniq-append (x ∷ xs) ys u v a =
      (All-append (λ z. z ≢ x) xs ys u.0 a.0, Uniq-append xs ys u.1 v a.1)

  pub Uniq-append_left : (xs ys : List A) → Uniq (xs ++ ys) → Uniq xs
  Uniq-append_left [] ys u = tt
  Uniq-append_left (x ∷ xs) ys u =
      (All-append_left (λ y. y ≢ x) xs ys u.0, Uniq-append_left xs ys u.1)

  pub Uniq-append_one : (x : A) (xs : List A) → All (λ y. y ≢ x) xs → Uniq xs → Uniq (xs ++ x ∷ [])
  Uniq-append_one x [] a u = (tt, tt)
  Uniq-append_one x (y ∷ ys) a u = (
    All-append (λ z. z ≢ y) ys (x ∷ []) u.0 ((λ e. a.0 (sym e)), tt),
    Uniq-append_one x ys a.1 u.1,
  )

-- Pointwise consequence.
pub All-imp {ℓ κ μ} :
    {A : Type ℓ} (P : A → Type κ) (Q : A → Type μ) (xs : List A)
    → ((x : A) → P x → Q x)
    → All P xs
    → All Q xs
All-imp P Q [] f a = tt
All-imp P Q (x ∷ xs) f a = (f x a.0, All-imp P Q xs f a.1)

module _ {ℓ} {A : Type ℓ} where
  pub mem-filter :
      (p : A → Bool) {x : A} (xs : List A) → Memᴰ x xs → p x ≡ true → Memᴰ x (filter p xs)
  mem-filter p [] m h = elim m [ ]
  mem-filter p (y ∷ ys) (Memᴰ.head e) h =
      let here : p y ≡ true = subst (λ z. p z ≡ true) e h in rw here (Memᴰ.head e)
  mem-filter p (y ∷ ys) (Memᴰ.tail m) h = elim (Bool-cases (p y)) [
    | inl e ↦ rw e (Memᴰ.tail (mem-filter p ys m h))
    | inr e ↦ rw e (mem-filter p ys m h)
  ]

  pub mem-append_cases : {x : A} (xs ys : List A) → Memᴰ x (xs ++ ys) → Memᴰ x xs ⊎ Memᴰ x ys
  mem-append_cases [] ys m = inr m
  mem-append_cases (z ∷ zs) ys (Memᴰ.head e) = inl (Memᴰ.head e)
  mem-append_cases (z ∷ zs) ys (Memᴰ.tail m) = elim (mem-append_cases zs ys m) [
    | inl k ↦ inl (Memᴰ.tail k)
    | inr k ↦ inr k
  ]

  pub mem-of_map {κ} :
      {B : Type κ} (f : A → B) {b : B} (xs : List A)
      → Memᴰ b (map f xs)
      → (x : A) × Memᴰ x xs × (b ≡ f x)
  mem-of_map f [] m = elim m [ ]
  mem-of_map f (y ∷ ys) (Memᴰ.head e) = (y, Memᴰ.head refl, e)
  mem-of_map f (y ∷ ys) (Memᴰ.tail m) = let (x, k, e) = mem-of_map f ys m in (x, Memᴰ.tail k, e)

  pub not-mem_nil {κ} : {P : Type κ} {x : A} {xs : List A} → xs ≡ [] → Memᴰ x xs → P
  not-mem_nil {P} {x} {xs} e m = none_in (subst (Memᴰ x) e m)
    where
      none_in : Memᴰ x [] → P
      none_in k = elim k [ ]
