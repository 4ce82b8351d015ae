-- ===== src/Prelude/Sort.antt =====
-- `slice::sort_by_key`, which is stable, as an insertion sort.
use Prim.Native.Nat.{ℕ, ◌≤◌}
use mathlib.Core.List.{Memᴰ, ◌++◌, map, List, [], ◌∷◌, Perm}
use mathlib.Core.List.Perm
use native.Mathlib.Omega.{arith}
use ai_daemon.Prelude.Tests.{if◌then◌else◌, leb, Bool-cases}
use mathlib.Core.Logic.{inl, inr}
use ai_daemon.Prelude.Lists.{All, Uniq, All-mem, mem-append_right}
use Prim.Native.Nat.{◌+◌}
use mathlib.Core.Path.{◌≡◌, refl, sym, subst}
use Prim.Native.String.{String}
use mathlib.Core.Logic.{◌≢◌}
use ai_daemon.Prelude.Maps.{StrMap, total}

module _ {ℓ} {A : Type ℓ} (key : A → ℕ) where
  pub sort_insert : A → List A → List A
  sort_insert x [] = x ∷ []
  sort_insert x (y ∷ ys) = if leb (key x) (key y) then x ∷ y ∷ ys else y ∷ sort_insert x ys

  unfoldable pub sort_by_key : List A → List A
  unfolding sort_insert
  sort_by_key [] = []
  sort_by_key (x ∷ xs) = sort_insert x (sort_by_key xs)

  -- Each key is at most every later one.
  abbrev pub IsSortedBy : List A → Type 0
  IsSortedBy [] = Unit
  IsSortedBy (x ∷ xs) = All (λ y. key x ≤ key y) xs × IsSortedBy xs

  All-weaken : (m n : ℕ) (xs : List A) → m ≤ n → All (λ y. n ≤ key y) xs → All (λ y. m ≤ key y) xs
  All-weaken m n [] h a = tt
  All-weaken m n (x ∷ xs) h a = (omega arith, All-weaken m n xs h a.1)

  All-sort_insert {κ} :
      (P : A → Type κ) (x : A) (xs : List A) → P x → All P xs → All P (sort_insert x xs)
  unfolding sort_insert
  All-sort_insert P x [] h a = (h, tt)
  All-sort_insert P x (y ∷ ys) h a = elim (Bool-cases (leb (key x) (key y))) [
    | inl e ↦ rw e (h, a)
    | inr e ↦ rw e (a.0, All-sort_insert P x ys h a.1)
  ]

  pub All-sort_by_key {κ} : (P : A → Type κ) (xs : List A) → All P xs → All P (sort_by_key xs)
  unfolding sort_by_key
  All-sort_by_key P [] a = tt
  All-sort_by_key P (x ∷ xs) a = All-sort_insert P x (sort_by_key xs) a.0 (All-sort_by_key P xs a.1)

  sort_insert-IsSortedBy : (x : A) (xs : List A) → IsSortedBy xs → IsSortedBy (sort_insert x xs)
  unfolding sort_insert
  sort_insert-IsSortedBy x [] s = (tt, tt)
  sort_insert-IsSortedBy x (y ∷ ys) s = elim (Bool-cases (leb (key x) (key y))) [
    | inl e ↦ rw e ((ground arith, All-weaken (key x) (key y) ys (ground arith) s.0), s)
    | inr e ↦ rw e (
      All-sort_insert (λ z. key y ≤ key z) x ys (ground arith) s.0,
      sort_insert-IsSortedBy x ys s.1,
    )
  ]

  pub sort_by_key-IsSortedBy : (xs : List A) → IsSortedBy (sort_by_key xs)
  unfolding sort_by_key
  sort_by_key-IsSortedBy [] = tt
  sort_by_key-IsSortedBy (x ∷ xs) =
      sort_insert-IsSortedBy x (sort_by_key xs) (sort_by_key-IsSortedBy xs)

  sort_insert-perm : (x : A) (xs : List A) → Perm (sort_insert x xs) (x ∷ xs)
  unfolding sort_insert
  sort_insert-perm x [] = Perm.refl (x ∷ [])
  sort_insert-perm x (y ∷ ys) = elim (Bool-cases (leb (key x) (key y))) [
    | inl e ↦ rw e (Perm.refl (x ∷ y ∷ ys))
    | inr e ↦ rw e (Perm.trans (Perm.cons y (sort_insert-perm x ys)) (Perm.swap x y ys))
  ]

  pub sort_by_key-perm : (xs : List A) → Perm (sort_by_key xs) xs
  unfolding sort_by_key
  sort_by_key-perm [] = Perm.refl []
  sort_by_key-perm (x ∷ xs) =
      Perm.trans (sort_insert-perm x (sort_by_key xs)) (Perm.cons x (sort_by_key-perm xs))

  All-ne-sort_insert {κ} :
      {B : Type κ} (f : A → B) (b : B) (x : A) (xs : List A)
      → f x ≢ b
      → All (λ y. y ≢ b) (map f xs)
      → All (λ y. y ≢ b) (map f (sort_insert x xs))
  unfolding sort_insert
  All-ne-sort_insert f b x [] h a = (h, tt)
  All-ne-sort_insert f b x (y ∷ ys) h a = elim (Bool-cases (leb (key x) (key y))) [
    | inl e ↦ rw e (h, a)
    | inr e ↦ rw e (a.0, All-ne-sort_insert f b x ys h a.1)
  ]

  Uniq-sort_insert {κ} :
      {B : Type κ} (f : A → B) (x : A) (xs : List A)
      → All (λ y. y ≢ f x) (map f xs)
      → Uniq (map f xs)
      → Uniq (map f (sort_insert x xs))
  unfolding sort_insert
  Uniq-sort_insert f x [] a u = (tt, tt)
  Uniq-sort_insert f x (y ∷ ys) a u = elim (Bool-cases (leb (key x) (key y))) [
    | inl e ↦ rw e (a, u)
    | inr e ↦
        rw e
          (All-ne-sort_insert f (f y) x ys (λ p. a.0 (sym p)) u.0, Uniq-sort_insert f x ys a.1 u.1)
  ]

  All-ne-sort_by_key {κ} :
      {B : Type κ} (f : A → B) (b : B) (xs : List A)
      → All (λ y. y ≢ b) (map f xs)
      → All (λ y. y ≢ b) (map f (sort_by_key xs))
  unfolding sort_by_key
  All-ne-sort_by_key f b [] a = tt
  All-ne-sort_by_key f b (x ∷ xs) a =
      All-ne-sort_insert f b x (sort_by_key xs) a.0 (All-ne-sort_by_key f b xs a.1)

  pub Uniq-sort_by_key {κ} :
      {B : Type κ} (f : A → B) (xs : List A) → Uniq (map f xs) → Uniq (map f (sort_by_key xs))
  unfolding sort_by_key
  Uniq-sort_by_key f [] u = tt
  Uniq-sort_by_key f (x ∷ xs) u =
      Uniq-sort_insert f x (sort_by_key xs) (All-ne-sort_by_key f (f x) xs u.0)
        (Uniq-sort_by_key f xs u.1)

  mem-sort_insert_head : (x : A) (xs : List A) → Memᴰ x (sort_insert x xs)
  unfolding sort_insert
  mem-sort_insert_head x [] = Memᴰ.head refl
  mem-sort_insert_head x (y ∷ ys) = elim (Bool-cases (leb (key x) (key y))) [
    | inl e ↦ rw e (Memᴰ.head refl)
    | inr e ↦ rw e (Memᴰ.tail (mem-sort_insert_head x ys))
  ]

  mem-sort_insert_tail : (x z : A) (xs : List A) → Memᴰ z xs → Memᴰ z (sort_insert x xs)
  unfolding sort_insert
  mem-sort_insert_tail x z [] m = elim m [ ]
  mem-sort_insert_tail x z (y ∷ ys) (Memᴰ.head p) = elim (Bool-cases (leb (key x) (key y))) [
    | inl e ↦ rw e (Memᴰ.tail (Memᴰ.head p))
    | inr e ↦ rw e (Memᴰ.head p)
  ]
  mem-sort_insert_tail x z (y ∷ ys) (Memᴰ.tail m) = elim (Bool-cases (leb (key x) (key y))) [
    | inl e ↦ rw e (Memᴰ.tail (Memᴰ.tail m))
    | inr e ↦ rw e (Memᴰ.tail (mem-sort_insert_tail x z ys m))
  ]

  pub mem-sort_by_key : {z : A} (xs : List A) → Memᴰ z xs → Memᴰ z (sort_by_key xs)
  unfolding sort_by_key
  mem-sort_by_key [] m = elim m [ ]
  mem-sort_by_key {z} (x ∷ xs) (Memᴰ.head p) =
      subst (λ y. Memᴰ y (sort_insert x (sort_by_key xs))) (sym p)
        (mem-sort_insert_head x (sort_by_key xs))
  mem-sort_by_key {z} (x ∷ xs) (Memᴰ.tail m) =
      mem-sort_insert_tail x z (sort_by_key xs) (mem-sort_by_key xs m)

  -- In a sorted list an earlier part never exceeds a later one.
  pub IsSortedBy-split :
      {x y : A} (xs ys : List A) → IsSortedBy (xs ++ ys) → Memᴰ x xs → Memᴰ y ys → key x ≤ key y
  IsSortedBy-split [] ys s m n = elim m [ ]
  IsSortedBy-split {x} {y} (z ∷ zs) ys s (Memᴰ.head e) n =
      subst (λ w. key w ≤ key y) (sym e)
        (All-mem (λ w. key z ≤ key w) (zs ++ ys) s.0 (mem-append_right zs ys n))
  IsSortedBy-split (z ∷ zs) ys s (Memᴰ.tail m) n = IsSortedBy-split zs ys s.1 m n

module _ {ℓ} {V : Type ℓ} (key : String × V → ℕ) (w : V → ℕ) where
  total-sort_insert :
      (x : String × V) (xs : StrMap V) → total w (sort_insert key x xs) ≡ w x.1 + total w xs
  unfolding sort_insert
  total-sort_insert x [] = refl
  total-sort_insert x (y ∷ ys) = ground (arith, total-sort_insert x ys)

  pub total-sort_by_key : (xs : StrMap V) → total w (sort_by_key key xs) ≡ total w xs
  unfolding sort_by_key
  total-sort_by_key [] = refl
  total-sort_by_key (x ∷ xs) =
      omega (arith, total-sort_insert x (sort_by_key key xs), total-sort_by_key xs)
