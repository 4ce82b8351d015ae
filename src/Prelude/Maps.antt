-- ===== src/Prelude/Maps.antt =====
-- A `HashMap<String, V>` as an association list. The order of the list stands for the order in
-- which the map happens to iterate; theorems hold for every list, so for every such order.
use Prim.Native.Nat.{ℕ, ◌+◌, ◌≤◌}
use Prim.Native.String.{String}
use mathlib.Core.Path.{◌≡◌, refl}
use mathlib.Core.Logic.{◌≢◌, inl, inr}
use mathlib.Core.Bool.{Bool, true}
use mathlib.Core.Option.{Option, none, some}
use mathlib.Core.List.{Memᴰ, List, [], ◌∷◌}
use native.Mathlib.Omega.{arith}
use ai_daemon.Prelude.Lists.{All, All-imp, Uniq, filter}
use mathlib.Core.List.{map, ◌++◌}
use ai_daemon.Prelude.Tests.{if◌then◌else◌, str_eq, str_eq_iff, Bool-cases}

abbrev pub StrMap {ℓ} : Type ℓ → Type ℓ
StrMap V = List (String × V)

module _ {ℓ} {V : Type ℓ} where
  unfoldable pub get : String → StrMap V → Option V
  get k [] = none
  get k ((j, v) ∷ m) = if str_eq j k then some v else get k m

  unfoldable pub insert : String → V → StrMap V → StrMap V
  insert k v [] = (k, v) ∷ []
  insert k v ((j, w) ∷ m) = if str_eq j k then (k, v) ∷ m else (j, w) ∷ insert k v m

  unfoldable pub remove : String → StrMap V → StrMap V
  remove k [] = []
  remove k ((j, w) ∷ m) = if str_eq j k then m else (j, w) ∷ remove k m

  -- No key stands twice, which every `HashMap` guarantees.
  abbrev pub Distinct : StrMap V → Type ℓ
  Distinct [] = Unit
  Distinct ((k, v) ∷ m) = (get k m ≡ none) × Distinct m

  -- The sum of a measure over the values.
  abbrev pub total : (V → ℕ) → StrMap V → ℕ
  total w [] = 0
  total w ((k, v) ∷ m) = w v + total w m

  abbrev pub weight : (V → ℕ) → Option V → ℕ
  weight w none = 0
  weight w (some v) = w v

  pub get-insert :
      (k j : String) (v : V) (m : StrMap V)
      → get j (insert k v m) ≡ (if str_eq k j then some v else get j m)
  unfolding get insert
  get-insert k j v [] = refl
  get-insert k j v ((i, w) ∷ m) =
      ground (arith, str_eq_iff k j, str_eq_iff i k, str_eq_iff i j, get-insert k j v m)

  pub get-remove_ne : (k j : String) (m : StrMap V) → k ≢ j → get j (remove k m) ≡ get j m
  unfolding get remove
  get-remove_ne k j [] h = refl
  get-remove_ne k j ((i, w) ∷ m) h =
      ground (arith, str_eq_iff i k, str_eq_iff i j, get-remove_ne k j m h)

  pub get-remove_self : (k : String) (m : StrMap V) → Distinct m → get k (remove k m) ≡ none
  unfolding get remove
  get-remove_self k [] d = refl
  get-remove_self k ((i, w) ∷ m) d = ground (arith, str_eq_iff i k, get-remove_self k m d.1)

  pub remove-Distinct : (k : String) (m : StrMap V) → Distinct m → Distinct (remove k m)
  unfolding remove
  remove-Distinct k [] d = tt
  remove-Distinct k ((i, w) ∷ m) d =
      ground (arith, str_eq_iff i k, remove-Distinct k m d.1, get-remove_ne k i m)

  pub insert-Distinct : (k : String) (v : V) (m : StrMap V) → Distinct m → Distinct (insert k v m)
  unfolding insert get
  insert-Distinct k v [] d = (refl, tt)
  insert-Distinct k v ((i, w) ∷ m) d =
      ground (arith, str_eq_iff i k, str_eq_iff k i, insert-Distinct k v m d.1, get-insert k i v m)

  pub total-insert :
      (f : V → ℕ) (k : String) (v : V) (m : StrMap V)
      → total f (insert k v m) + weight f (get k m) ≡ total f m + f v
  unfolding insert get
  total-insert f k v [] = omega arith
  total-insert f k v ((i, w) ∷ m) = ground (arith, total-insert f k v m)

  pub total-remove :
      (f : V → ℕ) (k : String) (m : StrMap V)
      → total f (remove k m) + weight f (get k m) ≡ total f m
  unfolding remove get
  total-remove f k [] = omega arith
  total-remove f k ((i, w) ∷ m) = ground (arith, total-remove f k m)

  pub weight-le-total : (f : V → ℕ) (k : String) (m : StrMap V) → weight f (get k m) ≤ total f m
  weight-le-total f k m = omega (arith, total-remove f k m)

  -- In a map each entry is found under its key.
  pub All-get : (m : StrMap V) → Distinct m → All (λ e. get e.0 m ≡ some e.1) m
  unfolding get
  All-get [] d = tt
  All-get ((k, v) ∷ m) d = (
    ground (arith, str_eq_iff k k),
    All-imp (λ e. get e.0 m ≡ some e.1)
        (λ e. (if str_eq k e.0 then some v else get e.0 m) ≡ some e.1) m
        (λ e h. ground (arith, str_eq_iff k e.0)) (All-get m d.1),
  )

  pub keys_ne : (k : String) (m : StrMap V) → get k m ≡ none → All (λ j. j ≢ k) (map (λ e. e.0) m)
  unfolding get
  keys_ne k [] h = tt
  keys_ne k ((j, v) ∷ m) h = (ground (arith, str_eq_iff j k), keys_ne k m (ground arith))

  pub Distinct-Uniq : (m : StrMap V) → Distinct m → Uniq (map (λ e. e.0) m)
  Distinct-Uniq [] d = tt
  Distinct-Uniq ((k, v) ∷ m) d = (keys_ne k m d.0, Distinct-Uniq m d.1)

  pub total-append : (f : V → ℕ) (xs ys : StrMap V) → total f (xs ++ ys) ≡ total f xs + total f ys
  total-append f [] ys = omega arith
  total-append f (x ∷ xs) ys = omega (arith, total-append f xs ys)

  -- Two filters that no entry passes both of take at most the whole.
  pub total-filters :
      (f : V → ℕ) (p q : String × V → Bool) (m : StrMap V)
      → ((e : String × V) → p e ≡ true → q e ≡ true → ⊥)
      → total f (filter p m) + total f (filter q m) ≤ total f m
  total-filters f p q [] h = omega arith
  total-filters f p q (e ∷ m) h = ground (arith, total-filters f p q m h, h e)

  -- What is found under a key stands in the map.
  pub get-mem : (k : String) (v : V) (m : StrMap V) → get k m ≡ some v → Memᴰ (k, v) m
  unfolding get
  get-mem k v [] h = cc
  get-mem k v ((j, w) ∷ m) h = elim (Bool-cases (str_eq j k)) [
    | inl e ↦
        let found : some w ≡ some v = rw e at h in
        let value : w ≡ v = cc found in
        let name : j ≡ k = (str_eq_iff j k).0 e in Memᴰ.head (cc (value, name))
    | inr e ↦ let later : get k m ≡ some v = rw e at h in Memᴰ.tail (get-mem k v m later)
  ]
