-- ===== src/Audit/Tamper.antt =====
-- crates/ai-daemon/src/audit.rs, `verify`: what an accepted file says about the lines before a
-- record.
use ai_daemon.Prelude.{
  ℕ, ◌+◌, String, ◌≡◌, refl, sym, ap, ap₂, ◌∙◌, subst, ◌≢◌, ◌⊎◌, inl, inr, true, false, Option,
  none, some, List, [], ◌∷◌, ◌++◌, arith, str_eq, if◌then◌else◌, str_eq_iff, Bool-cases,
  Option-cases, is_blank,
}
use ai_daemon.Audit.{
  Break, Progress, going, stopped, check_link, step_record, step_line, walk, verify, all_lines,
  not_a_record,
}
use Prim.{⊥, Unit, absurd}

-- The records of a file, the last one first, on top of those of `acc`.
abbrev pub records : List String → List String → List String
records acc [] = acc
records acc (l ∷ ls) = if is_blank l then records acc ls else records (l ∷ acc) ls

module _ (hash_line : String → String) (carried : String → Option (Option String)) where
  -- Two lines that differ and have one hash.
  abbrev pub Collision : Type 0
  Collision = (a : String) × (b : String) × (a ≢ b) × (hash_line a ≡ hash_line b)

  abbrev top : List String → Option String
  top [] = none
  top (x ∷ xs) = some (hash_line x)

  -- Each record carries the hash of the one below it.
  abbrev Linked : List String → Type 0
  Linked [] = Unit
  Linked (x ∷ xs) = (carried x ≡ some (top xs)) × Linked xs

  check_link_same : (a b : Option String) → check_link a b ≡ none → a ≡ b
  unfolding check_link
  check_link_same none none h = refl
  check_link_same none (some b) h = cc
  check_link_same (some a) none h = cc
  check_link_same (some a) (some b) h = elim (Bool-cases (str_eq a b)) [
    | inl e ↦ ap some ((str_eq_iff a b).0 e)
    | inr e ↦ ground arith
  ]

  abbrev Ran : Progress → Type 0
  Ran (going e c n) = Unit
  Ran (stopped n why) = ⊥

  walk_stopped :
      (ls : List String) (n : ℕ) (why : Break) → Ran (walk hash_line carried ls (stopped n why)) → ⊥
  unfolding walk step_line
  walk_stopped [] n why h = h
  walk_stopped (l ∷ ls) n why h = walk_stopped ls n why h

  step_blank :
      (l : String) (e : Option String) (c n : ℕ)
      → is_blank l ≡ true
      → step_line hash_line carried l (going e c n) ≡ going e c (n + 1)
  unfolding step_line
  step_blank l e c n b = rw (b, step_line)

  step_filled :
      (l : String) (e : Option String) (c n : ℕ) (prev : Option String)
      → is_blank l ≡ false
      → carried l ≡ some prev
      → step_line hash_line carried l (going e c n) ≡ step_record hash_line carried l e c n prev
  unfolding step_line
  step_filled l e c n prev b h = rw (b, h, step_line)

  step_garbage :
      (l : String) (e : Option String) (c n : ℕ)
      → is_blank l ≡ false
      → carried l ≡ none
      → step_line hash_line carried l (going e c n) ≡ stopped n not_a_record
  unfolding step_line
  step_garbage l e c n b h = rw (b, h, step_line)

  step_linked :
      (l : String) (e : Option String) (c n : ℕ) (prev : Option String)
      → check_link e prev ≡ none
      → step_record hash_line carried l e c n prev ≡ going (some (hash_line l)) (c + 1) (n + 1)
  unfolding step_record
  step_linked l e c n prev h = rw (h, step_record)

  step_broken :
      (l : String) (e : Option String) (c n : ℕ) (prev : Option String) (why : Break)
      → check_link e prev ≡ some why
      → step_record hash_line carried l e c n prev ≡ stopped n why
  unfolding step_record
  step_broken l e c n prev why h = rw (h, step_record)

  abbrev RanOn : List String → Progress → Type 0
  RanOn ls p = Ran (walk hash_line carried ls p)

  records_blank :
      (l : String) (ls acc : List String)
      → is_blank l ≡ true
      → records acc (l ∷ ls) ≡ records acc ls
  records_blank l ls acc b = rw b

  records_filled :
      (l : String) (ls acc : List String)
      → is_blank l ≡ false
      → records acc (l ∷ ls) ≡ records (l ∷ acc) ls
  records_filled l ls acc b = rw b

  walk-Linked :
      (ls acc : List String) (c n : ℕ)
      → Linked acc
      → RanOn ls (going (top acc) c n)
      → Linked (records acc ls)
  unfolding walk
  walk-Linked [] acc c n linked ran = linked
  walk-Linked (l ∷ ls) acc c n linked ran = elim (Bool-cases (is_blank l)) [
    | inl b ↦
        rw (records_blank l ls acc b) (
          walk-Linked ls acc c (n + 1) linked (subst (RanOn ls) (step_blank l (top acc) c n b) ran))
    | inr b ↦ elim (Option-cases (carried l)) [
      | inl h ↦
          absurd (
            walk_stopped ls n not_a_record
              (subst (RanOn ls) (step_garbage l (top acc) c n b h) ran))
      | inr (prev, h) ↦
          let ran' = subst (RanOn ls) (step_filled l (top acc) c n prev b h) ran in
          elim (Option-cases (check_link (top acc) prev)) [
            | inl ok ↦ rw (records_filled l ls acc b) (
                walk-Linked ls (l ∷ acc) (c + 1) (n + 1)
                  (h ∙ ap some (sym (check_link_same (top acc) prev ok)), linked)
                  (subst (RanOn ls) (step_linked l (top acc) c n prev ok) ran'))
            | inr (why, bad) ↦ absurd (
                walk_stopped ls n why
                  (subst (RanOn ls) (step_broken l (top acc) c n prev why bad) ran'))
          ]
    ]
  ]

  records-append : (p q acc : List String) → records acc (p ++ q) ≡ records (records acc p) q
  records-append [] q acc = refl
  records-append (l ∷ p) q acc = elim (Bool-cases (is_blank l)) [
    | inl b ↦ rw b (records-append p q acc)
    | inr b ↦ rw b (records-append p q (l ∷ acc))
  ]

  Linked-below : (q acc : List String) → Linked (records acc q) → Linked acc
  Linked-below [] acc h = h
  Linked-below (l ∷ q) acc h = elim (Bool-cases (is_blank l)) [
    | inl b ↦ Linked-below q acc (subst Linked (records_blank l q acc b) h)
    | inr b ↦ (Linked-below q (l ∷ acc) (subst Linked (records_filled l q acc b) h)).1
  ]

  some-top :
      (xs ys : List String) (x y : String)
      → carried x ≡ some (top xs)
      → carried y ≡ some (top ys)
      → x ≡ y
      → top xs ≡ top ys
  some-top xs ys x y a b same = cc

  -- From one hash downwards two chains are the same chain, or the hash has a collision.
  Linked-unique :
      (xs ys : List String) → Linked xs → Linked ys → top xs ≡ top ys → (xs ≡ ys) ⊎ Collision
  Linked-unique [] [] a b h = inl refl
  Linked-unique [] (y ∷ ys) a b h = cc
  Linked-unique (x ∷ xs) [] a b h = cc
  Linked-unique (x ∷ xs) (y ∷ ys) a b h =
      let same_hash : hash_line x ≡ hash_line y = cc in
      elim (Bool-cases (str_eq x y)) [
        | inl e ↦
            let same : x ≡ y = (str_eq_iff x y).0 e in
            let below : top xs ≡ top ys = some-top xs ys x y a.0 b.0 same in
            elim (Linked-unique xs ys a.1 b.1 below) [
              | inl rest ↦ inl (ap₂ (λ u v. u ∷ v) same rest)
              | inr bad ↦ inr bad
            ]
        | inr e ↦ inr (x, y, (λ same. ground (arith, e, (str_eq_iff x y).1 same)), same_hash)
      ]

  accepted-Linked :
      (p q : List String) (y : String) (e : Option String) (c n : ℕ)
      → is_blank y ≡ false
      → walk hash_line carried (p ++ (y ∷ q)) (going none 0 1) ≡ going e c n
      → Linked (y ∷ records [] p)
  accepted-Linked p q y e c n filled_y ok =
      let ran : RanOn (p ++ (y ∷ q)) (going none 0 1) = subst Ran (sym ok) tt in
      let whole = walk-Linked (p ++ (y ∷ q)) [] 0 1 tt ran in
      Linked-below q (y ∷ records [] p) (
        subst Linked (records-append p (y ∷ q) [] ∙ records_filled y q (records [] p) filled_y)
          whole)

  -- A record vouches for everything before it. Where two files are accepted and a record `y`
  -- stands in both, whatever follows it there, the records before it are the same in both, in
  -- number, content and order; or two different lines with the same hash are at hand. The files
  -- have no partial last line.
  pub history_fixed :
      (p p' q q' : List String) (y : String) (e e' : Option String) (c c' n n' : ℕ)
      → is_blank y ≡ false
      → verify hash_line carried (p ++ (y ∷ q)) "" ≡ going e c n
      → verify hash_line carried (p' ++ (y ∷ q')) "" ≡ going e' c' n'
      → (records [] p ≡ records [] p') ⊎ Collision
  unfolding verify all_lines
  history_fixed p p' q q' y e e' c c' n n' filled_y ok ok' =
      let one = accepted-Linked p q y e c n filled_y ok in
      let two = accepted-Linked p' q' y e' c' n' filled_y ok' in
      Linked-unique (records [] p) (records [] p') one.1 two.1
        (some-top (records [] p) (records [] p') y y one.0 two.0 refl)
