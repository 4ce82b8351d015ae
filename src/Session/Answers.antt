-- ===== src/Session/Answers.antt =====
-- crates/ai-daemon/src/session.rs, `answer_tools`: when a turn resumes.
use ai_daemon.Prelude.{
  ℕ, ◌+◌, ◌≤◌, String, ◌≡◌, refl, sym, ap, append-nil, append_assoc, ◌∙◌, subst, ◌↔◌, inl, inr,
  Bool, true, false, none, some, List, [], ◌∷◌, ◌++◌, map, arith, count, str_eq, if◌then◌else◌,
  str_eq_iff, str_eq_refl, Bool-cases, Option-cases,
}
use Prim.{absurd}
use ai_daemon.Session.{
  ToolResultItem, Worker, no_call_outstanding, turn, remove_first, answer_message, take_one,
  take_answers, is_empty, resume, answer_tools,
}

abbrev pub calls : String → List String → ℕ
calls id = count (λ x. str_eq x id)

abbrev pub answers : String → List ToolResultItem → ℕ
answers id = count (λ (r : ToolResultItem). str_eq r.id id)

remove_first-here :
    (x y : String) (ys : List String) → str_eq y x ≡ true → remove_first x (y ∷ ys) ≡ some ys
unfolding remove_first
remove_first-here x y ys e = rw (e, remove_first)

remove_first-later :
    (x y : String) (ys zs : List String)
    → str_eq y x ≡ false
    → remove_first x ys ≡ some zs
    → remove_first x (y ∷ ys) ≡ some (y ∷ zs)
unfolding remove_first
remove_first-later x y ys zs e h = rw (remove_first, e, h)

remove_first-nowhere :
    (x y : String) (ys : List String)
    → str_eq y x ≡ false
    → remove_first x ys ≡ none
    → remove_first x (y ∷ ys) ≡ none
unfolding remove_first
remove_first-nowhere x y ys e h = rw (remove_first, e, h)

remove_first-empty : (x : String) → remove_first x [] ≡ none
unfolding remove_first
remove_first-empty x = refl

remove_first-some :
    (x id : String) (xs ys : List String)
    → remove_first x xs ≡ some ys
    → calls id xs ≡ calls id ys + (if str_eq x id then 1 else 0)
remove_first-some x id [] ys h = absurd (ground (arith, h, remove_first-empty x))
remove_first-some x id (y ∷ xs) ys h = elim (Bool-cases (str_eq y x)) [
  | inl e ↦
      let same : xs ≡ ys = cc (remove_first-here x y xs e) in
      let name : y ≡ x = (str_eq_iff y x).0 e in
      subst (λ l. calls id (y ∷ xs) ≡ calls id l + (if str_eq x id then 1 else 0)) same
        (subst (λ z. calls id (y ∷ xs) ≡ calls id xs + (if str_eq z id then 1 else 0)) name
          (ground arith))
  | inr e ↦ elim (Option-cases (remove_first x xs)) [
    | inl none_there ↦ absurd (ground (arith, h, remove_first-nowhere x y xs e none_there))
    | inr (zs, found) ↦
        let same : y ∷ zs ≡ ys = cc (remove_first-later x y xs zs e found) in
        subst (λ l. calls id (y ∷ xs) ≡ calls id l + (if str_eq x id then 1 else 0)) same
          (ground (arith, remove_first-some x id xs zs found))
  ]
]

remove_first-none : (x : String) (xs : List String) → remove_first x xs ≡ none → calls x xs ≡ 0
remove_first-none x [] h = refl
remove_first-none x (y ∷ xs) h = elim (Bool-cases (str_eq y x)) [
  | inl e ↦ absurd (ground (arith, h, remove_first-here x y xs e))
  | inr e ↦ elim (Option-cases (remove_first x xs)) [
    | inl nothing ↦ ground (arith, e, remove_first-none x xs nothing)
    | inr (zs, found) ↦ absurd (ground (arith, h, remove_first-later x y xs zs e found))
  ]
]

module _ {P T : Type 0} where
  take_answers-step :
      (r : ToolResultItem) (rs : List ToolResultItem) (s : Worker P T) (rest : List String)
      → remove_first r.id s.pending_tool_calls ≡ some rest
      → take_answers (r ∷ rs) s ≡ take_answers rs (take_one r rest s)
  unfolding take_answers
  take_answers-step r rs s rest e = rw (e, take_answers)

  take_answers-stop :
      (r : ToolResultItem) (rs : List ToolResultItem) (s : Worker P T)
      → remove_first r.id s.pending_tool_calls ≡ none
      → take_answers (r ∷ rs) s ≡ (s, false)
  unfolding take_answers
  take_answers-stop r rs s e = rw (e, take_answers)

  take_answers-empty : (s : Worker P T) → take_answers [] s ≡ (s, true)
  unfolding take_answers
  take_answers-empty s = refl

  -- What is outstanding before is outstanding after or was answered, and the answers stand in the
  -- history in their order.
  record Taken (rs : List ToolResultItem) (s t : Worker P T) : Type 0 where
    pub balance :
        (id : String)
        → calls id s.pending_tool_calls ≡ calls id t.pending_tool_calls + answers id rs
    pub told : t.history ≡ s.history ++ map answer_message rs

  take_answers-Taken :
      (rs : List ToolResultItem) (s : Worker P T)
      → (take_answers rs s).1 ≡ true
      → Taken rs s (take_answers rs s).0
  take_answers-Taken [] s h =
      subst (λ r. Taken [] s r.0) (sym (take_answers-empty s))
        (record { balance = λ id. omega arith; told = sym (append-nil s.history) })
  take_answers-Taken (r ∷ rs) s h = elim (Option-cases (remove_first r.id s.pending_tool_calls)) [
    | inl e ↦ absurd (ground (arith, subst (λ x. x.1 ≡ true) (take_answers-stop r rs s e) h))
    | inr (rest, e) ↦
        let step = take_answers-step r rs s rest e in
        let i = take_answers-Taken rs (take_one r rest s) (subst (λ x. x.1 ≡ true) step h) in
        subst (λ x. Taken (r ∷ rs) s x.0) (sym step)
          (record {
            balance = λ id.
                ground (arith, i.balance id, remove_first-some r.id id s.pending_tool_calls rest e);
            told = i.told ∙ append_assoc s.history (answer_message r ∷ []) (map answer_message rs);
          })
  ]

  enough_calls :
      (rs : List ToolResultItem) (s : Worker P T)
      → ((id : String) → answers id rs ≤ calls id s.pending_tool_calls)
      → (take_answers rs s).1 ≡ true
  enough_calls [] s h = ap (λ x. x.1) (take_answers-empty s)
  enough_calls (r ∷ rs) s h = elim (Option-cases (remove_first r.id s.pending_tool_calls)) [
    | inl e ↦
        absurd
          (ground (arith, h r.id, str_eq_refl r.id, remove_first-none r.id s.pending_tool_calls e))
    | inr (rest, e) ↦
        ap (λ x. x.1) (take_answers-step r rs s rest e)
        ∙ enough_calls rs (take_one r rest s)
            (λ id. ground (arith, h id, remove_first-some r.id id s.pending_tool_calls rest e))
  ]

nothing_left : (xs : List String) → ((id : String) → calls id xs ≡ 0) → is_empty xs ≡ true
nothing_left [] h = refl
nothing_left (x ∷ xs) h = absurd (ground (arith, h x, str_eq_refl x))

calls_of_empty : (xs : List String) (id : String) → is_empty xs ≡ true → calls id xs ≡ 0
calls_of_empty [] id h = refl
calls_of_empty (x ∷ xs) id h = cc

module _ {P T : Type 0} where
  resume-turn :
      (s : Worker P T) (fine : Bool)
      → (resume (s, fine)).1 ≡ turn true ∷ []
      → (fine ≡ true) × (is_empty s.pending_tool_calls ≡ true)
  unfolding resume
  resume-turn s false h = ground arith
  resume-turn s true h = ground arith

  resume_empty :
      (s : Worker P T) (fine : Bool)
      → fine ≡ true
      → is_empty s.pending_tool_calls ≡ true
      → (resume (s, fine)).1 ≡ turn true ∷ []
  unfolding resume
  resume_empty s false f h = cc
  resume_empty s true f h = rw h

  resume_state : (s : Worker P T) (fine : Bool) → (resume (s, fine)).0 ≡ s
  unfolding resume
  resume_state s false = refl
  resume_state s true = refl

  answer_tools_waiting :
      (rs : List ToolResultItem) (s : Worker P T)
      → is_empty s.pending_tool_calls ≡ false
      → answer_tools rs s ≡ resume (take_answers rs s)
  unfolding answer_tools
  answer_tools_waiting rs s e = rw (e, answer_tools)

  answer_tools_idle :
      (rs : List ToolResultItem) (s : Worker P T)
      → is_empty s.pending_tool_calls ≡ true
      → (answer_tools rs s).1 ≡ no_call_outstanding ∷ []
  unfolding answer_tools
  answer_tools_idle rs s e = rw (e, answer_tools)

  -- A turn resumes just when there are calls outstanding and the answers are for each of them,
  -- once for each time it is outstanding, and for nothing else, in any order.
  pub turn_resumes :
      (rs : List ToolResultItem) (s : Worker P T)
      → ((answer_tools rs s).1 ≡ turn true ∷ []) ↔ (
          (is_empty s.pending_tool_calls ≡ false)
          × ((id : String) → calls id s.pending_tool_calls ≡ answers id rs))
  turn_resumes rs s = elim (Bool-cases (is_empty s.pending_tool_calls)) [
    | inl e ↦
        ((λ h. absurd (ground (arith, h, answer_tools_idle rs s e))), (λ h. absurd (ground arith)))
    | inr e ↦
        let waiting = answer_tools_waiting rs s e in
        (
          (λ h.
              let (fine, empty) =
                resume-turn (take_answers rs s).0 (take_answers rs s).1
                  (subst (λ x. x.1 ≡ turn true ∷ []) waiting h) in
              let taken = take_answers-Taken rs s fine in
              (
                e,
                (λ id. omega (
                  arith,
                  taken.balance id,
                  calls_of_empty (take_answers rs s).0.pending_tool_calls id empty,
                )),
              )),
          (λ h.
              let fine = enough_calls rs s (λ id. omega (arith, h.1 id)) in
              let taken = take_answers-Taken rs s fine in
              ap (λ x. x.1) waiting
              ∙ resume_empty (take_answers rs s).0 (take_answers rs s).1 fine (
                  nothing_left (take_answers rs s).0.pending_tool_calls
                    (λ id. omega (arith, h.1 id, taken.balance id)))),
        )
  ]

  -- When a turn resumes, the history is what it was with one tool message for each answer, in
  -- the order of the answers, and nothing is outstanding.
  pub resumed-history :
      (rs : List ToolResultItem) (s : Worker P T)
      → (answer_tools rs s).1 ≡ turn true ∷ []
      → ((answer_tools rs s).0.history ≡ s.history ++ map answer_message rs)
        × (is_empty (answer_tools rs s).0.pending_tool_calls ≡ true)
  resumed-history rs s h =
      let e = ((turn_resumes rs s).0 h).0 in
      let waiting = answer_tools_waiting rs s e in
      let (fine, empty) =
        resume-turn (take_answers rs s).0 (take_answers rs s).1
          (subst (λ x. x.1 ≡ turn true ∷ []) waiting h) in
      let taken = take_answers-Taken rs s fine in
      let after : (answer_tools rs s).0 ≡ (take_answers rs s).0 =
        ap (λ x. x.0) waiting ∙ resume_state (take_answers rs s).0 (take_answers rs s).1 in
      subst
        (λ t.
          (t.history ≡ s.history ++ map answer_message rs) × (is_empty t.pending_tool_calls ≡ true))
        (sym after) (taken.told, empty)
