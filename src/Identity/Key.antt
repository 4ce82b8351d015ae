-- ===== src/Identity/Key.antt =====
-- crates/ai-daemon/src/identity.rs, `Identity::key` and `Identity::display`. How a number is
-- written is an argument.
use ai_daemon.Prelude.{
  ℕ, ◌≡◌, refl, sym, ap, ◌∙◌, inl, inr, Bool, true, false, Option, none, some, [], ◌∷◌, ◌++◌, ◌==◌,
  if◌then◌else◌, Option-cases,
}
use ai_daemon.Identity.{Text}

-- The source's `Class`.
pub data Trust : Type 0 where
  portal native shim : Trust

pub record Caller : Type 0 where
  pub trust : Trust
  pub uid : ℕ
  pub pid : ℕ
  pub unit : Option Text
  pub app_id : Option Text
  pub exe : Option Text
  pub client : Option Text
  pub attested : Bool

-- "portal:", "unit:", "exe:", "uid:", "shim:", "unknown" and "@".
abbrev portal_colon : Text
portal_colon = 112 ∷ 111 ∷ 114 ∷ 116 ∷ 97 ∷ 108 ∷ 58 ∷ []

abbrev unit_colon : Text
unit_colon = 117 ∷ 110 ∷ 105 ∷ 116 ∷ 58 ∷ []

abbrev exe_colon : Text
exe_colon = 101 ∷ 120 ∷ 101 ∷ 58 ∷ []

abbrev uid_colon : Text
uid_colon = 117 ∷ 105 ∷ 100 ∷ 58 ∷ []

abbrev shim_colon : Text
shim_colon = 115 ∷ 104 ∷ 105 ∷ 109 ∷ 58 ∷ []

abbrev unknown : Text
unknown = 117 ∷ 110 ∷ 107 ∷ 110 ∷ 111 ∷ 119 ∷ 110 ∷ []

abbrev or_text : Option Text → Text → Text
or_text none t = t
or_text (some s) t = s

module _ (decimal : ℕ → Text) where
  abbrev at_uid : Caller → Text
  at_uid c = 64 ∷ decimal c.uid

  unfoldable pub native_key : Caller → Text
  native_key c = elim c.unit [
    | some unit ↦ unit_colon ++ (unit ++ at_uid c)
    | none ↦ elim c.exe [
      | some exe ↦ exe_colon ++ (exe ++ at_uid c)
      | none ↦ uid_colon ++ decimal c.uid
    ]
  ]

  -- The key of an HTTP caller without a name, behind "shim:".
  unfoldable pub unnamed_key : Caller → Text
  unnamed_key c = elim c.attested [
    | false ↦ uid_colon ++ decimal c.uid
    | true ↦ elim c.unit [
      | some unit ↦ unit_colon ++ (unit ++ at_uid c)
      | none ↦ elim c.exe [ some exe ↦ exe ++ at_uid c | none ↦ uid_colon ++ decimal c.uid ]
    ]
  ]

  unfoldable pub key_as : Trust → Caller → Text
  key_as portal c = portal_colon ++ or_text c.app_id unknown
  key_as native c = native_key c
  key_as shim c = shim_colon ++ (elim c.client [ some client ↦ client | none ↦ unnamed_key c ])

  unfoldable pub key : Caller → Text
  key c = key_as c.trust c

  -- What a human sees; " (over the HTTP shim)", "an app" and "pid " are the arguments.
  module _ (over_shim an_app pid_is : Text) where
    unfoldable pub display : Caller → Text
    display c =
        let named : Text = elim c.exe [
          | some exe ↦ exe
          | none ↦ elim c.unit [ some unit ↦ unit | none ↦ pid_is ++ decimal c.pid ]
        ] in
        elim c.trust [
          | portal ↦ or_text c.app_id an_app
          | native ↦ named
          | shim ↦ elim c.client [ some client ↦ client ++ over_shim | none ↦ named ]
        ]

-- How far the caller of a key was trusted, read off its first letter.
abbrev pub trust_of_key : Text → Trust
trust_of_key [] = native
trust_of_key (c ∷ rest) = if c == 112 then portal else if c == 115 then shim else native

key_as-trust : (decimal : ℕ → Text) (t : Trust) (c : Caller) → trust_of_key (key_as decimal t c) ≡ t
unfolding key_as native_key
key_as-trust decimal portal c = refl
key_as-trust decimal shim c = refl
key_as-trust decimal native c = elim (Option-cases c.unit) [
  | inr (unit, e) ↦ rw (e, key_as, native_key) refl
  | inl e ↦ elim (Option-cases c.exe) [
    | inr (exe, f) ↦ rw (e, f, key_as, native_key) refl
    | inl f ↦ rw (e, f, key_as, native_key) refl
  ]
]

-- No two callers of different trust share a grant: whatever names they come with, the key of an
-- application that the portal vouches for, that of a native process and that of an HTTP caller
-- differ, since a key tells which of the three its caller was.
pub trust_of_key-key :
    (decimal : ℕ → Text) (c d : Caller)
    → (trust_of_key (key decimal c) ≡ c.trust) × (key decimal c ≡ key decimal d → c.trust ≡ d.trust)
unfolding key
trust_of_key-key decimal c d =
    let tells : (x : Caller) → trust_of_key (key decimal x) ≡ x.trust =
      λ x. key_as-trust decimal x.trust x in
    (tells c, (λ same. sym (tells c) ∙ ap trust_of_key same ∙ tells d))
