-- ===== src/Registry/Digests.antt =====
-- crates/ai-daemon/src/registry.rs, `hex_of`: a blob's name and its digest determine each other.
use ai_daemon.Prelude.{
  String, ◌≡◌, ap₂, ◌∙◌, inl, inr, Option, none, some, arith, ◌==◌, Bool-cases, Option-cases,
}
use Prim.Native.Char.{code}
use text.Mathlib.TextEquality.{Char-path}
use ai_daemon.Registry.{strip_prefix, hex_of, is_hex}

strip_prefix-injective :
    (p a b r : String) → strip_prefix p a ≡ some r → strip_prefix p b ≡ some r → a ≡ b
unfolding strip_prefix
strip_prefix-injective String.[] a b r e f = cc
strip_prefix-injective (String.◌∷◌ c p) String.[] b r e f = cc
strip_prefix-injective (String.◌∷◌ c p) (String.◌∷◌ d a) String.[] r e f = cc
strip_prefix-injective (String.◌∷◌ c p) (String.◌∷◌ d a) (String.◌∷◌ d' b) r e f =
    elim (Bool-cases (code c == code d)) [
      | inr k ↦ let no : ◌≡◌ {A = Option String} none (some r) = rw k at e in cc
      | inl k ↦ elim (Bool-cases (code c == code d')) [
        | inr l ↦ let no : ◌≡◌ {A = Option String} none (some r) = rw l at f in cc
        | inl l ↦
            let same : d ≡ d' = Char-path d d' (ground (arith, k, l)) in
            ap₂ String.◌∷◌ same (strip_prefix-injective p a b r (rw k at e) (rw l at f))
      ]
    ]

hex_of-strip : (d h : String) → hex_of d ≡ some h → strip_prefix "sha256:" d ≡ some h
unfolding hex_of
hex_of-strip d h e = elim (Option-cases (strip_prefix "sha256:" d)) [
  | inl n ↦ let no : ◌≡◌ {A = Option String} none (some h) = rw (n, hex_of) at e in cc
  | inr (x, n) ↦ elim (Bool-cases (is_hex 64 x)) [
    | inl k ↦ let same : some x ≡ some h = rw (n, k, hex_of) at e in n ∙ same
    | inr k ↦ let no : ◌≡◌ {A = Option String} none (some h) = rw (n, k, hex_of) at e in cc
  ]
]

pub hex_of-injective : (a b h : String) → hex_of a ≡ some h → hex_of b ≡ some h → a ≡ b
hex_of-injective a b h e f =
    strip_prefix-injective "sha256:" a b h (hex_of-strip a h e) (hex_of-strip b h f)
