-- ===== src/Grammar/Tests.antt =====
-- crates/ai-daemon/src/grammar.rs: the texts of small rules.
use ai_daemon.Prelude.{◌≡◌, refl, [], ◌∷◌, ◌++◌, map}
use ai_daemon.Grammar.{
  first_or_later, required_items, optional_item, alternatives, object_body, print,
}
use ai_daemon.Grammar.Objects.{language, object, subsets, language-object_body}

one_of_each :
    print (object_body ("q" ∷ "r" ∷ []) ("a" ∷ "b" ∷ []))
    ≡ "\"{\" ws q ws \",\" ws r (ws \",\" ws a)? (ws \",\" ws b)? ws \"}\""
unfolding object_body required_items first_or_later optional_item
one_of_each = refl

only_optional :
    print (object_body [] ("a" ∷ "b" ∷ [])) ≡ "\"{\" ws (a (ws \",\" ws b)? | b)? ws \"}\""
unfolding object_body alternatives optional_item
only_optional = refl

nothing : print (object_body [] []) ≡ "\"{\" ws \"}\""
unfolding object_body
nothing = refl

language-object_body_example :
    language (object_body ("q" ∷ []) ("a" ∷ "b" ∷ []))
    ≡ map (λ s. object (("q" ∷ []) ++ s)) (subsets ("a" ∷ "b" ∷ []))
language-object_body_example = language-object_body ("q" ∷ []) ("a" ∷ "b" ∷ [])
