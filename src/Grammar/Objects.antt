-- ===== src/Grammar/Objects.antt =====
-- crates/ai-daemon/src/grammar.rs, `object_body`: the calls that the rule of an object allows.
use ai_daemon.Prelude.{
  String, ◌≡◌, refl, sym, ap, ap₂, append-nil, append_assoc, ◌∙◌, List, [], ◌∷◌, ◌++◌, map,
}
use ai_daemon.Grammar.{
  Token, opening, closing, comma, pair, Item, tok, maybe, Piece, item, braces, choice,
  first_or_later, required_items, optional_item, alternatives, object_body,
}

module _ {A : Type 0} where
  -- Each text of the first set followed by each of the second.
  abbrev pub followed_by : List (List A) → List (List A) → List (List A)
  followed_by [] ws = []
  followed_by (v ∷ vs) ws = map (λ w. v ++ w) ws ++ followed_by vs ws

  -- The sublists of a list, those with its first element first.
  abbrev pub subsets : List A → List (List A)
  subsets [] = [] ∷ []
  subsets (x ∷ xs) = map (λ s. x ∷ s) (subsets xs) ++ subsets xs

abbrev pub item_words : Item → List (List Token)
item_words (tok t) = (t ∷ []) ∷ []
item_words (maybe ts) = ts ∷ [] ∷ []

-- All texts that a sequence of items allows.
abbrev pub words_of : List Item → List (List Token)
words_of [] = [] ∷ []
words_of (i ∷ is) = followed_by (item_words i) (words_of is)

abbrev pub words_of_any : List (List Item) → List (List Token)
words_of_any [] = []
words_of_any (a ∷ others) = words_of a ++ words_of_any others

abbrev pub piece_words : Piece → List (List Token)
piece_words (item i) = item_words i
piece_words braces = (opening ∷ closing ∷ []) ∷ []
piece_words (choice alts) = words_of_any alts ++ [] ∷ []

-- All texts that a rule allows.
abbrev pub language : List Piece → List (List Token)
language [] = [] ∷ []
language (p ∷ ps) = followed_by (piece_words p) (language ps)

-- The pairs of an object, with the commas between them.
abbrev pub joined : List String → List Token
joined [] = []
joined (p ∷ []) = pair p ∷ []
joined (p ∷ q ∷ ps) = pair p ∷ comma ∷ joined (q ∷ ps)

-- A JSON object with these pairs.
abbrev pub object : List String → List Token
object ps = opening ∷ (joined ps ++ closing ∷ [])

-- The pairs with a comma before each.
abbrev later : List String → List Token
later [] = []
later (p ∷ ps) = comma ∷ pair p ∷ later ps

joined-cons : (p : String) (ps : List String) → joined (p ∷ ps) ≡ pair p ∷ later ps
joined-cons p [] = refl
joined-cons p (q ∷ ps) = ap (λ l. pair p ∷ comma ∷ l) (joined-cons q ps)

module _ {A B C : Type 0} where
  map-map : (f : B → C) (g : A → B) (xs : List A) → map f (map g xs) ≡ map (λ x. f (g x)) xs
  map-map f g [] = refl
  map-map f g (x ∷ xs) = ap (λ l. f (g x) ∷ l) (map-map f g xs)

module _ {A B : Type 0} where
  map-append : (f : A → B) (xs ys : List A) → map f (xs ++ ys) ≡ map f xs ++ map f ys
  map-append f [] ys = refl
  map-append f (x ∷ xs) ys = ap (λ l. f x ∷ l) (map-append f xs ys)

  map-same : (f g : A → B) (xs : List A) → ((x : A) → f x ≡ g x) → map f xs ≡ map g xs
  map-same f g [] h = refl
  map-same f g (x ∷ xs) h = ap₂ (λ y l. y ∷ l) (h x) (map-same f g xs h)

map-id : {A : Type 0} (xs : List A) → map (λ x. x) xs ≡ xs
map-id [] = refl
map-id (x ∷ xs) = ap (λ l. x ∷ l) (map-id xs)

module _ {A : Type 0} where
  followed_by-one :
      (v : List A) (ws : List (List A)) → followed_by (v ∷ []) ws ≡ map (λ w. v ++ w) ws
  followed_by-one v ws = append-nil (map (λ w. v ++ w) ws)

  followed_by-append :
      (us vs ws : List (List A))
      → followed_by (us ++ vs) ws ≡ followed_by us ws ++ followed_by vs ws
  followed_by-append [] vs ws = refl
  followed_by-append (u ∷ us) vs ws =
      ap (λ l. map (λ w. u ++ w) ws ++ l) (followed_by-append us vs ws)
      ∙ sym (append_assoc (map (λ w. u ++ w) ws) (followed_by us ws) (followed_by vs ws))

  followed_by-map :
      (u : List A) (vs ws : List (List A))
      → followed_by (map (λ v. u ++ v) vs) ws ≡ map (λ w. u ++ w) (followed_by vs ws)
  followed_by-map u [] ws = refl
  followed_by-map u (v ∷ vs) ws =
      ap₂ ◌++◌
        (map-same (λ w. (u ++ v) ++ w) (λ w. u ++ (v ++ w)) ws (λ w. append_assoc u v w)
          ∙ sym (map-map (λ w. u ++ w) (λ w. v ++ w) ws))
        (followed_by-map u vs ws)
      ∙ sym (map-append (λ w. u ++ w) (map (λ w. v ++ w) ws) (followed_by vs ws))

  followed_by_assoc :
      (us vs ws : List (List A))
      → followed_by us (followed_by vs ws) ≡ followed_by (followed_by us vs) ws
  followed_by_assoc [] vs ws = refl
  followed_by_assoc (u ∷ us) vs ws =
      ap₂ ◌++◌ (sym (followed_by-map u vs ws)) (followed_by_assoc us vs ws)
      ∙ sym (followed_by-append (map (λ v. u ++ v) vs) (followed_by us vs) ws)

  -- What ends each of a set of texts.
  followed_by-end :
      {B : Type 0} (g : B → List A) (end : List A) (xs : List B)
      → followed_by (map g xs) (end ∷ []) ≡ map (λ x. g x ++ end) xs
  followed_by-end g end [] = refl
  followed_by-end g end (x ∷ xs) = ap (λ l. (g x ++ end) ∷ l) (followed_by-end g end xs)

-- The optional pairs behind a required one are any of them.
words_of-optional_item :
    (os : List String) → words_of (map optional_item os) ≡ map later (subsets os)
unfolding optional_item
words_of-optional_item [] = refl
words_of-optional_item (o ∷ os) =
    let tail = map optional_item os in
    let ih = words_of-optional_item os in
    let with : List Token → List Token = λ w. comma ∷ pair o ∷ w in
    ap₂ ◌++◌ (ap (map with) ih ∙ map-map with later (subsets os))
      (append-nil (map (λ w. w) (words_of tail)) ∙ map-id (words_of tail) ∙ ih)
    ∙ sym (
        map-append later (map (λ s. o ∷ s) (subsets os)) (subsets os)
        ∙ ap (λ l. l ++ map later (subsets os)) (map-map later (λ s. o ∷ s) (subsets os)))

words_of-token :
    (t : Token) (is : List Item) → words_of (tok t ∷ is) ≡ map (λ w. t ∷ w) (words_of is)
words_of-token t is = followed_by-one (t ∷ []) (words_of is)

-- What a required prefix adds to each text.
words_of-first_or_later :
    (rs : List String) (is : List Item)
    → words_of (first_or_later rs ++ is) ≡ map (λ w. later rs ++ w) (words_of is)
unfolding first_or_later
words_of-first_or_later [] is = sym (map-id (words_of is))
words_of-first_or_later (r ∷ rs) is =
    let rest = first_or_later rs ++ is in
    words_of-token comma (tok (pair r) ∷ rest)
    ∙ ap (map (λ w. comma ∷ w)) (
        words_of-token (pair r) rest
        ∙ ap (map (λ w. pair r ∷ w)) (words_of-first_or_later rs is)
        ∙ map-map (λ w. pair r ∷ w) (λ w. later rs ++ w) (words_of is))
    ∙ map-map (λ w. comma ∷ w) (λ w. pair r ∷ (later rs ++ w)) (words_of is)

language-items :
    (is : List Item) (ps : List Piece)
    → language (map item is ++ ps) ≡ followed_by (words_of is) (language ps)
language-items [] ps = sym (append-nil (map (λ w. w) (language ps)) ∙ map-id (language ps))
language-items (i ∷ is) ps =
    ap (followed_by (item_words i)) (language-items is ps)
    ∙ followed_by_assoc (item_words i) (words_of is) (language ps)

words_of_any-alternatives :
    (os : List String) → words_of_any (alternatives os) ++ [] ∷ [] ≡ map joined (subsets os)
unfolding alternatives
words_of_any-alternatives [] = refl
words_of_any-alternatives (o ∷ os) =
    let tail = map optional_item os in
    append_assoc (words_of (tok (pair o) ∷ tail)) (words_of_any (alternatives os)) ([] ∷ [])
    ∙ ap₂ ◌++◌
        (words_of-token (pair o) tail
          ∙ ap (map (λ w. pair o ∷ w)) (words_of-optional_item os)
          ∙ map-map (λ w. pair o ∷ w) later (subsets os)
          ∙ map-same (λ s. pair o ∷ later s) (λ s. joined (o ∷ s)) (subsets os)
              (λ s. sym (joined-cons o s))
          ∙ sym (map-map joined (λ s. o ∷ s) (subsets os)))
        (words_of_any-alternatives os)
    ∙ sym (map-append joined (map (λ s. o ∷ s) (subsets os)) (subsets os))

later-append : (ps qs : List String) → later (ps ++ qs) ≡ later ps ++ later qs
later-append [] qs = refl
later-append (p ∷ ps) qs = ap (λ l. comma ∷ pair p ∷ l) (later-append ps qs)

words_of-required :
    (r : String) (rs os : List String)
    → words_of (required_items (r ∷ rs) ++ map optional_item os)
      ≡ map (λ s. joined ((r ∷ rs) ++ s)) (subsets os)
unfolding required_items
words_of-required r rs os =
    let optional = map optional_item os in
    words_of-token (pair r) (first_or_later rs ++ optional)
    ∙ ap (map (λ w. pair r ∷ w)) (
        words_of-first_or_later rs optional
        ∙ ap (map (λ w. later rs ++ w)) (words_of-optional_item os)
        ∙ map-map (λ w. later rs ++ w) later (subsets os))
    ∙ map-map (λ w. pair r ∷ w) (λ s. later rs ++ later s) (subsets os)
    ∙ map-same (λ s. pair r ∷ (later rs ++ later s)) (λ s. joined (r ∷ (rs ++ s))) (subsets os)
        (λ s. sym (joined-cons r (rs ++ s) ∙ ap (λ l. pair r ∷ l) (later-append rs s)))

-- What stands between the braces of each object.
enclosed :
    {B : Type 0} (g : B → List Token) (xs : List B)
    → followed_by ((opening ∷ []) ∷ []) (followed_by (map g xs) ((closing ∷ []) ∷ []))
      ≡ map (λ x. opening ∷ (g x ++ closing ∷ [])) xs
enclosed g xs =
    followed_by-one (opening ∷ []) (followed_by (map g xs) ((closing ∷ []) ∷ []))
    ∙ ap (map (λ w. opening ∷ w)) (followed_by-end g (closing ∷ []) xs)
    ∙ map-map (λ w. opening ∷ w) (λ x. g x ++ closing ∷ []) xs

-- The rule of an object allows exactly the objects that have every required property, in the
-- schema's order, and behind them any of the optional ones, each of them present or absent
-- whatever the others are: it allows each such object once, and nothing else.
pub language-object_body :
    (required optional : List String)
    → language (object_body required optional)
      ≡ map (λ s. object (required ++ s)) (subsets optional)
unfolding object_body
language-object_body [] [] = refl
language-object_body [] (o ∷ os) =
    ap (λ ws. followed_by ((opening ∷ []) ∷ []) (followed_by ws ((closing ∷ []) ∷ [])))
      (words_of_any-alternatives (o ∷ os))
    ∙ enclosed joined (subsets (o ∷ os))
language-object_body (r ∷ rs) os =
    ap (followed_by ((opening ∷ []) ∷ [])) (
      language-items (required_items (r ∷ rs) ++ map optional_item os) (item (tok closing) ∷ [])
      ∙ ap (λ ws. followed_by ws ((closing ∷ []) ∷ [])) (words_of-required r rs os))
    ∙ enclosed (λ s. joined ((r ∷ rs) ++ s)) (subsets os)
