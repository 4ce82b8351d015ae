-- ===== src/Decoder/Huffman/Places.antt =====
-- crates/ai-daemon-decode/src/main.rs, `Huffman::new` and `Huffman::decode`: every read and write
-- is in bounds.
use ai_daemon.Prelude.{
  ℕ, zero, suc, ◌+◌, ◌-◌, ◌*◌, ◌≤◌, ◌<◌, ◌≡◌, refl, sym, ap, ◌∙◌, subst, ◌≢◌, inl, inr, some, List,
  [], ◌∷◌, arith, get_elem?, set, replicate, drop, length-set, length-replicate, get_elem?-lt,
  get_elem?-replicate, get_elem?-within, get_elem?-set_same, get_elem?-set_other, sum, sum-set,
  sum-replicate_zero, length, count, All, ltb, ◌==◌, Bool-cases,
}
use Prim.{absurd}
use ai_daemon.Decoder.{ok, ◌>>=◌, index}
use ai_daemon.Decoder.Bits.{Bytes, bit}
use ai_daemon.Decoder.Bits.Bounds.{Further, bit-Further}
use ai_daemon.Decoder.Outcome.{Gives, Gives-bind, Gives-imp, index-Gives, index-some}
use ai_daemon.Decoder.Huffman.{
  Huffman, counts_of, offsets_of, place_symbols, new_huffman, decode_from, decode,
}

abbrev pub IsLength : ℕ → Type 0
IsLength l = l < 16

-- There is a symbol for each code.
abbrev pub IsComplete : Huffman → Type 0
IsComplete h = sum (drop 1 h.counts) ≤ length h.symbols

-- How often the length `l` occurs.
abbrev uses : ℕ → List ℕ → ℕ
uses l ls = count (λ x. x == l) ls

-- What the counts are after those of `ls` were added to `before`.
record Counted (before ls after : List ℕ) : Type 0 where
  same_size : length after ≡ length before
  sum_le : sum after ≤ sum before + length ls
  counted :
      (l n : ℕ) → 0 < l → get_elem? before l ≡ some n → get_elem? after l ≡ some (n + uses l ls)

sum-clear : (xs : List ℕ) → sum (set xs 0 0) ≤ sum xs
sum-clear [] = omega arith
sum-clear (x ∷ xs) = omega arith

counted_more :
    (counts ls : List ℕ) (l n l' n' : ℕ)
    → get_elem? counts l ≡ some n
    → get_elem? counts l' ≡ some n'
    → (m : ℕ) × (get_elem? (set counts l (n + 1)) l' ≡ some m)
      × (m + uses l' ls ≡ n' + uses l' (l ∷ ls))
counted_more counts ls l n l' n' e e' = elim (Bool-cases (l == l')) [
  | inl same ↦
      let same' : l ≡ l' = ground arith in
      let there : get_elem? counts l ≡ some n' =
        subst (λ k. get_elem? counts k ≡ some n') (sym same') e' in
      let agree : n ≡ n' = cc in
      (
        n + 1,
        subst (λ k. get_elem? (set counts l (n + 1)) k ≡ some (n + 1)) same'
            (get_elem?-set_same counts l (n + 1) (get_elem?-within counts l n e)),
        rw same (omega (arith, agree)),
      )
  | inr other ↦
      let apart : l ≢ l' = λ z. ground (arith, z, other) in
      (n', get_elem?-set_other counts l l' (n + 1) apart ∙ e', rw other refl)
]

counts_of-Counted :
    (counts ls : List ℕ)
    → length counts ≡ 16
    → All IsLength ls
    → Gives (Counted counts ls) (counts_of counts ls)
unfolding counts_of
counts_of-Counted counts [] h a = record {
  same_size = length-set counts 0 0;
  sum_le = omega (arith, sum-clear counts);
  counted = λ l n pos e.
      get_elem?-set_other counts 0 l 0 (λ z. absurd (omega (arith, z, pos)))
      ∙ e
      ∙ ap (λ m. some m) (omega arith);
}
counts_of-Counted counts (l ∷ ls) h a =
    Gives-bind _ (Counted counts (l ∷ ls)) (index counts l) _
      (index-Gives counts l (omega (arith, h, a.0)))
      (λ n found.
        let next = set counts l (n + 1) in
        Gives-imp (Counted next ls) (Counted counts (l ∷ ls)) _
          (counts_of-Counted next ls (length-set counts l (n + 1) ∙ h) a.1)
          (λ after c. record {
            same_size = c.same_size ∙ length-set counts l (n + 1);
            sum_le = omega (arith, c.sum_le, sum-set counts l n (n + 1) found);
            counted = λ l' n' pos e'.
                let (m, at, same) = counted_more counts ls l n l' n' found e' in
                c.counted l' m pos at ∙ ap (λ x. some x) same;
          }))

offset_room :
    (o : ℕ) (cs : List ℕ) (l n : ℕ)
    → get_elem? cs l ≡ some n
    → (p : ℕ) × (get_elem? (offsets_of o cs) l ≡ some p) × (p + n ≤ o + sum cs)
unfolding offsets_of
offset_room o [] l n e = cc
offset_room o (c ∷ cs) zero n e = let same : c ≡ n = cc e in (o, refl, omega (arith, same))
offset_room o (c ∷ cs) (suc l) n e =
    let (p, at, le) = offset_room (o + c) cs l n e in (p, at, omega (arith, le))

-- At each length the offset leaves room for the symbols that are still to come.
abbrev Room : List ℕ → List ℕ → ℕ → Type 0
Room offsets ls size =
    (l : ℕ) → 0 < l → l < 16 → (p : ℕ) × (get_elem? offsets l ≡ some p) × (p + uses l ls ≤ size)

Room-zero : (offsets ls : List ℕ) (size : ℕ) → Room offsets (0 ∷ ls) size → Room offsets ls size
Room-zero offsets ls size room l pos small =
    let (p, at, le) = room l pos small in (p, at, ground (arith, le))

Room-step :
    (offsets ls : List ℕ) (size l p : ℕ)
    → Room offsets (suc l ∷ ls) size
    → get_elem? offsets (suc l) ≡ some p
    → Room (set offsets (suc l) (p + 1)) ls size
Room-step offsets ls size l p room e l' pos small = elim (Bool-cases (suc l == l')) [
  | inl same ↦
      let same' : suc l ≡ l' = ground arith in
      let (q, at, le) = room l' pos small in
      let agree : q ≡ p = cc in
      let le' : q + suc (uses l' ls) ≤ size = rw same at le in
      (
        p + 1,
        subst (λ k. get_elem? (set offsets (suc l) (p + 1)) k ≡ some (p + 1)) same'
            (get_elem?-set_same offsets (suc l) (p + 1) (get_elem?-within offsets (suc l) p e)),
        omega (arith, le', agree),
      )
  | inr other ↦
      let apart : suc l ≢ l' = λ z. ground (arith, z, other) in
      let (q, at, le) = room l' pos small in
      (q, get_elem?-set_other offsets (suc l) l' (p + 1) apart ∙ at, (rw other at le))
]

place_step :
    (symbols offsets ls : List ℕ) (l p symbol : ℕ)
    → get_elem? offsets (suc l) ≡ some p
    → p < length symbols
    → place_symbols symbols offsets (suc l ∷ ls) symbol
      ≡ place_symbols (set symbols p symbol) (set offsets (suc l) (p + 1)) ls (symbol + 1)
unfolding place_symbols
place_step symbols offsets ls l p symbol at fits =
    let (x, e) = get_elem?-lt symbols p fits in
    rw (index-some offsets (suc l) p at, index-some symbols p x e) refl

place_symbols-length :
    (symbols offsets ls : List ℕ) (symbol : ℕ)
    → All IsLength ls
    → Room offsets ls (length symbols)
    → Gives (λ after. length after ≡ length symbols) (place_symbols symbols offsets ls symbol)
unfolding place_symbols
place_symbols-length symbols offsets [] symbol a room = refl
place_symbols-length symbols offsets (zero ∷ ls) symbol a room =
    place_symbols-length symbols offsets ls (symbol + 1) a.1 (Room-zero offsets ls _ room)
place_symbols-length symbols offsets (suc l ∷ ls) symbol a room =
    let (p, at, le) = room (suc l) (omega arith) a.0 in
    let fits : p < length symbols = ground (arith, le) in
    let after = set symbols p symbol in
    subst (Gives (λ after. length after ≡ length symbols))
      (sym (place_step symbols offsets ls l p symbol at fits))
      (Gives-imp _ _ (place_symbols after (set offsets (suc l) (p + 1)) ls (symbol + 1))
        (place_symbols-length after (set offsets (suc l) (p + 1)) ls (symbol + 1) a.1 (
          subst (Room (set offsets (suc l) (p + 1)) ls) (sym (length-set symbols p symbol))
            (Room-step offsets ls _ l p room at)))
        (λ out same. same ∙ length-set symbols p symbol))

first-Room :
    (lengths counts : List ℕ)
    → Counted (replicate 16 0) lengths counts
    → Room (offsets_of 0 counts) lengths (length lengths)
first-Room lengths counts c l pos small =
    let at = c.counted l 0 pos (get_elem?-replicate 16 0 l small) in
    let (p, at', le) = offset_room 0 counts l (0 + uses l lengths) at in
    (p, at', omega (arith, le, c.sum_le))

sum-drop : (xs : List ℕ) → sum (drop 1 xs) ≤ sum xs
sum-drop [] = omega arith
sum-drop (x ∷ xs) = omega arith

pub new_huffman-IsComplete :
    (lengths : List ℕ) → All IsLength lengths → Gives IsComplete (new_huffman lengths)
unfolding new_huffman
new_huffman-IsComplete lengths a =
    Gives-bind (Counted (replicate 16 0) lengths) IsComplete (counts_of (replicate 16 0) lengths) _
      (counts_of-Counted (replicate 16 0) lengths refl a)
      (λ counts c.
        Gives-bind
          (λ (symbols : List ℕ). length symbols ≡ length (replicate {A = ℕ} (length lengths) 0))
          IsComplete _ _
          (place_symbols-length (replicate (length lengths) 0) (offsets_of 0 counts) lengths 0 a (
            subst (Room (offsets_of 0 counts) lengths)
              (sym (length-replicate {A = ℕ} (length lengths) 0)) (first-Room lengths counts c)))
          (λ symbols same.
            let size = length-replicate {A = ℕ} (length lengths) 0 in
            let first = sum-replicate_zero 16 in
            omega (arith, same, size, first, c.sum_le, sum-drop counts)))

chosen-Further :
    (bytes : Bytes) (symbols : List ℕ) (i position next : ℕ)
    → i < length symbols
    → position < next
    → next ≤ 8 * length bytes
    → Gives (Further bytes position) (index symbols i >>= λ symbol. ok (symbol, next))
chosen-Further bytes symbols i position next h moved inside =
    Gives-bind (λ x. get_elem? symbols i ≡ some x) (Further bytes position) (index symbols i) _
      (index-Gives symbols i h) (λ symbol found. (moved, inside))

decode_from-Further :
    (bytes : Bytes) (symbols counts : List ℕ) (code first base position : ℕ)
    → first ≤ code
    → base + sum counts ≤ length symbols
    → Gives (Further bytes position) (decode_from bytes symbols counts code first base position)
unfolding decode_from
decode_from-Further bytes symbols [] code first base position h k = refl
decode_from-Further bytes symbols (n ∷ counts) code first base position h k =
    Gives-bind (Further bytes position) (Further bytes position) (bit bytes position) _
      (bit-Further bytes position)
      (λ (b, next) (moved, inside). elim (Bool-cases (ltb (code + b) (first + n))) [
        | inl e ↦
            let below : code + b < first + n = ground (arith, e) in
            rw (e, Gives)
              (chosen-Further bytes symbols (base + (code + b - first)) position next
                (omega (arith, h, below, k)) moved inside)
        | inr e ↦
            let above : first + n ≤ code + b = ground (arith, e) in
            rw (e, Gives)
              (Gives-imp (Further bytes next) (Further bytes position) _
                (decode_from-Further bytes symbols counts ((code + b) * 2) ((first + n) * 2)
                  (base + n) next (omega (arith, above)) (omega (arith, k)))
                (λ r (more, within). (omega (arith, moved, more), within)))
      ])

pub decode-Further :
    (bytes : Bytes) (h : Huffman) (position : ℕ)
    → IsComplete h
    → Gives (Further bytes position) (decode bytes h position)
unfolding decode
decode-Further bytes h position c =
    decode_from-Further bytes h.symbols (drop 1 h.counts) 0 0 0 position (omega arith)
      (omega (arith, c))
