-- ===== src/Decoder/Png/Sizes.antt =====
-- crates/ai-daemon-decode/src/main.rs, `unfilter`: the rows and their neighbours are read in bounds.
use ai_daemon.Prelude.{
  ℕ, zero, suc, ◌+◌, ◌-◌, ◌*◌, ◌≤◌, ◌<◌, ◌≡◌, refl, ap, ◌∙◌, inl, inr, false, Option, none, some,
  [], ◌∷◌, ◌++◌, arith, get_elem?, drop, length-drop, length-slice, length, filter, length-append,
  ltb, leb, ◌==◌, if◌then◌else◌, Bool-cases,
}
use ai_daemon.Decoder.{ok, index, sub}
use ai_daemon.Decoder.Bits.{Bytes}
use ai_daemon.Decoder.Outcome.{Gives, Gives-bind, Gives-imp, index-Gives}
use ai_daemon.Decoder.Png.{unfilter_byte, above, unfilter_row, unfilter_rows}
use ai_daemon.Decoder.Png.Filters.{Covers, Covers-less}
use ai_daemon.Decoder.Png.Rows.{room_now, room_later, next_offset}
use ai_daemon.Decoder.Png.Chunks.{then_index}

-- Any value at all, as long as there is no panic.
abbrev pub Anything : {A : Type 0} → A → Type 0
Anything a = Unit {0}

unfilter_byte-Anything : (filter x a b c : ℕ) → Gives Anything (unfilter_byte filter x a b c)
unfolding unfilter_byte
unfilter_byte-Anything filter x a b c = elim (Bool-cases (filter == 0)) [
  | inl e ↦ rw (e, Gives) tt
  | inr e ↦ elim (Bool-cases (filter == 1)) [
    | inl e₁ ↦ rw (e, e₁, Gives) tt
    | inr e₁ ↦ elim (Bool-cases (filter == 2)) [
      | inl e₂ ↦ rw (e, e₁, e₂, Gives) tt
      | inr e₂ ↦ elim (Bool-cases (filter == 3)) [
        | inl e₃ ↦ rw (e, e₁, e₂, e₃, Gives) tt
        | inr e₃ ↦ elim (Bool-cases (filter == 4)) [
          | inl e₄ ↦ rw (e, e₁, e₂, e₃, e₄, Gives) tt
          | inr e₄ ↦ rw (e, e₁, e₂, e₃, e₄, Gives) refl
        ]
      ]
    ]
  ]
]

above-Anything :
    (previous : Option Bytes) (i : ℕ) → Covers (i + 1) previous → Gives Anything (above previous i)
above-Anything none i c = tt
above-Anything (some previous) i c =
    Gives-imp (λ x. get_elem? previous i ≡ some x) Anything (index previous i)
      (index-Gives previous i (omega (arith, c))) (λ x e. tt)

left-Anything :
    (channels : ℕ) (current : Bytes)
    → 0 < channels
    → Gives Anything
        (if leb channels (length current) then index current (length current - channels) else ok 0)
left-Anything channels current pos = elim (Bool-cases (leb channels (length current))) [
  | inl e ↦
      let back : channels ≤ length current = ground (arith, e) in
      rw e (
        Gives-imp (λ x. get_elem? current (length current - channels) ≡ some x) Anything _
          (index-Gives current (length current - channels) (omega (arith, back, pos))) (λ x _. tt))
  | inr e ↦ rw (e, Gives) tt
]

above_left-Anything :
    (channels : ℕ) (previous : Option Bytes) (i : ℕ)
    → Covers (i + 1) previous
    → Gives Anything (if leb channels i then above previous (i - channels) else ok 0)
above_left-Anything channels previous i c = elim (Bool-cases (leb channels i)) [
  | inl e ↦ rw e (above-Anything previous (i - channels) (Covers-less previous (omega arith) c))
  | inr e ↦ rw (e, Gives) tt
]

unfilter_row-length :
    (filter channels : ℕ) (previous : Option Bytes) (current src : Bytes)
    → 0 < channels
    → Covers (length current + length src) previous
    → Gives
        (λ row. length row ≡ length current + length src)
        (unfilter_row filter channels previous current src)
unfolding unfilter_row
unfilter_row-length filter channels previous current [] pos c = omega arith
unfilter_row-length filter channels previous current (x ∷ src) pos c =
    let i = length current in
    Gives-bind Anything _ _ _ (left-Anything channels current pos) (λ a _.
      Gives-bind Anything _ _ _ (above-Anything previous i (Covers-less previous (omega arith) c))
        (λ b _.
          Gives-bind Anything _ _ _
            (above_left-Anything channels previous i (Covers-less previous (omega arith) c))
            (λ d _. Gives-bind Anything _ _ _ (unfilter_byte-Anything filter x a b d) (λ y _.
              let longer = length-append current (y ∷ []) in
              Gives-imp (λ (row : Bytes). length row ≡ length (current ++ y ∷ []) + length src)
                (λ (row : Bytes). length row ≡ length current + suc (length src)) _
                (unfilter_row-length filter channels previous (current ++ y ∷ []) src pos
                  (Covers-less previous (omega (arith, longer)) c))
                (λ row same. omega (arith, same, longer))))))

row_end : (row : ℕ) → row ≡ row + 0
row_end row = omega arith

pub sub-length :
    (start len : ℕ) (bytes : Bytes)
    → start + len ≤ length bytes
    → Gives (λ (part : Bytes). length part ≡ len) (sub start len bytes)
sub-length start len bytes h =
    let within : ltb (length bytes) (start + len) ≡ false = ground (arith, h) in
    rw (within, Gives) (length-slice start len bytes h)

Covers-above :
    (row stride : ℕ) (out : Bytes)
    → length out ≡ row * stride
    → Covers stride (if row == 0 then none else some (drop ((row - 1) * stride) out))
Covers-above zero stride out h = tt
Covers-above (suc row) stride out h =
    let later : (suc row == 0) ≡ false = ground arith in
    let back : suc row - 1 ≡ row = omega arith in
    rw (later, back) (omega (arith, h, length-drop (row * stride) out))

pub unfilter_rows-length :
    (rows row stride channels size : ℕ) (raw out : Bytes)
    → 0 < channels
    → (row + rows) * (stride + 1) ≤ length raw
    → (row + rows) * stride ≤ size
    → length out ≡ row * stride
    → Gives
        (λ (grown : Bytes). length grown ≡ (row + rows) * stride)
        (unfilter_rows rows row stride channels size raw out)
unfolding unfilter_rows
unfilter_rows-length zero row stride channels size raw out pos enough fits o =
    o ∙ ap (λ n. n * stride) (row_end row)
unfilter_rows-length (suc rows) row stride channels size raw out pos enough fits o =
    let Out : Bytes → Type 0 = λ grown. length grown ≡ (row + suc rows) * stride in
    then_index Out raw (row * (stride + 1)) _
      (omega (arith, room_now row rows (stride + 1) _ enough))
      (λ filter.
        Gives-bind (λ (src : Bytes). length src ≡ stride) Out
          (sub (row * (stride + 1) + 1) stride raw) _
          (sub-length (row * (stride + 1) + 1) stride raw
            (omega (arith, room_now row rows (stride + 1) _ enough)))
          (λ src wide.
            let within : ltb size (row * stride + stride) ≡ false =
              ground (arith, room_now row rows stride size fits) in
            rw within (
              Gives-bind (λ (current : Bytes). length current ≡ 0 + length src) Out _ _
                (unfilter_row-length filter channels _ [] src pos
                  (Covers-less _ (omega (arith, wide)) (Covers-above row stride out o)))
                (λ current same.
                  Gives-imp (λ (grown : Bytes). length grown ≡ (row + 1 + rows) * stride) Out _
                    (unfilter_rows-length rows (row + 1) stride channels size raw (out ++ current)
                      pos (room_later row rows (stride + 1) _ enough)
                      (room_later row rows stride size fits)
                      (length-append out current
                        ∙ next_offset row stride _ _ o (omega (arith, same, wide))))
                    (λ grown e. e ∙ ap (λ n. n * stride) (omega arith))))))
