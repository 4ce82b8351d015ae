-- ===== src/Decoder/Wav/Bounds.antt =====
-- crates/ai-daemon-decode/src/main.rs, `mod wav`: what the reader does with any bytes whatever.
use ai_daemon.Prelude.{
  ℕ, zero, suc, ◌+◌, ◌-◌, ◌*◌, ◌%◌, ◌≤◌, ◌<◌, ◌≡◌, refl, inl, inr, Bool, true, false, ◌&&◌, ◌||◌,
  not, none, some, List, [], ◌∷◌, arith, slice, length, length-append, ltb, leb, ◌==◌,
  if◌then◌else◌, ltb-false, Bool-cases,
}
use Prim.{absurd}
use ai_daemon.Decoder.{sub, over_limit, ok, err}
use ai_daemon.Decoder.Bits.{Bytes}
use ai_daemon.Decoder.Outcome.{Gives, Gives-bind, sub-slice}
use ai_daemon.Decoder.Png.{bytes_eq}
use ai_daemon.Decoder.Png.Chunks.{then_index}
use ai_daemon.Decoder.Png.Sizes.{Anything, sub-length}
use ai_daemon.Decoder.Wav.{
  Floats, Format, Sound, le32, read_le16, parse_format, WaveParts, take_wave_chunk,
  read_wave_chunks, min, fmt_id, data_id, samples_of, mono_of, all_bytes, decode_sound, decode_wav,
  riff, wave,
}

le32-Anything : (i : ℕ) (bytes : Bytes) → i + 4 ≤ length bytes → Gives Anything (le32 i bytes)
unfolding le32
le32-Anything i bytes h = then_index Anything bytes i _ (omega (arith, h)) (λ a.
    then_index Anything bytes (i + 1) _ (omega (arith, h)) (λ b.
      then_index Anything bytes (i + 2) _ (omega (arith, h))
        (λ c. then_index Anything bytes (i + 3) _ (omega (arith, h)) (λ d. tt))))

read_le16-Anything :
    (i : ℕ) (bytes : Bytes) → i + 2 ≤ length bytes → Gives Anything (read_le16 i bytes)
unfolding read_le16
read_le16-Anything i bytes h =
    then_index Anything bytes i _ (omega (arith, h))
      (λ a. then_index Anything bytes (i + 1) _ (omega (arith, h)) (λ b. tt))

parse_format-Anything : (chunk : Bytes) → Gives Anything (parse_format chunk)
unfolding parse_format
parse_format-Anything chunk = elim (Bool-cases (ltb (length chunk) 16)) [
  | inl e ↦ rw (e, Gives) refl
  | inr e ↦
      let long = ltb-false (length chunk) 16 e in
      rw e (
        Gives-bind Anything Anything _ _ (read_le16-Anything 0 chunk (omega (arith, long)))
          (λ tag _.
            Gives-bind Anything Anything _ _ (read_le16-Anything 2 chunk (omega (arith, long)))
              (λ channels _.
                Gives-bind Anything Anything _ _ (le32-Anything 4 chunk (omega (arith, long)))
                  (λ rate _.
                    Gives-bind Anything Anything _ _
                      (read_le16-Anything 14 chunk (omega (arith, long))) (λ depth _. tt)))))
]

take_wave_chunk-Anything :
    (id chunk : Bytes) (parts : WaveParts) → Gives Anything (take_wave_chunk id chunk parts)
unfolding take_wave_chunk
take_wave_chunk-Anything id chunk (format, samples) = elim (Bool-cases (bytes_eq id fmt_id)) [
  | inl e ↦ rw e (
      Gives-bind Anything Anything (parse_format chunk) _ (parse_format-Anything chunk) (λ f _. tt))
  | inr e ↦ elim (Bool-cases (bytes_eq id data_id)) [
    | inl e₁ ↦ rw (e, e₁, Gives) tt
    | inr e₁ ↦ rw (e, e₁, Gives) tt
  ]
]

or_false : (a b : Bool) → (a || b) ≡ false → a ≡ false
or_false true b h = h
or_false false b h = refl

min-between : (a b n : ℕ) → n ≤ a → n ≤ b → (n ≤ min a b) × (min a b ≤ b)
min-between a b n h k = ground arith

-- Each chunk's header is eight bytes, so that a round for each byte is enough; an offset may pass
-- the end by one.
read_wave_chunks-Anything :
    (fuel : ℕ) (bytes : Bytes) (offset : ℕ) (parts : WaveParts)
    → offset ≤ length bytes + 1
    → length bytes + 1 < offset + fuel
    → Gives Anything (read_wave_chunks fuel bytes offset parts)
unfolding read_wave_chunks
read_wave_chunks-Anything zero bytes offset parts inside h = absurd (omega (arith, inside, h))
read_wave_chunks-Anything (suc fuel) bytes offset parts inside h =
    elim (Bool-cases (ltb (length bytes) (offset + 8))) [
      | inl e ↦ rw (e, Gives) tt
      | inr e ↦
          let long = ltb-false (length bytes) (offset + 8) e in
          rw (e, sub-slice offset 4 bytes (omega (arith, long)))
            (Gives-bind Anything Anything (le32 (offset + 4) bytes) _
              (le32-Anything (offset + 4) bytes (omega (arith, long)))
              (λ size _.
                let start = offset + 8 in
                let end = min (start + size) (length bytes) in
                let (low, high) =
                  min-between (start + size) (length bytes) start (omega arith) long in
                Gives-bind (λ (part : Bytes). length part ≡ end - start) Anything
                  (sub start (end - start) bytes) _
                  (sub-length start (end - start) bytes (omega (arith, low, high)))
                  (λ chunk _.
                    Gives-bind Anything Anything
                      (take_wave_chunk (slice offset 4 bytes) chunk parts) _
                      (take_wave_chunk-Anything (slice offset 4 bytes) chunk parts)
                      (λ parts' _.
                        read_wave_chunks-Anything fuel bytes (end + size % 2) parts'
                          (omega (arith, high)) (omega (arith, low, h))))))
    ]

-- The samples fit the limit, and are whole.
abbrev pub Fits : ℕ → Sound → Type 0
Fits max_output s = (length s.samples ≤ max_output) × (length s.samples % 4 ≡ 0)

module _ (floats : Floats) (four : (x : floats.F32) → length (floats.to_bytes x) ≡ 4) where
  length-all_bytes : (xs : List floats.F32) → length (all_bytes floats xs) ≡ length xs * 4
  unfolding all_bytes
  length-all_bytes [] = omega arith
  length-all_bytes (x ∷ xs) =
      omega (
        arith,
        length-append (floats.to_bytes x) (all_bytes floats xs),
        four x,
        length-all_bytes xs,
      )

  samples_of-Anything :
      (format : Format) (bytes : Bytes) → Gives Anything (samples_of floats format bytes)
  unfolding samples_of
  samples_of-Anything format bytes = elim (Bool-cases ((format.tag == 1) && (format.depth == 16))) [
    | inl e ↦ rw (e, Gives) tt
    | inr e ↦ elim (Bool-cases ((format.tag == 3) && (format.depth == 32))) [
      | inl e₁ ↦ rw (e, e₁, Gives) tt
      | inr e₁ ↦ rw (e, e₁, Gives) refl
    ]
  ]

  decode_sound-Fits :
      (parts : WaveParts) (max_output : ℕ)
      → Gives (Fits max_output) (decode_sound floats parts max_output)
  unfolding decode_sound
  decode_sound-Fits (none, bytes) max_output = refl
  decode_sound-Fits (some format, none) max_output = refl
  decode_sound-Fits (some format, some bytes) max_output =
      let channels = if leb 1 format.channels then format.channels else 1 in
      Gives-bind Anything (Fits max_output) (samples_of floats format bytes)
        (λ samples.
          let mono = mono_of floats channels samples in
          if ltb max_output (length mono * 4)
          then err over_limit
          else ok (record { rate = format.rate; samples = all_bytes floats mono }))
        (samples_of-Anything format bytes)
        (λ samples _.
          let mono = mono_of floats channels samples in
          let size = length-all_bytes mono in
          elim (Bool-cases (ltb max_output (length mono * 4))) [
            | inl e ↦ rw (e, Gives) refl
            | inr e ↦
                rw (e, Gives) (omega (arith, size, ltb-false max_output _ e), omega (arith, size))
          ])

  -- On any bytes whatever the sound decoder ends with a sound or a refusal: no chunk is read out
  -- of bounds and its loop ends. The samples of the sound are then whole 32-bit words, and no more
  -- than the caller's limit. The one condition is that an f32 has four bytes.
  pub decode_wav_never_panics :
      (bytes : Bytes) (max_output : ℕ)
      → Gives (Fits max_output) (decode_wav floats bytes max_output)
  unfolding decode_wav
  decode_wav_never_panics bytes max_output = elim (Bool-cases (ltb (length bytes) 12)) [
    | inl e ↦ rw (e, Gives) refl
    | inr e ↦
        let long = ltb-false (length bytes) 12 e in
        let begin = sub-slice 0 4 bytes (omega (arith, long)) in
        let wrong =
          not (bytes_eq (slice 0 4 bytes) riff) || not (bytes_eq (slice 8 4 bytes) wave) in
        rw (e, begin)
          (elim (Bool-cases wrong) [
            | inl e' ↦ rw (e', Gives) refl
            | inr e' ↦ rw e' (
                Gives-bind Anything (Fits max_output)
                  (read_wave_chunks (length bytes) bytes 12 (none, none)) _
                  (read_wave_chunks-Anything (length bytes) bytes 12 (none, none)
                    (omega (arith, long)) (omega arith))
                  (λ parts _. decode_sound-Fits parts max_output))
          ])
  ]
