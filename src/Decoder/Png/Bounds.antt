-- ===== src/Decoder/Png/Bounds.antt =====
-- crates/ai-daemon-decode/src/main.rs, `mod png`: what the decoder does with any bytes whatever.
use ai_daemon.Prelude.{
  slice, ℕ, ◌+◌, ◌*◌, ◌%◌, ◌^◌, ◌≤◌, ◌<◌, ◌≡◌, refl, sym, ap, ◌∙◌, subst, ◌⊎◌, inl, inr, Bool, none,
  some, [], arith, length, All, ltb, ◌==◌, if◌then◌else◌, ltb-false, Bool-cases, u64_mod, u32_mod,
}
use ai_daemon.Decoder.{no_header, Result, ok, err, ◌>>=◌}
use ai_daemon.Decoder.Bits.{Bytes}
use ai_daemon.Decoder.Outcome.{Gives, Gives-bind, Gives-imp, Gives-bind_of}
use ai_daemon.Decoder.Inflate.{zlib}
use ai_daemon.Decoder.Inflate.Bounds.{zlib_never_panics}
use ai_daemon.Decoder.Png.{
  decode_chunks, Header, Decoded, channels_of, Parts, read_chunks, unfilter, decode_image,
  decode_png, magic, bytes_eq,
}
use ai_daemon.Decoder.Png.Filters.{IsByte}
use ai_daemon.Decoder.Png.Chunks.{IsTall, HasTall, read_chunks-HasTall}
use ai_daemon.Decoder.Png.Sizes.{Anything, unfilter_rows-length}

-- The size of the image that a header describes.
abbrev pub size_of : Header → ℕ
size_of header = header.width * header.height * channels_of header

unfilter-length :
    (raw : Bytes) (header : Header) (channels : ℕ)
    → 0 < channels
    → (header.width * channels + 1) * header.height < u64_mod
    → Gives
        (λ (pixels : Bytes). length pixels ≡ header.height * (header.width * channels))
        (unfilter raw header channels)
unfolding unfilter
unfilter-length raw header channels pos small =
    let stride = header.width * channels in
    elim (Bool-cases (ltb (length raw) ((stride + 1) * header.height % u64_mod))) [
      | inl e ↦ rw (e, Gives) refl
      | inr e ↦
          let enough = ltb-false (length raw) _ e in
          rw e (
            Gives-imp (λ (pixels : Bytes). length pixels ≡ (0 + header.height) * stride) _ _
              (unfilter_rows-length header.height 0 stride channels
                (stride * header.height % u64_mod) raw [] pos (omega (arith, enough, small))
                (omega (arith, small)) (omega arith))
              (λ pixels same. same ∙ ap (λ n. n * stride) (omega arith)))
    ]

channels_of-cases : (header : Header) → (channels_of header ≡ 3) ⊎ (channels_of header ≡ 4)
unfolding channels_of
channels_of-cases header = ground arith

channels_pos : (c : ℕ) → (c ≡ 3) ⊎ (c ≡ 4) → 0 < c
channels_pos c h = ground arith

-- Below the limit no product wraps.
sizes_fit :
    (w h c max_output : ℕ)
    → h < u32_mod
    → max_output < 2 ^ 63
    → w * h * c < u64_mod
    → (c ≡ 3) ⊎ (c ≡ 4)
    → (w * h % u64_mod * c % u64_mod ≡ w * h * c)
      × (w * h * c ≤ max_output → (w * c + 1) * h < u64_mod)
sizes_fit w h c max_output tall limit small (inl e) =
    let small' : w * h * 3 < u64_mod = rw e at small in
    rw e (omega (arith, small'), (λ le. omega (arith, tall, limit, le)))
sizes_fit w h c max_output tall limit small (inr e) =
    let small' : w * h * 4 < u64_mod = rw e at small in
    rw e (omega (arith, small'), (λ le. omega (arith, tall, limit, le)))

Gives-Anything : {A : Type 0} (P : A → Type 0) (r : Result A) → Gives P r → Gives Anything r
Gives-Anything P r g = Gives-imp P Anything r g (λ a p. tt)

abbrev pub depth_of : Bool → ℕ
depth_of has_alpha = if has_alpha then 4 else 3

-- The pixels are as many as the image's size says, and within the caller's limit.
abbrev pub IsImage : ℕ → Decoded → Type 0
IsImage max_output d =
    (length d.pixels ≡ d.w * d.h * depth_of d.has_alpha) × (length d.pixels ≤ max_output)

abbrev image : Header → Bytes → Result Decoded
image header pixels = ok (record {
  w = header.width;
  h = header.height;
  has_alpha = channels_of header == 4;
  pixels = pixels;
})

depth_of-channels : (c : ℕ) → (c ≡ 3) ⊎ (c ≡ 4) → depth_of (c == 4) ≡ c
depth_of-channels c (inl e) = rw e refl
depth_of-channels c (inr e) = rw e refl

image-IsImage :
    (header : Header) (pixels : Bytes) (max_output : ℕ)
    → length pixels ≡ header.height * (header.width * channels_of header)
    → size_of header ≤ max_output
    → Gives (IsImage max_output) (image header pixels)
image-IsImage header pixels max_output same within =
    let c = channels_of header in
    let depth = depth_of-channels c (channels_of-cases header) in
    let size : length pixels ≡ size_of header = omega (arith, same) in
    (size ∙ ap (λ n. header.width * header.height * n) (sym depth), omega (arith, size, within))

decode_image-IsImage :
    (header : Header) (compressed : Bytes) (max_output : ℕ)
    → IsTall header
    → max_output < 2 ^ 63
    → size_of header < u64_mod
    → Gives (IsImage max_output) (decode_image header compressed max_output)
unfolding decode_image
decode_image-IsImage header compressed max_output tall limit small =
    let c = channels_of header in
    let kinds = channels_of-cases header in
    let (exact, fits) = sizes_fit header.width header.height c max_output tall limit small kinds in
    let output_len = header.width * header.height % u64_mod * c % u64_mod in
    let room = (output_len + header.height * 2) % u64_mod in
    elim (Bool-cases (ltb max_output output_len)) [
      | inl e ↦ rw (e, Gives) refl
      | inr e ↦
          let within : size_of header ≤ max_output =
            subst (λ n. n ≤ max_output) exact (ltb-false max_output _ e) in
          rw e (
            Gives-bind Anything (IsImage max_output) (zlib compressed room)
              (λ raw. unfilter raw header c >>= image header)
              (Gives-Anything _ (zlib compressed room) (zlib_never_panics compressed room))
              (λ raw _.
                Gives-bind (λ (pixels : Bytes). length pixels ≡ header.height * (header.width * c))
                  (IsImage max_output) (unfilter raw header c) (image header)
                  (unfilter-length raw header c (channels_pos c kinds) (fits within))
                  (λ pixels same. image-IsImage header pixels max_output same within)))
    ]

decode_parts-IsImage :
    (parts : Parts) (max_output : ℕ)
    → HasTall parts
    → max_output < 2 ^ 63
    → ((header : Header) → parts.0 ≡ some header → size_of header < u64_mod)
    → Gives (IsImage max_output) (elim parts.0 [
      | none ↦ err no_header
      | some header ↦ decode_image header parts.1 max_output
    ])
decode_parts-IsImage (none, compressed) max_output t limit small = refl
decode_parts-IsImage (some header, compressed) max_output t limit small =
    decode_image-IsImage header compressed max_output t limit (small header refl)

-- On any bytes whatever the image decoder ends with an image or a refusal, as long as the header
-- describes fewer than 2^64 bytes of pixels and the caller's limit is one that memory can hold:
-- no chunk, row or neighbour is read out of bounds and no loop runs for ever. The pixels of the
-- image are then as many as its width, height and channels say, and no more than the limit.
pub decode_png_never_panics :
    (bytes : Bytes) (max_output : ℕ)
    → All IsByte bytes
    → max_output < 2 ^ 63
    → ((header : Header) (compressed : Bytes)
        → read_chunks (length bytes) bytes 8 (none, []) ≡ ok (some header, compressed)
        → size_of header < u64_mod)
    → Gives (IsImage max_output) (decode_png bytes max_output)
unfolding decode_png decode_chunks
decode_png_never_panics bytes max_output a limit small = elim (Bool-cases (ltb (length bytes) 8)) [
  | inl e ↦ rw (e, Gives) refl
  | inr e ↦
      let long = ltb-false (length bytes) 8 e in
      elim (Bool-cases (bytes_eq (slice 0 8 bytes) magic)) [
        | inr e' ↦ rw (e, e', Gives) refl
        | inl e' ↦
            rw (e, e')
              (Gives-bind_of HasTall (IsImage max_output)
                (read_chunks (length bytes) bytes 8 (none, [])) _
                (read_chunks-HasTall (length bytes) bytes 8 (none, []) a tt long (omega arith))
                (λ parts found t.
                  decode_parts-IsImage parts max_output t limit
                    (λ header h. small header parts.1 (found ∙ ap (λ o. ok (o, parts.1)) h))))
      ]
]
