-- ===== src/Decoder/Tests.antt =====
-- crates/ai-daemon-decode/src/main.rs: concrete streams and files.
use ai_daemon.Prelude.{
  ℕ, ◌+◌, ◌/◌, ◌%◌, ◌≤◌, ◌<◌, ◌≡◌, refl, ap, true, false, Option, none, some, List, [], ◌∷◌, arith,
  replicate, sum, length, all, All, ltb, ltb→lt, and_true, u64_mod,
}
use ai_daemon.Decoder.{Result, ok, err, be32}
use ai_daemon.Decoder.Bits.{Bytes, bit, bits_from, bits, align}
use ai_daemon.Decoder.Huffman.{
  counts_of, offsets_of, place_symbols, new_huffman, decode_from, decode,
}
use ai_daemon.Decoder.Outcome.{Gives}
use ai_daemon.Decoder.Block.{
  copy_back, refer_back, read_distance, back_reference, symbol_step, block,
}
use ai_daemon.Decoder.Inflate.{
  le16, stored_bytes, stored_block, read_code_lengths, repeat_last, length_step, read_lengths,
  dynamic_block, fixed_block, typed_block, inflate_from, inflate, zlib,
}
use ai_daemon.Decoder.Inflate.Bounds.{zlib_never_panics}
use ai_daemon.Decoder.Png.{
  Header, accept_header, parse, channels_of, take_chunk, read_chunks, paeth, unfilter_byte,
  unfilter_row, unfilter_rows, unfilter, decode_image, decode_chunks, decode_png,
}
use ai_daemon.Decoder.Wav.{
  Floats, le32, read_le16, take_wave_chunk, parse_format, read_wave_chunks, samples_i16, downmix,
  all_bytes, samples_of, mono_of, decode_sound, decode_wav,
}
use ai_daemon.Decoder.Wav.Bounds.{Fits, decode_wav_never_panics}
use ai_daemon.Decoder.Png.Filters.{IsByte}
use ai_daemon.Decoder.Png.Rows.{Row, filter_rows, pixels_of, unfilter-filter_rows}
use ai_daemon.Decoder.Png.Bounds.{IsImage, size_of, decode_png_never_panics}

-- "abc" stored: zlib.compress(b"abc", 0) without its checksum.
stored_abc :
    zlib (0x78 ∷ 0x01 ∷ 1 ∷ 3 ∷ 0 ∷ 252 ∷ 255 ∷ 97 ∷ 98 ∷ 99 ∷ []) 10 ≡ ok (97 ∷ 98 ∷ 99 ∷ [])
unfolding zlib inflate inflate_from bit bits bits_from typed_block stored_block align le16
    stored_bytes
stored_abc = refl

-- zlib.compress(b"aaaaaaaaaa"): a fixed block with a back-reference.
fixed_ten : zlib (0x78 ∷ 0x9c ∷ 0x4b ∷ 0x84 ∷ 0x03 ∷ 0x00 ∷ []) 10 ≡ ok (replicate 10 97)
unfolding zlib inflate inflate_from bit bits bits_from typed_block fixed_block block decode
    decode_from symbol_step back_reference read_distance refer_back copy_back new_huffman counts_of
    offsets_of place_symbols
fixed_ten = refl

-- A block with codes of its own: the length of the output.
dynamic_length :
    (elim (zlib
      (120 ∷ 218 ∷ 99 ∷ 100 ∷ 36 ∷ 21 ∷ 48 ∷ 225 ∷ 5 ∷ 204 ∷ 44 ∷ 172 ∷ 108 ∷ 236 ∷ 28 ∷ 200 ∷ 36
        ∷ 3 ∷ 35 ∷ 84 ∷ 144 ∷ 147 ∷ 113 ∷ 152 ∷ 218 ∷ 5 ∷ 0 ∷ 170 ∷ 63 ∷ 2 ∷ 251 ∷ [])
      324) [ ok out ↦ length out | err e ↦ 0 ])
    ≡ 324
unfolding zlib inflate inflate_from bit bits bits_from typed_block dynamic_block block decode
    decode_from symbol_step back_reference read_distance refer_back copy_back new_huffman counts_of
    offsets_of place_symbols read_code_lengths read_lengths length_step repeat_last fixed_block
dynamic_length = refl

abbrev ten_letters : Bytes
ten_letters = 0x78 ∷ 0x9c ∷ 0x4b ∷ 0x84 ∷ 0x03 ∷ 0x00 ∷ []

zlib_never_panics_example : Gives (λ (out : Bytes). length out ≤ 10 + 6) (zlib ten_letters 10)
zlib_never_panics_example = zlib_never_panics ten_letters 10

abbrev two_rows : List Row
two_rows =
    record { filter = 1; pixels = 10 ∷ 20 ∷ 30 ∷ 12 ∷ 25 ∷ 37 ∷ [] }
    ∷ record { filter = 4; pixels = 11 ∷ 22 ∷ 33 ∷ 200 ∷ 100 ∷ 50 ∷ [] }
    ∷ []

abbrev two_by_two : Header
two_by_two = record { width = 2; height = 2; colour = 2 }

IsByte-list : (bs : Bytes) → all (λ b. ltb b 256) bs ≡ true → All IsByte bs
IsByte-list [] h = tt
IsByte-list (b ∷ bs) h =
    let (small, rest) = and_true (ltb b 256) (all (λ x. ltb x 256) bs) h in
    (ltb→lt b 256 small, IsByte-list bs rest)

unfilter-filter_rows_example :
    unfilter (filter_rows 3 none two_rows) two_by_two 3 ≡ ok (pixels_of two_rows)
unfilter-filter_rows_example =
    unfilter-filter_rows two_by_two 3 two_rows (omega arith) refl
      (
        (omega arith, refl, IsByte-list (10 ∷ 20 ∷ 30 ∷ 12 ∷ 25 ∷ 37 ∷ []) refl),
        ((omega arith, refl, IsByte-list (11 ∷ 22 ∷ 33 ∷ 200 ∷ 100 ∷ 50 ∷ []) refl), tt),
      )
      (omega arith)

-- The two rows as a file, compressed by stored blocks.
abbrev small_png : Bytes
small_png =
    137 ∷ 80 ∷ 78 ∷ 71 ∷ 13 ∷ 10 ∷ 26 ∷ 10 ∷ 0 ∷ 0 ∷ 0 ∷ 13 ∷ 73 ∷ 72 ∷ 68 ∷ 82 ∷ 0 ∷ 0 ∷ 0 ∷ 2 ∷ 0
    ∷ 0 ∷ 0 ∷ 2 ∷ 8 ∷ 2 ∷ 0 ∷ 0 ∷ 0 ∷ 253 ∷ 212 ∷ 154 ∷ 115 ∷ 0 ∷ 0 ∷ 0 ∷ 25 ∷ 73 ∷ 68 ∷ 65 ∷ 84
    ∷ 120 ∷ 1 ∷ 1 ∷ 14 ∷ 0 ∷ 241 ∷ 255 ∷ 1 ∷ 10 ∷ 20 ∷ 30 ∷ 2 ∷ 5 ∷ 7 ∷ 4 ∷ 1 ∷ 2 ∷ 3 ∷ 188 ∷ 75
    ∷ 13 ∷ 6 ∷ 96 ∷ 1 ∷ 106 ∷ 15 ∷ 146 ∷ 16 ∷ 165 ∷ 0 ∷ 0 ∷ 0 ∷ 0 ∷ 73 ∷ 69 ∷ 78 ∷ 68 ∷ 174 ∷ 66
    ∷ 96 ∷ 130 ∷ []

small_png_pixels :
    decode_png small_png 100
    ≡ ok (record { w = 2; h = 2; has_alpha = false; pixels = pixels_of two_rows })
unfolding decode_png decode_chunks read_chunks take_chunk parse accept_header be32 channels_of
    decode_image zlib inflate inflate_from bit bits bits_from typed_block stored_block align le16
    stored_bytes unfilter unfilter_rows unfilter_row unfilter_byte paeth pixels_of
small_png_pixels = refl

-- The header that the file holds.
small_header :
    (header : Header) (compressed : Bytes)
    → read_chunks (length small_png) small_png 8 (none, []) ≡ ok (some header, compressed)
    → size_of header < u64_mod
unfolding read_chunks take_chunk parse accept_header be32 channels_of
small_header header compressed e =
    let same : size_of two_by_two ≡ size_of header =
      ap
        (λ (r : Result (Option Header × Bytes)). elim r [
          | ok parts ↦ elim parts.0 [ none ↦ 0 | some h ↦ size_of h ]
          | err f ↦ 0
        ])
        e in
    omega (arith, same)

decode_png_never_panics_example : Gives (IsImage 100) (decode_png small_png 100)
decode_png_never_panics_example =
    decode_png_never_panics small_png 100 (IsByte-list small_png refl) (omega arith) small_header

-- Numbers in place of f32: the sum stands for the mean.
abbrev plain_floats : Floats
plain_floats = record {
  F32 = ℕ;
  of_i16 = λ n. n;
  of_bits = λ n. n;
  mean = λ xs n. sum xs / n;
  to_bytes = λ n. n % 256 ∷ n / 256 % 256 ∷ 0 ∷ 0 ∷ [];
}

-- Two frames of two channels each.
abbrev small_wav : Bytes
small_wav =
    82 ∷ 73 ∷ 70 ∷ 70 ∷ 40 ∷ 0 ∷ 0 ∷ 0 ∷ 87 ∷ 65 ∷ 86 ∷ 69 ∷ 102 ∷ 109 ∷ 116 ∷ 32 ∷ 16 ∷ 0 ∷ 0 ∷ 0
    ∷ 1 ∷ 0 ∷ 2 ∷ 0 ∷ 64 ∷ 31 ∷ 0 ∷ 0 ∷ 0 ∷ 125 ∷ 0 ∷ 0 ∷ 4 ∷ 0 ∷ 16 ∷ 0 ∷ 100 ∷ 97 ∷ 116 ∷ 97 ∷ 8
    ∷ 0 ∷ 0 ∷ 0 ∷ 1 ∷ 0 ∷ 3 ∷ 0 ∷ 5 ∷ 0 ∷ 7 ∷ 0 ∷ []

small_wav_samples :
    decode_wav plain_floats small_wav 8
    ≡ ok (record { rate = 8000; samples = 2 ∷ 0 ∷ 0 ∷ 0 ∷ 6 ∷ 0 ∷ 0 ∷ 0 ∷ [] })
unfolding decode_wav read_wave_chunks le32 read_le16 take_wave_chunk parse_format decode_sound
    samples_of samples_i16 mono_of downmix all_bytes le16
small_wav_samples = refl

decode_wav_never_panics_example : Gives (Fits 8) (decode_wav plain_floats small_wav 8)
decode_wav_never_panics_example = decode_wav_never_panics plain_floats (λ x. refl) small_wav 8
