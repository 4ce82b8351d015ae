-- ===== src/Decoder/Wav.antt =====
-- crates/ai-daemon-decode/src/main.rs, `mod wav`. What the source uses of f32 is an argument.
pub mod Bounds
use ai_daemon.Prelude.{
  ℕ, zero, suc, ◌+◌, ◌-◌, ◌*◌, ◌/◌, ◌%◌, ◌^◌, ◌≤◌, ◌<◌, String, ◌≡◌, refl, sym, ap, ap₂, append-nil,
  append_assoc, ◌∙◌, subst, ◌≢◌, ◌↔◌, ◌⊎◌, inl, inr, Bool, true, false, ◌&&◌, ◌||◌, not, Option,
  none, some, List, [], ◌∷◌, ◌++◌, map, Memᴰ, arith, get_elem?, set, replicate, take, drop, slice,
  length-set, length-replicate, get_elem?-lt, take-drop, length-take_le, take-append, drop-append,
  length-drop, get_elem?-replicate, all-get_elem?, get_elem?-within, get_elem?-set_same,
  get_elem?-set_other, length-slice, All-set, All-replicate, All-take, All-drop, sum, sum-set,
  sum-replicate_zero, length, any, all, filter, find, count, All, All-mem, all-mem, find-mem,
  mem-append_left, mem-append_right, All-append, All-append_left, All-append_right, All-filter_test,
  All-both, All-filter, length-append, count-append, count-filter-le, mem-map, map-append_one, Uniq,
  Uniq-filter, Uniq-append, Uniq-append_left, Uniq-append_one, All-imp, mem-filter,
  mem-append_cases, mem-of_map, not-mem_nil, StrMap, get, insert, remove, Distinct, total, weight,
  get-insert, get-remove_ne, get-remove_self, remove-Distinct, insert-Distinct, total-insert,
  total-remove, weight-le-total, All-get, keys_ne, Distinct-Uniq, total-append, total-filters,
  get-mem, sort_insert, sort_by_key, IsSortedBy, All-sort_by_key, sort_by_key-IsSortedBy,
  sort_by_key-perm, Uniq-sort_by_key, mem-sort_by_key, IsSortedBy-split, total-sort_by_key, ltb,
  leb, ◌==◌, str_eq, if◌then◌else◌, str_eq_iff, str_eq_refl, str_eq_ne, ltb→lt, ltb-false, leb→le,
  Bool-cases, Option-cases, and_true, u64_mod, add_u64, u32_mod, str_append, is_whitespace,
  is_blank,
}
use ai_daemon.Decoder.{
  Fault, not_wave, short_format, no_format, no_data, unsupported_format, over_limit, out_of_fuel,
  Result, ok, err, ◌>>=◌, index, sub,
}
use ai_daemon.Decoder.Bits.{Bytes}
use ai_daemon.Decoder.Inflate.{le16}
use ai_daemon.Decoder.Png.{bytes_eq}

-- Conversions from the bits of an i16 and of an f32, the mean of a frame, and `to_le_bytes`.
pub record Floats : Type 1 where
  pub F32 : Type 0
  pub of_i16 : ℕ → F32
  pub of_bits : ℕ → F32
  pub mean : List F32 → ℕ → F32
  pub to_bytes : F32 → Bytes

-- The fields of a "fmt " chunk that are read.
pub record Format : Type 0 where
  pub tag : ℕ
  pub channels : ℕ
  pub rate : ℕ
  pub depth : ℕ

pub record Sound : Type 0 where
  pub rate : ℕ
  pub samples : Bytes

unfoldable pub le32 : ℕ → Bytes → Result ℕ
le32 i bytes = do
  a ← index bytes i
  b ← index bytes (i + 1)
  c ← index bytes (i + 2)
  d ← index bytes (i + 3)
  ok (a + b * 256 + c * 65536 + d * 16777216)

unfoldable pub read_le16 : ℕ → Bytes → Result ℕ
read_le16 i bytes = do a ← index bytes i; b ← index bytes (i + 1); ok (le16 a b)

-- "RIFF", "WAVE", "fmt " and "data".
abbrev pub riff : Bytes
riff = 82 ∷ 73 ∷ 70 ∷ 70 ∷ []

abbrev pub wave : Bytes
wave = 87 ∷ 65 ∷ 86 ∷ 69 ∷ []

abbrev pub fmt_id : Bytes
fmt_id = 102 ∷ 109 ∷ 116 ∷ 32 ∷ []

abbrev pub data_id : Bytes
data_id = 100 ∷ 97 ∷ 116 ∷ 97 ∷ []

unfoldable pub parse_format : Bytes → Result Format
parse_format chunk = if ltb (length chunk) 16 then err short_format else (do
  tag ← read_le16 0 chunk
  channels ← read_le16 2 chunk
  rate ← le32 4 chunk
  depth ← read_le16 14 chunk
  ok (record { tag = tag; channels = channels; rate = rate; depth = depth }))

-- What the loop over the chunks has read: the format and the data.
abbrev pub WaveParts : Type 0
WaveParts = Option Format × Option Bytes

unfoldable pub take_wave_chunk : Bytes → Bytes → WaveParts → Result WaveParts
take_wave_chunk id chunk (format, samples) =
    if bytes_eq id fmt_id
    then (parse_format chunk >>= λ f. ok (some f, samples))
    else if bytes_eq id data_id
    then ok (format, some chunk)
    else ok (format, samples)

abbrev pub min : ℕ → ℕ → ℕ
min a b = if leb a b then a else b

unfoldable pub read_wave_chunks : ℕ → Bytes → ℕ → WaveParts → Result WaveParts
read_wave_chunks zero bytes offset parts = err out_of_fuel
read_wave_chunks (suc fuel) bytes offset parts =
    if ltb (length bytes) (offset + 8) then ok parts else (do
      id ← sub offset 4 bytes
      size ← le32 (offset + 4) bytes
      let start = offset + 8
      let end = min (start + size) (length bytes)
      chunk ← sub start (end - start) bytes
      parts' ← take_wave_chunk id chunk parts
      read_wave_chunks fuel bytes (end + size % 2) parts')

module _ (floats : Floats) where
  -- `chunks_exact(2)` and `chunks_exact(4)`, with the conversion of each.
  unfoldable pub samples_i16 : Bytes → List floats.F32
  samples_i16 [] = []
  samples_i16 (a ∷ []) = []
  samples_i16 (a ∷ b ∷ rest) = floats.of_i16 (le16 a b) ∷ samples_i16 rest

  unfoldable pub samples_f32 : Bytes → List floats.F32
  samples_f32 [] = []
  samples_f32 (a ∷ []) = []
  samples_f32 (a ∷ b ∷ []) = []
  samples_f32 (a ∷ b ∷ c ∷ []) = []
  samples_f32 (a ∷ b ∷ c ∷ d ∷ rest) =
      floats.of_bits (a + b * 256 + c * 65536 + d * 16777216) ∷ samples_f32 rest

  -- `chunks(channels)` with the mean of each; `frame` is the one that is being filled.
  unfoldable pub downmix : ℕ → List floats.F32 → List floats.F32 → List floats.F32
  downmix channels [] [] = []
  downmix channels (f ∷ frame) [] = floats.mean (f ∷ frame) channels ∷ []
  downmix channels frame (x ∷ xs) = elim (leb channels (length frame + 1)) [
    | true ↦ floats.mean (frame ++ (x ∷ [])) channels ∷ downmix channels [] xs
    | false ↦ downmix channels (frame ++ (x ∷ [])) xs
  ]

  unfoldable pub all_bytes : List floats.F32 → Bytes
  all_bytes [] = []
  all_bytes (x ∷ xs) = floats.to_bytes x ++ all_bytes xs

  unfoldable pub samples_of : Format → Bytes → Result (List floats.F32)
  samples_of format bytes =
      if (format.tag == 1) && (format.depth == 16)
      then ok (samples_i16 bytes)
      else if (format.tag == 3) && (format.depth == 32)
      then ok (samples_f32 bytes)
      else err unsupported_format

  unfoldable pub mono_of : ℕ → List floats.F32 → List floats.F32
  mono_of channels samples = if channels == 1 then samples else downmix channels [] samples

  -- `decode` once the chunks are read.
  unfoldable pub decode_sound : WaveParts → ℕ → Result Sound
  decode_sound (none, bytes) max_output = err no_format
  decode_sound (some format, none) max_output = err no_data
  decode_sound (some format, some bytes) max_output = do
    samples ← samples_of format bytes
    let mono = mono_of (if leb 1 format.channels then format.channels else 1) samples
    if ltb max_output (length mono * 4)
        then err over_limit
        else ok (record { rate = format.rate; samples = all_bytes mono })

  unfoldable pub decode_wav : Bytes → ℕ → Result Sound
  decode_wav bytes max_output = if ltb (length bytes) 12 then err not_wave else (do
    begin ← sub 0 4 bytes
    kind ← sub 8 4 bytes
    if not (bytes_eq begin riff) || not (bytes_eq kind wave)
        then err not_wave
        else (read_wave_chunks (length bytes) bytes 12 (none, none) >>= λ parts.
            decode_sound parts max_output))
