-- ===== src/Wire.antt =====
-- crates/ai-daemon-proto/src/frame.rs: the framing of the data plane, and the loop that gathers a
-- payload from its frames (`read_reply` in crates/ai-daemon/src/decode.rs). A stream is the list
-- of the bytes that the peer sends before it closes; CBOR is a library, and its reader and writer
-- are parameters, `none` where they fail.
pub mod Header
pub mod Payload
pub mod Ends
pub mod Tests
use ai_daemon.Prelude.{
  ℕ, zero, suc, ◌+◌, ◌-◌, ◌*◌, ◌/◌, ◌%◌, ◌^◌, ◌≤◌, ◌<◌, String, ◌≡◌, refl, sym, ap, ap₂, append-nil,
  ◌∙◌, subst, ◌≢◌, ◌↔◌, ◌⊎◌, inl, inr, Bool, true, false, ◌&&◌, ◌||◌, not, Option, none, some, List,
  [], ◌∷◌, ◌++◌, map, Memᴰ, arith, length, any, all, filter, find, count, All, All-mem, all-mem,
  find-mem, mem-append_left, mem-append_right, All-append, All-append_left, All-append_right,
  All-filter_test, All-both, All-filter, length-append, count-append, count-filter-le, mem-map,
  map-append_one, Uniq, Uniq-filter, Uniq-append, Uniq-append_left, Uniq-append_one, All-imp,
  mem-filter, mem-append_cases, mem-of_map, not-mem_nil, StrMap, get, insert, remove, Distinct,
  total, weight, get-insert, get-remove_ne, get-remove_self, remove-Distinct, insert-Distinct,
  total-insert, total-remove, weight-le-total, All-get, keys_ne, Distinct-Uniq, total-append,
  total-filters, get-mem, sort_insert, sort_by_key, IsSortedBy, All-sort_by_key,
  sort_by_key-IsSortedBy, sort_by_key-perm, Uniq-sort_by_key, mem-sort_by_key, IsSortedBy-split,
  total-sort_by_key, ltb, leb, ◌==◌, str_eq, if◌then◌else◌, str_eq_iff, str_eq_refl, str_eq_ne,
  ltb→lt, ltb-false, leb→le, Bool-cases, Option-cases, and_true, u64_mod, add_u64, u32_mod,
  str_append, is_whitespace, is_blank,
}

abbrev pub Bytes : Type 0
Bytes = List ℕ

abbrev pub kind_cbor : ℕ
kind_cbor = 1

abbrev pub kind_blob : ℕ
kind_blob = 2

abbrev pub max_frame : ℕ
max_frame = 64 * 1024 * 1024

abbrev pub blob_chunk : ℕ
blob_chunk = 8 * 1024 * 1024

pub data Frame (V : Type 0) : Type 0 where
  cbor : V → Frame V
  blob : Bytes → Frame V

pub data ReadError : Type 0 where
  unexpected_eof too_large malformed unknown_kind : ReadError

-- `Ok(None)`, `Err` and `Ok(Some(frame))` with what is left of the stream.
pub data Read (V : Type 0) : Type 0 where
  closed : Read V
  failed : ReadError → Read V
  got : Frame V → Bytes → Read V

-- The first `n` bytes and the rest, where there are as many.
unfoldable pub split_at : ℕ → Bytes → Option (Bytes × Bytes)
split_at zero xs = some ([], xs)
split_at (suc n) [] = none
split_at (suc n) (x ∷ xs) = elim (split_at n xs) [ none ↦ none | some (a, b) ↦ some (x ∷ a, b) ]

-- `u32::to_be_bytes`, with the kind behind it: the header of a frame.
unfoldable pub header : ℕ → ℕ → Bytes
header len kind = len / 16777216 % 256 ∷ len / 65536 % 256 ∷ len / 256 % 256 ∷ len % 256 ∷ kind ∷ []

unfoldable pub from_be_bytes : ℕ → ℕ → ℕ → ℕ → ℕ
from_be_bytes a b c d = a * 16777216 + b * 65536 + c * 256 + d

-- The bytes that `write_raw` puts on the stream; `none` is its error, before any byte.
unfoldable pub write_raw : ℕ → Bytes → Option Bytes
write_raw kind payload =
    if leb u32_mod (length payload) || ltb max_frame (length payload)
    then none
    else some (header (length payload) kind ++ payload)

-- `slice::chunks`, on as much fuel as there are bytes.
unfoldable pub chunks : ℕ → ℕ → Bytes → List Bytes
chunks zero size xs = []
chunks (suc fuel) size [] = []
chunks (suc fuel) size (x ∷ xs) = elim (split_at size (x ∷ xs)) [
  | none ↦ (x ∷ xs) ∷ []
  | some (a, b) ↦ a ∷ chunks fuel size b
]

unfoldable pub write_chunks : List Bytes → Option Bytes
write_chunks [] = some []
write_chunks (c ∷ cs) = elim (write_raw kind_blob c) [
  | none ↦ none
  | some bytes ↦ elim (write_chunks cs) [ none ↦ none | some rest ↦ some (bytes ++ rest) ]
]

unfoldable pub write_blob : Bytes → Option Bytes
write_blob bytes = write_chunks (chunks (length bytes) blob_chunk bytes)

unfoldable pub write_cbor : {T : Type 0} → (T → Option Bytes) → T → Option Bytes
write_cbor into_writer value = elim (into_writer value) [
  | none ↦ none
  | some buf ↦ write_raw kind_cbor buf
]

module _ {V : Type 0} (from_reader : Bytes → Option V) where
  -- What a payload of a kind is.
  unfoldable pub interpret : ℕ → Bytes → Bytes → Read V
  interpret kind payload rest =
      if kind == kind_cbor
      then elim (from_reader payload) [ none ↦ failed malformed | some v ↦ got (cbor v) rest ]
      else if kind == kind_blob
      then got (blob payload) rest
      else failed unknown_kind

  unfoldable pub read_body : ℕ → ℕ → Bytes → Read V
  read_body len kind s = if ltb max_frame len then failed too_large else elim (split_at len s) [
    | none ↦ failed unexpected_eof
    | some (payload, rest) ↦ interpret kind payload rest
  ]

  unfoldable pub read_frame : Bytes → Read V
  read_frame [] = closed
  read_frame (a ∷ b ∷ c ∷ d ∷ kind ∷ s) = read_body (from_be_bytes a b c d) kind s
  read_frame (a ∷ []) = failed unexpected_eof
  read_frame (a ∷ b ∷ []) = failed unexpected_eof
  read_frame (a ∷ b ∷ c ∷ []) = failed unexpected_eof
  read_frame (a ∷ b ∷ c ∷ d ∷ []) = failed unexpected_eof

-- How the loop of `read_reply` ends.
pub data Gathered : Type 0 where
  whole : Bytes → Bytes → Gathered
  stopped_midway interrupted out_of_fuel : Gathered
  broken : ReadError → Gathered

module _ {V : Type 0} (from_reader : Bytes → Option V) where
  -- Frames are read until `len` bytes are there.
  unfoldable pub gather : ℕ → ℕ → Bytes → Bytes → Gathered
  gather zero len data_read s = out_of_fuel
  gather (suc fuel) len data_read s =
      if leb len (length data_read) then whole data_read s else elim (read_frame from_reader s) [
        | closed ↦ stopped_midway
        | failed why ↦ broken why
        | got (cbor v) rest ↦ interrupted
        | got (blob chunk) rest ↦ gather fuel len (data_read ++ chunk) rest
      ]
