-- ===== src/Wire/Tests.antt =====
-- crates/ai-daemon-proto/src/frame.rs: the theorems at short payloads, and the cases of its tests.
use ai_daemon.Prelude.{◌<◌, ◌≡◌, refl, ◌≢◌, ◌↔◌, Option, none, some, [], ◌∷◌, ◌++◌, arith}
use ai_daemon.Wire.{
  Bytes, closed, failed, too_large, unknown_kind, split_at, header, from_be_bytes, write_raw,
  chunks, write_chunks, write_blob, interpret, read_body, read_frame, whole, gather, stopped_midway,
  out_of_fuel, max_frame,
}
use ai_daemon.Wire.Ends.{gather_ends}
use ai_daemon.Wire.Header.{read_frame-write_raw}
use ai_daemon.Wire.Payload.{gather-write_blob}

-- A reader that keeps the bytes, in place of CBOR.
abbrev raw : Bytes → Option Bytes
raw bytes = some bytes

read_frame-write_raw_example :
    ((bytes rest : Bytes)
      → write_raw 2 (7 ∷ 8 ∷ []) ≡ some bytes
      → read_frame raw (bytes ++ rest) ≡ interpret raw 2 (7 ∷ 8 ∷ []) rest)
    × ((write_raw 2 (7 ∷ 8 ∷ []) ≡ none) ↔ (max_frame < 2))
read_frame-write_raw_example = read_frame-write_raw raw 2 (7 ∷ 8 ∷ [])

gather-write_blob_example :
    (bytes : Bytes) × (write_blob (7 ∷ 8 ∷ 9 ∷ []) ≡ some bytes)
    × ((rest : Bytes) → gather raw 4 3 [] (bytes ++ rest) ≡ whole (7 ∷ 8 ∷ 9 ∷ []) rest)
gather-write_blob_example = gather-write_blob raw (7 ∷ 8 ∷ 9 ∷ []) 4 (omega arith)

written_out : write_raw 2 (7 ∷ 8 ∷ []) ≡ some (0 ∷ 0 ∷ 0 ∷ 2 ∷ 2 ∷ 7 ∷ 8 ∷ [])
unfolding write_raw header
written_out = refl

nothing_to_read : read_frame raw [] ≡ closed
unfolding read_frame
nothing_to_read = refl

-- A length over the ceiling is refused before its payload is looked at.
oversized : read_frame raw (255 ∷ 255 ∷ 255 ∷ 255 ∷ 1 ∷ []) ≡ failed too_large
unfolding read_frame read_body from_be_bytes
oversized = refl

no_such_kind : read_frame raw (0 ∷ 0 ∷ 0 ∷ 1 ∷ 9 ∷ 5 ∷ []) ≡ failed unknown_kind
unfolding read_frame read_body from_be_bytes split_at interpret
no_such_kind = refl

cut_short : gather raw 9 3 [] (0 ∷ 0 ∷ 0 ∷ 1 ∷ 2 ∷ 5 ∷ []) ≡ stopped_midway
unfolding gather read_frame read_body from_be_bytes split_at interpret
cut_short = refl

-- An empty payload puts nothing on the stream.
empty_blob : write_blob [] ≡ some []
unfolding write_blob chunks write_chunks
empty_blob = refl

two_chunks : chunks 5 2 (1 ∷ 2 ∷ 3 ∷ []) ≡ (1 ∷ 2 ∷ []) ∷ (3 ∷ []) ∷ []
unfolding chunks split_at
two_chunks = refl

-- Empty frames for ever, as far as the stream goes.
gather_ends_example : gather raw 11 3 [] (0 ∷ 0 ∷ 0 ∷ 0 ∷ 2 ∷ 0 ∷ 0 ∷ 0 ∷ 0 ∷ 2 ∷ []) ≢ out_of_fuel
gather_ends_example =
    gather_ends raw 11 3 [] (0 ∷ 0 ∷ 0 ∷ 0 ∷ 2 ∷ 0 ∷ 0 ∷ 0 ∷ 0 ∷ 2 ∷ []) (omega arith)
