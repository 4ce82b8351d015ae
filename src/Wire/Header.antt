-- ===== src/Wire/Header.antt =====
-- crates/ai-daemon-proto/src/frame.rs: one frame, written and read back.
use ai_daemon.Prelude.{
  ℕ, ◌/◌, ◌%◌, ◌≤◌, ◌<◌, ◌≡◌, refl, subst, ◌↔◌, inl, inr, false, Option, none, some, [], ◌∷◌, ◌++◌,
  arith, length, ltb, Bool-cases,
}
use ai_daemon.Wire.{
  Bytes, max_frame, split_at, header, from_be_bytes, write_raw, interpret, read_body, read_frame,
}

pub split_at-append : (xs ys : Bytes) → split_at (length xs) (xs ++ ys) ≡ some (xs, ys)
unfolding split_at
split_at-append [] ys = refl
split_at-append (x ∷ xs) ys = rw (split_at-append xs ys)

from_be_bytes-header :
    (n : ℕ)
    → n < 4294967296
    → from_be_bytes (n / 16777216 % 256) (n / 65536 % 256) (n / 256 % 256) (n % 256) ≡ n
unfolding from_be_bytes
from_be_bytes-header n h = omega arith

pub write_raw-fits :
    (kind : ℕ) (p : Bytes)
    → length p ≤ max_frame
    → write_raw kind p ≡ some (header (length p) kind ++ p)
unfolding write_raw
write_raw-fits kind p h = ground arith

write_raw_too_large : (kind : ℕ) (p : Bytes) → max_frame < length p → write_raw kind p ≡ none
unfolding write_raw
write_raw_too_large kind p h = ground arith

read_body-fits :
    {V : Type 0} (from_reader : Bytes → Option V) (kind : ℕ) (p rest : Bytes)
    → length p ≤ max_frame
    → read_body from_reader (length p) kind (p ++ rest) ≡ interpret from_reader kind p rest
unfolding read_body
read_body-fits from_reader kind p rest h =
    let small : ltb max_frame (length p) ≡ false = ground arith in
    rw (read_body, small, split_at-append p rest)

pub read_frame-header :
    {V : Type 0} (from_reader : Bytes → Option V) (kind : ℕ) (p rest : Bytes)
    → length p ≤ max_frame
    → read_frame from_reader ((header (length p) kind ++ p) ++ rest)
      ≡ interpret from_reader kind p rest
unfolding read_frame header
read_frame-header from_reader kind p rest h =
    rw (from_be_bytes-header (length p) (omega (arith, h)))
      (read_body-fits from_reader kind p rest h)

-- One frame comes back as it was written, whatever follows it on the stream: for a payload that
-- the writer accepts the reader finds its kind and its bytes and stops where it ends. The writer
-- refuses a payload just where it is longer than 64 MiB.
pub read_frame-write_raw :
    {V : Type 0} (from_reader : Bytes → Option V) (kind : ℕ) (p : Bytes)
    → ((bytes rest : Bytes)
        → write_raw kind p ≡ some bytes
        → read_frame from_reader (bytes ++ rest) ≡ interpret from_reader kind p rest)
      × ((write_raw kind p ≡ none) ↔ (max_frame < length p))
read_frame-write_raw from_reader kind p = elim (Bool-cases (ltb max_frame (length p))) [
  | inl e ↦
      let refused = write_raw_too_large kind p (ground arith) in
      ((λ bytes rest w. cc), ((λ _. ground arith), (λ _. refused)))
  | inr e ↦
      let fits : length p ≤ max_frame = ground arith in
      let accepted = write_raw-fits kind p fits in
      (
        (λ bytes rest w.
            let same : header (length p) kind ++ p ≡ bytes = cc in
            subst (λ b. read_frame from_reader (b ++ rest) ≡ interpret from_reader kind p rest) same
              (read_frame-header from_reader kind p rest fits)),
        ((λ n. cc), (λ large. ground arith)),
      )
]
