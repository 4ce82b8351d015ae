-- ===== src/Session/Attachments.antt =====
-- crates/ai-daemon/src/session.rs, `attach` and `check_attachment_budget`. The decoder is a
-- process of its own: the parameter `decode` is its answer, `none` where it fails.
pub mod Drain
pub mod Limits
use ai_daemon.Prelude.{
  ℕ, zero, suc, ◌+◌, ◌-◌, ◌*◌, ◌/◌, ◌%◌, ◌^◌, ◌≤◌, ◌<◌, String, ◌≡◌, refl, sym, ap, ap₂, append-nil,
  append_assoc, ◌∙◌, subst, ◌≢◌, ◌↔◌, ◌⊎◌, inl, inr, Bool, true, false, ◌&&◌, ◌||◌, not, Option,
  none, some, List, [], ◌∷◌, ◌++◌, map, Memᴰ, arith, length, any, all, filter, find, count, All,
  All-mem, all-mem, find-mem, mem-append_left, mem-append_right, All-append, All-append_left,
  All-append_right, All-filter_test, All-both, All-filter, length-append, count-append,
  count-filter-le, mem-map, map-append_one, Uniq, Uniq-filter, Uniq-append, Uniq-append_left,
  Uniq-append_one, All-imp, mem-filter, mem-append_cases, mem-of_map, not-mem_nil, StrMap, get,
  insert, remove, Distinct, total, weight, get-insert, get-remove_ne, get-remove_self,
  remove-Distinct, insert-Distinct, total-insert, total-remove, weight-le-total, All-get, keys_ne,
  Distinct-Uniq, total-append, total-filters, get-mem, sort_insert, sort_by_key, IsSortedBy,
  All-sort_by_key, sort_by_key-IsSortedBy, sort_by_key-perm, Uniq-sort_by_key, mem-sort_by_key,
  IsSortedBy-split, total-sort_by_key, ltb, leb, ◌==◌, str_eq, if◌then◌else◌, str_eq_iff,
  str_eq_refl, str_eq_ne, ltb→lt, ltb-false, leb→le, Bool-cases, Option-cases, and_true, u64_mod,
  add_u64, u32_mod, str_append, is_whitespace, is_blank,
}
use ai_daemon.Wire.{Bytes, Frame, cbor, blob}

pub record Budget : Type 0 where
  pub max_bytes : ℕ
  pub max_pixels : ℕ
  pub max_samples : ℕ
  pub max_per_session : ℕ
  pub allow_encoded : Bool

pub data AttachKind : Type 0 where
  image audio : AttachKind

pub record AttachMeta : Type 0 where
  pub w : Option ℕ
  pub h : Option ℕ
  pub fmt : Option String
  pub rate : Option ℕ
  pub encoded : Option String

pub record RawAttachment : Type 0 where
  pub id : String
  pub kind : AttachKind
  pub w : Option ℕ
  pub h : Option ℕ
  pub fmt : Option String
  pub rate : Option ℕ
  pub data_bytes : Bytes

-- Of the session what attachments change.
pub record Holding : Type 0 where
  pub attachments : StrMap RawAttachment
  pub attachment_bytes : ℕ

pub data Denial : Type 0 where
  no_size too_many_pixels bad_format wrong_length no_rate too_many_samples not_pcm : Denial

pub data Attached : Type 0 where
  stored over_limit holds_enough cut_in_on peer_gone exceeded encoded_refused decode_failed :
      Attached
  over_budget : Denial → Attached

abbrev pub or_zero : Option ℕ → ℕ
or_zero none = 0
or_zero (some n) = n

-- `u64::saturating_mul`.
abbrev pub saturating_mul : ℕ → ℕ → ℕ
saturating_mul a b = if ltb (a * b) u64_mod then a * b else u64_mod - 1

unfoldable pub bytes_per_pixel : Option String → Option ℕ
bytes_per_pixel none = some 4
bytes_per_pixel (some f) =
    if str_eq f "rgb8" then some 3 else if str_eq f "rgba8" then some 4 else none

unfoldable pub check_pixels : ℕ → Option ℕ → ℕ → Option Denial
check_pixels pixels none size = some bad_format
check_pixels pixels (some per_pixel) size =
    if size == saturating_mul pixels per_pixel then none else some wrong_length

unfoldable pub check_image : Budget → RawAttachment → Option Denial
check_image budget raw =
    let pixels = saturating_mul (or_zero raw.w) (or_zero raw.h) in
    if or_zero raw.w == 0 || or_zero raw.h == 0
    then some no_size
    else if ltb budget.max_pixels pixels
    then some too_many_pixels
    else check_pixels pixels (bytes_per_pixel raw.fmt) (length raw.data_bytes)

unfoldable pub check_audio : Budget → RawAttachment → Option Denial
check_audio budget raw =
    if or_zero raw.rate == 0
    then some no_rate
    else if ltb budget.max_samples (length raw.data_bytes / 4)
    then some too_many_samples
    else if length raw.data_bytes % 4 == 0
    then none
    else some not_pcm

-- `check_attachment_budget`; `none` is `Ok`.
unfoldable pub check_attachment_budget : Budget → AttachKind → RawAttachment → Option Denial
check_attachment_budget budget image raw = check_image budget raw
check_attachment_budget budget audio raw = check_audio budget raw

pub data Drained : Type 0 where
  all_there : Bytes → Drained
  interrupted exhausted too_long : Drained

-- The loop that takes the declared payload off the stream, with the frames that are left.
unfoldable pub drain : {V : Type 0} → ℕ → Bytes → List (Frame V) → Drained × List (Frame V)
drain len payload [] = if leb len (length payload) then (all_there payload, []) else (exhausted, [])
drain len payload (cbor v ∷ frames) =
    if leb len (length payload) then (all_there payload, cbor v ∷ frames) else (interrupted, frames)
drain len payload (blob chunk ∷ frames) =
    let more = drain len (payload ++ chunk) frames in
    if leb len (length payload)
    then (all_there payload, blob chunk ∷ frames)
    else if ltb len (length (payload ++ chunk))
    then (too_long, frames)
    else more

module _ (decode : String → Bytes → Option RawAttachment) where
  -- The attachment that a payload is; on the left the reason that there is none.
  unfoldable pub raw_of :
      Budget → String → AttachKind → AttachMeta → Bytes → Attached ⊎ RawAttachment
  raw_of budget id kind meta payload = elim meta.encoded [
    | some hint ↦
        if not budget.allow_encoded then inl encoded_refused else elim (decode hint payload) [
          | none ↦ inl decode_failed
          | some out ↦ inr (record out { id = id; kind = kind })
        ]
    | none ↦ inr (record {
      id = id;
      kind = kind;
      w = meta.w;
      h = meta.h;
      fmt = meta.fmt;
      rate = meta.rate;
      data_bytes = payload;
    })
  ]

  unfoldable pub keep : Budget → AttachKind → RawAttachment → Holding → Holding × Attached
  keep budget kind raw s = elim (check_attachment_budget budget kind raw) [
    | some why ↦ (s, over_budget why)
    | none ↦ (
      record {
        attachments = insert raw.id raw s.attachments;
        attachment_bytes = add_u64 s.attachment_bytes (length raw.data_bytes);
      },
      stored,
    )
  ]

  unfoldable pub accept :
      Budget → String → AttachKind → AttachMeta → Drained → Holding → Holding × Attached
  accept budget id kind meta interrupted s = (s, cut_in_on)
  accept budget id kind meta exhausted s = (s, peer_gone)
  accept budget id kind meta too_long s = (s, exceeded)
  accept budget id kind meta (all_there payload) s = elim (raw_of budget id kind meta payload) [
    | inl why ↦ (s, why)
    | inr raw ↦ keep budget kind raw s
  ]

  -- `Worker::attach`, with the frames that are left.
  unfoldable pub attach :
      {V : Type 0}
      → Budget
      → String
      → AttachKind
      → AttachMeta
      → ℕ
      → List (Frame V)
      → Holding
      → Holding × List (Frame V) × Attached
  attach budget id kind meta len frames s =
      let (drained, left) = drain len [] frames in
      let (after, how) = accept budget id kind meta drained s in
      if ltb budget.max_bytes len
      then (s, frames, over_limit)
      else if leb budget.max_per_session (length s.attachments % u32_mod)
      then (s, frames, holds_enough)
      else (after, left, how)
