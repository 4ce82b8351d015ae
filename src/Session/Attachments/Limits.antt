-- ===== src/Session/Attachments/Limits.antt =====
-- crates/ai-daemon/src/session.rs, `attach`: what an attachment that was stored is within.
use ai_daemon.Wire.Payload.{joined}
use ai_daemon.Session.Attachments.Drain.{TookAll, drain-Took}
use Prim.{absurd}
use ai_daemon.Prelude.{
  ℕ, ◌*◌, ◌/◌, ◌%◌, ◌≤◌, ◌<◌, String, ◌≡◌, refl, sym, ap, ◌∙◌, subst, ◌≢◌, ◌⊎◌, inl, inr, Option,
  none, some, List, [], ◌++◌, map, arith, length, get, insert, get-insert, str_eq_refl,
  Option-cases, u64_mod, u32_mod,
}
use ai_daemon.Wire.{Bytes, Frame, blob}
use ai_daemon.Session.Attachments.{
  Budget, AttachKind, image, audio, AttachMeta, RawAttachment, Holding, Denial, Attached, stored,
  or_zero, over_budget, saturating_mul, bytes_per_pixel, check_pixels, check_image, check_audio,
  check_attachment_budget, Drained, all_there, interrupted, exhausted, too_long, drain, raw_of,
  keep, accept, attach,
}

-- What the budget allows of an attachment: pixels that are counted exactly, each with its bytes,
-- or whole samples at a rate.
pub record Allowed (budget : Budget) (kind : AttachKind) (raw : RawAttachment) : Type 0 where
  pub pixels : kind ≡ image → or_zero raw.w * or_zero raw.h ≤ budget.max_pixels
  pub sized : kind ≡ image → (0 < or_zero raw.w) × (0 < or_zero raw.h)
  pub exact :
      kind ≡ image
      → (n : ℕ) × (bytes_per_pixel raw.fmt ≡ some n)
        × (length raw.data_bytes ≡ or_zero raw.w * or_zero raw.h * n)
  pub samples :
      kind ≡ audio
      → (0 < or_zero raw.rate)
        × (length raw.data_bytes % 4 ≡ 0)
        × (length raw.data_bytes / 4 ≤ budget.max_samples)

per_pixel_cases : (f : Option String) (n : ℕ) → bytes_per_pixel f ≡ some n → (n ≡ 3) ⊎ (n ≡ 4)
unfolding bytes_per_pixel
per_pixel_cases none n h = ground arith
per_pixel_cases (some f) n h = ground arith

saturating_mul_exact :
    (a b m : ℕ) → saturating_mul a b ≤ m → 4 * m < u64_mod → saturating_mul a b ≡ a * b
saturating_mul_exact a b m h small = ground arith

three_or_four :
    (p n m : ℕ) → (n ≡ 3) ⊎ (n ≡ 4) → p ≤ m → 4 * m < u64_mod → saturating_mul p n ≡ p * n
three_or_four p n m (inl e) h small = subst (λ k. saturating_mul p k ≡ p * k) (sym e) (ground arith)
three_or_four p n m (inr e) h small = subst (λ k. saturating_mul p k ≡ p * k) (sym e) (ground arith)

check_pixels-exact :
    (p : ℕ) (f : Option ℕ) (size : ℕ)
    → check_pixels p f size ≡ none
    → (n : ℕ) × (f ≡ some n) × (size ≡ saturating_mul p n)
unfolding check_pixels
check_pixels-exact p none size h = cc
check_pixels-exact p (some n) size h = (n, refl, ground arith)

check_image-size :
    (budget : Budget) (raw : RawAttachment)
    → check_image budget raw ≡ none
    → ((0 < or_zero raw.w) × (0 < or_zero raw.h))
      × (saturating_mul (or_zero raw.w) (or_zero raw.h) ≤ budget.max_pixels)
      × (check_pixels
            (saturating_mul (or_zero raw.w) (or_zero raw.h))
            (bytes_per_pixel raw.fmt)
            (length raw.data_bytes)
          ≡ none)
unfolding check_image
check_image-size budget raw h = ground arith

check_audio-samples :
    (budget : Budget) (raw : RawAttachment)
    → check_audio budget raw ≡ none
    → (0 < or_zero raw.rate)
      × (length raw.data_bytes % 4 ≡ 0)
      × (length raw.data_bytes / 4 ≤ budget.max_samples)
unfolding check_audio
check_audio-samples budget raw h = ground arith

check-Allowed :
    (budget : Budget) (kind : AttachKind) (raw : RawAttachment)
    → 4 * budget.max_pixels < u64_mod
    → check_attachment_budget budget kind raw ≡ none
    → Allowed budget kind raw
unfolding check_attachment_budget
check-Allowed budget image raw small h =
    let w = or_zero raw.w in
    let tall = or_zero raw.h in
    let (sizes, within, format) = check_image-size budget raw h in
    let exact_pixels = saturating_mul_exact w tall budget.max_pixels within small in
    let (n, is_n, size) =
      check_pixels-exact (saturating_mul w tall) (bytes_per_pixel raw.fmt) (length raw.data_bytes)
        format in
    let product =
      three_or_four (saturating_mul w tall) n budget.max_pixels (per_pixel_cases raw.fmt n is_n)
        within small in
    record {
      pixels = λ _. subst (λ p. p ≤ budget.max_pixels) exact_pixels within;
      sized = λ _. sizes;
      exact = λ _. (n, is_n, size ∙ product ∙ ap (λ p. p * n) exact_pixels);
      samples = λ e. cc;
    }
check-Allowed budget audio raw small h = record {
  pixels = λ e. cc;
  sized = λ e. cc;
  exact = λ e. cc;
  samples = λ _. check_audio-samples budget raw h;
}

sum_cases : {A B : Type 0} (x : A ⊎ B) → ((a : A) × (x ≡ inl a)) ⊎ ((b : B) × (x ≡ inr b))
sum_cases (inl a) = inl (a, refl)
sum_cases (inr b) = inr (b, refl)

-- Under the id is an attachment that the budget allows.
abbrev pub Stored : Budget → String → AttachKind → Holding → Type 0
Stored budget id kind after =
    (raw : RawAttachment) × (get id after.attachments ≡ some raw) × Allowed budget kind raw

module _ (decode : String → Bytes → Option RawAttachment) where
  keep_refused :
      (budget : Budget) (kind : AttachKind) (raw : RawAttachment) (s : Holding) (why : Denial)
      → check_attachment_budget budget kind raw ≡ some why
      → keep decode budget kind raw s ≡ (s, over_budget why)
  unfolding keep
  keep_refused budget kind raw s why e = rw (e, keep)

  keep_allowed :
      (budget : Budget) (kind : AttachKind) (raw : RawAttachment) (s : Holding)
      → check_attachment_budget budget kind raw ≡ none
      → (keep decode budget kind raw s).0.attachments ≡ insert raw.id raw s.attachments
  unfolding keep
  keep_allowed budget kind raw s e = rw (e, keep)

  keep-Stored :
      (budget : Budget) (kind : AttachKind) (raw : RawAttachment) (s : Holding)
      → 4 * budget.max_pixels < u64_mod
      → (keep decode budget kind raw s).1 ≡ stored
      → Stored budget raw.id kind (keep decode budget kind raw s).0
  keep-Stored budget kind raw s small h =
      elim (Option-cases (check_attachment_budget budget kind raw)) [
        | inl e ↦ (
          raw,
          ap (get raw.id) (keep_allowed budget kind raw s e)
              ∙ get-insert raw.id raw.id raw s.attachments
              ∙ rw (str_eq_refl raw.id),
          check-Allowed budget kind raw small e,
        )
        | inr (why, e) ↦
            absurd
              (ground (arith, subst (λ x. x.1 ≡ stored) (keep_refused budget kind raw s why e) h))
      ]

  raw_of-inr :
      (budget : Budget) (id : String) (kind : AttachKind) (meta : AttachMeta) (payload : Bytes)
      (raw : RawAttachment)
      → raw_of decode budget id kind meta payload ≡ inr raw
      → raw.id ≡ id
  unfolding raw_of
  raw_of-inr budget id kind meta payload raw h = ground arith

  raw_of-inl :
      (budget : Budget) (id : String) (kind : AttachKind) (meta : AttachMeta) (payload : Bytes)
      (why : Attached)
      → raw_of decode budget id kind meta payload ≡ inl why
      → why ≢ stored
  unfolding raw_of
  raw_of-inl budget id kind meta payload why h same = ground arith

  accept-inl :
      (budget : Budget) (id : String) (kind : AttachKind) (meta : AttachMeta) (payload : Bytes)
      (s : Holding) (why : Attached)
      → raw_of decode budget id kind meta payload ≡ inl why
      → accept decode budget id kind meta (all_there payload) s ≡ (s, why)
  unfolding accept
  accept-inl budget id kind meta payload s why e = rw (e, accept)

  accept-inr :
      (budget : Budget) (id : String) (kind : AttachKind) (meta : AttachMeta) (payload : Bytes)
      (s : Holding) (raw : RawAttachment)
      → raw_of decode budget id kind meta payload ≡ inr raw
      → accept decode budget id kind meta (all_there payload) s ≡ keep decode budget kind raw s
  unfolding accept
  accept-inr budget id kind meta payload s raw e = rw (e, accept)

  accept_none :
      (budget : Budget) (id : String) (kind : AttachKind) (meta : AttachMeta) (s : Holding)
      → ((accept decode budget id kind meta interrupted s).1 ≢ stored)
        × ((accept decode budget id kind meta exhausted s).1 ≢ stored)
        × ((accept decode budget id kind meta too_long s).1 ≢ stored)
  unfolding accept
  accept_none budget id kind meta s =
      ((λ h. ground arith), (λ h. ground arith), (λ h. ground arith))

  accept-Stored :
      (budget : Budget) (id : String) (kind : AttachKind) (meta : AttachMeta) (d : Drained)
      (s : Holding)
      → 4 * budget.max_pixels < u64_mod
      → (accept decode budget id kind meta d s).1 ≡ stored
      → Stored budget id kind (accept decode budget id kind meta d s).0
        × ((payload : Bytes) × (d ≡ all_there payload))
  accept-Stored budget id kind meta interrupted s small h =
      absurd ((accept_none budget id kind meta s).0 h)
  accept-Stored budget id kind meta exhausted s small h =
      absurd ((accept_none budget id kind meta s).1 h)
  accept-Stored budget id kind meta too_long s small h =
      absurd ((accept_none budget id kind meta s).2 h)
  accept-Stored budget id kind meta (all_there payload) s small h =
      elim (sum_cases (raw_of decode budget id kind meta payload)) [
        | inl (why, e) ↦ absurd (
            raw_of-inl budget id kind meta payload why e
              (subst (λ x. x.1 ≡ stored) (accept-inl budget id kind meta payload s why e) h))
        | inr (raw, e) ↦
            let same = accept-inr budget id kind meta payload s raw e in
            (
              subst (λ x. Stored budget id kind x.0) (sym same)
                  (subst (λ i. Stored budget i kind (keep decode budget kind raw s).0)
                    (raw_of-inr budget id kind meta payload raw e)
                    (keep-Stored budget kind raw s small (subst (λ x. x.1 ≡ stored) same h))),
              (payload, refl),
            )
      ]

module _ (decode : String → Bytes → Option RawAttachment) {V : Type 0} where
  attach_past :
      (budget : Budget) (id : String) (kind : AttachKind) (meta : AttachMeta) (len : ℕ)
      (frames : List (Frame V)) (s : Holding)
      → (attach decode budget id kind meta len frames s).2 ≡ stored
      → (len ≤ budget.max_bytes)
        × (length s.attachments % u32_mod < budget.max_per_session)
        × (attach decode budget id kind meta len frames s ≡ (
          (accept decode budget id kind meta (drain len [] frames).0 s).0,
          (drain len [] frames).1,
          (accept decode budget id kind meta (drain len [] frames).0 s).1,
        ))
  unfolding attach
  attach_past budget id kind meta len frames s h = ground arith

  -- An attachment that is stored is within the budget: its declared length and the count of the
  -- session's attachments were under their limits; under its id the session holds an attachment
  -- with pixels or samples in bound and exactly the bytes that they take; and off the stream came
  -- whole BLOB frames with exactly the declared number of bytes, and nothing after them. The
  -- pixel limit times four is below 2^64.
  pub attach-Stored :
      (budget : Budget) (id : String) (kind : AttachKind) (meta : AttachMeta) (len : ℕ)
      (frames : List (Frame V)) (s : Holding)
      → 4 * budget.max_pixels < u64_mod
      → (attach decode budget id kind meta len frames s).2 ≡ stored
      → (len ≤ budget.max_bytes)
        × (length s.attachments % u32_mod < budget.max_per_session)
        × Stored budget id kind (attach decode budget id kind meta len frames s).0
        × ((blobs : List Bytes) × (frames
              ≡ map blob blobs ++ (attach decode budget id kind meta len frames s).1)
            × (length (joined blobs) ≡ len))
  unfolding TookAll
  attach-Stored budget id kind meta len frames s small h =
      let (bytes_in, count_in, past) = attach_past budget id kind meta len frames s h in
      let d = (drain len [] frames).0 in
      let (kept, (payload, there)) =
        accept-Stored decode budget id kind meta d s small (subst (λ x. x.2 ≡ stored) past h) in
      let took = drain-Took len [] payload frames (omega arith) there in
      (
        bytes_in,
        count_in,
        subst (λ x. Stored budget id kind x.0) (sym past) kept,
        (
          took.blobs,
          subst (λ x. frames ≡ map blob took.blobs ++ x.1) (sym past) took.off_stream,
          ap length (sym took.joins) ∙ took.length_is,
        ),
      )
