-- ===== src/Registry/Stores.antt =====
-- crates/ai-daemon/src/registry.rs: what holds of a store, and that an installation keeps it.
use ai_daemon.Prelude.{
  ℕ, String, ◌≡◌, refl, sym, ap, ◌∙◌, subst, ◌⊎◌, inl, inr, false, none, some, List, StrMap, get,
  insert, Distinct, get-insert, insert-Distinct, str_eq, str_eq_iff, str_eq_refl, str_eq_ne,
  Bool-cases, Option-cases,
}
use ai_daemon.Registry.{
  Manifest, Registry, Io, is_remote, hex_of, all_read, read_manifests, invalidate, Place, staged,
  elsewhere, unstage, put_manifest, write_manifest, move_blob, store_blob, accept_staged,
  register_remote,
}
use ai_daemon.Registry.Digests.{hex_of-injective}

module _ (digest_of : List ℕ → String) where
  -- The weights that a manifest names stand in the store, under their own name.
  abbrev pub Backed : StrMap (List ℕ) → Manifest → Type 0
  Backed blobs m =
      (hex : String) × (bytes : List ℕ) × (hex_of m.digest ≡ some hex)
      × (get hex blobs ≡ some bytes)
      × (digest_of bytes ≡ m.digest)

  -- Every local model has its weights, every blob is named by what it is, and the list kept in
  -- memory is that on the disk.
  pub record Sound (r : Registry) : Type 0 where
    pub distinct_manifests : Distinct r.system.manifests
    pub distinct_blobs : Distinct r.system.blobs
    pub backed :
        (k : String) (m : Manifest)
        → get k r.system.manifests ≡ some m
        → is_remote m ≡ false
        → Backed r.system.blobs m
    pub addressed :
        (hex : String) (bytes : List ℕ)
        → get hex r.system.blobs ≡ some bytes
        → hex_of (digest_of bytes) ≡ some hex
    pub cached : (r.cache ≡ none) ⊎ (r.cache ≡ some (read_manifests all_read r.system))

  put_manifest-Sound :
      (m : Manifest) (r : Registry)
      → (is_remote m ≡ false → Backed r.system.blobs m)
      → Sound r
      → Sound (put_manifest m r)
  unfolding put_manifest invalidate
  put_manifest-Sound m r b v = record {
    distinct_manifests = insert-Distinct m.name m r.system.manifests v.distinct_manifests;
    distinct_blobs = v.distinct_blobs;
    backed = λ k n e local. elim (Bool-cases (str_eq m.name k)) [
      | inl same ↦
          let here : some m ≡ some n = rw (get-insert m.name k m r.system.manifests, same) at e in
          let eq : m ≡ n = cc here in
          subst (λ x. is_remote x ≡ false → Backed r.system.blobs x) eq b local
      | inr other ↦
          let there : get k r.system.manifests ≡ some n =
            rw (get-insert m.name k m r.system.manifests, other) at e in
          v.backed k n there local
    ];
    addressed = v.addressed;
    cached = inl refl;
  }

  write_manifest-Sound :
      (io : Io) (m : Manifest) (r : Registry)
      → (is_remote m ≡ false → Backed r.system.blobs m)
      → Sound r
      → Sound (write_manifest io m r).1
  unfolding write_manifest
  write_manifest-Sound io m r b v = elim (Bool-cases io.write_ok) [
    | inl e ↦ rw e (put_manifest-Sound m r b v)
    | inr e ↦ rw e v
  ]

  unstage-Sound : (io : Io) (file : String) (r : Registry) → Sound r → Sound (unstage io file r)
  unfolding unstage
  unstage-Sound io file r v = elim (Bool-cases io.remove_ok) [
    | inl e ↦ rw e (record {
      distinct_manifests = v.distinct_manifests;
      distinct_blobs = v.distinct_blobs;
      backed = v.backed;
      addressed = v.addressed;
      cached = v.cached;
    })
    | inr e ↦ rw e v
  ]

  Backed-insert :
      (hex : String) (bytes : List ℕ) (blobs : StrMap (List ℕ)) (m : Manifest)
      → get hex blobs ≡ none
      → Backed blobs m
      → Backed (insert hex bytes blobs) m
  Backed-insert hex bytes blobs m free (h, bs, e, f, g) =
      let apart : str_eq hex h ≡ false = str_eq_ne hex h (λ same. cc) in
      (h, bs, e, (get-insert hex h bytes blobs ∙ (rw apart f)), g)

  move_blob-Sound :
      (file hex : String) (bytes : List ℕ) (r : Registry)
      → get hex r.system.blobs ≡ none
      → hex_of (digest_of bytes) ≡ some hex
      → Sound r
      → Sound (move_blob file hex bytes r)
  unfolding move_blob read_manifests
  move_blob-Sound file hex bytes r free named v = record {
    distinct_manifests = v.distinct_manifests;
    distinct_blobs = insert-Distinct hex bytes r.system.blobs v.distinct_blobs;
    backed = λ k m e local. Backed-insert hex bytes r.system.blobs m free (v.backed k m e local);
    addressed = λ h bs e. elim (Bool-cases (str_eq hex h)) [
      | inl same ↦
          let here : some bytes ≡ some bs = rw (get-insert hex h bytes r.system.blobs, same) at e in
          let eq : bytes ≡ bs = cc here in
          let name : hex ≡ h = (str_eq_iff hex h).0 same in
          subst (λ x. hex_of (digest_of x) ≡ some h) eq (named ∙ ap some name)
      | inr other ↦
          let there : get h r.system.blobs ≡ some bs =
            rw (get-insert hex h bytes r.system.blobs, other) at e in
          v.addressed h bs there
    ];
    cached = v.cached;
  }

  Backed-unstage :
      (io : Io) (file : String) (r : Registry) (m : Manifest)
      → Backed r.system.blobs m
      → Backed (unstage io file r).system.blobs m
  unfolding unstage
  Backed-unstage io file r m b = elim (Bool-cases io.remove_ok) [ inl e ↦ rw e b | inr e ↦ rw e b ]

  Backed-moved :
      (file hex : String) (bytes : List ℕ) (r : Registry) (m : Manifest)
      → hex_of (digest_of bytes) ≡ some hex
      → m.digest ≡ digest_of bytes
      → Backed (move_blob file hex bytes r).system.blobs m
  unfolding move_blob
  Backed-moved file hex bytes r m named own =
      let there : get hex (insert hex bytes r.system.blobs) ≡ some bytes =
        get-insert hex hex bytes r.system.blobs ∙ (rw (str_eq_refl hex) refl) in
      (hex, bytes, (ap hex_of own ∙ named), there, sym own)

  store_blob-Sound :
      (io : Io) (file hex : String) (bytes : List ℕ) (m : Manifest) (r : Registry)
      → hex_of (digest_of bytes) ≡ some hex
      → m.digest ≡ digest_of bytes
      → Sound r
      → Sound (store_blob io file hex bytes m r).1
  unfolding store_blob write_manifest
  store_blob-Sound io file hex bytes m r named own v =
      elim (Option-cases (get hex r.system.blobs)) [
        | inr (present, e) ↦
            let same : digest_of present ≡ digest_of bytes =
              hex_of-injective (digest_of present) (digest_of bytes) hex (v.addressed hex present e)
                named in
            rw (e, store_blob)
              (write_manifest-Sound io m (unstage io file r)
                (λ local.
                  Backed-unstage io file r m
                    (hex, present, (ap hex_of own ∙ named), e, (same ∙ sym own)))
                (unstage-Sound io file r v))
        | inl free ↦ elim (Bool-cases io.rename_ok) [
          | inr e ↦ rw (free, e, store_blob) v
          | inl e ↦
              let there = get-insert hex hex bytes r.system.blobs in
              rw (free, e, store_blob)
                (write_manifest-Sound io m (move_blob file hex bytes r)
                  (λ local. Backed-moved file hex bytes r m named own)
                  (move_blob-Sound file hex bytes r free named v))
        ]
      ]

  pub accept_staged-Sound :
      (io : Io) (place : Place) (m : Manifest) (expected : String) (r : Registry)
      → Sound r
      → Sound (accept_staged digest_of io place m expected r).1
  unfolding accept_staged
  accept_staged-Sound io elsewhere m expected r v = v
  accept_staged-Sound io (staged file) m expected r v = elim (Option-cases (get file r.staging)) [
    | inl e ↦ rw (e, accept_staged) v
    | inr (bytes, e) ↦ elim (Bool-cases (str_eq (digest_of bytes) expected)) [
      | inr e₁ ↦ rw (e, e₁, accept_staged) (unstage-Sound io file r v)
      | inl e₁ ↦ elim (Option-cases (hex_of (digest_of bytes))) [
        | inl e₂ ↦ rw (e, e₁, e₂, accept_staged) v
        | inr (hex, e₂) ↦
            rw (e, e₁, e₂, accept_staged) (store_blob-Sound io file hex bytes _ r e₂ refl v)
      ]
    ]
  ]

  pub register_remote-Sound :
      (io : Io) (m : Manifest) (r : Registry) → Sound r → Sound (register_remote io m r).1
  unfolding register_remote
  register_remote-Sound io m r v = elim (Bool-cases (is_remote m)) [
    | inl e ↦ rw (e, register_remote) (write_manifest-Sound io m r (λ local. cc) v)
    | inr e ↦ rw (e, register_remote) v
  ]
