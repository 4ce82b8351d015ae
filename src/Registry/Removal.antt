-- ===== src/Registry/Removal.antt =====
-- crates/ai-daemon/src/registry.rs, `remove`: no blob goes that a manifest still names.
use ai_daemon.Prelude.{
  ℕ, String, ◌≡◌, refl, sym, ap, ◌∙◌, subst, ◌≢◌, inl, inr, Bool, true, false, Option, none, some,
  List, [], ◌∷◌, Memᴰ, arith, any, get, remove, get-remove_ne, get-remove_self, remove-Distinct,
  str_eq, str_eq_iff, str_eq_refl, Bool-cases, Option-cases,
}
use Prim.{absurd}
use ai_daemon.Registry.{
  Manifest, Store, Registry, Io, is_remote, hex_of, read_manifests, Reads, all_read, read_manifest,
  invalidate, system_manifests, drop_manifest, drop_blob, collect, remove_model,
}
use ai_daemon.Registry.Digests.{hex_of-injective}
use ai_daemon.Registry.Reading.{IsWhole, read_whole, mem-read_manifests}
use ai_daemon.Registry.Stores.{Sound}

any-false :
    {A : Type 0} (p : A → Bool) {x : A} (xs : List A) → any p xs ≡ false → Memᴰ x xs → p x ≡ false
any-false p [] h m = elim m [ ]
any-false p {x} (y ∷ ys) h m = elim (Bool-cases (p y)) [
  | inl e ↦ let no : true ≡ false = rw e at h in cc
  | inr e ↦
      let rest : any p ys ≡ false = rw e at h in
      elim m [ Memᴰ.head same ↦ ap p same ∙ e | Memᴰ.tail later ↦ any-false p ys rest later ]
]

no_value : {A : Type 0} {x : A} → ◌≢◌ {A = Option A} none (some x)
no_value e = cc

module _ (digest_of : List ℕ → String) where
  system_manifests-read :
      (reads : Reads) (r : Registry)
      → IsWhole reads
      → Sound digest_of r
      → (system_manifests reads r).0 ≡ read_manifests all_read r.system
  unfolding system_manifests
  system_manifests-read reads r w v = elim v.cached [
    | inl e ↦ rw (e, system_manifests) (read_whole reads r.system w)
    | inr e ↦ rw (e, system_manifests) refl
  ]

  pub system_manifests-Sound :
      (reads : Reads) (r : Registry)
      → IsWhole reads
      → Sound digest_of r
      → Sound digest_of (system_manifests reads r).1
  unfolding system_manifests
  system_manifests-Sound reads r w v = elim v.cached [
    | inr e ↦ rw (e, system_manifests) v
    | inl e ↦
        rw (e, system_manifests)
          (record {
            distinct_manifests = v.distinct_manifests;
            distinct_blobs = v.distinct_blobs;
            backed = v.backed;
            addressed = v.addressed;
            cached = inr (ap some (read_whole reads r.system w));
          })
  ]

  system_manifests-system :
      (reads : Reads) (r : Registry) → (system_manifests reads r).1.system ≡ r.system
  unfolding system_manifests
  system_manifests-system reads r = elim (Option-cases r.cache) [
    | inl e ↦ rw (e, system_manifests) refl
    | inr (ms, e) ↦ rw (e, system_manifests) refl
  ]

  drop_manifest-Sound :
      (name : String) (r : Registry) → Sound digest_of r → Sound digest_of (drop_manifest name r)
  unfolding drop_manifest invalidate
  drop_manifest-Sound name r v = record {
    distinct_manifests = remove-Distinct name r.system.manifests v.distinct_manifests;
    distinct_blobs = v.distinct_blobs;
    backed = λ k m e local. elim (Bool-cases (str_eq name k)) [
      | inl same ↦
          let name' : name ≡ k = (str_eq_iff name k).0 same in
          let gone = get-remove_self name r.system.manifests v.distinct_manifests in
          let here = subst (λ x. get x (remove name r.system.manifests) ≡ some m) (sym name') e in
          cc (gone, here)
      | inr other ↦
          let apart : name ≢ k = λ same. ground (arith, str_eq_iff name k, other, same) in
          v.backed k m (sym (get-remove_ne name k r.system.manifests apart) ∙ e) local
    ];
    addressed = v.addressed;
    cached = inl refl;
  }

  -- No manifest that is left has the digest `d`.
  abbrev Unused : String → Store → Type 0
  Unused d s = (k : String) (m : Manifest) → get k s.manifests ≡ some m → str_eq m.digest d ≡ false

  drop_blob-Sound :
      (hex d : String) (r : Registry)
      → hex_of d ≡ some hex
      → Unused d r.system
      → Sound digest_of r
      → Sound digest_of (drop_blob hex r)
  unfolding drop_blob read_manifests
  drop_blob-Sound hex d r named unused v = record {
    distinct_manifests = v.distinct_manifests;
    distinct_blobs = remove-Distinct hex r.system.blobs v.distinct_blobs;
    backed = λ k m e local.
        let (x, bs, en, eb, ed) = v.backed k m e local in
        let apart : hex ≢ x = λ same.
          let twin = hex_of-injective m.digest d hex (en ∙ ap some (sym same)) named in
          let differ = subst (λ y. str_eq y d ≡ false) twin (unused k m e) in
          cc (str_eq_refl d, differ) in
        (x, bs, en, (get-remove_ne hex x r.system.blobs apart ∙ eb), ed);
    addressed = λ h bs e. elim (Bool-cases (str_eq hex h)) [
      | inl same ↦
          let name : hex ≡ h = (str_eq_iff hex h).0 same in
          let gone = get-remove_self hex r.system.blobs v.distinct_blobs in
          let here = subst (λ x. get x (remove hex r.system.blobs) ≡ some bs) (sym name) e in
          absurd (no_value (sym gone ∙ here))
      | inr other ↦
          let apart : hex ≢ h = λ same. ground (arith, str_eq_iff hex h, other, same) in
          v.addressed h bs (sym (get-remove_ne hex h r.system.blobs apart) ∙ e)
    ];
    cached = v.cached;
  }

  Unused-when :
      (d : String) (reads : Reads) (r : Registry)
      → IsWhole reads
      → Sound digest_of r
      → any (λ (n : Manifest). str_eq n.digest d) (system_manifests reads r).0 ≡ false
      → Unused d (system_manifests reads r).1.system
  Unused-when d reads r w v none_left k m e =
      let e' =
        subst (λ (s : Store). get k s.manifests ≡ some m) (system_manifests-system reads r) e in
      let listed = mem-read_manifests k m r.system e' in
      any-false (λ (n : Manifest). str_eq n.digest d) (read_manifests all_read r.system)
        (subst (λ l. any (λ (n : Manifest). str_eq n.digest d) l ≡ false)
          (system_manifests-read reads r w v) none_left)
        listed

  collect-Sound :
      (io : Io) (m : Manifest) (r : Registry)
      → IsWhole io.reads
      → Sound digest_of r
      → Sound digest_of (collect io m r)
  unfolding collect
  collect-Sound io m r w v =
      let left = (system_manifests io.reads r).0 in
      let v' = system_manifests-Sound io.reads r w v in
      elim (Bool-cases (any (λ (n : Manifest). str_eq n.digest m.digest) left)) [
        | inl e ↦ rw (e, collect) v'
        | inr e ↦ elim (Bool-cases (is_remote m)) [
          | inl e₁ ↦ rw (e, e₁, collect) v'
          | inr e₁ ↦ elim (Option-cases (hex_of m.digest)) [
            | inl e₂ ↦ rw (e, e₁, e₂, collect) v'
            | inr (hex, e₂) ↦ elim (Bool-cases io.remove_ok) [
              | inr e₃ ↦ rw (e, e₁, e₂, e₃, collect) v'
              | inl e₃ ↦
                  rw (e, e₁, e₂, e₃, collect)
                    (drop_blob-Sound hex m.digest _ e₂ (Unused-when m.digest io.reads r w v e) v')
            ]
          ]
        ]
      ]

  pub remove_model-Sound :
      (io collected : Io) (name : String) (r : Registry)
      → IsWhole collected.reads
      → Sound digest_of r
      → Sound digest_of (remove_model io collected name r).1
  unfolding remove_model
  remove_model-Sound io collected name r w v =
      elim (Option-cases (read_manifest io.reads name r.system)) [
        | inl e ↦ rw (e, remove_model) v
        | inr (m, e) ↦ elim (Bool-cases io.remove_ok) [
          | inr e₁ ↦ rw (e, e₁, remove_model) v
          | inl e₁ ↦
              rw (e, e₁, remove_model)
                (collect-Sound collected m (drop_manifest name r) w (drop_manifest-Sound name r v))
        ]
      ]
