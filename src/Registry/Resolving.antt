-- ===== src/Registry/Resolving.antt =====
-- crates/ai-daemon/src/registry.rs: what was installed is found again.
use ai_daemon.Prelude.{
  ℕ, String, ◌≡◌, refl, sym, ap, ◌∙◌, subst, inl, inr, true, false, Option, none, some, List, get,
  get-insert, str_eq, str_eq_iff, str_eq_refl, Bool-cases, Option-cases,
}
use Prim.{absurd}
use ai_daemon.Registry.{
  Manifest, Store, Reads, read_manifest, read_aliases, Registry, Error, Outcome, done, refused, Io,
  is_remote, hex_of, blob_for, staged, unstage, put_manifest, write_manifest, invalidate, move_blob,
  store_blob, accept_staged, resolve_alias, of_system, found_in, resolve,
}
use ai_daemon.Registry.Stores.{Sound, accept_staged-Sound}

-- What a successful installation leaves: the manifest is written over a store whose aliases are
-- those from before.
record Installed (m : Manifest) (expected : String) (r : Registry)
    (result : Outcome Manifest × Registry) (m' : Manifest) : Type 0 where
  before : Registry
  written : result.1 ≡ put_manifest m' before
  same_name : m'.name ≡ m.name
  same_format : m'.format ≡ m.format
  verified : m'.digest ≡ expected
  same_config : before.config_aliases ≡ r.config_aliases
  same_aliases : before.system.aliases ≡ r.system.aliases

not_done : {A P : Type 0} {e : Error} {a : A} → ◌≡◌ {A = Outcome A} (refused e) (done a) → P
not_done h = absurd cc

write_manifest-Installed :
    (io : Io) (m n : Manifest) (expected : String) (before r : Registry) (m' : Manifest)
    → n.name ≡ m.name
    → n.format ≡ m.format
    → n.digest ≡ expected
    → before.config_aliases ≡ r.config_aliases
    → before.system.aliases ≡ r.system.aliases
    → (write_manifest io n before).0 ≡ done m'
    → Installed m expected r (write_manifest io n before) m'
unfolding write_manifest
write_manifest-Installed io m n expected before r m' a b c d e h = elim (Bool-cases io.write_ok) [
  | inr k ↦ not_done (rw (k, write_manifest) at h)
  | inl k ↦
      let ended : ◌≡◌ {A = Outcome Manifest} (done n) (done m') = rw (k, write_manifest) at h in
      let same : n ≡ m' = cc ended in
      let wrote : (write_manifest io n before).1 ≡ put_manifest n before =
        rw (k, write_manifest) refl in
      record {
        before = before;
        written = wrote ∙ ap (λ x. put_manifest x before) same;
        same_name = subst (λ (x : Manifest). x.name ≡ m.name) same a;
        same_format = subst (λ (x : Manifest). x.format ≡ m.format) same b;
        verified = subst (λ (x : Manifest). x.digest ≡ expected) same c;
        same_config = d;
        same_aliases = e;
      }
]

unstage_aliases :
    (io : Io) (file : String) (r : Registry)
    → ((unstage io file r).config_aliases ≡ r.config_aliases)
      × ((unstage io file r).system.aliases ≡ r.system.aliases)
unfolding unstage
unstage_aliases io file r = elim (Bool-cases io.remove_ok) [
  | inl e ↦ rw (e, unstage) (refl, refl)
  | inr e ↦ rw (e, unstage) (refl, refl)
]

store_blob-Installed :
    (io : Io) (file hex : String) (bytes : List ℕ) (m n : Manifest) (expected : String)
    (r : Registry) (m' : Manifest)
    → n.name ≡ m.name
    → n.format ≡ m.format
    → n.digest ≡ expected
    → (store_blob io file hex bytes n r).0 ≡ done m'
    → Installed m expected r (store_blob io file hex bytes n r) m'
unfolding store_blob move_blob write_manifest
store_blob-Installed io file hex bytes m n expected r m' a b c h =
    elim (Option-cases (get hex r.system.blobs)) [
      | inr (present, e) ↦
          let (f, g) = unstage_aliases io file r in
          rw (e, store_blob)
            (write_manifest-Installed io m n expected (unstage io file r) r m' a b c f g
              (rw (e, store_blob) at h))
      | inl e ↦ elim (Bool-cases io.rename_ok) [
        | inr k ↦ not_done (rw (e, k, store_blob) at h)
        | inl k ↦
            rw (e, k, store_blob)
              (write_manifest-Installed io m n expected (move_blob file hex bytes r) r m' a b c refl
                refl (rw (e, k, store_blob) at h))
      ]
    ]

accept_staged-Installed :
    (digest_of : List ℕ → String) (io : Io) (file : String) (m : Manifest) (expected : String)
    (r : Registry) (m' : Manifest)
    → (accept_staged digest_of io (staged file) m expected r).0 ≡ done m'
    → Installed m expected r (accept_staged digest_of io (staged file) m expected r) m'
unfolding accept_staged
accept_staged-Installed digest_of io file m expected r m' h =
    elim (Option-cases (get file r.staging)) [
      | inl e ↦ not_done (rw (e, accept_staged) at h)
      | inr (bytes, e) ↦ elim (Bool-cases (str_eq (digest_of bytes) expected)) [
        | inr e₁ ↦ not_done (rw (e, e₁, accept_staged) at h)
        | inl e₁ ↦ elim (Option-cases (hex_of (digest_of bytes))) [
          | inl e₂ ↦ not_done (rw (e, e₁, e₂, accept_staged) at h)
          | inr (hex, e₂) ↦
              rw (e, e₁, e₂, accept_staged)
                (store_blob-Installed io file hex bytes m _ expected r m' refl refl
                  ((str_eq_iff (digest_of bytes) expected).0 e₁)
                  (rw (e, e₁, e₂, accept_staged) at h))
        ]
      ]
    ]

-- The user has no model of this name in a store of their own.
abbrev pub Unshadowed : Option Store → String → Type 0
Unshadowed none name = Unit {0}
Unshadowed (some store) name = get name store.manifests ≡ none

-- A name that is no alias and that the user's store does not take resolves to the system's manifest
-- of that name.
resolve_plain :
    (reads : Reads) (user : Option Store) (name hex : String) (m : Manifest) (r : Registry)
    → resolve_alias reads user name r ≡ none
    → Unshadowed user name
    → reads.opens name ≡ true
    → get name r.system.manifests ≡ some m
    → is_remote m ≡ false
    → hex_of m.digest ≡ some hex
    → resolve reads user name r
      ≡ done (record { manifest = m; blob = some hex; origin = of_system })
unfolding resolve blob_for read_manifest
resolve_plain reads none name hex m r plain free opens there local named =
    rw (plain, opens, there, local, named, resolve, found_in, blob_for, read_manifest) refl
resolve_plain reads (some store) name hex m r plain free opens there local named =
    rw (plain, free, resolve)
      (rw (plain, opens, there, local, named, found_in, blob_for, read_manifest) refl)

plain_after :
    (reads : Reads) (user : Option Store) (name : String) (m' : Manifest) (before r : Registry)
    → before.config_aliases ≡ r.config_aliases
    → before.system.aliases ≡ r.system.aliases
    → resolve_alias reads user name r ≡ none
    → resolve_alias reads user name (put_manifest m' before) ≡ none
unfolding resolve_alias put_manifest invalidate read_aliases
plain_after reads user name m' before r c a h = rw (c, a) h

written_there :
    (m : Manifest) (r : Registry) → get m.name (put_manifest m r).system.manifests ≡ some m
unfolding put_manifest invalidate
written_there m r = get-insert m.name m.name m r.system.manifests ∙ (rw (str_eq_refl m.name) refl)

-- What was installed is what its name resolves to: once the installation of a local model into a
-- sound store returns, its name resolves, for a caller with or without a store of their own, to the
-- manifest that was written and to a file of the system's store whose bytes hash to the digest
-- that the installer asked for. The name is taken to be no alias of the caller, of the
-- configuration or of the system, the caller's own store to have no manifest of that name, and the
-- manifest's file to be readable.
pub resolve-accept_staged :
    (digest_of : List ℕ → String) (io : Io) (reads : Reads) (user : Option Store) (file : String)
    (m : Manifest) (expected : String) (r : Registry) (m' : Manifest)
    → Sound digest_of r
    → is_remote m ≡ false
    → resolve_alias reads user m.name r ≡ none
    → Unshadowed user m.name
    → reads.opens m.name ≡ true
    → (accept_staged digest_of io (staged file) m expected r).0 ≡ done m'
    → let after = (accept_staged digest_of io (staged file) m expected r).1 in
      (hex : String) × (bytes : List ℕ) × (resolve reads user m.name after
        ≡ done (record { manifest = m'; blob = some hex; origin = of_system }))
      × (get hex after.system.blobs ≡ some bytes)
      × (digest_of bytes ≡ expected)
resolve-accept_staged digest_of io reads user file m expected r m' v local plain free opens h =
    let i = accept_staged-Installed digest_of io file m expected r m' h in
    let v' = accept_staged-Sound digest_of io (staged file) m expected r v in
    let local' : is_remote m' ≡ false = ap (λ f. str_eq f "remote") i.same_format ∙ local in
    let there = written_there m' i.before in
    let at_name =
      subst (λ k. get k (put_manifest m' i.before).system.manifests ≡ some m') i.same_name there in
    let here =
      subst (λ (x : Registry). get m.name x.system.manifests ≡ some m') (sym i.written) at_name in
    let (hex, bytes, named, stored, hashed) = v'.backed m.name m' here local' in
    let plain' =
      subst (λ x. resolve_alias reads user m.name x ≡ none) (sym i.written)
        (plain_after reads user m.name m' i.before r i.same_config i.same_aliases plain) in
    (
      hex,
      bytes,
      resolve_plain reads user m.name hex m' _ plain' free opens here local' named,
      stored,
      (hashed ∙ i.verified),
    )
