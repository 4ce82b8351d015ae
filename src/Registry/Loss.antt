-- ===== src/Registry/Loss.antt =====
-- crates/ai-daemon/src/registry.rs, `remove`: what a reading that fails costs.
use ai_daemon.Prelude.{
  ℕ, String, ◌≡◌, refl, ap, ◌∙◌, ◌≢◌, true, false, Option, none, some, List, [], get, get-remove_ne,
  get-remove_self, if◌then◌else◌,
}
use ai_daemon.Registry.{
  Manifest, Reads, Registry, sort_by_name, readable, Io, done, is_remote, hex_of, invalidate,
  read_manifests, read_manifest, system_manifests, drop_manifest, drop_blob, collect, remove_model,
}
use ai_daemon.Registry.Stores.{Sound}

-- A directory that cannot be listed is as one without manifests.
unlisted :
    (reads : Reads) (r : Registry)
    → reads.lists ≡ false
    → r.cache ≡ none
    → system_manifests reads r ≡ ([], record r { cache = some [] })
unfolding system_manifests read_manifests
unlisted reads r closed cold =
    ap
      (λ (o : Option (List Manifest)). elim o [
        | some cached ↦ (cached, r)
        | none ↦
            let ms =
              if reads.lists then sort_by_name (readable reads.opens r.system.manifests) else [] in
            (ms, record r { cache = some ms })
      ])
      cold
    ∙ ap
        (λ b.
          let ms = if b then sort_by_name (readable reads.opens r.system.manifests) else [] in
          (ms, record r { cache = some ms }))
        closed

collect_unlisted :
    (io : Io) (m : Manifest) (r : Registry) (hex : String)
    → io.reads.lists ≡ false
    → io.remove_ok ≡ true
    → r.cache ≡ none
    → is_remote m ≡ false
    → hex_of m.digest ≡ some hex
    → collect io m r ≡ drop_blob hex (record r { cache = some [] })
unfolding collect
collect_unlisted io m r hex closed removes cold local named =
    rw (collect, unlisted io.reads r closed cold, local, named, removes)
      (ap (λ (p : List Manifest × Registry). drop_blob hex p.1) (unlisted io.reads r closed cold))

removed_unlisted :
    (io collected : Io) (name hex : String) (m : Manifest) (r : Registry)
    → get name r.system.manifests ≡ some m
    → is_remote m ≡ false
    → hex_of m.digest ≡ some hex
    → io.reads.opens name ≡ true
    → io.remove_ok ≡ true
    → collected.reads.lists ≡ false
    → collected.remove_ok ≡ true
    → remove_model io collected name r
      ≡ (done tt, drop_blob hex (record (drop_manifest name r) { cache = some [] }))
unfolding remove_model read_manifest drop_manifest invalidate
removed_unlisted io collected name hex m r there local named opens removes closed clears =
    let end =
      collect_unlisted collected m (drop_manifest name r) hex closed clears refl local named in
    rw (opens, there, removes, remove_model, read_manifest) (ap (λ x. (done tt, x)) end)

-- A removal may take the weights of another model. In a sound store where two names share the
-- digest of a local model, if the manifest of the one can be read and removed, but the directory of
-- manifests cannot be listed when the removal asks whether the blob is still in use, and the blob
-- itself can be removed, then the removal is reported as done, the manifest of the other is still
-- there, and its weights, which were in the store before, are gone.
pub remove_model_loses :
    (digest_of : List ℕ → String) (io collected : Io) (name other : String) (m n : Manifest)
    (r : Registry)
    → Sound digest_of r
    → get name r.system.manifests ≡ some m
    → get other r.system.manifests ≡ some n
    → name ≢ other
    → n.digest ≡ m.digest
    → is_remote m ≡ false
    → io.reads.opens name ≡ true
    → io.remove_ok ≡ true
    → collected.reads.lists ≡ false
    → collected.remove_ok ≡ true
    → let result = remove_model io collected name r in
      (hex : String) × (bytes : List ℕ) × (hex_of n.digest ≡ some hex)
      × (get hex r.system.blobs ≡ some bytes)
      × (result.0 ≡ done tt)
      × (get other result.1.system.manifests ≡ some n)
      × (get hex result.1.system.blobs ≡ none)
unfolding drop_blob drop_manifest invalidate
remove_model_loses digest_of io collected name other m n r v a b apart same local opens removes
      closed clears =
    let (hex, bytes, named, stored, _) = v.backed name m a local in
    let end =
      removed_unlisted io collected name hex m r a local named opens removes closed clears in
    (
      hex,
      bytes,
      (ap hex_of same ∙ named),
      stored,
      ap (λ p. p.0) end,
      (ap (λ p. get other p.1.system.manifests) end
          ∙ get-remove_ne name other r.system.manifests apart
          ∙ b),
      (ap (λ p. get hex p.1.system.blobs) end
          ∙ get-remove_self hex r.system.blobs v.distinct_blobs),
    )
