-- ===== src/Registry/Tests.antt =====
-- crates/ai-daemon/src/registry.rs: a small store.
use ai_daemon.Prelude.{
  ◌≢◌, str_eq, str_eq_iff, false, sym, ◌∙◌, insert, ℕ, String, ◌≡◌, refl, sym, ◌∙◌, ◌≢◌, inl, true,
  false, none, some, List, [], ◌∷◌, get, insert, remove, str_eq, str_eq_iff, str_append,
}
use ai_daemon.Registry.{
  put_manifest, invalidate, move_blob, remove_model, all_read, read_aliases, Store, Manifest,
  Registry, done, refused, mismatch, Io, staged, of_system, hex_of, strip_prefix, accept_staged,
  store_blob, write_manifest, unstage, resolve_alias, resolve,
}
use ai_daemon.Registry.Stores.{Sound}
use ai_daemon.Registry.Steps.{step, Command, install, forget, look, run, run-Sound}
use ai_daemon.Registry.Loss.{remove_model_loses}
use ai_daemon.Registry.Resolving.{Unshadowed, resolve-accept_staged}

abbrev zeros : String
zeros = "0000000000000000000000000000000000000000000000000000000000000000"

abbrev ones : String
ones = "1111111111111111111111111111111111111111111111111111111111111111"

-- A stand-in for the hash: it tells the empty list from the others.
abbrev hash : List ℕ → String
hash [] = str_append "sha256:" zeros
hash (x ∷ xs) = str_append "sha256:" ones

abbrev tiny : Manifest
tiny = record { name = "tiny"; digest = ""; format = "gguf"; weights_bytes = 0 }

abbrev copy : Manifest
copy = record { name = "copy"; digest = ""; format = "gguf"; weights_bytes = 0 }

abbrev fresh : Registry
fresh = record {
  system = record { blobs = []; manifests = []; aliases = [] };
  staging = ("a", 7 ∷ 8 ∷ []) ∷ ("b", 7 ∷ 8 ∷ []) ∷ [];
  config_aliases = [];
  cache = none;
}

abbrev works : Io
works = record { rename_ok = true; write_ok = true; remove_ok = true; reads = all_read }

fresh-Sound : Sound hash fresh
unfolding get
fresh-Sound = record {
  distinct_manifests = tt;
  distinct_blobs = tt;
  backed = λ k m e local. cc;
  addressed = λ hex bytes e. cc;
  cached = inl refl;
}

abbrev history : List (Io × Command hash)
history =
    (works, install (staged "a") tiny (hash (7 ∷ [])))
    ∷ (works, install (staged "b") copy (hash (7 ∷ [])))
    ∷ (works, look none)
    ∷ (works, forget works "tiny")
    ∷ []

abbrev tiny_installed : Manifest
tiny_installed = record {
  name = "tiny";
  digest = str_append "sha256:" ones;
  format = "gguf";
  weights_bytes = 2;
}

abbrev copy_installed : Manifest
copy_installed = record tiny_installed { name = "copy" }

tiny_is_installed :
    (accept_staged hash works (staged "a") tiny (hash (7 ∷ [])) fresh).0 ≡ done tiny_installed
unfolding accept_staged get hex_of strip_prefix store_blob write_manifest
tiny_is_installed = refl

-- A caller with a store of their own, which has another model and another alias.
abbrev own_store : Store
own_store = record { blobs = []; manifests = ("mine", copy) ∷ []; aliases = ("fast", "mine") ∷ [] }

tiny_plain : resolve_alias all_read (some own_store) "tiny" fresh ≡ none
unfolding resolve_alias get read_aliases
tiny_plain = refl

tiny_free : Unshadowed (some own_store) "tiny"
unfolding get
tiny_free = refl

resolve-accept_staged_example :
    let after = (accept_staged hash works (staged "a") tiny (hash (7 ∷ [])) fresh).1 in
    (hex : String) × (bytes : List ℕ) × (resolve all_read (some own_store) "tiny" after
      ≡ done (record { manifest = tiny_installed; blob = some hex; origin = of_system }))
    × (get hex after.system.blobs ≡ some bytes)
    × (hash bytes ≡ hash (7 ∷ []))
resolve-accept_staged_example =
    resolve-accept_staged hash works all_read (some own_store) "a" tiny (hash (7 ∷ [])) fresh
      tiny_installed fresh-Sound refl tiny_plain tiny_free refl tiny_is_installed

-- An artifact of the wrong digest is refused, and taken out of the staging directory.
wrong_digest :
    accept_staged hash works (staged "a") tiny (hash []) fresh
    ≡ (refused mismatch, record fresh { staging = ("b", 7 ∷ 8 ∷ []) ∷ [] })
unfolding accept_staged get unstage remove
wrong_digest = refl

str_eq_apart : (s t : String) → str_eq s t ≡ false → s ≢ t
str_eq_apart s t e same =
    let yes : str_eq s t ≡ true = (str_eq_iff s t).1 same in
    let clash : true ≡ false = sym yes ∙ e in cc

-- Two names for the same weights, and a directory that cannot be listed.
abbrev installs : List (Io × Command hash)
installs =
    (works, install (staged "a") tiny (hash (7 ∷ [])))
    ∷ (works, install (staged "b") copy (hash (7 ∷ [])))
    ∷ []

abbrev shared : Registry
shared = run hash installs fresh

shared-Sound : Sound hash shared
shared-Sound = run-Sound hash installs fresh (tt, (tt, tt)) fresh-Sound

has_tiny : get "tiny" shared.system.manifests ≡ some tiny_installed
unfolding run step accept_staged get hex_of strip_prefix store_blob write_manifest put_manifest
    invalidate move_blob unstage insert remove
has_tiny = refl

has_copy : get "copy" shared.system.manifests ≡ some copy_installed
unfolding run step accept_staged get hex_of strip_prefix store_blob write_manifest put_manifest
    invalidate move_blob unstage insert remove
has_copy = refl

abbrev unlisted : Io
unlisted = record works { reads = record all_read { lists = false } }

names_differ : ◌≢◌ {A = String} "tiny" "copy"
names_differ = str_eq_apart "tiny" "copy" refl

remove_model_loses_example :
    let result = remove_model works unlisted "tiny" shared in
    (hex : String) × (bytes : List ℕ) × (hex_of copy_installed.digest ≡ some hex)
    × (get hex shared.system.blobs ≡ some bytes)
    × (result.0 ≡ done tt)
    × (get "copy" result.1.system.manifests ≡ some copy_installed)
    × (get hex result.1.system.blobs ≡ none)
remove_model_loses_example =
    remove_model_loses hash works unlisted "tiny" "copy" tiny_installed copy_installed shared
      shared-Sound has_tiny has_copy names_differ refl refl refl refl refl refl
