-- ===== src/Registry.antt =====
-- crates/ai-daemon/src/registry.rs: the model store. A directory is a map from the names of its
-- files to what they hold; a manifest is held as it is parsed.
pub mod Digests
pub mod Stores
pub mod Reading
pub mod Removal
pub mod Loss
pub mod Steps
pub mod Resolving
pub mod Tests
use ai_daemon.Prelude.{
  ℕ, zero, suc, ◌+◌, ◌-◌, ◌*◌, ◌/◌, ◌%◌, ◌^◌, ◌≤◌, ◌<◌, String, ◌≡◌, refl, sym, ap, ap₂, append-nil,
  append_assoc, ◌∙◌, subst, ◌≢◌, ◌↔◌, ◌⊎◌, inl, inr, Bool, true, false, ◌&&◌, ◌||◌, not, Option,
  none, some, List, [], ◌∷◌, ◌++◌, map, Memᴰ, arith, get_elem?, set, replicate, take, drop, slice,
  length-set, length-replicate, get_elem?-lt, take-drop, length-take_le, take-append, drop-append,
  length-drop, get_elem?-replicate, all-get_elem?, get_elem?-within, get_elem?-set_same,
  get_elem?-set_other, length-slice, All-set, All-replicate, All-take, All-drop, sum, sum-set,
  sum-replicate_zero, length, any, all, filter, find, count, All, All-mem, all-mem, find-mem,
  mem-append_left, mem-append_right, All-append, All-append_left, All-append_right, All-filter_test,
  All-both, All-filter, length-append, count-append, count-filter-le, mem-map, map-append_one, Uniq,
  Uniq-filter, Uniq-append, Uniq-append_left, Uniq-append_one, All-imp, mem-filter,
  mem-append_cases, mem-of_map, not-mem_nil, StrMap, get, insert, remove, Distinct, total, weight,
  get-insert, get-remove_ne, get-remove_self, remove-Distinct, insert-Distinct, total-insert,
  total-remove, weight-le-total, All-get, keys_ne, Distinct-Uniq, total-append, total-filters,
  get-mem, sort_insert, sort_by_key, IsSortedBy, All-sort_by_key, sort_by_key-IsSortedBy,
  sort_by_key-perm, Uniq-sort_by_key, mem-sort_by_key, IsSortedBy-split, total-sort_by_key, ltb,
  leb, ◌==◌, str_eq, if◌then◌else◌, str_eq_iff, str_eq_refl, str_eq_ne, ltb→lt, ltb-false, leb→le,
  Bool-cases, Option-cases, and_true, u64_mod, add_u64, u32_mod, str_append, is_whitespace,
  is_blank,
}
use Prim.Native.Char.{code}

-- The fields of a manifest that the registry reads.
pub record Manifest : Type 0 where
  pub name : String
  pub digest : String
  pub format : String
  pub weights_bytes : ℕ

-- One model store: `blobs/sha256`, `manifests` and `aliases.json`.
pub record Store : Type 0 where
  pub blobs : StrMap (List ℕ)
  pub manifests : StrMap Manifest
  pub aliases : StrMap String

-- The daemon's state directory, and what the registry keeps in memory.
pub record Registry : Type 0 where
  pub system : Store
  pub staging : StrMap (List ℕ)
  pub config_aliases : StrMap String
  pub cache : Option (List Manifest)

pub data Error : Type 0 where
  unstaged unreadable mismatch bad_digest unwritable not_remote no_model : Error

pub data Outcome {ℓ} (A : Type ℓ) : Type ℓ where
  done : A → Outcome A
  refused : Error → Outcome A

-- Which readings of the system's store succeed: whether its directory of manifests can be listed,
-- which of the files there can be read, and whether its aliases can.
pub record Reads : Type 0 where
  pub lists : Bool
  pub opens : String → Bool
  pub aliases_open : Bool

abbrev pub all_read : Reads
all_read = record { lists = true; opens = λ name. true; aliases_open = true }

-- Which operations on the file system succeed, of those that a call may ask for.
pub record Io : Type 0 where
  pub rename_ok : Bool
  pub write_ok : Bool
  pub remove_ok : Bool
  pub reads : Reads

-- `Manifest::is_remote`.
abbrev pub is_remote : Manifest → Bool
is_remote m = str_eq m.format "remote"

unfoldable pub strip_prefix : String → String → Option String
strip_prefix String.[] s = some s
strip_prefix (String.◌∷◌ c p) String.[] = none
strip_prefix (String.◌∷◌ c p) (String.◌∷◌ d s) =
    let rest = strip_prefix p s in if code c == code d then rest else none

abbrev pub is_hexdigit : ℕ → Bool
is_hexdigit c = (leb 48 c && leb c 57) || ((leb 65 c && leb c 70) || (leb 97 c && leb c 102))

-- All of the characters are hexadecimal digits, and there are `n` of them.
abbrev pub is_hex : ℕ → String → Bool
is_hex zero String.[] = true
is_hex zero (String.◌∷◌ c s) = false
is_hex (suc n) String.[] = false
is_hex (suc n) (String.◌∷◌ c s) = is_hexdigit (code c) && is_hex n s

unfoldable pub hex_of : String → Option String
hex_of digest = elim (strip_prefix "sha256:" digest) [
  | none ↦ none
  | some hex ↦ if is_hex 64 hex then some hex else none
]

-- Where a manifest's weights are: `none` for the empty path of a remote model.
unfoldable pub blob_for : Manifest → Outcome (Option String)
blob_for m =
    if is_remote m
    then done none
    else elim (hex_of m.digest) [ none ↦ refused bad_digest | some hex ↦ done (some hex) ]

-- The order of strings, by their characters: that of their bytes in UTF-8.
unfoldable pub str_leb : String → String → Bool
str_leb String.[] t = true
str_leb (String.◌∷◌ c s) String.[] = false
str_leb (String.◌∷◌ c s) (String.◌∷◌ d t) =
    let rest = str_leb s t in ltb (code c) (code d) || (code c == code d) && rest

-- `sort_by` the names, which is stable.
unfoldable pub name_insert : Manifest → List Manifest → List Manifest
name_insert m [] = m ∷ []
name_insert m (n ∷ ns) = if str_leb m.name n.name then m ∷ n ∷ ns else n ∷ name_insert m ns

unfoldable pub sort_by_name : List Manifest → List Manifest
sort_by_name [] = []
sort_by_name (m ∷ ms) = name_insert m (sort_by_name ms)

-- The manifests whose files can be read.
unfoldable pub readable : (String → Bool) → StrMap Manifest → List Manifest
readable opens [] = []
readable opens ((k, m) ∷ rest) = if opens k then m ∷ readable opens rest else readable opens rest

-- A directory that cannot be listed gives no manifest, and a file that cannot be read is left out.
unfoldable pub read_manifests : Reads → Store → List Manifest
read_manifests reads s = if reads.lists then sort_by_name (readable reads.opens s.manifests) else []

unfoldable pub read_manifest : Reads → String → Store → Option Manifest
read_manifest reads name s = if reads.opens name then get name s.manifests else none

unfoldable pub read_aliases : Reads → Store → StrMap String
read_aliases reads s = if reads.aliases_open then s.aliases else []

unfoldable pub invalidate : Registry → Registry
invalidate r = (record r { cache = none })

-- `system_manifests`, which fills the cache with what could be read.
unfoldable pub system_manifests : Reads → Registry → List Manifest × Registry
system_manifests reads r = elim r.cache [
  | some cached ↦ (cached, r)
  | none ↦ let ms = read_manifests reads r.system in (ms, (record r { cache = some ms }))
]

-- A path that a caller names: a file of the staging directory, or one outside it.
pub data Place : Type 0 where
  staged : String → Place
  elsewhere : Place

unfoldable pub unstage : Io → String → Registry → Registry
unstage io file r = if io.remove_ok then (record r { staging = remove file r.staging }) else r

unfoldable pub put_manifest : Manifest → Registry → Registry
put_manifest m r =
    invalidate
      ((record r { system = (record r.system { manifests = insert m.name m r.system.manifests }) }))

-- What ends both `accept_staged` and `register_remote`.
unfoldable pub write_manifest : Io → Manifest → Registry → Outcome Manifest × Registry
write_manifest io m r = if io.write_ok then (done m, put_manifest m r) else (refused unwritable, r)

unfoldable pub move_blob : String → String → List ℕ → Registry → Registry
move_blob file hex bytes r = (record r {
  system = (record r.system { blobs = insert hex bytes r.system.blobs });
  staging = remove file r.staging;
})

-- `accept_staged` once the digest is that of the bytes.
unfoldable pub store_blob :
    Io → String → String → List ℕ → Manifest → Registry → Outcome Manifest × Registry
store_blob io file hex bytes m r = elim (get hex r.system.blobs) [
  | some present ↦ write_manifest io m (unstage io file r)
  | none ↦
      if io.rename_ok
      then write_manifest io m (move_blob file hex bytes r)
      else (refused unwritable, r)
]

module _ (digest_of : List ℕ → String) where
  unfoldable pub accept_staged :
      Io → Place → Manifest → String → Registry → Outcome Manifest × Registry
  accept_staged io elsewhere m expected r = (refused unstaged, r)
  accept_staged io (staged file) m expected r = elim (get file r.staging) [
    | none ↦ (refused unreadable, r)
    | some bytes ↦
        let actual = digest_of bytes in
        if not (str_eq actual expected)
        then (refused mismatch, unstage io file r)
        else let m' : Manifest = (record m {
          digest = actual;
          weights_bytes = if m.weights_bytes == 0 then length bytes else m.weights_bytes;
        }) in
          elim (hex_of actual) [
            | none ↦ (refused bad_digest, r)
            | some hex ↦ store_blob io file hex bytes m' r
          ]
  ]

unfoldable pub register_remote : Io → Manifest → Registry → Outcome Manifest × Registry
register_remote io m r = if is_remote m then write_manifest io m r else (refused not_remote, r)

unfoldable pub drop_manifest : String → Registry → Registry
drop_manifest name r =
    invalidate
      ((record r { system = (record r.system { manifests = remove name r.system.manifests }) }))

unfoldable pub drop_blob : String → Registry → Registry
drop_blob hex r = (record r { system = (record r.system { blobs = remove hex r.system.blobs }) })

-- The end of `remove`: the blob goes unless a manifest that is left has its digest.
unfoldable pub collect : Io → Manifest → Registry → Registry
collect io m r =
    let (left, r') = system_manifests io.reads r in
    if any (λ (n : Manifest). str_eq n.digest m.digest) left || is_remote m
    then r'
    else elim (hex_of m.digest) [
      | none ↦ r'
      | some hex ↦ if io.remove_ok then drop_blob hex r' else r'
    ]

-- `io` is for the manifest, and `collected` for the reading of those that are left and the removal
-- of the blob.
unfoldable pub remove_model : Io → Io → String → Registry → Outcome (Unit {0}) × Registry
remove_model io collected name r = elim (read_manifest io.reads name r.system) [
  | none ↦ (refused no_model, r)
  | some m ↦
      if io.remove_ok
      then (done tt, collect collected m (drop_manifest name r))
      else (refused unwritable, r)
]

unfoldable pub set_alias : Io → String → String → Registry → Outcome (Unit {0}) × Registry
set_alias io alias target r =
    if io.write_ok
    then (
      done tt,
      (record r {
        system = (record r.system {
          aliases = insert alias target (read_aliases io.reads r.system);
        });
      }),
    )
    else (refused unwritable, r)

-- The user's store comes first, where there is one; then the configuration; then the system's.
-- The user's store is given as what can be read of it.
unfoldable pub resolve_alias : Reads → Option Store → String → Registry → Option String
resolve_alias reads user alias r =
    let by_system : Option String = elim (get alias r.config_aliases) [
      | none ↦ get alias (read_aliases reads r.system)
      | some target ↦ some target
    ] in
    elim user [
      | none ↦ by_system
      | some store ↦ elim (get alias store.aliases) [ none ↦ by_system | some target ↦ some target ]
    ]

pub data Origin : Type 0 where
  of_system of_user : Origin

pub record Resolved : Type 0 where
  pub manifest : Manifest
  pub blob : Option String
  pub origin : Origin

abbrev pub found_in : Origin → Manifest → Outcome Resolved
found_in origin m = elim (blob_for m) [
  | refused e ↦ refused e
  | done blob ↦ done (record { manifest = m; blob = blob; origin = origin })
]

unfoldable pub resolve : Reads → Option Store → String → Registry → Outcome Resolved
resolve reads user name r =
    let target : String = elim (resolve_alias reads user name r) [ none ↦ name | some t ↦ t ] in
    let by_system : Outcome Resolved = elim (read_manifest reads target r.system) [
      | none ↦ refused no_model
      | some m ↦ found_in of_system m
    ] in
    elim user [
      | none ↦ by_system
      | some store ↦ elim (get target store.manifests) [
        | none ↦ by_system
        | some m ↦ found_in of_user m
      ]
    ]

-- `BTreeMap::insert` by the manifest's own name, for each of `ms`.
unfoldable pub by_name :
    Origin → List Manifest → StrMap (Manifest × Origin) → StrMap (Manifest × Origin)
by_name origin [] seen = seen
by_name origin (m ∷ ms) seen = by_name origin ms (insert m.name (m, origin) seen)

unfoldable pub list : Reads → Option Store → Registry → StrMap (Manifest × Origin) × Registry
list reads user r =
    let (ms, r') = system_manifests reads r in
    let seen = by_name of_system ms [] in
    elim user [
      | none ↦ (seen, r')
      | some store ↦ (by_name of_user (read_manifests all_read store) seen, r')
    ]
