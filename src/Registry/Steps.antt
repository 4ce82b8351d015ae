-- ===== src/Registry/Steps.antt =====
-- crates/ai-daemon/src/registry.rs: what holds of the store after any history of calls, those
-- that the file system fails included.
use ai_daemon.Prelude.{ℕ, String, inl, inr, Option, none, some, List, [], ◌∷◌, Bool-cases}
use ai_daemon.Registry.{
  Manifest, Store, Registry, Io, Reads, read_manifests, Place, accept_staged, register_remote,
  remove_model, set_alias, list,
}
use ai_daemon.Registry.Stores.{Sound, accept_staged-Sound, register_remote-Sound}
use ai_daemon.Registry.Removal.{remove_model-Sound, system_manifests-Sound}
use ai_daemon.Registry.Reading.{IsWhole}

module _ (digest_of : List ℕ → String) where
  -- A call that the registry serves; `look` reads the list of manifests.
  pub data Command : Type 0 where
    install : Place → Manifest → String → Command
    register : Manifest → Command
    forget : Io → String → Command
    alias : String → String → Command
    look : Option Store → Command

  unfoldable pub step : Io → Command → Registry → Registry
  step io (install place m expected) r = (accept_staged digest_of io place m expected r).1
  step io (register m) r = (register_remote io m r).1
  step io (forget collected name) r = (remove_model io collected name r).1
  step io (alias a t) r = (set_alias io a t r).1
  step io (look user) r = (list io.reads user r).1

  -- The readings of a command whose outcome stays in memory succeed: those of the list of manifests,
  -- by `look`, or by a removal that asks whether a blob is still in use.
  abbrev pub ReadsWell : Io → Command → Type 0
  ReadsWell io (install place m expected) = Unit {0}
  ReadsWell io (register m) = Unit {0}
  ReadsWell io (forget collected name) = IsWhole collected.reads
  ReadsWell io (alias a t) = Unit {0}
  ReadsWell io (look user) = IsWhole io.reads

  abbrev pub AllReadWell : List (Io × Command) → Type 0
  AllReadWell [] = Unit {0}
  AllReadWell ((io, c) ∷ cs) = ReadsWell io c × AllReadWell cs

  unfoldable pub run : List (Io × Command) → Registry → Registry
  run [] r = r
  run ((io, c) ∷ cs) r = run cs (step io c r)

  set_alias-Sound :
      (io : Io) (a t : String) (r : Registry)
      → Sound digest_of r
      → Sound digest_of (set_alias io a t r).1
  unfolding set_alias read_manifests
  set_alias-Sound io a t r v = elim (Bool-cases io.write_ok) [
    | inl e ↦
        rw (e, set_alias)
          (record {
            distinct_manifests = v.distinct_manifests;
            distinct_blobs = v.distinct_blobs;
            backed = v.backed;
            addressed = v.addressed;
            cached = v.cached;
          })
    | inr e ↦ rw (e, set_alias) v
  ]

  list-Sound :
      (reads : Reads) (user : Option Store) (r : Registry)
      → IsWhole reads
      → Sound digest_of r
      → Sound digest_of (list reads user r).1
  unfolding list
  list-Sound reads none r w v = system_manifests-Sound digest_of reads r w v
  list-Sound reads (some store) r w v = system_manifests-Sound digest_of reads r w v

  step-Sound :
      (io : Io) (c : Command) (r : Registry)
      → ReadsWell io c
      → Sound digest_of r
      → Sound digest_of (step io c r)
  unfolding step
  step-Sound io (install place m expected) r w v =
      accept_staged-Sound digest_of io place m expected r v
  step-Sound io (register m) r w v = register_remote-Sound digest_of io m r v
  step-Sound io (forget collected name) r w v = remove_model-Sound digest_of io collected name r w v
  step-Sound io (alias a t) r w v = set_alias-Sound io a t r v
  step-Sound io (look user) r w v = list-Sound io.reads user r w v

pub run-Sound :
    (digest_of : List ℕ → String) (cs : List (Io × Command digest_of)) (r : Registry)
    → AllReadWell digest_of cs
    → Sound digest_of r
    → Sound digest_of (run digest_of cs r)
unfolding run
run-Sound digest_of [] r w v = v
run-Sound digest_of ((io, c) ∷ cs) r (w, ws) v =
    run-Sound digest_of cs (step digest_of io c r) ws (step-Sound digest_of io c r w v)
