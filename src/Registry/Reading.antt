-- ===== src/Registry/Reading.antt =====
-- crates/ai-daemon/src/registry.rs, `read_manifests`: what a reading of the directory finds.
use ai_daemon.Prelude.{
  String, ◌≡◌, refl, sym, ap, ◌∙◌, subst, inl, inr, Bool, true, some, List, [], ◌∷◌, StrMap, map,
  Memᴰ, mem-map, get, get-mem, Bool-cases,
}
use ai_daemon.Registry.{
  Manifest, Store, Reads, all_read, str_leb, name_insert, sort_by_name, readable, read_manifests,
}

-- Every reading succeeds.
abbrev pub IsWhole : Reads → Type 0
IsWhole reads = (reads.lists ≡ true) × ((name : String) → reads.opens name ≡ true)

readable_whole :
    (f : String → Bool) (ms : StrMap Manifest)
    → ((name : String) → f name ≡ true)
    → readable f ms ≡ map (λ e. e.1) ms
unfolding readable
readable_whole f [] h = refl
readable_whole f ((k, m) ∷ ms) h = rw (h k) (ap (λ l. m ∷ l) (readable_whole f ms h))

pub read_whole :
    (reads : Reads) (s : Store) → IsWhole reads → read_manifests reads s ≡ read_manifests all_read s
unfolding read_manifests
read_whole reads s (l, o) =
    rw (l, read_manifests)
      (ap sort_by_name (
        readable_whole reads.opens s.manifests o
        ∙ sym (readable_whole (λ name. true) s.manifests (λ name. refl))))

mem-name_insert_self : (m : Manifest) (ms : List Manifest) → Memᴰ m (name_insert m ms)
unfolding name_insert
mem-name_insert_self m [] = Memᴰ.head refl
mem-name_insert_self m (n ∷ ns) = elim (Bool-cases (str_leb m.name n.name)) [
  | inl e ↦ rw e (Memᴰ.head refl)
  | inr e ↦ rw e (Memᴰ.tail (mem-name_insert_self m ns))
]

mem-name_insert :
    (m : Manifest) {x : Manifest} (ms : List Manifest) → Memᴰ x ms → Memᴰ x (name_insert m ms)
unfolding name_insert
mem-name_insert m [] h = elim h [ ]
mem-name_insert m (n ∷ ns) h = elim (Bool-cases (str_leb m.name n.name)) [
  | inl e ↦ rw e (Memᴰ.tail h)
  | inr e ↦ rw e (elim h [
    | Memᴰ.head same ↦ Memᴰ.head same
    | Memᴰ.tail later ↦ Memᴰ.tail (mem-name_insert m ns later)
  ])
]

-- The sort loses no manifest.
mem-sort_by_name : {x : Manifest} (ms : List Manifest) → Memᴰ x ms → Memᴰ x (sort_by_name ms)
unfolding sort_by_name
mem-sort_by_name [] h = elim h [ ]
mem-sort_by_name {x} (m ∷ ms) h = elim h [
  | Memᴰ.head same ↦
      subst (λ y. Memᴰ y (sort_by_name (m ∷ ms))) (sym same)
        (mem-name_insert_self m (sort_by_name ms))
  | Memᴰ.tail later ↦ mem-name_insert m (sort_by_name ms) (mem-sort_by_name ms later)
]

pub mem-read_manifests :
    (k : String) (m : Manifest) (s : Store)
    → get k s.manifests ≡ some m
    → Memᴰ m (read_manifests all_read s)
unfolding read_manifests
mem-read_manifests k m s e =
    let there = mem-map (λ x. x.1) s.manifests (get-mem k m s.manifests e) in
    mem-sort_by_name (readable (λ name. true) s.manifests)
      (subst (Memᴰ m) (sym (readable_whole (λ name. true) s.manifests (λ name. refl))) there)
