-- ===== src/Subsystem/Table.antt =====
-- crates/ioutgt-core/src/subsystem.rs: adding and removing namespaces.
use ioutgt.Base.{
  ℕ, suc, ◌+◌, ◌%◌, ◌^◌, ◌≤◌, ◌<◌, ◌≡◌, refl, sym, inl, inr, List, [], ◌∷◌, Option, none, some,
  arith, ltb, ltb→lt, ◌==◌, if◌then◌else◌, All, Bool-cases, Option-cases,
}
use ioutgt.Subsystem.{
  Namespace, Subsystem, Change, changed, refused, already_exists, not_found, find_ns, insert_ns,
  remove_ns, last_nsid, add_namespace, remove_namespace, max_nsid,
}

module _ {B : Type 0} where
  -- Ids from `lo` on, each above the one before.
  abbrev pub IsSorted : ℕ → List (Namespace B) → Type 0
  IsSorted lo [] = Unit {0}
  IsSorted lo (ns ∷ rest) = (lo ≤ ns.nsid) × IsSorted (suc ns.nsid) rest

  find-below :
      (lo id : ℕ) (table : List (Namespace B))
      → id < lo
      → IsSorted lo table
      → find_ns id table ≡ none
  unfolding find_ns
  find-below lo id [] h s = refl
  find-below lo id (ns ∷ rest) h s =
      ground (arith, find-below (suc ns.nsid) id rest (omega arith) s.1)

  insert_ns-IsSorted :
      (lo : ℕ) (x : Namespace B) (table : List (Namespace B))
      → lo ≤ x.nsid
      → find_ns x.nsid table ≡ none
      → IsSorted lo table
      → IsSorted lo (insert_ns x table)
  unfolding insert_ns find_ns
  insert_ns-IsSorted lo x [] l f s = (l, tt)
  insert_ns-IsSorted lo x (ns ∷ rest) l f s = elim (Bool-cases (ltb x.nsid ns.nsid)) [
    | inl below ↦ rw below (l, (ltb→lt x.nsid ns.nsid below, s.1))
    | inr above ↦ elim (Bool-cases (ns.nsid == x.nsid)) [
      | inl same ↦ absurd (some_none ns (sym (rw same at f)))
      | inr other ↦
          rw above (s.0, insert_ns-IsSorted (suc ns.nsid) x rest (ground arith) (rw other at f) s.1)
    ]
  ]
    where
      some_none : (a : Namespace B) → none ≡ some a → ⊥
      some_none a e = absurd (cc)

  find-insert_ns :
      (j : ℕ) (x : Namespace B) (table : List (Namespace B))
      → find_ns x.nsid table ≡ none
      → find_ns j (insert_ns x table) ≡ (if x.nsid == j then some x else find_ns j table)
  unfolding find_ns insert_ns
  find-insert_ns j x [] f = refl
  find-insert_ns j x (ns ∷ rest) f = ground (arith, find-insert_ns j x rest)

  IsSorted-mono :
      (lo lo' : ℕ) (table : List (Namespace B)) → lo ≤ lo' → IsSorted lo' table → IsSorted lo table
  IsSorted-mono lo lo' [] h s = tt
  IsSorted-mono lo lo' (ns ∷ rest) h s = (omega arith, s.1)

  remove_ns-IsSorted :
      (lo id : ℕ) (table : List (Namespace B))
      → IsSorted lo table
      → IsSorted lo (remove_ns id table)
  unfolding remove_ns
  remove_ns-IsSorted lo id [] s = tt
  remove_ns-IsSorted lo id (ns ∷ rest) s = elim (Bool-cases (ns.nsid == id)) [
    | inl same ↦ rw same (IsSorted-mono lo (suc ns.nsid) rest (omega arith) s.1)
    | inr other ↦ rw other (s.0, remove_ns-IsSorted (suc ns.nsid) id rest s.1)
  ]

  find-remove_ns :
      (lo j id : ℕ) (table : List (Namespace B))
      → IsSorted lo table
      → find_ns j (remove_ns id table) ≡ (if id == j then none else find_ns j table)
  unfolding find_ns remove_ns
  find-remove_ns lo j id [] s = ground arith
  find-remove_ns lo j id (ns ∷ rest) s = ground (
    arith,
    find-remove_ns (suc ns.nsid) j id rest s.1,
    find-below (suc ns.nsid) ns.nsid rest (omega arith) s.1,
  )

  last_nsid-max :
      (lo : ℕ) (table : List (Namespace B))
      → IsSorted lo table
      → All (λ ns. ns.nsid ≤ last_nsid table) table
  unfolding last_nsid
  last_nsid-max lo [] s = tt
  last_nsid-max lo (ns ∷ []) s = (omega arith, tt)
  last_nsid-max lo (ns ∷ next ∷ rest) s =
      let up = last_nsid-max (suc ns.nsid) (next ∷ rest) s.1 in (omega (arith, up.0), up)

  -- What a change of the table leaves, with the namespace `found` under the id.
  pub record Changed (s : Subsystem B) (id : ℕ) (found : Option (Namespace B)) (t : Subsystem B)
      : Type 0 where
    pub sorted : IsSorted 0 t.namespaces
    pub at : (j : ℕ) → find_ns j t.namespaces ≡ (if id == j then found else find_ns j s.namespaces)
    pub bumped : t.generation ≡ (s.generation + 1) % 2 ^ 64

  abbrev pub AddPost : Subsystem B → Namespace B → Change (Subsystem B) → Type 0
  AddPost s ns (changed t) = (find_ns ns.nsid s.namespaces ≡ none) × Changed s ns.nsid (some ns) t
  AddPost s ns (refused e) =
      ((old : Namespace B) × (find_ns ns.nsid s.namespaces ≡ some old))
      × (e ≡ already_exists ns.nsid)

  abbrev pub RemovePost : Subsystem B → ℕ → Change (Subsystem B) → Type 0
  RemovePost s id (changed t) =
      ((old : Namespace B) × (find_ns id s.namespaces ≡ some old)) × Changed s id none t
  RemovePost s id (refused e) = (find_ns id s.namespaces ≡ none) × (e ≡ not_found id)

  -- Adding a namespace to a sorted table refuses an id that is taken. Else the table has it under its
  -- id and what it had under every other, stays sorted, and the generation goes up by one.
  pub add_namespace-AddPost :
      (s : Subsystem B) (ns : Namespace B)
      → IsSorted 0 s.namespaces
      → AddPost s ns (add_namespace s ns)
  unfolding add_namespace
  add_namespace-AddPost s ns h = elim (Option-cases (find_ns ns.nsid s.namespaces)) [
    | inl fresh ↦
        rw (fresh, add_namespace)
          (
            fresh,
            record {
              sorted = insert_ns-IsSorted 0 ns s.namespaces (omega arith) fresh h;
              at = λ j. find-insert_ns j ns s.namespaces fresh;
              bumped = refl;
            },
          )
    | inr (old, found) ↦ rw (found, add_namespace) ((old, found), refl)
  ]

  -- Removing a namespace from a sorted table refuses an id that is not there. Else the table has
  -- nothing under the id and what it had under every other, stays sorted, and the generation goes up.
  pub remove_namespace-RemovePost :
      (s : Subsystem B) (id : ℕ) → IsSorted 0 s.namespaces → RemovePost s id (remove_namespace s id)
  unfolding remove_namespace
  remove_namespace-RemovePost s id h = elim (Option-cases (find_ns id s.namespaces)) [
    | inl missing ↦ rw (missing, remove_namespace) (missing, refl)
    | inr (old, found) ↦
        rw (found, remove_namespace)
          (
            (old, found),
            record {
              sorted = remove_ns-IsSorted 0 id s.namespaces h;
              at = λ j. find-remove_ns 0 j id s.namespaces h;
              bumped = refl;
            },
          )
  ]

  -- No namespace of a sorted table has an id above `max_nsid`.
  pub max_nsid-bound :
      (s : Subsystem B) → IsSorted 0 s.namespaces → All (λ ns. ns.nsid ≤ max_nsid s) s.namespaces
  unfolding max_nsid
  max_nsid-bound s h = last_nsid-max 0 s.namespaces h
