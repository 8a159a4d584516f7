-- ===== src/Subsystem/Cache.antt =====
-- crates/ioutgt-core/src/subsystem.rs: `NsCache::get` of a queue beside a control plane that changes the
-- table. The load of the generation, the rest of `get`, the write of the table and the increment of
-- the generation are steps of their own; the write lock is held from the write to the increment. A `get` that
-- finds its generation in the cache takes no lock.
use ioutgt.Base.{
  ℕ, ◌+◌, ◌%◌, ◌^◌, ◌≤◌, ◌<◌, ◌≡◌, refl, sym, ◌∙◌, ap, inl, inr, true, List, Option, none, some,
  arith, ◌==◌, ==_iff, if◌then◌else◌, Bool-cases, Option-cases, subst, ◌⊎◌,
}
use ioutgt.Subsystem.{
  Namespace, Subsystem, NsCache, Change, changed, refused, find_ns, add_namespace, remove_namespace,
  new_cache, refresh, refresh_by,
}

module _ (B : Type 0) where
  -- What the readers see of the subsystem; under the write lock, what it becomes; the cache of a queue, and
  -- the generation that its `get` loaded.
  pub record System : Type 0 where
    pub sub : Subsystem B
    pub change : Option (Subsystem B)
    pub cache : NsCache B
    pub loaded : ℕ

module _ {B : Type 0} where
  -- The table of a change, still under the old generation.
  abbrev pub written : System B → Subsystem B → System B
  written s sub = record s {
    sub = record (s.sub) { namespaces = sub.namespaces };
    change = some sub;
  }

  abbrev pub got : System B → System B
  got s = record s { cache = refresh s.cache s.loaded s.sub.namespaces }

  pub data Step (s : System B) : System B → Type 0 where
    added :
        (ns : Namespace B) (sub : Subsystem B)
        → s.change ≡ none
        → add_namespace s.sub ns ≡ changed sub
        → Step s (written s sub)
    removed :
        (nsid : ℕ) (sub : Subsystem B)
        → s.change ≡ none
        → remove_namespace s.sub nsid ≡ changed sub
        → Step s (written s sub)
    bumped :
        (sub : Subsystem B) → s.change ≡ some sub → Step s (record s { sub = sub; change = none })
    load : Step s (record s { loaded = s.sub.generation })
    get : s.change ≡ none → Step s (got s)
    hit :
        (table : List (Namespace B))
        → s.cache.cached ≡ some table
        → s.cache.cached_generation ≡ s.loaded
        → Step s (got s)

  -- Steps while the generation does not wrap.
  pub data Reach (s : System B) : System B → Type 0 where
    here : Reach s s
    next : {t u : System B} → Reach s t → t.sub.generation + 1 < 2 ^ 64 → Step t u → Reach s u

  -- A queue that has cached nothing yet.
  abbrev pub started : Subsystem B → System B
  started sub = record { sub = sub; change = none; cache = new_cache; loaded = 0 }

  -- The cache is behind, or it has the table; under the write lock it may have the old one, and the
  -- generation to come is the next.
  pub record IsCoherent (s : System B) : Type 0 where
    pub loaded_old : s.loaded ≤ s.sub.generation
    pub cached_old : s.cache.cached_generation ≤ s.sub.generation
    pub to_come :
        (sub : Subsystem B)
        → s.change ≡ some sub
        → (sub.generation ≡ s.sub.generation + 1) × (sub.namespaces ≡ s.sub.namespaces)
    pub current :
        (m : List (Namespace B))
        → s.change ≡ none
        → s.cache.cached ≡ some m
        → s.cache.cached_generation ≡ s.sub.generation
        → m ≡ s.sub.namespaces

  -- What a refresh leaves: the table under the generation that was loaded, or the cache as it was.
  refresh_by-cases :
      (c : NsCache B) (generation : ℕ) (table : List (Namespace B))
      (o : Option (List (Namespace B)))
      → (refresh_by c generation table o ≡ c)
        ⊎ (refresh_by c generation table o
            ≡ record { cached_generation = generation; cached = some table })
  refresh_by-cases c generation table none = inr refl
  refresh_by-cases c generation table (some m) =
      elim (Bool-cases (c.cached_generation == generation)) [
        | inl same ↦ inl (
            ap
              (λ b. if b then c else record { cached_generation = generation; cached = some table })
              same)
        | inr other ↦ inr (
            ap
              (λ b. if b then c else record { cached_generation = generation; cached = some table })
              other)
      ]

  kept :
      (c : NsCache B) (generation : ℕ) (table m : List (Namespace B))
      → c.cached ≡ some m
      → c.cached_generation ≡ generation
      → refresh c generation table ≡ c
  unfolding refresh
  kept c generation table m there g =
      let same : (c.cached_generation == generation) ≡ true = (==_iff _ _).1 g in
      rw (there, same) refl

  refreshed :
      (s : System B) (c : NsCache B)
      → s.change ≡ none
      → IsCoherent s
      → (c ≡ s.cache)
        ⊎ (c ≡ record { cached_generation = s.loaded; cached = some s.sub.namespaces })
      → IsCoherent (record s { cache = c })
  refreshed s c idle v (inl e) = subst (λ x. IsCoherent (record s { cache = x })) (sym e) v
  refreshed s c idle v (inr e) =
      subst (λ x. IsCoherent (record s { cache = x })) (sym e)
        (record {
          loaded_old = v.loaded_old;
          cached_old = v.loaded_old;
          to_come = v.to_come;
          current = λ m w there g. cc;
        })

  -- The generation of a change.
  abbrev Next : Subsystem B → Change (Subsystem B) → Type 0
  Next sub (changed sub') = sub'.generation ≡ (sub.generation + 1) % 2 ^ 64
  Next sub (refused e) = Unit {0}

  add-Next : (sub : Subsystem B) (ns : Namespace B) → Next sub (add_namespace sub ns)
  unfolding add_namespace
  add-Next sub ns = elim (Option-cases (find_ns ns.nsid sub.namespaces)) [
    | inl e ↦ rw (e, Next) refl
    | inr (x, e) ↦ rw (e, Next) tt
  ]

  remove-Next : (sub : Subsystem B) (nsid : ℕ) → Next sub (remove_namespace sub nsid)
  unfolding remove_namespace
  remove-Next sub nsid = elim (Option-cases (find_ns nsid sub.namespaces)) [
    | inl e ↦ rw (e, Next) tt
    | inr (x, e) ↦ rw (e, Next) refl
  ]

  written-IsCoherent :
      (s : System B) (sub : Subsystem B) (c : Change (Subsystem B))
      → s.sub.generation + 1 < 2 ^ 64
      → Next s.sub c
      → c ≡ changed sub
      → IsCoherent s
      → IsCoherent (written s sub)
  written-IsCoherent s sub c h n e v =
      let g : sub.generation ≡ (s.sub.generation + 1) % 2 ^ 64 = subst (Next s.sub) e n in
      record {
        loaded_old = v.loaded_old;
        cached_old = v.cached_old;
        to_come = λ sub' w.
            let same : sub ≡ sub' = cc in
            subst (λ x. (x.generation ≡ s.sub.generation + 1) × (x.namespaces ≡ sub.namespaces))
              same (omega arith, refl);
        current = λ m w there at. absurd (cc);
      }

  Step-IsCoherent :
      {s t : System B} → Step s t → s.sub.generation + 1 < 2 ^ 64 → IsCoherent s → IsCoherent t
  unfolding refresh
  Step-IsCoherent {s = s} (added ns sub idle e) h v =
      written-IsCoherent s sub (add_namespace s.sub ns) h (add-Next s.sub ns) e v
  Step-IsCoherent {s = s} (removed nsid sub idle e) h v =
      written-IsCoherent s sub (remove_namespace s.sub nsid) h (remove-Next s.sub nsid) e v
  Step-IsCoherent {s = s} (bumped sub held) h v =
      let (later, _) = v.to_come sub held in
      record {
        loaded_old = omega (arith, v.loaded_old);
        cached_old = omega (arith, v.cached_old);
        to_come = λ sub' w. absurd (cc);
        current = λ m w there g. absurd (omega (arith, v.cached_old));
      }
  Step-IsCoherent {s = s} load h v = record {
    loaded_old = omega arith;
    cached_old = v.cached_old;
    to_come = v.to_come;
    current = v.current;
  }
  Step-IsCoherent {s = s} (get idle) h v =
      refreshed s (refresh s.cache s.loaded s.sub.namespaces) idle v
        (refresh_by-cases s.cache s.loaded s.sub.namespaces s.cache.cached)
  Step-IsCoherent {s = s} (hit table there g) h v =
      subst (λ x. IsCoherent (record s { cache = x }))
        (sym (kept s.cache s.loaded s.sub.namespaces table there g)) v

  Reach-IsCoherent : {s t : System B} → Reach s t → IsCoherent s → IsCoherent t
  Reach-IsCoherent here v = v
  Reach-IsCoherent (next r h step) v = Step-IsCoherent step h (Reach-IsCoherent r v)

  current_table :
      (s : System B) (o : Option (List (Namespace B)))
      → s.cache.cached ≡ o
      → s.change ≡ none
      → s.loaded ≡ s.sub.generation
      → IsCoherent s
      → (refresh_by s.cache s.loaded s.sub.namespaces o).cached ≡ some s.sub.namespaces
  current_table s none e idle l v = refl
  current_table s (some m) e idle l v = elim (Bool-cases (s.cache.cached_generation == s.loaded)) [
    | inl same ↦
        ap
          (λ b.
            (if b
              then s.cache
              else record { cached_generation = s.loaded; cached = some s.sub.namespaces }).cached)
          same
        ∙ e
        ∙ ap (λ t. some t)
            (v.current m idle e ((==_iff s.cache.cached_generation s.loaded).0 same ∙ l))
    | inr other ↦
        ap
          (λ b.
            (if b
              then s.cache
              else record { cached_generation = s.loaded; cached = some s.sub.namespaces }).cached)
          other
  ]

  -- Whatever a control plane that adds and removes namespaces and a queue that loads generations and gets
  -- its table do between each other's steps, a queue that then loaded the present generation gets the present
  -- table while no change is under way, whether it refreshes its cache or not. The generation does not wrap.
  pub Reach-current :
      (sub : Subsystem B) (t : System B)
      → Reach (started sub) t
      → t.change ≡ none
      → t.loaded ≡ t.sub.generation
      → (refresh t.cache t.loaded t.sub.namespaces).cached ≡ some t.sub.namespaces
  unfolding refresh new_cache
  Reach-current sub t r idle l = current_table t t.cache.cached refl idle l (
      Reach-IsCoherent r (record {
        loaded_old = omega arith;
        cached_old = omega arith;
        to_come = λ sub' w. absurd (cc);
        current = λ m w there g. absurd (cc);
      }))
