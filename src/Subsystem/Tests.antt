-- ===== src/Subsystem/Tests.antt =====
-- crates/ioutgt-core/src/subsystem.rs: the theorems at a concrete subsystem.
use ioutgt.Base.{ℕ, refl, true, [], ◌∷◌, ◌≡◌, some, arith}
use ioutgt.Subsystem.{
  Namespace, Subsystem, refresh, find_ns, insert_ns, add_namespace, remove_namespace,
}
use ioutgt.Subsystem.Table.{AddPost, RemovePost, add_namespace-AddPost, remove_namespace-RemovePost}
use ioutgt.Subsystem.Cache.{System, Reach, here, next, added, bumped, load, started, Reach-current}

abbrev ns : ℕ → Namespace ℕ
ns id = record { nsid = id; backend = 0; uuid = [] }

abbrev subsystem : Subsystem ℕ
subsystem = record {
  nqn = "nqn.s";
  serial = "1";
  model = "m";
  allow_any_host = true;
  allowed_hosts = [];
  namespaces = ns 1 ∷ ns 4 ∷ [];
  generation = 1;
}

add_namespace-AddPost_example : AddPost subsystem (ns 2) (add_namespace subsystem (ns 2))
add_namespace-AddPost_example =
    add_namespace-AddPost subsystem (ns 2) (omega arith, (omega arith, tt))

remove_namespace-RemovePost_example : RemovePost subsystem 4 (remove_namespace subsystem 4)
remove_namespace-RemovePost_example =
    remove_namespace-RemovePost subsystem 4 (omega arith, (omega arith, tt))

-- A namespace is added, and the queue loads the generation behind it.
abbrev grown : Subsystem ℕ
grown = record subsystem { namespaces = ns 1 ∷ ns 2 ∷ ns 4 ∷ []; generation = 2 }

abbrev loaded : System ℕ
loaded = record (started grown) { loaded = 2 }

steps : Reach (started subsystem) loaded
unfolding add_namespace find_ns insert_ns
steps =
    next
      (next (next here (omega arith) (added (ns 2) grown refl refl)) (omega arith)
        (bumped grown refl))
      (omega arith) load

Reach-current_example :
    (refresh loaded.cache loaded.loaded loaded.sub.namespaces).cached ≡ some loaded.sub.namespaces
Reach-current_example = Reach-current subsystem loaded steps refl refl
