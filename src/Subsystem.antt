-- ===== src/Subsystem.antt =====
-- crates/ioutgt-core/src/subsystem.rs: the namespace table of a subsystem, and the cache that an IO
-- queue keeps of it. The `BTreeMap` is a list sorted by ids; `B` is the backend.
pub mod Table
pub mod Cache
pub mod Uuid
pub mod Tests
use Prim.Native.Nat.{bit_xor}
use Prim.Native.String.{String}
use text.Mathlib.Text.{◌==◌ as str_eq}
use ioutgt.Base.{
  ℕ, zero, suc, ◌+◌, ◌*◌, ◌/◌, ◌%◌, ◌^◌, Bool, true, false, not, ◌||◌, List, [], ◌∷◌, ◌++◌, Option,
  none, some, ltb, ◌==◌, if◌then◌else◌,
}

module _ (B : Type 0) where
  pub record Namespace : Type 0 where
    pub nsid : ℕ
    pub backend : B
    pub uuid : List ℕ

  pub record Subsystem : Type 0 where
    pub nqn : String
    pub serial : String
    pub model : String
    pub allow_any_host : Bool
    pub allowed_hosts : List String
    pub namespaces : List Namespace
    pub generation : ℕ

  -- `NsCache`
  pub record NsCache : Type 0 where
    pub cached_generation : ℕ
    pub cached : Option (List Namespace)

-- The big-endian bytes of a number, as `to_be_bytes` gives them.
unfoldable pub be : ℕ → ℕ → List ℕ
be zero n = []
be (suc k) n = be k (n / 256) ++ (n % 256 ∷ [])

-- The loop of `namespace_uuid` over the bytes of the name: FNV-1a on `u64`.
pub fnv : ℕ → List ℕ → ℕ
fnv hash [] = hash
fnv hash (b ∷ bytes) = fnv (bit_xor hash b * 0x100000001b3 % 2 ^ 64) bytes

pub namespace_uuid : List ℕ → ℕ → List ℕ
unfolding fnv
namespace_uuid nqn nsid = be 8 (fnv 0xcbf29ce484222325 nqn) ++ (0x80 ∷ 0 ∷ 0 ∷ 0 ∷ be 4 nsid)

pub data TableError : Type 0 where
  already_exists not_found : ℕ → TableError

pub data Change (A : Type 0) : Type 0 where
  changed : A → Change A
  refused : TableError → Change A

pub has_host : String → List String → Bool
has_host hostnqn [] = false
has_host hostnqn (h ∷ hosts) = str_eq h hostnqn || has_host hostnqn hosts

module _ {B : Type 0} where
  -- `new`: the first generation.
  pub new : String → String → String → Bool → List String → List (Namespace B) → Subsystem B
  new nqn serial model allow_any_host allowed_hosts namespaces = record {
    nqn = nqn;
    serial = serial;
    model = model;
    allow_any_host = allow_any_host;
    allowed_hosts = allowed_hosts;
    namespaces = namespaces;
    generation = 1;
  }

  -- The map, sorted by ids.
  unfoldable pub find_ns : ℕ → List (Namespace B) → Option (Namespace B)
  find_ns id [] = none
  find_ns id (ns ∷ rest) = if ns.nsid == id then some ns else find_ns id rest

  pub insert_ns : Namespace B → List (Namespace B) → List (Namespace B)
  insert_ns x [] = x ∷ []
  insert_ns x (ns ∷ rest) = if ltb x.nsid ns.nsid then x ∷ ns ∷ rest else ns ∷ insert_ns x rest

  pub remove_ns : ℕ → List (Namespace B) → List (Namespace B)
  remove_ns id [] = []
  remove_ns id (ns ∷ rest) = if ns.nsid == id then rest else ns ∷ remove_ns id rest

  -- `keys().next_back()`, or 0.
  pub last_nsid : List (Namespace B) → ℕ
  last_nsid [] = 0
  last_nsid (ns ∷ []) = ns.nsid
  last_nsid (ns ∷ next ∷ rest) = last_nsid (next ∷ rest)

  pub admits : Subsystem B → String → Bool
  unfolding has_host
  admits s hostnqn = s.allow_any_host || has_host hostnqn s.allowed_hosts

  -- The new table, and the next generation, under the write lock.
  abbrev pub with_table : Subsystem B → List (Namespace B) → Subsystem B
  with_table s table = record s { namespaces = table; generation = (s.generation + 1) % 2 ^ 64 }

  pub add_namespace : Subsystem B → Namespace B → Change (Subsystem B)
  unfolding find_ns insert_ns
  add_namespace s ns = elim (find_ns ns.nsid s.namespaces) [
    | some _ ↦ refused (already_exists ns.nsid)
    | none ↦ changed (with_table s (insert_ns ns s.namespaces))
  ]

  pub remove_namespace : Subsystem B → ℕ → Change (Subsystem B)
  unfolding find_ns remove_ns
  remove_namespace s nsid = elim (find_ns nsid s.namespaces) [
    | some _ ↦ changed (with_table s (remove_ns nsid s.namespaces))
    | none ↦ refused (not_found nsid)
  ]

  pub max_nsid : Subsystem B → ℕ
  unfolding last_nsid
  max_nsid s = last_nsid s.namespaces

  -- `get` in two parts, between which the control plane may run: the load of the generation, and the
  -- comparison with the refresh, which takes the table and the generation that was loaded.
  abbrev pub refresh_by :
      NsCache B → ℕ → List (Namespace B) → Option (List (Namespace B)) → NsCache B
  refresh_by c generation table none = record {
    cached_generation = generation;
    cached = some table;
  }
  refresh_by c generation table (some _) =
      if c.cached_generation == generation
      then c
      else record { cached_generation = generation; cached = some table }

  unfoldable pub refresh : NsCache B → ℕ → List (Namespace B) → NsCache B
  refresh c generation table = refresh_by c generation table c.cached

  pub new_cache : NsCache B
  new_cache = record { cached_generation = 0; cached = none }

pub data TransportType : Type 0 where
  tcp rdma : TransportType

-- The configuration of a port; the map of subsystems is a list of names and subsystems.
pub record PortConfig (B : Type 0) : Type 0 where
  pub traddr : String
  pub trsvcid : String
  pub trtype : TransportType
  pub max_qid : ℕ
  pub io_queue_size : ℕ
  pub queue_buf_bytes : ℕ
  pub recv_buf_bytes : ℕ
  pub poll : Bool
  pub subsystems : List (String × Subsystem B)

unfoldable pub lookup : {B : Type 0} → String → List (String × Subsystem B) → Option (Subsystem B)
lookup nqn [] = none
lookup nqn ((name, s) ∷ rest) = if str_eq name nqn then some s else lookup nqn rest

-- `PortConfig::subsystem`
pub subsystem_of : {B : Type 0} → PortConfig B → String → Option (Subsystem B)
unfolding lookup
subsystem_of port nqn = lookup nqn port.subsystems
