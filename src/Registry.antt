-- ===== src/Registry.antt =====
-- crates/ioutgt-core/src/registry.rs: the controllers that live on a port, with their queues. The hash
-- map is an association list. A lock is held for the whole of each call, so a call is one step.
pub mod Table
pub mod Allocate
pub mod Queues
pub mod Tests
use Prim.Native.String.{String}
use text.Mathlib.Text.{◌==◌ as str_eq}
use ioutgt.Base.{
  ℕ, zero, suc, ◌+◌, ◌-◌, ◌%◌, ◌^◌, min, max, Bool, true, false, not, ◌&&◌, ◌||◌, List, [], ◌∷◌,
  ◌++◌, Option, none, some, Exec, returns, panics, add_u16, ltb, leb, ◌==◌, if◌then◌else◌, length,
}

-- `TrafficFlag`: `set`, and `take` that consumes the mark.
pub set_traffic : Bool → Bool
set_traffic flag = true

pub take_traffic : Bool → Bool × Bool
take_traffic flag = (flag, false)

pub record QueueInfo : Type 0 where
  pub qid : ℕ
  pub sqsize : ℕ
  pub tid : ℕ
  pub cpus : String
  pub peer : String

-- The shared traffic flag of the controller stands in its entry.
pub record ControllerEntry : Type 0 where
  pub cntlid : ℕ
  pub subsys_nqn : String
  pub hostnqn : String
  pub max_qid : ℕ
  pub kato_ms : ℕ
  pub queues : List QueueInfo
  pub discovery : Bool
  pub traffic : Bool

pub record Registry : Type 0 where
  pub cntlid_min : ℕ
  pub cntlid_max : ℕ
  pub next_cntlid : ℕ
  pub controllers : List ControllerEntry

abbrev pub highest_cntlid : ℕ
highest_cntlid = 0xFFEF

pub data IoConnectError : Type 0 where
  unknown_controller host_mismatch queue_exists invalid_qid : IoConnectError

pub data Connect (A : Type 0) : Type 0 where
  ok : A → Connect A
  err : IoConnectError → Connect A

-- `new`: the `assert!` on the range.
pub new : ℕ → ℕ → Exec Registry
new lo hi =
    if leb 1 lo && (leb lo hi && leb hi highest_cntlid)
    then returns (record { cntlid_min = lo; cntlid_max = hi; next_cntlid = lo; controllers = [] })
    else panics

-- The map: lookup, update in place, and removal of a key.
unfoldable pub find : ℕ → List ControllerEntry → Option ControllerEntry
find id [] = none
find id (e ∷ entries) = if e.cntlid == id then some e else find id entries

pub replace : ControllerEntry → List ControllerEntry → List ControllerEntry
replace x [] = []
replace x (e ∷ entries) = if e.cntlid == x.cntlid then x ∷ entries else e ∷ replace x entries

pub delete : ℕ → List ControllerEntry → List ControllerEntry
delete id [] = []
delete id (e ∷ entries) = if e.cntlid == id then entries else e ∷ delete id entries

abbrev pub is_some {ℓ} : {A : Type ℓ} → Option A → Bool
is_some none = false
is_some (some a) = true

pub contains : Registry → ℕ → Bool
unfolding find
contains r id = is_some (find id r.controllers)

-- `clamp`, and the candidate at an offset of the scan, in `u32` arithmetic.
pub start_of : Registry → ℕ
start_of r = min (max r.next_cntlid r.cntlid_min) r.cntlid_max

pub span_of : Registry → ℕ
span_of r = r.cntlid_max - r.cntlid_min + 1

pub candidate : Registry → ℕ → ℕ
unfolding start_of span_of
candidate r offset = r.cntlid_min + (start_of r - r.cntlid_min + offset) % span_of r

-- The scan over `rounds` offsets from `offset` on, for an id that is not taken.
pub scan : Registry → ℕ → ℕ → Option ℕ
unfolding contains candidate
scan r zero offset = none
scan r (suc rounds) offset =
    let rest = scan r rounds (offset + 1) in
    if contains r (candidate r offset) then rest else some (candidate r offset)

-- `allocate`, with the entry for the id that the scan gives.
pub enter : Registry → ControllerEntry → ℕ → Registry
enter r e id = record r {
  next_cntlid = add_u16 id 1;
  controllers = record e { cntlid = id } ∷ r.controllers;
}

pub allocate : Registry → String → String → ℕ → ℕ → QueueInfo → Bool → Option ℕ × Registry
unfolding scan span_of enter
allocate r subsys_nqn hostnqn max_qid kato_ms admin_queue discovery = elim (scan r (span_of r) 0) [
  | none ↦ (none, r)
  | some id ↦ (
    some id,
    enter r
        (record {
          cntlid = id;
          subsys_nqn = subsys_nqn;
          hostnqn = hostnqn;
          max_qid = max_qid;
          kato_ms = kato_ms;
          queues = admin_queue ∷ [];
          discovery = discovery;
          traffic = false;
        })
        id,
  )
]

unfoldable pub has_qid : ℕ → List QueueInfo → Bool
has_qid qid [] = false
has_qid qid (q ∷ queues) = q.qid == qid || has_qid qid queues

-- The checks of `install_io_queue` on the entry, in order, and the push.
pub install_in :
    Registry → ControllerEntry → String → QueueInfo → Connect ControllerEntry × Registry
unfolding has_qid replace
install_in r e hostnqn q =
    if not (str_eq e.hostnqn hostnqn)
    then (err host_mismatch, r)
    else if q.qid == 0 || ltb e.max_qid q.qid
    then (err invalid_qid, r)
    else if has_qid q.qid e.queues
    then (err queue_exists, r)
    else (
      ok (record e { queues = e.queues ++ (q ∷ []) }),
      record r { controllers = replace (record e { queues = e.queues ++ (q ∷ []) }) r.controllers },
    )

pub install_io_queue : Registry → ℕ → String → QueueInfo → Connect ControllerEntry × Registry
unfolding install_in find
install_io_queue r id hostnqn q = elim (find id r.controllers) [
  | none ↦ (err unknown_controller, r)
  | some e ↦ install_in r e hostnqn q
]

pub remove : Registry → ℕ → Option ControllerEntry × Registry
unfolding find delete
remove r id = (find id r.controllers, record r { controllers = delete id r.controllers })

pub traffic_of : Registry → ℕ → Option Bool
unfolding find
traffic_of r id = elim (find id r.controllers) [ none ↦ none | some e ↦ some e.traffic ]

pub len : Registry → ℕ
len r = length r.controllers

-- `snapshot`: the entries sorted by their ids, which are distinct.
pub insert_sorted : ControllerEntry → List ControllerEntry → List ControllerEntry
insert_sorted x [] = x ∷ []
insert_sorted x (e ∷ entries) =
    if leb x.cntlid e.cntlid then x ∷ e ∷ entries else e ∷ insert_sorted x entries

pub sort_entries : List ControllerEntry → List ControllerEntry
unfolding insert_sorted
sort_entries [] = []
sort_entries (e ∷ entries) = insert_sorted e (sort_entries entries)

pub snapshot : Registry → List ControllerEntry
unfolding sort_entries
snapshot r = sort_entries r.controllers
