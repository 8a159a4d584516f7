-- ===== src/Registry/Tests.antt =====
-- crates/ioutgt-core/src/registry.rs: the theorems on the registry at concrete registries.
use ioutgt.Base.{
  ℕ, ◌+◌, ◌≤◌, ◌≡◌, refl, true, false, [], ◌∷◌, none, some, Ret, arith, ◌==◌, if◌then◌else◌, length,
}
use ioutgt.Registry.{
  QueueInfo, ControllerEntry, Registry, find, contains, allocate, install_io_queue, remove, new,
  is_some, has_qid,
}
use ioutgt.Registry.Table.{IsQueues, IsValid, qid_count, length-queues-le}
use ioutgt.Registry.Allocate.{
  InSlice, allocated, new_entry, allocate_fresh, allocate_total, new-IsValid,
}
use ioutgt.Registry.Queues.{InstallPost, install_io_queue-InstallPost, remove_lem}

abbrev queue : ℕ → QueueInfo
queue qid = record { qid = qid; sqsize = 32; tid = 1; cpus = "0"; peer = "host" }

abbrev entry : ControllerEntry
entry = record {
  cntlid = 1;
  subsys_nqn = "nqn.s";
  hostnqn = "nqn.h";
  max_qid = 2;
  kato_ms = 0;
  queues = queue 0 ∷ queue 1 ∷ [];
  discovery = false;
  traffic = false;
}

entry-IsQueues : IsQueues entry
unfolding has_qid qid_count
entry-IsQueues = record {
  admin = refl;
  bounded = (omega arith, (omega arith, tt));
  distinct = λ qid. ground arith;
}

-- A slice of two ids, the first of which is taken; the next scan starts at the first.
abbrev small : Registry
small = record { cntlid_min = 1; cntlid_max = 2; next_cntlid = 3; controllers = entry ∷ [] }

small-IsValid : IsValid small
unfolding find
small-IsValid = record {
  positive = omega arith;
  ordered = omega arith;
  highest = omega arith;
  keyed = (omega arith, omega arith, refl, entry-IsQueues, tt);
}

given_id : (allocated small "nqn.s" "nqn.h" 4 0 (queue 0) false).0 ≡ some 2
unfolding allocate
given_id = refl

allocate_fresh_example :
    (contains small 2 ≡ false)
    × InSlice small 2
    × IsValid (allocated small "nqn.s" "nqn.h" 4 0 (queue 0) false).1
    × (find 1 (allocated small "nqn.s" "nqn.h" 4 0 (queue 0) false).1.controllers ≡ (
        if 2 == 1
        then some (new_entry small "nqn.s" "nqn.h" 4 0 (queue 0) false 2)
        else find 1 small.controllers))
allocate_fresh_example =
    allocate_fresh small "nqn.s" "nqn.h" 4 0 (queue 0) false 2 1 small-IsValid refl given_id

allocate_total_example : is_some (allocated small "nqn.s" "nqn.h" 4 0 (queue 0) false).0 ≡ true
unfolding contains find
allocate_total_example =
    allocate_total small "nqn.s" "nqn.h" 4 0 (queue 0) false 2 small-IsValid
      (omega arith, omega arith) refl

new-IsValid_registry_example :
    Ret (λ r. IsValid r × (r.cntlid_min ≡ 1) × (r.cntlid_max ≡ 100)) (new 1 100)
new-IsValid_registry_example = new-IsValid 1 100 (omega arith) (omega arith) (omega arith)

install_io_queue-InstallPost_example :
    InstallPost small 1 "nqn.h" (queue 2) (install_io_queue small 1 "nqn.h" (queue 2))
install_io_queue-InstallPost_example =
    install_io_queue-InstallPost small 1 "nqn.h" (queue 2) small-IsValid

remove_lem_example :
    IsValid (remove small 1).1
    × (find 1 (remove small 1).1.controllers ≡ (if 1 == 1 then none else find 1 small.controllers))
    × ((remove small 1).0 ≡ find 1 small.controllers)
remove_lem_example = remove_lem small 1 1 small-IsValid

length-queues-le_example : length entry.queues ≤ entry.max_qid + 1
length-queues-le_example = length-queues-le entry entry-IsQueues
