-- ===== src/Nvme/Tests.antt =====
-- crates/ioutgt-nvme/src: the theorems on commands at a concrete queue, registry and backend.
use ioutgt.Base.{ℕ, ◌≡◌, refl, true, false, [], ◌∷◌, none, some, Ret, arith}
use ioutgt.Pool.{BufPool, Memory, empty_data}
use ioutgt.Pool.Alloc.{IsValid}
use ioutgt.Spec.{Sqe, zeroed_sqe}
use ioutgt.Slots.{Slot, executing}
use ioutgt.Queue.{QueueCore, new_stats}
use ioutgt.Fabrics.{ConnectCommand, ConnectData}
use ioutgt.Registry.{ControllerEntry, Registry, has_qid, find}
use ioutgt.Registry.Table.{IsValid as IsValidRegistry, qid_count}
use ioutgt.Subsystem.{Subsystem, PortConfig, tcp}
use ioutgt.Backend.{Backend, ok, no_topology}
use ioutgt.Controller
use ioutgt.Controller.{has_bits, ready, en, shst_complete}
use ioutgt.Nvme.{IoState, Role, ConnCtx, new_admin_state}
use ioutgt.Nvme.Connect.{Host, connect_admin, connect_io}
use ioutgt.Nvme.Connect.Admission.{AdmissionPost, connect_admin-AdmissionPost}
use ioutgt.Nvme.Connect.Binding.{BindPost, connect_io-BindPost}
use ioutgt.Nvme.Property.Registers.{written, asked_shutdown, written-ready}
use ioutgt.Nvme.Features.{poll_event}
use ioutgt.Nvme.Requests.{here, next, polled, IsServing, Reach-IsServing}
use ioutgt.Nvme.Connect.{with_admin}
use ioutgt.Nvme.Io.{checked_len}
use ioutgt.Nvme.Io.Bounds.{Judged, checked_len-Judged}

abbrev no_pool : BufPool
no_pool = record {
  base = 0;
  npages = 0;
  free = [];
  free_pages = 0;
  waiters = [];
  buf_index = none;
  send_arena = none;
}

-- A slot whose command executes.
abbrev busy_slot : Slot Sqe
busy_slot = record {
  state = executing;
  cmd = zeroed_sqe;
  waker = none;
  slot_data = empty_data;
  data_len = 0;
  recv_offset = 0;
}

abbrev queue : ℕ → QueueCore Sqe
queue qid = record {
  slots = record {
    nslots = 1;
    slots = busy_slot ∷ [];
    free_tags = [];
    executing_count = 1;
    tag_waiter = none;
    pool = no_pool;
  };
  sqsize = 4;
  qid = qid;
  sqhd = 3;
  sqhd_disabled = false;
  stats = new_stats qid;
}

-- A port with one subsystem, which has one namespace; a backend is its number.
abbrev port : PortConfig ℕ
port = record {
  traddr = "10.0.0.1";
  trsvcid = "4420";
  trtype = tcp;
  max_qid = 4;
  io_queue_size = 128;
  queue_buf_bytes = 65536;
  recv_buf_bytes = 0;
  poll = false;
  subsystems = ("nqn.s", subsystem) ∷ [];
}
  where
    subsystem : Subsystem ℕ
    subsystem = record {
      nqn = "nqn.s";
      serial = "1";
      model = "m";
      allow_any_host = true;
      allowed_hosts = [];
      namespaces = record { nsid = 1; backend = 0; uuid = [] } ∷ [];
      generation = 1;
    }

abbrev host : Host
host = record { text = λ bytes. "nqn.s"; tid = 1; cpus = "0" }

abbrev connect_data : ℕ → ConnectData
connect_data cntlid = record { hostid = []; cntlid = cntlid; subsysnqn = []; hostnqn = [] }

abbrev command : ConnectCommand
command = record {
  opcode = 0x7F;
  cid = 7;
  fctype = 1;
  recfmt = 0;
  qid = 0;
  sqsize = 3;
  cattr = 0;
  kato = 5000;
}

-- No controller is there.
abbrev empty : Registry
empty = record { cntlid_min = 1; cntlid_max = 2; next_cntlid = 1; controllers = [] }

empty-IsValid : IsValidRegistry empty
empty-IsValid = record {
  positive = omega arith;
  ordered = omega arith;
  highest = omega arith;
  keyed = tt;
}

abbrev admin_ctx : ConnCtx ℕ
admin_ctx = record {
  queue = queue 0;
  port = port;
  registry = empty;
  connect_data = connect_data 0xFFFF;
  peer = "host";
  role = Role.admin (new_admin_state 0);
}

abbrev io_state : IoState ℕ
io_state = record {
  cntlid = 0;
  subsys = some "nqn.s";
  ns_cache = record { cached_generation = 0; cached = none };
  traffic = false;
  kato_ms = 0;
}

-- Controller 1 has its admin queue.
abbrev controller : ControllerEntry
controller = record {
  cntlid = 1;
  subsys_nqn = "nqn.s";
  hostnqn = "nqn.h";
  max_qid = 2;
  kato_ms = 5000;
  queues = record { qid = 0; sqsize = 4; tid = 1; cpus = "0"; peer = "host" } ∷ [];
  discovery = false;
  traffic = false;
}

abbrev one_there : Registry
one_there = record empty { controllers = controller ∷ [] }

one_there-IsValid : IsValidRegistry one_there
unfolding has_qid qid_count find
one_there-IsValid = record {
  positive = omega arith;
  ordered = omega arith;
  highest = omega arith;
  keyed = (
    omega arith,
    omega arith,
    refl,
    record { admin = refl; bounded = (omega arith, tt); distinct = λ qid. ground arith },
    tt,
  );
}

abbrev io_ctx : ConnCtx ℕ
io_ctx = record admin_ctx {
  queue = queue 1;
  registry = one_there;
  connect_data = connect_data 1;
  role = Role.io io_state;
}

connect_admin-AdmissionPost_example :
    Ret
      (AdmissionPost host admin_ctx command "nqn.s" "nqn.h" (new_admin_state 0).cntlid)
      (connect_admin host admin_ctx (new_admin_state 0) command "nqn.s" "nqn.h")
connect_admin-AdmissionPost_example =
    connect_admin-AdmissionPost host admin_ctx command "nqn.s" "nqn.h" (new_admin_state 0)
      empty-IsValid refl (omega arith) refl

connect_io-BindPost_example :
    Ret
      (BindPost host io_ctx io_state command "nqn.h")
      (connect_io host io_ctx io_state command "nqn.h")
connect_io-BindPost_example =
    connect_io-BindPost host io_ctx io_state command "nqn.h" one_there-IsValid (omega arith)

-- Enabled, and then asked to shut down.
written-ready_example :
    (has_bits (written (Controller.new 256) (1 ∷ 0x4001 ∷ [])).csts shst_complete
      ≡ asked_shutdown (1 ∷ 0x4001 ∷ []))
    × (asked_shutdown (1 ∷ 0x4001 ∷ []) ≡ false
        → ready (written (Controller.new 256) (1 ∷ 0x4001 ∷ []))
          ≡ has_bits (written (Controller.new 256) (1 ∷ 0x4001 ∷ [])).cc en)
written-ready_example = written-ready 256 (1 ∷ 0x4001 ∷ [])

-- A request is parked on a new queue.
abbrev parked : ConnCtx ℕ
parked = with_admin admin_ctx (poll_event (new_admin_state 0) 5).1

Reach-IsServing_example : IsServing parked false 6
Reach-IsServing_example =
    Reach-IsServing admin_ctx parked 0 6 false refl (next here (polled (new_admin_state 0) 5 refl))

-- A read of two blocks of 512 bytes at block 6, of a device of eight.
abbrev read_two : Sqe
read_two = record zeroed_sqe {
  opcode = 2;
  cid = 9;
  nsid = 1;
  sgl_length = 1024;
  cdw10 = 6;
  cdw12 = 1;
}

checked_len-Judged_example : Judged 9 8 read_two (checked_len 9 8 read_two)
checked_len-Judged_example = checked_len-Judged 9 8 read_two (omega arith) (omega arith)

abbrev backend : Backend ℕ Memory
backend = record {
  block_shift = λ b. 9;
  nr_blocks = λ b. 8;
  topology = λ b. no_topology;
  read_segs = λ b w slba segs len index. (ok tt, w);
  write_segs = λ b w slba segs len index. (ok tt, w);
  flush = λ b w. (ok tt, w);
  discard = λ b w ranges. (ok tt, w);
  write_zeroes = λ b w range. (ok tt, w);
  memory = λ w. w;
}
