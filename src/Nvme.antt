-- ===== src/Nvme.antt =====
-- crates/ioutgt-nvme/src/dispatch.rs: the context of a connection, what the handlers answer with, and the
-- keep-alive verdict. The registry is shared; a handler gets it as it stands and gives it back. The
-- subsystem of a queue is the key of its entry in the map of the port.
pub mod Connect
pub mod Property
pub mod Io
pub mod Replies
pub mod Identify
pub mod Features
pub mod Pages
pub mod Admin
pub mod Dispatch
pub mod Kept
pub mod Requests
pub mod Tests
use Prim.Native.String.{String}
use ioutgt.Base.{
  ℕ, zero, suc, ◌+◌, ◌-◌, ◌*◌, ◌/◌, ◌%◌, ◌^◌, min, max, Bool, true, false, not, ◌&&◌, List, [], ◌∷◌,
  ◌++◌, Option, none, some, Exec, returns, panics, ◌>>=◌, ltb, leb, ◌==◌, if◌then◌else◌,
}
use ioutgt.Spec.{Sqe, Cqe, new_cqe}
use ioutgt.Queue.{QueueCore, QueueStats, advance_sqhd, stat_add}
use ioutgt.Fabrics.{ConnectData}
use ioutgt.Registry.{Registry}
use ioutgt.Subsystem.{Subsystem, PortConfig, NsCache}
use ioutgt.Controller
use ioutgt.Controller.{RegisterState, has_bits}

-- The ceilings of crates/ioutgt-core/src/lib.rs and of crates/ioutgt-nvme/src/lib.rs.
abbrev pub mdts_bytes : ℕ
mdts_bytes = 128 * 1024

abbrev pub max_queue_entries : ℕ
max_queue_entries = 256

abbrev pub aen_cfg_ns_attr : ℕ
aen_cfg_ns_attr = 2 ^ 8

-- The tick in milliseconds: half the timeout, between a quarter of a second and five seconds.
unfoldable pub keepalive_tick : ℕ → ℕ
keepalive_tick kato_ms = if kato_ms == 0 then 5000 else min (max (kato_ms / 2) 250) 5000

-- `traffic` says that the shared flag of the controller is attached; `last_heard` is in milliseconds.
pub record AdminState : Type 0 where
  pub regs : RegisterState
  pub cntlid : ℕ
  pub subsys : Option String
  pub discovery : Bool
  pub kato_ms : ℕ
  pub last_heard : ℕ
  pub traffic : Bool
  pub events : List ℕ
  pub aer_wakers : List ℕ
  pub aec : ℕ
  pub ns_changed : Bool
  pub closing : Bool

-- `keepalive_expired` at the time `now`, with the shared flag: the verdict, the state and the flag.
pub record Verdict : Type 0 where
  pub silent : Option ℕ
  pub admin : AdminState
  pub flag : Bool

unfoldable pub keepalive_expired : AdminState → Bool → ℕ → Verdict
unfolding keepalive_tick
keepalive_expired a flag now =
    let quiet = now - a.last_heard in
    if a.kato_ms == 0
    then record { silent = none; admin = a; flag = flag }
    else if a.traffic && flag
    then record { silent = none; admin = record a { last_heard = now }; flag = false }
    else if ltb (a.kato_ms * 2 + keepalive_tick a.kato_ms) quiet
    then record { silent = some quiet; admin = a; flag = flag }
    else record { silent = none; admin = a; flag = flag }

pub record IoState (B : Type 0) : Type 0 where
  pub cntlid : ℕ
  pub subsys : Option String
  pub ns_cache : NsCache B
  pub traffic : Bool
  pub kato_ms : ℕ

pub data Role (B : Type 0) : Type 0 where
  admin : AdminState → Role B
  io : IoState B → Role B

pub record ConnCtx (B : Type 0) : Type 0 where
  pub queue : QueueCore Sqe
  pub port : PortConfig B
  pub registry : Registry
  pub connect_data : ConnectData
  pub peer : String
  pub role : Role B

-- `Outcome`: the completion, and the bytes that the send path reads from the slot.
pub record Outcome : Type 0 where
  pub cqe : Cqe
  pub data_len : ℕ

abbrev pub Reply : Type 0 → Type 0
Reply B = Exec (Outcome × ConnCtx B)

unfoldable pub new_admin_state : ℕ → AdminState
new_admin_state now = record {
  regs = Controller.new max_queue_entries;
  cntlid = 0;
  subsys = none;
  discovery = false;
  kato_ms = 0;
  last_heard = now;
  traffic = false;
  events = [];
  aer_wakers = [];
  aec = aen_cfg_ns_attr;
  ns_changed = false;
  closing = false;
}

abbrev pub contains_event : ℕ → List ℕ → Bool
contains_event e [] = false
contains_event e (x ∷ events) = if x == e then true else contains_event e events

-- `NS_ATTR_NOTICE`
abbrev pub ns_attr_notice : ℕ
ns_attr_notice = 0x00040002

-- The state after the notice, unless the host disabled it; at most one notice is pending.
unfoldable pub noticed : AdminState → AdminState × List ℕ
noticed a =
    let events =
      if contains_event ns_attr_notice a.events
      then a.events
      else a.events ++ (ns_attr_notice ∷ []) in
    if has_bits a.aec aen_cfg_ns_attr
    then (record a { ns_changed = true; events = events; aer_wakers = [] }, a.aer_wakers)
    else (record a { ns_changed = true }, [])

module _ {B : Type 0} where
  unfoldable pub new_admin :
      QueueCore Sqe → PortConfig B → Registry → ConnectData → String → ℕ → ConnCtx B
  unfolding new_admin_state
  new_admin queue port registry connect_data peer now = record {
    queue = queue;
    port = port;
    registry = registry;
    connect_data = connect_data;
    peer = peer;
    role = admin (new_admin_state now);
  }

  unfoldable pub new_io : QueueCore Sqe → PortConfig B → Registry → ConnectData → String → ConnCtx B
  new_io queue port registry connect_data peer = record {
    queue = queue;
    port = port;
    registry = registry;
    connect_data = connect_data;
    peer = peer;
    role = io (record {
      cntlid = 0;
      subsys = none;
      ns_cache = record { cached_generation = 0; cached = none };
      traffic = false;
      kato_ms = 0;
    });
  }

  -- `cqe` with the head that it takes: an answer with a result, a status and a length of data.
  unfoldable pub reply : ConnCtx B → ℕ → ℕ → ℕ → ℕ → Reply B
  unfolding new_cqe
  reply ctx result cid code data_len = advance_sqhd ctx.queue >>= λ (head, q). returns (
    record { cqe = new_cqe result head ctx.queue.qid cid code; data_len = data_len },
    record ctx { queue = q },
  )

  -- A change of the counters of the queue.
  abbrev pub with_stats : ConnCtx B → QueueStats → ConnCtx B
  with_stats ctx stats = record ctx { queue = record (ctx.queue) { stats = stats } }

  -- `close`: the state of the role, the wakers that are woken, and the flag of the controller.
  unfoldable pub close : ConnCtx B → Bool → ConnCtx B × List ℕ × Bool
  close ctx flag = elim ctx.role [
    | admin a ↦ (
      record ctx { role = admin (record a { closing = true; aer_wakers = [] }) },
      a.aer_wakers,
      flag,
    )
    | io i ↦ (ctx, [], if i.traffic then true else flag)
  ]

  -- `fire_ns_changed`: the context, and the wakers that are woken.
  unfoldable pub fire_ns_changed : ConnCtx B → ConnCtx B × List ℕ
  unfolding noticed
  fire_ns_changed ctx = elim ctx.role [
    | io _ ↦ (ctx, [])
    | admin a ↦ let (a', woken) = noticed a in (record ctx { role = admin a' }, woken)
  ]
