-- ===== src/Nvme/Connect.antt =====
-- crates/ioutgt-nvme/src/fabrics_exec.rs: `connect`, for admin and IO queues. What Rust's library makes
-- of bytes (`from_utf8`, `trim_end`) and the thread with its CPUs are parameters.
pub mod Admission
pub mod Binding
use Prim.Native.String.{String}
use text.Mathlib.Text.{◌==◌ as str_eq}
use ioutgt.Base.{
  ℕ, zero, suc, ◌+◌, Bool, true, false, not, ◌&&◌, ◌||◌, List, [], ◌∷◌, Option, none, some, Exec,
  returns, panics, ◌>>=◌, ◌==◌, if◌then◌else◌,
}
use ioutgt.Spec.{Sqe}
use ioutgt.Status.{
  success, fatal, connect_format, connect_ctrl_busy, connect_invalid_param, connect_invalid_host,
  connect_invalid_param_result,
}
use ioutgt.Fabrics.{ConnectCommand, ConnectData, connect_command, discovery_nqn}
use ioutgt.Queue.{QueueCore}
use ioutgt.Registry
use ioutgt.Registry.{QueueInfo, ControllerEntry, Connect, is_some}
use ioutgt.Subsystem.{Subsystem, subsystem_of, admits}
use ioutgt.Nvme.{AdminState, IoState, Role, ConnCtx, Outcome, Reply, reply}

pub record Host : Type 0 where
  pub text : List ℕ → String
  pub tid : ℕ
  pub cpus : String

-- The bytes before the first NUL.
unfoldable pub before_nul : List ℕ → List ℕ
before_nul [] = []
before_nul (b ∷ bytes) = if b == 0 then [] else b ∷ before_nul bytes

abbrev pub nqn_str : Host → List ℕ → String
nqn_str host raw = host.text (before_nul raw)

-- Where the admin queue's subsystem is found: `discovery` or a subsystem of the port that admits the host.
pub data Resolved : Type 0 where
  bound : AdminState → Resolved
  unknown disallowed : Resolved

-- `OnceCell::set`
abbrev pub set_once {ℓ} : {A : Type ℓ} → Option A → A → Option A
set_once none a = some a
set_once (some b) a = some b

module _ {B : Type 0} where
  unfoldable pub queue_info : Host → ConnCtx B → QueueInfo
  queue_info host ctx = record {
    qid = ctx.queue.qid;
    sqsize = ctx.queue.sqsize;
    tid = host.tid;
    cpus = host.cpus;
    peer = ctx.peer;
  }

  unfoldable pub resolve : ConnCtx B → AdminState → String → String → Resolved
  resolve ctx a subsysnqn hostnqn =
      if str_eq subsysnqn discovery_nqn
      then bound (record a { discovery = true })
      else (elim (subsystem_of ctx.port subsysnqn) [
        | none ↦ unknown
        | some s ↦
            if admits s hostnqn then bound (record a { subsys = some subsysnqn }) else disallowed
      ])

  abbrev pub with_admin : ConnCtx B → AdminState → ConnCtx B
  with_admin ctx a = record ctx { role = Role.admin a }

  -- The id in the counters of the queue.
  abbrev pub with_cntlid : ConnCtx B → ℕ → ConnCtx B
  with_cntlid ctx id = record ctx {
    queue = record (ctx.queue) { stats = record (ctx.queue.stats) { cntlid = id } };
  }

  -- What the registry gave an admin queue: an id, which the queue then serves.
  unfoldable pub admitted : ConnCtx B → AdminState → ℕ → ℕ → Option ℕ × Registry.Registry → Reply B
  admitted ctx a cid kato (none, r) =
      reply (record ctx { registry = r }) 0 cid (fatal connect_ctrl_busy) 0
  admitted ctx a cid kato (some id, r) =
      let a' = record a {
        cntlid = id;
        kato_ms = kato;
        traffic = a.traffic || is_some (Registry.traffic_of r id);
      } in
      reply (with_admin (with_cntlid (record ctx { registry = r }) id) a') id cid success 0

  -- The id and the timeout of a resolved admin queue.
  unfoldable pub allocate_for :
      Host → ConnCtx B → AdminState → ConnectCommand → String → String → Reply B
  unfolding admitted queue_info
  allocate_for host ctx a cmd subsysnqn hostnqn =
      let discovery = str_eq subsysnqn discovery_nqn in
      let max_qid = if discovery then 0 else ctx.port.max_qid in
      let kato = if cmd.kato == 0 && discovery then 120000 else cmd.kato in
      admitted ctx a cmd.cid kato (
        Registry.allocate ctx.registry subsysnqn hostnqn max_qid kato (queue_info host ctx)
          discovery)

  unfoldable pub connect_resolved :
      Host → ConnCtx B → ConnectCommand → String → String → Resolved → Reply B
  unfolding allocate_for
  connect_resolved host ctx cmd subsysnqn hostnqn unknown =
      reply ctx (connect_invalid_param_result true 256) cmd.cid (fatal connect_invalid_param) 0
  connect_resolved host ctx cmd subsysnqn hostnqn disallowed =
      reply ctx 0 cmd.cid (fatal connect_invalid_host) 0
  connect_resolved host ctx cmd subsysnqn hostnqn (bound a) =
      if not (ctx.connect_data.cntlid == 0xFFFF)
      then reply (with_admin ctx a) (connect_invalid_param_result true 16) cmd.cid
          (fatal connect_invalid_param) 0
      else allocate_for host (with_admin ctx a) a cmd subsysnqn hostnqn

  unfoldable pub connect_admin :
      Host → ConnCtx B → AdminState → ConnectCommand → String → String → Reply B
  unfolding connect_resolved resolve
  connect_admin host ctx a cmd subsysnqn hostnqn =
      if not (a.cntlid == 0)
      then reply ctx 0 cmd.cid (fatal connect_invalid_param) 0
      else connect_resolved host ctx cmd subsysnqn hostnqn (resolve ctx a subsysnqn hostnqn)

  -- The state of an IO queue that the registry let join a controller. The subsystem is bound if the
  -- controller is not one of discovery and the port has it.
  unfoldable pub joined : ConnCtx B → IoState B → ℕ → ControllerEntry → IoState B
  joined ctx i id e =
      let subsys = if e.discovery then i.subsys else (elim (subsystem_of ctx.port e.subsys_nqn) [
        | none ↦ i.subsys
        | some _ ↦ set_once i.subsys e.subsys_nqn
      ]) in
      record i {
        cntlid = id;
        kato_ms = e.kato_ms;
        traffic = if e.kato_ms == 0 then i.traffic else true;
        subsys = subsys;
      }

  unfoldable pub installed :
      ConnCtx B → IoState B → ConnectCommand → Connect ControllerEntry × Registry.Registry → Reply B
  unfolding joined
  installed ctx i cmd (Connect.ok e, r) =
      let id = ctx.connect_data.cntlid in
      reply
        (record (with_cntlid (record ctx { registry = r }) id) {
          role = Role.io (joined ctx i id e);
        })
        id cmd.cid success 0
  installed ctx i cmd (Connect.err x, r) =
      reply (record ctx { registry = r }) (connect_invalid_param_result true 16) cmd.cid
        (fatal connect_invalid_param) 0

  unfoldable pub connect_io : Host → ConnCtx B → IoState B → ConnectCommand → String → Reply B
  unfolding installed queue_info
  connect_io host ctx i cmd hostnqn =
      if not (i.cntlid == 0)
      then reply ctx 0 cmd.cid (fatal connect_invalid_param) 0
      else installed ctx i cmd (
          Registry.install_io_queue ctx.registry ctx.connect_data.cntlid hostnqn
            (queue_info host ctx))

  unfoldable pub connect : Host → ConnCtx B → Sqe → Reply B
  unfolding connect_admin connect_io connect_command
  connect host ctx sqe =
      let cmd = connect_command sqe in
      let subsysnqn = nqn_str host ctx.connect_data.subsysnqn in
      let hostnqn = nqn_str host ctx.connect_data.hostnqn in
      if not (cmd.recfmt == 0)
      then reply ctx 0 cmd.cid (fatal connect_format) 0
      else (elim ctx.role [
        | Role.admin a ↦ connect_admin host ctx a cmd subsysnqn hostnqn
        | Role.io i ↦ connect_io host ctx i cmd hostnqn
      ])
