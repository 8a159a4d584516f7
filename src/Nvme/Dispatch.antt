-- ===== src/Nvme/Dispatch.antt =====
-- crates/ioutgt-nvme/src/dispatch.rs: `execute`, the routing of a command by role and opcode.
use Prim.Native.String.{String}
use ioutgt.Base.{ℕ, not, List, [], Option, Exec, returns, ◌>>=◌, ◌==◌, if◌then◌else◌}
use ioutgt.Spec.{Sqe}
use ioutgt.Status.{fatal, connect_ctrl_busy}
use ioutgt.Pool.{Memory}
use ioutgt.Queue.{stat_add}
use ioutgt.Controller.{ready}
use ioutgt.Backend.{Backend}
use ioutgt.Nvme.{Role, ConnCtx, reply}
use ioutgt.Nvme.Connect.{Host, with_admin}
use ioutgt.Nvme.Property
use ioutgt.Nvme.Admin
use ioutgt.Nvme.Io
use ioutgt.Nvme.Io.{Served, served, count}

-- `admin_opcode::FABRICS`
abbrev pub op_fabrics : ℕ
op_fabrics = 0x7F

-- What the commands need from outside: the host, the backends, the index of a ring's buffers, the bytes
-- of text, and how the world changes when the memory does.
pub record Outside (B W : Type 0) : Type 0 where
  pub host : Host
  pub backend : Backend B W
  pub ring_index : ℕ → Option ℕ
  pub text_bytes : String → List ℕ
  pub with_memory : W → Memory → W

-- The call: the slot, the waker and the time, and an address for a private buffer.
pub record Call : Type 0 where
  pub tag : ℕ
  pub waker : ℕ
  pub now : ℕ
  pub heap : ℕ

module _ {B W : Type 0} (out : Outside B W) where
  -- The memory behind an admin command, in the world.
  abbrev pub in_world : W → Served B Memory → Exec (Served B W)
  in_world w s = returns (record {
    outcome = s.outcome;
    ctx = s.ctx;
    world = out.with_memory w s.world;
    events = s.events;
  })

  abbrev pub other_counted : ConnCtx B → ConnCtx B
  other_counted ctx = count ctx (λ s. record s { other_cmds = stat_add s.other_cmds 1 })

  -- The time of an admin queue's last command.
  unfoldable pub heard : ConnCtx B → ℕ → ConnCtx B
  heard ctx now = elim ctx.role [
    | Role.admin a ↦ with_admin ctx (record a { last_heard = now })
    | Role.io _ ↦ ctx
  ]

  -- The command of a queue that is no fabrics command: an admin queue serves it once it is enabled.
  unfoldable pub by_role : ConnCtx B → W → Call → Sqe → Exec (Served B W)
  unfolding ready Admin.execute Io.execute
  by_role ctx w call sqe = elim ctx.role [
    | Role.io i ↦ Io.execute out.backend out.ring_index ctx i w call.tag call.waker sqe
    | Role.admin a ↦
        if not (ready a.regs)
        then (reply (other_counted ctx) 0 sqe.cid (fatal connect_ctrl_busy) 0 >>= served w [])
        else (Admin.execute out.backend out.text_bytes (other_counted ctx) a (out.backend.memory w)
              call.tag call.heap call.waker sqe
            >>= in_world w)
  ]

  unfoldable pub execute : ConnCtx B → W → Call → Sqe → Exec (Served B W)
  unfolding heard by_role Property.execute
  execute ctx w call sqe =
      if sqe.opcode == op_fabrics
      then (Property.execute out.host (other_counted (heard ctx call.now)) sqe >>= served w [])
      else by_role (heard ctx call.now) w call sqe
