-- ===== src/Nvme/Property.antt =====
-- crates/ioutgt-nvme/src/fabrics_exec.rs: `property`, the reads and writes of the registers, and `execute`,
-- which routes a fabrics command.
pub mod Registers
use ioutgt.Base.{
  ℕ, zero, suc, ◌+◌, ◌*◌, ◌/◌, ◌%◌, ◌^◌, Bool, true, false, not, ◌&&◌, ◌||◌, Option, none, some,
  Exec, returns, panics, ◌>>=◌, ◌==◌, if◌then◌else◌,
}
use ioutgt.Spec.{Sqe}
use ioutgt.Status.{success, fatal, invalid_field, invalid_opcode}
use ioutgt.Fabrics.{
  PropertyCommand, property_command, connect, property_get, property_set, prop_cap, prop_vs,
  prop_cc, prop_csts,
}
use ioutgt.Controller.{RegisterState, write_cc}
use ioutgt.Nvme.{AdminState, IoState, Role, ConnCtx, Outcome, Reply, reply}
use ioutgt.Nvme.Connect
use ioutgt.Nvme.Connect.{Host, with_admin}

-- The value of a register, if there is one at the offset.
unfoldable pub register_value : RegisterState → ℕ → Option ℕ
register_value r offset =
    if offset == prop_cap
    then some r.cap
    else if offset == prop_vs
    then some 0x00010300
    else if offset == prop_cc
    then some r.cc
    else if offset == prop_csts
    then some r.csts
    else none

module _ {B : Type 0} where
  -- The value in the two halves of the result.
  abbrev pub with_value : ℕ → Outcome × ConnCtx B → Reply B
  with_value value (o, ctx) = returns (
    record o { cqe = record (o.cqe) { result = value % 2 ^ 32; rsvd = value / 2 ^ 32 % 2 ^ 32 } },
    ctx,
  )

  unfoldable pub property_value : ConnCtx B → ℕ → Option ℕ → Reply B
  property_value ctx cid none = reply ctx 0 cid (fatal invalid_field) 0
  property_value ctx cid (some value) = reply ctx 0 cid success 0 >>= with_value value

  -- A write of CC needs a queue that Connect has bound.
  unfoldable pub set_property : ConnCtx B → AdminState → PropertyCommand → Reply B
  set_property ctx a cmd =
      if not (cmd.offset == prop_cc)
      then reply ctx 0 cmd.cid (fatal invalid_field) 0
      else if a.cntlid == 0
      then reply ctx 0 cmd.cid (fatal invalid_field) 0
      else reply (with_admin ctx (record a { regs = (write_cc a.regs (cmd.value % 2 ^ 32)).1 })) 0
          cmd.cid success 0

  unfoldable pub property : ConnCtx B → Sqe → ℕ → Reply B
  unfolding property_command property_value set_property register_value
  property ctx sqe fct =
      let cmd = property_command sqe in
      elim ctx.role [
        | Role.io _ ↦ reply ctx 0 cmd.cid (fatal invalid_field) 0
        | Role.admin a ↦
            if fct == property_get
            then property_value ctx cmd.cid (register_value a.regs cmd.offset)
            else set_property ctx a cmd
      ]

  -- `execute`: the type of a fabrics command is byte 4 of the entry, the lowest of `nsid`.
  unfoldable pub execute : Host → ConnCtx B → Sqe → Reply B
  unfolding property Connect.connect
  execute host ctx sqe =
      let fct = sqe.nsid % 256 in
      if fct == connect
      then Connect.connect host ctx sqe
      else if fct == property_get || fct == property_set
      then property ctx sqe fct
      else reply ctx 0 sqe.cid (fatal invalid_opcode) 0
