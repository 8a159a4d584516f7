-- ===== src/Nvme/Admin.antt =====
-- crates/ioutgt-nvme/src/admin.rs: `execute`, the routing of the commands of an admin queue.
use Prim.Native.String.{String}
use ioutgt.Base.{ℕ, List, [], Option, none, some, Exec, returns, ◌>>=◌, ◌==◌, if◌then◌else◌}
use ioutgt.Spec.{Sqe}
use ioutgt.Status.{success, fatal, invalid_opcode}
use ioutgt.Pool.{Memory}
use ioutgt.Backend.{Backend}
use ioutgt.Nvme.{AdminState, ConnCtx, reply}
use ioutgt.Nvme.Connect.{with_admin}
use ioutgt.Nvme.Io.{Served, served}
use ioutgt.Nvme.Features.{get_features, set_features, poll_event}
use ioutgt.Nvme.Pages.{identify, get_log_page, answer_status}

-- `admin_opcode`
abbrev pub op_get_log_page : ℕ
op_get_log_page = 0x02

abbrev pub op_identify : ℕ
op_identify = 0x06

abbrev pub op_set_features : ℕ
op_set_features = 0x09

abbrev pub op_get_features : ℕ
op_get_features = 0x0A

abbrev pub op_async_event : ℕ
op_async_event = 0x0C

abbrev pub op_keep_alive : ℕ
op_keep_alive = 0x18

module _ {B W : Type 0} (backend : Backend B W) (bytes : String → List ℕ) where
  -- A request parks where there is no event.
  unfoldable pub on_event : ConnCtx B → Memory → ℕ → Option ℕ × AdminState → Exec (Served B Memory)
  on_event ctx m cid (some event, a) = reply (with_admin ctx a) event cid success 0 >>= served m []
  on_event ctx m cid (none, a) =
      returns (record { outcome = none; ctx = with_admin ctx a; world = m; events = [] })

  unfoldable pub execute :
      ConnCtx B → AdminState → Memory → ℕ → ℕ → ℕ → Sqe → Exec (Served B Memory)
  unfolding on_event identify get_log_page get_features set_features poll_event
  execute ctx a m tag heap waker sqe =
      if sqe.opcode == op_identify
      then identify backend bytes ctx a m tag heap sqe
      else if sqe.opcode == op_get_features
      then (get_features ctx a sqe >>= served m [])
      else if sqe.opcode == op_set_features
      then (set_features ctx a sqe >>= served m [])
      else if sqe.opcode == op_get_log_page
      then get_log_page backend bytes ctx a m tag heap sqe
      else if sqe.opcode == op_keep_alive
      then answer_status ctx m sqe.cid success
      else if sqe.opcode == op_async_event
      then on_event ctx m sqe.cid (poll_event a waker)
      else answer_status ctx m sqe.cid (fatal invalid_opcode)
