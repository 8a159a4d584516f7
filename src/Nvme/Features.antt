-- ===== src/Nvme/Features.antt =====
-- crates/ioutgt-nvme/src/admin.rs: Get Features, Set Features, and one poll of an async event request.
pub mod Events
use Prim.Native.Nat.{bit_or}
use ioutgt.Base.{
  ℕ, ◌+◌, ◌-◌, ◌*◌, ◌%◌, ◌^◌, min, max, Bool, true, false, not, ◌&&◌, List, [], ◌∷◌, ◌++◌, Option,
  none, some, Exec, returns, panics, ◌>>=◌, ◌==◌, if◌then◌else◌,
}
use ioutgt.Spec.{Sqe}
use ioutgt.Status.{success, fatal, invalid_field, feature_not_changeable}
use ioutgt.Registry.{is_some}
use ioutgt.Nvme.{AdminState, Role, ConnCtx, Outcome, Reply, reply}
use ioutgt.Nvme.Connect.{with_admin}

-- `feat`
abbrev pub volatile_wc : ℕ
volatile_wc = 0x06

abbrev pub num_queues : ℕ
num_queues = 0x07

abbrev pub async_event_config : ℕ
async_event_config = 0x0B

abbrev pub kato : ℕ
kato = 0x0F

abbrev pub host_id : ℕ
host_id = 0x81

-- The same 16 bits in both halves of the result.
abbrev pub twice : ℕ → ℕ
twice n = bit_or n (n * 2 ^ 16 % 2 ^ 32)

module _ {B : Type 0} where
  unfoldable pub io_queue_count : ConnCtx B → AdminState → ℕ
  io_queue_count ctx a = if is_some a.subsys then max ctx.port.max_qid 1 else 1

  unfoldable pub get_features : ConnCtx B → AdminState → Sqe → Reply B
  unfolding io_queue_count
  get_features ctx a sqe =
      let fid = sqe.cdw10 % 2 ^ 8 in
      if fid == num_queues
      then reply ctx (twice (io_queue_count ctx a - 1)) sqe.cid success 0
      else if fid == kato
      then reply ctx a.kato_ms sqe.cid success 0
      else if fid == async_event_config
      then reply ctx a.aec sqe.cid success 0
      else if fid == volatile_wc && not a.discovery
      then reply ctx 1 sqe.cid success 0
      else reply ctx 0 sqe.cid (fatal invalid_field) 0

  -- What a Set Features of the number of queues grants.
  unfoldable pub granted : ConnCtx B → AdminState → ℕ → ℕ
  unfolding io_queue_count
  granted ctx a cdw11 = min (cdw11 % 2 ^ 16) (io_queue_count ctx a - 1)

  unfoldable pub set_features : ConnCtx B → AdminState → Sqe → Reply B
  unfolding granted
  set_features ctx a sqe =
      let fid = sqe.cdw10 % 2 ^ 8 in
      if fid == num_queues
      then reply ctx (twice (granted ctx a sqe.cdw11)) sqe.cid success 0
      else if fid == kato
      then reply (with_admin ctx (record a { kato_ms = sqe.cdw11 })) 0 sqe.cid success 0
      else if fid == async_event_config
      then reply (with_admin ctx (record a { aec = sqe.cdw11 })) 0 sqe.cid success 0
      else if fid == host_id
      then reply ctx 0 sqe.cid success 0
      else reply ctx 0 sqe.cid (fatal feature_not_changeable) 0

-- One poll of an async event request: its event, where there is one or the queue closes, and the state.
unfoldable pub poll_event : AdminState → ℕ → Option ℕ × AdminState
poll_event a waker = if a.closing then (some 0, a) else (elim a.events [
  | [] ↦ (none, record a { aer_wakers = a.aer_wakers ++ (waker ∷ []) })
  | e ∷ events ↦ (some e, record a { events = events })
])
