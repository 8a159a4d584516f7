-- ===== src/Nvme/Io.antt =====
-- crates/ioutgt-nvme/src/io.rs: the commands of an IO queue, over the backend of
-- crates/ioutgt-core/src/backend.rs. A backend operation runs to its end before the handler goes on.
pub mod Bounds
pub mod Answers
use Prim.Native.Nat.{bit_and}
use Prim.Native.String.{String}
use ioutgt.Base.{
  ℕ, zero, suc, ◌+◌, ◌-◌, ◌*◌, ◌/◌, ◌%◌, ◌^◌, Bool, true, false, not, ◌&&◌, List, [], ◌∷◌, ◌++◌,
  map, Option, none, some, Exec, returns, panics, ◌>>=◌, ltb, leb, ◌==◌, if◌then◌else◌, length,
  take, drop, replicate,
}
use ioutgt.Wire.{values, at}
use ioutgt.Spec.{Sqe, RwCommand, parse_rw}
use ioutgt.Status.{
  success, fatal, invalid_opcode, invalid_field, data_xfer_error, internal, invalid_ns,
  cmd_seq_error, data_sgl_len_invalid, lba_range, cap_exceeded,
}
use ioutgt.Pool.Bytes.{addrs}
use ioutgt.Pool.{Seg, SlotData, Memory, for_each_seg, covering_index}
use ioutgt.Slots.{Slot, SlotArray, Event, poll_lease, slot}
use ioutgt.Queue.{QueueCore, QueueStats, stat_add}
use ioutgt.Subsystem.{Subsystem, Namespace, NsCache, find_ns, refresh, lookup}
use ioutgt.Backend.{
  LbaRange, BackendError, out_of_range, no_space, unsupported, io_error, IoResult, ok, err, Backend,
  check_range,
}
use ioutgt.Nvme.{AdminState, IoState, Role, ConnCtx, Outcome, Reply, reply, with_stats, mdts_bytes}

-- `io_opcode`
abbrev pub op_flush : ℕ
op_flush = 0x00

abbrev pub op_write : ℕ
op_write = 0x01

abbrev pub op_read : ℕ
op_read = 0x02

abbrev pub op_write_zeroes : ℕ
op_write_zeroes = 0x08

abbrev pub op_dsm : ℕ
op_dsm = 0x09

unfoldable pub nvme_status : BackendError → ℕ
nvme_status out_of_range = fatal lba_range
nvme_status no_space = fatal cap_exceeded
nvme_status unsupported = fatal invalid_opcode
nvme_status (io_error _) = fatal internal

-- What `checked_len` gives: the command and its length, or a status.
pub data CheckedLen : Type 0 where
  transfer : RwCommand → ℕ → CheckedLen
  refused : ℕ → CheckedLen

unfoldable pub range_checked : RwCommand → ℕ → IoResult (Unit {0}) → CheckedLen
range_checked rw len (ok _) = transfer rw len
range_checked rw len (err e) = refused (nvme_status e)

-- `checked_len`; the shift drops the bits above 64.
unfoldable pub checked_len : (block_shift nr_blocks : ℕ) → Sqe → CheckedLen
unfolding parse_rw check_range range_checked nvme_status
checked_len block_shift nr_blocks sqe =
    let rw_command = parse_rw sqe in
    let nlb = rw_command.nlb + 1 in
    let len = nlb * 2 ^ block_shift % 2 ^ 64 in
    if ltb mdts_bytes len
    then refused (fatal invalid_field)
    else if not (sqe.sgl_length % 2 ^ 24 == len)
    then refused (fatal data_sgl_len_invalid)
    else range_checked rw_command len (check_range nr_blocks rw_command.slba nlb)

-- How a command stands: answered, or parked for a buffer where there is no outcome. `events` are the
-- wakers and ring buffers that a buffer which went out of scope let go.
pub record Served (B W : Type 0) : Type 0 where
  pub outcome : Option Outcome
  pub ctx : ConnCtx B
  pub world : W
  pub events : List Event

pub record DsmRange : Type 0 where
  pub cattr : ℕ
  pub nlb : ℕ
  pub slba : ℕ

abbrev pub dsm_of : List ℕ → DsmRange
dsm_of ns = record { cattr = at ns 0; nlb = at ns 1; slba = at ns 2 }

-- The ranges of the list, 16 bytes each.
unfoldable pub ranges_of : ℕ → List ℕ → List LbaRange
ranges_of zero bytes = []
ranges_of (suc n) bytes =
    let r = dsm_of (values (4 ∷ 4 ∷ 8 ∷ []) (take 16 bytes)).0 in
    record { slba = r.slba; nlb = r.nlb } ∷ ranges_of n (drop 16 bytes)

module _ {B : Type 0} where
  -- A change of the counters.
  abbrev pub count : ConnCtx B → (QueueStats → QueueStats) → ConnCtx B
  count ctx f = with_stats ctx (f ctx.queue.stats)

  -- The subsystem that the queue is bound to, if Connect has bound it.
  abbrev pub subsystem_at : ConnCtx B → Option String → Option (Subsystem B)
  subsystem_at ctx none = none
  subsystem_at ctx (some nqn) = lookup nqn ctx.port.subsystems

module _ {B W : Type 0} where
  abbrev pub served : W → List Event → Outcome × ConnCtx B → Exec (Served B W)
  served w events (o, ctx) =
      returns (record { outcome = some o; ctx = ctx; world = w; events = events })

  unfoldable pub err_outcome : ConnCtx B → W → List Event → ℕ → ℕ → Exec (Served B W)
  unfolding stat_add
  err_outcome ctx w events cid code =
      reply (count ctx (λ s. record s { errors = stat_add s.errors 1 })) 0 cid code 0
      >>= served w events

  unfoldable pub map_backend :
      ConnCtx B → List Event → ℕ → ℕ → IoResult (Unit {0}) × W → Exec (Served B W)
  unfolding err_outcome
  map_backend ctx events cid data_len (ok _, w) =
      reply ctx 0 cid success data_len >>= served w events
  map_backend ctx events cid data_len (err e, w) = err_outcome ctx w events cid (nvme_status e)

  -- The counter of bytes, if the operation succeeded.
  abbrev pub count_ok : ConnCtx B → (QueueStats → QueueStats) → IoResult (Unit {0}) × W → ConnCtx B
  count_ok ctx f (ok _, w) = count ctx f
  count_ok ctx f (err e, w) = ctx

module _ {B W : Type 0} (backend : Backend B W) (ring_index : ℕ → Option ℕ) where
  -- The read into the buffer of the slot.
  unfoldable pub read_into :
      ConnCtx B → W → List Event → B → ℕ → ℕ → RwCommand → ℕ → Exec (Served B W)
  unfolding slot map_backend stat_add
  read_into ctx w events b tag cid rw_command len = slot ctx.queue.slots tag >>= λ s.
      let result =
        backend.read_segs b w rw_command.slba s.slot_data.segs len
          (covering_index ring_index ctx.queue.slots.pool s.slot_data) in
      map_backend
        (count_ok ctx (λ s'. record s' { read_bytes = stat_add s'.read_bytes len }) result) events
        cid len result

  -- What a poll of the lease gave.
  unfoldable pub leased_read :
      ConnCtx B
      → W
      → B
      → ℕ
      → ℕ
      → RwCommand
      → ℕ
      → Bool × SlotArray Sqe × List Event
      → Exec (Served B W)
  unfolding read_into
  leased_read ctx w b tag cid rw_command len (got, slots, events) =
      let ctx' = record ctx { queue = record (ctx.queue) { slots = slots } } in
      if got
      then read_into ctx' w events b tag cid rw_command len
      else returns (record { outcome = none; ctx = ctx'; world = w; events = events })

  unfoldable pub read_checked : ConnCtx B → W → B → ℕ → ℕ → ℕ → CheckedLen → Exec (Served B W)
  unfolding leased_read err_outcome
  read_checked ctx w b tag waker cid (refused code) = err_outcome ctx w [] cid code
  read_checked ctx w b tag waker cid (transfer rw_command len) =
      poll_lease ctx.queue.slots tag len waker >>= leased_read ctx w b tag cid rw_command len

  -- `read`, at one poll of its lease.
  unfoldable pub read : ConnCtx B → W → B → ℕ → ℕ → Sqe → Exec (Served B W)
  unfolding read_checked checked_len
  read ctx w b tag waker sqe =
      read_checked ctx w b tag waker sqe.cid
        (checked_len (backend.block_shift b) (backend.nr_blocks b) sqe)

  -- A flush behind a write that succeeded, if it is asked for.
  abbrev pub flushed : B → Bool → IoResult (Unit {0}) × W → IoResult (Unit {0}) × W
  flushed b true (ok _, w) = backend.flush b w
  flushed b true (err e, w) = (err e, w)
  flushed b false result = result

  unfoldable pub write_from : ConnCtx B → W → B → ℕ → RwCommand → ℕ → Slot Sqe → Exec (Served B W)
  unfolding map_backend err_outcome stat_add
  write_from ctx w b cid rw_command len s =
      let result = flushed b rw_command.fua (
        backend.write_segs b w rw_command.slba s.slot_data.segs len
          (covering_index ring_index ctx.queue.slots.pool s.slot_data)) in
      if not (s.data_len == len)
      then err_outcome ctx w [] cid (fatal data_xfer_error)
      else map_backend
          (count_ok ctx (λ s'. record s' { write_bytes = stat_add s'.write_bytes len }) result) []
          cid 0 result

  unfoldable pub write_checked : ConnCtx B → W → B → ℕ → ℕ → CheckedLen → Exec (Served B W)
  unfolding write_from err_outcome slot
  write_checked ctx w b tag cid (refused code) = err_outcome ctx w [] cid code
  write_checked ctx w b tag cid (transfer rw_command len) =
      slot ctx.queue.slots tag >>= write_from ctx w b cid rw_command len

  unfoldable pub write : ConnCtx B → W → B → ℕ → Sqe → Exec (Served B W)
  unfolding write_checked checked_len
  write ctx w b tag sqe =
      write_checked ctx w b tag sqe.cid
        (checked_len (backend.block_shift b) (backend.nr_blocks b) sqe)

  -- The bytes of the range list, gathered from the segments; a range past the end of the buffer fails a
  -- `debug_assert`.
  unfoldable pub gathered : W → SlotData → ℕ → Exec (List ℕ)
  unfolding for_each_seg addrs
  gathered w d needed =
      let (chunks, left) = for_each_seg d.segs 0 needed in
      if not (left == 0) then panics else returns (map (backend.memory w) (addrs chunks))

  unfoldable pub dsm_from : ConnCtx B → W → B → Sqe → Slot Sqe → Exec (Served B W)
  unfolding map_backend err_outcome gathered ranges_of
  dsm_from ctx w b sqe s =
      let nr = sqe.cdw10 % 2 ^ 8 + 1 in
      if ltb s.data_len (nr * 16)
      then err_outcome ctx w [] sqe.cid (fatal data_sgl_len_invalid)
      else if bit_and sqe.cdw11 4 == 0
      then (reply ctx 0 sqe.cid success 0 >>= served w [])
      else (gathered w s.slot_data (nr * 16) >>= λ list.
          map_backend ctx [] sqe.cid 0 (backend.discard b w (ranges_of nr list)))

  unfoldable pub dsm : ConnCtx B → W → B → ℕ → Sqe → Exec (Served B W)
  unfolding dsm_from slot
  dsm ctx w b tag sqe = slot ctx.queue.slots tag >>= dsm_from ctx w b sqe

  -- The command on a namespace, by its opcode.
  unfoldable pub on_namespace : ConnCtx B → W → Namespace B → ℕ → ℕ → Sqe → Exec (Served B W)
  unfolding read write dsm map_backend err_outcome parse_rw stat_add
  on_namespace ctx w ns tag waker sqe =
      let other = count ctx (λ s. record s { other_cmds = stat_add s.other_cmds 1 }) in
      let b = ns.backend in
      if sqe.opcode == op_flush
      then map_backend (count ctx (λ s. record s { flush_cmds = stat_add s.flush_cmds 1 })) []
          sqe.cid 0 (backend.flush b w)
      else if sqe.opcode == op_read
      then read (count ctx (λ s. record s { read_cmds = stat_add s.read_cmds 1 })) w b tag waker sqe
      else if sqe.opcode == op_write
      then write (count ctx (λ s. record s { write_cmds = stat_add s.write_cmds 1 })) w b tag sqe
      else if sqe.opcode == op_write_zeroes
      then map_backend other [] sqe.cid 0 (
          backend.write_zeroes b w
            (record { slba = (parse_rw sqe).slba; nlb = (parse_rw sqe).nlb + 1 }))
      else if sqe.opcode == op_dsm
      then dsm other w b tag sqe
      else err_outcome other w [] sqe.cid (fatal invalid_opcode)

  -- The namespace in the table of the cache, which `get` left up to date.
  unfoldable pub on_table :
      ConnCtx B → W → Option (List (Namespace B)) → ℕ → ℕ → Sqe → Exec (Served B W)
  unfolding on_namespace err_outcome find_ns
  on_table ctx w none tag waker sqe = panics
  on_table ctx w (some table) tag waker sqe = elim (find_ns sqe.nsid table) [
    | none ↦ err_outcome ctx w [] sqe.cid (fatal invalid_ns)
    | some ns ↦ on_namespace ctx w ns tag waker sqe
  ]

  unfoldable pub execute : ConnCtx B → IoState B → W → ℕ → ℕ → Sqe → Exec (Served B W)
  unfolding on_table err_outcome refresh lookup
  execute ctx i w tag waker sqe = elim (subsystem_at ctx i.subsys) [
    | none ↦ err_outcome ctx w [] sqe.cid (fatal cmd_seq_error)
    | some s ↦
        let cache = refresh i.ns_cache s.generation s.namespaces in
        on_table (record ctx { role = Role.io (record i { ns_cache = cache }) }) w cache.cached tag
          waker sqe
  ]
