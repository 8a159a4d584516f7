-- ===== src/Nvme/Pages.antt =====
-- crates/ioutgt-nvme/src/admin.rs: the admin commands that answer with data, which they put in the
-- buffer of the slot: Identify and Get Log Page. `heap` is where a private buffer would be allocated.
use Prim.Native.String.{String}
use ioutgt.Base.{
  ℕ, zero, suc, ◌+◌, ◌-◌, ◌*◌, ◌/◌, ◌%◌, ◌^◌, min, max, false, ◌&&◌, ◌||◌, List, [], ◌∷◌, ◌++◌,
  Option, none, some, Exec, returns, panics, ◌>>=◌, ltb, leb, ◌==◌, if◌then◌else◌, length, take,
  drop, replicate,
}
use ioutgt.Wire.{le, emit, Fields, de}
use ioutgt.Spec.{Sqe}
use ioutgt.Status.{success, fatal, invalid_field, invalid_ns, invalid_log_page}
use ioutgt.Pool.{Memory, write_at, copy_to, as_slice}
use ioutgt.Slots.{slot, lease_or_owned, Event}
use ioutgt.Subsystem.{Subsystem, Namespace, find_ns, max_nsid}
use ioutgt.Backend.{Backend}
use ioutgt.Nvme.{AdminState, ConnCtx, reply}
use ioutgt.Nvme.Connect.{with_admin}
use ioutgt.Nvme.Io.{Served, served, subsystem_at}
use ioutgt.Nvme.Identify.{
  build_id_ctrl, build_id_ns, controller_fields, namespace_fields, ascii_pad, is_tcp, nul_terminate,
}

abbrev pub admin_data_max : ℕ
admin_data_max = 8 * 1024

-- A page of 4096 bytes that begins with these.
abbrev pub page_of : List ℕ → List ℕ
page_of bytes = take 4096 (bytes ++ replicate 4096 0)

-- The ids of a table above `start`, as bytes, at most `n` of them.
unfoldable pub ids_above : {B : Type 0} → ℕ → ℕ → List (Namespace B) → List ℕ
ids_above start zero table = []
ids_above start (suc n) [] = []
ids_above start (suc n) (ns ∷ table) =
    let later = ids_above start n table in
    if ltb start ns.nsid then ns.nsid ∷ later else ids_above start (suc n) table

unfoldable pub words : List ℕ → List ℕ
unfolding le
words [] = []
words (n ∷ ns) = le 4 n ++ words ns

-- `build_discovery_log`: the header, and an entry for each subsystem of the port, from `index` on.
abbrev pub header_fields : ℕ → Fields
header_fields numrec = (8, 1) ∷ (8, numrec) ∷ (2, 0) ∷ (1006, 0) ∷ []

module _ {B : Type 0} (bytes : String → List ℕ) where
  abbrev pub entry_fields : ConnCtx B → ℕ → String → Fields
  entry_fields ctx index nqn =
      (1, if is_tcp ctx.port.trtype then 3 else 1)
      ∷ (1, 1)
      ∷ (1, 2)
      ∷ (1, 0)
      ∷ (2, if ltb index (2 ^ 16) then index else 0)
      ∷ (2, 0xFFFF)
      ∷ (2, 32)
      ∷ (2, 0)
      ∷ (20, 0)
      ∷ (32, de (ascii_pad 32 (bytes ctx.port.trsvcid)))
      ∷ (192, 0)
      ∷ (256, de (nul_terminate (bytes nqn)))
      ∷ (256, de (ascii_pad 256 (bytes ctx.port.traddr)))
      ∷ (256, 0)
      ∷ []

  unfoldable pub log_entries : ConnCtx B → ℕ → List (String × Subsystem B) → List ℕ
  unfolding emit
  log_entries ctx index [] = []
  log_entries ctx index ((nqn, s) ∷ subsystems) =
      emit (entry_fields ctx index nqn) ++ log_entries ctx (index + 1) subsystems

  unfoldable pub build_discovery_log : ConnCtx B → List ℕ
  unfolding log_entries
  build_discovery_log ctx =
      emit (header_fields (length ctx.port.subsystems)) ++ log_entries ctx 0 ctx.port.subsystems

-- The bytes of a log from `offset` on, `len` at most.
unfoldable pub window : List ℕ → ℕ → ℕ → List ℕ
window log offset len =
    let end = min (min (offset + len) (2 ^ 64 - 1)) (length log) in
    let start = min offset end in take (end - start) (drop start log)

module _ {B : Type 0} where
  -- `fill_slot`: the bytes that fit are in the buffer of the slot.
  unfoldable pub fill_slot :
      ConnCtx B → Memory → ℕ → ℕ → List ℕ → Exec (ℕ × ConnCtx B × Memory × List Event)
  unfolding slot
  fill_slot ctx m tag heap bytes =
      let n = min (length bytes) admin_data_max in
      lease_or_owned ctx.queue.slots tag (max n 1) heap >>= λ (slots, events).
      slot slots tag >>= λ s.
      let (m', left) = write_at s.slot_data.segs m 0 (take n bytes) in
      if length left == 0
      then returns (n, record ctx { queue = record (ctx.queue) { slots = slots } }, m', events)
      else panics

  unfoldable pub answer_data : ConnCtx B → Memory → ℕ → ℕ → ℕ → List ℕ → Exec (Served B Memory)
  unfolding fill_slot
  answer_data ctx m tag heap cid bytes = fill_slot ctx m tag heap bytes >>= λ (n, ctx', m', events).
      reply ctx' 0 cid success n >>= served m' events

  abbrev pub answer_status : ConnCtx B → Memory → ℕ → ℕ → Exec (Served B Memory)
  answer_status ctx m cid code = reply ctx 0 cid code 0 >>= served m []

  -- The zero-filled page of the error, SMART and firmware logs: `as_mut_slice` wants one segment.
  unfoldable pub zero_page : ConnCtx B → Memory → ℕ → ℕ → ℕ → ℕ → Exec (Served B Memory)
  unfolding slot
  zero_page ctx m tag heap cid n =
      lease_or_owned ctx.queue.slots tag (max n 1) heap >>= λ (slots, events).
      slot slots tag >>= λ s. as_slice s.slot_data >>= λ seg.
      if ltb seg.len n
      then panics
      else (reply (record ctx { queue = record (ctx.queue) { slots = slots } }) 0 cid success n
          >>= served (copy_to m seg.ptr (replicate n 0)) events)

module _ {B W : Type 0} (backend : Backend B W) (bytes : String → List ℕ) where
  abbrev pub nothing_known : List ℕ
  nothing_known = replicate 4096 0

  -- `identify` of a namespace: an id that no namespace has, up to the highest, gives zeros.
  unfoldable pub identify_ns :
      ConnCtx B → Memory → ℕ → ℕ → Sqe → Option (Subsystem B) → Exec (Served B Memory)
  unfolding answer_data build_id_ns find_ns
  identify_ns ctx m tag heap sqe none = answer_status ctx m sqe.cid (fatal invalid_ns)
  identify_ns ctx m tag heap sqe (some s) = elim (find_ns sqe.nsid s.namespaces) [
    | some ns ↦
        answer_data ctx m tag heap sqe.cid
          (emit (namespace_fields (build_id_ns backend ns.backend)))
    | none ↦
        if leb sqe.nsid (max_nsid s)
        then answer_data ctx m tag heap sqe.cid nothing_known
        else answer_status ctx m sqe.cid (fatal invalid_ns)
  ]

  -- The list of active ids.
  abbrev pub active_ids : ℕ → Option (Subsystem B) → List ℕ
  active_ids start none = []
  active_ids start (some s) = ids_above start 1024 s.namespaces

  -- The descriptor of a namespace: its UUID.
  unfoldable pub describe_ns :
      ConnCtx B → Memory → ℕ → ℕ → Sqe → Option (Subsystem B) → Exec (Served B Memory)
  unfolding answer_data find_ns
  describe_ns ctx m tag heap sqe none = answer_status ctx m sqe.cid (fatal invalid_ns)
  describe_ns ctx m tag heap sqe (some s) = elim (find_ns sqe.nsid s.namespaces) [
    | none ↦ answer_status ctx m sqe.cid (fatal invalid_ns)
    | some ns ↦ answer_data ctx m tag heap sqe.cid (page_of (3 ∷ 16 ∷ 0 ∷ 0 ∷ ns.uuid))
  ]

  unfoldable pub identify : ConnCtx B → AdminState → Memory → ℕ → ℕ → Sqe → Exec (Served B Memory)
  unfolding identify_ns describe_ns answer_data build_id_ctrl ids_above words
  identify ctx a m tag heap sqe =
      let subsys = subsystem_at ctx a.subsys in
      let cns = sqe.cdw10 % 2 ^ 8 in
      if cns == 1
      then answer_data ctx m tag heap sqe.cid
          (emit (controller_fields (build_id_ctrl bytes ctx a subsys)))
      else if cns == 0
      then identify_ns ctx m tag heap sqe subsys
      else if cns == 2
      then answer_data ctx m tag heap sqe.cid (page_of (words (active_ids sqe.nsid subsys)))
      else if cns == 3
      then describe_ns ctx m tag heap sqe subsys
      else answer_status ctx m sqe.cid (fatal invalid_field)

  -- The changed-namespace page: reading it clears the mark.
  abbrev pub changed_page : AdminState → List ℕ
  changed_page a = page_of (if a.ns_changed then replicate 4 255 else [])

  unfoldable pub get_log_page :
      ConnCtx B → AdminState → Memory → ℕ → ℕ → Sqe → Exec (Served B Memory)
  unfolding answer_data zero_page build_discovery_log window
  get_log_page ctx a m tag heap sqe =
      let lid = sqe.cdw10 % 2 ^ 8 in
      let len = (sqe.cdw11 % 2 ^ 16 * 2 ^ 16 + sqe.cdw10 / 2 ^ 16 + 1) * 4 in
      let offset = sqe.cdw13 * 2 ^ 32 + sqe.cdw12 in
      if lid == 0x70 && a.discovery
      then answer_data ctx m tag heap sqe.cid (window (build_discovery_log bytes ctx) offset len)
      else if lid == 0x04
      then answer_data (with_admin ctx (record a { ns_changed = false })) m tag heap sqe.cid
          (take (min len 4096) (changed_page a))
      else if lid == 0x01 || (lid == 0x02 || lid == 0x03)
      then zero_page ctx m tag heap sqe.cid (min len 4096)
      else answer_status ctx m sqe.cid (fatal invalid_log_page)
