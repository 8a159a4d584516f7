-- ===== src/Tcp/Recv.antt =====
-- crates/ioutgt-nvme-tcp/src/recv.rs: the receive path. A step takes the phase and what is left of the
-- window. The CRC-32C of the crate `crc32c`, and the addresses of private buffers, are parameters.
pub mod Route
pub mod Segments
pub mod Landing
pub mod Fragments
pub mod Payload
pub mod Pdus
pub mod Solicited
use Prim.Native.Nat.{bit_and}
use ioutgt.Base.{
  ℕ, zero, suc, ◌+◌, ◌-◌, ◌*◌, ◌/◌, ◌%◌, ◌^◌, min, max, Bool, true, false, not, ◌&&◌, ◌||◌, List,
  [], ◌∷◌, ◌++◌, Option, none, some, Exec, returns, panics, ◌>>=◌, add_u32, sub_u32, sub_u64, ltb,
  leb, ◌==◌, if◌then◌else◌, length, take, drop,
}
use ioutgt.Wire.{de}
use ioutgt.Spec.{Sqe, Cqe, new_cqe}
use ioutgt.Status.{fatal, data_xfer_error}
use ioutgt.Pool.{Seg, SlotData, Memory, write_at, ring}
use ioutgt.Slots.{
  Slot, SlotArray, Event, same_state, slot, set_data, set_data_len, set_recv_offset, stash_cmd,
  poll_tag, lease_or_owned, receiving,
}
use ioutgt.Queue.{QueueCore, advance_sqhd}
use ioutgt.Pdu.{
  PduKind, ic_req, ic_resp, term, capsule_cmd_pdu, capsule_resp_pdu, h2c_data_pdu, c2h_data_pdu,
  r2t_pdu, PduError, DecodedPdu,
}
use ioutgt.Pdu.Decode.{PduDecoder, Checked, ok, err, Fed, feed, take_pdu, is_complete}
use ioutgt.Nvme.{mdts_bytes}
use ioutgt.Tcp.{TcpQueue, Change, on_slots, with_slots, submit, complete_receiving, solicit}

pub data PayloadKind : Type 0 where
  in_capsule : PayloadKind
  h2c : (last : Bool) (length : ℕ) → PayloadKind

pub record DataPhase : Type 0 where
  pub tag : ℕ
  pub base : ℕ
  pub remaining : ℕ
  pub crc : ℕ
  pub ddgst : Bool
  pub kind : PayloadKind
  pub retained : Bool

-- `have` holds the digest bytes that are there: as many as `have_len` says.
pub record DdgstPhase : Type 0 where
  pub tag : ℕ
  pub expected : ℕ
  pub have : List ℕ
  pub kind : PayloadKind

-- `waiting` is the header phase while `await_tag` has no tag for the PDU that was decoded.
pub data RecvPhase : Type 0 where
  header : RecvPhase
  data_phase : DataPhase → RecvPhase
  ddgst_phase : DdgstPhase → RecvPhase
  waiting : DecodedPdu → RecvPhase

-- How the connection ends.
pub data RecvEnd : Type 0 where
  term_req : PduError → RecvEnd
  host_term : ℕ → ℕ → RecvEnd
  closed : RecvEnd

pub data Recv (A : Type 0) : Type 0 where
  next : A → Recv A
  ends : RecvEnd → Recv A

abbrev pub done : {A : Type 0} → A → Exec (Recv A)
done a = returns (next a)

abbrev pub end_with : {A : Type 0} → ℕ → ℕ → Exec (Recv A)
end_with fes fei = returns (ends (term_req (record { fes = fes; fei = fei })))

infixl 5 ◌>?=◌
abbrev pub ◌>?=◌ : {A B : Type 0} → Exec (Recv A) → (A → Exec (Recv B)) → Exec (Recv B)
returns (next a) >?= f = f a
returns (ends e) >?= f = returns (ends e)
panics >?= f = panics

-- `fes`
abbrev pub pdu_seq_err : ℕ
pdu_seq_err = 0x2

abbrev pub data_out_of_range : ℕ
data_out_of_range = 0x4

abbrev pub data_limit_exceeded : ℕ
data_limit_exceeded = 0x5

-- The queue and the memory; the events that were caused, and the ring buffers that were borrowed.
pub record Rx : Type 0 where
  pub queue : TcpQueue
  pub mem : Memory
  pub events : List Event
  pub borrowed : List ℕ

-- The ring buffer of the window: its id, its address and its size.
pub record RingCtx : Type 0 where
  pub bid : ℕ
  pub buf : ℕ
  pub buf_size : ℕ

abbrev pub slots_of : Rx → SlotArray Sqe
slots_of rx = rx.queue.nvme.slots

abbrev pub changed : Rx → Change → Exec Rx
changed rx c = c >>= λ (q, events). returns (record rx { queue = q; events = rx.events ++ events })

abbrev pub on_rx : Rx → Exec (SlotArray Sqe × List Event) → Exec Rx
on_rx rx e = changed rx (on_slots rx.queue e)

-- `SlotData::ring`
abbrev pub ring_data : ℕ → ℕ → ℕ → SlotData
ring_data bid ptr len = record {
  segs = record { ptr = ptr; len = len } ∷ [];
  len = len;
  owner = ring bid;
}

-- `try_retain_payload`: whether the payload stays in the ring buffer.
unfoldable pub try_retain_payload : Rx → RingCtx → ℕ → ℕ → ℕ → Exec (Bool × Rx)
try_retain_payload rx rc tag payload_ptr payload_len =
    let off = sub_u64 payload_ptr rc.buf in
    if ltb rc.buf_size off || ltb (rc.buf_size - off) payload_len
    then returns (false, rx)
    else (on_rx (record rx { borrowed = rc.bid ∷ rx.borrowed })
          (set_data (slots_of rx) tag (ring_data rc.bid payload_ptr payload_len))
        >>= λ rx'. returns (true, rx'))

-- What is kept in place, where there is a ring.
unfoldable pub retain : Rx → Option RingCtx → ℕ → ℕ → ℕ → Exec (Bool × Rx)
unfolding try_retain_payload
retain rx none tag ptr len = returns (false, rx)
retain rx (some rc) tag ptr len = try_retain_payload rx rc tag ptr len

unfoldable pub submitted : Rx → ℕ → Sqe → Exec (Recv Rx)
submitted rx tag cmd = changed rx (submit rx.queue tag cmd) >>= done

unfoldable pub finish_payload : Rx → ℕ → PayloadKind → Exec (Recv Rx)
unfolding slot submitted
finish_payload rx tag in_capsule = slot (slots_of rx) tag >>= λ s. submitted rx tag s.cmd
finish_payload rx tag (h2c last length) = slot (slots_of rx) tag >>= λ s.
    on_rx rx (set_recv_offset (slots_of rx) tag (add_u32 s.recv_offset length)) >>= λ rx'.
    if add_u32 s.recv_offset length == s.data_len
    then submitted rx' tag s.cmd
    else if last
    then end_with data_out_of_range 0
    else done rx'

-- The bytes of the whole PDU.
abbrev pub total_of : Slot Sqe → PayloadKind → ℕ
total_of s in_capsule = s.data_len
total_of s (h2c last length) = length

-- A write of the window into the buffer of the slot; what does not fit fails a `debug_assert`.
abbrev pub stored : Rx → Memory × List ℕ → Exec Rx
stored rx (m, []) = returns (record rx { mem = m })
stored rx (m, b ∷ left) = panics

unfoldable pub copied : Rx → DataPhase → List ℕ → Exec Rx
unfolding slot
copied rx d bytes =
    if d.retained
    then returns rx
    else (slot (slots_of rx) d.tag >>= λ s. stored rx (
        write_at s.slot_data.segs rx.mem (add_u32 d.base (sub_u32 (total_of s d.kind) d.remaining))
          bytes))

abbrev pub with_phase : RecvPhase → Rx → Exec (Recv (Rx × RecvPhase))
with_phase phase rx = done (rx, phase)

module _ (crc_append : ℕ → List ℕ → ℕ) where
  -- The phase behind some bytes of the payload.
  abbrev pub folded : DataPhase → List ℕ → DataPhase
  folded d bytes = record d {
    crc = if d.ddgst then crc_append d.crc bytes else d.crc;
    remaining = d.remaining - length bytes;
  }

  -- What follows the bytes of a payload.
  unfoldable pub arrived : Rx → DataPhase → Exec (Recv (Rx × RecvPhase))
  unfolding finish_payload
  arrived rx d =
      if ltb 0 d.remaining
      then done (rx, data_phase d)
      else if d.ddgst
      then done
          (rx, ddgst_phase (record { tag = d.tag; expected = d.crc; have = []; kind = d.kind }))
      else finish_payload rx d.tag d.kind >?= with_phase header

  -- `DataPhase::advance`, with the bytes that it leaves.
  unfoldable pub advance_data : Rx → DataPhase → List ℕ → Exec (Recv (Rx × RecvPhase)) × List ℕ
  unfolding copied arrived
  advance_data rx d slice =
      let n = min d.remaining (length slice) in
      (copied rx d (take n slice) >>= λ rx'. arrived rx' (folded d (take n slice)), drop n slice)

-- A digest that does not match: the command fails, and the connection stays.
unfoldable pub fail_command : Rx → ℕ → Exec (Recv Rx)
unfolding slot new_cqe
fail_command rx tag = slot (slots_of rx) tag >>= λ s. advance_sqhd rx.queue.nvme >>= λ (head, core).
    let q = record (rx.queue) { nvme = core } in
    changed rx
      (complete_receiving q tag (new_cqe 0 head core.qid s.cmd.cid (fatal data_xfer_error)))
    >>= done

unfoldable pub verified : Rx → DdgstPhase → Exec (Recv (Rx × RecvPhase))
unfolding fail_command finish_payload
verified rx d =
    if ltb (length d.have) 4
    then done (rx, ddgst_phase d)
    else if de d.have == d.expected
    then (finish_payload rx d.tag d.kind >?= with_phase header)
    else (fail_command rx d.tag >?= with_phase header)

-- `DdgstPhase::advance`
unfoldable pub advance_ddgst : Rx → DdgstPhase → List ℕ → Exec (Recv (Rx × RecvPhase)) × List ℕ
unfolding verified
advance_ddgst rx d slice =
    let n = min (4 - length d.have) (length slice) in
    (verified rx (record d { have = d.have ++ take n slice }), drop n slice)

-- `sgl::TYPE_TRANSPORT_DATA_BLOCK`
abbrev pub transport_data_block : ℕ
transport_data_block = 0x5A

unfoldable pub needs_r2t : Sqe → Bool
needs_r2t sqe =
    bit_and sqe.opcode 3 == 1 && (sqe.sgl_type == transport_data_block && ltb 0 sqe.sgl_length)

-- `validate_h2c`: the tag, or the error of the first check that fails.
unfoldable pub is_expected : Slot Sqe → ℕ → ℕ → ℕ → Bool
is_expected s cid offset length =
    same_state s.state receiving
    && (s.cmd.cid == cid
        && (offset == s.recv_offset
            && (ltb (offset + length) (2 ^ 32)
                && (leb (offset + length) s.data_len && ltb 0 length))))

unfoldable pub validate_h2c : TcpQueue → (cid ttag offset length data_len : ℕ) → Exec (Recv ℕ)
unfolding slot is_expected
validate_h2c q cid ttag offset length data_len =
    if leb q.nvme.sqsize ttag
    then end_with 1 10
    else (slot q.nvme.slots ttag >>= λ s.
        if not (is_expected s cid offset length)
        then end_with data_out_of_range 0
        else if not (data_len == length)
        then end_with 1 16
        else done ttag)
