-- ===== src/Tcp/Recv/Route.antt =====
-- crates/ioutgt-nvme-tcp/src/recv.rs: the routing of a decoded PDU, and the loop over a window of bytes.
use ioutgt.Base.{
  ℕ, zero, suc, ◌+◌, ◌-◌, Bool, true, false, not, ◌&&◌, List, Option, none, some, Exec, returns,
  ◌>>=◌, ltb, ◌==◌, if◌then◌else◌, length, drop,
}
use ioutgt.Spec.{Sqe}
use ioutgt.Slots.{
  slot, set_data_len, set_recv_offset, stash_cmd, poll_tag, lease_or_owned, SlotArray,
}
use ioutgt.Pdu.{term, capsule_cmd_pdu, h2c_data_pdu, DecodedPdu}
use ioutgt.Pdu.Decode.{PduDecoder, Checked, ok, err, feed, take_pdu, is_complete}
use ioutgt.Nvme.{mdts_bytes}
use ioutgt.Tcp.{with_slots, solicit}
use ioutgt.Tcp.Recv.{
  in_capsule, h2c, RecvPhase, header, data_phase, ddgst_phase, waiting, term_req, host_term, Recv,
  ends, done, end_with, ◌>?=◌, Rx, RingCtx, slots_of, changed, on_rx, retain, submitted, with_phase,
  needs_r2t, validate_h2c, advance_data, advance_ddgst, pdu_seq_err, data_limit_exceeded,
}

-- What is left of the window, and its address.
pub record Window : Type 0 where
  pub addr : ℕ
  pub bytes : List ℕ

abbrev pub skip : ℕ → Window → Window
skip n w = record { addr = w.addr + n; bytes = drop n w.bytes }

-- The receive side between two steps.
pub record Loop : Type 0 where
  pub rx : Rx
  pub decoder : PduDecoder
  pub phase : RecvPhase

abbrev pub is_waiting : RecvPhase → Bool
is_waiting (waiting p) = true
is_waiting header = false
is_waiting (data_phase d) = false
is_waiting (ddgst_phase d) = false

module _ (crc_append : ℕ → List ℕ → ℕ) (heap : ℕ → ℕ) (data_digest : Bool) (ring : Option RingCtx)
    (waker : ℕ) where
  -- The buffer of a command, unless its payload stays in the ring.
  abbrev pub leased : ℕ → ℕ → Bool × Rx → Exec Rx
  leased tag len (true, rx) = returns rx
  leased tag len (false, rx) = on_rx rx (lease_or_owned (slots_of rx) tag len (heap tag))

  -- In-capsule data: the payload follows.
  unfoldable pub with_payload : Rx → ℕ → ℕ → Sqe → ℕ → Bool → Exec (Recv (Rx × RecvPhase))
  unfolding retain
  with_payload rx ptr tag sqe data_len ddgst = retain rx ring tag ptr data_len >>= λ kept.
      leased tag data_len kept >>= λ rx1.
      on_rx rx1 (set_data_len (slots_of rx1) tag data_len) >>= λ rx2.
      on_rx rx2 (stash_cmd (slots_of rx2) tag sqe) >>= λ rx3. done (
        rx3,
        data_phase (record {
          tag = tag;
          base = 0;
          remaining = data_len;
          crc = 0;
          ddgst = ddgst;
          kind = in_capsule;
          retained = kept.0;
        }),
      )

  -- Data at the host: one R2T solicits the whole transfer.
  unfoldable pub with_r2t : Rx → ℕ → Sqe → Exec (Recv (Rx × RecvPhase))
  with_r2t rx tag sqe =
      on_rx rx (lease_or_owned (slots_of rx) tag sqe.sgl_length (heap tag)) >>= λ rx1.
      on_rx rx1 (set_data_len (slots_of rx1) tag sqe.sgl_length) >>= λ rx2.
      on_rx rx2 (set_recv_offset (slots_of rx2) tag 0) >>= λ rx3.
      on_rx rx3 (stash_cmd (slots_of rx3) tag sqe) >>= λ rx4.
      changed rx4 (solicit rx4.queue tag sqe.cid 0 sqe.sgl_length) >>= λ rx5. done (rx5, header)

  -- The command in the slot that was claimed.
  unfoldable pub in_slot : Rx → ℕ → ℕ → Sqe → ℕ → Bool → Exec (Recv (Rx × RecvPhase))
  unfolding with_payload with_r2t submitted
  in_slot rx ptr tag sqe data_len ddgst =
      if ltb 0 data_len
      then (if ltb mdts_bytes data_len
          then end_with data_limit_exceeded 0
          else with_payload rx ptr tag sqe data_len ddgst)
      else if needs_r2t sqe
      then (if ltb mdts_bytes sqe.sgl_length
          then end_with data_limit_exceeded 0
          else with_r2t rx tag sqe)
      else submitted rx tag sqe >?= with_phase header

  abbrev pub claimed :
      Rx → ℕ → DecodedPdu → Sqe → Bool → Option ℕ × SlotArray Sqe → Exec (Recv (Rx × RecvPhase))
  claimed rx ptr p sqe ddgst (tag, slots) =
      let rx' = record rx { queue = with_slots rx.queue slots } in
      elim tag [ none ↦ done (rx', waiting p) | some t ↦ in_slot rx' ptr t sqe p.data_len ddgst ]

  -- `handle_capsule_cmd`, up to a poll of `await_tag`.
  unfoldable pub handle_capsule_cmd :
      Rx → ℕ → DecodedPdu → Sqe → Bool → Exec (Recv (Rx × RecvPhase))
  unfolding in_slot
  handle_capsule_cmd rx ptr p sqe ddgst =
      poll_tag (slots_of rx) waker >>= claimed rx ptr p sqe ddgst

  -- Data of a transfer that was solicited; it is kept in the ring if this PDU is the whole of it.
  unfoldable pub handle_h2c :
      Rx → ℕ → (offset length : ℕ) → Bool → Bool → ℕ → Exec (Recv (Rx × RecvPhase))
  unfolding retain slot
  handle_h2c rx ptr offset length last ddgst tag = slot (slots_of rx) tag >>= λ s.
      retain rx (if offset == 0 && length == s.data_len then ring else none) tag ptr length
      >>= λ (kept, rx'). done (
        rx',
        data_phase (record {
          tag = tag;
          base = offset;
          remaining = length;
          crc = 0;
          ddgst = ddgst;
          kind = h2c last length;
          retained = kept;
        }),
      )

  unfoldable pub handle_pdu : Rx → ℕ → DecodedPdu → Exec (Recv (Rx × RecvPhase))
  unfolding handle_capsule_cmd handle_h2c validate_h2c
  handle_pdu rx ptr p = elim p.kind [
    | capsule_cmd_pdu sqe ↦ handle_capsule_cmd rx ptr p sqe (p.ddgst && data_digest)
    | h2c_data_pdu cid ttag offset length last ↦
        validate_h2c rx.queue cid ttag offset length p.data_len
        >?= handle_h2c rx ptr offset length last (p.ddgst && data_digest)
    | term fes fei ↦ returns (ends (host_term fes fei))
    | _ ↦ end_with pdu_seq_err 0
  ]

  -- The loop goes on with the phase and the bytes that are left.
  abbrev pub go_on : PduDecoder → Window → Rx × RecvPhase → Exec (Recv (Loop × Window))
  go_on decoder w (rx, phase) = done (record { rx = rx; decoder = decoder; phase = phase }, w)

  abbrev pub taken : Rx → Window → Checked DecodedPdu × PduDecoder → Exec (Recv (Loop × Window))
  taken rx w (err e, decoder) = returns (ends (term_req e))
  taken rx w (ok p, decoder) = handle_pdu rx w.addr p >?= go_on decoder w

  -- `feed_header`, with what the decoder said. `take` checks the digest of the whole header.
  abbrev pub fed : (List ℕ → ℕ) → Rx → Window → Checked ℕ → PduDecoder → Exec (Recv (Loop × Window))
  fed crc rx w (err e) decoder = returns (ends (term_req e))
  fed crc rx w (ok n) decoder =
      if is_complete decoder
      then take_pdu crc decoder >>= taken rx (skip n w)
      else go_on decoder (skip n w) (rx, header)

  unfoldable pub feed_header : (List ℕ → ℕ) → Rx → PduDecoder → Window → Exec (Recv (Loop × Window))
  unfolding feed take_pdu is_complete handle_pdu
  feed_header crc rx decoder w = let f = feed decoder w.bytes in fed crc rx w f.answer f.decoder

  -- What a step of a payload gives, with the bytes that it left.
  abbrev pub stepped :
      PduDecoder → Window → Exec (Recv (Rx × RecvPhase)) × List ℕ → Exec (Recv (Loop × Window))
  stepped decoder w (e, left) =
      e >?= go_on decoder (record { addr = w.addr + (length w.bytes - length left); bytes = left })

  -- A step of the phase machine.
  unfoldable pub step : (List ℕ → ℕ) → Loop → Window → Exec (Recv (Loop × Window))
  unfolding feed_header advance_data advance_ddgst handle_pdu
  step crc l w = elim l.phase [
    | header ↦ feed_header crc l.rx l.decoder w
    | data_phase d ↦ stepped l.decoder w (advance_data crc_append l.rx d w.bytes)
    | ddgst_phase d ↦ stepped l.decoder w (advance_ddgst l.rx d w.bytes)
    | waiting p ↦ handle_pdu l.rx w.addr p >?= go_on l.decoder w
  ]

  -- Whether the loop over the window is at its end.
  abbrev pub is_drained : Loop → Window → Bool
  is_drained l w = not (is_waiting l.phase) && length w.bytes == 0

  -- The loop over a window, on fuel. It stops, too, where it waits for a tag.
  unfoldable pub drain : (List ℕ → ℕ) → ℕ → Loop → Window → Exec (Recv (Loop × Window))
  unfolding step
  drain crc zero l w = done (l, w)
  drain crc (suc fuel) l w =
      if is_drained l w
      then done (l, w)
      else (step crc l w >?= λ (l', w').
          if is_waiting l'.phase then done (l', w') else drain crc fuel l' w')
