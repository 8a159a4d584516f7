-- ===== src/Tcp/Recv/Solicited.antt =====
-- crates/ioutgt-nvme-tcp/src/recv.rs: a solicited transfer, from the headers of its PDUs through their
-- payloads to the command.
use ioutgt.Base.{ℕ, Bool, false, drop, List, [], ◌∷◌, none, Exec}
use ioutgt.Spec.{Sqe}
use ioutgt.Slots.{Slot}
use ioutgt.Pool.Bytes.{addrs, store}
use ioutgt.Pdu.{h2c_data_pdu}
use ioutgt.Tcp.Recv.Fragments.{receive}
use ioutgt.Tcp.Recv.Route.{handle_pdu}
use ioutgt.Tcp.Recv.{Recv, done, ◌>?=◌, Rx}
use ioutgt.Tcp.Recv.Pdus.{H2cData, payload, size, at_header}

module _ (crc_append : ℕ → List ℕ → ℕ) (heap : ℕ → ℕ) (data_digest : Bool) (waker ptr : ℕ) where
  -- What the receive side makes of a PDU of the transfer whose header was decoded: without a ring its
  -- payload is copied, and it has no digest.
  pub accept : Rx → ℕ → H2cData → Exec (Recv Rx)
  unfolding handle_pdu
  accept rx tag p =
      handle_pdu crc_append heap data_digest none waker rx ptr (record {
        kind = h2c_data_pdu p.cid tag p.offset (size p) p.last;
        data_len = size p;
        ddgst = false;
      })
      >?= λ st. receive crc_append st p.windows >?= at_header

  pub transfer : Rx → ℕ → List H2cData → Exec (Recv Rx)
  unfolding accept
  transfer rx tag [] = done rx
  transfer rx tag (p ∷ pdus) = accept rx tag p >?= λ rx'. transfer rx' tag pdus

  -- The memory with the payload in it.
  abbrev after : Rx → Slot Sqe → H2cData → Rx
  after rx s p = record rx {
    mem = store rx.mem (drop s.recv_offset (addrs s.slot_data.segs)) (payload p);
  }
