-- ===== src/Tcp/Recv/Payload.antt =====
-- crates/ioutgt-nvme-tcp/src/recv.rs: the digest behind a payload.
use ioutgt.Base.{
  ℕ, ◌≤◌, ◌≡◌, ◌≢◌, refl, false, [], ◌∷◌, ◌++◌, some, returns, arith, ltb, ◌==◌, length, get_elem?,
  set, get_elem?-set, Ret,
}
use ioutgt.Wire.{de}
use ioutgt.Spec.{Sqe}
use ioutgt.Status.{fatal, data_xfer_error}
use ioutgt.Slots.{Slot, SlotArray, receiving, responding, respond_receiving}
use ioutgt.Slots.Lifecycle.{slot-Holds}
use ioutgt.SendList
use ioutgt.Nvme.Replies.{completion, behind, advance_sqhd-next}
use ioutgt.Tcp.{response, complete_receiving}
use ioutgt.Tcp.Recv.{
  DdgstPhase, RecvPhase, header, Recv, next, ends, Rx, slots_of, verified, fail_command,
}

-- The command that failed: its slot responds, with an error at the next head, which is the last work of
-- the send list; nothing was submitted, and the memory is as it was.
pub record IsFailed (rx : Rx) (tag : ℕ) (s : Slot Sqe) (rx' : Rx) : Type 0 where
  pub slot_then : get_elem? (slots_of rx').slots tag ≡ some (record s { state = responding })
  pub queued :
      rx'.queue.send.work
      ≡ rx.queue.send.work
        ++ (response (record {
          tag = tag;
          cqe = completion rx.queue.nvme 0 s.cmd.cid (fatal data_xfer_error);
          data_len = 0;
        })
            ∷ [])
  pub quiet : rx'.queue.traffic ≡ rx.queue.traffic
  pub same_mem : rx'.mem ≡ rx.mem
  pub executing : (slots_of rx').executing_count ≡ (slots_of rx).executing_count

abbrev pub FailedPost : Rx → ℕ → Slot Sqe → Recv (Rx × RecvPhase) → Type 0
FailedPost rx tag s (next (rx', phase)) = IsFailed rx tag s rx' × (phase ≡ header)
FailedPost rx tag s (ends e) = ⊥

respond-state :
    (a : SlotArray Sqe) (tag : ℕ) (s : Slot Sqe)
    → get_elem? a.slots tag ≡ some s
    → s.state ≡ receiving
    → respond_receiving a tag
      ≡ returns (record a { slots = set a.slots tag (record s { state = responding }) }, [])
unfolding respond_receiving
respond-state a tag s e r = rw (slot-Holds a tag s e, r) refl

-- A digest of four bytes that is not the one of the payload fails the command without submitting it, and
-- the connection goes on with the next header.
pub verified-FailedPost :
    (rx : Rx) (d : DdgstPhase) (s : Slot Sqe)
    → get_elem? (slots_of rx).slots d.tag ≡ some s
    → s.state ≡ receiving
    → 1 ≤ rx.queue.nvme.sqsize
    → length d.have ≡ 4
    → de d.have ≢ d.expected
    → Ret (FailedPost rx d.tag s) (verified rx d)
unfolding verified fail_command complete_receiving SendList.push behind
verified-FailedPost rx d s f r n four differs =
    let whole : ltb (length d.have) 4 ≡ false = ground arith in
    let wrong : (de d.have == d.expected) ≡ false = ground arith in
    rw
      (
        whole,
        wrong,
        slot-Holds (slots_of rx) d.tag s f,
        advance_sqhd-next rx.queue.nvme n,
        respond-state (slots_of rx) d.tag s f r,
      )
      (
        record {
          slot_then = get_elem?-set (slots_of rx).slots d.tag (record s { state = responding }) f;
          queued = refl;
          quiet = refl;
          same_mem = refl;
          executing = refl;
        },
        refl,
      )
