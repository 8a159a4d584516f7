-- ===== src/Tcp.antt =====
-- crates/ioutgt-nvme-tcp/src/queue.rs: the queue of a connection, which the receive loop, the slot tasks
-- and the send loop share. A call gives the new queue and the wakers that it wakes.
pub mod Recv
pub mod Send
pub mod Tests
use ioutgt.Base.{
  ℕ, zero, suc, ◌+◌, ◌%◌, ◌^◌, Bool, true, false, List, [], ◌∷◌, ◌++◌, Option, none, some, Exec,
  returns, panics, ◌>>=◌,
}
use ioutgt.Spec.{Sqe, Cqe}
use ioutgt.Slots.{
  SlotArray, SlotState, Event, wakes, expects, slot, receiving, begin_respond, respond_receiving,
}
use ioutgt.Slots
use ioutgt.SendList.{SendList}
use ioutgt.SendList
use ioutgt.Queue.{QueueCore}
use ioutgt.Queue

pub record Completion : Type 0 where
  pub tag : ℕ
  pub cqe : Cqe
  pub data_len : ℕ

pub data SendWork : Type 0 where
  response : Completion → SendWork
  r2t : (tag cid offset length : ℕ) → SendWork

pub record TcpQueue : Type 0 where
  pub nvme : QueueCore Sqe
  pub send : SendList SendWork
  pub traffic : Bool

-- `new` over the slots that `SlotArray::new` made.
unfoldable pub new : ℕ → ℕ → SlotArray Sqe → Bool → TcpQueue
new qid sqsize slots sqhd_disabled = record {
  nvme = Queue.new qid sqsize slots sqhd_disabled;
  send = SendList.new SendWork;
  traffic = false;
}

abbrev pub Change : Type 0
Change = Exec (TcpQueue × List Event)

abbrev pub with_slots : TcpQueue → SlotArray Sqe → TcpQueue
with_slots q slots = record q { nvme = record (q.nvme) { slots = slots } }

-- What a call of the slots does to the queue.
abbrev pub on_slots : TcpQueue → Exec (SlotArray Sqe × List Event) → Change
on_slots q e = e >>= λ (slots, events). returns (with_slots q slots, events)

-- A push on the send list, and the waker that it wakes.
abbrev pub pushed : TcpQueue → List Event → SendWork → TcpQueue × List Event
pushed q events work =
    let (send, woken) = SendList.push q.send work in
    (record q { send = send }, events ++ wakes woken)

unfoldable pub submit : TcpQueue → ℕ → Sqe → Change
submit q tag cmd = on_slots (record q { traffic = true }) (Slots.submit q.nvme.slots tag cmd)

unfoldable pub take_traffic : TcpQueue → Bool × TcpQueue
take_traffic q = (q.traffic, record q { traffic = false })

unfoldable pub complete : TcpQueue → ℕ → Cqe → ℕ → Change
complete q tag cqe data_len = begin_respond q.nvme.slots tag >>= λ (slots, events). returns (
    pushed (with_slots q slots) events
      (response (record { tag = tag; cqe = cqe; data_len = data_len })))

unfoldable pub complete_receiving : TcpQueue → ℕ → Cqe → Change
complete_receiving q tag cqe = respond_receiving q.nvme.slots tag >>= λ (slots, events).
    returns (
      pushed (with_slots q slots) events (response (record { tag = tag; cqe = cqe; data_len = 0 })))

-- `solicit`: the slot stays in the state `receiving`.
unfoldable pub solicit : TcpQueue → ℕ → ℕ → ℕ → ℕ → Change
unfolding slot
solicit q tag cid offset length = slot q.nvme.slots tag >>= λ s.
    expects s.state receiving (returns (pushed q [] (r2t tag cid offset length)))

unfoldable pub close_send : TcpQueue → TcpQueue × List Event
close_send q = let (send, woken) = SendList.close q.send in (record q { send = send }, wakes woken)
