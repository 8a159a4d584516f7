-- ===== src/Nvme/Io/Answers.antt =====
-- crates/ioutgt-nvme/src/io.rs: a command of an IO queue is answered once, or it is parked for a buffer.
use ioutgt.Base.{
  ℕ, ◌≤◌, ◌≡◌, refl, true, List, [], ◌∷◌, ◌++◌, ◌⊎◌, none, some, returns, ◌>>=◌, Ret, ◌==◌,
  if◌then◌else◌,
}
use ioutgt.Spec.{Sqe, new_cqe}
use ioutgt.Slots.{Slot, SlotArray, Event, poll_lease, slot}
use ioutgt.Slots.Leases.{LeasePost}
use ioutgt.Pool.{alloc}
use ioutgt.Backend.{Backend}
use ioutgt.Nvme.{ConnCtx, reply}
use ioutgt.Nvme.Replies.{reply-returns, next_head, behind}
use ioutgt.Nvme.Io.{Served, served, op_read}

module _ {B W : Type 0} where
  -- There is a completion, for this command on this queue, and its head is the next one.
  abbrev pub Answered : ConnCtx B → ℕ → Served B W → Type 0
  Answered ctx cid s = elim s.outcome [
    | none ↦ ⊥
    | some o ↦
        (o.cqe.cid ≡ cid)
        × (o.cqe.sq_id ≡ ctx.queue.qid)
        × (o.cqe.sq_head ≡ next_head ctx.queue)
        × (s.ctx.queue.sqhd
            ≡ (if ctx.queue.sqhd_disabled then ctx.queue.sqhd else next_head ctx.queue))
  ]

  -- There is none, because the pool has no buffer of the length: the waker waits there, and the queue and
  -- the world are as they were.
  pub record IsParked (slots : SlotArray Sqe) (sqhd : ℕ) (w : W) (waker len : ℕ) (s : Served B W)
      : Type 0 where
    pub no_answer : s.outcome ≡ none
    pub no_room : alloc slots.pool len ≡ returns (none, slots.pool)
    pub waits : s.ctx.queue.slots ≡ record slots {
      pool = record (slots.pool) { waiters = slots.pool.waiters ++ (waker ∷ []) };
    }
    pub same_head : s.ctx.queue.sqhd ≡ sqhd
    pub same_world : s.world ≡ w

  -- Only a read parks.
  abbrev pub AnsweredOrParked : ConnCtx B → W → ℕ → Sqe → Served B W → Type 0
  AnsweredOrParked ctx w waker sqe s =
      Answered ctx sqe.cid s
      ⊎ (((sqe.opcode == op_read) ≡ true)
          × (len : ℕ) × IsParked ctx.queue.slots ctx.queue.sqhd w waker len s)

  -- What a read gives.
  abbrev ReadPost : ConnCtx B → W → ℕ → ℕ → Served B W → Type 0
  ReadPost ctx w waker cid s =
      Answered ctx cid s ⊎ ((len : ℕ) × IsParked ctx.queue.slots ctx.queue.sqhd w waker len s)

  pub served-Answered :
      (ctx : ConnCtx B) (w : W) (events : List Event) (result cid code data_len : ℕ)
      → 1 ≤ ctx.queue.sqsize
      → Ret (Answered ctx cid) (reply ctx result cid code data_len >>= served w events)
  unfolding new_cqe behind
  served-Answered ctx w events result cid code data_len n =
      rw (reply-returns ctx result cid code data_len n) (refl, refl, refl, refl)

-- The slot of the command is there.
abbrev pub HasSlot : SlotArray Sqe → ℕ → Type 0
HasSlot slots tag = (s : Slot Sqe) × (slot slots tag ≡ returns s)

-- A poll of the pool for the slot returns, with a buffer in the slot or without room.
abbrev pub Leasable : SlotArray Sqe → ℕ → ℕ → Type 0
Leasable slots tag waker =
    (len : ℕ) → Ret (LeasePost slots tag len waker) (poll_lease slots tag len waker)
