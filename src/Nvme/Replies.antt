-- ===== src/Nvme/Replies.antt =====
-- crates/ioutgt-nvme/src/dispatch.rs: a completion of a queue whose size is not 0.
use ioutgt.Base.{
  ℕ, ◌%◌, ◌≤◌, ◌≡◌, refl, false, returns, add_u16, arith, ◌==◌, if◌then◌else◌, Bool-cases, inl, inr,
}
use ioutgt.Spec.{Sqe, Cqe, new_cqe}
use ioutgt.Queue.{QueueCore, advance_sqhd}
use ioutgt.Nvme.{ConnCtx, reply}

-- The head that the next completion reports.
unfoldable pub next_head : QueueCore Sqe → ℕ
next_head q = if q.sqhd_disabled then 0 else add_u16 q.sqhd 1 % q.sqsize

-- The queue behind it.
unfoldable pub behind : QueueCore Sqe → QueueCore Sqe
unfolding next_head
behind q = record q { sqhd = if q.sqhd_disabled then q.sqhd else next_head q }

-- The completion of a queue with a result, for a command, with a status.
abbrev pub completion : QueueCore Sqe → ℕ → ℕ → ℕ → Cqe
completion q result cid code = new_cqe result (next_head q) q.qid cid code

pub advance_sqhd-next :
    (q : QueueCore Sqe) → 1 ≤ q.sqsize → advance_sqhd q ≡ returns (next_head q, behind q)
unfolding advance_sqhd next_head behind
advance_sqhd-next q h = elim (Bool-cases q.sqhd_disabled) [
  | inl e ↦ rw e refl
  | inr e ↦ let pos : (q.sqsize == 0) ≡ false = ground arith in rw (e, pos) refl
]

module _ {B : Type 0} where
  -- The context behind a completion.
  abbrev pub replied : ConnCtx B → ConnCtx B
  replied ctx = record ctx { queue = behind ctx.queue }

  pub reply-returns :
      (ctx : ConnCtx B) (result cid code data_len : ℕ)
      → 1 ≤ ctx.queue.sqsize
      → reply ctx result cid code data_len
        ≡ returns (
          record { cqe = completion ctx.queue result cid code; data_len = data_len },
          replied ctx,
        )
  unfolding reply
  reply-returns ctx result cid code data_len h = rw (advance_sqhd-next ctx.queue h) refl
