-- ===== src/Queue.antt =====
-- crates/ioutgt-core/src/queue.rs: the head of the submission queue and the counters of a queue. The
-- counters that a transport may attach are not kept here.
pub mod Flow
pub mod Tests
use ioutgt.Base.{
  ℕ, zero, suc, ◌+◌, ◌%◌, ◌^◌, Bool, true, false, List, [], ◌∷◌, Exec, returns, panics, add_u16,
  ◌==◌, if◌then◌else◌,
}
use ioutgt.Slots.{SlotArray}
use ioutgt.Slots

-- `QueueStats`, and `QueueStatsSnapshot`, which has the same fields.
pub record QueueStats : Type 0 where
  pub qid : ℕ
  pub cntlid : ℕ
  pub read_cmds : ℕ
  pub write_cmds : ℕ
  pub flush_cmds : ℕ
  pub other_cmds : ℕ
  pub read_bytes : ℕ
  pub write_bytes : ℕ
  pub errors : ℕ

-- Addition on `u64`, as in `stat_add`.
unfoldable pub stat_add : ℕ → ℕ → ℕ
stat_add cell n = (cell + n) % 2 ^ 64

unfoldable pub new_stats : ℕ → QueueStats
new_stats qid = record {
  qid = qid;
  cntlid = 0;
  read_cmds = 0;
  write_cmds = 0;
  flush_cmds = 0;
  other_cmds = 0;
  read_bytes = 0;
  write_bytes = 0;
  errors = 0;
}

-- `snapshot` copies the counters.
pub snapshot : QueueStats → QueueStats
snapshot s = s

unfoldable pub reset : QueueStats → QueueStats
reset s = record s {
  read_cmds = 0;
  write_cmds = 0;
  flush_cmds = 0;
  other_cmds = 0;
  read_bytes = 0;
  write_bytes = 0;
  errors = 0;
}

unfoldable pub absorb : QueueStats → QueueStats → QueueStats
unfolding stat_add
absorb s other = record s {
  read_cmds = stat_add s.read_cmds other.read_cmds;
  write_cmds = stat_add s.write_cmds other.write_cmds;
  flush_cmds = stat_add s.flush_cmds other.flush_cmds;
  other_cmds = stat_add s.other_cmds other.other_cmds;
  read_bytes = stat_add s.read_bytes other.read_bytes;
  write_bytes = stat_add s.write_bytes other.write_bytes;
  errors = stat_add s.errors other.errors;
}

pub record QueueCore (C : Type 0) : Type 0 where
  pub slots : SlotArray C
  pub sqsize : ℕ
  pub qid : ℕ
  pub sqhd : ℕ
  pub sqhd_disabled : Bool
  pub stats : QueueStats

module _ {C : Type 0} where
  -- `new` over the slots that `SlotArray::new` made.
  unfoldable pub new : ℕ → ℕ → SlotArray C → Bool → QueueCore C
  unfolding new_stats
  new qid sqsize slots sqhd_disabled = record {
    slots = slots;
    sqsize = sqsize;
    qid = qid;
    sqhd = 0;
    sqhd_disabled = sqhd_disabled;
    stats = new_stats qid;
  }

  -- `advance_sqhd`: the remainder by a size of 0 panics.
  unfoldable pub advance_sqhd : QueueCore C → Exec (ℕ × QueueCore C)
  advance_sqhd q =
      let next = add_u16 q.sqhd 1 % q.sqsize in
      if q.sqhd_disabled
      then returns (0, q)
      else if q.sqsize == 0
      then panics
      else returns (next, record q { sqhd = next })
