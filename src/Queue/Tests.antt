-- ===== src/Queue/Tests.antt =====
-- crates/ioutgt-core/src/queue.rs: the theorem on the heads at a concrete queue.
use ioutgt.Base.{ℕ, ◌≡◌, refl, false, [], ◌∷◌, none, Ret, arith}
use ioutgt.Pool.{BufPool}
use ioutgt.Slots.{SlotArray}
use ioutgt.Queue.{QueueCore, new_stats}
use ioutgt.Queue.Flow.{completions, circular, completions-circular}

abbrev no_pool : BufPool
no_pool = record {
  base = 0;
  npages = 0;
  free = [];
  free_pages = 0;
  waiters = [];
  buf_index = none;
  send_arena = none;
}

abbrev no_slots : SlotArray ℕ
no_slots = record {
  nslots = 0;
  slots = [];
  free_tags = [];
  executing_count = 0;
  tag_waiter = none;
  pool = no_pool;
}

-- A queue of four entries near its end.
abbrev queue : QueueCore ℕ
queue = record {
  slots = no_slots;
  sqsize = 4;
  qid = 1;
  sqhd = 2;
  sqhd_disabled = false;
  stats = new_stats 1;
}

-- The heads are 3, 0, 1.
wraps : circular 4 2 3 ≡ 3 ∷ 0 ∷ 1 ∷ []
unfolding circular
wraps = refl

completions-circular_example : Ret (λ r. r.0 ≡ circular 4 2 3) (completions queue 3)
completions-circular_example =
    completions-circular queue 2 3 (record { within = omega arith; small = omega arith; on = refl })
      refl
