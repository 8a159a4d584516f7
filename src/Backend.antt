-- ===== src/Backend.antt =====
-- crates/ioutgt-core/src/backend.rs: what the handlers ask of a store. An operation takes the world of
-- stores and memory, and gives its result with the new world.
use ioutgt.Base.{ℕ, ◌+◌, ◌-◌, ◌/◌, ◌^◌, min, List, [], ◌∷◌, Option, ltb, leb, ◌==◌, if◌then◌else◌}
use ioutgt.Pool.{Seg, Memory}

pub record LbaRange : Type 0 where
  pub slba : ℕ
  pub nlb : ℕ

pub data BackendError : Type 0 where
  out_of_range no_space unsupported : BackendError
  io_error : ℕ → BackendError

pub data IoResult (A : Type 0) : Type 0 where
  ok : A → IoResult A
  err : BackendError → IoResult A

-- `Topology`, and its default, which says nothing.
pub record Topology : Type 0 where
  pub physical_block : ℕ
  pub io_min : ℕ
  pub io_opt : ℕ
  pub discard_granularity : ℕ

abbrev pub no_topology : Topology
no_topology = record { physical_block = 0; io_min = 0; io_opt = 0; discard_granularity = 0 }

-- The trait `Backend`, on a world `W` of stores and memory.
pub record Backend (B W : Type 0) : Type 0 where
  pub block_shift : B → ℕ
  pub nr_blocks : B → ℕ
  pub topology : B → Topology
  pub read_segs : B → W → ℕ → List Seg → ℕ → Option ℕ → IoResult (Unit {0}) × W
  pub write_segs : B → W → ℕ → List Seg → ℕ → Option ℕ → IoResult (Unit {0}) × W
  pub flush : B → W → IoResult (Unit {0}) × W
  pub discard : B → W → List LbaRange → IoResult (Unit {0}) × W
  pub write_zeroes : B → W → LbaRange → IoResult (Unit {0}) × W
  pub memory : W → Memory

-- `check_range`: the end of the range overflows `u64`, or lies behind the device.
unfoldable pub check_range : ℕ → ℕ → ℕ → IoResult (Unit {0})
check_range nr_blocks slba nlb =
    if leb (2 ^ 64) (slba + nlb)
    then err out_of_range
    else if ltb nr_blocks (slba + nlb)
    then err out_of_range
    else ok tt

-- The default of `read_segs` and `write_segs`: one operation for each segment, in order, until the
-- total is reached or an operation fails. `op` is `read` or `write` of bytes at an address.

module _ {W : Type 0} (block_shift : ℕ) (op : W → ℕ → Seg → IoResult (Unit {0}) × W) where
  -- What is left after the operation on a segment; `rest` does it.
  abbrev pub go_on :
      IoResult (Unit {0}) × W → (W → IoResult (Unit {0}) × W) → IoResult (Unit {0}) × W
  go_on (ok _, w) rest = rest w
  go_on (err e, w) rest = (err e, w)

  unfoldable pub each_seg : List Seg → W → ℕ → ℕ → IoResult (Unit {0}) × W
  each_seg [] w cur remaining = (ok tt, w)
  each_seg (s ∷ segs) w cur remaining =
      let taken = min remaining s.len in
      let more = λ (w' : W). each_seg segs w' (cur + taken / 2 ^ block_shift) (remaining - taken) in
      if remaining == 0
      then (ok tt, w)
      else go_on (op w cur (record { ptr = s.ptr; len = taken })) more
