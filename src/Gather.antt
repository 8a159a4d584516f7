-- ===== src/Gather.antt =====
-- crates/ioutgt-uring/src/sendbatch.rs: the gather list of a batch. An entry is a part of memory, so the
-- bytes of a batch are those at the addresses of its entries, in order.
pub mod Resume
pub mod Tests
use ioutgt.Base.{
  ℕ, zero, suc, ◌+◌, ◌-◌, ◌/◌, ◌≤◌, min, max, Bool, true, false, ◌&&◌, List, [], ◌∷◌, ◌++◌, map,
  Option, none, some, ltb, leb, ◌==◌, if◌then◌else◌, length, take, drop,
}
use ioutgt.Pool.{Seg, Memory}
use ioutgt.Pool.Bytes.{addrs, range}

abbrev pub uio_maxiov : ℕ
uio_maxiov = 1024

pub record GatherBatch : Type 0 where
  pub arena_ptr : ℕ
  pub arena_len : ℕ
  pub buf_index : Option ℕ
  pub arena_used : ℕ
  pub iovs : List Seg
  pub iov_cap : ℕ
  pub live : ℕ
  pub payload_bytes : ℕ
  pub payload_items : ℕ

unfoldable pub build : ℕ → ℕ → Option ℕ → ℕ → GatherBatch
build arena_ptr arena_len buf_index iov_cap = record {
  arena_ptr = arena_ptr;
  arena_len = arena_len;
  buf_index = buf_index;
  arena_used = 0;
  iovs = [];
  iov_cap = min iov_cap uio_maxiov;
  live = 0;
  payload_bytes = 0;
  payload_items = 0;
}

-- `new` over the address that the allocator gave.
unfoldable pub new : ℕ → ℕ → ℕ → GatherBatch
new owner arena_bytes iov_cap = build owner (max arena_bytes 4096) none iov_cap

unfoldable pub from_pool_arena : ℕ → ℕ → ℕ → ℕ → GatherBatch
from_pool_arena ptr len buf_index iov_cap = build ptr len (some buf_index) iov_cap

unfoldable pub reset : GatherBatch → GatherBatch
reset b = record b { arena_used = 0; iovs = []; live = 0; payload_bytes = 0; payload_items = 0 }

unfoldable pub note_payload : GatherBatch → ℕ → GatherBatch
note_payload b bytes = record b {
  payload_bytes = b.payload_bytes + bytes;
  payload_items = b.payload_items + 1;
}

unfoldable pub avg_payload : GatherBatch → ℕ
avg_payload b = if b.payload_items == 0 then 0 else b.payload_bytes / b.payload_items

unfoldable pub fits : GatherBatch → ℕ → ℕ → Bool
fits b arena_need iovs_need =
    leb (b.arena_used + arena_need) b.arena_len && leb (length b.iovs + iovs_need) b.iov_cap

-- What the memory holds at the unused part of the arena.
unfoldable pub arena_tail : GatherBatch → Memory → List ℕ
arena_tail b mem =
    map mem
      (addrs (record { ptr = b.arena_ptr + b.arena_used; len = b.arena_len - b.arena_used } ∷ []))

-- What `push_raw` does to the list: the last entry grows if the chunk starts where it ends.
unfoldable pub joined : List Seg → ℕ → ℕ → List Seg
joined [] ptr len = record { ptr = ptr; len = len } ∷ []
joined (s ∷ []) ptr len =
    if s.ptr + s.len == ptr
    then record s { len = s.len + len } ∷ []
    else s ∷ record { ptr = ptr; len = len } ∷ []
joined (s ∷ t ∷ segs) ptr len = s ∷ joined (t ∷ segs) ptr len

unfoldable pub push_raw : GatherBatch → ℕ → ℕ → GatherBatch
push_raw b ptr len = if len == 0 then b else record b { iovs = joined b.iovs ptr len }

unfoldable pub push_arena : GatherBatch → ℕ → GatherBatch
push_arena b len =
    push_raw (record b { arena_used = b.arena_used + len }) (b.arena_ptr + b.arena_used) len

-- The loop of `advance_iovecs` from the entry `live` on: the entries, how many are passed, and whether
-- all are.
unfoldable pub advance_from : List Seg → ℕ → List Seg × ℕ × Bool
advance_from [] sent = ([], 0, true)
advance_from (s ∷ segs) sent =
    let (rest, passed, done) = advance_from segs (sent - s.len) in
    if ltb sent s.len
    then (record { ptr = s.ptr + sent; len = s.len - sent } ∷ segs, 0, false)
    else (s ∷ rest, suc passed, done)

unfoldable pub advance_iovecs : List Seg → ℕ → ℕ → List Seg × ℕ × Bool
advance_iovecs iovs live sent =
    let (rest, passed, done) = advance_from (drop live iovs) sent in
    (take live iovs ++ rest, live + passed, done)

unfoldable pub advance : GatherBatch → ℕ → GatherBatch × Bool
advance b sent =
    let (iovs, live, done) = advance_iovecs b.iovs b.live sent in
    (record b { iovs = iovs; live = live }, done)
