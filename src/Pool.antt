-- ===== src/Pool.antt =====
-- crates/ioutgt-core/src/pool.rs: the page allocator of a queue, and the segment views that it
-- lends. A pointer is a byte address. The fixed array of segments with its `nsegs` is the list of
-- the segments in use. A waker is a number.
pub mod Runs
pub mod Conserve
pub mod Carve
pub mod Alloc
pub mod Outcome
pub mod Leases
pub mod Balance
pub mod Bytes
pub mod Tests
use ioutgt.Base.{
  ℕ, zero, suc, ◌+◌, ◌-◌, ◌*◌, ◌/◌, ◌^◌, min, max, Bool, List, [], ◌∷◌, ◌++◌, Option, none, some,
  Exec, returns, panics, ◌>>=◌, add_u32, sub_u32, sub_u64, ltb, leb, ◌==◌, if◌then◌else◌, length,
  take, drop, ◌||◌, true, false,
}

abbrev pub page_size : ℕ
page_size = 4096

abbrev pub max_segs : ℕ
max_segs = 32

pub record Seg : Type 0 where
  pub ptr : ℕ
  pub len : ℕ

-- `Rc<BufPool>` is the one pool of the queue.
pub data Owner : Type 0 where
  empty owned pool : Owner
  ring : ℕ → Owner

pub record SlotData : Type 0 where
  pub segs : List Seg
  pub len : ℕ
  pub owner : Owner

-- A free run, in pages.
pub record Run : Type 0 where
  pub start : ℕ
  pub len : ℕ

pub record BufPool : Type 0 where
  pub base : ℕ
  pub npages : ℕ
  pub free : List Run
  pub free_pages : ℕ
  pub waiters : List ℕ
  pub buf_index : Option ℕ
  pub send_arena : Option (ℕ × ℕ)

-- `bytes.div_ceil(PAGE).max(1)`
pub page_count : ℕ → ℕ
page_count bytes = max ((bytes + page_size - 1) / page_size) 1

pub page_ptr : BufPool → ℕ → ℕ
page_ptr p page = p.base + page * page_size

-- The two merges of `insert_run`: `r` takes up its right neighbour if they touch.
pub merge : Run → List Run → List Run
merge r [] = r ∷ []
merge r (n ∷ rest) =
    if add_u32 r.start r.len == n.start
    then record { start = r.start; len = add_u32 r.len n.len } ∷ rest
    else r ∷ n ∷ rest

-- The insertion behind `prev`, a run that starts before `run`.
pub insert_after : Run → List Run → Run → List Run
insert_after prev [] run = merge prev (merge run [])
insert_after prev (r ∷ rest) run =
    if ltb r.start run.start
    then prev ∷ insert_after r rest run
    else merge prev (merge run (r ∷ rest))

pub insert_run : List Run → Run → List Run
insert_run [] run = merge run []
insert_run (r ∷ rest) run =
    if ltb r.start run.start then insert_after r rest run else merge run (r ∷ rest)

-- The first `pages` pages leave the run; an empty run leaves the list.
pub shrink : Run → ℕ → List Run → List Run
shrink r pages rest =
    if (r.len - pages) == 0
    then rest
    else record { start = add_u32 r.start pages; len = r.len - pages } ∷ rest

abbrev pub behind : Run → Option (ℕ × List Run) → Option (ℕ × List Run)
behind r none = none
behind r (some (start, rest)) = some (start, r ∷ rest)

-- The first run of at least `pages` pages: its start, and the list without those pages.
pub take_fit : ℕ → List Run → Option (ℕ × List Run)
take_fit pages [] = none
take_fit pages (r ∷ rest) =
    if leb pages r.len then some (r.start, shrink r pages rest) else behind r (take_fit pages rest)

-- The count of the scatter path: what is still needed after the runs of the list, or nothing where
-- that takes more than `max_segs` runs.
pub fits : ℕ → ℕ → List Run → Option ℕ
fits need count [] = some need
fits need count (r ∷ rest) =
    if need == 0
    then some need
    else if ltb max_segs (count + 1)
    then none
    else fits (need - r.len) (count + 1) rest

-- The carving loop of the scatter path. `free[0]` of an empty list and `segs[32]` panic. Where the
-- first run is not used up, `need` is, and the loop ends.
pub carve : BufPool → ℕ → ℕ → List Run → Exec (List Seg × List Run)
carve p need nsegs [] = if need == 0 then returns ([], []) else panics
carve p need nsegs (r ∷ rest) =
    let taken = min need r.len in
    let seg : Seg = record { ptr = page_ptr p r.start; len = taken * page_size } in
    let more = carve p (need - taken) (nsegs + 1) rest in
    if need == 0
    then returns ([], r ∷ rest)
    else if leb max_segs nsegs
    then panics
    else if (r.len - taken) == 0
    then (more >>= λ (segs, free). returns (seg ∷ segs, free))
    else returns (seg ∷ [], record { start = add_u32 r.start taken; len = r.len - taken } ∷ rest)

pub make_lease : BufPool → List Seg → ℕ → SlotData × BufPool
make_lease p segs pages = (
  record { segs = segs; len = pages * page_size; owner = pool },
  record p { free_pages = sub_u32 p.free_pages pages },
)

abbrev pub Allocated : Type 0
Allocated = Exec (Option SlotData × BufPool)

abbrev pub leased : SlotData × BufPool → Allocated
leased (d, p) = returns (some d, p)

pub scatter : BufPool → ℕ → Allocated
unfolding make_lease
scatter p pages = elim (fits pages 0 p.free) [
  | none ↦ returns (none, p)
  | some need ↦
      if ltb 0 need
      then returns (none, p)
      else (carve p pages 0 p.free >>= λ (segs, free).
          leased (make_lease (record p { free = free }) segs pages))
]

pub alloc_pages : BufPool → ℕ → Allocated
unfolding make_lease scatter
alloc_pages p pages = elim (take_fit pages p.free) [
  | none ↦ scatter p pages
  | some (start, free) ↦ leased (
      make_lease (record p { free = free })
        (record { ptr = page_ptr p start; len = pages * page_size } ∷ []) pages)
]

-- `alloc`: `u32::try_from` fails from 2 ^ 32 pages on.
pub alloc : BufPool → ℕ → Allocated
unfolding alloc_pages
alloc p len =
    if leb (2 ^ 32) (page_count len)
    then returns (none, p)
    else if ltb p.free_pages (page_count len)
    then returns (none, p)
    else alloc_pages p (page_count len)

-- One poll of `alloc_await`: without pages the waker is parked.
abbrev pub park : ℕ → Option SlotData → BufPool → Allocated
park waker (some d) q = returns (some d, q)
park waker none q = returns (none, record q { waiters = q.waiters ++ (waker ∷ []) })

unfoldable pub poll_alloc : BufPool → ℕ → ℕ → Allocated
poll_alloc p len waker = alloc p len >>= λ (d, q). park waker d q

-- `new`: `expect` panics from 2 ^ 32 pages on. `base` is where the arena was allocated.
pub new : ℕ → ℕ → Exec BufPool
new base bytes =
    if leb (2 ^ 32) (page_count bytes)
    then panics
    else returns (record {
      base = base;
      npages = page_count bytes;
      free = record { start = 0; len = page_count bytes } ∷ [];
      free_pages = page_count bytes;
      waiters = [];
      buf_index = none;
      send_arena = none;
    })

pub set_buf_index : BufPool → ℕ → BufPool
set_buf_index p idx = record p { buf_index = some idx }

pub take_buf_index : BufPool → Option ℕ × BufPool
take_buf_index p = (p.buf_index, record p { buf_index = none })

-- The pages taken from the free list, if a run had them.
pub reserve_taken : BufPool → ℕ → Option (ℕ × List Run) → Option (ℕ × ℕ) × BufPool
reserve_taken p pages none = (none, p)
reserve_taken p pages (some (start, free)) = (
  some (page_ptr p start, pages * page_size),
  record p {
    free = free;
    free_pages = sub_u32 p.free_pages pages;
    send_arena = some (page_ptr p start, pages * page_size);
  },
)

pub reserve_pages : BufPool → ℕ → Option (ℕ × ℕ) × BufPool
unfolding reserve_taken
reserve_pages p pages =
    if leb (2 ^ 32) pages then (none, p) else reserve_taken p pages (take_fit pages p.free)

-- `reserve_arena`: nothing for a pool that is not registered.
pub reserve_arena : BufPool → ℕ → Option (ℕ × ℕ) × BufPool
unfolding reserve_pages
reserve_arena p bytes = elim p.buf_index [
  | none ↦ (none, p)
  | some idx ↦ reserve_pages p (page_count bytes)
]

-- The run of pages under a segment, as `free_segs` computes it.
pub run_of : ℕ → Seg → Run
run_of base s = record { start = sub_u64 s.ptr base / page_size; len = s.len / page_size }

-- The loop of `free_segs`: the free list and the pages counted, with the two `expect`s.
pub free_loop : ℕ → List Seg → List Run → ℕ → Exec (List Run × ℕ)
unfolding run_of
free_loop base [] free freed = returns (free, freed)
free_loop base (s ∷ segs) free freed =
    let run = run_of base s in
    let rest = free_loop base segs (insert_run free run) (add_u32 freed run.len) in
    if leb (2 ^ 32) run.start || leb (2 ^ 32) run.len then panics else rest

-- `free_segs`: the wakers that are woken come beside the pool.
pub free_segs : BufPool → List Seg → Exec (BufPool × List ℕ)
free_segs p segs = free_loop p.base segs p.free 0 >>= λ (free, freed).
    returns
      (record p { free = free; free_pages = add_u32 p.free_pages freed; waiters = [] }, p.waiters)

-- What dropping a buffer does: pages back to the pool, or one borrow of a ring buffer released.
pub data Dropped : Type 0 where
  dropped : BufPool → List ℕ → Dropped
  released : BufPool → ℕ → Dropped

unfoldable pub drop_data : BufPool → SlotData → Exec Dropped
unfolding free_segs
drop_data p d = elim d.owner [
  | pool ↦ free_segs p d.segs >>= λ (q, woken). returns (dropped q woken)
  | ring bid ↦ returns (released p bid)
  | _ ↦ returns (dropped p [])
]

-- `empty`, and `owned` for a private buffer that the allocator put at `ptr`.
unfoldable pub empty_data : SlotData
empty_data = record { segs = []; len = 0; owner = empty }

pub aligned_len : ℕ → ℕ
aligned_len len = max ((len + page_size - 1) / page_size * page_size) page_size

pub owned_data : ℕ → ℕ → SlotData
unfolding aligned_len
owned_data ptr len = record {
  segs = record { ptr = ptr; len = aligned_len len } ∷ [];
  len = aligned_len len;
  owner = owned;
}

-- The views. `is_contiguous` is asserted by `as_slice` and `as_mut_slice`.
pub is_contiguous : SlotData → Bool
is_contiguous d = length d.segs == 1

pub as_slice : SlotData → Exec Seg
unfolding is_contiguous
as_slice d = elim d.segs [
  | [] ↦ panics
  | s ∷ _ ↦ if is_contiguous d then returns (record { ptr = s.ptr; len = d.len }) else panics
]

-- Memory holds a byte at each address.
abbrev pub Memory : Type 0
Memory = ℕ → ℕ

-- `copy_nonoverlapping` of the bytes to an address.
unfoldable pub copy_to : Memory → ℕ → List ℕ → Memory
copy_to m a [] = m
copy_to m a (b ∷ bytes) = copy_to (λ x. if x == a then b else m x) (a + 1) bytes

-- `write_at` over the segments: the memory, and what of `src` found no room (a failed
-- `debug_assert!` where that is not empty).
unfoldable pub write_at : List Seg → Memory → ℕ → List ℕ → Memory × List ℕ
write_at [] m off src = (m, src)
write_at (s ∷ segs) m off [] = (m, [])
write_at (s ∷ segs) m off (b ∷ src) =
    let room = min (s.len - off) (length (b ∷ src)) in
    if leb s.len off
    then write_at segs m (off - s.len) (b ∷ src)
    else write_at segs (copy_to m (s.ptr + off) (take room (b ∷ src))) 0 (drop room (b ∷ src))

-- `for_each_seg`: the sub-slices that `f` is called with, and the length left at the end.
unfoldable pub for_each_seg : List Seg → ℕ → ℕ → List Seg × ℕ
for_each_seg [] off len = ([], len)
for_each_seg (s ∷ segs) off zero = ([], zero)
for_each_seg (s ∷ segs) off (suc n) =
    let room = min (s.len - off) (suc n) in
    let (chunks, left) = for_each_seg segs 0 (suc n - room) in
    if leb s.len off
    then for_each_seg segs (off - s.len) (suc n)
    else (record { ptr = s.ptr + off; len = room } ∷ chunks, left)

-- The getters of a buffer and of the pool. The index of `owned` and `empty` buffers is none; `ring_index`
-- stands for the `buf_index` of a ring's provider.
pub is_empty : SlotData → Bool
is_empty d = d.len == 0

pub is_pool : SlotData → Bool
is_pool d = elim d.owner [ pool ↦ true | _ ↦ false ]

unfoldable pub covering_index : (ℕ → Option ℕ) → BufPool → SlotData → Option ℕ
covering_index ring_index p d = elim d.owner [
  | pool ↦ p.buf_index
  | ring bid ↦ ring_index bid
  | _ ↦ none
]

pub arena : BufPool → ℕ × ℕ
arena p = (p.base, p.npages * page_size)
