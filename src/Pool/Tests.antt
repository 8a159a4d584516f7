-- ===== src/Pool/Tests.antt =====
-- crates/ioutgt-core/src/pool.rs: small runs, and the theorems at concrete pools.
use ioutgt.Base.{
  ℕ, ◌+◌, ◌≤◌, ◌≡◌, refl, List, [], ◌∷◌, map, none, Ret, arith, leb, ◌||◌, inl, inr, take,
}
use ioutgt.Pool.{
  BufPool, Seg, SlotData, pool, Memory, page_count, alloc, new, drop_data, insert_run, write_at,
  for_each_seg, run_of,
}
use ioutgt.Pool.Runs.{IsCoalesced, total, insert_run-IsCoalesced}
use ioutgt.Pool.Conserve.{count, hits, insert_run-count}
use ioutgt.Pool.Carve.{runs}
use ioutgt.Pool.Alloc.{IsValid, AllocPost, alloc-AllocPost, new-IsValid}
use ioutgt.Pool.Outcome.{lends, has_run, lends-alloc}
use ioutgt.Pool.Leases.{IsLease, DropPost, drop_data-Freed}
use ioutgt.Pool.Balance.{
  Books, alloc_op, drop_op, reserve_op, IsBalanced, run, run-IsBalanced, lent,
}
use ioutgt.Pool.Bytes.{addrs, range, read-write_at}

-- Pages 1, 4 and 5 of six are free.
abbrev holed : BufPool
holed = record {
  base = 8192;
  npages = 6;
  free = record { start = 1; len = 1 } ∷ record { start = 4; len = 2 } ∷ [];
  free_pages = 3;
  waiters = 7 ∷ [];
  buf_index = none;
  send_arena = none;
}

holed-IsValid : IsValid holed
unfolding total
holed-IsValid = record {
  coalesced = (omega arith, omega arith, omega arith, (omega arith, omega arith, omega arith, tt));
  counted = refl;
  small = omega arith;
  in_memory = omega arith;
}

-- Pages 2 and 3 are out in one buffer.
abbrev lease : SlotData
lease = record { segs = record { ptr = 16384; len = 8192 } ∷ []; len = 8192; owner = pool }

lease-IsLease : IsLease holed.base holed.npages lease
unfolding total run_of
lease-IsLease = record {
  from_pool = refl;
  within = (omega arith, omega arith, tt);
  size = omega arith;
}

lease_once : (page : ℕ) → count page (runs holed.base lease.segs) + count page holed.free ≤ 1
unfolding count hits run_of
lease_once page = ground arith

alloc-AllocPost_example : Ret (AllocPost holed (page_count 5000)) (alloc holed 5000)
alloc-AllocPost_example = alloc-AllocPost holed 5000 holed-IsValid

lends-alloc_example :
    lends (alloc holed 9000)
    ≡ (has_run (page_count 9000) holed.free || leb (page_count 9000) (total (take 32 holed.free)))
lends-alloc_example = lends-alloc holed 9000 holed-IsValid

drop_data-Freed_example : Ret (DropPost holed lease) (drop_data holed lease)
drop_data-Freed_example = drop_data-Freed holed lease holed-IsValid lease-IsLease lease_once

insert_run-IsCoalesced_example :
    IsCoalesced 0 6 (insert_run holed.free (record { start = 2; len = 2 }))
insert_run-IsCoalesced_example =
    insert_run-IsCoalesced 6 holed.free (record { start = 2; len = 2 })
      (omega arith, omega arith, omega arith) (inl (omega arith), (inr (omega arith), tt))
      holed-IsValid.coalesced

-- A pool of four pages with nothing out.
abbrev fresh : BufPool
fresh = record {
  base = 4096;
  npages = 4;
  free = record { start = 0; len = 4 } ∷ [];
  free_pages = 4;
  waiters = [];
  buf_index = none;
  send_arena = none;
}

abbrev opening : Books
opening = record { pool = fresh; leases = []; reserved = [] }

opening-IsBalanced : IsBalanced opening
unfolding total count hits lent
opening-IsBalanced = record {
  valid = record {
    coalesced = (omega arith, omega arith, omega arith, tt);
    counted = refl;
    small = omega arith;
    in_memory = omega arith;
  };
  leases_ok = tt;
  balanced = λ page. ground arith;
}

run-IsBalanced_example :
    Ret IsBalanced (run opening (alloc_op 5000 ∷ alloc_op 1 ∷ drop_op 1 ∷ reserve_op 4096 ∷ []))
run-IsBalanced_example =
    run-IsBalanced opening (alloc_op 5000 ∷ alloc_op 1 ∷ drop_op 1 ∷ reserve_op 4096 ∷ [])
      opening-IsBalanced

new-IsValid_pool_example : Ret (λ p. IsValid p × (p.free_pages ≡ page_count 16384)) (new 4096 16384)
unfolding page_count
new-IsValid_pool_example = new-IsValid 4096 16384 (omega arith) (omega arith)

-- Two segments, of three bytes and of two.
abbrev segs : List Seg
segs = record { ptr = 100; len = 3 } ∷ record { ptr = 50; len = 2 } ∷ []

abbrev blank : Memory
blank = λ a. 0

read-write_at_example :
    map (write_at segs blank 1 (7 ∷ 8 ∷ 9 ∷ [])).0 (addrs (for_each_seg segs 1 3).0)
    ≡ 7 ∷ 8 ∷ 9 ∷ []
unfolding addrs range
read-write_at_example =
    read-write_at segs blank 1 (7 ∷ 8 ∷ 9 ∷ [])
      (
        ((λ e. omega arith), ((λ e. omega arith), ((λ e. omega arith), ((λ e. omega arith), tt)))),
        (
          ((λ e. omega arith), ((λ e. omega arith), ((λ e. omega arith), tt))),
          (((λ e. omega arith), ((λ e. omega arith), tt)), (((λ e. omega arith), tt), (tt, tt))),
        ),
      )
      (omega arith)

insert_run-count_example :
    count 3 (insert_run holed.free (record { start = 2; len = 2 }))
    ≡ hits 3 (record { start = 2; len = 2 }) + count 3 holed.free
insert_run-count_example =
    insert_run-count 3 6 holed.free (record { start = 2; len = 2 }) (omega arith) (omega arith)
      (omega arith, (omega arith, tt))
