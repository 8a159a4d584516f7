-- ===== src/Pool/Leases.antt =====
-- crates/ioutgt-core/src/pool.rs: dropping a leased buffer.
use ioutgt.Base.{
  ℕ, ◌+◌, ◌≤◌, ◌<◌, ◌^◌, ◌≡◌, refl, List, [], ◌∷◌, returns, ◌>>=◌, Ret, Ret->>=, Ret-map, arith,
  leb, false, add_u32,
}
use ioutgt.Pool.{
  BufPool, Run, Seg, SlotData, Owner, Dropped, dropped, released, drop_data, free_loop, free_segs,
  insert_run, run_of,
}
use ioutgt.Pool.Runs.{IsCoalesced, IsApart, total, insert_run-IsCoalesced}
use ioutgt.Pool.Conserve.{
  count, IsCoalesced-IsBounded, insert_run-count, insert_run-total, IsApart-count,
}
use ioutgt.Pool.Carve.{runs, AllWithin}
use ioutgt.Pool.Alloc.{IsValid, IsCoalesced-total-le}

-- What the loop of `free_segs` makes of the free list.
record Returned (base hi : ℕ) (segs : List Seg) (free : List Run) (freed : ℕ) (r : List Run × ℕ)
    : Type 0 where
  coalesced : IsCoalesced 0 hi r.0
  conserved : (page : ℕ) → count page r.0 ≡ count page (runs base segs) + count page free
  grown : total r.0 ≡ total (runs base segs) + total free
  counted : r.1 ≡ freed + total (runs base segs)

-- One round: the run goes back, and the rest follows.
Returned-seg :
    (base hi : ℕ) (s : Seg) (segs : List Seg) (free : List Run) (freed : ℕ) (r : List Run × ℕ)
    → hi < 2 ^ 32
    → IsCoalesced 0 hi free
    → AllWithin hi (runs base (s ∷ segs))
    → freed + total (runs base (s ∷ segs)) < 2 ^ 32
    → Returned base hi segs (insert_run free (run_of base s)) (add_u32 freed (run_of base s).len) r
    → Returned base hi (s ∷ segs) free freed r
unfolding count total
Returned-seg base hi s segs free freed r b c w f h =
    let bounded = IsCoalesced-IsBounded 0 hi free c in
    record {
      coalesced = h.coalesced;
      conserved = λ page.
          omega
            (arith, h.conserved page, insert_run-count page hi free (run_of base s) b w.1 bounded);
      grown = omega (arith, h.grown, insert_run-total hi free (run_of base s) b w.1 bounded);
      counted = omega (arith, h.counted);
    }

free_loop-Returned :
    (base hi : ℕ) (segs : List Seg) (free : List Run) (freed : ℕ)
    → hi < 2 ^ 32
    → IsCoalesced 0 hi free
    → AllWithin hi (runs base segs)
    → ((page : ℕ) → count page (runs base segs) + count page free ≤ 1)
    → freed + total (runs base segs) < 2 ^ 32
    → Ret (Returned base hi segs free freed) (free_loop base segs free freed)
unfolding free_loop
free_loop-Returned base hi [] free freed b c w once f =
    unfold count total in
    record {
      coalesced = c;
      conserved = λ page. omega arith;
      grown = omega arith;
      counted = omega arith;
    }
free_loop-Returned base hi (s ∷ segs) free freed b c w once f =
    let run : Run = run_of base s in
    let bounded = IsCoalesced-IsBounded 0 hi free c in
    let apart : IsApart run free =
      unfold count in IsApart-count run free hi 0 w.0 c (λ page. omega (arith, once page)) in
    let started : leb (2 ^ 32) run.start ≡ false = ground arith in
    let fits : leb (2 ^ 32) run.len ≡ false = ground arith in
    rw (started, fits)
      (Ret-map (free_loop base segs (insert_run free run) (add_u32 freed run.len))
        (λ r h. Returned-seg base hi s segs free freed r b c w f h)
        (free_loop-Returned base hi segs (insert_run free run) (add_u32 freed run.len) b
          (insert_run-IsCoalesced hi free run (w.0, w.1, b) apart c) w.2
          (λ page.
            unfold count in
            omega (arith, once page, insert_run-count page hi free run b w.1 bounded))
          (unfold total in omega arith)))

pub record IsLease (base npages : ℕ) (d : SlotData) : Type 0 where
  pub from_pool : d.owner ≡ Owner.pool
  pub within : AllWithin npages (runs base d.segs)
  pub size : total (runs base d.segs) ≤ npages

-- What dropping a lease does: its pages are free again, and every parked waker is woken.
pub record Freed (p : BufPool) (d : SlotData) (q : BufPool) (woken : List ℕ) : Type 0 where
  pub valid : IsValid q
  pub same_base : q.base ≡ p.base
  pub same_npages : q.npages ≡ p.npages
  pub conserved :
      (page : ℕ) → count page q.free ≡ count page (runs p.base d.segs) + count page p.free
  pub repaid : q.free_pages ≡ total (runs p.base d.segs) + p.free_pages
  pub all_woken : woken ≡ p.waiters
  pub none_parked : q.waiters ≡ []

abbrev pub DropPost : BufPool → SlotData → Dropped → Type 0
DropPost p d (dropped q woken) = Freed p d q woken
DropPost p d (released q bid) = ⊥

free_segs-Freed :
    (p : BufPool) (d : SlotData)
    → IsValid p
    → IsLease p.base p.npages d
    → ((page : ℕ) → count page (runs p.base d.segs) + count page p.free ≤ 1)
    → Ret (λ r. Freed p d r.0 r.1) (free_segs p d.segs)
unfolding free_segs
free_segs-Freed p d v l once =
    Ret->>= (Returned p.base p.npages d.segs p.free 0) _ (free_loop p.base d.segs p.free 0) _
      (λ (free, freed) h.
        let small = IsCoalesced-total-le 0 p.npages free (omega arith) h.coalesced in
        let paid : add_u32 p.free_pages freed ≡ total (runs p.base d.segs) + p.free_pages =
          omega (arith, h.counted, h.grown, v.counted, v.small) in
        record {
          valid = record {
            coalesced = h.coalesced;
            counted = omega (arith, h.grown, v.counted);
            small = v.small;
            in_memory = v.in_memory;
          };
          same_base = refl;
          same_npages = refl;
          conserved = h.conserved;
          repaid = paid;
          all_woken = refl;
          none_parked = refl;
        })
      (free_loop-Returned p.base p.npages d.segs p.free 0 v.small v.coalesced l.within once
        (omega (arith, l.size, v.small)))

drop_data-pool :
    (p : BufPool) (d : SlotData)
    → d.owner ≡ Owner.pool
    → drop_data p d ≡ (free_segs p d.segs >>= λ (q, woken). returns (dropped q woken))
unfolding drop_data
drop_data-pool p d e = rw (e, drop_data)

-- Dropping a lease that shares no page with the free list never panics. Exactly its pages are free
-- again, the pool stays valid, and every parked waker is woken.
pub drop_data-Freed :
    (p : BufPool) (d : SlotData)
    → IsValid p
    → IsLease p.base p.npages d
    → ((page : ℕ) → count page (runs p.base d.segs) + count page p.free ≤ 1)
    → Ret (DropPost p d) (drop_data p d)
drop_data-Freed p d v l once = rw (drop_data-pool p d l.from_pool) (
    Ret->>= (λ r. Freed p d r.0 r.1) (DropPost p d) (free_segs p d.segs) _ (λ (q, woken) h. h)
      (free_segs-Freed p d v l once))
