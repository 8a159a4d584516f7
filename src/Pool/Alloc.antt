-- ===== src/Pool/Alloc.antt =====
-- crates/ioutgt-core/src/pool.rs: `alloc` and `reserve_arena` keep a pool valid, never panic, and
-- lend exactly the pages that leave the free list.
use ioutgt.Base.{
  ℕ, zero, suc, ◌+◌, ◌-◌, ◌*◌, ◌≤◌, ◌<◌, ◌^◌, ◌≡◌, refl, List, [], ◌∷◌, inl, inr, Option, none,
  some, ◌>>=◌, Ret, Ret->>=, arith, ltb, leb, lt→ltb, Bool-cases, Option-cases, length,
}
use ioutgt.Pool.Carve.{Carved, carve-Carved, take_fit-Carved, runs, AllWithin}
use ioutgt.Pool.{
  pool, leased, BufPool, Run, Seg, SlotData, page_size, max_segs, page_count, page_ptr, fits, carve,
  make_lease, scatter, alloc_pages, alloc, take_fit, new,
}
use ioutgt.Pool.Runs.{IsCoalesced, total, Fit}
use ioutgt.Pool.Conserve.{count}

-- The arena `[base, base + npages * 4096)` lies in the address space, and `free_pages` is the size
-- of the sorted, coalesced free list within it.
pub record IsValid (p : BufPool) : Type 0 where
  pub coalesced : IsCoalesced 0 p.npages p.free
  pub counted : p.free_pages ≡ total p.free
  pub small : p.npages < 2 ^ 32
  pub in_memory : p.base + p.npages * page_size < 2 ^ 64

-- A lease of a number of pages: what the buffer is, and what it leaves.
pub record Leased (p : BufPool) (pages : ℕ) (d : SlotData) (q : BufPool) : Type 0 where
  pub valid : IsValid q
  pub same_base : q.base ≡ p.base
  pub same_npages : q.npages ≡ p.npages
  pub conserved :
      (page : ℕ) → count page p.free ≡ count page (runs p.base d.segs) + count page q.free
  pub size : total (runs p.base d.segs) ≡ pages
  pub len : d.len ≡ pages * page_size
  pub within : AllWithin p.npages (runs p.base d.segs)
  pub few : length d.segs ≤ max_segs
  pub from_pool : d.owner ≡ pool
  pub paid : p.free_pages ≡ pages + q.free_pages

-- A failed call leaves the pool as it was.
abbrev pub AllocPost : BufPool → ℕ → Option SlotData × BufPool → Type 0
AllocPost p pages (none, q) = q ≡ p
AllocPost p pages (some d, q) = Leased p pages d q

pub IsCoalesced-total-le :
    (lo hi : ℕ) (rs : List Run) → lo ≤ hi → IsCoalesced lo hi rs → total rs ≤ hi - lo
unfolding total
IsCoalesced-total-le lo hi [] l c = omega arith
IsCoalesced-total-le lo hi (r ∷ []) l c = omega arith
IsCoalesced-total-le lo hi (r ∷ s ∷ rest) l c =
    omega (arith, IsCoalesced-total-le (suc (r.start + r.len)) hi (s ∷ rest) (omega arith) c.3)

pub free_pages-le : {p : BufPool} → IsValid p → p.free_pages ≤ p.npages
free_pages-le {p} v =
    omega (arith, v.counted, IsCoalesced-total-le 0 p.npages p.free (omega arith) v.coalesced)

make_lease-Leased :
    (p : BufPool) (pages : ℕ) (segs : List Seg) (left : List Run)
    → IsValid p
    → Carved p 0 p.npages pages 0 p.free (segs, left)
    → let (d, q) = make_lease (record p { free = left }) segs pages in Leased p pages d q
unfolding make_lease
make_lease-Leased p pages segs left v h = record {
  valid = record {
    coalesced = h.left_coalesced;
    counted = omega (arith, h.left, v.counted, free_pages-le v, v.small);
    small = v.small;
    in_memory = v.in_memory;
  };
  same_base = refl;
  same_npages = refl;
  conserved = h.conserved;
  size = h.taken;
  len = refl;
  within = h.within;
  few = omega (arith, h.few);
  from_pool = refl;
  paid = omega (arith, h.left, v.counted, free_pages-le v, v.small);
}

Fit-leased :
    (p : BufPool) (pages : ℕ) (o : Option (ℕ × List Run))
    → IsValid p
    → Fit
        (λ start left.
          Carved p 0 p.npages pages 0 p.free
            (record { ptr = page_ptr p start; len = pages * page_size } ∷ [], left))
        o
    → Ret (AllocPost p pages) (scatter p pages)
    → Ret (AllocPost p pages) (elim o [
      | none ↦ scatter p pages
      | some (start, free) ↦ leased (
          make_lease
            (record p { free = free })
            (record { ptr = page_ptr p start; len = pages * page_size } ∷ [])
            pages)
    ])
Fit-leased p pages none v f s = s
Fit-leased p pages (some (start, left)) v f s = make_lease-Leased p pages _ left v f

-- The scatter path once the count has come out even.
carve_lease :
    (p : BufPool) (pages : ℕ)
    → IsValid p
    → fits pages 0 p.free ≡ some 0
    → Ret (AllocPost p pages) (
        carve p pages 0 p.free >>= λ (segs, free).
        leased (make_lease (record p { free = free }) segs pages))
carve_lease p pages v e =
    Ret->>= (Carved p 0 p.npages pages 0 p.free) _ (carve p pages 0 p.free) _
      (λ (segs, left) h. make_lease-Leased p pages segs left v h)
      (carve-Carved p 0 p.npages pages 0 p.free v.small v.in_memory v.coalesced (omega arith) e)

scatter-AllocPost :
    (p : BufPool) (pages : ℕ) → IsValid p → Ret (AllocPost p pages) (scatter p pages)
unfolding scatter
scatter-AllocPost p pages v = elim (Option-cases (fits pages 0 p.free)) [
  | inl e ↦ rw (e, scatter, Ret) refl
  | inr (zero, e) ↦ rw (e, scatter, Ret) (carve_lease p pages v e)
  | inr (suc need, e) ↦ rw (e, scatter, Ret, lt→ltb 0 (suc need) (omega arith)) refl
]

pub page_count_pos : (bytes : ℕ) → 0 < page_count bytes
unfolding page_count
page_count_pos bytes = omega arith

alloc_pages-AllocPost :
    (p : BufPool) (pages : ℕ)
    → 0 < pages
    → IsValid p
    → Ret (AllocPost p pages) (alloc_pages p pages)
unfolding alloc_pages
alloc_pages-AllocPost p pages z v =
    Fit-leased p pages (take_fit pages p.free) v
      (take_fit-Carved p p.npages pages p.free z v.small v.in_memory v.coalesced)
      (scatter-AllocPost p pages v)

-- On a valid pool `alloc` never panics. It fails and changes nothing, or it lends `page_count len`
-- pages in at most 32 segments, which leave the free list, and the pool stays valid.
pub alloc-AllocPost :
    (p : BufPool) (len : ℕ) → IsValid p → Ret (AllocPost p (page_count len)) (alloc p len)
unfolding alloc
alloc-AllocPost p len v = elim (Bool-cases (leb (2 ^ 32) (page_count len))) [
  | inl big ↦ rw big refl
  | inr fine ↦ elim (Bool-cases (ltb p.free_pages (page_count len))) [
    | inl short ↦ rw (fine, short) refl
    | inr enough ↦
        rw (fine, enough) (alloc_pages-AllocPost p (page_count len) (page_count_pos len) v)
  ]
]

pub new-IsValid :
    (base bytes : ℕ)
    → page_count bytes < 2 ^ 32
    → base + page_count bytes * page_size < 2 ^ 64
    → Ret (λ p. IsValid p × (p.free_pages ≡ page_count bytes)) (new base bytes)
unfolding new total page_count
new-IsValid base bytes small fits = ground arith
