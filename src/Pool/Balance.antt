-- ===== src/Pool/Balance.antt =====
-- crates/ioutgt-core/src/pool.rs: a pool with the buffers that are out. Every page of the arena is
-- in one place: free, in one buffer, or in the reserved region.
use ioutgt.Base.{
  ℕ, zero, suc, ◌+◌, ◌*◌, ◌≤◌, ◌<◌, ◌^◌, ◌≡◌, sym, List, [], ◌∷◌, inl, inr, Option, none, some,
  Exec, returns, ◌>>=◌, Ret, Ret->>=, subst, arith, ltb, leb, Bool-cases, ◌⊎◌, Option-cases,
  get_elem?, All, if◌then◌else◌,
}
use ioutgt.Pool.{
  reserve_taken, reserve_pages, BufPool, Run, SlotData, Dropped, dropped, released, page_size,
  page_count, page_ptr, alloc, drop_data, run_of, take_fit, reserve_arena,
}
use ioutgt.Pool.Runs.{Fit}
use ioutgt.Pool.Conserve.{count}
use ioutgt.Pool.Carve.{Carved, runs, take_fit-Carved}
use ioutgt.Pool.Leases.{IsLease, DropPost, drop_data-Freed}
use ioutgt.Pool.Alloc.{free_pages-le, page_count_pos, IsValid, AllocPost, alloc-AllocPost}

-- A pool with the buffers that are out, and the runs that `reserve_arena` took for good.
pub record Books : Type 0 where
  pub pool : BufPool
  pub leases : List SlotData
  pub reserved : List Run

-- How often the page lies in the buffers that are out.
unfoldable pub lent : ℕ → ℕ → List SlotData → ℕ
lent base page [] = 0
lent base page (d ∷ leases) = count page (runs base d.segs) + lent base page leases

-- Each page of the arena is in exactly one place, and no page lies outside it.
pub record IsBalanced (b : Books) : Type 0 where
  pub valid : IsValid b.pool
  pub leases_ok : All (IsLease b.pool.base b.pool.npages) b.leases
  pub balanced :
      (page : ℕ)
      → count page b.pool.free + lent b.pool.base page b.leases + count page b.reserved
        ≡ (if ltb page b.pool.npages then 1 else 0)

pub data Op : Type 0 where
  alloc_op : ℕ → Op
  drop_op : ℕ → Op
  reserve_op : ℕ → Op

pub remove_at : ℕ → List SlotData → List SlotData
remove_at i [] = []
remove_at zero (d ∷ leases) = leases
remove_at (suc i) (d ∷ leases) = d ∷ remove_at i leases

abbrev granted : Books → Option SlotData × BufPool → Books
granted b (none, q) = record b { pool = q }
granted b (some d, q) = record b { pool = q; leases = d ∷ b.leases }

abbrev taken_back : Books → ℕ → Dropped → Books
taken_back b i (dropped q woken) = record b { pool = q; leases = remove_at i b.leases }
taken_back b i (released q bid) = record b { pool = q; leases = remove_at i b.leases }

abbrev set_aside : Books → Option (ℕ × ℕ) × BufPool → Books
set_aside b (none, q) = record b { pool = q }
set_aside b (some (ptr, len), q) = record b {
  pool = q;
  reserved = run_of b.pool.base (record { ptr = ptr; len = len }) ∷ b.reserved;
}

-- One call on the pool; `drop_op i` drops the buffer at place `i`, if there is one.
pub step : Books → Op → Exec Books
step b (alloc_op len) = alloc b.pool len >>= λ r. returns (granted b r)
step b (drop_op i) = elim (get_elem? b.leases i) [
  | none ↦ returns b
  | some d ↦ drop_data b.pool d >>= λ r. returns (taken_back b i r)
]
step b (reserve_op bytes) = returns (set_aside b (reserve_arena b.pool bytes))

pub run : Books → List Op → Exec Books
run b [] = returns b
run b (op ∷ ops) = step b op >>= λ b'. run b' ops

-- The buffers that are out are leases of the new pool too.
keep_leases :
    (p q : BufPool) (leases : List SlotData)
    → q.base ≡ p.base
    → q.npages ≡ p.npages
    → All (IsLease p.base p.npages) leases
    → All (IsLease q.base q.npages) leases
keep_leases p q leases e n l =
    subst (λ base. All (IsLease base q.npages) leases) (sym e)
      (subst (λ npages. All (IsLease p.base npages) leases) (sym n) l)

keep-IsLease :
    (p q : BufPool) (d : SlotData)
    → q.base ≡ p.base
    → q.npages ≡ p.npages
    → IsLease p.base p.npages d
    → IsLease q.base q.npages d
keep-IsLease p q d e n l = (keep_leases p q (d ∷ []) e n (l, tt)).0

alloc-IsBalanced :
    (b : Books) (len : ℕ) (r : Option SlotData × BufPool)
    → IsBalanced b
    → AllocPost b.pool (page_count len) r
    → IsBalanced (granted b r)
alloc-IsBalanced b len (none, q) v h = rw h v
alloc-IsBalanced b len (some d, q) v h = record {
  valid = h.valid;
  leases_ok = (
    keep-IsLease b.pool q d h.same_base h.same_npages (record {
      from_pool = h.from_pool;
      within = h.within;
      size = omega (arith, h.size, h.paid, free_pages-le v.valid);
    }),
    keep_leases b.pool q b.leases h.same_base h.same_npages v.leases_ok,
  );
  balanced = λ page.
      rw (h.same_base, h.same_npages)
        (unfold lent in omega (arith, h.conserved page, v.balanced page));
}

-- What is out splits into the buffer at a place and the others.
lent-remove_at :
    (base page i : ℕ) (leases : List SlotData) (d : SlotData)
    → get_elem? leases i ≡ some d
    → lent base page leases ≡ count page (runs base d.segs) + lent base page (remove_at i leases)
unfolding lent remove_at
lent-remove_at base page i [] d e = cc
lent-remove_at base page zero (x ∷ leases) d e = ground arith
lent-remove_at base page (suc i) (x ∷ leases) d e =
    omega (arith, lent-remove_at base page i leases d e)

IsLease-get_elem? :
    (base npages i : ℕ) (leases : List SlotData) {d : SlotData}
    → get_elem? leases i ≡ some d
    → All (IsLease base npages) leases
    → IsLease base npages d
IsLease-get_elem? base npages i [] {d} e l = absurd (cc)
IsLease-get_elem? base npages zero (x ∷ leases) {d} e l =
    let same : x ≡ d = cc in subst (IsLease base npages) same l.0
IsLease-get_elem? base npages (suc i) (x ∷ leases) {d} e l =
    IsLease-get_elem? base npages i leases e l.1

All-remove_at :
    (base npages i : ℕ) (leases : List SlotData)
    → All (IsLease base npages) leases
    → All (IsLease base npages) (remove_at i leases)
unfolding remove_at
All-remove_at base npages i [] l = tt
All-remove_at base npages zero (x ∷ leases) l = l.1
All-remove_at base npages (suc i) (x ∷ leases) l = (l.0, All-remove_at base npages i leases l.1)

drop-IsBalanced :
    (b : Books) (i : ℕ) (d : SlotData) (r : Dropped)
    → IsBalanced b
    → get_elem? b.leases i ≡ some d
    → DropPost b.pool d r
    → IsBalanced (taken_back b i r)
drop-IsBalanced b i d (released q bid) v e h = absurd h
drop-IsBalanced b i d (dropped q woken) v e h = record {
  valid = h.valid;
  leases_ok =
      keep_leases b.pool q (remove_at i b.leases) h.same_base h.same_npages
        (All-remove_at b.pool.base b.pool.npages i b.leases v.leases_ok);
  balanced = λ page.
      rw (h.same_base, h.same_npages)
        (omega (
          arith,
          h.conserved page,
          v.balanced page,
          lent-remove_at b.pool.base page i b.leases d e,
        ));
}

-- A page is in one place at most, so a buffer shares none with the free list.
once_of_balance :
    (b : Books) (i : ℕ) (d : SlotData) (page : ℕ)
    → IsBalanced b
    → get_elem? b.leases i ≡ some d
    → count page (runs b.pool.base d.segs) + count page b.pool.free ≤ 1
once_of_balance b i d page v e =
    ground (arith, v.balanced page, lent-remove_at b.pool.base page i b.leases d e)

reserve-Fit :
    (b : Books) (pages : ℕ) (o : Option (ℕ × List Run))
    → IsBalanced b
    → Fit
        (λ start left.
          Carved b.pool 0 b.pool.npages pages 0 b.pool.free
            (record { ptr = page_ptr b.pool start; len = pages * page_size } ∷ [], left))
        o
    → IsBalanced (set_aside b (reserve_taken b.pool pages o))
unfolding reserve_taken
reserve-Fit b pages none v f = v
reserve-Fit b pages (some (start, left)) v f = record {
  valid = record {
    coalesced = f.left_coalesced;
    counted = omega (arith, f.left, v.valid.counted, free_pages-le v.valid, v.valid.small);
    small = v.valid.small;
    in_memory = v.valid.in_memory;
  };
  leases_ok = v.leases_ok;
  balanced = λ page. unfold count in omega (arith, f.conserved page, v.balanced page);
}

reserve_checked :
    (b : Books) (pages : ℕ)
    → 0 < pages
    → IsBalanced b
    → IsBalanced (set_aside b (reserve_pages b.pool pages))
unfolding reserve_pages
reserve_checked b pages z v = elim (Bool-cases (leb (2 ^ 32) pages)) [
  | inl big ↦ rw big v
  | inr fine ↦ rw fine (
      reserve-Fit b pages (take_fit pages b.pool.free) v (
        take_fit-Carved b.pool b.pool.npages pages b.pool.free z v.valid.small v.valid.in_memory
          v.valid.coalesced))
]

reserve_arena_cases :
    (p : BufPool) (bytes : ℕ)
    → (reserve_arena p bytes ≡ (none, p))
      ⊎ (reserve_arena p bytes ≡ reserve_pages p (page_count bytes))
unfolding reserve_arena
reserve_arena_cases p bytes = elim (Option-cases p.buf_index) [
  | inl e ↦ inl (ground arith)
  | inr (idx, e) ↦ inr (ground arith)
]

reserve-IsBalanced :
    (b : Books) (bytes : ℕ) → IsBalanced b → IsBalanced (set_aside b (reserve_arena b.pool bytes))
reserve-IsBalanced b bytes v = elim (reserve_arena_cases b.pool bytes) [
  | inl e ↦ subst (λ r. IsBalanced (set_aside b r)) (sym e) v
  | inr e ↦
      subst (λ r. IsBalanced (set_aside b r)) (sym e)
        (reserve_checked b (page_count bytes) (page_count_pos bytes) v)
]

drop-step : (b : Books) (i : ℕ) → IsBalanced b → Ret IsBalanced (step b (drop_op i))
unfolding step
drop-step b i v = elim (Option-cases (get_elem? b.leases i)) [
  | inl e ↦ rw (e, step, Ret) v
  | inr (d, e) ↦
      rw (e, step)
        (Ret->>= (DropPost b.pool d) IsBalanced (drop_data b.pool d) _
          (λ r h. drop-IsBalanced b i d r v e h)
          (drop_data-Freed b.pool d v.valid
            (IsLease-get_elem? b.pool.base b.pool.npages i b.leases e v.leases_ok)
            (λ page. once_of_balance b i d page v e)))
]

step-IsBalanced : (b : Books) (op : Op) → IsBalanced b → Ret IsBalanced (step b op)
unfolding step
step-IsBalanced b (alloc_op len) v =
    Ret->>= (AllocPost b.pool (page_count len)) IsBalanced (alloc b.pool len) _
      (λ r h. alloc-IsBalanced b len r v h) (alloc-AllocPost b.pool len v.valid)
step-IsBalanced b (drop_op i) v = drop-step b i v
step-IsBalanced b (reserve_op bytes) v = reserve-IsBalanced b bytes v

-- Whatever is allocated, dropped and reserved, in any order: no call panics, the pool stays valid,
-- and each page of the arena is in exactly one place.
pub run-IsBalanced : (b : Books) (ops : List Op) → IsBalanced b → Ret IsBalanced (run b ops)
unfolding run
run-IsBalanced b [] v = v
run-IsBalanced b (op ∷ ops) v =
    Ret->>= IsBalanced IsBalanced (step b op) _ (λ b' v'. run-IsBalanced b' ops v')
      (step-IsBalanced b op v)
