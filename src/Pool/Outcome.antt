-- ===== src/Pool/Outcome.antt =====
-- crates/ioutgt-core/src/pool.rs: when exactly `alloc` lends, and that one run is preferred.
use ioutgt.Pool.Carve.{Carved, carve-Carved}
use ioutgt.Base.{
  ◌∙◌, Bool, true, false, ◌||◌, ℕ, zero, suc, ◌+◌, ◌-◌, ◌≤◌, ◌<◌, ◌^◌, ◌≡◌, refl, List, [], ◌∷◌,
  inl, inr, Option, none, some, Exec, returns, panics, ◌>>=◌, Ret, arith, ltb, leb, leb→le, ltb→lt,
  lt→ltb, ◌==◌, Bool-cases, Option-cases, take,
}
use ioutgt.Pool.{
  BufPool, Run, Seg, SlotData, max_segs, page_count, fits, carve, Allocated, leased, behind,
  make_lease, scatter, alloc_pages, alloc, take_fit, is_contiguous,
}
use ioutgt.Pool.Runs.{total}
use ioutgt.Pool.Alloc.{IsValid, free_pages-le}

-- Some run of the list has `pages` pages.
unfoldable pub has_run : ℕ → List Run → Bool
has_run pages [] = false
has_run pages (r ∷ rest) = leb pages r.len || has_run pages rest

abbrev found : Option (ℕ × List Run) → Bool
found none = false
found (some _) = true

abbrev even : Option ℕ → Bool
even none = false
even (some need) = need == 0

-- Whether the call came back with a buffer.
abbrev pub lends : Allocated → Bool
lends (returns (some d, q)) = true
lends (returns (none, q)) = false
lends panics = false

found-behind : (r : Run) (o : Option (ℕ × List Run)) → found (behind r o) ≡ found o
found-behind r none = refl
found-behind r (some (start, left)) = refl

found-take_fit : (pages : ℕ) (free : List Run) → found (take_fit pages free) ≡ has_run pages free
unfolding take_fit has_run
found-take_fit pages [] = refl
found-take_fit pages (r ∷ rest) =
    ground (arith, found-behind r (take_fit pages rest), found-take_fit pages rest)

-- The count comes out even exactly when the first runs, as many as are allowed, have the pages.
even-fits :
    (need count room : ℕ) (free : List Run)
    → count + room ≡ max_segs
    → even (fits need count free) ≡ leb need (total (take room free))
unfolding fits total
even-fits need count zero [] c = ground arith
even-fits need count (suc room) [] c = ground arith
even-fits need count zero (r ∷ rest) c = ground arith
even-fits need count (suc room) (r ∷ rest) c =
    ground (arith, even-fits (need - r.len) (count + 1) room rest)

lends-leased :
    (p : BufPool) (pages : ℕ) (P : List Seg × List Run → Type 0) (m : Exec (List Seg × List Run))
    → Ret P m
    → lends (m >>= λ (segs, free). leased (make_lease (record p { free = free }) segs pages)) ≡ true
unfolding make_lease
lends-leased p pages P (returns (segs, free)) h = refl
lends-leased p pages P panics h = absurd h

lends-scatter-even :
    (p : BufPool) (pages : ℕ) → IsValid p → lends (scatter p pages) ≡ even (fits pages 0 p.free)
unfolding scatter
lends-scatter-even p pages v = elim (Option-cases (fits pages 0 p.free)) [
  | inl e ↦ rw (e, scatter)
  | inr (zero, e) ↦
      rw (e, scatter)
        (lends-leased p pages (Carved p 0 p.npages pages 0 p.free) (carve p pages 0 p.free) (
          carve-Carved p 0 p.npages pages 0 p.free v.small v.in_memory v.coalesced (omega arith) e))
  | inr (suc need, e) ↦ rw (e, scatter, lt→ltb 0 (suc need) (omega arith)) (ground arith)
]

lends-alloc_pages :
    (p : BufPool) (pages : ℕ)
    → IsValid p
    → lends (alloc_pages p pages) ≡ (has_run pages p.free || leb pages (total (take 32 p.free)))
unfolding alloc_pages make_lease
lends-alloc_pages p pages v = elim (Option-cases (take_fit pages p.free)) [
  | inl e ↦
      rw (← found-take_fit pages p.free, e, alloc_pages)
        (lends-scatter-even p pages v ∙ even-fits pages 0 32 p.free refl)
  | inr ((start, left), e) ↦ rw (← found-take_fit pages p.free, e, alloc_pages)
]

has_run-le : (pages : ℕ) (free : List Run) → has_run pages free ≡ true → pages ≤ total free
unfolding has_run total
has_run-le pages [] h = cc
has_run-le pages (r ∷ rest) h = ground (arith, has_run-le pages rest)

total-take-le : (n : ℕ) (free : List Run) → total (take n free) ≤ total free
unfolding total
total-take-le zero free = omega arith
total-take-le (suc n) [] = omega arith
total-take-le (suc n) (r ∷ rest) = omega (arith, total-take-le n rest)

too_few :
    (p : BufPool) (pages : ℕ)
    → total p.free < pages
    → (has_run pages p.free || leb pages (total (take 32 p.free))) ≡ false
too_few p pages h =
    ground
      (arith, has_run-le pages p.free, total-take-le 32 p.free, Bool-cases (has_run pages p.free))

-- On a valid pool `alloc` lends a buffer exactly when some free run has the pages, or the first 32
-- runs have them together.
pub lends-alloc :
    (p : BufPool) (len : ℕ)
    → IsValid p
    → lends (alloc p len)
      ≡ (has_run (page_count len) p.free || leb (page_count len) (total (take 32 p.free)))
unfolding alloc
lends-alloc p len v = elim (Bool-cases (leb (2 ^ 32) (page_count len))) [
  | inl big ↦ rw (
    big,
    too_few p (page_count len) (omega (arith, leb→le _ _ big, v.counted, free_pages-le v, v.small)),
  )
  | inr fine ↦ elim (Bool-cases (ltb p.free_pages (page_count len))) [
    | inl short ↦
        rw (fine, short, too_few p (page_count len) (omega (arith, ltb→lt _ _ short, v.counted)))
    | inr enough ↦ rw (fine, enough) (lends-alloc_pages p (page_count len) v)
  ]
]

abbrev pub contiguous : Option SlotData × BufPool → Bool
contiguous (none, q) = false
contiguous (some d, q) = is_contiguous d

contiguous-alloc_pages :
    (p : BufPool) (pages : ℕ)
    → has_run pages p.free ≡ true
    → Ret (λ r. contiguous r ≡ true) (alloc_pages p pages)
unfolding alloc_pages make_lease is_contiguous
contiguous-alloc_pages p pages h = elim (Option-cases (take_fit pages p.free)) [
  | inl e ↦ absurd (cc (e, found-take_fit pages p.free))
  | inr ((start, left), e) ↦ rw (e, alloc_pages, Ret) refl
]

-- Where some free run has the pages, the buffer is one segment, even if smaller runs come first.
pub contiguous-alloc :
    (p : BufPool) (len : ℕ)
    → IsValid p
    → has_run (page_count len) p.free ≡ true
    → Ret (λ r. contiguous r ≡ true) (alloc p len)
unfolding alloc
contiguous-alloc p len v h =
    let few = has_run-le (page_count len) p.free h in
    let fine : leb (2 ^ 32) (page_count len) ≡ false =
      ground (arith, v.counted, free_pages-le v, v.small) in
    let enough : ltb p.free_pages (page_count len) ≡ false = ground (arith, v.counted) in
    rw (fine, enough) (contiguous-alloc_pages p (page_count len) h)
