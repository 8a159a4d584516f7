-- ===== src/Pool/Carve.antt =====
-- crates/ioutgt-core/src/pool.rs: what the two paths of `alloc` take from the free list.
use ioutgt.Base.{
  ℕ, suc, ◌+◌, ◌-◌, ◌*◌, ◌≤◌, ◌<◌, ◌^◌, min, ◌≡◌, sym, List, [], ◌∷◌, inl, inr, Option, none, some,
  false, subst, add_u32, Ret, Ret->>=, arith, leb, ◌==◌, Bool-cases, length,
}
use ioutgt.Pool.{
  BufPool, Run, Seg, page_size, max_segs, page_ptr, fits, carve, take_fit, run_of, shrink,
}
use ioutgt.Pool.Runs.{
  IsCoalesced, total, Fit, behind-Fit, take_fit-IsCoalesced, shrink-IsCoalesced, IsCoalesced-mono,
}
use ioutgt.Pool.Conserve.{
  hits, count, IsCoalesced-IsBounded, take_fit-count, take_fit-total, shrink-count, shrink-total,
}

-- A segment that starts at a page of the arena is that run of pages.
pub run_of-seg :
    (base start n hi : ℕ)
    → start + n ≤ hi
    → base + hi * page_size < 2 ^ 64
    → run_of base (record { ptr = base + start * page_size; len = n * page_size })
      ≡ record { start = start; len = n }
unfolding run_of
run_of-seg base start n hi h b = ground arith

abbrev pub runs : ℕ → List Seg → List Run
runs base [] = []
runs base (s ∷ segs) = run_of base s ∷ runs base segs

-- Runs that are not empty and end within the bound.
abbrev pub AllWithin : ℕ → List Run → Type 0
AllWithin hi [] = Unit {0}
AllWithin hi (r ∷ rest) = (0 < r.len) × (r.start + r.len ≤ hi) × AllWithin hi rest

-- What the carving loop hands out and leaves.
pub record Carved (p : BufPool) (lo hi need nsegs : ℕ) (free : List Run) (r : List Seg × List Run)
    : Type 0 where
  pub left_coalesced : IsCoalesced lo hi r.1
  pub conserved : (page : ℕ) → count page free ≡ count page (runs p.base r.0) + count page r.1
  pub taken : total (runs p.base r.0) ≡ need
  pub left : total free ≡ need + total r.1
  pub within : AllWithin hi (runs p.base r.0)
  pub few : nsegs + length r.0 ≤ max_segs

-- The three ways that a round of the loop ends.
carve_done :
    (p : BufPool) (lo hi need nsegs : ℕ) (free : List Run)
    → IsCoalesced lo hi free
    → nsegs ≤ max_segs
    → need ≡ 0
    → Carved p lo hi need nsegs free ([], free)
unfolding count total
carve_done p lo hi need nsegs free c n z = record {
  left_coalesced = c;
  conserved = λ page. omega arith;
  taken = sym z;
  left = omega arith;
  within = tt;
  few = omega arith;
}

carve_used :
    (p : BufPool) (lo hi need nsegs : ℕ) (r : Run) (rest : List Run)
    → hi < 2 ^ 32
    → p.base + hi * page_size < 2 ^ 64
    → IsCoalesced lo hi (r ∷ rest)
    → r.len ≤ need
    → (segs : List Seg) (left : List Run)
    → Carved p (suc (r.start + r.len)) hi (need - r.len) (nsegs + 1) rest (segs, left)
    → Carved p lo hi need nsegs
        (r ∷ rest)
        (record { ptr = page_ptr p r.start; len = r.len * page_size } ∷ segs, left)
unfolding count total page_ptr
carve_used p lo hi need nsegs r rest b m c l segs left h =
    let e = run_of-seg p.base r.start r.len hi c.2 m in
    record {
      left_coalesced =
          IsCoalesced-mono lo (suc (r.start + r.len)) hi left (omega arith) h.left_coalesced;
      conserved = λ page. rw e (omega (arith, h.conserved page));
      taken = rw e (omega (arith, h.taken));
      left = omega (arith, h.left);
      within = rw e (c.1, c.2, h.within);
      few = omega (arith, h.few);
    }

carve_part :
    (p : BufPool) (lo hi need nsegs : ℕ) (r : Run) (rest : List Run)
    → hi < 2 ^ 32
    → p.base + hi * page_size < 2 ^ 64
    → IsCoalesced lo hi (r ∷ rest)
    → 0 < need
    → need < r.len
    → nsegs + 1 ≤ max_segs
    → Carved p lo hi need nsegs
        (r ∷ rest)
        (record { ptr = page_ptr p r.start; len = need * page_size } ∷ [], shrink r need rest)
unfolding count total page_ptr
carve_part p lo hi need nsegs r rest b m c z l n =
    let e = run_of-seg p.base r.start need hi (omega arith) m in
    record {
      left_coalesced = shrink-IsCoalesced lo hi r need rest b (omega arith) c;
      conserved =
          λ page. rw e (omega (arith, shrink-count page hi r need rest b (omega arith) c.2));
      taken = rw e (omega arith);
      left = omega (arith, shrink-total r need rest (omega arith));
      within = rw e (z, omega arith, tt);
      few = omega arith;
    }

fits_step :
    (need nsegs : ℕ) (r : Run) (rest : List Run)
    → (need == 0) ≡ false
    → fits need nsegs (r ∷ rest) ≡ some 0
    → (leb max_segs nsegs ≡ false) × (fits (need - r.len) (nsegs + 1) rest ≡ some 0)
unfolding fits
fits_step need nsegs r rest more f = ground arith

shrink_part :
    (r : Run) (need : ℕ) (rest : List Run)
    → need < r.len
    → shrink r need rest ≡ record { start = add_u32 r.start need; len = r.len - need } ∷ rest
unfolding shrink
shrink_part r need rest l = ground arith

pub carve-Carved :
    (p : BufPool) (lo hi need nsegs : ℕ) (free : List Run)
    → hi < 2 ^ 32
    → p.base + hi * page_size < 2 ^ 64
    → IsCoalesced lo hi free
    → nsegs ≤ max_segs
    → fits need nsegs free ≡ some 0
    → Ret (Carved p lo hi need nsegs free) (carve p need nsegs free)
unfolding carve fits
carve-Carved p lo hi need nsegs [] b m c n f = elim (Bool-cases (need == 0)) [
  | inl done ↦ rw done (carve_done p lo hi need nsegs [] c n (ground arith))
  | inr more ↦ absurd (ground arith)
]
carve-Carved p lo hi need nsegs (r ∷ rest) b m c n f = elim (Bool-cases (need == 0)) [
  | inl done ↦ rw done (carve_done p lo hi need nsegs (r ∷ rest) c n (ground arith))
  | inr more ↦
      let room = fits_step need nsegs r rest more f in
      elim (Bool-cases ((r.len - min need r.len) == 0)) [
        | inl used ↦
            let whole : min need r.len ≡ r.len = ground arith in
            rw (more, room.0, used, whole)
              (Ret->>= (Carved p (suc (r.start + r.len)) hi (need - r.len) (nsegs + 1) rest) _
                (carve p (need - r.len) (nsegs + 1) rest) _
                (λ (segs, left) h.
                  carve_used p lo hi need nsegs r rest b m c (ground arith) segs left h)
                (carve-Carved p (suc (r.start + r.len)) hi (need - r.len) (nsegs + 1) rest b m c.3
                  (ground arith) room.1))
        | inr part ↦
            let last : min need r.len ≡ need = ground arith in
            rw (more, room.0, part, last)
              (subst
                (λ left.
                  Carved p lo hi need nsegs (r ∷ rest)
                    (record { ptr = page_ptr p r.start; len = need * page_size } ∷ [], left))
                (shrink_part r need rest (ground arith))
                (carve_part p lo hi need nsegs r rest b m c (ground arith) (ground arith)
                  (ground arith)))
      ]
]

-- The pages that `take_fit` takes lie within the bound.
take_fit_within :
    (lo hi pages : ℕ) (free : List Run)
    → IsCoalesced lo hi free
    → Fit (λ start left. start + pages ≤ hi) (take_fit pages free)
unfolding take_fit
take_fit_within lo hi pages [] c = tt
take_fit_within lo hi pages (r ∷ rest) c = elim (Bool-cases (leb pages r.len)) [
  | inl fits ↦ rw fits (ground arith)
  | inr small ↦ rw small (
      behind-Fit _ (λ start left. start + pages ≤ hi) r (take_fit pages rest) (λ start left h. h)
        (take_fit_within (suc (r.start + r.len)) hi pages rest c.3))
]

-- Taking one run that is long enough is carving one segment.
Fit-one :
    (p : BufPool) (hi pages : ℕ) (free : List Run) (o : Option (ℕ × List Run))
    → 0 < pages
    → p.base + hi * page_size < 2 ^ 64
    → Fit (λ start left. IsCoalesced 0 hi left) o
    → Fit (λ start left. start + pages ≤ hi) o
    → Fit (λ start left. total free ≡ pages + total left) o
    → ((page : ℕ)
        → Fit
            (λ start left.
              count page free ≡ hits page (record { start = start; len = pages }) + count page left)
            o)
    → Fit
        (λ start left.
          Carved p 0 hi pages 0 free
            (record { ptr = page_ptr p start; len = pages * page_size } ∷ [], left))
        o
Fit-one p hi pages free none z m c w t n = tt
Fit-one p hi pages free (some (start, left)) z m c w t n =
    let e = run_of-seg p.base start pages hi w m in
    unfold page_ptr count total in
    record {
      left_coalesced = c;
      conserved = λ page. rw e (omega (arith, n page));
      taken = rw e (omega arith);
      left = t;
      within = rw e (z, w, tt);
      few = omega arith;
    }

pub take_fit-Carved :
    (p : BufPool) (hi pages : ℕ) (free : List Run)
    → 0 < pages
    → hi < 2 ^ 32
    → p.base + hi * page_size < 2 ^ 64
    → IsCoalesced 0 hi free
    → Fit
        (λ start left.
          Carved p 0 hi pages 0 free
            (record { ptr = page_ptr p start; len = pages * page_size } ∷ [], left))
        (take_fit pages free)
take_fit-Carved p hi pages free z b m c =
    Fit-one p hi pages free (take_fit pages free) z m (take_fit-IsCoalesced 0 hi pages free b c)
      (take_fit_within 0 hi pages free c) (take_fit-total pages free)
      (λ page. take_fit-count page hi pages free b (IsCoalesced-IsBounded 0 hi free c))
