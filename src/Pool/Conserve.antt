-- ===== src/Pool/Conserve.antt =====
-- crates/ioutgt-core/src/pool.rs: the free list gains and loses exactly the pages that it is given
-- and asked for.
use ioutgt.Base.{
  ℕ, suc, ◌+◌, ◌≤◌, ◌<◌, ◌^◌, ◌≡◌, refl, List, [], ◌∷◌, inl, inr, arith, ltb, leb, leb→le,
  Bool-cases, ◌&&◌, if◌then◌else◌,
}
use ioutgt.Pool.{Run, merge, insert_after, insert_run, shrink, take_fit}
use ioutgt.Pool.Runs.{IsCoalesced, IsApart, total, Fit, behind-Fit}

-- How often the page lies in the run (0 or 1), and in the runs of a list.
unfoldable pub hits : ℕ → Run → ℕ
hits page r = if leb r.start page && ltb page (r.start + r.len) then 1 else 0

unfoldable pub count : ℕ → List Run → ℕ
count page [] = 0
count page (r ∷ rest) = hits page r + count page rest

-- No end of a run wraps.
abbrev pub IsBounded : ℕ → List Run → Type 0
IsBounded hi [] = Unit {0}
IsBounded hi (r ∷ rest) = (r.start + r.len ≤ hi) × IsBounded hi rest

pub IsCoalesced-IsBounded : (lo hi : ℕ) (rs : List Run) → IsCoalesced lo hi rs → IsBounded hi rs
IsCoalesced-IsBounded lo hi [] c = tt
IsCoalesced-IsBounded lo hi (r ∷ rest) c =
    (c.2, IsCoalesced-IsBounded (suc (r.start + r.len)) hi rest c.3)

merge-count :
    (page hi : ℕ) (r : Run) (rest : List Run)
    → hi < 2 ^ 32
    → r.start + r.len ≤ hi
    → IsBounded hi rest
    → count page (merge r rest) ≡ hits page r + count page rest
unfolding merge count hits
merge-count page hi r [] b e c = refl
merge-count page hi r (n ∷ rest) b e c = ground arith

merge-IsBounded :
    (hi : ℕ) (r : Run) (rest : List Run)
    → hi < 2 ^ 32
    → r.start + r.len ≤ hi
    → IsBounded hi rest
    → IsBounded hi (merge r rest)
unfolding merge
merge-IsBounded hi r [] b e c = (e, tt)
merge-IsBounded hi r (n ∷ rest) b e c = ground arith

insert_after-count :
    (page hi : ℕ) (prev : Run) (rest : List Run) (run : Run)
    → hi < 2 ^ 32
    → run.start + run.len ≤ hi
    → IsBounded hi (prev ∷ rest)
    → count page (insert_after prev rest run) ≡ hits page prev + (hits page run + count page rest)
unfolding insert_after count
insert_after-count page hi prev [] run b e c = omega (
  arith,
  merge-count page hi prev (merge run []) b c.0 (merge-IsBounded hi run [] b e tt),
  merge-count page hi run [] b e tt,
)
insert_after-count page hi prev (r ∷ rest) run b e c = elim (Bool-cases (ltb r.start run.start)) [
  | inl below ↦ rw below (omega (arith, insert_after-count page hi r rest run b e c.1))
  | inr above ↦ rw above (
      omega (
        arith,
        merge-count page hi prev (merge run (r ∷ rest)) b c.0
            (merge-IsBounded hi run (r ∷ rest) b e c.1),
        merge-count page hi run (r ∷ rest) b e c.1,
      ))
]

-- The free list has each page as often as before, and once more those of the run.
pub insert_run-count :
    (page hi : ℕ) (free : List Run) (run : Run)
    → hi < 2 ^ 32
    → run.start + run.len ≤ hi
    → IsBounded hi free
    → count page (insert_run free run) ≡ hits page run + count page free
unfolding insert_run count
insert_run-count page hi [] run b e c = merge-count page hi run [] b e tt
insert_run-count page hi (r ∷ rest) run b e c = elim (Bool-cases (ltb r.start run.start)) [
  | inl below ↦ rw below (omega (arith, insert_after-count page hi r rest run b e c))
  | inr above ↦ rw above (merge-count page hi run (r ∷ rest) b e c)
]

pub shrink-count :
    (page hi : ℕ) (r : Run) (pages : ℕ) (rest : List Run)
    → hi < 2 ^ 32
    → pages ≤ r.len
    → r.start + r.len ≤ hi
    → count page (r ∷ rest)
      ≡ hits page (record { start = r.start; len = pages }) + count page (shrink r pages rest)
unfolding shrink count hits
shrink-count page hi r pages rest b l e = ground arith

-- The pages that `take_fit` takes are those from the start on, and no others.
pub take_fit-count :
    (page hi pages : ℕ) (free : List Run)
    → hi < 2 ^ 32
    → IsBounded hi free
    → Fit
        (λ start left.
          count page free ≡ hits page (record { start = start; len = pages }) + count page left)
        (take_fit pages free)
unfolding take_fit
take_fit-count page hi pages [] b c = tt
take_fit-count page hi pages (r ∷ rest) b c = elim (Bool-cases (leb pages r.len)) [
  | inl fits ↦ rw fits (shrink-count page hi r pages rest b (leb→le _ _ fits) c.0)
  | inr small ↦ rw small (
      behind-Fit _
        (λ start left.
          count page rest ≡ hits page (record { start = start; len = pages }) + count page left)
        r (take_fit pages rest) (λ start left d. unfold count in omega arith)
        (take_fit-count page hi pages rest b c.1))
]

merge-total :
    (hi : ℕ) (r : Run) (rest : List Run)
    → hi < 2 ^ 32
    → r.start + r.len ≤ hi
    → IsBounded hi rest
    → total (merge r rest) ≡ r.len + total rest
unfolding merge total
merge-total hi r [] b e c = refl
merge-total hi r (n ∷ rest) b e c = ground arith

insert_after-total :
    (hi : ℕ) (prev : Run) (rest : List Run) (run : Run)
    → hi < 2 ^ 32
    → run.start + run.len ≤ hi
    → IsBounded hi (prev ∷ rest)
    → total (insert_after prev rest run) ≡ prev.len + (run.len + total rest)
unfolding insert_after total
insert_after-total hi prev [] run b e c = omega (
  arith,
  merge-total hi prev (merge run []) b c.0 (merge-IsBounded hi run [] b e tt),
  merge-total hi run [] b e tt,
)
insert_after-total hi prev (r ∷ rest) run b e c = elim (Bool-cases (ltb r.start run.start)) [
  | inl below ↦ rw below (omega (arith, insert_after-total hi r rest run b e c.1))
  | inr above ↦ rw above (
      omega (
        arith,
        merge-total hi prev (merge run (r ∷ rest)) b c.0
            (merge-IsBounded hi run (r ∷ rest) b e c.1),
        merge-total hi run (r ∷ rest) b e c.1,
      ))
]

pub insert_run-total :
    (hi : ℕ) (free : List Run) (run : Run)
    → hi < 2 ^ 32
    → run.start + run.len ≤ hi
    → IsBounded hi free
    → total (insert_run free run) ≡ run.len + total free
unfolding insert_run total
insert_run-total hi [] run b e c = merge-total hi run [] b e tt
insert_run-total hi (r ∷ rest) run b e c = elim (Bool-cases (ltb r.start run.start)) [
  | inl below ↦ rw below (omega (arith, insert_after-total hi r rest run b e c))
  | inr above ↦ rw above (merge-total hi run (r ∷ rest) b e c)
]

pub shrink-total :
    (r : Run) (pages : ℕ) (rest : List Run)
    → pages ≤ r.len
    → total (r ∷ rest) ≡ pages + total (shrink r pages rest)
unfolding shrink total
shrink-total r pages rest l = ground arith

pub take_fit-total :
    (pages : ℕ) (free : List Run)
    → Fit (λ start left. total free ≡ pages + total left) (take_fit pages free)
unfolding take_fit
take_fit-total pages [] = tt
take_fit-total pages (r ∷ rest) = elim (Bool-cases (leb pages r.len)) [
  | inl fits ↦ rw fits (shrink-total r pages rest (leb→le _ _ fits))
  | inr small ↦ rw small (
      behind-Fit _ (λ start left. total rest ≡ pages + total left) r (take_fit pages rest)
        (λ start left d. unfold total in omega arith) (take_fit-total pages rest))
]

-- A run that shares no page with the list lies apart from it.
pub IsApart-count :
    (run : Run) (rs : List Run) (hi lo : ℕ)
    → 0 < run.len
    → IsCoalesced lo hi rs
    → ((page : ℕ) → hits page run + count page rs ≤ 1)
    → IsApart run rs
unfolding count
IsApart-count run [] hi lo p c once = tt
IsApart-count run (r ∷ rest) hi lo p c once = (
  unfold hits in ground (arith, once r.start, once run.start),
  IsApart-count run rest hi (suc (r.start + r.len)) p c.3 (λ page. omega (arith, once page)),
)
