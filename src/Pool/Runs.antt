-- ===== src/Pool/Runs.antt =====
-- crates/ioutgt-core/src/pool.rs: the free list stays sorted, in bounds and coalesced.
use ioutgt.Base.{
  ℕ, suc, ◌+◌, ◌≤◌, ◌<◌, ◌^◌, List, [], ◌∷◌, ◌⊎◌, inl, inr, Option, none, some, arith, ltb, leb,
  leb→le, ltb→lt, ltb→le, Bool-cases,
}
use ioutgt.Pool.{Run, merge, insert_after, insert_run, shrink, take_fit, behind}

-- Runs that are not empty, in order, within `lo` and `hi`, and never touch.
abbrev pub IsCoalesced : ℕ → ℕ → List Run → Type 0
IsCoalesced lo hi [] = Unit {0}
IsCoalesced lo hi (r ∷ rest) =
    (lo ≤ r.start)
    × (0 < r.len)
    × (r.start + r.len ≤ hi)
    × IsCoalesced (suc (r.start + r.len)) hi rest

-- The run meets none of the list.
abbrev pub IsApart : Run → List Run → Type 0
IsApart run [] = Unit {0}
IsApart run (r ∷ rest) =
    ((r.start + r.len ≤ run.start) ⊎ (run.start + run.len ≤ r.start)) × IsApart run rest

pub IsCoalesced-mono :
    (lo' lo hi : ℕ) (rs : List Run) → lo' ≤ lo → IsCoalesced lo hi rs → IsCoalesced lo' hi rs
IsCoalesced-mono lo' lo hi [] h c = tt
IsCoalesced-mono lo' lo hi (r ∷ rest) h c = (omega arith, c.1, c.2, c.3)

unfoldable pub total : List Run → ℕ
total [] = 0
total (r ∷ rest) = r.len + total rest

-- Merging with a right neighbour that does not overlap.
merge-IsCoalesced :
    (lo hi : ℕ) (r : Run) (rest : List Run)
    → hi < 2 ^ 32
    → lo ≤ r.start
    → 0 < r.len
    → r.start + r.len ≤ hi
    → IsCoalesced (r.start + r.len) hi rest
    → IsCoalesced lo hi (merge r rest)
unfolding merge
merge-IsCoalesced lo hi r [] b l p e c = omega arith
merge-IsCoalesced lo hi r (n ∷ rest) b l p e c = ground arith

abbrev pub Within : ℕ → Run → Type 0
Within hi run = (0 < run.len) × (run.start + run.len ≤ hi) × (hi < 2 ^ 32)

-- The insertion in front of the runs that start no earlier.
merge_front :
    (lo hi : ℕ) (run : Run) (rest : List Run)
    → Within hi run
    → lo ≤ run.start
    → IsCoalesced (run.start + run.len) hi rest
    → IsCoalesced lo hi (merge run rest)
merge_front lo hi run rest w l c = merge-IsCoalesced lo hi run rest w.2 l w.0 w.1 c

-- A list whose head starts no earlier than `run`, and lies apart from it, starts behind it.
starts_behind :
    (lo hi : ℕ) (run r : Run) (rest : List Run)
    → 0 < run.len
    → run.start ≤ r.start
    → IsApart run (r ∷ rest)
    → IsCoalesced lo hi (r ∷ rest)
    → IsCoalesced (run.start + run.len) hi (r ∷ rest)
starts_behind lo hi run r rest p l a c = (ground arith, c.1, c.2, c.3)

insert_after-IsCoalesced :
    (lo hi : ℕ) (prev : Run) (rest : List Run) (run : Run)
    → Within hi run
    → prev.start < run.start
    → IsApart run (prev ∷ rest)
    → IsCoalesced lo hi (prev ∷ rest)
    → IsCoalesced lo hi (insert_after prev rest run)
unfolding insert_after
insert_after-IsCoalesced lo hi prev [] run w l a c =
    merge-IsCoalesced lo hi prev (merge run []) w.2 c.0 c.1 c.2
      (merge_front (prev.start + prev.len) hi run [] w (ground arith) tt)
insert_after-IsCoalesced lo hi prev (r ∷ rest) run w l a c =
    elim (Bool-cases (ltb r.start run.start)) [
      | inl below ↦ rw below (
        c.0,
        c.1,
        c.2,
        insert_after-IsCoalesced (suc (prev.start + prev.len)) hi r rest run w (ltb→lt _ _ below)
            a.1 c.3,
      )
      | inr above ↦ rw above (
          merge-IsCoalesced lo hi prev (merge run (r ∷ rest)) w.2 c.0 c.1 c.2 (
            merge_front (prev.start + prev.len) hi run (r ∷ rest) w (ground arith)
              (starts_behind _ hi run r rest w.0 (ltb→le _ _ above) a.1 c.3)))
    ]

-- `insert_run` of a run that lies apart keeps the list sorted, in bounds and coalesced.
pub insert_run-IsCoalesced :
    (hi : ℕ) (free : List Run) (run : Run)
    → Within hi run
    → IsApart run free
    → IsCoalesced 0 hi free
    → IsCoalesced 0 hi (insert_run free run)
unfolding insert_run
insert_run-IsCoalesced hi [] run w a c = merge_front 0 hi run [] w (omega arith) tt
insert_run-IsCoalesced hi (r ∷ rest) run w a c = elim (Bool-cases (ltb r.start run.start)) [
  | inl below ↦ rw below (insert_after-IsCoalesced 0 hi r rest run w (ltb→lt _ _ below) a c)
  | inr above ↦ rw above (
      merge_front 0 hi run (r ∷ rest) w (omega arith)
        (starts_behind 0 hi run r rest w.0 (ltb→le _ _ above) a c))
]

-- The pages from the front of a run leave the rest coalesced.
pub shrink-IsCoalesced :
    (lo hi : ℕ) (r : Run) (pages : ℕ) (rest : List Run)
    → hi < 2 ^ 32
    → pages ≤ r.len
    → IsCoalesced lo hi (r ∷ rest)
    → IsCoalesced lo hi (shrink r pages rest)
unfolding shrink
shrink-IsCoalesced lo hi r pages rest b l c =
    ground (arith, IsCoalesced-mono lo (suc (r.start + r.len)) hi rest)

-- A fact of the start and the list that `take_fit` gives, if it finds a run.
abbrev pub Fit : (ℕ → List Run → Type 0) → Option (ℕ × List Run) → Type 0
Fit P none = Unit {0}
Fit P (some (start, left)) = P start left

pub behind-Fit :
    (P Q : ℕ → List Run → Type 0) (r : Run) (o : Option (ℕ × List Run))
    → ((start : ℕ) (left : List Run) → Q start left → P start (r ∷ left))
    → Fit Q o
    → Fit P (behind r o)
behind-Fit P Q r none f q = tt
behind-Fit P Q r (some (start, left)) f q = f start left q

pub take_fit-IsCoalesced :
    (lo hi pages : ℕ) (free : List Run)
    → hi < 2 ^ 32
    → IsCoalesced lo hi free
    → Fit (λ start left. IsCoalesced lo hi left) (take_fit pages free)
unfolding take_fit
take_fit-IsCoalesced lo hi pages [] b c = tt
take_fit-IsCoalesced lo hi pages (r ∷ rest) b c = elim (Bool-cases (leb pages r.len)) [
  | inl fits ↦ rw fits (shrink-IsCoalesced lo hi r pages rest b (leb→le _ _ fits) c)
  | inr small ↦ rw small (
      behind-Fit _ _ r (take_fit pages rest) (λ start left d. (c.0, c.1, c.2, d))
        (take_fit-IsCoalesced (suc (r.start + r.len)) hi pages rest b c.3))
]
