-- ===== src/SendList.antt =====
-- crates/ioutgt-core/src/slotq.rs: `SendList`, the ordered work queue that a send loop drains. A call
-- gives the new list, its answer, and the waker that it wakes.
pub mod Fifo
pub mod Tests
use ioutgt.Base.{ℕ, Bool, true, false, List, [], ◌∷◌, ◌++◌, Option, none, some, if◌then◌else◌}

-- What a poll says.
pub data Poll (A : Type 0) : Type 0 where
  pending : Poll A
  done : A → Poll A

-- The front of the deque is the head of the list.
pub record SendList (W : Type 0) : Type 0 where
  pub work : List W
  pub waker : Option ℕ
  pub closed : Bool

module _ {W : Type 0} where
  unfoldable pub push : SendList W → W → SendList W × Option ℕ
  push l w = (record l { work = l.work ++ (w ∷ []); waker = none }, l.waker)

  pub try_next : SendList W → Option W × SendList W
  try_next l = elim l.work [ [] ↦ (none, l) | w ∷ rest ↦ (some w, record l { work = rest }) ]

  -- Pending work first, `none` once closed, and else the waker is parked.
  pub poll_next : SendList W → ℕ → Poll (Option W) × SendList W
  poll_next l waker = elim l.work [
    | [] ↦ if l.closed then (done none, l) else (pending, record l { waker = some waker })
    | w ∷ rest ↦ (done (some w), record l { work = rest })
  ]

  pub close : SendList W → SendList W × Option ℕ
  close l = (record l { waker = none; closed = true }, l.waker)

-- `with_capacity` makes an empty deque.
pub new : (W : Type 0) → SendList W
new W = record { work = []; waker = none; closed = false }
