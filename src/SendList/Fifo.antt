-- ===== src/SendList/Fifo.antt =====
-- crates/ioutgt-core/src/slotq.rs: the send list delivers what was pushed, in order and once, and
-- never parks the send loop over work or after closing.
use mathlib.Core.List.{append_assoc, append-nil}
use ioutgt.Base.{
  ℕ, ◌≡◌, refl, sym, ◌∙◌, ap, Bool, true, false, List, [], ◌∷◌, ◌++◌, Option, none, some, arith,
  if◌then◌else◌,
}
use ioutgt.SendList.{SendList, Poll, pending, done, push, try_next, poll_next, close}

-- The calls on the list: those of the producers, and the polls of the send loop.
pub data Call (W : Type 0) : Type 0 where
  pushes : W → Call W
  takes : Call W
  polls : ℕ → Call W
  closes : Call W

module _ {W : Type 0} where
  abbrev given : Option W → List W
  given none = []
  given (some w) = w ∷ []

  abbrev answer : Poll (Option W) → List W
  answer pending = []
  answer (done o) = given o

  -- The list after a call, with the work that the call handed out.
  pub step : SendList W → Call W → SendList W × List W
  step l (pushes w) = ((push l w).0, [])
  step l takes = ((try_next l).1, given (try_next l).0)
  step l (polls waker) = ((poll_next l waker).1, answer (poll_next l waker).0)
  step l closes = ((close l).0, [])

  pub run : SendList W → List (Call W) → SendList W × List W
  run l [] = (l, [])
  run l (c ∷ calls) = ((run (step l c).0 calls).0, (step l c).1 ++ (run (step l c).0 calls).1)

  -- The work that the calls push, in order.
  pub pushed : List (Call W) → List W
  pushed [] = []
  pushed (pushes w ∷ calls) = w ∷ pushed calls
  pushed (takes ∷ calls) = pushed calls
  pushed (polls waker ∷ calls) = pushed calls
  pushed (closes ∷ calls) = pushed calls

  next_work :
      (l : SendList W) (work : List W)
      → l.work ≡ work
      → given (try_next l).0 ++ (try_next l).1.work ≡ work
  unfolding try_next
  next_work l [] e = ground arith
  next_work l (w ∷ rest) e = ground arith

  polled_work :
      (l : SendList W) (waker : ℕ) (work : List W)
      → l.work ≡ work
      → answer (poll_next l waker).0 ++ (poll_next l waker).1.work ≡ work
  unfolding poll_next
  polled_work l waker [] e = ground arith
  polled_work l waker (w ∷ rest) e = ground arith

  step_work :
      (l : SendList W) (c : Call W) → (step l c).1 ++ (step l c).0.work ≡ l.work ++ pushed (c ∷ [])
  unfolding step pushed push close
  step_work l (pushes w) = refl
  step_work l takes = next_work l l.work refl ∙ sym (append-nil l.work)
  step_work l (polls waker) = polled_work l waker l.work refl ∙ sym (append-nil l.work)
  step_work l closes = sym (append-nil l.work)

  pushed-cons :
      (c : Call W) (calls : List (Call W)) → pushed (c ∷ calls) ≡ pushed (c ∷ []) ++ pushed calls
  unfolding pushed
  pushed-cons (pushes w) calls = refl
  pushed-cons takes calls = refl
  pushed-cons (polls waker) calls = refl
  pushed-cons closes calls = refl

  -- Whatever the calls and their order: what was handed out, and then what is still queued, is what
  -- was queued at first, and then what was pushed.
  pub run-work :
      (l : SendList W) (calls : List (Call W))
      → (run l calls).1 ++ (run l calls).0.work ≡ l.work ++ pushed calls
  unfolding run
  run-work l [] = unfold pushed in sym (append-nil l.work)
  run-work l (c ∷ calls) =
      append_assoc (step l c).1 (run (step l c).0 calls).1 (run (step l c).0 calls).0.work
      ∙ ap (◌++◌ (step l c).1) (run-work (step l c).0 calls)
      ∙ sym (append_assoc (step l c).1 (step l c).0.work (pushed calls))
      ∙ ap (λ t. t ++ pushed calls) (step_work l c)
      ∙ append_assoc l.work (pushed (c ∷ [])) (pushed calls)
      ∙ ap (◌++◌ l.work) (sym (pushed-cons c calls))

  abbrev pub is_pending : Poll (Option W) → Bool
  is_pending pending = true
  is_pending (done o) = false

  abbrev pub no_work : List W → Bool
  no_work [] = true
  no_work (w ∷ rest) = false

  pending_from :
      (l : SendList W) (waker : ℕ) (work : List W)
      → l.work ≡ work
      → is_pending (poll_next l waker).0 ≡ (if l.closed then false else no_work work)
  unfolding poll_next
  pending_from l waker [] e = ground arith
  pending_from l waker (w ∷ rest) e = ground arith

  -- A poll parks exactly on an open list with no work.
  pub poll_next_pending :
      (l : SendList W) (waker : ℕ)
      → is_pending (poll_next l waker).0 ≡ (if l.closed then false else no_work l.work)
  poll_next_pending l waker = pending_from l waker l.work refl

  woken_from :
      (l : SendList W) (waker : ℕ) (w : W) (work : List W)
      → l.work ≡ work
      → is_pending (poll_next l waker).0 ≡ true
      → ((push (poll_next l waker).1 w).1 ≡ some waker)
        × ((close (poll_next l waker).1).1 ≡ some waker)
  unfolding poll_next push close
  woken_from l waker w [] e h = ground arith
  woken_from l waker w (v ∷ rest) e h = ground arith

  -- A send loop that has parked is woken by the next push, and by closing.
  pub parked_woken :
      (l : SendList W) (waker : ℕ) (w : W)
      → is_pending (poll_next l waker).0 ≡ true
      → ((push (poll_next l waker).1 w).1 ≡ some waker)
        × ((close (poll_next l waker).1).1 ≡ some waker)
  parked_woken l waker w h = woken_from l waker w l.work refl h
