-- ===== src/SendList/Tests.antt =====
-- crates/ioutgt-core/src/slotq.rs: the theorems on the send list at concrete lists.
use ioutgt.Base.{ℕ, ◌≡◌, refl, true, false, List, [], ◌∷◌, ◌++◌, none, some}
use ioutgt.SendList.{SendList, push, poll_next, close, new}
use ioutgt.SendList.Fifo.{
  Call, pushes, takes, polls, closes, run, pushed, is_pending, run-work, parked_woken,
}

abbrev queued : SendList ℕ
queued = record { work = 4 ∷ []; waker = none; closed = false }

abbrev script : List (Call ℕ)
script = pushes 6 ∷ takes ∷ polls 1 ∷ polls 1 ∷ pushes 8 ∷ closes ∷ []

run-work_example : (run queued script).1 ++ (run queued script).0.work ≡ 4 ∷ pushed script
run-work_example = run-work queued script

idle_pending : is_pending (poll_next (new ℕ) 2).0 ≡ true
unfolding poll_next new
idle_pending = refl

parked_woken_example :
    ((push (poll_next (new ℕ) 2).1 7).1 ≡ some 2) × ((close (poll_next (new ℕ) 2).1).1 ≡ some 2)
parked_woken_example = parked_woken (new ℕ) 2 7 idle_pending
