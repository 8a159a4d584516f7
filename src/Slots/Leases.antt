-- ===== src/Slots/Leases.antt =====
-- crates/ioutgt-core/src/slotq.rs: a poll for the buffer of a slot that has none.
use ioutgt.Base.{
  ℕ, ◌≡◌, refl, ap, Bool, true, false, List, [], ◌∷◌, ◌++◌, Exec, returns, panics, Option, none,
  some, Ret, Ret->>=, get_elem?-set,
}
use ioutgt.Pool.{BufPool, SlotData, alloc, poll_alloc, park, drop_data, empty_data, page_count}
use ioutgt.Pool.Alloc.{IsValid, AllocPost, alloc-AllocPost}
use ioutgt.Slots.{Slot, SlotArray, Event, set_data, discard, lease_into, poll_lease}
use ioutgt.Slots.Lifecycle.{Holds, slot-Holds}

-- A poll that got a buffer, or one that found no room: the pool has the waker more.
abbrev PollPost : BufPool → ℕ → ℕ → Option SlotData × BufPool → Type 0
PollPost p len waker (some d, q) = Unit {0}
PollPost p len waker (none, q) =
    (alloc p len ≡ returns (none, p)) × (q ≡ record p { waiters = p.waiters ++ (waker ∷ []) })

with_equation :
    {A : Type 0} (P : A → Type 0) (m : Exec A) → Ret P m → Ret (λ a. P a × (m ≡ returns a)) m
with_equation P (returns a) h = (h, refl)
with_equation P panics h = h

poll_alloc-PollPost :
    (p : BufPool) (len waker : ℕ) → IsValid p → Ret (PollPost p len waker) (poll_alloc p len waker)
unfolding poll_alloc
poll_alloc-PollPost p len waker v =
    Ret->>= (λ r. AllocPost p (page_count len) r × (alloc p len ≡ returns r)) (PollPost p len waker)
      (alloc p len) _ (λ r (h, e). parked r.0 r.1 h e)
      (with_equation (AllocPost p (page_count len)) (alloc p len) (alloc-AllocPost p len v))
  where
    parked :
        (d : Option SlotData) (q : BufPool)
        → AllocPost p (page_count len) (d, q)
        → alloc p len ≡ returns (d, q)
        → Ret (PollPost p len waker) (park waker d q)
    parked none q h e =
        (rw h at e, ap (λ (t : BufPool). record t { waiters = t.waiters ++ (waker ∷ []) }) h)
    parked (some d) q h e = tt

module _ {C : Type 0} where
  -- The slot is still there, with some buffer.
  abbrev pub StillHolds : ℕ → Bool × SlotArray C × List Event → Type 0
  StillHolds tag r = (s : Slot C) × Holds r.1 tag s

  -- A poll of the lease: the slot has a buffer, or there was none of that length and the waker waits in
  -- the pool, while nothing else changed.
  abbrev pub LeasePost :
      SlotArray C → (tag len waker : ℕ) → Bool × SlotArray C × List Event → Type 0
  LeasePost a tag len waker (true, slots, events) = StillHolds tag (true, slots, events)
  LeasePost a tag len waker (false, slots, events) =
      (alloc a.pool len ≡ returns (none, a.pool))
      × (slots ≡ record a { pool = record (a.pool) { waiters = a.pool.waiters ++ (waker ∷ []) } })
      × (events ≡ [])

  lease_into-LeasePost :
      (a : SlotArray C) (tag len waker : ℕ) (s : Slot C) (r : Option SlotData × BufPool)
      → Holds a tag s
      → s.slot_data ≡ empty_data
      → PollPost a.pool len waker r
      → Ret (LeasePost a tag len waker) (lease_into a tag r)
  unfolding lease_into set_data discard drop_data empty_data
  lease_into-LeasePost a tag len waker s (none, p) h e (no_room, w) =
      (no_room, ap (λ (t : BufPool). record a { pool = t }) w, refl)
  lease_into-LeasePost a tag len waker s (some d, p) h e post =
      rw (slot-Holds (record a { pool = p }) tag s h, e)
        (record s { slot_data = d }, get_elem?-set a.slots tag (record s { slot_data = d }) h)

  -- The poll returns, over a valid pool.
  pub poll_lease-LeasePost :
      (a : SlotArray C) (tag waker len : ℕ) (s : Slot C)
      → IsValid a.pool
      → Holds a tag s
      → s.slot_data ≡ empty_data
      → Ret (LeasePost a tag len waker) (poll_lease a tag len waker)
  unfolding poll_lease
  poll_lease-LeasePost a tag waker len s v h e =
      Ret->>= (PollPost a.pool len waker) (LeasePost a tag len waker) (poll_alloc a.pool len waker)
        (λ r. lease_into a tag r) (λ r t. lease_into-LeasePost a tag len waker s r h e t)
        (poll_alloc-PollPost a.pool len waker v)
