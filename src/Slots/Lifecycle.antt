-- ===== src/Slots/Lifecycle.antt =====
-- crates/ioutgt-core/src/slotq.rs: each call moves one slot along its lifecycle, and keeps the slots,
-- the stack of tags and the counter in step.
use ioutgt.Base.{
  ℕ, ◌+◌, ◌-◌, ◌<◌, ◌^◌, ◌≡◌, refl, ap, ◌↔◌, add_u16, ◌%◌, true, false, List, [], ◌∷◌, ◌++◌, Option,
  none, some, returns, Ret, arith, ==_iff, length, get_elem?, set,
}
use ioutgt.Pool.{BufPool, empty_data}
use ioutgt.Slots.{
  Slot, SlotState, SlotArray, Event, wakes, same_state, free, receiving, ready, executing,
  responding, slot, put_slot, claim_tag, claim_top, submit, poll_command, begin_respond,
  respond_receiving, release_tag, discard, idle,
}
use ioutgt.Slots.Table.{
  one, occurs, tally, tally-le, free_slot, IsTable, IsValid, move-IsTable, keep-IsTable, tally_room,
  tally_pos,
}

free_of_one : (s : SlotState) → 0 < one free s → s ≡ free
free_of_one free h = refl
free_of_one receiving h = absurd (omega arith)
free_of_one ready h = absurd (omega arith)
free_of_one executing h = absurd (omega arith)
free_of_one responding h = absurd (omega arith)

test : {s t : SlotState} → s ≡ t → same_state s t ≡ true
test {s} {t} e = ground arith

module _ {C : Type 0} where
  -- The slot of the tag is `s`.
  abbrev pub Holds : SlotArray C → ℕ → Slot C → Type 0
  Holds a tag s = get_elem? a.slots tag ≡ some s

  -- What a call leaves: the table is in step, and the slot of the tag alone is replaced, by `s'`.
  pub record Moved (a : SlotArray C) (tag : ℕ) (s' : Slot C) (b : SlotArray C) : Type 0 where
    pub valid : IsValid b
    pub moved : b.slots ≡ set a.slots tag s'
    pub nslots : b.nslots ≡ a.nslots

  pub slot-Holds : (a : SlotArray C) (tag : ℕ) (s : Slot C) → Holds a tag s → slot a tag ≡ returns s
  unfolding slot
  slot-Holds a tag s h = rw (h, slot)

  keep_state :
      (a : SlotArray C) (tag : ℕ) (s s' : Slot C)
      → IsValid a
      → Holds a tag s
      → one free s.state ≡ one free s'.state
      → one executing s.state ≡ one executing s'.state
      → Moved a tag s' (put_slot a tag s')
  keep_state a tag s s' v h f x = record {
    valid = keep-IsTable a.nslots a.slots a.free_tags a.executing_count tag s s' v h f x;
    moved = refl;
    nslots = refl;
  }

  -- `submit` delivers the command of a slot that is receiving, and wakes the slot's task.
  pub submit-Moved :
      (a : SlotArray C) (tag : ℕ) (cmd : C) (s : Slot C)
      → IsValid a
      → Holds a tag s
      → s.state ≡ receiving
      → Ret
          (λ r.
            Moved a tag (record s { cmd = cmd; state = ready; waker = none }) r.0
            × (r.1 ≡ wakes s.waker))
          (submit a tag cmd)
  unfolding submit
  submit-Moved a tag cmd s v h e =
      rw (slot-Holds a tag s h, test e)
        (
          keep_state a tag s (record s { cmd = cmd; state = ready; waker = none }) v h
              (ap (one free) e) (ap (one executing) e),
          refl,
        )

  -- `respond_receiving` fails a command that is still being received; the counter stays.
  pub respond_receiving-Moved :
      (a : SlotArray C) (tag : ℕ) (s : Slot C)
      → IsValid a
      → Holds a tag s
      → s.state ≡ receiving
      → Ret
          (λ r. Moved a tag (record s { state = responding }) r.0 × (r.1 ≡ []))
          (respond_receiving a tag)
  unfolding respond_receiving
  respond_receiving-Moved a tag s v h e =
      rw (slot-Holds a tag s h, test e)
        (
          keep_state a tag s (record s { state = responding }) v h (ap (one free) e)
              (ap (one executing) e),
          refl,
        )

  -- The poll of a slot task takes the command of a ready slot, which then counts as executing.
  pub poll_command-Moved :
      (a : SlotArray C) (tag waker : ℕ) (s : Slot C)
      → IsValid a
      → Holds a tag s
      → s.state ≡ ready
      → Ret
          (λ r. Moved a tag (record s { state = executing }) r.1 × (r.0 ≡ some s.cmd))
          (poll_command a tag waker)
  unfolding poll_command
  poll_command-Moved a tag waker s v h e =
      rw (slot-Holds a tag s h, test e)
        (
          record {
            valid =
                move-IsTable a.nslots a.slots a.free_tags a.free_tags a.executing_count
                  (add_u16 a.executing_count 1) tag s (record s { state = executing }) v h
                  (λ t. rw (ap (one free) e)) (ap (λ n. length a.free_tags + n) (ap (one free) e))
                  (rw (ap (one executing) e) (omega (arith, v.counted, room, v.sized, v.small)));
            moved = refl;
            nslots = refl;
          },
          refl,
        )
    where
      room : tally executing a.slots < length a.slots
      room = tally_room executing a.slots tag s h (ap (one executing) e)

  -- On any other slot it parks the waker.
  pub poll_command_parks :
      (a : SlotArray C) (tag waker : ℕ) (s : Slot C)
      → IsValid a
      → Holds a tag s
      → same_state s.state ready ≡ false
      → Ret
          (λ r. Moved a tag (record s { waker = some waker }) r.1 × (r.0 ≡ none))
          (poll_command a tag waker)
  unfolding poll_command
  poll_command_parks a tag waker s v h e =
      rw (slot-Holds a tag s h, e, Ret)
        (keep_state a tag s (record s { waker = some waker }) v h refl refl, refl)

  -- `begin_respond` ends the execution, and the counter goes down without wrapping.
  pub begin_respond-Moved :
      (a : SlotArray C) (tag : ℕ) (s : Slot C)
      → IsValid a
      → Holds a tag s
      → s.state ≡ executing
      → Ret
          (λ r.
            Moved a tag (record s { state = responding }) r.0
            × (r.0.executing_count + 1 ≡ a.executing_count))
          (begin_respond a tag)
  unfolding begin_respond
  begin_respond-Moved a tag s v h e =
      rw (slot-Holds a tag s h, test e)
        (
          record {
            valid =
                move-IsTable a.nslots a.slots a.free_tags a.free_tags a.executing_count
                  ((a.executing_count + 2 ^ 16 - 1) % 2 ^ 16) tag s
                  (record s { state = responding }) v h (λ t. rw (ap (one free) e))
                  (ap (λ n. length a.free_tags + n) (ap (one free) e))
                  (rw (ap (one executing) e) (omega (arith, some_run, most)));
            moved = refl;
            nslots = refl;
          },
          omega (arith, some_run, most),
        )
    where
      some_run : 0 < a.executing_count
      some_run =
          omega (arith, v.counted, tally_pos executing a.slots tag s h (ap (one executing) e))

      most : a.executing_count < 2 ^ 16
      most = omega (arith, v.counted, tally-le executing a.slots, v.sized, v.small)

  -- What `claim_tag` leaves: the tag on top goes to a slot that was free, and its cursors are reset.
  pub record Claimed (a : SlotArray C) (tag : ℕ) (b : SlotArray C) : Type 0 where
    pub was : Slot C
    pub held : Holds a tag was
    pub was_free : was.state ≡ free
    pub after : Moved a tag (record was { state = receiving; data_len = 0; recv_offset = 0 }) b
    pub popped : a.free_tags ≡ tag ∷ b.free_tags

  -- No tag is given exactly when no slot is free.
  abbrev pub ClaimPost : SlotArray C → Option ℕ × SlotArray C → Type 0
  ClaimPost a (none, b) = (b ≡ a) × (tally free a.slots ≡ 0)
  ClaimPost a (some tag, b) = Claimed a tag b

  free_slot_pos :
      (o : Option (Slot C)) → 0 < free_slot o → (s : Slot C) × (o ≡ some s) × (s.state ≡ free)
  free_slot_pos none h = absurd (omega arith)
  free_slot_pos (some s) h = (s, refl, free_of_one s.state h)

  top_free :
      (a : SlotArray C) (tag : ℕ) (rest : List ℕ)
      → IsValid a
      → a.free_tags ≡ tag ∷ rest
      → (s : Slot C) × (Holds a tag s) × (s.state ≡ free)
  top_free a tag rest v e =
      free_slot_pos (get_elem? a.slots tag)
        (unfold occurs in ground (arith, v.stacked tag, ap (occurs tag) e))

  pop_claimed :
      (a : SlotArray C) (tag : ℕ) (rest : List ℕ) (s s' : Slot C)
      → IsValid a
      → a.free_tags ≡ tag ∷ rest
      → Holds a tag s
      → s.state ≡ free
      → s'.state ≡ receiving
      → IsTable a.nslots (set a.slots tag s') rest a.executing_count
  unfolding occurs
  pop_claimed a tag rest s s' v e h f g =
      move-IsTable a.nslots a.slots a.free_tags rest a.executing_count a.executing_count tag s s' v
        h (λ t. rw (e, f, g) (ground arith)) (rw (e, f, g) (omega arith)) (rw (f, g))

  claim_top-Claimed :
      (a : SlotArray C) (tag : ℕ) (rest : List ℕ)
      → IsValid a
      → a.free_tags ≡ tag ∷ rest
      → Ret (ClaimPost a) (claim_top a tag rest)
  unfolding claim_top
  claim_top-Claimed a tag rest v e =
      let (s, h, f) = top_free a tag rest v e in
      rw (slot-Holds a tag s h, test f)
        (record {
          was = s;
          held = h;
          was_free = f;
          after = record {
            valid =
                pop_claimed a tag rest s
                  (record s { state = receiving; data_len = 0; recv_offset = 0 }) v e h f refl;
            moved = refl;
            nslots = refl;
          };
          popped = e;
        })

  -- `claim_tag` never panics. It takes the tag on top, whose slot was free, or there is no free slot.
  pub claim_tag-ClaimPost : (a : SlotArray C) → IsValid a → Ret (ClaimPost a) (claim_tag a)
  unfolding claim_tag
  claim_tag-ClaimPost a v = claim_from a.free_tags refl
    where
      claim_from :
          (tags : List ℕ)
          → a.free_tags ≡ tags
          → Ret
              (ClaimPost a)
              (elim tags [ [] ↦ returns (none, a) | tag ∷ rest ↦ claim_top a tag rest ])
      claim_from [] e = (refl, omega (arith, v.depth, ap length e))
      claim_from (tag ∷ rest) e = claim_top-Claimed a tag rest v e

  -- What `release_tag` leaves, beside what becomes of the buffer.
  pub record Released (a : SlotArray C) (tag : ℕ) (s : Slot C) (p : BufPool) (events : List Event)
      (r : SlotArray C × List Event) : Type 0 where
    pub after : Moved a tag (record s { state = free; slot_data = empty_data }) r.0
    pub on_top : r.0.free_tags ≡ tag ∷ a.free_tags
    pub pool : r.0.pool ≡ p
    pub none_waits : r.0.tag_waiter ≡ none
    pub caused : r.1 ≡ events ++ wakes a.tag_waiter

  push_released :
      (a : SlotArray C) (tag : ℕ) (s s' : Slot C)
      → IsValid a
      → Holds a tag s
      → s.state ≡ responding
      → s'.state ≡ free
      → IsTable a.nslots (set a.slots tag s') (tag ∷ a.free_tags) a.executing_count
  unfolding occurs
  push_released a tag s s' v h f g =
      move-IsTable a.nslots a.slots a.free_tags (tag ∷ a.free_tags) a.executing_count
        a.executing_count tag s s' v h (λ t. rw (f, g) (ground arith)) (rw (f, g) (omega arith))
        (rw (f, g))

  -- `release_tag` of a responding slot puts its tag on top of the stack and wakes the parked claim,
  -- once the pool has taken the buffer back.
  pub release_tag-Released :
      (a : SlotArray C) (tag : ℕ) (s : Slot C) (p : BufPool) (events : List Event)
      → IsValid a
      → Holds a tag s
      → s.state ≡ responding
      → discard a.pool s.slot_data ≡ returns (p, events)
      → Ret (Released a tag s p events) (release_tag a tag)
  unfolding release_tag
  release_tag-Released a tag s p events v h e d =
      rw (slot-Holds a tag s h, test e, d)
        (record {
          after = record {
            valid =
                push_released a tag s (record s { state = free; slot_data = empty_data }) v h e
                  refl;
            moved = refl;
            nslots = refl;
          };
          on_top = refl;
          pool = refl;
          none_waits = refl;
          caused = refl;
        })

  -- The array is idle exactly when every slot is free.
  pub idle_iff :
      (a : SlotArray C) → IsValid a → (idle a ≡ true) ↔ (tally free a.slots ≡ length a.slots)
  unfolding idle
  idle_iff a v = (
    λ h. omega (arith, (==_iff _ _).0 h, v.depth, v.sized),
    λ h. (==_iff _ _).1 (omega (arith, v.depth, v.sized)),
  )
