-- ===== src/Slots/Tests.antt =====
-- crates/ioutgt-core/src/slotq.rs: the theorems on slots at concrete arrays.
use ioutgt.Base.{
  ℕ, zero, suc, ◌+◌, ◌≡◌, refl, sym, true, [], ◌∷◌, none, some, Ret, ◌↔◌, arith, length, get_elem?,
  returns,
}
use ioutgt.Pool.{BufPool, empty_data, drop_data}
use ioutgt.Slots.{
  Slot, SlotArray, SlotState, free, receiving, ready, executing, responding, new, claim_tag,
  poll_command, begin_respond, release_tag, idle, discard,
}
use ioutgt.Slots.Table.{IsValid, one, occurs, tally, free_slot, new-IsValid}
use ioutgt.Slots.Lifecycle.{
  Moved, ClaimPost, Released, claim_tag-ClaimPost, poll_command-Moved, poll_command_parks,
  begin_respond-Moved, release_tag-Released, idle_iff,
}

abbrev no_pool : BufPool
no_pool = record {
  base = 0;
  npages = 0;
  free = [];
  free_pages = 0;
  waiters = [];
  buf_index = none;
  send_arena = none;
}

abbrev slot_in : SlotState → Slot ℕ
slot_in s = record {
  state = s;
  cmd = 5;
  waker = some 9;
  slot_data = empty_data;
  data_len = 0;
  recv_offset = 0;
}

abbrev fresh : ℕ → SlotArray ℕ
fresh nslots = new nslots no_pool 5

-- An array of one slot that is not free.
abbrev busy : SlotState → ℕ → SlotArray ℕ
busy s n = record {
  nslots = 1;
  slots = slot_in s ∷ [];
  free_tags = [];
  executing_count = n;
  tag_waiter = some 3;
  pool = no_pool;
}

busy_stacked :
    (s : SlotState)
    → one free s ≡ 0
    → (tag : ℕ) → occurs tag [] ≡ free_slot (get_elem? (slot_in s ∷ []) tag)
unfolding occurs
busy_stacked s h zero = sym h
busy_stacked s h (suc tag) = refl

busy-IsValid : (s : SlotState) (n : ℕ) → one free s ≡ 0 → n ≡ one executing s → IsValid (busy s n)
unfolding tally
busy-IsValid s n h k = record {
  sized = refl;
  small = omega arith;
  stacked = busy_stacked s h;
  depth = omega arith;
  counted = omega arith;
}

new-IsValid_slots_example : IsValid (fresh 3)
new-IsValid_slots_example = new-IsValid 3 no_pool 5 (omega arith)

two-IsValid : IsValid (fresh 2)
two-IsValid = new-IsValid 2 no_pool 5 (omega arith)

claim_tag-ClaimPost_example : Ret (ClaimPost (fresh 2)) (claim_tag (fresh 2))
claim_tag-ClaimPost_example = claim_tag-ClaimPost (fresh 2) two-IsValid

poll_command_parks_example :
    Ret
      (λ r.
        Moved (busy receiving 0) 0 (record (slot_in receiving) { waker = some 4 }) r.1
        × (r.0 ≡ none))
      (poll_command (busy receiving 0) 0 4)
poll_command_parks_example =
    poll_command_parks (busy receiving 0) 0 4 (slot_in receiving)
      (busy-IsValid receiving 0 refl refl) refl refl

begin_respond-Moved_example :
    Ret
      (λ r.
        Moved (busy executing 1) 0 (record (slot_in executing) { state = responding }) r.0
        × (r.0.executing_count + 1 ≡ 1))
      (begin_respond (busy executing 1) 0)
begin_respond-Moved_example =
    begin_respond-Moved (busy executing 1) 0 (slot_in executing)
      (busy-IsValid executing 1 refl refl) refl refl

discarded : discard no_pool empty_data ≡ returns (no_pool, [])
unfolding discard drop_data empty_data
discarded = refl

release_tag-Released_example :
    Ret
      (Released (busy responding 0) 0 (slot_in responding) no_pool [])
      (release_tag (busy responding 0) 0)
release_tag-Released_example =
    release_tag-Released (busy responding 0) 0 (slot_in responding) no_pool []
      (busy-IsValid responding 0 refl refl) refl refl discarded

idle_iff_example : (idle (fresh 2) ≡ true) ↔ (tally free (fresh 2).slots ≡ length (fresh 2).slots)
idle_iff_example = idle_iff (fresh 2) two-IsValid

poll_command-Moved_example :
    Ret
      (λ r.
        Moved (busy ready 0) 0 (record (slot_in ready) { state = executing }) r.1 × (r.0 ≡ some 5))
      (poll_command (busy ready 0) 0 4)
poll_command-Moved_example =
    poll_command-Moved (busy ready 0) 0 4 (slot_in ready) (busy-IsValid ready 0 refl refl) refl refl
