-- ===== src/Slots.antt =====
-- crates/ioutgt-core/src/slotq.rs: the command slots of a queue. A failed `debug_assert` panics, as
-- in a debug build. Calls give the new array and what they cause elsewhere: wakers that are woken,
-- and ring buffers that are released.
pub mod Table
pub mod Lifecycle
pub mod Leases
pub mod Tests
use ioutgt.Base.{
  ℕ, zero, suc, ◌+◌, ◌-◌, ◌≤◌, ◌%◌, ◌^◌, max, Bool, true, false, List, [], ◌∷◌, ◌++◌, map, Option,
  none, some, Exec, returns, panics, ◌>>=◌, add_u16, ◌==◌, if◌then◌else◌, length, get_elem?, set,
  replicate,
}
use ioutgt.Pool
use ioutgt.Pool.{BufPool, SlotData, Dropped, dropped, released, empty_data, owned_data, drop_data}

pub data SlotState : Type 0 where
  free receiving ready executing responding : SlotState

-- `==` of the derived `PartialEq`.
abbrev rank : SlotState → ℕ
rank free = 0
rank receiving = 1
rank ready = 2
rank executing = 3
rank responding = 4

abbrev pub same_state : SlotState → SlotState → Bool
same_state a b = rank a == rank b

pub data Event : Type 0 where
  wake : ℕ → Event
  ring_release : ℕ → Event

abbrev pub wakes : Option ℕ → List Event
wakes none = []
wakes (some w) = wake w ∷ []

-- `debug_assert_eq!(slot.state.get(), …)`
abbrev pub expects {ℓ} : {A : Type ℓ} → SlotState → SlotState → Exec A → Exec A
expects s t k = if same_state s t then k else panics

-- A buffer that goes out of scope.
abbrev pub dropping : Dropped → BufPool × List Event
dropping (dropped p woken) = (p, map wake woken)
dropping (released p bid) = (p, ring_release bid ∷ [])

pub discard : BufPool → SlotData → Exec (BufPool × List Event)
discard p d = drop_data p d >>= λ r. returns (dropping r)

-- `C` is the command stash.
module _ (C : Type 0) where
  pub record Slot : Type 0 where
    pub state : SlotState
    pub cmd : C
    pub waker : Option ℕ
    pub slot_data : SlotData
    pub data_len : ℕ
    pub recv_offset : ℕ

  -- The top of the stack `free_tags` is the head of the list.
  pub record SlotArray : Type 0 where
    pub nslots : ℕ
    pub slots : List Slot
    pub free_tags : List ℕ
    pub executing_count : ℕ
    pub tag_waiter : Option ℕ
    pub pool : BufPool

  abbrev pub Outcome : Type 0
  Outcome = Exec (SlotArray × List Event)

-- `n` tags from `tag` on, the lowest on top.
pub tags_from : ℕ → ℕ → List ℕ
tags_from tag zero = []
tags_from tag (suc n) = tag ∷ tags_from (tag + 1) n

-- The buffer of `lease_or_owned`: a private one at `heap` where the pool could not serve it.
abbrev or_owned : ℕ → ℕ → Option SlotData × BufPool → SlotData × BufPool
or_owned heap len (some d, p) = (d, p)
or_owned heap len (none, p) = (owned_data heap (max len 1), p)

module _ {C : Type 0} where
  pub new_slot : C → Slot C
  new_slot init = record {
    state = free;
    cmd = init;
    waker = none;
    slot_data = empty_data;
    data_len = 0;
    recv_offset = 0;
  }

  -- `new` over the pool that `BufPool::new` made: `(0..nslots).rev()` leaves tag 0 on top.
  pub new : ℕ → BufPool → C → SlotArray C
  unfolding new_slot tags_from
  new nslots pool init = record {
    nslots = nslots;
    slots = replicate nslots (new_slot init);
    free_tags = tags_from 0 nslots;
    executing_count = 0;
    tag_waiter = none;
    pool = pool;
  }

  -- `slot`: an index out of range panics.
  unfoldable pub slot : SlotArray C → ℕ → Exec (Slot C)
  slot a tag = elim (get_elem? a.slots tag) [ none ↦ panics | some s ↦ returns s ]

  abbrev pub put_slot : SlotArray C → ℕ → Slot C → SlotArray C
  put_slot a tag s = record a { slots = set a.slots tag s }

  -- `set_data`: the buffer that was there goes out of scope.
  pub set_data : SlotArray C → ℕ → SlotData → Outcome C
  unfolding slot discard
  set_data a tag d = slot a tag >>= λ s. discard a.pool s.slot_data >>= λ (p, events).
      returns (record (put_slot a tag (record s { slot_data = d })) { pool = p }, events)

  -- `release_data`
  pub release_data : SlotArray C → ℕ → Outcome C
  unfolding set_data
  release_data a tag = set_data a tag empty_data

  pub set_data_len : SlotArray C → ℕ → ℕ → Outcome C
  unfolding slot
  set_data_len a tag len =
      slot a tag >>= λ s. returns (put_slot a tag (record s { data_len = len }), [])

  unfoldable pub set_recv_offset : SlotArray C → ℕ → ℕ → Outcome C
  unfolding slot
  set_recv_offset a tag off =
      slot a tag >>= λ s. returns (put_slot a tag (record s { recv_offset = off }), [])

  pub stash_cmd : SlotArray C → ℕ → C → Outcome C
  unfolding slot
  stash_cmd a tag cmd = slot a tag >>= λ s.
      expects s.state receiving (returns (put_slot a tag (record s { cmd = cmd }), []))

  -- `claim_tag`: no tag, and nothing changed, where the list is empty.
  pub claim_top : SlotArray C → ℕ → List ℕ → Exec (Option ℕ × SlotArray C)
  unfolding slot
  claim_top a tag rest = slot a tag >>= λ s. expects s.state free (
      returns (
        some tag,
        put_slot (record a { free_tags = rest }) tag
            (record s { state = receiving; data_len = 0; recv_offset = 0 }),
      ))

  pub claim_tag : SlotArray C → Exec (Option ℕ × SlotArray C)
  unfolding claim_top
  claim_tag a = elim a.free_tags [ [] ↦ returns (none, a) | tag ∷ rest ↦ claim_top a tag rest ]

  -- One poll of `await_tag`: without a tag the waker is parked.
  abbrev pub park_claim : ℕ → Option ℕ → SlotArray C → Exec (Option ℕ × SlotArray C)
  park_claim waker (some tag) a = returns (some tag, a)
  park_claim waker none a = returns (none, record a { tag_waiter = some waker })

  pub poll_tag : SlotArray C → ℕ → Exec (Option ℕ × SlotArray C)
  unfolding claim_tag
  poll_tag a waker = claim_tag a >>= λ (tag, b). park_claim waker tag b

  unfoldable pub submit : SlotArray C → ℕ → C → Outcome C
  unfolding slot
  submit a tag cmd = slot a tag >>= λ s. expects s.state receiving (
      returns (put_slot a tag (record s { cmd = cmd; state = ready; waker = none }), wakes s.waker))

  -- One poll of `await_command`.
  pub poll_command : SlotArray C → ℕ → ℕ → Exec (Option C × SlotArray C)
  unfolding slot
  poll_command a tag waker = slot a tag >>= λ s.
      if same_state s.state ready
      then returns (
        some s.cmd,
        record (put_slot a tag (record s { state = executing })) {
          executing_count = add_u16 a.executing_count 1;
        },
      )
      else returns (none, put_slot a tag (record s { waker = some waker }))

  -- `begin_respond`: `executing - 1` on `u16` wraps.
  pub begin_respond : SlotArray C → ℕ → Outcome C
  unfolding slot
  begin_respond a tag = slot a tag >>= λ s. expects s.state executing (
      returns (
        record (put_slot a tag (record s { state = responding })) {
          executing_count = (a.executing_count + 2 ^ 16 - 1) % 2 ^ 16;
        },
        [],
      ))

  unfoldable pub respond_receiving : SlotArray C → ℕ → Outcome C
  unfolding slot
  respond_receiving a tag = slot a tag >>= λ s.
      expects s.state receiving (returns (put_slot a tag (record s { state = responding }), []))

  -- `release_tag`: the buffer goes back before the tag can be claimed again.
  pub release_tag : SlotArray C → ℕ → Outcome C
  unfolding slot discard
  release_tag a tag = slot a tag >>= λ s. expects s.state responding (
      discard a.pool s.slot_data >>= λ (p, events). returns (
        record (put_slot a tag (record s { state = free; slot_data = empty_data })) {
          free_tags = tag ∷ a.free_tags;
          tag_waiter = none;
          pool = p;
        },
        events ++ wakes a.tag_waiter,
      ))

  pub idle : SlotArray C → Bool
  idle a = length a.free_tags == a.nslots

  -- `try_lease`: whether the pool could serve it.
  lease_into : SlotArray C → ℕ → Option SlotData × BufPool → Exec (Bool × SlotArray C × List Event)
  unfolding set_data
  lease_into a tag (none, p) = returns (false, record a { pool = p }, [])
  lease_into a tag (some d, p) =
      set_data (record a { pool = p }) tag d >>= λ (b, events). returns (true, b, events)

  pub try_lease : SlotArray C → ℕ → ℕ → Exec (Bool × SlotArray C × List Event)
  unfolding lease_into
  try_lease a tag len = Pool.alloc a.pool len >>= λ r. lease_into a tag r

  pub lease_or_owned : SlotArray C → ℕ → ℕ → ℕ → Outcome C
  unfolding set_data
  lease_or_owned a tag len heap = Pool.alloc a.pool len >>= λ r.
      let (d, p) = or_owned heap len r in set_data (record a { pool = p }) tag d

  -- One poll of `lease_await`: `false` where the waker was parked.
  unfoldable pub poll_lease : SlotArray C → ℕ → ℕ → ℕ → Exec (Bool × SlotArray C × List Event)
  unfolding lease_into
  poll_lease a tag len waker = Pool.poll_alloc a.pool len waker >>= λ r. lease_into a tag r
