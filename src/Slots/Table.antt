-- ===== src/Slots/Table.antt =====
-- crates/ioutgt-core/src/slotq.rs: the slots, the stack of free tags and the executing counter
-- agree. `move-IsTable` is the one step that every call makes.
use ioutgt.Base.{
  ℕ, zero, suc, ◌+◌, ◌≤◌, ◌<◌, ◌^◌, ◌≡◌, refl, ap, ◌*◌, true, false, List, [], ◌∷◌, Option, none,
  some, arith, ◌==◌, ==_iff, if◌then◌else◌, length, length-set, get_elem?, set, replicate,
  length-replicate, subst, ◌⊎◌, inl, inr, Bool-cases, leb, ltb, ◌&&◌,
}
use ioutgt.Slots.{Slot, SlotState, SlotArray, same_state, free, executing, tags_from, new_slot, new}
use ioutgt.Pool.{BufPool}

-- 1 for a slot in the state, and 0 for any other.
abbrev pub one : SlotState → SlotState → ℕ
one t s = if same_state s t then 1 else 0

-- How often the tag stands on the stack.
unfoldable pub occurs : ℕ → List ℕ → ℕ
occurs tag [] = 0
occurs tag (t ∷ tags) = (if t == tag then 1 else 0) + occurs tag tags

module _ {C : Type 0} where
  -- How many slots are in the state.
  unfoldable pub tally : SlotState → List (Slot C) → ℕ
  tally t [] = 0
  tally t (s ∷ slots) = one t s.state + tally t slots

  abbrev pub free_slot : Option (Slot C) → ℕ
  free_slot none = 0
  free_slot (some s) = one free s.state

  -- A tag is on the stack once if its slot is free, and else not at all.
  pub record IsTable (nslots : ℕ) (slots : List (Slot C)) (tags : List ℕ) (running : ℕ)
      : Type 0 where
    pub sized : length slots ≡ nslots
    pub small : nslots < 2 ^ 16
    pub stacked : (tag : ℕ) → occurs tag tags ≡ free_slot (get_elem? slots tag)
    pub depth : length tags ≡ tally free slots
    pub counted : running ≡ tally executing slots

  abbrev pub IsValid : SlotArray C → Type 0
  IsValid a = IsTable a.nslots a.slots a.free_tags a.executing_count

  tally-set :
      (t : SlotState) (slots : List (Slot C)) (i : ℕ) (s s' : Slot C)
      → get_elem? slots i ≡ some s
      → tally t (set slots i s') + one t s.state ≡ tally t slots + one t s'.state
  unfolding tally
  tally-set t [] i s s' e = absurd (cc)
  tally-set t (x ∷ slots) zero s s' e = let same : x.state ≡ s.state = cc in rw same (omega arith)
  tally-set t (x ∷ slots) (suc i) s s' e = omega (arith, tally-set t slots i s s' e)

  pub tally-le : (t : SlotState) (slots : List (Slot C)) → tally t slots ≤ length slots
  unfolding tally
  tally-le t [] = omega arith
  tally-le t (s ∷ slots) = ground (arith, tally-le t slots)

  pub get_elem?-lt :
      (slots : List (Slot C)) (i : ℕ) {s : Slot C} → get_elem? slots i ≡ some s → i < length slots
  get_elem?-lt [] i e = absurd (cc)
  get_elem?-lt (x ∷ slots) zero e = omega arith
  get_elem?-lt (x ∷ slots) (suc i) e = omega (arith, get_elem?-lt slots i e)

  pub tally_pos :
      (t : SlotState) (slots : List (Slot C)) (i : ℕ) (s : Slot C)
      → get_elem? slots i ≡ some s
      → one t s.state ≡ 1
      → 0 < tally t slots
  unfolding tally
  tally_pos t [] i s e h = absurd (cc)
  tally_pos t (x ∷ slots) zero s e h = let same : x.state ≡ s.state = cc in rw same (omega arith)
  tally_pos t (x ∷ slots) (suc i) s e h = omega (arith, tally_pos t slots i s e h)

  -- A slot in another state leaves room in the tally.
  pub tally_room :
      (t : SlotState) (slots : List (Slot C)) (i : ℕ) (s : Slot C)
      → get_elem? slots i ≡ some s
      → one t s.state ≡ 0
      → tally t slots < length slots
  unfolding tally
  tally_room t [] i s e h = absurd (cc)
  tally_room t (x ∷ slots) zero s e h =
      let same : x.state ≡ s.state = cc in rw same (omega (arith, tally-le t slots))
  tally_room t (x ∷ slots) (suc i) s e h = ground (arith, tally_room t slots i s e h)

  free_slot-set :
      (slots : List (Slot C)) (i j : ℕ) (s s' : Slot C)
      → get_elem? slots i ≡ some s
      → free_slot (get_elem? (set slots i s') j)
        ≡ (if i == j then one free s'.state else free_slot (get_elem? slots j))
  free_slot-set [] i j s s' e = absurd (cc)
  free_slot-set (x ∷ slots) zero zero s s' e = refl
  free_slot-set (x ∷ slots) zero (suc j) s s' e = ground arith
  free_slot-set (x ∷ slots) (suc i) zero s s' e = ground arith
  free_slot-set (x ∷ slots) (suc i) (suc j) s s' e = ground (arith, free_slot-set slots i j s s' e)

  -- A slot is replaced, and the stack and the counter follow its state.
  pub move-IsTable :
      (nslots : ℕ) (slots : List (Slot C)) (tags tags' : List ℕ) (running running' tag : ℕ)
      (s s' : Slot C)
      → IsTable nslots slots tags running
      → get_elem? slots tag ≡ some s
      → ((t : ℕ)
          → occurs t tags' + (if tag == t then one free s.state else 0)
            ≡ occurs t tags + (if tag == t then one free s'.state else 0))
      → length tags' + one free s.state ≡ length tags + one free s'.state
      → running' + one executing s.state ≡ running + one executing s'.state
      → IsTable nslots (set slots tag s') tags' running'
  move-IsTable nslots slots tags tags' running running' tag s s' v e o d c = record {
    sized = omega (arith, length-set slots tag s', v.sized);
    small = v.small;
    stacked = λ t. rw (free_slot-set slots tag t s s' e) (stack_at t (Bool-cases (tag == t)));
    depth = omega (arith, tally-set free slots tag s s' e, v.depth);
    counted = omega (arith, tally-set executing slots tag s s' e, v.counted);
  }
    where
      stack_at :
          (t : ℕ)
          → ((tag == t) ≡ true) ⊎ ((tag == t) ≡ false)
          → occurs t tags' ≡ (if tag == t then one free s'.state else free_slot (get_elem? slots t))
      stack_at t (inl same) =
          let here : tag ≡ t = (==_iff tag t).0 same in
          let found : get_elem? slots t ≡ some s = subst (λ i. get_elem? slots i ≡ some s) here e in
          let now : free_slot (get_elem? slots t) ≡ one free s.state = rw found in
          rw same (omega (arith, rw same at (o t), v.stacked t, now))
      stack_at t (inr other) = rw other (omega (arith, rw other at (o t), v.stacked t))

  -- A step between two states that are neither free nor executing, or that keeps the state.
  pub keep-IsTable :
      (nslots : ℕ) (slots : List (Slot C)) (tags : List ℕ) (running tag : ℕ) (s s' : Slot C)
      → IsTable nslots slots tags running
      → get_elem? slots tag ≡ some s
      → one free s.state ≡ one free s'.state
      → one executing s.state ≡ one executing s'.state
      → IsTable nslots (set slots tag s') tags running
  keep-IsTable nslots slots tags running tag s s' v e f x =
      move-IsTable nslots slots tags tags running running tag s s' v e (λ t. rw f) (rw f) (rw x)

occurs-tags_from :
    (t k n : ℕ) → occurs t (tags_from k n) ≡ (if leb k t && ltb t (k + n) then 1 else 0)
unfolding occurs tags_from
occurs-tags_from t k zero = ground arith
occurs-tags_from t k (suc n) = ground (arith, occurs-tags_from t (k + 1) n)

length-tags_from : (k n : ℕ) → length (tags_from k n) ≡ n
unfolding tags_from
length-tags_from k zero = refl
length-tags_from k (suc n) = ap suc (length-tags_from (k + 1) n)

module _ {C : Type 0} where
  free_slot-replicate :
      (n t : ℕ) (s : Slot C)
      → free_slot (get_elem? (replicate n s) t) ≡ (if ltb t n then one free s.state else 0)
  free_slot-replicate zero t s = ground arith
  free_slot-replicate (suc n) zero s = ground arith
  free_slot-replicate (suc n) (suc t) s = ground (arith, free_slot-replicate n t s)

  tally-replicate :
      (t : SlotState) (n : ℕ) (s : Slot C) → tally t (replicate n s) ≡ n * one t s.state
  unfolding tally
  tally-replicate t zero s = omega arith
  tally-replicate t (suc n) s = grind (arith, tally-replicate t n s)

  -- A new array: all slots free, every tag on the stack.
  pub new-IsValid :
      (nslots : ℕ) (p : BufPool) (init : C) → nslots < 2 ^ 16 → IsValid (new nslots p init)
  unfolding new new_slot
  new-IsValid nslots p init h = record {
    sized = length-replicate nslots (new_slot init);
    small = h;
    stacked = λ t.
        ground (arith, occurs-tags_from t 0 nslots, free_slot-replicate nslots t (new_slot init));
    depth = omega (arith, length-tags_from 0 nslots, tally-replicate free nslots (new_slot init));
    counted = omega (arith, tally-replicate executing nslots (new_slot init));
  }
