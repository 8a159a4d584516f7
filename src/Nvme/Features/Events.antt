-- ===== src/Nvme/Features/Events.antt =====
-- crates/ioutgt-nvme/src/admin.rs and dispatch.rs: async event requests that are parked, and the notices
-- that complete them.
use ioutgt.Base.{
  ℕ, ◌+◌, ◌≤◌, ◌≡◌, ◌≢◌, refl, true, false, List, [], ◌∷◌, ◌++◌, none, arith, ◌==◌, if◌then◌else◌,
  Bool-cases, inl, inr, ◌⊎◌, subst,
}
use ioutgt.Controller.{has_bits}
use ioutgt.Nvme.{
  AdminState, noticed, contains_event, ns_attr_notice, aen_cfg_ns_attr, new_admin_state,
}
use ioutgt.Nvme.Features.{poll_event}

-- How often a notice is pending.
pub pending : ℕ → List ℕ → ℕ
pending e [] = 0
pending e (x ∷ events) = (if x == e then 1 else 0) + pending e events

-- No request is parked while an event is pending or the connection closes, and the notice is pending
-- once at most.
pub record IsCalm (a : AdminState) : Type 0 where
  pub served : (a.events ≡ []) ⊎ (a.aer_wakers ≡ [])
  pub alive : (a.closing ≡ false) ⊎ (a.aer_wakers ≡ [])
  pub once : pending ns_attr_notice a.events ≤ 1

contains-pending :
    (e : ℕ) (events : List ℕ) → contains_event e events ≡ false → pending e events ≡ 0
unfolding pending
contains-pending e [] h = refl
contains-pending e (x ∷ events) h = elim (Bool-cases (x == e)) [
  | inl same ↦ absurd (cc (rw same at h))
  | inr other ↦ rw other (let rest = contains-pending e events (rw other at h) in omega arith)
]

pending-append : (e : ℕ) (xs ys : List ℕ) → pending e (xs ++ ys) ≡ pending e xs + pending e ys
unfolding pending
pending-append e [] ys = omega arith
pending-append e (x ∷ xs) ys = omega (arith, pending-append e xs ys)

pub noticed-IsCalm : (a : AdminState) → IsCalm a → IsCalm (noticed a).0
unfolding noticed
noticed-IsCalm a v = elim (Bool-cases (has_bits a.aec aen_cfg_ns_attr)) [
  | inr off ↦ rw off (record { served = v.served; alive = v.alive; once = v.once })
  | inl on ↦ elim (Bool-cases (contains_event ns_attr_notice a.events)) [
    | inl there ↦ rw (on, there) (record { served = inr refl; alive = inr refl; once = v.once })
    | inr fresh ↦
        rw (on, fresh)
          (record {
            served = inr refl;
            alive = inr refl;
            once =
                unfold pending in
                omega (
                  arith,
                  contains-pending ns_attr_notice a.events fresh,
                  pending-append ns_attr_notice a.events (ns_attr_notice ∷ []),
                );
          })
  ]
]

list_cases : (xs : List ℕ) → (xs ≡ []) ⊎ ((x : ℕ) × (rest : List ℕ) × (xs ≡ x ∷ rest))
list_cases [] = inl refl
list_cases (x ∷ rest) = inr (x, rest, refl)

parked_none :
    (a : AdminState) (event : ℕ) (events : List ℕ)
    → a.events ≡ event ∷ events
    → IsCalm a
    → a.aer_wakers ≡ []
parked_none a event events e v = elim v.served [
  | inl none_there ↦ absurd (cc (none_there, e))
  | inr w ↦ w
]

closed_none : (a : AdminState) → a.closing ≡ true → IsCalm a → a.aer_wakers ≡ []
closed_none a c v = elim v.alive [ inl f ↦ absurd (cc (f, c)) | inr w ↦ w ]

-- The poll by what is pending.
pub poll_event-IsCalm : (a : AdminState) (waker : ℕ) → IsCalm a → IsCalm (poll_event a waker).1
unfolding poll_event
poll_event-IsCalm a waker v = elim (Bool-cases a.closing) [
  | inl c ↦ rw c (record { served = v.served; alive = inr (closed_none a c v); once = v.once })
  | inr c ↦ elim (list_cases a.events) [
    | inl e ↦ rw (c, e) (record { served = inl e; alive = inl c; once = v.once })
    | inr (event, events, e) ↦
        let none_parked = parked_none a event events e v in
        rw (c, e)
          (record {
            served = inr none_parked;
            alive = inr none_parked;
            once =
                let few = subst (λ t. pending ns_attr_notice t ≤ 1) e v.once in
                unfold pending in ground arith;
          })
  ]
]

pub new-IsCalm : (now : ℕ) → IsCalm (new_admin_state now)
unfolding new_admin_state pending
new-IsCalm now = record { served = inl refl; alive = inl refl; once = omega arith }

-- A state with the same requests, events and mark.
pub record IsAlike (a b : AdminState) : Type 0 where
  pub same_events : b.events ≡ a.events
  pub same_wakers : b.aer_wakers ≡ a.aer_wakers
  pub same_mark : b.closing ≡ a.closing

pub alike-IsCalm : (a b : AdminState) → IsAlike a b → IsCalm a → IsCalm b
alike-IsCalm a b s v = record {
  served = rw (s.same_events, s.same_wakers) v.served;
  alive = rw (s.same_mark, s.same_wakers) v.alive;
  once = rw s.same_events v.once;
}

pub noticed-wakers :
    (b : AdminState) → has_bits b.aec aen_cfg_ns_attr ≡ true → (noticed b).1 ≡ b.aer_wakers
unfolding noticed
noticed-wakers b on = rw on refl

-- With the notice there is an event.
notice_there :
    (events : List ℕ)
    → (x : ℕ) × (rest : List ℕ) × ((if contains_event ns_attr_notice events
          then events
          else events ++ (ns_attr_notice ∷ []))
        ≡ x ∷ rest)
notice_there [] = (ns_attr_notice, [], refl)
notice_there (x ∷ events) = elim (Bool-cases (contains_event ns_attr_notice (x ∷ events))) [
  | inl e ↦ (x, events, rw e refl)
  | inr e ↦ (x, events ++ (ns_attr_notice ∷ []), rw e refl)
]

poll_event-finds :
    (a : AdminState) (waker x : ℕ) (rest : List ℕ)
    → a.events ≡ x ∷ rest
    → (poll_event a waker).0 ≢ none
unfolding poll_event
poll_event-finds a waker x rest e = elim (Bool-cases a.closing) [
  | inl c ↦ rw c (λ h. cc h)
  | inr c ↦ rw (c, e) (λ h. cc h)
]

pub noticed-finds :
    (b : AdminState) (waker : ℕ)
    → has_bits b.aec aen_cfg_ns_attr ≡ true
    → (poll_event (noticed b).0 waker).0 ≢ none
unfolding noticed
noticed-finds b waker on =
    let (x, rest, e) = notice_there b.events in rw on (poll_event-finds _ waker x rest e)
