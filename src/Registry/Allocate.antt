-- ===== src/Registry/Allocate.antt =====
-- crates/ioutgt-core/src/registry.rs: `allocate` finds a free id of the slice whenever there is one.
use Prim.Native.String.{String}
use ioutgt.Base.{
  ℕ, zero, suc, ◌+◌, ◌-◌, ◌%◌, ◌≤◌, ◌<◌, ◌≡◌, refl, ap, Bool, true, false, [], ◌∷◌, Option, none,
  some, arith, leb, leb→le, ◌==◌, if◌then◌else◌, Bool-cases, Option-cases, inl, inr, Ret, ◌∙◌,
  subst,
}
use native.Mathlib.Nat.{mod-eq_of_lt}
use native.Mathlib.Decide.{dec_lt}
use ioutgt.Registry.{
  ControllerEntry, QueueInfo, Registry, find, contains, start_of, span_of, candidate, scan, enter,
  allocate, new, has_qid, is_some, highest_cntlid,
}
use ioutgt.Registry.Table.{IsValid, qid_count}

-- A controller id of this process.
abbrev pub InSlice : Registry → ℕ → Type 0
InSlice r id = (r.cntlid_min ≤ id) × (id ≤ r.cntlid_max)

candidate-InSlice : (r : Registry) (offset : ℕ) → IsValid r → InSlice r (candidate r offset)
unfolding candidate span_of
candidate-InSlice r offset v = (omega arith, grind (arith, v.ordered))

-- The offset at which the scan meets an id.
offset_of : Registry → ℕ → ℕ
offset_of r id = if leb (start_of r) id then id - start_of r else id + span_of r - start_of r

wrap_once : (x n : ℕ) → x < n → (x + n) % n ≡ x
wrap_once x n h = grind arith

start_of-InSlice : (r : Registry) → IsValid r → InSlice r (start_of r)
unfolding start_of
start_of-InSlice r v = (omega arith, omega arith)

-- The offset that is `d` short of the slice's length, with `d` counted from its lower end.
land :
    (r : Registry) (id offset : ℕ)
    → IsValid r
    → InSlice r id
    → (start_of r - r.cntlid_min + offset) % span_of r ≡ id - r.cntlid_min
    → candidate r offset ≡ id
unfolding candidate
land r id offset v s e = rw e (omega arith)

candidate-offset_of :
    (r : Registry) (id : ℕ)
    → IsValid r
    → InSlice r id
    → (offset_of r id < span_of r) × (candidate r (offset_of r id) ≡ id)
unfolding offset_of
candidate-offset_of r id v s = elim (Bool-cases (leb (start_of r) id)) [
  | inl ahead ↦ rw ahead (
    unfold span_of in omega (arith, span, leb→le _ _ ahead, start_of-InSlice r v),
    land r id (id - start_of r) v s (
        ap (λ x. x % span_of r) (omega (arith, leb→le _ _ ahead, start_of-InSlice r v))
        ∙ mod-eq_of_lt (omega (arith, span))),
  )
  | inr behind ↦ rw behind (
    omega (arith, behind_start behind, span, start_of-InSlice r v),
    land r id (id + span_of r - start_of r) v s (
        ap (λ x. x % span_of r)
          (let below = behind_start behind in omega (arith, span, start_of-InSlice r v))
        ∙ wrap_once (id - r.cntlid_min) (span_of r) (omega (arith, span))),
  )
]
  where
    span : span_of r ≡ r.cntlid_max - r.cntlid_min + 1
    span = unfold span_of in refl

    behind_start : leb (start_of r) id ≡ false → id < start_of r
    behind_start h = ground arith

-- The scan gives an id that is not taken, among its candidates.
scan_fresh :
    (r : Registry) (rounds offset : ℕ) {id : ℕ}
    → IsValid r
    → scan r rounds offset ≡ some id
    → (contains r id ≡ false) × InSlice r id
unfolding scan
scan_fresh r zero offset {id} v e = absurd (cc)
scan_fresh r (suc rounds) offset {id} v e = elim (Bool-cases (contains r (candidate r offset))) [
  | inl taken ↦ scan_fresh r rounds (offset + 1) v (rw taken at e)
  | inr fresh ↦
      let found : candidate r offset ≡ id = cc (rw fresh at e) in
      (rw found at fresh, subst (InSlice r) found (candidate-InSlice r offset v))
]

-- A scan that gives none has met taken ids only.
scan_full :
    (r : Registry) (rounds offset k : ℕ)
    → scan r rounds offset ≡ none
    → offset ≤ k
    → k < offset + rounds
    → contains r (candidate r k) ≡ true
unfolding scan
scan_full r zero offset k e lo hi = absurd (omega arith)
scan_full r (suc rounds) offset k e lo hi = elim (Bool-cases (contains r (candidate r offset))) [
  | inl taken ↦ elim (dec_lt offset k) [
    | yes later ↦ scan_full r rounds (offset + 1) k (rw taken at e) (omega arith) (omega arith)
    | no now ↦
        let same : offset ≡ k = omega arith in
        subst (λ x. contains r (candidate r x) ≡ true) same taken
  ]
  | inr fresh ↦ absurd (cc (rw fresh at e))
]

module _ (r : Registry) (subsys_nqn hostnqn : String) (max_qid kato_ms : ℕ)
    (admin_queue : QueueInfo) (discovery : Bool) where
  -- The entry of a new controller.
  abbrev pub new_entry : ℕ → ControllerEntry
  new_entry id = record {
    cntlid = id;
    subsys_nqn = subsys_nqn;
    hostnqn = hostnqn;
    max_qid = max_qid;
    kato_ms = kato_ms;
    queues = admin_queue ∷ [];
    discovery = discovery;
    traffic = false;
  }

  abbrev pub allocated : Option ℕ × Registry
  allocated = allocate r subsys_nqn hostnqn max_qid kato_ms admin_queue discovery

  pub allocate-scan :
      (id : ℕ) → scan r (span_of r) 0 ≡ some id → allocated ≡ (some id, enter r (new_entry id) id)
  unfolding allocate
  allocate-scan id e = rw (e, allocate)

  pub allocate-full : scan r (span_of r) 0 ≡ none → allocated ≡ (none, r)
  unfolding allocate
  allocate-full e = rw (e, allocate)

  -- While some id of the slice is not taken, a controller gets an id.
  pub allocate_total :
      (id : ℕ) → IsValid r → InSlice r id → contains r id ≡ false → is_some allocated.0 ≡ true
  allocate_total id v s fresh = elim (Option-cases (scan r (span_of r) 0)) [
    | inl e ↦
        let (low, at) = candidate-offset_of r id v s in
        absurd (
          cc (
            fresh,
            subst (λ x. contains r x ≡ true) at
                (scan_full r (span_of r) 0 (offset_of r id) e (omega arith) (omega arith)),
          ))
    | inr (new_id, e) ↦ rw (allocate-scan new_id e)
  ]

  enter-IsValid :
      (id : ℕ)
      → IsValid r
      → admin_queue.qid ≡ 0
      → contains r id ≡ false
      → InSlice r id
      → IsValid (enter r (new_entry id) id)
  unfolding enter contains
  enter-IsValid id v q fresh s = record {
    positive = v.positive;
    ordered = v.ordered;
    highest = v.highest;
    keyed = (
      s.0,
      s.1,
      ground (arith, fresh),
      record {
        admin = unfold has_qid in ground arith;
        bounded = (omega arith, tt);
        distinct = λ qid. unfold qid_count in ground arith;
      },
      v.keyed,
    );
  }

  -- The id that `allocate` gives lies in the slice and was not taken. The registry stays valid, and it
  -- has the new controller under that id and what it had under every other.
  pub allocate_fresh :
      (id j : ℕ)
      → IsValid r
      → admin_queue.qid ≡ 0
      → allocated.0 ≡ some id
      → (contains r id ≡ false)
        × InSlice r id
        × IsValid allocated.1
        × (find j allocated.1.controllers
            ≡ (if id == j then some (new_entry id) else find j r.controllers))
  allocate_fresh id j v q e = elim (Option-cases (scan r (span_of r) 0)) [
    | inl full ↦ absurd (cc (e, allocate-full full))
    | inr (new_id, found) ↦
        let same : new_id ≡ id = cc (e, allocate-scan new_id found) in
        let hit : scan r (span_of r) 0 ≡ some id = rw same at found in
        let (fresh, s) = scan_fresh r (span_of r) 0 v hit in
        rw (allocate-scan id hit)
          (fresh, s, enter-IsValid id v q fresh s, unfold enter find in refl)
  ]

-- A new registry is valid, for every range that `new` accepts; it panics on any other.
pub new-IsValid :
    (lo hi : ℕ)
    → 1 ≤ lo
    → lo ≤ hi
    → hi ≤ highest_cntlid
    → Ret (λ r. IsValid r × (r.cntlid_min ≡ lo) × (r.cntlid_max ≡ hi)) (new lo hi)
unfolding new
new-IsValid lo hi a b c = ground arith
