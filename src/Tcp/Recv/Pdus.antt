-- ===== src/Tcp/Recv/Pdus.antt =====
-- crates/ioutgt-nvme-tcp/src/recv.rs: the H2CData PDUs of one solicited transfer: what their order is, how
-- their headers are checked, and what the end of a payload does.
use ioutgt.Base.{
  ℕ, ◌+◌, ◌^◌, ◌≤◌, ◌<◌, ◌≡◌, refl, ap, Bool, true, false, not, ◌&&◌, ◌||◌, ltb, length, ◌++◌, List,
  [], ◌∷◌, none, some, Exec, returns, panics, add_u32, arith, leb, ◌==◌, ==_iff, Bool-cases, inl,
  inr, ◌⊎◌, get_elem?, set, get_elem?-set, Ret,
}
use ioutgt.Spec.{Sqe}
use ioutgt.Slots.{Slot, SlotArray, SlotState, slot, receiving, ready, same_state, set_recv_offset}
use ioutgt.Slots
use ioutgt.Slots.Lifecycle.{slot-Holds}
use ioutgt.Pool.{Memory}
use ioutgt.Pool.Bytes.{addrs, store}
use ioutgt.Tcp.Recv.Fragments.{joined}
use ioutgt.Tcp.{TcpQueue, submit}
use ioutgt.Tcp.Recv.{
  h2c, RecvPhase, header, with_phase, term_req, Recv, RecvEnd, end_with, data_out_of_range, next,
  ends, done, ◌>?=◌, Rx, slots_of, finish_payload, submitted, validate_h2c, is_expected,
}

-- A PDU of the transfer: its header, and its payload in the windows in which TCP brings it.
pub record H2cData : Type 0 where
  pub cid : ℕ
  pub offset : ℕ
  pub last : Bool
  pub windows : List (List ℕ)

unfoldable pub payload : H2cData → List ℕ
payload p = joined p.windows

abbrev pub size : H2cData → ℕ
size p = length (payload p)

-- The payload is taken in and the next header is awaited.
abbrev pub at_header : Rx × RecvPhase → Exec (Recv Rx)
at_header (rx, header) = done rx
at_header (rx, phase) = panics

-- The payloads of the PDUs, one behind the other.
unfoldable pub bytes_of : List H2cData → List ℕ
bytes_of [] = []
bytes_of (p ∷ pdus) = payload p ++ bytes_of pdus

-- Each PDU is of the command, continues where the one before ended and is not empty; together they stay
-- within `n` bytes, and one that says it is the last ends them.
unfoldable pub in_order : (cid got n : ℕ) → List H2cData → Bool
in_order cid got n [] = true
in_order cid got n (p ∷ pdus) =
    (cid == p.cid && (p.offset == got && (ltb 0 (size p) && leb (got + size p) n)))
    && ((not p.last || (got + size p == n)) && in_order cid (got + size p) n pdus)

-- The slot waits for more of its transfer, for which its buffer has the room.
pub record IsSolicited (rx : Rx) (tag : ℕ) (s : Slot Sqe) : Type 0 where
  pub found : get_elem? (slots_of rx).slots tag ≡ some s
  pub inside : tag < rx.queue.nvme.sqsize
  pub state : s.state ≡ receiving
  pub more : s.recv_offset < s.data_len
  pub small : s.data_len < 2 ^ 32
  pub room : s.data_len ≤ length (addrs s.slot_data.segs)

-- The slot behind some PDUs with as many bytes, `n` of them wanted: it waits for the rest, or its command
-- was submitted.
abbrev pub Progress : Rx → (tag r n : ℕ) → Type 0
Progress rx tag got n =
    (s : Slot Sqe) × (get_elem? (slots_of rx).slots tag ≡ some s)
    × (((s.state ≡ receiving) × (s.recv_offset ≡ got) × (got < n))
        ⊎ ((s.state ≡ ready) × (got ≡ n)))

-- The transfer went on because its PDUs are in order, and their bytes stand in the buffer from `at` on; or
-- the connection ends because they are not.
abbrev pub TransferPost : Memory → List ℕ → (tag cid got n : ℕ) → List H2cData → Recv Rx → Type 0
TransferPost mem at tag cid got n pdus (next rx) =
    (in_order cid got n pdus ≡ true)
    × (rx.mem ≡ store mem at (bytes_of pdus))
    × Progress rx tag (got + length (bytes_of pdus)) n
TransferPost mem at tag cid got n pdus (ends e) =
    (in_order cid got n pdus ≡ false) × (e ≡ term_req (record { fes = data_out_of_range; fei = 0 }))

-- The slot with its offset moved on, and the receive side with it.
abbrev pub moved : Slot Sqe → ℕ → Slot Sqe
moved s len = record s { recv_offset = s.recv_offset + len }

abbrev slots_moved : SlotArray Sqe → ℕ → Slot Sqe → ℕ → SlotArray Sqe
slots_moved a tag s len = record a { slots = set a.slots tag (moved s len) }

set_recv_offset-moved :
    (a : SlotArray Sqe) (tag : ℕ) (s : Slot Sqe) (len : ℕ)
    → get_elem? a.slots tag ≡ some s
    → set_recv_offset a tag (s.recv_offset + len) ≡ returns (slots_moved a tag s len, [])
unfolding set_recv_offset
set_recv_offset-moved a tag s len e = rw (slot-Holds a tag s e) refl

-- A slot that is submitted.
abbrev delivered : SlotArray Sqe → ℕ → Slot Sqe → Sqe → SlotArray Sqe
delivered a tag s cmd = record a {
  slots = set a.slots tag (record s { cmd = cmd; state = ready; waker = none });
}

submit-delivered :
    (a : SlotArray Sqe) (tag : ℕ) (s : Slot Sqe) (cmd : Sqe)
    → get_elem? a.slots tag ≡ some s
    → s.state ≡ receiving
    → Slots.submit a tag cmd ≡ returns (delivered a tag s cmd, Slots.wakes s.waker)
unfolding Slots.submit
submit-delivered a tag s cmd e r = rw (slot-Holds a tag s e, r) refl

-- What the end of a payload of `len` bytes makes of the slot.
abbrev pub FinishPost : Rx → ℕ → ℕ → Slot Sqe → Bool → Recv Rx → Type 0
FinishPost old tag len s last (next rx) =
    (rx.queue.nvme.sqsize ≡ old.queue.nvme.sqsize)
    × (rx.mem ≡ old.mem)
    × ((not last || (s.recv_offset + len == s.data_len)) ≡ true)
    × ((IsSolicited rx tag (moved s len))
        ⊎ ((s.recv_offset + len ≡ s.data_len)
            × (get_elem? (slots_of rx).slots tag
                ≡ some (record (moved s len) { state = ready; waker = none }))))
FinishPost old tag len s last (ends e) =
    ((not last || (s.recv_offset + len == s.data_len)) ≡ false)
    × (e ≡ term_req (record { fes = data_out_of_range; fei = 0 }))

pub finish_h2c :
    (rx : Rx) (tag : ℕ) (s : Slot Sqe) (last : Bool) (len : ℕ)
    → IsSolicited rx tag s
    → s.recv_offset + len ≤ s.data_len
    → Ret (FinishPost rx tag len s last) (finish_payload rx tag (h2c last len))
unfolding finish_payload submitted submit
finish_h2c rx tag s last len v h =
    let a = slots_of rx in
    let a' = slots_moved a tag s len in
    let there = get_elem?-set a.slots tag (moved s len) v.found in
    let plain : add_u32 s.recv_offset len ≡ s.recv_offset + len = omega (arith, v.small) in
    elim (Bool-cases (s.recv_offset + len == s.data_len)) [
      | inl all ↦
          rw
            (
              slot-Holds a tag s v.found,
              plain,
              set_recv_offset-moved a tag s len v.found,
              all,
              submit-delivered a' tag (moved s len) s.cmd there v.state,
            )
            (
              refl,
              refl,
              ended_by last _ all,
              inr ((==_iff _ _).0 all, get_elem?-set a'.slots tag _ there),
            )
      | inr some_left ↦
          let still : s.recv_offset + len < s.data_len = ground arith in
          elim (Bool-cases last) [
            | inl e ↦
                rw
                  (
                    slot-Holds a tag s v.found,
                    plain,
                    set_recv_offset-moved a tag s len v.found,
                    some_left,
                    e,
                  )
                  (rw some_left refl, refl)
            | inr e ↦
                rw
                  (
                    slot-Holds a tag s v.found,
                    plain,
                    set_recv_offset-moved a tag s len v.found,
                    some_left,
                    e,
                  )
                  (
                    refl,
                    refl,
                    refl,
                    inl (record {
                      found = there;
                      inside = v.inside;
                      state = v.state;
                      more = still;
                      small = v.small;
                      room = v.room;
                    }),
                  )
          ]
    ]
  where
    ended_by : (b x : Bool) → x ≡ true → (not b || x) ≡ true
    ended_by true x e = e
    ended_by false x e = refl

bounds_of :
    (o g l n : ℕ)
    → n < 2 ^ 32
    → o ≡ g
    → (ltb (o + l) (2 ^ 32) && (leb (o + l) n && ltb 0 l)) ≡ (ltb 0 l && leb (g + l) n)
bounds_of o g l n small e = ground arith

-- What a slot that is receiving expects of a header.
pub expects-in_order :
    (rx : Rx) (tag : ℕ) (s : Slot Sqe) (p : H2cData)
    → IsSolicited rx tag s
    → is_expected s p.cid p.offset (size p) ≡ (
        s.cmd.cid == p.cid
        && (p.offset == s.recv_offset
            && (ltb 0 (size p) && leb (s.recv_offset + size p) s.data_len)))
unfolding is_expected
expects-in_order rx tag s p v = elim (Bool-cases (p.offset == s.recv_offset)) [
  | inr other ↦ rw (v.state, other) refl
  | inl same ↦
      rw (v.state, same)
        (ap (λ b. (s.cmd.cid == p.cid) && b)
          (bounds_of p.offset s.recv_offset (size p) s.data_len v.small ((==_iff _ _).0 same)))
]

-- A slot that is not receiving expects none.
pub expected-receiving :
    (s : Slot Sqe) (cid offset len : ℕ) → s.state ≡ ready → is_expected s cid offset len ≡ false
unfolding is_expected
expected-receiving s cid offset len e = rw e refl

pub validate-expected :
    (q : TcpQueue) (cid tag : ℕ) (s : Slot Sqe) (offset len : ℕ)
    → get_elem? q.nvme.slots.slots tag ≡ some s
    → tag < q.nvme.sqsize
    → is_expected s cid offset len ≡ true
    → validate_h2c q cid tag offset len len ≡ done tag
unfolding validate_h2c
validate-expected q cid tag s offset len f l e =
    let inside : leb q.nvme.sqsize tag ≡ false = ground arith in
    let same : (len == len) ≡ true = (==_iff len len).1 refl in
    rw (inside, slot-Holds q.nvme.slots tag s f, e, same) refl

pub validate-unexpected :
    (q : TcpQueue) (cid tag : ℕ) (s : Slot Sqe) (offset len : ℕ)
    → get_elem? q.nvme.slots.slots tag ≡ some s
    → tag < q.nvme.sqsize
    → is_expected s cid offset len ≡ false
    → validate_h2c q cid tag offset len len ≡ end_with data_out_of_range 0
unfolding validate_h2c
validate-unexpected q cid tag s offset len f l e =
    let inside : leb q.nvme.sqsize tag ≡ false = ground arith in
    rw (inside, slot-Holds q.nvme.slots tag s f, e) refl

pub Ret->?= :
    (P Q : Recv Rx → Type 0) (m : Exec (Recv Rx)) (f : Rx → Exec (Recv Rx))
    → ((rx : Rx) → P (next rx) → Ret Q (f rx))
    → ((e : RecvEnd) → P (ends e) → Q (ends e))
    → Ret P m
    → Ret Q (m >?= f)
Ret->?= P Q (returns (next rx)) f h g p = h rx p
Ret->?= P Q (returns (ends e)) f h g p = g e p
Ret->?= P Q panics f h g p = p

pub settled : (m : Exec (Recv Rx)) → (m >?= with_phase header >?= at_header) ≡ m
settled (returns (next rx)) = refl
settled (returns (ends e)) = refl
settled panics = refl
