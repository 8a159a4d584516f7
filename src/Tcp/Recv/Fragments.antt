-- ===== src/Tcp/Recv/Fragments.antt =====
-- crates/ioutgt-nvme-tcp/src/recv.rs: a payload that arrives in any pieces lands as if it came at once.
use mathlib.Core.Path.{ap₂}
use mathlib.Core.List.{append-nil}
use ioutgt.Base.{
  ℕ, ◌+◌, ◌-◌, ◌^◌, ◌≤◌, ◌<◌, ◌≡◌, refl, ap, ◌∙◌, min, true, false, List, [], ◌∷◌, ◌++◌, Exec,
  returns, panics, add_u32, sub_u32, arith, ltb, drop-drop, ltb→lt, ltb→le, if◌then◌else◌,
  Bool-cases, inl, inr, length, take, drop, length-append,
}
use ioutgt.Spec.{Sqe}
use ioutgt.Pool.{Memory, write_at}
use ioutgt.Pool.Bytes.{addrs, store, write_at-store}
use ioutgt.Slots.{Slot, slot}
use ioutgt.Tcp.Recv.Landing.{write_at-left, store-append, take_all}
use ioutgt.Tcp.Recv.{
  DataPhase, DdgstPhase, RecvPhase, finish_payload, with_phase, header, data_phase, ddgst_phase,
  Recv, next, ends, done, ◌>?=◌, Rx, slots_of, total_of, stored, copied, folded, arrived,
  advance_data,
}

-- A payload that is being received: what is left of it is within its PDU, which fits the slot's buffer.
pub record IsReceiving (rx : Rx) (d : DataPhase) (s : Slot Sqe) : Type 0 where
  pub found : slot (slots_of rx) d.tag ≡ returns s
  pub left : d.remaining ≤ total_of s d.kind
  pub small : d.base + total_of s d.kind < 2 ^ 32
  pub room : d.base + total_of s d.kind ≤ length (addrs s.slot_data.segs)

-- Where the next byte lands in the buffer.
abbrev pub dest : DataPhase → Slot Sqe → ℕ
dest d s = d.base + (total_of s d.kind - d.remaining)

-- The bytes at their place, unless they are there already.
abbrev pub landed : Rx → DataPhase → Slot Sqe → List ℕ → Rx
landed rx d s bytes = record rx {
  mem =
      if d.retained then rx.mem else store rx.mem (drop (dest d s) (addrs s.slot_data.segs)) bytes;
}

stored-all :
    (rx : Rx) (p : Memory × List ℕ) → p.1 ≡ [] → stored rx p ≡ returns (record rx { mem = p.0 })
stored-all rx (m, []) e = refl
stored-all rx (m, b ∷ l) e = absurd (cc)

offset_of :
    (base total remaining : ℕ)
    → remaining ≤ total
    → base + total < 2 ^ 32
    → add_u32 base (sub_u32 total remaining) ≡ base + (total - remaining)
offset_of base total remaining h l = omega arith

copied-landed :
    (rx : Rx) (d : DataPhase) (s : Slot Sqe) (bytes : List ℕ)
    → IsReceiving rx d s
    → length bytes ≤ d.remaining
    → copied rx d bytes ≡ returns (landed rx d s bytes)
unfolding copied
copied-landed rx d s bytes v h = elim (Bool-cases d.retained) [
  | inl r ↦ rw r refl
  | inr r ↦
      let at = dest d s in
      let fits : at + length bytes ≤ length (addrs s.slot_data.segs) =
        omega (arith, v.left, v.room) in
      rw (r, v.found, offset_of d.base (total_of s d.kind) d.remaining v.left v.small)
        (stored-all rx (write_at s.slot_data.segs rx.mem at bytes)
            (write_at-left s.slot_data.segs rx.mem at bytes fits)
          ∙ ap (λ m. returns (record rx { mem = m }))
              (write_at-store s.slot_data.segs rx.mem at bytes))
]

-- The bytes of the windows together.
unfoldable pub joined : List (List ℕ) → List ℕ
joined [] = []
joined (w ∷ windows) = w ++ joined windows

module _ (crc_append : ℕ → List ℕ → ℕ) where
  -- A window of payload, in whatever phase the receive side is.
  pub resume : Rx × RecvPhase → List ℕ → Exec (Recv (Rx × RecvPhase))
  resume (rx, data_phase d) bytes = (advance_data crc_append rx d bytes).0
  resume (rx, phase) bytes = done (rx, phase)

  -- The windows of a payload, one after the other.
  pub receive : Rx × RecvPhase → List (List ℕ) → Exec (Recv (Rx × RecvPhase))
  unfolding resume
  receive s [] = done s
  receive s (w ∷ windows) = resume s w >?= λ s'. receive s' windows

  advance-landed :
      (rx : Rx) (d : DataPhase) (s : Slot Sqe) (w : List ℕ)
      → IsReceiving rx d s
      → length w ≤ d.remaining
      → (advance_data crc_append rx d w).0
        ≡ arrived crc_append (landed rx d s w) (folded crc_append d w)
  unfolding advance_data
  advance-landed rx d s w v h =
      let all : take (min d.remaining (length w)) w ≡ w =
        take_all w (min d.remaining (length w)) (omega arith) in
      rw (all, copied-landed rx d s w v h) refl

  landed-append :
      (rx : Rx) (d : DataPhase) (s : Slot Sqe) (xs ys : List ℕ)
      → IsReceiving rx d s
      → length xs ≤ d.remaining
      → landed (landed rx d s xs) (folded crc_append d xs) s ys ≡ landed rx d s (xs ++ ys)
  landed-append rx d s xs ys v h = elim (Bool-cases d.retained) [
    | inl r ↦ rw r refl
    | inr r ↦
        let at = addrs s.slot_data.segs in
        let far : dest (folded crc_append d xs) s ≡ dest d s + length xs = omega (arith, v.left) in
        rw
          (
            r,
            far,
            store-append rx.mem (drop (dest d s) at) xs ys,
            drop-drop (dest d s) (length xs) at,
          )
          refl
  ]

  landed-IsReceiving :
      (rx : Rx) (d : DataPhase) (s : Slot Sqe) (xs : List ℕ)
      → IsReceiving rx d s
      → IsReceiving (landed rx d s xs) (folded crc_append d xs) s
  landed-IsReceiving rx d s xs v = record {
    found = v.found;
    left = omega (arith, v.left);
    small = v.small;
    room = v.room;
  }

  abbrev with_rest : DataPhase → ℕ → ℕ → DataPhase
  with_rest d crc remaining = record d { crc = crc; remaining = remaining }

  folded-append :
      (d : DataPhase) (xs ys : List ℕ)
      → ((c : ℕ) (as' bs : List ℕ) → crc_append (crc_append c as') bs ≡ crc_append c (as' ++ bs))
      → folded crc_append (folded crc_append d xs) ys ≡ folded crc_append d (xs ++ ys)
  folded-append d xs ys law = ap₂ (with_rest d) crcs (omega (arith, length-append xs ys))
    where
      crcs :
          (if d.ddgst
            then crc_append (if d.ddgst then crc_append d.crc xs else d.crc) ys
            else (if d.ddgst then crc_append d.crc xs else d.crc))
          ≡ (if d.ddgst then crc_append d.crc (xs ++ ys) else d.crc)
      crcs = elim (Bool-cases d.ddgst) [ inl e ↦ rw e (law d.crc xs ys) | inr e ↦ rw e refl ]

  -- Behind the payload the windows are not its business.
  receive-header :
      (rx : Rx) (windows : List (List ℕ)) → receive (rx, header) windows ≡ done (rx, header)
  unfolding receive resume
  receive-header rx [] = refl
  receive-header rx (w ∷ windows) = receive-header rx windows

  receive-ddgst :
      (rx : Rx) (p : DdgstPhase) (windows : List (List ℕ))
      → receive (rx, ddgst_phase p) windows ≡ done (rx, ddgst_phase p)
  unfolding receive resume
  receive-ddgst rx p [] = refl
  receive-ddgst rx p (w ∷ windows) = receive-ddgst rx p windows

  finished :
      (e : Exec (Recv Rx)) (windows : List (List ℕ))
      → (e >?= with_phase header >?= λ s'. receive s' windows) ≡ (e >?= with_phase header)
  finished (returns (next rx)) windows = receive-header rx windows
  finished (returns (ends x)) windows = refl
  finished panics windows = refl

  arrived-settled :
      (rx : Rx) (d : DataPhase) (windows : List (List ℕ))
      → ltb 0 d.remaining ≡ false
      → (arrived crc_append rx d >?= λ s'. receive s' windows) ≡ arrived crc_append rx d
  unfolding arrived
  arrived-settled rx d windows z = elim (Bool-cases d.ddgst) [
    | inl e ↦ rw (z, e) (receive-ddgst rx _ windows)
    | inr e ↦ rw (z, e) (finished (finish_payload rx d.tag d.kind) windows)
  ]

  arrived-more :
      (rx : Rx) (d : DataPhase)
      → ltb 0 d.remaining ≡ true
      → arrived crc_append rx d ≡ done (rx, data_phase d)
  unfolding arrived
  arrived-more rx d z = rw z refl

  joined_nil : (xs : List ℕ) → length xs ≡ 0 → xs ≡ []
  joined_nil [] e = refl
  joined_nil (x ∷ xs) e = absurd (omega arith)

  -- However TCP splits a payload into windows, once they are all there the bytes stand at their place in
  -- the buffer of the slot, or where they were retained, the digest is that of all of them, and the
  -- receive side goes on as if they had arrived at once. The digest of a piece behind another is that of
  -- both together.
  pub receive-landed :
      (rx : Rx) (d : DataPhase) (s : Slot Sqe) (windows : List (List ℕ))
      → ((c : ℕ) (xs ys : List ℕ) → crc_append (crc_append c xs) ys ≡ crc_append c (xs ++ ys))
      → IsReceiving rx d s
      → 0 < d.remaining
      → length (joined windows) ≡ d.remaining
      → receive (rx, data_phase d) windows
        ≡ arrived crc_append (landed rx d s (joined windows)) (folded crc_append d (joined windows))
  unfolding receive resume joined
  receive-landed rx d s [] law v pos e = absurd (omega arith)
  receive-landed rx d s (w ∷ windows) law v pos e =
      let rest = joined windows in
      let sum = length-append w rest in
      let fits : length w ≤ d.remaining = omega arith in
      let rx' = landed rx d s w in
      let d' = folded crc_append d w in
      let here = advance-landed rx d s w v fits in
      let together : arrived crc_append (landed rx' d' s rest) (folded crc_append d' rest)
          ≡ arrived crc_append (landed rx d s (w ++ rest)) (folded crc_append d (w ++ rest)) =
        ap₂ (arrived crc_append) (landed-append rx d s w rest v fits)
          (folded-append d w rest law) in
      elim (Bool-cases (ltb 0 d'.remaining)) [
        | inl more ↦
            let left : 0 < d'.remaining = ltb→lt 0 (d.remaining - length w) more in
            rw (here, arrived-more rx' d' more)
              (receive-landed rx' d' s windows law (landed-IsReceiving rx d s w v) left
                  (omega arith)
                ∙ together)
        | inr all ↦
            let none_left : d.remaining - length w ≤ 0 = ltb→le 0 (d.remaining - length w) all in
            let empty : rest ≡ [] = joined_nil rest (omega arith) in
            rw (here, arrived-settled rx' d' windows all, empty, append-nil w) refl
      ]
