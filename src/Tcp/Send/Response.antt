-- ===== src/Tcp/Send/Response.antt =====
-- crates/ioutgt-nvme-tcp/src/send.rs: a response in the batch, with its data, its digest and its capsule.
use ioutgt.Base.{
  ℕ, ◌+◌, ◌≤◌, ◌≡◌, subst, Bool, true, false, ◌&&◌, List, [], ◌++◌, map, some, returns, Ret,
  Ret->>=, Ret-map, inl, inr, arith, ltb, ◌==◌, if◌then◌else◌, Bool-cases, All, length,
  length-append, take, get_elem?,
}
use ioutgt.Wire.{Fields, emit, length-le, length-emit}
use ioutgt.Spec.{Sqe}
use ioutgt.Pool.{Memory}
use ioutgt.Pool.Bytes.{addrs}
use ioutgt.Slots.{Slot}
use ioutgt.Slots.Lifecycle.{slot-Holds}
use ioutgt.Pdu.Encode.{encode_capsule_resp}
use ioutgt.Pdu.Messages.{digest_len-le}
use ioutgt.Pdu.RoundTrip.{digest_of, length-digest_of}
use ioutgt.Gather.{GatherBatch, note_payload}
use ioutgt.Tcp.{Completion, TcpQueue, response}
use ioutgt.Tcp.Send.{
  Stage, encoded, push_payload, push_ddgst, push_data, stage_send_work, arena_per_item,
}
use ioutgt.Tcp.Send.Contents.{
  Apart, apart-grown, Wrote, Wrote-Wrote, payload-Wrote, nothing-Wrote, map_same, All-take, All-imp,
}
use ioutgt.Tcp.Send.Pieces.{
  header_bytes, data_header, capsule_header, trailer, IsDigest, header-Wrote, capsule-Wrote,
  ddgst-Wrote,
}

-- The success that the C2HData header tells makes the capsule superfluous.
abbrev pub elides : TcpQueue → Completion → Bool
elides queue c = ltb 0 c.data_len && queue.nvme.sqhd_disabled && c.cqe.status == 0

-- At most `k` bytes of the arena are taken.
abbrev pub WroteWithin : ℕ → GatherBatch → Memory → List ℕ → Stage → Type 0
WroteWithin k b mem bytes st = (n : ℕ) × (n ≤ k) × Wrote b mem n bytes st

length-header_bytes :
    (crc : List ℕ → ℕ) (fields : Fields) (hdgst : Bool)
    → length (emit fields) ≡ 24
    → length (header_bytes crc fields hdgst) ≤ 28
length-header_bytes crc fields hdgst e = omega (
  arith,
  length-append (emit fields) (digest_of crc hdgst (emit fields)),
  length-digest_of crc hdgst (emit fields),
  digest_len-le hdgst,
)

length-trailer :
    (crc_append : ℕ → List ℕ → ℕ) (ddgst : Bool) (payload : List ℕ)
    → length (trailer crc_append ddgst payload) ≤ 4
length-trailer crc_append true payload = omega (arith, length-le 4 (crc_append 0 payload))
length-trailer crc_append false payload = omega arith

module _ (crc : List ℕ → ℕ) (crc_append : ℕ → List ℕ → ℕ) where
  -- The data of a response: its header, the payload, and the digest of the payload.
  abbrev pub data_bytes : Completion → List ℕ → (success hdgst ddgst : Bool) → List ℕ
  data_bytes c payload success hdgst ddgst =
      (header_bytes crc (data_header c success hdgst ddgst) hdgst ++ payload)
      ++ trailer crc_append ddgst payload

  -- What a response sends.
  abbrev pub response_bytes : TcpQueue → Completion → List ℕ → (hdgst ddgst : Bool) → List ℕ
  response_bytes queue c payload hdgst ddgst =
      (if ltb 0 c.data_len then data_bytes c payload (elides queue c) hdgst ddgst else [])
      ++ (if elides queue c then [] else header_bytes crc (capsule_header c hdgst) hdgst)

  push_data-Wrote :
      (b : GatherBatch) (mem : Memory) (queue : TcpQueue) (c : Completion) (s : Slot Sqe)
      (success hdgst ddgst : Bool)
      → IsDigest crc_append
      → get_elem? queue.nvme.slots.slots c.tag ≡ some s
      → c.data_len ≤ length (addrs s.slot_data.segs)
      → All (Apart b) (addrs s.slot_data.segs)
      → b.arena_used + arena_per_item ≤ b.arena_len
      → Ret
          (WroteWithin 32 b mem
            (data_bytes c (map mem (take c.data_len (addrs s.slot_data.segs))) success hdgst ddgst))
          (push_data crc crc_append (b, mem) queue c success hdgst ddgst)
  unfolding push_data
  push_data-Wrote b mem queue c s success hdgst ddgst law f len apart room =
      let segs = s.slot_data.segs in
      let at = take c.data_len (addrs segs) in
      let header = header_bytes crc (data_header c success hdgst ddgst) hdgst in
      let small : length header ≤ 28 =
        length-header_bytes crc (data_header c success hdgst ddgst) hdgst (length-emit _) in
      let Whole = WroteWithin 32 b mem (data_bytes c (map mem at) success hdgst ddgst) in
      Ret->>= (Wrote b mem (length header) header) Whole _ _
        (λ (b1, mem1) g.
          let n = length header in
          let b2 = note_payload (push_payload b1 segs c.data_len) c.data_len in
          let there : All (Apart b1) (addrs segs) =
            All-imp (Apart b) (Apart b1) (addrs segs) (λ a e. apart-grown b b1 n g.new a g.grown e)
              apart in
          let h = payload-Wrote b1 mem1 segs c.data_len there in
          let same : map mem1 at ≡ map mem at =
            map_same mem1 mem (Apart b) at g.outside
              (All-take (Apart b) c.data_len (addrs segs) apart) in
          let two = Wrote-Wrote b mem n 0 header (map mem1 at) (b1, mem1) (b2, mem1) g h in
          rw (slot-Holds queue.nvme.slots c.tag s f) (
            Ret-map {A = Stage} {Q = Whole}
              (if ddgst
                then push_ddgst crc crc_append (b2, mem1) segs c.data_len
                else returns (b2, mem1))
              (λ st w. (
                n + 0 + length (trailer crc_append ddgst (map mem1 at)),
                omega (arith, small, length-trailer crc_append ddgst (map mem1 at)),
                subst
                    (λ t.
                      Wrote b mem (n + 0 + length (trailer crc_append ddgst (map mem1 at)))
                        ((header ++ t) ++ trailer crc_append ddgst t) st)
                    same
                    (Wrote-Wrote b mem (n + 0) _ (header ++ map mem1 at) _ (b2, mem1) st two w),
              ))
              (ddgst-Wrote crc crc_append b2 mem1 segs c.data_len ddgst law len
                (omega (arith, two.grown.used, two.grown.same_len, small)))))
        (header-Wrote crc crc_append b mem c success hdgst ddgst (omega arith))

  -- What was written, with a capsule behind it or not.
  closed :
      (b : GatherBatch) (mem : Memory) (c : Completion) (hdgst elide : Bool) (xs : List ℕ)
      (st : Stage)
      → b.arena_used + arena_per_item ≤ b.arena_len
      → WroteWithin 32 b mem xs st
      → Ret
          (WroteWithin arena_per_item b mem
            (xs ++ (if elide then [] else header_bytes crc (capsule_header c hdgst) hdgst)))
          (if elide
            then returns st
            else encoded st (λ buf. encode_capsule_resp crc buf c.cqe hdgst))
  closed b mem c hdgst true xs st room (n, small, w) =
      (n + 0, omega (arith, small), Wrote-Wrote b mem n 0 xs [] st st w (nothing-Wrote st.0 st.1))
  closed b mem c hdgst false xs st room (n, small, w) =
      let capsule = header_bytes crc (capsule_header c hdgst) hdgst in
      let short : length capsule ≤ 28 =
        length-header_bytes crc (capsule_header c hdgst) hdgst (length-emit _) in
      Ret-map (encoded st (λ buf. encode_capsule_resp crc buf c.cqe hdgst))
        (λ st' h. (
          n + length capsule,
          omega (arith, small, short),
          Wrote-Wrote b mem n (length capsule) xs capsule st st' w h,
        ))
        (capsule-Wrote crc crc_append st.0 st.1 c hdgst
          (omega (arith, small, w.grown.used, w.grown.same_len)))

  data-Wrote :
      (b : GatherBatch) (mem : Memory) (queue : TcpQueue) (c : Completion) (s : Slot Sqe)
      (success hdgst ddgst : Bool)
      → IsDigest crc_append
      → get_elem? queue.nvme.slots.slots c.tag ≡ some s
      → c.data_len ≤ length (addrs s.slot_data.segs)
      → All (Apart b) (addrs s.slot_data.segs)
      → b.arena_used + arena_per_item ≤ b.arena_len
      → Ret
          (WroteWithin 32 b mem (
            if ltb 0 c.data_len
            then data_bytes c
                (map mem (take c.data_len (addrs s.slot_data.segs)))
                success
                hdgst
                ddgst
            else []))
          (if ltb 0 c.data_len
            then push_data crc crc_append (b, mem) queue c success hdgst ddgst
            else returns (b, mem))
  data-Wrote b mem queue c s success hdgst ddgst law f len apart room =
      elim (Bool-cases (ltb 0 c.data_len)) [
        | inl some_data ↦
            rw some_data (push_data-Wrote b mem queue c s success hdgst ddgst law f len apart room)
        | inr no_data ↦ rw no_data (0, omega arith, nothing-Wrote b mem)
      ]

  -- A response whose data are in its slot, outside the arena, is staged without a panic when the arena has
  -- the room of an item, of which it takes no more. As the memory then has them, the batch sends the bytes
  -- of a C2HData header with the id, the length and the success of the response, of the payload in the
  -- slot's buffer and of its digest, and then of the capsule unless the header tells the success; only the
  -- unused part of the arena was written. The digest is one that is computed piece by piece.
  pub stage_send_work-Wrote :
      (b : GatherBatch) (mem : Memory) (queue : TcpQueue) (c : Completion) (s : Slot Sqe)
      (hdgst ddgst : Bool)
      → IsDigest crc_append
      → get_elem? queue.nvme.slots.slots c.tag ≡ some s
      → c.data_len ≤ length (addrs s.slot_data.segs)
      → All (Apart b) (addrs s.slot_data.segs)
      → b.arena_used + arena_per_item ≤ b.arena_len
      → Ret
          (WroteWithin arena_per_item b mem (
            response_bytes queue c
              (map mem (take c.data_len (addrs s.slot_data.segs)))
              hdgst
              ddgst))
          (stage_send_work crc crc_append (b, mem) queue (response c) hdgst ddgst)
  unfolding stage_send_work
  stage_send_work-Wrote b mem queue c s hdgst ddgst law f len apart room =
      let payload = map mem (take c.data_len (addrs s.slot_data.segs)) in
      let elide = elides queue c in
      let first = if ltb 0 c.data_len then data_bytes c payload elide hdgst ddgst else [] in
      Ret->>= {B = Stage} (WroteWithin 32 b mem first)
        (WroteWithin arena_per_item b mem (response_bytes queue c payload hdgst ddgst))
        (if ltb 0 c.data_len
          then push_data crc crc_append (b, mem) queue c elide hdgst ddgst
          else returns (b, mem))
        (λ st.
          if elide then returns st else encoded st (λ buf. encode_capsule_resp crc buf c.cqe hdgst))
        (λ st w. closed b mem c hdgst elide first st room w)
        (data-Wrote b mem queue c s elide hdgst ddgst law f len apart room)
