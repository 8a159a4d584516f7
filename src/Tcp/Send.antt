-- ===== src/Tcp/Send.antt =====
-- crates/ioutgt-nvme-tcp/src/send.rs: how a work item is staged in a gather batch, and when its tag is
-- released. The two ways to call the CRC-32C of the crate `crc32c` are parameters.
pub mod InPlace
pub mod Layout
pub mod Contents
pub mod Pieces
pub mod Response
pub mod Tests
use ioutgt.Base.{
  ℕ, zero, suc, ◌+◌, ◌-◌, ◌*◌, min, Bool, true, false, not, ◌&&◌, List, [], ◌∷◌, ◌++◌, map, ◌≡◌,
  refl, Exec, returns, panics, ◌>>=◌, inl, inr, arith, ltb, ◌==◌, if◌then◌else◌, Bool-cases, length,
}
use ioutgt.Wire.{le}
use ioutgt.Pool.{Seg, Memory, max_segs, copy_to, for_each_seg}
use ioutgt.Pool.Bytes.{addrs}
use ioutgt.Slots.{slot}
use ioutgt.Pdu.Encode.{Encoded, put, encode_r2t, encode_c2h_data, encode_capsule_resp}
use ioutgt.Gather.{GatherBatch, arena_tail, push_arena, push_raw, note_payload}
use ioutgt.Tcp.{Completion, SendWork, response, r2t, TcpQueue}

abbrev pub arena_per_item : ℕ
arena_per_item = 64

abbrev pub iovs_per_item : ℕ
iovs_per_item = max_segs + 3

-- The batch and the memory that it refers to.
abbrev pub Stage : Type 0
Stage = GatherBatch × Memory

-- An encoder writes at the tail of the arena, and its bytes are pushed.
unfoldable pub encoded : Stage → (List ℕ → Encoded) → Exec Stage
encoded (gather, mem) encode = encode (arena_tail gather mem) >>= λ (buf, n).
    returns (push_arena gather n, copy_to mem (gather.arena_ptr + gather.arena_used) buf)

-- The payload, in place: parts of the segments until none of it remains.
unfoldable pub push_payload : GatherBatch → List Seg → ℕ → GatherBatch
push_payload gather [] remaining = gather
push_payload gather (s ∷ segs) remaining =
    let part = min remaining s.len in
    let rest = push_payload (push_raw gather s.ptr part) segs (remaining - part) in
    if remaining == 0 then gather else rest

module _ (crc : List ℕ → ℕ) (crc_append : ℕ → List ℕ → ℕ) where
  -- The digest over the chunks of a range.
  unfoldable pub digest_over : Memory → ℕ → List Seg → ℕ
  digest_over mem state [] = state
  digest_over mem state (c ∷ chunks) =
      digest_over mem (crc_append state (map mem (addrs (c ∷ [])))) chunks

  unfoldable pub push_ddgst : Stage → List Seg → ℕ → Exec Stage
  push_ddgst (gather, mem) segs data_len =
      let (chunks, left) = for_each_seg segs 0 data_len in
      if not (left == 0)
      then panics
      else encoded (gather, mem)
          λ buf. put buf (le 4 (digest_over mem 0 chunks)) >>= λ buf'. returns (buf', 4)

  unfoldable pub push_data : Stage → TcpQueue → Completion → Bool → Bool → Bool → Exec Stage
  push_data st queue c success_elide hdr_digest data_digest =
      encoded st (λ buf.
        encode_c2h_data crc buf c.cqe.cid 0 c.data_len true success_elide hdr_digest data_digest)
      >>= λ (gather, mem). slot queue.nvme.slots c.tag >>= λ s.
          let staged = note_payload (push_payload gather s.slot_data.segs c.data_len) c.data_len in
          if data_digest
          then push_ddgst (staged, mem) s.slot_data.segs c.data_len
          else returns (staged, mem)

  unfoldable pub stage_send_work : Stage → TcpQueue → SendWork → Bool → Bool → Exec Stage
  stage_send_work st queue (r2t tag cid offset length) hdr_digest data_digest =
      encoded st (λ buf. encode_r2t crc buf cid tag offset length hdr_digest)
  stage_send_work st queue (response c) hdr_digest data_digest =
      let success_elide = ltb 0 c.data_len && queue.nvme.sqhd_disabled && c.cqe.status == 0 in
      (if ltb 0 c.data_len
        then push_data st queue c success_elide hdr_digest data_digest
        else returns st)
      >>= λ st'.
          if success_elide
          then returns st'
          else encoded st' (λ buf. encode_capsule_resp crc buf c.cqe hdr_digest)

-- When the tag of an item is released: not at all, with the send, or with its notification.
pub data Staged : Type 0 where
  no_release : Staged
  at_cqe : (tag : ℕ) → Staged
  at_notif : (tag : ℕ) → Staged

pub release_class : SendWork → Staged
release_class (response c) = if ltb 0 c.data_len then at_notif c.tag else at_cqe c.tag
release_class (r2t tag cid offset length) = no_release
