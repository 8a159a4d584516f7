-- ===== src/Tcp/Send/Pieces.antt =====
-- crates/ioutgt-nvme-tcp/src/send.rs: the pieces of a response, each with the bytes that it adds to a batch.
use ioutgt.Base.{
  ℕ, ◌+◌, ◌≤◌, ◌≡◌, refl, sym, ap, ◌∙◌, Bool, true, false, List, [], ◌∷◌, ◌++◌, map, returns, ◌>>=◌,
  Ret, arith, ltb, if◌then◌else◌, length, length-append, length-drop, take, drop, add_u32,
}
use mathlib.Core.List.{append-nil}
use ioutgt.Wire.{Fields, emit, le, length-le, length-emit}
use ioutgt.Spec.{cqe_fields}
use ioutgt.Pool.{Seg, Memory, for_each_seg}
use ioutgt.Pool.Bytes.{addrs, range, for_each_seg-all, for_each_seg-addrs}
use ioutgt.Pdu.{common_fields, DataFields, data_fields, c2h_data, capsule_resp, hdgst_flag}
use ioutgt.Pdu.Decode.{digest_len}
use ioutgt.Pdu.Encode.{
  put, seal, common, or_if, encode_data_pdu, encode_c2h_data, encode_capsule_resp,
}
use ioutgt.Pdu.Messages.{digest_len-le, c2h_flags}
use ioutgt.Pdu.RoundTrip.{seal-wire, digest_of, length-digest_of}
use ioutgt.Gather.{GatherBatch, arena_tail}
use ioutgt.Tcp.{Completion}
use ioutgt.Tcp.Send.{encoded, digest_over, push_ddgst}
use ioutgt.Tcp.Send.Layout.{length-arena_tail}
use ioutgt.Tcp.Send.Contents.{Wrote, Encoding, encoded-Wrote, nothing-Wrote, map-append}

-- The bytes of a header: its fields, and their digest if one is wanted.
abbrev pub header_bytes : (List ℕ → ℕ) → Fields → Bool → List ℕ
header_bytes crc fields hdgst = emit fields ++ digest_of crc hdgst (emit fields)

seal-Encoding :
    (crc : List ℕ → ℕ) (buf : List ℕ) (fields : Fields) (hlen : ℕ) (hdgst : Bool)
    → length (emit fields) ≡ hlen
    → hlen + digest_len hdgst ≤ length buf
    → Ret (Encoding (header_bytes crc fields hdgst) buf) (seal crc buf fields hlen hdgst)
seal-Encoding crc buf fields hlen hdgst size room =
    let (rest, e, total) = seal-wire crc buf fields hlen hdgst size room in
    let bytes = header_bytes crc fields hdgst in
    let digest = length-digest_of crc hdgst (emit fields) in
    let whole : length bytes ≡ hlen + digest_len hdgst =
      omega
        (arith, length-append (emit fields) (digest_of crc hdgst (emit fields)), digest, size) in
    rw e (rest, refl, sym whole, omega (arith, length-append bytes rest, whole, total))

put-Encoding :
    (buf bytes : List ℕ) (n : ℕ)
    → length bytes ≡ n
    → n ≤ length buf
    → Ret (Encoding bytes buf) (put buf bytes >>= λ buf'. returns (buf', n))
unfolding put
put-Encoding buf bytes n e room =
    let fits : ltb (length buf) (length bytes) ≡ false = ground arith in
    rw fits (
      drop n buf,
      ap (λ k. bytes ++ drop k buf) e,
      sym e,
      omega (arith, length-append bytes (drop (length bytes) buf), length-drop (length bytes) buf),
    )

-- The fields of the C2HData header of a completion.
abbrev pub data_header : Completion → Bool → Bool → Bool → Fields
data_header c success hdgst ddgst =
    let d : DataFields = record {
      cid = c.cqe.cid;
      ttag = 0;
      data_offset = 0;
      data_length = c.data_len;
    } in
    common_fields (
      common c2h_data (c2h_flags true success hdgst ddgst) 24 (24 + digest_len hdgst)
        (add_u32 (24 + digest_len hdgst + c.data_len) (digest_len ddgst)))
    ++ data_fields d

abbrev pub capsule_header : Completion → Bool → Fields
capsule_header c hdgst =
    common_fields (common capsule_resp (or_if hdgst hdgst_flag 0) 24 0 (24 + digest_len hdgst))
    ++ cqe_fields c.cqe

-- The digest of a payload.
abbrev pub trailer : (ℕ → List ℕ → ℕ) → Bool → List ℕ → List ℕ
trailer crc_append true payload = le 4 (crc_append 0 payload)
trailer crc_append false payload = []

-- The law of a digest that is computed piece by piece.
pub record IsDigest (crc_append : ℕ → List ℕ → ℕ) : Type 0 where
  pub none_more : (c : ℕ) → crc_append c [] ≡ c
  pub more : (c : ℕ) (xs ys : List ℕ) → crc_append (crc_append c xs) ys ≡ crc_append c (xs ++ ys)

module _ (crc : List ℕ → ℕ) (crc_append : ℕ → List ℕ → ℕ) where
  digest_over-whole :
      (mem : Memory) (c : ℕ) (chunks : List Seg)
      → IsDigest crc_append
      → digest_over crc crc_append mem c chunks ≡ crc_append c (map mem (addrs chunks))
  unfolding digest_over addrs
  digest_over-whole mem c [] law = sym (law.none_more c)
  digest_over-whole mem c (s ∷ chunks) law =
      let here = map mem (addrs (s ∷ [])) in
      digest_over-whole mem (crc_append c here) chunks law
      ∙ law.more c here (map mem (addrs chunks))
      ∙ ap (crc_append c) (
          sym (map-append mem (range s.ptr s.len ++ []) (addrs chunks))
          ∙ ap (λ t. map mem (t ++ addrs chunks)) (append-nil (range s.ptr s.len)))

  pub header-Wrote :
      (b : GatherBatch) (mem : Memory) (c : Completion) (success hdgst ddgst : Bool)
      → b.arena_used + 28 ≤ b.arena_len
      → let bytes = header_bytes crc (data_header c success hdgst ddgst) hdgst in
        Ret (Wrote b mem (length bytes) bytes) (
          encoded
            (b, mem)
            (λ buf. encode_c2h_data crc buf c.cqe.cid 0 c.data_len true success hdgst ddgst))
  unfolding encode_c2h_data encode_data_pdu common
  header-Wrote b mem c success hdgst ddgst room =
      encoded-Wrote b mem _ (header_bytes crc (data_header c success hdgst ddgst) hdgst)
        (omega arith)
        (seal-Encoding crc (arena_tail b mem) (data_header c success hdgst ddgst) 24 hdgst
          (length-emit _) (omega (arith, length-arena_tail b mem, digest_len-le hdgst)))

  pub capsule-Wrote :
      (b : GatherBatch) (mem : Memory) (c : Completion) (hdgst : Bool)
      → b.arena_used + 28 ≤ b.arena_len
      → let bytes = header_bytes crc (capsule_header c hdgst) hdgst in
        Ret
          (Wrote b mem (length bytes) bytes)
          (encoded (b, mem) (λ buf. encode_capsule_resp crc buf c.cqe hdgst))
  unfolding encode_capsule_resp common
  capsule-Wrote b mem c hdgst room =
      encoded-Wrote b mem _ (header_bytes crc (capsule_header c hdgst) hdgst) (omega arith) (
        seal-Encoding crc (arena_tail b mem) (capsule_header c hdgst) 24 hdgst (length-emit _)
          (omega (arith, length-arena_tail b mem, digest_len-le hdgst)))

  pub ddgst-Wrote :
      (b : GatherBatch) (mem : Memory) (segs : List Seg) (n : ℕ) (ddgst : Bool)
      → IsDigest crc_append
      → n ≤ length (addrs segs)
      → b.arena_used + 4 ≤ b.arena_len
      → let bytes = trailer crc_append ddgst (map mem (take n (addrs segs))) in
        Ret
          (Wrote b mem (length bytes) bytes)
          (if ddgst then push_ddgst crc crc_append (b, mem) segs n else returns (b, mem))
  unfolding push_ddgst
  ddgst-Wrote b mem segs n true law h room =
      let payload = map mem (take n (addrs segs)) in
      let chunks = (for_each_seg segs 0 n).0 in
      let digest : digest_over crc crc_append mem 0 chunks ≡ crc_append 0 payload =
        digest_over-whole mem 0 chunks law
        ∙ ap (λ t. crc_append 0 (map mem t)) (for_each_seg-addrs segs 0 n) in
      rw (for_each_seg-all segs n h, digest)
        (encoded-Wrote b mem _ (le 4 (crc_append 0 payload)) (omega arith) (
          put-Encoding (arena_tail b mem) (le 4 (crc_append 0 payload)) 4 (length-le 4 _)
            (omega (arith, length-arena_tail b mem))))
  ddgst-Wrote b mem segs n false law h room = nothing-Wrote b mem
