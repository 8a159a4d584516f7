-- ===== src/Pdu/Encode.antt =====
-- crates/ioutgt-nvme/src/pdu.rs: the encoders. They write to a buffer of the caller and return the length
-- of the header; a buffer that is too short makes them panic. `crc` is the CRC32C of the `crc32c` crate.
use Prim.Native.Nat.{bit_or}
use ioutgt.Base.{
  ℕ, ◌+◌, Bool, true, false, ◌&&◌, List, ◌++◌, Exec, returns, panics, ◌>>=◌, add_u32, ltb,
  if◌then◌else◌, length, take, drop,
}
use ioutgt.Wire.{Fields, emit, le}
use ioutgt.Spec.{Sqe, Cqe, sqe_fields, cqe_fields}
use ioutgt.Pdu.Decode.{digest_len}
use ioutgt.Pdu.{
  CommonHeader, common_fields, IcParams, ic_fields, PduError, term_fields, DataFields, data_fields,
  icreq, icresp, c2h_term, capsule_cmd, capsule_resp, h2c_data, c2h_data, r2t, hdgst_flag,
  ddgst_flag, data_last, data_success,
}

-- What an encoder leaves: the buffer, and the length of the header.
abbrev pub Encoded : Type 0
Encoded = Exec (List ℕ × ℕ)

-- `buf[..bytes.len()].copy_from_slice(bytes)`
unfoldable pub put : List ℕ → List ℕ → Exec (List ℕ)
put buf bytes =
    if ltb (length buf) (length bytes) then panics else returns (bytes ++ drop (length bytes) buf)

unfoldable pub put_hdgst : (List ℕ → ℕ) → List ℕ → ℕ → Encoded
put_hdgst crc buf hlen =
    if ltb (length buf) (hlen + 4)
    then panics
    else returns (take hlen buf ++ (le 4 (crc (take hlen buf)) ++ drop (hlen + 4) buf), hlen + 4)

-- How an encoder ends: the bytes of the header, and then its digest if one is wanted.
unfoldable pub seal : (List ℕ → ℕ) → List ℕ → Fields → ℕ → Bool → Encoded
unfolding put put_hdgst
seal crc buf fields hlen hdgst = put buf (emit fields) >>= λ buf'.
    if hdgst then put_hdgst crc buf' hlen else returns (buf', hlen)

unfoldable pub common : ℕ → ℕ → ℕ → ℕ → ℕ → CommonHeader
common pdu_type flags hlen pdo plen = record {
  pdu_type = pdu_type;
  flags = flags;
  hlen = hlen;
  pdo = pdo;
  plen = plen;
}

-- `bits |= mask` under a condition.
abbrev pub or_if : Bool → ℕ → ℕ → ℕ
or_if true mask bits = bit_or bits mask
or_if false mask bits = bits

unfoldable pub digest_bits : Bool → Bool → ℕ
digest_bits hdgst ddgst = or_if ddgst 2 (or_if hdgst 1 0)

unfoldable pub encode_icreq : (List ℕ → ℕ) → List ℕ → Bool → Bool → ℕ → Encoded
unfolding seal common digest_bits
encode_icreq crc buf hdgst ddgst maxr2t =
    let p : IcParams = record {
      pfv = 0;
      pda = 0;
      digest = digest_bits hdgst ddgst;
      limit = maxr2t;
    } in
    seal crc buf (common_fields (common icreq 0 128 0 128) ++ ic_fields p) 128 false

unfoldable pub encode_icresp : (List ℕ → ℕ) → List ℕ → Bool → Bool → ℕ → Encoded
unfolding seal common digest_bits
encode_icresp crc buf hdgst ddgst maxdata =
    let p : IcParams = record {
      pfv = 0;
      pda = 0;
      digest = digest_bits hdgst ddgst;
      limit = maxdata;
    } in
    seal crc buf (common_fields (common icresp 0 128 0 128) ++ ic_fields p) 128 false

unfoldable pub encode_capsule_cmd : (List ℕ → ℕ) → List ℕ → Sqe → Bool → ℕ → Bool → Encoded
unfolding seal common
encode_capsule_cmd crc buf sqe hdgst data_len ddgst =
    let has_data = ltb 0 data_len in
    let plen = add_u32 (72 + digest_len hdgst + data_len) (digest_len (ddgst && has_data)) in
    let flags = or_if (ddgst && has_data) ddgst_flag (or_if hdgst hdgst_flag 0) in
    let pdo = if has_data then 72 + digest_len hdgst else 0 in
    seal crc buf (common_fields (common capsule_cmd flags 72 pdo plen) ++ sqe_fields sqe) 72 hdgst

unfoldable pub encode_capsule_resp : (List ℕ → ℕ) → List ℕ → Cqe → Bool → Encoded
unfolding seal common
encode_capsule_resp crc buf cqe hdgst =
    let plen = 24 + digest_len hdgst in
    let flags = or_if hdgst hdgst_flag 0 in
    seal crc buf (common_fields (common capsule_resp flags 24 0 plen) ++ cqe_fields cqe) 24 hdgst

unfoldable pub encode_data_pdu : (List ℕ → ℕ) → List ℕ → ℕ → ℕ → DataFields → Bool → Bool → Encoded
unfolding seal common
encode_data_pdu crc buf pdu_type base_flags d hdgst ddgst =
    let flags = or_if ddgst ddgst_flag (or_if hdgst hdgst_flag base_flags) in
    let plen = add_u32 (24 + digest_len hdgst + d.data_length) (digest_len ddgst) in
    seal crc buf
      (common_fields (common pdu_type flags 24 (24 + digest_len hdgst) plen) ++ data_fields d) 24
      hdgst

-- `cid`, `data_offset`, `data_length`, then `last`, `success`, `hdgst`, `ddgst`.
unfoldable pub encode_c2h_data :
    (List ℕ → ℕ) → List ℕ → ℕ → ℕ → ℕ → Bool → Bool → Bool → Bool → Encoded
unfolding encode_data_pdu
encode_c2h_data crc buf cid data_offset data_length last success hdgst ddgst =
    let base_flags = or_if success data_success (or_if last data_last 0) in
    let d : DataFields = record {
      cid = cid;
      ttag = 0;
      data_offset = data_offset;
      data_length = data_length;
    } in
    encode_data_pdu crc buf c2h_data base_flags d hdgst ddgst

unfoldable pub encode_r2t : (List ℕ → ℕ) → List ℕ → ℕ → ℕ → ℕ → ℕ → Bool → Encoded
unfolding seal common
encode_r2t crc buf cid ttag offset len hdgst =
    let plen = 24 + digest_len hdgst in
    let flags = or_if hdgst hdgst_flag 0 in
    let d : DataFields = record {
      cid = cid;
      ttag = ttag;
      data_offset = offset;
      data_length = len;
    } in
    seal crc buf (common_fields (common r2t flags 24 0 plen) ++ data_fields d) 24 hdgst

-- `cid`, `ttag`, `data_offset`, `data_length`, then `last`, `hdgst`, `ddgst`.
unfoldable pub encode_h2c_data :
    (List ℕ → ℕ) → List ℕ → ℕ → ℕ → ℕ → ℕ → Bool → Bool → Bool → Encoded
unfolding encode_data_pdu
encode_h2c_data crc buf cid ttag data_offset data_length last hdgst ddgst =
    let base_flags = or_if last data_last 0 in
    let d : DataFields = record {
      cid = cid;
      ttag = ttag;
      data_offset = data_offset;
      data_length = data_length;
    } in
    encode_data_pdu crc buf h2c_data base_flags d hdgst ddgst

unfoldable pub encode_c2h_term : (List ℕ → ℕ) → List ℕ → PduError → Encoded
unfolding seal common
encode_c2h_term crc buf error =
    seal crc buf (common_fields (common c2h_term 0 24 0 24) ++ term_fields error) 24 false
