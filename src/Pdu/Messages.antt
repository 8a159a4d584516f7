-- ===== src/Pdu/Messages.antt =====
-- crates/ioutgt-nvme/src/pdu.rs: each encoder of a PDU behind the handshake, read back by the decoder.
use ioutgt.Base.{
  ℕ, ◌+◌, ◌≤◌, ◌<◌, ◌^◌, Bool, true, false, not, ◌&&◌, ◌||◌, List, ◌++◌, ◌≡◌, refl, ap, ◌∙◌, arith,
  ltb, ◌==◌, if◌then◌else◌, length, add_u32, Exec, returns, ==_iff,
}
use ioutgt.Wire.{emit, values, Fits, values-emit, length-emit}
use ioutgt.Pdu.{
  CommonHeader, common_fields, DataFields, data_fields, data_of, data_widths, PduKind, c2h_data_pdu,
  h2c_data_pdu, hdgst_flag, ddgst_flag, data_last, data_success, c2h_data, h2c_data, max_plen,
  hdr_field,
}
use ioutgt.Pdu.Decode
use ioutgt.Pdu.Encode
use ioutgt.Pdu.Header.{behind_common}
use ioutgt.Pdu.RoundTrip.{received, sealed-received, ltb-false}

-- The checks of a header, as equations of its fields.
pub check_header-ok :
    (h : CommonHeader) (expected : ℕ) (hdgst : Bool)
    → (h.hlen == expected) ≡ true
    → (Decode.has_flag h.flags hdgst_flag && not hdgst) ≡ false
    → (ltb h.plen (expected + Decode.digest_len hdgst) || ltb max_plen h.plen) ≡ false
    → Decode.exact_plen h.pdu_type (expected + Decode.digest_len hdgst) h.plen ≡ true
    → (Decode.has_flag h.flags ddgst_flag
        && ltb h.plen (expected + Decode.digest_len hdgst + 4 + 1))
      ≡ false
    → Decode.check_header h expected hdgst ≡ Decode.ok (expected + Decode.digest_len hdgst)
unfolding Decode.check_header
check_header-ok h expected hdgst e1 e2 e3 e4 e5 = rw (e1, e2, e3, e4, e5)

-- The typed part of a data PDU.
pub data_at-emit :
    (h : CommonHeader) (d : DataFields) (digest : List ℕ)
    → Fits (data_fields d)
    → Decode.data_at (emit (common_fields h) ++ (emit (data_fields d) ++ digest)) ≡ d
data_at-emit h d digest fit =
    ap (λ t. data_of (values data_widths t).0) (behind_common h (emit (data_fields d) ++ digest))
    ∙ ap (λ p. data_of p.0) (values-emit (data_fields d) digest fit)

-- The flags of a data PDU.
abbrev pub c2h_flags : Bool → Bool → Bool → Bool → ℕ
c2h_flags last success hdgst ddgst = Encode.or_if ddgst ddgst_flag (
    Encode.or_if hdgst hdgst_flag
      (Encode.or_if success data_success (Encode.or_if last data_last 0)))

-- What the decoder reads in flags: the two digests, and the two of data.
abbrev pub Flags : ℕ → Bool → Bool → Bool → Bool → Type 0
Flags f last success hdgst ddgst =
    (f < 256)
    × (Decode.has_flag f hdgst_flag ≡ hdgst)
    × (Decode.has_flag f ddgst_flag ≡ ddgst)
    × (Decode.has_flag f data_last ≡ last)
    × (Decode.has_flag f data_success ≡ success)

pub c2h_flags-Flags :
    (last success hdgst ddgst : Bool)
    → Flags (c2h_flags last success hdgst ddgst) last success hdgst ddgst
c2h_flags-Flags true true true true = (omega arith, refl, refl, refl, refl)
c2h_flags-Flags true true true false = (omega arith, refl, refl, refl, refl)
c2h_flags-Flags true true false true = (omega arith, refl, refl, refl, refl)
c2h_flags-Flags true true false false = (omega arith, refl, refl, refl, refl)
c2h_flags-Flags true false true true = (omega arith, refl, refl, refl, refl)
c2h_flags-Flags true false true false = (omega arith, refl, refl, refl, refl)
c2h_flags-Flags true false false true = (omega arith, refl, refl, refl, refl)
c2h_flags-Flags true false false false = (omega arith, refl, refl, refl, refl)
c2h_flags-Flags false true true true = (omega arith, refl, refl, refl, refl)
c2h_flags-Flags false true true false = (omega arith, refl, refl, refl, refl)
c2h_flags-Flags false true false true = (omega arith, refl, refl, refl, refl)
c2h_flags-Flags false true false false = (omega arith, refl, refl, refl, refl)
c2h_flags-Flags false false true true = (omega arith, refl, refl, refl, refl)
c2h_flags-Flags false false true false = (omega arith, refl, refl, refl, refl)
c2h_flags-Flags false false false true = (omega arith, refl, refl, refl, refl)
c2h_flags-Flags false false false false = (omega arith, refl, refl, refl, refl)

pub and_not : (b : Bool) → (b && not b) ≡ false
and_not true = refl
and_not false = refl

pub digest_len-le : (b : Bool) → Decode.digest_len b ≤ 4
digest_len-le true = omega arith
digest_len-le false = omega arith

-- A data digest is only sent with data.
pub ddgst_room :
    (ddgst : Bool) (plen least data_length : ℕ)
    → (ddgst ≡ true → 0 < data_length)
    → plen ≡ least + data_length + Decode.digest_len ddgst
    → (ddgst && ltb plen (least + 4 + 1)) ≡ false
ddgst_room true plen least data_length some_data e =
    ltb-false plen (least + 4 + 1) (omega (arith, some_data refl))
ddgst_room false plen least data_length some_data e = refl

pub plen_ok :
    (plen least : ℕ)
    → least ≤ plen
    → plen ≤ max_plen
    → (ltb plen least || ltb max_plen plen) ≡ false
plen_ok plen least h k = rw (ltb-false plen least h, ltb-false max_plen plen k)

pub pdo_ok : (x n : ℕ) → x ≡ n → (not (x == 0) && not (x == n)) ≡ false
pdo_ok x n e = ground (arith, (==_iff x n).1 e)

-- The typed headers of the data PDUs, of the fields that the decoder reads.
abbrev c2h_kind : DataFields → Bool → Bool → Exec (Decode.Checked PduKind)
c2h_kind d last success =
    returns (Decode.ok (c2h_data_pdu d.cid d.data_offset d.data_length last success))

kind_of-c2h_data :
    (flags hlen pdo plen : ℕ) (buf : List ℕ) (n : ℕ)
    → Decode.kind_of (Encode.common c2h_data flags hlen pdo plen) buf n
      ≡ c2h_kind
          (Decode.data_at buf)
          (Decode.has_flag flags data_last)
          (Decode.has_flag flags data_success)
unfolding Decode.kind_of Encode.common
kind_of-c2h_data flags hlen pdo plen buf n = refl

abbrev h2c_kind : DataFields → ℕ → Bool → Exec (Decode.Checked PduKind)
h2c_kind d n last =
    if not (d.data_length == n)
    then returns (Decode.err (hdr_field 12))
    else returns (Decode.ok (h2c_data_pdu d.cid d.ttag d.data_offset d.data_length last))

kind_of-h2c_data :
    (flags hlen pdo plen : ℕ) (buf : List ℕ) (n : ℕ)
    → Decode.kind_of (Encode.common h2c_data flags hlen pdo plen) buf n
      ≡ h2c_kind (Decode.data_at buf) n (Decode.has_flag flags data_last)
unfolding Decode.kind_of Encode.common
kind_of-h2c_data flags hlen pdo plen buf n = refl

h2c_kind-same :
    (d : DataFields) (last : Bool)
    → h2c_kind d d.data_length last
      ≡ returns (Decode.ok (h2c_data_pdu d.cid d.ttag d.data_offset d.data_length last))
h2c_kind-same d last = rw ((==_iff d.data_length d.data_length).1 refl)

-- The header of `encode_c2h_data`, read back: for sizes that fit a PDU, and data if a data digest is
-- asked for, the decoder takes the header and its digest whatever the payload behind them is, gives the
-- fields that were encoded, the length of the payload and whether a digest trails it, and is new again.
pub received-encode_c2h_data :
    (crc : List ℕ → ℕ) (buf payload : List ℕ) (cid data_offset data_length : ℕ)
    (last success hdgst ddgst : Bool)
    → ((bs : List ℕ) → crc bs < 2 ^ 32)
    → 24 + Decode.digest_len hdgst ≤ length buf
    → cid < 2 ^ 16
    → data_offset < 2 ^ 32
    → 24 + Decode.digest_len hdgst + data_length + Decode.digest_len ddgst ≤ max_plen
    → (ddgst ≡ true → 0 < data_length)
    → received crc hdgst payload
        (Encode.encode_c2h_data crc buf cid data_offset data_length last success hdgst ddgst)
      ≡ (
        Decode.ok (24 + Decode.digest_len hdgst),
        returns (
          Decode.ok (record {
            kind = c2h_data_pdu cid data_offset data_length last success;
            data_len = data_length;
            ddgst = ddgst;
          }),
          Decode.new hdgst,
        ),
      )
unfolding Encode.encode_c2h_data Encode.encode_data_pdu Encode.common Decode.header_len
    Decode.shape_of Decode.exact_plen
received-encode_c2h_data crc buf payload cid data_offset data_length last success hdgst ddgst small
      room cid_fits offset_fits size some_data =
    let d : DataFields = record {
      cid = cid;
      ttag = 0;
      data_offset = data_offset;
      data_length = data_length;
    } in
    let flags = c2h_flags last success hdgst ddgst in
    let (byte, has_hdgst, has_ddgst, has_last, has_success) =
      c2h_flags-Flags last success hdgst ddgst in
    let plen = add_u32 (24 + Decode.digest_len hdgst + data_length) (Decode.digest_len ddgst) in
    let h = Encode.common c2h_data flags 24 (24 + Decode.digest_len hdgst) plen in
    let wire_len = 24 + Decode.digest_len hdgst in
    let plen_eq : plen ≡ wire_len + data_length + Decode.digest_len ddgst = omega arith in
    let fit_d : Fits (data_fields d) =
      (omega arith, (omega arith, (omega arith, (omega arith, (omega arith, tt))))) in
    let fit_h : Fits (common_fields h) = (
      omega arith,
      (byte, (omega arith, (omega (arith, digest_len-le hdgst), (omega arith, tt)))),
    ) in
    let checked : Decode.check_header h 24 hdgst ≡ Decode.ok wire_len =
      check_header-ok h 24 hdgst refl (rw has_hdgst (and_not hdgst))
        (plen_ok plen wire_len (omega arith) (omega arith)) refl
        (rw has_ddgst (ddgst_room ddgst plen wire_len data_length some_data plen_eq)) in
    sealed-received crc buf payload hdgst hdgst ddgst h (data_fields d) data_length
      (c2h_data_pdu cid data_offset data_length last success) small room fit_h
      (omega (arith, length-emit (data_fields d))) checked refl has_ddgst
      (pdo_ok h.pdo wire_len refl) (omega arith)
      (λ digest.
        kind_of-c2h_data flags 24 wire_len plen
          (emit (common_fields h) ++ (emit (data_fields d) ++ digest)) data_length
        ∙ ap
            (λ x. c2h_kind x (Decode.has_flag flags data_last) (Decode.has_flag flags data_success))
            (data_at-emit h d digest fit_d)
        ∙ ap (λ b. c2h_kind d b (Decode.has_flag flags data_success)) has_last
        ∙ ap (c2h_kind d last) has_success)

-- The header of `encode_h2c_data`, read back: for sizes that fit a PDU, and data if a data digest is
-- asked for, the decoder takes the header and its digest whatever the payload behind them is, gives the
-- fields that were encoded, the length of the payload and whether a digest trails it, and is new again.
pub received-encode_h2c_data :
    (crc : List ℕ → ℕ) (buf payload : List ℕ) (cid ttag data_offset data_length : ℕ)
    (last hdgst ddgst : Bool)
    → ((bs : List ℕ) → crc bs < 2 ^ 32)
    → 24 + Decode.digest_len hdgst ≤ length buf
    → cid < 2 ^ 16
    → ttag < 2 ^ 16
    → data_offset < 2 ^ 32
    → 24 + Decode.digest_len hdgst + data_length + Decode.digest_len ddgst ≤ max_plen
    → (ddgst ≡ true → 0 < data_length)
    → received crc hdgst payload
        (Encode.encode_h2c_data crc buf cid ttag data_offset data_length last hdgst ddgst)
      ≡ (
        Decode.ok (24 + Decode.digest_len hdgst),
        returns (
          Decode.ok (record {
            kind = h2c_data_pdu cid ttag data_offset data_length last;
            data_len = data_length;
            ddgst = ddgst;
          }),
          Decode.new hdgst,
        ),
      )
unfolding Encode.encode_h2c_data Encode.encode_data_pdu Encode.common Decode.header_len
    Decode.shape_of Decode.exact_plen
received-encode_h2c_data crc buf payload cid ttag data_offset data_length last hdgst ddgst small
      room cid_fits ttag_fits offset_fits size some_data =
    let d : DataFields = record {
      cid = cid;
      ttag = ttag;
      data_offset = data_offset;
      data_length = data_length;
    } in
    let flags = c2h_flags last false hdgst ddgst in
    let (byte, has_hdgst, has_ddgst, has_last, has_success) =
      c2h_flags-Flags last false hdgst ddgst in
    let plen = add_u32 (24 + Decode.digest_len hdgst + data_length) (Decode.digest_len ddgst) in
    let h = Encode.common h2c_data flags 24 (24 + Decode.digest_len hdgst) plen in
    let wire_len = 24 + Decode.digest_len hdgst in
    let plen_eq : plen ≡ wire_len + data_length + Decode.digest_len ddgst = omega arith in
    let fit_d : Fits (data_fields d) =
      (omega arith, (omega arith, (omega arith, (omega arith, (omega arith, tt))))) in
    let fit_h : Fits (common_fields h) = (
      omega arith,
      (byte, (omega arith, (omega (arith, digest_len-le hdgst), (omega arith, tt)))),
    ) in
    let checked : Decode.check_header h 24 hdgst ≡ Decode.ok wire_len =
      check_header-ok h 24 hdgst refl (rw has_hdgst (and_not hdgst))
        (plen_ok plen wire_len (omega arith) (omega arith)) refl
        (rw has_ddgst (ddgst_room ddgst plen wire_len data_length some_data plen_eq)) in
    sealed-received crc buf payload hdgst hdgst ddgst h (data_fields d) data_length
      (h2c_data_pdu cid ttag data_offset data_length last) small room fit_h
      (omega (arith, length-emit (data_fields d))) checked refl has_ddgst
      (pdo_ok h.pdo wire_len refl) (omega arith)
      (λ digest.
        kind_of-h2c_data flags 24 wire_len plen
          (emit (common_fields h) ++ (emit (data_fields d) ++ digest)) data_length
        ∙ ap (λ x. h2c_kind x data_length (Decode.has_flag flags data_last))
            (data_at-emit h d digest fit_d)
        ∙ ap (h2c_kind d data_length) has_last
        ∙ h2c_kind-same d last)
