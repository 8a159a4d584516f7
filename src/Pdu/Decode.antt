-- ===== src/Pdu/Decode.antt =====
-- crates/ioutgt-nvme/src/pdu.rs: `PduDecoder`. `buf` holds the `have` bytes that were received; the
-- bytes of the fixed buffer behind them are not read. `crc` is the CRC32C of the `crc32c` crate.
use Prim.Native.Nat.{bit_and}
use ioutgt.Base.{
  ℕ, ◌+◌, ◌-◌, Bool, true, false, not, ◌&&◌, ◌||◌, List, [], ◌++◌, Exec, returns, panics, sub_u32,
  ltb, leb, ◌==◌, if◌then◌else◌, length, take, drop,
}
use ioutgt.Wire.{values, de}
use ioutgt.Spec.{sqe_widths, sqe_of, cqe_widths, cqe_of}
use ioutgt.Pdu.{
  CommonHeader, common_widths, common_of, ic_widths, ic_of, term_widths, term_of, data_widths,
  data_of, DataFields, PduError, PduKind, DecodedPdu, ic_req, ic_resp, term, capsule_cmd_pdu,
  capsule_resp_pdu, h2c_data_pdu, c2h_data_pdu, r2t_pdu, icreq, icresp, h2c_term, c2h_term,
  capsule_cmd, capsule_resp, h2c_data, c2h_data, r2t, hdgst_flag, ddgst_flag, data_last,
  data_success, hdr_digest_err, max_plen, hdr_field,
}

pub data DecodeState : Type 0 where
  common rest complete : DecodeState

pub record PduDecoder : Type 0 where
  pub hdr_digest : Bool
  pub buf : List ℕ
  pub need : ℕ
  pub state : DecodeState

pub data Checked (A : Type 0) : Type 0 where
  ok : A → Checked A
  err : PduError → Checked A

unfoldable pub new : Bool → PduDecoder
new hdr_digest = record { hdr_digest = hdr_digest; buf = []; need = 8; state = common }

unfoldable pub is_complete : PduDecoder → Bool
is_complete d = elim d.state [ complete ↦ true | _ ↦ false ]

-- `flags & mask != 0`
abbrev pub has_flag : ℕ → ℕ → Bool
has_flag flags mask = not (bit_and flags mask == 0)

-- `CommonHeader::read_from_bytes`
unfoldable pub header_of : List ℕ → CommonHeader
header_of bytes = common_of (values common_widths bytes).0

-- The expected header length of a type, and whether it can carry a header digest.
unfoldable pub shape_of : ℕ → Checked (ℕ × Bool)
shape_of t =
    if t == icreq || t == icresp
    then ok (128, false)
    else if t == h2c_term || t == c2h_term
    then ok (24, false)
    else if t == capsule_cmd
    then ok (72, true)
    else if t == capsule_resp
    then ok (24, true)
    else if t == h2c_data || (t == c2h_data || t == r2t)
    then ok (24, true)
    else err (hdr_field 0)

-- The types whose length is fixed.
unfoldable pub exact_plen : ℕ → ℕ → ℕ → Bool
exact_plen t header_wire plen =
    if t == icreq || t == icresp
    then plen == 128
    else if t == capsule_resp || t == r2t
    then plen == header_wire
    else true

abbrev pub digest_len : Bool → ℕ
digest_len true = 4
digest_len false = 0

-- The checks of `full_header_len` behind the type, in order; `hdgst` says that a digest follows.
unfoldable pub check_header : CommonHeader → ℕ → Bool → Checked ℕ
unfolding exact_plen
check_header h expected hdgst =
    let header_wire = expected + digest_len hdgst in
    if not (h.hlen == expected)
    then err (hdr_field 2)
    else if has_flag h.flags hdgst_flag && not hdgst
    then err (hdr_field 1)
    else if ltb h.plen header_wire || ltb max_plen h.plen
    then err (hdr_field 4)
    else if not (exact_plen h.pdu_type header_wire h.plen)
    then err (hdr_field 4)
    else if has_flag h.flags ddgst_flag && ltb h.plen (header_wire + 4 + 1)
    then err (hdr_field 4)
    else ok header_wire

unfoldable pub header_len : CommonHeader → Bool → Checked ℕ
unfolding shape_of check_header
header_len h hdr_digest = elim (shape_of h.pdu_type) [
  | err e ↦ err e
  | ok (expected, digestable) ↦ check_header h expected (digestable && hdr_digest)
]

unfoldable pub full_header_len : PduDecoder → Checked ℕ
unfolding header_of header_len
full_header_len d = header_len (header_of (take 8 d.buf)) d.hdr_digest

-- What `feed` gives: the bytes consumed, and the decoder.
pub record Fed : Type 0 where
  pub answer : Checked ℕ
  pub decoder : PduDecoder

-- The copy of one round: as many bytes as are wanted and there.
abbrev pub grab : PduDecoder → List ℕ → PduDecoder
grab d input = record d { buf = d.buf ++ take (d.need - length d.buf) input }

abbrev pub left : PduDecoder → List ℕ → List ℕ
left d input = drop (d.need - length d.buf) input

-- Whether a round has filled up to `need`.
abbrev pub filled : PduDecoder → Bool
filled d = leb d.need (length d.buf)

-- The round in state `rest`; `consumed` bytes were taken before.
unfoldable pub feed_rest : PduDecoder → List ℕ → ℕ → Fed
feed_rest d input consumed =
    let d' = grab d input in
    let n = consumed + (length d'.buf - length d.buf) in
    if filled d'
    then record { answer = ok n; decoder = record d' { state = complete } }
    else record { answer = ok n; decoder = d' }

abbrev pub sized : PduDecoder → List ℕ → ℕ → Checked ℕ → Fed
sized d input consumed (err e) = record { answer = err e; decoder = d }
sized d input consumed (ok need) = feed_rest (record d { need = need; state = rest }) input consumed

-- The round in state `common`, and then the one in state `rest`.
unfoldable pub feed_common : PduDecoder → List ℕ → Fed
unfolding feed_rest full_header_len
feed_common d input =
    let d' = grab d input in
    let n = length d'.buf - length d.buf in
    if filled d'
    then sized d' (left d input) n (full_header_len d')
    else record { answer = ok n; decoder = d' }

-- `feed`. The loop passes the states in this order, so it is the chain of their rounds.
unfoldable pub feed : PduDecoder → List ℕ → Fed
unfolding feed_common feed_rest
feed d input = elim d.state [
  | complete ↦ record { answer = ok 0; decoder = d }
  | common ↦ feed_common d input
  | rest ↦ feed_rest d input 0
]

abbrev pub digestable_type : ℕ → Bool
digestable_type t = not (t == icreq || (t == icresp || (t == h2c_term || t == c2h_term)))

-- `read_from_bytes` of the part behind the common header.
abbrev pub data_at : List ℕ → DataFields
data_at buf = data_of (values data_widths (drop 8 buf)).0

-- The typed header. The last case is the `unreachable!`.
unfoldable pub kind_of : CommonHeader → List ℕ → ℕ → Exec (Checked PduKind)
kind_of h buf data_len =
    let ic = ic_of (values ic_widths (drop 8 buf)).0 in
    let t = term_of (values term_widths (drop 8 buf)).0 in
    let d = data_at buf in
    if h.pdu_type == icreq
    then returns (ok (ic_req h ic))
    else if h.pdu_type == icresp
    then returns (ok (ic_resp h ic))
    else if h.pdu_type == h2c_term || h.pdu_type == c2h_term
    then (if ltb 152 h.plen then returns (err (hdr_field 4)) else returns (ok (term t.fes t.fei)))
    else if h.pdu_type == capsule_cmd
    then returns (ok (capsule_cmd_pdu (sqe_of (values sqe_widths (drop 8 buf)).0)))
    else if h.pdu_type == capsule_resp
    then returns (ok (capsule_resp_pdu (cqe_of (values cqe_widths (drop 8 buf)).0)))
    else if h.pdu_type == h2c_data
    then (if not (d.data_length == data_len)
        then returns (err (hdr_field 12))
        else returns (
            ok
              (h2c_data_pdu d.cid d.ttag d.data_offset d.data_length (has_flag h.flags data_last))))
    else if h.pdu_type == c2h_data
    then returns (
        ok (
          c2h_data_pdu d.cid d.data_offset d.data_length (has_flag h.flags data_last)
            (has_flag h.flags data_success)))
    else if h.pdu_type == r2t
    then returns (ok (r2t_pdu d.cid d.ttag d.data_offset d.data_length))
    else panics

abbrev pub finish : PduDecoder → ℕ → Bool → Checked PduKind → Checked DecodedPdu × PduDecoder
finish d data_len ddgst (err e) = (err e, d)
finish d data_len ddgst (ok kind) = (
  ok (record { kind = kind; data_len = data_len; ddgst = ddgst }),
  record d { buf = []; need = 8; state = common },
)

abbrev pub finishing :
    PduDecoder → ℕ → Bool → Exec (Checked PduKind) → Exec (Checked DecodedPdu × PduDecoder)
finishing d data_len ddgst (returns k) = returns (finish d data_len ddgst k)
finishing d data_len ddgst panics = panics

-- `take` behind its assertion, with the header and whether digests follow the header and the data.
unfoldable pub checked_take :
    (List ℕ → ℕ) → PduDecoder → CommonHeader → Bool → Bool → Exec (Checked DecodedPdu × PduDecoder)
unfolding kind_of
checked_take crc d h hdgst ddgst =
    let header_wire = h.hlen + digest_len hdgst in
    let data_len = sub_u32 (sub_u32 h.plen header_wire) (digest_len ddgst) in
    if hdgst && not (de (take 4 (drop h.hlen d.buf)) == crc (take h.hlen d.buf))
    then returns (err (record { fes = hdr_digest_err; fei = 0 }), d)
    else if not (h.pdo == 0) && not (h.pdo == header_wire)
    then returns (err (hdr_field 3), d)
    else finishing d data_len ddgst (kind_of h d.buf data_len)

abbrev pub take_as :
    (List ℕ → ℕ) → PduDecoder → CommonHeader → Exec (Checked DecodedPdu × PduDecoder)
take_as crc d h =
    checked_take crc d h (digestable_type h.pdu_type && d.hdr_digest)
      (digestable_type h.pdu_type && has_flag h.flags ddgst_flag)

-- `take`: it panics before the header is complete.
unfoldable pub take_pdu : (List ℕ → ℕ) → PduDecoder → Exec (Checked DecodedPdu × PduDecoder)
unfolding header_of checked_take is_complete
take_pdu crc d = if is_complete d then take_as crc d (header_of (take 8 d.buf)) else panics
