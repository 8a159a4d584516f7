-- ===== src/Pdu.antt =====
-- crates/ioutgt-nvme/src/pdu.rs: the headers of NVMe/TCP PDUs, as records and as bytes, and the codes.
pub mod Decode
pub mod Encode
pub mod Header
pub mod Feed
pub mod Take
pub mod RoundTrip
pub mod Messages
pub mod Capsules
pub mod Tests
use ioutgt.Base.{ℕ, ◌*◌, ◌+◌, Bool, List, [], ◌∷◌, ◌++◌}
use ioutgt.Wire.{Fields, at}
use ioutgt.Spec.{Sqe, Cqe, sqe_widths, sqe_fields, sqe_of, cqe_widths, cqe_fields, cqe_of}

-- `pdu_type`
abbrev pub icreq : ℕ
icreq = 0x0

abbrev pub icresp : ℕ
icresp = 0x1

abbrev pub h2c_term : ℕ
h2c_term = 0x2

abbrev pub c2h_term : ℕ
c2h_term = 0x3

abbrev pub capsule_cmd : ℕ
capsule_cmd = 0x4

abbrev pub capsule_resp : ℕ
capsule_resp = 0x5

abbrev pub h2c_data : ℕ
h2c_data = 0x6

abbrev pub c2h_data : ℕ
c2h_data = 0x7

abbrev pub r2t : ℕ
r2t = 0x9

-- `pdu_flags`
abbrev pub hdgst_flag : ℕ
hdgst_flag = 1

abbrev pub ddgst_flag : ℕ
ddgst_flag = 2

abbrev pub data_last : ℕ
data_last = 4

abbrev pub data_success : ℕ
data_success = 8

-- `fes`
abbrev pub invalid_pdu_hdr : ℕ
invalid_pdu_hdr = 0x1

abbrev pub hdr_digest_err : ℕ
hdr_digest_err = 0x3

abbrev pub max_hdr : ℕ
max_hdr = 128

abbrev pub max_plen : ℕ
max_plen = 32 * 1024 * 1024

pub record CommonHeader : Type 0 where
  pub pdu_type : ℕ
  pub flags : ℕ
  pub hlen : ℕ
  pub pdo : ℕ
  pub plen : ℕ

abbrev pub common_widths : List ℕ
common_widths = 1 ∷ 1 ∷ 1 ∷ 1 ∷ 4 ∷ []

abbrev pub common_fields : CommonHeader → Fields
common_fields h = (1, h.pdu_type) ∷ (1, h.flags) ∷ (1, h.hlen) ∷ (1, h.pdo) ∷ (4, h.plen) ∷ []

abbrev pub common_of : List ℕ → CommonHeader
common_of ns = record {
  pdu_type = at ns 0;
  flags = at ns 1;
  hlen = at ns 2;
  pdo = at ns 3;
  plen = at ns 4;
}

-- `IcReq` and `IcResp` behind the common header: `hpda` or `cpda`, and `maxr2t` or `maxdata`.
pub record IcParams : Type 0 where
  pub pfv : ℕ
  pub pda : ℕ
  pub digest : ℕ
  pub limit : ℕ

abbrev pub ic_widths : List ℕ
ic_widths = 2 ∷ 1 ∷ 1 ∷ 4 ∷ 112 ∷ []

abbrev pub ic_fields : IcParams → Fields
ic_fields p = (2, p.pfv) ∷ (1, p.pda) ∷ (1, p.digest) ∷ (4, p.limit) ∷ (112, 0) ∷ []

abbrev pub ic_of : List ℕ → IcParams
ic_of ns = record { pfv = at ns 0; pda = at ns 1; digest = at ns 2; limit = at ns 3 }

-- `PduError`; it is also what `TermPdu` carries behind the common header.
pub record PduError : Type 0 where
  pub fes : ℕ
  pub fei : ℕ

abbrev pub term_widths : List ℕ
term_widths = 2 ∷ 4 ∷ 10 ∷ []

abbrev pub term_fields : PduError → Fields
term_fields e = (2, e.fes) ∷ (4, e.fei) ∷ (10, 0) ∷ []

abbrev pub term_of : List ℕ → PduError
term_of ns = record { fes = at ns 0; fei = at ns 1 }

-- `PduError::hdr_field`
abbrev pub hdr_field : ℕ → PduError
hdr_field offset = record { fes = invalid_pdu_hdr; fei = offset }

-- `DataPdu` behind the common header.
pub record DataFields : Type 0 where
  pub cid : ℕ
  pub ttag : ℕ
  pub data_offset : ℕ
  pub data_length : ℕ

abbrev pub data_widths : List ℕ
data_widths = 2 ∷ 2 ∷ 4 ∷ 4 ∷ 4 ∷ []

abbrev pub data_fields : DataFields → Fields
data_fields d = (2, d.cid) ∷ (2, d.ttag) ∷ (4, d.data_offset) ∷ (4, d.data_length) ∷ (4, 0) ∷ []

abbrev pub data_of : List ℕ → DataFields
data_of ns = record { cid = at ns 0; ttag = at ns 1; data_offset = at ns 2; data_length = at ns 3 }

-- `PduKind`. The `ic_req` and `ic_resp` of the source hold the common header too.
pub data PduKind : Type 0 where
  ic_req : CommonHeader → IcParams → PduKind
  ic_resp : CommonHeader → IcParams → PduKind
  term : ℕ → ℕ → PduKind
  capsule_cmd_pdu : Sqe → PduKind
  capsule_resp_pdu : Cqe → PduKind
  h2c_data_pdu : (cid ttag offset length : ℕ) (last : Bool) → PduKind
  c2h_data_pdu : (cid offset length : ℕ) (last success : Bool) → PduKind
  r2t_pdu : (cid ttag offset length : ℕ) → PduKind

pub record DecodedPdu : Type 0 where
  pub kind : PduKind
  pub data_len : ℕ
  pub ddgst : Bool
