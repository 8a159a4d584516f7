-- ===== src/Fabrics.antt =====
-- crates/ioutgt-nvme/src/fabrics.rs: the fabrics commands, which read the bytes of a submission entry
-- anew, and the data of a Connect.
use Prim.Native.String.{String}
use ioutgt.Base.{ℕ, List, [], ◌∷◌}
use ioutgt.Wire.{emit, values, at}
use ioutgt.Spec.{Sqe, sqe_fields}

-- `fctype`
abbrev pub property_set : ℕ
property_set = 0x00

abbrev pub connect : ℕ
connect = 0x01

abbrev pub property_get : ℕ
property_get = 0x04

-- `prop`
abbrev pub prop_cap : ℕ
prop_cap = 0x00

abbrev pub prop_vs : ℕ
prop_vs = 0x08

abbrev pub prop_cc : ℕ
prop_cc = 0x14

abbrev pub prop_csts : ℕ
prop_csts = 0x1C

abbrev pub discovery_nqn : String
discovery_nqn = "nqn.2014-08.org.nvmexpress.discovery"

-- The two integers of `dptr` are its 16 bytes.
pub record ConnectCommand : Type 0 where
  pub opcode : ℕ
  pub cid : ℕ
  pub fctype : ℕ
  pub recfmt : ℕ
  pub qid : ℕ
  pub sqsize : ℕ
  pub cattr : ℕ
  pub kato : ℕ

abbrev pub connect_widths : List ℕ
connect_widths = 1 ∷ 1 ∷ 2 ∷ 1 ∷ 19 ∷ 16 ∷ 2 ∷ 2 ∷ 2 ∷ 1 ∷ 1 ∷ 4 ∷ 12 ∷ []

abbrev pub connect_of : List ℕ → ConnectCommand
connect_of ns = record {
  opcode = at ns 0;
  cid = at ns 2;
  fctype = at ns 3;
  recfmt = at ns 6;
  qid = at ns 7;
  sqsize = at ns 8;
  cattr = at ns 9;
  kato = at ns 11;
}

-- `ConnectCommand::ref_from_bytes(sqe.as_bytes())`
unfoldable pub connect_command : Sqe → ConnectCommand
connect_command sqe = connect_of (values connect_widths (emit (sqe_fields sqe))).0

pub record PropertyCommand : Type 0 where
  pub opcode : ℕ
  pub cid : ℕ
  pub fctype : ℕ
  pub attrib : ℕ
  pub offset : ℕ
  pub value : ℕ

abbrev pub property_widths : List ℕ
property_widths = 1 ∷ 1 ∷ 2 ∷ 1 ∷ 35 ∷ 1 ∷ 3 ∷ 4 ∷ 8 ∷ 8 ∷ []

abbrev pub property_of : List ℕ → PropertyCommand
property_of ns = record {
  opcode = at ns 0;
  cid = at ns 2;
  fctype = at ns 3;
  attrib = at ns 5;
  offset = at ns 7;
  value = at ns 8;
}

unfoldable pub property_command : Sqe → PropertyCommand
property_command sqe = property_of (values property_widths (emit (sqe_fields sqe))).0

-- The fields of the data of a Connect, with the NQNs as bytes.
pub record ConnectData : Type 0 where
  pub hostid : List ℕ
  pub cntlid : ℕ
  pub subsysnqn : List ℕ
  pub hostnqn : List ℕ
