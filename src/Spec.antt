-- ===== src/Spec.antt =====
-- crates/ioutgt-nvme/src/spec.rs: the command and completion entries, as records and as bytes.
use ioutgt.Base.{ℕ, ◌+◌, ◌*◌, ◌/◌, ◌%◌, ◌^◌, Bool, not, List, [], ◌∷◌, ◌==◌}
use ioutgt.Wire.{Fields, at}

-- `SglDescriptor` stands in `Sqe` with its fields.
pub record Sqe : Type 0 where
  pub opcode : ℕ
  pub flags : ℕ
  pub cid : ℕ
  pub nsid : ℕ
  pub cdw2 : ℕ
  pub cdw3 : ℕ
  pub mptr : ℕ
  pub sgl_addr : ℕ
  pub sgl_length : ℕ
  pub sgl_rsvd : ℕ
  pub sgl_type : ℕ
  pub cdw10 : ℕ
  pub cdw11 : ℕ
  pub cdw12 : ℕ
  pub cdw13 : ℕ
  pub cdw14 : ℕ
  pub cdw15 : ℕ

abbrev pub sqe_widths : List ℕ
sqe_widths = 1 ∷ 1 ∷ 2 ∷ 4 ∷ 4 ∷ 4 ∷ 8 ∷ 8 ∷ 4 ∷ 3 ∷ 1 ∷ 4 ∷ 4 ∷ 4 ∷ 4 ∷ 4 ∷ 4 ∷ []

abbrev pub sqe_fields : Sqe → Fields
sqe_fields s =
    (1, s.opcode)
    ∷ (1, s.flags)
    ∷ (2, s.cid)
    ∷ (4, s.nsid)
    ∷ (4, s.cdw2)
    ∷ (4, s.cdw3)
    ∷ (8, s.mptr)
    ∷ (8, s.sgl_addr)
    ∷ (4, s.sgl_length)
    ∷ (3, s.sgl_rsvd)
    ∷ (1, s.sgl_type)
    ∷ (4, s.cdw10)
    ∷ (4, s.cdw11)
    ∷ (4, s.cdw12)
    ∷ (4, s.cdw13)
    ∷ (4, s.cdw14)
    ∷ (4, s.cdw15)
    ∷ []

abbrev pub sqe_of : List ℕ → Sqe
sqe_of ns = record {
  opcode = at ns 0;
  flags = at ns 1;
  cid = at ns 2;
  nsid = at ns 3;
  cdw2 = at ns 4;
  cdw3 = at ns 5;
  mptr = at ns 6;
  sgl_addr = at ns 7;
  sgl_length = at ns 8;
  sgl_rsvd = at ns 9;
  sgl_type = at ns 10;
  cdw10 = at ns 11;
  cdw11 = at ns 12;
  cdw12 = at ns 13;
  cdw13 = at ns 14;
  cdw14 = at ns 15;
  cdw15 = at ns 16;
}

-- `Sqe::zeroed`
pub zeroed_sqe : Sqe
zeroed_sqe = sqe_of []

pub record Cqe : Type 0 where
  pub result : ℕ
  pub rsvd : ℕ
  pub sq_head : ℕ
  pub sq_id : ℕ
  pub cid : ℕ
  pub status : ℕ

abbrev pub cqe_widths : List ℕ
cqe_widths = 4 ∷ 4 ∷ 2 ∷ 2 ∷ 2 ∷ 2 ∷ []

abbrev pub cqe_fields : Cqe → Fields
cqe_fields c =
    (4, c.result) ∷ (4, c.rsvd) ∷ (2, c.sq_head) ∷ (2, c.sq_id) ∷ (2, c.cid) ∷ (2, c.status) ∷ []

abbrev pub cqe_of : List ℕ → Cqe
cqe_of ns = record {
  result = at ns 0;
  rsvd = at ns 1;
  sq_head = at ns 2;
  sq_id = at ns 3;
  cid = at ns 4;
  status = at ns 5;
}

-- `Cqe::new`: `status << 1` on `u16`.
unfoldable pub new_cqe : ℕ → ℕ → ℕ → ℕ → ℕ → Cqe
new_cqe result sq_head sq_id cid status = record {
  result = result;
  rsvd = 0;
  sq_head = sq_head;
  sq_id = sq_id;
  cid = cid;
  status = status * 2 % 2 ^ 16;
}

pub record RwCommand : Type 0 where
  pub slba : ℕ
  pub nlb : ℕ
  pub fua : Bool

-- `RwCommand::parse`: bit 30 of `cdw12` is the force-unit-access bit. The halves of `slba` do not
-- overlap, so their `|` is the sum.
unfoldable pub parse_rw : Sqe → RwCommand
parse_rw s = record {
  slba = s.cdw10 + s.cdw11 * 2 ^ 32;
  nlb = s.cdw12 % 2 ^ 16;
  fua = not ((s.cdw12 / 2 ^ 30 % 2) == 0);
}
