-- ===== src/Nvme/Identify.antt =====
-- crates/ioutgt-nvme/src/identify.rs and admin.rs: the structures of Identify and how they are filled.
-- The fields that the code leaves at zero stand in the layouts only. `bytes` is Rust's `as_bytes`.
use Prim.Native.Nat.{bit_or}
use Prim.Native.String.{String}
use ioutgt.Base.{
  ℕ, ◌+◌, ◌-◌, ◌*◌, ◌/◌, ◌^◌, min, max, Bool, true, false, not, ◌&&◌, List, [], ◌∷◌, ◌++◌, Option,
  none, some, ◌==◌, if◌then◌else◌, length, take, replicate,
}
use ioutgt.Wire.{Fields, de}
use ioutgt.Fabrics.{discovery_nqn}
use ioutgt.Subsystem.{Subsystem, TransportType, tcp, rdma, max_nsid}
use ioutgt.Backend.{Backend, Topology}
use ioutgt.Nvme.{AdminState, ConnCtx, aen_cfg_ns_attr}

unfoldable pub ascii_pad : ℕ → List ℕ → List ℕ
ascii_pad width src = take width src ++ replicate (width - length src) 32

unfoldable pub nul_terminate : List ℕ → List ℕ
nul_terminate src = take 255 src ++ replicate (256 - min (length src) 255) 0

pub record IdentifyController : Type 0 where
  pub sn : List ℕ
  pub mn : List ℕ
  pub fr : List ℕ
  pub cmic : ℕ
  pub mdts : ℕ
  pub cntlid : ℕ
  pub ver : ℕ
  pub oaes : ℕ
  pub ctratt : ℕ
  pub cntrltype : ℕ
  pub acl : ℕ
  pub aerl : ℕ
  pub kas : ℕ
  pub sqes : ℕ
  pub cqes : ℕ
  pub maxcmd : ℕ
  pub nn : ℕ
  pub oncs : ℕ
  pub vwc : ℕ
  pub sgls : ℕ
  pub subnqn : List ℕ
  pub ioccsz : ℕ
  pub iorcsz : ℕ

abbrev pub controller_fields : IdentifyController → Fields
controller_fields c =
    (2, 0)
    ∷ (2, 0)
    ∷ (20, de c.sn)
    ∷ (40, de c.mn)
    ∷ (8, de c.fr)
    ∷ (1, 0)
    ∷ (3, 0)
    ∷ (1, c.cmic)
    ∷ (1, c.mdts)
    ∷ (2, c.cntlid)
    ∷ (4, c.ver)
    ∷ (4, 0)
    ∷ (4, 0)
    ∷ (4, c.oaes)
    ∷ (4, c.ctratt)
    ∷ (11, 0)
    ∷ (1, c.cntrltype)
    ∷ (16, 0)
    ∷ (128, 0)
    ∷ (2, 0)
    ∷ (1, c.acl)
    ∷ (1, c.aerl)
    ∷ (1, 0)
    ∷ (1, 0)
    ∷ (1, 0)
    ∷ (1, 0)
    ∷ (1, 0)
    ∷ (1, 0)
    ∷ (2, 0)
    ∷ (2, 0)
    ∷ (50, 0)
    ∷ (2, c.kas)
    ∷ (190, 0)
    ∷ (1, c.sqes)
    ∷ (1, c.cqes)
    ∷ (2, c.maxcmd)
    ∷ (4, c.nn)
    ∷ (2, c.oncs)
    ∷ (2, 0)
    ∷ (1, 0)
    ∷ (1, c.vwc)
    ∷ (2, 0)
    ∷ (2, 0)
    ∷ (1, 0)
    ∷ (1, 0)
    ∷ (2, 0)
    ∷ (2, 0)
    ∷ (4, c.sgls)
    ∷ (4, 0)
    ∷ (224, 0)
    ∷ (256, de c.subnqn)
    ∷ (768, 0)
    ∷ (4, c.ioccsz)
    ∷ (4, c.iorcsz)
    ∷ (2, 0)
    ∷ (1, 0)
    ∷ (1, 0)
    ∷ (244, 0)
    ∷ (1024, 0)
    ∷ (1024, 0)
    ∷ []

abbrev pub is_tcp : TransportType → Bool
is_tcp tcp = true
is_tcp rdma = false

-- `SGLS_KEYED | SGLS_SAOS`, which RDMA adds to `SGLS_BYTE_ALIGNED`.
abbrev pub sgls_of : TransportType → ℕ
sgls_of tcp = 1
sgls_of rdma = bit_or 1 (bit_or (2 ^ 2) (2 ^ 20))

-- `INLINE_DATA_SIZE` and `RDMA_INLINE_DATA_SIZE`
abbrev pub inline_size : TransportType → ℕ
inline_size tcp = 16 * 1024
inline_size rdma = 4096

module _ {B : Type 0} where
  abbrev pub serial_of : (String → List ℕ) → Option (Subsystem B) → List ℕ
  serial_of bytes none = bytes "ioutgt-disc"
  serial_of bytes (some s) = bytes s.serial

  abbrev pub nqn_of : (String → List ℕ) → Option (Subsystem B) → List ℕ
  nqn_of bytes none = bytes discovery_nqn
  nqn_of bytes (some s) = bytes s.nqn

  abbrev pub nn_of : Option (Subsystem B) → ℕ
  nn_of none = 0
  nn_of (some s) = max_nsid s

  unfoldable pub build_id_ctrl :
      (String → List ℕ) → ConnCtx B → AdminState → Option (Subsystem B) → IdentifyController
  unfolding ascii_pad nul_terminate
  build_id_ctrl bytes ctx a subsys =
      let io_only = λ (n : ℕ). if a.discovery then 0 else n in
      record {
        sn = ascii_pad 20 (serial_of bytes subsys);
        mn = ascii_pad 40 (bytes "ioutgt");
        fr = ascii_pad 8 (bytes "1.0");
        cmic = io_only 2;
        mdts = 5;
        cntlid = a.cntlid;
        ver = 0x00010300;
        oaes = aen_cfg_ns_attr;
        ctratt = if not a.discovery && is_tcp ctx.port.trtype then 2 ^ 6 else 0;
        cntrltype = if a.discovery then 2 else 1;
        acl = 3;
        aerl = 3;
        kas = 100;
        sqes = 0x66;
        cqes = 0x44;
        maxcmd = ctx.port.io_queue_size;
        nn = io_only (nn_of subsys);
        oncs = io_only (bit_or (2 ^ 2) (2 ^ 3));
        vwc = io_only 1;
        sgls = sgls_of ctx.port.trtype;
        subnqn = nul_terminate (nqn_of bytes subsys);
        ioccsz = io_only ((64 + inline_size ctx.port.trtype) / 16);
        iorcsz = io_only 1;
      }

pub record NsLimits : Type 0 where
  pub nsfeat : ℕ
  pub nawun : ℕ
  pub npwg : ℕ
  pub npdg : ℕ
  pub nows : ℕ

-- The closure `to0based`: bytes in logical blocks, one to 2^16 of them, counted from 0.
unfoldable pub to0based : ℕ → ℕ → ℕ
to0based block_shift len = min (max (len / 2 ^ block_shift) 1) (2 ^ 16) - 1

unfoldable pub is_default : Topology → Bool
is_default t =
    t.physical_block == 0 && (t.io_min == 0 && (t.io_opt == 0 && t.discard_granularity == 0))

-- `block_shift` is below 64, or the shift panics.
unfoldable pub ns_limits : Topology → ℕ → NsLimits
unfolding to0based is_default
ns_limits topo block_shift =
    if is_default topo
    then record { nsfeat = 0; nawun = 0; npwg = 0; npdg = 0; nows = 0 }
    else record {
      nsfeat = bit_or (2 ^ 1) (3 * 2 ^ 4);
      nawun = to0based block_shift topo.physical_block;
      npwg = to0based block_shift topo.io_min;
      npdg = to0based block_shift topo.discard_granularity;
      nows = to0based block_shift topo.io_opt;
    }

pub record IdentifyNamespace : Type 0 where
  pub nsze : ℕ
  pub ncap : ℕ
  pub nuse : ℕ
  pub nmic : ℕ
  pub dlfeat : ℕ
  pub lbads : ℕ
  pub limits : NsLimits

-- `lbaf[0]` stands at byte 128, with its size at 130; the other formats are zero.
abbrev pub namespace_fields : IdentifyNamespace → Fields
namespace_fields n =
    (8, n.nsze)
    ∷ (8, n.ncap)
    ∷ (8, n.nuse)
    ∷ (1, n.limits.nsfeat)
    ∷ (1, 0)
    ∷ (1, 0)
    ∷ (1, 0)
    ∷ (1, 0)
    ∷ (1, 0)
    ∷ (1, n.nmic)
    ∷ (1, 0)
    ∷ (1, 0)
    ∷ (1, n.dlfeat)
    ∷ (2, n.limits.nawun)
    ∷ (2, n.limits.nawun)
    ∷ (2, n.limits.nawun)
    ∷ (2, 0)
    ∷ (2, 0)
    ∷ (2, 0)
    ∷ (2, 0)
    ∷ (16, 0)
    ∷ (2, n.limits.npwg)
    ∷ (2, n.limits.npwg)
    ∷ (2, n.limits.npdg)
    ∷ (2, n.limits.npdg)
    ∷ (2, n.limits.nows)
    ∷ (18, 0)
    ∷ (4, 0)
    ∷ (3, 0)
    ∷ (1, 0)
    ∷ (2, 0)
    ∷ (2, 0)
    ∷ (16, 0)
    ∷ (8, 0)
    ∷ (2, 0)
    ∷ (1, n.lbads)
    ∷ (1, 0)
    ∷ (60, 0)
    ∷ (192, 0)
    ∷ (3712, 0)
    ∷ []

unfoldable pub build_id_ns : {B W : Type 0} → Backend B W → B → IdentifyNamespace
unfolding ns_limits
build_id_ns backend b = record {
  nsze = backend.nr_blocks b;
  ncap = backend.nr_blocks b;
  nuse = backend.nr_blocks b;
  nmic = 1;
  dlfeat = 1;
  lbads = backend.block_shift b;
  limits = ns_limits (backend.topology b) (backend.block_shift b);
}
