-- ===== src/Controller.antt =====
-- crates/ioutgt-nvme/src/controller.rs: the registers CC and CSTS of a fabrics controller.
use Prim.Native.Nat.{bit_and, bit_or}
use ioutgt.Base.{ℕ, ◌+◌, ◌*◌, ◌-◌, ◌%◌, ◌^◌, Bool, not, ◌&&◌, ◌==◌, if◌then◌else◌}

pub record RegisterState : Type 0 where
  pub cc : ℕ
  pub csts : ℕ
  pub cap : ℕ

pub data CcEffect : Type 0 where
  unchanged enabled shutdown disabled : CcEffect

-- The masks of `fabrics::cc` and `fabrics::csts`.
abbrev pub en : ℕ
en = 1

abbrev pub shn_mask : ℕ
shn_mask = 3 * 2 ^ 14

abbrev pub rdy : ℕ
rdy = 1

abbrev pub shst_complete : ℕ
shst_complete = 8

abbrev pub has_bits : ℕ → ℕ → Bool
has_bits value mask = not (bit_and value mask == 0)

-- `new`: the entries of a queue less one, contiguous queues, and a timeout of 15 seconds.
unfoldable pub new : ℕ → RegisterState
new max_queue_entries = record {
  cc = 0;
  csts = 0;
  cap = bit_or (bit_or ((max_queue_entries + 2 ^ 16 - 1) % 2 ^ 16) (2 ^ 16)) (30 * 2 ^ 24);
}

unfoldable pub write_cc : RegisterState → ℕ → CcEffect × RegisterState
write_cc r value =
    let was_enabled = has_bits r.cc en in
    let now_enabled = has_bits value en in
    if has_bits value shn_mask
    then (shutdown, record r { cc = value; csts = bit_or r.csts shst_complete })
    else if not was_enabled && now_enabled
    then (enabled, record r { cc = value; csts = bit_or r.csts rdy })
    else if was_enabled && not now_enabled
    then (disabled, record r { cc = value; csts = bit_and r.csts (2 ^ 32 - 1 - rdy) })
    else (unchanged, record r { cc = value })

unfoldable pub ready : RegisterState → Bool
ready r = has_bits r.csts rdy
