-- ===== src/Status.antt =====
-- crates/ioutgt-nvme/src/status.rs: the status codes that the handlers give, and the `DNR` bit.
use Prim.Native.Nat.{bit_or}
use ioutgt.Base.{ℕ, ◌+◌, ◌*◌, ◌^◌, Bool, true, false}

abbrev pub success : ℕ
success = 0x0

abbrev pub invalid_opcode : ℕ
invalid_opcode = 0x1

abbrev pub invalid_field : ℕ
invalid_field = 0x2

abbrev pub data_xfer_error : ℕ
data_xfer_error = 0x4

abbrev pub internal : ℕ
internal = 0x6

abbrev pub invalid_ns : ℕ
invalid_ns = 0xB

abbrev pub cmd_seq_error : ℕ
cmd_seq_error = 0xC

abbrev pub data_sgl_len_invalid : ℕ
data_sgl_len_invalid = 0xF

abbrev pub lba_range : ℕ
lba_range = 0x80

abbrev pub cap_exceeded : ℕ
cap_exceeded = 0x81

abbrev pub invalid_log_page : ℕ
invalid_log_page = 0x109

abbrev pub feature_not_changeable : ℕ
feature_not_changeable = 0x10E

abbrev pub connect_format : ℕ
connect_format = 0x180

abbrev pub connect_ctrl_busy : ℕ
connect_ctrl_busy = 0x181

abbrev pub connect_invalid_param : ℕ
connect_invalid_param = 0x182

abbrev pub connect_invalid_host : ℕ
connect_invalid_host = 0x184

abbrev pub dnr : ℕ
dnr = 0x4000

-- `code | DNR`
abbrev pub fatal : ℕ → ℕ
fatal code = bit_or code dnr

abbrev pub bit_of : Bool → ℕ
bit_of true = 1
bit_of false = 0

-- `connect_invalid_param_result`: the offset stands above the bit, so `|` is the sum.
unfoldable pub connect_invalid_param_result : Bool → ℕ → ℕ
connect_invalid_param_result in_data offset = offset * 2 ^ 16 + bit_of in_data
