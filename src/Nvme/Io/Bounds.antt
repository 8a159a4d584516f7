-- ===== src/Nvme/Io/Bounds.antt =====
-- crates/ioutgt-nvme/src/io.rs: what `checked_len` lets through, and what it refuses.
use native.Mathlib.Nat.{mul-le-mul, mod-eq_of_lt}
use ioutgt.Base.{
  ℕ, ◌+◌, ◌*◌, ◌%◌, ◌^◌, ◌≤◌, ◌<◌, ◌≡◌, ◌≢◌, refl, sym, subst, true, false, not, arith, ltb, ◌==◌,
  if◌then◌else◌, Bool-cases, ltb→lt, ltb→le, ==_iff, inl, inr,
}
use ioutgt.Spec.{Sqe, parse_rw}
use ioutgt.Status.{fatal, invalid_field, data_sgl_len_invalid, lba_range}
use ioutgt.Backend.{check_range, out_of_range, ok, err}
use ioutgt.Nvme.{mdts_bytes}
use ioutgt.Nvme.Io.{CheckedLen, transfer, refused, checked_len, range_checked, nvme_status}

-- The bytes of a transfer.
pub bytes_of : ℕ → Sqe → ℕ
unfolding parse_rw
bytes_of block_shift sqe = ((parse_rw sqe).nlb + 1) * 2 ^ block_shift

-- The block behind the last.
pub end_of : Sqe → ℕ
unfolding parse_rw
end_of sqe = (parse_rw sqe).slba + ((parse_rw sqe).nlb + 1)

-- What is asked of a transfer, in the order of the checks.
pub data Judged (block_shift nr_blocks : ℕ) (sqe : Sqe) : CheckedLen → Type 0 where
  too_long :
      mdts_bytes < bytes_of block_shift sqe
      → Judged block_shift nr_blocks sqe (refused (fatal invalid_field))
  other_sgl :
      bytes_of block_shift sqe ≤ mdts_bytes
      → sqe.sgl_length % 2 ^ 24 ≢ bytes_of block_shift sqe
      → Judged block_shift nr_blocks sqe (refused (fatal data_sgl_len_invalid))
  outside :
      bytes_of block_shift sqe ≤ mdts_bytes
      → sqe.sgl_length % 2 ^ 24 ≡ bytes_of block_shift sqe
      → nr_blocks < end_of sqe
      → Judged block_shift nr_blocks sqe (refused (fatal lba_range))
  within :
      bytes_of block_shift sqe ≤ mdts_bytes
      → sqe.sgl_length % 2 ^ 24 ≡ bytes_of block_shift sqe
      → end_of sqe ≤ nr_blocks
      → Judged block_shift nr_blocks sqe (transfer (parse_rw sqe) (bytes_of block_shift sqe))

no_wrap :
    (block_shift : ℕ) (sqe : Sqe)
    → 2 ^ block_shift ≤ 2 ^ 32
    → bytes_of block_shift sqe % 2 ^ 64 ≡ bytes_of block_shift sqe
unfolding bytes_of parse_rw
no_wrap block_shift sqe h =
    let few : sqe.cdw12 % 65536 + 1 ≤ 65536 = omega arith in
    let low : (sqe.cdw12 % 65536 + 1) * 2 ^ block_shift ≤ 65536 * 2 ^ 32 = mul-le-mul few h in
    mod-eq_of_lt (omega arith)

check_range-inside :
    (nr_blocks slba nlb : ℕ)
    → nr_blocks < 2 ^ 64
    → slba + nlb ≤ nr_blocks
    → check_range nr_blocks slba nlb ≡ ok tt
unfolding check_range
check_range-inside nr_blocks slba nlb s h = ground arith

check_range-outside :
    (nr_blocks slba nlb : ℕ)
    → nr_blocks < slba + nlb
    → check_range nr_blocks slba nlb ≡ err out_of_range
unfolding check_range
check_range-outside nr_blocks slba nlb h = ground arith

-- The answer of `checked_len` by its tests, with the length as it is.
answer : (block_shift nr_blocks : ℕ) → Sqe → CheckedLen
unfolding range_checked nvme_status bytes_of parse_rw
answer block_shift nr_blocks sqe =
    if ltb mdts_bytes (bytes_of block_shift sqe)
    then refused (fatal invalid_field)
    else if not (sqe.sgl_length % 2 ^ 24 == bytes_of block_shift sqe)
    then refused (fatal data_sgl_len_invalid)
    else range_checked (parse_rw sqe) (bytes_of block_shift sqe)
        (check_range nr_blocks (parse_rw sqe).slba ((parse_rw sqe).nlb + 1))

checked_len-answer :
    (block_shift nr_blocks : ℕ) (sqe : Sqe)
    → 2 ^ block_shift ≤ 2 ^ 32
    → checked_len block_shift nr_blocks sqe ≡ answer block_shift nr_blocks sqe
unfolding checked_len answer bytes_of
checked_len-answer block_shift nr_blocks sqe h =
    let e : ((parse_rw sqe).nlb + 1) * 2 ^ block_shift % 2 ^ 64
        ≡ ((parse_rw sqe).nlb + 1) * 2 ^ block_shift =
      no_wrap block_shift sqe h in
    rw e refl

module _ (block_shift nr_blocks : ℕ) (sqe : Sqe) where
  answer-long :
      ltb mdts_bytes (bytes_of block_shift sqe) ≡ true
      → answer block_shift nr_blocks sqe ≡ refused (fatal invalid_field)
  unfolding answer
  answer-long p = rw p refl

  answer-sgl :
      ltb mdts_bytes (bytes_of block_shift sqe) ≡ false
      → (sqe.sgl_length % 2 ^ 24 == bytes_of block_shift sqe) ≡ false
      → answer block_shift nr_blocks sqe ≡ refused (fatal data_sgl_len_invalid)
  unfolding answer
  answer-sgl p q = rw (p, q) refl

  answer-range :
      ltb mdts_bytes (bytes_of block_shift sqe) ≡ false
      → (sqe.sgl_length % 2 ^ 24 == bytes_of block_shift sqe) ≡ true
      → answer block_shift nr_blocks sqe
        ≡ range_checked
            (parse_rw sqe)
            (bytes_of block_shift sqe)
            (check_range nr_blocks (parse_rw sqe).slba ((parse_rw sqe).nlb + 1))
  unfolding answer
  answer-range p q = rw (p, q) refl

  -- The last check.
  range-Judged :
      nr_blocks < 2 ^ 64
      → bytes_of block_shift sqe ≤ mdts_bytes
      → sqe.sgl_length % 2 ^ 24 ≡ bytes_of block_shift sqe
      → Judged block_shift nr_blocks sqe (
          range_checked
            (parse_rw sqe)
            (bytes_of block_shift sqe)
            (check_range nr_blocks (parse_rw sqe).slba ((parse_rw sqe).nlb + 1)))
  unfolding range_checked nvme_status
  range-Judged s a b = elim (Bool-cases (ltb nr_blocks (end_of sqe))) [
    | inl p ↦
        rw
          (check_range-outside nr_blocks (parse_rw sqe).slba ((parse_rw sqe).nlb + 1)
            (unfold end_of in ltb→lt nr_blocks (end_of sqe) p))
          (outside a b (ltb→lt nr_blocks (end_of sqe) p))
    | inr p ↦
        rw
          (check_range-inside nr_blocks (parse_rw sqe).slba ((parse_rw sqe).nlb + 1) s
            (unfold end_of in ltb→le nr_blocks (end_of sqe) p))
          (within a b (ltb→le nr_blocks (end_of sqe) p))
  ]

-- With blocks of at most 2^32 bytes and a device whose size fits 64 bits, `checked_len` lets a command
-- through exactly if its bytes are within MDTS, are what its SGL says, and end on the device; else it
-- gives the status of the first check that fails. Nothing overflows.
pub checked_len-Judged :
    (block_shift nr_blocks : ℕ) (sqe : Sqe)
    → 2 ^ block_shift ≤ 2 ^ 32
    → nr_blocks < 2 ^ 64
    → Judged block_shift nr_blocks sqe (checked_len block_shift nr_blocks sqe)
checked_len-Judged block_shift nr_blocks sqe h s =
    subst (Judged block_shift nr_blocks sqe) (sym (checked_len-answer block_shift nr_blocks sqe h))
      (elim (Bool-cases (ltb mdts_bytes (bytes_of block_shift sqe))) [
        | inl p ↦
            rw (answer-long block_shift nr_blocks sqe p)
              (too_long (ltb→lt mdts_bytes (bytes_of block_shift sqe) p))
        | inr p ↦ elim (Bool-cases (sqe.sgl_length % 2 ^ 24 == bytes_of block_shift sqe)) [
          | inr q ↦ rw (answer-sgl block_shift nr_blocks sqe p q) (
              other_sgl (ltb→le mdts_bytes (bytes_of block_shift sqe) p)
                (λ e. cc ((==_iff _ _).1 e, q)))
          | inl q ↦ rw (answer-range block_shift nr_blocks sqe p q) (
              range-Judged block_shift nr_blocks sqe s
                (ltb→le mdts_bytes (bytes_of block_shift sqe) p) ((==_iff _ _).0 q))
        ]
      ])
