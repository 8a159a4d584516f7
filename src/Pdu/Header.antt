-- ===== src/Pdu/Header.antt =====
-- crates/ioutgt-nvme/src/pdu.rs: what the decoder makes of a header that has arrived, and its bounds.
use mathlib.Core.List.{append-nil}
use ioutgt.Base.{
  ℕ, List, [], ◌++◌, ◌≡◌, sym, ap, ◌∙◌, subst, length, take, drop, take-append_exact,
  drop-append_exact,
}
use ioutgt.Wire.{emit, values, Fits, values-emit, length-emit}
use ioutgt.Pdu.{CommonHeader, common_fields, common_of, common_widths}
use ioutgt.Pdu.Decode

pub take_at_length : (n : ℕ) (xs ys : List ℕ) → length xs ≡ n → take n (xs ++ ys) ≡ xs
take_at_length n xs ys e = subst (λ k. take k (xs ++ ys) ≡ xs) e (take-append_exact xs ys)

pub drop_at_length : (n : ℕ) (xs ys : List ℕ) → length xs ≡ n → drop n (xs ++ ys) ≡ ys
drop_at_length n xs ys e = subst (λ k. drop k (xs ++ ys) ≡ ys) e (drop-append_exact xs ys)

pub length-common : (h : CommonHeader) → length (emit (common_fields h)) ≡ 8
length-common h = length-emit (common_fields h)

-- The common header in front of a buffer.
pub header_of-emit :
    (h : CommonHeader) (tail : List ℕ)
    → Fits (common_fields h)
    → Decode.header_of (take 8 (emit (common_fields h) ++ tail)) ≡ h
unfolding Decode.header_of
header_of-emit h tail fit =
    let bytes = emit (common_fields h) in
    let front : take 8 (bytes ++ tail) ≡ bytes ++ [] =
      take_at_length 8 bytes tail (length-common h) ∙ sym (append-nil bytes) in
    ap (λ bs. common_of (values common_widths bs).0) front
    ∙ ap (λ p. common_of p.0) (values-emit (common_fields h) [] fit)

pub behind_common :
    (h : CommonHeader) (tail : List ℕ) → drop 8 (emit (common_fields h) ++ tail) ≡ tail
behind_common h tail = drop_at_length 8 (emit (common_fields h)) tail (length-common h)
