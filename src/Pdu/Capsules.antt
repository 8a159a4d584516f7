-- ===== src/Pdu/Capsules.antt =====
-- crates/ioutgt-nvme/src/pdu.rs: the encoders of capsules and of R2T, read back by the decoder.
use ioutgt.Base.{
  ℕ, ◌+◌, ◌≤◌, ◌<◌, ◌^◌, Bool, true, false, not, ◌&&◌, List, ◌++◌, ◌≡◌, refl, ap, ◌∙◌, arith, ltb,
  ltb→lt, ◌==◌, if◌then◌else◌, length, drop, add_u32, Exec, returns, ==_iff,
}
use ioutgt.Wire.{emit, values, Fits, values-emit, length-emit}
use ioutgt.Spec.{Sqe, Cqe, sqe_fields, cqe_fields, sqe_of, cqe_of, sqe_widths, cqe_widths}
use ioutgt.Pdu.{
  CommonHeader, common_fields, DataFields, data_fields, PduKind, r2t_pdu, capsule_cmd_pdu,
  capsule_resp_pdu, r2t, capsule_resp, capsule_cmd, max_plen,
}
use ioutgt.Pdu.Decode
use ioutgt.Pdu.Encode
use ioutgt.Pdu.Header.{behind_common}
use ioutgt.Pdu.RoundTrip.{received, sealed-received}
use ioutgt.Pdu.Messages.{
  check_header-ok, data_at-emit, c2h_flags, c2h_flags-Flags, and_not, digest_len-le, ddgst_room,
  plen_ok, pdo_ok,
}

abbrev cqe_at : List ℕ → Cqe
cqe_at buf = cqe_of (values cqe_widths (drop 8 buf)).0

cqe_at-emit :
    (h : CommonHeader) (cqe : Cqe) (digest : List ℕ)
    → Fits (cqe_fields cqe)
    → cqe_at (emit (common_fields h) ++ (emit (cqe_fields cqe) ++ digest)) ≡ cqe
cqe_at-emit h cqe digest fit =
    ap (λ t. cqe_of (values cqe_widths t).0) (behind_common h (emit (cqe_fields cqe) ++ digest))
    ∙ ap (λ p. cqe_of p.0) (values-emit (cqe_fields cqe) digest fit)

abbrev sqe_at : List ℕ → Sqe
sqe_at buf = sqe_of (values sqe_widths (drop 8 buf)).0

sqe_at-emit :
    (h : CommonHeader) (sqe : Sqe) (digest : List ℕ)
    → Fits (sqe_fields sqe)
    → sqe_at (emit (common_fields h) ++ (emit (sqe_fields sqe) ++ digest)) ≡ sqe
sqe_at-emit h sqe digest fit =
    ap (λ t. sqe_of (values sqe_widths t).0) (behind_common h (emit (sqe_fields sqe) ++ digest))
    ∙ ap (λ p. sqe_of p.0) (values-emit (sqe_fields sqe) digest fit)

abbrev resp_kind : Cqe → Exec (Decode.Checked PduKind)
resp_kind cqe = returns (Decode.ok (capsule_resp_pdu cqe))

kind_of-capsule_resp :
    (flags hlen pdo plen : ℕ) (buf : List ℕ) (n : ℕ)
    → Decode.kind_of (Encode.common capsule_resp flags hlen pdo plen) buf n ≡ resp_kind (cqe_at buf)
unfolding Decode.kind_of Encode.common
kind_of-capsule_resp flags hlen pdo plen buf n = refl

abbrev cmd_kind : Sqe → Exec (Decode.Checked PduKind)
cmd_kind sqe = returns (Decode.ok (capsule_cmd_pdu sqe))

kind_of-capsule_cmd :
    (flags hlen pdo plen : ℕ) (buf : List ℕ) (n : ℕ)
    → Decode.kind_of (Encode.common capsule_cmd flags hlen pdo plen) buf n ≡ cmd_kind (sqe_at buf)
unfolding Decode.kind_of Encode.common
kind_of-capsule_cmd flags hlen pdo plen buf n = refl

abbrev r2t_kind : DataFields → Exec (Decode.Checked PduKind)
r2t_kind d = returns (Decode.ok (r2t_pdu d.cid d.ttag d.data_offset d.data_length))

kind_of-r2t :
    (flags hlen pdo plen : ℕ) (buf : List ℕ) (n : ℕ)
    → Decode.kind_of (Encode.common r2t flags hlen pdo plen) buf n ≡ r2t_kind (Decode.data_at buf)
unfolding Decode.kind_of Encode.common
kind_of-r2t flags hlen pdo plen buf n = refl

same : (n : ℕ) → (n == n) ≡ true
same n = (==_iff n n).1 refl

-- The header of `encode_capsule_resp`, read back: the decoder takes the header and its digest, gives the
-- completion entry that was encoded, with no payload and no data digest, and is new again.
pub received-encode_capsule_resp :
    (crc : List ℕ → ℕ) (buf payload : List ℕ) (cqe : Cqe) (hdgst : Bool)
    → ((bs : List ℕ) → crc bs < 2 ^ 32)
    → 24 + Decode.digest_len hdgst ≤ length buf
    → Fits (cqe_fields cqe)
    → received crc hdgst payload (Encode.encode_capsule_resp crc buf cqe hdgst) ≡ (
      Decode.ok (24 + Decode.digest_len hdgst),
      returns (
        Decode.ok (record { kind = capsule_resp_pdu cqe; data_len = 0; ddgst = false }),
        Decode.new hdgst,
      ),
    )
unfolding Encode.encode_capsule_resp Encode.common Decode.header_len Decode.shape_of
    Decode.exact_plen
received-encode_capsule_resp crc buf payload cqe hdgst small room fit =
    let flags = c2h_flags false false hdgst false in
    let (byte, has_hdgst, has_ddgst, _, _) = c2h_flags-Flags false false hdgst false in
    let wire_len = 24 + Decode.digest_len hdgst in
    let h = Encode.common capsule_resp flags 24 0 wire_len in
    let fit_h : Fits (common_fields h) = (
      omega arith,
      (byte, (omega arith, (omega arith, (omega (arith, digest_len-le hdgst), tt)))),
    ) in
    let checked : Decode.check_header h 24 hdgst ≡ Decode.ok wire_len =
      check_header-ok h 24 hdgst refl (rw has_hdgst (and_not hdgst))
        (plen_ok wire_len wire_len (omega arith) (omega (arith, digest_len-le hdgst)))
        (same wire_len) (rw has_ddgst) in
    sealed-received crc buf payload hdgst hdgst false h (cqe_fields cqe) 0 (capsule_resp_pdu cqe)
      small room fit_h (omega (arith, length-emit (cqe_fields cqe))) checked refl has_ddgst refl
      (omega (arith, digest_len-le hdgst))
      (λ digest.
        kind_of-capsule_resp flags 24 0 wire_len
          (emit (common_fields h) ++ (emit (cqe_fields cqe) ++ digest)) 0
        ∙ ap resp_kind (cqe_at-emit h cqe digest fit))

-- The header of `encode_r2t`, read back: the decoder takes the header and its digest, gives the fields
-- that were encoded, with no payload and no data digest, and is new again.
pub received-encode_r2t :
    (crc : List ℕ → ℕ) (buf payload : List ℕ) (cid ttag offset len : ℕ) (hdgst : Bool)
    → ((bs : List ℕ) → crc bs < 2 ^ 32)
    → 24 + Decode.digest_len hdgst ≤ length buf
    → cid < 2 ^ 16
    → ttag < 2 ^ 16
    → offset < 2 ^ 32
    → len < 2 ^ 32
    → received crc hdgst payload (Encode.encode_r2t crc buf cid ttag offset len hdgst) ≡ (
      Decode.ok (24 + Decode.digest_len hdgst),
      returns (
        Decode.ok (record { kind = r2t_pdu cid ttag offset len; data_len = 0; ddgst = false }),
        Decode.new hdgst,
      ),
    )
unfolding Encode.encode_r2t Encode.common Decode.header_len Decode.shape_of Decode.exact_plen
received-encode_r2t crc buf payload cid ttag offset len hdgst small room cid_fits ttag_fits
      offset_fits len_fits =
    let d : DataFields = record {
      cid = cid;
      ttag = ttag;
      data_offset = offset;
      data_length = len;
    } in
    let flags = c2h_flags false false hdgst false in
    let (byte, has_hdgst, has_ddgst, _, _) = c2h_flags-Flags false false hdgst false in
    let wire_len = 24 + Decode.digest_len hdgst in
    let h = Encode.common r2t flags 24 0 wire_len in
    let fit_d : Fits (data_fields d) =
      (omega arith, (omega arith, (omega arith, (omega arith, (omega arith, tt))))) in
    let fit_h : Fits (common_fields h) = (
      omega arith,
      (byte, (omega arith, (omega arith, (omega (arith, digest_len-le hdgst), tt)))),
    ) in
    let checked : Decode.check_header h 24 hdgst ≡ Decode.ok wire_len =
      check_header-ok h 24 hdgst refl (rw has_hdgst (and_not hdgst))
        (plen_ok wire_len wire_len (omega arith) (omega (arith, digest_len-le hdgst)))
        (same wire_len) (rw has_ddgst) in
    sealed-received crc buf payload hdgst hdgst false h (data_fields d) 0
      (r2t_pdu cid ttag offset len) small room fit_h (omega (arith, length-emit (data_fields d)))
      checked refl has_ddgst refl (omega (arith, digest_len-le hdgst))
      (λ digest.
        kind_of-r2t flags 24 0 wire_len (emit (common_fields h) ++ (emit (data_fields d) ++ digest))
          0
        ∙ ap r2t_kind (data_at-emit h d digest fit_d))

-- The offset of the data: behind the header, or 0 without data.
cmd_pdo :
    (has_data : Bool) (n : ℕ)
    → (not ((if has_data then n else 0) == 0) && not ((if has_data then n else 0) == n)) ≡ false
cmd_pdo true n = pdo_ok n n refl
cmd_pdo false n = refl

cmd_pdo_fits : (has_data : Bool) (n : ℕ) → n < 256 → (if has_data then n else 0) < 256 ^ 1
cmd_pdo_fits true n h = omega arith
cmd_pdo_fits false n h = omega arith

data_asked : (ddgst : Bool) (data_len : ℕ) → (ddgst && ltb 0 data_len) ≡ true → 0 < data_len
data_asked true data_len h = ltb→lt 0 data_len h
data_asked false data_len h = ground arith

-- The header of `encode_capsule_cmd`, read back, for a length of data that fits a PDU: the decoder takes
-- the header and its digest, gives the command that was encoded and the length of the data, says that a
-- data digest follows just if one is asked for and there are data, and is new again.
pub received-encode_capsule_cmd :
    (crc : List ℕ → ℕ) (buf payload : List ℕ) (sqe : Sqe) (hdgst : Bool) (data_len : ℕ)
    (ddgst : Bool)
    → ((bs : List ℕ) → crc bs < 2 ^ 32)
    → 72 + Decode.digest_len hdgst ≤ length buf
    → Fits (sqe_fields sqe)
    → 72 + Decode.digest_len hdgst + data_len + Decode.digest_len (ddgst && ltb 0 data_len)
      ≤ max_plen
    → received crc hdgst payload (Encode.encode_capsule_cmd crc buf sqe hdgst data_len ddgst) ≡ (
      Decode.ok (72 + Decode.digest_len hdgst),
      returns (
        Decode.ok (record {
          kind = capsule_cmd_pdu sqe;
          data_len = data_len;
          ddgst = ddgst && ltb 0 data_len;
        }),
        Decode.new hdgst,
      ),
    )
unfolding Encode.encode_capsule_cmd Encode.common Decode.header_len Decode.shape_of
    Decode.exact_plen
received-encode_capsule_cmd crc buf payload sqe hdgst data_len ddgst small room fit size =
    let tail = ddgst && ltb 0 data_len in
    let flags = c2h_flags false false hdgst tail in
    let (byte, has_hdgst, has_ddgst, _, _) = c2h_flags-Flags false false hdgst tail in
    let wire_len = 72 + Decode.digest_len hdgst in
    let plen = add_u32 (wire_len + data_len) (Decode.digest_len tail) in
    let pdo = if ltb 0 data_len then wire_len else 0 in
    let h = Encode.common capsule_cmd flags 72 pdo plen in
    let plen_eq : plen ≡ wire_len + data_len + Decode.digest_len tail = omega arith in
    let pdo_fits = cmd_pdo_fits (ltb 0 data_len) wire_len (omega (arith, digest_len-le hdgst)) in
    let fit_h : Fits (common_fields h) =
      (omega arith, (byte, (omega arith, (pdo_fits, (omega arith, tt))))) in
    let checked : Decode.check_header h 72 hdgst ≡ Decode.ok wire_len =
      check_header-ok h 72 hdgst refl (rw has_hdgst (and_not hdgst))
        (plen_ok plen wire_len (omega arith) (omega arith)) refl
        (rw has_ddgst
          (ddgst_room tail plen wire_len data_len (data_asked ddgst data_len) plen_eq)) in
    sealed-received crc buf payload hdgst hdgst tail h (sqe_fields sqe) data_len
      (capsule_cmd_pdu sqe) small room fit_h (omega (arith, length-emit (sqe_fields sqe))) checked
      refl has_ddgst (cmd_pdo (ltb 0 data_len) wire_len) (omega arith)
      (λ digest.
        kind_of-capsule_cmd flags 72 pdo plen
          (emit (common_fields h) ++ (emit (sqe_fields sqe) ++ digest)) data_len
        ∙ ap cmd_kind (sqe_at-emit h sqe digest fit))
