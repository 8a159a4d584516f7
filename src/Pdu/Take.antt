-- ===== src/Pdu/Take.antt =====
-- crates/ioutgt-nvme/src/pdu.rs: a whole header on the wire, through `PduDecoder::feed` and `take`.
use mathlib.Core.List.{append-nil}
use ioutgt.Base.{
  ℕ, ◌+◌, ◌-◌, Bool, true, false, not, ◌&&◌, List, [], ◌++◌, ◌≡◌, refl, sym, ap, ◌∙◌, arith, ◌==◌,
  length, take, drop, length-append, sub_u32,
}
use ioutgt.Wire.{emit, Fits, de}
use ioutgt.Pdu.{CommonHeader, common_fields, ddgst_flag}
use ioutgt.Pdu.Decode
use ioutgt.Pdu.Feed
use ioutgt.Pdu.Header.{take_at_length, length-common, header_of-emit, behind_common}

-- A decoder with a whole header.
abbrev pub whole : Bool → List ℕ → ℕ → Decode.PduDecoder
whole hdr_digest bytes n = record {
  hdr_digest = hdr_digest;
  buf = bytes;
  need = n;
  state = Decode.complete;
}

filled_at : (d : Decode.PduDecoder) → length d.buf ≡ d.need → Decode.filled d ≡ true
filled_at d e = ground arith

-- The length of a header that was checked, of the bytes of the decoder.
full_header_len-emit :
    (d : Decode.PduDecoder) (h : CommonHeader) (tail : List ℕ)
    → Fits (common_fields h)
    → d.buf ≡ emit (common_fields h) ++ tail
    → Decode.full_header_len d ≡ Decode.header_len h d.hdr_digest
unfolding Decode.full_header_len
full_header_len-emit d h tail fit e =
    ap (λ x. Decode.header_len x d.hdr_digest)
      (ap (λ bytes. Decode.header_of (take 8 bytes)) e ∙ header_of-emit h tail fit)

grab_at :
    (d : Decode.PduDecoder) (xs ys : List ℕ)
    → length xs ≡ d.need - length d.buf
    → Decode.grab d (xs ++ ys) ≡ record d { buf = d.buf ++ xs }
grab_at d xs ys e =
    ap (λ bytes. record d { buf = d.buf ++ bytes }) (take_at_length (d.need - length d.buf) xs ys e)

-- A whole header and whatever follows it: the header is taken, and nothing else.
pub feed_header :
    (hdr_digest : Bool) (h : CommonHeader) (tail payload : List ℕ) (n : ℕ)
    → Fits (common_fields h)
    → Decode.header_len h hdr_digest ≡ Decode.ok n
    → 8 + length tail ≡ n
    → Decode.feed (Decode.new hdr_digest) (emit (common_fields h) ++ (tail ++ payload)) ≡ record {
      answer = Decode.ok n;
      decoder = whole hdr_digest (emit (common_fields h) ++ tail) n;
    }
unfolding Feed.done Decode.new
feed_header hdr_digest h tail payload n fit checked size =
    let bytes = emit (common_fields h) in
    let d0 = Decode.new hdr_digest in
    let d1 : Decode.PduDecoder = record {
      hdr_digest = hdr_digest;
      buf = bytes;
      need = 8;
      state = Decode.common;
    } in
    let d2 : Decode.PduDecoder = record {
      hdr_digest = hdr_digest;
      buf = bytes;
      need = n;
      state = Decode.rest;
    } in
    let d3 : Decode.PduDecoder = record {
      hdr_digest = hdr_digest;
      buf = bytes ++ tail;
      need = n;
      state = Decode.rest;
    } in
    let input = bytes ++ (tail ++ payload) in
    let len8 : length bytes ≡ 8 = length-common h in
    let first : Decode.grab d0 input ≡ d1 = grab_at d0 bytes (tail ++ payload) len8 in
    let behind : Decode.left d0 input ≡ tail ++ payload = behind_common h (tail ++ payload) in
    let asked : Decode.full_header_len d1 ≡ Decode.ok n =
      full_header_len-emit d1 h [] fit (sym (append-nil bytes)) ∙ checked in
    let second : Decode.grab d2 (tail ++ payload) ≡ d3 = grab_at d2 tail payload (omega arith) in
    Feed.feed-common d0 input refl
    ∙ Feed.feed_common-filled d0 d1 input first (filled_at d1 len8)
    ∙ ap (λ t. Decode.sized d1 t (length d1.buf - length d0.buf) (Decode.full_header_len d1)) behind
    ∙ ap (λ t. Decode.sized d1 (tail ++ payload) (length d1.buf - length d0.buf) t) asked
    ∙ Feed.feed_rest-filled d2 d3 (tail ++ payload) (length d1.buf - length d0.buf) second
        (filled_at d3 (omega (arith, length-append bytes tail)))
    ∙ ap (λ (k : ℕ). record { answer = Decode.ok k; decoder = whole hdr_digest (bytes ++ tail) n })
        (omega (arith, length-append bytes tail))

-- The digest that follows a header, if any.
abbrev pub digest_ok : (List ℕ → ℕ) → List ℕ → ℕ → Bool
digest_ok crc buf hlen = de (take 4 (drop hlen buf)) == crc (take hlen buf)

take_pdu-whole :
    (crc : List ℕ → ℕ) (hdr_digest : Bool) (bytes : List ℕ) (n : ℕ) (h : CommonHeader)
    → Decode.header_of (take 8 bytes) ≡ h
    → Decode.take_pdu crc (whole hdr_digest bytes n)
      ≡ Decode.take_as crc (whole hdr_digest bytes n) h
unfolding Decode.take_pdu Decode.is_complete
take_pdu-whole crc hdr_digest bytes n h e = ap (Decode.take_as crc (whole hdr_digest bytes n)) e

-- A header that passes the checks gives its typed header.
checked_take-kind_of :
    (crc : List ℕ → ℕ) (d : Decode.PduDecoder) (h : CommonHeader) (hdgst ddgst : Bool)
    (data_len : ℕ)
    → (hdgst && not (digest_ok crc d.buf h.hlen)) ≡ false
    → (not (h.pdo == 0) && not (h.pdo == h.hlen + Decode.digest_len hdgst)) ≡ false
    → sub_u32 (sub_u32 h.plen (h.hlen + Decode.digest_len hdgst)) (Decode.digest_len ddgst)
      ≡ data_len
    → Decode.checked_take crc d h hdgst ddgst
      ≡ Decode.finishing d data_len ddgst (Decode.kind_of h d.buf data_len)
unfolding Decode.checked_take
checked_take-kind_of crc d h hdgst ddgst data_len e5 e6 e7 = rw (e5, e6, e7)

pub take-kind_of :
    (crc : List ℕ → ℕ) (hdr_digest : Bool) (bytes : List ℕ) (n : ℕ) (h : CommonHeader)
    (hdgst ddgst : Bool) (data_len : ℕ)
    → Decode.header_of (take 8 bytes) ≡ h
    → (Decode.digestable_type h.pdu_type && hdr_digest) ≡ hdgst
    → (Decode.digestable_type h.pdu_type && Decode.has_flag h.flags ddgst_flag) ≡ ddgst
    → (hdgst && not (digest_ok crc bytes h.hlen)) ≡ false
    → (not (h.pdo == 0) && not (h.pdo == h.hlen + Decode.digest_len hdgst)) ≡ false
    → sub_u32 (sub_u32 h.plen (h.hlen + Decode.digest_len hdgst)) (Decode.digest_len ddgst)
      ≡ data_len
    → Decode.take_pdu crc (whole hdr_digest bytes n)
      ≡ Decode.finishing (whole hdr_digest bytes n) data_len ddgst (Decode.kind_of h bytes data_len)
take-kind_of crc hdr_digest bytes n h hdgst ddgst data_len e2 e3 e4 e5 e6 e7 =
    let d = whole hdr_digest bytes n in
    take_pdu-whole crc hdr_digest bytes n h e2
    ∙ ap
        (λ b.
          Decode.checked_take crc d h b
            (Decode.digestable_type h.pdu_type && Decode.has_flag h.flags ddgst_flag))
        e3
    ∙ ap (λ b. Decode.checked_take crc d h hdgst b) e4
    ∙ checked_take-kind_of crc d h hdgst ddgst data_len e5 e6 e7
