-- ===== src/Pdu/RoundTrip.antt =====
-- crates/ioutgt-nvme/src/pdu.rs: the headers of the encoders, read back by the decoder.
use mathlib.Core.List.{append-nil, append_assoc}
use ioutgt.Base.{
  ℕ, ◌+◌, ◌≤◌, ◌<◌, ◌^◌, Bool, true, false, not, ◌&&◌, List, [], ◌++◌, ◌≡◌, refl, sym, ap, ◌∙◌,
  arith, ltb, ◌==◌, length, take, drop, length-append, length-drop, sub_u32, Exec, returns, panics,
  ==_iff,
}
use ioutgt.Wire.{Fields, emit, Fits, de, le, de-le, length-le, emit-append}
use ioutgt.Pdu.{CommonHeader, common_fields, DecodedPdu, PduKind, ddgst_flag}
use ioutgt.Pdu.Decode
use ioutgt.Pdu.Encode
use ioutgt.Pdu.Header.{take_at_length, drop_at_length, length-common, header_of-emit}
use ioutgt.Pdu.Take.{whole, feed_header, take-kind_of, digest_ok}

-- What a decoder makes of an encoded header and the payload behind it: what `feed` answers, and then
-- what `take` gives.
abbrev pub Received : Type 0
Received = Decode.Checked ℕ × Exec (Decode.Checked DecodedPdu × Decode.PduDecoder)

unfoldable pub received : (List ℕ → ℕ) → Bool → List ℕ → Encode.Encoded → Received
received crc hdr_digest payload panics = (Decode.ok 0, panics)
received crc hdr_digest payload (returns (buf, n)) =
    let fed = Decode.feed (Decode.new hdr_digest) (take n buf ++ payload) in
    (fed.answer, Decode.take_pdu crc fed.decoder)

-- The digest behind the fields of a header.
abbrev pub digest_of : (List ℕ → ℕ) → Bool → List ℕ → List ℕ
digest_of crc true bytes = le 4 (crc bytes)
digest_of crc false bytes = []

pub length-digest_of :
    (crc : List ℕ → ℕ) (hdgst : Bool) (bytes : List ℕ)
    → length (digest_of crc hdgst bytes) ≡ Decode.digest_len hdgst
length-digest_of crc true bytes = length-le 4 (crc bytes)
length-digest_of crc false bytes = refl

pub ltb-false : (a b : ℕ) → b ≤ a → ltb a b ≡ false
ltb-false a b h = ground arith

put-room :
    (buf bytes : List ℕ)
    → length bytes ≤ length buf
    → Encode.put buf bytes ≡ returns (bytes ++ drop (length bytes) buf)
unfolding Encode.put
put-room buf bytes h = let room : ltb (length buf) (length bytes) ≡ false = ground arith in rw room

-- What `seal` leaves: the fields, the digest, and the rest of the buffer.
pub seal-wire :
    (crc : List ℕ → ℕ) (buf : List ℕ) (fields : Fields) (hlen : ℕ) (hdgst : Bool)
    → length (emit fields) ≡ hlen
    → hlen + Decode.digest_len hdgst ≤ length buf
    → (rest : List ℕ) × (Encode.seal crc buf fields hlen hdgst
        ≡ returns (
          (emit fields ++ digest_of crc hdgst (emit fields)) ++ rest,
          hlen + Decode.digest_len hdgst,
        ))
      × (hlen + Decode.digest_len hdgst + length rest ≡ length buf)
unfolding Encode.seal Encode.put_hdgst
seal-wire crc buf fields hlen true size room =
    let bytes = emit fields in
    let behind = drop (length bytes) buf in
    let front : take hlen (bytes ++ behind) ≡ bytes = take_at_length hlen bytes behind size in
    let there : ltb (length (bytes ++ behind)) (hlen + 4) ≡ false =
      ltb-false (length (bytes ++ behind)) (hlen + 4)
        (omega (arith, length-append bytes behind, length-drop (length bytes) buf)) in
    (
      drop (hlen + 4) (bytes ++ behind),
      rw (put-room buf bytes (omega arith), there, front)
          (ap (λ t. returns (t, hlen + 4))
            (sym (append_assoc bytes (le 4 (crc bytes)) (drop (hlen + 4) (bytes ++ behind))))),
      omega (
        arith,
        length-drop (hlen + 4) (bytes ++ behind),
        length-append bytes behind,
        length-drop (length bytes) buf,
      ),
    )
seal-wire crc buf fields hlen false size room =
    let bytes = emit fields in
    (
      drop (length bytes) buf,
      rw (put-room buf bytes (omega arith)) (
          rw (append-nil bytes)
            (ap (λ (k : ℕ). returns (bytes ++ drop (length bytes) buf, k)) (omega arith))),
      omega (arith, length-drop (length bytes) buf),
    )

-- The digest of the encoder passes the check of the decoder.
digest_ok-digest_of :
    (crc : List ℕ → ℕ) (bytes : List ℕ) (hlen : ℕ) (hdgst : Bool)
    → ((bs : List ℕ) → crc bs < 2 ^ 32)
    → length bytes ≡ hlen
    → (hdgst && not (digest_ok crc (bytes ++ digest_of crc hdgst bytes) hlen)) ≡ false
digest_ok-digest_of crc bytes hlen false small size = refl
digest_ok-digest_of crc bytes hlen true small size =
    let digest = le 4 (crc bytes) in
    let front : take hlen (bytes ++ digest) ≡ bytes = take_at_length hlen bytes digest size in
    let end : drop hlen (bytes ++ digest) ≡ digest = drop_at_length hlen bytes digest size in
    let all : take 4 digest ≡ digest =
      ap (λ t. take 4 t) (sym (append-nil digest))
      ∙ take_at_length 4 digest [] (length-le 4 (crc bytes)) in
    let back : de digest ≡ crc bytes = de-le 4 (crc bytes) (omega (arith, small bytes)) in
    let same : (crc bytes == crc bytes) ≡ true = (==_iff (crc bytes) (crc bytes)).1 refl in
    rw (front, end, all, back, same)

-- An encoded header that passes the checks is received as its typed header: the decoder takes the
-- header and its digest, and is new again.
pub sealed-received :
    (crc : List ℕ → ℕ) (buf payload : List ℕ) (hdr_digest hdgst ddgst : Bool) (h : CommonHeader)
    (fields : Fields) (data_len : ℕ) (kind : PduKind)
    → ((bs : List ℕ) → crc bs < 2 ^ 32)
    → h.hlen + Decode.digest_len hdgst ≤ length buf
    → Fits (common_fields h)
    → 8 + length (emit fields) ≡ h.hlen
    → Decode.header_len h hdr_digest ≡ Decode.ok (h.hlen + Decode.digest_len hdgst)
    → (Decode.digestable_type h.pdu_type && hdr_digest) ≡ hdgst
    → (Decode.digestable_type h.pdu_type && Decode.has_flag h.flags ddgst_flag) ≡ ddgst
    → (not (h.pdo == 0) && not (h.pdo == h.hlen + Decode.digest_len hdgst)) ≡ false
    → sub_u32 (sub_u32 h.plen (h.hlen + Decode.digest_len hdgst)) (Decode.digest_len ddgst)
      ≡ data_len
    → ((digest : List ℕ)
        → Decode.kind_of h (emit (common_fields h) ++ (emit fields ++ digest)) data_len
          ≡ returns (Decode.ok kind))
    → received crc hdr_digest payload (Encode.seal crc buf (common_fields h ++ fields) h.hlen hdgst)
      ≡ (
        Decode.ok (h.hlen + Decode.digest_len hdgst),
        returns (
          Decode.ok (record { kind = kind; data_len = data_len; ddgst = ddgst }),
          Decode.new hdr_digest,
        ),
      )
unfolding received Decode.new
sealed-received crc buf payload hdr_digest hdgst ddgst h fields data_len kind small room fit size
      len e3 e4 e6 e7 typed =
    let front = emit (common_fields h) in
    let bytes = emit (common_fields h ++ fields) in
    let n = h.hlen + Decode.digest_len hdgst in
    let digest = digest_of crc hdgst bytes in
    let split : bytes ≡ front ++ emit fields = emit-append (common_fields h) fields in
    let len_bytes : length bytes ≡ h.hlen =
      ap length split ∙ omega (arith, length-append front (emit fields), length-common h) in
    let whole_wire : bytes ++ digest ≡ front ++ (emit fields ++ digest) =
      ap (λ t. t ++ digest) split ∙ append_assoc front (emit fields) digest in
    let (rest, sealed, _) =
      seal-wire crc buf (common_fields h ++ fields) h.hlen hdgst len_bytes room in
    let taken : take n ((bytes ++ digest) ++ rest) ++ payload
        ≡ front ++ ((emit fields ++ digest) ++ payload) =
      ap (λ t. t ++ payload)
        (take_at_length n (bytes ++ digest) rest
            (omega (arith, length-append bytes digest, length-digest_of crc hdgst bytes))
          ∙ whole_wire)
      ∙ append_assoc front (emit fields ++ digest) payload in
    let fed : Decode.feed (Decode.new hdr_digest) (take n ((bytes ++ digest) ++ rest) ++ payload)
        ≡ record {
          answer = Decode.ok n;
          decoder = whole hdr_digest (front ++ (emit fields ++ digest)) n;
        } =
      ap (λ t. Decode.feed (Decode.new hdr_digest) t) taken
      ∙ feed_header hdr_digest h (emit fields ++ digest) payload n fit len
          (omega (arith, length-append (emit fields) digest, length-digest_of crc hdgst bytes)) in
    let checked : (hdgst && not (digest_ok crc (front ++ (emit fields ++ digest)) h.hlen)) ≡ false =
      ap (λ t. hdgst && not (digest_ok crc t h.hlen)) (sym whole_wire)
      ∙ digest_ok-digest_of crc bytes h.hlen hdgst small len_bytes in
    let took =
      take-kind_of crc hdr_digest (front ++ (emit fields ++ digest)) n h hdgst ddgst data_len
        (header_of-emit h (emit fields ++ digest) fit) e3 e4 checked e6 e7
      ∙ ap (Decode.finishing (whole hdr_digest (front ++ (emit fields ++ digest)) n) data_len ddgst)
          (typed digest) in
    ap (received crc hdr_digest payload) sealed
    ∙ ap (λ f. (f.answer, Decode.take_pdu crc f.decoder)) fed
    ∙ ap (λ t. (Decode.ok n, t)) took
