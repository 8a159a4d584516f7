-- ===== src/Pdu/Tests.antt =====
-- crates/ioutgt-nvme/src/pdu.rs: the theorems at concrete headers. The checksum is a stand-in of 32 bits.
use ioutgt.Base.{
  ℕ, ◌%◌, ◌≤◌, ◌<◌, ◌^◌, ◌≡◌, true, false, List, [], ◌∷◌, ◌++◌, arith, length, replicate,
  length-replicate, returns,
}
use ioutgt.Wire.{de}
use ioutgt.Spec.{Cqe, Sqe}
use ioutgt.Pdu.{c2h_data_pdu, h2c_data_pdu, r2t_pdu, capsule_cmd_pdu, capsule_resp_pdu}
use ioutgt.Pdu.Decode
use ioutgt.Pdu.Encode
use ioutgt.Pdu.Feed.{continue_with, feed-append}
use ioutgt.Pdu.RoundTrip.{received}
use ioutgt.Pdu.Messages.{received-encode_c2h_data, received-encode_h2c_data}
use ioutgt.Pdu.Capsules.{
  received-encode_capsule_resp, received-encode_r2t, received-encode_capsule_cmd,
}

abbrev checksum : List ℕ → ℕ
checksum bs = de bs % 2 ^ 32

checksum_small : (bs : List ℕ) → checksum bs < 2 ^ 32
checksum_small bs = omega arith

abbrev buffer : List ℕ
buffer = replicate 80 0

room : 80 ≤ length buffer
room = omega (arith, length-replicate {A = ℕ} 80 0)

-- The first bytes of a response capsule.
abbrev first_bytes : List ℕ
first_bytes = 5 ∷ 0 ∷ 24 ∷ []

feed-append_example :
    Decode.feed (Decode.new false) (first_bytes ++ (0 ∷ 24 ∷ []))
    ≡ continue_with
        ((Decode.feed (Decode.new false) first_bytes).answer)
        ((Decode.feed (Decode.new false) first_bytes).decoder)
        (0 ∷ 24 ∷ [])
feed-append_example = feed-append (Decode.new false) first_bytes (0 ∷ 24 ∷ [])

received-encode_c2h_data_example :
    received checksum true
      (1 ∷ 2 ∷ [])
      (Encode.encode_c2h_data checksum buffer 3 4096 512 true true true true)
    ≡ (
      Decode.ok 28,
      returns (
        Decode.ok
            (record { kind = c2h_data_pdu 3 4096 512 true true; data_len = 512; ddgst = true }),
        Decode.new true,
      ),
    )
received-encode_c2h_data_example =
    received-encode_c2h_data checksum buffer (1 ∷ 2 ∷ []) 3 4096 512 true true true true
      checksum_small (omega (arith, room)) (omega arith) (omega arith) (omega arith)
      (λ e. omega arith)

received-encode_h2c_data_example :
    received checksum false [] (Encode.encode_h2c_data checksum buffer 3 4 0 512 true false true)
    ≡ (
      Decode.ok 24,
      returns (
        Decode.ok (record { kind = h2c_data_pdu 3 4 0 512 true; data_len = 512; ddgst = true }),
        Decode.new false,
      ),
    )
received-encode_h2c_data_example =
    received-encode_h2c_data checksum buffer [] 3 4 0 512 true false true checksum_small
      (omega (arith, room)) (omega arith) (omega arith) (omega arith) (omega arith)
      (λ e. omega arith)

abbrev completion : Cqe
completion = record { result = 1; rsvd = 0; sq_head = 2; sq_id = 1; cid = 9; status = 4 }

received-encode_capsule_resp_example :
    received checksum true [] (Encode.encode_capsule_resp checksum buffer completion true) ≡ (
      Decode.ok 28,
      returns (
        Decode.ok (record { kind = capsule_resp_pdu completion; data_len = 0; ddgst = false }),
        Decode.new true,
      ),
    )
received-encode_capsule_resp_example =
    received-encode_capsule_resp checksum buffer [] completion true checksum_small
      (omega (arith, room))
      (omega arith, (omega arith, (omega arith, (omega arith, (omega arith, (omega arith, tt))))))

received-encode_r2t_example :
    received checksum true [] (Encode.encode_r2t checksum buffer 3 4 0 8192 true) ≡ (
      Decode.ok 28,
      returns (
        Decode.ok (record { kind = r2t_pdu 3 4 0 8192; data_len = 0; ddgst = false }),
        Decode.new true,
      ),
    )
received-encode_r2t_example =
    received-encode_r2t checksum buffer [] 3 4 0 8192 true checksum_small (omega (arith, room))
      (omega arith) (omega arith) (omega arith) (omega arith)

abbrev command : Sqe
command = record {
  opcode = 1;
  flags = 0;
  cid = 9;
  nsid = 1;
  cdw2 = 0;
  cdw3 = 0;
  mptr = 0;
  sgl_addr = 0;
  sgl_length = 512;
  sgl_rsvd = 0;
  sgl_type = 1;
  cdw10 = 8;
  cdw11 = 0;
  cdw12 = 0;
  cdw13 = 0;
  cdw14 = 0;
  cdw15 = 0;
}

received-encode_capsule_cmd_example :
    received checksum true
      (7 ∷ [])
      (Encode.encode_capsule_cmd checksum buffer command true 512 true)
    ≡ (
      Decode.ok 76,
      returns (
        Decode.ok (record { kind = capsule_cmd_pdu command; data_len = 512; ddgst = true }),
        Decode.new true,
      ),
    )
received-encode_capsule_cmd_example =
    received-encode_capsule_cmd checksum buffer (7 ∷ []) command true 512 true checksum_small
      (omega (arith, room))
      (
        omega arith,
        (
          omega arith,
          (
            omega arith,
            (
              omega arith,
              (
                omega arith,
                (
                  omega arith,
                  (
                    omega arith,
                    (
                      omega arith,
                      (
                        omega arith,
                        (
                          omega arith,
                          (
                            omega arith,
                            (
                              omega arith,
                              (
                                omega arith,
                                (omega arith, (omega arith, (omega arith, (omega arith, tt)))),
                              ),
                            ),
                          ),
                        ),
                      ),
                    ),
                  ),
                ),
              ),
            ),
          ),
        ),
      )
      (omega arith)
