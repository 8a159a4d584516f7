-- ===== src/Tcp/Send/Tests.antt =====
-- crates/ioutgt-nvme-tcp/src/send.rs: a read of five bytes from a buffer of two pieces.
use ioutgt.Base.{ℕ, ◌+◌, ◌≡◌, refl, true, List, [], ◌∷◌, ◌++◌, none, Ret, All, arith}
use ioutgt.Spec.{new_cqe}
use ioutgt.Pool.Bytes.{addrs, range}
use ioutgt.Gather.{GatherBatch}
use ioutgt.Tcp.{Completion, response}
use ioutgt.Tcp.Tests.{queue, slot_open}
use ioutgt.Tcp.Send.{arena_per_item, stage_send_work}
use ioutgt.Tcp.Send.Contents.{Apart}
use ioutgt.Tcp.Send.Response.{WroteWithin, response_bytes, stage_send_work-Wrote}

abbrev batch : GatherBatch
batch = record {
  arena_ptr = 1000;
  arena_len = 4096;
  buf_index = none;
  arena_used = 0;
  iovs = [];
  iov_cap = 35;
  live = 0;
  payload_bytes = 0;
  payload_items = 0;
}

abbrev finished : Completion
finished = record { tag = 0; cqe = new_cqe 0 3 1 7 0; data_len = 5 }

-- A digest that adds up.
abbrev sum_from : ℕ → List ℕ → ℕ
sum_from c [] = c
sum_from c (b ∷ bytes) = sum_from (c + b) bytes

sum_from-append : (c : ℕ) (xs ys : List ℕ) → sum_from (sum_from c xs) ys ≡ sum_from c (xs ++ ys)
sum_from-append c [] ys = refl
sum_from-append c (x ∷ xs) ys = sum_from-append (c + x) xs ys

slot_apart : All (Apart batch) (addrs slot_open.slot_data.segs)
unfolding addrs range
slot_apart = ground arith

stage_send_work-Wrote_example :
    Ret
      (WroteWithin arena_per_item batch
        (λ a. a)
        (response_bytes
          (sum_from 0)
          sum_from
          queue
          finished
          (10 ∷ 11 ∷ 12 ∷ 20 ∷ 21 ∷ [])
          true
          true))
      (stage_send_work (sum_from 0) sum_from (batch, λ a. a) queue (response finished) true true)
unfolding addrs range new_cqe
stage_send_work-Wrote_example =
    stage_send_work-Wrote (sum_from 0) sum_from batch (λ a. a) queue finished slot_open true true
      (record { none_more = λ c. refl; more = sum_from-append }) refl (omega arith) slot_apart
      (omega arith)
