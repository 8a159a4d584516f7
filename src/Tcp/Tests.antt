-- ===== src/Tcp/Tests.antt =====
-- crates/ioutgt-nvme-tcp/src/recv.rs: the theorems on the receive path at a concrete queue.
use ioutgt.Base.{
  ℕ, ◌+◌, ◌≤◌, ◌≡◌, ◌≢◌, refl, true, false, List, [], ◌∷◌, ◌++◌, none, Ret, arith, length, take,
  drop,
}
use ioutgt.Pool.{BufPool, Seg, pool}
use ioutgt.Pool.Bytes.{addrs, range}
use ioutgt.Wire.{de}
use ioutgt.Spec.{Sqe, zeroed_sqe}
use ioutgt.Slots.{Slot, receiving, slot}
use ioutgt.Queue.{new_stats}
use ioutgt.Tcp.{TcpQueue}
use ioutgt.Tcp.Recv.{h2c, DataPhase, DdgstPhase, data_phase, Rx, arrived, folded, verified}
use ioutgt.Tcp.Recv.Segments.{fill_subsegs, fill_subsegs-addrs}
use ioutgt.Tcp.Recv.Fragments.{IsReceiving, landed, receive, joined, receive-landed}
use ioutgt.Tcp.Recv.Pdus.{H2cData}
use ioutgt.Tcp.Recv.Payload.{FailedPost, verified-FailedPost}

abbrev no_pool : BufPool
no_pool = record {
  base = 0;
  npages = 0;
  free = [];
  free_pages = 0;
  waiters = [];
  buf_index = none;
  send_arena = none;
}

-- A buffer of two pieces.
abbrev segs : List Seg
segs = record { ptr = 10; len = 3 } ∷ record { ptr = 20; len = 3 } ∷ []

-- A slot that waits for a transfer of five bytes.
abbrev pub slot_open : Slot Sqe
slot_open = record {
  state = receiving;
  cmd = record zeroed_sqe { cid = 7 };
  waker = none;
  slot_data = record { segs = segs; len = 6; owner = pool };
  data_len = 5;
  recv_offset = 0;
}

abbrev pub queue : TcpQueue
queue = record {
  nvme = record {
    slots = record {
      nslots = 1;
      slots = slot_open ∷ [];
      free_tags = [];
      executing_count = 0;
      tag_waiter = none;
      pool = no_pool;
    };
    sqsize = 4;
    qid = 1;
    sqhd = 3;
    sqhd_disabled = false;
    stats = new_stats 1;
  };
  send = record { work = []; waker = none; closed = false };
  traffic = false;
}

abbrev rx : Rx
rx = record { queue = queue; mem = λ a. 0; events = []; borrowed = [] }

-- The five bytes are one PDU, of which none is there.
abbrev five : DataPhase
five = record {
  tag = 0;
  base = 0;
  remaining = 5;
  crc = 0;
  ddgst = true;
  kind = h2c true 5;
  retained = false;
}

-- A digest that folds bytes one after the other.
abbrev sum_from : ℕ → List ℕ → ℕ
sum_from c [] = c
sum_from c (b ∷ bytes) = sum_from (c + b) bytes

sum_from-append : (c : ℕ) (xs ys : List ℕ) → sum_from (sum_from c xs) ys ≡ sum_from c (xs ++ ys)
sum_from-append c [] ys = refl
sum_from-append c (x ∷ xs) ys = sum_from-append (c + x) xs ys

five-IsReceiving : IsReceiving rx five slot_open
unfolding slot addrs range
five-IsReceiving = record {
  found = refl;
  left = omega arith;
  small = omega arith;
  room = omega arith;
}

abbrev windows : List (List ℕ)
windows = (1 ∷ 2 ∷ []) ∷ (3 ∷ []) ∷ (4 ∷ 5 ∷ []) ∷ []

receive-landed_example :
    receive sum_from (rx, data_phase five) windows
    ≡ arrived sum_from
        (landed rx five slot_open (joined windows))
        (folded sum_from five (joined windows))
unfolding joined
receive-landed_example =
    receive-landed sum_from rx five slot_open windows sum_from-append five-IsReceiving (omega arith)
      refl

fill_subsegs-addrs_example :
    (addrs (fill_subsegs segs 2 3) ≡ take 3 (drop 2 (addrs segs)))
    × (length (fill_subsegs segs 2 3) ≤ length segs)
fill_subsegs-addrs_example = fill_subsegs-addrs segs 2 3

-- The transfer in two PDUs, the second in two windows.
abbrev pdus : List H2cData
pdus =
    record { cid = 7; offset = 0; last = false; windows = (1 ∷ 2 ∷ []) ∷ [] }
    ∷ record { cid = 7; offset = 2; last = true; windows = (3 ∷ []) ∷ (4 ∷ 5 ∷ []) ∷ [] }
    ∷ []

abbrev no_heap : ℕ → ℕ
no_heap tag = 0

abbrev wrong : DdgstPhase
wrong = record { tag = 0; expected = 15; have = 1 ∷ 2 ∷ 3 ∷ 4 ∷ []; kind = h2c true 5 }

wrong_differs : de wrong.have ≢ wrong.expected
unfolding de
wrong_differs = λ e. omega arith

verified-FailedPost_example : Ret (FailedPost rx 0 slot_open) (verified rx wrong)
verified-FailedPost_example =
    verified-FailedPost rx wrong slot_open refl refl (omega arith) refl wrong_differs
