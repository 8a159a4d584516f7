-- ===== src/Tcp/Send/InPlace.antt =====
-- crates/ioutgt-nvme-tcp/src/send.rs: the payload of a response is sent from the slot's buffer.
use mathlib.Core.List.{append_assoc, append-nil}
use ioutgt.Base.{
  ℕ, ◌-◌, min, ◌≡◌, sym, List, [], ◌∷◌, ◌++◌, inl, inr, arith, ◌==◌, Bool-cases, length, take,
  take-append, take-nil,
}
use ioutgt.Pool.{Seg}
use ioutgt.Pool.Bytes.{addrs, range, length-range, take-range}
use ioutgt.Gather.{GatherBatch, push_raw}
use ioutgt.Gather.Resume.{push_raw-addrs}
use ioutgt.Tcp.Send.{push_payload}

-- The payload adds the first bytes of the segments to what the batch sends, as many as it is long.
pub push_payload-addrs :
    (b : GatherBatch) (segs : List Seg) (n : ℕ)
    → addrs (push_payload b segs n).iovs ≡ addrs b.iovs ++ take n (addrs segs)
unfolding push_payload addrs
push_payload-addrs b [] n = rw (take-nil n) (sym (append-nil (addrs b.iovs)))
push_payload-addrs b (s ∷ segs) n = elim (Bool-cases (n == 0)) [
  | inl ended ↦ let e : n ≡ 0 = ground arith in rw (ended, e) (sym (append-nil (addrs b.iovs)))
  | inr more ↦
      let part = min n s.len in
      let e : part ≡ min n (length (range s.ptr s.len)) = omega (arith, length-range s.ptr s.len) in
      let f : n - part ≡ n - length (range s.ptr s.len) = omega (arith, length-range s.ptr s.len) in
      rw
        (
          more,
          push_payload-addrs (push_raw b s.ptr part) segs (n - part),
          push_raw-addrs b s.ptr part,
          take-append n (range s.ptr s.len) (addrs segs),
          take-range n s.ptr s.len,
          ← f,
        )
        (append_assoc (addrs b.iovs) (range s.ptr part) (take (n - part) (addrs segs)))
]
