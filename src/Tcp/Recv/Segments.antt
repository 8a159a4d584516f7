-- ===== src/Tcp/Recv/Segments.antt =====
-- crates/ioutgt-nvme-tcp/src/recv.rs: `fill_subsegs`, where the tail of a payload is received in place.
use ioutgt.Base.{
  ℕ, zero, suc, ◌+◌, ◌-◌, ◌≤◌, ◌≡◌, refl, ap, ◌∙◌, List, [], ◌∷◌, min, arith, leb, if◌then◌else◌,
  Bool-cases, inl, inr, length, take, drop,
}
use ioutgt.Pool.{Seg, for_each_seg}
use ioutgt.Pool.Bytes.{addrs, for_each_seg-addrs}

-- The entries of `out` that are filled: the parts of the segments in the range, in order.
unfoldable pub fill_subsegs : List Seg → ℕ → ℕ → List Seg
fill_subsegs [] off len = []
fill_subsegs (s ∷ segs) off zero = []
fill_subsegs (s ∷ segs) off (suc left) =
    let n = min (s.len - off) (suc left) in
    let past = fill_subsegs segs (off - s.len) (suc left) in
    let more = fill_subsegs segs 0 (suc left - n) in
    if leb s.len off then past else record { ptr = s.ptr + off; len = n } ∷ more

fill_subsegs-for_each_seg :
    (segs : List Seg) (off len : ℕ) → fill_subsegs segs off len ≡ (for_each_seg segs off len).0
unfolding fill_subsegs for_each_seg
fill_subsegs-for_each_seg [] off len = refl
fill_subsegs-for_each_seg (s ∷ segs) off zero = refl
fill_subsegs-for_each_seg (s ∷ segs) off (suc n) = elim (Bool-cases (leb s.len off)) [
  | inl past ↦ rw past (fill_subsegs-for_each_seg segs (off - s.len) (suc n))
  | inr here ↦ rw here (
      ap (λ t. record { ptr = s.ptr + off; len = min (s.len - off) (suc n) } ∷ t)
        (fill_subsegs-for_each_seg segs 0 (suc n - min (s.len - off) (suc n))))
]

length-fill_subsegs :
    (segs : List Seg) (off len : ℕ) → length (fill_subsegs segs off len) ≤ length segs
unfolding fill_subsegs
length-fill_subsegs [] off len = omega arith
length-fill_subsegs (s ∷ segs) off zero = omega arith
length-fill_subsegs (s ∷ segs) off (suc n) = elim (Bool-cases (leb s.len off)) [
  | inl past ↦ rw past (let h = length-fill_subsegs segs (off - s.len) (suc n) in omega arith)
  | inr here ↦
      rw here
        (let h = length-fill_subsegs segs 0 (suc n - min (s.len - off) (suc n)) in omega arith)
]

-- The parts that `fill_subsegs` gives cover the addresses of the range, in order, each once, and there
-- are at most as many as segments.
pub fill_subsegs-addrs :
    (segs : List Seg) (off len : ℕ)
    → (addrs (fill_subsegs segs off len) ≡ take len (drop off (addrs segs)))
      × (length (fill_subsegs segs off len) ≤ length segs)
fill_subsegs-addrs segs off len = (
  ap addrs (fill_subsegs-for_each_seg segs off len) ∙ for_each_seg-addrs segs off len,
  length-fill_subsegs segs off len,
)
