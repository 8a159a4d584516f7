-- ===== src/Tcp/Recv/Landing.antt =====
-- crates/ioutgt-core/src/pool.rs and crates/ioutgt-nvme-tcp/src/recv.rs: bytes that are written piece by piece.
use ioutgt.Base.{
  ℕ, zero, suc, ◌+◌, ◌-◌, ◌≤◌, ◌<◌, ◌≡◌, refl, ap, min, List, [], ◌∷◌, ◌++◌, arith, leb, ◌==◌,
  drop-nil, leb→le, if◌then◌else◌, Bool-cases, inl, inr, length, take, drop, length-append,
  length-drop,
}
use ioutgt.Pool.{Seg, Memory, write_at, copy_to}
use ioutgt.Pool.Bytes.{addrs, range, length-range, store}

length-addrs : (s : Seg) (segs : List Seg) → length (addrs (s ∷ segs)) ≡ s.len + length (addrs segs)
unfolding addrs
length-addrs s segs =
    omega (arith, length-append (range s.ptr s.len) (addrs segs), length-range s.ptr s.len)

-- What fits behind an offset finds room.
pub write_at-left :
    (segs : List Seg) (m : Memory) (off : ℕ) (src : List ℕ)
    → off + length src ≤ length (addrs segs)
    → (write_at segs m off src).1 ≡ []
unfolding write_at
write_at-left [] m off [] h = refl
write_at-left [] m off (b ∷ src) h = absurd (unfold addrs in omega (arith, h))
write_at-left (s ∷ segs) m off [] h = refl
write_at-left (s ∷ segs) m off (b ∷ src) h =
    let total = length-addrs s segs in
    let room = min (s.len - off) (length (b ∷ src)) in
    let behind = length-drop room (b ∷ src) in
    elim (Bool-cases (leb s.len off)) [
      | inl past ↦
          rw past (
            let low = leb→le _ _ past in write_at-left segs m (off - s.len) (b ∷ src) (omega arith))
      | inr here ↦ rw here (
          write_at-left segs (copy_to m (s.ptr + off) (take room (b ∷ src))) 0 (drop room (b ∷ src))
            (let low : off < s.len = ground arith in omega arith))
    ]

pub store-append :
    (m : Memory) (at xs ys : List ℕ)
    → store m at (xs ++ ys) ≡ store (store m at xs) (drop (length xs) at) ys
unfolding store
store-append m [] xs ys = rw (drop-nil (length xs)) refl
store-append m (a ∷ at) [] ys = refl
store-append m (a ∷ at) (x ∷ xs) ys = store-append (λ y. if y == a then x else m y) at xs ys

pub take_all : (xs : List ℕ) (n : ℕ) → length xs ≤ n → take n xs ≡ xs
take_all [] zero h = refl
take_all [] (suc n) h = refl
take_all (x ∷ xs) zero h = absurd (omega arith)
take_all (x ∷ xs) (suc n) h = ap (λ t. x ∷ t) (take_all xs n (omega arith))
