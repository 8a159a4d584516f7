-- ===== src/Pool/Bytes.antt =====
-- crates/ioutgt-core/src/pool.rs: `write_at` and `for_each_seg` walk the same bytes, in order.
use mathlib.Core.Path.{ap₂}
use ioutgt.Base.{
  ℕ, zero, suc, ◌+◌, ◌-◌, ◌≤◌, ◌<◌, min, ◌≡◌, ◌≢◌, refl, sym, ap, ◌∙◌, List, [], ◌∷◌, ◌++◌, map,
  inl, inr, arith, leb, leb→le, ◌==◌, Bool-cases, length, length-append, length-take, length-drop,
  take-nil, drop-nil, take-append, take-min, drop-min, drop-append_lt, drop-append_ge, take, drop,
  All, if◌then◌else◌,
}
use ioutgt.Pool.{Seg, Memory, copy_to, write_at, for_each_seg}

-- The addresses from `a` on, and those of a segment list in order.
unfoldable pub range : ℕ → ℕ → List ℕ
range a zero = []
range a (suc n) = a ∷ range (a + 1) n

unfoldable pub addrs : List Seg → List ℕ
addrs [] = []
addrs (s ∷ segs) = range s.ptr s.len ++ addrs segs

-- The memory with the bytes at the addresses.
unfoldable pub store : Memory → List ℕ → List ℕ → Memory
store m [] bytes = m
store m (a ∷ rest) [] = m
store m (a ∷ rest) (b ∷ bytes) = store (λ x. if x == a then b else m x) rest bytes

pub length-range : (a n : ℕ) → length (range a n) ≡ n
unfolding range
length-range a zero = refl
length-range a (suc n) = ap suc (length-range (a + 1) n)

range_at : (a b n : ℕ) → a ≡ b → range a n ≡ range b n
range_at a b n e = ap (λ x. range x n) e

range_eq : (a b n k : ℕ) → a ≡ b → n ≡ k → range a n ≡ range b k
range_eq a b n k e f = ap₂ range e f

pub drop-range : (off a n : ℕ) → drop off (range a n) ≡ range (a + off) (n - off)
unfolding range
drop-range zero a n = range_eq a (a + 0) n (n - 0) (omega arith) (omega arith)
drop-range (suc off) a zero = empty (a + suc off) (0 - suc off) (omega arith)
  where
    empty : (b k : ℕ) → k ≡ 0 → [] ≡ range b k
    empty b zero e = refl
    empty b (suc k) e = absurd (omega arith)
drop-range (suc off) a (suc n) =
    drop-range off (a + 1) n
    ∙ range_eq (a + 1 + off) (a + suc off) (n - off) (suc n - suc off) (omega arith) (omega arith)

pub store-nil : (m : Memory) (addresses : List ℕ) → store m addresses [] ≡ m
unfolding store
store-nil m [] = refl
store-nil m (a ∷ rest) = refl

copy_to-store :
    (m : Memory) (a n : ℕ) (bytes : List ℕ)
    → length bytes ≤ n
    → copy_to m a bytes ≡ store m (range a n) bytes
unfolding copy_to store range
copy_to-store m a n [] h = sym (store-nil m (range a n))
copy_to-store m a zero (b ∷ bytes) h = absurd (omega arith)
copy_to-store m a (suc n) (b ∷ bytes) h =
    copy_to-store (λ x. if x == a then b else m x) (a + 1) n bytes (omega arith)

store-append :
    (m : Memory) (xs ys bytes : List ℕ)
    → store m (xs ++ ys) bytes
      ≡ store (store m xs (take (length xs) bytes)) ys (drop (length xs) bytes)
unfolding store
store-append m [] ys bytes = refl
store-append m (x ∷ xs) ys [] = sym (store-nil m ys)
store-append m (x ∷ xs) ys (b ∷ bytes) = store-append (λ a. if a == x then b else m a) xs ys bytes

-- One segment that the write reaches: its part of the bytes goes there, the others further on.
store_seg :
    (m : Memory) (s : Seg) (segs : List Seg) (off room : ℕ) (bytes : List ℕ)
    → off < s.len
    → room ≡ min (s.len - off) (length bytes)
    → store (copy_to m (s.ptr + off) (take room bytes)) (addrs segs) (drop room bytes)
      ≡ store m (drop off (addrs (s ∷ segs))) bytes
unfolding addrs
store_seg m s segs off room bytes l e =
    let n : ℕ = s.len - off in
    let spread = length-range (s.ptr + off) n in
    let short : length (take room bytes) ≤ n = rw length-take (omega arith) in
    rw (
      drop-append_lt off (range s.ptr s.len) (addrs segs) (omega (arith, length-range s.ptr s.len)),
      drop-range off s.ptr s.len,
      store-append m (range (s.ptr + off) n) (addrs segs) bytes,
      spread,
      copy_to-store m (s.ptr + off) n (take room bytes) short,
      take-min room n bytes e,
      drop-min room n bytes e,
    )

-- An offset past the first segment counts from the next.
addrs_past :
    (s : Seg) (segs : List Seg) (off : ℕ)
    → s.len ≤ off
    → drop off (addrs (s ∷ segs)) ≡ drop (off - s.len) (addrs segs)
unfolding addrs
addrs_past s segs off h =
    drop-append_ge off (off - s.len) (range s.ptr s.len) (addrs segs)
      (omega (arith, length-range s.ptr s.len))

-- `write_at` stores the bytes of `src` at the addresses of the segments from `off` on, in order.
pub write_at-store :
    (segs : List Seg) (m : Memory) (off : ℕ) (src : List ℕ)
    → (write_at segs m off src).0 ≡ store m (drop off (addrs segs)) src
unfolding write_at
write_at-store [] m off src = unfold addrs in rw (drop-nil off) (unfold store in refl)
write_at-store (s ∷ segs) m off [] = sym (store-nil m (drop off (addrs (s ∷ segs))))
write_at-store (s ∷ segs) m off (b ∷ src) = elim (Bool-cases (leb s.len off)) [
  | inl past ↦
      rw (past, addrs_past s segs off (leb→le _ _ past))
        (write_at-store segs m (off - s.len) (b ∷ src))
  | inr here ↦
      let room = min (s.len - off) (length (b ∷ src)) in
      rw here (
        write_at-store segs (copy_to m (s.ptr + off) (take room (b ∷ src))) 0 (drop room (b ∷ src))
        ∙ store_seg m s segs off room (b ∷ src) (ground arith) refl)
]

pub take-range : (k a n : ℕ) → take k (range a n) ≡ range a (min k n)
unfolding range
take-range zero a n = range_eq a a 0 (min 0 n) refl (omega arith)
take-range (suc k) a zero = range_eq a a 0 (min (suc k) 0) refl (omega arith)
take-range (suc k) a (suc n) =
    ap (λ t. a ∷ t) (take-range k (a + 1) n)
    ∙ range_eq a a (suc (min k n)) (min (suc k) (suc n)) refl (omega arith)

-- One segment that the range reaches.
take_seg :
    (s : Seg) (segs : List Seg) (off n : ℕ)
    → off < s.len
    → range (s.ptr + off) (min (s.len - off) n) ++ take (n - min (s.len - off) n) (addrs segs)
      ≡ take n (drop off (addrs (s ∷ segs)))
unfolding addrs
take_seg s segs off n l =
    rw
      (
        drop-append_lt off (range s.ptr s.len) (addrs segs)
            (omega (arith, length-range s.ptr s.len)),
        drop-range off s.ptr s.len,
        take-append n (range (s.ptr + off) (s.len - off)) (addrs segs),
        take-range n (s.ptr + off) (s.len - off),
        length-range (s.ptr + off) (s.len - off),
      )
      (ap₂ (λ a b. range (s.ptr + off) a ++ take b (addrs segs)) (omega arith) (omega arith))

addrs-cons : (s : Seg) (segs : List Seg) → addrs (s ∷ segs) ≡ range s.ptr s.len ++ addrs segs
unfolding addrs
addrs-cons s segs = refl

-- `for_each_seg` visits the addresses of the range, in order, each once.
pub for_each_seg-addrs :
    (segs : List Seg) (off len : ℕ)
    → addrs (for_each_seg segs off len).0 ≡ take len (drop off (addrs segs))
unfolding for_each_seg
for_each_seg-addrs [] off len = unfold addrs in sym (ap (take len) (drop-nil off) ∙ take-nil len)
for_each_seg-addrs (s ∷ segs) off zero = unfold addrs in refl
for_each_seg-addrs (s ∷ segs) off (suc n) = elim (Bool-cases (leb s.len off)) [
  | inl past ↦
      rw (past, addrs_past s segs off (leb→le _ _ past))
        (for_each_seg-addrs segs (off - s.len) (suc n))
  | inr here ↦
      rw (here, ← take_seg s segs off (suc n) (ground arith), addrs-cons)
        (ap (◌++◌ (range (s.ptr + off) (min (s.len - off) (suc n))))
          (for_each_seg-addrs segs 0 (suc n - min (s.len - off) (suc n))))
]

-- No address twice.
abbrev pub IsDistinct : List ℕ → Type 0
IsDistinct [] = Unit {0}
IsDistinct (a ∷ rest) = All (λ b. b ≢ a) rest × IsDistinct rest

IsDistinct-drop : (n : ℕ) (xs : List ℕ) → IsDistinct xs → IsDistinct (drop n xs)
IsDistinct-drop zero xs d = d
IsDistinct-drop (suc n) [] d = tt
IsDistinct-drop (suc n) (x ∷ xs) d = IsDistinct-drop n xs d.1

-- A store leaves every other address alone.
store_elsewhere :
    (m : Memory) (xs bytes : List ℕ) (a : ℕ) → All (λ b. b ≢ a) xs → store m xs bytes a ≡ m a
unfolding store
store_elsewhere m [] bytes a f = refl
store_elsewhere m (x ∷ xs) [] a f = refl
store_elsewhere m (x ∷ xs) (b ∷ bytes) a f =
    store_elsewhere (λ y. if y == x then b else m y) xs bytes a f.1
    ∙ (let h : x ≢ a = f.0 in ground arith)

store_read :
    (m : Memory) (xs bytes : List ℕ)
    → IsDistinct xs
    → length bytes ≤ length xs
    → map (store m xs bytes) (take (length bytes) xs) ≡ bytes
unfolding store
store_read m xs [] d h = refl
store_read m [] (b ∷ bytes) d h = absurd (omega arith)
store_read m (x ∷ xs) (b ∷ bytes) d h =
    let m' : Memory = λ y. if y == x then b else m y in
    ap₂ ◌∷◌ (store_elsewhere m' xs bytes x d.0 ∙ ground arith)
      (store_read m' xs bytes d.1 (omega arith))

-- Over segments that do not overlap, the bytes written at an offset are the bytes that the visit of
-- that range reads.
pub read-write_at :
    (segs : List Seg) (m : Memory) (off : ℕ) (src : List ℕ)
    → IsDistinct (addrs segs)
    → off + length src ≤ length (addrs segs)
    → map (write_at segs m off src).0 (addrs (for_each_seg segs off (length src)).0) ≡ src
read-write_at segs m off src d h =
    rw (write_at-store segs m off src, for_each_seg-addrs segs off (length src))
      (store_read m (drop off (addrs segs)) src (IsDistinct-drop off (addrs segs) d)
        (rw length-drop (omega arith)))

-- A range that the buffer has is visited to its end.
pub for_each_seg-all :
    (segs : List Seg) (n : ℕ) → n ≤ length (addrs segs) → (for_each_seg segs 0 n).1 ≡ 0
unfolding for_each_seg addrs
for_each_seg-all [] n h = omega arith
for_each_seg-all (s ∷ segs) zero h = refl
for_each_seg-all (s ∷ segs) (suc n) h =
    let whole = length-append (range s.ptr s.len) (addrs segs) in
    let size = length-range s.ptr s.len in
    elim (Bool-cases (leb s.len 0)) [
      | inl past ↦ rw past (
          ap (λ x. (for_each_seg segs x (suc n)).1) (omega arith)
          ∙ for_each_seg-all segs (suc n) (ground (arith, whole, size)))
      | inr here ↦
          rw here
            (for_each_seg-all segs (suc n - min (s.len - 0) (suc n)) (omega (arith, whole, size)))
    ]
