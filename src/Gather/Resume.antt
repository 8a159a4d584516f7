-- ===== src/Gather/Resume.antt =====
-- crates/ioutgt-uring/src/sendbatch.rs: what a batch has left to send after short sends.
use mathlib.Core.List.{append_assoc, append-nil}
use ioutgt.Base.{
  ℕ, zero, suc, ◌+◌, ◌-◌, ◌≤◌, ◌<◌, ◌≡◌, refl, sym, ap, ◌∙◌, false, List, [], ◌∷◌, ◌++◌, inl, inr,
  arith, ltb, leb, ◌==◌, Bool-cases, length, take, drop, drop-append_lt, drop-append_ge, drop-nil,
  length-append, length-take, drop-drop,
}
use ioutgt.Pool.{Seg}
use ioutgt.Pool.Bytes.{addrs, range, length-range, drop-range}
use ioutgt.Gather.{GatherBatch, reset, joined, push_raw, advance_from, advance_iovecs, advance}

-- The addresses of the bytes that are still to be sent.
unfoldable pub pending : GatherBatch → List ℕ
pending b = addrs (drop b.live b.iovs)

-- A round: chunks are staged, and then the socket takes some bytes again and again.
unfoldable pub staged : GatherBatch → List Seg → GatherBatch
staged b [] = b
staged b (s ∷ chunks) = staged (push_raw b s.ptr s.len) chunks

unfoldable pub resumed : GatherBatch → List ℕ → GatherBatch
resumed b [] = b
resumed b (n ∷ sends) = resumed (advance b n).0 sends

unfoldable pub total : List ℕ → ℕ
total [] = 0
total (n ∷ sends) = n + total sends

range_at : (a b n k : ℕ) → a ≡ b → n ≡ k → range a n ≡ range b k
range_at a b n k e f = ap (λ x. range x n) e ∙ ap (range b) f

pub range-append : (a n m b : ℕ) → a + n ≡ b → range a n ++ range b m ≡ range a (n + m)
unfolding range
range-append a zero m b e = range_at b a m (0 + m) (omega arith) (omega arith)
range-append a (suc n) m b e =
    ap (λ t. a ∷ t) (range-append (a + 1) n m b (omega arith))
    ∙ range_at a a (suc (n + m)) (suc n + m) refl (omega arith)

joined-addrs :
    (segs : List Seg) (ptr len : ℕ) → addrs (joined segs ptr len) ≡ addrs segs ++ range ptr len
unfolding joined addrs
joined-addrs [] ptr len = append-nil (range ptr len)
joined-addrs (s ∷ []) ptr len = elim (Bool-cases (s.ptr + s.len == ptr)) [
  | inl next ↦
      rw (next, append-nil (range s.ptr s.len), append-nil (range s.ptr (s.len + len)))
        (sym (range-append s.ptr s.len len ptr (ground arith)))
  | inr apart ↦ rw (apart, append-nil (range s.ptr s.len), append-nil (range ptr len)) refl
]
joined-addrs (s ∷ t ∷ segs) ptr len =
    rw (joined-addrs (t ∷ segs) ptr len)
      (sym (append_assoc (range s.ptr s.len) (addrs (t ∷ segs)) (range ptr len)))

-- Staging a chunk adds its addresses at the end.
pub push_raw-addrs :
    (b : GatherBatch) (ptr len : ℕ)
    → addrs (push_raw b ptr len).iovs ≡ addrs b.iovs ++ range ptr len
unfolding push_raw
push_raw-addrs b ptr len = elim (Bool-cases (len == 0)) [
  | inl none_there ↦
      let e : len ≡ 0 = ground arith in
      rw none_there (rw e (sym (unfold range in append-nil (addrs b.iovs))))
  | inr some_there ↦ rw some_there (joined-addrs b.iovs ptr len)
]

push_raw-live : (b : GatherBatch) (ptr len : ℕ) → (push_raw b ptr len).live ≡ b.live
unfolding push_raw
push_raw-live b ptr len = elim (Bool-cases (len == 0)) [ inl e ↦ rw e refl | inr e ↦ rw e refl ]

leb-false : (n m : ℕ) → m < n → leb n m ≡ false
leb-false n m h = ground arith

leb_same : (n m k l : ℕ) → n ≡ l + k → l ≤ m → leb k (m - l) ≡ leb n m
leb_same n m k l e h = ground arith

advance_from-addrs :
    (segs : List Seg) (sent : ℕ)
    → addrs (drop (advance_from segs sent).1 (advance_from segs sent).0) ≡ drop sent (addrs segs)
unfolding advance_from addrs
advance_from-addrs [] sent = sym (drop-nil sent)
advance_from-addrs (s ∷ segs) sent = elim (Bool-cases (ltb sent s.len)) [
  | inl within ↦
      rw
        (
          within,
          drop-append_lt sent (range s.ptr s.len) (addrs segs)
              (ground (arith, length-range s.ptr s.len)),
          drop-range sent s.ptr s.len,
        )
        refl
  | inr past ↦
      rw
        (
          past,
          drop-append_ge sent (sent - s.len) (range s.ptr s.len) (addrs segs)
              (ground (arith, length-range s.ptr s.len)),
        )
        (advance_from-addrs segs (sent - s.len))
]

advance_from-done :
    (segs : List Seg) (sent : ℕ) → (advance_from segs sent).2 ≡ leb (length (addrs segs)) sent
unfolding advance_from addrs
advance_from-done [] sent = ground arith
advance_from-done (s ∷ segs) sent =
    let whole = length-append (range s.ptr s.len) (addrs segs) in
    let size = length-range s.ptr s.len in
    elim (Bool-cases (ltb sent s.len)) [
      | inl within ↦
          rw within (sym (leb-false (length (addrs (s ∷ segs))) sent (ground (arith, whole, size))))
      | inr past ↦ rw past (
          advance_from-done segs (sent - s.len)
          ∙ leb_same (length (range s.ptr s.len ++ addrs segs)) sent (length (addrs segs)) s.len
              (omega (arith, whole, size)) (ground arith))
    ]

advance_from-bound :
    (segs : List Seg) (sent : ℕ) → (advance_from segs sent).1 ≤ length (advance_from segs sent).0
unfolding advance_from
advance_from-bound [] sent = omega arith
advance_from-bound (s ∷ segs) sent = elim (Bool-cases (ltb sent s.len)) [
  | inl within ↦ rw within (omega arith)
  | inr past ↦ rw past (omega (arith, advance_from-bound segs (sent - s.len)))
]

-- The resume point is in the list.
abbrev IsResumable : GatherBatch → Type 0
IsResumable b = b.live ≤ length b.iovs

advance-IsResumable : (b : GatherBatch) (n : ℕ) → IsResumable b → IsResumable (advance b n).0
unfolding advance advance_iovecs
advance-IsResumable b n v =
    let rest = (advance_from (drop b.live b.iovs) n).0 in
    omega (
      arith,
      length-append (take b.live b.iovs) rest,
      length-take b.live b.iovs,
      advance_from-bound (drop b.live b.iovs) n,
    )

advance-pending :
    (b : GatherBatch) (n : ℕ) → IsResumable b → pending (advance b n).0 ≡ drop n (pending b)
unfolding advance advance_iovecs pending
advance-pending b n v =
    let r = advance_from (drop b.live b.iovs) n in
    rw
      (drop-append_ge (b.live + r.1) r.1 (take b.live b.iovs) r.0
        (omega (arith, length-take b.live b.iovs)))
      (advance_from-addrs (drop b.live b.iovs) n)

resumed-pending :
    (b : GatherBatch) (sends : List ℕ)
    → IsResumable b
    → pending (resumed b sends) ≡ drop (total sends) (pending b)
unfolding resumed total
resumed-pending b [] v = refl
resumed-pending b (n ∷ sends) v =
    resumed-pending (advance b n).0 sends (advance-IsResumable b n v)
    ∙ ap (drop (total sends)) (advance-pending b n v)
    ∙ drop-drop n (total sends) (pending b)

staged-live : (b : GatherBatch) (chunks : List Seg) → (staged b chunks).live ≡ b.live
unfolding staged
staged-live b [] = refl
staged-live b (s ∷ chunks) =
    staged-live (push_raw b s.ptr s.len) chunks ∙ push_raw-live b s.ptr s.len

staged-addrs :
    (b : GatherBatch) (chunks : List Seg)
    → addrs (staged b chunks).iovs ≡ addrs b.iovs ++ addrs chunks
unfolding staged addrs
staged-addrs b [] = sym (append-nil (addrs b.iovs))
staged-addrs b (s ∷ chunks) =
    rw (staged-addrs (push_raw b s.ptr s.len) chunks, push_raw-addrs b s.ptr s.len)
      (append_assoc (addrs b.iovs) (range s.ptr s.len) (addrs chunks))

reset-pending :
    (b : GatherBatch) (chunks : List Seg) → pending (staged (reset b) chunks) ≡ addrs chunks
unfolding pending reset
reset-pending b chunks =
    rw (staged-live (reset b) chunks, staged-addrs (reset b) chunks) (unfold addrs in refl)

-- A batch that was reset, took chunks and was sent in parts has to send the bytes of the chunks, in order,
-- less as many as the sends took; the next send ends the batch exactly if it takes it to the last byte.
pub resumed-staged :
    (b : GatherBatch) (chunks : List Seg) (sends : List ℕ) (n : ℕ)
    → let sent = resumed (staged (reset b) chunks) sends in
      (pending sent ≡ drop (total sends) (addrs chunks))
      × ((advance sent n).1 ≡ leb (length (drop (total sends) (addrs chunks))) n)
unfolding advance advance_iovecs pending reset
resumed-staged b chunks sends n =
    let fresh : IsResumable (staged (reset b) chunks) =
      omega (arith, staged-live (reset b) chunks) in
    let left =
      resumed-pending (staged (reset b) chunks) sends fresh
      ∙ ap (drop (total sends)) (reset-pending b chunks) in
    let sent = resumed (staged (reset b) chunks) sends in
    (left, advance_from-done (drop sent.live sent.iovs) n ∙ ap (λ l. leb (length l) n) left)
