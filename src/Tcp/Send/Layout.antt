-- ===== src/Tcp/Send/Layout.antt =====
-- crates/ioutgt-nvme-tcp/src/send.rs: what a batch sends for a response.
use mathlib.Core.List.{append_assoc}
use ioutgt.Base.{
  ℕ, suc, ◌+◌, ◌-◌, min, ◌≡◌, refl, ap, ◌∙◌, List, [], ◌∷◌, ◌++◌, map, inl, inr, arith, ◌==◌,
  Bool-cases, length, length-append, take,
}
use ioutgt.Pool.{Seg, Memory}
use ioutgt.Pool.Bytes.{addrs, range, length-range}
use ioutgt.Gather.{GatherBatch, arena_tail, push_arena, push_raw, note_payload}
use ioutgt.Gather.Resume.{push_raw-addrs}
use ioutgt.Tcp.Send.{push_payload}
use ioutgt.Tcp.Send.InPlace.{push_payload-addrs}

-- The batch has taken bytes at new addresses, of which some are in the arena.
pub record IsGrown (b : GatherBatch) (n : ℕ) (new : List ℕ) (b' : GatherBatch) : Type 0 where
  pub sends : addrs b'.iovs ≡ addrs b.iovs ++ new
  pub used : b'.arena_used ≡ b.arena_used + n
  pub same_ptr : b'.arena_ptr ≡ b.arena_ptr
  pub same_len : b'.arena_len ≡ b.arena_len

-- The next bytes of the arena.
abbrev pub arena_at : GatherBatch → ℕ → ℕ → List ℕ
arena_at b off n = range (b.arena_ptr + b.arena_used + off) n

pub grown-grown :
    (b : GatherBatch) (n m : ℕ) (xs ys : List ℕ) (b' b'' : GatherBatch)
    → IsGrown b n xs b'
    → IsGrown b' m ys b''
    → IsGrown b (n + m) (xs ++ ys) b''
grown-grown b n m xs ys b' b'' g h = record {
  sends = rw (h.sends, g.sends) (append_assoc (addrs b.iovs) xs ys);
  used = omega (arith, g.used, h.used);
  same_ptr = h.same_ptr ∙ g.same_ptr;
  same_len = h.same_len ∙ g.same_len;
}

-- Staging a chunk changes the list alone.
push_raw-keeps :
    (b : GatherBatch) (ptr len : ℕ)
    → ((push_raw b ptr len).arena_used ≡ b.arena_used)
      × ((push_raw b ptr len).arena_ptr ≡ b.arena_ptr)
      × ((push_raw b ptr len).arena_len ≡ b.arena_len)
unfolding push_raw
push_raw-keeps b ptr len = elim (Bool-cases (len == 0)) [
  | inl e ↦ rw e (refl, refl, refl)
  | inr e ↦ rw e (refl, refl, refl)
]

push_payload-keeps :
    (b : GatherBatch) (segs : List Seg) (n : ℕ)
    → ((push_payload b segs n).arena_used ≡ b.arena_used)
      × ((push_payload b segs n).arena_ptr ≡ b.arena_ptr)
      × ((push_payload b segs n).arena_len ≡ b.arena_len)
unfolding push_payload
push_payload-keeps b [] n = (refl, refl, refl)
push_payload-keeps b (s ∷ segs) n = elim (Bool-cases (n == 0)) [
  | inl e ↦ rw e (refl, refl, refl)
  | inr e ↦
      let part = min n s.len in
      let (u, p, l) = push_payload-keeps (push_raw b s.ptr part) segs (n - part) in
      let (u', p', l') = push_raw-keeps b s.ptr part in rw e (u ∙ u', p ∙ p', l ∙ l')
]

pub payload-IsGrown :
    (b : GatherBatch) (segs : List Seg) (n : ℕ)
    → IsGrown b 0 (take n (addrs segs)) (note_payload (push_payload b segs n) n)
unfolding note_payload
payload-IsGrown b segs n =
    let (u, p, l) = push_payload-keeps b segs n in
    record {
      sends = push_payload-addrs b segs n;
      used = omega (arith, u);
      same_ptr = p;
      same_len = l;
    }

pub pushed-IsGrown : (b : GatherBatch) (n : ℕ) → IsGrown b n (arena_at b 0 n) (push_arena b n)
unfolding push_arena
pushed-IsGrown b n =
    let b' : GatherBatch = record b { arena_used = b.arena_used + n } in
    let (u, p, l) = push_raw-keeps b' (b.arena_ptr + b.arena_used) n in
    let here : b.arena_ptr + b.arena_used ≡ b.arena_ptr + b.arena_used + 0 = omega arith in
    record {
      sends =
          push_raw-addrs b' (b.arena_ptr + b.arena_used) n
          ∙ ap (λ x. addrs b.iovs ++ range x n) here;
      used = u;
      same_ptr = p;
      same_len = l;
    }

length-map : (f : ℕ → ℕ) (xs : List ℕ) → length (map f xs) ≡ length xs
length-map f [] = refl
length-map f (x ∷ xs) = ap suc (length-map f xs)

pub length-arena_tail :
    (b : GatherBatch) (mem : Memory) → length (arena_tail b mem) ≡ b.arena_len - b.arena_used
unfolding arena_tail addrs
length-arena_tail b mem =
    length-map mem (range (b.arena_ptr + b.arena_used) (b.arena_len - b.arena_used) ++ [])
    ∙ length-append (range (b.arena_ptr + b.arena_used) (b.arena_len - b.arena_used)) []
    ∙ omega (arith, length-range (b.arena_ptr + b.arena_used) (b.arena_len - b.arena_used))
