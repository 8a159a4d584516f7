-- ===== src/Tcp/Send/Contents.antt =====
-- crates/ioutgt-nvme-tcp/src/send.rs: the bytes of what a batch sends, as the memory has them at the end.
use mathlib.Core.Path.{ap₂}
use mathlib.Core.List.{append-nil}
use ioutgt.Base.{
  ℕ, zero, suc, ◌+◌, ◌≤◌, ◌<◌, ◌≡◌, refl, sym, ap, ◌∙◌, List, [], ◌∷◌, ◌++◌, map, Ret, Ret->>=, inl,
  inr, ◌⊎◌, arith, ◌==◌, if◌then◌else◌, All, length, take,
}
use ioutgt.Pool.{Seg, Memory, copy_to}
use ioutgt.Pool.Bytes.{addrs, range}
use ioutgt.Pdu.Encode.{Encoded}
use ioutgt.Gather.{GatherBatch, arena_tail, push_arena, note_payload}
use ioutgt.Tcp.Send.{Stage, encoded, push_payload}
use ioutgt.Tcp.Send.Layout.{
  IsGrown, arena_at, grown-grown, payload-IsGrown, pushed-IsGrown, length-arena_tail,
}

-- An address that is not in the unused part of the arena.
abbrev pub Apart : GatherBatch → ℕ → Type 0
Apart b a = (a < b.arena_ptr + b.arena_used) ⊎ (b.arena_ptr + b.arena_len ≤ a)

-- The batch sends these bytes more, `n` of them from the arena, whose unused part alone was written.
pub record Wrote (b : GatherBatch) (mem : Memory) (n : ℕ) (bytes : List ℕ) (st : Stage)
    : Type 0 where
  pub new : List ℕ
  pub grown : IsGrown b n new st.0
  pub reads : map st.1 new ≡ bytes
  pub outside : (a : ℕ) → Apart b a → st.1 a ≡ mem a
  pub behind : All (Apart st.0) new

copy_below : (m : Memory) (a : ℕ) (bytes : List ℕ) (x : ℕ) → x < a → copy_to m a bytes x ≡ m x
unfolding copy_to
copy_below m a [] x h = refl
copy_below m a (b ∷ bytes) x h =
    copy_below (λ y. if y == a then b else m y) (a + 1) bytes x (omega arith) ∙ ground arith

copy_above :
    (m : Memory) (a : ℕ) (bytes : List ℕ) (x : ℕ) → a + length bytes ≤ x → copy_to m a bytes x ≡ m x
unfolding copy_to
copy_above m a [] x h = refl
copy_above m a (b ∷ bytes) x h =
    copy_above (λ y. if y == a then b else m y) (a + 1) bytes x (omega arith) ∙ ground arith

copy_read :
    (m : Memory) (a : ℕ) (bytes rest : List ℕ)
    → map (copy_to m a (bytes ++ rest)) (range a (length bytes)) ≡ bytes
unfolding copy_to range
copy_read m a [] rest = refl
copy_read m a (b ∷ bytes) rest =
    let m' : Memory = λ y. if y == a then b else m y in
    ap₂ ◌∷◌ (copy_below m' (a + 1) (bytes ++ rest) a (omega arith) ∙ ground arith)
      (copy_read m' (a + 1) bytes rest)

pub map_same :
    (f g : ℕ → ℕ) (P : ℕ → Type 0) (xs : List ℕ)
    → ((a : ℕ) → P a → f a ≡ g a)
    → All P xs
    → map f xs ≡ map g xs
map_same f g P [] e h = refl
map_same f g P (x ∷ xs) e h = ap₂ ◌∷◌ (e x h.0) (map_same f g P xs e h.1)

pub map-append : (f : ℕ → ℕ) (xs ys : List ℕ) → map f (xs ++ ys) ≡ map f xs ++ map f ys
map-append f [] ys = refl
map-append f (x ∷ xs) ys = ap (λ t. f x ∷ t) (map-append f xs ys)

All-append : (P : ℕ → Type 0) (xs ys : List ℕ) → All P xs → All P ys → All P (xs ++ ys)
All-append P [] ys h k = k
All-append P (x ∷ xs) ys h k = (h.0, All-append P xs ys h.1 k)

pub All-imp : (P Q : ℕ → Type 0) (xs : List ℕ) → ((a : ℕ) → P a → Q a) → All P xs → All Q xs
All-imp P Q [] f h = tt
All-imp P Q (x ∷ xs) f h = (f x h.0, All-imp P Q xs f h.1)

pub All-take : (P : ℕ → Type 0) (n : ℕ) (xs : List ℕ) → All P xs → All P (take n xs)
All-take P zero xs h = tt
All-take P (suc n) [] h = tt
All-take P (suc n) (x ∷ xs) h = (h.0, All-take P n xs h.1)

All-range : (P : ℕ → Type 0) (a n : ℕ) → ((x : ℕ) → x < a + n → P x) → All P (range a n)
unfolding range
All-range P a zero f = tt
All-range P a (suc n) f = (f a (omega arith), All-range P (a + 1) n (λ x h. f x (omega arith)))

-- What is apart stays so when the batch grows.
pub apart-grown :
    (b b' : GatherBatch) (n : ℕ) (xs : List ℕ) (a : ℕ) → IsGrown b n xs b' → Apart b a → Apart b' a
apart-grown b b' n xs a g (inl below) = inl (omega (arith, g.used, g.same_ptr))
apart-grown b b' n xs a g (inr above) = inr (omega (arith, g.same_ptr, g.same_len))

pub Wrote-Wrote :
    (b : GatherBatch) (mem : Memory) (n m : ℕ) (xs ys : List ℕ) (st st' : Stage)
    → Wrote b mem n xs st
    → Wrote st.0 st.1 m ys st'
    → Wrote b mem (n + m) (xs ++ ys) st'
Wrote-Wrote b mem n m xs ys st st' g h = record {
  new = g.new ++ h.new;
  grown = grown-grown b n m g.new h.new st.0 st'.0 g.grown h.grown;
  reads =
      map-append st'.1 g.new h.new
      ∙ ap₂ ◌++◌ (map_same st'.1 st.1 (Apart st.0) g.new h.outside g.behind ∙ g.reads) h.reads;
  outside = λ a e. h.outside a (apart-grown b st.0 n g.new a g.grown e) ∙ g.outside a e;
  behind =
      All-append (Apart st'.0) g.new h.new
        (All-imp (Apart st.0) (Apart st'.0) g.new
          (λ a e. apart-grown st.0 st'.0 m h.new a h.grown e) g.behind)
        h.behind;
}

-- The payload, in place.
pub payload-Wrote :
    (b : GatherBatch) (mem : Memory) (segs : List Seg) (n : ℕ)
    → All (Apart b) (addrs segs)
    → Wrote b mem 0 (map mem (take n (addrs segs))) (note_payload (push_payload b segs n) n, mem)
payload-Wrote b mem segs n h =
    let g = payload-IsGrown b segs n in
    record {
      new = take n (addrs segs);
      grown = g;
      reads = refl;
      outside = λ a e. refl;
      behind =
          All-imp (Apart b) (Apart (note_payload (push_payload b segs n) n)) (take n (addrs segs))
            (λ a e. apart-grown b _ 0 (take n (addrs segs)) a g e)
            (All-take (Apart b) n (addrs segs) h);
    }

-- An encoder leaves these bytes at the front of a buffer.
abbrev pub Encoding : List ℕ → List ℕ → List ℕ × ℕ → Type 0
Encoding bytes buf (buf', n) =
    (rest : List ℕ) × (buf' ≡ bytes ++ rest) × (n ≡ length bytes) × (length buf' ≤ length buf)

pub encoded-Wrote :
    (b : GatherBatch) (mem : Memory) (encode : List ℕ → Encoded) (bytes : List ℕ)
    → b.arena_used ≤ b.arena_len
    → Ret (Encoding bytes (arena_tail b mem)) (encode (arena_tail b mem))
    → Ret (Wrote b mem (length bytes) bytes) (encoded (b, mem) encode)
unfolding encoded
encoded-Wrote b mem encode bytes room h =
    Ret->>= (Encoding bytes (arena_tail b mem)) (Wrote b mem (length bytes) bytes)
      (encode (arena_tail b mem)) _
      (λ (buf, n) (rest, e, len, size).
        let at = b.arena_ptr + b.arena_used in
        let here : at ≡ at + 0 = omega arith in
        let mem' = copy_to mem at buf in
        let read_at : map mem' (range at (length bytes)) ≡ bytes =
          ap (λ t. map (copy_to mem at t) (range at (length bytes))) e
          ∙ copy_read mem at bytes rest in
        let small = length-arena_tail b mem in
        let g = pushed-IsGrown b (length bytes) in
        rw len (record {
          new = arena_at b 0 (length bytes);
          grown = g;
          reads = ap (λ x. map mem' (range x (length bytes))) (sym here) ∙ read_at;
          outside = λ a apart. elim apart [
            | inl below ↦ copy_below mem at buf a below
            | inr above ↦ copy_above mem at buf a (omega (arith, size, small))
          ];
          behind =
              All-range (Apart (push_arena b (length bytes))) (at + 0) (length bytes)
                (λ x l. inl (omega (arith, g.used, g.same_ptr)));
        }))
      h

pub nothing-Wrote : (b : GatherBatch) (mem : Memory) → Wrote b mem 0 [] (b, mem)
nothing-Wrote b mem = record {
  new = [];
  grown = record {
    sends = sym (append-nil (addrs b.iovs));
    used = omega arith;
    same_ptr = refl;
    same_len = refl;
  };
  reads = refl;
  outside = λ a e. refl;
  behind = tt;
}
