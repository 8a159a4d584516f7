-- ===== src/Queue/Flow.antt =====
-- crates/ioutgt-core/src/queue.rs: the heads that a series of completions reports.
use native.Mathlib.Nat.{mod-lt, mod-add-mod}
use ioutgt.Base.{
  ℕ, zero, suc, ◌+◌, ◌%◌, ◌^◌, ◌<◌, ◌≡◌, refl, ap, ◌∙◌, false, List, [], ◌∷◌, Exec, returns, ◌>>=◌,
  Ret, Ret->>=, arith, add_u16, ◌==◌,
}
use ioutgt.Queue.{QueueCore, advance_sqhd}

-- The heads of a circular queue, from behind `head` on.
unfoldable pub circular : ℕ → ℕ → ℕ → List ℕ
circular size head zero = []
circular size head (suc n) = (head + 1) % size ∷ circular size (head + 1) n

next_head : ℕ → ℕ → ℕ
next_head size head = add_u16 head 1 % size

next_head-mod :
    (size base head : ℕ)
    → head ≡ base % size
    → head < size
    → size < 2 ^ 16
    → next_head size head ≡ (base + 1) % size
unfolding next_head
next_head-mod size base head e l s =
    let no_wrap : (head + 1) % 65536 ≡ head + 1 = omega arith in
    ap (λ t. t % size) (no_wrap ∙ ap (λ (t : ℕ). t + 1) e) ∙ mod-add-mod base size 1

module _ {C : Type 0} where
  -- The head moves within the queue.
  pub record IsFlow (q : QueueCore C) : Type 0 where
    pub within : q.sqhd < q.sqsize
    pub small : q.sqsize < 2 ^ 16
    pub on : q.sqhd_disabled ≡ false

  -- The heads of `n` completions, and the queue behind them.
  pub completions : QueueCore C → ℕ → Exec (List ℕ × QueueCore C)
  completions q zero = returns ([], q)
  completions q (suc n) = advance_sqhd q >>= λ (head, q').
      completions q' n >>= λ (heads, q''). returns (head ∷ heads, q'')

  advance_sqhd-next :
      (q : QueueCore C)
      → IsFlow q
      → advance_sqhd q
        ≡ returns (next_head q.sqsize q.sqhd, record q { sqhd = next_head q.sqsize q.sqhd })
  unfolding advance_sqhd next_head
  advance_sqhd-next q v = rw (v.on, size_pos) refl
    where
      size_pos : (q.sqsize == 0) ≡ false
      size_pos = ground (arith, v.within)

  next_head-IsFlow :
      (q : QueueCore C) → IsFlow q → IsFlow (record q { sqhd = next_head q.sqsize q.sqhd })
  unfolding next_head
  next_head-IsFlow q v = record {
    within = mod-lt (add_u16 q.sqhd 1) (omega (arith, v.within));
    small = v.small;
    on = v.on;
  }

  -- The heads of `n` completions of a queue with flow control count up from its head, modulo its size.
  pub completions-circular :
      (q : QueueCore C) (base n : ℕ)
      → IsFlow q
      → q.sqhd ≡ base % q.sqsize
      → Ret (λ r. r.0 ≡ circular q.sqsize base n) (completions q n)
  unfolding completions circular
  completions-circular q base zero v e = refl
  completions-circular q base (suc n) v e =
      let head = next_head q.sqsize q.sqhd in
      let next : head ≡ (base + 1) % q.sqsize =
        next_head-mod q.sqsize base q.sqhd e v.within v.small in
      rw (advance_sqhd-next q v) (
        Ret->>= (λ r. r.0 ≡ circular q.sqsize (base + 1) n)
          (λ r. r.0 ≡ (base + 1) % q.sqsize ∷ circular q.sqsize (base + 1) n)
          (completions (record q { sqhd = head }) n) (λ (heads, q''). returns (head ∷ heads, q''))
          (λ (heads, q'') h. ap (λ x. x ∷ heads) next ∙ ap (λ t. (base + 1) % q.sqsize ∷ t) h)
          (completions-circular (record q { sqhd = head }) (base + 1) n (next_head-IsFlow q v)
            next))
