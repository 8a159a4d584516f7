-- ===== src/Nvme/Property/Registers.antt =====
-- crates/ioutgt-nvme/src/controller.rs: what a series of writes of CC makes of CSTS.
use Prim.Native.Nat.{bit_and, bit_or}
use ioutgt.Base.{ℕ, ◌-◌, ◌^◌, ◌≡◌, refl, ap, ◌∙◌, Bool, true, false, ◌||◌, List, [], ◌∷◌}
use ioutgt.Controller.{
  RegisterState, write_cc, ready, has_bits, new, en, shn_mask, rdy, shst_complete,
}

-- The registers behind a series of writes.
pub written : RegisterState → List ℕ → RegisterState
written r [] = r
written r (v ∷ values) = written (write_cc r v).1 values

-- Some write of the series asked for a shutdown.
pub asked_shutdown : List ℕ → Bool
asked_shutdown [] = false
asked_shutdown (v ∷ values) = has_bits v shn_mask || asked_shutdown values

-- CSTS has RDY and SHST only.
abbrev pub status_of : Bool → Bool → ℕ
status_of false false = 0
status_of true false = 1
status_of false true = 8
status_of true true = 9

-- RDY and the completion of a shutdown, as flags. Until a shutdown, RDY follows EN.
pub record IsSettled (r : RegisterState) (up down : Bool) : Type 0 where
  pub shown : r.csts ≡ status_of up down
  pub follows : down ≡ false → up ≡ has_bits r.cc en

-- RDY behind a write, by what the masks of the value and of the register say.
abbrev pub next_up : (shutting was now up : Bool) → Bool
next_up true was now up = up
next_up false false true up = true
next_up false true false up = false
next_up false false false up = up
next_up false true true up = up

or_shst : (up down : Bool) → bit_or (status_of up down) shst_complete ≡ status_of up true
or_shst false false = refl
or_shst true false = refl
or_shst false true = refl
or_shst true true = refl

or_rdy : (up down : Bool) → bit_or (status_of up down) rdy ≡ status_of true down
or_rdy false false = refl
or_rdy true false = refl
or_rdy false true = refl
or_rdy true true = refl

clear_rdy : (up down : Bool) → bit_and (status_of up down) (2 ^ 32 - 1 - rdy) ≡ status_of false down
clear_rdy false false = refl
clear_rdy true false = refl
clear_rdy false true = refl
clear_rdy true true = refl

-- A write, by the masks.
write_by :
    (r : RegisterState) (v : ℕ) (shutting was now up down : Bool)
    → has_bits v shn_mask ≡ shutting
    → has_bits r.cc en ≡ was
    → has_bits v en ≡ now
    → r.csts ≡ status_of up down
    → (write_cc r v).1
      ≡ record r { cc = v; csts = status_of (next_up shutting was now up) (shutting || down) }
unfolding write_cc
write_by r v true was now up down s w n c = rw (s, c, or_shst up down)
write_by r v false false true up down s w n c = rw (s, w, n, c, or_rdy up down)
write_by r v false true false up down s w n c = rw (s, w, n, c, clear_rdy up down)
write_by r v false false false up down s w n c =
    rw (s, w, n) (ap (λ t. record r { cc = v; csts = t }) c)
write_by r v false true true up down s w n c =
    rw (s, w, n) (ap (λ t. record r { cc = v; csts = t }) c)

follows_by :
    (shutting was now up down : Bool)
    → (down ≡ false → up ≡ was)
    → (shutting || down) ≡ false
    → next_up shutting was now up ≡ now
follows_by true was now up down f e = absurd (cc)
follows_by false false true up down f e = refl
follows_by false true false up down f e = refl
follows_by false false false up down f e = f e
follows_by false true true up down f e = f e

or_assoc : (a b c : Bool) → ((a || b) || c) ≡ (b || (a || c))
or_assoc true true c = refl
or_assoc true false c = refl
or_assoc false true c = refl
or_assoc false false c = refl

-- What a series of writes leaves, on registers that are settled.
abbrev Left : RegisterState → Bool → List ℕ → Type 0
Left r down values = ((up : Bool) × IsSettled (written r values) up (asked_shutdown values || down))

written-IsSettled :
    (r : RegisterState) (up down : Bool) (values : List ℕ)
    → IsSettled r up down
    → Left r down values
unfolding written asked_shutdown
written-IsSettled r up down [] s = (up, s)
written-IsSettled r up down (v ∷ values) s =
    let shutting = has_bits v shn_mask in
    let was = has_bits r.cc en in
    let now = has_bits v en in
    let up' = next_up shutting was now up in
    let r' : RegisterState = record r { cc = v; csts = status_of up' (shutting || down) } in
    let step : (write_cc r v).1 ≡ r' =
      write_by r v shutting was now up down refl refl refl s.shown in
    let (u, t) =
      written-IsSettled r' up' (shutting || down) values
        (record { shown = refl; follows = follows_by shutting was now up down s.follows }) in
    (u, rw (step, or_assoc shutting (asked_shutdown values) down) t)

rdy_shown : (up down : Bool) → has_bits (status_of up down) rdy ≡ up
rdy_shown false false = refl
rdy_shown true false = refl
rdy_shown false true = refl
rdy_shown true true = refl

shst_shown : (up down : Bool) → has_bits (status_of up down) shst_complete ≡ down
shst_shown false false = refl
shst_shown true false = refl
shst_shown false true = refl
shst_shown true true = refl

or_false : (b : Bool) → (b || false) ≡ b
or_false false = refl
or_false true = refl

new-IsSettled : (n : ℕ) → IsSettled (new n) false false
unfolding new
new-IsSettled n = record { shown = refl; follows = λ _. refl }

-- After any writes of CC to new registers, CSTS says that a shutdown is complete exactly if one of the
-- writes asked for it; if none did, the controller is ready exactly if the last EN is set.
pub written-ready :
    (n : ℕ) (values : List ℕ)
    → (has_bits (written (new n) values).csts shst_complete ≡ asked_shutdown values)
      × (asked_shutdown values ≡ false
          → ready (written (new n) values) ≡ has_bits (written (new n) values).cc en)
unfolding ready
written-ready n values =
    let (up, s) = written-IsSettled (new n) false false values (new-IsSettled n) in
    let down = asked_shutdown values in
    (
      ap (λ t. has_bits t shst_complete) s.shown ∙ shst_shown up (down || false) ∙ or_false down,
      λ e.
          ap (λ t. has_bits t rdy) s.shown
          ∙ rdy_shown up (down || false)
          ∙ s.follows (or_false down ∙ e),
    )
