-- ===== src/Nvme/Kept.antt =====
-- crates/ioutgt-nvme/src/fabrics_exec.rs and admin.rs: commands of an admin queue that leave its async event
-- requests alone.
use Prim.Native.String.{String}
use text.Mathlib.Text.{◌==◌ as str_eq}
use ioutgt.Base.{
  ℕ, ◌/◌, min, max, ◌+◌, ◌-◌, ◌*◌, ltb, ◌%◌, ◌^◌, ◌≡◌, refl, Bool, ◌&&◌, ◌||◌, Option, none, some,
  Exec, returns, panics, ◌>>=◌, ◌==◌, Bool-cases, Option-cases, inl, inr,
}
use ioutgt.Spec.{Sqe}
use ioutgt.Status.{success}
use ioutgt.Fabrics.{
  ConnectCommand, connect_command, property_command, connect, property_get, property_set, prop_cc,
  discovery_nqn,
}
use ioutgt.Controller.{write_cc}
use ioutgt.Queue.{advance_sqhd}
use ioutgt.Registry
use ioutgt.Subsystem.{subsystem_of, admits}
use ioutgt.Nvme.{AdminState, Role, ConnCtx, reply, keepalive_expired}
use ioutgt.Nvme.Connect
use ioutgt.Nvme.Connect.{
  Host, Resolved, bound, unknown, disallowed, resolve, with_admin, admitted, allocate_for,
  connect_resolved, connect_admin,
}
use ioutgt.Nvme.Property
use ioutgt.Nvme.Property.{with_value, property_value, set_property, property}
use ioutgt.Nvme.Features.{set_features, num_queues, kato, async_event_config, host_id}
use ioutgt.Nvme.Features.Events.{IsAlike}

-- What holds of a result if there is one.
pub IfRet : {A : Type 0} → (A → Type 0) → Exec A → Type 0
IfRet P (returns a) = P a
IfRet P panics = Unit {0}

IfRet->>= :
    {A B : Type 0} (P : A → Type 0) (Q : B → Type 0) (m : Exec A) (f : A → Exec B)
    → ((a : A) → P a → IfRet Q (f a))
    → IfRet P m
    → IfRet Q (m >>= f)
unfolding IfRet
IfRet->>= P Q (returns a) f h p = h a p
IfRet->>= P Q panics f h p = tt

pub if_result : {A : Type 0} (P : A → Type 0) (m : Exec A) (a : A) → m ≡ returns a → IfRet P m → P a
unfolding IfRet
if_result P m a e h = rw e at h

abbrev pub same : (a : AdminState) → IsAlike a a
same a = record { same_events = refl; same_wakers = refl; same_mark = refl }

-- What a resolved state is like.
abbrev Likened : AdminState → Resolved → Type 0
Likened a (bound b) = IsAlike a b
Likened a unknown = Unit {0}
Likened a disallowed = Unit {0}

pub ticked-IsAlike :
    (a : AdminState) (flag : Bool) (now : ℕ) → IsAlike a (keepalive_expired a flag now).admin
unfolding keepalive_expired
ticked-IsAlike a flag now =
    let tick = min (max (a.kato_ms / 2) 250) 5000 in
    let late = ltb (a.kato_ms * 2 + tick) (now - a.last_heard) in
    elim (Bool-cases (a.kato_ms == 0)) [
      | inl p ↦ rw p (same a)
      | inr p ↦ elim (Bool-cases (a.traffic && flag)) [
        | inl q ↦ rw (p, q) (record { same_events = refl; same_wakers = refl; same_mark = refl })
        | inr q ↦ elim (Bool-cases late) [
          | inl r ↦ rw (p, q, r) (same a)
          | inr r ↦ rw (p, q, r) (same a)
        ]
      ]
    ]

module _ {B : Type 0} where
  -- An admin queue with the requests, events and mark of `a`.
  pub record Keeps (a : AdminState) (c : ConnCtx B) : Type 0 where
    pub state : AdminState
    pub role : c.role ≡ Role.admin state
    pub alike : IsAlike a state

  reply-Keeps :
      (ctx : ConnCtx B) (a b : AdminState) (result cid code data_len : ℕ)
      → ctx.role ≡ Role.admin b
      → IsAlike a b
      → IfRet (λ r. Keeps a r.1) (reply ctx result cid code data_len)
  unfolding reply IfRet
  reply-Keeps ctx a b result cid code data_len e s =
      IfRet->>= (λ r. Unit {0}) (λ r. Keeps a r.1) (advance_sqhd ctx.queue) _
        (λ r t. record { state = b; role = e; alike = s }) (any (advance_sqhd ctx.queue))
    where
      any : {A : Type 0} (m : Exec A) → IfRet (λ r. Unit {0}) m
      any (returns a) = tt
      any panics = tt

  pub set_features-Keeps :
      (ctx : ConnCtx B) (a : AdminState) (sqe : Sqe)
      → ctx.role ≡ Role.admin a
      → IfRet (λ r. Keeps a r.1) (set_features ctx a sqe)
  unfolding set_features
  set_features-Keeps ctx a sqe e =
      let fid = sqe.cdw10 % 2 ^ 8 in
      elim (Bool-cases (fid == num_queues)) [
        | inl p ↦ rw p (reply-Keeps ctx a a _ sqe.cid _ 0 e (same a))
        | inr p ↦ elim (Bool-cases (fid == kato)) [
          | inl q ↦
              rw (p, q)
                (reply-Keeps (with_admin ctx (record a { kato_ms = sqe.cdw11 })) a
                  (record a { kato_ms = sqe.cdw11 }) 0 sqe.cid _ 0 refl
                  (record { same_events = refl; same_wakers = refl; same_mark = refl }))
          | inr q ↦ elim (Bool-cases (fid == async_event_config)) [
            | inl r ↦
                rw (p, q, r)
                  (reply-Keeps (with_admin ctx (record a { aec = sqe.cdw11 })) a
                    (record a { aec = sqe.cdw11 }) 0 sqe.cid _ 0 refl
                    (record { same_events = refl; same_wakers = refl; same_mark = refl }))
            | inr r ↦ elim (Bool-cases (fid == host_id)) [
              | inl t ↦ rw (p, q, r, t) (reply-Keeps ctx a a 0 sqe.cid _ 0 e (same a))
              | inr t ↦ rw (p, q, r, t) (reply-Keeps ctx a a 0 sqe.cid _ 0 e (same a))
            ]
          ]
        ]
      ]

  admitted-Keeps :
      (ctx : ConnCtx B) (a b : AdminState) (cid timeout : ℕ) (res : Option ℕ × Registry.Registry)
      → ctx.role ≡ Role.admin b
      → IsAlike a b
      → IfRet (λ r. Keeps a r.1) (admitted ctx b cid timeout res)
  unfolding admitted
  admitted-Keeps ctx a b cid timeout (none, r) e s = reply-Keeps _ a b 0 cid _ 0 e s
  admitted-Keeps ctx a b cid timeout (some id, r) e s =
      reply-Keeps _ a _ id cid _ 0 refl (record {
        same_events = s.same_events;
        same_wakers = s.same_wakers;
        same_mark = s.same_mark;
      })

  connect_resolved-Keeps :
      (host : Host) (ctx : ConnCtx B) (a : AdminState) (cmd : ConnectCommand)
      (subsysnqn hostnqn : String) (res : Resolved)
      → ctx.role ≡ Role.admin a
      → Likened a res
      → IfRet (λ r. Keeps a r.1) (connect_resolved host ctx cmd subsysnqn hostnqn res)
  unfolding connect_resolved allocate_for
  connect_resolved-Keeps host ctx a cmd subsysnqn hostnqn unknown e s =
      reply-Keeps ctx a a _ cmd.cid _ 0 e (same a)
  connect_resolved-Keeps host ctx a cmd subsysnqn hostnqn disallowed e s =
      reply-Keeps ctx a a _ cmd.cid _ 0 e (same a)
  connect_resolved-Keeps host ctx a cmd subsysnqn hostnqn (bound b) e s =
      elim (Bool-cases (ctx.connect_data.cntlid == 0xFFFF)) [
        | inl p ↦ rw p (admitted-Keeps (with_admin ctx b) a b cmd.cid _ _ refl s)
        | inr p ↦ rw p (reply-Keeps (with_admin ctx b) a b _ cmd.cid _ 0 refl s)
      ]

  resolve-Likened :
      (ctx : ConnCtx B) (a : AdminState) (subsysnqn hostnqn : String)
      → Likened a (resolve ctx a subsysnqn hostnqn)
  unfolding resolve
  resolve-Likened ctx a subsysnqn hostnqn = elim (Bool-cases (str_eq subsysnqn discovery_nqn)) [
    | inl p ↦ rw p (record { same_events = refl; same_wakers = refl; same_mark = refl })
    | inr p ↦ elim (Option-cases (subsystem_of ctx.port subsysnqn)) [
      | inl e ↦ rw (p, e) tt
      | inr (s, e) ↦ elim (Bool-cases (admits s hostnqn)) [
        | inl h ↦ rw (p, e, h) (record { same_events = refl; same_wakers = refl; same_mark = refl })
        | inr h ↦ rw (p, e, h) tt
      ]
    ]
  ]

  connect-Keeps :
      (host : Host) (ctx : ConnCtx B) (a : AdminState) (sqe : Sqe)
      → ctx.role ≡ Role.admin a
      → IfRet (λ r. Keeps a r.1) (Connect.connect host ctx sqe)
  unfolding Connect.connect connect_admin
  connect-Keeps host ctx a sqe e =
      let cmd = connect_command sqe in
      elim (Bool-cases (cmd.recfmt == 0)) [
        | inr p ↦ rw p (reply-Keeps ctx a a 0 cmd.cid _ 0 e (same a))
        | inl p ↦ elim (Bool-cases (a.cntlid == 0)) [
          | inr q ↦ rw (p, e, q) (reply-Keeps ctx a a 0 cmd.cid _ 0 e (same a))
          | inl q ↦
              rw (p, e, q)
                (connect_resolved-Keeps host ctx a cmd _ _ _ e (resolve-Likened ctx a _ _))
        ]
      ]

  value-Keeps :
      (ctx : ConnCtx B) (a : AdminState)
      → ctx.role ≡ Role.admin a
      → (cid : ℕ) (v : Option ℕ) → IfRet (λ r. Keeps a r.1) (property_value ctx cid v)
  unfolding property_value IfRet
  value-Keeps ctx a e cid none = reply-Keeps ctx a a 0 cid _ 0 e (same a)
  value-Keeps ctx a e cid (some v) =
      IfRet->>= (λ r. Keeps a r.1) (λ r. Keeps a r.1) (reply ctx 0 cid success 0) (with_value v)
        (λ r h. h) (reply-Keeps ctx a a 0 cid success 0 e (same a))

  property-Keeps :
      (ctx : ConnCtx B) (a : AdminState) (sqe : Sqe) (fct : ℕ)
      → ctx.role ≡ Role.admin a
      → IfRet (λ r. Keeps a r.1) (property ctx sqe fct)
  unfolding property set_property
  property-Keeps ctx a sqe fct e =
      let cmd = property_command sqe in
      elim (Bool-cases (fct == property_get)) [
        | inl p ↦ rw (e, p) (value-Keeps (with_admin ctx a) a refl cmd.cid _)
        | inr p ↦ elim (Bool-cases (cmd.offset == prop_cc)) [
          | inr q ↦ rw (e, p, q) (reply-Keeps (with_admin ctx a) a a 0 cmd.cid _ 0 refl (same a))
          | inl q ↦ elim (Bool-cases (a.cntlid == 0)) [
            | inl r ↦
                rw (e, p, q, r) (reply-Keeps (with_admin ctx a) a a 0 cmd.cid _ 0 refl (same a))
            | inr r ↦
                let b : AdminState = record a { regs = (write_cc a.regs (cmd.value % 2 ^ 32)).1 } in
                rw (e, p, q, r)
                  (reply-Keeps (with_admin ctx b) a b 0 cmd.cid _ 0 refl
                    (record { same_events = refl; same_wakers = refl; same_mark = refl }))
          ]
        ]
      ]

  pub fabrics-Keeps :
      (host : Host) (ctx : ConnCtx B) (a : AdminState) (sqe : Sqe)
      → ctx.role ≡ Role.admin a
      → IfRet (λ r. Keeps a r.1) (Property.execute host ctx sqe)
  unfolding Property.execute
  fabrics-Keeps host ctx a sqe e =
      let fct = sqe.nsid % 256 in
      elim (Bool-cases (fct == connect)) [
        | inl p ↦ rw p (connect-Keeps host ctx a sqe e)
        | inr p ↦ elim (Bool-cases (fct == property_get || fct == property_set)) [
          | inl q ↦ rw (p, q) (property-Keeps ctx a sqe fct e)
          | inr q ↦ rw (p, q) (reply-Keeps ctx a a 0 sqe.cid _ 0 e (same a))
        ]
      ]
