-- ===== src/Nvme/Connect/Admission.antt =====
-- crates/ioutgt-nvme/src/fabrics_exec.rs: what a Connect of an admin queue does to the registry.
use Prim.Native.String.{String}
use ioutgt.Base.{
  ℕ, ◌*◌, ◌%◌, ◌^◌, ◌≤◌, ◌≡◌, ◌≢◌, ◌⊎◌, refl, sym, ap, subst, Bool, true, false, ◌&&◌, ◌||◌, Option,
  none, some, Ret, ◌==◌, ==_iff, if◌then◌else◌, Bool-cases, Option-cases, inl, inr,
}
use text.Mathlib.Text.{◌==◌ as str_eq}
use ioutgt.Spec.{Sqe, new_cqe}
use ioutgt.Status.{
  success, fatal, connect_ctrl_busy, connect_invalid_param, connect_invalid_host,
  connect_invalid_param_result,
}
use ioutgt.Fabrics.{ConnectCommand, discovery_nqn}
use ioutgt.Queue.{QueueCore}
use ioutgt.Registry
use ioutgt.Registry.{
  Registry, QueueInfo, contains, find, allocate, scan, span_of, is_some, traffic_of,
}
use ioutgt.Registry.Table.{IsValid}
use ioutgt.Registry.Allocate.{InSlice, new_entry, allocate_fresh, allocate-scan, allocate-full}
use ioutgt.Subsystem.{Subsystem, subsystem_of, admits}
use ioutgt.Nvme.{AdminState, Role, ConnCtx, Outcome, reply}
use ioutgt.Nvme.Replies.{reply-returns, completion, next_head}
use ioutgt.Nvme.Connect.{
  Host, Resolved, bound, unknown, disallowed, queue_info, resolve, with_admin, with_cntlid,
  admitted, allocate_for, connect_resolved, connect_admin,
}

pair {ℓ κ} : {A : Type ℓ} {B : Type κ} (p : A × B) (a : A) → p.0 ≡ a → p ≡ (a, p.1)
pair p a e = ap (λ t. (t, p.1)) e

-- The role is an admin's, with this id.
pub record Serves {B : Type 0} (ctx : ConnCtx B) (id : ℕ) : Type 0 where
  pub state : AdminState
  pub role : ctx.role ≡ Role.admin state
  pub cntlid : state.cntlid ≡ id

module _ {B : Type 0} (host : Host) (old : ConnCtx B) (cmd : ConnectCommand)
    (subsysnqn hostnqn : String) where
  -- The entry that a new controller gets: none of discovery has IO queues, and its timeout is two minutes
  -- where the host gave none.
  abbrev pub discovers : Bool
  discovers = str_eq subsysnqn discovery_nqn

  abbrev pub entry : ℕ → Registry.ControllerEntry
  entry id =
      new_entry old.registry subsysnqn hostnqn (if discovers then 0 else old.port.max_qid)
        (if cmd.kato == 0 && discovers then 120000 else cmd.kato) (queue_info host old) discovers id

  -- The queue is to serve discovery, or a subsystem of the port that admits the host.
  abbrev pub IsAdmissible : Type 0
  IsAdmissible =
      (discovers ≡ true)
      ⊎ ((s : Subsystem B) × (subsystem_of old.port subsysnqn ≡ some s) × (admits s hostnqn ≡ true))

  -- The state is bound to what the host named.
  abbrev pub IsBound : AdminState → Type 0
  IsBound a = if discovers then a.discovery ≡ true else a.subsys ≡ some subsysnqn

  abbrev pub kato : ℕ
  kato = if cmd.kato == 0 && discovers then 120000 else cmd.kato

  -- Why a Connect is refused, with its result and status; `was` is the id of the queue.
  pub data Why (was : ℕ) : ℕ → ℕ → Type 0 where
    serves_one : was ≢ 0 → Why was 0 (fatal connect_invalid_param)
    no_subsystem :
        discovers ≡ false
        → subsystem_of old.port subsysnqn ≡ none
        → Why was (connect_invalid_param_result true 256) (fatal connect_invalid_param)
    host_refused :
        (s : Subsystem B)
        → discovers ≡ false
        → subsystem_of old.port subsysnqn ≡ some s
        → admits s hostnqn ≡ false
        → Why was 0 (fatal connect_invalid_host)
    static_id :
        old.connect_data.cntlid ≢ 0xFFFF
        → IsAdmissible
        → Why was (connect_invalid_param_result true 16) (fatal connect_invalid_param)
    no_id_left :
        scan old.registry (span_of old.registry) 0 ≡ none → Why was 0 (fatal connect_ctrl_busy)

  -- A new controller: a free id of the slice, which the host is told and the queue serves, and which
  -- alone the registry has more.
  pub record Granted (id : ℕ) (o : Outcome) (ctx : ConnCtx B) : Type 0 where
    pub fresh : contains old.registry id ≡ false
    pub slice : InSlice old.registry id
    pub valid : IsValid ctx.registry
    pub others :
        (j : ℕ)
        → find j ctx.registry.controllers
          ≡ (if id == j then some (entry id) else find j old.registry.controllers)
    pub admissible : IsAdmissible
    pub dynamic : old.connect_data.cntlid ≡ 0xFFFF
    pub serves : Serves ctx id
    pub bound_to : IsBound serves.state
    pub timeout : serves.state.kato_ms ≡ kato
    pub told : o.cqe ≡ completion old.queue id cmd.cid success

  -- A refusal, with a status that is not success, for a reason: the registry is as it was, and so is the
  -- id of the queue.
  pub record Refused (was : ℕ) (o : Outcome) (ctx : ConnCtx B) : Type 0 where
    pub same : ctx.registry ≡ old.registry
    pub kept : Serves ctx was
    pub result : ℕ
    pub code : ℕ
    pub why : Why was result code
    pub told : o.cqe ≡ completion old.queue result cmd.cid code

  abbrev pub AdmissionPost : ℕ → Outcome × ConnCtx B → Type 0
  AdmissionPost was (o, ctx) =
      if o.cqe.status == success
      then ((id : ℕ) × (was ≡ 0) × Granted id o ctx)
      else Refused was o ctx

  refused_by :
      (was result code : ℕ) (a : AdminState) (ctx : ConnCtx B)
      → 1 ≤ old.queue.sqsize
      → ctx.queue ≡ old.queue
      → ctx.registry ≡ old.registry
      → ctx.role ≡ Role.admin a
      → a.cntlid ≡ was
      → (code * 2 % 2 ^ 16 == 0) ≡ false
      → Why was result code
      → Ret (AdmissionPost was) (reply ctx result cmd.cid code 0)
  unfolding new_cqe
  refused_by was result code a ctx n q r e c f why =
      let n' : 1 ≤ ctx.queue.sqsize = subst (λ (t : QueueCore Sqe). 1 ≤ t.sqsize) (sym q) n in
      let told : new_cqe result (next_head ctx.queue) ctx.queue.qid cmd.cid code
          ≡ completion old.queue result cmd.cid code =
        ap (λ t. completion t result cmd.cid code) q in
      rw (reply-returns ctx result cmd.cid code 0 n', f)
        (record {
          same = r;
          kept = record { state = a; role = e; cntlid = c };
          result = result;
          code = code;
          why = why;
          told = told;
        })

  -- What the registry may give.
  abbrev Given : Option ℕ × Registry → Type 0
  Given (none, r) = (r ≡ old.registry) × (scan old.registry (span_of old.registry) 0 ≡ none)
  Given (some id, r) =
      (contains old.registry id ≡ false)
      × InSlice old.registry id
      × IsValid r
      × ((j : ℕ)
          → find j r.controllers
            ≡ (if id == j then some (entry id) else find j old.registry.controllers))

  admitted_by :
      (a : AdminState) (res : Option ℕ × Registry)
      → 1 ≤ old.queue.sqsize
      → a.cntlid ≡ 0
      → IsAdmissible
      → IsBound a
      → old.connect_data.cntlid ≡ 0xFFFF
      → Given res
      → Ret (AdmissionPost 0) (admitted (with_admin old a) a cmd.cid kato res)
  unfolding admitted next_head new_cqe
  admitted_by a (none, r) n c admissible to dynamic (same, full) =
      refused_by 0 0 (fatal connect_ctrl_busy) a (record old { registry = r; role = Role.admin a })
        n refl same refl c refl (no_id_left full)
  admitted_by a (some id, r) n c admissible to dynamic (fresh, slice, valid, others) =
      let a' : AdminState = record a {
        cntlid = id;
        kato_ms = kato;
        traffic = a.traffic || is_some (traffic_of r id);
      } in
      let ctx : ConnCtx B = with_admin (with_cntlid (record old { registry = r }) id) a' in
      rw (reply-returns ctx id cmd.cid success 0 n) (
        id,
        refl,
        record {
          fresh = fresh;
          slice = slice;
          valid = valid;
          others = others;
          admissible = admissible;
          dynamic = dynamic;
          serves = record { state = a'; role = refl; cntlid = refl };
          bound_to = to;
          timeout = refl;
          told = refl;
        },
      )

  -- What `allocate` gives is so.
  abbrev allocated : Option ℕ × Registry
  allocated =
      allocate old.registry subsysnqn hostnqn (if discovers then 0 else old.port.max_qid)
        (if cmd.kato == 0 && discovers then 120000 else cmd.kato) (queue_info host old) discovers

  -- The same, whatever the limits are.
  allocate-Given :
      (max_qid kato : ℕ) (q : QueueInfo) (discovery : Bool)
      → IsValid old.registry
      → q.qid ≡ 0
      → (id : ℕ) → scan old.registry (span_of old.registry) 0 ≡ some id
      → (contains old.registry id ≡ false)
        × InSlice old.registry id
        × IsValid (allocate old.registry subsysnqn hostnqn max_qid kato q discovery).1
        × ((j : ℕ)
            → find j
                (allocate old.registry subsysnqn hostnqn max_qid kato q discovery).1.controllers
              ≡ (if id == j
                  then some (new_entry old.registry subsysnqn hostnqn max_qid kato q discovery id)
                  else find j old.registry.controllers))
  allocate-Given max_qid kato q discovery v z id found =
      let e = allocate-scan old.registry subsysnqn hostnqn max_qid kato q discovery id found in
      let at = λ (j : ℕ).
        allocate_fresh old.registry subsysnqn hostnqn max_qid kato q discovery id j v z
          (ap (λ t. t.0) e) in
      let (fresh, slice, valid, _) = at 0 in
      (fresh, slice, valid, λ j. let (_, _, _, other) = at j in other)

  allocated-Given : IsValid old.registry → old.queue.qid ≡ 0 → Given allocated
  unfolding queue_info
  allocated-Given v z =
      let max_qid = if discovers then 0 else old.port.max_qid in
      let kato = if cmd.kato == 0 && discovers then 120000 else cmd.kato in
      let q = queue_info host old in
      elim (Option-cases (scan old.registry (span_of old.registry) 0)) [
        | inl full ↦
            subst Given
              (sym (allocate-full old.registry subsysnqn hostnqn max_qid kato q discovers full))
              (refl, full)
        | inr (id, found) ↦
            let e =
              allocate-scan old.registry subsysnqn hostnqn max_qid kato q discovers id found in
            let given : Given (some id, allocated.1) =
              allocate-Given max_qid kato q discovers v z id found in
            subst Given (sym (pair allocated (some id) (ap (λ t. t.0) e))) given
      ]

  allocate_for-AdmissionPost :
      (a : AdminState)
      → IsValid old.registry
      → old.queue.qid ≡ 0
      → 1 ≤ old.queue.sqsize
      → a.cntlid ≡ 0
      → IsAdmissible
      → IsBound a
      → old.connect_data.cntlid ≡ 0xFFFF
      → Ret (AdmissionPost 0) (allocate_for host (with_admin old a) a cmd subsysnqn hostnqn)
  unfolding allocate_for queue_info
  allocate_for-AdmissionPost a v q n c admissible to dynamic =
      admitted_by a allocated n c admissible to dynamic (allocated-Given v q)

  -- What is known of a resolved queue.
  abbrev Known : Resolved → Type 0
  Known (bound b) = (b.cntlid ≡ 0) × IsAdmissible × IsBound b
  Known unknown = (discovers ≡ false) × (subsystem_of old.port subsysnqn ≡ none)
  Known disallowed =
      (s : Subsystem B) × (discovers ≡ false)
      × (subsystem_of old.port subsysnqn ≡ some s)
      × (admits s hostnqn ≡ false)

  discovery-IsBound : (a : AdminState) → discovers ≡ true → a.discovery ≡ true → IsBound a
  discovery-IsBound a p e = rw p e

  subsystem-IsBound : (a : AdminState) → discovers ≡ false → a.subsys ≡ some subsysnqn → IsBound a
  subsystem-IsBound a p e = rw p e

  resolve-Known : (a : AdminState) → a.cntlid ≡ 0 → Known (resolve old a subsysnqn hostnqn)
  unfolding resolve
  resolve-Known a z = elim (Bool-cases discovers) [
    | inl p ↦ rw p (z, inl p, discovery-IsBound (record a { discovery = true }) p refl)
    | inr p ↦ elim (Option-cases (subsystem_of old.port subsysnqn)) [
      | inl e ↦ rw (p, e) (p, e)
      | inr (s, e) ↦ elim (Bool-cases (admits s hostnqn)) [
        | inl h ↦
            rw (p, e, h)
              (z, inr (s, e, h), subsystem-IsBound (record a { subsys = some subsysnqn }) p refl)
        | inr h ↦ rw (p, e, h) (s, p, e, h)
      ]
    ]
  ]

  resolved-AdmissionPost :
      (a : AdminState) (res : Resolved)
      → IsValid old.registry
      → old.queue.qid ≡ 0
      → 1 ≤ old.queue.sqsize
      → a.cntlid ≡ 0
      → old.role ≡ Role.admin a
      → Known res
      → Ret (AdmissionPost 0) (connect_resolved host old cmd subsysnqn hostnqn res)
  unfolding connect_resolved
  resolved-AdmissionPost a unknown v q n c r (p, e) =
      refused_by 0 (connect_invalid_param_result true 256) (fatal connect_invalid_param) a old n
        refl refl r c refl (no_subsystem p e)
  resolved-AdmissionPost a disallowed v q n c r (s, p, e, h) =
      refused_by 0 0 (fatal connect_invalid_host) a old n refl refl r c refl (host_refused s p e h)
  resolved-AdmissionPost a (bound b) v q n c r (z, admissible, to) =
      elim (Bool-cases (old.connect_data.cntlid == 0xFFFF)) [
        | inl dynamic ↦
            rw dynamic (allocate_for-AdmissionPost b v q n z admissible to ((==_iff _ _).0 dynamic))
        | inr static ↦ rw static (
            refused_by 0 (connect_invalid_param_result true 16) (fatal connect_invalid_param) b
              (with_admin old b) n refl refl refl z refl
              (static_id (λ e. cc ((==_iff old.connect_data.cntlid 0xFFFF).1 e, static))
                admissible))
      ]

  -- A Connect of an admin queue always answers. A queue without a controller that names discovery or a
  -- subsystem that admits the host, with a dynamic id, gets a free id of the slice, with its timeout and its
  -- subsystem, and the registry stays valid and has its entry more and nothing else changed. It answers with
  -- an error only because one of these fails or no id is free; then the registry and
  -- the id of the queue are as they were.
  pub connect_admin-AdmissionPost :
      (a : AdminState)
      → IsValid old.registry
      → old.queue.qid ≡ 0
      → 1 ≤ old.queue.sqsize
      → old.role ≡ Role.admin a
      → Ret (AdmissionPost a.cntlid) (connect_admin host old a cmd subsysnqn hostnqn)
  unfolding connect_admin
  connect_admin-AdmissionPost a v q n r = elim (Bool-cases (a.cntlid == 0)) [
    | inr taken ↦ rw taken (
        refused_by a.cntlid 0 (fatal connect_invalid_param) a old n refl refl r refl refl
          (serves_one (λ e. cc ((==_iff a.cntlid 0).1 e, taken))))
    | inl free ↦
        let z : a.cntlid ≡ 0 = (==_iff a.cntlid 0).0 free in
        let post =
          resolved-AdmissionPost a (resolve old a subsysnqn hostnqn) v q n z r
            (resolve-Known a z) in
        rw free (
          subst
            (λ t.
              Ret (AdmissionPost t)
                (connect_resolved host old cmd subsysnqn hostnqn (resolve old a subsysnqn hostnqn)))
            (sym z) post)
  ]
