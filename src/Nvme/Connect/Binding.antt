-- ===== src/Nvme/Connect/Binding.antt =====
-- crates/ioutgt-nvme/src/fabrics_exec.rs: which controller a Connect of an IO queue joins.
use Prim.Native.String.{String}
use ioutgt.Base.{
  ℕ, ◌≤◌, ◌≡◌, ◌≢◌, refl, true, none, some, Ret, ◌==◌, ==_iff, if◌then◌else◌, Bool-cases, inl, inr,
  ◌⊎◌,
}
use ioutgt.Spec.{new_cqe}
use ioutgt.Status.{success, fatal, connect_invalid_param, connect_invalid_param_result}
use ioutgt.Fabrics.{ConnectCommand}
use ioutgt.Registry
use ioutgt.Registry.{QueueInfo, ControllerEntry, Connect, IoConnectError, install_io_queue}
use ioutgt.Registry.Table.{IsValid}
use ioutgt.Registry.Queues.{verdict, Installed, InstallPost, install_io_queue-InstallPost}
use ioutgt.Nvme.{IoState, Role, ConnCtx, Outcome}
use ioutgt.Nvme.Replies.{reply-returns, completion, next_head}
use ioutgt.Nvme.Connect.{Host, queue_info, with_cntlid, joined, installed, connect_io}

module _ {B : Type 0} (host : Host) (old : ConnCtx B) (i : IoState B) (cmd : ConnectCommand)
    (hostnqn : String) where
  abbrev pub wanted : ℕ
  wanted = old.connect_data.cntlid

  -- The queue joined the controller that it asked for.
  pub record Joined (o : Outcome) (ctx : ConnCtx B) : Type 0 where
    pub entry : ControllerEntry
    pub unbound : i.cntlid ≡ 0
    pub accepted : verdict old.registry wanted hostnqn (queue_info host old) ≡ none
    pub installed : Installed old.registry wanted (queue_info host old) entry ctx.registry
    pub state : IoState B
    pub role : ctx.role ≡ Role.io state
    pub cntlid : state.cntlid ≡ wanted
    pub kato : state.kato_ms ≡ entry.kato_ms
    pub told : o.cqe ≡ completion old.queue wanted cmd.cid success

  -- It has joined one before, or the registry refuses it.
  pub record Rejected (o : Outcome) (ctx : ConnCtx B) : Type 0 where
    pub why :
        (i.cntlid ≢ 0)
        ⊎ ((x : IoConnectError) × (verdict old.registry wanted hostnqn (queue_info host old)
              ≡ some x))
    pub same : ctx.registry ≡ old.registry
    pub role : ctx.role ≡ old.role
    pub result : ℕ
    pub told : o.cqe ≡ completion old.queue result cmd.cid (fatal connect_invalid_param)

  abbrev pub BindPost : Outcome × ConnCtx B → Type 0
  BindPost (o, ctx) = if o.cqe.status == success then Joined o ctx else Rejected o ctx

  installed_by :
      (res : Connect ControllerEntry × Registry.Registry)
      → 1 ≤ old.queue.sqsize
      → i.cntlid ≡ 0
      → InstallPost old.registry wanted hostnqn (queue_info host old) res
      → Ret BindPost (installed old i cmd res)
  unfolding installed joined next_head new_cqe
  installed_by (Connect.ok e, r) n z (accepted, p) =
      let ctx : ConnCtx B = record (with_cntlid (record old { registry = r }) wanted) {
        role = Role.io (joined old i wanted e);
      } in
      rw (reply-returns ctx wanted cmd.cid success 0 n) (record {
        entry = e;
        unbound = z;
        accepted = accepted;
        installed = p;
        state = joined old i wanted e;
        role = refl;
        cntlid = refl;
        kato = refl;
        told = refl;
      })
  installed_by (Connect.err x, r) n z (refused, same) =
      let ctx : ConnCtx B = record old { registry = r } in
      rw
        (reply-returns ctx (connect_invalid_param_result true 16) cmd.cid
          (fatal connect_invalid_param) 0 n)
        (record {
          why = inr (x, refused);
          same = same;
          role = refl;
          result = connect_invalid_param_result true 16;
          told = refl;
        })

  -- A Connect of an IO queue always answers. It joins the controller that it names if the checks of the
  -- registry accept it, which then has the queue; or it answers with an error and changes nothing, because
  -- of the first check that fails or because it has joined one before.
  pub connect_io-BindPost :
      IsValid old.registry → 1 ≤ old.queue.sqsize → Ret BindPost (connect_io host old i cmd hostnqn)
  unfolding connect_io next_head new_cqe
  connect_io-BindPost v n = elim (Bool-cases (i.cntlid == 0)) [
    | inl free ↦ rw free (
        installed_by (install_io_queue old.registry wanted hostnqn (queue_info host old)) n
          ((==_iff i.cntlid 0).0 free)
          (install_io_queue-InstallPost old.registry wanted hostnqn (queue_info host old) v))
    | inr taken ↦
        rw (taken, reply-returns old 0 cmd.cid (fatal connect_invalid_param) 0 n)
          (record {
            why = inl (λ e. cc ((==_iff i.cntlid 0).1 e, taken));
            same = refl;
            role = refl;
            result = 0;
            told = refl;
          })
  ]
