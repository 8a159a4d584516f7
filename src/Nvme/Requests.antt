-- ===== src/Nvme/Requests.antt =====
-- crates/ioutgt-nvme/src/admin.rs, fabrics_exec.rs and dispatch.rs: the async event requests of an admin queue
-- under what may happen to its context.
use ioutgt.Base.{ℕ, ◌≡◌, ◌≢◌, refl, sym, ap, ◌∙◌, Bool, true, [], none, some, returns, inr, subst}
use ioutgt.Spec.{Sqe}
use ioutgt.Controller.{has_bits}
use ioutgt.Nvme.{
  AdminState, Role, ConnCtx, Outcome, noticed, fire_ns_changed, close, keepalive_expired,
  aen_cfg_ns_attr, new_admin_state,
}
use ioutgt.Nvme.Connect.{Host, with_admin}
use ioutgt.Nvme.Property
use ioutgt.Nvme.Property.{with_value, property_value, set_property, property}
use ioutgt.Nvme.Features.{poll_event, set_features}
use ioutgt.Nvme.Features.Events.{
  IsCalm, alike-IsCalm, new-IsCalm, noticed-IsCalm, poll_event-IsCalm, noticed-wakers,
  noticed-finds,
}
use ioutgt.Nvme.Kept.{if_result, Keeps, set_features-Keeps, fabrics-Keeps, ticked-IsAlike}

module _ {B : Type 0} where
  -- What may happen: a change of the namespaces, a poll of a request, a Set Features, a fabrics command
  -- (Connect, and the writes of CC that enable the controller), a tick of the keep-alive, and teardown.
  pub data Step (c : ConnCtx B) : ConnCtx B → Type 0 where
    fired : Step c (fire_ns_changed c).0
    polled :
        (a : AdminState) (waker : ℕ)
        → c.role ≡ Role.admin a
        → Step c (with_admin c (poll_event a waker).1)
    configured :
        (a : AdminState) (sqe : Sqe) (r : Outcome × ConnCtx B)
        → c.role ≡ Role.admin a
        → set_features c a sqe ≡ returns r
        → Step c r.1
    fabrics :
        (host : Host) (sqe : Sqe) (r : Outcome × ConnCtx B)
        → Property.execute host c sqe ≡ returns r
        → Step c r.1
    ticked :
        (a : AdminState) (flag : Bool) (now : ℕ)
        → c.role ≡ Role.admin a
        → Step c (with_admin c (keepalive_expired a flag now).admin)
    closed : (flag : Bool) → Step c (close c flag).0

  pub data Reach (c : ConnCtx B) : ConnCtx B → Type 0 where
    here : Reach c c
    next : {d e : ConnCtx B} → Reach c d → Step d e → Reach c e

  -- An admin queue whose requests are calm.
  pub record Serves (c : ConnCtx B) : Type 0 where
    pub state : AdminState
    pub role : c.role ≡ Role.admin state
    pub calm : IsCalm state

  served-by : (a : AdminState) (c : ConnCtx B) → IsCalm a → Keeps a c → Serves c
  served-by a c v k = record {
    state = k.state;
    role = k.role;
    calm = alike-IsCalm a k.state k.alike v;
  }

  -- The state of an admin's role, and of another role some other.
  state_in : AdminState → Role B → AdminState
  state_in a (Role.admin b) = b
  state_in a (Role.io _) = a

  role-IsCalm : (c : ConnCtx B) → Serves c → (a : AdminState) → c.role ≡ Role.admin a → IsCalm a
  unfolding state_in
  role-IsCalm c v a e = subst IsCalm (ap (state_in a) (sym v.role ∙ e)) v.calm

  Step-Serves : {c d : ConnCtx B} → Step c d → Serves c → Serves d
  unfolding fire_ns_changed close
  Step-Serves {c = c} fired v =
      rw v.role
        (record { state = (noticed v.state).0; role = refl; calm = noticed-IsCalm v.state v.calm })
  Step-Serves {c = c} (polled a waker e) v = record {
    state = (poll_event a waker).1;
    role = refl;
    calm = poll_event-IsCalm a waker (role-IsCalm c v a e);
  }
  Step-Serves {c = c} (configured a sqe r e found) v =
      served-by a r.1 (role-IsCalm c v a e) (
        if_result (λ r'. Keeps a r'.1) (set_features c a sqe) r found
          (set_features-Keeps c a sqe e))
  Step-Serves {c = c} (fabrics host sqe r found) v = served-by v.state r.1 v.calm (
      if_result (λ r'. Keeps v.state r'.1) (Property.execute host c sqe) r found
        (fabrics-Keeps host c v.state sqe v.role))
  Step-Serves {c = c} (ticked a flag now e) v = record {
    state = (keepalive_expired a flag now).admin;
    role = refl;
    calm =
        alike-IsCalm a (keepalive_expired a flag now).admin (ticked-IsAlike a flag now)
          (role-IsCalm c v a e);
  }
  Step-Serves {c = c} (closed flag) v = rw v.role (record {
    state = record (v.state) { closing = true; aer_wakers = [] };
    role = refl;
    calm = record { served = inr refl; alive = inr refl; once = v.calm.once };
  })

  Reach-Serves : {c d : ConnCtx B} → Reach c d → Serves c → Serves d
  Reach-Serves here v = v
  Reach-Serves (next r step) v = Step-Serves step (Reach-Serves r v)

  -- What the next change of the namespaces and teardown do for the requests of a queue.
  pub record IsServing (c : ConnCtx B) (flag : Bool) (waker : ℕ) : Type 0 where
    pub queue : Serves c
    pub notice :
        has_bits queue.state.aec aen_cfg_ns_attr ≡ true
        → ((fire_ns_changed c).1 ≡ queue.state.aer_wakers)
          × ((poll_event (noticed queue.state).0 waker).0 ≢ none)
    pub ended : Serves (close c flag).0
    pub woken : (close c flag).1 ≡ queue.state.aer_wakers
    pub none_parked : ended.state.aer_wakers ≡ []
    pub answers : (poll_event ended.state waker).0 ≡ some 0

  -- Whatever Connects and other fabrics commands, Set Features, polls, changes of the namespaces, ticks of
  -- the keep-alive and teardowns a new admin queue sees, no request stays parked while an event is pending or
  -- the connection closes, and a notice is pending once at most. If the host enabled notices, the next change
  -- of the namespaces wakes all that are parked, and a poll then finds an event. Teardown wakes all, leaves
  -- none parked, and a poll then answers at once.
  pub Reach-IsServing :
      (c d : ConnCtx B) (now waker : ℕ) (flag : Bool)
      → c.role ≡ Role.admin (new_admin_state now)
      → Reach c d
      → IsServing d flag waker
  unfolding fire_ns_changed close poll_event
  Reach-IsServing c d now waker flag e r =
      let v =
        Reach-Serves r (record { state = new_admin_state now; role = e; calm = new-IsCalm now }) in
      let closed_state : AdminState = record (v.state) { closing = true; aer_wakers = [] } in
      record {
        queue = v;
        notice = λ on. (rw v.role (noticed-wakers v.state on), noticed-finds v.state waker on);
        ended = record {
          state = closed_state;
          role = rw v.role refl;
          calm = record { served = inr refl; alive = inr refl; once = v.calm.once };
        };
        woken = rw v.role refl;
        none_parked = refl;
        answers = refl;
      }
