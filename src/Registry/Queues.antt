-- ===== src/Registry/Queues.antt =====
-- crates/ioutgt-core/src/registry.rs: which IO queues a controller takes, and what removal does.
use Prim.Native.String.{String}
use text.Mathlib.Text.{◌==◌ as str_eq}
use ioutgt.Base.{
  subst, ==_iff, ℕ, ◌+◌, ◌≤◌, ◌≡◌, refl, sym, ◌∙◌, true, false, not, ◌||◌, List, [], ◌∷◌, ◌++◌,
  Option, none, some, arith, ltb, ◌==◌, if◌then◌else◌, Bool-cases, Option-cases, inl, inr, All,
  length,
}
use ioutgt.Registry.{
  ControllerEntry, QueueInfo, Registry, Connect, IoConnectError, ok, err, unknown_controller,
  host_mismatch, queue_exists, invalid_qid, find, replace, has_qid, install_in, install_io_queue,
  remove, is_some,
}
use ioutgt.Registry.Table.{
  IsValid, IsQueues, qid_count, qid_count-append, has_qid-count, find-replace, find-IsKeyed,
  replace-IsKeyed, delete-IsKeyed, find-delete, length-queues-le,
}

-- The answer as a specification by cases, in the order of the checks.
pub verdict : Registry → ℕ → String → QueueInfo → Option IoConnectError
verdict r id hostnqn q = elim (find id r.controllers) [
  | none ↦ some unknown_controller
  | some e ↦
      if not (str_eq e.hostnqn hostnqn)
      then some host_mismatch
      else if q.qid == 0 || ltb e.max_qid q.qid
      then some invalid_qid
      else if has_qid q.qid e.queues
      then some queue_exists
      else none
]

-- What is left of it where the controller is found.
abbrev checks : ControllerEntry → String → QueueInfo → Option IoConnectError
checks e hostnqn q =
    if not (str_eq e.hostnqn hostnqn)
    then some host_mismatch
    else if q.qid == 0 || ltb e.max_qid q.qid
    then some invalid_qid
    else if has_qid q.qid e.queues
    then some queue_exists
    else none

verdict_of :
    (r : Registry) (id : ℕ) (hostnqn : String) (q : QueueInfo) (e : ControllerEntry)
    → find id r.controllers ≡ some e
    → verdict r id hostnqn q ≡ checks e hostnqn q
unfolding verdict
verdict_of r id hostnqn q e f = rw (f, verdict)

install-found :
    (r : Registry) (id : ℕ) (hostnqn : String) (q : QueueInfo) (e : ControllerEntry)
    → find id r.controllers ≡ some e
    → install_io_queue r id hostnqn q ≡ install_in r e hostnqn q
unfolding install_io_queue
install-found r id hostnqn q e f = rw (f, install_io_queue)

abbrev with_queue : ControllerEntry → QueueInfo → ControllerEntry
with_queue e q = record e { queues = e.queues ++ (q ∷ []) }

All-append_one :
    (n : ℕ) (xs : List QueueInfo) (q : QueueInfo)
    → All (λ x. x.qid ≤ n) xs
    → q.qid ≤ n
    → All (λ x. x.qid ≤ n) (xs ++ (q ∷ []))
All-append_one n [] q b h = (h, tt)
All-append_one n (x ∷ xs) q b h = (b.0, All-append_one n xs q b.1 h)

has_qid-append :
    (qid : ℕ) (xs ys : List QueueInfo) → has_qid qid xs ≡ true → has_qid qid (xs ++ ys) ≡ true
unfolding has_qid
has_qid-append qid [] ys h = absurd (cc)
has_qid-append qid (x ∷ xs) ys h = ground (arith, has_qid-append qid xs ys)

with_queue-IsQueues :
    (e : ControllerEntry) (q : QueueInfo)
    → IsQueues e
    → (q.qid == 0 || ltb e.max_qid q.qid) ≡ false
    → has_qid q.qid e.queues ≡ false
    → IsQueues (with_queue e q)
with_queue-IsQueues e q v range fresh = record {
  admin = has_qid-append 0 e.queues (q ∷ []) v.admin;
  bounded = All-append_one e.max_qid e.queues q v.bounded (ground arith);
  distinct = λ qid.
      unfold qid_count in
      ground (
        arith,
        v.distinct qid,
        has_qid-count q.qid e.queues fresh,
        qid_count-append qid e.queues (q ∷ []),
      );
}

-- What an accepted Connect does.
pub record Installed (r : Registry) (id : ℕ) (q : QueueInfo) (e : ControllerEntry) (s : Registry)
    : Type 0 where
  pub valid : IsValid s
  pub was : ControllerEntry
  pub found : find id r.controllers ≡ some was
  pub with_new : e ≡ with_queue was q
  pub stored : (j : ℕ) → find j s.controllers ≡ (if id == j then some e else find j r.controllers)
  pub room : length e.queues ≤ e.max_qid + 1

abbrev pub InstallPost :
    Registry → ℕ → String → QueueInfo → Connect ControllerEntry × Registry → Type 0
InstallPost r id hostnqn q (ok e, s) = (verdict r id hostnqn q ≡ none) × Installed r id q e s
InstallPost r id hostnqn q (err x, s) = (verdict r id hostnqn q ≡ some x) × (s ≡ r)

installed :
    (r : Registry) (id : ℕ) (q : QueueInfo) (e : ControllerEntry)
    → IsValid r
    → find id r.controllers ≡ some e
    → (q.qid == 0 || ltb e.max_qid q.qid) ≡ false
    → has_qid q.qid e.queues ≡ false
    → Installed r id q
        (with_queue e q)
        (record r { controllers = replace (with_queue e q) r.controllers })
installed r id q e v f range fresh =
    let (at, queues) = find-IsKeyed id r.cntlid_min r.cntlid_max r.controllers f v.keyed in
    let queues' = with_queue-IsQueues e q queues range fresh in
    record {
      valid = record {
        positive = v.positive;
        ordered = v.ordered;
        highest = v.highest;
        keyed =
            replace-IsKeyed (with_queue e q) r.cntlid_min r.cntlid_max r.controllers queues'
              v.keyed;
      };
      was = e;
      found = f;
      with_new = refl;
      stored = λ j. find-replace (with_queue e q) j r.controllers ∙ stored_at j at;
      room = length-queues-le (with_queue e q) queues';
    }
  where
    stored_at :
        (j : ℕ)
        → e.cntlid ≡ id
        → (if e.cntlid == j
            then if is_some (find j r.controllers) then some (with_queue e q) else none
            else find j r.controllers)
          ≡ (if id == j then some (with_queue e q) else find j r.controllers)
    stored_at j at = elim (Bool-cases (id == j)) [
      | inl same ↦
          let here : id ≡ j = (==_iff id j).0 same in
          let now : find j r.controllers ≡ some e = rw here at f in
          let hit : (e.cntlid == j) ≡ true = (==_iff e.cntlid j).1 (at ∙ here) in
          rw (hit, same, now)
      | inr other ↦ let miss : (e.cntlid == j) ≡ false = ground arith in rw (miss, other)
    ]

install_in-InstallPost :
    (r : Registry) (id : ℕ) (hostnqn : String) (q : QueueInfo) (e : ControllerEntry)
    → IsValid r
    → find id r.controllers ≡ some e
    → InstallPost r id hostnqn q (install_in r e hostnqn q)
unfolding install_in
install_in-InstallPost r id hostnqn q e v f = elim (Bool-cases (not (str_eq e.hostnqn hostnqn))) [
  | inl other_host ↦ rw other_host (verdict_of r id hostnqn q e f ∙ rw other_host, refl)
  | inr same_host ↦ elim (Bool-cases (q.qid == 0 || ltb e.max_qid q.qid)) [
    | inl bad ↦ rw (same_host, bad) (verdict_of r id hostnqn q e f ∙ rw (same_host, bad), refl)
    | inr range ↦ elim (Bool-cases (has_qid q.qid e.queues)) [
      | inl there ↦
          rw (same_host, range, there)
            (verdict_of r id hostnqn q e f ∙ rw (same_host, range, there), refl)
      | inr fresh ↦
          rw (same_host, range, fresh)
            (
              verdict_of r id hostnqn q e f ∙ rw (same_host, range, fresh),
              installed r id q e v f range fresh,
            )
    ]
  ]
]

-- `install_io_queue` refuses in the order unknown controller, other host, id out of range, id taken,
-- and then changes nothing. Else the queue joins its controller, no other entry changes, and the
-- controller has at most `max_qid + 1` queues.
pub install_io_queue-InstallPost :
    (r : Registry) (id : ℕ) (hostnqn : String) (q : QueueInfo)
    → IsValid r
    → InstallPost r id hostnqn q (install_io_queue r id hostnqn q)
unfolding install_io_queue verdict
install_io_queue-InstallPost r id hostnqn q v = elim (Option-cases (find id r.controllers)) [
  | inl e ↦ rw (e, install_io_queue, InstallPost) (rw (e, verdict), refl)
  | inr (e, f) ↦
      subst (InstallPost r id hostnqn q) (sym (install-found r id hostnqn q e f))
        (install_in-InstallPost r id hostnqn q e v f)
]

-- Removing a controller frees its id, leaves every other entry, and keeps the registry valid.
pub remove_lem :
    (r : Registry) (id j : ℕ)
    → IsValid r
    → IsValid (remove r id).1
      × (find j (remove r id).1.controllers ≡ (if id == j then none else find j r.controllers))
      × ((remove r id).0 ≡ find id r.controllers)
unfolding remove
remove_lem r id j v = (
  record {
    positive = v.positive;
    ordered = v.ordered;
    highest = v.highest;
    keyed = delete-IsKeyed id r.cntlid_min r.cntlid_max r.controllers v.keyed;
  },
  find-delete id j r.cntlid_min r.cntlid_max r.controllers v.keyed,
  refl,
)
