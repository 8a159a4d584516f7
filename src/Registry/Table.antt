-- ===== src/Registry/Table.antt =====
-- crates/ioutgt-core/src/registry.rs: the controller map, and what a valid registry is.
use ioutgt.Base.{
  subst, ℕ, zero, suc, ◌+◌, ◌≤◌, ◌<◌, ◌≡◌, refl, sym, ◌∙◌, true, false, List, [], ◌∷◌, ◌++◌, none,
  some, arith, ltb, ◌==◌, ==_iff, if◌then◌else◌, length, All, Bool-cases, inl, inr,
}
use ioutgt.Registry.{
  ControllerEntry, QueueInfo, Registry, highest_cntlid, find, replace, delete, has_qid, is_some,
}

-- How often a queue id stands in a list of queues.
unfoldable pub qid_count : ℕ → List QueueInfo → ℕ
qid_count qid [] = 0
qid_count qid (q ∷ queues) = (if q.qid == qid then 1 else 0) + qid_count qid queues

-- The queues of a controller: the admin queue, and IO queues of distinct ids up to the granted one.
pub record IsQueues (e : ControllerEntry) : Type 0 where
  pub admin : has_qid 0 e.queues ≡ true
  pub bounded : All (λ q. q.qid ≤ e.max_qid) e.queues
  pub distinct : (qid : ℕ) → qid_count qid e.queues ≤ 1

-- Ids within the slice, each of one entry.
abbrev pub IsKeyed : ℕ → ℕ → List ControllerEntry → Type 0
IsKeyed lo hi [] = Unit {0}
IsKeyed lo hi (e ∷ entries) =
    (lo ≤ e.cntlid)
    × (e.cntlid ≤ hi)
    × (find e.cntlid entries ≡ none)
    × IsQueues e
    × IsKeyed lo hi entries

pub record IsValid (r : Registry) : Type 0 where
  pub positive : 1 ≤ r.cntlid_min
  pub ordered : r.cntlid_min ≤ r.cntlid_max
  pub highest : r.cntlid_max ≤ highest_cntlid
  pub keyed : IsKeyed r.cntlid_min r.cntlid_max r.controllers

-- The map laws.
pub find-delete :
    (id j lo hi : ℕ) (entries : List ControllerEntry)
    → IsKeyed lo hi entries
    → find j (delete id entries) ≡ (if id == j then none else find j entries)
unfolding find delete
find-delete id j lo hi [] k = ground arith
find-delete id j lo hi (e ∷ entries) k = ground (arith, find-delete id j lo hi entries k.4)

pub find-replace :
    (x : ControllerEntry) (j : ℕ) (entries : List ControllerEntry)
    → find j (replace x entries) ≡ (
        if x.cntlid == j then if is_some (find j entries) then some x else none else find j entries)
unfolding find replace
find-replace x j [] = ground arith
find-replace x j (e ∷ entries) = ground (arith, find-replace x j entries)

pub delete-IsKeyed :
    (id lo hi : ℕ) (entries : List ControllerEntry)
    → IsKeyed lo hi entries
    → IsKeyed lo hi (delete id entries)
unfolding delete
delete-IsKeyed id lo hi [] k = tt
delete-IsKeyed id lo hi (e ∷ entries) k =
    ground (arith, delete-IsKeyed id lo hi entries k.4, find-delete id e.cntlid lo hi entries k.4)

pub replace-IsKeyed :
    (x : ControllerEntry) (lo hi : ℕ) (entries : List ControllerEntry)
    → IsQueues x
    → IsKeyed lo hi entries
    → IsKeyed lo hi (replace x entries)
unfolding replace
replace-IsKeyed x lo hi [] q k = tt
replace-IsKeyed x lo hi (e ∷ entries) q k = elim (Bool-cases (e.cntlid == x.cntlid)) [
  | inl same ↦
      let here : e.cntlid ≡ x.cntlid = (==_iff _ _).0 same in
      rw same (omega arith, omega arith, rw here at k.2, q, k.4)
  | inr other ↦ rw other (
    k.0,
    k.1,
    find-replace x e.cntlid entries ∙ ground (arith, k.2),
    k.3,
    replace-IsKeyed x lo hi entries q k.4,
  )
]

-- The queues found under an id are in order, and the entry has that id.
pub find-IsKeyed :
    (id lo hi : ℕ) (entries : List ControllerEntry) {e : ControllerEntry}
    → find id entries ≡ some e
    → IsKeyed lo hi entries
    → (e.cntlid ≡ id) × IsQueues e
unfolding find
find-IsKeyed id lo hi [] {e} f k = absurd (cc)
find-IsKeyed id lo hi (x ∷ entries) {e} f k = elim (Bool-cases (x.cntlid == id)) [
  | inl same ↦
      let found : x ≡ e = cc (rw same at f) in
      (rw (← found) ((==_iff _ _).0 same), subst IsQueues found k.3)
  | inr other ↦ find-IsKeyed id lo hi entries (rw other at f) k.4
]

pub qid_count-append :
    (qid : ℕ) (xs ys : List QueueInfo)
    → qid_count qid (xs ++ ys) ≡ qid_count qid xs + qid_count qid ys
unfolding qid_count
qid_count-append qid [] ys = omega arith
qid_count-append qid (q ∷ xs) ys = omega (arith, qid_count-append qid xs ys)

pub has_qid-count : (qid : ℕ) (xs : List QueueInfo) → has_qid qid xs ≡ false → qid_count qid xs ≡ 0
unfolding has_qid qid_count
has_qid-count qid [] h = refl
has_qid-count qid (q ∷ xs) h = ground (arith, has_qid-count qid xs)

-- The queues with ids below a bound, counted id by id.
spread : ℕ → List QueueInfo → ℕ
spread zero xs = 0
spread (suc n) xs = qid_count n xs + spread n xs

spread-nil : (n : ℕ) → spread n [] ≡ 0
unfolding spread qid_count
spread-nil zero = refl
spread-nil (suc n) = omega (arith, spread-nil n)

spread-cons :
    (n : ℕ) (q : QueueInfo) (xs : List QueueInfo)
    → spread n (q ∷ xs) ≡ (if ltb q.qid n then 1 else 0) + spread n xs
unfolding spread qid_count
spread-cons zero q xs = ground arith
spread-cons (suc n) q xs = ground (arith, spread-cons n q xs)

length-spread : (n : ℕ) (xs : List QueueInfo) → All (λ q. q.qid < n) xs → length xs ≡ spread n xs
length-spread n [] b = sym (spread-nil n)
length-spread n (q ∷ xs) b = ground (arith, length-spread n xs b.1, spread-cons n q xs)

spread-le : (n : ℕ) (xs : List QueueInfo) → ((qid : ℕ) → qid_count qid xs ≤ 1) → spread n xs ≤ n
unfolding spread
spread-le zero xs d = omega arith
spread-le (suc n) xs d = omega (arith, d n, spread-le n xs d)

All-lt : (n : ℕ) (xs : List QueueInfo) → All (λ q. q.qid ≤ n) xs → All (λ q. q.qid < suc n) xs
All-lt n [] b = tt
All-lt n (q ∷ xs) b = (omega arith, All-lt n xs b.1)

-- A controller has at most its granted IO queues beside the admin queue.
pub length-queues-le : (e : ControllerEntry) → IsQueues e → length e.queues ≤ e.max_qid + 1
length-queues-le e v = omega (
  arith,
  length-spread (suc e.max_qid) e.queues (All-lt e.max_qid e.queues v.bounded),
  spread-le (suc e.max_qid) e.queues v.distinct,
)
