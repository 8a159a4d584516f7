-- ===== src/Subsystem/Uuid.antt =====
-- crates/ioutgt-core/src/subsystem.rs: what `namespace_uuid` tells apart.
use ioutgt.Base.{
  ℕ, zero, suc, ◌+◌, ◌*◌, ◌/◌, ◌%◌, ◌^◌, ◌<◌, ◌≡◌, refl, ap, ◌∙◌, List, [], ◌∷◌, ◌++◌, arith,
  length, drop, length-append, drop-append_ge,
}
use ioutgt.Subsystem.{be, fnv, namespace_uuid}

-- The number that big-endian bytes stand for, behind the number `high`.
unfoldable pub of_be : ℕ → List ℕ → ℕ
of_be high [] = high
of_be high (b ∷ bytes) = of_be (high * 256 + b) bytes

of_be-append :
    (high : ℕ) (xs : List ℕ) (b : ℕ) → of_be high (xs ++ (b ∷ [])) ≡ of_be high xs * 256 + b
unfolding of_be
of_be-append high [] b = refl
of_be-append high (x ∷ xs) b = of_be-append (high * 256 + x) xs b

of_be-be : (k n : ℕ) → n < 256 ^ k → of_be 0 (be k n) ≡ n
unfolding be of_be
of_be-be zero n h = omega arith
of_be-be (suc k) n h =
    of_be-append 0 (be k (n / 256)) (n % 256) ∙ omega (arith, of_be-be k (n / 256) (omega arith))

length-be : (k n : ℕ) → length (be k n) ≡ k
unfolding be
length-be zero n = refl
length-be (suc k) n =
    length-append (be k (n / 256)) (n % 256 ∷ []) ∙ omega (arith, length-be k (n / 256))

-- The last four bytes of the UUID are the id, so the namespaces of a subsystem have distinct UUIDs,
-- whatever the hash of its name is.
pub of_be-namespace_uuid :
    (nqn : List ℕ) (nsid : ℕ) → nsid < 2 ^ 32 → of_be 0 (drop 12 (namespace_uuid nqn nsid)) ≡ nsid
unfolding namespace_uuid
of_be-namespace_uuid nqn nsid h =
    let high = be 8 (fnv 0xcbf29ce484222325 nqn) in
    let behind : drop 12 (high ++ (0x80 ∷ 0 ∷ 0 ∷ 0 ∷ be 4 nsid)) ≡ be 4 nsid =
      drop-append_ge 12 4 high (0x80 ∷ 0 ∷ 0 ∷ 0 ∷ be 4 nsid)
        (omega (arith, length-be 8 (fnv 0xcbf29ce484222325 nqn))) in
    ap (of_be 0) behind ∙ of_be-be 4 nsid (omega arith)
