-- ===== src/Wire.antt =====
-- Little-endian fields, as the `zerocopy` types `U16`, `U32` and `U64` of crates/ioutgt-nvme lay them
-- out in `repr(C)` structures. A byte string is a list of numbers below 256.
use mathlib.Core.List.{append-nil, append_assoc}
use ioutgt.Base.{
  subst, ℕ, zero, suc, ◌+◌, ◌*◌, ◌/◌, ◌%◌, ◌^◌, ◌<◌, ◌≡◌, refl, sym, ap, ◌∙◌, List, [], ◌∷◌, ◌++◌,
  arith, length, take, drop, take-append_exact, length-append, drop-append_exact, All,
}

abbrev pub IsByte : ℕ → Type 0
IsByte b = b < 256

-- The value of a little-endian field, and the field of `k` bytes of a number.
unfoldable pub de : List ℕ → ℕ
de [] = 0
de (b ∷ bytes) = b + 256 * de bytes

unfoldable pub le : ℕ → ℕ → List ℕ
le zero n = []
le (suc k) n = n % 256 ∷ le k (n / 256)

pub length-le : (k n : ℕ) → length (le k n) ≡ k
unfolding le
length-le zero n = refl
length-le (suc k) n = ap suc (length-le k (n / 256))

pub le-IsByte : (k n : ℕ) → All IsByte (le k n)
unfolding le
le-IsByte zero n = tt
le-IsByte (suc k) n = (omega arith, le-IsByte k (n / 256))

pub de-le : (k n : ℕ) → n < 256 ^ k → de (le k n) ≡ n
unfolding de le
de-le zero n h = omega arith
de-le (suc k) n h = omega (arith, de-le k (n / 256) (omega arith))

-- The next field of `k` bytes, and what follows it.
unfoldable pub read : ℕ → List ℕ → ℕ × List ℕ
read k bytes = (de (take k bytes), drop k bytes)

pub read-le : (k n : ℕ) (rest : List ℕ) → n < 256 ^ k → read k (le k n ++ rest) ≡ (n, rest)
unfolding read
read-le k n rest h =
    let taken : take k (le k n ++ rest) ≡ le k n =
      subst (λ x. take x (le k n ++ rest) ≡ le k n) (length-le k n)
        (take-append_exact (le k n) rest) in
    let dropped : drop k (le k n ++ rest) ≡ rest =
      subst (λ x. drop x (le k n ++ rest) ≡ rest) (length-le k n)
        (drop-append_exact (le k n) rest) in
    rw (taken, dropped, de-le k n h)

-- The same for a last field, with nothing behind it.
pub read-le_end : (k n : ℕ) → n < 256 ^ k → read k (le k n) ≡ (n, [])
read-le_end k n h = subst (λ bytes. read k bytes ≡ (n, [])) (append-nil (le k n)) (read-le k n [] h)

-- A `repr(C)` structure: the width and the value of each field, in order.
abbrev pub Fields : Type 0
Fields = List (ℕ × ℕ)

unfoldable pub emit : Fields → List ℕ
emit [] = []
emit ((k, n) ∷ fields) = le k n ++ emit fields

unfoldable pub values : List ℕ → List ℕ → List ℕ × List ℕ
values [] bytes = ([], bytes)
values (k ∷ widths) bytes =
    let (n, behind) = read k bytes in let (ns, end) = values widths behind in (n ∷ ns, end)

abbrev pub widths_of : Fields → List ℕ
widths_of [] = []
widths_of ((k, n) ∷ fields) = k ∷ widths_of fields

abbrev pub values_of : Fields → List ℕ
values_of [] = []
values_of ((k, n) ∷ fields) = n ∷ values_of fields

abbrev pub sum_of : List ℕ → ℕ
sum_of [] = 0
sum_of (n ∷ ns) = n + sum_of ns

-- Every value fits its width.
abbrev pub Fits : Fields → Type 0
Fits [] = Unit {0}
Fits ((k, n) ∷ fields) = (n < 256 ^ k) × Fits fields

pub values-emit :
    (fields : Fields) (rest : List ℕ)
    → Fits fields
    → values (widths_of fields) (emit fields ++ rest) ≡ (values_of fields, rest)
unfolding values emit
values-emit [] rest h = refl
values-emit ((k, n) ∷ fields) rest h = rw (
  append_assoc (le k n) (emit fields) rest,
  read-le k n (emit fields ++ rest) h.0,
  values-emit fields rest h.1,
)

pub length-emit : (fields : Fields) → length (emit fields) ≡ sum_of (widths_of fields)
unfolding emit
length-emit [] = refl
length-emit ((k, n) ∷ fields) =
    omega (arith, length-append (le k n) (emit fields), length-le k n, length-emit fields)

pub emit-append : (xs ys : Fields) → emit (xs ++ ys) ≡ emit xs ++ emit ys
unfolding emit
emit-append [] ys = refl
emit-append ((k, n) ∷ xs) ys =
    ap (◌++◌ (le k n)) (emit-append xs ys) ∙ sym (append_assoc (le k n) (emit xs) (emit ys))

-- The value of the field at a place, of those that were read.
abbrev pub at : List ℕ → ℕ → ℕ
at [] i = 0
at (n ∷ ns) zero = n
at (n ∷ ns) (suc i) = at ns i
