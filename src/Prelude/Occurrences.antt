-- ===== src/Prelude/Occurrences.antt =====
-- How often a number occurs in a list whose elements leave and come back.
use Prim.Native.Nat.{ℕ, zero, suc, ◌+◌}
use mathlib.Core.Path.{◌≡◌, refl}
use mathlib.Core.Logic.{◌≢◌, inl, inr}
use mathlib.Core.Option.{some}
use mathlib.Core.Bool.{Bool, true, false}
use mathlib.Core.List.{List, [], ◌∷◌, ◌++◌}
use native.Mathlib.Omega.{arith}
use co_usb.Prelude.Tests.{◌==◌, ==_iff, Bool-cases, if◌then◌else◌}
use co_usb.Prelude.Lists.{get_elem?, erase_at}
use co_usb.Prelude.Slots.{one_if, count}

pub count-append : (p : ℕ) (xs ys : List ℕ) → count p (xs ++ ys) ≡ count p xs + count p ys
unfolding count
count-append p [] ys = omega arith
count-append p (x ∷ xs) ys = ground (arith, count-append p xs ys)

pub count-erase_at :
    (p t : ℕ) (xs : List ℕ) (i : ℕ)
    → get_elem? xs i ≡ some t
    → count p (erase_at xs i) + one_if p t ≡ count p xs
unfolding count
count-erase_at p t [] i h = absurd (cc)
count-erase_at p t (x ∷ xs) zero h = ground (arith, h)
count-erase_at p t (x ∷ xs) (suc i) h = ground (arith, count-erase_at p t xs i h)

pub count-find : (t : ℕ) (xs : List ℕ) → count t xs ≢ 0 → (i : ℕ) × (get_elem? xs i ≡ some t)
unfolding count
count-find t [] n = absurd (n refl)
count-find t (x ∷ xs) n = elim (Bool-cases (x == t)) [
  | inl e ↦ (0, ground (arith, e, ==_iff x t))
  | inr d ↦ let (i, h) = count-find t xs (λ z. n (ground (arith, d, z))) in (suc i, h)
]

-- The same elements, in any order.
abbrev pub SameCounts : List ℕ → List ℕ → Type 0
SameCounts xs ys = (p : ℕ) → count p xs ≡ count p ys

-- What is at a place of one list is at some place of the other, and the rests go on having the same elements.
pub SameCounts-find :
    (xs rest ys : List ℕ) (i t : ℕ)
    → SameCounts (xs ++ rest) ys
    → get_elem? xs i ≡ some t
    → (j : ℕ) × (get_elem? ys j ≡ some t) × SameCounts (erase_at xs i ++ rest) (erase_at ys j)
SameCounts-find xs rest ys i t same h =
    let there : count t ys ≢ 0 =
      λ z. absurd (ground (arith, same t, count-append t xs rest, count-erase_at t t xs i h, z)) in
    let (j, k) = count-find t ys there in
    (
      j,
      k,
      λ p. omega (
        arith,
        same p,
        count-append p xs rest,
        count-append p (erase_at xs i) rest,
        count-erase_at p t xs i h,
        count-erase_at p t ys j k,
      ),
    )

SameCounts-snoc :
    (xs rest ys : List ℕ) (t : ℕ)
    → SameCounts (xs ++ rest) ys
    → SameCounts ((xs ++ t ∷ []) ++ rest) (ys ++ t ∷ [])
unfolding count
SameCounts-snoc xs rest ys t same p = omega (
  arith,
  same p,
  count-append p xs rest,
  count-append p xs (t ∷ []),
  count-append p (xs ++ t ∷ []) rest,
  count-append p ys (t ∷ []),
)

pub rejoin-SameCounts :
    (xs rest ys : List ℕ) (t : ℕ) (accepted : Bool)
    → SameCounts (xs ++ rest) ys
    → SameCounts
        ((if accepted then xs ++ t ∷ [] else xs) ++ rest)
        (if accepted then ys ++ t ∷ [] else ys)
rejoin-SameCounts xs rest ys t true h = SameCounts-snoc xs rest ys t h
rejoin-SameCounts xs rest ys t false h = h
