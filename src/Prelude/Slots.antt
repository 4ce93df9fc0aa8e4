-- ===== src/Prelude/Slots.antt =====
-- Numbered places that hold an address each, 0 where there is none, and how many hold one.
use Prim.Native.Nat.{ℕ, zero, suc, ◌+◌, ◌<◌}
use mathlib.Core.Path.{◌≡◌, refl}
use mathlib.Core.List.{List, [], ◌∷◌, ◌++◌}
use native.Mathlib.Omega.{arith}
use co_usb.Prelude.Tests.{◌==◌, if◌then◌else◌}
use co_usb.Prelude.Lists.{length}

abbrev pub slot : List ℕ → ℕ → ℕ
slot [] i = 0
slot (x ∷ xs) zero = x
slot (x ∷ xs) (suc i) = slot xs i

abbrev pub set_slot : List ℕ → ℕ → ℕ → List ℕ
set_slot [] i p = []
set_slot (x ∷ xs) zero p = p ∷ xs
set_slot (x ∷ xs) (suc i) p = x ∷ set_slot xs i p

abbrev pub one_if : ℕ → ℕ → ℕ
one_if p x = if x == p then 1 else 0

unfoldable pub count : ℕ → List ℕ → ℕ
count p [] = 0
count p (x ∷ xs) = count p xs + one_if p x

pub count-snoc : (p x : ℕ) (xs : List ℕ) → count p (xs ++ x ∷ []) ≡ count p xs + one_if p x
unfolding count
count-snoc p x [] = refl
count-snoc p x (y ∷ xs) = ground (arith, count-snoc p x xs)

pub count-set_slot :
    (p x : ℕ) (xs : List ℕ) (i : ℕ)
    → i < length xs
    → count p (set_slot xs i x) + one_if p (slot xs i) ≡ count p xs + one_if p x
unfolding count
count-set_slot p x [] i h = absurd (omega arith)
count-set_slot p x (y ∷ xs) zero h = ground arith
count-set_slot p x (y ∷ xs) (suc i) h = ground (arith, count-set_slot p x xs i (omega arith))

pub length-set_slot : (xs : List ℕ) (i x : ℕ) → length (set_slot xs i x) ≡ length xs
length-set_slot [] i x = refl
length-set_slot (y ∷ xs) zero x = refl
length-set_slot (y ∷ xs) (suc i) x = ground (arith, length-set_slot xs i x)

pub slot-set_slot :
    (xs : List ℕ) (i j x : ℕ)
    → i < length xs
    → slot (set_slot xs i x) j ≡ (if j == i then x else slot xs j)
slot-set_slot [] i j x h = absurd (omega arith)
slot-set_slot (y ∷ xs) zero zero x h = refl
slot-set_slot (y ∷ xs) zero (suc j) x h = ground arith
slot-set_slot (y ∷ xs) (suc i) zero x h = ground arith
slot-set_slot (y ∷ xs) (suc i) (suc j) x h = ground (arith, slot-set_slot xs i j x (omega arith))
