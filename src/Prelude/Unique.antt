-- ===== src/Prelude/Unique.antt =====
-- Lists without repetition, and more on `All`.
use Prim.Native.Nat.{ℕ, zero, suc}
use mathlib.Core.Path.{◌≡◌, refl, sym, subst}
use mathlib.Core.Logic.{◌≢◌}
use mathlib.Core.Bool.{Bool, true, false}
use mathlib.Core.List.{List, [], ◌∷◌, ◌++◌}
use mathlib.Core.Option.{some}
use co_usb.Prelude.Tests.{if◌then◌else◌}
use co_usb.Prelude.Lists.{get_elem?, erase_at, take, All, All-snoc, All-erase_at}

module _ {ℓ κ} {A : Type ℓ} (P : A → Type κ) where
  pub All-get : (xs : List A) (i : ℕ) {x : A} → All P xs → get_elem? xs i ≡ some x → P x
  All-get [] i all e = absurd (cc)
  All-get (y ∷ xs) zero all e = subst P (cc) (all.0)
  All-get (y ∷ xs) (suc i) all e = All-get xs i all.1 e

  pub All-take : (n : ℕ) (xs : List A) → All P xs → All P (take n xs)
  All-take zero xs all = tt
  All-take (suc n) [] all = tt
  All-take (suc n) (x ∷ xs) all = (all.0, All-take n xs all.1)

  pub All-map {μ} : (Q : A → Type μ) (f : (x : A) → P x → Q x) (xs : List A) → All P xs → All Q xs
  All-map Q f [] p = tt
  All-map Q f (x ∷ xs) p = (f x p.0, All-map Q f xs p.1)

  -- Two facts of each element give a third.
  pub All-both {μ ν} :
      (Q : A → Type μ) (R : A → Type ν) (f : (x : A) → P x → Q x → R x) (xs : List A)
      → All P xs
      → All Q xs
      → All R xs
  All-both Q R f [] p q = tt
  All-both Q R f (x ∷ xs) p q = (f x p.0 q.0, All-both Q R f xs p.1 q.1)

module _ {ℓ} {A : Type ℓ} where
  -- Each element stands at some index.
  pub All-among : (xs : List A) → All (λ x. (i : ℕ) × (get_elem? xs i ≡ some x)) xs
  All-among [] = tt
  All-among (x ∷ xs) = (
    (0, refl),
    All-map (λ y. (i : ℕ) × (get_elem? xs i ≡ some y))
        (λ y. (i : ℕ) × (get_elem? (x ∷ xs) i ≡ some y)) (λ y p. (suc p.0, p.1)) xs (All-among xs),
  )

-- No number stands twice.
abbrev pub Distinct : List ℕ → Type 0
Distinct [] = Unit
Distinct (t ∷ ts) = All (λ p. p ≢ t) ts × Distinct ts

pub Distinct-take : (n : ℕ) (ts : List ℕ) → Distinct ts → Distinct (take n ts)
Distinct-take zero ts d = tt
Distinct-take (suc n) [] d = tt
Distinct-take (suc n) (t ∷ ts) d = (All-take (λ r. r ≢ t) n ts d.0, Distinct-take n ts d.1)

-- The rest of a list without repetition, and what it does not hold.
pub Distinct-erase_at :
    (ts : List ℕ) (i : ℕ) {t : ℕ}
    → Distinct ts
    → get_elem? ts i ≡ some t
    → All (λ p. p ≢ t) (erase_at ts i) × Distinct (erase_at ts i)
Distinct-erase_at [] i d e = absurd (cc)
Distinct-erase_at (p ∷ ts) zero {t} d e = (subst (λ q. All (λ r. r ≢ q) ts) (cc) (d.0), d.1)
Distinct-erase_at (p ∷ ts) (suc i) {t} d e =
    let (other, rest) = Distinct-erase_at ts i d.1 e in
    let ne = All-get (λ r. r ≢ p) ts i d.0 e in
    (((λ same. ne (sym same)), other), (All-erase_at (λ r. r ≢ p) ts i d.0, rest))

pub Distinct-snoc :
    (t : ℕ) (ts : List ℕ) → All (λ p. p ≢ t) ts → Distinct ts → Distinct (ts ++ t ∷ [])
Distinct-snoc t [] h d = (tt, tt)
Distinct-snoc t (p ∷ ts) h d =
    (All-snoc (λ r. r ≢ p) ts (λ same. h.0 (sym same)) d.0, Distinct-snoc t ts h.1 d.1)

pub Distinct-rejoin :
    (accepted : Bool) (ts : List ℕ) (t : ℕ)
    → All (λ p. p ≢ t) ts
    → Distinct ts
    → Distinct (if accepted then ts ++ t ∷ [] else ts)
Distinct-rejoin true ts t h d = Distinct-snoc t ts h d
Distinct-rejoin false ts t h d = d
