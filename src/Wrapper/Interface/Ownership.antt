-- ===== src/Wrapper/Interface/Ownership.antt =====
-- The owners of interfaces and the calls of libusb that release them, counted together.
use co_usb.Prelude.{
  ℕ, zero, suc, ◌+◌, ◌≡◌, ◌≢◌, ◌<◌, refl, false, Bool-cases, inl, inr, ◌&&◌, List, [], ◌∷◌, ◌++◌,
  length, ◌==◌, ==_iff, if◌then◌else◌, arith,
}
use co_usb.Prelude.Int.{ℤ}
use co_usb.Wrapper.Interface.{
  Interface, owner, set_owner, Owners, without_handle, release, move_interface, assign_interface,
  destroy_interface,
}

-- How often the interface `num` of `devh` is in a list.
abbrev pub one_of : ℕ → ℕ → Interface → ℕ
one_of devh num x = if (x.m_devh == devh) && (x.m_interface_num == num) then 1 else 0

unfoldable pub times : ℕ → ℕ → List Interface → ℕ
times devh num [] = 0
times devh num (x ∷ xs) = times devh num xs + one_of devh num x

-- Held by an owner, or released.
abbrev pub accounted : ℕ → ℕ → Owners → ℕ
accounted devh num s = times devh num s.owners + times devh num s.released

times-snoc :
    (devh num : ℕ) (x : Interface) (xs : List Interface)
    → times devh num (xs ++ x ∷ []) ≡ times devh num xs + one_of devh num x
unfolding times
times-snoc devh num x [] = refl
times-snoc devh num x (y ∷ xs) = ground (arith, times-snoc devh num x xs)

times-set_owner :
    (devh num : ℕ) (x : Interface) (xs : List Interface) (i : ℕ)
    → i < length xs
    → times devh num (set_owner xs i x) + one_of devh num (owner xs i)
      ≡ times devh num xs + one_of devh num x
unfolding times
times-set_owner devh num x [] i h = absurd (omega arith)
times-set_owner devh num x (y ∷ xs) zero h = ground arith
times-set_owner devh num x (y ∷ xs) (suc i) h =
    ground (arith, times-set_owner devh num x xs i (omega arith))

length-set_owner :
    (xs : List Interface) (i : ℕ) (x : Interface) → length (set_owner xs i x) ≡ length xs
length-set_owner [] i x = refl
length-set_owner (y ∷ xs) zero x = refl
length-set_owner (y ∷ xs) (suc i) x = ground (arith, length-set_owner xs i x)

owner-set_owner :
    (xs : List Interface) (i j : ℕ) (x : Interface)
    → (j == i) ≡ false
    → owner (set_owner xs i x) j ≡ owner xs j
owner-set_owner [] i j x h = refl
owner-set_owner (y ∷ xs) zero zero x h = absurd (ground (arith, h))
owner-set_owner (y ∷ xs) zero (suc j) x h = refl
owner-set_owner (y ∷ xs) (suc i) zero x h = refl
owner-set_owner (y ∷ xs) (suc i) (suc j) x h = owner-set_owner xs i j x (ground (arith, h))

without_handle_none :
    (devh num : ℕ) (x : Interface) → devh ≢ 0 → one_of devh num (without_handle x) ≡ 0
without_handle_none devh num x z = ground (arith, z, ==_iff 0 devh)

release-accounted :
    (devh num self : ℕ) (r : ℤ) (s : Owners)
    → devh ≢ 0
    → self < length s.owners
    → accounted devh num (release self r s).0 ≡ accounted devh num s
unfolding release
release-accounted devh num self r s z h =
    let x = owner s.owners self in
    ground (
      arith,
      times-snoc devh num x s.released,
      times-set_owner devh num (without_handle x) s.owners self h,
      without_handle_none devh num x z,
    )

move_interface-accounted :
    (devh num other : ℕ) (s : Owners)
    → devh ≢ 0
    → other < length s.owners
    → accounted devh num (move_interface other s) ≡ accounted devh num s
unfolding move_interface
move_interface-accounted devh num other s z h =
    let x = owner s.owners other in
    ground (
      arith,
      times-snoc devh num x (set_owner s.owners other (without_handle x)),
      times-set_owner devh num (without_handle x) s.owners other h,
      without_handle_none devh num x z,
    )

owner-set_owner_same :
    (xs : List Interface) (i : ℕ) (x : Interface) → i < length xs → owner (set_owner xs i x) i ≡ x
owner-set_owner_same [] i x h = absurd (omega arith)
owner-set_owner_same (y ∷ xs) zero x h = refl
owner-set_owner_same (y ∷ xs) (suc i) x h = owner-set_owner_same xs i x (omega arith)

-- After `release` the owner is null.
release-null :
    (self : ℕ) (r : ℤ) (s : Owners)
    → self < length s.owners
    → let xs = (release self r s).0.owners in
      ((owner xs self).m_devh ≡ 0) × (length xs ≡ length s.owners)
unfolding release
release-null self r s h =
    let x = without_handle (owner s.owners self) in
    let same = owner-set_owner_same s.owners self x h in
    (
      ground (arith, same, ==_iff (owner s.owners self).m_devh 0),
      ground (arith, length-set_owner s.owners self x),
    )

-- The handle of `other` goes to the null owner `self`.
times-transfer :
    (devh num self other : ℕ) (xs : List Interface)
    → devh ≢ 0
    → (other == self) ≡ false
    → self < length xs
    → other < length xs
    → (owner xs self).m_devh ≡ 0
    → let x = owner xs other in
      times devh num (set_owner (set_owner xs self x) other (without_handle x)) ≡ times devh num xs
times-transfer devh num self other xs z n h k null =
    let x = owner xs other in
    let placed = set_owner xs self x in
    ground (
      arith,
      null,
      ==_iff 0 devh,
      times-set_owner devh num x xs self h,
      times-set_owner devh num (without_handle x) placed other,
      length-set_owner xs self x,
      owner-set_owner xs self other x n,
      without_handle_none devh num x z,
    )

assign_interface-accounted :
    (devh num self other : ℕ) (r : ℤ) (s : Owners)
    → devh ≢ 0
    → self < length s.owners
    → other < length s.owners
    → accounted devh num (assign_interface self other r s).0 ≡ accounted devh num s
unfolding assign_interface
assign_interface-accounted devh num self other r s z h k =
    let after = (release self r s).0 in
    let (null, len) = release-null self r s h in
    let kept = release-accounted devh num self r s z h in
    elim (Bool-cases (self == other)) [
      | inl e ↦ ground (arith, e)
      | inr e ↦
          let n : (other == self) ≡ false =
            ground (arith, e, ==_iff self other, ==_iff other self) in
          let moved =
            times-transfer devh num self other after.owners z n (omega (arith, len))
              (omega (arith, len)) null in
          ground (arith, e, kept, moved)
    ]

release_again :
    (self : ℕ) (r : ℤ) (s : Owners) → (owner s.owners self).m_devh ≡ 0 → (release self r s).0 ≡ s
unfolding release
release_again self r s null = ground (arith, null)

-- For an interface of a handle that is not null, and owners in place: a release, a move, an assignment
-- and a destruction, whatever `libusb_release_interface` returns, each leave the number of owners that
-- hold the interface and of the calls of `libusb_release_interface` for it the same together: none of
-- them drops an owner's interface without that call, and none makes the call without an owner giving
-- the interface up, also where libusb fails and the interface stays claimed. A release of an owner
-- that was released before makes no call and changes nothing.
pub interfaces-accounted :
    (devh num self other : ℕ) (r r' : ℤ) (s : Owners)
    → devh ≢ 0
    → self < length s.owners
    → other < length s.owners
    → let released = (release self r s).0 in
      (accounted devh num released ≡ accounted devh num s)
      × (accounted devh num (move_interface other s) ≡ accounted devh num s)
      × (accounted devh num (assign_interface self other r s).0 ≡ accounted devh num s)
      × (accounted devh num (destroy_interface self r s).0 ≡ accounted devh num s)
      × ((release self r' released).0 ≡ released)
unfolding destroy_interface
interfaces-accounted devh num self other r r' s z h k = (
  release-accounted devh num self r s z h,
  move_interface-accounted devh num other s z k,
  assign_interface-accounted devh num self other r s z h k,
  release-accounted devh num self r s z h,
  release_again self r' (release self r s).0 (release-null self r s h).0,
)
