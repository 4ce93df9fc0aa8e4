-- ===== src/Transfer/Endpoint/Laws.antt =====
-- The addresses of the endpoints that include/co_usb/transfer/endpoint.hpp makes.
use Prim.Native.Nat.{bit_and, bit_or}
use co_usb.Prelude.{
  ℕ, zero, suc, ◌+◌, ◌%◌, ◌≤◌, ◌<◌, ◌≡◌, ◌↔◌, refl, ap, ◌∙◌, Bool, true, false, not, ◌&&◌, some,
  ◌==◌, if◌then◌else◌, ==_iff, arith,
}
use co_usb.Libusb.{endpoint_in}
use co_usb.Transfer.Endpoint.{
  Direction, out, inward, any, Endpoint, IsConcrete, has_in_bit, not_byte, make_safe, make_throwing,
  returned, as_direction, ep_any,
}

-- A test that passes at every number under a bound, by evaluation.
passes : (ℕ → Bool) → ℕ → Bool
passes test zero = true
passes test (suc k) = passes test k && test k

passes-lt : (test : ℕ → Bool) (k : ℕ) {x : ℕ} → x < k → passes test k ≡ true → test x ≡ true
unfolding passes
passes-lt test zero lt all = absurd (omega arith)
passes-lt test (suc k) {x} lt all = ground (arith, passes-lt test k {x = x})

-- The value of the direction bit that a direction asks for.
abbrev pub wants_in : Direction → Bool
wants_in inward = true
wants_in _ = false

abbrev cleared : ℕ → ℕ
cleared ep = bit_and ep (not_byte endpoint_in)

abbrev raised : ℕ → ℕ
raised ep = bit_or ep endpoint_in

-- What the two masks do to a byte.
clear_table : passes (λ ep. cleared ep == ep % 128) 256 ≡ true
unfolding passes
clear_table = refl

raise_table : passes (λ ep. raised ep == ep % 128 + 128) 256 ≡ true
unfolding passes
raise_table = refl

bit_table : passes (λ ep. if ep == ep % 128 then not (has_in_bit ep) else has_in_bit ep) 256 ≡ true
unfolding passes
bit_table = refl

cleared_byte : (ep : ℕ) → ep < 256 → cleared ep ≡ ep % 128
cleared_byte ep h = (==_iff _ _).0 (passes-lt _ 256 h clear_table)

raised_byte : (ep : ℕ) → ep < 256 → raised ep ≡ ep % 128 + 128
raised_byte ep h = (==_iff _ _).0 (passes-lt _ 256 h raise_table)

has_in_bit-lt : (ep : ℕ) → ep < 128 → has_in_bit ep ≡ false
has_in_bit-lt ep h = ground (arith, passes-lt _ 256 {x = ep} (omega arith) bit_table)

has_in_bit-le : (ep : ℕ) → 128 ≤ ep → ep < 256 → has_in_bit ep ≡ true
has_in_bit-le ep h k = ground (arith, passes-lt _ 256 {x = ep} (omega arith) bit_table)

-- `make_safe` keeps the endpoint's number, the low seven bits, sets the direction bit to the
-- direction asked for, keeps the device handle, and repeated on its own address changes nothing.
pub make_safe_lem :
    (d : Direction) (c : IsConcrete d) (ep devh : ℕ)
    → ep < 256
    → ((make_safe d c ep devh).addr % 128 ≡ ep % 128)
      × (has_in_bit (make_safe d c ep devh).addr ≡ wants_in d)
      × ((make_safe d c ep devh).addr < 256)
      × ((make_safe d c ep devh).devh ≡ devh)
      × (make_safe d c (make_safe d c ep devh).addr devh ≡ make_safe d c ep devh)
unfolding make_safe
make_safe_lem out c ep devh h = rw (cleared_byte ep h) (
  omega arith,
  has_in_bit-lt _ (omega arith),
  omega arith,
  refl,
  ap (λ a. record { devh = devh; addr = a }) (cleared_byte (ep % 128) (omega arith) ∙ omega arith),
)
make_safe_lem inward c ep devh h = rw (raised_byte ep h) (
  omega arith,
  has_in_bit-le _ (omega arith) (omega arith),
  omega arith,
  refl,
  ap (λ a. record { devh = devh; addr = a })
      (raised_byte (ep % 128 + 128) (omega arith) ∙ omega arith),
)
make_safe_lem any c ep devh h = elim c [ ]

-- `make_throwing` returns exactly where `make_safe` would leave the address alone, and then they
-- make the same endpoint.
pub make_throwing_iff :
    (d : Direction) (c : IsConcrete d) (ep devh : ℕ)
    → ep < 256
    → ((make_safe d c ep devh).addr ≡ ep)
      ↔ (make_throwing d c ep devh ≡ returned (make_safe d c ep devh))
unfolding make_safe make_throwing
make_throwing_iff out c ep devh h =
    ground (arith, cleared_byte ep h, has_in_bit-lt ep, has_in_bit-le ep)
make_throwing_iff inward c ep devh h =
    ground (arith, raised_byte ep h, has_in_bit-lt ep, has_in_bit-le ep)
make_throwing_iff any c ep devh h = elim c [ ]

-- A cast of an `any` endpoint succeeds exactly where `make_throwing` returns, with its endpoint.
pub as-make_throwing :
    (d : Direction) (c : IsConcrete d) (ep devh : ℕ) (e : Endpoint d)
    → (as_direction d c (ep_any ep devh) ≡ some e) ↔ (make_throwing d c ep devh ≡ returned e)
unfolding as_direction make_throwing ep_any
as-make_throwing out c ep devh e = ground arith
as-make_throwing inward c ep devh e = ground arith
as-make_throwing any c ep devh e = elim c [ ]
