-- ===== src/Examples/DeviceLoop/Scope.antt =====
-- What the ends of the scopes in `dev_loop` of examples/03-complete-io.cpp do with an open handle.
use co_usb.Prelude.{
  ℕ, ◌≡◌, ◌≢◌, refl, ap, Bool, true, false, Bool-cases, ◌⊎◌, inr, inl, List, [], ◌∷◌, ◌++◌,
  if◌then◌else◌, ◌==◌, ==_iff, arith,
}
use co_usb.Prelude.Int.{ℤ, ◌==ℤ◌}
use co_usb.Libusb
use co_usb.Errors.{ErrorCode, no_error, make_usb_error_code}
use co_usb.Wrapper.DeviceHandle.{reset}
use co_usb.Wrapper.DeviceHandle.Owners.{make_handle, move_handle, reset_at}
use co_usb.Wrapper.Interface.{
  Interface, claim_interface, release, move_interface, destroy_interface,
}
use co_usb.Wrapper.DriverGuard.{destroy_guard, detach_driver}
use co_usb.Wrapper.ErrorProtocol.{as_optional, as_expected}
use co_usb.Examples.DeviceLoop.{
  Call, call_if, Outcome, Surroundings, use_handle, outcome_of, read_loop, use_interface,
  leave_handle, leave_guard, leave_interface,
}

-- The error that a wrapper makes of what libusb returns.
abbrev pub error_of : ℤ → ErrorCode
error_of r = if r ==ℤ Libusb.success then no_error else make_usb_error_code r

pub leave_handle-closed :
    (p : ℕ) (ec : ErrorCode)
    → p ≢ 0
    → leave_handle (record { m_storage = p }) ec ≡ (outcome_of ec, Call.closed p ∷ [])
unfolding leave_handle make_handle move_handle reset_at reset
leave_handle-closed p ec z = elim (Bool-cases (p == 0)) [
  | inl null ↦ absurd (z ((==_iff p 0).0 null))
  | inr some_handle ↦ ground (arith, some_handle)
]

pub leave_interface-released :
    (p num : ℕ) (r : ℤ)
    → p ≢ 0
    → leave_interface (record { m_devh = p; m_interface_num = num }) r
      ≡ (error_of r, Call.released p num ∷ [])
unfolding leave_interface move_interface destroy_interface release
leave_interface-released p num r z = ground (arith, z, ==_iff p 0)

-- How a guard's scope ends where attaching succeeds if `fine`, and `ec` goes through.
abbrev pub guard_end : ℕ → ℕ → ErrorCode → Bool → Outcome × List Call
guard_end p num ec true = (outcome_of ec, Call.attached p num ∷ Call.closed p ∷ [])
guard_end p num ec false = (Outcome.terminated, Call.attached p num ∷ [])

pub leave_guard-attached :
    (p num : ℕ) (r : ℤ) (ec : ErrorCode)
    → p ≢ 0
    → leave_guard
        (inl (record { m_devh = p; m_interface_num = num }))
        r
        (record { m_storage = p })
        ec
      ≡ guard_end p num ec (r ==ℤ Libusb.success)
unfolding leave_guard destroy_guard release
leave_guard-attached p num r ec z =
    ground (arith, z, ==_iff p 0, leave_handle-closed p ec z, Bool-cases (r ==ℤ Libusb.success))

pub leave_guard-none :
    (p : ℕ) (e : ErrorCode) (r : ℤ) (ec : ErrorCode)
    → p ≢ 0
    → leave_guard (inr e) r (record { m_storage = p }) ec ≡ (outcome_of ec, Call.closed p ∷ [])
unfolding leave_guard
leave_guard-none p e r ec z = leave_handle-closed p ec z

-- The interface is released after the reads, and then the guard ends.
abbrev pub interface_calls :
    ℕ → ℕ → Interface ⊎ ErrorCode → Surroundings → Outcome × (List Call × ℕ)
interface_calls p num guard r =
    let (calls, total_bytes) = read_loop r.reads 0 in
    let (out, rest) =
      leave_guard guard r.attach_result (record { m_storage = p }) (error_of r.release_result) in
    (out, (calls ++ Call.released p num ∷ rest, total_bytes))

pub use_interface-calls :
    (p num : ℕ) (guard : Interface ⊎ ErrorCode) (r : Surroundings)
    → p ≢ 0
    → use_interface
        (record { m_devh = p; m_interface_num = num })
        guard
        (record { m_storage = p })
        r
      ≡ interface_calls p num guard r
unfolding use_interface
use_interface-calls p num guard r z =
    ap
      (λ x.
        let (calls, total_bytes) = read_loop r.reads 0 in
        let (out, rest) = leave_guard guard r.attach_result (record { m_storage = p }) x.0 in
        (out, (calls ++ (x.1 ++ rest), total_bytes)))
      (leave_interface-released p num r.release_result z)

-- The guard of the driver, or the error that its detaching gave.
abbrev pub guard_if : ℕ → ℕ → ErrorCode → Bool → Interface ⊎ ErrorCode
guard_if p num error true = inl (record { m_devh = p; m_interface_num = num })
guard_if p num error false = inr error

-- The calls where the detaching succeeds if `d`, and the claim if `c`.
abbrev pub handle_calls : ℕ → ℕ → ErrorCode → Bool → Bool → Surroundings → Outcome × (List Call × ℕ)
handle_calls p num error d true r =
    let guard = guard_if p num error d in
    let (out, (calls, total)) =
      use_interface (record { m_devh = p; m_interface_num = num }) guard (record { m_storage = p })
        r in
    (out, (call_if guard (Call.detached p num) ++ Call.claimed p num ∷ calls, total))
handle_calls p num error d false r =
    let guard = guard_if p num error d in
    let (out, rest) = leave_guard guard r.attach_result (record { m_storage = p }) no_error in
    (out, (call_if guard (Call.detached p num) ++ rest, 0))

pub use_handle-calls :
    (p num : ℕ) (r : Surroundings)
    → use_handle num (record { m_storage = p }) r
      ≡ handle_calls p num
          (make_usb_error_code r.detach_result)
          (r.detach_result ==ℤ Libusb.success)
          (r.claim_result ==ℤ Libusb.success)
          r
unfolding use_handle detach_driver as_expected claim_interface as_optional
use_handle-calls p num r =
    let error = make_usb_error_code r.detach_result in
    elim (Bool-cases (r.claim_result ==ℤ Libusb.success)) [
      | inl c ↦ elim (Bool-cases (r.detach_result ==ℤ Libusb.success)) [
        | inl d ↦ rw (c, d) refl
        | inr d ↦ rw (c, d) refl
      ]
      | inr c ↦ elim (Bool-cases (r.detach_result ==ℤ Libusb.success)) [
        | inl d ↦ rw (c, d, c) refl
        | inr d ↦ rw (c, d, c) refl
      ]
    ]
