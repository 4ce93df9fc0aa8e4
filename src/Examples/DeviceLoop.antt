-- ===== src/Examples/DeviceLoop.antt =====
-- `dev_loop` of examples/02-hotplug-integration.cpp and examples/03-complete-io.cpp: a device is opened,
-- its driver detached, its interface claimed, and its data read until an error or a stop. The locals are
-- those of DeviceHandle.Owners and Interface; they are destroyed at the end of the scope, from the last
-- one. The destructor of `iface` may throw; that of `maybe_guard` is the one of a `std::expected`, which
-- does not, so that an exception of the guard in it ends the program. What is printed is not modelled.
pub mod Scope
pub mod Calls
pub mod Unplugged
mod Tests
use co_usb.Prelude.{ℕ, ◌⊎◌, inl, inr, Option, none, some, List, [], ◌∷◌, ◌++◌, map, if◌then◌else◌}
use co_usb.Prelude.Int.{ℤ}
use co_usb.Prelude.Words.{add_size}
use co_usb.Errors.{ErrorCode, is_error, no_error}
use co_usb.Wrapper.ErrorProtocol.{as_optional, as_expected}
use co_usb.Wrapper.DeviceHandle.{DeviceHandle, open_device_by_ref}
use co_usb.Wrapper.DeviceHandle.Owners.{Handles, make_handle, move_handle, reset_at}
use co_usb.Wrapper.Interface.{Interface, Owners, move_interface, destroy_interface, claim_interface}
use co_usb.Wrapper.DriverGuard.{destroy_guard, detach_driver}

-- What the loop does with the device.
pub data Call : Type 0 where
  opened : ℕ → Call
  detached : ℕ → ℕ → Call
  claimed : ℕ → ℕ → Call
  received : ℕ → Call
  released : ℕ → ℕ → Call
  attached : ℕ → ℕ → Call
  closed : ℕ → Call

-- How the loop ends: at its end, by an exception, or with the program.
pub data Outcome : Type 0 where
  returned : Outcome
  exception : ErrorCode → Outcome
  terminated : Outcome

-- What libusb's functions return, and what the reads give until a stop is requested.
pub record Surroundings : Type 0 where
  pub open_result : ℤ
  pub open_handle : ℕ
  pub detach_result : ℤ
  pub claim_result : ℤ
  pub release_result : ℤ
  pub attach_result : ℤ
  pub reads : List (ErrorCode × ℕ)

-- The exception `ec`, or none where it is no error.
abbrev pub outcome_of : ErrorCode → Outcome
outcome_of ec = if is_error ec then Outcome.exception ec else Outcome.returned

unfoldable pub read_loop : List (ErrorCode × ℕ) → ℕ → List Call × ℕ
read_loop [] total_bytes = ([], total_bytes)
read_loop ((rec, rn) ∷ reads) total_bytes =
    let (calls, total) = read_loop reads (add_size total_bytes rn) in
    if is_error rec
    then (Call.received rn ∷ [], add_size total_bytes rn)
    else (Call.received rn ∷ calls, total)

abbrev release_call : Interface → Call
release_call x = Call.released x.m_devh x.m_interface_num

abbrev attach_call : Interface → Call
attach_call x = Call.attached x.m_devh x.m_interface_num

-- `devh`, and the optional from which it was moved.
unfoldable pub leave_handle : DeviceHandle → ErrorCode → Outcome × List Call
unfolding make_handle move_handle reset_at
leave_handle devh ec =
    let opened = make_handle devh.m_storage (record { storages = []; closed = []; given = [] }) in
    let gone = reset_at 0 (reset_at 1 (move_handle 0 opened)) in
    (outcome_of ec, map (λ p. Call.closed p) gone.closed)

-- `maybe_guard`, and then the handle; `ec` goes through, if it is an error.
unfoldable pub leave_guard :
    Interface ⊎ ErrorCode → ℤ → DeviceHandle → ErrorCode → Outcome × List Call
unfolding destroy_guard leave_handle
leave_guard (inr _) attach_result devh ec = leave_handle devh ec
leave_guard (inl guard) attach_result devh ec =
    let (gone, error) =
      destroy_guard 0 attach_result (record { owners = guard ∷ []; released = [] }) in
    let calls = map attach_call gone.released in
    let (out, rest) = leave_handle devh ec in
    if is_error error then (Outcome.terminated, calls) else (out, calls ++ rest)

-- `iface`, and the optional from which it was moved.
unfoldable pub leave_interface : Interface → ℤ → ErrorCode × List Call
unfolding move_interface destroy_interface
leave_interface claim release_result =
    let moved = move_interface 0 (record { owners = claim ∷ []; released = [] }) in
    let (gone, thrown) = destroy_interface 1 release_result moved in
    let (empty, _) = destroy_interface 0 release_result gone in
    (thrown, map release_call empty.released)

-- From the claimed interface on. The last number is `total_bytes`.
unfoldable pub use_interface :
    Interface → Interface ⊎ ErrorCode → DeviceHandle → Surroundings → Outcome × (List Call × ℕ)
unfolding leave_interface leave_guard read_loop
use_interface claim guard devh r =
    let (calls, total_bytes) = read_loop r.reads 0 in
    let (thrown, release_calls) = leave_interface claim r.release_result in
    let (out, rest) = leave_guard guard r.attach_result devh thrown in
    (out, (calls ++ (release_calls ++ rest), total_bytes))

-- The call of a function that succeeded.
abbrev pub call_if : Interface ⊎ ErrorCode → Call → List Call
call_if (inl _) call = call ∷ []
call_if (inr _) call = []

-- From the open handle on. An optional is empty where there was an error.
unfoldable pub use_handle : ℕ → DeviceHandle → Surroundings → Outcome × (List Call × ℕ)
unfolding detach_driver as_expected claim_interface as_optional use_interface leave_guard
use_handle iface_num devh r =
    let guard = detach_driver as_expected devh.m_storage iface_num r.detach_result in
    let (maybe_iface, ec) = claim_interface as_optional devh.m_storage iface_num r.claim_result in
    let detach_calls = call_if guard (Call.detached devh.m_storage iface_num) in
    let (out, rest) = leave_guard guard r.attach_result devh no_error in
    if is_error ec then (out, (detach_calls ++ rest, 0)) else elim maybe_iface [
      | none ↦ (out, (detach_calls ++ rest, 0))
      | some claim ↦
          let (end, (calls, total_bytes)) = use_interface claim guard devh r in
          (end, (detach_calls ++ Call.claimed devh.m_storage iface_num ∷ calls, total_bytes))
    ]

unfoldable pub dev_loop : ℕ → Surroundings → Outcome × (List Call × ℕ)
unfolding open_device_by_ref as_optional use_handle
dev_loop iface_num r =
    let (maybe_devh, ec) = open_device_by_ref as_optional r.open_result r.open_handle in
    if is_error ec then (Outcome.returned, ([], 0)) else elim maybe_devh [
      | none ↦ (Outcome.returned, ([], 0))
      | some devh ↦
          let (out, (calls, total_bytes)) = use_handle iface_num devh r in
          (out, (Call.opened devh.m_storage ∷ calls, total_bytes))
    ]
