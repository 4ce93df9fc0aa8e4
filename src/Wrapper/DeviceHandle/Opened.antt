-- ===== src/Wrapper/DeviceHandle/Opened.antt =====
-- What `open_device` of a triplet, of include/co_usb/wrapper/device_handle.hpp, does with the service of
-- its executor, and what it reports.
mod Tests
use co_usb.Prelude.{
  ℕ, ◌≡◌, refl, ap, ◌∙◌, not, true, false, Bool-cases, inl, inr, ◌⊎◌, Option, some, List, [], ◌∷◌,
  ◌==◌, if◌then◌else◌, arith,
}
use co_usb.Prelude.Int.{ℤ, negsuc, ◌==ℤ◌}
use co_usb.Libusb
use co_usb.Errors.{ErrorCode, is_error, no_error, make_usb_error_code}
use co_usb.Ev.Handlers.{HandlerType}
use co_usb.Ev.HandlerService.{Call, Service, make_service, get_handler_service, usb_context}
use co_usb.Ev.HandlerService.Lifetime.{running, get_handler_service-make_service}
use co_usb.Wrapper.ErrorProtocol.{ErrorProtocol, Exceptional}
use co_usb.Wrapper.ErrorProtocol.Reports.{Reports}
use co_usb.Wrapper.DeviceTriplet.{DeviceTriplet}
use co_usb.Wrapper.DeviceHandle.{DeviceHandle, handle_result, open_on, open_device_by_triplet}

-- The handle, or the unknown error where it is null.
abbrev pub handle_or_unknown : ℕ → ErrorCode ⊎ DeviceHandle
handle_or_unknown devh =
    if devh == 0 then inl (make_usb_error_code (negsuc 98)) else inr (record { m_storage = devh })

-- The error that a call throws, or what it returns, read by `reports`.
abbrev pub read_thrown :
    {p : ErrorProtocol} {U : Type 0}
    → Reports p
    → Exceptional (p.return_type U)
    → ErrorCode ⊎ (ErrorCode ⊎ U)
read_thrown reports (Exceptional.system_error ec) = inl ec
read_thrown reports (Exceptional.returned x) = inr (reports.read x)

module _ {p : ErrorProtocol} (reports : Reports p) (open_with_vid_pid : ℕ → ℤ → ℤ → ℕ) where
  -- A call that returns leaves the service `srv`, and is read as `y`.
  abbrev pub Opens :
      Option (Service × Exceptional (p.return_type DeviceHandle))
      → Service
      → ErrorCode ⊎ (ErrorCode ⊎ DeviceHandle)
      → Type 0
  Opens result srv y =
      (x : Exceptional (p.return_type DeviceHandle)) × (result ≡ some (srv, x))
      × (read_thrown reports x ≡ y)

  read-handle_result : (devh : ℕ) → reports.read (handle_result p devh) ≡ handle_or_unknown devh
  unfolding handle_result co_usb.Errors.usb_error_value
  read-handle_result devh = elim (Bool-cases (devh == 0)) [
    | inl e ↦ rw e (reports.read-with_error _)
    | inr e ↦ rw e (reports.read-with_success _)
  ]

  returned-Opens :
      (triplet : DeviceTriplet) (r : ℤ) (ctx stop : ℕ) (srv srv' : Service)
      → get_handler_service r ctx stop srv ≡ some (srv', no_error)
      → Opens
          (open_device_by_triplet open_with_vid_pid p triplet r ctx stop srv)
          srv'
          (inr (handle_or_unknown (open_with_vid_pid (usb_context srv') triplet.vid triplet.pid)))
  unfolding open_device_by_triplet
  returned-Opens triplet r ctx stop srv srv' e =
      let devh = open_with_vid_pid (usb_context srv') triplet.vid triplet.pid in
      (
        Exceptional.returned (handle_result p devh),
        ap (λ g. open_on open_with_vid_pid p triplet g) e,
        ap (λ x. inr x) (read-handle_result devh),
      )

  thrown-Opens :
      (triplet : DeviceTriplet) (r : ℤ) (ctx stop : ℕ) (srv srv' : Service) (ec : ErrorCode)
      → is_error ec ≡ true
      → get_handler_service r ctx stop srv ≡ some (srv', ec)
      → Opens (open_device_by_triplet open_with_vid_pid p triplet r ctx stop srv) srv' (inl ec)
  unfolding open_device_by_triplet
  thrown-Opens triplet r ctx stop srv srv' ec bad e = (
    Exceptional.system_error ec,
    ap (λ g. open_on open_with_vid_pid p triplet g) e
        ∙ ap
            (λ b. some (
              srv',
              if b
                  then Exceptional.system_error ec
                  else Exceptional.returned (
                      handle_result p
                        (open_with_vid_pid (usb_context srv') triplet.vid triplet.pid)),
            ))
            bad,
    refl,
  )

-- By every error protocol whose results can be read, `open_device` of a triplet on the executor of a
-- new service: where `libusb_init` succeeds it starts a reference-counted handler on the new context and
-- reports the handle that libusb opens there for the triplet, or the unknown error where that is null;
-- where it fails its error is thrown, whatever the protocol, and the service is as it was. On a
-- service that runs it leaves the service as it is, and reports in the same way the handle that libusb
-- opens on the context of the service.
pub open_device_by_triplet_lem :
    {p : ErrorProtocol} (reports : Reports p) (open_with_vid_pid : ℕ → ℤ → ℤ → ℕ)
    (triplet : DeviceTriplet) (r : ℤ) (ctx ctx' stop₀ stop counter : ℕ) (type : HandlerType)
    (calls : List Call)
    → let service =
        running HandlerType.refcounted 0 ctx stop₀ (Call.started_thread ctx stop₀ ∷ []) in
      let opened = open_with_vid_pid ctx triplet.vid triplet.pid in
      let opens = open_device_by_triplet open_with_vid_pid p triplet in
      ((r ==ℤ Libusb.success) ≡ true
        → Opens reports open_with_vid_pid
            (opens r ctx stop (make_service stop₀))
            service
            (inr (handle_or_unknown opened)))
      × ((r ==ℤ Libusb.success) ≡ false
          → Opens reports open_with_vid_pid
              (opens r ctx stop (make_service stop₀))
              (make_service stop₀)
              (inl (make_usb_error_code r)))
      × Opens reports open_with_vid_pid
          (opens r ctx' stop (running type counter ctx stop₀ calls))
          (running type counter ctx stop₀ calls)
          (inr (handle_or_unknown opened))
unfolding usb_context
open_device_by_triplet_lem reports open_with_vid_pid triplet r ctx ctx' stop₀ stop counter type
      calls =
    let fresh =
      (get_handler_service-make_service r r ctx ctx' stop₀ stop stop counter type calls).0 in
    let again =
      (get_handler_service-make_service r r ctx ctx' stop₀ stop₀ stop counter type calls).1 in
    (
      λ fine.
          returned-Opens reports open_with_vid_pid triplet r ctx stop _ _ (fresh ∙ rw fine refl),
      λ bad.
          thrown-Opens reports open_with_vid_pid triplet r ctx stop _ _ _ (ap not bad)
            (fresh ∙ rw bad refl),
      returned-Opens reports open_with_vid_pid triplet r ctx' stop _ _ again,
    )
