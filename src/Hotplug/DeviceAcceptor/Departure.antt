-- ===== src/Hotplug/DeviceAcceptor/Departure.antt =====
-- What a device's departure removes.
use co_usb.Prelude.{
  ℕ, ◌≡◌, refl, ap, ◌∙◌, append-nil, append_assoc, Bool, true, false, List, [], ◌∷◌, ◌++◌, All,
  arith,
}
use co_usb.Errors.{no_error}
use co_usb.Wrapper.DeviceTriplet.{
  DeviceTriplet, DeviceDescriptor, wildcard_match, triplet_from_descriptor,
}
use co_usb.Wrapper.DeviceTriplet.Matching.{wildcard_match_lem}
use co_usb.Hotplug.DeviceAcceptor.{
  DevInfo, Acceptor, HotplugEvent, erase_match, hotplug_callback, await_resume, accept,
}
use co_usb.Hotplug.DeviceAcceptor.Delivery.{arrived, accept-arrived}

abbrev pub left : ℕ → DeviceDescriptor → Acceptor → Acceptor
left dev desc self = hotplug_callback dev desc HotplugEvent.device_left self

-- None of the stored devices has this triplet.
abbrev pub Unmatched : DeviceTriplet → List DevInfo → Type 0
Unmatched t infos = All (λ info. wildcard_match info.triplet t ≡ false) infos

erase_match-append :
    (t : DeviceTriplet) (infos rest : List DevInfo)
    → Unmatched t infos
    → erase_match t (infos ++ rest) ≡ infos ++ erase_match t rest
unfolding erase_match
erase_match-append t [] rest u = refl
erase_match-append t (info ∷ infos) rest u =
    ground (arith, u.0, erase_match-append t infos rest u.1)

erase_match-first :
    (dev : ℕ) (t : DeviceTriplet) (rest : List DevInfo)
    → erase_match t (record { triplet = t; dev_ref = dev } ∷ rest) ≡ rest
unfolding erase_match
erase_match-first dev t rest = ground (arith, wildcard_match_lem t t)

-- Where no coroutine waits and no stored device has the triplet of the one that arrives, its
-- departure before an `accept` leaves the acceptor as if it had not arrived.
pub left-arrived :
    (dev : ℕ) (desc : DeviceDescriptor) (self : Acceptor)
    → self.m_resumptions ≡ []
    → Unmatched (triplet_from_descriptor desc) self.m_arrived_devices
    → left dev desc (arrived dev desc self) ≡ self
unfolding hotplug_callback
left-arrived dev desc self e u =
    let t = triplet_from_descriptor desc in
    ground (
      arith,
      e,
      erase_match-append t self.m_arrived_devices (record { triplet = t; dev_ref = dev } ∷ []) u,
      erase_match-first dev t [],
      append-nil self.m_arrived_devices,
    )

left-second :
    (dev gone : ℕ) (desc : DeviceDescriptor) (self : Acceptor)
    → self.m_resumptions ≡ []
    → Unmatched (triplet_from_descriptor desc) self.m_arrived_devices
    → left gone desc (arrived gone desc (arrived dev desc self)) ≡ arrived gone desc self
unfolding hotplug_callback
left-second dev gone desc self e u =
    let t = triplet_from_descriptor desc in
    let first : DevInfo = record { triplet = t; dev_ref = dev } in
    let second : DevInfo = record { triplet = t; dev_ref = gone } in
    ground (
      arith,
      e,
      append_assoc self.m_arrived_devices (first ∷ []) (second ∷ []),
      erase_match-append t self.m_arrived_devices (first ∷ second ∷ []) u,
      erase_match-first dev t (second ∷ []),
    )

-- Where no coroutine waits and no stored device has the triplet, and two devices with one descriptor
-- arrive and the second departs, it is the first that is removed: the next `accept` returns the
-- second at once, which is disconnected.
pub accept-left :
    (dev gone : ℕ) (desc : DeviceDescriptor) (self : Acceptor) (res h aw_ctx : ℕ)
    → self.m_resumptions ≡ []
    → Unmatched (triplet_from_descriptor desc) self.m_arrived_devices
    → let (after, at_once) =
        accept res h aw_ctx false (left gone desc (arrived gone desc (arrived dev desc self))) in
      (at_once ≡ true)
      × (await_resume res after ≡ (no_error, gone))
      × (after.m_arrived_devices ≡ self.m_arrived_devices)
accept-left dev gone desc self res h aw_ctx e u =
    let after : Acceptor → Acceptor × Bool = accept res h aw_ctx false in
    let (at_once, result, stored, _, _) = accept-arrived gone desc self res h aw_ctx false e in
    let same = left-second dev gone desc self e u in
    (
      ap (λ s. (after s).1) same ∙ at_once,
      ap (λ s. await_resume res (after s).0) same ∙ result,
      ap (λ s. (after s).0.m_arrived_devices) same ∙ stored,
    )
