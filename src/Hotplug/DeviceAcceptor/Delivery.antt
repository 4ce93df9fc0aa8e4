-- ===== src/Hotplug/DeviceAcceptor/Delivery.antt =====
-- Which `accept` gets which device.
use co_usb.Prelude.{ℕ, ◌≡◌, ◌≢◌, refl, ap, Bool, true, false, List, [], ◌∷◌, ◌++◌, ==_iff, arith}
use co_usb.Errors.{no_error, is_error}
use co_usb.Wrapper.DeviceTriplet.{DeviceDescriptor, triplet_from_descriptor}
use co_usb.Hotplug.DeviceAcceptor.{
  DevInfo, Acceptor, HotplugEvent, hotplug_callback, back, pop_back, await_ready, begin_accept,
  await_suspend, await_resume, accept,
}

abbrev pub arrived : ℕ → DeviceDescriptor → Acceptor → Acceptor
arrived dev desc self = hotplug_callback dev desc HotplugEvent.device_arrived self

back-snoc : (infos : List DevInfo) (i : DevInfo) → back (infos ++ i ∷ []) ≡ i.dev_ref
back-snoc [] i = refl
back-snoc (x ∷ []) i = refl
back-snoc (x ∷ y ∷ infos) i = back-snoc (y ∷ infos) i

pop_back-snoc : (infos : List DevInfo) (i : DevInfo) → pop_back (infos ++ i ∷ []) ≡ infos
pop_back-snoc [] i = refl
pop_back-snoc (x ∷ []) i = refl
pop_back-snoc (x ∷ y ∷ infos) i = ap (◌∷◌ x) (pop_back-snoc (y ∷ infos) i)

-- Where coroutines wait and the one that waits longest has no error, a device that arrives is stored in the result of the one that waits
-- longest and its continuation is posted once; the others wait on, in their order and unchanged, and
-- the coroutine resumes with the device.
pub arrived-first :
    (dev : ℕ) (desc : DeviceDescriptor) (self : Acceptor) (r : ℕ) (rest : List ℕ)
    → self.m_resumptions ≡ r ∷ rest
    → is_error (self.waiters r).ec ≡ false
    → (other : ℕ) → other ≢ r
    → let after = arrived dev desc self in
      (after.m_resumptions ≡ rest)
      × (after.posted ≡ self.posted ++ (self.waiters r).cont ∷ [])
      × (await_resume r after ≡ (no_error, dev))
      × (after.waiters other ≡ self.waiters other)
      × (after.m_arrived_devices ≡ self.m_arrived_devices)
unfolding hotplug_callback await_resume
arrived-first dev desc self r rest e clean other n = (
  ground (arith, e),
  ground (arith, e),
  ground (arith, e, clean),
  ground (arith, e, n, ==_iff other r),
  ground (arith, e),
)

-- Where no coroutine waits, a device that arrives is kept, and the next `accept` takes it without
-- suspending and leaves the devices that were stored before it: the last to arrive is accepted first.
pub accept-arrived :
    (dev : ℕ) (desc : DeviceDescriptor) (self : Acceptor) (res h aw_ctx : ℕ) (stop_requested : Bool)
    → self.m_resumptions ≡ []
    → let (after, at_once) = accept res h aw_ctx stop_requested (arrived dev desc self) in
      (at_once ≡ true)
      × (await_resume res after ≡ (no_error, dev))
      × (after.m_arrived_devices ≡ self.m_arrived_devices)
      × (after.m_resumptions ≡ [])
      × (after.posted ≡ self.posted)
unfolding hotplug_callback accept begin_accept await_ready await_suspend await_resume
accept-arrived dev desc self res h aw_ctx stop_requested e =
    let info : DevInfo = record { triplet = triplet_from_descriptor desc; dev_ref = dev } in
    let last = back-snoc self.m_arrived_devices info in
    let others = pop_back-snoc self.m_arrived_devices info in
    (
      ground (arith, e),
      ground (arith, e, last),
      ground (arith, e, others),
      ground (arith, e),
      ground (arith, e),
    )
