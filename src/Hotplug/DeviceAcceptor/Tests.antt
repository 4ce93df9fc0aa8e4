-- ===== src/Hotplug/DeviceAcceptor/Tests.antt =====
-- An acceptor that listens, with two coroutines waiting or none.
use co_usb.Prelude.{ℕ, ◌+◌, ◌≡◌, ◌⊎◌, refl, true, false, ◌||◌, is_empty, [], ◌∷◌, ◌==◌, arith}
use co_usb.Prelude.Int.{pos}
use co_usb.Errors.{no_error, operation_canceled}
use co_usb.Wrapper.DeviceTriplet.{DeviceDescriptor, any_triplet}
use co_usb.Hotplug.DeviceAcceptor.{
  Waiter, fresh_waiter, DevInfo, Acceptor, make_acceptor, shutdown, bind, HotplugEvent,
  hotplug_callback, listen, close, await_resume, accept, begin_accept, await_suspend, stop_fn,
}
use co_usb.Hotplug.DeviceAcceptor.Delivery.{arrived, arrived-first}
use co_usb.Hotplug.DeviceAcceptor.Departure.{left, left-arrived}
use co_usb.Hotplug.DeviceAcceptor.Ending.{stop_fn-waiting, stop_fn-arrived, shutdown_lem}
use co_usb.Hotplug.DeviceAcceptor.Invariant.{Step, Reach, Reach-Exclusive}

abbrev disk : DeviceDescriptor
disk = record { id_vendor = 0x0781; id_product = 0x5567; device_class = 8 }

abbrev blank : ℕ → Waiter
blank _ = fresh_waiter

abbrev start : Acceptor
unfolding make_acceptor
start = make_acceptor blank

abbrev waiting_waiter : ℕ → Waiter
waiting_waiter r = record { aw_ctx = 50; cont = 100 + r; dev_ref = 0; ec = no_error }

abbrev waiting : Acceptor
waiting = record {
  m_resumptions = 1 ∷ 2 ∷ [];
  m_arrived_devices = [];
  m_filter = any_triplet;
  m_handle = 3;
  waiters = waiting_waiter;
  posted = [];
}

abbrev listening : Acceptor
listening = record waiting { m_resumptions = [] }

-- Two calls of `accept`; a device arrives between the two halves of the second.
abbrev first : Acceptor
first = (accept 1 101 50 false (listen (pos 0) 3 [] start).0).0

suspended : first.m_resumptions ≡ 1 ∷ []
unfolding start accept listen make_acceptor co_usb.Hotplug.DeviceAcceptor.enumerate
    co_usb.Hotplug.DeviceAcceptor.begin_accept co_usb.Hotplug.DeviceAcceptor.await_ready
    co_usb.Hotplug.DeviceAcceptor.await_suspend
suspended = refl

abbrev begun : Acceptor
begun = (begin_accept 2 (listen (pos 0) 3 [] start).0).0

abbrev met : Acceptor
met = hotplug_callback 9 disk HotplugEvent.device_arrived begun

Reach-Exclusive_example :
    let a = (await_suspend 2 102 50 false met).0 in
    (is_empty a.m_resumptions || is_empty a.m_arrived_devices) ≡ true
unfolding start
Reach-Exclusive_example = Reach-Exclusive blank (await_suspend 2 102 50 false met).0 (
    Reach.next met _
      (Reach.next begun _
        (Reach.next _ _ (Reach.next _ _ Reach.here (Step.listens (pos 0) 3 [] start))
          (Step.begins 2 _))
        (Step.hotplug 9 disk HotplugEvent.device_arrived begun))
      (Step.suspends 2 102 50 false met))

arrived-first_example :
    ((arrived 9 disk waiting).m_resumptions ≡ 2 ∷ [])
    × ((arrived 9 disk waiting).posted ≡ 101 ∷ [])
    × (await_resume 1 (arrived 9 disk waiting) ≡ (no_error, 9))
    × ((arrived 9 disk waiting).waiters 2 ≡ waiting_waiter 2)
    × ((arrived 9 disk waiting).m_arrived_devices ≡ [])
arrived-first_example = arrived-first 9 disk waiting 1 (2 ∷ []) refl refl 2 (λ e. omega (arith, e))

left-arrived_example : left 9 disk (arrived 9 disk listening) ≡ listening
left-arrived_example = left-arrived 9 disk listening refl tt

stop_fn-waiting_example :
    let stopped = stop_fn 1 waiting in
    let after = arrived 9 disk stopped in
    (stopped.posted ≡ 101 ∷ [])
    × (stopped.m_resumptions ≡ 2 ∷ [])
    × (await_resume 1 after ≡ (operation_canceled, 0))
    × (await_resume 2 after ≡ (no_error, 9))
stop_fn-waiting_example =
    stop_fn-waiting waiting 1 2 [] 9 disk refl ((λ e. omega (arith, e)), (λ e. omega (arith, e)))
      (λ e. omega (arith, e)) refl

stop_fn-arrived_example :
    let after = stop_fn 1 (arrived 9 disk waiting) in
    (after.posted ≡ 101 ∷ 101 ∷ []) × (await_resume 1 after ≡ (operation_canceled, 0))
stop_fn-arrived_example =
    stop_fn-arrived waiting 1 (2 ∷ []) 9 disk refl
      ((λ e. omega (arith, e)), (λ e. omega (arith, e)))

shutdown_lem_example :
    let after = shutdown waiting in
    ((3 == 0) ≡ true) × (after ≡ waiting)
    ⊎ ((3 == 0) ≡ false)
      × (after.posted ≡ 101 ∷ 102 ∷ [])
      × (await_resume 2 after ≡ (operation_canceled, 0))
      × (after.m_resumptions ≡ [])
      × (after.m_arrived_devices ≡ [])
      × (after.m_handle ≡ 0)
shutdown_lem_example = shutdown_lem waiting 2 refl
