-- ===== src/Hotplug/DeviceAcceptor/Invariant.antt =====
-- What holds in every state of a device acceptor, whatever the order of its steps.
use co_usb.Prelude.{ℕ, ◌≡◌, refl, Bool, true, is_empty, ◌||◌, List, [], ◌∷◌, arith}
use co_usb.Prelude.Int.{ℤ}
use co_usb.Wrapper.DeviceTriplet.{DeviceTriplet, DeviceDescriptor}
use co_usb.Hotplug.DeviceAcceptor.{
  Waiter, Acceptor, make_acceptor, begin_shutdown, end_shutdown, bind, bind_with_ec, HotplugEvent,
  erase_match, hotplug_callback, Connected, enumerate, listen, begin_accept, await_ready,
  await_suspend, stop_fn,
}

-- The steps of an acceptor: libusb's callback, and the calls of the program. The second part of `shutdown`
-- may come without the first, and is one step.
pub data Step : Acceptor → Acceptor → Type 0 where
  hotplug :
      (dev : ℕ) (desc : DeviceDescriptor) (ev : HotplugEvent) (a : Acceptor)
      → Step a (hotplug_callback dev desc ev a)
  listens :
      (r : ℤ) (handle : ℕ) (connected : List Connected) (a : Acceptor)
      → Step a (listen r handle connected a).0
  binds : (triplet : DeviceTriplet) (a : Acceptor) → Step a (bind triplet a).0
  binds_with_ec : (triplet : DeviceTriplet) (a : Acceptor) → Step a (bind_with_ec triplet a).0
  begins : (res : ℕ) (a : Acceptor) → Step a (begin_accept res a).0
  suspends :
      (res h aw_ctx : ℕ) (stop_requested : Bool) (a : Acceptor)
      → Step a (await_suspend res h aw_ctx stop_requested a).0
  stops : (res : ℕ) (a : Acceptor) → Step a (stop_fn res a)
  begins_shutdown : (a : Acceptor) → Step a (begin_shutdown a).0
  ends_shutdown : (a : Acceptor) → Step a (end_shutdown a)

-- The states of an acceptor that starts with `start`.
pub data Reach (start : Acceptor) : Acceptor → Type 0 where
  here : Reach start start
  next : (a b : Acceptor) → Reach start a → Step a b → Reach start b

-- No coroutine waits while a device is stored.
abbrev pub Exclusive : Acceptor → Type 0
Exclusive a = (is_empty a.m_resumptions || is_empty a.m_arrived_devices) ≡ true

hotplug_callback-Exclusive :
    (dev : ℕ) (desc : DeviceDescriptor) (ev : HotplugEvent) (a : Acceptor)
    → Exclusive a
    → Exclusive (hotplug_callback dev desc ev a)
unfolding hotplug_callback erase_match
hotplug_callback-Exclusive dev desc HotplugEvent.device_left a h = ground arith
hotplug_callback-Exclusive dev desc HotplugEvent.device_arrived a h = ground arith

enumerate-Exclusive :
    (connected : List Connected) (a : Acceptor) → Exclusive a → Exclusive (enumerate connected a)
unfolding enumerate
enumerate-Exclusive [] a h = h
enumerate-Exclusive (c ∷ cs) a h =
    enumerate-Exclusive cs _
      (hotplug_callback-Exclusive c.dev c.desc HotplugEvent.device_arrived a h)

listen-Exclusive :
    (r : ℤ) (handle : ℕ) (connected : List Connected) (a : Acceptor)
    → Exclusive a
    → Exclusive (listen r handle connected a).0
unfolding listen
listen-Exclusive r handle connected a h = ground (arith, enumerate-Exclusive connected a h)

begin_accept-Exclusive : (res : ℕ) (a : Acceptor) → Exclusive a → Exclusive (begin_accept res a).0
unfolding begin_accept await_ready
begin_accept-Exclusive res a e = ground arith

await_suspend-Exclusive :
    (res h aw_ctx : ℕ) (stop_requested : Bool) (a : Acceptor)
    → Exclusive a
    → Exclusive (await_suspend res h aw_ctx stop_requested a).0
unfolding await_suspend
await_suspend-Exclusive res h aw_ctx stop_requested a e = ground arith

stop_fn-Exclusive : (res : ℕ) (a : Acceptor) → Exclusive a → Exclusive (stop_fn res a)
unfolding stop_fn
stop_fn-Exclusive res a h = ground arith

end_shutdown-Exclusive : (a : Acceptor) → Exclusive a → Exclusive (end_shutdown a)
unfolding end_shutdown
end_shutdown-Exclusive a h = ground arith

Step-Exclusive : {a b : Acceptor} → Step a b → Exclusive a → Exclusive b
unfolding bind bind_with_ec begin_shutdown
Step-Exclusive (hotplug dev desc ev a) h = hotplug_callback-Exclusive dev desc ev a h
Step-Exclusive (listens r handle connected a) h = listen-Exclusive r handle connected a h
Step-Exclusive (binds triplet a) h = ground arith
Step-Exclusive (binds_with_ec triplet a) h = ground arith
Step-Exclusive (begins res a) h = begin_accept-Exclusive res a h
Step-Exclusive (suspends res c aw_ctx stop a) h = await_suspend-Exclusive res c aw_ctx stop a h
Step-Exclusive (stops res a) h = stop_fn-Exclusive res a h
Step-Exclusive (begins_shutdown a) h = h
Step-Exclusive (ends_shutdown a) h = end_shutdown-Exclusive a h

-- In every state that an acceptor reaches from its construction, by hotplug events, calls of
-- `listen` and `bind`, the two parts of `shutdown`, the two halves of `accept` and cancellations in any
-- order, no coroutine waits in `m_resumptions` while a device is stored in `m_arrived_devices`.
pub Reach-Exclusive :
    (waiters : ℕ → Waiter) (a : Acceptor) → Reach (make_acceptor waiters) a → Exclusive a
unfolding make_acceptor
Reach-Exclusive waiters _ here = refl
Reach-Exclusive waiters b (next a _ reach step) =
    Step-Exclusive step (Reach-Exclusive waiters a reach)
