-- ===== src/Hotplug/DeviceAcceptor/Lifecycle/Tests.antt =====
-- A call of `accept` that waits for a device.
use co_usb.Prelude.{ℕ, ◌+◌, ◌≡◌, refl, false}
use co_usb.Prelude.Slots.{count}
use co_usb.Wrapper.DeviceTriplet.{DeviceDescriptor}
use co_usb.Hotplug.DeviceAcceptor.{
  Waiter, fresh_waiter, HotplugEvent, hotplug_callback, make_acceptor, begin_accept, await_ready,
  await_suspend,
}
use co_usb.Hotplug.DeviceAcceptor.Lifecycle.{Life, settle}
use co_usb.Hotplug.DeviceAcceptor.Lifecycle.Calls.{begun, suspended, start_life}

abbrev disk : DeviceDescriptor
disk = record { id_vendor = 0x0781; id_product = 0x5567; device_class = 8 }

abbrev blank : ℕ → Waiter
blank _ = fresh_waiter

abbrev own_handle : ℕ → ℕ
own_handle r = r + 100

abbrev started : Life
started = begun 4 (start_life blank)

abbrev asleep : Life
asleep = suspended 4 (own_handle 4) 50 false started

abbrev served : Life
served = settle (hotplug_callback 9 disk HotplugEvent.device_arrived asleep.acceptor) asleep

-- It has been posted once.
posted_once : count 104 served.acceptor.posted ≡ 1
unfolding count begun suspended begin_accept await_ready await_suspend hotplug_callback
    make_acceptor
posted_once = refl
