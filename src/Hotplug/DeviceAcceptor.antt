-- ===== src/Hotplug/DeviceAcceptor.antt =====
-- include/co_usb/hotplug/device_acceptor.hpp. A device is a number, and so is a call of `accept`,
-- which stands for its `res` and its `op_res`. Each piece of code under the mutex is one step; the loop of
-- `shutdown` is one here, and has its rounds as steps in Lifecycle.
pub mod Delivery
pub mod Departure
pub mod Ending
pub mod Invariant
pub mod Lifecycle
mod Tests
use co_usb.Prelude.{ℕ, Bool, true, false, not, ◌&&◌, List, [], ◌∷◌, ◌++◌, ◌==◌, if◌then◌else◌}
use co_usb.Prelude.Int.{ℤ, ◌==ℤ◌}
use co_usb.Libusb
use co_usb.Errors.{
  ErrorCode, no_error, is_error, operation_canceled, operation_in_progress, invalid_argument,
  make_usb_error_code,
}
use co_usb.Wrapper.DeviceTriplet.{
  DeviceTriplet, any_triplet, wildcard_match, DeviceDescriptor, triplet_from_descriptor,
}

-- A call's `resumption_t` and `op_result`; 0 is the null pointer.
pub record Waiter : Type 0 where
  pub aw_ctx : ℕ
  pub cont : ℕ
  pub dev_ref : ℕ
  pub ec : ErrorCode

abbrev pub fresh_waiter : Waiter
fresh_waiter = record { aw_ctx = 0; cont = 0; dev_ref = 0; ec = no_error }

pub record DevInfo : Type 0 where
  pub triplet : DeviceTriplet
  pub dev_ref : ℕ

-- The acceptor, with the `accept` calls' own variables and the continuations posted so far.
pub record Acceptor : Type 0 where
  pub m_resumptions : List ℕ
  pub m_arrived_devices : List DevInfo
  pub m_filter : DeviceTriplet
  pub m_handle : ℕ
  pub waiters : ℕ → Waiter
  pub posted : List ℕ

unfoldable pub make_acceptor : (ℕ → Waiter) → Acceptor
make_acceptor waiters = record {
  m_resumptions = [];
  m_arrived_devices = [];
  m_filter = any_triplet;
  m_handle = 0;
  waiters = waiters;
  posted = [];
}

abbrev pub write : (ℕ → Waiter) → ℕ → Waiter → ℕ → Waiter
write waiters res w r = if r == res then w else waiters r

-- `executor.post(res->cont)`, after a write to the result.
abbrev pub post_with : Acceptor → ℕ → Waiter → Acceptor
post_with self res w = record self {
  waiters = write self.waiters res w;
  posted = self.posted ++ w.cont ∷ [];
}

-- The loop over `m_resumptions` of `shutdown`.
unfoldable pub cancel_all : List ℕ → Acceptor → Acceptor
cancel_all [] self = self
cancel_all (res ∷ rest) self =
    cancel_all rest (post_with self res (record (self.waiters res) { ec = operation_canceled }))

-- `shutdown` in its two parts under the mutex, with the deregistration between them: the exchange of the
-- handle, which tells whether it goes on, and the loop with the calls of `clear`. The loop unlocks the
-- mutex around each post: Lifecycle.Loop has its rounds, and here nothing comes between them.
unfoldable pub begin_shutdown : Acceptor → Acceptor × Bool
begin_shutdown self = (record self { m_handle = 0 }, not (self.m_handle == 0))

unfoldable pub end_shutdown : Acceptor → Acceptor
unfolding cancel_all
end_shutdown self = record (cancel_all self.m_resumptions self) {
  m_resumptions = [];
  m_arrived_devices = [];
}

unfoldable pub shutdown : Acceptor → Acceptor
unfolding begin_shutdown end_shutdown
shutdown self =
    let (taken, goes_on) = begin_shutdown self in if goes_on then end_shutdown taken else taken

-- The two `bind`s; the first sets `ec`.
unfoldable pub bind_with_ec : DeviceTriplet → Acceptor → Acceptor × ErrorCode
bind_with_ec triplet self = (record self { m_filter = triplet }, no_error)

unfoldable pub bind : DeviceTriplet → Acceptor → Acceptor × ErrorCode
bind triplet self =
    if not (self.m_handle == 0)
    then (self, operation_in_progress)
    else (record self { m_filter = triplet }, no_error)

pub data HotplugEvent : Type 0 where
  device_arrived device_left : HotplugEvent

-- `find_if`, and the `erase` where it finds one.
unfoldable pub erase_match : DeviceTriplet → List DevInfo → List DevInfo
erase_match triplet [] = []
erase_match triplet (info ∷ infos) =
    let rest = erase_match triplet infos in
    if wildcard_match info.triplet triplet then infos else info ∷ rest

-- The callback registered with libusb.
unfoldable pub hotplug_callback : ℕ → DeviceDescriptor → HotplugEvent → Acceptor → Acceptor
unfolding erase_match
hotplug_callback dev dev_desc HotplugEvent.device_left self = record self {
  m_arrived_devices = erase_match (triplet_from_descriptor dev_desc) self.m_arrived_devices;
}
hotplug_callback dev dev_desc HotplugEvent.device_arrived self = elim (self.m_resumptions) [
  | [] ↦
      let info : DevInfo = record { triplet = triplet_from_descriptor dev_desc; dev_ref = dev } in
      record self { m_arrived_devices = self.m_arrived_devices ++ info ∷ [] }
  | r ∷ rest ↦ record (post_with self r (record (self.waiters r) { dev_ref = dev })) {
    m_resumptions = rest;
  }
]

-- What libusb reports of a device that is connected when the callback is registered.
pub record Connected : Type 0 where
  pub dev : ℕ
  pub desc : DeviceDescriptor

unfoldable pub enumerate : List Connected → Acceptor → Acceptor
unfolding hotplug_callback
enumerate [] self = self
enumerate (c ∷ cs) self =
    enumerate cs (hotplug_callback c.dev c.desc HotplugEvent.device_arrived self)

-- `r` and `handle` are the results of `libusb_hotplug_register_callback`, which, for
-- LIBUSB_HOTPLUG_ENUMERATE, first calls the callback for each of `connected`.
unfoldable pub listen : ℤ → ℕ → List Connected → Acceptor → Acceptor × ErrorCode
unfolding enumerate
listen r handle connected self =
    if not (self.m_handle == 0)
    then (self, operation_in_progress)
    else let registered = enumerate connected self in
      if not (r ==ℤ Libusb.success)
      then (registered, make_usb_error_code r)
      else (record registered { m_handle = handle }, no_error)

-- The list holds the handles that libusb is asked to deregister.
unfoldable pub close : Acceptor → List ℕ × ErrorCode
close self = if self.m_handle == 0 then ([], invalid_argument) else (self.m_handle ∷ [], no_error)

abbrev pub back : List DevInfo → ℕ
back [] = 0
back (info ∷ []) = info.dev_ref
back (_ ∷ info ∷ infos) = back (info ∷ infos)

abbrev pub pop_back : List DevInfo → List DevInfo
pop_back [] = []
pop_back (info ∷ []) = []
pop_back (info ∷ next ∷ infos) = info ∷ pop_back (next ∷ infos)

abbrev take_arrived : ℕ → Acceptor → Acceptor
take_arrived res self = record self {
  waiters =
      write self.waiters res (record (self.waiters res) { dev_ref = back self.m_arrived_devices });
  m_arrived_devices = pop_back self.m_arrived_devices;
}

unfoldable pub await_ready : ℕ → Acceptor → Acceptor × Bool
await_ready res self = elim (self.m_arrived_devices) [
  | [] ↦ (self, false)
  | _ ∷ _ ↦ (take_arrived res self, true)
]

-- Whether `h` is returned, so that the coroutine goes on at once.
unfoldable pub await_suspend : ℕ → ℕ → ℕ → Bool → Acceptor → Acceptor × Bool
await_suspend res h aw_ctx stop_requested self =
    let canceled = record (self.waiters res) { ec = operation_canceled } in
    if stop_requested
    then (record self { waiters = write self.waiters res canceled }, true)
    else elim (self.m_arrived_devices) [
      | _ ∷ _ ↦ (take_arrived res self, true)
      | [] ↦
          let w = record (self.waiters res) { aw_ctx = aw_ctx; cont = h } in
          (
            record self {
              waiters = write self.waiters res w;
              m_resumptions = self.m_resumptions ++ res ∷ [];
            },
            false,
          )
    ]

-- The error and the device; 0 is `device_ref{}`.
unfoldable pub await_resume : ℕ → Acceptor → ErrorCode × ℕ
await_resume res self =
    let w = self.waiters res in if is_error w.ec then (w.ec, 0) else (no_error, w.dev_ref)

-- The begin of `accept`, up to what `await_ready` answers.
unfoldable pub begin_accept : ℕ → Acceptor → Acceptor × Bool
unfolding await_ready
begin_accept res self =
    await_ready res (record self { waiters = write self.waiters res fresh_waiter })

-- `accept` up to its result or its suspension, where nothing comes in between: `true` where it does
-- not suspend. A stop that was requested before finds no `aw_ctx` in `stop_fn`, and does nothing there.
unfoldable pub accept : ℕ → ℕ → ℕ → Bool → Acceptor → Acceptor × Bool
unfolding begin_accept await_suspend
accept res h aw_ctx stop_requested self =
    let (begun, ready) = begin_accept res self in
    let suspended = await_suspend res h aw_ctx stop_requested begun in
    if ready then (begun, true) else suspended

abbrev pub erase_waiter : ℕ → List ℕ → List ℕ
erase_waiter res [] = []
erase_waiter res (r ∷ rs) = let rest = erase_waiter res rs in if r == res then rs else r ∷ rest

-- The stop callback of `accept`, called while the coroutine runs or waits.
unfoldable pub stop_fn : ℕ → Acceptor → Acceptor
stop_fn res self =
    let w = self.waiters res in
    if not (w.aw_ctx == 0) && not (w.cont == 0)
    then record (post_with self res (record w { ec = operation_canceled })) {
      m_resumptions = erase_waiter res self.m_resumptions;
    }
    else self
