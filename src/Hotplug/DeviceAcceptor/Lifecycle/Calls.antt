-- ===== src/Hotplug/DeviceAcceptor/Lifecycle/Calls.antt =====
-- Orders of the steps of include/co_usb/hotplug/device_acceptor.hpp, with the calls of `accept`.
use co_usb.Prelude.{true, false, [], ◌∷◌, ℕ, ◌+◌, ◌≡◌, ◌≢◌, ◌⊎◌, Bool, List, ◌==◌, if◌then◌else◌}
use co_usb.Prelude.Int.{ℤ}
use co_usb.Wrapper.DeviceTriplet.{DeviceTriplet, DeviceDescriptor}
use co_usb.Hotplug.DeviceAcceptor.{
  Waiter, make_acceptor, begin_shutdown, bind, bind_with_ec, HotplugEvent, hotplug_callback,
  Connected, listen, begin_accept, await_suspend, stop_fn,
}
use co_usb.Hotplug.DeviceAcceptor.Lifecycle.{idle, running, waiting, given, Life, set_phase, settle}
use co_usb.Hotplug.DeviceAcceptor.Lifecycle.Loop.{cancel_next, clear_devices}

-- The begin of a call, and its suspension, which may not come about.
unfoldable pub begun : ℕ → Life → Life
unfolding begin_accept
begun res s =
    let (a, ready) = begin_accept res s.acceptor in
    record s { acceptor = a; phase = set_phase res (if ready then idle else running) s.phase }

unfoldable pub suspended : ℕ → ℕ → ℕ → Bool → Life → Life
unfolding await_suspend
suspended res h aw_ctx stop_requested s =
    let (a, on) = await_suspend res h aw_ctx stop_requested s.acceptor in
    record s {
      acceptor = a;
      phase = set_phase res (if on then idle else waiting) s.phase;
      suspensions =
          λ r. if r == res then s.suspensions r + (if on then 0 else 1) else s.suspensions r;
    }

module _ (handle : ℕ → ℕ) where
  -- The steps of an acceptor and of the calls of `accept` on it. The stop callback of a call comes while
  -- the call runs or waits. The loop of `shutdown` may come without the exchange of the handle before
  -- it. While the loop runs it unlocks the mutex around each post; what takes or changes an element of
  -- `m_resumptions` there, over which the loop iterates, is no step.
  pub data Step (s : Life) : Life → Type 0 where
    arrives :
        (dev : ℕ) (desc : DeviceDescriptor)
        → s.looping ≡ false
        → Step s (settle (hotplug_callback dev desc HotplugEvent.device_arrived s.acceptor) s)
    leaves :
        (dev : ℕ) (desc : DeviceDescriptor)
        → Step s (settle (hotplug_callback dev desc HotplugEvent.device_left s.acceptor) s)
    listens :
        (r : ℤ) (registered : ℕ) (connected : List Connected)
        → s.looping ≡ false
        → Step s (settle (listen r registered connected s.acceptor).0 s)
    binds : (triplet : DeviceTriplet) → Step s (settle (bind triplet s.acceptor).0 s)
    binds_with_ec :
        (triplet : DeviceTriplet) → Step s (settle (bind_with_ec triplet s.acceptor).0 s)
    begins : (res : ℕ) → s.phase res ≡ idle → Step s (begun res s)
    suspends :
        (res aw_ctx : ℕ) (stop_requested : Bool)
        → s.looping ≡ false
        → s.phase res ≡ running
        → aw_ctx ≢ 0
        → Step s (suspended res (handle res) aw_ctx stop_requested s)
    resumes :
        (res : ℕ) → s.phase res ≡ given → Step s (record s { phase = set_phase res idle s.phase })
    stops :
        (res : ℕ)
        → s.looping ≡ false
        → (s.phase res ≡ running) ⊎ (s.phase res ≡ waiting)
        → Step s (settle (stop_fn res s.acceptor) s)
    begins_shutdown : Step s (settle (begin_shutdown s.acceptor).0 s)
    loops : s.looping ≡ false → Step s (record s { looping = true })
    cancels :
        (r : ℕ) (rest : List ℕ)
        → s.looping ≡ true
        → s.acceptor.m_resumptions ≡ r ∷ rest
        → Step s (settle (cancel_next r rest s.acceptor) s)
    ends_loop :
        s.looping ≡ true
        → s.acceptor.m_resumptions ≡ []
        → Step s (settle (clear_devices s.acceptor) (record s { looping = false }))

  pub data Reach (start : Life) : Life → Type 0 where
    here : Reach start start
    next : {s u : Life} → Reach start s → Step s u → Reach start u

-- An acceptor before any call.
abbrev pub start_life : (ℕ → Waiter) → Life
start_life waiters = record {
  acceptor = make_acceptor waiters;
  looping = false;
  phase = λ _. idle;
  suspensions = λ _. 0;
}
