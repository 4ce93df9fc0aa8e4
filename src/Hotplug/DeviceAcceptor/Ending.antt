-- ===== src/Hotplug/DeviceAcceptor/Ending.antt =====
-- How the waiting of an `accept` ends without a device: cancellation and `shutdown`.
use co_usb.Prelude.{
  ℕ, ◌≡◌, ◌≢◌, refl, sym, ap, ◌⊎◌, Bool, ◌∙◌, true, false, Bool-cases, inl, inr, List, [], ◌∷◌,
  ◌++◌, map, append_assoc, append-nil, ◌==◌, ==_iff, if◌then◌else◌, arith,
}
use co_usb.Errors.{ErrorCode, no_error, is_error, operation_canceled}
use co_usb.Wrapper.DeviceTriplet.{DeviceDescriptor}
use co_usb.Hotplug.DeviceAcceptor.{
  Waiter, Acceptor, write, post_with, cancel_all, shutdown, hotplug_callback, await_resume, stop_fn,
}
use co_usb.Hotplug.DeviceAcceptor.Delivery.{arrived}

-- Both pointers that `stop_fn` tests are set, as `await_suspend` sets them.
abbrev pub Armed : Waiter → Type 0
Armed w = (w.aw_ctx ≢ 0) × (w.cont ≢ 0)

-- A cancellation of the coroutine that waits longest, whose pointers are set, posts it once, with
-- `operation_canceled`, and takes it out of the queue, so that the next device to arrive goes to the
-- coroutine behind it, where that one has no error.
pub stop_fn-waiting :
    (self : Acceptor) (res behind : ℕ) (rest : List ℕ) (dev : ℕ) (desc : DeviceDescriptor)
    → self.m_resumptions ≡ res ∷ behind ∷ rest
    → Armed (self.waiters res)
    → behind ≢ res
    → is_error (self.waiters behind).ec ≡ false
    → let stopped = stop_fn res self in
      let after = arrived dev desc stopped in
      (stopped.posted ≡ self.posted ++ (self.waiters res).cont ∷ [])
      × (stopped.m_resumptions ≡ behind ∷ rest)
      × (await_resume res after ≡ (operation_canceled, 0))
      × (await_resume behind after ≡ (no_error, dev))
unfolding stop_fn await_resume hotplug_callback
stop_fn-waiting self res behind rest dev desc e armed n clean =
    let a = ==_iff (self.waiters res).aw_ctx 0 in
    let c = ==_iff (self.waiters res).cont 0 in
    let b = ==_iff behind res in
    (
      ground (arith, e, armed.0, armed.1, a, c),
      ground (arith, e, armed.0, armed.1, a, c),
      ground (arith, e, armed.0, armed.1, a, c, n, b),
      ground (arith, e, armed.0, armed.1, a, c, n, b, clean),
    )

-- A cancellation that comes after the device has been given to the coroutine that waits longest, whose
-- pointers are set, and before the
-- posted continuation runs, posts the same continuation a second time, and the coroutine's result is
-- `operation_canceled` without the device.
pub stop_fn-arrived :
    (self : Acceptor) (res : ℕ) (rest : List ℕ) (dev : ℕ) (desc : DeviceDescriptor)
    → self.m_resumptions ≡ res ∷ rest
    → Armed (self.waiters res)
    → let after = stop_fn res (arrived dev desc self) in
      let c = (self.waiters res).cont in
      (after.posted ≡ (self.posted ++ c ∷ []) ++ c ∷ [])
      × (await_resume res after ≡ (operation_canceled, 0))
unfolding stop_fn await_resume hotplug_callback
stop_fn-arrived self res rest dev desc e armed =
    let a = ==_iff (self.waiters res).aw_ctx 0 in
    let c = ==_iff (self.waiters res).cont 0 in
    (ground (arith, e, armed.0, armed.1, a, c), ground (arith, e, armed.0, armed.1, a, c))

-- Whether a call of `accept` is in a list of them.
abbrev pub among : ℕ → List ℕ → Bool
among res [] = false
among res (r ∷ rs) = if res == r then true else among res rs

abbrev canceled_if : Bool → ErrorCode → ErrorCode
canceled_if b ec = if b then operation_canceled else ec

-- The loop posts each in order, and sets only the error of those in the list.
cancel_all_lem :
    (rs : List ℕ) (self : Acceptor) (res : ℕ)
    → let after = cancel_all rs self in
      (after.posted ≡ self.posted ++ map (λ r. (self.waiters r).cont) rs)
      × (after.waiters res
          ≡ record (self.waiters res) { ec = canceled_if (among res rs) (self.waiters res).ec })
      × (after.m_handle ≡ self.m_handle)
unfolding cancel_all
cancel_all_lem [] self res = (sym (append-nil self.posted), refl, refl)
cancel_all_lem (r ∷ rs) self res =
    let w = record (self.waiters r) { ec = operation_canceled } in
    let (posted, waiter, handle) = cancel_all_lem rs (post_with self r w) res in
    let keeps : map (λ q. (write self.waiters r w q).cont) rs
        ≡ map (λ q. (self.waiters q).cont) rs =
      ap (λ f. map f rs) (λ i q. write-cont self.waiters r q i) in
    (
      posted ∙ append_assoc self.posted (w.cont ∷ []) _ ∙ ap (λ l. self.posted ++ w.cont ∷ l) keeps,
      waiter ∙ ground (arith, ==_iff res r),
      handle,
    )
  where
    write-cont :
        (ws : ℕ → Waiter) (r q : ℕ)
        → (write ws r (record (ws r) { ec = operation_canceled }) q).cont ≡ (ws q).cont
    write-cont ws r q = ground (arith, ==_iff q r)

-- Where a coroutine waits, and nothing else changes the acceptor while `shutdown` runs: `shutdown` of an
-- acceptor that listens posts every coroutine that waits, in their order, each with
-- `operation_canceled`, and leaves no coroutine, no device and no handle; of an acceptor that does not
-- listen it does nothing, and posts none of the coroutines that wait.
pub shutdown_lem :
    (self : Acceptor) (res : ℕ)
    → among res self.m_resumptions ≡ true
    → let after = shutdown self in
      ((self.m_handle == 0) ≡ true) × (after ≡ self)
      ⊎ ((self.m_handle == 0) ≡ false)
        × (after.posted ≡ self.posted ++ map (λ r. (self.waiters r).cont) self.m_resumptions)
        × (await_resume res after ≡ (operation_canceled, 0))
        × (after.m_resumptions ≡ [])
        × (after.m_arrived_devices ≡ [])
        × (after.m_handle ≡ 0)
unfolding shutdown await_resume
shutdown_lem self res e =
    let (posted, waiter, handle) =
      cancel_all_lem self.m_resumptions (record self { m_handle = 0 }) res in
    elim (Bool-cases (self.m_handle == 0)) [
      | inl z ↦ inl (z, ground (arith, z))
      | inr z ↦ inr (
        z,
        ground (arith, z, posted),
        ground (arith, z, waiter, e),
        ground (arith, z),
        ground (arith, z),
        ground (arith, z, handle),
      )
    ]
