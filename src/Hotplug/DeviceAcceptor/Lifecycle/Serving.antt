-- ===== src/Hotplug/DeviceAcceptor/Lifecycle/Serving.antt =====
-- The steps of include/co_usb/hotplug/device_acceptor.hpp that take calls out of `m_resumptions`.
use co_usb.Prelude.{
  ℕ, ◌+◌, ◌≡◌, ◌≢◌, refl, sym, ap, subst, ◌∙◌, inl, inr, Bool-cases, ◌&&◌, not, List, List-cases,
  [], ◌∷◌, ◌==◌, ==_iff, arith,
}
use co_usb.Prelude.Int.{ℤ}
use co_usb.Prelude.Slots.{one_if, count, count-snoc}
use co_usb.Errors.{operation_canceled}
use co_usb.Wrapper.DeviceTriplet.{DeviceDescriptor}
use co_usb.Hotplug.DeviceAcceptor.{
  Waiter, Acceptor, post_with, HotplugEvent, hotplug_callback, Connected, enumerate, listen,
  erase_waiter, stop_fn,
}
use co_usb.Hotplug.DeviceAcceptor.Lifecycle.Loop.{cancel_next, clear_devices}
use co_usb.Hotplug.DeviceAcceptor.Lifecycle.{Armed, Served, Served-refl, Served-trans, Served-Armed}

module _ (handle : ℕ → ℕ) (apart : (r q : ℕ) → handle r ≡ handle q → r ≡ q) where
  one_if-handle : (q r : ℕ) → one_if (handle q) (handle r) ≡ one_if q r
  one_if-handle q r = elim (Bool-cases (r == q)) [
    | inl e ↦ ground (arith, e, ==_iff r q, ==_iff (handle r) (handle q), ap handle)
    | inr n ↦ ground (arith, n, ==_iff r q, ==_iff (handle r) (handle q), apart r q)
  ]

  -- One entry of `m_resumptions` leaves and is posted.
  post_with-Served :
      (a : Acceptor) (r : ℕ) (rest : List ℕ) (w : Waiter)
      → ((q : ℕ) → count q rest + one_if q r ≡ count q a.m_resumptions)
      → w.aw_ctx ≡ (a.waiters r).aw_ctx
      → w.cont ≡ (a.waiters r).cont
      → Armed handle a
      → Served handle a (record (post_with a r w) { m_resumptions = rest })
  post_with-Served a r rest w left x c h =
      let cont : w.cont ≡ handle r = c ∙ h r (λ z. absurd (ground (arith, left r, z))) in
      record {
        fewer = λ q. omega (arith, left q);
        posts = λ q. omega (
          arith,
          count-snoc (handle q) w.cont a.posted,
          left q,
          ap (one_if (handle q)) cont,
          one_if-handle q r,
        );
        ctx = λ q. ground (arith, x);
        cont = λ q. ground (arith, c);
      }

  pub hotplug_callback-Served :
      (dev : ℕ) (desc : DeviceDescriptor) (ev : HotplugEvent) (a : Acceptor)
      → Armed handle a
      → Served handle a (hotplug_callback dev desc ev a)
  unfolding hotplug_callback count
  hotplug_callback-Served dev desc HotplugEvent.device_left a h = record {
    fewer = λ r. omega arith;
    posts = λ r. refl;
    ctx = λ r. refl;
    cont = λ r. refl;
  }
  hotplug_callback-Served dev desc HotplugEvent.device_arrived a h =
      elim (List-cases a.m_resumptions) [
        | inl e ↦ record {
          fewer = λ r. ground (arith, e);
          posts = λ r. ground (arith, e);
          ctx = λ r. ground (arith, e);
          cont = λ r. ground (arith, e);
        }
        | inr (r, rest, e) ↦
            let w : Waiter = record (a.waiters r) { dev_ref = dev } in
            let e' : hotplug_callback dev desc HotplugEvent.device_arrived a
                ≡ record (post_with a r w) { m_resumptions = rest } =
              ground (arith, e) in
            subst (Served handle a) (sym e')
              (post_with-Served a r rest w (λ q. ground (arith, e)) refl refl h)
      ]

  enumerate-Served :
      (connected : List Connected) (a : Acceptor)
      → Armed handle a
      → Served handle a (enumerate connected a)
  unfolding enumerate
  enumerate-Served [] a h = Served-refl handle a
  enumerate-Served (c ∷ cs) a h =
      let first = hotplug_callback-Served c.dev c.desc HotplugEvent.device_arrived a h in
      Served-trans handle first (enumerate-Served cs _ (Served-Armed handle first h))

  pub listen-Served :
      (r : ℤ) (device_handle : ℕ) (connected : List Connected) (a : Acceptor)
      → Armed handle a
      → Served handle a (listen r device_handle connected a).0
  unfolding listen
  listen-Served r device_handle connected a h =
      ground (arith, Served-refl handle a, enumerate-Served connected a h)

  erase_waiter-count :
      (res : ℕ) (rs : List ℕ)
      → count res rs ≢ 0
      → (q : ℕ) → count q (erase_waiter res rs) + one_if q res ≡ count q rs
  unfolding count
  erase_waiter-count res [] n q = absurd (n refl)
  erase_waiter-count res (r ∷ rs) n q = elim (Bool-cases (r == res)) [
    | inl e ↦ ground (arith, e, ==_iff r res)
    | inr d ↦
        let left = erase_waiter-count res rs (λ z. n (ground (arith, z, d))) q in
        ground (arith, d, left)
  ]

  pub stop_fn-Served :
      (res : ℕ) (a : Acceptor)
      → Armed handle a
      → count res a.m_resumptions ≢ 0
      → Served handle a (stop_fn res a)
  unfolding stop_fn
  stop_fn-Served res a h n =
      let w : Waiter = record (a.waiters res) { ec = operation_canceled } in
      elim (Bool-cases (not ((a.waiters res).aw_ctx == 0) && not ((a.waiters res).cont == 0))) [
        | inl e ↦
            let e' : stop_fn res a
                ≡ record (post_with a res w) { m_resumptions = erase_waiter res a.m_resumptions } =
              ground (arith, e) in
            subst (Served handle a) (sym e')
              (post_with-Served a res _ w (erase_waiter-count res a.m_resumptions n) refl refl h)
        | inr d ↦
            let e' : stop_fn res a ≡ a = ground (arith, d) in
            subst (Served handle a) (sym e') (Served-refl handle a)
      ]

  pub cancel_next-Served :
      (a : Acceptor) (r : ℕ) (rest : List ℕ)
      → Armed handle a
      → a.m_resumptions ≡ r ∷ rest
      → Served handle a (cancel_next r rest a)
  unfolding cancel_next count
  cancel_next-Served a r rest h e =
      post_with-Served a r rest (record (a.waiters r) { ec = operation_canceled })
        (λ q. ground (arith, e)) refl refl h

  pub clear_devices-Served :
      (a : Acceptor) → a.m_resumptions ≡ [] → Served handle a (clear_devices a)
  unfolding clear_devices count
  clear_devices-Served a e = ground (arith, e)
