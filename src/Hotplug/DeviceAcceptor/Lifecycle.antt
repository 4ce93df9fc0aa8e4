-- ===== src/Hotplug/DeviceAcceptor/Lifecycle.antt =====
-- The calls of `accept` of include/co_usb/hotplug/device_acceptor.hpp, from their begin to their end.
pub mod Loop
pub mod Serving
pub mod Calls
mod Tests
use co_usb.Prelude.{
  ℕ, zero, suc, ◌+◌, ◌≤◌, ◌≡◌, ◌≢◌, refl, sym, ap, subst, ◌∙◌, inl, inr, Bool, Bool-cases, true,
  false, ◌&&◌, not, List, List-cases, [], ◌∷◌, ◌++◌, ◌==◌, ==_iff, if◌then◌else◌, arith,
}
use co_usb.Prelude.Int.{ℤ}
use co_usb.Prelude.Slots.{one_if, count, count-snoc}
use co_usb.Errors.{operation_canceled}
use co_usb.Wrapper.DeviceTriplet.{DeviceTriplet, DeviceDescriptor}
use co_usb.Hotplug.DeviceAcceptor.{
  Waiter, Acceptor, make_acceptor, write, post_with, cancel_all, shutdown, bind, bind_with_ec,
  HotplugEvent, erase_match, hotplug_callback, Connected, enumerate, listen, begin_accept,
  await_ready, await_suspend, erase_waiter, stop_fn,
}

-- A call is not there or has returned; runs up to its suspension; waits; or has been posted.
pub data Phase : Type 0 where
  idle running waiting given : Phase

abbrev pub waits : Phase → ℕ
waits waiting = 1
waits _ = 0

-- The acceptor with the phases of the calls and how often each was suspended. While `looping`, the loop of
-- `shutdown` runs, and `m_resumptions` stands for those of its elements that the loop has still to post.
pub record Life : Type 0 where
  pub acceptor : Acceptor
  pub looping : Bool
  pub phase : ℕ → Phase
  pub suspensions : ℕ → ℕ

abbrev pub set_phase : ℕ → Phase → (ℕ → Phase) → ℕ → Phase
set_phase res ph phase r = if r == res then ph else phase r

-- A call that waited and is not in `m_resumptions` any more has been posted.
abbrev pub settled : Phase → ℕ → Phase
settled waiting zero = given
settled waiting (suc n) = waiting
settled idle n = idle
settled running n = running
settled given n = given

abbrev pub settle : Acceptor → Life → Life
settle a s = record s { acceptor = a; phase = λ r. settled (s.phase r) (count r a.m_resumptions) }

settled-waits : (ph : Phase) (n : ℕ) → n ≤ waits ph → waits (settled ph n) ≡ n
settled-waits waiting zero h = refl
settled-waits waiting (suc n) h = omega arith
settled-waits idle n h = omega arith
settled-waits running n h = omega arith
settled-waits given n h = omega arith

settled-waiting : (ph : Phase) (n : ℕ) → settled ph n ≡ waiting → ph ≡ waiting
settled-waiting waiting n h = refl
settled-waiting idle n h = h
settled-waiting running n h = h
settled-waiting given n h = h

settled-running : (ph : Phase) (n : ℕ) → settled ph n ≡ running → ph ≡ running
settled-running waiting zero h = absurd (cc)
settled-running waiting (suc n) h = absurd (cc)
settled-running idle n h = h
settled-running running n h = h
settled-running given n h = h

waits-one : (ph : Phase) → waits ph ≢ 0 → ph ≡ waiting
waits-one waiting n = refl
waits-one idle n = absurd (n refl)
waits-one running n = absurd (n refl)
waits-one given n = absurd (n refl)

-- `handle` is the continuation of a call.
module _ (handle : ℕ → ℕ) where
  -- In every state.
  pub record IsLive (s : Life) : Type 0 where
    pub queue : (r : ℕ) → count r s.acceptor.m_resumptions ≡ waits (s.phase r)
    pub armed :
        (r : ℕ)
        → s.phase r ≡ Phase.waiting
        → ((s.acceptor.waiters r).aw_ctx ≢ 0) × ((s.acceptor.waiters r).cont ≡ handle r)
    pub fresh : (r : ℕ) → s.phase r ≡ Phase.running → (s.acceptor.waiters r).aw_ctx ≡ 0
    pub posts : (r : ℕ) → count (handle r) s.acceptor.posted + waits (s.phase r) ≡ s.suspensions r

  -- The continuations of the calls in `m_resumptions`.
  abbrev pub Armed : Acceptor → Type 0
  Armed a = (r : ℕ) → count r a.m_resumptions ≢ 0 → (a.waiters r).cont ≡ handle r

  -- Calls leave `m_resumptions` and are posted, each as often as it leaves.
  pub record Served (a b : Acceptor) : Type 0 where
    pub fewer : (r : ℕ) → count r b.m_resumptions ≤ count r a.m_resumptions
    pub posts :
        (r : ℕ)
        → count (handle r) b.posted + count r b.m_resumptions
          ≡ count (handle r) a.posted + count r a.m_resumptions
    pub ctx : (r : ℕ) → (b.waiters r).aw_ctx ≡ (a.waiters r).aw_ctx
    pub cont : (r : ℕ) → (b.waiters r).cont ≡ (a.waiters r).cont

  pub Served-refl : (a : Acceptor) → Served a a
  Served-refl a = ground arith

  pub Served-trans : {a b c : Acceptor} → Served a b → Served b c → Served a c
  Served-trans {a} {b} {c} p q = record {
    fewer = λ r. omega (arith, p.fewer r, q.fewer r);
    posts = λ r. q.posts r ∙ p.posts r;
    ctx = λ r. q.ctx r ∙ p.ctx r;
    cont = λ r. q.cont r ∙ p.cont r;
  }

  pub Served-Armed : {a b : Acceptor} → Served a b → Armed a → Armed b
  Served-Armed {a} {b} s h r n = s.cont r ∙ h r (λ z. n (omega (arith, s.fewer r, z)))

  pub settle-IsLive :
      (s : Life) (b : Acceptor) → IsLive s → Served s.acceptor b → IsLive (settle b s)
  settle-IsLive s b v served =
      let n = λ (r : ℕ). count r b.m_resumptions in
      let le : (r : ℕ) → n r ≤ waits (s.phase r) = λ r. omega (arith, served.fewer r, v.queue r) in
      record {
        queue = λ r. sym (settled-waits (s.phase r) (n r) (le r));
        armed = λ r e.
            let (ctx, cont) = v.armed r (settled-waiting (s.phase r) (n r) e) in
            ((λ z. ctx (sym (served.ctx r) ∙ z)), served.cont r ∙ cont);
        fresh = λ r e. served.ctx r ∙ v.fresh r (settled-running (s.phase r) (n r) e);
        posts = λ r.
            omega
              (arith, settled-waits (s.phase r) (n r) (le r), served.posts r, v.queue r, v.posts r);
      }

  pub IsLive-Armed : (s : Life) → IsLive s → Armed s.acceptor
  IsLive-Armed s v r n = (v.armed r (waits-one (s.phase r) (λ z. n (v.queue r ∙ z)))).1
