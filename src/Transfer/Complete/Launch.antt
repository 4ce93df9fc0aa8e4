-- ===== src/Transfer/Complete/Launch.antt =====
-- The second loop of `await_suspend` of
-- include/co_usb/transfer/detail/complete_sequence_awaitable.hpp, with callbacks on the event thread
-- between its submissions, where every completion has moved all bytes that it was submitted for.
use co_usb.Prelude.{
  ℕ, ◌≡◌, refl, sym, ap, ◌∙◌, subst, some, List, [], ◌∷◌, ◌++◌, append_assoc, get_elem?, erase_at,
  if◌then◌else◌, arith,
}
use co_usb.Prelude.Int.{ℤ}
use co_usb.Prelude.Slots.{count}
use co_usb.Prelude.Occurrences.{SameCounts, SameCounts-find, rejoin-SameCounts}
use co_usb.Transfer.Record.{update}
use co_usb.Transfer.Partial.Run.{Completion, finish}
use co_usb.Transfer.Complete.{transfer_callback}
use co_usb.Transfer.Complete.Run.{Sys, deliver}
use co_usb.Transfer.Complete.Resumption.{deliver-cases}
use co_usb.Transfer.Complete.Refine.{Full, rests, fills}

-- The loop goes on from `s`, with the transfers `todo` to submit; the second list has those that
-- are left.
pub data FullLaunch (s : Sys) (todo : List ℕ) : Sys → List ℕ → Type 0 where
  begins : FullLaunch s todo s todo
  submits :
      {u : Sys} {t : ℕ} {left : List ℕ}
      → FullLaunch s todo u (t ∷ left)
      → FullLaunch s todo (record u { flying = u.flying ++ t ∷ [] }) left
  calls_back :
      {u w : Sys} {left : List ℕ} (i t : ℕ) (c : Completion) (r : ℤ)
      → FullLaunch s todo u left
      → get_elem? u.flying i ≡ some t
      → c.actual_length ≡ (u.store t).length
      → deliver u i t c r ≡ some w
      → FullLaunch s todo w left

abbrev pub before_loop : Sys → Sys
before_loop s = record s { flying = [] }

-- The same awaitable and transfers, where `w` has in flight also what `u` has still to submit.
pub record Alike (u : Sys) (left : List ℕ) (w : Sys) : Type 0 where
  pub self : u.self ≡ w.self
  pub store : u.store ≡ w.store
  pub flying : SameCounts (u.flying ++ left) w.flying

deliver-Alike :
    (u w v : Sys) (left : List ℕ) (i t : ℕ) (c : Completion) (r : ℤ)
    → Alike u left w
    → get_elem? u.flying i ≡ some t
    → deliver u i t c r ≡ some v
    → (j : ℕ) × (get_elem? w.flying j ≡ some t)
      × (v' : Sys) × (deliver w j t c r ≡ some v')
      × Alike v left v'
unfolding deliver
deliver-Alike u w v left i t c r a h e =
    let (j, k, others) = SameCounts-find u.flying left w.flying i t a.flying h in
    let (out, m', accepted, found, eq) = deliver-cases u i t c r e in
    let found' : transfer_callback w.self (update w.store t (finish c (w.store t))) t r
        ≡ some (out, m', accepted) =
      rw (← a.self, ← a.store) found in
    let v' : Sys = record {
      self = out;
      store = m';
      flying = if accepted then erase_at w.flying j ++ t ∷ [] else erase_at w.flying j;
    } in
    (
      j,
      k,
      v',
      ground (arith, found'),
      subst (λ x. Alike x left v') (sym eq)
          (record {
            self = refl;
            store = refl;
            flying =
                rejoin-SameCounts (erase_at u.flying i) left (erase_at w.flying j) t accepted
                  others;
          }),
    )

-- Callbacks during the loop leave the awaitable and the transfers as callbacks after it do.
pub FullLaunch-Full :
    {s u : Sys} {left : List ℕ}
    → FullLaunch (before_loop s) s.flying u left
    → (w : Sys) × Full s w × Alike u left w
FullLaunch-Full {s} begins = (s, rests, record { self = refl; store = refl; flying = λ p. refl })
FullLaunch-Full {s} (submits {u = u} {t} {left} launch) =
    let (w, run, a) = FullLaunch-Full launch in
    (
      w,
      run,
      record {
        self = a.self;
        store = a.store;
        flying = λ p. ap (count p) (append_assoc u.flying (t ∷ []) left) ∙ a.flying p;
      },
    )
FullLaunch-Full {s} (calls_back {u = u} {w = v} {left = left} i t c r launch h full e) =
    let (w, run, a) = FullLaunch-Full launch in
    let (j, k, v', e', after) = deliver-Alike u w v left i t c r a h e in
    (v', fills j t c r run k (full ∙ ap (λ m. (m t).length) a.store) e', after)
