-- ===== src/Transfer/Partial/Launch.antt =====
-- The second loop of `await_suspend` of include/co_usb/transfer/detail/sequence_awaitable.hpp, with
-- callbacks on the event thread between its submissions.
use co_usb.Prelude.{
  ℕ, ◌≡◌, refl, sym, ap, subst, ◌∙◌, some, List, [], ◌∷◌, ◌++◌, append_assoc, get_elem?, erase_at,
  if◌then◌else◌,
}
use co_usb.Prelude.Int.{ℤ}
use co_usb.Prelude.Slots.{count}
use co_usb.Prelude.Occurrences.{SameCounts, SameCounts-find, rejoin-SameCounts}
use co_usb.Transfer.Record.{update}
use co_usb.Transfer.Partial.{transfer_callback}
use co_usb.Transfer.Partial.Run.{Completion, finish, Sys, deliver, Step, completes, Run, here, next}

-- The loop goes on from `s`, with the transfers `todo` to submit; the second list has those that
-- are left.
pub data Launch (s : Sys) (todo : List ℕ) : List Completion → Sys → List ℕ → Type 0 where
  begins : Launch s todo [] s todo
  submits :
      {cs : List Completion} {u : Sys} {t : ℕ} {rest : List ℕ}
      → Launch s todo cs u (t ∷ rest)
      → Launch s todo cs (record u { flying = u.flying ++ t ∷ [] }) rest
  calls_back :
      {cs : List Completion} {c : Completion} {u w : Sys} {rest : List ℕ}
      → Launch s todo cs u rest
      → Step u c w
      → Launch s todo (c ∷ cs) w rest

abbrev pub before_loop : Sys → Sys
before_loop s = record s { flying = [] }

-- The same awaitable and transfers, where `w` has in flight also what `u` has still to submit.
pub record Alike (u : Sys) (rest : List ℕ) (w : Sys) : Type 0 where
  pub self : u.self ≡ w.self
  pub store : u.store ≡ w.store
  pub flying : SameCounts (u.flying ++ rest) w.flying

deliver-Alike :
    (u w : Sys) (rest : List ℕ) (i t : ℕ) (c : Completion) (r : ℤ)
    → Alike u rest w
    → get_elem? u.flying i ≡ some t
    → (j : ℕ) × (get_elem? w.flying j ≡ some t) × Alike (deliver u i t c r) rest (deliver w j t c r)
unfolding deliver
deliver-Alike u w rest i t c r v h =
    let (j, k, left) = SameCounts-find u.flying rest w.flying i t v.flying h in
    let same : transfer_callback u.self (update u.store t (finish c (u.store t))) t r
        ≡ transfer_callback w.self (update w.store t (finish c (w.store t))) t r =
      rw (v.self, v.store) refl in
    let accepted = (transfer_callback w.self (update w.store t (finish c (w.store t))) t r).2 in
    (
      j,
      k,
      record {
        self = ap (λ x. x.0) same;
        store = ap (λ x. x.1) same;
        flying =
            subst
              (λ x.
                SameCounts
                  ((if x.2 then erase_at u.flying i ++ t ∷ [] else erase_at u.flying i) ++ rest)
                  (if accepted then erase_at w.flying j ++ t ∷ [] else erase_at w.flying j))
              (sym same)
              (rejoin-SameCounts (erase_at u.flying i) rest (erase_at w.flying j) t accepted left);
      },
    )

-- Callbacks during the loop leave the awaitable and the transfers as callbacks after it do.
pub Launch-Run :
    {s u : Sys} {cs : List Completion} {rest : List ℕ}
    → Launch (before_loop s) s.flying cs u rest
    → (w : Sys) × Run s cs w × Alike u rest w
Launch-Run {s} begins = (s, here, record { self = refl; store = refl; flying = λ p. refl })
Launch-Run {s} (submits {u = u} {t} {rest} launch) =
    let (w, run, v) = Launch-Run launch in
    (
      w,
      run,
      record {
        self = v.self;
        store = v.store;
        flying = λ p. ap (count p) (append_assoc u.flying (t ∷ []) rest) ∙ v.flying p;
      },
    )
Launch-Run {s} (calls_back {c = c} {u} {rest = rest} launch (completes i t r h e)) =
    let (w, run, v) = Launch-Run launch in
    let (j, k, after) = deliver-Alike u w rest i t c r v h in
    (
      deliver w j t c r,
      next run (completes j t r k refl),
      subst (λ x. Alike x rest (deliver w j t c r)) (sym e) after,
    )
