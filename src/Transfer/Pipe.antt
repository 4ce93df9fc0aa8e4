-- ===== src/Transfer/Pipe.antt =====
-- What the awaitables of include/co_usb/transfer/detail promise: a pipe of regions of memory. It keeps some regions active; when one ends, the first waiting one is started.
pub mod Stage
use co_usb.Prelude.{
  ℕ, ◌<◌, ◌≡◌, refl, sym, ap, ◌∙◌, Bool, true, false, List, [], ◌∷◌, ◌++◌, append_assoc, length,
  erase_at,
}

-- An address and the bit pattern of an `int` length.
pub record Region : Type 0 where
  pub start : ℕ
  pub extent : ℕ

-- The regions in flight, from the one started first, and those that wait.
pub record Pipe : Type 0 where
  pub active : List Region
  pub waiting : List Region
  pub failed : Bool

-- A step ends active region `i`; the list has the region that it starts.
pub data PipeStep (p q : Pipe) : List Region → Type 0 where
  starts :
      (i : ℕ) (r : Region)
      → i < length p.active
      → p.failed ≡ false
      → p.waiting ≡ r ∷ q.waiting
      → q.active ≡ erase_at p.active i ++ r ∷ []
      → q.failed ≡ false
      → PipeStep p q (r ∷ [])
  drains :
      (i : ℕ)
      → i < length p.active
      → p.failed ≡ false
      → p.waiting ≡ q.waiting
      → q.waiting ≡ []
      → q.active ≡ erase_at p.active i
      → q.failed ≡ false
      → PipeStep p q []
  fails :
      (i : ℕ)
      → i < length p.active
      → p.waiting ≡ q.waiting
      → q.active ≡ erase_at p.active i
      → q.failed ≡ true
      → PipeStep p q []
  -- The first waiting region is given up with the step that fails.
  loses :
      (i : ℕ) (r : Region)
      → i < length p.active
      → p.waiting ≡ r ∷ q.waiting
      → q.active ≡ erase_at p.active i
      → q.failed ≡ true
      → PipeStep p q []

-- Runs of the pipe, with the regions that they started, in order.
pub data PipeRun (p : Pipe) : List Region → Pipe → Type 0 where
  waits : PipeRun p [] p
  goes :
      {started more : List Region} {q w : Pipe}
      → PipeRun p started q
      → PipeStep q w more
      → PipeRun p (started ++ more) w

PipeStep-failed :
    {p q : Pipe} {more : List Region} → PipeStep p q more → q.failed ≡ false → p.failed ≡ false
PipeStep-failed (starts i r lt f w a g) h = f
PipeStep-failed (drains i lt f w e a g) h = f
PipeStep-failed (fails i lt w a g) h = absurd (cc)
PipeStep-failed (loses i r lt w a g) h = absurd (cc)

PipeStep-order :
    {p q : Pipe} {more : List Region}
    → PipeStep p q more
    → q.failed ≡ false
    → more ++ q.waiting ≡ p.waiting
PipeStep-order (starts i r lt f w a g) h = sym w
PipeStep-order (drains i lt f w e a g) h = sym w
PipeStep-order (fails i lt w a g) h = absurd (cc)
PipeStep-order (loses i r lt w a g) h = absurd (cc)

-- While no step failed, the regions are started in the order in which they waited, none is left out,
-- and none twice.
pub PipeRun-order :
    {p q : Pipe} {started : List Region}
    → PipeRun p started q
    → q.failed ≡ false
    → started ++ q.waiting ≡ p.waiting
PipeRun-order waits h = refl
PipeRun-order (goes {started = started} {more} {w = w} run st) h =
    append_assoc started more w.waiting
    ∙ ap (λ l. started ++ l) (PipeStep-order st h)
    ∙ PipeRun-order run (PipeStep-failed st h)
