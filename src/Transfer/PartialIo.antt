-- ===== src/Transfer/PartialIo.antt =====
-- include/co_usb/transfer/partial_io.hpp: `partial_io_base::submit`, and the reads and writes that
-- call it.
pub mod Start
pub mod Resumption
pub mod Order
pub mod Adapters
mod Tests
use co_usb.Prelude.{ℕ, min, Bool, Option, none, some, List, [], ◌∷◌, length, take, if◌then◌else◌}
use co_usb.Prelude.Int.{ℤ}
use co_usb.Errors.{ErrorCode}
use co_usb.Transfer.Record.{Buffer, Store}
use co_usb.Transfer.Partial.{
  Awaitable, make_awaitable, await_ready, await_suspend, await_resume, Suspended, resumed, sleeping,
}
use co_usb.Transfer.Partial.Run.{Sys}

-- What the task does before its first callback: it ends with a result, it sleeps, or the code reads
-- past the end of a sequence.
pub data Submission : Type 0 where
  finished : ErrorCode → ℕ → Submission
  pending : Sys → Submission
  fault : Submission

abbrev finish_task : Awaitable → Submission
finish_task self = finished (await_resume self).0 (await_resume self).1

abbrev pub transfers_used : List ℕ → List Buffer → ℕ
transfers_used view buffers = min (length buffers) (length view)

abbrev of_suspended : Option Suspended → Submission
of_suspended none = fault
of_suspended (some (resumed self)) = finish_task self
of_suspended (some (sleeping self m flying)) =
    pending (record { self = self; store = m; flying = flying })

unfoldable pub submit : ℕ → List ℕ → List Buffer → Store → Bool → ℕ → (ℕ → ℤ) → Submission
unfolding make_awaitable await_ready await_suspend await_resume
submit this view buffers m stop_requested h results =
    let self = make_awaitable this view buffers (transfers_used view buffers) in
    if await_ready self
    then finish_task self
    else of_suspended (await_suspend self m stop_requested h results)

-- The stop callback of `submit`: the transfers that it cancels, in order.
unfoldable pub stop_submit : List ℕ → List Buffer → List ℕ
stop_submit view buffers = take (transfers_used view buffers) view
