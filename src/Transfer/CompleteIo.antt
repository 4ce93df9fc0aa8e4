-- ===== src/Transfer/CompleteIo.antt =====
-- include/co_usb/transfer/complete_io.hpp: `complete_io_base::complete_submit`. Assertions are taken
-- to be compiled out.
pub mod Start
pub mod Resumption
pub mod Inside
pub mod Ending
pub mod Order
pub mod Adapters
mod Tests
use co_usb.Prelude.{ℕ, Bool, Option, none, some, List, length, take, if◌then◌else◌}
use co_usb.Prelude.Int.{ℤ}
use co_usb.Errors.{ErrorCode}
use co_usb.Transfer.Record.{Buffer, Store}
use co_usb.Transfer.PartialIo.{transfers_used}
use co_usb.Transfer.Complete.{
  Awaitable, make_awaitable, await_ready, await_suspend, await_resume, Suspended, resumed, sleeping,
}
use co_usb.Transfer.Complete.Run.{Sys}

-- What the task does before its first callback: it ends with a result, it sleeps, or the code reads
-- past the end of a sequence.
pub data Submission : Type 0 where
  finished : ErrorCode → ℕ → Submission
  pending : Sys → Submission
  fault : Submission

abbrev finish_task : Awaitable → Submission
finish_task self = finished (await_resume self).0 (await_resume self).1

abbrev of_suspended : Option Suspended → Submission
of_suspended none = fault
of_suspended (some (resumed self)) = finish_task self
of_suspended (some (sleeping self m flying)) =
    pending (record { self = self; store = m; flying = flying })

-- The arguments are those of `submit`, with `m_single_transfer_limit` behind the buffers.
unfoldable pub complete_submit :
    ℕ → List ℕ → List Buffer → ℕ → Store → Bool → ℕ → (ℕ → ℤ) → Submission
unfolding make_awaitable await_ready await_suspend await_resume
complete_submit this view buffers limit m stop_requested h results =
    let self = make_awaitable this view buffers (transfers_used view buffers) limit in
    if await_ready self
    then finish_task self
    else of_suspended (await_suspend self m stop_requested h results)

-- The stop callback of `complete_submit`: the transfers that it cancels, in order.
unfoldable pub stop_complete_submit : List ℕ → List Buffer → List ℕ
stop_complete_submit view buffers = take (transfers_used view buffers) view
