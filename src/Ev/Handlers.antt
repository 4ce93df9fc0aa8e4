-- ===== src/Ev/Handlers.antt =====
-- include/co_usb/ev/handlers.hpp. A thread is known by the libusb context and the stop source that
-- its loop was started with.
pub mod Loops
use co_usb.Prelude.{
  ℕ, zero, suc, ◌+◌, Bool, true, false, not, ◌&&◌, Option, none, some, ◌==◌, if◌then◌else◌,
}
use co_usb.Prelude.Int.{ℤ, ◌==ℤ◌}
use co_usb.Prelude.Words.{inc_size, dec_size}
use co_usb.Libusb
use co_usb.Errors.{ErrorCode, make_usb_error_code}

pub data HandlerType : Type 0 where
  trivial refcounted : HandlerType

pub record Thread : Type 0 where
  pub usb_ctx : ℕ
  pub stop : ℕ

pub record Handler : Type 0 where
  pub type : HandlerType
  pub m_counter : ℕ  -- size_t; a trivial handler has none
  pub m_thread : Option Thread

abbrev pub new_handler : HandlerType → Handler
new_handler type = record { type = type; m_counter = 0; m_thread = none }

-- Creating the thread is taken to succeed.
unfoldable pub start : ℕ → ℕ → Handler → Handler × Bool
start usb_ctx stop self =
    (record self { m_thread = some (record { usb_ctx = usb_ctx; stop = stop }) }, true)

unfoldable pub ref_handler : Handler → Handler
unfolding inc_size
ref_handler self = elim (self.type) [
  | HandlerType.trivial ↦ self
  | HandlerType.refcounted ↦ record self { m_counter = inc_size self.m_counter }
]

unfoldable pub unref_handler : Handler → Handler
unfolding dec_size
unref_handler self = elim (self.type) [
  | HandlerType.trivial ↦ self
  | HandlerType.refcounted ↦ record self { m_counter = dec_size self.m_counter }
]

-- `join`, where the thread ends.
unfoldable pub stop : Handler → Handler
stop self = record self { m_thread = none }

-- How a loop ends, and after how many calls of `libusb_handle_events_timeout`.
pub data LoopEnd : Type 0 where
  stopped : ℕ → LoopEnd
  threw : ℕ → ErrorCode → LoopEnd

-- What the loop reads in its round `i`: `stop_requested`, the counter, and libusb's result. `none` is
-- the end of the fuel.
module _ (stop_requested : ℕ → Bool) (counter : ℕ → ℕ) (result : ℕ → ℤ) where
  unfoldable pub trivial_loop : ℕ → ℕ → Option LoopEnd
  trivial_loop zero i = none
  trivial_loop (suc fuel) i =
      let rest = trivial_loop fuel (i + 1) in
      if stop_requested i
      then some (LoopEnd.stopped i)
      else if not (result i ==ℤ Libusb.success)
      then some (LoopEnd.threw (i + 1) (make_usb_error_code (result i)))
      else rest

  unfoldable pub refcounted_loop : ℕ → ℕ → Option LoopEnd
  refcounted_loop zero i = none
  refcounted_loop (suc fuel) i =
      let rest = refcounted_loop fuel (i + 1) in
      if not (result i ==ℤ Libusb.success)
      then some (LoopEnd.threw (i + 1) (make_usb_error_code (result i)))
      else if stop_requested i && (counter i == 0)
      then some (LoopEnd.stopped (i + 1))
      else rest
