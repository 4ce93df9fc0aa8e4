-- ===== src/Ev/AnyHandler.antt =====
-- include/co_usb/ev/any_event_handler.hpp. The stored type takes the place of the table of functions;
-- the memory resource is not modelled.
pub mod Storage
use co_usb.Prelude.{ℕ, Bool, true, false, Option, none, some}
use co_usb.Ev.Handlers.{HandlerType, Handler, new_handler, ref_handler, unref_handler}
use co_usb.Ev.Handlers

pub record AnyHandler : Type 0 where
  pub m_storage : Option Handler

abbrev pub empty_handler : AnyHandler
empty_handler = record { m_storage = none }

unfoldable pub valid : AnyHandler → Bool
valid self = elim (self.m_storage) [ none ↦ false | some _ ↦ true ]

-- The destructor of a stored handler joins its thread.
unfoldable pub destroy : AnyHandler → AnyHandler
destroy self = record { m_storage = none }

unfoldable pub emplace : HandlerType → AnyHandler → AnyHandler
unfolding destroy
emplace type self = record (destroy self) { m_storage = some (new_handler type) }

-- The new object, and what the moved-from one is.
unfoldable pub move_handler : AnyHandler → AnyHandler × AnyHandler
move_handler other = (other, record { m_storage = none })

unfoldable pub start_any : ℕ → ℕ → AnyHandler → AnyHandler × Bool
unfolding Handlers.start
start_any usb_ctx stop self = elim (self.m_storage) [
  | none ↦ (self, false)
  | some h ↦ let (h', ok) = Handlers.start usb_ctx stop h in (record { m_storage = some h' }, ok)
]

unfoldable pub ref_any : AnyHandler → AnyHandler
unfolding ref_handler
ref_any self = elim (self.m_storage) [
  | none ↦ self
  | some h ↦ record { m_storage = some (ref_handler h) }
]

unfoldable pub unref_any : AnyHandler → AnyHandler
unfolding unref_handler
unref_any self = elim (self.m_storage) [
  | none ↦ self
  | some h ↦ record { m_storage = some (unref_handler h) }
]

unfoldable pub stop_any : AnyHandler → AnyHandler
unfolding Handlers.stop
stop_any self = elim (self.m_storage) [
  | none ↦ self
  | some h ↦ record { m_storage = some (Handlers.stop h) }
]
