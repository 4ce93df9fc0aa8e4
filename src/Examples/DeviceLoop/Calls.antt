-- ===== src/Examples/DeviceLoop/Calls.antt =====
-- The order of the calls of `dev_loop` of examples/03-complete-io.cpp.
use co_usb.Prelude.{ℕ, Bool, true, false, List, [], ◌∷◌}
use co_usb.Libusb
use co_usb.Examples.DeviceLoop.{Call, Outcome}

-- Whether the handle is open, the driver detached, and the interface claimed.
pub data Held : Type 0 where
  held : Bool → Bool → Bool → Held

abbrev pub nothing : Held
nothing = Held.held false false false

-- Calls in an order that libusb allows, from what is held to what is then held.
pub data Uses (p num : ℕ) : Held → List Call → Held → Type 0 where
  ends : {h : Held} → Uses p num h [] h
  opens :
      {calls : List Call} {h : Held}
      → Uses p num (Held.held true false false) calls h
      → Uses p num nothing (Call.opened p ∷ calls) h
  detaches :
      {calls : List Call} {h : Held}
      → Uses p num (Held.held true true false) calls h
      → Uses p num (Held.held true false false) (Call.detached p num ∷ calls) h
  claims :
      {d : Bool} {calls : List Call} {h : Held}
      → Uses p num (Held.held true d true) calls h
      → Uses p num (Held.held true d false) (Call.claimed p num ∷ calls) h
  receives :
      {d : Bool} {n : ℕ} {calls : List Call} {h : Held}
      → Uses p num (Held.held true d true) calls h
      → Uses p num (Held.held true d true) (Call.received n ∷ calls) h
  releases :
      {d : Bool} {calls : List Call} {h : Held}
      → Uses p num (Held.held true d false) calls h
      → Uses p num (Held.held true d true) (Call.released p num ∷ calls) h
  attaches :
      {calls : List Call} {h : Held}
      → Uses p num (Held.held true false false) calls h
      → Uses p num (Held.held true true false) (Call.attached p num ∷ calls) h
  closes :
      {calls : List Call} {h : Held}
      → Uses p num nothing calls h
      → Uses p num (Held.held true false false) (Call.closed p ∷ calls) h

-- A program that ends keeps the handle open.
abbrev pub is_terminated : Outcome → Bool
is_terminated Outcome.returned = false
is_terminated (Outcome.exception _) = false
is_terminated Outcome.terminated = true

abbrev pub left_after : Outcome → Held
left_after out = Held.held (is_terminated out) false false

-- Which calls a scope makes, and how it ends, where `h` is held.
abbrev Ended : ℕ → ℕ → Held → Outcome × List Call → Type 0
Ended p num h x = Uses p num h x.1 (left_after x.0)
