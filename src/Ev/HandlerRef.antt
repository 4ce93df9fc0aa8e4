-- ===== src/Ev/HandlerRef.antt =====
-- include/co_usb/ev/event_handler_ref.hpp, for references to an `any_event_handler`, the only ones the
-- library makes. A reference is its place in the list of them; `m_original` is the address of the
-- handler, 0 where it is null. A destroyed reference stays in the list as a null one.
pub mod Counts
pub mod Leaks
mod Tests
use co_usb.Prelude.{ℕ, zero, suc, Bool, true, false, not, List, [], ◌∷◌, ◌++◌, ◌==◌, if◌then◌else◌}
use co_usb.Prelude.Slots.{slot, set_slot}
use co_usb.Ev.AnyHandler.{AnyHandler, ref_any, unref_any, start_any, stop_any}

pub record Refs : Type 0 where
  pub originals : List ℕ
  pub handlers : ℕ → AnyHandler

abbrev pub change : (ℕ → AnyHandler) → ℕ → (AnyHandler → AnyHandler) → ℕ → AnyHandler
change handlers p f q = if q == p then f (handlers q) else handlers q

-- `ref` and `unref` of a reference to `p`.
unfoldable pub ref : ℕ → Refs → Refs
ref p s = if p == 0 then s else record s { handlers = change s.handlers p ref_any }

unfoldable pub unref : ℕ → Refs → Refs
unref p s = if p == 0 then s else record s { handlers = change s.handlers p unref_any }

abbrev set : ℕ → ℕ → Refs → Refs
set self p s = record s { originals = set_slot s.originals self p }

-- The constructors add a reference at the end.
unfoldable pub make_ref : ℕ → Refs → Refs
unfolding ref
make_ref handler s = ref handler (record s { originals = s.originals ++ handler ∷ [] })

unfoldable pub copy_ref : ℕ → Refs → Refs
unfolding ref
copy_ref other s =
    let p = slot s.originals other in ref p (record s { originals = s.originals ++ p ∷ [] })

unfoldable pub move_ref : ℕ → Refs → Refs
move_ref other s =
    let p = slot s.originals other in
    record s { originals = set_slot s.originals other 0 ++ p ∷ [] }

-- `operator=` from a handler, from a reference, and from a temporary one.
unfoldable pub assign_handler : ℕ → ℕ → Refs → Refs
unfolding ref
assign_handler self handler s =
    if slot s.originals self == handler then s else ref handler (set self handler s)

unfoldable pub assign_ref : ℕ → ℕ → Refs → Refs
unfolding ref unref
assign_ref self other s =
    if self == other
    then s
    else let p = slot s.originals other in ref p (set self p (unref (slot s.originals self) s))

unfoldable pub assign_moved : ℕ → ℕ → Refs → Refs
unfolding unref
assign_moved self other s =
    if self == other
    then s
    else let p = slot s.originals other in
      set other 0 (set self p (unref (slot s.originals self) s))

unfoldable pub destroy_ref : ℕ → Refs → Refs
unfolding unref
destroy_ref self s = set self 0 (unref (slot s.originals self) s)

unfoldable pub valid_ref : ℕ → Refs → Bool
valid_ref self s = not (slot s.originals self == 0)

-- `start` and `stop` go to the handler, which answers `start`.
unfoldable pub start_ref : ℕ → ℕ → ℕ → Refs → Refs × Bool
unfolding start_any
start_ref self usb_ctx stop s =
    let p = slot s.originals self in
    let started = start_any usb_ctx stop (s.handlers p) in
    if p == 0
    then (s, false)
    else (record s { handlers = change s.handlers p (λ _. started.0) }, started.1)

unfoldable pub stop_ref : ℕ → Refs → Refs
unfolding stop_any
stop_ref self s =
    let p = slot s.originals self in
    if p == 0 then s else record s { handlers = change s.handlers p stop_any }
