-- ===== src/Ev/HandlerRef/Tests.antt =====
-- Two references to a handler of two.
use co_usb.Prelude.{ℕ, ◌+◌, refl, none, some, [], ◌∷◌, ◌==◌, if◌then◌else◌, arith}
use co_usb.Ev.Handlers.{HandlerType}
use co_usb.Ev.AnyHandler.{AnyHandler}
use co_usb.Ev.HandlerRef.{
  Refs, make_ref, copy_ref, move_ref, assign_handler, assign_ref, assign_moved, destroy_ref,
}
use co_usb.Prelude.Slots.{count}
use co_usb.Ev.HandlerRef.Counts.{Counter, Counted, refs-Counted}
use co_usb.Ev.HandlerRef.Leaks.{assign_handler-Counted}

abbrev with_counter : ℕ → AnyHandler
with_counter n = record {
  m_storage = some (record { type = HandlerType.refcounted; m_counter = n; m_thread = none });
}

abbrev two : Refs
two = record {
  originals = 7 ∷ 8 ∷ 7 ∷ [];
  handlers = λ p. if p == 7 then with_counter 2 else with_counter 1;
}

two-Counted : Counted 7 two
unfolding count
two-Counted = record {
  handler = record { type = HandlerType.refcounted; m_counter = 2; m_thread = none };
  stored = refl;
  counted = refl;
  counter = refl;
}

refs-Counted_example :
    Counted 7 (make_ref 7 two)
    × Counted 7 (copy_ref 1 two)
    × Counted 7 (move_ref 1 two)
    × Counted 7 (assign_ref 0 1 two)
    × Counted 7 (assign_moved 0 1 two)
    × Counted 7 (destroy_ref 0 two)
refs-Counted_example =
    refs-Counted 7 0 1 7 two (λ e. omega (arith, e)) (omega arith) (omega arith) two-Counted

assign_handler-Counted_example :
    let after = assign_handler 0 8 two in Counter (count 7 after.originals + 1) (after.handlers 7)
assign_handler-Counted_example =
    assign_handler-Counted 7 0 8 two (λ e. omega (arith, e)) (omega arith) two-Counted
