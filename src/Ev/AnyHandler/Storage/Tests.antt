-- ===== src/Ev/AnyHandler/Storage/Tests.antt =====
-- An `any_event_handler` that is made and moved.
use co_usb.Prelude.{ℕ, Bool, true, false, ◌≡◌, refl, inl, is_some, none, some, arith}
use co_usb.Ev.AnyHandler.Storage.{
  HandlerTy, World, make_any, store_handler, construct_storage, make_vtable, move_any, assign_any,
  emplace, destroy_any,
}
use co_usb.Ev.AnyHandler.Storage.Sound.{Sound}
use co_usb.Ev.AnyHandler.Storage.Reach.{
  Fresh, makes, moves, Reach, here, next, nothing, Reach-Sound,
}

abbrev trivial_type : HandlerTy
trivial_type = record { id = 1; size_of = 8; align_of = 8 }

-- The object at 10 stores a handler at 500, and the object at 20 takes it over.
made : (w : World) × (make_any 10 trivial_type 1 500 false nothing ≡ some (w, true))
unfolding make_any store_handler construct_storage make_vtable
made = (_, refl)

moved : Reach nothing (move_any 20 10 made.0)
unfolding made
moved =
    next
      (next here
        (makes 10 trivial_type 1 500 false true refl ((λ e. ground (arith, e)), inl refl) made.1))
      (moves 20 10 refl (λ e. ground (arith, e)))

Reach-Sound_example :
    Sound (move_any 20 10 made.0)
    × ((this other : ℕ) → is_some (assign_any this other (move_any 20 10 made.0)) ≡ true)
    × ((this : ℕ) (type : HandlerTy) (memres ptr : ℕ) (throws : Bool)
        → Fresh this ptr (move_any 20 10 made.0)
        → is_some (emplace this type memres ptr throws (move_any 20 10 made.0)) ≡ true)
    × ((this : ℕ) → is_some (destroy_any this (move_any 20 10 made.0)) ≡ true)
    × (((i : ℕ) → ((move_any 20 10 made.0).objects i).m_storage ≡ 0)
        → (p : ℕ) → (move_any 20 10 made.0).memory p ≡ none)
Reach-Sound_example = Reach-Sound (move_any 20 10 made.0) moved
