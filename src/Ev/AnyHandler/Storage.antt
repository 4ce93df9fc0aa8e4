-- ===== src/Ev/AnyHandler/Storage.antt =====
-- The memory of include/co_usb/ev/any_event_handler.hpp. Objects and blocks are known by their
-- addresses; where there is no `any_event_handler`, or a destroyed one, there is an empty one. A table
-- of functions is known by the type that they are of. `none` is undefined behaviour: a
-- destructor or a deallocation that does not fit what is there, or a call through an empty table.
pub mod Sound
pub mod Reach
mod Tests
use co_usb.Prelude.{
  ℕ, Bool, true, false, ◌&&◌, ◌||◌, not, Option, none, some, is_some, ◌==◌, ◌>>=◌, if◌then◌else◌,
}

-- What the library asks of a handler type, its `sizeof` and its `alignof`. `id` tells types apart.
pub record HandlerTy : Type 0 where
  pub id : ℕ
  pub size_of : ℕ
  pub align_of : ℕ

-- What a memory resource gave, and the handler that lives there.
pub record Block : Type 0 where
  pub memres : ℕ
  pub size : ℕ
  pub align : ℕ
  pub object : Option HandlerTy

pub record Vtable : Type 0 where
  pub functions_of : HandlerTy
  pub table_size : ℕ
  pub table_align : ℕ

pub record AnyEventHandler : Type 0 where
  pub m_vtable : Option Vtable
  pub m_memres : ℕ
  pub m_storage : ℕ

abbrev pub default_resource : ℕ
default_resource = 1

abbrev pub empty : AnyEventHandler
empty = record { m_vtable = none; m_memres = default_resource; m_storage = 0 }

pub record World : Type 0 where
  pub objects : ℕ → AnyEventHandler
  pub memory : ℕ → Option Block

abbrev pub set_object : ℕ → AnyEventHandler → World → World
set_object this x w = record w { objects = λ p. if p == this then x else w.objects p }

abbrev pub set_block : ℕ → Option Block → World → World
set_block ptr b w = record w { memory = λ p. if p == ptr then b else w.memory p }

-- `memres->allocate`, which gives `ptr`.
abbrev pub allocate : ℕ → ℕ → ℕ → ℕ → World → World
allocate memres size align ptr =
    set_block ptr (some (record { memres = memres; size = size; align = align; object = none }))

abbrev pub deallocate : ℕ → ℕ → ℕ → ℕ → World → Option World
deallocate memres ptr size align w = elim (w.memory ptr) [
  | none ↦ none
  | some b ↦
      if b.memres == memres && b.size == size && b.align == align && not (is_some b.object)
      then some (set_block ptr none w)
      else none
]

-- The destructor of a handler of a type, and its constructor.
abbrev pub destruct : HandlerTy → ℕ → World → Option World
destruct type ptr w = elim (w.memory ptr) [
  | none ↦ none
  | some b ↦ elim (b.object) [
    | none ↦ none
    | some there ↦
        if there.id == type.id
        then some (set_block ptr (some (record b { object = none })) w)
        else none
  ]
]

abbrev pub construct : HandlerTy → ℕ → World → Option World
construct type ptr w = elim (w.memory ptr) [
  | none ↦ none
  | some b ↦ some (set_block ptr (some (record b { object = some type })) w)
]

unfoldable pub make_vtable : HandlerTy → Vtable
make_vtable type = record {
  functions_of = type;
  table_size = type.size_of;
  table_align = type.align_of;
}

-- `false` is the exception of the handler's constructor.
unfoldable pub construct_storage : HandlerTy → ℕ → ℕ → Bool → World → Option (World × Bool)
construct_storage type memres ptr throws w =
    let allocated = allocate memres type.size_of type.align_of ptr w in
    if throws
    then (do w' ← deallocate memres ptr type.size_of type.align_of allocated; some (w', false))
    else (do w' ← construct type ptr allocated; some (w', true))

-- `m_vtable.dtor_fn`, with the deallocation that follows.
unfoldable pub destroy_storage : AnyEventHandler → Vtable → World → Option World
destroy_storage self table w = do
  w' ← destruct table.functions_of self.m_storage w
  deallocate self.m_memres self.m_storage table.table_size table.table_align w'

unfoldable pub destroy : ℕ → World → Option World
unfolding destroy_storage
destroy this w =
    let self = w.objects this in
    if self.m_storage == 0 then some w else elim (self.m_vtable) [
      | none ↦ none
      | some table ↦ do
        w' ← destroy_storage self table w
        some (set_object this (record self { m_storage = 0 }) w')
    ]

-- The end of a constructor or of `emplace`, from the construction of the handler on.
unfoldable pub store_handler : ℕ → HandlerTy → ℕ → ℕ → Bool → World → Option (World × Bool)
unfolding construct_storage make_vtable
store_handler this type memres ptr throws w = do
  (w', made) ← construct_storage type memres ptr throws w
  some (
    if made
        then set_object this
            (record { m_vtable = some (make_vtable type); m_memres = memres; m_storage = ptr }) w'
        else w',
    made,
  )

-- The constructors with a handler; the one without `memres` passes the default resource.
unfoldable pub make_any : ℕ → HandlerTy → ℕ → ℕ → Bool → World → Option (World × Bool)
unfolding store_handler
make_any this type memres ptr throws w = store_handler this type memres ptr throws w

unfoldable pub emplace : ℕ → HandlerTy → ℕ → ℕ → Bool → World → Option (World × Bool)
unfolding destroy store_handler
emplace this type memres ptr throws w = do
  w' ← destroy this w
  store_handler this type memres ptr throws
      (set_object this (record (w'.objects this) { m_memres = memres }) w')

-- `emplace` without `memres`.
unfoldable pub emplace_same : ℕ → HandlerTy → ℕ → Bool → World → Option (World × Bool)
unfolding emplace
emplace_same this type ptr throws w = emplace this type (w.objects this).m_memres ptr throws w

-- What the move operations share: the table, the resource and the storage go over.
abbrev pub take_over : ℕ → ℕ → World → World
take_over this other w =
    let taken = set_object this (w.objects other) w in
    set_object other (record (taken.objects other) { m_storage = 0 }) taken

unfoldable pub move_any : ℕ → ℕ → World → World
move_any this other w = take_over this other w

unfoldable pub assign_any : ℕ → ℕ → World → Option World
unfolding destroy
assign_any this other w =
    if this == other then some w else do w' ← destroy this w; some (take_over this other w')

-- The destructor; the object is gone then.
unfoldable pub destroy_any : ℕ → World → Option World
unfolding destroy
destroy_any this w = do w' ← destroy this w; some (set_object this empty w')
