-- ===== src/Ev/AnyHandler/Storage/Reach.antt =====
-- Every order of constructions, moves, assignments and destructions of `any_event_handler`s.
use co_usb.Prelude.{
  ℕ, ◌≡◌, ◌≢◌, refl, ap, subst, ◌⊎◌, inl, inr, Bool, Bool-cases, Option-cases, is_some, true, false,
  Option, none, some, ◌==◌, ==_iff, arith,
}
use co_usb.Ev.AnyHandler.Storage.{
  HandlerTy, Block, AnyEventHandler, empty, World, set_object, set_block, allocate, make_vtable,
  construct_storage, store_handler, make_any, emplace, emplace_same, take_over, move_any,
  assign_any, destroy_any,
}
use co_usb.Ev.AnyHandler.Storage.Sound.{
  Sound, destroy-Cleared, Cleared-Sound, Stored-Sound, Taken-Sound, Idle, Idle-Sound,
}

-- The operation is defined, and what it leaves is sound.
abbrev Leaves : Option World → Type 0
Leaves o = (w : World) × (o ≡ some w) × Sound w

-- The same with whether a handler was constructed.
abbrev LeavesMade : Option (World × Bool) → Type 0
LeavesMade o = (w : World) × (made : Bool) × (o ≡ some (w, made)) × Sound w

store_handler-Sound :
    (this : ℕ) (type : HandlerTy) (memres ptr : ℕ) (throws : Bool) (w : World)
    → Sound w
    → (w.objects this).m_storage ≡ 0
    → ptr ≢ 0
    → w.memory ptr ≡ none
    → LeavesMade (store_handler this type memres ptr throws w)
unfolding store_handler construct_storage make_vtable
store_handler-Sound this type memres ptr true w v idle nz free =
    let allocated = allocate memres type.size_of type.align_of ptr w in
    let w' = set_block ptr none allocated in
    (
      w',
      false,
      ground arith,
      Idle-Sound w w' v
          (record { objects = λ p. inl refl; memory = λ p. ground (arith, free, ==_iff p ptr) }),
    )
store_handler-Sound this type memres ptr false w v idle nz free =
    let allocated = allocate memres type.size_of type.align_of ptr w in
    let x : AnyEventHandler = record {
      m_vtable = some (make_vtable type);
      m_memres = memres;
      m_storage = ptr;
    } in
    let b : Block = record {
      memres = memres;
      size = type.size_of;
      align = type.align_of;
      object = some type;
    } in
    let w' = set_object this x (set_block ptr (some b) allocated) in
    (
      w',
      true,
      ground arith,
      Stored-Sound this ptr x (make_vtable type) w w' v idle nz free (record {
        has_table = refl;
        there = refl;
        objects = λ p. refl;
        memory = λ p. ground arith;
      }),
    )

-- What `allocate` may return once the object has been destroyed.
abbrev pub Fresh : ℕ → ℕ → World → Type 0
Fresh this ptr w = (ptr ≢ 0) × ((w.memory ptr ≡ none) ⊎ (ptr ≡ (w.objects this).m_storage))

set_object-Idle :
    (this : ℕ) (x : AnyEventHandler) (w : World)
    → (w.objects this).m_storage ≡ 0
    → x.m_storage ≡ 0
    → Idle w (set_object this x w)
set_object-Idle this x w idle z = record {
  objects = λ p. elim (Bool-cases (p == this)) [
    | inl e ↦ inr (ground (arith, e, z), ground (arith, e, idle))
    | inr d ↦ inl (ground (arith, d))
  ];
  memory = λ p. refl;
}

emplace-Sound :
    (this : ℕ) (type : HandlerTy) (memres ptr : ℕ) (throws : Bool) (w : World)
    → Sound w
    → Fresh this ptr w
    → LeavesMade (emplace this type memres ptr throws w)
unfolding emplace
emplace-Sound this type memres ptr throws w v (nz, fresh) =
    let (w₁, e, c) = destroy-Cleared this w v in
    let w₂ = set_object this (record (w₁.objects this) { m_memres = memres }) w₁ in
    let idle : (w₁.objects this).m_storage ≡ 0 = ground (arith, c.objects this) in
    let s₂ = Idle-Sound w₁ w₂ (Cleared-Sound this w w₁ v c) (set_object-Idle this _ w₁ idle idle) in
    let (w', made, e', s') =
      store_handler-Sound this type memres ptr throws w₂ s₂ (ground (arith, idle)) nz
        (ground (arith, c.memory ptr, fresh, ==_iff ptr (w.objects this).m_storage)) in
    (w', made, ground (arith, e, e'), s')

take_over-Sound :
    (this other : ℕ) (w : World)
    → Sound w
    → (w.objects this).m_storage ≡ 0
    → this ≢ other
    → Sound (take_over this other w)
take_over-Sound this other w v idle ne =
    Taken-Sound this other w _ v idle ne
      (record { objects = λ p. ground (arith, ne, ==_iff other this); memory = λ p. refl })

assign_any-Sound : (this other : ℕ) (w : World) → Sound w → Leaves (assign_any this other w)
unfolding assign_any
assign_any-Sound this other w v = elim (Bool-cases (this == other)) [
  | inl same ↦ (w, ground (arith, same), v)
  | inr ne ↦
      let (w₁, e, c) = destroy-Cleared this w v in
      (
        take_over this other w₁,
        ground (arith, ne, e),
        take_over-Sound this other w₁ (Cleared-Sound this w w₁ v c) (ground (arith, c.objects this))
            (λ e. ground (arith, ne, e)),
      )
]

destroy_any-Sound : (this : ℕ) (w : World) → Sound w → Leaves (destroy_any this w)
unfolding destroy_any
destroy_any-Sound this w v =
    let (w₁, e, c) = destroy-Cleared this w v in
    let idle : (w₁.objects this).m_storage ≡ 0 = ground (arith, c.objects this) in
    (
      set_object this empty w₁,
      ground (arith, e),
      Idle-Sound w₁ _ (Cleared-Sound this w w₁ v c) (set_object-Idle this empty w₁ idle refl),
    )

-- A construction is at an address where nothing is stored.
pub data Step (w : World) : World → Type 0 where
  makes :
      (this : ℕ) (type : HandlerTy) (memres ptr : ℕ) (throws made : Bool) {w' : World}
      → (w.objects this).m_storage ≡ 0
      → Fresh this ptr w
      → make_any this type memres ptr throws w ≡ some (w', made)
      → Step w w'
  emplaces :
      (this : ℕ) (type : HandlerTy) (memres ptr : ℕ) (throws made : Bool) {w' : World}
      → Fresh this ptr w
      → emplace this type memres ptr throws w ≡ some (w', made)
      → Step w w'
  emplaces_same :
      (this : ℕ) (type : HandlerTy) (ptr : ℕ) (throws made : Bool) {w' : World}
      → Fresh this ptr w
      → emplace_same this type ptr throws w ≡ some (w', made)
      → Step w w'
  moves :
      (this other : ℕ)
      → (w.objects this).m_storage ≡ 0
      → this ≢ other
      → Step w (move_any this other w)
  assigns : (this other : ℕ) {w' : World} → assign_any this other w ≡ some w' → Step w w'
  destroys : (this : ℕ) {w' : World} → destroy_any this w ≡ some w' → Step w w'

pub data Reach (start : World) : World → Type 0 where
  here : Reach start start
  next : {w w' : World} → Reach start w → Step w w' → Reach start w'

found : {w w' : World} (o : Option World) → o ≡ some w' → (o ≡ some w) × Sound w → Sound w'
found o e l = subst Sound (cc (e, l.0)) l.1

found_made :
    {w w' : World} {made made' : Bool} (o : Option (World × Bool))
    → o ≡ some (w', made')
    → o ≡ some (w, made)
    → Sound w
    → Sound w'
found_made o e l s = subst Sound (cc (e, l)) s

Step-Sound : {w w' : World} → Step w w' → Sound w → Sound w'
unfolding make_any emplace_same move_any
Step-Sound {w} (makes this type memres ptr throws made idle (nz, fresh) e) v =
    let (w', made', l, s) =
      store_handler-Sound this type memres ptr throws w v idle nz
        (ground (arith, idle, nz, fresh)) in
    found_made _ e l s
Step-Sound {w} (emplaces this type memres ptr throws made fresh e) v =
    let (w', made', l, s) = emplace-Sound this type memres ptr throws w v fresh in
    found_made _ e l s
Step-Sound {w} (emplaces_same this type ptr throws made fresh e) v =
    let (w', made', l, s) =
      emplace-Sound this type (w.objects this).m_memres ptr throws w v fresh in
    found_made _ e l s
Step-Sound {w} (moves this other idle ne) v = take_over-Sound this other w v idle ne
Step-Sound {w} (assigns this other e) v =
    let (w', l, s) = assign_any-Sound this other w v in found _ e (l, s)
Step-Sound {w} (destroys this e) v = let (w', l, s) = destroy_any-Sound this w v in found _ e (l, s)

Reach-keeps : {w w' : World} → Sound w → Reach w w' → Sound w'
Reach-keeps v here = v
Reach-keeps v (next reach step) = Step-Sound step (Reach-keeps v reach)

abbrev pub nothing : World
nothing = record { objects = λ _. empty; memory = λ _. none }

nothing-Sound : Sound nothing
nothing-Sound = record {
  held = λ i n. absurd (n refl);
  apart = λ i j d n. absurd (n refl);
  owned = λ p b e. absurd (cc);
  null = refl;
}

Sound-freed :
    (w : World) → Sound w → ((i : ℕ) → (w.objects i).m_storage ≡ 0) → (p : ℕ) → w.memory p ≡ none
Sound-freed w v gone p = elim (Option-cases (w.memory p)) [
  | inl e ↦ e
  | inr (b, e) ↦ let (i, s) = v.owned p b e in absurd (ground (arith, gone i, s, e, v.null))
]

-- From no objects and no memory, by constructions of `any_event_handler`s whose handlers may throw,
-- moves, assignments, `emplace`s and destructions in any order, with addresses of new blocks
-- that are not null and free when they are allocated: every stored handler is the one object of its
-- block, which is of the size and the resource that the object gives it back with, and no two objects
-- store the same; an assignment, an `emplace` and a destruction never destroy or
-- free what does not fit; and once no object stores a handler, no block is left.
pub Reach-Sound :
    (w : World)
    → Reach nothing w
    → Sound w
      × ((this other : ℕ) → is_some (assign_any this other w) ≡ true)
      × ((this : ℕ) (type : HandlerTy) (memres ptr : ℕ) (throws : Bool)
          → Fresh this ptr w
          → is_some (emplace this type memres ptr throws w) ≡ true)
      × ((this : ℕ) → is_some (destroy_any this w) ≡ true)
      × (((i : ℕ) → (w.objects i).m_storage ≡ 0) → (p : ℕ) → w.memory p ≡ none)
Reach-Sound w reach =
    let v = Reach-keeps nothing-Sound reach in
    (
      v,
      λ this other. let (_, e, _) = assign_any-Sound this other w v in ap is_some e,
      λ this type memres ptr throws fresh.
          let (_, _, e, _) = emplace-Sound this type memres ptr throws w v fresh in ap is_some e,
      λ this. let (_, e, _) = destroy_any-Sound this w v in ap is_some e,
      Sound-freed w v,
    )
