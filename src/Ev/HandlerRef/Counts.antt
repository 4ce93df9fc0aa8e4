-- ===== src/Ev/HandlerRef/Counts.antt =====
-- The counter of a reference-counted handler is the number of references to it.
use co_usb.Prelude.{
  ℕ, ◌+◌, ◌%◌, ◌≡◌, ◌≢◌, ◌<◌, refl, true, false, Bool-cases, inl, inr, some, List, [], ◌∷◌, ◌++◌,
  length, ◌==◌, ==_iff, arith,
}
use co_usb.Prelude.Words.{size_mod, inc_size, dec_size}
use co_usb.Ev.Handlers.{HandlerType, Handler, ref_handler, unref_handler}
use co_usb.Ev.AnyHandler.{AnyHandler, ref_any, unref_any}
use co_usb.Ev.HandlerRef.{
  Refs, ref, unref, make_ref, copy_ref, move_ref, assign_ref, assign_moved, destroy_ref,
}
use co_usb.Prelude.Slots.{slot, set_slot}
use co_usb.Prelude.Slots.{one_if, count, count-snoc, count-set_slot, slot-set_slot, length-set_slot}

-- A stored reference-counted handler whose counter is `n`, as a `size_t`.
pub record Counter (n : ℕ) (a : AnyHandler) : Type 0 where
  pub handler : Handler
  pub stored : a.m_storage ≡ some handler
  pub counted : handler.type ≡ HandlerType.refcounted
  pub counter : handler.m_counter ≡ n % size_mod

-- Of the handler at `p`.
abbrev pub Counted : ℕ → Refs → Type 0
Counted p s = Counter (count p s.originals) (s.handlers p)

ref_any-Counter : (n : ℕ) (a : AnyHandler) → Counter n a → Counter (n + 1) (ref_any a)
unfolding ref_any ref_handler inc_size
ref_any-Counter n a c = record {
  handler = ref_handler c.handler;
  stored = ground (arith, c.stored);
  counted = ground (arith, c.counted);
  counter = ground (arith, c.counted, c.counter);
}

unref_any-Counter : (n : ℕ) (a : AnyHandler) → Counter (n + 1) a → Counter n (unref_any a)
unfolding unref_any unref_handler dec_size
unref_any-Counter n a c = record {
  handler = unref_handler c.handler;
  stored = ground (arith, c.stored);
  counted = ground (arith, c.counted);
  counter = ground (arith, c.counted, c.counter);
}

pub Counter-subst : {n m : ℕ} {a b : AnyHandler} → n ≡ m → a ≡ b → Counter n a → Counter m b
Counter-subst e f c = record {
  handler = c.handler;
  stored = ground (arith, f, c.stored);
  counted = c.counted;
  counter = ground (arith, e, c.counter);
}

-- `ref` and `unref` of a reference to `q`, and the counter at `p`.
pub ref-Counter :
    (p q n : ℕ) (s : Refs)
    → p ≢ 0
    → Counter n (s.handlers p)
    → Counter (n + one_if p q) ((ref q s).handlers p)
unfolding ref
ref-Counter p q n s z c = elim (Bool-cases (q == p)) [
  | inl e ↦
      Counter-subst (ground (arith, e)) (ground (arith, e, z, ==_iff q p, ==_iff q 0))
        (ref_any-Counter n (s.handlers p) c)
  | inr e ↦ Counter-subst (ground (arith, e)) (ground (arith, e, ==_iff q p, ==_iff p q)) c
]

unref-Counter :
    (p q n : ℕ) (s : Refs)
    → p ≢ 0
    → Counter (n + one_if p q) (s.handlers p)
    → Counter n ((unref q s).handlers p)
unfolding unref
unref-Counter p q n s z c = elim (Bool-cases (q == p)) [
  | inl e ↦
      Counter-subst refl (ground (arith, e, z, ==_iff q p, ==_iff q 0))
        (unref_any-Counter n (s.handlers p) (Counter-subst (one e) refl c))
  | inr e ↦ Counter-subst (none_of e) (ground (arith, e, ==_iff q p, ==_iff p q)) c
]
  where
    one : (q == p) ≡ true → n + one_if p q ≡ n + 1
    one e = ground (arith, e)

    none_of : (q == p) ≡ false → n + one_if p q ≡ n
    none_of e = ground (arith, e)

-- The references without the one at `self`, and the handler it led to.
pub dropped :
    (p self : ℕ) (xs : List ℕ)
    → p ≢ 0
    → self < length xs
    → count p xs ≡ count p (set_slot xs self 0) + one_if p (slot xs self)
dropped p self xs z h = ground (arith, count-set_slot p 0 xs self h, ==_iff 0 p)

pub replaced :
    (p self q : ℕ) (xs : List ℕ)
    → p ≢ 0
    → self < length xs
    → count p (set_slot xs self q) ≡ count p (set_slot xs self 0) + one_if p q
replaced p self q xs z h =
    ground (arith, count-set_slot p 0 xs self h, count-set_slot p q xs self h, ==_iff 0 p)

moved_away :
    (p other : ℕ) (xs : List ℕ)
    → p ≢ 0
    → other < length xs
    → count p xs ≡ count p (set_slot xs other 0 ++ slot xs other ∷ [])
moved_away p other xs z h =
    ground (arith, dropped p other xs z h, count-snoc p (slot xs other) (set_slot xs other 0))

make_ref-Counted : (p handler : ℕ) (s : Refs) → p ≢ 0 → Counted p s → Counted p (make_ref handler s)
unfolding make_ref ref
make_ref-Counted p handler s z c =
    Counter-subst (ground (arith, count-snoc p handler s.originals)) (ground arith)
      (ref-Counter p handler (count p s.originals) s z c)

copy_ref-Counted : (p other : ℕ) (s : Refs) → p ≢ 0 → Counted p s → Counted p (copy_ref other s)
unfolding copy_ref make_ref ref
copy_ref-Counted p other s z c = make_ref-Counted p (slot s.originals other) s z c

move_ref-Counted :
    (p other : ℕ) (s : Refs)
    → p ≢ 0
    → other < length s.originals
    → Counted p s
    → Counted p (move_ref other s)
unfolding move_ref
move_ref-Counted p other s z h c = Counter-subst (moved_away p other s.originals z h) refl c

destroy_ref-Counted :
    (p self : ℕ) (s : Refs)
    → p ≢ 0
    → self < length s.originals
    → Counted p s
    → Counted p (destroy_ref self s)
unfolding destroy_ref unref
destroy_ref-Counted p self s z h c =
    let q = slot s.originals self in
    Counter-subst (ground arith) (ground arith) (
      unref-Counter p q (count p (set_slot s.originals self 0)) s z
        (Counter-subst (dropped p self s.originals z h) refl c))

assign_ref-Counted :
    (p self other : ℕ) (s : Refs)
    → p ≢ 0
    → self < length s.originals
    → Counted p s
    → Counted p (assign_ref self other s)
unfolding assign_ref ref unref
assign_ref-Counted p self other s z h c =
    let old = slot s.originals self in
    let q = slot s.originals other in
    let n = count p (set_slot s.originals self 0) in
    elim (Bool-cases (self == other)) [
      | inl e ↦ Counter-subst (ground (arith, e)) (ground (arith, e)) c
      | inr e ↦
          Counter-subst (ground (arith, e, replaced p self q s.originals z h)) (ground (arith, e)) (
            ref-Counter p q n (unref old s) z
              (unref-Counter p old n s z (Counter-subst (dropped p self s.originals z h) refl c)))
    ]

assign_moved-Counted :
    (p self other : ℕ) (s : Refs)
    → p ≢ 0
    → self < length s.originals
    → other < length s.originals
    → Counted p s
    → Counted p (assign_moved self other s)
unfolding assign_moved unref
assign_moved-Counted p self other s z h k c =
    let old = slot s.originals self in
    let q = slot s.originals other in
    let n = count p (set_slot s.originals self 0) in
    let placed = set_slot s.originals self q in
    elim (Bool-cases (self == other)) [
      | inl e ↦ Counter-subst (ground (arith, e)) (ground (arith, e)) c
      | inr e ↦
          Counter-subst
            (ground (
              arith,
              e,
              ==_iff self other,
              ==_iff other self,
              ==_iff 0 p,
              replaced p self q s.originals z h,
              length-set_slot s.originals self q,
              slot-set_slot s.originals self other q h,
              count-set_slot p 0 placed other,
            ))
            (ground (arith, e))
            (unref-Counter p old n s z (Counter-subst (dropped p self s.originals z h) refl c))
    ]

-- Where the counter of a stored reference-counted handler, whose address is not null, is the number of
-- references that lead to it, modulo 2^64, it still is after a construction, copy, move, assignment
-- from a reference or destruction of references in their places, to this handler or to others.
pub refs-Counted :
    (p self other handler : ℕ) (s : Refs)
    → p ≢ 0
    → self < length s.originals
    → other < length s.originals
    → Counted p s
    → Counted p (make_ref handler s)
      × Counted p (copy_ref other s)
      × Counted p (move_ref other s)
      × Counted p (assign_ref self other s)
      × Counted p (assign_moved self other s)
      × Counted p (destroy_ref self s)
refs-Counted p self other handler s z h k c = (
  make_ref-Counted p handler s z c,
  copy_ref-Counted p other s z c,
  move_ref-Counted p other s z k c,
  assign_ref-Counted p self other s z h c,
  assign_moved-Counted p self other s z h k c,
  destroy_ref-Counted p self s z h c,
)
