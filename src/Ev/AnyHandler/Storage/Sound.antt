-- ===== src/Ev/AnyHandler/Storage/Sound.antt =====
-- Each handler that an `any_event_handler` of include/co_usb/ev/any_event_handler.hpp stores is
-- destroyed and its memory given back once, by the functions of its type and to its resource.
use co_usb.Prelude.{
  ℕ, ◌≡◌, ◌≢◌, sym, ap, ◌∙◌, inl, inr, ◌⊎◌, Bool-cases, Option, none, some, ◌==◌, ==_iff,
  if◌then◌else◌, arith,
}
use co_usb.Ev.AnyHandler.Storage.{
  Block, Vtable, AnyEventHandler, World, set_object, set_block, destroy_storage, destroy,
}

-- The block that an object's table and resource are of.
abbrev pub block_of : AnyEventHandler → Vtable → Block
block_of x table = record {
  memres = x.m_memres;
  size = table.table_size;
  align = table.table_align;
  object = some table.functions_of;
}

pub record Holds (x : AnyEventHandler) (memory : ℕ → Option Block) : Type 0 where
  pub table : Vtable
  pub has_table : x.m_vtable ≡ some table
  pub block : memory x.m_storage ≡ some (block_of x table)

-- Every storage is a live block of its object, no two objects have the same, and every block is the
-- storage of some object.
pub record Sound (w : World) : Type 0 where
  pub held : (i : ℕ) → (w.objects i).m_storage ≢ 0 → Holds (w.objects i) w.memory
  pub apart :
      (i j : ℕ)
      → i ≢ j
      → (w.objects i).m_storage ≢ 0
      → (w.objects i).m_storage ≢ (w.objects j).m_storage
  pub owned : (p : ℕ) (b : Block) → w.memory p ≡ some b → (i : ℕ) × ((w.objects i).m_storage ≡ p)
  pub null : w.memory 0 ≡ none

-- The object stores nothing any more, and its block is free.
pub record Cleared (this : ℕ) (w w' : World) : Type 0 where
  pub objects :
      (p : ℕ)
      → w'.objects p
        ≡ (if p == this then record (w.objects this) { m_storage = 0 } else w.objects p)
  pub memory :
      (p : ℕ) → w'.memory p ≡ (if p == (w.objects this).m_storage then none else w.memory p)

pub destroy-Cleared :
    (this : ℕ) (w : World) → Sound w → (w' : World) × (destroy this w ≡ some w') × Cleared this w w'
unfolding destroy destroy_storage
destroy-Cleared this w v = elim (Bool-cases ((w.objects this).m_storage == 0)) [
  | inl z ↦ (
    w,
    ground (arith, z),
    record {
      objects = λ p. ground (arith, z, ==_iff p this);
      memory = λ p. ground (arith, z, v.null, ==_iff p 0);
    },
  )
  | inr n ↦
      let x = w.objects this in
      let h = v.held this (λ z. absurd (ground (arith, n, z))) in
      let b = block_of x h.table in
      (
        set_object this (record x { m_storage = 0 })
            (set_block x.m_storage none
              (set_block x.m_storage (some (record b { object = none })) w)),
        ground (arith, n, h.has_table, h.block),
        record { objects = λ p. ground arith; memory = λ p. ground arith },
      )
]

-- An object that stored nothing stores a new handler.
pub record Stored (this ptr : ℕ) (x : AnyEventHandler) (table : Vtable) (w w' : World)
    : Type 0 where
  pub has_table : x.m_vtable ≡ some table
  pub there : x.m_storage ≡ ptr
  pub objects : (p : ℕ) → w'.objects p ≡ (if p == this then x else w.objects p)
  pub memory : (p : ℕ) → w'.memory p ≡ (if p == ptr then some (block_of x table) else w.memory p)

-- The storage of an object goes to one that stored nothing.
pub record Taken (this other : ℕ) (w w' : World) : Type 0 where
  pub objects :
      (p : ℕ)
      → w'.objects p ≡ (
          if p == other
          then record (w.objects other) { m_storage = 0 }
          else if p == this
          then w.objects other
          else w.objects p)
  pub memory : (p : ℕ) → w'.memory p ≡ w.memory p

-- Only objects that store nothing change.
pub record Idle (w w' : World) : Type 0 where
  pub objects :
      (p : ℕ)
      → (w'.objects p ≡ w.objects p)
        ⊎ (((w'.objects p).m_storage ≡ 0) × ((w.objects p).m_storage ≡ 0))
  pub memory : (p : ℕ) → w'.memory p ≡ w.memory p

pub Cleared-Sound : (this : ℕ) (w w' : World) → Sound w → Cleared this w w' → Sound w'
Cleared-Sound this w w' v c = record {
  held = λ i n. elim (Bool-cases (i == this)) [
    | inl e ↦ absurd (n (ground (arith, c.objects i, e)))
    | inr d ↦
        let same : w'.objects i ≡ w.objects i = ground (arith, c.objects i, d) in
        let h = v.held i (λ z. n (ap (λ x. x.m_storage) same ∙ z)) in
        record {
          table = h.table;
          has_table = ground (arith, same, h.has_table);
          block = ground (
            arith,
            same,
            h.block,
            c.memory (w.objects i).m_storage,
            v.apart i this,
            ==_iff i this,
            n,
          );
        }
  ];
  apart = λ i j d n. ground (arith, c.objects i, c.objects j, v.apart i j d);
  owned = λ p b e. elim (Bool-cases (p == (w.objects this).m_storage)) [
    | inl z ↦ absurd (ground (arith, c.memory p, z, e))
    | inr d ↦
        let (i, s) = v.owned p b (ground (arith, c.memory p, d, e)) in
        (i, ground (arith, c.objects i, s, d, ==_iff i this))
  ];
  null = ground (arith, c.memory 0, v.null);
}

pub Stored-Sound :
    (this ptr : ℕ) (x : AnyEventHandler) (table : Vtable) (w w' : World)
    → Sound w
    → (w.objects this).m_storage ≡ 0
    → ptr ≢ 0
    → w.memory ptr ≡ none
    → Stored this ptr x table w w'
    → Sound w'
Stored-Sound this ptr x table w w' v idle nz fresh st =
    let other : (i : ℕ) → (w.objects i).m_storage ≢ ptr =
      λ i same. let h = v.held i (λ z. nz (sym same ∙ z)) in ground (arith, h.block, same, fresh) in
    record {
      held = λ i n. elim (Bool-cases (i == this)) [
        | inl e ↦
            let same : w'.objects i ≡ x = ground (arith, st.objects i, e) in
            record {
              table = table;
              has_table = ground (arith, same, st.has_table);
              block = ground (arith, same, st.there, st.memory ptr);
            }
        | inr d ↦
            let same : w'.objects i ≡ w.objects i = ground (arith, st.objects i, d) in
            let h = v.held i (λ z. n (ap (λ y. y.m_storage) same ∙ z)) in
            record {
              table = h.table;
              has_table = ground (arith, same, h.has_table);
              block = ground (arith, same, h.block, st.memory (w.objects i).m_storage, other i);
            }
      ];
      apart = λ i j d n. ground (
        arith,
        st.objects i,
        st.objects j,
        st.there,
        v.apart i j d,
        other i,
        other j,
        d,
        ==_iff i this,
        ==_iff j this,
      );
      owned = λ p b e. elim (Bool-cases (p == ptr)) [
        | inl z ↦ (this, ground (arith, st.objects this, st.there, z))
        | inr d ↦
            let (i, s) = v.owned p b (ground (arith, st.memory p, d, e)) in
            (i, ground (arith, st.objects i, s, ==_iff i this, idle, v.null, e, st.memory p, d))
      ];
      null = ground (arith, st.memory 0, v.null, nz);
    }

pub Taken-Sound :
    (this other : ℕ) (w w' : World)
    → Sound w
    → (w.objects this).m_storage ≡ 0
    → this ≢ other
    → Taken this other w w'
    → Sound w'
Taken-Sound this other w w' v idle ne tk = record {
  held = λ i n. elim (Bool-cases (i == other)) [
    | inl e ↦ absurd (n (ground (arith, tk.objects i, e)))
    | inr d ↦ elim (Bool-cases (i == this)) [
      | inl e ↦
          let same : w'.objects i ≡ w.objects other = ground (arith, tk.objects i, d, e) in
          let h = v.held other (λ z. n (ap (λ x. x.m_storage) same ∙ z)) in
          record {
            table = h.table;
            has_table = ground (arith, same, h.has_table);
            block = ground (arith, same, h.block, tk.memory (w.objects other).m_storage);
          }
      | inr d' ↦
          let same : w'.objects i ≡ w.objects i = ground (arith, tk.objects i, d, d') in
          let h = v.held i (λ z. n (ap (λ x. x.m_storage) same ∙ z)) in
          record {
            table = h.table;
            has_table = ground (arith, same, h.has_table);
            block = ground (arith, same, h.block, tk.memory (w.objects i).m_storage);
          }
    ]
  ];
  apart = λ i j d n. ground (
    arith,
    tk.objects i,
    tk.objects j,
    v.apart i j d,
    v.apart other j,
    v.apart i other,
    d,
    n,
    ==_iff i this,
    ==_iff j this,
    ==_iff i other,
    ==_iff j other,
  );
  owned = λ p b e.
      let (i, s) = v.owned p b (sym (tk.memory p) ∙ e) in
      elim (Bool-cases (i == other)) [
        | inl z ↦
            (this, ground (arith, tk.objects this, s, z, ne, ==_iff i other, ==_iff this other))
        | inr d ↦
            (i, ground (arith, tk.objects i, s, d, ==_iff i this, idle, v.null, e, tk.memory p))
      ];
  null = tk.memory 0 ∙ v.null;
}

pub Idle-Sound : (w w' : World) → Sound w → Idle w w' → Sound w'
Idle-Sound w w' v idle = record {
  held = λ i n. elim (idle.objects i) [
    | inl same ↦
        let h = v.held i (λ z. n (ap (λ x. x.m_storage) same ∙ z)) in
        record {
          table = h.table;
          has_table = ground (arith, same, h.has_table);
          block = ground (arith, same, h.block, idle.memory (w.objects i).m_storage);
        }
    | inr (z, _) ↦ absurd (n z)
  ];
  apart = λ i j d n. ground (arith, n, idle.objects i, idle.objects j, v.apart i j d);
  owned = λ p b e.
      let (i, s) = v.owned p b (sym (idle.memory p) ∙ e) in
      (i, ground (arith, s, idle.objects i, v.null, e, idle.memory p));
  null = idle.memory 0 ∙ v.null;
}
