-- ===== src/Transfer/Pipe/Stage.antt =====
-- A state of an awaitable as a pipe of regions: what both awaitables of include/co_usb/transfer/detail
-- have in common.
use co_usb.Prelude.{
  ℕ, zero, suc, ◌<◌, ◌≡◌, ◌≢◌, refl, sym, ap, ◌∙◌, Bool, true, false, some, List, [], ◌∷◌, ◌++◌,
  length, All, get_elem?, get_elem?-lt, erase_at, take, drop, Distinct, Distinct-erase_at,
  if◌then◌else◌, arith,
}
use co_usb.Prelude.Words.{int_of_size}
use co_usb.Errors.{ErrorCode, is_error}
use co_usb.Transfer.Record.{Transfer, Buffer, Store}
use co_usb.Transfer.Pipe.{Region, Pipe, PipeStep, starts, drains, fails, loses}

abbrev pub region_of_buffer : Buffer → Region
region_of_buffer b = record { start = b.data_ptr; extent = int_of_size b.size }

abbrev pub region_of_transfer : Transfer → Region
region_of_transfer x = record { start = x.buffer; extent = x.length }

unfoldable pub waiting_regions : List Buffer → List Region
waiting_regions [] = []
waiting_regions (b ∷ bs) = region_of_buffer b ∷ waiting_regions bs

unfoldable pub active_regions : Store → List ℕ → List Region
active_regions m [] = []
active_regions m (t ∷ ts) = region_of_transfer (m t) ∷ active_regions m ts

pub waiting_regions-drop :
    (n : ℕ) (bs : List Buffer) → waiting_regions (drop n bs) ≡ drop n (waiting_regions bs)
unfolding waiting_regions
waiting_regions-drop zero bs = refl
waiting_regions-drop (suc n) [] = refl
waiting_regions-drop (suc n) (b ∷ bs) = waiting_regions-drop n bs

-- The parts of a state that the pipe is about.
pub record Stage : Type 0 where
  pub memory : Store
  pub in_air : List ℕ
  pub buffers : List Buffer
  pub error : ErrorCode

-- The pipe that a state stands for.
abbrev pub stage_pipe : Stage → Pipe
stage_pipe s = record {
  active = active_regions s.memory s.in_air;
  waiting = waiting_regions s.buffers;
  failed = is_error s.error;
}

-- The pipe once the first regions are started.
abbrev pub start_pipe : ℕ → List Region → Pipe
start_pipe n regions = record { active = take n regions; waiting = drop n regions; failed = false }

-- What one callback did to the buffers that are left and to the error, with what its transfer
-- became and whether libusb took it.
pub data Turn (bs : List Buffer) (ec : ErrorCode) (bs' : List Buffer) (ec' : ErrorCode)
    (x : Transfer) (accepted : Bool) : Type 0 where
  went :
      (b : Buffer)
      → is_error ec ≡ false
      → bs ≡ b ∷ bs'
      → is_error ec' ≡ false
      → region_of_transfer x ≡ region_of_buffer b
      → accepted ≡ true
      → Turn bs ec bs' ec' x accepted
  drained :
      is_error ec ≡ false
      → bs ≡ []
      → bs' ≡ []
      → is_error ec' ≡ false
      → accepted ≡ false
      → Turn bs ec bs' ec' x accepted
  failed : bs' ≡ bs → is_error ec' ≡ true → accepted ≡ false → Turn bs ec bs' ec' x accepted
  lost :
      (b : Buffer)
      → bs ≡ b ∷ bs'
      → is_error ec' ≡ true
      → accepted ≡ false
      → Turn bs ec bs' ec' x accepted

active_regions-other :
    (m m' : Store) (t : ℕ) (ts : List ℕ)
    → ((p : ℕ) → p ≢ t → m' p ≡ m p)
    → All (λ p. p ≢ t) ts
    → active_regions m' ts ≡ active_regions m ts
unfolding active_regions
active_regions-other m m' t [] other h = refl
active_regions-other m m' t (p ∷ ts) other h =
    ground (arith, other p h.0, active_regions-other m m' t ts other h.1)

active_regions-snoc :
    (m : Store) (ts : List ℕ) (t : ℕ)
    → active_regions m (ts ++ t ∷ []) ≡ active_regions m ts ++ region_of_transfer (m t) ∷ []
unfolding active_regions
active_regions-snoc m [] t = refl
active_regions-snoc m (p ∷ ts) t =
    ap (λ l. region_of_transfer (m p) ∷ l) (active_regions-snoc m ts t)

active_regions-erase_at :
    (m : Store) (ts : List ℕ) (i : ℕ)
    → active_regions m (erase_at ts i) ≡ erase_at (active_regions m ts) i
unfolding active_regions
active_regions-erase_at m [] i = refl
active_regions-erase_at m (p ∷ ts) zero = refl
active_regions-erase_at m (p ∷ ts) (suc i) =
    ap (λ l. region_of_transfer (m p) ∷ l) (active_regions-erase_at m ts i)

length-active_regions : (m : Store) (ts : List ℕ) → length (active_regions m ts) ≡ length ts
unfolding active_regions
length-active_regions m [] = refl
length-active_regions m (p ∷ ts) = ap suc (length-active_regions m ts)

-- The stage after a callback of transfer `t`, the `i`-th in the air.
abbrev pub next_stage : Stage → ℕ → ℕ → Store → List Buffer → ErrorCode → Bool → Stage
next_stage s i t m bs ec accepted = record {
  memory = m;
  in_air = if accepted then erase_at s.in_air i ++ t ∷ [] else erase_at s.in_air i;
  buffers = bs;
  error = ec;
}

-- A turn is a step of the pipe.
pub Turn-PipeStep :
    (s : Stage) (i t : ℕ) (m : Store) (bs : List Buffer) (ec : ErrorCode) (accepted : Bool)
    → get_elem? s.in_air i ≡ some t
    → Distinct s.in_air
    → ((p : ℕ) → p ≢ t → m p ≡ s.memory p)
    → Turn s.buffers s.error bs ec (m t) accepted
    → (more : List Region) × PipeStep
        (stage_pipe s)
        (stage_pipe (next_stage s i t m bs ec accepted))
        more
unfolding waiting_regions active_regions
Turn-PipeStep s i t m bs ec accepted h d other turn =
    let (others, _) = Distinct-erase_at s.in_air i d h in
    let kept : active_regions m (erase_at s.in_air i)
        ≡ erase_at (active_regions s.memory s.in_air) i =
      active_regions-other s.memory m t (erase_at s.in_air i) other others
      ∙ active_regions-erase_at s.memory s.in_air i in
    let lt : i < length (active_regions s.memory s.in_air) =
      omega (arith, length-active_regions s.memory s.in_air, get_elem?-lt s.in_air i h) in
    let stays : accepted ≡ false
        → active_regions m (if accepted then erase_at s.in_air i ++ t ∷ [] else erase_at s.in_air i)
          ≡ erase_at (active_regions s.memory s.in_air) i =
      λ acc. rw acc kept in
    elim turn [
      | went b ok e ok' reg acc ↦ (
        region_of_buffer b ∷ [],
        starts i (region_of_buffer b) lt ok (ap waiting_regions e)
            (rw acc (active_regions-snoc m (erase_at s.in_air i) t ∙ cc (kept, reg))) ok',
      )
      | drained ok e e' ok' acc ↦ (
        [],
        drains i lt ok (ap waiting_regions (e ∙ sym e')) (ap waiting_regions e') (stays acc) ok',
      )
      | failed e bad acc ↦ ([], fails i lt (ap waiting_regions (sym e)) (stays acc) bad)
      | lost b e bad acc ↦
          ([], loses i (region_of_buffer b) lt (ap waiting_regions e) (stays acc) bad)
    ]
