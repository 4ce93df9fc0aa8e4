-- ===== src/Transfer/Operations/Filled.antt =====
-- What the prefilling operations leave in the transfers, given what libusb documents of its filling
-- functions.
use co_usb.Prelude.{
  ℕ, ◌≡◌, refl, sym, ap, ◌∙◌, subst, ◌⊎◌, inl, inr, Bool, true, false, Bool-cases, Option, none,
  some, List, [], ◌∷◌, ◌++◌, ◌==◌, append_assoc, append-nil, map, length, if◌then◌else◌, arith,
}
use co_usb.Prelude.Int.{ℤ}
use co_usb.Transfer.Record.{Transfer, TransferType, Store, update}
use co_usb.Transfer.Endpoint.{Direction, Endpoint}
use co_usb.Transfer.Sequence.{TransferResource, TransferSequence, resources, transfer_of, for_all}
use co_usb.Transfer.Sequence.Loops.{visit, for_all-visit}
use co_usb.Transfer.Operations.{
  FillArguments, FillFunctions, unsigned_of, cancel_transfer, fill_all, prefill_control,
  prefill_bulk, prefill_interrupt, prefill_isochronous, prefill_bulk_stream,
}

-- Whether a pointer is among the transfers of some resources.
unfoldable pub holds : ℕ → List TransferResource → Bool
unfolding transfer_of
holds p [] = false
holds p (r ∷ rs) = if p == transfer_of r then true else holds p rs

-- The transfer is ready for a device handle, an endpoint and a timeout.
pub record IsFilled (kind : TransferType) (devh ep limit : ℕ) (t : Transfer) : Type 0 where
  pub dev_handle : t.dev_handle ≡ devh
  pub endpoint : t.endpoint ≡ ep
  pub type : t.type ≡ kind
  pub timeout : t.timeout ≡ limit

-- What libusb documents of its filling functions; isochronous and stream transfers have also their
-- number of packets and their stream.
pub record IsDocumented (libusb : FillFunctions) : Type 0 where
  pub control :
      (a : FillArguments) (t : Transfer)
      → IsFilled TransferType.control a.dev_handle 0 a.timeout (libusb.fill_control a t)
  pub bulk :
      (a : FillArguments) (t : Transfer)
      → IsFilled TransferType.bulk a.dev_handle a.endpoint a.timeout (libusb.fill_bulk a t)
  pub interrupt :
      (a : FillArguments) (t : Transfer)
      → IsFilled TransferType.interrupt a.dev_handle a.endpoint a.timeout
          (libusb.fill_interrupt a t)
  pub isochronous :
      (a : FillArguments) (t : Transfer)
      → IsFilled TransferType.isochronous a.dev_handle a.endpoint a.timeout
          (libusb.fill_isochronous a t)
        × (length (libusb.fill_isochronous a t).packets ≡ a.iso_packets)
  pub bulk_stream :
      (a : FillArguments) (t : Transfer)
      → IsFilled TransferType.bulk_stream a.dev_handle a.endpoint a.timeout
          (libusb.fill_bulk_stream a t)
        × ((libusb.fill_bulk_stream a t).stream_id ≡ a.stream_id)

-- Each transfer of the sequence satisfies `P`, and no other transfer is written.
pub record Prefilled (P : Transfer → Type 0) (s : TransferSequence) (before after : Store)
    : Type 0 where
  pub inside : (p : ℕ) → holds p (resources s) ≡ true → P (after p)
  pub outside : (p : ℕ) → holds p (resources s) ≡ false → after p ≡ before p

abbrev fill_body : (Transfer → Transfer) → ℕ → Store → Store
fill_body fill p m = update m p (fill (m p))

visit-outside :
    (fill : Transfer → Transfer) (rs : List TransferResource) (m : Store) (p : ℕ)
    → holds p rs ≡ false
    → visit rs (fill_body fill) m p ≡ m p
unfolding visit holds
visit-outside fill [] m p h = refl
visit-outside fill (r ∷ rs) m p h = elim (Bool-cases (p == transfer_of r)) [
  | inl e ↦ absurd (ground (arith, e))
  | inr n ↦
      let rest : holds p rs ≡ false = ground (arith, n) in
      visit-outside fill rs (fill_body fill (transfer_of r) m) p rest ∙ ground (arith, n)
]

-- A transfer that satisfies `P`, or is in the sequence, satisfies `P` at the end.
visit-inside :
    (P : Transfer → Type 0) (fill : Transfer → Transfer)
    → ((t : Transfer) → P (fill t))
    → (rs : List TransferResource) (m : Store) (p : ℕ) → P (m p) ⊎ (holds p rs ≡ true)
    → P (visit rs (fill_body fill) m p)
unfolding visit holds
visit-inside P fill f [] m p (inl h) = h
visit-inside P fill f [] m p (inr h) = absurd (cc)
visit-inside P fill f (r ∷ rs) m p h =
    visit-inside P fill f rs (fill_body fill (transfer_of r) m) p
      (elim (Bool-cases (p == transfer_of r)) [
        | inl e ↦ inl (subst P (sym (written e)) (f (m (transfer_of r))))
        | inr n ↦ elim h [
          | inl h ↦ inl (subst P (sym (kept n)) h)
          | inr h ↦ inr (ground (arith, n))
        ]
      ])
  where
    written :
        (p == transfer_of r) ≡ true → fill_body fill (transfer_of r) m p ≡ fill (m (transfer_of r))
    written e = ground (arith, e)

    kept : (p == transfer_of r) ≡ false → fill_body fill (transfer_of r) m p ≡ m p
    kept n = ground (arith, n)

-- The operation's result: a store in which the sequence is prefilled.
abbrev pub Leaves : (Transfer → Type 0) → TransferSequence → Store → Option Store → Type 0
Leaves P s m result = (m' : Store) × (result ≡ some m') × Prefilled P s m m'

fill_all_lem :
    (P : Transfer → Type 0) (fill : Transfer → Transfer)
    → ((t : Transfer) → P (fill t))
    → (s : TransferSequence) (m : Store) → Leaves P s m (fill_all fill s m)
unfolding fill_all for_all
fill_all_lem P fill f s m = (
  visit (resources s) (fill_body fill) m,
  for_all-visit s (fill_body fill) m,
  record {
    inside = λ p h. visit-inside P fill f (resources s) m p (inr h);
    outside = λ p h. visit-outside fill (resources s) m p h;
  },
)

abbrev pub Ready : {d : Direction} → Endpoint d → ℤ → TransferType → Transfer → Type 0
Ready ep timeout_ms kind = IsFilled kind ep.devh ep.addr (unsigned_of timeout_ms)

-- Where libusb's filling functions do what they document, prefilling for bulk, interrupt,
-- isochronous and bulk stream transfers ends, and every transfer of the sequence then has that type
-- and the endpoint's device handle and address, the timeout as an `unsigned int`, and the given number
-- of packets or stream id; a transfer that is not in the sequence is as it was.
pub prefill_lem :
    {d : Direction} (libusb : FillFunctions)
    → IsDocumented libusb
    → (s : TransferSequence) (ep : Endpoint d) (n : ℕ) (timeout_ms : ℤ) (m : Store)
    → let ready = Ready ep timeout_ms in
      Leaves (ready TransferType.bulk) s m (prefill_bulk libusb s ep timeout_ms m)
      × Leaves (ready TransferType.interrupt) s m (prefill_interrupt libusb s ep timeout_ms m)
      × Leaves
          (λ t. ready TransferType.isochronous t × (length t.packets ≡ n))
          s
          m
          (prefill_isochronous libusb s ep n timeout_ms m)
      × Leaves
          (λ t. ready TransferType.bulk_stream t × (t.stream_id ≡ n))
          s
          m
          (prefill_bulk_stream libusb s ep n timeout_ms m)
unfolding prefill_bulk prefill_interrupt prefill_isochronous prefill_bulk_stream
prefill_lem libusb h s ep n timeout_ms m = (
  fill_all_lem _ _ (h.bulk _) s m,
  fill_all_lem _ _ (h.interrupt _) s m,
  fill_all_lem _ _ (h.isochronous _) s m,
  fill_all_lem _ _ (h.bulk_stream _) s m,
)

-- Where libusb's filling functions do what they document, and without assertions, prefilling for
-- control transfers makes every transfer of the sequence a control transfer of the endpoint's device
-- handle with the timeout, and no other transfer is written; with assertions one of the two fails for
-- every endpoint and every sequence.
pub prefill_control_lem :
    {d : Direction} (libusb : FillFunctions)
    → IsDocumented libusb
    → (s : TransferSequence) (ep : Endpoint d) (timeout_ms : ℤ) (m : Store)
    → Leaves
        (IsFilled TransferType.control ep.devh 0 (unsigned_of timeout_ms))
        s
        m
        (prefill_control libusb false s ep timeout_ms m)
      × (prefill_control libusb true s ep timeout_ms m ≡ none)
unfolding prefill_control
prefill_control_lem libusb h s ep timeout_ms m = (fill_all_lem _ _ (h.control _) s m, ground arith)

visit-pushes :
    (rs : List TransferResource) (l : List ℕ)
    → visit rs (λ tfer l. l ++ tfer ∷ []) l ≡ l ++ map transfer_of rs
unfolding visit
visit-pushes [] l = sym (append-nil l)
visit-pushes (r ∷ rs) l = visit-pushes rs (l ++ transfer_of r ∷ []) ∙ append_assoc l _ _

-- `cancel_transfer` calls `libusb_cancel_transfer` for each transfer of the sequence, once for each
-- of its resources and in their order.
pub cancel_transfer_lem :
    (s : TransferSequence) (cancelled : List ℕ)
    → cancel_transfer s cancelled ≡ some (cancelled ++ map transfer_of (resources s))
unfolding cancel_transfer for_all
cancel_transfer_lem s cancelled = for_all-visit s _ cancelled ∙ ap some (visit-pushes _ _)
