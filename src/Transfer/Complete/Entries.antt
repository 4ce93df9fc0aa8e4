-- ===== src/Transfer/Complete/Entries.antt =====
-- The map of include/co_usb/transfer/detail/complete_sequence_awaitable.hpp from transfers to their
-- progress.
use co_usb.Prelude.{
  ℕ, zero, suc, ◌+◌, ◌≡◌, true, some, List, [], ◌∷◌, ◌==◌, is_some, All, get_elem?, if◌then◌else◌,
  arith,
}
use co_usb.Transfer.Complete.{Progress, Progresses, at, put}

-- A write is read back, and no other entry changes.
pub at-put :
    (states : Progresses) (t : ℕ) (prg : Progress) (p : ℕ)
    → at (put states t prg) p ≡ (if t == p then some prg else at states p)
unfolding at put
at-put [] t prg p = ground arith
at-put ((q, old) ∷ states) t prg p = ground (arith, at-put states t prg p)

-- The transfers of a list all have an entry.
abbrev pub Tracked : Progresses → List ℕ → Type 0
Tracked states ts = All (λ t. is_some (at states t) ≡ true) ts

pub put-Tracked :
    (states : Progresses) (t : ℕ) (prg : Progress) (ts : List ℕ)
    → Tracked states ts
    → Tracked (put states t prg) ts
put-Tracked states t prg [] h = tt
put-Tracked states t prg (p ∷ ts) h =
    (ground (arith, at-put states t prg p, h.0), put-Tracked states t prg ts h.1)

pub Tracked-get :
    (states : Progresses) (ts : List ℕ) (i : ℕ) {t : ℕ}
    → Tracked states ts
    → get_elem? ts i ≡ some t
    → is_some (at states t) ≡ true
Tracked-get states [] i h e = absurd (cc)
Tracked-get states (p ∷ ts) zero h e = ground (arith, h.0)
Tracked-get states (p ∷ ts) (suc i) h e = Tracked-get states ts i h.1 e

-- All totals together, without the wrap of `size_t`.
unfoldable pub totals : Progresses → ℕ
totals [] = 0
totals ((p, prg) ∷ states) = prg.total + totals states

pub totals-put :
    (states : Progresses) (t : ℕ) (prg old : Progress)
    → at states t ≡ some old
    → totals (put states t prg) + old.total ≡ totals states + prg.total
unfolding totals at put
totals-put [] t prg old h = absurd (cc)
totals-put ((q, o) ∷ states) t prg old h = ground (arith, totals-put states t prg old)
