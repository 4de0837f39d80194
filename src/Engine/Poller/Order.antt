-- ===== src/Engine/Poller/Order.antt =====
-- Ascending events: what is lost at the front, and what comes at the end.
use soroban_cron.Common.{ℕ, ◌<◌, ◌≤◌, ◌≡◌, refl, List, [], ◌∷◌, ◌++◌, arith}
use soroban_cron.Engine.Poller.{LedgerEvent}
use soroban_cron.Engine.Poller.Progress.{Ascending, last_announced}

Ascending-weaken : (l n : ℕ) (es : List LedgerEvent) → l ≤ n → Ascending n es → Ascending l es
Ascending-weaken l n [] h p = tt
Ascending-weaken l n (LedgerEvent.advance seq ∷ es) h p = (omega arith, p.1)

pub Ascending-append : (l : ℕ) (xs es : List LedgerEvent) → Ascending l (xs ++ es) → Ascending l es
Ascending-append l [] es p = p
Ascending-append l (LedgerEvent.advance seq ∷ xs) es p =
    Ascending-weaken l seq es (omega arith) (Ascending-append seq xs es p.1)

last_announced_mono :
    (l n : ℕ) (es : List LedgerEvent) → l ≤ n → last_announced l es ≤ last_announced n es
last_announced_mono l n [] h = h
last_announced_mono l n (LedgerEvent.advance seq ∷ es) h = omega arith

pub last_announced-append :
    (l : ℕ) (xs es : List LedgerEvent)
    → Ascending l (xs ++ es)
    → last_announced l es ≤ last_announced l (xs ++ es)
last_announced-append l [] es p = omega arith
last_announced-append l (LedgerEvent.advance seq ∷ xs) es p =
    omega (arith, last_announced-append seq xs es p.1, last_announced_mono l seq es (omega arith))

pub le-last_announced : (l : ℕ) (es : List LedgerEvent) → Ascending l es → l ≤ last_announced l es
le-last_announced l [] p = omega arith
le-last_announced l (LedgerEvent.advance seq ∷ es) p = omega (arith, le-last_announced seq es p.1)

-- A later event at the end.
pub Ascending-snoc :
    (l seq : ℕ) (es : List LedgerEvent)
    → Ascending l es
    → last_announced l es < seq
    → Ascending l (es ++ LedgerEvent.advance seq ∷ [])
      × (last_announced l (es ++ LedgerEvent.advance seq ∷ []) ≡ seq)
Ascending-snoc l seq [] p h = ((h, tt), omega arith)
Ascending-snoc l seq (LedgerEvent.advance s ∷ es) p h =
    let (up, last) = Ascending-snoc s seq es p.1 h in ((p.0, up), last)

-- What is left at the end of a list names the same ledger last, unless nothing is left.
pub last_announced-rest :
    (h : ℕ) (lost : List LedgerEvent) (e : LedgerEvent) (rest : List LedgerEvent)
    → last_announced h (lost ++ e ∷ rest) ≡ last_announced h (e ∷ rest)
last_announced-rest h [] e rest = refl
last_announced-rest h (LedgerEvent.advance seq ∷ lost) (LedgerEvent.advance n) rest =
    last_announced-rest seq lost (LedgerEvent.advance n) rest
