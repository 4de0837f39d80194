-- ===== src/Engine/Backoff.antt =====
-- The exponential backoff that the ledger poller and the execution pipeline share.
use soroban_cron.Common.{ℕ, suc, ◌≤◌, ◌<◌, ◌*◌, ◌^◌, ◌≡◌, ap, ◌∙◌, arith, leb, if◌then◌else◌}
use native.Mathlib.Nat.{pow-suc, mul-pos, one-le-pow}

abbrev pub min : ℕ → ℕ → ℕ
min a b = if leb a b then a else b

-- `(backoff * 2).min(retry_backoff_max)`
unfoldable pub next_backoff : ℕ → ℕ → ℕ
next_backoff max backoff = min (backoff * 2) max

-- The wait before retry k.
abbrev pub scheduled : (initial max k : ℕ) → ℕ
scheduled initial max k = min (initial * 2 ^ k) max

doubling : (initial k : ℕ) → initial * 2 ^ suc k ≡ initial * 2 ^ k * 2
doubling initial k = ap (λ (p : ℕ). initial * p) (pow-suc 2 k) ∙ omega arith

pub next_backoff-scheduled :
    (initial max k : ℕ) → next_backoff max (scheduled initial max k) ≡ scheduled initial max (suc k)
unfolding next_backoff
next_backoff-scheduled initial max k = ground (arith, doubling initial k)

pub scheduled-zero : (initial max : ℕ) → initial ≤ max → scheduled initial max 0 ≡ initial
scheduled-zero initial max ordered = ground arith

pub scheduled_bounds :
    (initial max k : ℕ)
    → 1 ≤ initial
    → initial ≤ max
    → (1 ≤ scheduled initial max k) × (scheduled initial max k ≤ max)
scheduled_bounds initial max k positive ordered =
    let power : 0 < initial * 2 ^ k = mul-pos positive (one-le-pow k 2 (omega arith)) in
    (ground arith, ground arith)

pub next_backoff-le : (max backoff : ℕ) → next_backoff max backoff ≤ max
unfolding next_backoff
next_backoff-le max backoff = ground arith
