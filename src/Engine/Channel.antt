-- ===== src/Engine/Channel.antt =====
-- The broadcast channel between the loops of main.rs, with its one receiver: what the code uses of
-- `tokio::sync::broadcast`, and what it relies on.
use soroban_cron.Common.{ℕ, ◌<◌, ◌≡◌, Bool, true, false, Option, some, List, [], ◌∷◌, ◌++◌}
use soroban_cron.Engine.Poller.{LedgerEvent}
use soroban_cron.Engine.Discovery.{Received}

pub record Channel (C : Type 0) : Type 0 where
  pub send : LedgerEvent → C → C
  -- `none` while there is nothing to receive.
  pub recv : C → Option Received × C

abbrev pub handed : Option Received → List LedgerEvent
handed (some (Received.event e)) = e ∷ []
handed _ = []

-- Events arrive in the order in which they were sent; the oldest that wait may be lost, at a send
-- that finds the channel full or at the receive that notices it.
pub record IsOrdered {C : Type 0} (ch : Channel C) : Type 0 where
  -- The events that the receiver has yet to see.
  pub pending : C → List LedgerEvent
  pub sends :
      (e : LedgerEvent) (c : C)
      → (lost : List LedgerEvent) × (pending c ++ e ∷ [] ≡ lost ++ pending (ch.send e c))
  pub receives :
      (c : C)
      → let (answer, c') = ch.recv c in
        (lost : List LedgerEvent) × (pending c ≡ lost ++ (handed answer ++ pending c'))

abbrev pub is_closed : Option Received → Bool
is_closed (some Received.closed) = true
is_closed _ = false

abbrev pub is_pending : List LedgerEvent → Bool
is_pending [] = false
is_pending (e ∷ es) = true

-- The event sent last is never lost, and the channel is open as long as main.rs, which holds a
-- sender, runs: a receiver that keeps asking, with nothing sent meanwhile, comes to the end of what
-- waits.
pub record IsReliable {C : Type 0} (ch : Channel C) (ordered : IsOrdered ch) : Type 0 where
  -- At most so many receives until nothing waits.
  pub receives_left : C → ℕ
  pub keeps_newest : (e : LedgerEvent) (c : C) → is_pending (ordered.pending (ch.send e c)) ≡ true
  pub stays_open : (c : C) → is_closed (ch.recv c).0 ≡ false
  pub delivers :
      (c : C)
      → is_pending (ordered.pending c) ≡ true
      → let (answer, c') = ch.recv c in
        (receives_left c' < receives_left c)
        × (is_pending (handed answer ++ ordered.pending c') ≡ true)
