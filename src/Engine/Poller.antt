-- ===== src/Engine/Poller.antt =====
-- the-engine/src/ledger_poller.rs: the loop that watches for new ledgers. A turn of the loop is a
-- function of the node's answer; a run is driven by the list of the answers.
pub mod Progress
pub mod Order
use soroban_cron.Common.{ℕ, Option, none, some, List, [], ◌∷◌, ltb, if◌then◌else◌}
use soroban_cron.Common.Word.{add_u32}
use soroban_cron.Engine.Errors.{TransientError, Result}
use soroban_cron.Engine.Backoff.{next_backoff}

pub data LedgerEvent : Type 0 where
  advance : ℕ → LedgerEvent

pub record LedgerPoller : Type 0 where
  pub retry_backoff_initial : ℕ
  pub retry_backoff_max : ℕ
  pub last_known_ledger : ℕ
  -- Locals of the loop.
  pub backoff : ℕ
  pub consecutive_errors : ℕ

-- `LedgerPoller::new`, and the loop's first assignments.
unfoldable pub start : (initial max : ℕ) → LedgerPoller
start initial max = record {
  retry_backoff_initial = initial;
  retry_backoff_max = max;
  last_known_ledger = 0;
  backoff = initial;
  consecutive_errors = 0;
}

unfoldable pub restored : LedgerPoller → LedgerPoller
restored p =
    if ltb 0 p.consecutive_errors
    then record p { backoff = p.retry_backoff_initial; consecutive_errors = 0 }
    else p

unfoldable pub backed_off : LedgerPoller → LedgerPoller
backed_off p = record p {
  backoff = next_backoff p.retry_backoff_max p.backoff;
  consecutive_errors = add_u32 p.consecutive_errors 1;
}

-- One turn of the loop: the next state, and the event sent. Both error arms of the source back off.
unfoldable pub poll : Result ℕ TransientError → LedgerPoller → LedgerPoller × Option LedgerEvent
unfolding restored backed_off
poll (Result.ok seq) p =
    let q = restored p in
    if ltb q.last_known_ledger seq
    then (record q { last_known_ledger = seq }, some (LedgerEvent.advance seq))
    else (q, none)
poll (Result.err e) p = (backed_off p, none)

unfoldable pub sent : Option LedgerEvent → List LedgerEvent → List LedgerEvent
sent none events = events
sent (some event) events = event ∷ events

unfoldable pub run : List (Result ℕ TransientError) → LedgerPoller → LedgerPoller × List LedgerEvent
unfolding poll sent
run [] p = (p, [])
run (answer ∷ answers) p =
    let (q, event) = poll answer p in
    let (final, events) = run answers q in (final, sent event events)
