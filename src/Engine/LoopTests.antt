-- ===== src/Engine/LoopTests.antt =====
-- The daemon's loops on a small channel, and configurations that are refused and accepted.
use Prim.Native.String.{String}
use soroban_cron.Common.{
  ℕ, ◌<◌, ◌↔◌, arith, false, zero, suc, ◌+◌, ◌≡◌, refl, true, Option, none, some, List, [], ◌∷◌,
  ◌++◌, length, leb, if◌then◌else◌, Bool-cases, inl, inr,
}
use soroban_cron.Engine.Errors.{Result, EngineError, NonTransientError}
use soroban_cron.Engine.Poller.{LedgerEvent}
use soroban_cron.Engine.Discovery.{Received, Query}
use soroban_cron.Engine.Config.{Process, from_env, assemble, no_file}
use soroban_cron.Engine.Config.Bounds.{IsValid, from_env_accepts}
use soroban_cron.Engine.Config.Faults.{IsFaulty, from_env-IsFaulty}
use soroban_cron.Engine.InFlight.{contains}
use soroban_cron.Engine.Executions.{choose, begins, releases, carries_out}
use soroban_cron.Engine.Main.{startup, build_daemon, build_pipeline}
use soroban_cron.Engine.Channel.{Channel, IsOrdered, IsReliable, handed, is_closed, is_pending}
use soroban_cron.Engine.Loops.{Running, Turn, Outcome, take_turns, spawned}
use soroban_cron.Engine.Loops.Observer.{AreAllowed, nothing_seen, seen_after}
use soroban_cron.Engine.Loops.Arbitration.{take_turns-table_run}
use soroban_cron.Engine.Pipeline.{ExecutionRole, dispatch}
use soroban_cron.Engine.Loops.Alone.{CatchesUp}
use soroban_cron.Engine.Loops.CatchUp.{spawned-CatchesUp}
use soroban_cron.Engine.Loops.Coherence.{spawned-AreAllowed}
use soroban_cron.Engine.Samples.{flaky, task, process, strkey, daemon}

-- The events that wait, and how many were lost.
abbrev Backlog : Type 0
Backlog = List LedgerEvent × ℕ

abbrev without_first : List LedgerEvent → List LedgerEvent
without_first [] = []
without_first (e ∷ es) = es

abbrev put : LedgerEvent → Backlog → Backlog
put e (es, n) = if leb 2 (length es) then (without_first es ++ e ∷ [], n + 1) else (es ++ e ∷ [], n)

abbrev fetch : Backlog → Option Received × Backlog
fetch (es, suc n) = (some (Received.lagged (suc n)), (es, 0))
fetch ([], zero) = (none, ([], 0))
fetch (e ∷ es, zero) = (some (Received.event e), (es, 0))

-- A channel for two events.
abbrev narrow : Channel Backlog
narrow = record { send = put; recv = fetch }

put-ordered :
    (e : LedgerEvent) (es : List LedgerEvent) (n : ℕ)
    → (lost : List LedgerEvent) × (es ++ e ∷ [] ≡ lost ++ (put e (es, n)).0)
put-ordered e es n = elim (Bool-cases (leb 2 (length es))) [
  | inr room ↦ ([], rw room refl)
  | inl full ↦ dropped es full
]
  where
    dropped :
        (xs : List LedgerEvent)
        → leb 2 (length xs) ≡ true
        → (lost : List LedgerEvent) × (xs ++ e ∷ [] ≡ lost ++ (put e (xs, n)).0)
    dropped [] full = ([], refl)
    dropped (x ∷ xs) full = (x ∷ [], rw full refl)

fetch-ordered :
    (c : Backlog)
    → let (answer, c') = fetch c in
      (lost : List LedgerEvent) × (c.0 ≡ lost ++ (handed answer ++ c'.0))
fetch-ordered (es, suc n) = ([], refl)
fetch-ordered ([], zero) = ([], refl)
fetch-ordered (e ∷ es, zero) = ([], refl)

narrow-IsOrdered : IsOrdered narrow
narrow-IsOrdered = record {
  pending = λ c. c.0;
  sends = λ e c. put-ordered e c.0 c.1;
  receives = fetch-ordered;
}

put-pending : (e : LedgerEvent) (c : Backlog) → is_pending (put e c).0 ≡ true
put-pending e (es, n) = elim (Bool-cases (leb 2 (length es))) [
  | inr room ↦ rw room (snoc-pending es)
  | inl full ↦ rw full (snoc-pending (without_first es))
]
  where
    snoc-pending : (xs : List LedgerEvent) → is_pending (xs ++ e ∷ []) ≡ true
    snoc-pending [] = refl
    snoc-pending (x ∷ xs) = refl

fetch-open : (c : Backlog) → is_closed (fetch c).0 ≡ false
fetch-open (es, suc n) = refl
fetch-open ([], zero) = refl
fetch-open (e ∷ es, zero) = refl

fetch-delivers :
    (c : Backlog)
    → is_pending c.0 ≡ true
    → let (answer, c') = fetch c in
      (length c'.0 + c'.1 < length c.0 + c.1) × (is_pending (handed answer ++ c'.0) ≡ true)
fetch-delivers (es, suc n) some_left = (omega arith, some_left)
fetch-delivers ([], zero) some_left = ground arith
fetch-delivers (e ∷ es, zero) some_left = (omega arith, refl)

narrow-IsReliable : IsReliable narrow narrow-IsOrdered
unfolding narrow-IsOrdered
narrow-IsReliable = record {
  receives_left = λ c. length c.0 + c.1;
  keeps_newest = put-pending;
  stays_open = fetch-open;
  delivers = fetch-delivers;
}

-- A query that always finds the sample task, and a machine that can bind any port.
abbrev found : Query
found current_ledger = some (Result.ok (task ∷ []))

abbrev binds : ℕ → Result (Unit {0}) String
binds port = Result.ok tt

abbrev turns : List Turn
turns =
    Turn.polls (Result.ok 1010)
    ∷ Turn.discovers
    ∷ Turn.asks
    ∷ Turn.discovers
    ∷ Turn.polls (Result.ok 1011)
    ∷ Turn.asks
    ∷ Turn.discovers
    ∷ Turn.discovers
    ∷ Turn.discovers
    ∷ Turn.interrupts
    ∷ Turn.asks
    ∷ []

abbrev at_spawn : Running ℕ Backlog
at_spawn = spawned binds daemon 0 ([], 0)

-- The execution of the task at ledger 1010 is seen from outside: at the second report it runs.
turns_outcomes :
    (take_turns flaky daemon.discovery narrow found turns at_spawn).1
    ≡ Outcome.announced 1010
      ∷ Outcome.handles 1010
      ∷ Outcome.reported
          (record { current_ledger = 1010; last_execution_timestamp = none; in_flight_count = 0 })
      ∷ Outcome.began
      ∷ Outcome.announced 1011
      ∷ Outcome.reported
          (record { current_ledger = 1011; last_execution_timestamp = none; in_flight_count = 1 })
      ∷ Outcome.quiet
      ∷ Outcome.ended
      ∷ Outcome.quiet
      ∷ Outcome.stops
      ∷ Outcome.quiet
      ∷ []
unfolding take_turns spawned build_daemon build_pipeline choose begins releases carries_out contains
turns_outcomes = refl

starts : startup process strkey ≡ Result.ok daemon
unfolding startup
starts = refl

spawned-AreAllowed_example :
    AreAllowed nothing_seen (take_turns flaky daemon.discovery narrow found turns at_spawn).1
unfolding narrow-IsOrdered
spawned-AreAllowed_example =
    spawned-AreAllowed flaky narrow narrow-IsOrdered process strkey daemon found turns 0 ([], 0)
      binds starts refl

-- Four announcements while one ledger is worked on: the channel overflows.
abbrev hurry : List Turn
hurry =
    Turn.polls (Result.ok 1010)
    ∷ Turn.discovers
    ∷ Turn.polls (Result.ok 1011)
    ∷ Turn.polls (Result.ok 1012)
    ∷ Turn.polls (Result.ok 1013)
    ∷ Turn.discovers
    ∷ []

spawned-CatchesUp_example :
    let (s, outcomes) = take_turns flaky daemon.discovery narrow found hurry at_spawn in
    CatchesUp flaky daemon.discovery narrow found (seen_after nothing_seen outcomes) s
unfolding narrow-IsOrdered take_turns spawned build_daemon build_pipeline choose begins contains
spawned-CatchesUp_example =
    spawned-CatchesUp flaky narrow narrow-IsOrdered narrow-IsReliable process strkey daemon found
      hurry 0 ([], 0) binds starts refl refl

-- Ledger 1010 from its announcement to the end of its one execution.
abbrev one_ledger : List Turn
one_ledger =
    Turn.polls (Result.ok 1010)
    ∷ Turn.discovers
    ∷ Turn.discovers
    ∷ Turn.asks
    ∷ Turn.discovers
    ∷ Turn.polls (Result.ok 1011)
    ∷ Turn.discovers
    ∷ Turn.discovers
    ∷ []

take_turns-table_run_example :
    (take_turns flaky daemon.discovery narrow found one_ledger at_spawn).0.discovery.machine
    ≡ dispatch flaky daemon.discovery.pipeline task ExecutionRole.secondary
        at_spawn.discovery.machine
unfolding take_turns spawned build_daemon build_pipeline choose begins releases carries_out contains
take_turns-table_run_example =
    take_turns-table_run flaky daemon.discovery narrow found one_ledger at_spawn refl
      (λ l. (omega arith, tt)) refl refl

-- No variable is set, and there is no file.
abbrev bare : Process
bare = record process { var = λ key. none }

from_env-IsFaulty_example : IsFaulty bare (
    EngineError.non_transient
      (NonTransientError.config_invalid "KEEPER_KEYPAIR" "required env var is missing or empty"))
unfolding from_env
from_env-IsFaulty_example = from_env-IsFaulty bare _ refl

from_env_accepts_example :
    (from_env process ≡ Result.ok (assemble process no_file "x" "x" "x"))
    ↔ IsValid process (assemble process no_file "x" "x" "x")
from_env_accepts_example = from_env_accepts process (assemble process no_file "x" "x" "x")

-- The right side holds here, and so does the left.
from_env-assemble : from_env process ≡ Result.ok (assemble process no_file "x" "x" "x")
unfolding from_env
from_env-assemble = refl
