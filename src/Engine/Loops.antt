-- ===== src/Engine/Loops.antt =====
-- the-engine/src/main.rs from the spawning of the loops to the shutdown: the poller, the discovery
-- loop and the health server take turns in any order. The discovery loop is cut where another task
-- can see the difference: at its receive, before each task, and around each execution.
pub mod Refinement
pub mod Arbitration
pub mod Observer
pub mod Invariant
pub mod Moves
pub mod Coherence
pub mod Readiness
pub mod Work
pub mod Alone
pub mod CatchUp
use Prim.Native.String.{String}
use soroban_cron.Common.{ℕ, Bool, true, false, Option, none, some, List, [], ◌∷◌, if◌then◌else◌}
use soroban_cron.Engine.Errors.{TransientError, Result}
use soroban_cron.Engine.Rpc.{RemoteTask}
use soroban_cron.Engine.Poller.{LedgerEvent, LedgerPoller, poll}
use soroban_cron.Engine.Pipeline.{Network, Machine}
use soroban_cron.Engine.Discovery.{TaskDiscovery, Discovery, Received, Query, cache_all}
use soroban_cron.Engine.Executions.{Execution, Phase, choose, begins, carries_out, releases}
use soroban_cron.Engine.Channel.{Channel}
use soroban_cron.Engine.Health.{HealthResponse, health_handler, health_state, serve}
use soroban_cron.Engine.Main.{Daemon, at_start}

pub record Running (N C : Type 0) : Type 0 where
  pub poller : LedgerPoller
  pub channel : C
  pub phase : Phase
  pub discovery : Discovery N
  -- The health server has bound its port; where it has not, its task has panicked, and the others
  -- go on.
  pub listening : Bool
  -- `ctrl_c` came, and the three tasks are aborted.
  pub stopped : Bool

pub data Turn : Type 0 where
  polls : Result ℕ TransientError → Turn
  discovers asks interrupts : Turn

-- What a turn shows to the outside.
pub data Outcome : Type 0 where
  quiet began ended stops : Outcome
  announced : (seq : ℕ) → Outcome
  handles : (current_ledger : ℕ) → Outcome
  reported : HealthResponse → Outcome

abbrev pub announcement : Option LedgerEvent → Outcome
announcement none = quiet
announcement (some (LedgerEvent.advance seq)) = announced seq

abbrev pub start_of : Phase → Outcome
start_of (Phase.executing l x tasks) = began
start_of _ = quiet

abbrev pub sent_to : {C : Type 0} → Channel C → Option LedgerEvent → C → C
sent_to ch none c = c
sent_to ch (some e) c = ch.send e c

unfoldable pub polls_turn :
    {N C : Type 0} → Channel C → Result ℕ TransientError → Running N C → Running N C × Outcome
unfolding poll
polls_turn ch answer s =
    let (p, event) = poll answer s.poller in
    (record s { poller = p; channel = sent_to ch event s.channel }, announcement event)

unfoldable pub asks_turn : {N C : Type 0} → Running N C → Running N C × Outcome
unfolding health_handler health_state
asks_turn s =
    if s.listening
    then (s, reported (health_handler (health_state s.poller s.discovery)))
    else (s, quiet)

-- What `recv` answered.
unfoldable pub takes :
    {N C : Type 0} → Query → Option Received → Running N C → Running N C × Outcome
unfolding cache_all
takes query none s = (s, quiet)
takes query (some (Received.lagged skipped)) s = (s, quiet)
takes query (some Received.closed) s = (record s { phase = Phase.exited }, quiet)
takes query (some (Received.event (LedgerEvent.advance seq))) s = elim (query seq) [
  | none ↦ (s, handles seq)
  | some (Result.err e) ↦ (s, handles seq)
  | some (Result.ok tasks) ↦ (
    record s {
      phase = Phase.scanning seq tasks;
      discovery = record (s.discovery) { task_cache = cache_all tasks s.discovery.task_cache };
    },
    handles seq,
  )
]

module _ {V N C : Type 0} (net : Network V N) (self : TaskDiscovery) (ch : Channel C)
    (query : Query) where
  unfoldable pub discovers_turn : Phase → Running N C → Running N C × Outcome
  unfolding takes
  discovers_turn Phase.waiting s =
      let (answer, c) = ch.recv s.channel in takes query answer (record s { channel = c })
  discovers_turn (Phase.scanning l []) s = (record s { phase = Phase.waiting }, quiet)
  discovers_turn (Phase.scanning l (task ∷ tasks)) s =
      elim (choose net self task l s.discovery.machine) [
        | none ↦ (record s { phase = Phase.scanning l tasks }, quiet)
        | some x ↦
            let (phase, m) = begins net x l tasks s.discovery.machine in
            (
              record s { phase = phase; discovery = record (s.discovery) { machine = m } },
              start_of phase,
            )
      ]
  discovers_turn (Phase.executing l x tasks) s = (
    record s {
      phase = Phase.executed l x tasks;
      discovery = record (s.discovery) { machine = carries_out net x s.discovery.machine };
    },
    quiet,
  )
  discovers_turn (Phase.executed l x tasks) s = (
    record s {
      phase = Phase.scanning l tasks;
      discovery = record (s.discovery) { machine = releases net x s.discovery.machine };
    },
    ended,
  )
  discovers_turn Phase.exited s = (s, quiet)

  -- One turn of a task that is not aborted.
  unfoldable pub live_turn : Turn → Running N C → Running N C × Outcome
  unfolding polls_turn discovers_turn asks_turn
  live_turn (Turn.polls answer) s = polls_turn ch answer s
  live_turn Turn.discovers s = discovers_turn s.phase s
  live_turn Turn.asks s = asks_turn s
  live_turn Turn.interrupts s = (record s { stopped = true }, stops)

  unfoldable pub take_turn : Turn → Running N C → Running N C × Outcome
  unfolding live_turn
  take_turn turn s = if s.stopped then (s, quiet) else live_turn turn s

  unfoldable pub take_turns : List Turn → Running N C → Running N C × List Outcome
  unfolding take_turn
  take_turns [] s = (s, [])
  take_turns (turn ∷ turns) s =
      let (t, outcome) = take_turn turn s in
      let (last, outcomes) = take_turns turns t in (last, outcome ∷ outcomes)

abbrev pub is_up : Result ℕ String → Bool
is_up (Result.ok port) = true
is_up (Result.err e) = false

-- The state in which main.rs spawns the loops.
unfoldable pub spawned :
    {N C : Type 0} → (bind : ℕ → Result (Unit {0}) String) → Daemon → N → C → Running N C
unfolding at_start serve
spawned bind d n empty = record {
  poller = d.poller;
  channel = empty;
  phase = Phase.waiting;
  discovery = at_start n;
  listening = is_up (serve bind (record { port = d.health_port }));
  stopped = false;
}
