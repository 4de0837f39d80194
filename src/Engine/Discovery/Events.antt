-- ===== src/Engine/Discovery/Events.antt =====
-- The discovery loop over the ledger events that it receives.
use soroban_cron.Common.{
  ℕ, ◌≡◌, refl, inl, inr, List, [], ◌∷◌, ◌++◌, length, arith, Option-cases, ◌∙◌,
}
use soroban_cron.Engine.Errors.{Result-cases}
use soroban_cron.Engine.Rpc.{RemoteTask}
use soroban_cron.Engine.Poller.{LedgerEvent, LedgerPoller}
use soroban_cron.Engine.Poller
use soroban_cron.Engine.Poller.Progress.{Ascending, Answers, run-IsCaughtUp}
use soroban_cron.Engine.Poller.Order.{Ascending-append}
use soroban_cron.Engine.Pipeline.{ExecutionRole, ExecutionPipeline, Network, Machine, dispatch}
use soroban_cron.Engine.Pipeline.Dispatch.{dispatch_outcome}
use soroban_cron.Engine.Discovery.{
  TaskDiscovery, Discovery, Received, Query, evaluate, classify_and_dispatch, dispatch_all,
  on_ledger_advance, run, executable_tasks,
}

-- What is asked of the broadcast channel: a receiver gets the events in the order in which they were
-- sent; where it lags, some are skipped and counted; after the last one it may learn that the
-- channel is closed.
pub data Delivered : List LedgerEvent → List Received → Type 0 where
  waits : {sent : List LedgerEvent} → Delivered sent []
  receives :
      {sent : List LedgerEvent} {received : List Received} (e : LedgerEvent)
      → Delivered sent received
      → Delivered (e ∷ sent) (Received.event e ∷ received)
  lags :
      {sent : List LedgerEvent} {received : List Received} (skipped : List LedgerEvent)
      → Delivered sent received
      → Delivered (skipped ++ sent) (Received.lagged (length skipped) ∷ received)
  closes : Delivered [] (Received.closed ∷ [])

-- The ledgers that the loop handles.
abbrev pub handled : List Received → List LedgerEvent
handled [] = []
handled (Received.event e ∷ received) = e ∷ handled received
handled (Received.lagged skipped ∷ received) = handled received
handled (Received.closed ∷ received) = []

handled-Ascending :
    {sent : List LedgerEvent} {received : List Received} (last : ℕ)
    → Delivered sent received
    → Ascending last sent
    → Ascending last (handled received)
handled-Ascending last waits p = tt
handled-Ascending last (receives (LedgerEvent.advance seq) d) p = (p.0, handled-Ascending seq d p.1)
handled-Ascending last (lags {sent} skipped d) p =
    handled-Ascending last d (Ascending-append last skipped sent p)
handled-Ascending last closes p = tt

module _ {V N : Type 0} (net : Network V N) where
  dispatch-in_flight :
      (pipeline : ExecutionPipeline) (task : RemoteTask) (role : ExecutionRole) (m : Machine N)
      → (dispatch net pipeline task role m).in_flight ≡ m.in_flight
  dispatch-in_flight pipeline task role m =
      ground (arith, dispatch_outcome net pipeline task role m)

  module _ (self : TaskDiscovery) where
    classify-in_flight :
        (task : RemoteTask) (l : ℕ) (m : Machine N)
        → (classify_and_dispatch net self task l m).in_flight ≡ m.in_flight
    unfolding classify_and_dispatch evaluate
    classify-in_flight task l m = ground (
      arith,
      dispatch-in_flight self.pipeline task ExecutionRole.designated m,
      dispatch-in_flight self.grace_monitor.pipeline task ExecutionRole.secondary m,
      dispatch-in_flight self.pipeline task ExecutionRole.post_grace m,
    )

    dispatch_all-in_flight :
        (tasks : List RemoteTask) (l : ℕ) (m : Machine N)
        → (dispatch_all net self tasks l m).in_flight ≡ m.in_flight
    unfolding dispatch_all
    dispatch_all-in_flight [] l m = refl
    dispatch_all-in_flight (task ∷ tasks) l m =
        dispatch_all-in_flight tasks l (classify_and_dispatch net self task l m)
        ∙ classify-in_flight task l m

    on_ledger_advance-in_flight :
        (query : Query) (l : ℕ) (s : Discovery N)
        → (on_ledger_advance net self query l s).machine.in_flight ≡ s.machine.in_flight
    unfolding on_ledger_advance
    on_ledger_advance-in_flight query l s = elim (Option-cases (query l)) [
      | inl late ↦ ground arith
      | inr (outcome, answered) ↦ elim (Result-cases outcome) [
        | inl (tasks, good) ↦ ground (arith, dispatch_all-in_flight tasks l s.machine)
        | inr (e, bad) ↦ ground arith
      ]
    ]

    -- After any events and whatever the queries and the node answer, the in-flight set is what it
    -- was: no task that was dispatched is left in it.
    pub run-in_flight :
        (query : Query) (received : List Received) (s : Discovery N)
        → (run net self query received s).machine.in_flight ≡ s.machine.in_flight
    unfolding run
    run-in_flight query [] s = refl
    run-in_flight query (Received.event (LedgerEvent.advance seq) ∷ received) s =
        run-in_flight query received (on_ledger_advance net self query seq s)
        ∙ on_ledger_advance-in_flight query seq s
    run-in_flight query (Received.lagged skipped ∷ received) s = run-in_flight query received s
    run-in_flight query (Received.closed ∷ received) s = refl

    abbrev pub each : Query → List LedgerEvent → Discovery N → Discovery N
    each query [] s = s
    each query (LedgerEvent.advance seq ∷ events) s =
        each query events (on_ledger_advance net self query seq s)

    run-each :
        (query : Query) (received : List Received) (s : Discovery N)
        → run net self query received s ≡ each query (handled received) s
    unfolding run
    run-each query [] s = refl
    run-each query (Received.event (LedgerEvent.advance seq) ∷ received) s =
        run-each query received (on_ledger_advance net self query seq s)
    run-each query (Received.lagged skipped ∷ received) s = run-each query received s
    run-each query (Received.closed ∷ received) s = refl

    -- Through a channel that delivers in order and may skip, the discovery loop handles the events
    -- that it receives one after the other, and their ledgers are strictly ascending, all above the
    -- one that the poller knew at its start: no ledger is handled twice.
    pub run-handled :
        (answers : Answers) (p : LedgerPoller) (received : List Received) (query : Query)
        (s : Discovery N)
        → Delivered (Poller.run answers p).1 received
        → (run net self query received s ≡ each query (handled received) s)
          × Ascending p.last_known_ledger (handled received)
    run-handled answers p received query s d = (
      run-each query received s,
      handled-Ascending p.last_known_ledger d (run-IsCaughtUp answers p).ascending,
    )

    -- With the query that the code makes, no event has any effect: nothing is ever submitted.
    pub run_submits_nothing :
        (received : List Received) (s : Discovery N)
        → run net self (executable_tasks self) received s ≡ s
    unfolding run on_ledger_advance executable_tasks dispatch_all
    run_submits_nothing [] s = refl
    run_submits_nothing (Received.event (LedgerEvent.advance seq) ∷ received) s =
        run_submits_nothing received s
    run_submits_nothing (Received.lagged skipped ∷ received) s = run_submits_nothing received s
    run_submits_nothing (Received.closed ∷ received) s = refl
