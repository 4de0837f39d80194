-- ===== src/Engine/Loops/Arbitration.antt =====
-- What the interleaved discovery loop does against the contract's window table.
use soroban_cron.Common.{
  ℕ, ◌+◌, ◌<◌, ◌≡◌, refl, sym, subst, ap, ◌∙◌, true, Option, none, some, List, [], ◌∷◌, inl, inr,
  Option-cases,
}
use soroban_cron.Common.Word.{u32_mod}
use soroban_cron.Anchor.Execution.Windows.{region, arbitrate}
use soroban_cron.Engine.Errors.{EngineError, Result, Result-cases}
use soroban_cron.Engine.Rpc.{RemoteTask}
use soroban_cron.Engine.Poller.{LedgerEvent}
use soroban_cron.Engine.Pipeline.{Network, Machine, dispatch}
use soroban_cron.Engine.Discovery.{
  TaskDiscovery, Discovery, Query, classify_and_dispatch, dispatch_all, on_ledger_advance,
}
use soroban_cron.Engine.Discovery.Windows.{
  is_designated, IsWired, role_in, classify_and_dispatch-arbitrate,
}
use soroban_cron.Engine.Discovery.Events.{each}
use soroban_cron.Engine.Executions.{Phase}
use soroban_cron.Engine.Executions.Pieces.{finish}
use soroban_cron.Engine.Channel.{Channel}
use soroban_cron.Engine.Loops.{Running, Turn, take_turns}
use soroban_cron.Engine.Loops.Refinement.{handled_in, settled, take_turns-settled}

-- The windows of these tasks end away from the end of a `u32`.
abbrev pub HaveRoom : List RemoteTask → Type 0
HaveRoom [] = Unit {0}
HaveRoom (task ∷ tasks) = (task.next_allowed_execution + 50 < u32_mod) × HaveRoom tasks

-- So do those of the tasks that a query found.
abbrev pub FindsRoom : Option (Result (List RemoteTask) EngineError) → Type 0
FindsRoom none = Unit {0}
FindsRoom (some (Result.err e)) = Unit {0}
FindsRoom (some (Result.ok tasks)) = HaveRoom tasks

module _ {V N : Type 0} (net : Network V N) (self : TaskDiscovery) where
  -- A task is dispatched in the role of its window, if the window table admits the keeper.
  abbrev pub table_dispatch : RemoteTask → (current_ledger : ℕ) → Machine N → Machine N
  table_dispatch task current_ledger m =
      let window = region task.next_allowed_execution current_ledger in
      elim (arbitrate window (is_designated self task) true) [
        | some e ↦ m
        | none ↦ dispatch net self.pipeline task (role_in window) m
      ]

  abbrev pub table_all : List RemoteTask → (current_ledger : ℕ) → Machine N → Machine N
  table_all [] current_ledger m = m
  table_all (task ∷ tasks) current_ledger m =
      table_all tasks current_ledger (table_dispatch task current_ledger m)

  abbrev pub table_found :
      Option (Result (List RemoteTask) EngineError) → (current_ledger : ℕ) → Machine N → Machine N
  table_found none current_ledger m = m
  table_found (some (Result.err e)) current_ledger m = m
  table_found (some (Result.ok tasks)) current_ledger m = table_all tasks current_ledger m

  -- One ledger after the other, and the tasks of each in the order in which they were found.
  abbrev pub table_run : Query → List LedgerEvent → Machine N → Machine N
  table_run query [] m = m
  table_run query (LedgerEvent.advance seq ∷ events) m =
      table_run query events (table_found (query seq) seq m)

  module _ (wired : IsWired self) where
    dispatch_all-table_all :
        (tasks : List RemoteTask) (l : ℕ) (m : Machine N)
        → HaveRoom tasks
        → dispatch_all net self tasks l m ≡ table_all tasks l m
    unfolding dispatch_all
    dispatch_all-table_all [] l m room = refl
    dispatch_all-table_all (task ∷ tasks) l m (here, room) =
        dispatch_all-table_all tasks l (classify_and_dispatch net self task l m) room
        ∙ ap (table_all tasks l) (classify_and_dispatch-arbitrate net self task l m wired here)

    on_ledger_advance-table_found :
        (query : Query) (l : ℕ) (d : Discovery N)
        → FindsRoom (query l)
        → (on_ledger_advance net self query l d).machine ≡ table_found (query l) l d.machine
    unfolding on_ledger_advance
    on_ledger_advance-table_found query l d room = elim (Option-cases (query l)) [
      | inl late ↦ rw (late, on_ledger_advance) refl
      | inr (outcome, answered) ↦ elim (Result-cases outcome) [
        | inl (tasks, good) ↦
            let room_of : HaveRoom tasks = subst FindsRoom (answered ∙ ap some good) room in
            rw (answered, good, on_ledger_advance)
              (dispatch_all-table_all tasks l d.machine room_of)
        | inr (f, bad) ↦ rw (answered, bad, on_ledger_advance) refl
      ]
    ]

    each-table_run :
        (query : Query) (events : List LedgerEvent) (d : Discovery N)
        → ((l : ℕ) → FindsRoom (query l))
        → (each net self query events d).machine ≡ table_run query events d.machine
    each-table_run query [] d room = refl
    each-table_run query (LedgerEvent.advance seq ∷ events) d room =
        each-table_run query events (on_ledger_advance net self query seq d) room
        ∙ ap (table_run query events) (on_ledger_advance-table_found query seq d (room seq))

  -- Let the parts of the daemon be wired together, and the windows of all tasks that the queries find
  -- end away from the end of a `u32`. From a state where the discovery loop is at its receive to
  -- another, however the poller, the health server and a shutdown took turns with it, the tasks
  -- executed, their order and their roles are those of the contract's window table, for a keeper that
  -- is registered, at the ledgers that the loop took up.
  pub take_turns-table_run :
      {C : Type 0} (ch : Channel C) (query : Query) (turns : List Turn) (s : Running N C)
      → IsWired self
      → ((l : ℕ) → FindsRoom (query l))
      → s.phase ≡ Phase.waiting
      → (take_turns net self ch query turns s).0.phase ≡ Phase.waiting
      → let (last, outcomes) = take_turns net self ch query turns s in
        last.discovery.machine ≡ table_run query (handled_in outcomes) s.discovery.machine
  take_turns-table_run ch query turns s wired room waits waits_again =
      let (last, outcomes) = take_turns net self ch query turns s in
      sym (ap (λ (p : Phase). finish net self p last.discovery.machine) waits_again)
      ∙ ap (λ (d : Discovery N). d.machine) (take_turns-settled net self ch query turns s)
      ∙ each-table_run wired query (handled_in outcomes) (settled net self s) room
      ∙ ap
          (λ (p : Phase).
            table_run query (handled_in outcomes) (finish net self p s.discovery.machine))
          waits
