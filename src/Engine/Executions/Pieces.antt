-- ===== src/Engine/Executions/Pieces.antt =====
-- The pieces together are `classify_and_dispatch`.
use soroban_cron.Common.{ℕ, ◌≡◌, refl, ap, ◌∙◌, Option, none, some, List, [], ◌∷◌, arith}
use soroban_cron.Engine.Rpc.{RemoteTask}
use soroban_cron.Engine.InFlight.{contains, insert, remove}
use soroban_cron.Engine.Pipeline.{Network, Machine, parse_task_id, dispatch}
use soroban_cron.Engine.Pipeline.Dispatch.{remove-insert, execute_with_retry-in_flight}
use soroban_cron.Engine.Discovery.{TaskDiscovery, evaluate, classify_and_dispatch, dispatch_all}
use soroban_cron.Engine.Executions.{Execution, Phase, choose, begins, carries_out, releases}

module _ {V N : Type 0} (net : Network V N) where
  -- What the discovery loop has still to do for the current ledger.
  abbrev pub finish : TaskDiscovery → Phase → Machine N → Machine N
  finish self Phase.waiting m = m
  finish self (Phase.scanning l tasks) m = dispatch_all net self tasks l m
  finish self (Phase.executing l x tasks) m =
      dispatch_all net self tasks l (releases net x (carries_out net x m))
  finish self (Phase.executed l x tasks) m = dispatch_all net self tasks l (releases net x m)
  finish self Phase.exited m = m

  pub dispatch-begins :
      (self : TaskDiscovery) (x : Execution) (l : ℕ) (tasks : List RemoteTask) (m : Machine N)
      → let (phase, later) = begins net x l tasks m in
        finish self phase later
        ≡ dispatch_all net self tasks l (dispatch net x.pipeline x.task x.role m)
  unfolding begins carries_out releases dispatch
  dispatch-begins self x l tasks m = ground arith

  -- One execution at a time: it is put into an empty set, keeps it, and leaves it empty.
  pub begins_idle :
      (x : Execution) (l : ℕ) (tasks : List RemoteTask) (m : Machine N)
      → m.in_flight ≡ []
      → begins net x l tasks m ≡ (
        Phase.executing l x tasks,
        record m { in_flight = parse_task_id net x.task.task_id_hex ∷ [] },
      )
  unfolding begins insert contains
  begins_idle x l tasks m idle = ground arith

  pub carries_out-in_flight :
      (x : Execution) (m : Machine N) → (carries_out net x m).in_flight ≡ m.in_flight
  unfolding carries_out
  carries_out-in_flight x m = execute_with_retry-in_flight net x.pipeline x.task x.role m

  pub releases_idle :
      (x : Execution) (m : Machine N)
      → m.in_flight ≡ parse_task_id net x.task.task_id_hex ∷ []
      → (releases net x m).in_flight ≡ []
  unfolding releases contains
  releases_idle x m alone =
      let id = parse_task_id net x.task.task_id_hex in
      ap (remove id) alone ∙ remove-insert id [] refl

  module _ (self : TaskDiscovery) where
    abbrev pub performed : Option Execution → Machine N → Machine N
    performed none m = m
    performed (some x) m = dispatch net x.pipeline x.task x.role m

    pub classify_and_dispatch-choose :
        (task : RemoteTask) (l : ℕ) (m : Machine N)
        → classify_and_dispatch net self task l m ≡ performed (choose net self task l m) m
    unfolding classify_and_dispatch evaluate choose
    classify_and_dispatch-choose task l m = ground arith
