-- ===== src/Engine/Discovery/Windows.antt =====
-- The daemon's choice of tasks against the contract's window table.
use text.Mathlib.Text.{◌==◌ as ◌=~◌}
use text.Mathlib.TextEquality.{eq_iff}
use soroban_cron.Common.{ap, Bool, ℕ, ◌+◌, ◌<◌, ◌≡◌, true, none, some, inl, inr, arith, Bool-cases}
use soroban_cron.Common.Word.{u32_mod}
use soroban_cron.Anchor.Execution.Windows.{Region, region, arbitrate}
use soroban_cron.Engine.Rpc.{RemoteTask}
use soroban_cron.Engine.InFlight.{contains}
use soroban_cron.Engine.Pipeline.{
  ExecutionRole, Network, Machine, ExecutionPipeline, parse_task_id, dispatch,
}
use soroban_cron.Engine.Pipeline.Dispatch.{dispatch_outcome}
use soroban_cron.Engine.Discovery.{
  TaskDiscovery, parse_hex, parse_task_id_hex, evaluate, classify_and_dispatch,
}

abbrev pub role_in : Region → ExecutionRole
role_in Region.designated_window = ExecutionRole.designated
role_in Region.grace_period = ExecutionRole.secondary
role_in _ = ExecutionRole.post_grace

-- Is the daemon the task's designated keeper?
abbrev pub is_designated : TaskDiscovery → RemoteTask → Bool
is_designated self task = task.designated_keeper =~ self.keeper_address

-- The discovery loop and its grace monitor act for the same keeper, through the same pipeline.
abbrev pub IsWired : TaskDiscovery → Type 0
IsWired self =
    self.grace_monitor ≡ record { keeper_address = self.keeper_address; pipeline = self.pipeline }

module _ {V N : Type 0} (net : Network V N) where
  dispatch_flying :
      (pipeline : ExecutionPipeline) (task : RemoteTask) (role : ExecutionRole) (m : Machine N)
      → contains (parse_task_id net task.task_id_hex) m.in_flight ≡ true
      → dispatch net pipeline task role m ≡ m
  dispatch_flying pipeline task role m flying =
      ground (arith, dispatch_outcome net pipeline task role m)

  -- Away from the last ledgers of a `u32`, a daemon whose parts are wired together dispatches a task
  -- exactly where the contract's window table would admit its keeper as a registered one, after the
  -- grace period too, and in the role of that window; where the table refuses, it does nothing.
  -- Whether the keeper is registered makes no difference. Tasks in flight included: their dispatch
  -- does nothing.
  pub classify_and_dispatch-arbitrate :
      (self : TaskDiscovery) (task : RemoteTask) (current_ledger : ℕ) (m : Machine N)
      → IsWired self
      → task.next_allowed_execution + 50 < u32_mod
      → classify_and_dispatch net self task current_ledger m ≡ (
          let window = region task.next_allowed_execution current_ledger in
          elim (arbitrate window (is_designated self task) true) [
            | some e ↦ m
            | none ↦ dispatch net self.pipeline task (role_in window) m
          ])
  unfolding classify_and_dispatch evaluate parse_hex parse_task_id_hex parse_task_id
  classify_and_dispatch-arbitrate self task current_ledger m wired room =
      let flies = contains (parse_task_id net task.task_id_hex) m.in_flight in
      let monitor : evaluate net self.grace_monitor task current_ledger m
          ≡ evaluate net (record { keeper_address = self.keeper_address; pipeline = self.pipeline })
              task current_ledger m =
        ap (λ x. evaluate net x task current_ledger m) wired in
      let sides = eq_iff self.keeper_address task.designated_keeper in
      let sides' = eq_iff task.designated_keeper self.keeper_address in
      elim (Bool-cases flies) [
        | inl flying ↦ ground (
          arith,
          monitor,
          dispatch_flying self.pipeline task ExecutionRole.designated m flying,
          dispatch_flying self.pipeline task ExecutionRole.secondary m flying,
          dispatch_flying self.pipeline task ExecutionRole.post_grace m flying,
        )
        | inr fresh ↦ ground (arith, monitor, sides, sides')
      ]
