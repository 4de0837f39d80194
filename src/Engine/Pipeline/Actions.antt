-- ===== src/Engine/Pipeline/Actions.antt =====
-- Sums over the actions of a run: each part of the pipeline adds the weight of what it does.
use Prim.Native.String.{String}
use soroban_cron.Common.{ℕ, ◌+◌, ◌≡◌, ap, List, [], ◌∷◌, ◌++◌, arith}
use soroban_cron.Engine.Rpc.{TxHash}
use soroban_cron.Engine.Pipeline.{
  Network, Action, Machine, ExecutionPipeline, submit, query, sleep, confirm,
}
use soroban_cron.Engine.Pipeline.Confirmation.{wait_for_confirmation_asks_once}

abbrev pub total : (Action → ℕ) → List Action → ℕ
total w [] = 0
total w (a ∷ actions) = w a + total w actions

pub total-append :
    (w : Action → ℕ) (xs ys : List Action) → total w (xs ++ ys) ≡ total w xs + total w ys
total-append w [] ys = omega arith
total-append w (x ∷ xs) ys = omega (arith, total-append w xs ys)

module _ {V N : Type 0} (w : Action → ℕ) (net : Network V N) where
  abbrev pub weight : Machine N → ℕ
  weight m = total w m.actions

  pub query-weight :
      (hash : TxHash) (m : Machine N)
      → weight (query net hash m).2 ≡ weight m + w (Action.queried hash)
  unfolding query
  query-weight hash m = omega (arith, total-append w m.actions (Action.queried hash ∷ []))

  pub confirm-weight :
      (pipeline : ExecutionPipeline) (hash : TxHash) (m : Machine N)
      → weight (confirm net pipeline hash m) ≡ weight m + w (Action.queried hash)
  unfolding confirm
  confirm-weight pipeline hash m = ground (
    arith,
    ap (λ r. weight r.1) (wait_for_confirmation_asks_once net pipeline hash m),
    query-weight hash m,
  )

  pub submit-weight :
      (envelope : String) (m : Machine N)
      → weight (submit net envelope m).1 ≡ weight m + w (Action.submitted envelope)
  unfolding submit
  submit-weight envelope m =
      omega (arith, total-append w m.actions (Action.submitted envelope ∷ []))

  pub sleep-weight :
      (seconds : ℕ) (m : Machine N)
      → weight (sleep net seconds m) ≡ weight m + w (Action.slept seconds)
  unfolding sleep
  sleep-weight seconds m = omega (arith, total-append w m.actions (Action.slept seconds ∷ []))
