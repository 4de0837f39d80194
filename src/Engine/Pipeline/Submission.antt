-- ===== src/Engine/Pipeline/Submission.antt =====
-- What an execution submits first.
use mathlib.Core.List.{append_assoc}
use soroban_cron.Common.{
  ℕ, zero, suc, ◌≡◌, refl, ap, ◌∙◌, false, List, [], ◌∷◌, ◌++◌, arith, inl, inr,
}
use soroban_cron.Engine.Backoff.{next_backoff}
use soroban_cron.Engine.Errors.{Result-cases, Answer-cases}
use soroban_cron.Engine.Rpc.{TxHash, RemoteTask}
use soroban_cron.Engine.InFlight.{contains}
use soroban_cron.Engine.Pipeline.{
  ExecutionRole, Network, Action, Machine, ExecutionPipeline, submit, sleep, query, confirm,
  build_signed_transaction, parse_task_id, retry, execute_with_retry, dispatch,
}
use soroban_cron.Engine.Pipeline.Confirmation.{wait_for_confirmation_asks_once}
use soroban_cron.Engine.Pipeline.Retries.{appended}
use soroban_cron.Engine.Pipeline.Dispatch.{dispatch_outcome}

module _ {V N : Type 0} (net : Network V N) (pipeline : ExecutionPipeline) (task : RemoteTask)
    (role : ExecutionRole) where
  abbrev envelope : Action
  envelope = Action.submitted (build_signed_transaction net pipeline task role)

  -- The submission of the task's transaction is the first thing done.
  abbrev pub StartsWithSubmission : List Action → List Action → Type 0
  StartsWithSubmission before after = (rest : List Action) × (after ≡ before ++ envelope ∷ rest)

  confirm-actions :
      (hash : TxHash) (m : Machine N)
      → (confirm net pipeline hash m).actions ≡ m.actions ++ Action.queried hash ∷ []
  unfolding confirm query
  confirm-actions hash m =
      ground (arith, ap (λ r. r.1) (wait_for_confirmation_asks_once net pipeline hash m))

  accepted :
      (hash : TxHash) (m : Machine N)
      → let later = (submit net (build_signed_transaction net pipeline task role) m).1 in
        StartsWithSubmission m.actions (confirm net pipeline hash later).actions
  unfolding submit
  accepted hash m = (
    Action.queried hash ∷ [],
    confirm-actions hash (submit net (build_signed_transaction net pipeline task role) m).1
        ∙ append_assoc m.actions (envelope ∷ []) (Action.queried hash ∷ []),
  )

  retry-StartsWithSubmission :
      (left backoff : ℕ) (m : Machine N)
      → StartsWithSubmission m.actions (retry net pipeline left backoff task role m).actions
  unfolding retry submit sleep
  retry-StartsWithSubmission zero backoff m =
      let text = build_signed_transaction net pipeline task role in
      elim (Result-cases (submit net text m).0) [
        | inl (hash, e) ↦ rw (e, retry) (accepted hash m)
        | inr (f, e) ↦ rw (e, retry) ([], refl)
      ]
  retry-StartsWithSubmission (suc left) backoff m =
      let text = build_signed_transaction net pipeline task role in
      let later = (submit net text m).1 in
      elim (Answer-cases (submit net text m).0) [
        | inl (hash, e) ↦ rw (e, retry) (accepted hash m)
        | inr (inl (f, e)) ↦
            let (rest, same) =
              retry-StartsWithSubmission left (next_backoff pipeline.retry_backoff_max backoff)
                (sleep net backoff later) in
            rw (e, retry)
              (
                Action.slept backoff ∷ envelope ∷ rest,
                same
                    ∙ appended envelope (Action.slept backoff) (Action.slept backoff) m.actions
                        later.actions (envelope ∷ rest) refl refl,
              )
        | inr (inr (f, e)) ↦ rw (e, retry) ([], refl)
      ]

  pub dispatch-StartsWithSubmission :
      (m : Machine N)
      → contains (parse_task_id net task.task_id_hex) m.in_flight ≡ false
      → StartsWithSubmission m.actions (dispatch net pipeline task role m).actions
  unfolding execute_with_retry
  dispatch-StartsWithSubmission m fresh =
      let id = parse_task_id net task.task_id_hex in
      let (rest, same) =
        retry-StartsWithSubmission pipeline.max_retries pipeline.retry_backoff_initial
          (record m { in_flight = id ∷ m.in_flight }) in
      let outcome = dispatch_outcome net pipeline task role m in
      (rest, ground (arith, outcome, same))
