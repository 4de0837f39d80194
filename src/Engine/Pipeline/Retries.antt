-- ===== src/Engine/Pipeline/Retries.antt =====
-- The attempts of one execution: how many, and how far apart.
use Prim.Native.String.{String}
use mathlib.Core.List.{append_assoc}
use soroban_cron.Common.{
  ℕ, zero, suc, ◌+◌, ◌<◌, ◌≤◌, ◌≡◌, refl, sym, ap, ◌∙◌, List, [], ◌∷◌, ◌++◌, arith, inl, inr,
}
use soroban_cron.Engine.Errors.{TransientError, EngineError, Result, Result-cases, Answer-cases}
use soroban_cron.Engine.Backoff.{next_backoff, scheduled, scheduled-zero, next_backoff-scheduled}
use soroban_cron.Engine.Rpc.{RemoteTask}
use soroban_cron.Engine.Pipeline.{
  ExecutionRole, Network, Action, Machine, ExecutionPipeline, submit, sleep,
  build_signed_transaction, retry, execute_with_retry,
}
use soroban_cron.Engine.Pipeline.Actions.{total, submit-weight, confirm-weight, sleep-weight}

abbrev pub is_submission : Action → ℕ
is_submission (Action.submitted envelope) = 1
is_submission (Action.queried hash) = 0
is_submission (Action.slept seconds) = 0

abbrev pub submissions : List Action → ℕ
submissions = total is_submission

-- What is done when every submission fails for a passing reason.
abbrev pub unlucky : (envelope : String) (initial max left k : ℕ) → List Action
unlucky envelope initial max zero k = Action.submitted envelope ∷ []
unlucky envelope initial max (suc left) k =
    Action.submitted envelope
    ∷ Action.slept (scheduled initial max k)
    ∷ unlucky envelope initial max left (suc k)

pub appended :
    (a b c : Action) (xs ys zs : List Action)
    → ys ≡ xs ++ a ∷ []
    → b ≡ c
    → ys ++ b ∷ [] ++ zs ≡ xs ++ a ∷ c ∷ zs
appended a b c xs ys zs same e =
    rw (same, e) (append_assoc (xs ++ a ∷ []) (c ∷ []) zs ∙ append_assoc xs (a ∷ []) (c ∷ zs))

module _ {V N : Type 0} (net : Network V N) (pipeline : ExecutionPipeline) where
  abbrev count : Machine N → ℕ
  count m = submissions m.actions

  module _ (task : RemoteTask) (role : ExecutionRole) where
    abbrev envelope : String
    envelope = build_signed_transaction net pipeline task role

    retry-count :
        (left backoff : ℕ) (m : Machine N)
        → (count m < count (retry net pipeline left backoff task role m))
          × (count (retry net pipeline left backoff task role m) ≤ count m + suc left)
    unfolding retry
    retry-count zero backoff m = elim (Result-cases (submit net envelope m).0) [
      | inl (hash, e) ↦ ground (
        arith,
        submit-weight is_submission net envelope m,
        confirm-weight is_submission net pipeline hash (submit net envelope m).1,
      )
      | inr (f, e) ↦ ground (arith, submit-weight is_submission net envelope m)
    ]
    retry-count (suc left) backoff m =
        let later = (submit net envelope m).1 in
        let s = submit-weight is_submission net envelope m in
        elim (Answer-cases (submit net envelope m).0) [
          | inl (hash, e) ↦ ground (arith, s, confirm-weight is_submission net pipeline hash later)
          | inr (inl (f, e)) ↦ ground (
            arith,
            s,
            sleep-weight is_submission net backoff later,
            retry-count left (next_backoff pipeline.retry_backoff_max backoff)
                (sleep net backoff later),
          )
          | inr (inr (f, e)) ↦ ground (arith, s)
        ]

    -- Every execution submits its transaction at least once, and at most `max_retries` + 1 times,
    -- whatever the node replies.
    pub execute_with_retry_submits :
        (m : Machine N)
        → (count m < count (execute_with_retry net pipeline task role m))
          × (count (execute_with_retry net pipeline task role m)
              ≤ count m + suc pipeline.max_retries)
    unfolding execute_with_retry
    execute_with_retry_submits m = retry-count pipeline.max_retries pipeline.retry_backoff_initial m

    submit-actions :
        (m : Machine N)
        → (submit net envelope m).1.actions ≡ m.actions ++ Action.submitted envelope ∷ []
    unfolding submit
    submit-actions m = refl

    retry-unlucky :
        (initial left k backoff : ℕ) (m : Machine N)
        → backoff ≡ scheduled initial pipeline.retry_backoff_max k
        → ((m : Machine N)
            → (e : TransientError) × ((submit net envelope m).0
                ≡ Result.err (EngineError.transient e)))
        → (retry net pipeline left backoff task role m).actions
          ≡ m.actions ++ unlucky envelope initial pipeline.retry_backoff_max left k
    unfolding retry sleep
    retry-unlucky initial zero k backoff m same down = rw ((down m).1, retry) (submit-actions m)
    retry-unlucky initial (suc left) k backoff m same down =
        let later = (submit net envelope m).1 in
        let max = pipeline.retry_backoff_max in
        rw ((down m).1, retry)
          (retry-unlucky initial left (suc k) (next_backoff max backoff) (sleep net backoff later)
              (ap (next_backoff max) same ∙ next_backoff-scheduled initial max k) down
            ∙ appended (Action.submitted envelope) (Action.slept backoff)
                (Action.slept (scheduled initial max k)) m.actions later.actions
                (unlucky envelope initial max left (suc k)) (submit-actions m)
                (ap Action.slept same))

    -- In every role: if the initial backoff is at most the maximum and every submission fails for a
    -- passing reason, `max_retries` + 1 are made, and before the next one the daemon sleeps `initial` times
    -- 2 ^ k seconds after attempt k, or the maximum where that is less; nothing else is done.
    pub execute_with_retry_backs_off :
        (m : Machine N)
        → pipeline.retry_backoff_initial ≤ pipeline.retry_backoff_max
        → ((m : Machine N)
            → (e : TransientError) × ((submit net envelope m).0
                ≡ Result.err (EngineError.transient e)))
        → (execute_with_retry net pipeline task role m).actions
          ≡ m.actions
            ++ unlucky envelope pipeline.retry_backoff_initial pipeline.retry_backoff_max
                pipeline.max_retries 0
    unfolding execute_with_retry
    execute_with_retry_backs_off m ordered down =
        retry-unlucky pipeline.retry_backoff_initial pipeline.max_retries 0
          pipeline.retry_backoff_initial m
          (sym (scheduled-zero pipeline.retry_backoff_initial pipeline.retry_backoff_max ordered))
          down
