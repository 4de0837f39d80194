-- ===== src/Engine/Pipeline/Timestamp.antt =====
-- When the time of the last confirmed execution is written.
use Prim.Native.String.{String}
use mathlib.Core.List.{append_assoc}
use soroban_cron.Common.{
  ◌*◌, ◌≤◌, ◌++◌, [], ◌∷◌, ℕ, zero, suc, ◌≡◌, ◌⊎◌, refl, true, arith, inl, inr, ap, ◌∙◌, Bool-cases,
  ltb,
}
use soroban_cron.Engine.Errors.{Result, Result-cases, Answer-cases}
use soroban_cron.Engine.Backoff.{next_backoff}
use soroban_cron.Engine.Rpc.{TxHash, TxResult, RemoteTask, send_transaction, get_transaction}
use soroban_cron.Engine.Pipeline.{
  ExecutionRole, Network, Action, Machine, ExecutionPipeline, submit, sleep, query, confirm,
  build_signed_transaction, retry, execute_with_retry,
}
use soroban_cron.Engine.Pipeline.Confirmation.{wait_for_confirmation_asks_once}

module _ {V N : Type 0} (net : Network V N) where
  -- In the end the task's transaction was sent, and the node accepted it under a hash; the node was
  -- asked for that hash, answered in time, and named it a success; and the clock was written.
  pub record Confirmed (pipeline : ExecutionPipeline) (task : RemoteTask) (role : ExecutionRole)
      (last : Machine N) : Type 0 where
    pub sent : Machine N
    pub hash : TxHash
    pub result : TxResult
    pub accepted :
        let envelope = build_signed_transaction net pipeline task role in
        send_transaction net.json (net.post "sendTransaction" envelope sent.net).0 ≡ Result.ok hash
    pub answered :
        let envelope = build_signed_transaction net pipeline task role in
        let (reply, took, asked) =
          net.post "getTransaction" hash (net.post "sendTransaction" envelope sent.net).2 in
        (get_transaction net.json hash reply ≡ Result.ok result)
        × (took ≤ pipeline.confirmation_timeout * 1000)
        × (last.last_confirmed_ts ≡ net.unix_time asked)
    pub success : result.success ≡ true
    pub done :
        last.actions
        ≡ sent.actions
          ++ Action.submitted (build_signed_transaction net pipeline task role)
            ∷ Action.queried hash
            ∷ []

  module _ (pipeline : ExecutionPipeline) (task : RemoteTask) (role : ExecutionRole) where
    submit-timestamp :
        (envelope : String) (m : Machine N)
        → (submit net envelope m).1.last_confirmed_ts ≡ m.last_confirmed_ts
    unfolding submit
    submit-timestamp envelope m = refl

    sleep-timestamp :
        (seconds : ℕ) (m : Machine N)
        → (sleep net seconds m).last_confirmed_ts ≡ m.last_confirmed_ts
    unfolding sleep
    sleep-timestamp seconds m = refl

    -- After a submission that was accepted under this hash.
    confirm-timestamp :
        (hash : TxHash) (m : Machine N)
        → (submit net (build_signed_transaction net pipeline task role) m).0 ≡ Result.ok hash
        → let later = (submit net (build_signed_transaction net pipeline task role) m).1 in
          ((confirm net pipeline hash later).last_confirmed_ts ≡ m.last_confirmed_ts)
          ⊎ Confirmed pipeline task role (confirm net pipeline hash later)
    unfolding confirm submit query
    confirm-timestamp hash m accepted =
        let envelope = build_signed_transaction net pipeline task role in
        let sent = (submit net envelope m).1 in
        let wait = wait_for_confirmation_asks_once net pipeline hash sent in
        let outcome = ap (λ r. r.0) wait in
        let later = ap (λ r. r.1) wait in
        elim (Bool-cases (ltb (pipeline.confirmation_timeout * 1000) (query net hash sent).1)) [
          | inl late ↦ inl (ground (arith, outcome, later))
          | inr timely ↦ elim (Result-cases (query net hash sent).0) [
            | inr (f, e) ↦ inl (ground (arith, outcome, later))
            | inl (result, e) ↦ elim (Bool-cases result.success) [
              | inr failed ↦ inl (ground (arith, outcome, later))
              | inl success ↦ inr (record {
                sent = m;
                hash = hash;
                result = result;
                accepted = accepted;
                answered = (e, ground arith, ground (arith, outcome, later));
                success = success;
                done =
                    ground (arith, outcome, later)
                    ∙ append_assoc m.actions (Action.submitted envelope ∷ [])
                        (Action.queried hash ∷ []);
              })
            ]
          ]
        ]

    retry-timestamp :
        (left backoff : ℕ) (m : Machine N)
        → ((retry net pipeline left backoff task role m).last_confirmed_ts ≡ m.last_confirmed_ts)
          ⊎ Confirmed pipeline task role (retry net pipeline left backoff task role m)
    unfolding retry
    retry-timestamp zero backoff m =
        let envelope = build_signed_transaction net pipeline task role in
        elim (Result-cases (submit net envelope m).0) [
          | inr (f, e) ↦ inl (ground (arith, submit-timestamp envelope m))
          | inl (hash, e) ↦ rw (e, retry) (confirm-timestamp hash m e)
        ]
    retry-timestamp (suc left) backoff m =
        let envelope = build_signed_transaction net pipeline task role in
        let later = (submit net envelope m).1 in
        let next = next_backoff pipeline.retry_backoff_max backoff in
        elim (Answer-cases (submit net envelope m).0) [
          | inl (hash, e) ↦ rw (e, retry) (confirm-timestamp hash m e)
          | inr (inl (f, e)) ↦
              rw (e, retry)
                (elim (retry-timestamp left next (sleep net backoff later)) [
                  | inl kept ↦
                      inl (kept ∙ sleep-timestamp backoff later ∙ submit-timestamp envelope m)
                  | inr done ↦ inr done
                ])
          | inr (inr (f, e)) ↦ inl (ground (arith, submit-timestamp envelope m))
        ]

    -- An execution leaves the time of the last confirmed execution as it was, unless it ended with
    -- the submission of the task's transaction, which the node accepted under a hash, and one
    -- request for that hash, to which the node answered in time that it succeeded; the time is then
    -- that of the clock after the answer.
    pub execute_with_retry-timestamp :
        (m : Machine N)
        → ((execute_with_retry net pipeline task role m).last_confirmed_ts ≡ m.last_confirmed_ts)
          ⊎ Confirmed pipeline task role (execute_with_retry net pipeline task role m)
    unfolding execute_with_retry
    execute_with_retry-timestamp m =
        retry-timestamp pipeline.max_retries pipeline.retry_backoff_initial m
