-- ===== src/Engine/Pipeline/Confirmation.antt =====
-- How the wait for a confirmation ends.
use soroban_cron.Common.{
  ℕ, suc, ◌*◌, ◌/◌, ◌≡◌, inl, inr, true, none, some, arith, ltb, if◌then◌else◌,
}
use soroban_cron.Engine.Errors.{Result-cases, NonTransientError, EngineError, Result}
use soroban_cron.Engine.Rpc.{TxHash, TxResult, Reply, get_transaction}
use soroban_cron.Engine.Pipeline.{
  Network, Machine, ExecutionPipeline, is_decided, query, poll_confirmation, wait_for_confirmation,
}

module _ {V N : Type 0} (net : Network V N) where
  -- Whatever the node replies, a parsed reply carries a success or an error detail.
  get_transaction-decided :
      (hash : TxHash) (reply : Reply V) (tx : TxResult)
      → get_transaction net.json hash reply ≡ Result.ok tx
      → is_decided tx ≡ true
  unfolding get_transaction is_decided
  get_transaction-decided hash reply tx e = ground arith

  query-decided :
      (hash : TxHash) (m : Machine N) (tx : TxResult)
      → (query net hash m).0 ≡ Result.ok tx
      → is_decided tx ≡ true
  unfolding query
  query-decided hash m tx e = get_transaction-decided hash _ tx e

  poll_confirmation-once :
      (fuel : ℕ) (hash : TxHash) (remaining : ℕ) (m : Machine N)
      → poll_confirmation net (suc fuel) hash remaining m ≡ (
          let (answer, took, asked) = query net hash m in
          (if ltb remaining took then none else some answer, asked))
  unfolding poll_confirmation
  poll_confirmation-once fuel hash remaining m = elim (Result-cases (query net hash m).0) [
    | inl (tx, e) ↦ ground (arith, query-decided hash m tx e)
    | inr (f, e) ↦ ground arith
  ]

  module _ (pipeline : ExecutionPipeline) where
    -- The wait asks the node once and never again: its outcome is the timeout, if the reply took
    -- longer than that, and else what the one reply says.
    pub wait_for_confirmation_asks_once :
        (hash : TxHash) (m : Machine N)
        → wait_for_confirmation net pipeline hash m ≡ (
            let (answer, took, asked) = query net hash m in
            (
              if ltb (pipeline.confirmation_timeout * 1000) took
                  then Result.err (
                      EngineError.non_transient
                        (NonTransientError.confirmation_timeout pipeline.confirmation_timeout))
                  else answer,
              asked,
            ))
    unfolding wait_for_confirmation
    wait_for_confirmation_asks_once hash m =
        rw
          (poll_confirmation-once (pipeline.confirmation_timeout * 1000 / 2000) hash
            (pipeline.confirmation_timeout * 1000) m)
          (ground arith)
