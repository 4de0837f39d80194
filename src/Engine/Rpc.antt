-- ===== src/Engine/Rpc.antt =====
-- the-engine/src/rpc_client.rs: what each request makes of the node's reply.
use Prim.Native.String.{String}
use text.Mathlib.Text.{◌==◌}
use mathlib.Core.Option.{get_or}
use soroban_cron.Common.{
  ℕ, ◌%◌, Bool, true, false, not, Option, none, some, List, [], if◌then◌else◌,
}
use soroban_cron.Common.Int.{ℤ}
use soroban_cron.Common.Word.{u32_mod}
use soroban_cron.Engine.Errors.{
  IoErrorKind, TransientError, NonTransientError, EngineError, Result, ◌>>=◌, map_err,
}

abbrev pub TxHash : Type 0
TxHash = String

pub record TxResult : Type 0 where
  pub hash : TxHash
  pub ledger : ℕ
  pub success : Bool
  pub error_detail : Option String

pub record RemoteTask : Type 0 where
  pub task_id_hex : String
  pub target_drip_list : String
  pub execution_interval_ledgers : ℕ
  pub next_allowed_execution : ℕ
  pub micro_reward_per_run : ℤ
  pub designated_keeper : String

-- The HTTP client, by its timeout for one request in seconds.
pub record RpcClient : Type 0 where
  pub endpoint : String
  pub request_timeout : ℕ

-- What the code uses of `serde_json::Value`, which is not in the repository.
pub record Json (V : Type 0) : Type 0 where
  -- `value.get(key)`
  pub get : V → String → Option V
  -- `value[key]`
  pub index : V → String → V
  pub as_u64 : V → Option ℕ
  pub as_str : V → Option String
  pub to_string : V → String

-- What the code reads of a `reqwest::Error`.
pub record SendError : Type 0 where
  pub is_timeout : Bool
  pub is_connect : Bool
  pub text : String

-- An HTTP exchange: no response, or a response whose body is or is not JSON.
pub data Reply (V : Type 0) : Type 0 where
  no_response : SendError → Reply V
  response : (status_is_success : Bool) (body : Result V String) → Reply V

unfoldable pub send_failure : SendError → TransientError
send_failure e =
    if e.is_timeout
    then TransientError.rpc_timeout
    else if e.is_connect
    then TransientError.connection_reset
    else TransientError.io IoErrorKind.other e.text

module _ {V : Type 0} (json : Json V) where
  unfoldable pub call : Reply V → Result V EngineError
  unfolding send_failure
  call (Reply.no_response e) = Result.err (EngineError.transient (send_failure e))
  call (Reply.response false body) = Result.err (EngineError.transient TransientError.rpc_timeout)
  call (Reply.response true (Result.err text)) =
      Result.err (EngineError.transient (TransientError.io IoErrorKind.invalid_data text))
  call (Reply.response true (Result.ok value)) = elim (json.get value "error") [
    | some e ↦
        Result.err
          (EngineError.non_transient (NonTransientError.contract_rejection (json.to_string e)))
    | none ↦ Result.ok (json.index value "result")
  ]

  unfoldable pub as_transient : EngineError → TransientError
  as_transient (EngineError.transient t) = t
  as_transient (EngineError.non_transient e) = TransientError.rpc_timeout

  unfoldable pub get_latest_ledger : Reply V → Result ℕ TransientError
  unfolding call as_transient
  get_latest_ledger reply = do
    result ← map_err as_transient (call reply)
    elim (json.as_u64 (json.index result "sequence")) [
      | none ↦ Result.err (
          TransientError.io IoErrorKind.invalid_data
            "missing 'sequence' field in getLatestLedger response")
      | some sequence ↦ Result.ok (sequence % u32_mod)
    ]

  unfoldable pub send_transaction : Reply V → Result TxHash EngineError
  unfolding call
  send_transaction reply = do
    result ← call reply
    elim (json.as_str (json.index result "hash")) [
      | none ↦ Result.err (
          EngineError.non_transient
            (NonTransientError.contract_rejection "missing 'hash' in sendTransaction response"))
      | some hash ↦ Result.ok hash
    ]

  unfoldable pub get_transaction : TxHash → Reply V → Result TxResult EngineError
  unfolding call
  get_transaction hash reply = do
    result ← call reply
    let status = get_or (json.as_str (json.index result "status")) "UNKNOWN"
    let success = status == "SUCCESS"
    let ledger = get_or (json.as_u64 (json.index result "ledger")) 0 % u32_mod
    let error_detail =
        if not success
        then some (get_or (json.as_str (json.index result "resultMetaXdr")) "")
        else none
    Result.ok
        (record { hash = hash; ledger = ledger; success = success; error_detail = error_detail })

-- The code asks nothing of the node yet: "returns an empty list until the XDR layer is wired".
unfoldable pub query_executable_tasks : String → ℕ → Result (List RemoteTask) EngineError
query_executable_tasks anchor_address current_ledger = Result.ok []
