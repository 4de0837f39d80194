-- ===== src/Engine/Config/Faults.antt =====
-- Why a configuration is refused.
use Prim.Native.String.{String}
use soroban_cron.Common.{
  ◌<◌, ◌≡◌, ◌⊎◌, refl, Bool, true, false, Option, none, some, inl, inr, arith, Bool-cases,
  Option-cases, ltb, leb, not, ◌&&◌,
}
use soroban_cron.Engine.Errors.{
  NonTransientError, EngineError, Result, Result-cases, err-cases, ◌>>=◌,
}
use soroban_cron.Engine.Config.Sources.{IsChosen, assemble-IsChosen}
use soroban_cron.Engine.Config.{
  EngineConfig, FileConfig, Process, or_else, config_path, load_file, required, assemble, validate,
  from_env, reject_if,
}

-- The required texts, by the variable and the file's field.
pub data Names (file : FileConfig) : String → Option String → Type 0 where
  keypair : Names file "KEEPER_KEYPAIR" file.keeper_keypair
  url : Names file "RPC_ENDPOINT_URL" file.rpc_endpoint_url
  address : Names file "ANCHOR_CONTRACT_ADDRESS" file.anchor_contract_address

-- The ranges that a configuration breaks.
pub data OutOfRange (c : EngineConfig) : String → Type 0 where
  polls : (c.poll_interval < 1) ⊎ (5 < c.poll_interval) → OutOfRange c "POLL_INTERVAL_SECS"
  queries : 10 < c.task_query_timeout → OutOfRange c "TASK_QUERY_TIMEOUT_SECS"
  confirms : 60 < c.confirmation_timeout → OutOfRange c "CONFIRMATION_TIMEOUT_SECS"
  backs_off : c.retry_backoff_initial < 1 → OutOfRange c "RETRY_BACKOFF_INITIAL_SECS"
  backs_off_long :
      (60 < c.retry_backoff_max) ⊎ (c.retry_backoff_max < c.retry_backoff_initial)
      → OutOfRange c "RETRY_BACKOFF_MAX_SECS"

module _ (process : Process) where
  -- What is wrong, and is so with the field that the error names.
  pub data Fault (field : String) : Type 0 where
    unreadable :
        {path reason : String}
        → field ≡ "config_file"
        → config_path process ≡ some path
        → process.read_to_string path ≡ Result.err reason
        → Fault field
    malformed :
        {path raw reason : String}
        → field ≡ "config_file"
        → config_path process ≡ some path
        → process.read_to_string path ≡ Result.ok raw
        → process.parse_toml raw ≡ Result.err reason
        → Fault field
    missing :
        {file : FileConfig} {val : Option String}
        → load_file process (config_path process) ≡ Result.ok file
        → Names file field val
        → process.var field ≡ none
        → val ≡ none
        → Fault field
    blank :
        {file : FileConfig} {val : Option String} {value : String}
        → load_file process (config_path process) ≡ Result.ok file
        → Names file field val
        → or_else (process.var field) val ≡ some value
        → process.is_blank value ≡ true
        → Fault field
    out_of_range :
        {file : FileConfig} {c : EngineConfig}
        → load_file process (config_path process) ≡ Result.ok file
        → IsChosen process file c
        → OutOfRange c field
        → Fault field

  -- A refusal, with the fault of the field that it names.
  pub record IsFaulty (e : EngineError) : Type 0 where
    pub field : String
    pub reason : String
    pub is_named : e ≡ EngineError.non_transient (NonTransientError.config_invalid field reason)
    pub fault : Fault field

  load_file-IsFaulty :
      (e : EngineError) → load_file process (config_path process) ≡ Result.err e → IsFaulty e
  unfolding load_file
  load_file-IsFaulty e failed = elim (Option-cases (config_path process)) [
    | inl none_given ↦ ground arith
    | inr (path, given) ↦ elim (Result-cases (process.read_to_string path)) [
      | inr (reason, unread) ↦ record {
        field = "config_file";
        reason = reason;
        is_named = ground arith;
        fault = unreadable refl given unread;
      }
      | inl (raw, read) ↦ elim (Result-cases (process.parse_toml raw)) [
        | inl (file, parsed) ↦ ground arith
        | inr (reason, unparsed) ↦ record {
          field = "config_file";
          reason = reason;
          is_named = ground arith;
          fault = malformed refl given read unparsed;
        }
      ]
    ]
  ]

  module _ (file : FileConfig)
      (loaded : load_file process (config_path process) ≡ Result.ok file) where
    required-IsFaulty :
        (key : String) (val : Option String) (e : EngineError)
        → Names file key val
        → required process key val ≡ Result.err e
        → IsFaulty e
    unfolding required
    required-IsFaulty key val e named failed = elim (Option-cases (or_else (process.var key) val)) [
      | inl absent ↦ record {
        field = key;
        reason = "required env var is missing or empty";
        is_named = ground arith;
        fault = missing loaded named (ground arith) (ground arith);
      }
      | inr (value, given) ↦ elim (Bool-cases (process.is_blank value)) [
        | inr filled ↦ ground arith
        | inl empty ↦ record {
          field = key;
          reason = "value must not be empty";
          is_named = ground arith;
          fault = blank loaded named given empty;
        }
      ]
    ]

    module _ (c : EngineConfig) (chosen : IsChosen process file c) (e : EngineError) where
      -- A check refuses for a number out of its range, or leaves the fault to the rest.
      checked :
          (b : Bool) (field reason : String) (rest : Result EngineConfig EngineError)
          → (b ≡ true → OutOfRange c field)
          → (rest ≡ Result.err e → IsFaulty e)
          → (reject_if b field reason >>= λ _. rest) ≡ Result.err e
          → IsFaulty e
      checked true field reason rest broken go_on failed = record {
        field = field;
        reason = reason;
        is_named = ground arith;
        fault = out_of_range loaded chosen (broken refl);
      }
      checked false field reason rest broken go_on failed = go_on failed

      validate-IsFaulty : validate process c ≡ Result.err e → IsFaulty e
      unfolding validate
      validate-IsFaulty =
          checked (not (leb 1 c.poll_interval && leb c.poll_interval 5)) _ _ _
            (λ bad. polls (ground arith))
            (checked (ltb 10 c.task_query_timeout) _ _ _ (λ bad. queries (ground arith))
              (checked (ltb 60 c.confirmation_timeout) _ _ _ (λ bad. confirms (ground arith))
                (checked (ltb c.retry_backoff_initial 1) _ _ _ (λ bad. backs_off (ground arith))
                  (checked (ltb 60 c.retry_backoff_max) _ _ _
                    (λ bad. backs_off_long (inl (ground arith)))
                    (checked (ltb c.retry_backoff_max c.retry_backoff_initial) _ _ _
                      (λ bad. backs_off_long (inr (ground arith))) (λ accepted. ground arith))))))

  -- A refusal names a field that is at fault: the file cannot be read or parsed, a required text is in
  -- neither place or is blank, or a number, wherever it came from, is out of its range.
  pub from_env-IsFaulty : (e : EngineError) → from_env process ≡ Result.err e → IsFaulty e
  unfolding from_env
  from_env-IsFaulty e =
      err-cases (load_file process (config_path process)) _ e (load_file-IsFaulty e) (λ file loaded.
        let missing_of = λ (key : String) (val : Option String) (named : Names file key val).
          required-IsFaulty file loaded key val e named in
        err-cases (required process "KEEPER_KEYPAIR" file.keeper_keypair) _ e
          (missing_of _ _ keypair)
          (λ k given.
            err-cases (required process "RPC_ENDPOINT_URL" file.rpc_endpoint_url) _ e
              (missing_of _ _ url)
              (λ u given.
                err-cases (required process "ANCHOR_CONTRACT_ADDRESS" file.anchor_contract_address)
                  _ e (missing_of _ _ address)
                  (λ a given.
                    validate-IsFaulty file loaded (assemble process file k u a)
                      (assemble-IsChosen process file k u a) e))))
