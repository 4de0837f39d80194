-- ===== src/Engine/Config.antt =====
-- the-engine/src/config.rs: the configuration from the environment and an optional file. The
-- process environment, the file system and the parsers are parameters.
pub mod Sources
pub mod Faults
pub mod Bounds
use Prim.Native.String.{String, ◌++◌ as ◌&◌}
use mathlib.Core.Option.{get_or}
use soroban_cron.Common.{
  ℕ, Bool, true, false, ◌||◌, not, ◌&&◌, Option, none, some, ltb, leb, if◌then◌else◌,
}
use soroban_cron.Engine.Errors.{NonTransientError, EngineError, Result, ◌>>=◌, map_err}

-- The defaults.
abbrev pub default_poll_interval_secs : ℕ
default_poll_interval_secs = 2

abbrev pub default_task_query_timeout_secs : ℕ
default_task_query_timeout_secs = 10

abbrev pub default_confirmation_timeout_secs : ℕ
default_confirmation_timeout_secs = 60

abbrev pub default_retry_backoff_initial_secs : ℕ
default_retry_backoff_initial_secs = 1

abbrev pub default_retry_backoff_max_secs : ℕ
default_retry_backoff_max_secs = 60

abbrev pub default_max_retries : ℕ
default_max_retries = 5

abbrev pub default_health_port : ℕ
default_health_port = 8080

pub record EngineConfig : Type 0 where
  pub keeper_keypair : String
  pub rpc_endpoint_url : String
  pub anchor_contract_address : String
  -- In seconds, as the four after it.
  pub poll_interval : ℕ
  pub task_query_timeout : ℕ
  pub confirmation_timeout : ℕ
  pub retry_backoff_initial : ℕ
  pub retry_backoff_max : ℕ
  pub max_retries : ℕ
  pub health_port : ℕ
  pub config_file_path : Option String

pub record FileConfig : Type 0 where
  pub keeper_keypair : Option String
  pub rpc_endpoint_url : Option String
  pub anchor_contract_address : Option String
  pub poll_interval_secs : Option ℕ
  pub task_query_timeout_secs : Option ℕ
  pub confirmation_timeout_secs : Option ℕ
  pub retry_backoff_initial_secs : Option ℕ
  pub retry_backoff_max_secs : Option ℕ
  pub max_retries : Option ℕ
  pub health_port : Option ℕ

-- `FileConfig::default()`
abbrev pub no_file : FileConfig
no_file = record {
  keeper_keypair = none;
  rpc_endpoint_url = none;
  anchor_contract_address = none;
  poll_interval_secs = none;
  task_query_timeout_secs = none;
  confirmation_timeout_secs = none;
  retry_backoff_initial_secs = none;
  retry_backoff_max_secs = none;
  max_retries = none;
  health_port = none;
}

pub record Process : Type 0 where
  -- `std::env::var(key).ok()`
  pub var : String → Option String
  -- Does `engine.toml` exist in the working directory?
  pub default_exists : Bool
  pub read_to_string : String → Result String String
  -- `toml::from_str`
  pub parse_toml : String → Result FileConfig String
  pub parse_u64 : String → Option ℕ
  pub parse_u32 : String → Option ℕ
  pub parse_u16 : String → Option ℕ
  -- `s.trim().is_empty()`
  pub is_blank : String → Bool
  -- `{}` of a number
  pub display : ℕ → String

abbrev pub or_else : {A : Type 0} → Option A → Option A → Option A
or_else none b = b
or_else (some a) b = some a

abbrev pub and_then : {A B : Type 0} → Option A → (A → Option B) → Option B
and_then none f = none
and_then (some a) f = f a

abbrev pub invalid : {A : Type 0} → (field reason : String) → Result A EngineError
invalid field reason =
    Result.err (EngineError.non_transient (NonTransientError.config_invalid field reason))

-- `if test { return Err(…) }`
abbrev pub reject_if : Bool → (field reason : String) → Result (Unit {0}) EngineError
reject_if true field reason = invalid field reason
reject_if false field reason = Result.ok tt

module _ (process : Process) where
  unfoldable pub config_path : Option String
  config_path =
      or_else (process.var "CONFIG_FILE")
        (if process.default_exists then some "engine.toml" else none)

  unfoldable pub load_file : Option String → Result FileConfig EngineError
  load_file none = Result.ok no_file
  load_file (some path) = elim (process.read_to_string path) [
    | Result.err e ↦ invalid "config_file" e
    | Result.ok raw ↦ elim (process.parse_toml raw) [
      | Result.err e ↦ invalid "config_file" e
      | Result.ok file ↦ Result.ok file
    ]
  ]

  -- An environment variable that does not parse is passed over.
  unfoldable pub resolve_number :
      (parse : String → Option ℕ) (env_key : String) → Option ℕ → (default : ℕ) → ℕ
  resolve_number parse env_key file_val default =
      get_or (or_else (and_then (process.var env_key) parse) file_val) default

  -- A required text, which must not be blank.
  unfoldable pub required : (env_key : String) → Option String → Result String EngineError
  required env_key file_val = elim (or_else (process.var env_key) file_val) [
    | none ↦ invalid env_key "required env var is missing or empty"
    | some value ↦
        if process.is_blank value
        then invalid env_key "value must not be empty"
        else Result.ok value
  ]

  unfoldable pub validate : EngineConfig → Result EngineConfig EngineError
  validate c = do
    _ ←
        reject_if (not (leb 1 c.poll_interval && leb c.poll_interval 5)) "POLL_INTERVAL_SECS"
          ("must be between 1 and 5 inclusive, got " & process.display c.poll_interval)
    _ ←
        reject_if (ltb 10 c.task_query_timeout) "TASK_QUERY_TIMEOUT_SECS"
          ("must be ≤ 10 seconds, got " & process.display c.task_query_timeout)
    _ ←
        reject_if (ltb 60 c.confirmation_timeout) "CONFIRMATION_TIMEOUT_SECS"
          ("must be ≤ 60 seconds, got " & process.display c.confirmation_timeout)
    _ ← reject_if (ltb c.retry_backoff_initial 1) "RETRY_BACKOFF_INITIAL_SECS" "must be ≥ 1 second"
    _ ←
        reject_if (ltb 60 c.retry_backoff_max) "RETRY_BACKOFF_MAX_SECS"
          ("must be ≤ 60 seconds, got " & process.display c.retry_backoff_max)
    _ ←
        reject_if (ltb c.retry_backoff_max c.retry_backoff_initial) "RETRY_BACKOFF_MAX_SECS"
          ("must be ≥ RETRY_BACKOFF_INITIAL_SECS (" & process.display c.retry_backoff_initial & ")")
    Result.ok c

  -- The other fields, with their defaults.
  unfoldable pub assemble : FileConfig → (keypair url address : String) → EngineConfig
  unfolding config_path resolve_number
  assemble file keypair url address = record {
    keeper_keypair = keypair;
    rpc_endpoint_url = url;
    anchor_contract_address = address;
    poll_interval =
        resolve_number process.parse_u64 "POLL_INTERVAL_SECS" file.poll_interval_secs
          default_poll_interval_secs;
    task_query_timeout =
        resolve_number process.parse_u64 "TASK_QUERY_TIMEOUT_SECS" file.task_query_timeout_secs
          default_task_query_timeout_secs;
    confirmation_timeout =
        resolve_number process.parse_u64 "CONFIRMATION_TIMEOUT_SECS" file.confirmation_timeout_secs
          default_confirmation_timeout_secs;
    retry_backoff_initial =
        resolve_number process.parse_u64 "RETRY_BACKOFF_INITIAL_SECS"
          file.retry_backoff_initial_secs default_retry_backoff_initial_secs;
    retry_backoff_max =
        resolve_number process.parse_u64 "RETRY_BACKOFF_MAX_SECS" file.retry_backoff_max_secs
          default_retry_backoff_max_secs;
    max_retries =
        resolve_number process.parse_u32 "MAX_RETRIES" file.max_retries default_max_retries;
    health_port =
        resolve_number process.parse_u16 "HEALTH_PORT" file.health_port default_health_port;
    config_file_path = config_path;
  }

  unfoldable pub from_env : Result EngineConfig EngineError
  unfolding config_path load_file assemble required validate
  from_env = do
    file ← load_file config_path
    keypair ← required "KEEPER_KEYPAIR" file.keeper_keypair
    url ← required "RPC_ENDPOINT_URL" file.rpc_endpoint_url
    address ← required "ANCHOR_CONTRACT_ADDRESS" file.anchor_contract_address
    validate (assemble file keypair url address)
