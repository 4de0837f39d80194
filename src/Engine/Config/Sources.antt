-- ===== src/Engine/Config/Sources.antt =====
-- Where the values of a configuration come from.
use Prim.Native.String.{String}
use mathlib.Core.Option.{get_or}
use soroban_cron.Common.{ℕ, ◌≡◌, refl, arith, sym, Option, none, some}
use soroban_cron.Engine.Config.{
  EngineConfig, FileConfig, Process, or_else, and_then, config_path, assemble,
}

-- A number is that of the variable, if it is set and parses, else that of the file, else the
-- default.
pub data Chosen (variable file : Option ℕ) (default value : ℕ) : Type 0 where
  by_variable : variable ≡ some value → Chosen variable file default value
  by_file : variable ≡ none → file ≡ some value → Chosen variable file default value
  by_default : variable ≡ none → file ≡ none → value ≡ default → Chosen variable file default value

get_or-Chosen :
    (variable file : Option ℕ) (default : ℕ)
    → Chosen variable file default (get_or (or_else variable file) default)
get_or-Chosen (some n) file default = by_variable refl
get_or-Chosen none (some n) default = by_file refl refl
get_or-Chosen none none default = by_default refl refl refl

Chosen-get_or :
    {variable file : Option ℕ} {default value : ℕ}
    → Chosen variable file default value
    → get_or (or_else variable file) default ≡ value
Chosen-get_or (by_variable e) = rw e refl
Chosen-get_or (by_file e f) = rw (e, f) refl
Chosen-get_or (by_default e f d) = rw (e, f) (sym d)

module _ (process : Process) where
  abbrev parsed : (String → Option ℕ) → (env_key : String) → Option ℕ
  parsed parse env_key = and_then (process.var env_key) parse

  pub record IsChosen (file : FileConfig) (c : EngineConfig) : Type 0 where
    pub poll_interval :
        Chosen
          (parsed process.parse_u64 "POLL_INTERVAL_SECS")
          file.poll_interval_secs
          2
          c.poll_interval
    pub task_query_timeout :
        Chosen
          (parsed process.parse_u64 "TASK_QUERY_TIMEOUT_SECS")
          file.task_query_timeout_secs
          10
          c.task_query_timeout
    pub confirmation_timeout :
        Chosen
          (parsed process.parse_u64 "CONFIRMATION_TIMEOUT_SECS")
          file.confirmation_timeout_secs
          60
          c.confirmation_timeout
    pub retry_backoff_initial :
        Chosen
          (parsed process.parse_u64 "RETRY_BACKOFF_INITIAL_SECS")
          file.retry_backoff_initial_secs
          1
          c.retry_backoff_initial
    pub retry_backoff_max :
        Chosen
          (parsed process.parse_u64 "RETRY_BACKOFF_MAX_SECS")
          file.retry_backoff_max_secs
          60
          c.retry_backoff_max
    pub max_retries :
        Chosen (parsed process.parse_u32 "MAX_RETRIES") file.max_retries 5 c.max_retries
    pub health_port :
        Chosen (parsed process.parse_u16 "HEALTH_PORT") file.health_port 8080 c.health_port
    pub path : c.config_file_path ≡ config_path process

  pub assemble-IsChosen :
      (file : FileConfig) (keypair url address : String)
      → IsChosen file (assemble process file keypair url address)
  unfolding assemble
  assemble-IsChosen file keypair url address = record {
    poll_interval = get_or-Chosen _ file.poll_interval_secs 2;
    task_query_timeout = get_or-Chosen _ file.task_query_timeout_secs 10;
    confirmation_timeout = get_or-Chosen _ file.confirmation_timeout_secs 60;
    retry_backoff_initial = get_or-Chosen _ file.retry_backoff_initial_secs 1;
    retry_backoff_max = get_or-Chosen _ file.retry_backoff_max_secs 60;
    max_retries = get_or-Chosen _ file.max_retries 5;
    health_port = get_or-Chosen _ file.health_port 8080;
    path = refl;
  }

  pub IsChosen-assemble :
      (file : FileConfig) (c : EngineConfig)
      → IsChosen file c
      → assemble process file c.keeper_keypair c.rpc_endpoint_url c.anchor_contract_address ≡ c
  unfolding assemble
  IsChosen-assemble file c chosen = ground (
    arith,
    Chosen-get_or chosen.poll_interval,
    Chosen-get_or chosen.task_query_timeout,
    Chosen-get_or chosen.confirmation_timeout,
    Chosen-get_or chosen.retry_backoff_initial,
    Chosen-get_or chosen.retry_backoff_max,
    Chosen-get_or chosen.max_retries,
    Chosen-get_or chosen.health_port,
    chosen.path,
  )
