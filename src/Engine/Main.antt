-- ===== src/Engine/Main.antt =====
-- the-engine/src/main.rs: from the environment to the daemon's parts. Logging, the spawning of the
-- loops and the shutdown are left out.
pub mod Startup
pub mod Waits
use Prim.Native.String.{String}
use soroban_cron.Common.{ℕ, List, []}
use soroban_cron.Engine.Errors.{Result, ◌>>=◌, map_err}
use soroban_cron.Engine.Config.{EngineConfig, Process, from_env}
use soroban_cron.Engine.Rpc.{RpcClient}
use soroban_cron.Engine.Poller.{LedgerPoller, start}
use soroban_cron.Engine.Pipeline.{Machine, ExecutionPipeline}
use soroban_cron.Engine.Discovery.{TaskDiscovery, GraceMonitor, Discovery}

-- What the code uses of `stellar_strkey` and `ed25519_dalek`.
pub record Strkey : Type 0 where
  -- `PrivateKey::from_string`: the 32 bytes of a secret seed.
  pub from_string : String → Result (List ℕ) String
  -- `SigningKey::from_bytes(key).verifying_key().to_bytes()`
  pub verifying_key : List ℕ → List ℕ
  -- `PublicKey(bytes).to_string()`
  pub to_string : List ℕ → String

-- The parts that are spawned; what they share is in `Machine`, empty at the start.
pub record Daemon : Type 0 where
  pub rpc : RpcClient
  pub poller : LedgerPoller
  -- The poller's pause before each request.
  pub poll_interval : ℕ
  pub discovery : TaskDiscovery
  pub channel_capacity : ℕ
  pub health_port : ℕ

-- The address and the signing key; a secret that does not decode ends the process with code 1.
unfoldable pub derive_keypair : Strkey → String → Result (String × List ℕ) ℕ
derive_keypair strkey secret = do
  private_key ← map_err (λ e. 1) (strkey.from_string secret)
  Result.ok (strkey.to_string (strkey.verifying_key private_key), private_key)

unfoldable pub build_pipeline :
    EngineConfig → (keeper_address : String) → List ℕ → ExecutionPipeline
build_pipeline cfg keeper_address signing_key_bytes = record {
  keeper_address = keeper_address;
  signing_key_bytes = signing_key_bytes;
  anchor_contract_address = cfg.anchor_contract_address;
  confirmation_timeout = cfg.confirmation_timeout;
  retry_backoff_initial = cfg.retry_backoff_initial;
  retry_backoff_max = cfg.retry_backoff_max;
  max_retries = cfg.max_retries;
}

unfoldable pub build_daemon : EngineConfig → (keeper_address : String) → List ℕ → Daemon
unfolding build_pipeline start
build_daemon cfg keeper_address signing_key_bytes =
    let pipeline = build_pipeline cfg keeper_address signing_key_bytes in
    record {
      rpc = record { endpoint = cfg.rpc_endpoint_url; request_timeout = cfg.task_query_timeout };
      poller = start cfg.retry_backoff_initial cfg.retry_backoff_max;
      poll_interval = cfg.poll_interval;
      discovery = record {
        anchor_contract_address = cfg.anchor_contract_address;
        keeper_address = keeper_address;
        pipeline = pipeline;
        grace_monitor = record { keeper_address = keeper_address; pipeline = pipeline };
        task_query_timeout = cfg.task_query_timeout;
      };
      channel_capacity = 64;
      health_port = cfg.health_port;
    }

-- The state that the parts share at the start.
unfoldable pub at_start : {N : Type 0} → N → Discovery N
at_start n = record {
  machine = record { net = n; actions = []; last_confirmed_ts = 0; in_flight = [] };
  task_cache = [];
}

-- `main` up to the spawning; the error is the exit code.
unfoldable pub startup : Process → Strkey → Result Daemon ℕ
unfolding from_env derive_keypair build_daemon
startup process strkey = do
  cfg ← map_err (λ e. 1) (from_env process)
  keys ← derive_keypair strkey cfg.keeper_keypair
  Result.ok (build_daemon cfg keys.0 keys.1)
