-- ===== src/Engine/Main/Startup.antt =====
-- What holds of a daemon that started.
use soroban_cron.Common.{ℕ, ◌≡◌, refl, subst, List, inl, inr, arith}
use soroban_cron.Engine.Errors.{Result, Result-cases}
use soroban_cron.Engine.Config.{EngineConfig, Process, from_env}
use soroban_cron.Engine.Config.Bounds.{IsValid, from_env-IsValid}
use soroban_cron.Engine.Poller.{start}
use soroban_cron.Engine.Discovery.Windows.{IsWired}
use soroban_cron.Engine.Main.{Strkey, Daemon, derive_keypair, build_pipeline, build_daemon, startup}

pub record IsStarted (process : Process) (strkey : Strkey) (d : Daemon) : Type 0 where
  pub config : EngineConfig
  pub valid : IsValid process config
  pub secret : List ℕ
  pub decoded : strkey.from_string config.keeper_keypair ≡ Result.ok secret
  -- The daemon acts for the public key of its secret, and signs with the secret.
  pub identity : d.discovery.keeper_address ≡ strkey.to_string (strkey.verifying_key secret)
  pub same_keeper : d.discovery.pipeline.keeper_address ≡ d.discovery.keeper_address
  pub signs : d.discovery.pipeline.signing_key_bytes ≡ secret
  pub wired : IsWired d.discovery
  pub same_contract :
      d.discovery.pipeline.anchor_contract_address ≡ d.discovery.anchor_contract_address
  pub request_limit : d.rpc.request_timeout ≡ config.task_query_timeout
  pub first_backoff : d.discovery.pipeline.retry_backoff_initial ≡ config.retry_backoff_initial
  pub last_backoff : d.discovery.pipeline.retry_backoff_max ≡ config.retry_backoff_max
  pub poller : d.poller ≡ start config.retry_backoff_initial config.retry_backoff_max

module _ (process : Process) (strkey : Strkey) where
  build_daemon-IsStarted :
      (c : EngineConfig) (secret : List ℕ)
      → IsValid process c
      → strkey.from_string c.keeper_keypair ≡ Result.ok secret
      → IsStarted process strkey
          (build_daemon c (strkey.to_string (strkey.verifying_key secret)) secret)
  unfolding build_daemon build_pipeline
  build_daemon-IsStarted c secret valid decoded = record {
    config = c;
    valid = valid;
    secret = secret;
    decoded = decoded;
    identity = refl;
    same_keeper = refl;
    signs = refl;
    wired = refl;
    same_contract = refl;
    request_limit = refl;
    first_backoff = refl;
    last_backoff = refl;
    poller = refl;
  }

  -- A daemon that starts has a valid configuration and a secret that decodes; it acts for the public
  -- key of that secret and signs with it, and its discovery loop, grace monitor and pipeline act for
  -- the same keeper and the same contract, with the configured backoffs.
  pub startup-IsStarted :
      (d : Daemon) → startup process strkey ≡ Result.ok d → IsStarted process strkey d
  unfolding startup derive_keypair
  startup-IsStarted d e = elim (Result-cases (from_env process)) [
    | inr (f, refused) ↦ ground arith
    | inl (c, accepted) ↦ elim (Result-cases (strkey.from_string c.keeper_keypair)) [
      | inr (f, undecoded) ↦ ground arith
      | inl (secret, decoded) ↦
          let same : build_daemon c (strkey.to_string (strkey.verifying_key secret)) secret ≡ d =
            ground arith in
          subst (IsStarted process strkey) same
            (build_daemon-IsStarted c secret (from_env-IsValid process c accepted) decoded)
    ]
  ]
