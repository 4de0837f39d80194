-- ===== src/Engine/Config/Bounds.antt =====
-- What the daemon may rely on in a configuration that was accepted.
use Prim.Native.String.{String}
use soroban_cron.Common.{◌≤◌, ◌≡◌, ◌↔◌, ap, ◌∙◌, subst, Option, some, false, arith}
use soroban_cron.Engine.Errors.{Result, ok-cases}
use soroban_cron.Engine.Config.Sources.{IsChosen, assemble-IsChosen, IsChosen-assemble}
use soroban_cron.Engine.Config.{
  EngineConfig, FileConfig, Process, or_else, config_path, load_file, required, assemble, validate,
  from_env,
}

-- Every wait is within its limits, in seconds.
pub record IsPunctual (c : EngineConfig) : Type 0 where
  pub polls_often : (1 ≤ c.poll_interval) × (c.poll_interval ≤ 5)
  pub query_limit : c.task_query_timeout ≤ 10
  pub confirmation_limit : c.confirmation_timeout ≤ 60
  pub backoff_range :
      (1 ≤ c.retry_backoff_initial)
      × (c.retry_backoff_initial ≤ c.retry_backoff_max)
      × (c.retry_backoff_max ≤ 60)

-- The texts are those of the variables, where set, and else of the file, and none is blank; each
-- number is that of its variable, of the file, or the default, and within its limits.
pub record IsValid (process : Process) (c : EngineConfig) : Type 0 where
  pub file : FileConfig
  pub loaded : load_file process (config_path process) ≡ Result.ok file
  pub keypair_from :
      or_else (process.var "KEEPER_KEYPAIR") file.keeper_keypair ≡ some c.keeper_keypair
  pub url_from :
      or_else (process.var "RPC_ENDPOINT_URL") file.rpc_endpoint_url ≡ some c.rpc_endpoint_url
  pub address_from :
      or_else (process.var "ANCHOR_CONTRACT_ADDRESS") file.anchor_contract_address
      ≡ some c.anchor_contract_address
  pub chosen : IsChosen process file c
  pub keypair_given : process.is_blank c.keeper_keypair ≡ false
  pub url_given : process.is_blank c.rpc_endpoint_url ≡ false
  pub address_given : process.is_blank c.anchor_contract_address ≡ false
  pub punctual : IsPunctual c

module _ (process : Process) where
  required-filled :
      (key : String) (file_val : Option String) (value : String)
      → required process key file_val ≡ Result.ok value
      → (or_else (process.var key) file_val ≡ some value) × (process.is_blank value ≡ false)
  unfolding required
  required-filled key file_val value e = (ground arith, ground arith)

  validate-IsPunctual :
      (c d : EngineConfig) → validate process c ≡ Result.ok d → (c ≡ d) × IsPunctual c
  unfolding validate
  validate-IsPunctual c d e = (
    ground arith,
    record {
      polls_often = ground arith;
      query_limit = ground arith;
      confirmation_limit = ground arith;
      backoff_range = ground arith;
    },
  )

  -- An accepted configuration has the three required texts, none of them blank, and its waits lie
  -- within their limits; the initial backoff is no longer than the maximum. Each text is that of its
  -- variable, where set, and else of the file; each number that of its variable, where set to one,
  -- else of the file, else the default.
  pub from_env-IsValid : (c : EngineConfig) → from_env process ≡ Result.ok c → IsValid process c
  unfolding from_env
  from_env-IsValid c = ok-cases (load_file process (config_path process)) _ c (λ file loaded.
      ok-cases (required process "KEEPER_KEYPAIR" file.keeper_keypair) _ c (λ keypair e1.
        ok-cases (required process "RPC_ENDPOINT_URL" file.rpc_endpoint_url) _ c (λ url e2.
          ok-cases (required process "ANCHOR_CONTRACT_ADDRESS" file.anchor_contract_address) _ c
            (λ address e3 accepted.
              let (same, times) =
                validate-IsPunctual (assemble process file keypair url address) c accepted in
              subst (IsValid process) same (record {
                file = file;
                loaded = loaded;
                keypair_from = (required-filled _ _ keypair e1).0;
                url_from = (required-filled _ _ url e2).0;
                address_from = (required-filled _ _ address e3).0;
                chosen = assemble-IsChosen process file keypair url address;
                keypair_given = (required-filled _ _ keypair e1).1;
                url_given = (required-filled _ _ url e2).1;
                address_given = (required-filled _ _ address e3).1;
                punctual = times;
              })))))

  required-given :
      (key : String) (file_val : Option String) (value : String)
      → or_else (process.var key) file_val ≡ some value
      → process.is_blank value ≡ false
      → required process key file_val ≡ Result.ok value
  unfolding required
  required-given key file_val value given filled = ground arith

  IsPunctual-validate : (c : EngineConfig) → IsPunctual c → validate process c ≡ Result.ok c
  unfolding validate
  IsPunctual-validate c p =
      let (often, soon) = p.polls_often in
      let (one, ordered, sixty) = p.backoff_range in
      ground (arith, p.query_limit, p.confirmation_limit)

  -- Every configuration that is valid for the environment and the file is accepted, as it is.
  pub IsValid-from_env : (c : EngineConfig) → IsValid process c → from_env process ≡ Result.ok c
  unfolding from_env
  IsValid-from_env c v =
      let k = required-given _ _ _ v.keypair_from v.keypair_given in
      let u = required-given _ _ _ v.url_from v.url_given in
      let a = required-given _ _ _ v.address_from v.address_given in
      let same = IsChosen-assemble process v.file c v.chosen in
      rw (v.loaded, k, u, a) (ap (validate process) same ∙ IsPunctual-validate c v.punctual)

  -- A configuration is accepted exactly when it is valid for the environment and the file: each text
  -- is that of its variable, where set, and else of the file, and is not blank; each number is that
  -- of its variable, where that is set and parses, else of the file, else the default, and its waits
  -- lie within their limits, with the initial backoff no longer than the maximum. The two
  -- timeouts have no lower limit, and the port may be 0.
  pub from_env_accepts : (c : EngineConfig) → (from_env process ≡ Result.ok c) ↔ IsValid process c
  from_env_accepts c = (from_env-IsValid c, IsValid-from_env c)
