-- ===== src/Engine/UnitTests/Config.antt =====
-- the-engine/src/config.rs: the tests. The environment is the list of the variables that are set.
use Prim.Native.String.{String, find, len}
use text.Mathlib.Text.{◌==◌ as ◌=~◌}
use soroban_cron.Common.{
  ℕ, ◌&&◌, Bool, true, false, ◌≡◌, refl, Option, none, some, List, [], ◌∷◌, ◌++◌, ◌==◌, ltb,
  if◌then◌else◌,
}
use soroban_cron.Engine.Errors.{Result}
use soroban_cron.Engine.Errors.Display.{to_string}
use soroban_cron.Engine.Config.{
  EngineConfig, Process, no_file, from_env, default_poll_interval_secs, default_max_retries,
  default_health_port,
}

abbrev Variables : Type 0
Variables = List (String × String)

abbrev looked_up : Variables → String → Option String
looked_up [] key = none
looked_up ((name, value) ∷ vars) key =
    let rest = looked_up vars key in if name =~ key then some value else rest

-- The numbers that the tests write.
abbrev numeral : String → Option ℕ
numeral text =
    if text =~ "6"
    then some 6
    else if text =~ "11"
    then some 11
    else if text =~ "9090"
    then some 9090
    else none

-- A process without a configuration file.
abbrev with_vars : Variables → Process
with_vars vars = record {
  var = looked_up vars;
  default_exists = false;
  read_to_string = λ path. Result.err "";
  parse_toml = λ text. Result.ok no_file;
  parse_u64 = numeral;
  parse_u32 = numeral;
  parse_u16 = numeral;
  is_blank = λ text. text =~ "";
  display = λ n. "";
}

abbrev set_required : Variables
set_required =
    ("KEEPER_KEYPAIR", "SCZANGBA4XLMSEGEBHR5QKOH6X6EN73OOXNL7WI736DKCKDKB2XCJXE")
    ∷ ("RPC_ENDPOINT_URL", "https://soroban-testnet.stellar.org")
    ∷ ("ANCHOR_CONTRACT_ADDRESS", "CAAAAAAAAAAAAAAAAAAAAAAAAAAAAAAAAAAAAAAAAAAAAAAAAAAABSC4")
    ∷ []

-- `from_env()` fails, with a text that has the part in it.
abbrev fails_with : Variables → (part : String) → Bool
fails_with vars part = elim (from_env (with_vars vars)) [
  | Result.ok c ↦ false
  | Result.err e ↦ let text = to_string (λ n. "") e in ltb (find text part) (len text)
]

abbrev expected : (EngineConfig → Bool) → Variables → Bool
expected test vars = elim (from_env (with_vars vars)) [
  | Result.ok c ↦ test c
  | Result.err e ↦ false
]

unfoldable missing_keeper_keypair_returns_error : Bool
missing_keeper_keypair_returns_error =
    fails_with
      (("RPC_ENDPOINT_URL", "https://example.com") ∷ ("ANCHOR_CONTRACT_ADDRESS", "CAAAA") ∷ [])
      "KEEPER_KEYPAIR"

missing_keeper_keypair_returns_error_passes : missing_keeper_keypair_returns_error ≡ true
unfolding missing_keeper_keypair_returns_error from_env to_string
missing_keeper_keypair_returns_error_passes = refl

unfoldable missing_rpc_url_returns_error : Bool
missing_rpc_url_returns_error =
    fails_with
      (("KEEPER_KEYPAIR", "SCZANGBA4XLMSEGEBHR5QKOH6X6EN73OOXNL7WI736DKCKDKB2XCJXE")
        ∷ ("ANCHOR_CONTRACT_ADDRESS", "CAAAA")
        ∷ [])
      "RPC_ENDPOINT_URL"

missing_rpc_url_returns_error_passes : missing_rpc_url_returns_error ≡ true
unfolding missing_rpc_url_returns_error from_env to_string
missing_rpc_url_returns_error_passes = refl

unfoldable missing_anchor_address_returns_error : Bool
missing_anchor_address_returns_error =
    fails_with
      (("KEEPER_KEYPAIR", "SCZANGBA4XLMSEGEBHR5QKOH6X6EN73OOXNL7WI736DKCKDKB2XCJXE")
        ∷ ("RPC_ENDPOINT_URL", "https://example.com")
        ∷ [])
      "ANCHOR_CONTRACT_ADDRESS"

missing_anchor_address_returns_error_passes : missing_anchor_address_returns_error ≡ true
unfolding missing_anchor_address_returns_error from_env to_string
missing_anchor_address_returns_error_passes = refl

unfoldable poll_interval_out_of_range_returns_error : Bool
poll_interval_out_of_range_returns_error =
    fails_with (set_required ++ ("POLL_INTERVAL_SECS", "6") ∷ []) "POLL_INTERVAL_SECS"

poll_interval_out_of_range_returns_error_passes : poll_interval_out_of_range_returns_error ≡ true
unfolding poll_interval_out_of_range_returns_error from_env to_string
poll_interval_out_of_range_returns_error_passes = refl

unfoldable task_query_timeout_over_limit_returns_error : Bool
task_query_timeout_over_limit_returns_error =
    fails_with (set_required ++ ("TASK_QUERY_TIMEOUT_SECS", "11") ∷ []) "TASK_QUERY_TIMEOUT_SECS"

task_query_timeout_over_limit_returns_error_passes :
    task_query_timeout_over_limit_returns_error ≡ true
unfolding task_query_timeout_over_limit_returns_error from_env to_string
task_query_timeout_over_limit_returns_error_passes = refl

unfoldable defaults_are_applied_when_optional_vars_absent : Bool
defaults_are_applied_when_optional_vars_absent =
    expected
      (λ (cfg : EngineConfig).
        (cfg.poll_interval == default_poll_interval_secs)
        && (cfg.health_port == default_health_port)
        && (cfg.max_retries == default_max_retries))
      set_required

defaults_are_applied_when_optional_vars_absent_passes :
    defaults_are_applied_when_optional_vars_absent ≡ true
unfolding defaults_are_applied_when_optional_vars_absent from_env to_string
defaults_are_applied_when_optional_vars_absent_passes = refl

unfoldable env_var_overrides_default : Bool
env_var_overrides_default =
    expected (λ (cfg : EngineConfig). cfg.health_port == 9090)
      (set_required ++ ("HEALTH_PORT", "9090") ∷ [])

env_var_overrides_default_passes : env_var_overrides_default ≡ true
unfolding env_var_overrides_default from_env to_string
env_var_overrides_default_passes = refl
