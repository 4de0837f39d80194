-- ===== src/Engine/Errors/Display.antt =====
-- the-engine/src/errors.rs: the texts of the errors, as their `#[error(…)]` attributes give them.
use Prim.Native.String.{String, ◌++◌ as ◌&◌}
use soroban_cron.Common.{ℕ}
use soroban_cron.Engine.Errors.{TransientError, NonTransientError, EngineError}

-- `debug` is `{:?}` of a `Duration`. The text of a `std::io::Error` is the one it was made of.
module _ (debug : ℕ → String) where
  unfoldable pub transient_text : TransientError → String
  transient_text (TransientError.io kind text) = "I/O error: " & text
  transient_text (TransientError.connection_timeout elapsed) =
      "connection timeout after " & debug elapsed
  transient_text TransientError.connection_reset = "connection reset by peer"
  transient_text TransientError.rpc_timeout = "RPC response timeout"

  unfoldable pub non_transient_text : NonTransientError → String
  non_transient_text (NonTransientError.contract_rejection reason) =
      "contract rejected execution: " & reason
  non_transient_text (NonTransientError.confirmation_timeout elapsed) =
      "confirmation timeout after " & debug elapsed
  non_transient_text (NonTransientError.keypair_decode text) = "keypair decode error: " & text
  non_transient_text (NonTransientError.config_invalid field reason) =
      "config validation failed: " & field & " — " & reason

  unfoldable pub to_string : EngineError → String
  unfolding transient_text non_transient_text
  to_string (EngineError.transient e) = "transient: " & transient_text e
  to_string (EngineError.non_transient e) = "non-transient: " & non_transient_text e
