-- ===== src/Engine/UnitTests/Errors.antt =====
-- the-engine/src/errors.rs: the tests.
use Prim.Native.String.{String, find, len}
use soroban_cron.Common.{ℕ, Bool, true, not, ◌||◌, ◌≡◌, refl, ltb}
use soroban_cron.Engine.Errors.{
  IoErrorKind, TransientError, NonTransientError, EngineError, is_transient,
}
use soroban_cron.Engine.Errors.Display.{transient_text, to_string}

-- `{:?}` of a `Duration` of whole seconds, as far as the tests need it.
abbrev five_seconds : ℕ → String
five_seconds elapsed = "5s"

abbrev includes : String → String → Bool
includes text part = ltb (find text part) (len text)

unfoldable transient_variants_are_classified_correctly : Bool
transient_variants_are_classified_correctly =
    is_transient (EngineError.transient TransientError.rpc_timeout)

transient_variants_are_classified_correctly_passes :
    transient_variants_are_classified_correctly ≡ true
unfolding transient_variants_are_classified_correctly is_transient
transient_variants_are_classified_correctly_passes = refl

unfoldable non_transient_variants_are_classified_correctly : Bool
non_transient_variants_are_classified_correctly =
    not (is_transient (EngineError.non_transient (NonTransientError.contract_rejection "bad call")))

non_transient_variants_are_classified_correctly_passes :
    non_transient_variants_are_classified_correctly ≡ true
unfolding non_transient_variants_are_classified_correctly is_transient
non_transient_variants_are_classified_correctly_passes = refl

unfoldable error_display_transient : Bool
error_display_transient =
    includes (to_string five_seconds (EngineError.transient TransientError.connection_reset))
      "transient"

error_display_transient_passes : error_display_transient ≡ true
unfolding error_display_transient to_string
error_display_transient_passes = refl

unfoldable error_display_non_transient : Bool
error_display_non_transient =
    includes
      (to_string five_seconds (
        EngineError.non_transient
          (NonTransientError.config_invalid "poll_interval" "out of range")))
      "non-transient"

error_display_non_transient_passes : error_display_non_transient ≡ true
unfolding error_display_non_transient to_string
error_display_non_transient_passes = refl

unfoldable connection_timeout_carries_duration : Bool
connection_timeout_carries_duration =
    let msg = transient_text five_seconds (TransientError.connection_timeout 5) in
    includes msg "5s" || includes msg "timeout"

connection_timeout_carries_duration_passes : connection_timeout_carries_duration ≡ true
unfolding connection_timeout_carries_duration transient_text
connection_timeout_carries_duration_passes = refl

unfoldable io_error_wraps_correctly : Bool
io_error_wraps_correctly =
    is_transient (EngineError.transient (TransientError.io IoErrorKind.other "pipe"))

io_error_wraps_correctly_passes : io_error_wraps_correctly ≡ true
unfolding io_error_wraps_correctly is_transient
io_error_wraps_correctly_passes = refl
