-- ===== src/Anchor/Scenarios.antt =====
-- The scenarios of the integration tests (tests/integration/tests), as programs over the contract. A
-- scenario is what its test function does after `setup`; it says whether the assertions hold.
pub mod Provisioning
pub mod Windows
pub mod Slashing
use soroban_cron.Common.{ℕ, Bool, true, false, ◌==◌}
use soroban_cron.Common.Int.{pos}
use soroban_cron.Anchor.Types.{Address, TaskId}
use soroban_cron.Anchor.Errors.{ContractError, discriminant}
use soroban_cron.Anchor.Env.{Contract, Env, ok, err, trap, ◌>>=◌, ◌>>◌}
use soroban_cron.Anchor.Contract.{initialize}
use soroban_cron.Anchor.Samples.{Balances, deployed}

-- The addresses that the sandbox generates.
abbrev pub admin : Address
admin = 7

abbrev pub native_token : Address
native_token = 8

abbrev pub drip_list : Address
drip_list = 20

abbrev pub designated : Address
designated = 10

abbrev pub other : Address
other = 11

-- `Address::generate` once more, for one that is never registered.
abbrev pub stranger : Address
stranger = 12

-- The contract initialised, with 500 000 000 stroops on its account; every authorisation is given.
unfoldable pub setup : Contract Balances (Unit {0})
unfolding initialize
setup = initialize admin native_token (pos 10_000_000)

-- `env.ledger().set_sequence_number(l)`
abbrev pub set_sequence_number : ℕ → Contract Balances (Unit {0})
set_sequence_number l env = ok tt (record env { ledger_sequence = l })

-- `unwrap_err()` of a call; the host drops what a failed call wrote.
abbrev pub unwrap_err : {A : Type 0} → Contract Balances A → Contract Balances ContractError
unwrap_err m env = elim (m env) [ ok a env' ↦ trap | err e env' ↦ ok e env | trap ↦ trap ]

-- The tests look for the error's name or number in its text.
abbrev pub is_number : ContractError → ℕ → Bool
is_number e n = discriminant e == n

-- A scenario in a new sandbox; a call that fails where none should fails the test.
abbrev pub passes : Contract Balances Bool → Bool
passes scenario = elim ((setup >> scenario) deployed) [
  | ok b env ↦ b
  | err e env ↦ false
  | trap ↦ false
]
