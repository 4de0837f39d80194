-- ===== src/Anchor/History.antt =====
-- A history of the contract on the sample chain, from its deployment on, for the tests.
use soroban_cron.Common.{false, ◌≡◌, ◌≢◌, refl, some, inl, inr, subst, Bool-cases, arith}
use soroban_cron.Common.Int.{ℤ, pos, ◌+ℤ◌, ◌-ℤ◌, sub_i128, ltb_ℤ}
use soroban_cron.Anchor.Types.{Address}
use soroban_cron.Anchor.Env.{Env}
use soroban_cron.Anchor.Samples.{
  Balances, test_host, deployed, at_ledger, after, move, moved, rich, weekly,
}
use soroban_cron.Anchor.Registry.{register_keeper, is_registered, is_eligible}
use soroban_cron.Anchor.Slashing.{apply_slash, slash_of, secondary_of, slashed}
use soroban_cron.Anchor.Tasks.{provision_task, task_seed}
use soroban_cron.Anchor.Execution.{
  execute_drip_split, execute_designated, execute_in_grace, execute_post_grace,
  execute_distribution, pay, credited, advanced,
}
use soroban_cron.Anchor.Execution.Payments.{TokenLaws}
use soroban_cron.Anchor.Contract.{initialize}
use soroban_cron.Anchor.System.Funding.{Transfers, Supplied}
use soroban_cron.Anchor.System.{Reach, here, next, elsewhere, initialises, registers, provisions}

-- Unfolded by the tests that evaluate whole calls.
unfoldable pub runs : Unit {0}
unfolding initialize register_keeper provision_task execute_drip_split execute_designated
    execute_in_grace execute_post_grace apply_slash slash_of secondary_of slashed is_registered
    execute_distribution pay credited advanced ◌+ℤ◌ ◌-ℤ◌ sub_i128 task_seed is_eligible
runs = tt

-- From the deployment to the task's first window: configured, two keepers, one task.
abbrev pub configured : Env Balances
configured = after (initialize 7 8 (pos 10_000_000) deployed)

abbrev pub one_keeper : Env Balances
one_keeper = after (register_keeper 10 rich configured)

abbrev pub two_keepers : Env Balances
two_keepers = after (register_keeper 11 rich one_keeper)

abbrev pub provisioned : Env Balances
provisioned = after (provision_task test_host 20 100 (pos 5_000_000) 10 two_keepers)

abbrev pub in_window : Env Balances
in_window = at_ledger 1100 provisioned

abbrev pub executed : Env Balances
executed = after (execute_drip_split test_host 1000 10 in_window)

pub two_keepers-Reach : Reach test_host deployed two_keepers
unfolding runs
two_keepers-Reach =
    next
      (next (next here (initialises 7 8 (pos 10_000_000) tt (omega arith) refl))
        (registers 10 rich tt (omega arith) refl))
      (registers 11 rich tt (omega arith) refl)

pub in_window-Reach : Reach test_host deployed in_window
unfolding runs
in_window-Reach =
    next (next two_keepers-Reach (provisions 20 100 (pos 5_000_000) 10 1000 (omega arith) refl))
      (elsewhere refl (omega arith))

pub later-Reach : Reach test_host two_keepers in_window
unfolding runs
later-Reach =
    next (next here (provisions 20 100 (pos 5_000_000) 10 1000 (omega arith) refl))
      (elsewhere refl (omega arith))

move-balances :
    (from to : Address) (amount : ℤ) (w w' : Balances)
    → from ≢ to
    → move from to amount w ≡ some w'
    → (w' from ≡ w from -ℤ amount) × (w' to ≡ w to +ℤ amount)
move-balances from to amount w w' other e = elim (Bool-cases (ltb_ℤ (w from) amount)) [
  | inl short ↦ ground arith
  | inr covered ↦
      let same : moved from to amount w ≡ w' = ground arith in
      subst (λ (v : Balances). (v from ≡ w from -ℤ amount) × (v to ≡ w to +ℤ amount)) same
        (ground arith)
]

pub test_host-TokenLaws : TokenLaws test_host
test_host-TokenLaws = record {
  debits = λ token from to amount w w' other e. (move-balances from to amount w w' other e).0;
  credits = λ token from to amount w w' other e. (move-balances from to amount w w' other e).1;
}

-- The grace period of the first window, at its 25th ledger.
abbrev pub in_grace : Env Balances
in_grace = at_ledger 1125 in_window

pub in_grace-Reach : Reach test_host deployed in_grace
in_grace-Reach = next in_window-Reach (elsewhere refl (omega arith))

test_host-Transfers : (called : Balances) → Transfers test_host 8 1 11 (pos 5_000_000) called
test_host-Transfers called amount w reached positive covered =
    let enough : ltb_ℤ (w 1) amount ≡ false = ground arith in (moved 1 11 amount w, rw enough refl)

pub in_grace-Supplied : Supplied test_host in_grace weekly 8 11 in_grace.world
unfolding runs
in_grace-Supplied = record {
  native = refl;
  other = omega arith;
  invoked = refl;
  transfers = test_host-Transfers in_grace.world;
  funds = omega arith;
}
