-- ===== src/Anchor/Samples.antt =====
-- A small chain for the tests: one token, whose balances are the rest of the chain, a hash that
-- spells its input as a number, and drip lists that all accept the call except number 13.
use soroban_cron.Common.{
  ℕ, ◌+◌, ◌*◌, ◌≡◌, refl, arith, length, true, false, Option, none, some, List, [], ◌∷◌, update,
  ◌==◌, if◌then◌else◌,
}
use soroban_cron.Common.Int.{ℤ, pos, ltb_ℤ, ◌+ℤ◌, ◌-ℤ◌}
use soroban_cron.Anchor.Types.{Address, TaskId, Keeper, ExecutionTask}
use soroban_cron.Anchor.Host.{Host}
use soroban_cron.Anchor.Env.{Env, Storage, Exec, ok, err, trap}
use mathlib.Core.Path.{ap₂}
use soroban_cron.Anchor.System.{empty_storage}
use soroban_cron.Anchor.System.Identifiers.{IsCollisionFree, AreBytes}

abbrev pub Balances : Type 0
Balances = Address → ℤ

abbrev pub spell : ℕ → List ℕ → TaskId
spell acc [] = acc
spell acc (b ∷ bs) = spell (acc * 256 + b) bs

abbrev pub moved : Address → Address → ℤ → Balances → Balances
moved from to amount w a =
    if a == to then w a +ℤ amount else if a == from then w a -ℤ amount else w a

abbrev pub move : Address → Address → ℤ → Balances → Option Balances
move from to amount w = if ltb_ℤ (w from) amount then none else some (moved from to amount w)

abbrev pub test_host : Host Balances
test_host = record {
  balance = λ token owner w. w owner;
  transfer = λ token from to amount w. move from to amount w;
  invoke_contract = λ contract function w. if contract == 13 then none else some w;
  sha256 = spell 0;
}

abbrev pub anchor : Address
anchor = 1

-- Just deployed, with 500 000 000 stroops on the contract's account, at ledger 1000.
abbrev pub deployed : Env Balances
deployed = record {
  storage = empty_storage;
  ledger_sequence = 1000;
  current_contract_address = anchor;
  authorized = λ a. true;
  events = [];
  world = λ a. if a == anchor then pos 500_000_000 else pos 0;
}

abbrev pub at_ledger : ℕ → Env Balances → Env Balances
at_ledger l env = record env { ledger_sequence = l }

-- The environment after a call that returned a value.
abbrev pub after : {A : Type 0} → Exec Balances A → Env Balances
after (ok a env) = env
after (err e env) = deployed
after trap = deployed

abbrev pub rich : ℤ
rich = pos 100_000_000

abbrev pub keeper_at : Address → ℤ → Keeper
keeper_at a stake = record {
  address = a;
  stake_amount = stake;
  last_execution_ledger = 0;
  total_executions = 0;
  ineligible = false;
}

-- Task 1000 runs every 100 ledgers, next at 1100, for drip list 20 and by keeper 10.
abbrev pub weekly : ExecutionTask
weekly = record {
  task_id = 1000;
  target_drip_list = 20;
  execution_interval_ledgers = 100;
  next_allowed_execution = 1100;
  micro_reward_per_run = pos 5_000_000;
  designated_keeper = 10;
}

-- Keepers 10 and 11, and the task.
abbrev pub busy_storage : Storage
busy_storage = record {
  keeper = update 11 (some (keeper_at 11 rich)) (update 10 (some (keeper_at 10 rich)) (λ a. none));
  task = update 1000 (some weekly) (λ i. none);
  task_counter = some 1;
  admin = some 7;
  min_keeper_stake = some (pos 10_000_000);
  treasury_balance = none;
  native_token = some 8;
}

abbrev pub busy_at : ℕ → Env Balances
busy_at l = record deployed { storage = busy_storage; ledger_sequence = l }

-- The sample hash keeps lists of bytes of one length apart.
spell-inj :
    (xs ys : List ℕ) (a b : ℕ)
    → length xs ≡ length ys
    → AreBytes xs
    → AreBytes ys
    → spell a xs ≡ spell b ys
    → (a ≡ b) × (xs ≡ ys)
spell-inj [] [] a b l p q e = (e, refl)
spell-inj [] (y ∷ ys) a b l p q e = absurd (omega arith)
spell-inj (x ∷ xs) [] a b l p q e = absurd (omega arith)
spell-inj (x ∷ xs) (y ∷ ys) a b l p q e =
    let (heads, tails) = spell-inj xs ys (a * 256 + x) (b * 256 + y) (omega arith) p.1 q.1 e in
    let same : x ≡ y = omega arith in (omega arith, ap₂ ◌∷◌ same tails)

pub test_hash-IsCollisionFree : IsCollisionFree (spell 0)
test_hash-IsCollisionFree xs ys p q e = (spell-inj xs ys 0 0 (omega arith) p.1 q.1 e).1
