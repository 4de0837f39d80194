-- ===== src/Anchor/Env.antt =====
-- What a contract call sees and changes: the ledger entries named by `DataKey`
-- (the-anchor/src/storage_keys.rs), the call's context, the events, and the rest of the chain, which
-- only the host (Anchor/Host.antt) reads. A call returns a value, a `ContractError`, or traps.
use Prim.Native.String.{String}
use soroban_cron.Common.{ℕ, Bool, true, false, Option, none, some, List, [], ◌∷◌, ◌++◌, update}
use soroban_cron.Common.Int.{ℤ}
use soroban_cron.Anchor.Types.{Address, TaskId, Keeper, ExecutionTask}
use soroban_cron.Anchor.Errors.{ContractError}

-- One field for each variant of `DataKey`; `none` is a key without an entry. `keeper`, `task` and
-- `treasury_balance` are in the persistent tier, the others in the instance tier.
pub record Storage : Type 0 where
  pub keeper : Address → Option Keeper
  pub task : TaskId → Option ExecutionTask
  pub task_counter : Option ℕ
  pub admin : Option Address
  pub min_keeper_stake : Option ℤ
  pub treasury_balance : Option ℤ
  pub native_token : Option Address

-- A value in an event's data.
pub data Val : Type 0 where
  address : Address → Val
  task_id : TaskId → Val
  amount : ℤ → Val
  u32 : ℕ → Val

pub record Event : Type 0 where
  pub topic : String
  pub values : List Val

-- `W` is the rest of the chain: token balances and the other contracts.
pub record Env (W : Type 0) : Type 0 where
  pub storage : Storage
  pub ledger_sequence : ℕ
  pub current_contract_address : Address
  pub authorized : Address → Bool
  pub events : List Event
  pub world : W

pub data Exec (W A : Type 0) : Type 0 where
  ok : A → Env W → Exec W A
  err : ContractError → Env W → Exec W A
  trap : Exec W A

-- Did the call return a value? If not, the host drops all that it wrote.
abbrev pub is_ok : {W A : Type 0} → Exec W A → Bool
is_ok (ok a env) = true
is_ok (err e env) = false
is_ok trap = false

abbrev pub Contract : Type 0 → Type 0 → Type 0
Contract W A = Env W → Exec W A

infixl 5 ◌>>=◌ ◌>>◌
abbrev pub ◌>>=◌ : {W A B : Type 0} → Contract W A → (A → Contract W B) → Contract W B
◌>>=◌ m f env = elim (m env) [ ok a env' ↦ f a env' | err e env' ↦ err e env' | trap ↦ trap ]

abbrev pub ◌>>◌ : {W B : Type 0} → Contract W (Unit {0}) → Contract W B → Contract W B
m >> k = m >>= λ _. k

module _ {W : Type 0} where
  abbrev pub gets : {A : Type 0} → (Env W → A) → Contract W A
  gets f env = ok (f env) env

  abbrev pub return : {A : Type 0} → A → Contract W A
  return a env = ok a env

  -- `return Err(e)` under a test.
  abbrev pub fail_if : Bool → ContractError → Contract W (Unit {0})
  fail_if true e env = err e env
  fail_if false e env = ok tt env

  -- A branch of a call.
  abbrev pub either : {A : Type 0} → Bool → Contract W A → Contract W A → Contract W A
  either true m n env = m env
  either false m n env = n env

  -- `if test { … }`
  abbrev pub when : Bool → Contract W (Unit {0}) → Contract W (Unit {0})
  when true m env = m env
  when false m env = ok tt env

  abbrev pub fail : {A : Type 0} → ContractError → Contract W A
  fail e env = err e env

  -- `ok_or(e)?`
  abbrev pub ok_or : {A : Type 0} → Option A → ContractError → Contract W A
  ok_or none e env = err e env
  ok_or (some a) e env = ok a env

  -- `expect(…)`, and a host call that may trap.
  abbrev pub expect : {A : Type 0} → Option A → Contract W A
  expect none env = trap
  expect (some a) env = ok a env

  -- `address.require_auth()` traps unless the call carries the address's authorisation.
  abbrev pub require_auth : Address → Contract W (Unit {0})
  require_auth a env = elim (env.authorized a) [ true ↦ ok tt env | false ↦ trap ]

  abbrev pub modify : (Storage → Storage) → Contract W (Unit {0})
  modify f env = ok tt (record env { storage = f env.storage })

  -- `env.events().publish((topic,), values)`
  abbrev pub publish : String → List Val → Contract W (Unit {0})
  publish t vs env =
      ok tt (record env { events = env.events ++ record { topic = t; values = vs } ∷ [] })

  -- A host call on the rest of the chain.
  abbrev pub on_world : (W → Option W) → Contract W (Unit {0})
  on_world f env = elim (f env.world) [ none ↦ trap | some w ↦ ok tt (record env { world = w }) ]

abbrev pub set_keeper : Address → Keeper → Storage → Storage
set_keeper a k s = record s { keeper = update a (some k) s.keeper }

abbrev pub set_task : TaskId → ExecutionTask → Storage → Storage
set_task i t s = record s { task = update i (some t) s.task }
