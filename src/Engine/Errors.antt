-- ===== src/Engine/Errors.antt =====
-- the-engine/src/errors.rs, and results that carry an error. A `Duration` is a number of seconds,
-- and of a `std::io::Error` the kind and the text are kept.
pub mod Display
use Prim.Native.String.{String}
use soroban_cron.Common.{ℕ, Bool, true, false, ◌≡◌, refl, ap, ◌⊎◌, inl, inr, arith}

pub data IoErrorKind : Type 0 where
  other invalid_data : IoErrorKind

pub data TransientError : Type 0 where
  io : IoErrorKind → String → TransientError
  connection_timeout : (elapsed : ℕ) → TransientError
  connection_reset rpc_timeout : TransientError

pub data NonTransientError : Type 0 where
  contract_rejection : (reason : String) → NonTransientError
  confirmation_timeout : (elapsed : ℕ) → NonTransientError
  keypair_decode : String → NonTransientError
  config_invalid : (field reason : String) → NonTransientError

pub data EngineError : Type 0 where
  transient : TransientError → EngineError
  non_transient : NonTransientError → EngineError

unfoldable pub is_transient : EngineError → Bool
is_transient (EngineError.transient e) = true
is_transient (EngineError.non_transient e) = false

pub data Result (A E : Type 0) : Type 0 where
  ok : A → Result A E
  err : E → Result A E

infixl 5 ◌>>=◌
abbrev pub ◌>>=◌ : {A B E : Type 0} → Result A E → (A → Result B E) → Result B E
r >>= f = elim r [ Result.ok a ↦ f a | Result.err e ↦ Result.err e ]

abbrev pub map_err : {A E F : Type 0} → (E → F) → Result A E → Result A F
map_err f (Result.ok a) = Result.ok a
map_err f (Result.err e) = Result.err (f e)

pub Result-cases :
    {A E : Type 0} (r : Result A E) → ((a : A) × (r ≡ Result.ok a)) ⊎ ((e : E) × (r ≡ Result.err e))
Result-cases (Result.ok a) = inl (a, refl)
Result-cases (Result.err e) = inr (e, refl)

-- An answer is a value, a failure to retry, or a failure to give up on.
pub Answer-cases :
    {A : Type 0} (r : Result A EngineError)
    → ((a : A) × (r ≡ Result.ok a))
      ⊎ (((e : TransientError) × (r ≡ Result.err (EngineError.transient e)))
          ⊎ ((e : NonTransientError) × (r ≡ Result.err (EngineError.non_transient e))))
Answer-cases (Result.ok a) = inl (a, refl)
Answer-cases (Result.err (EngineError.transient e)) = inr (inl (e, refl))
Answer-cases (Result.err (EngineError.non_transient e)) = inr (inr (e, refl))

-- Where a chain of results fails, and what it went through where it does not.
module _ {A B E : Type 0} {P : Type 0} where
  pub err-cases :
      (r : Result A E) (f : A → Result B E) (e : E)
      → (r ≡ Result.err e → P)
      → ((a : A) → r ≡ Result.ok a → f a ≡ Result.err e → P)
      → (r >>= f) ≡ Result.err e
      → P
  err-cases (Result.ok a) f e here later failed = later a refl failed
  err-cases (Result.err d) f e here later failed =
      let same : d ≡ e = ground arith in here (ap Result.err same)

  pub ok-cases :
      (r : Result A E) (f : A → Result B E) (b : B)
      → ((a : A) → r ≡ Result.ok a → f a ≡ Result.ok b → P)
      → (r >>= f) ≡ Result.ok b
      → P
  ok-cases (Result.ok a) f b later good = later a refl good
  ok-cases (Result.err d) f b later good = ground arith
