-- ===== src/Engine/Discovery/OnChain.antt =====
-- The daemon and the contract together: what the daemon submits, the contract carries out.
use Prim.Native.String.{String, ◌++◌ as ◌&◌}
use text.Mathlib.TextEquality.{eq_iff}
use soroban_cron.Engine.InFlight.{contains}
use soroban_cron.Engine.Pipeline.Submission.{dispatch-StartsWithSubmission}
use soroban_cron.Common.{
  ℕ, false, sym, ap, ◌∙◌, Bool-cases, List, ◌∷◌, ◌++◌, Bool, Option, none, ◌+◌, ◌<◌, ◌≡◌, refl,
  true, some, inl, inr, arith, Option-cases, ◌==◌,
}
use soroban_cron.Common.Word.{u32_mod}
use soroban_cron.Anchor.Types.{Address, TaskId, ExecutionTask}
use soroban_cron.Anchor.Errors.{ContractError}
use soroban_cron.Anchor.Host.{Host}
use soroban_cron.Anchor.Env.{Env, is_ok}
use soroban_cron.Anchor.Registry.{is_registered}
use soroban_cron.Anchor.Execution.{execute_drip_split}
use soroban_cron.Anchor.Execution.Windows.{Region, region, arbitrate, verdict}
use soroban_cron.Anchor.Execution.Payments.{TokenLaws}
use soroban_cron.Anchor.System.{empty_storage, Reach}
use soroban_cron.Anchor.System.Funding.{Supplied}
use soroban_cron.Anchor.System.Liveness.{due_task_is_executed}
use soroban_cron.Engine.Rpc.{RemoteTask}
use soroban_cron.Engine.Pipeline.{
  Network, Action, Machine, parse_task_id, debug, build_signed_transaction, dispatch,
}
use soroban_cron.Engine.Discovery.{TaskDiscovery, classify_and_dispatch}
use soroban_cron.Engine.Discovery.Windows.{
  is_designated, IsWired, role_in, classify_and_dispatch-arbitrate,
}

-- The daemon's copy of a task says what the contract's record says, where `address_of` reads an
-- address and does not confuse these two; and all parts of the daemon act for one keeper and one
-- contract.
pub record Mirrors {V N : Type 0} (net : Network V N) (address_of : String → Address)
    (self : TaskDiscovery) (copy : RemoteTask) (id : TaskId) (task : ExecutionTask)
    (keeper : Address) : Type 0 where
  pub identifier : parse_task_id net copy.task_id_hex ≡ id
  pub window : copy.next_allowed_execution ≡ task.next_allowed_execution
  pub designated : address_of copy.designated_keeper ≡ task.designated_keeper
  pub own : address_of self.keeper_address ≡ keeper
  pub distinct :
      address_of copy.designated_keeper ≡ address_of self.keeper_address
      → copy.designated_keeper ≡ self.keeper_address
  pub signs : self.pipeline.keeper_address ≡ self.keeper_address
  pub addresses : self.pipeline.anchor_contract_address ≡ self.anchor_contract_address

abbrev pub role_text : Region → String
role_text Region.designated_window = "Designated"
role_text Region.grace_period = "Secondary"
role_text _ = "PostGrace"

-- The order to execute a task, as it is written and signed.
abbrev pub order :
    {V N : Type 0} → Network V N → TaskDiscovery → (task_id_hex : String) → Region → String
order net self task_id_hex window =
    let named =
      "contract="
      & self.anchor_contract_address
      & ":task="
      & task_id_hex
      & ":keeper="
      & self.keeper_address
      & ":role="
      & role_text window in
    "SIGNED:"
    & named
    & ":sig="
    & net.sign self.pipeline.signing_key_bytes ("execute_drip_split:" & named)

-- The daemon, which goes from `before` to `after`, and the contract, which returns or not, do as the
-- window table says: nothing, or the daemon first submits the order, and the contract returns.
abbrev pub Follows :
    {N : Type 0}
    → Option ContractError
    → (order : String) → (before after : Machine N) → Bool
    → Type 0
Follows (some e) order before after returns = after ≡ before
Follows none order before after returns =
    ((rest : List Action) × (after.actions ≡ before.actions ++ Action.submitted order ∷ rest))
    × (returns ≡ true)

module _ {V N : Type 0} (net : Network V N) (self : TaskDiscovery)
    (address_of : String → Address) where
  designated-is_designated :
      (copy : RemoteTask) (id : TaskId) (task : ExecutionTask) (keeper : Address)
      → Mirrors net address_of self copy id task keeper
      → is_designated self copy ≡ (keeper == task.designated_keeper)
  designated-is_designated copy id task keeper k =
      let same = eq_iff copy.designated_keeper self.keeper_address in
      elim (Bool-cases (keeper == task.designated_keeper)) [
        | inl equal_keys ↦
            let equal : address_of copy.designated_keeper ≡ address_of self.keeper_address =
              ground (arith, k.designated, k.own) in
            same.1 (k.distinct equal) ∙ sym equal_keys
        | inr other ↦ elim (Bool-cases (is_designated self copy)) [
          | inr differ ↦ differ ∙ sym other
          | inl alike ↦
              let equal = ap address_of (same.0 alike) in ground (arith, equal, k.designated, k.own)
        ]
      ]

  build_signed_transaction-order :
      (copy : RemoteTask) (id : TaskId) (task : ExecutionTask) (keeper : Address) (window : Region)
      → Mirrors net address_of self copy id task keeper
      → build_signed_transaction net self.pipeline copy (role_in window)
        ≡ order net self copy.task_id_hex window
  unfolding build_signed_transaction debug
  build_signed_transaction-order copy id task keeper Region.pre_window k =
      rw (k.signs, k.addresses) refl
  build_signed_transaction-order copy id task keeper Region.designated_window k =
      rw (k.signs, k.addresses) refl
  build_signed_transaction-order copy id task keeper Region.grace_period k =
      rw (k.signs, k.addresses) refl
  build_signed_transaction-order copy id task keeper Region.post_grace k =
      rw (k.signs, k.addresses) refl

  module _ {W : Type 0} (h : Host W) (laws : TokenLaws h) where
    -- At a ledger of a contract's life, take a daemon whose parts are wired together, whose keeper is
    -- registered and signs, and which has a true copy of the task, not in flight; let the contract be
    -- `Supplied`, the token keep `TokenLaws`, and the ledger numbers be away from the end of a
    -- `u32`. Where the window table refuses the keeper, the daemon does nothing. Where it admits the
    -- keeper, the daemon first submits the signed order that names this contract, this task, this
    -- keeper and the role of the window; and the contract, called for the identifier that the order's
    -- task spells, by the keeper whose address the order gives, at that ledger, executes it.
    pub dispatched_task_is_executed :
        {start env : Env W} (id : TaskId) (keeper token : Address) (task : ExecutionTask)
        (called : W) (copy : RemoteTask) (m : Machine N)
        → IsWired self
        → Mirrors net address_of self copy id task keeper
        → contains id m.in_flight ≡ false
        → task.next_allowed_execution + 50 < u32_mod
        → start.storage ≡ empty_storage
        → Reach h start env
        → env.storage.task id ≡ some task
        → Supplied h env task token keeper called
        → env.authorized keeper ≡ true
        → is_registered env keeper ≡ true
        → let window = region task.next_allowed_execution env.ledger_sequence in
          Follows
            (verdict h task keeper env)
            (order net self copy.task_id_hex window)
            m
            (classify_and_dispatch net self copy env.ledger_sequence m)
            (is_ok (
              execute_drip_split h
                (parse_task_id net copy.task_id_hex)
                (address_of self.keeper_address)
                env))
    dispatched_task_is_executed {env} id keeper token task called copy m wired mirrors fresh room
          new r stored supplied signed registered =
        let chosen =
          classify_and_dispatch-arbitrate net self copy env.ledger_sequence m wired
            (omega (arith, mirrors.window)) in
        let window = region copy.next_allowed_execution env.ledger_sequence in
        let own = designated-is_designated copy id task keeper mirrors in
        let same : arbitrate window (is_designated self copy) true ≡ verdict h task keeper env =
          rw (mirrors.window, own, registered) refl in
        let executed =
          due_task_is_executed h laws id keeper token task called new r stored supplied signed in
        elim (Option-cases (verdict h task keeper env)) [
          | inr (e, refused) ↦ rw refused (ground (arith, chosen, same, refused))
          | inl admitted ↦
              let (rest, submitted) =
                dispatch-StartsWithSubmission net self.pipeline copy (role_in window) m
                  (rw mirrors.identifier fresh) in
              let written = build_signed_transaction-order copy id task keeper window mirrors in
              let goes : classify_and_dispatch net self copy env.ledger_sequence m
                  ≡ dispatch net self.pipeline copy (role_in window) m =
                ground (arith, chosen, same, admitted) in
              rw admitted (
                (
                  rest,
                  ap (λ (x : Machine N). x.actions) goes
                      ∙ submitted
                      ∙ ap (λ (text : String). m.actions ++ Action.submitted text ∷ rest) written
                      ∙ ap
                          (λ (l : ℕ).
                            m.actions
                            ++ Action.submitted
                                (order net self copy.task_id_hex (region l env.ledger_sequence))
                              ∷ rest)
                          mirrors.window,
                ),
                rw (mirrors.identifier, mirrors.own) (executed admitted),
              )
        ]
