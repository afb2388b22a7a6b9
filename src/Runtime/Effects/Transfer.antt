-- ===== src/Runtime/Effects/Transfer.antt =====
-- `applyTransferEnergy` of packages/runtime/src/effects/effect_runtime.ts.
use emergent_inc.Common.{
  ℕ, ◌-◌, ◌^◌, Bool, true, false, not, ◌&&◌, ◌||◌, Option, none, some, ◌++◌, Text, codes, includes,
  ◌==◌, Result, ok, err, ◌>>=◌, or_throw, if◌then◌else◌,
}
use emergent_inc.Common.Int.{ℤ, pos, pos_part, ◌-ℤ◌}
use emergent_inc.Domain.Validation.{Number, integer, non_integer, valid, invalid}
use emergent_inc.Domain.Energy.{EnergyTransferValidationParams, validate_energy_transfer}
use emergent_inc.Store.{Db, PixelRow, applied, failed}
use emergent_inc.Budget.Types.{BudgetError}
use emergent_inc.Budget.Operations.{is_trial}
use emergent_inc.CoreStore.Pixels.{get_pixel_account, update_energy}
use emergent_inc.CoreStore.Ledger.{LedgerEntry, append_entry}
use emergent_inc.CoreStore.Refill.{ensure_unlimited_energy}
use emergent_inc.Runtime.Compiler.{EnergyTransferRequest}
use emergent_inc.Runtime.Feedback.{create_transfer_failure_feedback}
use emergent_inc.Runtime.Effects.{
  EffectError, of_grid, of_budget, pixel_missing, entry_taken, ExecutionToolScope,
  EffectRuntimeContext, BaseEffect, enqueue, record_effect,
}
use emergent_inc.Runtime.Effects.Messages.{code_text, transfer_message}

pub record TransferEnergyEffect : Type 0 where
  pub base : BaseEffect
  pub from_pixel_id : Text
  pub transfer : EnergyTransferRequest

-- A trial candidate may not transfer, and an execution's pixels only among themselves.
unfoldable pub is_denied : Option ExecutionToolScope → Text → Bool
is_denied none target = false
is_denied (some scope) target =
    is_trial scope.kind || not (includes scope.allowed_recipients target)

abbrev pub is_live : Option PixelRow → Bool
is_live none = false
is_live (some account) = account.active

abbrev owes_nothing : Option PixelRow → Bool
owes_nothing none = false
owes_nothing (some account) = account.refund_deficit_tokens == 0

abbrev pub is_there : Option PixelRow → Bool
is_there none = false
is_there (some account) = true

abbrev energy_or_zero : Option PixelRow → ℕ
energy_or_zero none = 0
energy_or_zero (some account) = account.energy

-- The largest safe integer stands for energy that is refilled.
unfoldable pub transfer_params :
    EffectRuntimeContext → TransferEnergyEffect → Db → EnergyTransferValidationParams
transfer_params ctx effect db =
    let from = get_pixel_account effect.from_pixel_id db in
    let automatic_energy =
      ctx.company_run ctx.run_id
      || ctx.unlimited effect.from_pixel_id && is_live from && owes_nothing from in
    record {
      from_pixel_id = effect.from_pixel_id;
      from_energy = pos (if automatic_energy then 2 ^ 53 - 1 else energy_or_zero from);
      from_active = is_live from;
      to_pixel_id = effect.transfer.target;
      to_exists = is_there (get_pixel_account effect.transfer.target db);
      amount = effect.transfer.amount;
    }

unfoldable pub refuse :
    EffectRuntimeContext → TransferEnergyEffect → (code message : Text) → Db → Result EffectError Db
refuse ctx effect code message db = do
  told ←
      enqueue ctx
        (create_transfer_failure_feedback effect.from_pixel_id ctx.round ctx.run_id
          effect.transfer.target code message)
        db
  ok (record_effect effect.base failed told)

-- An amount that is admitted is a positive integer.
abbrev pub amount_of : Number → ℕ
amount_of (integer z) = pos_part z
amount_of non_integer = 0

abbrev pub transfer_entry : (id pixel kind : Text) → ℤ → ℕ → LedgerEntry
transfer_entry id pixel kind amount balance = record {
  entry_id = id;
  pixel_id = pixel;
  binding_id = none;
  entry_type = kind;
  amount = amount;
  balance_after = balance;
}

abbrev pub of_budget_error : Result BudgetError Db → Result EffectError Db
of_budget_error (ok db) = ok db
of_budget_error (err e) = err (of_budget e)

-- The transaction that moves the energy.
unfoldable pub move_energy :
    EffectRuntimeContext → TransferEnergyEffect → ℕ → Db → Result EffectError Db
move_energy ctx effect amount db = do
  let from = effect.from_pixel_id
  let target = effect.transfer.target
  let id = effect.base.effect_id
  refilled ←
      of_budget_error
        (ensure_unlimited_energy ctx.uuid ctx.unlimited from amount (codes "transfer:" ++ id) db)
  taken ← or_throw pixel_missing (update_energy from (pos 0 -ℤ pos amount) refilled)
  given ← or_throw pixel_missing (update_energy target (pos amount) taken.1)
  noted ← or_throw entry_taken (
      append_entry
        (transfer_entry (id ++ codes "_out") from (codes "transfer_out") (pos 0 -ℤ pos amount)
          taken.0)
        given.1)
  or_throw entry_taken (
      append_entry
        (transfer_entry (id ++ codes "_in") target (codes "transfer_in") (pos amount) given.0)
        noted)

unfoldable pub apply_valid_transfer :
    EffectRuntimeContext → TransferEnergyEffect → Db → Result EffectError Db
apply_valid_transfer ctx effect db =
    if ctx.company_run ctx.run_id then ok (record_effect effect.base applied db) else do
      moved ← move_energy ctx effect (amount_of effect.transfer.amount) db
      ok (record_effect effect.base applied moved)

unfoldable pub apply_transfer_energy :
    EffectRuntimeContext → TransferEnergyEffect → Db → Result EffectError Db
apply_transfer_energy ctx effect db =
    if is_denied ctx.execution_scope effect.transfer.target
    then refuse ctx effect (codes "EXECUTION_SCOPE_DENIED")
        (codes "Energy transfer is outside this execution's allowed participant set") db
    else let p = transfer_params ctx effect db in
      elim (validate_energy_transfer p) [
        | err e ↦ err (of_grid e)
        | ok valid ↦ apply_valid_transfer ctx effect db
        | ok (invalid code) ↦
            refuse ctx effect (code_text code) (transfer_message ctx.to_string p code) db
      ]
