-- ===== src/Budget/Types.antt =====
-- The parameters and errors of the budget repository.
use emergent_inc.Common.{ℕ, Option, Text, Bool, Result}
use emergent_inc.Store.{Db}
use emergent_inc.CoreStore.Types.{RewardError}

-- The `kind` of a `BudgetExceededError`, and `limitingKind`.
pub data LimitKind : Type 0 where
  pixel_limit run_limit_kind execution_limit : LimitKind

pub data BudgetError : Type 0 where
  identity_message_not_found scope_message_conflict binding_conflict revision_conflict : BudgetError
  pixel_not_found spend_blocked run_scope_conflict run_scope_invalid : BudgetError
  execution_run_not_found execution_not_running trial_scope_not_found : BudgetError
  budget_exceeded : LimitKind → BudgetError
  -- the primary key of a new row is taken
  constraint_failed : BudgetError
  -- `pixel.energy` of a row that is gone
  type_error : BudgetError
  invalid_actual_tokens invalid_energy_requirement : BudgetError
  -- `ensureUnlimitedEnergy` calls `applyExternalReward`
  reward_error : RewardError → BudgetError

pub record ReserveParams : Type 0 where
  pub call_id : Text
  pub run_id : Text
  pub pixel_id : Text
  pub estimated_tokens : ℕ
  pub message_id : Option Text
  pub execution_id : Option Text
  pub binding_id : Option Text
  pub narrative_revision : Option ℕ

-- The callbacks of the class.
pub record BudgetPolicy : Type 0 where
  pub company_run : Text → Bool
  pub ensure_energy : Text → ℕ → Text → Db → Result BudgetError Db
