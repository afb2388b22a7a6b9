-- ===== src/Recovery/Types.antt =====
-- The parameters and errors of `resolveRecoveryOperation`. A request whose kind is none of the four
-- is not modelled, and a decision is one of the five.
use emergent_inc.Common.{Option, Text}
use emergent_inc.Domain.Validation.{Number}
use emergent_inc.Store.{RecoveryKind, RecoveryDecision}
use emergent_inc.Budget.Types.{BudgetError}

-- A cost in CNY: one that is finite and not below zero stands as its JSON text.
pub data Cost : Type 0 where
  finite_cost : Text → Cost
  bad_cost : Cost

-- A number and its JSON text.
pub record TokenCount : Type 0 where
  pub value : Number
  pub json : Text

pub record RecoveryParams : Type 0 where
  pub kind : RecoveryKind
  pub id : Text
  pub decision : RecoveryDecision
  pub reason : Option Text
  pub actual_tokens : Option TokenCount
  pub cost_cny : Option Cost
  pub idempotency_key : Option Text

pub data RecoveryError : Type 0 where
  id_required invalid_cost idempotency_invalid idempotency_conflict : RecoveryError
  not_unresolved received_must_settle settlement_invalid invalid_tokens : RecoveryError
  invalid_decision tool_decision run_decision awaiting_settlement_held : RecoveryError
  decision_exists : RecoveryError
  of_budget : BudgetError → RecoveryError
