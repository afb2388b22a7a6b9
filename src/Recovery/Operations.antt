-- ===== src/Recovery/Operations.antt =====
-- `resolveRecoveryOperation`: an operator's decision on an operation that was left unresolved. The
-- SHA-256 of a key in hexadecimal is a parameter, and the UUID an argument.
use emergent_inc.Common.{
  ℕ, Bool, true, false, not, ◌&&◌, Option, none, some, Text, text_eq, ◌==◌, Result, ok, err, ◌>>=◌,
  ◌>>◌, throw_if, or_throw, if◌then◌else◌,
}
use emergent_inc.Common.Int.{pos}
use emergent_inc.Domain.Validation.{integer}
use emergent_inc.Store.{
  Db, ReservationRow, ReservationStatus, settled, RunRow, RunStatus, run_running, run_stopped,
  user_stopped, MessageRow, MessageStatus, queued, processing, reserved, calling, response_stored,
  call_outcome_unknown, awaiting_settlement, abandoned, ModelCallRow, ModelCallOutcome,
  call_success, outcome_unknown, outcome_reconciled, response_invalid, ToolExecutionRow,
  ToolExecutionStatus, tool_started, tool_unknown, tool_skipped, RecoveryDecision,
  confirm_not_billed, settle_billed, abandon, acknowledge,
}
use emergent_inc.Store.Table.{select_first, exists_where, update_where}
use emergent_inc.Store.Keys.{truthy}
use emergent_inc.Budget.Types.{BudgetError, BudgetPolicy}
use emergent_inc.Budget.Operations.{find_open, safe_nat, settle, refund}
use emergent_inc.Messages.Queue.{update_status}
use emergent_inc.Recovery.Types.{
  Cost, finite_cost, bad_cost, RecoveryParams, RecoveryError, invalid_cost, not_unresolved,
  received_must_settle, settlement_invalid, invalid_tokens, invalid_decision, tool_decision,
  run_decision, awaiting_settlement_held, of_budget,
}

-- The statuses of a message that a recovery may change.
abbrev pub is_unresolved : MessageStatus → Bool
is_unresolved processing = true
is_unresolved reserved = true
is_unresolved calling = true
is_unresolved call_outcome_unknown = true
is_unresolved awaiting_settlement = true
is_unresolved _ = false

abbrev pub is_awaiting : MessageStatus → Bool
is_awaiting awaiting_settlement = true
is_awaiting _ = false

abbrev pub is_unknown : ModelCallOutcome → Bool
is_unknown outcome_unknown = true
is_unknown _ = false

-- A response was received.
abbrev pub is_received : ModelCallOutcome → Bool
is_received call_success = true
is_received response_invalid = true
is_received _ = false

abbrev is_success : ModelCallOutcome → Bool
is_success call_success = true
is_success _ = false

abbrev pub is_uncertain : ToolExecutionStatus → Bool
is_uncertain tool_started = true
is_uncertain tool_unknown = true
is_uncertain _ = false

abbrev pub is_running : RunStatus → Bool
is_running run_running = true
is_running _ = false

abbrev is_settled : ReservationStatus → Bool
is_settled settled = true
is_settled _ = false

abbrev pub holds {ℓ} : {A : Type ℓ} → (A → Bool) → Option A → Bool
holds test none = false
holds test (some a) = test a

abbrev pub is_null {ℓ} : {A : Type ℓ} → Option A → Bool
is_null none = true
is_null (some a) = false

abbrev pub find_call : Text → Db → Option ModelCallRow
find_call id db = select_first (λ c. text_eq c.call_id id) db.model_calls

abbrev pub find_tool : Text → Db → Option ToolExecutionRow
find_tool id db = select_first (λ t. text_eq t.operation_id id) db.tool_executions

abbrev pub find_run_row : Text → Db → Option RunRow
find_run_row id db = select_first (λ r. text_eq r.run_id id) db.runs

abbrev pub find_message : Text → Db → Option MessageRow
find_message id db = select_first (λ m. text_eq m.message_id id) db.messages

abbrev pub update_call : Text → (ModelCallRow → ModelCallRow) → Db → Db
update_call id f db = record db {
  model_calls = update_where (λ c. text_eq c.call_id id) f db.model_calls;
}

-- `call?.messageId ?? reservation?.message_id`
unfoldable pub message_of_call : Option ModelCallRow → Option ReservationRow → Option Text
message_of_call call reservation =
    let kept : Option Text = elim reservation [ none ↦ none | some r ↦ r.message_id ] in
    elim call [ none ↦ kept | some c ↦ elim c.message_id [ none ↦ kept | some id ↦ some id ] ]

-- `if (messageId) this.messages.updateStatus(messageId, …)`
abbrev pub update_named : Option Text → MessageStatus → Db → Db
update_named message_id status db = elim (truthy message_id) [
  | none ↦ db
  | some id ↦ update_status id status db
]

abbrev pub is_billed : RecoveryDecision → Bool
is_billed settle_billed = true
is_billed _ = false

abbrev pub is_abandon : RecoveryDecision → Bool
is_abandon abandon = true
is_abandon _ = false

-- Tokens and response are settled, and only the cost is missing.
abbrev lacks_cost : ModelCallRow → Bool
lacks_cost call =
    not (is_null call.actual_tokens) && is_null call.cost_cny && is_received call.outcome

unfoldable pub is_cost_only : RecoveryParams → Db → Bool
is_cost_only p db =
    is_null (find_open p.id db)
    && is_billed p.decision
    && holds lacks_cost (find_call p.id db)
    && exists_where (λ r. text_eq r.call_id p.id && is_settled r.status) db.reservations

abbrev pub given_tokens : RecoveryParams → Option ℕ
given_tokens p = elim p.actual_tokens [ none ↦ none | some t ↦ safe_nat t.value ]

abbrev pub cost_text : Option Cost → Option Text
cost_text none = none
cost_text (some bad_cost) = none
cost_text (some (finite_cost text)) = some text

abbrev pub same_tokens : Option ℕ → Option ModelCallRow → Bool
same_tokens (some n) (some call) = holds (λ m. n == m) call.actual_tokens
same_tokens (some n) none = false
same_tokens none call = false

unfoldable pub resolve_cost : RecoveryParams → Db → Result RecoveryError Db
resolve_cost p db = do
  throw_if (not (same_tokens (given_tokens p) (find_call p.id db))) invalid_tokens
  cost ← or_throw invalid_cost (cost_text p.cost_cny)
  ok (update_call p.id (λ c. record c { cost_cny = some cost }) db)

unfoldable pub resolve_not_billed : RecoveryParams → Db → Result RecoveryError Db
resolve_not_billed p db = do
  throw_if (holds (λ c. is_received c.outcome) (find_call p.id db)) received_must_settle
  ok (
      update_named (message_of_call (find_call p.id db) (find_open p.id db)) queued
        (refund p.id db))

abbrev pub budget_error : Result BudgetError Db → Result RecoveryError Db
budget_error (ok db) = ok db
budget_error (err e) = err (of_budget e)

-- The verified tokens, or the whole reservation.
unfoldable pub settled_tokens : RecoveryParams → ReservationRow → Option ℕ
settled_tokens p r =
    if is_billed p.decision then given_tokens p else safe_nat (integer (pos r.amount))

abbrev pub measured : RecoveryParams → ℕ → Db → Db
measured p tokens db =
    if is_billed p.decision
    then update_call p.id
        (λ c. record c { actual_tokens = some tokens; cost_cny = cost_text p.cost_cny }) db
    else db

-- The message goes on with a stored response, or is abandoned.
abbrev pub status_after : RecoveryParams → Option ModelCallRow → MessageStatus
status_after p call =
    if not (is_abandon p.decision) && holds (λ c. is_success c.outcome) call
    then response_stored
    else abandoned

module _ (policy : BudgetPolicy) where
  unfoldable pub resolve_settled : RecoveryParams → Db → Result RecoveryError Db
  resolve_settled p db = do
    reservation ← or_throw settlement_invalid (find_open p.id db)
    tokens ← or_throw settlement_invalid (settled_tokens p reservation)
    paid ← budget_error (settle policy p.id (some (integer (pos tokens))) db)
    ok (
        update_named (message_of_call (find_call p.id db) (some reservation))
          (status_after p (find_call p.id db)) (measured p tokens paid))

  unfoldable pub decide_model : RecoveryParams → RecoveryDecision → Db → Result RecoveryError Db
  decide_model p confirm_not_billed db = resolve_not_billed p db
  decide_model p acknowledge db = err invalid_decision
  decide_model p other db = resolve_settled p db

  -- The call's outcome is known now.
  abbrev pub reconciled : Text → Option ModelCallRow → Db → Db
  reconciled id call db =
      if holds (λ c. is_unknown c.outcome) call
      then update_call id (λ c. record c { outcome = outcome_reconciled }) db
      else db

  unfoldable pub resolve_model : RecoveryParams → Db → Result RecoveryError Db
  resolve_model p db = do
    let call = find_call p.id db
    throw_if
        (is_null (find_open p.id db)
          && not (is_cost_only p db)
          && not (holds (λ c. is_unknown c.outcome) call))
        not_unresolved
    decided ← (if is_cost_only p db then resolve_cost p db else decide_model p p.decision db)
    ok (reconciled p.id call decided)

abbrev pub may_close_tool : RecoveryDecision → Bool
may_close_tool abandon = true
may_close_tool acknowledge = true
may_close_tool _ = false

unfoldable pub resolve_tool : RecoveryParams → Db → Result RecoveryError Db
resolve_tool p db = do
  throw_if (not (may_close_tool p.decision)) tool_decision
  tool ← or_throw not_unresolved (find_tool p.id db)
  throw_if (not (is_uncertain tool.status)) not_unresolved
  ok (
      update_status tool.message_id abandoned (record db {
        tool_executions =
            update_where (λ t. text_eq t.operation_id p.id)
              (λ t. record t { status = tool_skipped }) db.tool_executions;
      }))

abbrev pub is_acknowledge : RecoveryDecision → Bool
is_acknowledge acknowledge = true
is_acknowledge _ = false

unfoldable pub resolve_run : RecoveryParams → Db → Result RecoveryError Db
resolve_run p db = do
  throw_if (not (is_acknowledge p.decision)) run_decision
  throw_if (not (holds (λ r. is_running r.status) (find_run_row p.id db))) not_unresolved
  ok (record db {
    runs =
        update_where (λ r. text_eq r.run_id p.id)
          (λ r. record r { status = run_stopped; stop_reason = some user_stopped }) db.runs;
    run_checkpoints =
        update_where (λ c. text_eq c.run_id p.id) (λ c. record c { resume_pending = false })
          db.run_checkpoints;
  })

abbrev pub status_decided : RecoveryDecision → Option MessageStatus
status_decided abandon = some abandoned
status_decided confirm_not_billed = some queued
status_decided acknowledge = some queued
status_decided _ = none

unfoldable pub resolve_message : RecoveryParams → Db → Result RecoveryError Db
resolve_message p db = do
  m ← or_throw not_unresolved (find_message p.id db)
  throw_if (not (is_unresolved m.status)) not_unresolved
  throw_if (is_awaiting m.status && not (is_abandon p.decision)) awaiting_settlement_held
  status ← or_throw invalid_decision (status_decided p.decision)
  ok (update_status p.id status db)
