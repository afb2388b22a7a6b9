-- ===== src/Tests/Recoveries.antt =====
-- Recoveries at concrete inputs: a call that was reserved and never billed, and an abandoned run.
use emergent_inc.Common.{
  ◌≡◌, ◌≢◌, ◌⊎◌, refl, true, false, none, some, [], ◌∷◌, Text, codes, ok, err, Result, text_eq,
  if◌then◌else◌,
}
use emergent_inc.Store.{
  Db, model_kind, run_kind, confirm_not_billed, acknowledge, run_stopped, user_stopped,
}
use emergent_inc.Budget.Accounting.{IsAccounted}
use emergent_inc.Budget.Books.{reserve-IsAccounted}
use emergent_inc.Store.Table.{select_first, update_where, exists_where}
use emergent_inc.Store.Keys.{truthy}
use emergent_inc.Budget.Operations.{recorded, refund}
use emergent_inc.Recovery.Operations.{
  resolve_run, resolve_model, is_cost_only, decide_model, resolve_not_billed, message_of_call,
}
use emergent_inc.Recovery.Types.{RecoveryParams, RecoveryError, idempotency_conflict}
use emergent_inc.Recovery.Resolve.{
  explicit_reason, find_decision, has_bad_key, insert_decision, is_recovery_key, recovery_row,
  resolve_keyed, resolve_kind, resolve_new, resolve_recovery_operation, same_fingerprint,
}
use emergent_inc.Recovery.Accounted.{resolve_recovery_operation-IsAccounted}
use emergent_inc.Recovery.Once.{resolve_recovery_operation-once}
use emergent_inc.Recovery.Cleared.{is_pending}
use emergent_inc.Recovery.Done.{resolve_recovery_operation-resolves}
use emergent_inc.Tests.Fixtures.{world, run_1, run_row, scoped_run_row, call_1, plain_policy}
use emergent_inc.Tests.Budgets.{world-IsAccounted, plain_policy-keeps, reserves}

abbrev params : RecoveryParams
params = record {
  kind = run_kind;
  id = run_1;
  decision = acknowledge;
  reason = none;
  actual_tokens = none;
  cost_cny = none;
  idempotency_key = some (codes "key_0001");
}

-- The same recovery with a reason
abbrev explained : RecoveryParams
explained = record params { reason = some (codes "lost") }

abbrev unbilled : RecoveryParams
unbilled = record params { kind = model_kind; id = codes "call_1"; decision = confirm_not_billed }

abbrev plain_hash : Text → Text
plain_hash key = key

abbrev resolve : RecoveryParams → Db → Result RecoveryError (Text × Db)
resolve p db = resolve_recovery_operation plain_policy plain_hash (codes "u1") p db

abbrev decision_1 : Text
decision_1 = codes "recovery_key_0001"

abbrev recovered : Db
recovered = record world {
  runs =
      record run_row { status = run_stopped; stop_reason = some user_stopped }
      ∷ scoped_run_row
      ∷ [];
  run_checkpoints =
      record { run_id = run_1; round_started = true; round_messages = 0; resume_pending = false }
      ∷ [];
  recovery_decisions =
      record {
        decision_id = decision_1;
        kind = run_kind;
        id = run_1;
        decision = acknowledge;
        reason = codes "操作人审批通过 (approved)";
        actual_json = codes "null";
        cost_json = codes "null";
      }
      ∷ [];
}

abbrev db_or_world : Result RecoveryError (Text × Db) → Db
db_or_world (ok q) = q.1
db_or_world (err e) = world

abbrev refunded : Db
refunded = db_or_world (resolve unbilled (recorded call_1 world))

run_recovery :
    resolve_recovery_operation plain_policy plain_hash (codes "u1") params world
    ≡ ok (decision_1, recovered)
unfolding resolve_recovery_operation has_bad_key is_recovery_key resolve_keyed find_decision
    select_first text_eq resolve_new resolve_kind resolve_run update_where insert_decision
    explicit_reason
run_recovery = refl

call_recovery :
    resolve_recovery_operation plain_policy plain_hash (codes "u1") unbilled (recorded call_1 world)
    ≡ ok (decision_1, refunded)
unfolding resolve_recovery_operation has_bad_key is_recovery_key resolve_keyed find_decision
    select_first text_eq resolve_new resolve_kind resolve_model is_cost_only decide_model
    resolve_not_billed message_of_call truthy refund recorded update_where exists_where
    insert_decision explicit_reason
call_recovery = refl

resolve_recovery_operation-IsAccounted_example : IsAccounted refunded
resolve_recovery_operation-IsAccounted_example =
    resolve_recovery_operation-IsAccounted plain_policy plain_hash (codes "u1") unbilled
      (recorded call_1 world) decision_1 refunded plain_policy-keeps
      (reserve-IsAccounted plain_policy plain_policy-keeps call_1 world (recorded call_1 world)
        world-IsAccounted reserves)
      call_recovery

resolve_recovery_operation-once_example :
    resolve_recovery_operation plain_policy plain_hash (codes "u2") explained recovered ≡ (
      if same_fingerprint (recovery_row params decision_1) (recovery_row explained decision_1)
      then ok (decision_1, recovered)
      else err idempotency_conflict)
unfolding text_eq
resolve_recovery_operation-once_example =
    resolve_recovery_operation-once plain_policy plain_hash (codes "u1") (codes "u2")
      (codes "key_0001") params explained world decision_1 recovered refl refl refl refl
      run_recovery

resolve_recovery_operation-resolves_example :
    ((recorded call_1 world ≡ refunded) × (unbilled.idempotency_key ≢ none))
    ⊎ (is_pending model_kind (codes "call_1") refunded ≡ false)
resolve_recovery_operation-resolves_example =
    resolve_recovery_operation-resolves plain_policy plain_hash (codes "u1") unbilled
      (recorded call_1 world) decision_1 refunded call_recovery
