-- ===== src/Recovery/Done.antt =====
-- Every kind of recovery, and the whole operation.
use emergent_inc.Common.{
  ◌≡◌, ◌≢◌, ◌⊎◌, ◌∙◌, inl, inr, refl, ap, subst, arith, false, not, ◌&&◌, Option, none, some, [],
  ◌∷◌, ◌++◌, Text, codes, text_eq, ok, throw_if, or_throw, >>=-eq-ok, or_throw-eq-ok, ok-injective,
  Bool-cases, Option-cases,
}
use emergent_inc.Store.{
  Db, RunRow, MessageStatus, tool_skipped, RecoveryKind, model_kind, tool_kind, run_kind,
  message_kind, RecoveryDecision, confirm_not_billed, settle_billed, settle_reserved, abandon,
  acknowledge, RecoveryRow, run_stopped, user_stopped,
}
use emergent_inc.Budget.Types.{BudgetPolicy}
use emergent_inc.Store.Unique.{select_first-update_where}
use emergent_inc.Messages.Queue.{update_status}
use emergent_inc.Recovery.Types.{
  RecoveryParams, invalid_cost, tool_decision, run_decision, not_unresolved,
  awaiting_settlement_held, invalid_decision, id_required, idempotency_invalid,
}
use emergent_inc.Recovery.Operations.{
  find_tool, find_run_row, find_message, holds, is_uncertain, is_unresolved, is_running,
  is_awaiting, is_abandon, is_acknowledge, may_close_tool, status_decided, resolve_tool,
  resolve_run, resolve_message,
}
use emergent_inc.Recovery.Resolve.{
  has_bad_cost, find_decision, insert_decision, recovery_row, same_fingerprint, has_bad_key,
  resolve_kind, resolve_new, resolve_keyed, resolve_recovery_operation,
}
use emergent_inc.Recovery.Cleared.{is_pending, resolve_model-IsClosed}

abbrev IsResolved : RecoveryKind → Text → Db → Type 0
IsResolved kind id db = is_pending kind id db ≡ false

resolve_tool-IsResolved :
    (p : RecoveryParams) (db db' : Db) → resolve_tool p db ≡ ok db' → IsResolved tool_kind p.id db'
unfolding resolve_tool is_pending update_status
resolve_tool-IsResolved p db db' e =
    let (u, eu, e1) = >>=-eq-ok (throw_if (not (may_close_tool p.decision)) tool_decision) _ e in
    let (tool, et, e2) = >>=-eq-ok (or_throw not_unresolved (find_tool p.id db)) _ e1 in
    let (v, ev, e3) = >>=-eq-ok (throw_if (not (is_uncertain tool.status)) not_unresolved) _ e2 in
    subst (λ d. holds (λ t. is_uncertain t.status) (find_tool p.id d) ≡ false)
      (ok-injective _ db' e3)
      (ap (holds (λ t. is_uncertain t.status)) (
        select_first-update_where (λ t. t.operation_id) p.id
          (λ t. record t { status = tool_skipped }) db.tool_executions tool refl
          (or_throw-eq-ok not_unresolved (find_tool p.id db) et)))

-- The row that was running.
running_row :
    (o : Option RunRow) (done : Unit {0})
    → throw_if (not (holds (λ r. is_running r.status) o)) not_unresolved ≡ ok done
    → (row : RunRow) × (o ≡ some row)
running_row none done e = absurd (ground arith)
running_row (some row) done e = (row, refl)

resolve_run-IsResolved :
    (p : RecoveryParams) (db db' : Db) → resolve_run p db ≡ ok db' → IsResolved run_kind p.id db'
unfolding resolve_run is_pending
resolve_run-IsResolved p db db' e =
    let (u, eu, e1) = >>=-eq-ok (throw_if (not (is_acknowledge p.decision)) run_decision) _ e in
    let (v, ev, e2) =
      >>=-eq-ok
        (throw_if (not (holds (λ r. is_running r.status) (find_run_row p.id db))) not_unresolved) _
        e1 in
    let (row, found) = running_row (find_run_row p.id db) v ev in
    subst (λ d. holds (λ r. is_running r.status) (find_run_row p.id d) ≡ false)
      (ok-injective _ db' e2)
      (ap (holds (λ r. is_running r.status)) (
        select_first-update_where (λ r. r.run_id) p.id
          (λ r. record r { status = run_stopped; stop_reason = some user_stopped }) db.runs row refl
          found))

status_decided-resolved :
    (decision : RecoveryDecision) (status : MessageStatus)
    → status_decided decision ≡ some status
    → is_unresolved status ≡ false
status_decided-resolved confirm_not_billed status e = ground arith
status_decided-resolved settle_billed status e = ground arith
status_decided-resolved settle_reserved status e = ground arith
status_decided-resolved abandon status e = ground arith
status_decided-resolved acknowledge status e = ground arith

resolve_message-IsResolved :
    (p : RecoveryParams) (db db' : Db)
    → resolve_message p db ≡ ok db'
    → IsResolved message_kind p.id db'
unfolding resolve_message is_pending update_status
resolve_message-IsResolved p db db' e =
    let (m, em, e1) = >>=-eq-ok (or_throw not_unresolved (find_message p.id db)) _ e in
    let (u, eu, e2) = >>=-eq-ok (throw_if (not (is_unresolved m.status)) not_unresolved) _ e1 in
    let (v, ev, e3) =
      >>=-eq-ok
        (throw_if (is_awaiting m.status && not (is_abandon p.decision)) awaiting_settlement_held) _
        e2 in
    let (status, es, e4) = >>=-eq-ok (or_throw invalid_decision (status_decided p.decision)) _ e3 in
    subst (λ d. holds (λ m. is_unresolved m.status) (find_message p.id d) ≡ false)
      (ok-injective _ db' e4)
      (ap (holds (λ m. is_unresolved m.status)) (
          select_first-update_where (λ m. m.message_id) p.id (λ m. record m { status = status })
            db.messages m refl (or_throw-eq-ok not_unresolved (find_message p.id db) em))
        ∙ status_decided-resolved p.decision status (or_throw-eq-ok invalid_decision _ es))

resolve_kind-IsResolved :
    (policy : BudgetPolicy) (kind : RecoveryKind) (p : RecoveryParams) (db db' : Db)
    → resolve_kind policy kind p db ≡ ok db'
    → IsResolved kind p.id db'
unfolding resolve_kind is_pending
resolve_kind-IsResolved policy model_kind p db db' e =
    rw (resolve_model-IsClosed policy p db db' e) refl
resolve_kind-IsResolved policy tool_kind p db db' e = resolve_tool-IsResolved p db db' e
resolve_kind-IsResolved policy run_kind p db db' e = resolve_run-IsResolved p db db' e
resolve_kind-IsResolved policy message_kind p db db' e = resolve_message-IsResolved p db db' e

-- The log of decisions is not looked at.
logged_pending :
    (kind : RecoveryKind) (id : Text) (row : RecoveryRow) (db : Db)
    → IsResolved kind id db
    → IsResolved kind id (record db { recovery_decisions = db.recovery_decisions ++ row ∷ [] })
unfolding is_pending
logged_pending model_kind id row db h = h
logged_pending tool_kind id row db h = h
logged_pending run_kind id row db h = h
logged_pending message_kind id row db h = h

logged-IsResolved :
    (kind : RecoveryKind) (id : Text) (row : RecoveryRow) (db db' : Db)
    → IsResolved kind id db
    → insert_decision row db ≡ ok db'
    → IsResolved kind id db'
unfolding insert_decision is_pending
logged-IsResolved kind id row db db' h e = elim (Option-cases (find_decision row.decision_id db)) [
  | inr (old, taken) ↦ absurd (ground (arith, rw (taken, insert_decision) at e))
  | inl fresh ↦
      let same = ok-injective _ db' (rw (fresh, insert_decision) at e) in
      subst (IsResolved kind id) same (logged_pending kind id row db h)
]

resolve_new-IsResolved :
    (policy : BudgetPolicy) (p : RecoveryParams) (decision_id : Text) (db : Db) (q : Text × Db)
    → resolve_new policy p decision_id db ≡ ok q
    → IsResolved p.kind p.id q.1
unfolding resolve_new
resolve_new-IsResolved policy p decision_id db q e =
    let (resolved, er, e1) = >>=-eq-ok (resolve_kind policy p.kind p db) _ e in
    let (entered, ee, e2) =
      >>=-eq-ok (insert_decision (recovery_row p decision_id) resolved) _ e1 in
    subst (λ q. IsResolved p.kind p.id q.1) (ok-injective (decision_id, entered) q e2)
      (logged-IsResolved p.kind p.id (recovery_row p decision_id) resolved entered
        (resolve_kind-IsResolved policy p.kind p db resolved er) ee)

resolve_keyed-IsResolved :
    (policy : BudgetPolicy) (p : RecoveryParams) (decision_id : Text) (db : Db) (q : Text × Db)
    → resolve_keyed policy p decision_id db ≡ ok q
    → (db ≡ q.1) ⊎ IsResolved p.kind p.id q.1
unfolding resolve_keyed
resolve_keyed-IsResolved policy p decision_id db q e =
    elim (Option-cases (find_decision decision_id db)) [
      | inl new ↦
          inr (resolve_new-IsResolved policy p decision_id db q (rw (new, resolve_keyed) at e))
      | inr (old, found) ↦ elim (Bool-cases (same_fingerprint old (recovery_row p decision_id))) [
        | inl same ↦ inl (
            ap (λ q. q.1) (ok-injective (decision_id, db) q (rw (found, same, resolve_keyed) at e)))
        | inr other ↦ absurd (ground (arith, rw (found, other, resolve_keyed) at e))
      ]
    ]

-- A recovery settles the matter: a resolution that does not throw either has changed nothing, which
-- only an idempotency key can bring about, or leaves the operation resolved: the call has no open
-- reservation, the tool is neither started nor unknown, the run does not run, and the message is in
-- none of the statuses of a message that was claimed and not finished.
pub resolve_recovery_operation-resolves :
    (policy : BudgetPolicy) (sha256 : Text → Text) (uuid : Text) (p : RecoveryParams) (db : Db)
    (decision_id : Text) (db' : Db)
    → resolve_recovery_operation policy sha256 uuid p db ≡ ok (decision_id, db')
    → ((db ≡ db') × (p.idempotency_key ≢ none)) ⊎ (is_pending p.kind p.id db' ≡ false)
unfolding resolve_recovery_operation
resolve_recovery_operation-resolves policy sha256 uuid p db decision_id db' e =
    let (u, eu, e1) = >>=-eq-ok (throw_if (text_eq p.id []) id_required) _ e in
    let (v, ev, e2) = >>=-eq-ok (throw_if (has_bad_cost p.cost_cny) invalid_cost) _ e1 in
    let (w, ew, e3) =
      >>=-eq-ok (throw_if (has_bad_key p.idempotency_key) idempotency_invalid) _ e2 in
    elim (Option-cases p.idempotency_key) [
      | inl anonymous ↦
          inr (resolve_new-IsResolved policy p uuid db (decision_id, db') (rw anonymous at e3))
      | inr (key, given) ↦
          elim (resolve_keyed-IsResolved policy p (codes "recovery_" ++ sha256 key) db
            (decision_id, db') (rw given at e3)) [
              | inl kept ↦ inl (kept, λ empty. ground (arith, given, empty))
              | inr resolved ↦ inr resolved
            ]
    ]
