-- ===== src/Recovery/Cleared.antt =====
-- What a recovery leaves of the operation that it resolves.
use emergent_inc.Common.{
  ℕ, ◌≡◌, inl, inr, refl, subst, arith, Bool, true, not, ◌&&◌, Option, none, some, Text, ok,
  throw_if, or_throw, >>=-eq-ok, ok-injective, Bool-cases, Option-cases, if◌then◌else◌,
}
use emergent_inc.Common.Int.{pos}
use emergent_inc.Domain.Validation.{integer}
use emergent_inc.Store.{
  Db, MessageStatus, queued, ModelCallRow, RecoveryKind, model_kind, tool_kind, run_kind,
  message_kind, RecoveryDecision, confirm_not_billed, settle_billed, settle_reserved, abandon,
  acknowledge, refunded,
}
use emergent_inc.Store.Keys.{truthy}
use emergent_inc.Budget.Types.{BudgetPolicy}
use emergent_inc.Budget.Operations.{find_open, settle, refund}
use emergent_inc.Budget.Settlement.{settle-closes, find_open-release, find_open-call_id}
use emergent_inc.Messages.Queue.{update_status}
use emergent_inc.Recovery.Types.{
  RecoveryParams, settlement_invalid, invalid_tokens, invalid_cost, received_must_settle,
  not_unresolved,
}
use emergent_inc.Recovery.Operations.{
  find_call, find_tool, find_run_row, find_message, holds, is_null, is_received, is_uncertain,
  is_unresolved, is_running, is_unknown, is_billed, status_after, measured, budget_error,
  given_tokens, same_tokens, cost_text, message_of_call, update_named, is_cost_only, resolve_cost,
  resolve_not_billed, settled_tokens, resolve_settled, decide_model, reconciled, resolve_model,
}

-- An operation that is left unresolved: a call with an open reservation, a tool that was started
-- or whose outcome is unknown, a running run, or a message that was claimed and not finished.
unfoldable pub is_pending : RecoveryKind → Text → Db → Bool
is_pending model_kind id db = not (is_null (find_open id db))
is_pending tool_kind id db = holds (λ t. is_uncertain t.status) (find_tool id db)
is_pending run_kind id db = holds (λ r. is_running r.status) (find_run_row id db)
is_pending message_kind id db = holds (λ m. is_unresolved m.status) (find_message id db)

-- No open reservation of the call.
abbrev pub IsClosed : Text → Db → Type 0
IsClosed id db = find_open id db ≡ none

update_named-IsClosed :
    (id : Text) (name : Option Text) (status : MessageStatus) (db : Db)
    → IsClosed id db
    → IsClosed id (update_named name status db)
unfolding update_status
update_named-IsClosed id name status db h = elim (Option-cases (truthy name)) [
  | inl missing ↦ rw (missing, update_named) h
  | inr (message, found) ↦ rw (found, update_named) h
]

refund-IsClosed : (id : Text) (db : Db) → IsClosed id (refund id db)
unfolding refund
refund-IsClosed id db = elim (Option-cases (find_open id db)) [
  | inl absent ↦ rw (absent, refund) absent
  | inr (res, found) ↦
      rw (found, refund)
        (find_open-release id res 0 refunded db refl (find_open-call_id id db res found))
]

measured-IsClosed :
    (id : Text) (p : RecoveryParams) (tokens : ℕ) (db : Db)
    → IsClosed id db
    → IsClosed id (measured p tokens db)
measured-IsClosed id p tokens db h = elim (Bool-cases (is_billed p.decision)) [
  | inl billed ↦ rw (billed, measured) h
  | inr other ↦ rw (other, measured) h
]

reconciled-IsClosed :
    (policy : BudgetPolicy) (id : Text) (call : Option ModelCallRow) (db : Db)
    → IsClosed id db
    → IsClosed id (reconciled policy id call db)
reconciled-IsClosed policy id call db h =
    elim (Bool-cases (holds (λ c. is_unknown c.outcome) call)) [
      | inl unknown ↦ rw (unknown, reconciled) h
      | inr known ↦ rw (known, reconciled) h
    ]

resolve_cost-IsClosed :
    (p : RecoveryParams) (db db' : Db)
    → is_cost_only p db ≡ true
    → resolve_cost p db ≡ ok db'
    → IsClosed p.id db'
unfolding resolve_cost is_cost_only
resolve_cost-IsClosed p db db' only e =
    let (u, eu, e1) =
      >>=-eq-ok (throw_if (not (same_tokens (given_tokens p) (find_call p.id db))) invalid_tokens) _
        e in
    let (cost, ec, e2) = >>=-eq-ok (or_throw invalid_cost (cost_text p.cost_cny)) _ e1 in
    subst (IsClosed p.id) (ok-injective _ db' e2) (elim (Option-cases (find_open p.id db)) [
      | inl none_open ↦ none_open
      | inr (r, found) ↦ absurd (ground (arith, rw (found, is_cost_only) at only))
    ])

resolve_not_billed-IsClosed :
    (p : RecoveryParams) (db db' : Db) → resolve_not_billed p db ≡ ok db' → IsClosed p.id db'
unfolding resolve_not_billed
resolve_not_billed-IsClosed p db db' e =
    let (u, eu, e1) =
      >>=-eq-ok
        (throw_if (holds (λ c. is_received c.outcome) (find_call p.id db)) received_must_settle) _
        e in
    subst (IsClosed p.id) (ok-injective _ db' e1)
      (update_named-IsClosed p.id _ queued (refund p.id db) (refund-IsClosed p.id db))

resolve_settled-IsClosed :
    (policy : BudgetPolicy) (p : RecoveryParams) (db db' : Db)
    → resolve_settled policy p db ≡ ok db'
    → IsClosed p.id db'
unfolding resolve_settled
resolve_settled-IsClosed policy p db db' e =
    let (r, er, e1) = >>=-eq-ok (or_throw settlement_invalid (find_open p.id db)) _ e in
    let (n, en, e2) = >>=-eq-ok (or_throw settlement_invalid (settled_tokens p r)) _ e1 in
    let (paid, ep, e3) =
      >>=-eq-ok (budget_error (settle policy p.id (some (integer (pos n))) db)) _ e2 in
    let closed = settle-closes policy p.id (integer (pos n)) db paid (ground (arith, ep)) in
    subst (IsClosed p.id) (ok-injective _ db' e3) (
      update_named-IsClosed p.id (message_of_call (find_call p.id db) (some r))
        (status_after p (find_call p.id db)) (measured p n paid)
        (measured-IsClosed p.id p n paid closed))

decide_model-IsClosed :
    (policy : BudgetPolicy) (p : RecoveryParams) (decision : RecoveryDecision) (db db' : Db)
    → decide_model policy p decision db ≡ ok db'
    → IsClosed p.id db'
unfolding decide_model
decide_model-IsClosed policy p confirm_not_billed db db' e = resolve_not_billed-IsClosed p db db' e
decide_model-IsClosed policy p acknowledge db db' e = absurd (ground arith)
decide_model-IsClosed policy p settle_billed db db' e = resolve_settled-IsClosed policy p db db' e
decide_model-IsClosed policy p settle_reserved db db' e = resolve_settled-IsClosed policy p db db' e
decide_model-IsClosed policy p abandon db db' e = resolve_settled-IsClosed policy p db db' e

pub resolve_model-IsClosed :
    (policy : BudgetPolicy) (p : RecoveryParams) (db db' : Db)
    → resolve_model policy p db ≡ ok db'
    → IsClosed p.id db'
unfolding resolve_model
resolve_model-IsClosed policy p db db' e =
    let (u, eu, e1) =
      >>=-eq-ok
        (throw_if
          (is_null (find_open p.id db)
            && not (is_cost_only p db)
            && not (holds (λ c. is_unknown c.outcome) (find_call p.id db)))
          not_unresolved)
        _ e in
    let (decided, ed, e2) =
      >>=-eq-ok
        (if is_cost_only p db then resolve_cost p db else decide_model policy p p.decision db) _
        e1 in
    subst (IsClosed p.id) (ok-injective _ db' e2) (
      reconciled-IsClosed policy p.id (find_call p.id db) decided
        (elim (Bool-cases (is_cost_only p db)) [
          | inl only ↦ resolve_cost-IsClosed p db decided only (rw only at ed)
          | inr more ↦ decide_model-IsClosed policy p p.decision db decided (rw more at ed)
        ]))
