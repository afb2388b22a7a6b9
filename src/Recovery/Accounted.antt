-- ===== src/Recovery/Accounted.antt =====
-- A whole recovery and the totals of the budget.
use emergent_inc.Common.{
  ◌≡◌, inl, inr, subst, arith, not, ◌&&◌, Option, [], ◌++◌, Text, codes, text_eq, ok, throw_if,
  >>=-eq-ok, ok-injective, Bool-cases, Option-cases, if◌then◌else◌,
}
use emergent_inc.Store.{
  Db, ModelCallRow, RecoveryKind, model_kind, tool_kind, run_kind, message_kind,
}
use emergent_inc.Budget.Types.{BudgetPolicy}
use emergent_inc.Budget.Operations.{find_open}
use emergent_inc.Budget.Accounting.{IsAccounted}
use emergent_inc.Budget.Books.{RefillKeepsBooks}
use emergent_inc.Recovery.Types.{
  RecoveryParams, invalid_cost, not_unresolved, id_required, idempotency_invalid,
}
use emergent_inc.Recovery.Operations.{
  find_call, holds, is_null, is_unknown, is_cost_only, resolve_cost, decide_model, reconciled,
  resolve_model,
}
use emergent_inc.Recovery.Resolve.{
  has_bad_cost, find_decision, insert_decision, recovery_row, same_fingerprint, has_bad_key,
  resolve_kind, resolve_new, resolve_keyed, resolve_recovery_operation,
}
use emergent_inc.Recovery.Books.{
  update_call-IsAccounted, resolve_cost-IsAccounted, decide_model-IsAccounted,
  resolve_tool-IsAccounted, resolve_run-IsAccounted, resolve_message-IsAccounted,
  insert_decision-IsAccounted,
}

reconciled-IsAccounted :
    (policy : BudgetPolicy) (id : Text) (call : Option ModelCallRow) (db : Db)
    → IsAccounted db
    → IsAccounted (reconciled policy id call db)
reconciled-IsAccounted policy id call db h =
    elim (Bool-cases (holds (λ c. is_unknown c.outcome) call)) [
      | inl unknown ↦ rw (unknown, reconciled) (update_call-IsAccounted id _ db h)
      | inr known ↦ rw (known, reconciled) h
    ]

module _ (policy : BudgetPolicy) (keeps : RefillKeepsBooks policy) where
  decided-IsAccounted :
      (p : RecoveryParams) (db db' : Db)
      → IsAccounted db
      → (if is_cost_only p db then resolve_cost p db else decide_model policy p p.decision db)
        ≡ ok db'
      → IsAccounted db'
  decided-IsAccounted p db db' h e = elim (Bool-cases (is_cost_only p db)) [
    | inl only ↦ resolve_cost-IsAccounted p db db' h (rw only at e)
    | inr more ↦ decide_model-IsAccounted policy keeps p p.decision db db' h (rw more at e)
  ]

  resolve_model-IsAccounted :
      (p : RecoveryParams) (db db' : Db)
      → IsAccounted db
      → resolve_model policy p db ≡ ok db'
      → IsAccounted db'
  unfolding resolve_model
  resolve_model-IsAccounted p db db' h e =
      let (u, eu, e1) =
        >>=-eq-ok
          (throw_if
            (is_null (find_open p.id db)
              && not (is_cost_only p db)
              && not (holds (λ c. is_unknown c.outcome) (find_call p.id db)))
            not_unresolved)
          _ e in
      let (decided, ed, e2) =
        >>=-eq-ok
          (if is_cost_only p db then resolve_cost p db else decide_model policy p p.decision db) _
          e1 in
      subst IsAccounted (ok-injective _ db' e2) (
        reconciled-IsAccounted policy p.id (find_call p.id db) decided
          (decided-IsAccounted p db decided h ed))

  resolve_kind-IsAccounted :
      (kind : RecoveryKind) (p : RecoveryParams) (db db' : Db)
      → IsAccounted db
      → resolve_kind policy kind p db ≡ ok db'
      → IsAccounted db'
  unfolding resolve_kind
  resolve_kind-IsAccounted model_kind p db db' h e = resolve_model-IsAccounted p db db' h e
  resolve_kind-IsAccounted tool_kind p db db' h e = resolve_tool-IsAccounted p db db' h e
  resolve_kind-IsAccounted run_kind p db db' h e = resolve_run-IsAccounted p db db' h e
  resolve_kind-IsAccounted message_kind p db db' h e = resolve_message-IsAccounted p db db' h e

  resolve_new-IsAccounted :
      (p : RecoveryParams) (decision_id : Text) (db : Db) (q : Text × Db)
      → IsAccounted db
      → resolve_new policy p decision_id db ≡ ok q
      → IsAccounted q.1
  unfolding resolve_new
  resolve_new-IsAccounted p decision_id db q h e =
      let (resolved, er, e1) = >>=-eq-ok (resolve_kind policy p.kind p db) _ e in
      let (entered, ee, e2) =
        >>=-eq-ok (insert_decision (recovery_row p decision_id) resolved) _ e1 in
      subst (λ q. IsAccounted q.1) (ok-injective _ q e2)
        (insert_decision-IsAccounted (recovery_row p decision_id) resolved entered
          (resolve_kind-IsAccounted p.kind p db resolved h er) ee)

  resolve_keyed-IsAccounted :
      (p : RecoveryParams) (decision_id : Text) (db : Db) (q : Text × Db)
      → IsAccounted db
      → resolve_keyed policy p decision_id db ≡ ok q
      → IsAccounted q.1
  unfolding resolve_keyed
  resolve_keyed-IsAccounted p decision_id db q h e =
      elim (Option-cases (find_decision decision_id db)) [
        | inl new ↦ resolve_new-IsAccounted p decision_id db q h (rw (new, resolve_keyed) at e)
        | inr (old, found) ↦ elim (Bool-cases (same_fingerprint old (recovery_row p decision_id))) [
          | inl same ↦
              subst (λ q. IsAccounted q.1)
                (ok-injective (decision_id, db) q (rw (found, same, resolve_keyed) at e)) h
          | inr other ↦ absurd (ground (arith, rw (found, other, resolve_keyed) at e))
        ]
      ]

-- A recovery keeps the books: whatever an operator decides, with or without an idempotency key, and
-- provided that the energy callback touches no table of the budget, a resolution that does not
-- throw leaves the reserved tokens of every run, of every execution and of the whole budget equal to
-- the sums of the open reservations that name them, if they were so and no call had two
-- reservations.
pub resolve_recovery_operation-IsAccounted :
    (policy : BudgetPolicy) (sha256 : Text → Text) (uuid : Text) (p : RecoveryParams) (db : Db)
    (decision_id : Text) (db' : Db)
    → RefillKeepsBooks policy
    → IsAccounted db
    → resolve_recovery_operation policy sha256 uuid p db ≡ ok (decision_id, db')
    → IsAccounted db'
unfolding resolve_recovery_operation
resolve_recovery_operation-IsAccounted policy sha256 uuid p db decision_id db' keeps h e =
    let (u, eu, e1) = >>=-eq-ok (throw_if (text_eq p.id []) id_required) _ e in
    let (v, ev, e2) = >>=-eq-ok (throw_if (has_bad_cost p.cost_cny) invalid_cost) _ e1 in
    let (w, ew, e3) =
      >>=-eq-ok (throw_if (has_bad_key p.idempotency_key) idempotency_invalid) _ e2 in
    elim (Option-cases p.idempotency_key) [
      | inl anonymous ↦
          resolve_new-IsAccounted policy keeps p uuid db (decision_id, db') h (rw anonymous at e3)
      | inr (key, given) ↦
          resolve_keyed-IsAccounted policy keeps p (codes "recovery_" ++ sha256 key) db
            (decision_id, db') h (rw given at e3)
    ]
