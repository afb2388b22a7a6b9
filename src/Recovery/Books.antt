-- ===== src/Recovery/Books.antt =====
-- A recovery and the totals of the budget.
use emergent_inc.Common.{
  ℕ, ◌≡◌, inl, inr, subst, arith, not, ◌&&◌, Option, some, Text, text_eq, ok, throw_if, or_throw,
  >>=-eq-ok, ok-injective, Bool-cases, Option-cases,
}
use emergent_inc.Common.Int.{pos}
use emergent_inc.Domain.Validation.{integer}
use emergent_inc.Store.{
  Db, MessageStatus, queued, abandoned, ModelCallRow, RecoveryDecision, confirm_not_billed,
  settle_billed, settle_reserved, abandon, acknowledge, RecoveryRow, run_stopped, user_stopped,
}
use emergent_inc.Store.Table.{All-update_where}
use emergent_inc.Store.Keys.{truthy}
use emergent_inc.Budget.Types.{BudgetPolicy}
use emergent_inc.Budget.Operations.{find_open, settle, refund}
use emergent_inc.Budget.Accounting.{IsAccounted}
use emergent_inc.Budget.Books.{RefillKeepsBooks, settle-IsAccounted, refund-IsAccounted}
use emergent_inc.Messages.Queue.{update_status}
use emergent_inc.Recovery.Types.{
  RecoveryParams, settlement_invalid, invalid_tokens, invalid_cost, received_must_settle,
  tool_decision, run_decision, not_unresolved, awaiting_settlement_held, invalid_decision,
}
use emergent_inc.Recovery.Operations.{
  find_call, find_tool, find_run_row, find_message, holds, is_received, is_uncertain, is_unresolved,
  is_running, is_awaiting, is_abandon, is_billed, is_acknowledge, may_close_tool, status_decided,
  status_after, measured, budget_error, given_tokens, same_tokens, cost_text, message_of_call,
  update_named, update_call, resolve_cost, resolve_not_billed, settled_tokens, resolve_settled,
  decide_model, resolve_tool, resolve_run, resolve_message,
}
use emergent_inc.Recovery.Resolve.{find_decision, insert_decision}

update_status-IsAccounted :
    (id : Text) (status : MessageStatus) (db : Db)
    → IsAccounted db
    → IsAccounted (update_status id status db)
unfolding update_status
update_status-IsAccounted id status db h = record {
  unique = h.unique;
  by_run = h.by_run;
  by_execution = h.by_execution;
  global = h.global;
}

update_named-IsAccounted :
    (id : Option Text) (status : MessageStatus) (db : Db)
    → IsAccounted db
    → IsAccounted (update_named id status db)
update_named-IsAccounted id status db h = elim (Option-cases (truthy id)) [
  | inl missing ↦ rw (missing, update_named) h
  | inr (name, found) ↦ rw (found, update_named) (update_status-IsAccounted name status db h)
]

pub update_call-IsAccounted :
    (id : Text) (f : ModelCallRow → ModelCallRow) (db : Db)
    → IsAccounted db
    → IsAccounted (update_call id f db)
update_call-IsAccounted id f db h = record {
  unique = h.unique;
  by_run = h.by_run;
  by_execution = h.by_execution;
  global = h.global;
}

pub resolve_cost-IsAccounted :
    (p : RecoveryParams) (db db' : Db)
    → IsAccounted db
    → resolve_cost p db ≡ ok db'
    → IsAccounted db'
unfolding resolve_cost
resolve_cost-IsAccounted p db db' h e =
    let (u, eu, e1) =
      >>=-eq-ok (throw_if (not (same_tokens (given_tokens p) (find_call p.id db))) invalid_tokens) _
        e in
    let (cost, ec, e2) = >>=-eq-ok (or_throw invalid_cost (cost_text p.cost_cny)) _ e1 in
    subst IsAccounted (ok-injective _ db' e2) (update_call-IsAccounted p.id _ db h)

resolve_not_billed-IsAccounted :
    (p : RecoveryParams) (db db' : Db)
    → IsAccounted db
    → resolve_not_billed p db ≡ ok db'
    → IsAccounted db'
unfolding resolve_not_billed
resolve_not_billed-IsAccounted p db db' h e =
    let (u, eu, e1) =
      >>=-eq-ok
        (throw_if (holds (λ c. is_received c.outcome) (find_call p.id db)) received_must_settle) _
        e in
    subst IsAccounted (ok-injective _ db' e1)
      (update_named-IsAccounted _ queued (refund p.id db) (refund-IsAccounted p.id db h))

pub resolve_tool-IsAccounted :
    (p : RecoveryParams) (db db' : Db)
    → IsAccounted db
    → resolve_tool p db ≡ ok db'
    → IsAccounted db'
unfolding resolve_tool
resolve_tool-IsAccounted p db db' h e =
    let (u, eu, e1) = >>=-eq-ok (throw_if (not (may_close_tool p.decision)) tool_decision) _ e in
    let (tool, et, e2) = >>=-eq-ok (or_throw not_unresolved (find_tool p.id db)) _ e1 in
    let (v, ev, e3) = >>=-eq-ok (throw_if (not (is_uncertain tool.status)) not_unresolved) _ e2 in
    subst IsAccounted (ok-injective _ db' e3) (
      update_status-IsAccounted tool.message_id abandoned _ (record {
        unique = h.unique;
        by_run = h.by_run;
        by_execution = h.by_execution;
        global = h.global;
      }))

pub resolve_message-IsAccounted :
    (p : RecoveryParams) (db db' : Db)
    → IsAccounted db
    → resolve_message p db ≡ ok db'
    → IsAccounted db'
unfolding resolve_message
resolve_message-IsAccounted p db db' h e =
    let (m, em, e1) = >>=-eq-ok (or_throw not_unresolved (find_message p.id db)) _ e in
    let (u, eu, e2) = >>=-eq-ok (throw_if (not (is_unresolved m.status)) not_unresolved) _ e1 in
    let (v, ev, e3) =
      >>=-eq-ok
        (throw_if (is_awaiting m.status && not (is_abandon p.decision)) awaiting_settlement_held) _
        e2 in
    let (status, es, e4) = >>=-eq-ok (or_throw invalid_decision (status_decided p.decision)) _ e3 in
    subst IsAccounted (ok-injective _ db' e4) (update_status-IsAccounted p.id status db h)

-- Stopping a run leaves its tokens alone.
pub resolve_run-IsAccounted :
    (p : RecoveryParams) (db db' : Db)
    → IsAccounted db
    → resolve_run p db ≡ ok db'
    → IsAccounted db'
unfolding resolve_run
resolve_run-IsAccounted p db db' h e =
    let (u, eu, e1) = >>=-eq-ok (throw_if (not (is_acknowledge p.decision)) run_decision) _ e in
    let (v, ev, e2) =
      >>=-eq-ok
        (throw_if (not (holds (λ r. is_running r.status) (find_run_row p.id db))) not_unresolved) _
        e1 in
    subst IsAccounted (ok-injective _ db' e2) (record {
      unique = h.unique;
      by_run =
          All-update_where (λ r. text_eq r.run_id p.id)
            (λ r. record r { status = run_stopped; stop_reason = some user_stopped }) db.runs
            (λ r same hit. same) (λ r same miss. same) h.by_run;
      by_execution = h.by_execution;
      global = h.global;
    })

pub insert_decision-IsAccounted :
    (row : RecoveryRow) (db db' : Db)
    → IsAccounted db
    → insert_decision row db ≡ ok db'
    → IsAccounted db'
unfolding insert_decision
insert_decision-IsAccounted row db db' h e =
    elim (Option-cases (find_decision row.decision_id db)) [
      | inr (old, taken) ↦ absurd (ground (arith, rw (taken, insert_decision) at e))
      | inl fresh ↦
          subst IsAccounted (ok-injective _ db' (rw (fresh, insert_decision) at e)) (record {
            unique = h.unique;
            by_run = h.by_run;
            by_execution = h.by_execution;
            global = h.global;
          })
    ]

measured-IsAccounted :
    (p : RecoveryParams) (tokens : ℕ) (db : Db)
    → IsAccounted db
    → IsAccounted (measured p tokens db)
measured-IsAccounted p tokens db h = elim (Bool-cases (is_billed p.decision)) [
  | inl billed ↦ rw (billed, measured) (update_call-IsAccounted p.id _ db h)
  | inr other ↦ rw (other, measured) h
]

module _ (policy : BudgetPolicy) (keeps : RefillKeepsBooks policy) where
  resolve_settled-IsAccounted :
      (p : RecoveryParams) (db db' : Db)
      → IsAccounted db
      → resolve_settled policy p db ≡ ok db'
      → IsAccounted db'
  unfolding resolve_settled
  resolve_settled-IsAccounted p db db' h e =
      let (r, er, e1) = >>=-eq-ok (or_throw settlement_invalid (find_open p.id db)) _ e in
      let (n, en, e2) = >>=-eq-ok (or_throw settlement_invalid (settled_tokens p r)) _ e1 in
      let (paid, ep, e3) =
        >>=-eq-ok (budget_error (settle policy p.id (some (integer (pos n))) db)) _ e2 in
      let accounted =
        settle-IsAccounted policy keeps p.id (some (integer (pos n))) db paid h
          (ground (arith, ep)) in
      subst IsAccounted (ok-injective _ db' e3) (
        update_named-IsAccounted (message_of_call (find_call p.id db) (some r))
          (status_after p (find_call p.id db)) (measured p n paid)
          (measured-IsAccounted p n paid accounted))

  pub decide_model-IsAccounted :
      (p : RecoveryParams) (decision : RecoveryDecision) (db db' : Db)
      → IsAccounted db
      → decide_model policy p decision db ≡ ok db'
      → IsAccounted db'
  unfolding decide_model
  decide_model-IsAccounted p confirm_not_billed db db' h e =
      resolve_not_billed-IsAccounted p db db' h e
  decide_model-IsAccounted p acknowledge db db' h e = absurd (ground arith)
  decide_model-IsAccounted p settle_billed db db' h e = resolve_settled-IsAccounted p db db' h e
  decide_model-IsAccounted p settle_reserved db db' h e = resolve_settled-IsAccounted p db db' h e
  decide_model-IsAccounted p abandon db db' h e = resolve_settled-IsAccounted p db db' h e
