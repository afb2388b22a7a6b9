-- ===== src/Budget/Operations.antt =====
-- `reserve`, `settle` and `refund` of the budget repository.
use emergent_inc.Common.{
  ℕ, ◌+◌, ◌-◌, ◌^◌, Bool, true, false, not, ◌&&◌, Option, none, some, List, [], ◌∷◌, ◌++◌, Text,
  codes, text_eq, ltb, leb, Result, ok, err, ◌>>=◌, ◌>>◌, throw_if, if◌then◌else◌,
}
use emergent_inc.Common.Int.{pos, negsuc}
use emergent_inc.Domain.Lifecycle.{running, execution_status_eq}
use emergent_inc.Domain.Validation.{Number, integer, non_integer}
use emergent_inc.Store.{
  Db, PixelRow, RunRow, GlobalRow, ReservationRow, ReservationStatus, open_reservation, settled,
  refunded, ExecutionRow, ExecutionKind, mission, trial_candidate, TrialRow, MessageRow,
}
use emergent_inc.Store.Table.{select_first, exists_where, update_where, sum_where}
use emergent_inc.Store.Keys.{optional_text_eq, optional_nat_eq, truthy}
use emergent_inc.Budget.Types.{
  pixel_limit, run_limit_kind, execution_limit, BudgetError, identity_message_not_found,
  scope_message_conflict, binding_conflict, revision_conflict, pixel_not_found, spend_blocked,
  run_scope_conflict, run_scope_invalid, budget_exceeded, constraint_failed, type_error,
  invalid_actual_tokens, ReserveParams, BudgetPolicy,
}

abbrev pub is_open : ReservationStatus → Bool
is_open open_reservation = true
is_open _ = false

abbrev pub is_trial : ExecutionKind → Bool
is_trial trial_candidate = true
is_trial mission = false

abbrev pub find_pixel : Text → Db → Option PixelRow
find_pixel id db = select_first (λ p. text_eq p.pixel_id id) db.pixel_accounts

abbrev pub find_run : Text → Db → Option RunRow
find_run id db = select_first (λ r. text_eq r.run_id id) db.runs

-- `WHERE execution_id=? AND status='running'`
abbrev pub find_running : Text → Db → Option ExecutionRow
find_running id db =
    select_first (λ e. text_eq e.execution_id id && execution_status_eq e.status running)
      db.executions

abbrev pub find_open : Text → Db → Option ReservationRow
find_open id db = select_first (λ r. text_eq r.call_id id && is_open r.status) db.reservations

-- The tokens that all candidates of a trial have spent or reserved.
unfoldable pub trial_used : Text → Db → ℕ
trial_used trial db =
    sum_where (λ e. is_trial e.kind && text_eq e.subject_id trial)
      (λ e. e.spent_tokens + e.reserved_tokens) db.executions

abbrev pub find_trial : Text → Db → Option TrialRow
find_trial id db = select_first (λ t. text_eq t.trial_id id) db.trials

-- Taking the message's identity snapshot, or comparing with the one that was taken.
capture_or_compare : ReserveParams → Text → MessageRow → Db → Result BudgetError Db
capture_or_compare p id m db =
    if m.identity_snapshot_captured
    then (do
      throw_if (not (optional_nat_eq m.narrative_revision p.narrative_revision)) revision_conflict
      ok db)
    else ok (record db {
      messages =
          update_where (λ row. text_eq row.message_id id && not row.identity_snapshot_captured)
            (λ row. record row {
              narrative_revision = p.narrative_revision;
              identity_snapshot_captured = true;
            })
            db.messages;
    })

unfoldable pub check_identity : ReserveParams → Db → Result BudgetError Db
unfolding capture_or_compare
check_identity p db = elim (truthy p.message_id) [
  | none ↦ ok db
  | some id ↦ elim (select_first (λ row. text_eq row.message_id id) db.messages) [
    | none ↦ err identity_message_not_found
    | some m ↦ do
      throw_if (not (optional_text_eq m.execution_id p.execution_id)) scope_message_conflict
      throw_if (not (optional_text_eq m.recipient_binding_id p.binding_id)) binding_conflict
      capture_or_compare p id m db
  ]
]

-- `pixel.energy < estimatedTokens` on the row that was read again.
compare_energy : Bool → ℕ → Option PixelRow → Result BudgetError (Unit {0})
compare_energy true estimated pixel = ok tt
compare_energy false estimated none = err type_error
compare_energy false estimated (some pixel) =
    throw_if (ltb pixel.energy estimated) (budget_exceeded pixel_limit)

module _ (policy : BudgetPolicy) where
  unfoldable pub check_pixel : ReserveParams → Db → Result BudgetError Db
  unfolding compare_energy
  check_pixel p db =
      let company = policy.company_run p.run_id in
      elim (find_pixel p.pixel_id db) [
        | none ↦ err pixel_not_found
        | some pixel ↦ do
          throw_if (not company && ltb 0 pixel.refund_deficit_tokens) spend_blocked
          refilled ←
              (if company
                then ok db
                else policy.ensure_energy p.pixel_id p.estimated_tokens
                    (codes "reserve:" ++ p.call_id) db)
          compare_energy company p.estimated_tokens (find_pixel p.pixel_id refilled)
          ok refilled
      ]

  unfoldable pub check_run : ReserveParams → Db → Result BudgetError (Unit {0})
  check_run p db = elim (find_run p.run_id db) [
    | none ↦ ok tt
    | some run ↦ do
      throw_if (not (optional_text_eq run.execution_id p.execution_id)) run_scope_conflict
      throw_if
          (not (policy.company_run p.run_id)
            && ltb run.run_limit (run.run_spent + run.run_reserved + p.estimated_tokens))
          (budget_exceeded run_limit_kind)
  ]

  -- The budget that all candidates of a trial share.
  unfoldable pub check_trial : ReserveParams → ExecutionRow → Db → Result BudgetError (Unit {0})
  check_trial p execution db =
      if not (policy.company_run p.run_id) && is_trial execution.kind
      then elim (find_trial execution.subject_id db) [
        | none ↦ err (budget_exceeded execution_limit)
        | some trial ↦
            throw_if
              (ltb trial.total_budget_tokens
                (trial_used execution.subject_id db + p.estimated_tokens))
              (budget_exceeded execution_limit)
      ]
      else ok tt

  unfoldable pub check_running_execution :
      ReserveParams → Option RunRow → Option ExecutionRow → Db → Result BudgetError (Unit {0})
  unfolding check_trial
  check_running_execution p (some run) (some execution) db = do
    throw_if
        (not (policy.company_run p.run_id)
          && ltb execution.budget_tokens
              (execution.spent_tokens + execution.reserved_tokens + p.estimated_tokens))
        (budget_exceeded execution_limit)
    check_trial p execution db
  check_running_execution p (some run) none db = err run_scope_invalid
  check_running_execution p none execution db = err run_scope_invalid

  unfoldable pub check_execution : ReserveParams → Db → Result BudgetError (Unit {0})
  unfolding check_running_execution
  check_execution p db = elim (truthy p.execution_id) [
    | none ↦ ok tt
    | some id ↦ check_running_execution p (find_run p.run_id db) (find_running id db) db
  ]

-- `total_reserved = total_reserved + ?` where the row is there
abbrev pub update_global : (GlobalRow → GlobalRow) → Option GlobalRow → Option GlobalRow
update_global f none = none
update_global f (some g) = some (f g)

abbrev pub reservation_of : ReserveParams → ReservationRow
reservation_of p = record {
  call_id = p.call_id;
  run_id = p.run_id;
  pixel_id = p.pixel_id;
  amount = p.estimated_tokens;
  execution_id = p.execution_id;
  binding_id = p.binding_id;
  narrative_revision = p.narrative_revision;
  message_id = p.message_id;
  status = open_reservation;
}

-- Adding tokens to what the rows of an execution hold. `if (params.executionId)`
abbrev pub update_execution :
    Option Text → (ExecutionRow → ExecutionRow) → List ExecutionRow → List ExecutionRow
update_execution none f rows = rows
update_execution (some id) f rows = update_where (λ e. text_eq e.execution_id id) f rows

-- Steps 3 and 4 of `reserve`: the reservation and the three running totals.
unfoldable pub recorded : ReserveParams → Db → Db
recorded p db = record db {
  reservations = db.reservations ++ reservation_of p ∷ [];
  runs =
      update_where (λ r. text_eq r.run_id p.run_id)
        (λ r. record r { run_reserved = r.run_reserved + p.estimated_tokens }) db.runs;
  executions =
      update_execution (truthy p.execution_id)
        (λ e. record e { reserved_tokens = e.reserved_tokens + p.estimated_tokens }) db.executions;
  global_budget =
      update_global (λ g. record g { total_reserved = g.total_reserved + p.estimated_tokens })
        db.global_budget;
}

-- The insertion fails if the call has a reservation, whatever its status.
unfoldable pub record_reservation : ReserveParams → Db → Result BudgetError Db
record_reservation p db = do
  throw_if (exists_where (λ r. text_eq r.call_id p.call_id) db.reservations) constraint_failed
  ok (recorded p db)

module _ (policy : BudgetPolicy) where
  unfoldable pub reserve : ReserveParams → Db → Result BudgetError Db
  reserve p db = do
    captured ← check_identity p db
    refilled ← check_pixel policy p captured
    check_run policy p refilled
    check_execution policy p refilled
    record_reservation p refilled

-- What `settle` and `refund` do to the totals of one reservation: its amount is released, and
-- `actual` is spent.
unfoldable pub release : ReservationRow → ℕ → ReservationStatus → Db → Db
release res actual status db = record db {
  runs =
      update_where (λ r. text_eq r.run_id res.run_id)
        (λ r. record r {
          run_reserved = r.run_reserved - res.amount;
          run_spent = r.run_spent + actual;
        })
        db.runs;
  executions =
      update_execution (truthy res.execution_id)
        (λ e. record e {
          reserved_tokens = e.reserved_tokens - res.amount;
          spent_tokens = e.spent_tokens + actual;
        })
        db.executions;
  global_budget =
      update_global
        (λ g. record g {
          total_reserved = g.total_reserved - res.amount;
          total_spent = g.total_spent + actual;
        })
        db.global_budget;
  reservations =
      update_where (λ r. text_eq r.call_id res.call_id) (λ r. record r { status = status })
        db.reservations;
}

-- `Number.isSafeInteger(n) && n >= 0`
unfoldable pub safe_nat : Number → Option ℕ
safe_nat (integer (pos n)) = if ltb n (2 ^ 53) then some n else none
safe_nat (integer (negsuc n)) = none
safe_nat non_integer = none

-- `energy = MAX(0, energy - ?)`, and the pixel stops when nothing is left.
unfoldable pub spend_energy : Text → ℕ → Db → Db
spend_energy id actual db = record db {
  pixel_accounts =
      update_where (λ p. text_eq p.pixel_id id)
        (λ p. record p {
          energy = p.energy - actual;
          active = if leb p.energy actual then false else p.active;
        })
        db.pixel_accounts;
}

module _ (policy : BudgetPolicy) where
  -- Step 1 of `settle`
  unfoldable pub charge : ReservationRow → ℕ → Text → Db → Result BudgetError Db
  unfolding spend_energy
  charge res actual call_id db = if policy.company_run res.run_id then ok db else do
    refilled ← policy.ensure_energy res.pixel_id actual (codes "settle:" ++ call_id) db
    ok (spend_energy res.pixel_id actual refilled)

  unfoldable pub settle_open : ReservationRow → ℕ → Text → Db → Result BudgetError Db
  unfolding charge release
  settle_open res actual call_id db = do
    charged ← charge res actual call_id db
    ok (release res actual settled charged)

  -- `actual` is null where the usage is unknown: the reservation stays.
  unfoldable pub settle : Text → Option Number → Db → Result BudgetError Db
  unfolding settle_open safe_nat
  settle call_id none db = ok db
  settle call_id (some actual) db = elim (safe_nat actual) [
    | none ↦ err invalid_actual_tokens
    | some tokens ↦ elim (find_open call_id db) [
      | none ↦ ok db
      | some res ↦ settle_open res tokens call_id db
    ]
  ]

-- A refund spends nothing.
unfoldable pub refund : Text → Db → Db
unfolding release
refund call_id db = elim (find_open call_id db) [ none ↦ db | some res ↦ release res 0 refunded db ]
