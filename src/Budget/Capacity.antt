-- ===== src/Budget/Capacity.antt =====
-- `getAvailableTokenCapacity` of the budget repository.
pub mod Laws
use emergent_inc.Common.{
  ℕ, ◌+◌, ◌-◌, ◌^◌, Bool, true, false, not, ◌&&◌, Option, none, some, List, [], ◌∷◌, ◌++◌, ltb,
  Result, ok, err, ◌>>=◌, ◌>>◌, throw_if, if◌then◌else◌,
}
use emergent_inc.Store.{Db, RunRow, ExecutionRow}
use emergent_inc.Store.Keys.{optional_text_eq, truthy}
use emergent_inc.Budget.Types.{
  LimitKind, pixel_limit, run_limit_kind, execution_limit, BudgetError, pixel_not_found,
  spend_blocked, run_scope_conflict, execution_run_not_found, execution_not_running,
  trial_scope_not_found, ReserveParams, BudgetPolicy,
}
use emergent_inc.Budget.Operations.{
  is_trial, find_pixel, find_run, find_running, find_trial, trial_used,
}

pub record TokenCapacity : Type 0 where
  pub available_tokens : ℕ
  pub limiting_kind : LimitKind

abbrev pub max_safe_integer : ℕ
max_safe_integer = 2 ^ 53 - 1

-- `item.availableTokens < lowest.availableTokens ? item : lowest`
unfoldable pub lowest : TokenCapacity → List TokenCapacity → TokenCapacity
lowest c [] = c
lowest c (item ∷ items) =
    lowest (if ltb item.available_tokens c.available_tokens then item else c) items

abbrev pub capacity : LimitKind → ℕ → TokenCapacity
capacity kind n = record { available_tokens = n; limiting_kind = kind }

module _ (policy : BudgetPolicy) where
  unfoldable pub run_capacities : ReserveParams → Db → Result BudgetError (List TokenCapacity)
  run_capacities p db = elim (find_run p.run_id db) [
    | some run ↦ do
      throw_if (not (optional_text_eq run.execution_id p.execution_id)) run_scope_conflict
      ok (
          if policy.company_run p.run_id
          then []
          else capacity run_limit_kind (run.run_limit - run.run_spent - run.run_reserved) ∷ [])
    | none ↦ elim (truthy p.execution_id) [ none ↦ ok [] | some id ↦ err execution_run_not_found ]
  ]

  unfoldable pub trial_capacities :
      ReserveParams → ExecutionRow → Db → Result BudgetError (List TokenCapacity)
  trial_capacities p execution db =
      if not (policy.company_run p.run_id) && is_trial execution.kind
      then elim (find_trial execution.subject_id db) [
        | none ↦ err trial_scope_not_found
        | some trial ↦ ok (
            capacity execution_limit
              (trial.total_budget_tokens - trial_used execution.subject_id db)
            ∷ [])
      ]
      else ok []

  unfoldable pub execution_capacities : ReserveParams → Db → Result BudgetError (List TokenCapacity)
  unfolding trial_capacities
  execution_capacities p db = elim (truthy p.execution_id) [
    | none ↦ ok []
    | some id ↦ elim (find_running id db) [
      | none ↦ err execution_not_running
      | some execution ↦ do
        shared ← trial_capacities p execution db
        ok (
            (if policy.company_run p.run_id
              then []
              else capacity execution_limit
                  (execution.budget_tokens - execution.spent_tokens - execution.reserved_tokens)
                ∷ [])
            ++ shared)
    ]
  ]

  -- Of the parameters only the run, the pixel and the execution are read.
  unfoldable pub get_available_token_capacity :
      ReserveParams → Db → Result BudgetError TokenCapacity
  get_available_token_capacity p db =
      let company = policy.company_run p.run_id in
      elim (find_pixel p.pixel_id db) [
        | none ↦ err pixel_not_found
        | some pixel ↦ do
          throw_if (not company && ltb 0 pixel.refund_deficit_tokens) spend_blocked
          of_run ← run_capacities p db
          of_execution ← execution_capacities p db
          ok (
              lowest (capacity pixel_limit (if company then max_safe_integer else pixel.energy))
                (of_run ++ of_execution))
      ]
