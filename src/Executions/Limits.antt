-- ===== src/Executions/Limits.antt =====
-- Budgets and round limits under the operations of the execution repository.
use emergent_inc.Common.{
  ℕ, suc, ◌+◌, ◌≤◌, ◌≡◌, subst, Bool, true, ◌&&◌, Option, none, some, Text, text_eq, ltb, ◌==◌, ok,
  All, arith, Bool-cases, Option-cases, inl, inr, ok-injective, >>=-eq-ok,
}
use emergent_inc.Common.Int.{negsuc}
use emergent_inc.Domain.Lifecycle.{ExecutionStatus, execution_status_eq}
use emergent_inc.Domain.Validation.{Number}
use emergent_inc.Store.{Db, ExecutionRow}
use emergent_inc.Store.Table.{select_first, update_where, count_where, All-update_where}
use emergent_inc.Store.Keys.{is_id}
use emergent_inc.Budget.Operations.{safe_nat}
use emergent_inc.Executions.Operations.{
  ExecutionError, find_execution, update_one, may_start_round, count_round, rounds_used_of,
  count_scope_round, scope_round_after, begin_scope_round, start_next_round, transition,
  safe_positive, has_room, reserve_tokens, safe_integer, can_add, add_delta, settle_tokens,
  release_participants, released_participants, is_unsettled, status_conflict, budget_exceeded,
  round_limit_reached, type_error, execution_not_found, not_found_or_reservation_invalid,
}

-- What an execution has spent and reserved is within its budget, and its rounds within their limit.
abbrev pub IsWithin : ExecutionRow → Type 0
IsWithin e =
    (e.spent_tokens + e.reserved_tokens ≤ e.budget_tokens) × (e.rounds_used ≤ e.rounds_limit)

abbrev pub AreWithin : Db → Type 0
AreWithin db = All IsWithin db.executions

update_one-AreWithin :
    (test : ExecutionRow → Bool) (f : ExecutionRow → ExecutionRow) (e : ExecutionError)
    (db db' : Db)
    → ((row : ExecutionRow) → IsWithin row → test row ≡ true → IsWithin (f row))
    → update_one test f e db ≡ ok db'
    → AreWithin db
    → AreWithin db'
unfolding update_one
update_one-AreWithin test f e db db' keeps h within =
    elim (Bool-cases (count_where test db.executions == 1)) [
      | inl one ↦
          subst AreWithin
            (ok-injective (record db { executions = update_where test f db.executions }) db'
              (rw (one, update_one) at h))
            (All-update_where test f db.executions keeps (λ row w _. w) within)
      | inr other ↦ absurd (ground (arith, rw (other, update_one) at h))
    ]

rounds_used_of-db :
    (missing : ExecutionError) (id : Text) (db db' : Db) (n : ℕ)
    → rounds_used_of missing id db ≡ ok (n, db')
    → AreWithin db
    → AreWithin db'
unfolding rounds_used_of
rounds_used_of-db missing id db db' n h within = elim (Option-cases (find_execution id db)) [
  | inl absent ↦ absurd (ground (arith, rw (absent, rounds_used_of) at h))
  | inr (e, found) ↦
      let same = ok-injective (e.rounds_used, db) (n, db') (rw (found, rounds_used_of) at h) in
      subst (λ (r : ℕ × Db). AreWithin r.1) same within
]

count_round-IsWithin :
    (id : Text) (row : ExecutionRow)
    → IsWithin row
    → may_start_round id row ≡ true
    → IsWithin (count_round row)
count_round-IsWithin id row h may = (h.0, ground arith)

count_scope_round-AreWithin :
    (id run_id : Text) (round n : ℕ) (db db' : Db)
    → count_scope_round id run_id round db ≡ ok (n, db')
    → AreWithin db
    → AreWithin db'
unfolding count_scope_round
count_scope_round-AreWithin id run_id round n db db' h within =
    let (counted, step, rest) =
      >>=-eq-ok (update_one (may_start_round id) count_round round_limit_reached db) _ h in
    rounds_used_of-db type_error id _ db' n rest (
      update_one-AreWithin (may_start_round id) count_round round_limit_reached db counted
        (count_round-IsWithin id) step within)

scope_round_after-AreWithin :
    (last : Option ℕ) (id run_id : Text) (round n : ℕ) (db db' : Db)
    → scope_round_after last id run_id round db ≡ ok (n, db')
    → AreWithin db
    → AreWithin db'
unfolding scope_round_after
scope_round_after-AreWithin none id run_id round n db db' h within =
    count_scope_round-AreWithin id run_id round n db db' h within
scope_round_after-AreWithin (some last) id run_id round n db db' h within =
    elim (Bool-cases (last == round)) [
      | inl same ↦
          rounds_used_of-db execution_not_found id db db' n (rw (same, scope_round_after) at h)
            within
      | inr other ↦ elim (Bool-cases (ltb round last)) [
        | inl past ↦ absurd (ground (arith, rw (other, past, scope_round_after) at h))
        | inr future ↦
            count_scope_round-AreWithin id run_id round n db db'
              (rw (other, future, scope_round_after) at h) within
      ]
    ]

pub begin_scope_round-AreWithin :
    (id run_id : Text) (round n : ℕ) (db db' : Db)
    → begin_scope_round id run_id round db ≡ ok (n, db')
    → AreWithin db
    → AreWithin db'
unfolding begin_scope_round
begin_scope_round-AreWithin id run_id round n db db' h within =
    elim (Option-cases (select_first (λ r. text_eq r.run_id run_id) db.runs)) [
      | inl absent ↦ absurd (ground (arith, rw (absent, begin_scope_round) at h))
      | inr (run, found) ↦ elim (Bool-cases (is_id run.execution_id id)) [
        | inl own ↦
            scope_round_after-AreWithin run.last_scope_round id run_id round n db db'
              (rw (found, own, begin_scope_round) at h) within
        | inr foreign ↦ absurd (ground (arith, rw (found, foreign, begin_scope_round) at h))
      ]
    ]

pub start_next_round-AreWithin :
    (id : Text) (n : ℕ) (db db' : Db)
    → start_next_round id db ≡ ok (n, db')
    → AreWithin db
    → AreWithin db'
unfolding start_next_round
start_next_round-AreWithin id n db db' h within =
    let (counted, step, rest) =
      >>=-eq-ok (update_one (may_start_round id) count_round round_limit_reached db) _ h in
    rounds_used_of-db type_error id counted db' n rest (
      update_one-AreWithin (may_start_round id) count_round round_limit_reached db counted
        (count_round-IsWithin id) step within)

pub transition-AreWithin :
    (id : Text) (expected next : ExecutionStatus) (db db' : Db)
    → transition id expected next db ≡ ok db'
    → AreWithin db
    → AreWithin db'
unfolding transition
transition-AreWithin id expected next db db' h within =
    update_one-AreWithin (λ e. text_eq e.execution_id id && execution_status_eq e.status expected)
      (λ e. record e { status = next }) status_conflict db db' (λ row w _. w) h within

pub reserve_tokens-AreWithin :
    (id : Text) (amount : Number) (db db' : Db)
    → reserve_tokens id amount db ≡ ok db'
    → AreWithin db
    → AreWithin db'
unfolding reserve_tokens
reserve_tokens-AreWithin id amount db db' h within = elim (Option-cases (safe_positive amount)) [
  | inl unsafe ↦ absurd (ground (arith, rw (unsafe, reserve_tokens) at h))
  | inr (n, safe) ↦
      update_one-AreWithin (has_room id n)
        (λ e. record e { reserved_tokens = e.reserved_tokens + n }) budget_exceeded db db'
        (λ row w may. (ground arith, w.1)) (rw (safe, reserve_tokens) at h) within
]

pub settle_tokens-AreWithin :
    (id : Text) (delta spent : Number) (released n : ℕ) (db db' : Db)
    → safe_integer delta ≡ some (negsuc released)
    → safe_nat spent ≡ some n
    → n ≤ suc released
    → settle_tokens id delta spent db ≡ ok db'
    → AreWithin db
    → AreWithin db'
unfolding settle_tokens
settle_tokens-AreWithin id delta spent released n db db' d s less h within =
    update_one-AreWithin
      (λ e. text_eq e.execution_id id && can_add (negsuc released) e.reserved_tokens)
      (λ e. record e {
        reserved_tokens = add_delta (negsuc released) e.reserved_tokens;
        spent_tokens = e.spent_tokens + n;
      })
      not_found_or_reservation_invalid db db' (λ row w may. (ground arith, w.1))
      (rw (d, s, settle_tokens) at h) within

pub release_participants-AreWithin :
    (id : Text) (db db' : Db) → release_participants id db ≡ ok db' → AreWithin db → AreWithin db'
unfolding release_participants released_participants
release_participants-AreWithin id db db' h within = elim (Option-cases (find_execution id db)) [
  | inl absent ↦ absurd (ground (arith, rw (absent, release_participants) at h))
  | inr (e, found) ↦ elim (Bool-cases (is_unsettled e)) [
    | inl unsettled ↦ absurd (ground (arith, rw (found, unsettled, release_participants) at h))
    | inr settled ↦
        subst AreWithin
          (ok-injective (released_participants id db) db'
            (rw (found, settled, release_participants) at h))
          within
  ]
]
