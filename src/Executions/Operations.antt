-- ===== src/Executions/Operations.antt =====
-- The operations of the execution repository on executions, runs and participants.
use emergent_inc.Common.{
  ℕ, suc, ◌+◌, ◌-◌, ◌^◌, Bool, true, not, ◌&&◌, ◌||◌, Option, none, some, Text, text_eq, ltb, leb,
  ◌==◌, Result, ok, err, ◌>>=◌, if◌then◌else◌,
}
use emergent_inc.Common.Int.{ℤ, pos, negsuc}
use emergent_inc.Domain.Lifecycle.{ExecutionStatus, running, closed, execution_status_eq}
use emergent_inc.Domain.Validation.{Number, integer, non_integer}
use emergent_inc.Store.{Db, RunRow, ExecutionRow}
use emergent_inc.Store.Table.{select_first, exists_where, update_where, count_where}
use emergent_inc.Store.Keys.{is_id}
use emergent_inc.Budget.Operations.{safe_nat}
use emergent_inc.Messages.Claim.{is_active_career}

pub data ExecutionError : Type 0 where
  run_scope_mismatch execution_not_found round_already_counted round_limit_reached : ExecutionError
  status_conflict reservation_invalid budget_exceeded settlement_invalid : ExecutionError
  not_found_or_reservation_invalid not_settled type_error : ExecutionError
  -- a field of a new execution is invalid, or a key or a reference of a new row is
  fields_invalid constraint_failed evidence_invalid : ExecutionError

abbrev pub find_execution : Text → Db → Option ExecutionRow
find_execution id db = select_first (λ e. text_eq e.execution_id id) db.executions

-- `UPDATE executions SET … WHERE …`, and the error if it changed another number of rows than one.
unfoldable pub update_one :
    (ExecutionRow → Bool)
    → (ExecutionRow → ExecutionRow)
    → ExecutionError
    → Db
    → Result ExecutionError Db
update_one test f e db =
    if count_where test db.executions == 1
    then ok (record db { executions = update_where test f db.executions })
    else err e

-- `execution_id=? AND status='running' AND rounds_used<rounds_limit`
abbrev pub may_start_round : Text → ExecutionRow → Bool
may_start_round id e =
    text_eq e.execution_id id
    && execution_status_eq e.status running
    && ltb e.rounds_used e.rounds_limit

abbrev pub count_round : ExecutionRow → ExecutionRow
count_round e = record e { rounds_used = e.rounds_used + 1 }

-- `Number(execution.rounds_used)`
unfoldable pub rounds_used_of : ExecutionError → Text → Db → Result ExecutionError (ℕ × Db)
rounds_used_of missing id db = elim (find_execution id db) [
  | none ↦ err missing
  | some e ↦ ok (e.rounds_used, db)
]

abbrev pub is_run_of : Text → Text → RunRow → Bool
is_run_of run_id id r = text_eq r.run_id run_id && is_id r.execution_id id

-- The round is counted, and the run remembers it.
unfoldable pub count_scope_round : Text → Text → ℕ → Db → Result ExecutionError (ℕ × Db)
unfolding update_one rounds_used_of
count_scope_round id run_id round db = do
  counted ← update_one (may_start_round id) count_round round_limit_reached db
  rounds_used_of type_error id (record counted {
    runs =
        update_where (is_run_of run_id id) (λ r. record r { last_scope_round = some round })
          counted.runs;
  })

unfoldable pub scope_round_after : Option ℕ → Text → Text → ℕ → Db → Result ExecutionError (ℕ × Db)
unfolding count_scope_round
scope_round_after none id run_id round db = count_scope_round id run_id round db
scope_round_after (some last) id run_id round db =
    if last == round
    then rounds_used_of execution_not_found id db
    else if ltb round last
    then err round_already_counted
    else count_scope_round id run_id round db

unfoldable pub begin_scope_round : Text → Text → ℕ → Db → Result ExecutionError (ℕ × Db)
unfolding scope_round_after
begin_scope_round id run_id round db = elim (select_first (λ r. text_eq r.run_id run_id) db.runs) [
  | none ↦ err run_scope_mismatch
  | some run ↦
      if not (is_id run.execution_id id)
      then err run_scope_mismatch
      else scope_round_after run.last_scope_round id run_id round db
]

unfoldable pub start_next_round : Text → Db → Result ExecutionError (ℕ × Db)
unfolding update_one rounds_used_of
start_next_round id db = do
  counted ← update_one (may_start_round id) count_round round_limit_reached db
  rounds_used_of type_error id counted

unfoldable pub transition : Text → ExecutionStatus → ExecutionStatus → Db → Result ExecutionError Db
unfolding update_one
transition id expected next db =
    update_one (λ e. text_eq e.execution_id id && execution_status_eq e.status expected)
      (λ e. record e { status = next }) status_conflict db

-- `Number.isSafeInteger(amount) && amount >= 1`
unfoldable pub safe_positive : Number → Option ℕ
unfolding safe_nat
safe_positive n = elim (safe_nat n) [ none ↦ none | some k ↦ if leb 1 k then some k else none ]

abbrev pub has_room : Text → ℕ → ExecutionRow → Bool
has_room id amount e =
    text_eq e.execution_id id
    && execution_status_eq e.status running
    && leb (e.spent_tokens + e.reserved_tokens + amount) e.budget_tokens

unfoldable pub reserve_tokens : Text → Number → Db → Result ExecutionError Db
unfolding update_one
reserve_tokens id amount db = elim (safe_positive amount) [
  | none ↦ err reservation_invalid
  | some n ↦
      update_one (has_room id n) (λ e. record e { reserved_tokens = e.reserved_tokens + n })
        budget_exceeded db
]

-- `Number.isSafeInteger(n)`
unfoldable pub safe_integer : Number → Option ℤ
safe_integer (integer (pos n)) = if ltb n (2 ^ 53) then some (pos n) else none
safe_integer (integer (negsuc n)) = if ltb (suc n) (2 ^ 53) then some (negsuc n) else none
safe_integer non_integer = none

-- `reserved_tokens + delta >= 0`
abbrev pub can_add : ℤ → ℕ → Bool
can_add (pos n) reserved = true
can_add (negsuc n) reserved = leb (suc n) reserved

-- `reserved_tokens + delta`, where it is not negative.
abbrev pub add_delta : ℤ → ℕ → ℕ
add_delta (pos n) reserved = reserved + n
add_delta (negsuc n) reserved = reserved - suc n

unfoldable pub settle_tokens : Text → Number → Number → Db → Result ExecutionError Db
unfolding update_one
settle_tokens id reserved_delta spent_delta db = elim (safe_integer reserved_delta) [
  | none ↦ err settlement_invalid
  | some delta ↦ elim (safe_nat spent_delta) [
    | none ↦ err settlement_invalid
    | some spent ↦
        update_one (λ e. text_eq e.execution_id id && can_add delta e.reserved_tokens)
          (λ e. record e {
            reserved_tokens = add_delta delta e.reserved_tokens;
            spent_tokens = e.spent_tokens + spent;
          })
          not_found_or_reservation_invalid db
  ]
]

unfoldable pub released_participants : Text → Db → Db
released_participants id db = record db {
  execution_participants =
      update_where (λ ep. text_eq ep.execution_id id && not ep.released)
        (λ ep. record ep { released = true }) db.execution_participants;
}

-- `execution.status !== "closed" || execution.reserved_tokens !== 0`
abbrev pub is_unsettled : ExecutionRow → Bool
is_unsettled e = not (execution_status_eq e.status closed) || not (e.reserved_tokens == 0)

unfoldable pub release_participants : Text → Db → Result ExecutionError Db
unfolding released_participants
release_participants id db = elim (find_execution id db) [
  | none ↦ err execution_not_found
  | some e ↦ if is_unsettled e then err not_settled else ok (released_participants id db)
]

unfoldable pub is_participant : Text → Text → Db → Bool
is_participant id binding_id db =
    exists_where
      (λ ep. text_eq ep.execution_id id && text_eq ep.binding_id binding_id && not ep.released)
      db.execution_participants

unfoldable pub is_world_pixel_eligible : Text → Db → Bool
is_world_pixel_eligible pixel_id db =
    (not (exists_where (λ b. text_eq b.pixel_id pixel_id) db.qianji_bindings)
      || exists_where
          (λ b.
            exists_where
              (λ q.
                text_eq q.qianji_id b.qianji_id
                && text_eq b.pixel_id pixel_id
                && not b.unbound
                && is_active_career q.career_status)
              db.qianji_profiles)
          db.qianji_bindings)
    && not (
        exists_where
          (λ ep.
            exists_where
              (λ e.
                text_eq e.execution_id ep.execution_id
                && exists_where
                    (λ b.
                      text_eq b.binding_id ep.binding_id
                      && text_eq b.pixel_id pixel_id
                      && not ep.released
                      && not (execution_status_eq e.status closed))
                    db.qianji_bindings)
              db.executions)
          db.execution_participants)
