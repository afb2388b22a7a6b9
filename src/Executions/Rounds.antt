-- ===== src/Executions/Rounds.antt =====
-- `beginScopeRound`, called more than once.
use emergent_inc.Common.{
  ℕ, ◌≢◌, ◌⊎◌, ==_iff, ◌≡◌, refl, sym, ◌∙◌, ap, subst, Bool, true, Option, none, some, Text,
  text_eq, ltb, ◌==◌, ok, arith, Bool-cases, Option-cases, inl, inr, ok-injective, >>=-eq-ok,
  some-injective,
}
use emergent_inc.Store.{Db, RunRow, ExecutionRow}
use emergent_inc.Store.Table.{select_first, update_where, count_where, select_first-meets}
use emergent_inc.Store.Unique.{HasUniqueKeys}
use emergent_inc.Store.Keys.{is_id}
use emergent_inc.Executions.Counting.{
  select_first-update_where, reply, IsCounted, count_scope_round-IsCounted,
}
use emergent_inc.Executions.Operations.{
  ExecutionError, find_execution, update_one, may_start_round, count_round, rounds_used_of,
  is_run_of, count_scope_round, scope_round_after, begin_scope_round, round_limit_reached,
  type_error, execution_not_found,
}

-- The run remembers the round, and reading the count again gives the same number.
abbrev Remembers : Text → Text → ℕ → ℕ → Db → Type 0
Remembers id run_id round n db =
    (run : RunRow) × (select_first (λ r. text_eq r.run_id run_id) db.runs ≡ some run)
    × (is_id run.execution_id id ≡ true)
    × (run.last_scope_round ≡ some round)
    × (rounds_used_of execution_not_found id db ≡ ok (n, db))

Remembers-again :
    (id run_id : Text) (round n : ℕ) (db : Db)
    → Remembers id run_id round n db
    → begin_scope_round id run_id round db ≡ ok (n, db)
unfolding begin_scope_round scope_round_after
Remembers-again id run_id round n db (run, found, own, last, used) =
    rw (begin_scope_round, found, own, last) (rw (itself round, used))
  where
    itself : (k : ℕ) → (k == k) ≡ true
    itself k = ground arith

rounds_used_of-same :
    (missing other : ExecutionError) (id : Text) (db db' : Db) (n : ℕ)
    → rounds_used_of missing id db ≡ ok (n, db')
    → (db ≡ db') × (rounds_used_of other id db ≡ ok (n, db))
unfolding rounds_used_of
rounds_used_of-same missing other id db db' n h = elim (Option-cases (find_execution id db)) [
  | inl absent ↦ absurd (ground (arith, rw (absent, rounds_used_of) at h))
  | inr (e, found) ↦
      let same =
        ok-injective (reply e.rounds_used db) (reply n db') (rw (found, rounds_used_of) at h) in
      (ap (λ (r : ℕ × Db). r.1) same, rw (rounds_used_of, found, ap (λ (r : ℕ × Db). r.0) same))
]

update_one-runs :
    (test : ExecutionRow → Bool) (f : ExecutionRow → ExecutionRow) (e : ExecutionError)
    (db db' : Db)
    → update_one test f e db ≡ ok db'
    → db'.runs ≡ db.runs
unfolding update_one
update_one-runs test f e db db' h = elim (Bool-cases (count_where test db.executions == 1)) [
  | inl one ↦
      ap (λ d. d.runs)
        (sym (
          ok-injective (record db { executions = update_where test f db.executions }) db'
            (rw (one, update_one) at h)))
  | inr other ↦ absurd (ground (arith, rw (other, update_one) at h))
]

count_scope_round-Remembers :
    (id run_id : Text) (round n : ℕ) (db db' : Db) (run : RunRow)
    → select_first (λ r. text_eq r.run_id run_id) db.runs ≡ some run
    → is_id run.execution_id id ≡ true
    → count_scope_round id run_id round db ≡ ok (n, db')
    → Remembers id run_id round n db'
unfolding count_scope_round
count_scope_round-Remembers id run_id round n db db' run found own h =
    let (counted, step, rest) =
      >>=-eq-ok (update_one (may_start_round id) count_round round_limit_reached db)
        (λ counted. rounds_used_of type_error id (remembered counted)) h in
    let (same, used) =
      rounds_used_of-same type_error execution_not_found id (remembered counted) db' n rest in
    let runs =
      update_one-runs (may_start_round id) count_round round_limit_reached db counted step in
    let there =
      select_first-update_where (λ r. text_eq r.run_id run_id) (is_run_of run_id id)
        (λ r. record r { last_scope_round = some round }) counted.runs run (λ r. refl)
        (ap (select_first (λ r. text_eq r.run_id run_id)) runs ∙ found)
        (let meets = select_first-meets (λ r. text_eq r.run_id run_id) db.runs run found in
          ground arith) in
    subst (Remembers id run_id round n) same
      (record run { last_scope_round = some round }, there, own, refl, used)
  where
    remembered : Db → Db
    remembered counted = record counted {
      runs =
          update_where (is_run_of run_id id) (λ r. record r { last_scope_round = some round })
            counted.runs;
    }

scope_round_after-Remembers :
    (id run_id : Text) (round n : ℕ) (db db' : Db) (run : RunRow)
    → select_first (λ r. text_eq r.run_id run_id) db.runs ≡ some run
    → is_id run.execution_id id ≡ true
    → (last : Option ℕ) → run.last_scope_round ≡ last
    → scope_round_after last id run_id round db ≡ ok (n, db')
    → Remembers id run_id round n db'
unfolding scope_round_after
scope_round_after-Remembers id run_id round n db db' run found own none e h =
    count_scope_round-Remembers id run_id round n db db' run found own h
scope_round_after-Remembers id run_id round n db db' run found own (some last) e h =
    elim (Bool-cases (last == round)) [
      | inl same ↦
          let (still, used) =
            rounds_used_of-same execution_not_found execution_not_found id db db' n
              (rw (same, scope_round_after) at h) in
          let now : last ≡ round = ground arith in
          subst (Remembers id run_id round n) still (run, found, own, e ∙ ap some now, used)
      | inr other ↦ elim (Bool-cases (ltb round last)) [
        | inl past ↦ absurd (ground (arith, rw (other, past, scope_round_after) at h))
        | inr future ↦
            count_scope_round-Remembers id run_id round n db db' run found own
              (rw (other, future, scope_round_after) at h)
      ]
    ]

-- The first call for a round, of a run that remembers the last one that it counted.
abbrev pub IsBegun : Text → Text → ℕ → ℕ → Db → Db → Type 0
IsBegun id run_id round n db db' =
    (run : RunRow) × (select_first (λ r. text_eq r.run_id run_id) db.runs ≡ some run)
    × (((run.last_scope_round ≡ some round) × (db' ≡ db))
        ⊎ ((run.last_scope_round ≢ some round) × IsCounted id n db db'))

scope_round_after-IsBegun :
    (id run_id : Text) (round n : ℕ) (db db' : Db)
    → HasUniqueKeys (λ e. e.execution_id) db.executions
    → (last : Option ℕ) → scope_round_after last id run_id round db ≡ ok (n, db')
    → ((last ≡ some round) × (db' ≡ db)) ⊎ ((last ≢ some round) × IsCounted id n db db')
unfolding scope_round_after
scope_round_after-IsBegun id run_id round n db db' unique none h =
    inr (λ e. ground (arith, e), count_scope_round-IsCounted id run_id round n db db' unique h)
scope_round_after-IsBegun id run_id round n db db' unique (some last) h =
    elim (Bool-cases (last == round)) [
      | inl same ↦
          let (still, used) =
            rounds_used_of-same execution_not_found execution_not_found id db db' n
              (rw (same, scope_round_after) at h) in
          inl (ap some ((==_iff last round).0 same), sym still)
      | inr other ↦ elim (Bool-cases (ltb round last)) [
        | inl past ↦ absurd (ground (arith, rw (other, past, scope_round_after) at h))
        | inr future ↦ inr (
          λ e. ground (arith, other, some-injective last round e),
          count_scope_round-IsCounted id run_id round n db db' unique
              (rw (other, future, scope_round_after) at h),
        )
      ]
    ]

-- A started round is counted exactly once for a run: when `beginScopeRound` has succeeded for a
-- round, then either the run's last counted round was that one, and nothing has changed, or it was
-- not, and the rounds of the execution, of which there is one row for an id, have grown by one,
-- within their limit, and the number returned is theirs; and calling it again with the same round
-- gives the same number and changes nothing.
pub begin_scope_round-once :
    (id run_id : Text) (round n : ℕ) (db db' : Db)
    → HasUniqueKeys (λ e. e.execution_id) db.executions
    → begin_scope_round id run_id round db ≡ ok (n, db')
    → IsBegun id run_id round n db db' × (begin_scope_round id run_id round db' ≡ ok (n, db'))
unfolding begin_scope_round
begin_scope_round-once id run_id round n db db' unique h =
    elim (Option-cases (select_first (λ r. text_eq r.run_id run_id) db.runs)) [
      | inl absent ↦ absurd (ground (arith, rw (absent, begin_scope_round) at h))
      | inr (run, found) ↦ elim (Bool-cases (is_id run.execution_id id)) [
        | inl own ↦
            let after = rw (found, own, begin_scope_round) at h in
            (
              (
                run,
                found,
                scope_round_after-IsBegun id run_id round n db db' unique run.last_scope_round
                    after,
              ),
              Remembers-again id run_id round n db' (
                  scope_round_after-Remembers id run_id round n db db' run found own
                    run.last_scope_round refl after),
            )
        | inr foreign ↦ absurd (ground (arith, rw (found, foreign, begin_scope_round) at h))
      ]
    ]
