-- ===== src/Executions/Counting.antt =====
-- How `beginScopeRound` counts a round of an execution.
use emergent_inc.Common.{
  ℕ, suc, ◌+◌, ◌<◌, ==_iff, text_eq_iff, false, ◌≡◌, refl, sym, ◌∙◌, ap, subst, Bool, true, some,
  List, [], ◌∷◌, Text, text_eq, ◌==◌, ok, arith, Bool-cases, Option-cases, inl, inr, ok-injective,
  >>=-eq-ok, some-injective,
}
use emergent_inc.Store.{Db, ExecutionRow}
use emergent_inc.Store.Table.{select_first, update_where, count_where, exists_where}
use emergent_inc.Store.Unique.{HasUniqueKeys, select_first-none}
use emergent_inc.Executions.Operations.{
  ExecutionError, find_execution, update_one, may_start_round, count_round, rounds_used_of,
  is_run_of, count_scope_round, round_limit_reached, type_error,
}

-- Selecting a row after an update that keeps the condition, where the row found is updated.
pub select_first-update_where {ℓ} :
    {A : Type ℓ} (p test : A → Bool) (f : A → A) (xs : List A) (x : A)
    → ((y : A) → p (f y) ≡ p y)
    → select_first p xs ≡ some x
    → test x ≡ true
    → select_first p (update_where test f xs) ≡ some (f x)
unfolding select_first update_where
select_first-update_where p test f [] x same h hit = absurd (ground arith)
select_first-update_where p test f (y ∷ ys) x same h hit = elim (Bool-cases (p y)) [
  | inl found ↦
      let y_is_x = some-injective y x (rw found at h) in
      rw (ap test y_is_x ∙ hit, same y, found, y_is_x)
  | inr miss ↦
      let rest = select_first-update_where p test f ys x same (rw miss at h) hit in
      elim (Bool-cases (test y)) [
        | inl changed ↦ rw (changed, same y, miss, rest)
        | inr kept ↦ rw (kept, miss, rest)
      ]
]

abbrev pub reply : ℕ → Db → ℕ × Db
reply n db = (n, db)

none_counted :
    (id : Text) (xs : List ExecutionRow)
    → exists_where (λ y. text_eq y.execution_id id) xs ≡ false
    → count_where (may_start_round id) xs ≡ 0
unfolding exists_where count_where
none_counted id [] h = refl
none_counted id (x ∷ xs) h = elim (Bool-cases (text_eq x.execution_id id)) [
  | inl hit ↦ absurd (ground (arith, rw (hit, exists_where) at h))
  | inr miss ↦
      let rest = none_counted id xs (rw (miss, exists_where) at h) in ground (arith, miss, rest)
]

-- Where one row meets a condition, and it names a row by its key, that row meets it.
only_one :
    (id : Text) (xs : List ExecutionRow) (e : ExecutionRow) (n : ℕ)
    → HasUniqueKeys (λ x. x.execution_id) xs
    → select_first (λ x. text_eq x.execution_id id) xs ≡ some e
    → count_where (may_start_round id) xs ≡ suc n
    → may_start_round id e ≡ true
unfolding select_first count_where
only_one id [] e n unique h one = absurd (ground (arith, h))
only_one id (x ∷ xs) e n unique h one = elim (Bool-cases (text_eq x.execution_id id)) [
  | inl hit ↦
      let found = some-injective x e (rw (hit, select_first) at h) in
      let rest = none_counted id xs (
        subst (λ k. exists_where (λ y. text_eq y.execution_id k) xs ≡ false)
          ((text_eq_iff x.execution_id id).0 hit) unique.0) in
      subst (λ z. may_start_round id z ≡ true) found (ground (arith, one, rest))
  | inr miss ↦
      only_one id xs e n unique.1 (rw (miss, select_first) at h) (ground (arith, one, miss))
]

-- A round that is counted: the execution's rounds grow by one, and the number is theirs.
abbrev pub IsCounted : Text → ℕ → Db → Db → Type 0
IsCounted id n db db' =
    (e : ExecutionRow) × (find_execution id db ≡ some e)
    × (find_execution id db' ≡ some (record e { rounds_used = e.rounds_used + 1 }))
    × (e.rounds_used < e.rounds_limit)
    × (n ≡ e.rounds_used + 1)

update_one-one :
    (test : ExecutionRow → Bool) (f : ExecutionRow → ExecutionRow) (e : ExecutionError)
    (db db' : Db)
    → update_one test f e db ≡ ok db'
    → (count_where test db.executions ≡ 1) × (db'.executions ≡ update_where test f db.executions)
unfolding update_one
update_one-one test f e db db' h = elim (Bool-cases (count_where test db.executions == 1)) [
  | inl one ↦ (
    (==_iff _ 1).0 one,
    ap (λ d. d.executions)
        (sym (
          ok-injective (record db { executions = update_where test f db.executions }) db'
            (rw (one, update_one) at h))),
  )
  | inr other ↦ absurd (ground (arith, rw (other, update_one) at h))
]

pub count_scope_round-IsCounted :
    (id run_id : Text) (round n : ℕ) (db db' : Db)
    → HasUniqueKeys (λ e. e.execution_id) db.executions
    → count_scope_round id run_id round db ≡ ok (n, db')
    → IsCounted id n db db'
unfolding count_scope_round rounds_used_of
count_scope_round-IsCounted id run_id round n db db' unique h =
    let (counted, step, rest) =
      >>=-eq-ok (update_one (may_start_round id) count_round round_limit_reached db)
        (λ counted. rounds_used_of type_error id (remembered counted)) h in
    let (one, rows) =
      update_one-one (may_start_round id) count_round round_limit_reached db counted step in
    elim (Option-cases (find_execution id db)) [
      | inr (e, found) ↦
          let may = only_one id db.executions e 0 unique found one in
          let there =
            ap (select_first (λ x. text_eq x.execution_id id)) rows
            ∙ select_first-update_where (λ x. text_eq x.execution_id id) (may_start_round id)
                count_round db.executions e (λ y. refl) found may in
          let same =
            ok-injective (reply (e.rounds_used + 1) (remembered counted)) (reply n db')
              (rw (there, rounds_used_of) at rest) in
          subst (λ (r : ℕ × Db). IsCounted id r.0 db r.1) same
            (e, found, there, ground (arith, may), refl)
      | inl absent ↦
          let zero_of = none_counted id db.executions (
            select_first-none (λ e. e.execution_id) (λ e. text_eq e.execution_id id) db.executions
              absent) in
          absurd (omega (arith, one, zero_of))
    ]
  where
    remembered : Db → Db
    remembered counted = record counted {
      runs =
          update_where (is_run_of run_id id) (λ r. record r { last_scope_round = some round })
            counted.runs;
    }
