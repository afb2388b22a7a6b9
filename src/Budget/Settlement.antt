-- ===== src/Budget/Settlement.antt =====
-- Closing a reservation: `settle` and `refund` after each other and after `reserve`.
use emergent_inc.Common.{
  ℕ, ◌+◌, ◌-◌, ◌≡◌, refl, ap, ◌∙◌, Bool, true, false, ◌&&◌, Option, none, some, List, [], ◌∷◌, ◌++◌,
  Text, text_eq, text_eq_refl, Bool-cases, Option-cases, inl, inr, arith, text_eq_iff, ok,
  >>=-eq-ok, ok-injective, subst,
}
use emergent_inc.Domain.Validation.{Number}
use emergent_inc.Store.{
  Db, ExecutionRow, GlobalRow, ReservationRow, ReservationStatus, refunded, settled,
}
use emergent_inc.Store.Table.{select_first, exists_where, update_where, select_first-meets}
use emergent_inc.Store.Keys.{truthy}
use emergent_inc.Budget.Types.{ReserveParams, BudgetPolicy}
use emergent_inc.Budget.Operations.{
  is_open, find_open, update_execution, update_global, reservation_of, recorded, release, settle,
  settle_open, charge, refund, safe_nat,
}
use emergent_inc.Budget.OpenSum.{first_open, set_status}

-- Two updates of the same rows of which the second undoes the first.
update_where-cancel {ℓ} :
    {A : Type ℓ} (p : A → Bool) (f g : A → A) (xs : List A)
    → ((x : A) → p (f x) ≡ p x)
    → ((x : A) → g (f x) ≡ x)
    → update_where p g (update_where p f xs) ≡ xs
unfolding update_where
update_where-cancel p f g [] same back = refl
update_where-cancel p f g (x ∷ xs) same back = elim (Bool-cases (p x)) [
  | inl hit ↦ rw (hit, same x ∙ hit, back x, update_where-cancel p f g xs same back)
  | inr miss ↦ rw (miss, miss, update_where-cancel p f g xs same back)
]

update_global-cancel :
    (f g : GlobalRow → GlobalRow) (o : Option GlobalRow)
    → ((row : GlobalRow) → g (f row) ≡ row)
    → update_global g (update_global f o) ≡ o
update_global-cancel f g none back = refl
update_global-cancel f g (some row) back = ap some (back row)

update_execution-cancel :
    (id : Option Text) (f g : ExecutionRow → ExecutionRow) (rows : List ExecutionRow)
    → ((e : ExecutionRow) → (f e).execution_id ≡ e.execution_id)
    → ((e : ExecutionRow) → g (f e) ≡ e)
    → update_execution id g (update_execution id f rows) ≡ rows
update_execution-cancel none f g rows same back = refl
update_execution-cancel (some id) f g rows same back =
    update_where-cancel (λ e. text_eq e.execution_id id) f g rows
      (λ e. ap (λ k. text_eq k id) (same e)) back

first_open-append :
    (id : Text) (xs : List ReservationRow) (row : ReservationRow)
    → exists_where (λ r. text_eq r.call_id id) xs ≡ false
    → text_eq row.call_id id && is_open row.status ≡ true
    → first_open id (xs ++ row ∷ []) ≡ some row
unfolding exists_where select_first
first_open-append id [] row h o = rw o
first_open-append id (x ∷ xs) row h o = ground (arith, first_open-append id xs row)

set_status-append :
    (id : Text) (s : ReservationStatus) (xs : List ReservationRow) (row : ReservationRow)
    → exists_where (λ r. text_eq r.call_id id) xs ≡ false
    → text_eq row.call_id id ≡ true
    → set_status id s (xs ++ row ∷ []) ≡ xs ++ record row { status = s } ∷ []
unfolding exists_where update_where
set_status-append id s [] row h o = rw o
set_status-append id s (x ∷ xs) row h o = elim (Bool-cases (text_eq x.call_id id)) [
  | inl same ↦ absurd (ground arith)
  | inr other ↦ rw (other, set_status-append id s xs row (rw other at h) o)
]

-- What a refund of a fresh reservation leaves: all balances as before, and a closed row.
pub record IsUndone (p : ReserveParams) (a b : Db) : Type 0 where
  pub runs : b.runs ≡ a.runs
  pub executions : b.executions ≡ a.executions
  pub global_budget : b.global_budget ≡ a.global_budget
  pub pixel_accounts : b.pixel_accounts ≡ a.pixel_accounts
  pub messages : b.messages ≡ a.messages
  pub reservations :
      b.reservations ≡ a.reservations ++ record (reservation_of p) { status = refunded } ∷ []

release-recorded :
    (p : ReserveParams) (a : Db)
    → exists_where (λ r. text_eq r.call_id p.call_id) a.reservations ≡ false
    → IsUndone p a (release (reservation_of p) 0 refunded (recorded p a))
unfolding release recorded
release-recorded p a fresh =
    let n = p.estimated_tokens in
    record {
      runs =
          update_where-cancel (λ r. text_eq r.run_id p.run_id)
            (λ r. record r { run_reserved = r.run_reserved + n })
            (λ r. record r { run_reserved = r.run_reserved - n; run_spent = r.run_spent + 0 })
            a.runs (λ r. refl) (λ r. ground arith);
      executions =
          update_execution-cancel (truthy p.execution_id)
            (λ e. record e { reserved_tokens = e.reserved_tokens + n })
            (λ e. record e {
              reserved_tokens = e.reserved_tokens - n;
              spent_tokens = e.spent_tokens + 0;
            })
            a.executions (λ e. refl) (λ e. ground arith);
      global_budget =
          update_global-cancel (λ g. record g { total_reserved = g.total_reserved + n })
            (λ g. record g {
              total_reserved = g.total_reserved - n;
              total_spent = g.total_spent + 0;
            })
            a.global_budget (λ g. ground arith);
      pixel_accounts = refl;
      messages = refl;
      reservations =
          set_status-append p.call_id refunded a.reservations (reservation_of p) fresh
            (text_eq_refl p.call_id);
    }

-- A refund takes a reservation back: for a call that had none, recording one and refunding it
-- leaves every run, execution, pixel account and the global budget as they were, and one refunded
-- row behind.
pub refund-recorded :
    (p : ReserveParams) (a : Db)
    → exists_where (λ r. text_eq r.call_id p.call_id) a.reservations ≡ false
    → IsUndone p a (refund p.call_id (recorded p a))
unfolding refund
refund-recorded p a fresh = rw (found, refund) (release-recorded p a fresh)
  where
    found : find_open p.call_id (recorded p a) ≡ some (reservation_of p)
    found =
        unfold recorded in
        first_open-append p.call_id a.reservations (reservation_of p) fresh
          (rw (text_eq_refl p.call_id))

-- Closed rows are not found as open ones.
first_open-set_status :
    (id k : Text) (s : ReservationStatus) (xs : List ReservationRow)
    → is_open s ≡ false
    → text_eq k id ≡ true
    → first_open id (set_status k s xs) ≡ none
unfolding select_first update_where
first_open-set_status id k s [] closed same = refl
first_open-set_status id k s (x ∷ xs) closed same =
    ground (arith, first_open-set_status id k s xs closed same, text_eq_iff k id)

pub find_open-release :
    (id : Text) (res : ReservationRow) (n : ℕ) (s : ReservationStatus) (db : Db)
    → is_open s ≡ false
    → text_eq res.call_id id ≡ true
    → find_open id (release res n s db) ≡ none
unfolding release
find_open-release id res n s db closed same =
    first_open-set_status id res.call_id s db.reservations closed same

pub find_open-call_id :
    (id : Text) (db : Db) (res : ReservationRow)
    → find_open id db ≡ some res
    → text_eq res.call_id id ≡ true
find_open-call_id id db res h =
    let meets =
      select_first-meets (λ r. text_eq r.call_id id && is_open r.status) db.reservations res h in
    ground arith

settle_open-closes :
    (policy : BudgetPolicy) (id : Text) (res : ReservationRow) (n : ℕ) (db db' : Db)
    → text_eq res.call_id id ≡ true
    → settle_open policy res n id db ≡ ok db'
    → find_open id db' ≡ none
unfolding settle_open
settle_open-closes policy id res n db db' same h =
    let (charged, _, e) =
      >>=-eq-ok (charge policy res n id db) (λ charged. ok (release res n settled charged)) h in
    subst (λ d. find_open id d ≡ none) (ok-injective (release res n settled charged) db' e)
      (find_open-release id res n settled charged refl same)

pub settle-closes :
    (policy : BudgetPolicy) (id : Text) (actual : Number) (db db' : Db)
    → settle policy id (some actual) db ≡ ok db'
    → find_open id db' ≡ none
unfolding settle
settle-closes policy id actual db db' h = elim (Option-cases (safe_nat actual)) [
  | inl unsafe ↦ absurd (ground (arith, rw (unsafe, settle) at h))
  | inr (n, safe) ↦ elim (Option-cases (find_open id db)) [
    | inl absent ↦
        subst (λ d. find_open id d ≡ none) (ok-injective db db' (rw (safe, absent, settle) at h))
          absent
    | inr (res, found) ↦
        settle_open-closes policy id res n db db' (find_open-call_id id db res found)
          (rw (safe, found, settle) at h)
  ]
]

-- A reservation is closed once: after a settlement that succeeds, a refund of the same call and
-- a second settlement of it, with any amount that the code accepts, change nothing.
pub settle-once :
    (policy : BudgetPolicy) (id : Text) (actual again : Number) (n : ℕ) (db db' : Db)
    → settle policy id (some actual) db ≡ ok db'
    → safe_nat again ≡ some n
    → (refund id db' ≡ db') × (settle policy id (some again) db' ≡ ok db')
unfolding refund settle
settle-once policy id actual again n db db' h safe =
    let closed = settle-closes policy id actual db db' h in
    (rw (closed, refund), rw (safe, closed, settle))
