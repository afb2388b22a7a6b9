-- ===== src/Budget/Books.antt =====
-- Sequences of the budget repository's operations, and the tables that it keeps its totals in.
use emergent_inc.Common.{
  ℕ, ◌≡◌, refl, subst, Option, none, some, List, [], ◌∷◌, Text, Bool-cases, Option-cases,
  Result-cases, inl, inr, arith, Result, ok, err, >>=-eq-ok, ok-injective, codes, ◌++◌,
}
use emergent_inc.Domain.Validation.{Number}
use emergent_inc.Store.{Db, ReservationRow, settled, refunded}
use emergent_inc.Budget.Types.{BudgetError, ReserveParams, BudgetPolicy}
use emergent_inc.Budget.Operations.{
  find_open, check_identity, check_pixel, check_run, check_execution, release, reserve, settle_open,
  charge, settle, refund, safe_nat, spend_energy,
}
use emergent_inc.Budget.Accounting.{
  IsAccounted, record_reservation-IsAccounted, release-IsAccounted,
}

-- The tables that the budget is kept in are the same.
pub record SameBooks (a b : Db) : Type 0 where
  pub runs : b.runs ≡ a.runs
  pub executions : b.executions ≡ a.executions
  pub reservations : b.reservations ≡ a.reservations
  pub global_budget : b.global_budget ≡ a.global_budget

pub SameBooks-refl : (a : Db) → SameBooks a a
SameBooks-refl a = record {
  runs = refl;
  executions = refl;
  reservations = refl;
  global_budget = refl;
}

pub SameBooks-IsAccounted : (a b : Db) → SameBooks a b → IsAccounted a → IsAccounted b
SameBooks-IsAccounted a b same h = record {
  unique = rw same.reservations h.unique;
  by_run = rw (same.runs, same.reservations) h.by_run;
  by_execution = rw (same.executions, same.reservations) h.by_execution;
  global = rw (same.global_budget, same.reservations) h.global;
}

spend_energy-SameBooks :
    (id : Text) (actual : ℕ) (a b : Db) → SameBooks a b → SameBooks a (spend_energy id actual b)
unfolding spend_energy
spend_energy-SameBooks id actual a b same = record {
  runs = same.runs;
  executions = same.executions;
  reservations = same.reservations;
  global_budget = same.global_budget;
}

-- The callback that refills a pixel's energy touches no table of the budget.
abbrev pub RefillKeepsBooks : BudgetPolicy → Type 0
RefillKeepsBooks policy =
    (id : Text) (n : ℕ) (key : Text) (db db' : Db)
    → policy.ensure_energy id n key db ≡ ok db'
    → SameBooks db db'

pub check_identity-SameBooks :
    (p : ReserveParams) (db db' : Db) → check_identity p db ≡ ok db' → SameBooks db db'
unfolding check_identity
check_identity-SameBooks p db db' e = ground arith

module _ (policy : BudgetPolicy) (keeps : RefillKeepsBooks policy) where
  pub check_pixel-SameBooks :
      (p : ReserveParams) (db db' : Db) → check_pixel policy p db ≡ ok db' → SameBooks db db'
  unfolding check_pixel
  check_pixel-SameBooks p db db' e =
      let refill = keeps p.pixel_id p.estimated_tokens (codes "reserve:" ++ p.call_id) db db' in
      ground (arith, refill)

  pub reserve-IsAccounted :
      (p : ReserveParams) (db db' : Db)
      → IsAccounted db
      → reserve policy p db ≡ ok db'
      → IsAccounted db'
  unfolding reserve
  reserve-IsAccounted p db db' h e =
      let (a, ea, e1) = >>=-eq-ok (check_identity p db) _ e in
      let (b, eb, e2) = >>=-eq-ok (check_pixel policy p a) _ e1 in
      let (u, eu, e3) = >>=-eq-ok (check_run policy p b) _ e2 in
      let (v, ev, e4) = >>=-eq-ok (check_execution policy p b) _ e3 in
      record_reservation-IsAccounted p b db'
        (SameBooks-IsAccounted a b (check_pixel-SameBooks p a b eb)
          (SameBooks-IsAccounted db a (check_identity-SameBooks p db a ea) h))
        e4

  charge-SameBooks :
      (res : ReservationRow) (actual : ℕ) (id : Text) (db db' : Db)
      → charge policy res actual id db ≡ ok db'
      → SameBooks db db'
  unfolding charge
  charge-SameBooks res actual id db db' e = elim (Bool-cases (policy.company_run res.run_id)) [
    | inl company ↦
        subst (SameBooks db) (ok-injective db db' (rw (company) at e)) (SameBooks-refl db)
    | inr own ↦
        let key = codes "settle:" ++ id in
        let (a, ea, rest) =
          >>=-eq-ok (policy.ensure_energy res.pixel_id actual key db)
            (λ a. ok (spend_energy res.pixel_id actual a)) (rw own at e) in
        subst (SameBooks db) (ok-injective (spend_energy res.pixel_id actual a) db' rest)
          (spend_energy-SameBooks res.pixel_id actual db a (keeps res.pixel_id actual key db a ea))
  ]

  settle_open-IsAccounted :
      (res : ReservationRow) (actual : ℕ) (id : Text) (db db' : Db)
      → find_open id db ≡ some res
      → IsAccounted db
      → settle_open policy res actual id db ≡ ok db'
      → IsAccounted db'
  unfolding settle_open
  settle_open-IsAccounted res actual id db db' found h e =
      let (a, ea, rest) =
        >>=-eq-ok (charge policy res actual id db) (λ a. ok (release res actual settled a)) e in
      let same = charge-SameBooks res actual id db a ea in
      subst IsAccounted (ok-injective (release res actual settled a) db' rest) (
        release-IsAccounted id res actual settled a refl (rw same.reservations found)
          (SameBooks-IsAccounted db a same h))

  pub settle-IsAccounted :
      (id : Text) (actual : Option Number) (db db' : Db)
      → IsAccounted db
      → settle policy id actual db ≡ ok db'
      → IsAccounted db'
  unfolding settle
  settle-IsAccounted id none db db' h e = subst IsAccounted (ok-injective db db' e) h
  settle-IsAccounted id (some actual) db db' h e = elim (Option-cases (safe_nat actual)) [
    | inl unsafe ↦ absurd (ground arith)
    | inr (n, safe) ↦ elim (Option-cases (find_open id db)) [
      | inl absent ↦ subst IsAccounted (ground arith) h
      | inr (res, found) ↦ settle_open-IsAccounted res n id db db' found h (ground arith)
    ]
  ]

pub refund-IsAccounted : (id : Text) (db : Db) → IsAccounted db → IsAccounted (refund id db)
unfolding refund
refund-IsAccounted id db h = elim (Option-cases (find_open id db)) [
  | inl absent ↦ rw (absent, refund) h
  | inr (res, found) ↦ rw (found, refund) (release-IsAccounted id res 0 refunded db refl found h)
]

-- A request of the engine to the repository.
pub data Request : Type 0 where
  reserve_call : ReserveParams → Request
  settle_call : Text → Option Number → Request
  refund_call : Text → Request

perform : BudgetPolicy → Request → Db → Result BudgetError Db
perform policy (reserve_call p) db = reserve policy p db
perform policy (settle_call id actual) db = settle policy id actual db
perform policy (refund_call id) db = ok (refund id db)

-- What is thrown rolls the transaction back.
abbrev commit_or_rollback : Db → Result BudgetError Db → Db
commit_or_rollback db (ok db') = db'
commit_or_rollback db (err e) = db

pub perform_all : BudgetPolicy → List Request → Db → Db
unfolding perform
perform_all policy [] db = db
perform_all policy (r ∷ rs) db = perform_all policy rs (commit_or_rollback db (perform policy r db))

module _ (policy : BudgetPolicy) (keeps : RefillKeepsBooks policy) where
  perform-IsAccounted :
      (r : Request) (db db' : Db) → IsAccounted db → perform policy r db ≡ ok db' → IsAccounted db'
  unfolding perform
  perform-IsAccounted (reserve_call p) db db' h e = reserve-IsAccounted policy keeps p db db' h e
  perform-IsAccounted (settle_call id n) db db' h e =
      settle-IsAccounted policy keeps id n db db' h e
  perform-IsAccounted (refund_call id) db db' h e =
      subst IsAccounted (ok-injective (refund id db) db' e) (refund-IsAccounted id db h)

  commit-IsAccounted :
      (r : Request) (db : Db)
      → IsAccounted db
      → IsAccounted (commit_or_rollback db (perform policy r db))
  commit-IsAccounted r db h = elim (Result-cases (perform policy r db)) [
    | inl (db', e) ↦ rw e (perform-IsAccounted r db db' h e)
    | inr (x, e) ↦ rw e h
  ]

-- Whatever reservations, settlements and refunds are tried, in any order and with any that throw,
-- and provided that the energy callback touches no table of the budget: if at first no call has two
-- reservations, and the reserved tokens of every run, of every execution and of the whole budget
-- are the sums of the open reservations that name them, then so it is at the end.
pub perform_all-IsAccounted :
    (policy : BudgetPolicy) (rs : List Request) (db : Db)
    → RefillKeepsBooks policy
    → IsAccounted db
    → IsAccounted (perform_all policy rs db)
unfolding perform_all
perform_all-IsAccounted policy [] db keeps h = h
perform_all-IsAccounted policy (r ∷ rs) db keeps h =
    perform_all-IsAccounted policy rs (commit_or_rollback db (perform policy r db)) keeps
      (commit-IsAccounted policy keeps r db h)
