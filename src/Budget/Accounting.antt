-- ===== src/Budget/Accounting.antt =====
-- The running totals of runs, executions and the whole budget against the open reservations.
use emergent_inc.Common.{
  ℕ, ◌+◌, ◌-◌, ◌≡◌, refl, ◌∙◌, Bool, true, false, Option, none, some, List, [], ◌∷◌, ◌++◌, Text,
  text_eq, text_eq_comm, subst, if◌then◌else◌, Bool-cases, inl, inr, arith, ok, ok-injective, All,
}
use emergent_inc.Store.{Db, RunRow, ExecutionRow, GlobalRow, ReservationRow, ReservationStatus}
use emergent_inc.Store.Keys.{truthy, is_id}
use emergent_inc.Store.Table.{exists_where, update_where, All-update_where, All-impl}
use emergent_inc.Budget.Types.{ReserveParams}
use emergent_inc.Budget.Operations.{
  is_open, update_global, update_execution, reservation_of, recorded, record_reservation, release,
  find_open,
}
use emergent_inc.Budget.OpenSum.{
  HasUniqueCalls, HasUniqueCalls-append, HasUniqueCalls-set_status, set_status, open_sum,
  open_sum-append, open_sum-set_status,
}

-- Which reservations a run, an execution and the whole budget hold.
abbrev pub of_run : Text → ReservationRow → Bool
of_run id r = text_eq r.run_id id

abbrev pub of_execution : Text → ReservationRow → Bool
of_execution id r = is_id (truthy r.execution_id) id

abbrev pub of_all : ReservationRow → Bool
of_all r = true

abbrev pub GlobalIs : ℕ → Option GlobalRow → Type 0
GlobalIs n none = Unit
GlobalIs n (some g) = g.total_reserved ≡ n

pub record IsAccounted (db : Db) : Type 0 where
  pub unique : HasUniqueCalls db.reservations
  pub by_run : All (λ r. r.run_reserved ≡ open_sum (of_run r.run_id) db.reservations) db.runs
  pub by_execution :
      All
        (λ e. e.reserved_tokens ≡ open_sum (of_execution e.execution_id) db.reservations)
        db.executions
  pub global : GlobalIs (open_sum of_all db.reservations) db.global_budget

-- The totals of rows under an update of the rows of one key, where the sums that they stand for
-- move by `n` for that key alone.
module _ (s s' : Text → ℕ) (k : Text) (n : ℕ) where
  runs_grow :
      (rows : List RunRow)
      → ((id : Text) → s' id ≡ s id + (if text_eq k id then n else 0))
      → All (λ r. r.run_reserved ≡ s r.run_id) rows
      → All
          (λ r. r.run_reserved ≡ s' r.run_id)
          (update_where
            (λ r. text_eq r.run_id k)
            (λ r. record r { run_reserved = r.run_reserved + n })
            rows)
  runs_grow rows sums =
      All-update_where (λ r. text_eq r.run_id k)
        (λ r. record r { run_reserved = r.run_reserved + n }) rows
        (λ r h hit. ground (arith, sums r.run_id, text_eq_comm r.run_id k))
        (λ r h miss. ground (arith, sums r.run_id, text_eq_comm r.run_id k))

  runs_shrink :
      (actual : ℕ) (rows : List RunRow)
      → ((id : Text) → s' id + (if text_eq k id then n else 0) ≡ s id)
      → All (λ r. r.run_reserved ≡ s r.run_id) rows
      → All
          (λ r. r.run_reserved ≡ s' r.run_id)
          (update_where
            (λ r. text_eq r.run_id k)
            (λ r. record r { run_reserved = r.run_reserved - n; run_spent = r.run_spent + actual })
            rows)
  runs_shrink actual rows sums =
      All-update_where (λ r. text_eq r.run_id k)
        (λ r. record r { run_reserved = r.run_reserved - n; run_spent = r.run_spent + actual }) rows
        (λ r h hit. ground (arith, sums r.run_id, text_eq_comm r.run_id k))
        (λ r h miss. ground (arith, sums r.run_id, text_eq_comm r.run_id k))

module _ (s s' : Text → ℕ) (n : ℕ) where
  executions_grow :
      (k : Option Text) (rows : List ExecutionRow)
      → ((id : Text) → s' id ≡ s id + (if is_id k id then n else 0))
      → All (λ e. e.reserved_tokens ≡ s e.execution_id) rows
      → All
          (λ e. e.reserved_tokens ≡ s' e.execution_id)
          (update_execution k (λ e. record e { reserved_tokens = e.reserved_tokens + n }) rows)
  unfolding is_id
  executions_grow none rows sums = All-impl rows (λ e h. omega (arith, sums e.execution_id))
  executions_grow (some k) rows sums =
      All-update_where (λ e. text_eq e.execution_id k)
        (λ e. record e { reserved_tokens = e.reserved_tokens + n }) rows
        (λ e h hit. ground (arith, sums e.execution_id, text_eq_comm e.execution_id k))
        (λ e h miss. ground (arith, sums e.execution_id, text_eq_comm e.execution_id k))

  executions_shrink :
      (k : Option Text) (actual : ℕ) (rows : List ExecutionRow)
      → ((id : Text) → s' id + (if is_id k id then n else 0) ≡ s id)
      → All (λ e. e.reserved_tokens ≡ s e.execution_id) rows
      → All
          (λ e. e.reserved_tokens ≡ s' e.execution_id)
          (update_execution k
            (λ e. record e {
              reserved_tokens = e.reserved_tokens - n;
              spent_tokens = e.spent_tokens + actual;
            })
            rows)
  unfolding is_id
  executions_shrink none actual rows sums =
      All-impl rows (λ e h. omega (arith, sums e.execution_id))
  executions_shrink (some k) actual rows sums =
      All-update_where (λ e. text_eq e.execution_id k)
        (λ e. record e {
          reserved_tokens = e.reserved_tokens - n;
          spent_tokens = e.spent_tokens + actual;
        })
        rows (λ e h hit. ground (arith, sums e.execution_id, text_eq_comm e.execution_id k))
        (λ e h miss. ground (arith, sums e.execution_id, text_eq_comm e.execution_id k))

global_grow :
    (n n' m : ℕ) (f : GlobalRow → GlobalRow) (g : Option GlobalRow)
    → ((row : GlobalRow) → (f row).total_reserved ≡ row.total_reserved + m)
    → n' ≡ n + m
    → GlobalIs n g
    → GlobalIs n' (update_global f g)
global_grow n n' m f none e sum h = tt
global_grow n n' m f (some row) e sum h = omega (arith, e row)

global_shrink :
    (n n' m : ℕ) (f : GlobalRow → GlobalRow) (g : Option GlobalRow)
    → ((row : GlobalRow) → (f row).total_reserved ≡ row.total_reserved - m)
    → n' + m ≡ n
    → GlobalIs n g
    → GlobalIs n' (update_global f g)
global_shrink n n' m f none e sum h = tt
global_shrink n n' m f (some row) e sum h = omega (arith, e row)

recorded-IsAccounted :
    (p : ReserveParams) (db : Db)
    → exists_where (λ r. text_eq r.call_id p.call_id) db.reservations ≡ false
    → IsAccounted db
    → IsAccounted (recorded p db)
unfolding recorded
recorded-IsAccounted p db fresh h =
    let old = db.reservations in
    let new = old ++ reservation_of p ∷ [] in
    record {
      unique = HasUniqueCalls-append old (reservation_of p) fresh h.unique;
      by_run =
          runs_grow (λ id. open_sum (of_run id) old) (λ id. open_sum (of_run id) new) p.run_id
            p.estimated_tokens db.runs (λ id. counted id) h.by_run;
      by_execution =
          executions_grow (λ id. open_sum (of_execution id) old)
            (λ id. open_sum (of_execution id) new) p.estimated_tokens (truthy p.execution_id)
            db.executions (λ id. counted_execution id) h.by_execution;
      global =
          global_grow (open_sum of_all old) (open_sum of_all new) p.estimated_tokens
            (λ g. record g { total_reserved = g.total_reserved + p.estimated_tokens })
            db.global_budget (λ g. refl) (open_sum-append of_all old (reservation_of p)) h.global;
    }
  where
    counted :
        (id : Text)
        → open_sum (of_run id) (db.reservations ++ reservation_of p ∷ [])
          ≡ open_sum (of_run id) db.reservations
            + (if text_eq p.run_id id then p.estimated_tokens else 0)
    counted id = open_sum-append (of_run id) db.reservations (reservation_of p) ∙ ground arith

    counted_execution :
        (id : Text)
        → open_sum (of_execution id) (db.reservations ++ reservation_of p ∷ [])
          ≡ open_sum (of_execution id) db.reservations
            + (if is_id (truthy p.execution_id) id then p.estimated_tokens else 0)
    counted_execution id =
        open_sum-append (of_execution id) db.reservations (reservation_of p) ∙ ground arith

-- Recording a reservation adds its amount to the totals that hold it.
pub record_reservation-IsAccounted :
    (p : ReserveParams) (db db' : Db)
    → IsAccounted db
    → record_reservation p db ≡ ok db'
    → IsAccounted db'
unfolding record_reservation
record_reservation-IsAccounted p db db' h e =
    elim (Bool-cases (exists_where (λ r. text_eq r.call_id p.call_id) db.reservations)) [
      | inl taken ↦ absurd (ground arith)
      | inr fresh ↦
          subst IsAccounted (ok-injective (recorded p db) db' (rw (fresh, record_reservation) at e))
            (recorded-IsAccounted p db fresh h)
    ]

-- Releasing an open reservation takes its amount out of the totals that hold it.
pub release-IsAccounted :
    (id : Text) (res : ReservationRow) (actual : ℕ) (status : ReservationStatus) (db : Db)
    → is_open status ≡ false
    → find_open id db ≡ some res
    → IsAccounted db
    → IsAccounted (release res actual status db)
unfolding release
release-IsAccounted id res actual status db closed found h = record {
  unique = HasUniqueCalls-set_status res.call_id status db.reservations h.unique;
  by_run =
      runs_shrink (λ i. open_sum (of_run i) db.reservations)
        (λ i. open_sum (of_run i) (set_status res.call_id status db.reservations)) res.run_id
        res.amount actual db.runs
        (λ i.
          open_sum-set_status (of_run i) (λ r s. refl) id status res db.reservations closed h.unique
            found)
        h.by_run;
  by_execution =
      executions_shrink (λ i. open_sum (of_execution i) db.reservations)
        (λ i. open_sum (of_execution i) (set_status res.call_id status db.reservations)) res.amount
        (truthy res.execution_id) actual db.executions
        (λ i.
          open_sum-set_status (of_execution i) (λ r s. refl) id status res db.reservations closed
            h.unique found)
        h.by_execution;
  global =
      global_shrink (open_sum of_all db.reservations)
        (open_sum of_all (set_status res.call_id status db.reservations)) res.amount _
        db.global_budget (λ g. refl)
        (open_sum-set_status of_all (λ r s. refl) id status res db.reservations closed h.unique
          found)
        h.global;
}
