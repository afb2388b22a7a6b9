-- ===== src/Budget/Limits.antt =====
-- The limits of runs under `reserve`.
use emergent_inc.Common.{
  ℕ, ◌+◌, ◌≤◌, ◌≡◌, refl, sym, ◌∙◌, subst, Bool, false, some, List, [], ◌∷◌, Text, text_eq,
  text_eq_iff, All, Bool-cases, inl, inr, arith, ok, >>=-eq-ok, ok-injective,
}
use emergent_inc.Store.{Db, RunRow}
use emergent_inc.Store.Table.{select_first, exists_where, update_where}
use emergent_inc.Budget.Types.{ReserveParams, BudgetPolicy}
use emergent_inc.Budget.Operations.{
  find_run, check_identity, check_pixel, check_run, check_execution, recorded, record_reservation,
  reserve,
}
use emergent_inc.Budget.Books.{RefillKeepsBooks, check_identity-SameBooks, check_pixel-SameBooks}

-- `run_id` is the primary key.
abbrev pub HasUniqueRuns : List RunRow → Type 0
HasUniqueRuns [] = Unit
HasUniqueRuns (x ∷ xs) =
    (exists_where (λ r. text_eq r.run_id x.run_id) xs ≡ false) × HasUniqueRuns xs

abbrev pub IsWithinLimit : RunRow → Type 0
IsWithinLimit r = r.run_spent + r.run_reserved ≤ r.run_limit

update_where_absent {ℓ} :
    {A : Type ℓ} (p : A → Bool) (f : A → A) (xs : List A)
    → exists_where p xs ≡ false
    → update_where p f xs ≡ xs
unfolding exists_where update_where
update_where_absent p f [] h = refl
update_where_absent p f (x ∷ xs) h = elim (Bool-cases (p x)) [
  | inl hit ↦ absurd (ground (arith, rw hit at h))
  | inr miss ↦ rw (miss, update_where_absent p f xs (rw miss at h))
]

abbrev grown : ℕ → RunRow → RunRow
grown n r = record r { run_reserved = r.run_reserved + n }

-- Room in the row that is found is room in the only row of the run.
grown-IsWithinLimit :
    (id : Text) (n : ℕ) (rows : List RunRow)
    → HasUniqueRuns rows
    → ((run : RunRow)
        → select_first (λ r. text_eq r.run_id id) rows ≡ some run
        → run.run_spent + run.run_reserved + n ≤ run.run_limit)
    → All IsWithinLimit rows
    → All IsWithinLimit (update_where (λ r. text_eq r.run_id id) (grown n) rows)
unfolding select_first update_where
grown-IsWithinLimit id n [] unique room within = tt
grown-IsWithinLimit id n (x ∷ xs) unique room within = elim (Bool-cases (text_eq x.run_id id)) [
  | inl hit ↦
      let alone =
        update_where_absent (λ r. text_eq r.run_id id) (grown n) xs
          (subst (λ k. exists_where (λ r. text_eq r.run_id k) xs ≡ false)
            ((text_eq_iff x.run_id id).0 hit) unique.0) in
      let enough = room x (rw hit) in rw (hit, alone) (ground arith, within.1)
  | inr miss ↦ rw miss (
    within.0,
    grown-IsWithinLimit id n xs unique.1 (λ run found. room run (rw (miss, found))) within.1,
  )
]

check_run_room :
    (policy : BudgetPolicy) (p : ReserveParams) (db : Db) (done : Unit {0}) (run : RunRow)
    → policy.company_run p.run_id ≡ false
    → check_run policy p db ≡ ok done
    → find_run p.run_id db ≡ some run
    → run.run_spent + run.run_reserved + p.estimated_tokens ≤ run.run_limit
unfolding check_run
check_run_room policy p db done run own h found =
    let passed = rw (check_run, found, own) at h in ground (arith, passed)

record_reservation-recorded :
    (p : ReserveParams) (db db' : Db) → record_reservation p db ≡ ok db' → recorded p db ≡ db'
unfolding record_reservation
record_reservation-recorded p db db' h =
    elim (Bool-cases (exists_where (λ r. text_eq r.call_id p.call_id) db.reservations)) [
      | inl taken ↦ absurd (ground (arith, rw taken at h))
      | inr fresh ↦ ok-injective (recorded p db) db' (rw fresh at h)
    ]

recorded-IsWithinLimit :
    (p : ReserveParams) (db : Db)
    → HasUniqueRuns db.runs
    → ((run : RunRow)
        → find_run p.run_id db ≡ some run
        → run.run_spent + run.run_reserved + p.estimated_tokens ≤ run.run_limit)
    → All IsWithinLimit db.runs
    → All IsWithinLimit (recorded p db).runs
unfolding recorded
recorded-IsWithinLimit p db unique room within =
    grown-IsWithinLimit p.run_id p.estimated_tokens db.runs unique room within

-- A reservation keeps the limits of runs: if run ids are unique, the energy callback touches no
-- table of the budget, the call's run is not a company's, and what each run has spent and reserved
-- is within its limit, then so it is when `reserve` has succeeded.
pub reserve-IsWithinLimit :
    (policy : BudgetPolicy) (p : ReserveParams) (db db' : Db)
    → RefillKeepsBooks policy
    → policy.company_run p.run_id ≡ false
    → HasUniqueRuns db.runs
    → All IsWithinLimit db.runs
    → reserve policy p db ≡ ok db'
    → All IsWithinLimit db'.runs
unfolding reserve
reserve-IsWithinLimit policy p db db' keeps own unique within e =
    let (a, ea, e1) = >>=-eq-ok (check_identity p db) _ e in
    let (b, eb, e2) = >>=-eq-ok (check_pixel policy p a) _ e1 in
    let (u, eu, e3) = >>=-eq-ok (check_run policy p b) _ e2 in
    let (v, ev, e4) = >>=-eq-ok (check_execution policy p b) _ e3 in
    let same =
      (check_pixel-SameBooks policy keeps p a b eb).runs
      ∙ (check_identity-SameBooks p db a ea).runs in
    subst (λ d. All IsWithinLimit d.runs) (record_reservation-recorded p b db' e4)
      (recorded-IsWithinLimit p b (subst HasUniqueRuns (sym same) unique)
        (λ run found. check_run_room policy p b u run own eu found)
        (subst (All IsWithinLimit) (sym same) within))
