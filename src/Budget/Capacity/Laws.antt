-- ===== src/Budget/Capacity/Laws.antt =====
-- `reserve` and `getAvailableTokenCapacity` against each other.
use emergent_inc.Common.{
  ℕ, ◌+◌, ◌≤◌, ◌≡◌, ◌↔◌, refl, sym, ◌∙◌, subst, true, false, some, List, [], ◌∷◌, ◌++◌, ltb,
  Bool-cases, inl, inr, arith, ok, >>=-eq-ok, All, text_eq, codes,
}
use emergent_inc.Store.{Db, PixelRow, ExecutionRow}
use emergent_inc.Store.Table.{exists_where}
use emergent_inc.Budget.Types.{pixel_limit, ReserveParams, BudgetPolicy}
use emergent_inc.Budget.Operations.{
  find_pixel, trial_used, check_identity, check_pixel, check_run, check_trial, check_execution,
  reserve, record_reservation, recorded,
}
use emergent_inc.Budget.Capacity.{
  TokenCapacity, capacity, lowest, run_capacities, trial_capacities, execution_capacities,
  get_available_token_capacity,
}

abbrev Fits : ℕ → List TokenCapacity → Type 0
Fits n = All (λ c. n ≤ c.available_tokens)

ltb→lt : (a b : ℕ) → ltb a b ≡ true → a + 1 ≤ b
ltb→lt a b h = ground arith

ltb→le : (a b : ℕ) → ltb a b ≡ false → b ≤ a
ltb→le a b h = ground arith

lowest_iff :
    (n : ℕ) (c : TokenCapacity) (cs : List TokenCapacity)
    → (n ≤ (lowest c cs).available_tokens) ↔ ((n ≤ c.available_tokens) × Fits n cs)
unfolding lowest
lowest_iff n c [] = (λ h. (h, tt), λ h. h.0)
lowest_iff n c (x ∷ xs) = elim (Bool-cases (ltb x.available_tokens c.available_tokens)) [
  | inl less ↦
      let ih = lowest_iff n x xs in
      rw (less, lowest)
        (
          λ h. (
            omega (arith, (ih.0 h).0, ltb→lt x.available_tokens c.available_tokens less),
            ih.0 h,
          ),
          λ h. ih.1 h.1,
        )
  | inr more ↦
      let ih = lowest_iff n c xs in
      rw (more, lowest)
        (
          λ h. (
            (ih.0 h).0,
            (
              omega (arith, (ih.0 h).0, ltb→le x.available_tokens c.available_tokens more),
              (ih.0 h).1,
            ),
          ),
          λ h. ih.1 (h.0, h.1.1),
        )
]

Fits-append : (n : ℕ) (cs ds : List TokenCapacity) → Fits n (cs ++ ds) ↔ (Fits n cs × Fits n ds)
Fits-append n [] ds = (λ h. (tt, h), λ h. h.1)
Fits-append n (c ∷ cs) ds =
    let ih = Fits-append n cs ds in
    (λ h. ((h.0, (ih.0 h.1).0), (ih.0 h.1).1), λ h. (h.0.0, ih.1 (h.0.1, h.1)))

-- Capturing a message's identity writes to the messages alone.
captured_shape :
    (p : ReserveParams) (db a : Db)
    → check_identity p db ≡ ok a
    → a ≡ record db { messages = a.messages }
unfolding check_identity
captured_shape p db a e = ground arith

capacity_of_captured :
    (policy : BudgetPolicy) (p : ReserveParams) (db a : Db)
    → check_identity p db ≡ ok a
    → get_available_token_capacity policy p a ≡ get_available_token_capacity policy p db
unfolding get_available_token_capacity run_capacities execution_capacities trial_used
capacity_of_captured policy p db a e =
    subst (λ x. get_available_token_capacity policy p x ≡ get_available_token_capacity policy p db)
      (sym (captured_shape p db a e)) refl

module _ (policy : BudgetPolicy) (p : ReserveParams) (own : policy.company_run p.run_id ≡ false)
    (some_tokens : 1 ≤ p.estimated_tokens) where
  run-Fits_iff :
      (db : Db) (cs : List TokenCapacity)
      → run_capacities policy p db ≡ ok cs
      → (check_run policy p db ≡ ok tt) ↔ Fits p.estimated_tokens cs
  unfolding run_capacities check_run
  run-Fits_iff db cs e = ground arith

  trial-Fits_iff :
      (execution : ExecutionRow) (db : Db) (cs : List TokenCapacity)
      → trial_capacities policy p execution db ≡ ok cs
      → (check_trial policy p execution db ≡ ok tt) ↔ Fits p.estimated_tokens cs
  unfolding trial_capacities check_trial
  trial-Fits_iff execution db cs e = ground arith

  execution-Fits_iff :
      (db : Db) (of_run cs : List TokenCapacity)
      → run_capacities policy p db ≡ ok of_run
      → execution_capacities policy p db ≡ ok cs
      → (check_execution policy p db ≡ ok tt) ↔ Fits p.estimated_tokens cs
  unfolding run_capacities execution_capacities check_execution
  execution-Fits_iff db of_run cs r e = ground arith

  energy_fits_iff :
      (a : Db) (pixel : PixelRow)
      → find_pixel p.pixel_id a ≡ some pixel
      → ltb 0 pixel.refund_deficit_tokens ≡ false
      → policy.ensure_energy p.pixel_id p.estimated_tokens (codes "reserve:" ++ p.call_id) a ≡ ok a
      → (check_pixel policy p a ≡ ok a) ↔ (p.estimated_tokens ≤ pixel.energy)
  unfolding check_pixel
  energy_fits_iff a pixel found clear kept = ground arith

  -- The parts of a capacity that was computed.
  capacity_parts :
      (a : Db) (c : TokenCapacity)
      → get_available_token_capacity policy p a ≡ ok c
      → (pixel : PixelRow) × (of_run : List TokenCapacity) × (of_execution : List TokenCapacity)
        × (find_pixel p.pixel_id a ≡ some pixel)
        × (ltb 0 pixel.refund_deficit_tokens ≡ false)
        × (run_capacities policy p a ≡ ok of_run)
        × (execution_capacities policy p a ≡ ok of_execution)
        × (c ≡ lowest (capacity pixel_limit pixel.energy) (of_run ++ of_execution))
  unfolding get_available_token_capacity
  capacity_parts a c e = ground arith

  pixel_unchanged :
      (a b : Db)
      → policy.ensure_energy p.pixel_id p.estimated_tokens (codes "reserve:" ++ p.call_id) a ≡ ok a
      → check_pixel policy p a ≡ ok b
      → b ≡ a
  unfolding check_pixel
  pixel_unchanged a b kept e = ground arith

  reserve_steps_iff :
      (db a : Db)
      → policy.ensure_energy p.pixel_id p.estimated_tokens (codes "reserve:" ++ p.call_id) a ≡ ok a
      → check_identity p db ≡ ok a
      → exists_where (λ r. text_eq r.call_id p.call_id) a.reservations ≡ false
      → (reserve policy p db ≡ ok (recorded p a)) ↔ (
          (check_pixel policy p a ≡ ok a)
          × (check_run policy p a ≡ ok tt)
          × (check_execution policy p a ≡ ok tt))
  unfolding reserve record_reservation
  reserve_steps_iff db a kept captured fresh = (to, λ h. rw (captured, h.0, h.1, h.2, fresh))
    where
      to :
          reserve policy p db ≡ ok (recorded p a)
          → (check_pixel policy p a ≡ ok a)
            × (check_run policy p a ≡ ok tt)
            × (check_execution policy p a ≡ ok tt)
      to e =
          let (b, eb, e2) = >>=-eq-ok (check_pixel policy p a) _ (rw (captured, reserve) at e) in
          let same : b ≡ a = pixel_unchanged a b kept eb in
          let (u, eu, e3) = >>=-eq-ok (check_run policy p b) _ e2 in
          let (v, ev, e4) = >>=-eq-ok (check_execution policy p b) _ e3 in
          (rw same at eb, rw same at eu, rw same at ev)

-- For a call that is not a company's, that asks for at least one token and has no reservation yet,
-- whose identity check succeeds (the message, if one is named, exists, and its execution, its binding
-- and the identity captured with it agree with the call's), where no energy is refilled and a
-- capacity is reported: the reservation is recorded exactly if the tokens are within that capacity.
pub reserve_iff_within_capacity :
    (policy : BudgetPolicy) (p : ReserveParams) (db a : Db) (c : TokenCapacity)
    → policy.company_run p.run_id ≡ false
    → 1 ≤ p.estimated_tokens
    → check_identity p db ≡ ok a
    → policy.ensure_energy p.pixel_id p.estimated_tokens (codes "reserve:" ++ p.call_id) a ≡ ok a
    → exists_where (λ r. text_eq r.call_id p.call_id) a.reservations ≡ false
    → get_available_token_capacity policy p db ≡ ok c
    → (reserve policy p db ≡ ok (recorded p a)) ↔ (p.estimated_tokens ≤ c.available_tokens)
unfolding reserve record_reservation
reserve_iff_within_capacity policy p db a c own positive captured kept fresh e =
    let (pixel, of_run, of_execution, found, clear, er, ee, lowest_is) =
      capacity_parts policy p own positive a c (capacity_of_captured policy p db a captured ∙ e) in
    let energy = energy_fits_iff policy p own positive a pixel found clear kept in
    let run = run-Fits_iff policy p own positive a of_run er in
    let execution = execution-Fits_iff policy p own positive a of_run of_execution er ee in
    let steps = reserve_steps_iff policy p own positive db a kept captured fresh in
    let least =
      lowest_iff p.estimated_tokens (capacity pixel_limit pixel.energy) (of_run ++ of_execution) in
    let parts = Fits-append p.estimated_tokens of_run of_execution in
    (
      λ done.
          let (px, rn, ex) = steps.0 done in
          rw lowest_is (least.1 (energy.0 px, parts.1 (run.0 rn, execution.0 ex))),
      λ within.
          let (px, fits) = least.0 (rw lowest_is at within) in
          let (rn, ex) = parts.0 fits in steps.1 (energy.1 px, run.1 rn, execution.1 ex),
    )
