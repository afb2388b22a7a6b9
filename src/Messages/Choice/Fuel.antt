-- ===== src/Messages/Choice/Fuel.antt =====
-- The fuel of the loop of `claimNext`.
use emergent_inc.Common.{
  ℕ, zero, suc, ◌≡◌, ◌<◌, ◌≤◌, Option, some, Text, Option-cases, Bool-cases, inl, inr, arith,
}
use emergent_inc.Store.{Db, MessageRow}
use emergent_inc.Store.Table.{count_where}
use emergent_inc.Store.Keys.{truthy}
use emergent_inc.Messages.Claim.{
  is_claimable, is_rebound, first_in_order, abandon_message, abandon_rebound, claim_loop,
  claim_next,
}
use emergent_inc.Messages.Choice.{claim_next-IsClaim}

-- The claimable messages once the rebound ones are abandoned.
abbrev pub claimable_left : ℕ → Option Text → Db → ℕ
claimable_left round execution_id db =
    let start = abandon_rebound round execution_id db in
    count_where (is_claimable round (truthy execution_id) start) start.messages

-- A loop that ended ends in the same way on more fuel.
claim_loop-more :
    (fuel more round : ℕ) (scope : Option Text) (db : Db) (r : Option MessageRow × Db)
    → fuel ≤ more
    → claim_loop fuel round scope db ≡ some r
    → claim_loop more round scope db ≡ some r
unfolding claim_loop
claim_loop-more zero more round scope db r le e = absurd (ground (arith, e))
claim_loop-more (suc fuel) zero round scope db r le e = absurd (omega (arith, le))
claim_loop-more (suc fuel) (suc more) round scope db r le e =
    elim (Option-cases (first_in_order (is_claimable round scope db) db.messages)) [
      | inl nothing ↦ rw (nothing, claim_loop) (rw (nothing, claim_loop) at e)
      | inr (row, found) ↦ elim (Bool-cases (is_rebound db row)) [
        | inr bound ↦ rw (found, bound, claim_loop) (rw (found, bound, claim_loop) at e)
        | inl rebound ↦
            rw (found, rebound, claim_loop)
              (claim_loop-more fuel more round scope (abandon_message row.message_id db) r
                (omega (arith, le)) (rw (found, rebound, claim_loop) at e))
      ]
    ]

-- The loop of `claimNext`, which the source writes without a bound, ends: on any fuel above the
-- number of claimable rows that are left once the rebound ones are abandoned, it ends, and with what
-- `claimNext` returns.
pub claim_loop-claim_next :
    (fuel round : ℕ) (execution_id : Option Text) (db : Db)
    → claimable_left round execution_id db < fuel
    → (r : Option MessageRow × Db) × (claim_loop fuel round
          (truthy execution_id)
          (abandon_rebound round execution_id db)
        ≡ some r)
      × (claim_next round execution_id db ≡ some r)
unfolding claim_next
claim_loop-claim_next fuel round execution_id db enough =
    let (r, ends, claim) = claim_next-IsClaim round execution_id db in
    (
      r,
      claim_loop-more (suc (claimable_left round execution_id db)) fuel round (truthy execution_id)
          (abandon_rebound round execution_id db) r (omega (arith, enough)) ends,
      ends,
    )
