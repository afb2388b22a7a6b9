-- ===== src/CoreStore/Refill.antt =====
-- `ensureUnlimitedEnergy` of packages/persistence/src/core_store.ts, the callback that the store
-- gives to its budget repository. The policy is the function that the owner set.
pub mod Branches
pub mod Books
pub mod Enough
use emergent_inc.Common.{
  ℕ, ◌+◌, ◌-◌, ◌^◌, Bool, not, ◌&&◌, ◌||◌, Option, none, some, ◌++◌, Text, codes, ltb, leb,
  if◌then◌else◌, Result, ok, err, ◌>>=◌,
}
use emergent_inc.Common.Int.{pos}
use emergent_inc.Domain.Validation.{integer}
use emergent_inc.Store.{Db, PixelRow}
use emergent_inc.Budget.Types.{BudgetError, invalid_energy_requirement, reward_error, BudgetPolicy}
use emergent_inc.CoreStore.Types.{RewardParams}
use emergent_inc.CoreStore.Pixels.{get_pixel_account}
use emergent_inc.CoreStore.Rewards.{find_reward, apply_external_reward}

-- `account?.active`, no deficit, and not enough energy
unfoldable pub needs_refill : ℕ → PixelRow → Bool
needs_refill required account =
    account.active && not (ltb 0 account.refund_deficit_tokens) && leb account.energy required

-- `Math.max(100000, required + 1)`
unfoldable pub refill_target : ℕ → ℕ
refill_target required = if leb 100000 (required + 1) then required + 1 else 100000

abbrev pub refill_key : Text → Text
refill_key key = codes "infinite-energy:" ++ key

unfoldable pub refill_reward : Text → ℕ → Text → ℕ → RewardParams
unfolding refill_target
refill_reward id required key energy = record {
  pixel_id = id;
  amount = integer (pos (refill_target required - energy));
  idempotency_key = refill_key key;
  source = some (codes "owner_infinite_energy");
  reason = some (codes "Owner enabled automatic energy replenishment for the current gateway");
}

module _ (uuid : Text → Db → Text) where
  unfoldable pub refill : Text → ℕ → Text → PixelRow → Db → Result BudgetError Db
  refill id required key account db = elim (find_reward (refill_key key) db) [
    | some previous ↦ ok db
    | none ↦
        elim (apply_external_reward (refill_reward id required key account.energy) (uuid key db)
          db) [ ok (result, db') ↦ ok db' | err e ↦ err (reward_error e) ]
  ]

  unfoldable pub ensure_unlimited_energy :
      (Text → Bool) → Text → ℕ → Text → Db → Result BudgetError Db
  ensure_unlimited_energy unlimited id required key db =
      if not (unlimited id)
      then ok db
      else if leb (2 ^ 53 - 1) required
      then err invalid_energy_requirement
      else elim (get_pixel_account id db) [
        | none ↦ ok db
        | some account ↦
            if needs_refill required account then refill id required key account db else ok db
      ]

  -- The callbacks that the constructor of `CoreStore` passes on.
  abbrev pub core_policy : (Text → Bool) → (Text → Bool) → BudgetPolicy
  core_policy company unlimited = record {
    company_run = company;
    ensure_energy = ensure_unlimited_energy unlimited;
  }
