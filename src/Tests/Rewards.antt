-- ===== src/Tests/Rewards.antt =====
-- Rewards and refills at concrete inputs.
use emergent_inc.Common.{
  ℕ, ◌<◌, ◌≡◌, ◌⊎◌, refl, Bool, true, false, none, some, [], ◌∷◌, Text, codes, text_eq, ok, err,
  if◌then◌else◌,
}
use emergent_inc.Common.Int.{pos, ◌+ℤ◌}
use emergent_inc.Domain.Validation.{integer}
use emergent_inc.Store.{Db, RewardRow, RewardResult}
use emergent_inc.Budget.Accounting.{IsAccounted}
use emergent_inc.Budget.Books.{reserve_call, settle_call, perform_all}
use emergent_inc.CoreStore.Types.{RewardParams, key_conflict}
use emergent_inc.CoreStore.Pixels.Energy.{HasUniquePixels}
use emergent_inc.CoreStore.Rewards.{
  apply_at, apply_external_reward, find_reward, grant, is_bad_key, request_eq, request_of,
  reward_amount, with_account,
}
use emergent_inc.CoreStore.Rewards.Growth.{IsGranted, apply_external_reward-IsGranted}
use emergent_inc.CoreStore.Rewards.Once.{apply_external_reward-once}
use emergent_inc.CoreStore.Refill.{core_policy}
use emergent_inc.CoreStore.Refill.Books.{core_store-IsAccounted}
use emergent_inc.Tests.Fixtures.{origin, world, pixel_row, call_1}
use emergent_inc.Tests.Budgets.{world-IsAccounted}
use emergent_inc.Budget.Operations.{safe_nat}
use emergent_inc.Store.Table.{exists_where, select_first, update_where}
use emergent_inc.Grid.Number.{trim}
use emergent_inc.CoreStore.Pixels.{get_pixel_account, moved, update_energy}
use emergent_inc.CoreStore.Ledger.{append_entry, ledger_row}
use emergent_inc.Store.Keys.{truthy}

abbrev reward : RewardParams
reward = record {
  pixel_id = origin;
  amount = integer (pos 10);
  idempotency_key = codes "key-1";
  source = none;
  reason = none;
}

abbrev other_reward : RewardParams
other_reward = record reward { amount = integer (pos 11) }

abbrev answer : RewardResult
answer = record { pixel_id = origin; new_balance = 1010; amount = 10; event_id = codes "reward_u1" }

abbrev rewarded : Db
rewarded = record world {
  pixel_accounts = record pixel_row { energy = 1010 } ∷ [];
  ledger_entries =
      record {
        entry_id = codes "reward_u1";
        pixel_id = origin;
        binding_id = some (codes "binding_1");
        entry_type = codes "external_reward";
        amount = pos 10;
        balance_after = 1010;
      }
      ∷ [];
  external_reward_requests =
      record {
        idempotency_key = codes "key-1";
        request = record {
          pixel_id = origin;
          amount = 10;
          source = codes "human";
          reason = codes "External Reward";
        };
        result = answer;
      }
      ∷ [];
}

reward_run : apply_external_reward reward (codes "u1") world ≡ ok (answer, rewarded)
unfolding apply_external_reward is_bad_key text_eq trim reward_amount safe_nat apply_at find_reward
    select_first grant update_energy get_pixel_account with_account append_entry exists_where moved
    update_where ledger_row request_of ◌+ℤ◌ truthy
reward_run = refl

amount_10 : reward_amount reward.amount ≡ some 10
unfolding reward_amount safe_nat
amount_10 = refl

amount_11 : reward_amount other_reward.amount ≡ some 11
unfolding reward_amount safe_nat
amount_11 = refl

world-HasUniquePixels : HasUniquePixels world
unfolding exists_where
world-HasUniquePixels = (refl, tt)

apply_external_reward-IsGranted_example :
    (amount : ℕ) × (reward_amount reward.amount ≡ some amount)
    × (((row : RewardRow) × (find_reward reward.idempotency_key world ≡ some row)
          × (request_eq row.request (request_of reward amount) ≡ true)
          × (answer ≡ row.result)
          × (rewarded ≡ world))
        ⊎ ((find_reward reward.idempotency_key world ≡ none)
            × (0 < amount)
            × IsGranted reward amount world answer rewarded))
apply_external_reward-IsGranted_example =
    apply_external_reward-IsGranted reward (codes "u1") world answer rewarded world-HasUniquePixels
      reward_run

apply_external_reward-once_example : apply_external_reward other_reward (codes "u2") rewarded ≡ (
    if request_eq (request_of reward 10) (request_of other_reward 11)
    then ok (answer, rewarded)
    else err key_conflict)
apply_external_reward-once_example =
    apply_external_reward-once reward other_reward (codes "u1") (codes "u2") 10 11 world answer
      rewarded world-HasUniquePixels reward_run refl amount_10 amount_11

-- Every pixel's energy is unlimited, no run is a company's, and UUIDs are made from the key.
abbrev everyone : Text → Bool
everyone id = true

abbrev nobody : Text → Bool
nobody id = false

abbrev uuid_of : Text → Db → Text
uuid_of key db = key

core_store-IsAccounted_example : IsAccounted (
    perform_all
      (core_policy uuid_of nobody everyone)
      (reserve_call call_1 ∷ settle_call (codes "call_1") (some (integer (pos 40))) ∷ [])
      world)
core_store-IsAccounted_example =
    core_store-IsAccounted uuid_of nobody everyone
      (reserve_call call_1 ∷ settle_call (codes "call_1") (some (integer (pos 40))) ∷ []) world
      world-IsAccounted
