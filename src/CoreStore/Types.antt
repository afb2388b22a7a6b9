-- ===== src/CoreStore/Types.antt =====
-- The parameters and errors of `applyExternalReward` in packages/persistence/src/core_store.ts.
use emergent_inc.Common.{Option, Text}
use emergent_inc.Domain.Validation.{Number}

pub data RewardError : Type 0 where
  key_required amount_not_positive key_conflict : RewardError
  rewarded_pixel_not_found : RewardError
  -- the entry's primary key is taken
  entry_exists : RewardError

pub record RewardParams : Type 0 where
  pub pixel_id : Text
  pub amount : Number
  pub idempotency_key : Text
  pub source : Option Text
  pub reason : Option Text
