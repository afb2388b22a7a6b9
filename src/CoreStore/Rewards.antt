-- ===== src/CoreStore/Rewards.antt =====
-- `applyExternalReward` of packages/persistence/src/core_store.ts. Its UUID is an argument.
pub mod Growth
pub mod Once
use emergent_inc.Common.{
  ℕ, ◌+◌, ◌≡◌, Bool, true, not, ◌&&◌, ◌||◌, Option, none, some, List, [], ◌∷◌, ◌++◌, Text, codes,
  text_eq, ltb, leb, ◌==◌, if◌then◌else◌, Result, ok, err, ◌>>=◌, ◌>>◌, throw_if, or_throw,
}
use emergent_inc.Common.Int.{pos}
use emergent_inc.Grid.Number.{trim}
use emergent_inc.Domain.Validation.{Number}
use emergent_inc.Store.{Db, PixelRow, RewardRequest, RewardResult, RewardRow}
use emergent_inc.Store.Table.{select_first}
use emergent_inc.Store.Keys.{truthy}
use emergent_inc.Budget.Operations.{safe_nat}
use emergent_inc.CoreStore.Types.{
  RewardError, key_required, amount_not_positive, key_conflict, rewarded_pixel_not_found,
  entry_exists, RewardParams,
}
use emergent_inc.CoreStore.Pixels.{get_pixel_account, upsert_pixel_account, update_energy}
use emergent_inc.CoreStore.Ledger.{LedgerEntry, append_entry}

-- `length` of a JavaScript string, in UTF-16 code units
unfoldable pub utf16_length : Text → ℕ
utf16_length [] = 0
utf16_length (c ∷ cs) = (if ltb c 65536 then 1 else 2) + utf16_length cs

abbrev is_empty : Text → Bool
is_empty text = text_eq text []

unfoldable pub is_bad_key : Text → Bool
unfolding utf16_length
is_bad_key key = is_empty (trim key) || ltb 200 (utf16_length key)

-- `a || fallback`
abbrev or_else : Text → Option Text → Text
or_else fallback given = elim (truthy given) [ none ↦ fallback | some text ↦ text ]

unfoldable pub request_of : RewardParams → ℕ → RewardRequest
request_of p amount = record {
  pixel_id = p.pixel_id;
  amount = amount;
  source = or_else (codes "human") p.source;
  reason = or_else (codes "External Reward") p.reason;
}

-- `previous.request_json !== requestJson`
unfoldable pub request_eq : RewardRequest → RewardRequest → Bool
request_eq a b =
    text_eq a.pixel_id b.pixel_id
    && a.amount == b.amount
    && text_eq a.source b.source
    && text_eq a.reason b.reason

unfoldable pub find_reward : Text → Db → Option RewardRow
find_reward key db =
    select_first (λ row. text_eq row.idempotency_key key) db.external_reward_requests

-- `active: true` and nothing else
abbrev pub new_account : Text → PixelRow
new_account id = record {
  pixel_id = id;
  energy = 0;
  active = true;
  refund_deficit_tokens = 0;
  spend_blocked_reason = none;
}

unfoldable pub with_account : Text → Db → Db
with_account id db = elim (get_pixel_account id db) [
  | none ↦ upsert_pixel_account (new_account id) db
  | some account ↦ db
]

abbrev pub reward_entry : RewardParams → ℕ → ℕ → Text → LedgerEntry
reward_entry p amount balance entry_id = record {
  entry_id = entry_id;
  pixel_id = p.pixel_id;
  binding_id = none;
  entry_type = codes "external_reward";
  amount = pos amount;
  balance_after = balance;
}

abbrev pub reward_result : RewardParams → ℕ → ℕ → Text → RewardResult
reward_result p amount balance entry_id = record {
  pixel_id = p.pixel_id;
  new_balance = balance;
  amount = amount;
  event_id = entry_id;
}

abbrev pub reward_row : RewardParams → ℕ → RewardResult → RewardRow
reward_row p amount result = record {
  idempotency_key = p.idempotency_key;
  request = request_of p amount;
  result = result;
}

abbrev pub stored : RewardParams → ℕ → RewardResult → Db → Db
stored p amount result db = record db {
  external_reward_requests = db.external_reward_requests ++ reward_row p amount result ∷ [];
}

unfoldable pub grant : RewardParams → ℕ → Text → Db → Result RewardError (RewardResult × Db)
grant p amount uuid db = do
  let entry_id = codes "reward_" ++ uuid
  moved ←
      or_throw rewarded_pixel_not_found
        (update_energy p.pixel_id (pos amount) (with_account p.pixel_id db))
  entered ← or_throw entry_exists (append_entry (reward_entry p amount moved.0 entry_id) moved.1)
  let result = reward_result p amount moved.0 entry_id
  ok (result, stored p amount result entered)

unfoldable pub replay : RewardParams → ℕ → RewardRow → Db → Result RewardError (RewardResult × Db)
replay p amount previous db =
    if request_eq previous.request (request_of p amount)
    then ok (previous.result, db)
    else err key_conflict

unfoldable pub apply_at : RewardParams → ℕ → Text → Db → Result RewardError (RewardResult × Db)
apply_at p amount uuid db = elim (find_reward p.idempotency_key db) [
  | some previous ↦ replay p amount previous db
  | none ↦ grant p amount uuid db
]

-- `amount <= 0 || !Number.isSafeInteger(amount)`
unfoldable pub reward_amount : Number → Option ℕ
reward_amount n = elim (safe_nat n) [
  | none ↦ none
  | some amount ↦ if ltb 0 amount then some amount else none
]

unfoldable pub apply_external_reward :
    RewardParams → Text → Db → Result RewardError (RewardResult × Db)
apply_external_reward p uuid db = do
  throw_if (is_bad_key p.idempotency_key) key_required
  amount ← or_throw amount_not_positive (reward_amount p.amount)
  apply_at p amount uuid db
