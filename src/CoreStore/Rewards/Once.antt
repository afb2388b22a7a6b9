-- ===== src/CoreStore/Rewards/Once.antt =====
-- A reward and its idempotency key.
use emergent_inc.Common.{
  ℕ, ◌≡◌, ◌∙◌, inl, inr, refl, sym, ap, subst, arith, true, false, some, Text, text_eq,
  text_eq_refl, text_eq_iff, some-injective, if◌then◌else◌, Bool-cases, ok, err,
}
use emergent_inc.Store.{Db, RewardRequest, RewardResult, RewardRow}
use emergent_inc.Store.Table.{select_first, select_first-meets}
use emergent_inc.Store.Unique.{select_first-append}
use emergent_inc.CoreStore.Types.{key_conflict, RewardParams}
use emergent_inc.CoreStore.Pixels.Energy.{HasUniquePixels}
use emergent_inc.CoreStore.Rewards.{
  find_reward, reward_row, replay, apply_at, reward_amount, is_bad_key, request_of, request_eq,
  apply_external_reward,
}
use emergent_inc.CoreStore.Rewards.Growth.{apply_external_reward-IsGranted}

request_eq_refl : (r : RewardRequest) → request_eq r r ≡ true
unfolding request_eq
request_eq_refl r =
    ground (arith, text_eq_refl r.pixel_id, text_eq_refl r.source, text_eq_refl r.reason)

request_eq_sound : (r s : RewardRequest) → request_eq r s ≡ true → r ≡ s
unfolding request_eq
request_eq_sound r s h = ground (
  arith,
  (text_eq_iff r.pixel_id s.pixel_id).0,
  (text_eq_iff r.source s.source).0,
  (text_eq_iff r.reason s.reason).0,
)

reward_row_of :
    (p : RewardParams) (amount : ℕ) (row : RewardRow) (result : RewardResult)
    → row.idempotency_key ≡ p.idempotency_key
    → row.request ≡ request_of p amount
    → result ≡ row.result
    → row ≡ reward_row p amount result
reward_row_of p amount row result e f g = ground (arith, e, f, g)

-- After the reward its key leads to a row that says so.
apply_external_reward-remembers :
    (p : RewardParams) (uuid : Text) (db : Db) (result : RewardResult) (db' : Db)
    → HasUniquePixels db
    → apply_external_reward p uuid db ≡ ok (result, db')
    → (amount : ℕ) × (reward_amount p.amount ≡ some amount)
      × (find_reward p.idempotency_key db' ≡ some (reward_row p amount result))
unfolding find_reward
apply_external_reward-remembers p uuid db result db' unique e =
    let (amount, known, how) = apply_external_reward-IsGranted p uuid db result db' unique e in
    elim how [
      | inl (row, found, same, answer, kept) ↦
          let key =
            select_first-meets (λ row. text_eq row.idempotency_key p.idempotency_key)
              db.external_reward_requests row found in
          let whole =
            reward_row_of p amount row result
              ((text_eq_iff row.idempotency_key p.idempotency_key).0 key)
              (request_eq_sound row.request (request_of p amount) same) answer in
          (amount, known, rw kept (found ∙ ap some whole))
      | inr (new, positive, granted) ↦ (
        amount,
        known,
        ap (λ rows. select_first (λ row. text_eq row.idempotency_key p.idempotency_key) rows)
              granted.remembered
            ∙ select_first-append (λ row. row.idempotency_key) p.idempotency_key
                db.external_reward_requests (reward_row p amount result) new refl,
      )
    ]

good_key :
    (p : RewardParams) (uuid : Text) (db : Db) (last : RewardResult × Db)
    → apply_external_reward p uuid db ≡ ok last
    → is_bad_key p.idempotency_key ≡ false
unfolding apply_external_reward
good_key p uuid db last e = elim (Bool-cases (is_bad_key p.idempotency_key)) [
  | inl bad ↦ absurd (ground (arith, rw (bad, apply_external_reward) at e))
  | inr good ↦ good
]

-- A reward is granted once for each key: after a reward has succeeded, in a table with one row for
-- each pixel, any later call under the same key, whose amount is a positive safe integer, gives the
-- same answer and changes nothing where it asks for the same pixel, amount, source and reason, and
-- is refused where it does not.
pub apply_external_reward-once :
    (p q : RewardParams) (uuid uuid' : Text) (n m : ℕ) (db : Db) (result : RewardResult) (db' : Db)
    → HasUniquePixels db
    → apply_external_reward p uuid db ≡ ok (result, db')
    → q.idempotency_key ≡ p.idempotency_key
    → reward_amount p.amount ≡ some n
    → reward_amount q.amount ≡ some m
    → apply_external_reward q uuid' db' ≡ (
        if request_eq (request_of p n) (request_of q m) then ok (result, db') else err key_conflict)
unfolding apply_external_reward apply_at replay
apply_external_reward-once p q uuid uuid' n m db result db' unique e key an am =
    let (amount, known, found) = apply_external_reward-remembers p uuid db result db' unique e in
    let good = good_key p uuid db (result, db') e in
    let same = some-injective amount n (sym known ∙ an) in
    let good' = subst (λ k. is_bad_key k ≡ false) (sym key) good in
    let found' =
      subst (λ k. find_reward k db' ≡ some (reward_row p n result)) (sym key)
        (subst (λ a. find_reward p.idempotency_key db' ≡ some (reward_row p a result)) same
          found) in
    rw (good', am, found', apply_at, replay) refl
