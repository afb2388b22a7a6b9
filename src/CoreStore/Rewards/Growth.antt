-- ===== src/CoreStore/Rewards/Growth.antt =====
-- What a reward moves: the pixel's energy, the energy of all pixels, and the ledger.
use emergent_inc.Common.{
  ℕ, ◌+◌, ◌<◌, throw_if, ◌≡◌, ◌∙◌, ◌⊎◌, inl, inr, refl, sym, ap, subst, arith, true, none, some, [],
  ◌∷◌, ◌++◌, Text, codes, text_eq, ok, or_throw, or_throw-eq-ok, >>=-eq-ok, ok-injective,
  some-injective, Option-cases, Bool-cases,
}
use emergent_inc.Common.Int.{pos}
use emergent_inc.Domain.Validation.{Number}
use emergent_inc.Store.{Db, PixelRow, LedgerRow, RewardResult, RewardRow}
use emergent_inc.Store.Table.{exists_where}
use emergent_inc.Store.Unique.{
  HasUniqueKeys-append, total-append, select_first-append, select_first-none,
}
use emergent_inc.CoreStore.Types.{
  key_required, amount_not_positive, rewarded_pixel_not_found, entry_exists, RewardParams,
}
use emergent_inc.CoreStore.Pixels.{
  has_id, get_pixel_account, upsert_pixel_account, moved, update_energy,
}
use emergent_inc.CoreStore.Pixels.Energy.{
  energy_in, energy_of, HasUniquePixels, Gains, update_energy-Gains, OnlyAccounts,
  update_energy-OnlyAccounts,
}
use emergent_inc.CoreStore.Ledger.{LedgerEntry, ledger_row, append_entry}
use emergent_inc.CoreStore.Rewards.{
  find_reward, new_account, with_account, reward_entry, reward_result, reward_row, stored, grant,
  replay, apply_at, reward_amount, is_bad_key, request_of, request_eq, apply_external_reward,
}

-- The account that a reward opens holds nothing.
record IsOpened (id : Text) (db db' : Db) : Type 0 where
  gains : Gains id 0 db db'
  unique : HasUniquePixels db'
  frame : OnlyAccounts db db'

new_account-IsOpened :
    (id : Text) (db : Db)
    → HasUniquePixels db
    → get_pixel_account id db ≡ none
    → IsOpened id db (upsert_pixel_account (new_account id) db)
unfolding upsert_pixel_account get_pixel_account
new_account-IsOpened id db unique missing =
    let key = λ (p : PixelRow). p.pixel_id in
    let free = select_first-none key (has_id id) db.pixel_accounts missing in
    rw free (record {
      gains = record {
        own =
            ap energy_in
              (select_first-append key id db.pixel_accounts (new_account id) missing refl)
            ∙ sym (ap (λ o. energy_in o + 0) missing);
        all = total-append key (λ p. p.energy) db.pixel_accounts (new_account id);
      };
      unique = HasUniqueKeys-append key db.pixel_accounts (new_account id) free unique;
      frame = record { ledger = refl; rewards = refl };
    })

with_account-IsOpened :
    (id : Text) (db : Db) → HasUniquePixels db → IsOpened id db (with_account id db)
unfolding with_account
with_account-IsOpened id db unique = elim (Option-cases (get_pixel_account id db)) [
  | inl missing ↦ rw (missing, with_account) (new_account-IsOpened id db unique missing)
  | inr (row, found) ↦
      rw (found, with_account)
        (record {
          gains = record { own = omega arith; all = omega arith };
          unique = unique;
          frame = record { ledger = refl; rewards = refl };
        })
]

pub append_entry-appends :
    (entry : LedgerEntry) (db db' : Db)
    → append_entry entry db ≡ some db'
    → db' ≡ record db { ledger_entries = db.ledger_entries ++ ledger_row entry db ∷ [] }
unfolding append_entry
append_entry-appends entry db db' e =
    elim (Bool-cases
      (exists_where (λ row. text_eq row.entry_id entry.entry_id) db.ledger_entries)) [
        | inl taken ↦ absurd (ground (arith, rw (taken, append_entry) at e))
        | inr fresh ↦ sym (some-injective _ db' (rw (fresh, append_entry) at e))
      ]

-- A reward that is granted: what it changes, and what it answers.
pub record IsGranted (p : RewardParams) (amount : ℕ) (db : Db) (result : RewardResult) (db' : Db)
    : Type 0 where
  pub gains : Gains p.pixel_id amount db db'
  pub unique : HasUniquePixels db'
  pub balance : result.new_balance ≡ energy_of p.pixel_id db'
  pub entry : LedgerRow
  pub entered : db'.ledger_entries ≡ db.ledger_entries ++ entry ∷ []
  pub entry_of : entry.pixel_id ≡ p.pixel_id
  pub entry_amount : entry.amount ≡ pos amount
  pub entry_balance : entry.balance_after ≡ energy_of p.pixel_id db'
  pub remembered :
      db'.external_reward_requests ≡ db.external_reward_requests ++ reward_row p amount result ∷ []

reward_result-IsGranted :
    (p : RewardParams) (amount balance : ℕ) (entry_id : Text) (db moved : Db)
    → HasUniquePixels db
    → update_energy p.pixel_id (pos amount) (with_account p.pixel_id db) ≡ some (balance, moved)
    → let result = reward_result p amount balance entry_id in
      let entry = ledger_row (reward_entry p amount balance entry_id) moved in
      IsGranted p amount db result (
        stored p amount result
          (record moved { ledger_entries = moved.ledger_entries ++ entry ∷ [] }))
unfolding get_pixel_account ledger_row
reward_result-IsGranted p amount balance entry_id db moved unique e =
    let opened = with_account-IsOpened p.pixel_id db unique in
    let start = with_account p.pixel_id db in
    let (grown, returned) =
      update_energy-Gains p.pixel_id amount balance start moved opened.unique e in
    let (frame, kept) =
      update_energy-OnlyAccounts p.pixel_id (pos amount) start (balance, moved) opened.unique e in
    record {
      gains = record {
        own = omega (arith, grown.own, opened.gains.own);
        all = omega (arith, grown.all, opened.gains.all);
      };
      unique = kept;
      balance = returned ∙ sym grown.own;
      entry = ledger_row (reward_entry p amount balance entry_id) moved;
      entered =
          ap (λ rows. rows ++ ledger_row (reward_entry p amount balance entry_id) moved ∷ [])
            (frame.ledger ∙ opened.frame.ledger);
      entry_of = refl;
      entry_amount = refl;
      entry_balance = returned ∙ sym grown.own;
      remembered =
          ap (λ rows. rows ++ reward_row p amount (reward_result p amount balance entry_id) ∷ [])
            (frame.rewards ∙ opened.frame.rewards);
    }

replay_inv :
    (p : RewardParams) (amount : ℕ) (row : RewardRow) (db : Db) (result : RewardResult) (db' : Db)
    → replay p amount row db ≡ ok (result, db')
    → (request_eq row.request (request_of p amount) ≡ true)
      × (◌≡◌ {A = RewardResult × Db} (result, db') (row.result, db))
unfolding replay
replay_inv p amount row db result db' e =
    elim (Bool-cases (request_eq row.request (request_of p amount))) [
      | inl same ↦ (same, sym (ok-injective _ (result, db') (rw (same, replay) at e)))
      | inr other ↦ absurd (ground (arith, rw (other, replay) at e))
    ]

reward_amount_positive : (n : Number) (amount : ℕ) → reward_amount n ≡ some amount → 0 < amount
unfolding reward_amount
reward_amount_positive n amount e = ground arith

pub grant-IsGranted :
    (p : RewardParams) (amount : ℕ) (uuid : Text) (db : Db) (result : RewardResult) (db' : Db)
    → HasUniquePixels db
    → grant p amount uuid db ≡ ok (result, db')
    → IsGranted p amount db result db'
unfolding grant
grant-IsGranted p amount uuid db result db' unique e =
    let id = codes "reward_" ++ uuid in
    let (m, em, e1) =
      >>=-eq-ok
        (or_throw rewarded_pixel_not_found
          (update_energy p.pixel_id (pos amount) (with_account p.pixel_id db)))
        _ e in
    let (entered, ee, e2) =
      >>=-eq-ok (or_throw entry_exists (append_entry (reward_entry p amount m.0 id) m.1)) _ e1 in
    let into =
      append_entry-appends (reward_entry p amount m.0 id) m.1 entered
        (or_throw-eq-ok entry_exists _ ee) in
    let answer = reward_result p amount m.0 id in
    subst (λ q. IsGranted p amount db q.0 q.1) (ok-injective _ (result, db') e2)
      (subst (λ d. IsGranted p amount db answer (stored p amount answer d)) (sym into)
        (reward_result-IsGranted p amount m.0 id db m.1 unique
          (or_throw-eq-ok rewarded_pixel_not_found _ em)))

-- A reward that does not throw either answers what the row stored under its key says, that row
-- being of the same pixel, amount, source and reason, and changes nothing; or its key is new, and,
-- in a table with one row for each pixel: the pixel's energy and the sum of all pixels' energy grow
-- by exactly the amount, which is positive, the balance that it answers is the pixel's energy after
-- it, and one entry with this amount and balance is added at
-- the ledger's end, as is a row with the request and the answer.
pub apply_external_reward-IsGranted :
    (p : RewardParams) (uuid : Text) (db : Db) (result : RewardResult) (db' : Db)
    → HasUniquePixels db
    → apply_external_reward p uuid db ≡ ok (result, db')
    → (amount : ℕ) × (reward_amount p.amount ≡ some amount)
      × (((row : RewardRow) × (find_reward p.idempotency_key db ≡ some row)
            × (request_eq row.request (request_of p amount) ≡ true)
            × (result ≡ row.result)
            × (db' ≡ db))
          ⊎ ((find_reward p.idempotency_key db ≡ none)
              × (0 < amount)
              × IsGranted p amount db result db'))
unfolding apply_external_reward apply_at
apply_external_reward-IsGranted p uuid db result db' unique e =
    let (u, eu, e1) = >>=-eq-ok (throw_if (is_bad_key p.idempotency_key) key_required) _ e in
    let (amount, ea, e2) = >>=-eq-ok (or_throw amount_not_positive (reward_amount p.amount)) _ e1 in
    let known = or_throw-eq-ok amount_not_positive _ ea in
    elim (Option-cases (find_reward p.idempotency_key db)) [
      | inl new ↦ (
        amount,
        known,
        inr (
          new,
          reward_amount_positive p.amount amount known,
          grant-IsGranted p amount uuid db result db' unique (rw (new, apply_at) at e2),
        ),
      )
      | inr (row, old) ↦
          let (same, answer) = replay_inv p amount row db result db' (rw (old, apply_at) at e2) in
          (amount, known, inl (row, old, same, ap (λ q. q.0) answer, ap (λ q. q.1) answer))
    ]
