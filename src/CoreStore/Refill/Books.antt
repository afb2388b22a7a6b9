-- ===== src/CoreStore/Refill/Books.antt =====
-- The refill of the store, and the tables of the budget.
use emergent_inc.Common.{
  ℕ, ◌≡◌, ◌∙◌, inl, inr, refl, sym, subst, arith, Bool, some, List, Text, ok, >>=-eq-ok, throw_if,
  or_throw, or_throw-eq-ok, ok-injective, some-injective, Option-cases, Bool-cases, Result-cases,
  codes, ◌++◌,
}
use emergent_inc.Common.Int.{pos}
use emergent_inc.Store.{Db, PixelRow, RewardResult, RewardRow}
use emergent_inc.Budget.Accounting.{IsAccounted}
use emergent_inc.Budget.Books.{
  SameBooks, SameBooks-refl, RefillKeepsBooks, Request, perform_all, perform_all-IsAccounted,
}
use emergent_inc.CoreStore.Types.{
  key_required, amount_not_positive, rewarded_pixel_not_found, entry_exists, RewardParams,
}
use emergent_inc.CoreStore.Pixels.{get_pixel_account, upsert_pixel_account, update_energy}
use emergent_inc.CoreStore.Ledger.{LedgerEntry, append_entry}
use emergent_inc.CoreStore.Rewards.{
  is_bad_key, reward_amount, request_eq, request_of, reward_entry, with_account, find_reward, grant,
  replay, apply_at, apply_external_reward,
}
use emergent_inc.CoreStore.Rewards.Growth.{append_entry-appends}
use emergent_inc.CoreStore.Refill.Branches.{ensure_branches}
use emergent_inc.CoreStore.Refill.{
  refill, ensure_unlimited_energy, core_policy, refill_key, refill_reward,
}

SameBooks-trans : (a b c : Db) → SameBooks a b → SameBooks b c → SameBooks a c
SameBooks-trans a b c h k = record {
  runs = k.runs ∙ h.runs;
  executions = k.executions ∙ h.executions;
  reservations = k.reservations ∙ h.reservations;
  global_budget = k.global_budget ∙ h.global_budget;
}

with_account-SameBooks : (id : Text) (db : Db) → SameBooks db (with_account id db)
unfolding with_account upsert_pixel_account
with_account-SameBooks id db = elim (Option-cases (get_pixel_account id db)) [
  | inl missing ↦
      rw (missing, with_account)
        (record { runs = refl; executions = refl; reservations = refl; global_budget = refl })
  | inr (row, found) ↦
      rw (found, with_account)
        (record { runs = refl; executions = refl; reservations = refl; global_budget = refl })
]

update_energy-SameBooks :
    (id : Text) (amount : ℕ) (db : Db) (q : ℕ × Db)
    → update_energy id (pos amount) db ≡ some q
    → SameBooks db q.1
unfolding update_energy
update_energy-SameBooks id amount db q e = elim (Option-cases (get_pixel_account id db)) [
  | inl missing ↦ absurd (ground (arith, rw (missing, update_energy) at e))
  | inr (row, found) ↦
      subst (λ q. SameBooks db q.1) (some-injective _ q (rw (found, update_energy) at e))
        (record { runs = refl; executions = refl; reservations = refl; global_budget = refl })
]

append_entry-SameBooks :
    (entry : LedgerEntry) (db db' : Db) → append_entry entry db ≡ some db' → SameBooks db db'
unfolding append_entry
append_entry-SameBooks entry db db' e =
    subst (SameBooks db) (sym (append_entry-appends entry db db' e))
      (record { runs = refl; executions = refl; reservations = refl; global_budget = refl })

grant-SameBooks :
    (p : RewardParams) (amount : ℕ) (uuid : Text) (db : Db) (q : RewardResult × Db)
    → grant p amount uuid db ≡ ok q
    → SameBooks db q.1
unfolding grant
grant-SameBooks p amount uuid db q e =
    let id = codes "reward_" ++ uuid in
    let opened = with_account p.pixel_id db in
    let (m, em, e1) =
      >>=-eq-ok (or_throw rewarded_pixel_not_found (update_energy p.pixel_id (pos amount) opened)) _
        e in
    let (entered, ee, e2) =
      >>=-eq-ok (or_throw entry_exists (append_entry (reward_entry p amount m.0 id) m.1)) _ e1 in
    let first = SameBooks-trans db opened m.1 (with_account-SameBooks p.pixel_id db) (
      update_energy-SameBooks p.pixel_id amount opened m
        (or_throw-eq-ok rewarded_pixel_not_found _ em)) in
    let second =
      append_entry-SameBooks (reward_entry p amount m.0 id) m.1 entered
        (or_throw-eq-ok entry_exists _ ee) in
    let both = SameBooks-trans db m.1 entered first second in
    subst (λ q. SameBooks db q.1) (ok-injective _ q e2)
      (record {
        runs = both.runs;
        executions = both.executions;
        reservations = both.reservations;
        global_budget = both.global_budget;
      })

replay-SameBooks :
    (p : RewardParams) (amount : ℕ) (row : RewardRow) (db : Db) (q : RewardResult × Db)
    → replay p amount row db ≡ ok q
    → SameBooks db q.1
unfolding replay
replay-SameBooks p amount row db q e =
    elim (Bool-cases (request_eq row.request (request_of p amount))) [
      | inl same ↦
          subst (λ q. SameBooks db q.1) (ok-injective _ q (rw (same, replay) at e))
            (SameBooks-refl db)
      | inr other ↦ absurd (ground (arith, rw (other, replay) at e))
    ]

reward-SameBooks :
    (p : RewardParams) (uuid : Text) (db : Db) (q : RewardResult × Db)
    → apply_external_reward p uuid db ≡ ok q
    → SameBooks db q.1
unfolding apply_external_reward apply_at grant replay
reward-SameBooks p uuid db q e =
    let (u, eu, e1) = >>=-eq-ok (throw_if (is_bad_key p.idempotency_key) key_required) _ e in
    let (amount, ea, e2) = >>=-eq-ok (or_throw amount_not_positive (reward_amount p.amount)) _ e1 in
    elim (Option-cases (find_reward p.idempotency_key db)) [
      | inl new ↦ grant-SameBooks p amount uuid db q (rw (new, apply_at) at e2)
      | inr (row, old) ↦ replay-SameBooks p amount row db q (rw (old, apply_at) at e2)
    ]

refill-SameBooks :
    (uuid : Text → Db → Text) (id : Text) (n : ℕ) (key : Text) (account : PixelRow) (db db' : Db)
    → refill uuid id n key account db ≡ ok db'
    → SameBooks db db'
unfolding refill
refill-SameBooks uuid id n key account db db' e =
    elim (Option-cases (find_reward (refill_key key) db)) [
      | inr (row, used) ↦
          subst (SameBooks db) (ok-injective db db' (rw (used, refill) at e)) (SameBooks-refl db)
      | inl unused ↦
          let p = refill_reward id n key account.energy in
          elim (Result-cases (apply_external_reward p (uuid key db) db)) [
            | inl (q, done) ↦
                subst (SameBooks db) (ok-injective q.1 db' (rw (unused, done, refill) at e))
                  (reward-SameBooks p (uuid key db) db q done)
            | inr (x, threw) ↦ absurd (ground (arith, rw (unused, threw, refill) at e))
          ]
    ]

ensure-SameBooks :
    (uuid : Text → Db → Text) (unlimited : Text → Bool) (id : Text) (n : ℕ) (key : Text)
    (db db' : Db)
    → ensure_unlimited_energy uuid unlimited id n key db ≡ ok db'
    → SameBooks db db'
unfolding ensure_unlimited_energy
ensure-SameBooks uuid unlimited id n key db db' e =
    elim (ensure_branches uuid unlimited id n key db db' e) [
      | inl same ↦ subst (SameBooks db) same (SameBooks-refl db)
      | inr (account, found, allowed, small, needed, filled) ↦
          refill-SameBooks uuid id n key account db db' filled
    ]

-- The hypothesis on the energy callback of the budget's operations holds of the store's callback.
ensure-RefillKeepsBooks :
    (uuid : Text → Db → Text) (company unlimited : Text → Bool)
    → RefillKeepsBooks (core_policy uuid company unlimited)
ensure-RefillKeepsBooks uuid company unlimited id n key db db' e =
    ensure-SameBooks uuid unlimited id n key db db' e

-- In the store, whose budget repository refills energy by `ensureUnlimitedEnergy`, whatever the
-- owner's policies and the UUIDs are: whatever reservations, settlements and refunds are tried, in
-- any order and with any that throw, the reserved tokens of every run, of every execution and of
-- the whole budget stay the sums of the open reservations that name them, if no call has two
-- reservations and they are so at first.
pub core_store-IsAccounted :
    (uuid : Text → Db → Text) (company unlimited : Text → Bool) (rs : List Request) (db : Db)
    → IsAccounted db
    → IsAccounted (perform_all (core_policy uuid company unlimited) rs db)
core_store-IsAccounted uuid company unlimited rs db h =
    perform_all-IsAccounted (core_policy uuid company unlimited) rs db
      (ensure-RefillKeepsBooks uuid company unlimited) h
