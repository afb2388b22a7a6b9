-- ===== src/CoreStore/Pixels/Energy.antt =====
-- What `updateEnergy` does to the pixel's energy and to the energy of all pixels.
use emergent_inc.Common.{
  ℕ, ◌+◌, ◌≤◌, ◌≡◌, inl, inr, refl, sym, ap, subst, arith, false, Option, none, some, Text, text_eq,
  some-injective, Option-cases,
}
use emergent_inc.Common.Int.{ℤ, pos, ◌+ℤ◌, ◌-ℤ◌}
use emergent_inc.Store.{Db, PixelRow}
use emergent_inc.Store.Table.{update_where}
use emergent_inc.Store.Unique.{
  HasUniqueKeys, HasUniqueKeys-update_where, total, total-update_where, select_first-update_where,
  select_first-update_other,
}
use emergent_inc.CoreStore.Pixels.{has_id, get_pixel_account, moved, update_energy}

abbrev pub energy_in : Option PixelRow → ℕ
energy_in none = 0
energy_in (some account) = account.energy

-- `account?.energy ?? 0`
abbrev pub energy_of : Text → Db → ℕ
energy_of id db = energy_in (get_pixel_account id db)

abbrev pub total_energy : Db → ℕ
total_energy db = total (λ p. p.pixel_id) (λ p. p.energy) db.pixel_accounts

abbrev pub HasUniquePixels : Db → Type 0
HasUniquePixels db = HasUniqueKeys (λ p. p.pixel_id) db.pixel_accounts

-- An amount more for one pixel, and nothing else in the accounts.
pub record Gains (id : Text) (amount : ℕ) (db db' : Db) : Type 0 where
  pub own : energy_of id db' ≡ energy_of id db + amount
  pub all : total_energy db' ≡ total_energy db + amount

-- An update needs a row, and gives back its new energy.
pub update_energy-finds :
    (id : Text) (delta : ℤ) (db : Db) (q : ℕ × Db)
    → update_energy id delta db ≡ some q
    → (row : PixelRow) × (get_pixel_account id db ≡ some row)
      × (◌≡◌ {A = ℕ × Db}
          (
            (moved delta row).energy,
            record db { pixel_accounts = update_where (has_id id) (moved delta) db.pixel_accounts },
          )
          q)
unfolding update_energy
update_energy-finds id delta db q e = elim (Option-cases (get_pixel_account id db)) [
  | inl missing ↦ absurd (ground (arith, rw (missing, update_energy) at e))
  | inr (row, found) ↦ (row, found, some-injective _ q (rw (found, update_energy) at e))
]

-- The energy of the pixel and of all pixels, by what the update makes of the row.
record Changes (id : Text) (before after : ℕ) (db db' : Db) : Type 0 where
  own_before : energy_of id db ≡ before
  own : energy_of id db' ≡ after
  all : total_energy db' + before ≡ total_energy db + after

update_energy-Changes :
    (id : Text) (delta : ℤ) (db : Db) (q : ℕ × Db)
    → HasUniquePixels db
    → update_energy id delta db ≡ some q
    → (row : PixelRow) × (energy_of id db ≡ row.energy)
      × (q.0 ≡ (moved delta row).energy)
      × Changes id row.energy (moved delta row).energy db q.1
unfolding get_pixel_account moved
update_energy-Changes id delta db q unique e =
    let (row, found, same) = update_energy-finds id delta db q e in
    let key = λ (p : PixelRow). p.pixel_id in
    let before = ap energy_in found in
    (
      row,
      before,
      sym (ap (λ q. q.0) same),
      subst (λ q. Changes id row.energy (moved delta row).energy db q.1) same
          (record {
            own_before = before;
            own =
                ap energy_in
                  (select_first-update_where key id (moved delta) db.pixel_accounts row refl found);
            all =
                total-update_where key id (moved delta) (λ p. p.energy) db.pixel_accounts row unique
                  found;
          }),
    )

pub update_energy-Gains :
    (id : Text) (amount balance : ℕ) (db db' : Db)
    → HasUniquePixels db
    → update_energy id (pos amount) db ≡ some (balance, db')
    → Gains id amount db db' × (balance ≡ energy_of id db + amount)
unfolding moved ◌+ℤ◌
update_energy-Gains id amount balance db db' unique e =
    let (row, before, returned, c) =
      update_energy-Changes id (pos amount) db (balance, db') unique e in
    let more : (moved (pos amount) row).energy ≡ row.energy + amount = ground arith in
    (
      record { own = omega (arith, c.own, before, more); all = omega (arith, c.all, more) },
      omega (arith, returned, more, before),
    )

-- An amount less for one pixel, which has it, and nothing else in the accounts.
pub record Loses (id : Text) (amount : ℕ) (db db' : Db) : Type 0 where
  pub own : energy_of id db' + amount ≡ energy_of id db
  pub all : total_energy db' + amount ≡ total_energy db

pub update_energy-Loses :
    (id : Text) (amount : ℕ) (db : Db) (q : ℕ × Db)
    → HasUniquePixels db
    → amount ≤ energy_of id db
    → update_energy id (pos 0 -ℤ pos amount) db ≡ some q
    → Loses id amount db q.1
unfolding moved ◌+ℤ◌ ◌-ℤ◌
update_energy-Loses id amount db q unique enough e =
    let (row, before, returned, c) = update_energy-Changes id (pos 0 -ℤ pos amount) db q unique e in
    let less : (moved (pos 0 -ℤ pos amount) row).energy + amount ≡ row.energy =
      ground (arith, before) in
    record { own = omega (arith, c.own, before, less); all = omega (arith, c.all, less) }

-- The other pixels keep their energy.
pub update_energy-others :
    (id other : Text) (delta : ℤ) (db : Db) (q : ℕ × Db)
    → text_eq id other ≡ false
    → update_energy id delta db ≡ some q
    → energy_of other q.1 ≡ energy_of other db
unfolding get_pixel_account moved
update_energy-others id other delta db q apart e =
    let (row, found, same) = update_energy-finds id delta db q e in
    subst (λ q. energy_of other q.1 ≡ energy_of other db) same
      (ap energy_in (
        select_first-update_other (λ p. p.pixel_id) id other (moved delta) db.pixel_accounts
          (λ p. refl) apart))

-- Only the accounts differ, of the tables that rewards and transfers write.
pub record OnlyAccounts (db db' : Db) : Type 0 where
  pub ledger : db'.ledger_entries ≡ db.ledger_entries
  pub rewards : db'.external_reward_requests ≡ db.external_reward_requests

pub update_energy-OnlyAccounts :
    (id : Text) (delta : ℤ) (db : Db) (q : ℕ × Db)
    → HasUniquePixels db
    → update_energy id delta db ≡ some q
    → OnlyAccounts db q.1 × HasUniquePixels q.1
unfolding moved
update_energy-OnlyAccounts id delta db q unique e =
    let (row, found, same) = update_energy-finds id delta db q e in
    subst (λ q. OnlyAccounts db q.1 × HasUniquePixels q.1) same
      (
        record { ledger = refl; rewards = refl },
        HasUniqueKeys-update_where (λ p. p.pixel_id) id (moved delta) db.pixel_accounts (λ p. refl)
            unique,
      )
