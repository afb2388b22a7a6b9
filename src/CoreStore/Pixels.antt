-- ===== src/CoreStore/Pixels.antt =====
-- packages/persistence/src/repositories/pixel_repository.ts
pub mod Energy
use emergent_inc.Common.{
  ℕ, ◌+◌, Bool, Option, none, some, List, [], ◌∷◌, ◌++◌, Text, text_eq, ltb, if◌then◌else◌, ◌==◌,
}
use emergent_inc.Common.Int.{ℤ, pos, pos_part, ◌+ℤ◌}
use emergent_inc.Store.{Db, PixelRow}
use emergent_inc.Store.Table.{select_first, exists_where, update_where}

abbrev pub has_id : Text → PixelRow → Bool
has_id id row = text_eq row.pixel_id id

unfoldable pub get_pixel_account : Text → Db → Option PixelRow
get_pixel_account id db = select_first (has_id id) db.pixel_accounts

-- `INSERT … ON CONFLICT(pixel_id) DO UPDATE`
unfoldable pub upsert_pixel_account : PixelRow → Db → Db
upsert_pixel_account account db = record db {
  pixel_accounts =
      if exists_where (has_id account.pixel_id) db.pixel_accounts
      then update_where (has_id account.pixel_id) (λ row. account) db.pixel_accounts
      else db.pixel_accounts ++ account ∷ [];
}

-- `energy = MAX(0, energy + ?)`, and active is `energy + ? > 0`.
unfoldable pub moved : ℤ → PixelRow → PixelRow
moved delta row =
    let energy_after = pos_part (pos row.energy +ℤ delta) in
    record row { energy = energy_after; active = ltb 0 energy_after }

-- The energy that `UPDATE … RETURNING` gives back, and none where no row has the id.
unfoldable pub update_energy : Text → ℤ → Db → Option (ℕ × Db)
update_energy id delta db = elim (get_pixel_account id db) [
  | none ↦ none
  | some row ↦ some (
    (moved delta row).energy,
    record db { pixel_accounts = update_where (has_id id) (moved delta) db.pixel_accounts },
  )
]

unfoldable pub set_active : Text → Bool → Db → Db
set_active id active db = record db {
  pixel_accounts =
      update_where (has_id id) (λ row. record row { active = active }) db.pixel_accounts;
}

unfoldable pub active_rows : List PixelRow → List PixelRow
active_rows [] = []
active_rows (row ∷ rows) = if row.active then row ∷ active_rows rows else active_rows rows

unfoldable pub list_active_pixels : Db → List PixelRow
unfolding active_rows
list_active_pixels db = active_rows db.pixel_accounts
