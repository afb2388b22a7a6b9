-- ===== src/CoreStore/Ledger.antt =====
-- packages/persistence/src/repositories/ledger_repository.ts. Where an entry does not name a
-- binding, that of the pixel's current character is taken.
use emergent_inc.Common.{
  ℕ, not, ◌&&◌, Option, none, some, [], ◌∷◌, ◌++◌, Text, text_eq, if◌then◌else◌,
}
use emergent_inc.Common.Int.{ℤ}
use emergent_inc.Store.{Db, LedgerRow}
use emergent_inc.Store.Table.{select_first, exists_where}

-- `binding_id` is none where the source has `undefined`.
pub record LedgerEntry : Type 0 where
  pub entry_id : Text
  pub pixel_id : Text
  pub binding_id : Option (Option Text)
  pub entry_type : Text
  pub amount : ℤ
  pub balance_after : ℕ

-- `SELECT binding_id … WHERE pixel_id = ? AND unbound_at IS NULL`
unfoldable pub current_binding : Text → Db → Option Text
current_binding id db =
    elim (select_first (λ b. text_eq b.pixel_id id && not b.unbound) db.qianji_bindings) [
      | none ↦ none
      | some b ↦ some b.binding_id
    ]

unfoldable pub ledger_row : LedgerEntry → Db → LedgerRow
unfolding current_binding
ledger_row entry db = record {
  entry_id = entry.entry_id;
  pixel_id = entry.pixel_id;
  binding_id = elim entry.binding_id [
    | none ↦ current_binding entry.pixel_id db
    | some given ↦ given
  ];
  entry_type = entry.entry_type;
  amount = entry.amount;
  balance_after = entry.balance_after;
}

-- none where the primary key is taken
unfoldable pub append_entry : LedgerEntry → Db → Option Db
append_entry entry db =
    if exists_where (λ row. text_eq row.entry_id entry.entry_id) db.ledger_entries
    then none
    else some (record db { ledger_entries = db.ledger_entries ++ ledger_row entry db ∷ [] })
