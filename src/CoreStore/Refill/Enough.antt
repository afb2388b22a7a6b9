-- ===== src/CoreStore/Refill/Enough.antt =====
-- A refill that is needed succeeds, and leaves enough.
use emergent_inc.Common.{◌≡◌, false, Text, codes, ◌++◌, text_eq}
use emergent_inc.Store.{Db}
use emergent_inc.Store.Table.{exists_where}

-- The entry id that the reward would take is free.
abbrev pub IsFreshEntry : Text → Db → Type 0
IsFreshEntry uuid db =
    exists_where (λ row. text_eq row.entry_id (codes "reward_" ++ uuid)) db.ledger_entries ≡ false
