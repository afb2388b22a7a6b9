-- ===== src/CoreStore/Refill/Branches.antt =====
-- The early returns of `ensureUnlimitedEnergy`.
use emergent_inc.Common.{
  ℕ, ◌-◌, ◌^◌, ◌≡◌, ◌⊎◌, inl, inr, arith, Bool, true, false, some, Text, leb, ok, ok-injective,
  Option-cases, Bool-cases,
}
use emergent_inc.Store.{Db, PixelRow}
use emergent_inc.CoreStore.Pixels.{get_pixel_account}
use emergent_inc.CoreStore.Refill.{refill, ensure_unlimited_energy, needs_refill}

-- A refill that returns has left the database as it was, or was needed and granted.
pub ensure_branches :
    (uuid : Text → Db → Text) (unlimited : Text → Bool) (id : Text) (n : ℕ) (key : Text)
    (db db' : Db)
    → ensure_unlimited_energy uuid unlimited id n key db ≡ ok db'
    → (db ≡ db')
      ⊎ ((account : PixelRow) × (get_pixel_account id db ≡ some account)
          × (unlimited id ≡ true)
          × (leb (2 ^ 53 - 1) n ≡ false)
          × (needs_refill n account ≡ true)
          × (refill uuid id n key account db ≡ ok db'))
unfolding ensure_unlimited_energy
ensure_branches uuid unlimited id n key db db' e = elim (Bool-cases (unlimited id)) [
  | inr own ↦ inl (ok-injective db db' (rw (own, ensure_unlimited_energy) at e))
  | inl allowed ↦ elim (Bool-cases (leb (2 ^ 53 - 1) n)) [
    | inl large ↦ absurd (ground (arith, rw (allowed, large, ensure_unlimited_energy) at e))
    | inr small ↦ elim (Option-cases (get_pixel_account id db)) [
      | inl missing ↦
          inl (ok-injective db db' (rw (allowed, small, missing, ensure_unlimited_energy) at e))
      | inr (account, found) ↦ elim (Bool-cases (needs_refill n account)) [
        | inr enough ↦
            inl (
              ok-injective db db'
                (rw (allowed, small, found, enough, ensure_unlimited_energy) at e))
        | inl needed ↦ inr (
          account,
          found,
          allowed,
          small,
          needed,
          rw (allowed, small, found, needed, ensure_unlimited_energy) at e,
        )
      ]
    ]
  ]
]
