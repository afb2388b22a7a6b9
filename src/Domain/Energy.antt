-- ===== src/Domain/Energy.antt =====
-- packages/domain/src/energy/conservation.ts
pub mod Laws
use emergent_inc.Common.{Bool, not, Text, text_eq, Result, ok, ◌>>=◌, if◌then◌else◌}
use emergent_inc.Common.Int.{ℤ, ltb_ℤ}
use emergent_inc.Grid.{GridError, is_direct_neighbor}
use emergent_inc.Domain.Validation.{
  Number, integer, non_integer, is_not_positive_integer, Validation, valid, invalid,
  sender_inactive, invalid_amount, self_transfer_disallowed, non_neighbor_transfer,
  target_not_found, insufficient_energy,
}

pub record EnergyTransferValidationParams : Type 0 where
  pub from_pixel_id : Text
  pub from_energy : ℤ
  pub from_active : Bool
  pub to_pixel_id : Text
  pub to_exists : Bool
  pub amount : Number

-- `energy < amount`, which is asked only of positive integers
unfoldable pub is_below : ℤ → Number → Bool
is_below energy (integer z) = ltb_ℤ energy z
is_below energy non_integer = Bool.false

-- The checks behind the neighbour test.
check_target : EnergyTransferValidationParams → Bool → Validation
check_target p near =
    if not near
    then invalid non_neighbor_transfer
    else if not p.to_exists
    then invalid target_not_found
    else if is_below p.from_energy p.amount
    then invalid insufficient_energy
    else valid

-- The neighbour test throws if the sender's id has no position.
unfoldable pub validate_energy_transfer :
    EnergyTransferValidationParams → Result GridError Validation
unfolding check_target is_below
validate_energy_transfer p =
    if not p.from_active
    then ok (invalid sender_inactive)
    else if is_not_positive_integer p.amount
    then ok (invalid invalid_amount)
    else if text_eq p.from_pixel_id p.to_pixel_id
    then ok (invalid self_transfer_disallowed)
    else do near ← is_direct_neighbor p.from_pixel_id p.to_pixel_id; ok (check_target p near)
