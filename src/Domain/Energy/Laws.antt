-- ===== src/Domain/Energy/Laws.antt =====
-- `validateEnergyTransfer` against the transfers that may happen.
use emergent_inc.Common.{ℕ, suc, ◌≡◌, ◌↔◌, true, false, text_eq, arith, ok, err}
use emergent_inc.Common.Int.{pos, ◌≤ℤ◌}
use emergent_inc.Grid.{is_direct_neighbor, id_to_coord, GridError}
use emergent_inc.Grid.Adjacency.{Near, is_direct_neighbor_iff, is_direct_neighbor_self}
use emergent_inc.Domain.Validation.{integer, is_not_positive_integer, positive_integer, valid}
use emergent_inc.Domain.Energy.{EnergyTransferValidationParams, is_below, validate_energy_transfer}

-- What a transfer needs: an active sender, a positive whole amount that the sender has, and an
-- existing receiver one step away.
pub record MayTransfer (p : EnergyTransferValidationParams) : Type 0 where
  pub active : p.from_active ≡ true
  pub amount : ℕ
  pub amount_is : p.amount ≡ integer (pos (suc amount))
  pub covered : pos (suc amount) ≤ℤ p.from_energy
  pub exists : p.to_exists ≡ true
  pub near : Near p.from_pixel_id p.to_pixel_id

-- The tests that an admitted transfer has passed.
passed_tests :
    (p : EnergyTransferValidationParams)
    → validate_energy_transfer p ≡ ok valid
    → (p.from_active ≡ true)
      × (is_not_positive_integer p.amount ≡ false)
      × (is_direct_neighbor p.from_pixel_id p.to_pixel_id ≡ ok true)
      × (p.to_exists ≡ true)
      × (is_below p.from_energy p.amount ≡ false)
unfolding validate_energy_transfer
passed_tests p h = ground arith

validate_energy_transfer_sound :
    (p : EnergyTransferValidationParams) → validate_energy_transfer p ≡ ok valid → MayTransfer p
unfolding is_below
validate_energy_transfer_sound p h =
    let (active, positive, accepted, exists, covered) = passed_tests p h in
    let (n, e) = positive_integer p.amount positive in
    record {
      active = active;
      amount = n;
      amount_is = e;
      covered = ground arith;
      exists = exists;
      near = (is_direct_neighbor_iff p.from_pixel_id p.to_pixel_id).0 accepted;
    }

validate_energy_transfer_complete :
    (p : EnergyTransferValidationParams) → MayTransfer p → validate_energy_transfer p ≡ ok valid
unfolding validate_energy_transfer is_not_positive_integer
validate_energy_transfer_complete p m =
    let accepted = (is_direct_neighbor_iff p.from_pixel_id p.to_pixel_id).1 m.near in
    ground (arith, is_direct_neighbor_self p.from_pixel_id p.to_pixel_id)

-- A transfer is admitted exactly when the sender is active, the amount is a whole number from 1 up
-- to the sender's energy, the receiver exists, and the two ids stand for positions that are one
-- step apart, the receiver's being a printed id.
pub validate_energy_transfer_iff :
    (p : EnergyTransferValidationParams) → (validate_energy_transfer p ≡ ok valid) ↔ MayTransfer p
validate_energy_transfer_iff p =
    (validate_energy_transfer_sound p, validate_energy_transfer_complete p)

-- The check throws only for an active sender with an id that has no position, a positive whole
-- amount and another receiver, and then it names the sender's id.
pub validate_energy_transfer_throws :
    (p : EnergyTransferValidationParams) (e : GridError)
    → validate_energy_transfer p ≡ err e
    → (id_to_coord p.from_pixel_id ≡ err e)
      × (p.from_active ≡ true)
      × (is_not_positive_integer p.amount ≡ false)
      × (text_eq p.from_pixel_id p.to_pixel_id ≡ false)
unfolding validate_energy_transfer is_direct_neighbor
validate_energy_transfer_throws p e h = ground arith
