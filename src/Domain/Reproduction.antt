-- ===== src/Domain/Reproduction.antt =====
-- packages/domain/src/reproduction/rules.ts
pub mod Laws
use emergent_inc.Common.{
  Bool, not, Option, none, some, List, Text, false, includes, Result, ok, ◌>>=◌, if◌then◌else◌,
}
use emergent_inc.Common.Int.{ℤ}
use emergent_inc.Grid.{Coord3D, GridError, coord_to_id, resolve_target_position}
use emergent_inc.Domain.Validation.{
  Number, is_not_positive_integer, is_valid_pixel_md_length, ErrorCode, parent_inactive,
  invalid_child_energy, insufficient_energy_for_reproduction, invalid_reproduction_direction,
  target_position_occupied, child_mind_too_long,
}
use emergent_inc.Domain.Energy.{is_below}

pub record ReproductionValidationParams : Type 0 where
  pub parent_pixel_id : Text
  pub parent_energy : ℤ
  pub parent_active : Bool
  pub direction : Text
  pub initial_energy : Number
  pub child_pixel_md : Option Text
  pub occupied_positions : List Text

pub data ReproductionPlan : Type 0 where
  planned : Text → Coord3D → ReproductionPlan
  refused : ErrorCode → ReproductionPlan

-- `childPixelMd && !isValidPixelMdLength(childPixelMd)`; the empty text has a valid length.
is_too_long : Option Text → Bool
is_too_long none = false
is_too_long (some md) = not (is_valid_pixel_md_length md)

plan_at : ReproductionValidationParams → Option Coord3D → ReproductionPlan
unfolding is_too_long
plan_at p none = refused invalid_reproduction_direction
plan_at p (some coord) =
    if includes p.occupied_positions (coord_to_id coord)
    then refused target_position_occupied
    else if is_too_long p.child_pixel_md
    then refused child_mind_too_long
    else planned (coord_to_id coord) coord

-- A direction word throws if the parent's id has no position.
unfoldable pub validate_reproduction :
    ReproductionValidationParams → Result GridError ReproductionPlan
unfolding plan_at is_below
validate_reproduction p =
    if not p.parent_active
    then ok (refused parent_inactive)
    else if is_not_positive_integer p.initial_energy
    then ok (refused invalid_child_energy)
    else if is_below p.parent_energy p.initial_energy
    then ok (refused insufficient_energy_for_reproduction)
    else do target ← resolve_target_position p.parent_pixel_id p.direction; ok (plan_at p target)
