-- ===== src/Domain/Reproduction/Laws.antt =====
-- What an accepted plan of `validateReproduction` says about the new body.
use emergent_inc.Common.{
  ℕ, suc, ◌≡◌, ap, ◌∙◌, true, false, Option, some, includes, arith, ok, Text, ◌≤◌, length,
}
use emergent_inc.Common.Int.{pos, ◌≤ℤ◌}
use emergent_inc.Grid.{Coord3D, coord_to_id, id_to_coord, resolve_target_position}
use emergent_inc.Grid.RoundTrip.{id_to_coord-coord_to_id}
use emergent_inc.Grid.Resolve.{IsNextTo, resolve_target_position-IsNextTo}
use emergent_inc.Domain.Validation.{
  integer, is_not_positive_integer, positive_integer, is_valid_pixel_md_length,
}
use emergent_inc.Domain.Energy.{is_below}
use emergent_inc.Domain.Reproduction.{
  ReproductionValidationParams, planned, is_too_long, validate_reproduction,
}

pub record IsSoundPlan (p : ReproductionValidationParams) (child : Text) (coord : Coord3D)
    : Type 0 where
  pub active : p.parent_active ≡ true
  pub energy : ℕ
  pub energy_is : p.initial_energy ≡ integer (pos (suc energy))
  pub covered : pos (suc energy) ≤ℤ p.parent_energy
  pub printed : child ≡ coord_to_id coord
  pub read_back : id_to_coord child ≡ ok coord
  pub next : IsNextTo p.parent_pixel_id coord
  pub free : includes p.occupied_positions child ≡ false
  pub mind : (md : Text) → p.child_pixel_md ≡ some md → length md ≤ 2000

passed_tests :
    (p : ReproductionValidationParams) (child : Text) (coord : Coord3D)
    → validate_reproduction p ≡ ok (planned child coord)
    → (p.parent_active ≡ true)
      × (is_not_positive_integer p.initial_energy ≡ false)
      × (is_below p.parent_energy p.initial_energy ≡ false)
      × (resolve_target_position p.parent_pixel_id p.direction ≡ ok (some coord))
      × (child ≡ coord_to_id coord)
      × (includes p.occupied_positions child ≡ false)
      × (is_too_long p.child_pixel_md ≡ false)
unfolding validate_reproduction
passed_tests p child coord h = ground arith

mind_fits : (md : Option Text) (s : Text) → is_too_long md ≡ false → md ≡ some s → length s ≤ 2000
unfolding is_too_long is_valid_pixel_md_length
mind_fits md s h e = ground arith

-- An accepted plan has an active parent with a positive whole amount of energy to give that it
-- has, and a child whose id is the printed position, is read back as that position, is one step
-- from the parent, is not occupied, and whose mind text, if one is given, has at most 2000 code
-- points.
pub validate_reproduction_sound :
    (p : ReproductionValidationParams) (child : Text) (coord : Coord3D)
    → validate_reproduction p ≡ ok (planned child coord)
    → IsSoundPlan p child coord
unfolding is_below
validate_reproduction_sound p child coord h =
    let (active, positive, covered, target, printed, free, short) = passed_tests p child coord h in
    let (n, e) = positive_integer p.initial_energy positive in
    record {
      active = active;
      energy = n;
      energy_is = e;
      covered = ground arith;
      printed = printed;
      read_back = ap id_to_coord printed ∙ id_to_coord-coord_to_id coord;
      next = resolve_target_position-IsNextTo p.parent_pixel_id p.direction coord target;
      free = free;
      mind = λ md given. mind_fits p.child_pixel_md md short given;
    }
