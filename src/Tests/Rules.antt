-- ===== src/Tests/Rules.antt =====
-- The rules of the domain and of the grid at concrete inputs.
use emergent_inc.Common.{
  ◌≡◌, ◌↔◌, refl, true, false, none, some, [], ◌∷◌, codes, Result, ok, err, text_eq, includes,
}
use emergent_inc.Common.Int.{pos, negsuc, ◌+ℤ◌}
use emergent_inc.Grid.{
  Coord3D, invalid_pixel_id, coord_to_id, id_to_coord, is_direct_neighbor, resolve_target_position,
}
use emergent_inc.Grid.Number.{print_int, split, parse_int, to_upper, trim}
use emergent_inc.Grid.RoundTrip.{id_to_coord-coord_to_id}
use emergent_inc.Grid.Adjacency.{Near, is_direct_neighbor_iff}
use emergent_inc.Grid.Resolve.{IsNextTo, resolve_target_position-IsNextTo}
use emergent_inc.Domain.Validation.{integer, valid, is_not_positive_integer}
use emergent_inc.Domain.Energy.{EnergyTransferValidationParams, validate_energy_transfer}
use emergent_inc.Domain.Energy.Laws.{MayTransfer, validate_energy_transfer_iff}
use emergent_inc.Domain.Reproduction.{ReproductionValidationParams, planned, validate_reproduction}
use emergent_inc.Domain.Reproduction.Laws.{IsSoundPlan, validate_reproduction_sound}
use emergent_inc.Domain.Routing.{MessageRoutingValidationParams}
use emergent_inc.Domain.Lifecycle.{NaturalWakeCheckParams}
use emergent_inc.Domain.Birth.{DerivedBirth, BirthError, derive_birth_identity, is_seed_text}
use emergent_inc.Domain.Birth.Laws.{IsBirth, derive_birth_identity-IsBirth}
use emergent_inc.Tests.Fixtures.{origin, beside}

-- (-1, 0, 12)
abbrev far : Coord3D
far = (negsuc 0, pos 0, pos 12)

id_to_coord-coord_to_id_example : id_to_coord (coord_to_id far) ≡ ok far
id_to_coord-coord_to_id_example = id_to_coord-coord_to_id far

is_direct_neighbor_iff_example : (is_direct_neighbor origin beside ≡ ok true) ↔ Near origin beside
is_direct_neighbor_iff_example = is_direct_neighbor_iff origin beside

abbrev p_0 : Coord3D
p_0 = (pos 0, pos 0, pos 0)

abbrev p_1 : Coord3D
p_1 = (pos 1, pos 0, pos 0)

neighbours : is_direct_neighbor (coord_to_id p_0) (coord_to_id p_1) ≡ ok true
unfolding is_direct_neighbor coord_to_id text_eq print_int id_to_coord split parse_int includes ◌+ℤ◌
neighbours = refl

rightward : resolve_target_position origin (codes "RIGHT") ≡ ok (some p_1)
unfolding resolve_target_position text_eq to_upper trim id_to_coord split parse_int ◌+ℤ◌
rightward = refl

resolve_target_position-IsNextTo_example : IsNextTo origin p_1
resolve_target_position-IsNextTo_example =
    resolve_target_position-IsNextTo origin (codes "RIGHT") p_1 rightward

abbrev gift : EnergyTransferValidationParams
gift = record {
  from_pixel_id = origin;
  from_energy = pos 10;
  from_active = true;
  to_pixel_id = beside;
  to_exists = true;
  amount = integer (pos 3);
}

validate_energy_transfer_iff_example : (validate_energy_transfer gift ≡ ok valid) ↔ MayTransfer gift
validate_energy_transfer_iff_example = validate_energy_transfer_iff gift

abbrev broken_gift : EnergyTransferValidationParams
broken_gift = record gift { from_pixel_id = codes "0_0" }

broken_gift_throws : validate_energy_transfer broken_gift ≡ err (invalid_pixel_id (codes "0_0"))
unfolding validate_energy_transfer is_not_positive_integer text_eq is_direct_neighbor id_to_coord
    split parse_int
broken_gift_throws = refl

abbrev birth_plan : ReproductionValidationParams
birth_plan = record {
  parent_pixel_id = origin;
  parent_energy = pos 10;
  parent_active = true;
  direction = codes "RIGHT";
  initial_energy = integer (pos 4);
  child_pixel_md = none;
  occupied_positions = origin ∷ [];
}

birth_planned : validate_reproduction birth_plan ≡ ok (planned beside p_1)
unfolding validate_reproduction is_not_positive_integer resolve_target_position text_eq to_upper
    trim id_to_coord split parse_int includes coord_to_id print_int ◌+ℤ◌
birth_planned = refl

validate_reproduction_sound_example : IsSoundPlan birth_plan beside p_1
validate_reproduction_sound_example =
    validate_reproduction_sound birth_plan beside p_1 birth_planned

abbrev greeting : MessageRoutingValidationParams
greeting = record {
  sender = origin;
  recipient = beside;
  content = codes "hello";
  hop = 1;
  active_neighbors = beside ∷ [];
}

abbrev sleeper : NaturalWakeCheckParams
sleeper = record {
  is_active = true;
  last_active_round = pos 2;
  current_round = pos 9;
  natural_wake_threshold = pos 5;
  has_pending_messages = false;
}

abbrev no_birth : DerivedBirth
no_birth = record {
  birth_seed = [];
  birth_algorithm_version = 0;
  primary_hexagram = [];
  moving_line = 0;
  changed_hexagram = [];
  birth_text = [];
  primary_bits = 0;
  changed_bits = 0;
}

abbrev birth_of : Result BirthError DerivedBirth → DerivedBirth
birth_of (ok d) = d
birth_of (err e) = no_birth

abbrev born : DerivedBirth
born = birth_of (derive_birth_identity (codes "12345"))

seed_born : derive_birth_identity (codes "12345") ≡ ok born
unfolding derive_birth_identity is_seed_text
seed_born = refl

derive_birth_identity-IsBirth_example : IsBirth born
derive_birth_identity-IsBirth_example = derive_birth_identity-IsBirth (codes "12345") born seed_born
