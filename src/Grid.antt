-- ===== src/Grid.antt =====
-- packages/domain/src/topology/grid.ts: the positions of pixels and their six neighbours.
-- A pixel id is the text "x_y_z"; what the code throws is `err`.
pub mod Number
pub mod RoundTrip
pub mod Adjacency
pub mod Resolve
use emergent_inc.Common.{
  Bool, true, false, Option, none, some, List, [], ◌∷◌, ◌++◌, map, Text, codes, text_eq, includes,
  Result, ok, err, ◌>>=◌, if◌then◌else◌,
}
use emergent_inc.Common.Int.{ℤ, pos, negsuc, ◌+ℤ◌, ◌-ℤ◌}
use Number.{trim, to_upper, split, parse_int, print_int}

abbrev pub Coord3D : Type 0
Coord3D = ℤ × ℤ × ℤ

-- "Invalid pixel id format for coord"
pub data GridError : Type 0 where
  invalid_pixel_id : Text → GridError

abbrev pub one : ℤ
one = pos 1

abbrev pub minus_one : ℤ
minus_one = negsuc 0

-- `Record<string, Coord3D>`
abbrev pub direction_offsets : List (Text × Coord3D)
direction_offsets =
    (codes "UP", (pos 0, one, pos 0))
    ∷ (codes "DOWN", (pos 0, minus_one, pos 0))
    ∷ (codes "LEFT", (minus_one, pos 0, pos 0))
    ∷ (codes "RIGHT", (one, pos 0, pos 0))
    ∷ (codes "FRONT", (pos 0, pos 0, one))
    ∷ (codes "BACK", (pos 0, pos 0, minus_one))
    ∷ (codes "+X", (one, pos 0, pos 0))
    ∷ (codes "-X", (minus_one, pos 0, pos 0))
    ∷ (codes "+Y", (pos 0, one, pos 0))
    ∷ (codes "-Y", (pos 0, minus_one, pos 0))
    ∷ (codes "+Z", (pos 0, pos 0, one))
    ∷ (codes "-Z", (pos 0, pos 0, minus_one))
    ∷ []

-- A property of an object literal, `table[key]`.
unfoldable pub lookup_key {ℓ} : {A : Type ℓ} → Text → List (Text × A) → Option A
lookup_key key [] = none
lookup_key key ((k, v) ∷ table) = if text_eq k key then some v else lookup_key key table

unfoldable pub coord_to_id : Coord3D → Text
coord_to_id (x, y, z) = print_int x ++ (b'_' ∷ (print_int y ++ (b'_' ∷ print_int z)))

-- `parts.length !== 3 || parts.some(isNaN)`
unfoldable pub coord_of_parts : Text → List (Option ℤ) → Result GridError Coord3D
coord_of_parts id (some x ∷ some y ∷ some z ∷ []) = ok (x, y, z)
coord_of_parts id _ = err (invalid_pixel_id id)

unfoldable pub id_to_coord : Text → Result GridError Coord3D
unfolding coord_of_parts
id_to_coord id = coord_of_parts id (map parse_int (split b'_' id))

unfoldable pub neighbors_of : Coord3D → List Text
neighbors_of (x, y, z) =
    coord_to_id (x +ℤ one, y, z)
    ∷ coord_to_id (x -ℤ one, y, z)
    ∷ coord_to_id (x, y +ℤ one, z)
    ∷ coord_to_id (x, y -ℤ one, z)
    ∷ coord_to_id (x, y, z +ℤ one)
    ∷ coord_to_id (x, y, z -ℤ one)
    ∷ []

unfoldable pub get_neighbors6 : Text → Result GridError (List Text)
unfolding neighbors_of
get_neighbors6 id = do p ← id_to_coord id; ok (neighbors_of p)

unfoldable pub is_direct_neighbor : Text → Text → Result GridError Bool
unfolding get_neighbors6
is_direct_neighbor id1 id2 =
    if text_eq id1 id2 then ok false else do ids ← get_neighbors6 id1; ok (includes ids id2)

unfoldable pub shift : Coord3D → Coord3D → Coord3D
shift (x, y, z) (dx, dy, dz) = (x +ℤ dx, y +ℤ dy, z +ℤ dz)

-- The `try` block: an id that does not parse, the origin's or the target's, gives `null`.
unfoldable pub resolve_as_id : Text → Text → Option Coord3D
resolve_as_id origin target = elim (id_to_coord target) [
  | err e ↦ none
  | ok q ↦ elim (is_direct_neighbor origin target) [
    | ok true ↦ some q
    | ok false ↦ none
    | err e ↦ none
  ]
]

unfoldable pub resolve_target_position : Text → Text → Result GridError (Option Coord3D)
unfolding lookup_key shift resolve_as_id
resolve_target_position origin target =
    elim (lookup_key (to_upper (trim target)) direction_offsets) [
      | some offset ↦ do p ← id_to_coord origin; ok (some (shift p offset))
      | none ↦ ok (resolve_as_id origin target)
    ]
