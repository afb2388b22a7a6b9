-- ===== src/Grid/Resolve.antt =====
-- `resolveTargetPosition` of packages/domain/src/topology/grid.ts.
use emergent_inc.Common.{
  ◌≡◌, sym, ap, ◌∙◌, true, some, some-injective, List, [], ◌∷◌, Text, text_eq, All, Bool-cases,
  Option-cases, ok-injective, >>=-eq-ok, inl, inr, arith, ok,
}
use emergent_inc.Common.Int.{ℤ, pos, ◌+ℤ◌, +ℤ_parts}
use emergent_inc.Grid.Number.{trim, to_upper}
use emergent_inc.Grid.{
  Coord3D, id_to_coord, is_direct_neighbor, direction_offsets, lookup_key, shift, resolve_as_id,
  resolve_target_position,
}
use emergent_inc.Grid.RoundTrip.{id_to_coord-coord_to_id}
use emergent_inc.Grid.Adjacency.{dist, distance, is_direct_neighbor_sound}

abbrev origin_coord : Coord3D
origin_coord = (pos 0, pos 0, pos 0)

abbrev IsStep : Coord3D → Type 0
IsStep offset = distance origin_coord offset ≡ 1

direction_offsets-IsStep : All (λ d. IsStep d.1) direction_offsets
direction_offsets-IsStep = omega arith

lookup_key-All :
    (P : Coord3D → Type 0) (key : Text) (table : List (Text × Coord3D)) (v : Coord3D)
    → All (λ d. P d.1) table
    → lookup_key key table ≡ some v
    → P v
unfolding lookup_key
lookup_key-All P key [] v h e = absurd (ground arith)
lookup_key-All P key ((k, w) ∷ table) v h e = elim (Bool-cases (text_eq k key)) [
  | inl same ↦ let eq : w ≡ v = some-injective w v (rw (same) at e) in rw (← eq) h.0
  | inr other ↦ lookup_key-All P key table v h.1 (rw other at e)
]

dist-+ℤ : (a d : ℤ) → dist a (a +ℤ d) ≡ dist (pos 0) d
dist-+ℤ a d = omega (arith, +ℤ_parts a d)

distance-shift : (p offset : Coord3D) → IsStep offset → distance p (shift p offset) ≡ 1
unfolding shift
distance-shift (x, y, z) (dx, dy, dz) h = rw (dist-+ℤ x dx, dist-+ℤ y dy, dist-+ℤ z dz) h

abbrev pub IsNextTo : Text → Coord3D → Type 0
IsNextTo origin q = (p : Coord3D) × (id_to_coord origin ≡ ok p) × (distance p q ≡ 1)

resolve_as_id-eq-some :
    (origin target : Text) (q : Coord3D)
    → resolve_as_id origin target ≡ some q
    → (id_to_coord target ≡ ok q) × (is_direct_neighbor origin target ≡ ok true)
unfolding resolve_as_id
resolve_as_id-eq-some origin target q h = ground arith

resolve_as_id-IsNextTo :
    (origin target : Text) (q : Coord3D) → resolve_as_id origin target ≡ some q → IsNextTo origin q
resolve_as_id-IsNextTo origin target q h =
    let (e, accepted) = resolve_as_id-eq-some origin target q h in
    let (p, q', ep, same, near) = is_direct_neighbor_sound origin target accepted in
    let eq : q ≡ q' =
      ok-injective q q' (sym e ∙ ap id_to_coord same ∙ id_to_coord-coord_to_id q') in
    (p, ep, rw eq near)

offset-IsStep :
    (key : Text) (offset : Coord3D) → lookup_key key direction_offsets ≡ some offset → IsStep offset
offset-IsStep key offset =
    lookup_key-All IsStep key direction_offsets offset direction_offsets-IsStep

-- Whether a direction or an id was given, the position that comes out is one step from the
-- position of the origin.
pub resolve_target_position-IsNextTo :
    (origin target : Text) (q : Coord3D)
    → resolve_target_position origin target ≡ ok (some q)
    → IsNextTo origin q
unfolding resolve_target_position
resolve_target_position-IsNextTo origin target q h =
    elim (Option-cases (lookup_key (to_upper (trim target)) direction_offsets)) [
      | inl unknown ↦ resolve_as_id-IsNextTo origin target q (
          ok-injective (resolve_as_id origin target) (some q)
            (rw (unknown, resolve_target_position) at h))
      | inr (offset, known) ↦
          let (p, e, moved) =
            >>=-eq-ok (id_to_coord origin) (λ r. ok (some (shift r offset)))
              (rw (known, resolve_target_position) at h) in
          let eq : shift p offset ≡ q =
            some-injective (shift p offset) q
              (ok-injective (some (shift p offset)) (some q) moved) in
          (
            p,
            e,
            rw (← eq)
                (distance-shift p offset (offset-IsStep (to_upper (trim target)) offset known)),
          )
    ]
