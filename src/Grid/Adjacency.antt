-- ===== src/Grid/Adjacency.antt =====
-- `isDirectNeighbor` against the distance between positions.
use emergent_inc.Common.{
  ℕ, ◌+◌, ◌-◌, ◌≡◌, ◌↔◌, ◌⊎◌, refl, sym, ap, subst, ◌∙◌, true, false, List, [], ◌∷◌, map, Text,
  text_eq, text_eq_iff, includes, if◌then◌else◌, All, Bool-cases, Result-cases, ok-injective,
  text_eq_refl, inl, inr, arith, ok,
}
use mathlib.Core.List.{Memᴰ}
use native.Mathlib.Decide.{dec_lt}
use emergent_inc.Common.Int.{ℤ, pos_part, neg_part, ◌+ℤ◌, ◌-ℤ◌, int_laws, eq_of_parts}
use emergent_inc.Grid.{
  Coord3D, one, coord_to_id, id_to_coord, neighbors_of, get_neighbors6, is_direct_neighbor,
}
use emergent_inc.Grid.RoundTrip.{id_to_coord-coord_to_id}

-- |a - b|
abbrev pub dist : ℤ → ℤ → ℕ
dist a b = let u = pos_part a + neg_part b in let v = pos_part b + neg_part a in (u - v) + (v - u)

-- The number of unit steps from one position to the other.
abbrev pub distance : Coord3D → Coord3D → ℕ
distance (x, y, z) (x', y', z') = dist x x' + dist y y' + dist z z'

abbrev neighbor_coords : Coord3D → List Coord3D
neighbor_coords (x, y, z) =
    (x +ℤ one, y, z)
    ∷ (x -ℤ one, y, z)
    ∷ (x, y +ℤ one, z)
    ∷ (x, y -ℤ one, z)
    ∷ (x, y, z +ℤ one)
    ∷ (x, y, z -ℤ one)
    ∷ []

neighbors_of-map : (p : Coord3D) → neighbors_of p ≡ map coord_to_id (neighbor_coords p)
unfolding neighbors_of
neighbors_of-map (x, y, z) = refl

neighbor_coords-distance : (p : Coord3D) → All (λ q. distance p q ≡ 1) (neighbor_coords p)
neighbor_coords-distance (x, y, z) = omega int_laws

includes-map :
    (P : Coord3D → Type 0) (qs : List Coord3D) (id : Text)
    → All P qs
    → includes (map coord_to_id qs) id ≡ true
    → (q : Coord3D) × (id ≡ coord_to_id q) × P q
unfolding includes
includes-map P [] id h e = absurd (ground arith)
includes-map P (q ∷ qs) id h e = elim (Bool-cases (text_eq (coord_to_id q) id)) [
  | inl same ↦ (q, sym ((text_eq_iff (coord_to_id q) id).0 same), h.0)
  | inr other ↦ includes-map P qs id h.1 (rw other at e)
]

-- What the source says of two ids, where `a` has the position `p`.
is_direct_neighbor_of :
    (a b : Text) (p : Coord3D)
    → id_to_coord a ≡ ok p
    → is_direct_neighbor a b ≡ (if text_eq a b then ok false else ok (includes (neighbors_of p) b))
unfolding is_direct_neighbor get_neighbors6
is_direct_neighbor_of a b p e = rw e

includes_of_is_direct_neighbor :
    (a b : Text)
    → is_direct_neighbor a b ≡ ok true
    → (p : Coord3D) × (id_to_coord a ≡ ok p) × (includes (neighbors_of p) b ≡ true)
unfolding is_direct_neighbor get_neighbors6
includes_of_is_direct_neighbor a b h = elim (Result-cases (id_to_coord a)) [
  | inl (p, e) ↦ (p, e, ground arith)
  | inr (x, e) ↦ absurd (ground arith)
]

abbrev pub Near : Text → Text → Type 0
Near a b =
    (p : Coord3D) × (q : Coord3D) × (id_to_coord a ≡ ok p)
    × (b ≡ coord_to_id q)
    × (distance p q ≡ 1)

pub is_direct_neighbor_sound : (a b : Text) → is_direct_neighbor a b ≡ ok true → Near a b
is_direct_neighbor_sound a b h =
    let (p, e, found) = includes_of_is_direct_neighbor a b h in
    let (q, same, near) =
      includes-map (λ q. distance p q ≡ 1) (neighbor_coords p) b (neighbor_coords-distance p)
        (rw neighbors_of-map at found) in
    (p, q, e, same, near)

pub coord_to_id-injective : (p q : Coord3D) → coord_to_id p ≡ coord_to_id q → p ≡ q
coord_to_id-injective p q e =
    ok-injective p q
      (sym (id_to_coord-coord_to_id p) ∙ ap id_to_coord e ∙ id_to_coord-coord_to_id q)

includes_of_mem :
    (q : Coord3D) (ps : List Coord3D)
    → Memᴰ q ps
    → includes (map coord_to_id ps) (coord_to_id q) ≡ true
unfolding includes
includes_of_mem q [] m = elim m [ ]
includes_of_mem q (p ∷ ps) (Memᴰ.head e) = rw (e, text_eq_refl)
includes_of_mem q (p ∷ ps) (Memᴰ.tail m) = ground (arith, includes_of_mem q ps m)

eq_of_dist : (a b : ℤ) → dist a b ≡ 0 → b ≡ a
eq_of_dist a b h = eq_of_parts b a (omega arith)

step_of_dist : (a b : ℤ) → dist a b ≡ 1 → (b ≡ a +ℤ one) ⊎ (b ≡ a -ℤ one)
step_of_dist a b h = elim (dec_lt (pos_part a + neg_part b) (pos_part b + neg_part a)) [
  | yes up ↦ inl (omega int_laws)
  | no down ↦ inr (omega int_laws)
]

one_of_three :
    (a b c : ℕ)
    → a + b + c ≡ 1
    → ((a ≡ 1) × (b ≡ 0) × (c ≡ 0))
      ⊎ (((b ≡ 1) × (a ≡ 0) × (c ≡ 0)) ⊎ ((c ≡ 1) × (a ≡ 0) × (b ≡ 0)))
one_of_three a b c h = grind arith

coord_path :
    {x y z x' y' z' : ℤ} → x' ≡ x → y' ≡ y → z' ≡ z → ◌≡◌ {A = Coord3D} (x', y', z') (x, y, z)
coord_path a b c = λ i. (a i, b i, c i)

-- A position one step away is one of the six.
mem-neighbor_coords : (p q : Coord3D) → distance p q ≡ 1 → Memᴰ q (neighbor_coords p)
mem-neighbor_coords (x, y, z) (x', y', z') h =
    elim (one_of_three (dist x x') (dist y y') (dist z z') h) [
      | inl (a, b, c) ↦
          let b : y' ≡ y = eq_of_dist y y' b in
          let c : z' ≡ z = eq_of_dist z z' c in
          elim (step_of_dist x x' a) [
            | inl e ↦ Memᴰ.head (coord_path e b c)
            | inr e ↦ Memᴰ.tail (Memᴰ.head (coord_path e b c))
          ]
      | inr (inl (b, a, c)) ↦
          let a : x' ≡ x = eq_of_dist x x' a in
          let c : z' ≡ z = eq_of_dist z z' c in
          elim (step_of_dist y y' b) [
            | inl e ↦ Memᴰ.tail (Memᴰ.tail (Memᴰ.head (coord_path a e c)))
            | inr e ↦ Memᴰ.tail (Memᴰ.tail (Memᴰ.tail (Memᴰ.head (coord_path a e c))))
          ]
      | inr (inr (c, a, b)) ↦
          let a : x' ≡ x = eq_of_dist x x' a in
          let b : y' ≡ y = eq_of_dist y y' b in
          elim (step_of_dist z z' c) [
            | inl e ↦ Memᴰ.tail (Memᴰ.tail (Memᴰ.tail (Memᴰ.tail (Memᴰ.head (coord_path a b e)))))
            | inr e ↦
                Memᴰ.tail
                  (Memᴰ.tail (Memᴰ.tail (Memᴰ.tail (Memᴰ.tail (Memᴰ.head (coord_path a b e))))))
          ]
    ]

distance_self : (p : Coord3D) → distance p p ≡ 0
distance_self (x, y, z) = omega arith

-- Such a pair of texts is taken for neighbours.
pub is_direct_neighbor_complete : (a b : Text) → Near a b → is_direct_neighbor a b ≡ ok true
is_direct_neighbor_complete a b (p, q, e, same, near) =
    rw (is_direct_neighbor_of a b p e) (rw (differ, found))
  where
    found : includes (neighbors_of p) b ≡ true
    found =
        rw (same, neighbors_of-map)
          (includes_of_mem q (neighbor_coords p) (mem-neighbor_coords p q near))

    clash : text_eq a b ≡ true → ⊥
    clash h =
        let eq : p ≡ q =
          ok-injective p q
            (sym e ∙ ap id_to_coord ((text_eq_iff a b).0 h ∙ same) ∙ id_to_coord-coord_to_id q) in
        omega (arith, distance_self q, subst (λ r. distance r q ≡ 1) eq near)

    differ : text_eq a b ≡ false
    differ = elim (Bool-cases (text_eq a b)) [ inl h ↦ absurd (clash h) | inr h ↦ h ]

-- Two texts are taken for neighbours exactly when the first one has a position, the second is the
-- printed id of a position, and the two positions are one step apart.
pub is_direct_neighbor_iff : (a b : Text) → (is_direct_neighbor a b ≡ ok true) ↔ Near a b
is_direct_neighbor_iff a b = (is_direct_neighbor_sound a b, is_direct_neighbor_complete a b)

Near-coord_to_id : (p q : Coord3D) → Near (coord_to_id p) (coord_to_id q) → distance p q ≡ 1
Near-coord_to_id p q (p', q', e, same, near) =
    let ep : p ≡ p' = ok-injective p p' (sym (id_to_coord-coord_to_id p) ∙ e) in
    let eq : q ≡ q' = coord_to_id-injective q q' same in rw (ep, eq) near

distance_comm : (p q : Coord3D) → distance p q ≡ distance q p
distance_comm (x, y, z) (x', y', z') = omega arith

-- Between the ids of positions the relation is "one step apart", and so it is symmetric. (Between
-- other texts it is not: only a printed id can stand second.)
pub is_direct_neighbor_symm :
    (p q : Coord3D)
    → is_direct_neighbor (coord_to_id p) (coord_to_id q) ≡ ok true
    → (distance p q ≡ 1) × (is_direct_neighbor (coord_to_id q) (coord_to_id p) ≡ ok true)
is_direct_neighbor_symm p q h =
    let near = Near-coord_to_id p q (is_direct_neighbor_sound (coord_to_id p) (coord_to_id q) h) in
    (
      near,
      is_direct_neighbor_complete (coord_to_id q) (coord_to_id p)
          (q, p, id_to_coord-coord_to_id q, refl, distance_comm q p ∙ near),
    )

-- No text is its own neighbour.
pub is_direct_neighbor_self : (a b : Text) → is_direct_neighbor a b ≡ ok true → text_eq a b ≡ false
unfolding is_direct_neighbor
is_direct_neighbor_self a b h = ground arith
