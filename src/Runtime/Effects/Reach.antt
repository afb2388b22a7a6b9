-- ===== src/Runtime/Effects/Reach.antt =====
-- Whom a route may reach: the recipients that the execution's scope allows, or the active pixels.
use emergent_inc.Common.{
  ◌≡◌, refl, ok, arith, true, ◌&&◌, Option, none, some, List, [], ◌∷◌, Text, text_eq, All,
  Bool-cases, Option-cases, inl, inr, >>=-eq-ok, ok-injective, subst, sym,
}
use emergent_inc.Grid.{get_neighbors6}
use emergent_inc.Store.{Db, PixelRow}
use emergent_inc.Store.Table.{exists_where, All-impl}
use emergent_inc.CoreStore.Pixels.{active_rows, list_active_pixels}
use emergent_inc.Runtime.Effects.{EffectRuntimeContext, ExecutionToolScope}
use emergent_inc.Runtime.Effects.Route.{
  RouteMessageEffect, keep_active, grid_error, active_neighbors,
}

-- An active pixel of the database.
abbrev pub IsActivePixel : Db → Text → Type 0
IsActivePixel db id = exists_where (λ p. text_eq p.pixel_id id && p.active) db.pixel_accounts ≡ true

abbrev pub AreAllowed : Option ExecutionToolScope → Db → List Text → Type 0
AreAllowed none db neighbors = All (IsActivePixel db) neighbors
AreAllowed (some scope) db neighbors = neighbors ≡ scope.allowed_recipients

exists_where-active_rows :
    (id : Text) (rows : List PixelRow)
    → exists_where (λ p. text_eq p.pixel_id id && p.active) (active_rows rows) ≡ true
    → exists_where (λ p. text_eq p.pixel_id id && p.active) rows ≡ true
unfolding exists_where active_rows
exists_where-active_rows id [] h = h
exists_where-active_rows id (p ∷ ps) h = elim (Bool-cases p.active) [
  | inl on ↦
      let rest = exists_where-active_rows id ps in
      elim (Bool-cases (text_eq p.pixel_id id)) [
        | inl hit ↦ rw (hit, on) refl
        | inr miss ↦ rw miss (rest (rw (on, miss, active_rows) at h))
      ]
  | inr off ↦
      let rest = exists_where-active_rows id ps (rw (off, active_rows) at h) in
      ground (arith, off, rest)
]

keep_active-All :
    (rows : List PixelRow) (ids : List Text)
    → All
        (λ id. exists_where (λ p. text_eq p.pixel_id id && p.active) rows ≡ true)
        (keep_active rows ids)
unfolding keep_active
keep_active-All rows [] = tt
keep_active-All rows (id ∷ ids) =
    let rest = keep_active-All rows ids in
    elim (Bool-cases (exists_where (λ p. text_eq p.pixel_id id && p.active) rows)) [
      | inl hit ↦ rw hit (hit, rest)
      | inr miss ↦ rw miss rest
    ]

pub active_neighbors-AreAllowed :
    (ctx : EffectRuntimeContext) (effect : RouteMessageEffect) (db : Db) (neighbors : List Text)
    → active_neighbors ctx effect db ≡ ok neighbors
    → AreAllowed ctx.execution_scope db neighbors
unfolding active_neighbors list_active_pixels
active_neighbors-AreAllowed ctx effect db neighbors e = elim (Option-cases ctx.execution_scope) [
  | inr (scope, given) ↦
      rw given (sym (ok-injective _ neighbors (rw (given, active_neighbors) at e)))
  | inl free ↦
      let (around, ea, e1) =
        >>=-eq-ok (grid_error (get_neighbors6 effect.sender)) _
          (rw (free, active_neighbors) at e) in
      rw free (
        subst (All (IsActivePixel db)) (ok-injective _ neighbors e1) (
          All-impl (keep_active (active_rows db.pixel_accounts) around)
            (λ id. exists_where-active_rows id db.pixel_accounts)
            (keep_active-All (active_rows db.pixel_accounts) around)))
]
