-- ===== src/Executions/Eligible.antt =====
-- The queries that ask who may work outside of executions: `claimNext` and `isWorldPixelEligible`.
use emergent_inc.Common.{
  ◌≡◌, refl, ap, ◌∙◌, Bool, not, ◌&&◌, none, List, [], ◌∷◌, Text, text_eq, arith,
}
use emergent_inc.Domain.Lifecycle.{closed, execution_status_eq}
use emergent_inc.Store.{Db, MessageRow}
use emergent_inc.Store.Table.{exists_where}
use emergent_inc.Store.Keys.{optional_text_eq}
use emergent_inc.Messages.Claim.{is_in_scope, is_free_or_active, is_engaged, is_active_career}
use emergent_inc.Executions.Operations.{is_world_pixel_eligible}

exists_where-ext {ℓ} :
    {A : Type ℓ} (p q : A → Bool) (xs : List A)
    → ((x : A) → p x ≡ q x)
    → exists_where p xs ≡ exists_where q xs
unfolding exists_where
exists_where-ext p q [] same = refl
exists_where-ext p q (x ∷ xs) same = rw (same x, exists_where-ext p q xs same)

-- A condition that does not depend on the row.
exists_where-&& {ℓ} :
    {A : Type ℓ} (c : Bool) (p q : A → Bool) (xs : List A)
    → ((x : A) → p x ≡ c && q x)
    → exists_where p xs ≡ c && exists_where q xs
unfolding exists_where
exists_where-&& c p q [] same = ground arith
exists_where-&& c p q (x ∷ xs) same = rw (same x, exists_where-&& c p q xs same) (ground arith)

active_binding :
    (db : Db) (pixel_id : Text)
    → exists_where
        (λ b.
          exists_where
            (λ q.
              text_eq q.qianji_id b.qianji_id
              && text_eq b.pixel_id pixel_id
              && not b.unbound
              && is_active_career q.career_status)
            db.qianji_profiles)
        db.qianji_bindings
      ≡ exists_where
          (λ b.
            text_eq b.pixel_id pixel_id
            && not b.unbound
            && exists_where
                (λ q. text_eq q.qianji_id b.qianji_id && is_active_career q.career_status)
                db.qianji_profiles)
          db.qianji_bindings
active_binding db pixel_id = exists_where-ext _ _ db.qianji_bindings (λ b.
    exists_where-&& (text_eq b.pixel_id pixel_id && not b.unbound) _
      (λ q. text_eq q.qianji_id b.qianji_id && is_active_career q.career_status) db.qianji_profiles
      (λ q. ground arith)
    ∙ ground arith)

engaged_participant :
    (db : Db) (pixel_id : Text)
    → exists_where
        (λ ep.
          exists_where
            (λ e.
              text_eq e.execution_id ep.execution_id
              && exists_where
                  (λ b.
                    text_eq b.binding_id ep.binding_id
                    && text_eq b.pixel_id pixel_id
                    && not ep.released
                    && not (execution_status_eq e.status closed))
                  db.qianji_bindings)
            db.executions)
        db.execution_participants
      ≡ exists_where
          (λ ep.
            not ep.released
            && exists_where
                (λ e.
                  text_eq e.execution_id ep.execution_id
                  && not (execution_status_eq e.status closed))
                db.executions
            && exists_where
                (λ b. text_eq b.binding_id ep.binding_id && text_eq b.pixel_id pixel_id)
                db.qianji_bindings)
          db.execution_participants
engaged_participant db pixel_id = exists_where-ext _ _ db.execution_participants (λ ep.
    let bound =
      exists_where (λ b. text_eq b.binding_id ep.binding_id && text_eq b.pixel_id pixel_id)
        db.qianji_bindings in
    exists_where-&& (not ep.released && bound) _
      (λ e. text_eq e.execution_id ep.execution_id && not (execution_status_eq e.status closed))
      db.executions
      (λ e.
        ap (λ c. text_eq e.execution_id ep.execution_id && c)
          (exists_where-&& (not ep.released && not (execution_status_eq e.status closed)) _
            (λ b. text_eq b.binding_id ep.binding_id && text_eq b.pixel_id pixel_id)
            db.qianji_bindings (λ b. ground arith))
        ∙ ground arith)
    ∙ ground arith)

-- A message outside of executions is in scope exactly when its recipient is an eligible pixel of
-- the world: the query of `claimNext` and that of `isWorldPixelEligible` agree.
pub is_in_scope-is_world_pixel_eligible :
    (db : Db) (m : MessageRow)
    → is_in_scope none db m
      ≡ optional_text_eq m.execution_id none && is_world_pixel_eligible m.recipient db
unfolding is_in_scope is_free_or_active is_engaged is_world_pixel_eligible
is_in_scope-is_world_pixel_eligible db m =
    rw (active_binding db m.recipient, engaged_participant db m.recipient) (ground arith)
