-- ===== src/Runtime/Effects/Receipts.antt =====
-- The receipts of effects, and what `applyRouteMessage` leaves behind.
use emergent_inc.Common.{
  ℕ, ◌≡◌, ◌⊎◌, inl, inr, refl, sym, ap, subst, arith, true, false, none, some, [], ◌∷◌, ◌++◌, Text,
  text_eq, ok, ok-injective, Bool-cases, Option-cases, Result-cases,
}
use emergent_inc.Store.{Db, EffectRow, EffectStatus, MessageRow}
use emergent_inc.Store.Table.{select_first, exists_where}
use emergent_inc.Store.Unique.{
  exists_where-select_first, select_first-update_where, select_first-none, select_first-append,
}
use emergent_inc.Store.Keys.{truthy}
use emergent_inc.Messages.Types.{EnqueueParams}
use emergent_inc.Messages.Queue.{
  enqueue_message, insert_message, message_of, may_reuse, is_same_message,
}
use emergent_inc.Runtime.Effects.{
  EffectRuntimeContext, BaseEffect, scope_id, is_sent, enqueue, effect_row, has_effect_id,
  record_effect, get_effect,
}
use emergent_inc.Runtime.Effects.Route.{RouteMessageEffect, routed_message}

-- The receipt under an effect's id.
abbrev pub HasReceipt : Text → EffectStatus → Db → Type 0
HasReceipt id status db = (row : EffectRow) × (get_effect id db ≡ some row) × (row.status ≡ status)

-- What was recorded last under an effect's id is what is read.
pub record_effect-HasReceipt :
    (effect : BaseEffect) (status : EffectStatus) (db : Db)
    → HasReceipt effect.effect_id status (record_effect effect status db)
unfolding record_effect get_effect
record_effect-HasReceipt effect status db =
    let key = λ (r : EffectRow). r.effect_id in
    let id = effect.effect_id in
    elim (Option-cases (select_first (has_effect_id id) db.effects)) [
      | inl missing ↦ (
        effect_row effect status,
        rw (select_first-none key (has_effect_id id) db.effects missing)
            (select_first-append key id db.effects (effect_row effect status) missing refl),
        refl,
      )
      | inr (row, found) ↦ (
        record row { status = status },
        rw (exists_where-select_first key id db.effects row found) (
            select_first-update_where key id (λ row. record row { status = status }) db.effects row
              refl found),
        refl,
      )
    ]

-- The message and the row that a route asks for.
abbrev pub route_params : EffectRuntimeContext → RouteMessageEffect → EnqueueParams
route_params ctx effect = record (routed_message ctx effect) { execution_id = scope_id ctx }

abbrev pub route_row : EffectRuntimeContext → RouteMessageEffect → Db → MessageRow
route_row ctx effect db = message_of (route_params ctx effect) ctx.fresh_id ctx.now db

-- Whether the queue has a message now: as a new row at its end, or, for messages that may be
-- reused, as an unconsumed row like it that was there.
abbrev pub IsQueued : EnqueueParams → MessageRow → Db → Db → Type 0
IsQueued p row db db' =
    (db'.messages ≡ db.messages ++ row ∷ [])
    ⊎ ((may_reuse p ≡ true)
        × (db'.messages ≡ db.messages)
        × ((old : MessageRow) × (select_first (is_same_message row) db.messages ≡ some old)))

insert_message-IsQueued :
    (p : EnqueueParams) (row : MessageRow) (db : Db) (q : MessageRow × Db)
    → insert_message row db ≡ ok q
    → IsQueued p row db q.1
unfolding insert_message
insert_message-IsQueued p row db q e =
    elim (Bool-cases (exists_where (λ m. text_eq m.message_id row.message_id) db.messages)) [
      | inl taken ↦ absurd (ground (arith, rw (taken, insert_message) at e))
      | inr free ↦
          inl (sym (ap (λ q. q.1.messages) (ok-injective _ q (rw (free, insert_message) at e))))
    ]

enqueue_message-IsQueued :
    (p : EnqueueParams) (fresh_id : Text) (now : ℕ) (db : Db) (q : MessageRow × Db)
    → enqueue_message p fresh_id now db ≡ ok q
    → IsQueued p (message_of p fresh_id now db) db q.1
unfolding enqueue_message
enqueue_message-IsQueued p fresh_id now db q e =
    let row = message_of p fresh_id now db in
    elim (Bool-cases (may_reuse p)) [
      | inr fresh ↦ insert_message-IsQueued p row db q (rw (fresh, enqueue_message) at e)
      | inl reuse ↦ elim (Option-cases (select_first (is_same_message row) db.messages)) [
        | inl new ↦ insert_message-IsQueued p row db q (rw (reuse, new, enqueue_message) at e)
        | inr (old, found) ↦ inr (
          reuse,
          sym (
              ap (λ q. q.1.messages)
                (ok-injective (old, db) q (rw (reuse, found, enqueue_message) at e))),
          (old, found),
        )
      ]
    ]

pub enqueue-IsQueued :
    (ctx : EffectRuntimeContext) (p : EnqueueParams) (db db' : Db)
    → truthy p.message_id ≡ none
    → enqueue ctx p db ≡ ok db'
    → let sent = record p { execution_id = scope_id ctx } in
      IsQueued sent (message_of sent ctx.fresh_id ctx.now db) db db'
unfolding enqueue is_sent
enqueue-IsQueued ctx p db db' anonymous e =
    let sent = record p { execution_id = scope_id ctx } in
    let first : is_sent p db ≡ false = rw (anonymous, is_sent) refl in
    elim (Result-cases (enqueue_message sent ctx.fresh_id ctx.now db)) [
      | inr (x, threw) ↦ absurd (ground (arith, rw (first, threw, enqueue) at e))
      | inl (q, done) ↦
          subst (IsQueued sent (message_of sent ctx.fresh_id ctx.now db) db)
            (ok-injective q.1 db' (rw (first, done, enqueue) at e))
            (enqueue_message-IsQueued sent ctx.fresh_id ctx.now db q done)
    ]
