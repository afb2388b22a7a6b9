-- ===== src/Runtime/Effects/Delivery.antt =====
-- What `applyRouteMessage` leaves behind.
use emergent_inc.Common.{
  ◌≡◌, ◌≤◌, ◌⊎◌, true, List, [], ◌∷◌, ◌++◌, Text, length, ◌+◌, leb, text_eq, codes, if◌then◌else◌,
}
use mathlib.Core.List.{Memᴰ}
use emergent_inc.Grid.Number.{to_upper}
use emergent_inc.Messages.Types.{is_queued}
use emergent_inc.Domain.Routing.Laws.{IsReachable}
use emergent_inc.Store.{Db, applied, failed, MessageRow, feedback}
use emergent_inc.Runtime.Effects.{EffectRuntimeContext, scope_id}
use emergent_inc.Runtime.Effects.Route.{RouteMessageEffect, routing_params}
use emergent_inc.Runtime.Effects.Receipts.{HasReceipt}

-- The message of a route in the queue: a new row at its end, or, where the recipient is the sender, a
-- queued row that was there.
pub record IsSent (ctx : EffectRuntimeContext) (effect : RouteMessageEffect) (db db' : Db)
    : Type 0 where
  pub row : MessageRow
  pub stands : Memᴰ row db'.messages
  pub recipient : row.recipient ≡ (
      if text_eq (to_upper effect.recipient) (codes "SELF")
      then effect.sender
      else effect.recipient)
  pub sender : row.sender ≡ effect.sender
  pub content : row.content ≡ effect.content
  pub execution_id : row.execution_id ≡ scope_id ctx
  pub waits : is_queued row.status ≡ true
  pub place :
      ((db'.messages ≡ db.messages ++ row ∷ [])
        × (row.round_num ≡ (if leb 20 effect.hop then ctx.round + 1 else ctx.round))
        × (row.hop ≡ effect.hop))
      ⊎ ((db'.messages ≡ db.messages) × (row.recipient ≡ effect.sender))

-- A route that was delivered.
pub record IsRouted (ctx : EffectRuntimeContext) (effect : RouteMessageEffect)
    (neighbors : List Text) (db db' : Db) : Type 0 where
  pub short : length effect.content ≤ 2000
  pub reachable : IsReachable (routing_params effect neighbors)
  pub sent : IsSent ctx effect db db'
  pub receipt : HasReceipt effect.base.effect_id applied db'

-- A route that was refused: the sender alone hears of it.
pub record IsRefused (ctx : EffectRuntimeContext) (effect : RouteMessageEffect)
    (neighbors : List Text) (db db' : Db) : Type 0 where
  pub unreachable :
      ¬ ((length effect.content ≤ 2000) × IsReachable (routing_params effect neighbors))
  pub feedback : MessageRow
  pub told : db'.messages ≡ db.messages ++ feedback ∷ []
  pub to_sender : feedback.recipient ≡ effect.sender
  pub by_engine : feedback.is_feedback ≡ true
  pub receipt : HasReceipt effect.base.effect_id failed db'
