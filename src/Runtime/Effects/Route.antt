-- ===== src/Runtime/Effects/Route.antt =====
-- `applyRouteMessage` of packages/runtime/src/effects/effect_runtime.ts.
use emergent_inc.Common.{
  ℕ, ◌+◌, Bool, false, ◌&&◌, none, some, List, [], ◌∷◌, Text, codes, text_eq, Result, ok, err,
  ◌>>=◌, if◌then◌else◌,
}
use emergent_inc.Grid.{GridError, get_neighbors6}
use emergent_inc.Grid.Number.{to_upper}
use emergent_inc.Domain.Validation.{valid, invalid, ErrorCode}
use emergent_inc.Domain.Routing.{
  MessageRoutingValidationParams, validate_message_routing, is_hop_limit_reached,
}
use emergent_inc.Store.{Db, PixelRow, applied, failed, pixel}
use emergent_inc.Store.Table.{exists_where}
use emergent_inc.Messages.Types.{EnqueueParams}
use emergent_inc.CoreStore.Pixels.{list_active_pixels}
use emergent_inc.Runtime.Feedback.{create_routing_failure_feedback}
use emergent_inc.Runtime.Effects.{
  EffectError, of_grid, EffectRuntimeContext, BaseEffect, enqueue, record_effect,
}
use emergent_inc.Runtime.Effects.Messages.{code_text, routing_message}

pub record RouteMessageEffect : Type 0 where
  pub base : BaseEffect
  pub sender : Text
  pub recipient : Text
  pub content : Text
  pub hop : ℕ

-- `activePixels.some((p) => p.pixelId === nId && p.active)`
abbrev is_active_in : List PixelRow → Text → Bool
is_active_in rows id = exists_where (λ p. text_eq p.pixel_id id && p.active) rows

unfoldable pub keep_active : List PixelRow → List Text → List Text
keep_active rows [] = []
keep_active rows (id ∷ ids) =
    if is_active_in rows id then id ∷ keep_active rows ids else keep_active rows ids

abbrev pub grid_error {ℓ} : {A : Type ℓ} → Result GridError A → Result EffectError A
grid_error (ok a) = ok a
grid_error (err e) = err (of_grid e)

unfoldable pub active_neighbors :
    EffectRuntimeContext → RouteMessageEffect → Db → Result EffectError (List Text)
active_neighbors ctx effect db = elim ctx.execution_scope [
  | some scope ↦ ok scope.allowed_recipients
  | none ↦ do
    around ← grid_error (get_neighbors6 effect.sender)
    ok (keep_active (list_active_pixels db) around)
]

abbrev pub routing_params : RouteMessageEffect → List Text → MessageRoutingValidationParams
routing_params effect neighbors = record {
  sender = effect.sender;
  recipient = effect.recipient;
  content = effect.content;
  hop = effect.hop;
  active_neighbors = neighbors;
}

-- `realRecipient`
unfoldable pub real_recipient : RouteMessageEffect → Text
real_recipient effect =
    if text_eq (to_upper effect.recipient) (codes "SELF") then effect.sender else effect.recipient

-- `targetRound`
unfoldable pub target_round : EffectRuntimeContext → RouteMessageEffect → ℕ
target_round ctx effect = if is_hop_limit_reached effect.hop then ctx.round + 1 else ctx.round

unfoldable pub routed_message : EffectRuntimeContext → RouteMessageEffect → EnqueueParams
unfolding real_recipient target_round
routed_message ctx effect = record {
  message_id = none;
  run_id = ctx.run_id;
  execution_id = none;
  round_num = target_round ctx effect;
  hop = some effect.hop;
  sender = effect.sender;
  recipient = real_recipient effect;
  content = effect.content;
  is_feedback = false;
  source_type = some pixel;
  status = none;
  sender_binding_id = none;
  recipient_binding_id = none;
}

unfoldable pub refuse_route :
    EffectRuntimeContext
    → RouteMessageEffect
    → ErrorCode
    → MessageRoutingValidationParams
    → Db
    → Result EffectError Db
refuse_route ctx effect code p db = do
  told ←
      enqueue ctx
        (create_routing_failure_feedback effect.sender ctx.round ctx.run_id effect.recipient
          (code_text code) (routing_message p code))
        db
  ok (record_effect effect.base failed told)

unfoldable pub send_route : EffectRuntimeContext → RouteMessageEffect → Db → Result EffectError Db
send_route ctx effect db = do
  sent ← enqueue ctx (routed_message ctx effect) db
  ok (record_effect effect.base applied sent)

unfoldable pub apply_route_message :
    EffectRuntimeContext → RouteMessageEffect → Db → Result EffectError Db
apply_route_message ctx effect db = do
  neighbors ← active_neighbors ctx effect db
  let p = routing_params effect neighbors
  validation ← grid_error (validate_message_routing p)
  elim validation [
    | valid ↦ send_route ctx effect db
    | invalid code ↦ refuse_route ctx effect code p db
  ]
