-- ===== src/Runtime/Compiler.antt =====
-- packages/runtime/src/compiler/decision_compiler.ts, packages/protocol/src/types/effect.ts and
-- packages/protocol/src/types/decision.ts. The SHA-256 of a value's JSON text is the parameter
-- `sha256`; arbitrary JSON objects are of the type `Json`.
pub mod Numbering
pub mod Contents
pub mod Phases
pub mod Ids
use emergent_inc.Common.{
  ℕ, suc, ◌+◌, Bool, true, false, not, ◌&&◌, Option, none, some, List, [], ◌∷◌, ◌++◌, map, Text,
  codes, text_eq, take, if◌then◌else◌,
}
use emergent_inc.Domain.Validation.{Number}
use emergent_inc.Grid.Number.{print_nat, to_upper}
pub use emergent_inc.Store.{EffectStatus, pending, applied, failed, skipped, unknown}
use emergent_inc.Store.Keys.{truthy}

pub record ToolCall (Json : Type 0) : Type 0 where
  pub tool : Text
  pub args : Json

pub record EnergyTransferRequest : Type 0 where
  pub target : Text
  pub amount : Number

pub record ReproduceRequest : Type 0 where
  pub direction : Text
  pub initial_energy : Number

-- `undefined` and `null` are both none: every use treats them alike. `raw_thought`, which the
-- compiler does not read, is left out.
pub record AgentDecision (Json : Type 0) : Type 0 where
  pub pixel_md : Option Text
  pub tips_md : Option Text
  pub environment_read : Bool
  pub operations : Option (List (ToolCall Json))
  pub energy_transfer : Option (List EnergyTransferRequest)
  pub reproduce : Option ReproduceRequest
  pub send_to : Option Text
  pub message_md : Option Text
  pub owner_request : Option Json
  pub owner_reply : Option Text

pub record CompileDecisionParams (Json : Type 0) : Type 0 where
  pub decision : AgentDecision Json
  pub pixel_id : Text
  pub message_id : Text
  pub current_hop : ℕ

-- The type of an effect with the fields of that type. The compiler makes no ENGINE_FEEDBACK.
pub data Detail (Json : Type 0) : Type 0 where
  update_mind : (pixel_id content : Text) → (tips_content : Option Text) → Detail Json
  capability_unavailable : (pixel_id capability : Text) → (raw_request : Json) → Detail Json
  read_environment : (pixel_id : Text) → Detail Json
  tool_call : (pixel_id operation_id : Text) → ToolCall Json → Detail Json
  transfer_energy : (from_pixel_id : Text) → EnergyTransferRequest → Detail Json
  reproduce_pixel : (parent_pixel_id : Text) → ReproduceRequest → Detail Json
  route_message : (sender recipient content : Text) → (hop : ℕ) → Detail Json
  owner_reply_effect : (pixel_id reply : Text) → Detail Json

pub record Effect (Json : Type 0) : Type 0 where
  pub effect_id : Text
  pub message_id : Text
  pub effect_index : ℕ
  pub payload_hash : Text
  pub status : EffectStatus
  pub detail : Detail Json

-- The values that are hashed.
pub data Payload (Json : Type 0) : Type 0 where
  mind_payload : (pixel_md : Text) → (tips_md : Option Text) → Payload Json
  request_payload : Json → Payload Json
  environment_payload : Payload Json
  tool_payload : ToolCall Json → Payload Json
  transfer_payload : EnergyTransferRequest → Payload Json
  reproduce_payload : ReproduceRequest → Payload Json
  message_payload : (recipient content : Text) → Payload Json
  reply_payload : Text → Payload Json

-- An effect to be numbered: what is hashed, and its fields, given the operation id.
pub record Request (Json : Type 0) : Type 0 where
  pub payload : Payload Json
  pub detail : Text → Detail Json

-- `effects` and `effectIndex`.
pub record CompilerState (Json : Type 0) : Type 0 where
  pub effects : List (Effect Json)
  pub effect_index : ℕ

abbrev pub list_or_nil {ℓ} : {A : Type ℓ} → Option (List A) → List A
list_or_nil none = []
list_or_nil (some xs) = xs

-- `x || ""`
abbrev pub or_empty : Option Text → Text
or_empty none = []
or_empty (some s) = s

-- `${prefix}_${messageId}_${effectIndex}_${payloadHash.substring(0, 8)}`
unfoldable pub numbered_id : Text → Text → ℕ → Text → Text
numbered_id prefix message_id index hash =
    prefix ++ (message_id ++ (b'_' ∷ (print_nat index ++ (b'_' ∷ take 8 hash))))

module _ {Json : Type 0} where
  unfoldable pub mind_requests : CompileDecisionParams Json → List (Request Json)
  mind_requests p = elim p.decision.pixel_md [
    | none ↦ []
    | some md ↦
        record {
          payload = mind_payload md p.decision.tips_md;
          detail = λ _. update_mind p.pixel_id md p.decision.tips_md;
        }
        ∷ []
  ]

  unfoldable pub capability_requests : CompileDecisionParams Json → List (Request Json)
  capability_requests p = elim p.decision.owner_request [
    | none ↦ []
    | some raw ↦
        record {
          payload = request_payload raw;
          detail = λ _. capability_unavailable p.pixel_id (codes "owner_request") raw;
        }
        ∷ []
  ]

  unfoldable pub environment_requests : CompileDecisionParams Json → List (Request Json)
  environment_requests p =
      if p.decision.environment_read
      then record { payload = environment_payload; detail = λ _. read_environment p.pixel_id } ∷ []
      else []

  -- At most the first three.
  unfoldable pub tool_requests : CompileDecisionParams Json → List (Request Json)
  tool_requests p =
      map
        (λ op. record {
          payload = tool_payload op;
          detail = λ operation_id. tool_call p.pixel_id operation_id op;
        })
        (take 3 (list_or_nil p.decision.operations))

  unfoldable pub transfer_requests : CompileDecisionParams Json → List (Request Json)
  transfer_requests p =
      map
        (λ transfer. record {
          payload = transfer_payload transfer;
          detail = λ _. transfer_energy p.pixel_id transfer;
        })
        (list_or_nil p.decision.energy_transfer)

  unfoldable pub reproduce_requests : CompileDecisionParams Json → List (Request Json)
  reproduce_requests p = elim p.decision.reproduce [
    | none ↦ []
    | some r ↦
        record { payload = reproduce_payload r; detail = λ _. reproduce_pixel p.pixel_id r } ∷ []
  ]

  -- A message for STOP, in any case of letters, is not routed.
  unfoldable pub route_requests : CompileDecisionParams Json → List (Request Json)
  route_requests p = elim (truthy p.decision.send_to) [
    | none ↦ []
    | some recipient ↦
        if not (text_eq (to_upper recipient) (codes "STOP"))
        then record {
          payload = message_payload recipient (or_empty p.decision.message_md);
          detail = λ _.
              route_message p.pixel_id recipient (or_empty p.decision.message_md)
                (p.current_hop + 1);
        }
          ∷ []
        else []
  ]

  unfoldable pub reply_requests : CompileDecisionParams Json → List (Request Json)
  reply_requests p = elim (truthy p.decision.owner_reply) [
    | none ↦ []
    | some reply ↦
        record { payload = reply_payload reply; detail = λ _. owner_reply_effect p.pixel_id reply }
        ∷ []
  ]

module _ {Json : Type 0} (sha256 : Payload Json → Text) where
  unfoldable pub effect_of : Text → ℕ → Request Json → Effect Json
  effect_of message_id index r =
      let hash = sha256 r.payload in
      record {
        effect_id = numbered_id (codes "eff_") message_id index hash;
        message_id = message_id;
        effect_index = index;
        payload_hash = hash;
        status = pending;
        detail = r.detail (numbered_id (codes "op_") message_id index hash);
      }

  -- `effects.push` for each, with `effectIndex++`.
  unfoldable pub push_all : Text → List (Request Json) → CompilerState Json → CompilerState Json
  unfolding effect_of
  push_all message_id [] s = s
  push_all message_id (r ∷ rs) s = push_all message_id rs (record {
    effects = s.effects ++ effect_of message_id s.effect_index r ∷ [];
    effect_index = suc s.effect_index;
  })

  unfoldable pub compile : CompileDecisionParams Json → List (Effect Json)
  unfolding push_all
  compile p =
      let push = push_all p.message_id in
      let mind = push (mind_requests p) (record { effects = []; effect_index = 0 }) in
      let capability = push (capability_requests p) mind in
      let environment = push (environment_requests p) capability in
      let tools = push (tool_requests p) environment in
      let transfers = push (transfer_requests p) tools in
      let reproduced = push (reproduce_requests p) transfers in
      let routed = push (route_requests p) reproduced in
      let replied = push (reply_requests p) routed in replied.effects
