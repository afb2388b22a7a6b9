-- ===== src/Tests/Effects.antt =====
-- Decisions and feedback at concrete inputs.
use emergent_inc.Common.{
  ℕ, ◌≡◌, ◌≢◌, refl, arith, false, none, some, [], ◌∷◌, ◌++◌, Text, codes, ok, text_eq, get_elem?,
}
use emergent_inc.Common.Int.{pos}
use emergent_inc.Domain.Validation.{integer}
use emergent_inc.Store.{MessageRow}
use emergent_inc.Store.Table.{exists_where}
use emergent_inc.Store.Keys.{truthy}
use emergent_inc.Grid.Number.{to_upper}
use emergent_inc.Messages.Queue.{enqueue_message}
use emergent_inc.Runtime.Compiler.{
  ToolCall, CompileDecisionParams, Payload, Effect, compile, reply_requests, route_requests,
  reproduce_requests, transfer_requests, tool_requests, environment_requests, capability_requests,
  mind_requests, effect_of, update_mind, tool_call,
}
use emergent_inc.Runtime.Compiler.Contents.{tool_call_of, transfer_of, collect, compile-contents}
use emergent_inc.Runtime.Compiler.Phases.{IsAscending, phases, compile-IsAscending}
use emergent_inc.Runtime.Compiler.Ids.{compile-ids_distinct}
use emergent_inc.Runtime.Feedback.{create_mind_validation_feedback}
use emergent_inc.Runtime.Feedback.Delivery.{IsFeedback, of_mind, IsDelivered, feedback-Delivery}
use emergent_inc.Tests.Fixtures.{origin, beside, world}

-- JSON values are texts here, and every hash is the same.
abbrev hash : Payload Text → Text
hash payload = codes "0123456789abcdef"

abbrev op : Text → ToolCall Text
op name = record { tool = name; args = [] }

abbrev decision : CompileDecisionParams Text
decision = record {
  decision = record {
    pixel_md = some (codes "mind");
    tips_md = none;
    environment_read = false;
    operations = some (op (codes "a") ∷ op (codes "b") ∷ op (codes "c") ∷ op (codes "d") ∷ []);
    energy_transfer = some (record { target = beside; amount = integer (pos 3) } ∷ []);
    reproduce = none;
    send_to = some (codes "stop");
    message_md = none;
    owner_request = none;
    owner_reply = none;
  };
  pixel_id = origin;
  message_id = codes "msg_1";
  current_hop = 1;
}

abbrev first_effect : Effect Text
first_effect = effect_of hash (codes "msg_1") 0 (record {
  payload = Payload.mind_payload (codes "mind") none;
  detail = λ _. update_mind origin (codes "mind") none;
})

first_stands : get_elem? (compile hash decision) 0 ≡ some first_effect
unfolding compile reply_requests truthy route_requests text_eq to_upper reproduce_requests
    transfer_requests tool_requests environment_requests capability_requests mind_requests effect_of
first_stands = refl

abbrev second_effect : Effect Text
second_effect = effect_of hash (codes "msg_1") 1 (record {
  payload = Payload.tool_payload (op (codes "a"));
  detail = λ id. tool_call origin id (op (codes "a"));
})

second_stands : get_elem? (compile hash decision) 1 ≡ some second_effect
unfolding compile reply_requests truthy route_requests text_eq to_upper reproduce_requests
    transfer_requests tool_requests environment_requests capability_requests mind_requests effect_of
second_stands = refl

apart : ◌≢◌ {A = ℕ} 0 1
apart = λ e. absurd (omega arith)

compile-ids_distinct_example : first_effect.effect_id ≢ second_effect.effect_id
compile-ids_distinct_example =
    compile-ids_distinct hash decision 0 1 first_effect second_effect first_stands second_stands
      apart

compile-contents_example :
    (collect tool_call_of (compile hash decision)
      ≡ op (codes "a") ∷ op (codes "b") ∷ op (codes "c") ∷ [])
    × (collect transfer_of (compile hash decision)
        ≡ record { target = beside; amount = integer (pos 3) } ∷ [])
compile-contents_example = compile-contents hash decision

compile-IsAscending_example : IsAscending 0 (phases (compile hash decision))
compile-IsAscending_example = compile-IsAscending hash decision

fresh : exists_where (λ m. text_eq m.message_id (codes "msg_9")) world.messages ≡ false
unfolding exists_where text_eq
fresh = refl

abbrev as_text : Text → Text
as_text s = s

abbrev too_long :
    IsFeedback as_text as_text origin (create_mind_validation_feedback origin 2 none 2001)
too_long = of_mind 2 none 2001

feedback-Delivery_example :
    (row : MessageRow) × (enqueue_message
        (create_mind_validation_feedback origin 2 none 2001)
        (codes "msg_9")
        5
        world
      ≡ ok (row, record world { messages = world.messages ++ row ∷ [] }))
    × IsDelivered origin row
feedback-Delivery_example =
    feedback-Delivery as_text as_text origin (create_mind_validation_feedback origin 2 none 2001)
      (codes "msg_9") 5 world too_long fresh
