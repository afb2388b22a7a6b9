-- ===== src/Runtime/Feedback.antt =====
-- packages/runtime/src/feedback/feedback_factory.ts: the messages by which the engine tells a pixel
-- what failed. `JSON.stringify` and `String` are the parameters `stringify` and `to_string`.
pub mod Delivery
use emergent_inc.Common.{
  ℕ, suc, ◌+◌, Bool, true, false, Option, none, some, List, [], ◌∷◌, ◌++◌, Text, codes, length,
  if◌then◌else◌,
}
use emergent_inc.Grid.Number.{print_nat, to_upper}
use emergent_inc.Store.{SourceType, feedback}
use emergent_inc.Messages.Types.{EnqueueParams}

-- An output, told apart by `typeof outputOrError === "object"`.
pub data Output (Json : Type 0) : Type 0 where
  object_output : Json → Output Json
  other_output : Json → Output Json

pub record ToolOutcome (Json : Type 0) : Type 0 where
  pub tool : Text
  pub status : Text
  pub output_or_error : Output Json

-- The fields that all feedback has.
unfoldable pub feedback_to : Text → ℕ → Option Text → Text → EnqueueParams
feedback_to pixel_id round run_id content = record {
  message_id = none;
  run_id = run_id;
  execution_id = none;
  round_num = round;
  hop = none;
  sender = codes "system";
  recipient = pixel_id;
  content = content;
  is_feedback = true;
  source_type = some feedback;
  status = none;
  sender_binding_id = none;
  recipient_binding_id = none;
}

unfoldable pub create_mind_validation_feedback : Text → ℕ → Option Text → ℕ → EnqueueParams
create_mind_validation_feedback pixel_id round run_id actual_length =
    feedback_to pixel_id round run_id (
      codes
        "[ENGINE_FEEDBACK] MIND_VALIDATION_FAILED: pixel.md exceeds 2000 code points limit (got "
      ++ print_nat actual_length
      ++ codes "). Mind update was rejected.")

unfoldable pub create_capability_unavailable_feedback :
    Text → ℕ → Option Text → Text → EnqueueParams
create_capability_unavailable_feedback pixel_id round run_id capability =
    feedback_to pixel_id round run_id (
      codes "[ENGINE_FEEDBACK] CAPABILITY_UNAVAILABLE: External owner approval/request capability '"
      ++ capability
      ++ codes "' is currently disabled in V10 runtime.")

-- `lines.join("\n")`
unfoldable pub join_lines : List Text → Text
join_lines [] = []
join_lines (line ∷ []) = line
join_lines (line ∷ next ∷ rest) = line ++ b'\n' ∷ join_lines (next ∷ rest)

module _ {Json : Type 0} (stringify to_string : Json → Text) where
  unfoldable pub format_output : Output Json → Text
  format_output (object_output o) = stringify o
  format_output (other_output o) = to_string o

  unfoldable pub create_tool_execution_feedback :
      Text → ℕ → Option Text → ToolOutcome Json → EnqueueParams
  create_tool_execution_feedback pixel_id round run_id e = feedback_to pixel_id round run_id (
      codes "[ENGINE_FEEDBACK] TOOL_"
      ++ to_upper e.tool
      ++ codes "_"
      ++ e.status
      ++ codes ": "
      ++ format_output e.output_or_error)

  -- The numbered lines, from `number` on.
  unfoldable pub outcome_lines : ℕ → List (ToolOutcome Json) → List Text
  outcome_lines number [] = []
  outcome_lines number (e ∷ es) =
      (print_nat number
        ++ codes ". "
        ++ e.tool
        ++ codes " -> "
        ++ e.status
        ++ codes ": "
        ++ format_output e.output_or_error)
      ∷ outcome_lines (suc number) es

  batch_text : List (ToolOutcome Json) → Text
  unfolding outcome_lines join_lines
  batch_text es = join_lines (
      (codes "[ENGINE_FEEDBACK] BATCH_TOOL_EXECUTIONS (Total: "
        ++ print_nat (length es)
        ++ codes "):")
      ∷ outcome_lines 1 es)

  unfoldable pub create_batch_tool_execution_feedback :
      Text → ℕ → Option Text → List (ToolOutcome Json) → EnqueueParams
  unfolding batch_text
  create_batch_tool_execution_feedback pixel_id round run_id [] =
      feedback_to pixel_id round run_id (batch_text [])
  create_batch_tool_execution_feedback pixel_id round run_id (e ∷ []) =
      create_tool_execution_feedback pixel_id round run_id e
  create_batch_tool_execution_feedback pixel_id round run_id (e ∷ e' ∷ es) =
      feedback_to pixel_id round run_id (batch_text (e ∷ e' ∷ es))

unfoldable pub create_transfer_failure_feedback :
    Text → ℕ → Option Text → Text → Text → Text → EnqueueParams
create_transfer_failure_feedback pixel_id round run_id target code message =
    feedback_to pixel_id round run_id (
      codes "[ENGINE_FEEDBACK] ENERGY_TRANSFER_FAILED: Target '"
      ++ target
      ++ codes "' rejected ("
      ++ code
      ++ codes "): "
      ++ message)

unfoldable pub create_reproduction_failure_feedback :
    Text → ℕ → Option Text → Text → Text → EnqueueParams
create_reproduction_failure_feedback pixel_id round run_id code message =
    feedback_to pixel_id round run_id
      (codes "[ENGINE_FEEDBACK] REPRODUCTION_FAILED (" ++ code ++ codes "): " ++ message)

unfoldable pub create_routing_failure_feedback :
    Text → ℕ → Option Text → Text → Text → Text → EnqueueParams
create_routing_failure_feedback pixel_id round run_id recipient code message =
    feedback_to pixel_id round run_id (
      codes "[ENGINE_FEEDBACK] MESSAGE_ROUTING_FAILED: Recipient '"
      ++ recipient
      ++ codes "' rejected ("
      ++ code
      ++ codes "): "
      ++ message)
