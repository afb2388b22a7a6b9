-- ===== src/Tests/ReadLoops.antt =====
-- Loops of reading at concrete inputs.
use emergent_inc.Common.{
  ◌<◌, ◌%◌, ◌≡◌, ◌↔◌, refl, Bool, true, false, none, some, List, [], ◌∷◌, Text, codes, text_eq,
}
use emergent_inc.Runtime.Compiler.{ToolCall, AgentDecision}
use emergent_inc.Runtime.ReadLoop.{
  Received, counted, detect_read_only_loop, is_external_stimulus, is_pure_read_only,
}
use emergent_inc.Runtime.ReadLoop.Streaks.{repeats}
use emergent_inc.Runtime.ReadLoop.Halts.{steps_of, streaks_after, detect_read_only_loop_iff}
use emergent_inc.Tests.Fixtures.{origin, beside}

abbrev reads : Text → Bool
reads tool = text_eq tool (codes "read")

-- The signature is the first tool's arguments.
abbrev first_args : List (ToolCall Text) → Bool → Text
first_args [] flag = []
first_args (op ∷ ops) flag = op.args

abbrev look : AgentDecision Text
look = record {
  pixel_md = none;
  tips_md = none;
  environment_read = false;
  operations = some (record { tool = codes "read"; args = codes "a" } ∷ []);
  energy_transfer = none;
  reproduce = none;
  send_to = some beside;
  message_md = some (codes "hello");
  owner_request = none;
  owner_reply = none;
}

abbrev wake : Received
wake = record { recipient = origin; sender = codes "system" }

abbrev to_other : Received
to_other = record { recipient = beside; sender = codes "system" }

abbrev past : List (Received × AgentDecision Text)
past = (wake, look) ∷ (to_other, look) ∷ (wake, look) ∷ []

-- The third step is reported, although each one sends a message to a neighbour.
third_reported :
    (detect_read_only_loop reads first_args wake look (streaks_after reads first_args past)).0
    ≡ true
unfolding detect_read_only_loop is_pure_read_only text_eq is_external_stimulus counted streaks_after
third_reported = refl

detect_read_only_loop_iff_example :
    ((detect_read_only_loop reads first_args wake look (streaks_after reads first_args past)).0
      ≡ true)
    ↔ ((0 < repeats origin (codes "a") (steps_of reads first_args ((wake, look) ∷ past)))
        × (repeats origin (codes "a") (steps_of reads first_args ((wake, look) ∷ past)) % 3 ≡ 0))
detect_read_only_loop_iff_example = detect_read_only_loop_iff reads first_args (wake, look) past
