-- ===== src/Runtime/ReadLoop.antt =====
-- `detectReadOnlyLoop` of packages/runtime/src/scheduler/round_scheduler.ts. The tools that only
-- read, and `JSON.stringify` of the operations and the flag, are parameters.
pub mod Streaks
pub mod Halts
use emergent_inc.Common.{
  ℕ, ◌+◌, Bool, true, false, not, ◌&&◌, ◌||◌, Option, none, some, List, [], ◌∷◌, Text, codes,
  text_eq, leb, any, if◌then◌else◌,
}
use emergent_inc.Runtime.Compiler.{ToolCall, AgentDecision, list_or_nil}

pub record Streak : Type 0 where
  pub count : ℕ
  pub last_op_hash : Text

-- The map `readOnlyStreaks`
abbrev pub Streaks : Type 0
Streaks = Text → Option Streak

abbrev pub put : Text → Option Streak → Streaks → Streaks
put id streak streaks other = if text_eq id other then streak else streaks other

-- The parts of a message that are read.
pub record Received : Type 0 where
  pub recipient : Text
  pub sender : Text

abbrev pub is_empty_list {ℓ} : {A : Type ℓ} → List A → Bool
is_empty_list [] = true
is_empty_list (x ∷ xs) = false

abbrev pub is_none {ℓ} : {A : Type ℓ} → Option A → Bool
is_none none = true
is_none (some a) = false

module _ {Json : Type 0} (is_read_only_tool : Text → Bool) where
  -- `send_to` of a parsed decision is a text or null, never an array: `Array.isArray` is false, and
  -- so is `hasExternalRouting`.
  unfoldable pub is_pure_read_only : AgentDecision Json → Bool
  is_pure_read_only decision =
      let operations = list_or_nil decision.operations in
      is_empty_list (list_or_nil decision.energy_transfer)
      && is_none decision.reproduce
      && not (any (λ op. not (is_read_only_tool op.tool)) operations)
      && (not (is_empty_list operations) || decision.environment_read)

unfoldable pub is_external_stimulus : Received → Bool
is_external_stimulus message =
    not (text_eq message.sender (codes "system"))
    && not (text_eq message.sender message.recipient)
    && not (text_eq message.sender (codes "environment"))

-- The count under the same signature: at three the streak ends, and the loop is reported.
unfoldable pub counted : Text → Text → Option Streak → Streaks → Bool × Streaks
counted id signature none streaks =
    (false, put id (some (record { count = 1; last_op_hash = signature })) streaks)
counted id signature (some streak) streaks =
    if text_eq streak.last_op_hash signature
    then (if leb 3 (streak.count + 1)
        then (true, put id none streaks)
        else (false, put id (some (record streak { count = streak.count + 1 })) streaks))
    else (false, put id (some (record { count = 1; last_op_hash = signature })) streaks)

module _ {Json : Type 0} (is_read_only_tool : Text → Bool)
    (stringify : List (ToolCall Json) → Bool → Text) where
  abbrev pub signature_of : AgentDecision Json → Text
  signature_of decision = stringify (list_or_nil decision.operations) decision.environment_read

  unfoldable pub detect_read_only_loop : Received → AgentDecision Json → Streaks → Bool × Streaks
  detect_read_only_loop message decision streaks =
      let id = message.recipient in
      if not (is_pure_read_only is_read_only_tool decision)
      then (false, put id none streaks)
      else if is_external_stimulus message
      then (false, put id none streaks)
      else counted id (signature_of decision) (streaks id) streaks
