-- ===== src/Messages/Types.antt =====
-- The parameters of `enqueueMessage` and the tests on status and source, packages/protocol/src/enums.ts.
use emergent_inc.Common.{ℕ, Bool, true, false, Option, Text}
use emergent_inc.Store.{
  MessageStatus, queued, processing, reserved, calling, response_stored, committed,
  waiting_pixel_budget, waiting_run_budget, waiting_execution_budget, SourceType, pixel, system,
  environment,
}

-- `undefined` is none. For a binding id, `null` is `some none`.
pub record EnqueueParams : Type 0 where
  pub message_id : Option Text
  pub run_id : Option Text
  pub execution_id : Option Text
  pub round_num : ℕ
  pub hop : Option ℕ
  pub sender : Text
  pub recipient : Text
  pub content : Text
  pub is_feedback : Bool
  pub source_type : Option SourceType
  pub status : Option MessageStatus
  pub sender_binding_id : Option (Option Text)
  pub recipient_binding_id : Option (Option Text)

abbrev pub is_queued : MessageStatus → Bool
is_queued queued = true
is_queued _ = false

abbrev pub is_response_stored : MessageStatus → Bool
is_response_stored response_stored = true
is_response_stored _ = false

-- `status IN ('QUEUED', 'RESPONSE_STORED')`
abbrev pub is_processable : MessageStatus → Bool
is_processable queued = true
is_processable response_stored = true
is_processable _ = false

abbrev pub is_committed : MessageStatus → Bool
is_committed committed = true
is_committed _ = false

-- The statuses that `countPendingMessages` counts.
abbrev pub is_pending : MessageStatus → Bool
is_pending queued = true
is_pending processing = true
is_pending reserved = true
is_pending calling = true
is_pending response_stored = true
is_pending waiting_pixel_budget = true
is_pending waiting_run_budget = true
is_pending waiting_execution_budget = true
is_pending _ = false

abbrev pub is_waiting_run_budget : MessageStatus → Bool
is_waiting_run_budget waiting_run_budget = true
is_waiting_run_budget _ = false

abbrev pub is_waiting_pixel_budget : MessageStatus → Bool
is_waiting_pixel_budget waiting_pixel_budget = true
is_waiting_pixel_budget _ = false

abbrev pub is_system : SourceType → Bool
is_system system = true
is_system _ = false

abbrev pub is_environment : SourceType → Bool
is_environment environment = true
is_environment _ = false

abbrev pub is_pixel_source : SourceType → Bool
is_pixel_source pixel = true
is_pixel_source _ = false
