-- ===== src/Store.antt =====
-- packages/persistence/src/migrations/init_schema.ts and packages/protocol/src/enums.ts: the rows of
-- the SQLite tables that the modelled repositories read and write, and the database as a record
-- of tables. A table is the list of its rows in insertion order. Columns that no modelled
-- statement reads (time stamps, JSON payloads, prices) are left out.
pub mod Table
pub mod Keys
pub mod Unique
use emergent_inc.Common.{ℕ, Bool, Option, List, Text}
use emergent_inc.Common.Int.{ℤ}
use emergent_inc.Domain.Lifecycle.{ExecutionStatus, QianjiCareerStatus}

pub data MessageStatus : Type 0 where
  queued processing reserved calling response_stored committed : MessageStatus
  waiting_pixel_budget waiting_run_budget waiting_execution_budget : MessageStatus
  call_outcome_unknown awaiting_settlement abandoned model_response_invalid : MessageStatus

pub data SourceType : Type 0 where
  pixel system human material environment feedback : SourceType

pub data ExecutionKind : Type 0 where
  mission trial_candidate : ExecutionKind

pub data ReservationStatus : Type 0 where
  open_reservation settled refunded : ReservationStatus

pub data RunStatus : Type 0 where
  run_running run_completed run_stopped run_paused run_failed : RunStatus

pub data StopReason : Type 0 where
  user_stopped service_shutdown round_limit_reached message_limit_reached : StopReason
  run_budget_exhausted execution_budget_exhausted global_budget_exhausted : StopReason
  active_pixels_zero no_active_messages infrastructure_stop response_invalid_stop : StopReason
  call_unknown_stop tool_unknown_stop recovery_required read_loop_threshold_reached : StopReason

pub data ModelCallOutcome : Type 0 where
  call_success outcome_unknown outcome_reconciled infrastructure_failure : ModelCallOutcome
  response_invalid : ModelCallOutcome

pub data ToolExecutionStatus : Type 0 where
  tool_started tool_success tool_failed tool_unknown tool_skipped : ToolExecutionStatus

pub record PixelRow : Type 0 where
  pub pixel_id : Text
  pub energy : ℕ
  pub active : Bool
  pub refund_deficit_tokens : ℕ
  pub spend_blocked_reason : Option Text

pub record RunRow : Type 0 where
  pub run_id : Text
  pub execution_id : Option Text
  pub last_scope_round : Option ℕ
  pub run_limit : ℕ
  pub run_spent : ℕ
  pub run_reserved : ℕ
  pub status : RunStatus
  pub stop_reason : Option StopReason

pub record CheckpointRow : Type 0 where
  pub run_id : Text
  pub round_started : Bool
  pub round_messages : ℕ
  pub resume_pending : Bool

pub record GlobalRow : Type 0 where
  pub total_limit : ℕ
  pub total_spent : ℕ
  pub total_reserved : ℕ

pub record ReservationRow : Type 0 where
  pub call_id : Text
  pub run_id : Text
  pub pixel_id : Text
  pub amount : ℕ
  pub execution_id : Option Text
  pub binding_id : Option Text
  pub narrative_revision : Option ℕ
  pub message_id : Option Text
  pub status : ReservationStatus

pub record ExecutionRow : Type 0 where
  pub execution_id : Text
  pub kind : ExecutionKind
  pub subject_id : Text
  pub budget_tokens : ℕ
  pub spent_tokens : ℕ
  pub reserved_tokens : ℕ
  pub rounds_limit : ℕ
  pub rounds_used : ℕ
  pub status : ExecutionStatus

pub record ParticipantRow : Type 0 where
  pub execution_id : Text
  pub binding_id : Text
  pub released : Bool

pub record EvidenceRow : Type 0 where
  pub evidence_id : Text
  pub execution_id : Text
  pub binding_id : Text
  pub operation_id : Option Text
  pub relative_path : Option Text
  pub sha256 : Option Text
  pub size_bytes : Option ℕ
  pub evidence_type : Text

pub record TrialRow : Type 0 where
  pub trial_id : Text
  pub total_budget_tokens : ℕ

pub record ProfileRow : Type 0 where
  pub qianji_id : Text
  pub career_status : QianjiCareerStatus

pub record BindingRow : Type 0 where
  pub binding_id : Text
  pub qianji_id : Text
  pub pixel_id : Text
  pub incarnation : ℕ
  pub unbound : Bool

pub record MessageRow : Type 0 where
  pub message_id : Text
  pub run_id : Option Text
  pub execution_id : Option Text
  pub round_num : ℕ
  pub hop : ℕ
  pub sender : Text
  pub recipient : Text
  pub content : Text
  pub sender_binding_id : Option Text
  pub recipient_binding_id : Option Text
  pub binding_snapshot_captured : Bool
  pub narrative_revision : Option ℕ
  pub identity_snapshot_captured : Bool
  pub status : MessageStatus
  pub abandoned_reason : Option Text
  pub is_feedback : Bool
  pub source_type : SourceType
  pub created_at : ℕ

pub record LedgerRow : Type 0 where
  pub entry_id : Text
  pub pixel_id : Text
  pub binding_id : Option Text
  pub entry_type : Text
  pub amount : ℤ
  pub balance_after : ℕ

-- The texts `request_json` and `result_json` stand here as the objects that they encode.
pub record RewardRequest : Type 0 where
  pub pixel_id : Text
  pub amount : ℕ
  pub source : Text
  pub reason : Text

pub record RewardResult : Type 0 where
  pub pixel_id : Text
  pub new_balance : ℕ
  pub amount : ℕ
  pub event_id : Text

pub record RewardRow : Type 0 where
  pub idempotency_key : Text
  pub request : RewardRequest
  pub result : RewardResult

pub data EffectStatus : Type 0 where
  pending applied failed skipped unknown : EffectStatus

pub record EffectRow : Type 0 where
  pub effect_id : Text
  pub message_id : Text
  pub effect_index : ℕ
  pub payload_hash : Text
  pub status : EffectStatus

-- A finite cost stands as its JSON text.
pub record ModelCallRow : Type 0 where
  pub call_id : Text
  pub message_id : Option Text
  pub actual_tokens : Option ℕ
  pub cost_cny : Option Text
  pub outcome : ModelCallOutcome

pub record ToolExecutionRow : Type 0 where
  pub operation_id : Text
  pub message_id : Text
  pub status : ToolExecutionStatus

pub data RecoveryKind : Type 0 where
  model_kind tool_kind run_kind message_kind : RecoveryKind

pub data RecoveryDecision : Type 0 where
  confirm_not_billed settle_billed settle_reserved abandon acknowledge : RecoveryDecision

-- `details` adds two numbers to the other columns; they stand as their JSON texts.
pub record RecoveryRow : Type 0 where
  pub decision_id : Text
  pub kind : RecoveryKind
  pub id : Text
  pub decision : RecoveryDecision
  pub reason : Text
  pub actual_json : Text
  pub cost_json : Text

pub record Db : Type 0 where
  pub pixel_accounts : List PixelRow
  pub runs : List RunRow
  pub run_checkpoints : List CheckpointRow
  pub global_budget : Option GlobalRow
  pub reservations : List ReservationRow
  pub executions : List ExecutionRow
  pub execution_participants : List ParticipantRow
  pub execution_evidence : List EvidenceRow
  pub trials : List TrialRow
  pub qianji_profiles : List ProfileRow
  pub qianji_bindings : List BindingRow
  pub messages : List MessageRow
  pub ledger_entries : List LedgerRow
  pub external_reward_requests : List RewardRow
  pub effects : List EffectRow
  pub model_calls : List ModelCallRow
  pub tool_executions : List ToolExecutionRow
  pub recovery_decisions : List RecoveryRow
