-- ===== src/Tests/Fixtures.antt =====
-- A world with two neighbouring pixels, one run, one execution, one character and two messages.
use emergent_inc.Common.{true, false, none, some, [], ◌∷◌, Text, codes, ok}
use emergent_inc.Domain.Lifecycle.{running, active}
use emergent_inc.Store.{
  Db, PixelRow, RunRow, ExecutionRow, mission, MessageRow, queued, waiting_run_budget, human,
  run_running,
}
use emergent_inc.Budget.Types.{ReserveParams, BudgetPolicy}
use emergent_inc.Messages.Types.{EnqueueParams}

abbrev pub origin : Text
origin = codes "0_0_0"

abbrev pub beside : Text
beside = codes "1_0_0"

abbrev pub run_1 : Text
run_1 = codes "run_1"

abbrev pub execution_1 : Text
execution_1 = codes "execution_1"

abbrev pub pixel_row : PixelRow
pixel_row = record {
  pixel_id = origin;
  energy = 1000;
  active = true;
  refund_deficit_tokens = 0;
  spend_blocked_reason = none;
}

abbrev pub run_row : RunRow
run_row = record {
  run_id = run_1;
  execution_id = none;
  last_scope_round = none;
  run_limit = 500;
  run_spent = 0;
  run_reserved = 0;
  status = run_running;
  stop_reason = none;
}

abbrev pub scoped_run_row : RunRow
scoped_run_row = record {
  run_id = codes "run_2";
  execution_id = some execution_1;
  last_scope_round = none;
  run_limit = 500;
  run_spent = 0;
  run_reserved = 0;
  status = run_running;
  stop_reason = none;
}

abbrev pub execution_row : ExecutionRow
execution_row = record {
  execution_id = execution_1;
  kind = mission;
  subject_id = codes "mission_1";
  budget_tokens = 300;
  spent_tokens = 0;
  reserved_tokens = 0;
  rounds_limit = 5;
  rounds_used = 0;
  status = running;
}

abbrev pub message_row : MessageRow
message_row = record {
  message_id = codes "msg_1";
  run_id = none;
  execution_id = none;
  round_num = 1;
  hop = 1;
  sender = codes "human";
  recipient = origin;
  content = codes "hello";
  sender_binding_id = none;
  recipient_binding_id = some (codes "binding_1");
  binding_snapshot_captured = true;
  narrative_revision = none;
  identity_snapshot_captured = false;
  status = queued;
  abandoned_reason = none;
  is_feedback = false;
  source_type = human;
  created_at = 7;
}

abbrev pub waiting_row : MessageRow
waiting_row = record message_row { message_id = codes "msg_2"; status = waiting_run_budget }

abbrev pub world : Db
world = record {
  pixel_accounts = pixel_row ∷ [];
  runs = run_row ∷ scoped_run_row ∷ [];
  run_checkpoints =
      record { run_id = run_1; round_started = true; round_messages = 0; resume_pending = true }
      ∷ [];
  global_budget = some (record { total_limit = 1000; total_spent = 0; total_reserved = 0 });
  reservations = [];
  executions = execution_row ∷ [];
  execution_participants = [];
  execution_evidence = [];
  trials = [];
  qianji_profiles = record { qianji_id = codes "qianji_1"; career_status = active } ∷ [];
  qianji_bindings =
      record {
        binding_id = codes "binding_1";
        qianji_id = codes "qianji_1";
        pixel_id = origin;
        incarnation = 1;
        unbound = false;
      }
      ∷ [];
  messages = message_row ∷ waiting_row ∷ [];
  ledger_entries = [];
  external_reward_requests = [];
  effects = [];
  model_calls = [];
  tool_executions = [];
  recovery_decisions = [];
}

-- No company runs, and an `ensureEnergy` that finds enough.
abbrev pub plain_policy : BudgetPolicy
plain_policy = record { company_run = λ _. false; ensure_energy = λ pixel tokens key db. ok db }

abbrev pub call_1 : ReserveParams
call_1 = record {
  call_id = codes "call_1";
  run_id = run_1;
  pixel_id = origin;
  estimated_tokens = 100;
  message_id = none;
  execution_id = none;
  binding_id = none;
  narrative_revision = none;
}

-- A message of a pixel to itself, without an id.
abbrev pub note_to_self : EnqueueParams
note_to_self = record {
  message_id = none;
  run_id = none;
  execution_id = none;
  round_num = 1;
  hop = none;
  sender = origin;
  recipient = origin;
  content = codes "wake";
  is_feedback = false;
  source_type = none;
  status = none;
  sender_binding_id = none;
  recipient_binding_id = none;
}
