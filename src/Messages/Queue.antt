-- ===== src/Messages/Queue.antt =====
-- `enqueueMessage`, `commitMessage`, `updateStatus` and `deferMessage`.
use emergent_inc.Common.{
  ℕ, suc, ◌+◌, zero, Bool, true, false, not, ◌&&◌, ◌||◌, Option, none, some, [], ◌∷◌, ◌++◌, Text,
  codes, text_eq, Result, ok, err, if◌then◌else◌,
}
use emergent_inc.Store.{
  Db, MessageRow, MessageStatus, queued, committed, SourceType, pixel, system, human, environment,
  feedback, BindingRow,
}
use emergent_inc.Store.Table.{select_first, exists_where, update_where, count_where}
use emergent_inc.Store.Keys.{optional_text_eq, truthy}
use emergent_inc.Messages.Types.{
  EnqueueParams, is_queued, is_committed, is_environment, is_pixel_source,
}

abbrev pub or_default {ℓ} : {A : Type ℓ} → A → Option A → A
or_default d none = d
or_default d (some a) = a

abbrev binding_id_of : Option BindingRow → Option Text
binding_id_of none = none
binding_id_of (some b) = some b.binding_id

unfoldable pub current_binding_id : Text → Db → Option Text
current_binding_id pixel_id db =
    binding_id_of
      (select_first (λ b. text_eq b.pixel_id pixel_id && not b.unbound) db.qianji_bindings)

-- The source type that is derived from the sender where none is given.
unfoldable pub source_type_of : EnqueueParams → SourceType
source_type_of p = elim p.source_type [
  | some s ↦ s
  | none ↦
      if text_eq p.sender (codes "human")
      then human
      else if text_eq p.sender (codes "system")
      then system
      else if p.is_feedback
      then feedback
      else if text_eq p.sender (codes "environment")
      then environment
      else pixel
]

-- The condition of the deduplication.
unfoldable pub may_reuse : EnqueueParams → Bool
may_reuse p = elim (truthy p.message_id) [
  | some id ↦ false
  | none ↦
      (is_environment (source_type_of p)
        || (text_eq p.sender p.recipient && is_pixel_source (source_type_of p)))
      && is_queued (or_default queued p.status)
]

-- The row that `INSERT` adds.
unfoldable pub message_of : EnqueueParams → Text → ℕ → Db → MessageRow
message_of p fresh_id now db = record {
  message_id = or_default fresh_id (truthy p.message_id);
  run_id = p.run_id;
  execution_id = p.execution_id;
  round_num = p.round_num;
  hop = or_default 1 p.hop;
  sender = p.sender;
  recipient = p.recipient;
  content = p.content;
  sender_binding_id = or_default (current_binding_id p.sender db) p.sender_binding_id;
  recipient_binding_id = or_default (current_binding_id p.recipient db) p.recipient_binding_id;
  binding_snapshot_captured = true;
  narrative_revision = none;
  identity_snapshot_captured = false;
  status = or_default queued p.status;
  abandoned_reason = none;
  is_feedback = p.is_feedback;
  source_type = source_type_of p;
  created_at = now;
}

-- The condition of the query for an unconsumed message like the new one.
unfoldable pub is_same_message : MessageRow → MessageRow → Bool
is_same_message new row =
    text_eq row.recipient new.recipient
    && text_eq row.sender new.sender
    && text_eq row.content new.content
    && is_queued row.status
    && optional_text_eq row.execution_id new.execution_id
    && optional_text_eq row.sender_binding_id new.sender_binding_id
    && optional_text_eq row.recipient_binding_id new.recipient_binding_id

pub data QueueError : Type 0 where
  -- the primary key of the new row is taken
  constraint_failed : QueueError

unfoldable pub insert_message : MessageRow → Db → Result QueueError (MessageRow × Db)
insert_message row db =
    if exists_where (λ m. text_eq m.message_id row.message_id) db.messages
    then err constraint_failed
    else ok (row, record db { messages = db.messages ++ row ∷ [] })

unfoldable pub enqueue_message : EnqueueParams → Text → ℕ → Db → Result QueueError (MessageRow × Db)
enqueue_message p fresh_id now db =
    let row = message_of p fresh_id now db in
    if may_reuse p
    then elim (select_first (is_same_message row) db.messages) [
      | some existing ↦ ok (existing, db)
      | none ↦ insert_message row db
    ]
    else insert_message row db

-- `UPDATE run_checkpoints SET round_messages=round_messages+1`, when a row was committed.
unfoldable pub count_message : Option Text → ℕ → Db → Db
count_message none changes db = db
count_message (some run_id) zero db = db
count_message (some run_id) (suc n) db = record db {
  run_checkpoints =
      update_where (λ c. text_eq c.run_id run_id && c.round_started)
        (λ c. record c { round_messages = c.round_messages + 1 }) db.run_checkpoints;
}

abbrev pub is_uncommitted : Text → MessageRow → Bool
is_uncommitted message_id m = text_eq m.message_id message_id && not (is_committed m.status)

unfoldable pub commit_message : Text → Option Text → Db → Db
unfolding count_message
commit_message message_id run_id db =
    count_message (truthy run_id) (count_where (is_uncommitted message_id) db.messages) (record db {
      messages =
          update_where (is_uncommitted message_id) (λ m. record m { status = committed })
            db.messages;
    })

unfoldable pub update_status : Text → MessageStatus → Db → Db
update_status message_id status db = record db {
  messages =
      update_where (λ m. text_eq m.message_id message_id) (λ m. record m { status = status })
        db.messages;
}

unfoldable pub defer_message : Text → ℕ → Db → Db
defer_message message_id target_round db = record db {
  messages =
      update_where (λ m. text_eq m.message_id message_id)
        (λ m. record m { status = queued; round_num = target_round }) db.messages;
}
