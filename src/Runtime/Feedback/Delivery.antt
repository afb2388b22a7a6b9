-- ===== src/Runtime/Feedback/Delivery.antt =====
-- The feedback of packages/runtime/src/feedback/feedback_factory.ts in the queue.
use emergent_inc.Common.{
  ℕ, ◌≡◌, refl, sym, subst, true, false, Option, List, [], ◌∷◌, ◌++◌, Text, text_eq, ok, arith,
}
use emergent_inc.Store.{Db, MessageRow, feedback, queued}
use emergent_inc.Store.Table.{exists_where}
use emergent_inc.Store.Keys.{truthy}
use emergent_inc.Messages.Types.{EnqueueParams}
use emergent_inc.Messages.Queue.{
  enqueue_message, insert_message, may_reuse, source_type_of, message_of,
}
use emergent_inc.Runtime.Feedback.{
  ToolOutcome, feedback_to, create_mind_validation_feedback, create_capability_unavailable_feedback,
  create_batch_tool_execution_feedback, create_tool_execution_feedback,
  create_transfer_failure_feedback, create_reproduction_failure_feedback,
  create_routing_failure_feedback,
}

-- What each method of the factory can return.
pub data IsFeedback {Json : Type 0} (stringify to_string : Json → Text) (pixel_id : Text)
    : EnqueueParams → Type 0 where
  of_mind :
      (round : ℕ) (run_id : Option Text) (n : ℕ)
      → IsFeedback stringify to_string pixel_id
          (create_mind_validation_feedback pixel_id round run_id n)
  of_capability :
      (round : ℕ) (run_id : Option Text) (capability : Text)
      → IsFeedback stringify to_string pixel_id
          (create_capability_unavailable_feedback pixel_id round run_id capability)
  of_tool :
      (round : ℕ) (run_id : Option Text) (e : ToolOutcome Json)
      → IsFeedback stringify to_string pixel_id
          (create_tool_execution_feedback stringify to_string pixel_id round run_id e)
  of_batch :
      (round : ℕ) (run_id : Option Text) (es : List (ToolOutcome Json))
      → IsFeedback stringify to_string pixel_id
          (create_batch_tool_execution_feedback stringify to_string pixel_id round run_id es)
  of_transfer :
      (round : ℕ) (run_id : Option Text) (target code message : Text)
      → IsFeedback stringify to_string pixel_id
          (create_transfer_failure_feedback pixel_id round run_id target code message)
  of_reproduction :
      (round : ℕ) (run_id : Option Text) (code message : Text)
      → IsFeedback stringify to_string pixel_id
          (create_reproduction_failure_feedback pixel_id round run_id code message)
  of_routing :
      (round : ℕ) (run_id : Option Text) (recipient code message : Text)
      → IsFeedback stringify to_string pixel_id
          (create_routing_failure_feedback pixel_id round run_id recipient code message)

-- The row that arrives.
pub record IsDelivered (pixel_id : Text) (row : MessageRow) : Type 0 where
  pub recipient : row.recipient ≡ pixel_id
  pub status : row.status ≡ queued
  pub source_type : row.source_type ≡ feedback
  pub is_feedback : row.is_feedback ≡ true

Delivery : Text → EnqueueParams → Text → ℕ → Db → Type 0
Delivery pixel_id p fresh_id now db =
    (row : MessageRow) × (enqueue_message p fresh_id now db
      ≡ ok (row, record db { messages = db.messages ++ row ∷ [] }))
    × IsDelivered pixel_id row

feedback_to-Delivery :
    (pixel_id : Text) (round : ℕ) (run_id : Option Text) (content fresh_id : Text) (now : ℕ)
    (db : Db)
    → exists_where (λ m. text_eq m.message_id fresh_id) db.messages ≡ false
    → Delivery pixel_id (feedback_to pixel_id round run_id content) fresh_id now db
unfolding Delivery feedback_to enqueue_message insert_message may_reuse source_type_of message_of
    truthy
feedback_to-Delivery pixel_id round run_id content fresh_id now db fresh = (
  message_of (feedback_to pixel_id round run_id content) fresh_id now db,
  rw (not_reused, fresh),
  record { recipient = refl; status = refl; source_type = refl; is_feedback = refl },
)
  where
    not_reused : may_reuse (feedback_to pixel_id round run_id content) ≡ false
    not_reused = ground arith

IsFeedback-feedback_to :
    {Json : Type 0} (stringify to_string : Json → Text) (pixel_id : Text) (p : EnqueueParams)
    → IsFeedback stringify to_string pixel_id p
    → (round : ℕ) × (run_id : Option Text) × (content : Text) × (p
        ≡ feedback_to pixel_id round run_id content)
unfolding create_mind_validation_feedback create_capability_unavailable_feedback
    create_batch_tool_execution_feedback create_tool_execution_feedback
    create_transfer_failure_feedback create_reproduction_failure_feedback
    create_routing_failure_feedback
IsFeedback-feedback_to s t pixel_id p (of_mind round run_id n) = (round, run_id, _, refl)
IsFeedback-feedback_to s t pixel_id p (of_capability round run_id c) = (round, run_id, _, refl)
IsFeedback-feedback_to s t pixel_id p (of_tool round run_id e) = (round, run_id, _, refl)
IsFeedback-feedback_to s t pixel_id p (of_batch round run_id []) = (round, run_id, _, refl)
IsFeedback-feedback_to s t pixel_id p (of_batch round run_id (e ∷ [])) = (round, run_id, _, refl)
IsFeedback-feedback_to s t pixel_id p (of_batch round run_id (e ∷ e' ∷ es)) =
    (round, run_id, _, refl)
IsFeedback-feedback_to s t pixel_id p (of_transfer round run_id g c m) = (round, run_id, _, refl)
IsFeedback-feedback_to s t pixel_id p (of_reproduction round run_id c m) = (round, run_id, _, refl)
IsFeedback-feedback_to s t pixel_id p (of_routing round run_id r c m) = (round, run_id, _, refl)

-- Every feedback is delivered: whatever the factory returns for a pixel, `enqueueMessage` adds it
-- to the queue as a row of its own for that pixel, queued and marked as feedback, also where the
-- same text is waiting already, if the new message id is not taken.
pub feedback-Delivery :
    {Json : Type 0} (stringify to_string : Json → Text) (pixel_id : Text) (p : EnqueueParams)
    (fresh_id : Text) (now : ℕ) (db : Db)
    → IsFeedback stringify to_string pixel_id p
    → exists_where (λ m. text_eq m.message_id fresh_id) db.messages ≡ false
    → (row : MessageRow) × (enqueue_message p fresh_id now db
        ≡ ok (row, record db { messages = db.messages ++ row ∷ [] }))
      × IsDelivered pixel_id row
unfolding Delivery
feedback-Delivery stringify to_string pixel_id p fresh_id now db is fresh =
    let (round, run_id, content, same) = IsFeedback-feedback_to stringify to_string pixel_id p is in
    subst (λ q. Delivery pixel_id q fresh_id now db) (sym same)
      (feedback_to-Delivery pixel_id round run_id content fresh_id now db fresh)
