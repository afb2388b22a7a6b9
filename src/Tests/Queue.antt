-- ===== src/Tests/Queue.antt =====
-- The queue of messages at concrete inputs.
use emergent_inc.Common.{
  map, arith, ◌≡◌, ◌<◌, refl, true, false, ◌&&◌, Option, none, some, [], ◌∷◌, codes, Result, ok,
  err, text_eq, All,
}
use mathlib.Core.List.{Memᴰ}
use mathlib.Core.List.Memᴰ.{head, tail}
use emergent_inc.Store.{committed, Db, MessageRow, processing}
use emergent_inc.Store.Table.{select_first, exists_where, update_where, count_where}
use emergent_inc.Store.Keys.{truthy, optional_text_eq}
use emergent_inc.Messages.Queue.{
  source_type_of, is_same_message, message_of, insert_message, current_binding_id, QueueError,
  enqueue_message, may_reuse, commit_message,
}
use emergent_inc.Messages.Claim.{
  is_claimable, claim_next, first_in_order, rank, precedes, claim_loop, abandon_rebound, is_rebound,
  hand_out, handed,
}
use emergent_inc.Messages.Choice.Once.{claim_next-once}
use emergent_inc.Messages.Choice.Fuel.{claimable_left, claim_loop-claim_next}
use emergent_inc.Messages.Commit.{is_waiting, counted_checkpoint, commit_message-once}
use emergent_inc.Messages.Reuse.{IsUnconsumed, enqueue_message-once}
use emergent_inc.Messages.Waiting.{
  has_processable_messages, reset_waiting_run_budget_messages,
  try_recover_waiting_pixel_budget_messages, requeue-has_processable,
}
use emergent_inc.Executions.Operations.{is_world_pixel_eligible}
use emergent_inc.Executions.Eligible.{is_in_scope-is_world_pixel_eligible}
use emergent_inc.Messages.Claim.{is_in_scope}
use emergent_inc.Tests.Fixtures.{origin, run_1, world, message_row, waiting_row, note_to_self}

abbrev claimed_row : MessageRow
claimed_row = record message_row { status = processing }

abbrev claimed_world : Db
claimed_world = record world { messages = claimed_row ∷ waiting_row ∷ [] }

claims : claim_next 1 none world ≡ some (some claimed_row, claimed_world)
unfolding claim_next truthy first_in_order is_claimable is_in_scope rank precedes claim_loop
    count_where exists_where update_where select_first text_eq optional_text_eq abandon_rebound
    is_rebound current_binding_id hand_out handed
claims = refl

claim_next-once_example :
    All
      (λ other.
        text_eq other.message_id (codes "msg_1") ≡ true
        → is_claimable 2 none claimed_world other ≡ false)
      (claimed_row ∷ waiting_row ∷ [])
claim_next-once_example = claim_next-once 1 2 none none world claimed_row claimed_world claims refl

one_left : claimable_left 1 none world ≡ 1
unfolding count_where is_claimable is_in_scope abandon_rebound is_rebound truthy exists_where
    update_where select_first text_eq optional_text_eq current_binding_id
one_left = refl

claim_loop-claim_next_example :
    (r : Option MessageRow × Db) × (claim_loop 5 1 (truthy none) (abandon_rebound 1 none world)
      ≡ some r)
    × (claim_next 1 none world ≡ some r)
claim_loop-claim_next_example = claim_loop-claim_next 5 1 none world (omega (arith, one_left))

commit_message-once_example :
    All
      (λ m. text_eq m.message_id (codes "msg_1") ≡ true → m.status ≡ committed)
      (commit_message (codes "msg_1") (some run_1) world).messages
    × ((commit_message (codes "msg_1") (some run_1) world).run_checkpoints
        ≡ map
            (counted_checkpoint (truthy (some run_1)) (is_waiting (codes "msg_1") world))
            world.run_checkpoints)
    × (commit_message
          (codes "msg_1")
          (some run_1)
          (commit_message (codes "msg_1") (some run_1) world)
        ≡ commit_message (codes "msg_1") (some run_1) world)
commit_message-once_example = commit_message-once (codes "msg_1") (some run_1) (some run_1) world

abbrev reply_of : Result QueueError (MessageRow × Db) → MessageRow × Db
reply_of (ok r) = r
reply_of (err e) = (message_row, world)

abbrev enqueued : MessageRow × Db
enqueued = reply_of (enqueue_message note_to_self (codes "msg_3") 9 world)

reusable : may_reuse note_to_self ≡ true
unfolding may_reuse truthy source_type_of text_eq
reusable = refl

enqueues : enqueue_message note_to_self (codes "msg_3") 9 world ≡ ok (enqueued.0, enqueued.1)
unfolding enqueue_message may_reuse truthy source_type_of text_eq select_first is_same_message
    message_of insert_message exists_where
enqueues = refl

-- Later another message has gone, and the note still waits.
abbrev later_world : Db
later_world = record world { messages = waiting_row ∷ enqueued.0 ∷ [] }

enqueue_message-once_example :
    Memᴰ enqueued.0 enqueued.1.messages
    × (enqueue_message note_to_self (codes "msg_4") 11 enqueued.1 ≡ ok (enqueued.0, enqueued.1))
    × ((old : MessageRow) × Memᴰ old later_world.messages
        × IsUnconsumed note_to_self old
        × (enqueue_message note_to_self (codes "msg_4") 11 later_world ≡ ok (old, later_world)))
unfolding current_binding_id
enqueue_message-once_example =
    enqueue_message-once note_to_self (codes "msg_3") (codes "msg_4") 9 11 world enqueued.1
      later_world enqueued.0 reusable enqueues (tail (head refl)) refl refl

requeue-has_processable_example :
    (0 < (reset_waiting_run_budget_messages none world).0
      → has_processable_messages none (reset_waiting_run_budget_messages none world).1 ≡ true)
    × (0 < (try_recover_waiting_pixel_budget_messages 100 none world).0
        → has_processable_messages none (try_recover_waiting_pixel_budget_messages 100 none world).1
          ≡ true)
requeue-has_processable_example = requeue-has_processable none 100 world

is_in_scope-is_world_pixel_eligible_example :
    is_in_scope none world message_row
    ≡ optional_text_eq none none && is_world_pixel_eligible origin world
is_in_scope-is_world_pixel_eligible_example = is_in_scope-is_world_pixel_eligible world message_row
