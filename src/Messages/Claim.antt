-- ===== src/Messages/Claim.antt =====
-- `claimNext`: rows whose recipient was bound anew are abandoned, then the first eligible row is
-- handed out. The loop runs on fuel.
use emergent_inc.Common.{
  ℕ, zero, suc, Bool, true, false, not, ◌&&◌, ◌||◌, Option, none, some, List, [], ◌∷◌, Text, codes,
  text_eq, ltb, leb, ◌==◌, if◌then◌else◌,
}
use emergent_inc.Domain.Lifecycle.{
  running, closed, execution_status_eq, QianjiCareerStatus, active, trial,
}
use emergent_inc.Store.{
  Db, MessageRow, abandoned, processing, ExecutionKind, mission, trial_candidate,
}
use emergent_inc.Store.Table.{exists_where, update_where, count_where}
use emergent_inc.Store.Keys.{optional_text_eq, is_id, truthy}
use emergent_inc.Messages.Types.{is_queued, is_processable, is_response_stored, is_system}
use emergent_inc.Messages.Queue.{current_binding_id}

-- `binding_snapshot_captured=1 AND recipient_binding_id IS NOT (the recipient's current binding)`
unfoldable pub is_rebound : Db → MessageRow → Bool
is_rebound db m =
    m.binding_snapshot_captured
    && not (optional_text_eq m.recipient_binding_id (current_binding_id m.recipient db))

abbrev pub abandon : MessageRow → MessageRow
abandon m = record m {
  status = abandoned;
  abandoned_reason = some (codes "RECIPIENT_BINDING_CHANGED");
}

-- The first `UPDATE` of `claimNext`.
unfoldable pub abandon_rebound : ℕ → Option Text → Db → Db
unfolding is_rebound
abandon_rebound round execution_id db = record db {
  messages =
      update_where
        (λ m.
          optional_text_eq m.execution_id execution_id
          && leb m.round_num round
          && is_processable m.status
          && is_rebound db m)
        abandon db.messages;
}

abbrev pub may_work : ExecutionKind → QianjiCareerStatus → Bool
may_work mission active = true
may_work trial_candidate trial = true
may_work _ _ = false

abbrev pub is_active_career : QianjiCareerStatus → Bool
is_active_career active = true
is_active_career _ = false

-- The recipient takes part in the running execution of the message, as a binding of a fit career.
unfoldable pub takes_part : Db → MessageRow → Bool
takes_part db m =
    exists_where
      (λ ep.
        is_id m.execution_id ep.execution_id
        && not ep.released
        && exists_where
            (λ e.
              text_eq e.execution_id ep.execution_id
              && execution_status_eq e.status running
              && exists_where
                  (λ b.
                    text_eq b.binding_id ep.binding_id
                    && text_eq b.pixel_id m.recipient
                    && is_id m.recipient_binding_id b.binding_id
                    && not b.unbound
                    && exists_where
                        (λ q. text_eq q.qianji_id b.qianji_id && may_work e.kind q.career_status)
                        db.qianji_profiles
                    && exists_where (λ p. text_eq p.pixel_id b.pixel_id && p.active)
                        db.pixel_accounts)
                  db.qianji_bindings)
            db.executions)
      db.execution_participants

-- The recipient never had a binding, or has an active one.
unfoldable pub is_free_or_active : Db → MessageRow → Bool
is_free_or_active db m =
    not (exists_where (λ b. text_eq b.pixel_id m.recipient) db.qianji_bindings)
    || exists_where
        (λ b.
          text_eq b.pixel_id m.recipient
          && not b.unbound
          && exists_where (λ p. text_eq p.qianji_id b.qianji_id && is_active_career p.career_status)
              db.qianji_profiles)
        db.qianji_bindings

-- The recipient takes part in an execution that is not closed.
unfoldable pub is_engaged : Db → MessageRow → Bool
is_engaged db m =
    exists_where
      (λ ep.
        not ep.released
        && exists_where
            (λ e.
              text_eq e.execution_id ep.execution_id && not (execution_status_eq e.status closed))
            db.executions
        && exists_where (λ b. text_eq b.binding_id ep.binding_id && text_eq b.pixel_id m.recipient)
            db.qianji_bindings)
      db.execution_participants

-- The clause for messages of the given execution, or for those of none.
unfoldable pub is_in_scope : Option Text → Db → MessageRow → Bool
unfolding takes_part is_free_or_active is_engaged
is_in_scope (some id) db m = is_id m.execution_id id && takes_part db m
is_in_scope none db m =
    optional_text_eq m.execution_id none && is_free_or_active db m && not (is_engaged db m)

unfoldable pub is_claimable : ℕ → Option Text → Db → MessageRow → Bool
unfolding is_in_scope
is_claimable round scope db m =
    leb m.round_num round && is_processable m.status && is_in_scope scope db m

unfoldable pub rank : MessageRow → ℕ
rank m = if is_response_stored m.status then 0 else if is_system m.source_type then 1 else 2

-- `ORDER BY rank ASC, created_at ASC`
unfoldable pub precedes : MessageRow → MessageRow → Bool
unfolding rank
precedes a b = ltb (rank a) (rank b) || (rank a == rank b && ltb a.created_at b.created_at)

-- The row that `ORDER BY … LIMIT 1` gives, the earlier one of two that rank alike.
unfoldable pub better : Option MessageRow → MessageRow → MessageRow
unfolding precedes
better none m = m
better (some other) m = if precedes other m then other else m

unfoldable pub first_in_order : (MessageRow → Bool) → List MessageRow → Option MessageRow
unfolding better
first_in_order p [] = none
first_in_order p (m ∷ ms) =
    let rest = first_in_order p ms in if p m then some (better rest m) else rest

unfoldable pub abandon_message : Text → Db → Db
abandon_message id db = record db {
  messages = update_where (λ m. text_eq m.message_id id) abandon db.messages;
}

-- The envelope of a queued row: the binding is captured where it was not, and the row goes to
-- PROCESSING. A stored response keeps its status.
unfoldable pub handed : Db → MessageRow → MessageRow
handed db m =
    if is_queued m.status
    then record m {
      recipient_binding_id =
          if m.binding_snapshot_captured
          then m.recipient_binding_id
          else current_binding_id m.recipient db;
      binding_snapshot_captured = true;
      status = processing;
    }
    else m

-- The `UPDATE`s that go with it.
unfoldable pub hand_out : MessageRow → Db → Db
hand_out row db =
    if is_queued row.status
    then record db {
      messages =
          update_where (λ m. text_eq m.message_id row.message_id)
            (λ m. record m {
              recipient_binding_id =
                  if row.binding_snapshot_captured
                  then m.recipient_binding_id
                  else current_binding_id row.recipient db;
              binding_snapshot_captured =
                  if row.binding_snapshot_captured then m.binding_snapshot_captured else true;
              status = processing;
            })
            db.messages;
    }
    else db

-- `while (true)`. The outer `none` is the end of the fuel.
unfoldable pub claim_loop : ℕ → ℕ → Option Text → Db → Option (Option MessageRow × Db)
unfolding hand_out handed is_rebound abandon_message
claim_loop zero round scope db = none
claim_loop (suc fuel) round scope db =
    elim (first_in_order (is_claimable round scope db) db.messages) [
      | none ↦ some (none, db)
      | some row ↦
          let again = claim_loop fuel round scope (abandon_message row.message_id db) in
          if is_rebound db row then again else some (some (handed db row), hand_out row db)
    ]

-- Each turn that goes on abandons a claimable row, so the claimable rows and one turn are enough.
unfoldable pub claim_next : ℕ → Option Text → Db → Option (Option MessageRow × Db)
unfolding abandon_rebound
claim_next round execution_id db =
    let scope = truthy execution_id in
    let start = abandon_rebound round execution_id db in
    claim_loop (suc (count_where (is_claimable round scope start) start.messages)) round scope start
