-- ===== src/Messages/Choice/Once.antt =====
-- `claimNext` after a message was handed out.
use emergent_inc.Common.{
  ℕ, ◌≡◌, sym, ◌∙◌, subst, Bool, true, false, Option, some, List, [], ◌∷◌, Text, text_eq,
  if◌then◌else◌, All, Bool-cases, inl, inr, arith, some-injective,
}
use emergent_inc.Store.{Db, MessageRow, MessageStatus, processing}
use emergent_inc.Store.Table.{update_where}
use emergent_inc.Store.Keys.{truthy}
use emergent_inc.Messages.Types.{is_queued, is_processable}
use emergent_inc.Messages.Claim.{is_claimable, handed, hand_out, claim_next}
use emergent_inc.Messages.Queue.{current_binding_id}
use emergent_inc.Messages.Choice.Stale.{with_messages}
use emergent_inc.Messages.Choice.{IsClaim, IsChoice, claim_next-IsClaim}

-- Rows of the id are gone from what may be claimed.
abbrev AreTaken : Text → ℕ → Option Text → Db → Db → Type 0
AreTaken id round scope db after =
    All (λ other. text_eq other.message_id id ≡ true → is_claimable round scope db other ≡ false)
      after.messages

update_where-All {ℓ κ} :
    {A : Type ℓ} (P : A → Type κ) (test : A → Bool) (f : A → A) (xs : List A)
    → ((x : A) → test x ≡ true → P (f x))
    → ((x : A) → test x ≡ false → P x)
    → All P (update_where test f xs)
unfolding update_where
update_where-All P test f [] hit miss = tt
update_where-All P test f (x ∷ xs) hit miss = (
  elim (Bool-cases (test x)) [ inl e ↦ rw e (hit x e) | inr e ↦ rw e (miss x e) ],
  update_where-All P test f xs hit miss,
)

taken :
    (row : MessageRow) (round : ℕ) (scope : Option Text) (at db : Db)
    → is_queued row.status ≡ true
    → AreTaken row.message_id round scope db (hand_out row at)
unfolding hand_out is_claimable
taken row round scope at db fresh = rw fresh (
    update_where-All
      (λ other.
        text_eq other.message_id row.message_id ≡ true → is_claimable round scope db other ≡ false)
      (λ m. text_eq m.message_id row.message_id)
      (λ m. record m {
        recipient_binding_id =
            if row.binding_snapshot_captured
            then m.recipient_binding_id
            else current_binding_id row.recipient at;
        binding_snapshot_captured =
            if row.binding_snapshot_captured then m.binding_snapshot_captured else true;
        status = processing;
      })
      at.messages (λ x e same. ground arith) (λ x e same. absurd (ground arith)))

handed-fresh :
    (at : Db) (row : MessageRow)
    → is_processable row.status ≡ true
    → (handed at row).status ≡ processing
    → is_queued row.status ≡ true
unfolding handed
handed-fresh at row may done = elim (Bool-cases (is_queued row.status)) [
  | inl fresh ↦ fresh
  | inr other ↦ absurd (processing_not_claimable row.status may (rw (handed, other) at done))
]
  where
    processing_not_claimable : (s : MessageStatus) → is_processable s ≡ true → s ≡ processing → ⊥
    processing_not_claimable s h e = ground (arith, rw e at h)

handed-message_id : (at : Db) (row : MessageRow) → (handed at row).message_id ≡ row.message_id
unfolding handed
handed-message_id at row = elim (Bool-cases (is_queued row.status)) [ inl e ↦ rw e | inr e ↦ rw e ]

IsChoice-taken :
    (round later : ℕ) (scope any_scope : Option Text) (at : Db) (m : MessageRow) (after db : Db)
    → IsChoice round scope at m after
    → m.status ≡ processing
    → AreTaken m.message_id later any_scope db after
unfolding is_claimable
IsChoice-taken round later scope any_scope at m after db choice done =
    rw (choice.envelope, handed-message_id at choice.row, choice.update)
      (taken choice.row later any_scope at db (
        handed-fresh at choice.row (let holds = choice.claimable in ground arith)
          (rw choice.envelope at done)))

-- A message is handed out once: after a call that returns a message and puts it to PROCESSING,
-- no row of that message is claimable, in any round and for any execution.
pub claim_next-once :
    (round later : ℕ) (execution_id any_scope : Option Text) (db : Db) (m : MessageRow) (after : Db)
    → claim_next round execution_id db ≡ some (some m, after)
    → m.status ≡ processing
    → All
        (λ other.
          text_eq other.message_id m.message_id ≡ true
          → is_claimable later any_scope after other ≡ false)
        after.messages
unfolding IsClaim
claim_next-once round later execution_id any_scope db m after h done =
    let (r, e, claim) = claim_next-IsClaim round execution_id db in
    let same = some-injective r (some m, after) (sym e ∙ h) in
    let (ms, _, choice) = subst (IsClaim round (truthy execution_id) db) same claim in
    IsChoice-taken round later (truthy execution_id) any_scope (with_messages ms db) m after after
      choice done
