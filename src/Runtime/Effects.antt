-- ===== src/Runtime/Effects.antt =====
-- packages/runtime/src/effects/effect_runtime.ts outside the world mode, and
-- packages/persistence/src/repositories/effect_repository.ts. The files that mirror an account are
-- left out. Ids and times of new messages are fields of the context.
pub mod Messages
pub mod Transfer
pub mod Route
pub mod Conservation
pub mod Receipts
pub mod Reach
pub mod Delivery
use emergent_inc.Common.{
  ℕ, Bool, true, false, not, ◌&&◌, Option, none, some, List, [], ◌∷◌, ◌++◌, Text, text_eq, Result,
  ok, err, if◌then◌else◌,
}
use emergent_inc.Grid.{GridError}
use emergent_inc.Domain.Validation.{Number}
use emergent_inc.Store.{Db, EffectRow, EffectStatus, applied, ExecutionKind}
use emergent_inc.Store.Table.{select_first, exists_where, update_where}
use emergent_inc.Store.Keys.{truthy}
use emergent_inc.Budget.Types.{BudgetError}
use emergent_inc.Messages.Types.{EnqueueParams}
use emergent_inc.Messages.Queue.{QueueError, enqueue_message}

-- What an effect's application may throw.
pub data EffectError : Type 0 where
  of_grid : GridError → EffectError
  of_queue : QueueError → EffectError
  of_budget : BudgetError → EffectError
  pixel_missing entry_taken : EffectError

pub record ExecutionToolScope : Type 0 where
  pub execution_id : Text
  pub kind : ExecutionKind
  pub allowed_recipients : List Text

-- `company_run` and `unlimited` are the store's policies, and `to_string` is `String` on numbers.
pub record EffectRuntimeContext : Type 0 where
  pub round : ℕ
  pub run_id : Option Text
  pub execution_scope : Option ExecutionToolScope
  pub company_run : Option Text → Bool
  pub unlimited : Text → Bool
  pub uuid : Text → Db → Text
  pub fresh_id : Text
  pub now : ℕ
  pub to_string : Number → Text

-- What the effects of all types have.
pub record BaseEffect : Type 0 where
  pub effect_id : Text
  pub message_id : Text
  pub effect_index : ℕ
  pub payload_hash : Text

-- `executionScope?.executionId ?? null`
abbrev pub scope_id : EffectRuntimeContext → Option Text
scope_id ctx = elim ctx.execution_scope [ none ↦ none | some scope ↦ some scope.execution_id ]

abbrev pub stored_db {ℓ} : {A : Type ℓ} → Result QueueError (A × Db) → Result EffectError Db
stored_db (ok q) = ok q.1
stored_db (err e) = err (of_queue e)

-- `params.messageId && this.ctx.store.messages.getMessage(params.messageId)`
unfoldable pub is_sent : EnqueueParams → Db → Bool
is_sent p db = elim (truthy p.message_id) [
  | none ↦ false
  | some id ↦ exists_where (λ m. text_eq m.message_id id) db.messages
]

unfoldable pub enqueue : EffectRuntimeContext → EnqueueParams → Db → Result EffectError Db
unfolding is_sent
enqueue ctx p db =
    if is_sent p db
    then ok db
    else stored_db
        (enqueue_message (record p { execution_id = scope_id ctx }) ctx.fresh_id ctx.now db)

abbrev pub effect_row : BaseEffect → EffectStatus → EffectRow
effect_row effect status = record {
  effect_id = effect.effect_id;
  message_id = effect.message_id;
  effect_index = effect.effect_index;
  payload_hash = effect.payload_hash;
  status = status;
}

abbrev pub has_effect_id : Text → EffectRow → Bool
has_effect_id id row = text_eq row.effect_id id

-- `INSERT … ON CONFLICT(effect_id) DO UPDATE SET status, details`
unfoldable pub record_effect : BaseEffect → EffectStatus → Db → Db
record_effect effect status db = record db {
  effects =
      if exists_where (has_effect_id effect.effect_id) db.effects
      then update_where (has_effect_id effect.effect_id) (λ row. record row { status = status })
          db.effects
      else db.effects ++ effect_row effect status ∷ [];
}

unfoldable pub get_effect : Text → Db → Option EffectRow
get_effect id db = select_first (has_effect_id id) db.effects

abbrev is_applied : EffectStatus → Bool
is_applied applied = true
is_applied _ = false

unfoldable pub has_effect_been_applied : Text → Db → Bool
has_effect_been_applied id db =
    exists_where (λ row. text_eq row.effect_id id && is_applied row.status) db.effects
