-- ===== src/Executions/Steps.antt =====
-- The operations of the execution repository as steps, and the limits that they keep.
use emergent_inc.Common.{ℕ, suc, ◌≤◌, ◌≡◌, some, Text, ok}
use emergent_inc.Common.Int.{negsuc}
use emergent_inc.Domain.Lifecycle.{ExecutionStatus}
use emergent_inc.Domain.Validation.{Number}
use emergent_inc.Store.{Db}
use emergent_inc.Budget.Operations.{safe_nat}
use emergent_inc.Executions.Operations.{
  begin_scope_round, start_next_round, transition, reserve_tokens, safe_integer, settle_tokens,
  release_participants,
}
use emergent_inc.Executions.Creation.{CreateExecutionInput, create, create-keeps}
use emergent_inc.Executions.Evidence.{EvidenceInput, add_evidence, add_evidence-AreWithin}
use emergent_inc.Executions.Limits.{
  AreWithin, transition-AreWithin, reserve_tokens-AreWithin, settle_tokens-AreWithin,
  begin_scope_round-AreWithin, start_next_round-AreWithin, release_participants-AreWithin,
}

-- The operations that change a table, with the settlements that spend at most what they release.
pub data Step : Db → Db → Type 0 where
  reserving :
      {db db' : Db} (id : Text) (amount : Number)
      → reserve_tokens id amount db ≡ ok db'
      → Step db db'
  settling :
      {db db' : Db} (id : Text) (delta spent : Number) (released n : ℕ)
      → safe_integer delta ≡ some (negsuc released)
      → safe_nat spent ≡ some n
      → n ≤ suc released
      → settle_tokens id delta spent db ≡ ok db'
      → Step db db'
  moving :
      {db db' : Db} (id : Text) (expected next : ExecutionStatus)
      → transition id expected next db ≡ ok db'
      → Step db db'
  beginning :
      {db db' : Db} (id run_id : Text) (round n : ℕ)
      → begin_scope_round id run_id round db ≡ ok (n, db')
      → Step db db'
  starting : {db db' : Db} (id : Text) (n : ℕ) → start_next_round id db ≡ ok (n, db') → Step db db'
  releasing : {db db' : Db} (id : Text) → release_participants id db ≡ ok db' → Step db db'
  creating :
      {db db' : Db} (input : CreateExecutionInput) (fresh_id : Text)
      → create input fresh_id db ≡ ok db'
      → Step db db'
  attesting :
      {db db' : Db} (input : EvidenceInput) (fresh_id : Text)
      → add_evidence input fresh_id db ≡ ok db'
      → Step db db'

-- Every operation of the repository that changes a table (creating an execution, reserving and
-- settling tokens, changing the status, beginning and starting a round, releasing the participants,
-- adding evidence) keeps every execution within its budget and its rounds within their limit; of the
-- settlements, those that release tokens and spend at most as many.
pub Step-AreWithin : (db db' : Db) → Step db db' → AreWithin db → AreWithin db'
Step-AreWithin db db' (reserving id amount h) within =
    reserve_tokens-AreWithin id amount db db' h within
Step-AreWithin db db' (settling id delta spent released n d s less h) within =
    settle_tokens-AreWithin id delta spent released n db db' d s less h within
Step-AreWithin db db' (moving id expected next h) within =
    transition-AreWithin id expected next db db' h within
Step-AreWithin db db' (beginning id run_id round n h) within =
    begin_scope_round-AreWithin id run_id round n db db' h within
Step-AreWithin db db' (starting id n h) within = start_next_round-AreWithin id n db db' h within
Step-AreWithin db db' (releasing id h) within = release_participants-AreWithin id db db' h within
Step-AreWithin db db' (creating input fresh_id h) within =
    (create-keeps input fresh_id db db' h).1 within
Step-AreWithin db db' (attesting input fresh_id h) within =
    add_evidence-AreWithin input fresh_id db db' h within
