-- ===== src/Executions/Evidence.antt =====
-- `addEvidence` of the execution repository.
use emergent_inc.Common.{
  Bool, not, ◌||◌, ◌≡◌, Option, none, some, [], ◌∷◌, ◌++◌, Text, text_eq, Result, ok, err, ◌>>=◌,
  ◌>>◌, throw_if, >>=-eq-ok, ok-injective, subst, ℕ,
}
use emergent_inc.Domain.Validation.{Number}
use emergent_inc.Grid.Number.{trim}
use emergent_inc.Store.{Db, EvidenceRow}
use emergent_inc.Store.Table.{exists_where}
use emergent_inc.Budget.Operations.{safe_nat}
use emergent_inc.Messages.Queue.{or_default}
use emergent_inc.Executions.Operations.{ExecutionError, evidence_invalid, constraint_failed}
use emergent_inc.Executions.Limits.{AreWithin}

pub record EvidenceInput : Type 0 where
  pub evidence_id : Option Text
  pub execution_id : Text
  pub binding_id : Text
  pub operation_id : Option Text
  pub relative_path : Option Text
  pub sha256 : Option Text
  pub size_bytes : Option Number
  pub evidence_type : Text

-- `sizeBytes != null && (!Number.isSafeInteger(sizeBytes) || sizeBytes < 0)` is an error.
unfoldable pub size_of : Option Number → Result ExecutionError (Option ℕ)
size_of none = ok none
size_of (some n) = elim (safe_nat n) [ none ↦ err evidence_invalid | some size ↦ ok (some size) ]

-- The id is taken, or the execution or the binding is unknown.
unfoldable pub violates : EvidenceRow → Db → Bool
violates row db =
    exists_where (λ e. text_eq e.evidence_id row.evidence_id) db.execution_evidence
    || not (exists_where (λ e. text_eq e.execution_id row.execution_id) db.executions)
    || not (exists_where (λ b. text_eq b.binding_id row.binding_id) db.qianji_bindings)

abbrev pub evidence_row : EvidenceInput → Text → Option ℕ → EvidenceRow
evidence_row input fresh_id size = record {
  evidence_id = or_default fresh_id input.evidence_id;
  execution_id = input.execution_id;
  binding_id = input.binding_id;
  operation_id = input.operation_id;
  relative_path = input.relative_path;
  sha256 = input.sha256;
  size_bytes = size;
  evidence_type = input.evidence_type;
}

unfoldable pub add_evidence : EvidenceInput → Text → Db → Result ExecutionError Db
unfolding size_of violates
add_evidence input fresh_id db = do
  throw_if (text_eq input.binding_id [] || text_eq (trim input.evidence_type) []) evidence_invalid
  size ← size_of input.size_bytes
  let row = evidence_row input fresh_id size
  throw_if (violates row db) constraint_failed
  ok (record db { execution_evidence = db.execution_evidence ++ row ∷ [] })

pub add_evidence-AreWithin :
    (input : EvidenceInput) (fresh_id : Text) (db db' : Db)
    → add_evidence input fresh_id db ≡ ok db'
    → AreWithin db
    → AreWithin db'
unfolding add_evidence
add_evidence-AreWithin input fresh_id db db' h within =
    let (u, eu, h1) =
      >>=-eq-ok
        (throw_if (text_eq input.binding_id [] || text_eq (trim input.evidence_type) [])
          evidence_invalid)
        _ h in
    let (size, es, h2) = >>=-eq-ok (size_of input.size_bytes) _ h1 in
    let (v, ev, h3) =
      >>=-eq-ok (throw_if (violates (evidence_row input fresh_id size) db) constraint_failed) _
        h2 in
    subst AreWithin (ok-injective _ db' h3) within
