-- ===== src/Recovery/Resolve.antt =====
-- `resolveRecoveryOperation` as a whole: its checks, its idempotency, and the transaction.
use emergent_inc.Common.{
  ℕ, Bool, true, false, not, ◌&&◌, ◌||◌, Option, none, some, [], ◌∷◌, ◌++◌, Text, codes, text_eq,
  leb, length, any, ◌==◌, Result, ok, err, ◌>>=◌, ◌>>◌, throw_if, if◌then◌else◌,
}
use emergent_inc.Grid.Number.{trim}
use emergent_inc.Store.{
  Db, RecoveryKind, model_kind, tool_kind, run_kind, message_kind, RecoveryDecision,
  confirm_not_billed, settle_billed, settle_reserved, abandon, acknowledge, RecoveryRow,
}
use emergent_inc.Store.Table.{select_first}
use emergent_inc.Budget.Types.{BudgetPolicy}
use emergent_inc.Recovery.Types.{
  Cost, bad_cost, RecoveryParams, RecoveryError, id_required, invalid_cost, idempotency_invalid,
  idempotency_conflict, decision_exists,
}
use emergent_inc.Recovery.Operations.{
  cost_text, resolve_model, resolve_tool, resolve_run, resolve_message,
}

-- `[\w-]`
abbrev is_key_char : ℕ → Bool
is_key_char c =
    (leb b'a' c && leb c b'z')
    || (leb b'A' c && leb c b'Z')
    || (leb b'0' c && leb c b'9')
    || c == b'_'
    || c == b'-'

-- `/^[\w-]{8,128}$/`
unfoldable pub is_recovery_key : Text → Bool
is_recovery_key key =
    leb 8 (length key) && leb (length key) 128 && not (any (λ c. not (is_key_char c)) key)

unfoldable pub has_bad_key : Option Text → Bool
unfolding is_recovery_key
has_bad_key none = false
has_bad_key (some key) = not (is_recovery_key key)

abbrev pub has_bad_cost : Option Cost → Bool
has_bad_cost (some bad_cost) = true
has_bad_cost _ = false

abbrev pub default_reason : RecoveryDecision → Text
default_reason abandon = codes "操作人审批拒绝 (abandon)"
default_reason _ = codes "操作人审批通过 (approved)"

-- `explicitReason`
unfoldable pub explicit_reason : RecoveryParams → Text
explicit_reason p = elim p.reason [
  | none ↦ default_reason p.decision
  | some reason ↦ if text_eq (trim reason) [] then default_reason p.decision else trim reason
]

abbrev json_or_null : Option Text → Text
json_or_null none = codes "null"
json_or_null (some text) = text

abbrev pub recovery_row : RecoveryParams → Text → RecoveryRow
recovery_row p decision_id = record {
  decision_id = decision_id;
  kind = p.kind;
  id = p.id;
  decision = p.decision;
  reason = explicit_reason p;
  actual_json = elim p.actual_tokens [ none ↦ codes "null" | some t ↦ t.json ];
  cost_json = json_or_null (cost_text p.cost_cny);
}

abbrev pub kind_eq : RecoveryKind → RecoveryKind → Bool
kind_eq model_kind model_kind = true
kind_eq tool_kind tool_kind = true
kind_eq run_kind run_kind = true
kind_eq message_kind message_kind = true
kind_eq _ _ = false

abbrev pub decision_eq : RecoveryDecision → RecoveryDecision → Bool
decision_eq confirm_not_billed confirm_not_billed = true
decision_eq settle_billed settle_billed = true
decision_eq settle_reserved settle_reserved = true
decision_eq abandon abandon = true
decision_eq acknowledge acknowledge = true
decision_eq _ _ = false

-- Equality of the fingerprints, which leave the decision's id out
unfoldable pub same_fingerprint : RecoveryRow → RecoveryRow → Bool
same_fingerprint a b =
    kind_eq a.kind b.kind
    && text_eq a.id b.id
    && decision_eq a.decision b.decision
    && text_eq a.reason b.reason
    && text_eq a.actual_json b.actual_json
    && text_eq a.cost_json b.cost_json

unfoldable pub find_decision : Text → Db → Option RecoveryRow
find_decision id db = select_first (λ row. text_eq row.decision_id id) db.recovery_decisions

unfoldable pub insert_decision : RecoveryRow → Db → Result RecoveryError Db
insert_decision row db = elim (find_decision row.decision_id db) [
  | some old ↦ err decision_exists
  | none ↦ ok (record db { recovery_decisions = db.recovery_decisions ++ row ∷ [] })
]

module _ (policy : BudgetPolicy) where
  unfoldable pub resolve_kind : RecoveryKind → RecoveryParams → Db → Result RecoveryError Db
  resolve_kind model_kind p db = resolve_model policy p db
  resolve_kind tool_kind p db = resolve_tool p db
  resolve_kind run_kind p db = resolve_run p db
  resolve_kind message_kind p db = resolve_message p db

  unfoldable pub resolve_new : RecoveryParams → Text → Db → Result RecoveryError (Text × Db)
  resolve_new p decision_id db = do
    resolved ← resolve_kind p.kind p db
    entered ← insert_decision (recovery_row p decision_id) resolved
    ok (decision_id, entered)

  unfoldable pub resolve_keyed : RecoveryParams → Text → Db → Result RecoveryError (Text × Db)
  resolve_keyed p decision_id db = elim (find_decision decision_id db) [
    | none ↦ resolve_new p decision_id db
    | some old ↦
        if same_fingerprint old (recovery_row p decision_id)
        then ok (decision_id, db)
        else err idempotency_conflict
  ]

  -- A key that is given is a valid one, and so not empty.
  unfoldable pub resolve_recovery_operation :
      (Text → Text) → Text → RecoveryParams → Db → Result RecoveryError (Text × Db)
  resolve_recovery_operation sha256 uuid p db = do
    throw_if (text_eq p.id []) id_required
    throw_if (has_bad_cost p.cost_cny) invalid_cost
    throw_if (has_bad_key p.idempotency_key) idempotency_invalid
    elim p.idempotency_key [
      | none ↦ resolve_new p uuid db
      | some key ↦ resolve_keyed p (codes "recovery_" ++ sha256 key) db
    ]
