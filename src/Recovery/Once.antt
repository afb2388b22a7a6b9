-- ===== src/Recovery/Once.antt =====
-- A recovery and its idempotency key.
use emergent_inc.Common.{
  ◌≡◌, ◌∙◌, inl, inr, refl, sym, ap, subst, arith, true, false, Option, none, some, [], ◌++◌, Text,
  codes, text_eq, text_eq_iff, Result, ok, err, ◌>>◌, throw_if, >>=-eq-ok, ok-injective, Bool-cases,
  Option-cases, if◌then◌else◌,
}
use emergent_inc.Store.{
  Db, RecoveryKind, model_kind, tool_kind, run_kind, message_kind, RecoveryDecision,
  confirm_not_billed, settle_billed, settle_reserved, abandon, acknowledge, RecoveryRow,
}
use emergent_inc.Store.Table.{select_first-meets}
use emergent_inc.Store.Unique.{select_first-append}
use emergent_inc.Budget.Types.{BudgetPolicy}
use emergent_inc.Recovery.Types.{
  RecoveryParams, RecoveryError, id_required, invalid_cost, idempotency_invalid,
  idempotency_conflict,
}
use emergent_inc.Recovery.Resolve.{
  kind_eq, decision_eq, has_bad_cost, has_bad_key, find_decision, insert_decision, recovery_row,
  same_fingerprint, resolve_kind, resolve_new, resolve_keyed, resolve_recovery_operation,
}

kind_eq_sound : (a b : RecoveryKind) → kind_eq a b ≡ true → a ≡ b
kind_eq_sound model_kind b h = ground arith
kind_eq_sound tool_kind b h = ground arith
kind_eq_sound run_kind b h = ground arith
kind_eq_sound message_kind b h = ground arith

decision_eq_sound : (a b : RecoveryDecision) → decision_eq a b ≡ true → a ≡ b
decision_eq_sound confirm_not_billed b h = ground arith
decision_eq_sound settle_billed b h = ground arith
decision_eq_sound settle_reserved b h = ground arith
decision_eq_sound abandon b h = ground arith
decision_eq_sound acknowledge b h = ground arith

same_fingerprint_sound :
    (a b : RecoveryRow) → a.decision_id ≡ b.decision_id → same_fingerprint a b ≡ true → a ≡ b
unfolding same_fingerprint
same_fingerprint_sound a b e h = ground (
  arith,
  e,
  kind_eq_sound a.kind b.kind,
  (text_eq_iff a.id b.id).0,
  decision_eq_sound a.decision b.decision,
  (text_eq_iff a.reason b.reason).0,
  (text_eq_iff a.actual_json b.actual_json).0,
  (text_eq_iff a.cost_json b.cost_json).0,
)

insert_decision-finds :
    (row : RecoveryRow) (db db' : Db)
    → insert_decision row db ≡ ok db'
    → find_decision row.decision_id db' ≡ some row
unfolding insert_decision find_decision
insert_decision-finds row db db' e = elim (Option-cases (find_decision row.decision_id db)) [
  | inr (old, taken) ↦ absurd (ground (arith, rw (taken, insert_decision) at e))
  | inl fresh ↦
      subst (λ d. find_decision row.decision_id d ≡ some row)
        (ok-injective _ db' (rw (fresh, insert_decision) at e))
        (select_first-append (λ r. r.decision_id) row.decision_id db.recovery_decisions row fresh
          refl)
]

module _ (policy : BudgetPolicy) where
  resolve_new-finds :
      (p : RecoveryParams) (id : Text) (db : Db) (q : Text × Db)
      → resolve_new policy p id db ≡ ok q
      → (q.0 ≡ id) × (find_decision id q.1 ≡ some (recovery_row p id))
  unfolding resolve_new
  resolve_new-finds p id db q e =
      let (resolved, er, e1) = >>=-eq-ok (resolve_kind policy p.kind p db) _ e in
      let (entered, ee, e2) = >>=-eq-ok (insert_decision (recovery_row p id) resolved) _ e1 in
      subst (λ q. (q.0 ≡ id) × (find_decision id q.1 ≡ some (recovery_row p id)))
        (ok-injective (id, entered) q e2)
        (refl, insert_decision-finds (recovery_row p id) resolved entered ee)

  resolve_keyed-finds :
      (p : RecoveryParams) (id : Text) (db : Db) (q : Text × Db)
      → resolve_keyed policy p id db ≡ ok q
      → (q.0 ≡ id) × (find_decision id q.1 ≡ some (recovery_row p id))
  unfolding resolve_keyed find_decision
  resolve_keyed-finds p id db q e = elim (Option-cases (find_decision id db)) [
    | inl new ↦ resolve_new-finds p id db q (rw (new, resolve_keyed) at e)
    | inr (old, found) ↦ elim (Bool-cases (same_fingerprint old (recovery_row p id))) [
      | inr other ↦ absurd (ground (arith, rw (found, other, resolve_keyed) at e))
      | inl same ↦
          let named =
            (text_eq_iff old.decision_id id).0 (
              select_first-meets (λ r. text_eq r.decision_id id) db.recovery_decisions old found) in
          let whole = same_fingerprint_sound old (recovery_row p id) named same in
          subst (λ q. (q.0 ≡ id) × (find_decision id q.1 ≡ some (recovery_row p id)))
            (ok-injective (id, db) q (rw (found, same, resolve_keyed) at e))
            (refl, found ∙ ap some whole)
    ]
  ]

passes_key :
    (o : Option Text) (done : Unit {0})
    → throw_if (has_bad_key o) idempotency_invalid ≡ ok done
    → has_bad_key o ≡ false
passes_key o done e = elim (Bool-cases (has_bad_key o)) [
  | inl bad ↦ absurd (ground (arith, rw bad at e))
  | inr good ↦ good
]

-- A recovery is decided once for each key: after a resolution under a key has succeeded, a later
-- call under that key, with an id and without a cost that is negative or not finite, gives the same
-- decision id and changes nothing where it has the same kind, id, decision, effective reason, token
-- count and cost, and is refused as a conflict where it does not.
pub resolve_recovery_operation-once :
    (policy : BudgetPolicy) (sha256 : Text → Text) (uuid uuid' key : Text) (p q : RecoveryParams)
    (db : Db) (decision_id : Text) (db' : Db)
    → p.idempotency_key ≡ some key
    → q.idempotency_key ≡ some key
    → text_eq q.id [] ≡ false
    → has_bad_cost q.cost_cny ≡ false
    → resolve_recovery_operation policy sha256 uuid p db ≡ ok (decision_id, db')
    → resolve_recovery_operation policy sha256 uuid' q db' ≡ (
        if same_fingerprint (recovery_row p decision_id) (recovery_row q decision_id)
        then ok (decision_id, db')
        else err idempotency_conflict)
unfolding resolve_recovery_operation resolve_keyed
resolve_recovery_operation-once policy sha256 uuid uuid' key p q db decision_id db' kp kq named fine
      e =
    let (u, eu, e1) = >>=-eq-ok (throw_if (text_eq p.id []) id_required) _ e in
    let (v, ev, e2) = >>=-eq-ok (throw_if (has_bad_cost p.cost_cny) invalid_cost) _ e1 in
    let (w, ew, e3) =
      >>=-eq-ok (throw_if (has_bad_key p.idempotency_key) idempotency_invalid) _ e2 in
    let id = codes "recovery_" ++ sha256 key in
    let (same_id, found) = resolve_keyed-finds policy p id db (decision_id, db') (rw kp at e3) in
    let good = subst (λ o. has_bad_key o ≡ false) kp (passes_key p.idempotency_key w ew) in
    subst
      (λ d. resolve_recovery_operation policy sha256 uuid' q db' ≡ (
        if same_fingerprint (recovery_row p d) (recovery_row q d)
        then ok (d, db')
        else err idempotency_conflict))
      (sym same_id)
      (subst
        (λ o.
          (throw_if (text_eq q.id []) id_required
            >> (throw_if (has_bad_cost q.cost_cny) invalid_cost
                >> (throw_if (has_bad_key o) idempotency_invalid
                    >> elim o as (λ _. Result RecoveryError (Text × Db)) [
                      | none ↦ resolve_new policy q uuid' db'
                      | some k ↦ resolve_keyed policy q (codes "recovery_" ++ sha256 k) db'
                    ])))
          ≡ (if same_fingerprint (recovery_row p id) (recovery_row q id)
              then ok (id, db')
              else err idempotency_conflict))
        (sym kq) (rw (named, fine, good, found, resolve_keyed) refl))
