-- ===== src/Executions/Creation.antt =====
-- `create` of the execution repository. The JSON snapshots of the input are left out.
use emergent_inc.Common.{
  ℕ, Bool, true, false, not, ◌&&◌, ◌||◌, ◌≡◌, Option, none, some, List, [], ◌∷◌, ◌++◌, Text,
  text_eq, includes, Result, ok, err, ◌>>=◌, if◌then◌else◌, All, Bool-cases, Option-cases, inl, inr,
  arith, refl, sym, ◌∙◌, text_eq_comm, ok-injective, >>=-eq-ok, subst,
}
use emergent_inc.Executions.Limits.{IsWithin, AreWithin}
use emergent_inc.Domain.Lifecycle.{ready}
use emergent_inc.Domain.Validation.{Number}
use emergent_inc.Grid.Number.{trim}
use emergent_inc.Store.{Db, ExecutionKind, ExecutionRow, ParticipantRow}
use emergent_inc.Store.Table.{exists_where}
use emergent_inc.Messages.Queue.{or_default}
use emergent_inc.Executions.Operations.{
  ExecutionError, fields_invalid, constraint_failed, safe_positive,
}

pub record CreateExecutionInput : Type 0 where
  pub execution_id : Option Text
  pub kind : ExecutionKind
  pub subject_id : Text
  pub budget_tokens : Number
  pub rounds_limit : Number
  pub binding_ids : List Text

-- `new Set(ids).size !== ids.length`
unfoldable pub has_duplicates : List Text → Bool
has_duplicates [] = false
has_duplicates (id ∷ ids) = includes ids id || has_duplicates ids

-- `bindingIds.length < 1`
abbrev is_none : List Text → Bool
is_none [] = true
is_none (id ∷ ids) = false

-- The insertion fails for an unknown binding, for one that stands in the execution already, and for
-- one that takes part in another execution and is not released.
unfoldable pub insert_participant : Text → Db → Text → Result ExecutionError Db
insert_participant execution_id db binding_id =
    if not (exists_where (λ b. text_eq b.binding_id binding_id) db.qianji_bindings)
      || exists_where
          (λ ep.
            text_eq ep.binding_id binding_id
            && (text_eq ep.execution_id execution_id || not ep.released))
          db.execution_participants
    then err constraint_failed
    else ok (record db {
      execution_participants =
          db.execution_participants
          ++ record { execution_id = execution_id; binding_id = binding_id; released = false } ∷ [];
    })

unfoldable pub insert_participants : Text → List Text → Db → Result ExecutionError Db
unfolding insert_participant
insert_participants execution_id [] db = ok db
insert_participants execution_id (id ∷ ids) db = do
  inserted ← insert_participant execution_id db id
  insert_participants execution_id ids inserted

abbrev created_row : CreateExecutionInput → Text → ℕ → ℕ → ExecutionRow
created_row input id budget rounds = record {
  execution_id = id;
  kind = input.kind;
  subject_id = input.subject_id;
  budget_tokens = budget;
  spent_tokens = 0;
  reserved_tokens = 0;
  rounds_limit = rounds;
  rounds_used = 0;
  status = ready;
}

unfoldable pub insert_execution :
    CreateExecutionInput → Text → ℕ → ℕ → Db → Result ExecutionError Db
insert_execution input id budget rounds db =
    if exists_where (λ e. text_eq e.execution_id id) db.executions
    then err constraint_failed
    else ok (record db { executions = db.executions ++ created_row input id budget rounds ∷ [] })

unfoldable pub create : CreateExecutionInput → Text → Db → Result ExecutionError Db
unfolding insert_execution insert_participants has_duplicates
create input fresh_id db =
    let id = or_default fresh_id input.execution_id in
    if text_eq (trim input.subject_id) []
      || is_none input.binding_ids
      || has_duplicates input.binding_ids
    then err fields_invalid
    else elim (safe_positive input.budget_tokens) [
      | none ↦ err fields_invalid
      | some budget ↦ elim (safe_positive input.rounds_limit) [
        | none ↦ err fields_invalid
        | some rounds ↦ do
          inserted ← insert_execution input id budget rounds db
          insert_participants id input.binding_ids inserted
      ]
    ]

-- A binding takes part in one execution at a time.
abbrev pub AreExclusive : List ParticipantRow → Type 0
AreExclusive [] = Unit
AreExclusive (x ∷ xs) =
    (not x.released && exists_where (λ ep. text_eq ep.binding_id x.binding_id && not ep.released) xs
      ≡ false)
    × AreExclusive xs

exists_where-append {ℓ} :
    {A : Type ℓ} (p : A → Bool) (xs : List A) (x : A)
    → exists_where p (xs ++ x ∷ []) ≡ exists_where p xs || p x
unfolding exists_where
exists_where-append p [] x = ground arith
exists_where-append p (y ∷ ys) x = ground (arith, exists_where-append p ys x)

abbrev participant : Text → Text → ParticipantRow
participant execution_id id = record {
  execution_id = execution_id;
  binding_id = id;
  released = false;
}

AreExclusive-append :
    (execution_id id : Text) (xs : List ParticipantRow)
    → exists_where
        (λ ep.
          text_eq ep.binding_id id && (text_eq ep.execution_id execution_id || not ep.released))
        xs
      ≡ false
    → AreExclusive xs
    → AreExclusive (xs ++ participant execution_id id ∷ [])
unfolding exists_where
AreExclusive-append execution_id id [] free h = (refl, tt)
AreExclusive-append execution_id id (x ∷ xs) free h =
    let rest = AreExclusive-append execution_id id xs (ground (arith, free)) h.1 in
    (
      rw
          (exists_where-append (λ ep. text_eq ep.binding_id x.binding_id && not ep.released) xs
            (participant execution_id id))
          (ground (arith, free, h.0, text_eq_comm id x.binding_id)),
      rest,
    )

-- The participants stay exclusive, and the executions are not touched.
Kept : Db → Db → Type 0
Kept db db' =
    (AreExclusive db.execution_participants → AreExclusive db'.execution_participants)
    × (db'.executions ≡ db.executions)

insert_participant-Kept :
    (execution_id id : Text) (db db' : Db)
    → insert_participant execution_id db id ≡ ok db'
    → Kept db db'
unfolding insert_participant Kept
insert_participant-Kept execution_id id db db' h =
    elim (Bool-cases (exists_where (λ b. text_eq b.binding_id id) db.qianji_bindings)) [
      | inr unknown ↦ absurd (ground (arith, rw (unknown, insert_participant) at h))
      | inl known ↦ elim (Bool-cases (exists_where engaged db.execution_participants)) [
        | inl taken ↦ absurd (ground (arith, rw (known, taken, insert_participant) at h))
        | inr free ↦
            subst (Kept db)
              (ok-injective
                (record db {
                  execution_participants =
                      db.execution_participants ++ participant execution_id id ∷ [];
                })
                db' (rw (known, free, insert_participant) at h))
              (AreExclusive-append execution_id id db.execution_participants free, refl)
      ]
    ]
  where
    engaged : ParticipantRow → Bool
    engaged ep =
        text_eq ep.binding_id id && (text_eq ep.execution_id execution_id || not ep.released)

insert_participants-Kept :
    (execution_id : Text) (ids : List Text) (db db' : Db)
    → insert_participants execution_id ids db ≡ ok db'
    → Kept db db'
unfolding insert_participants Kept
insert_participants-Kept execution_id [] db db' h =
    subst (Kept db) (ok-injective db db' h) ((λ e. e), refl)
insert_participants-Kept execution_id (id ∷ ids) db db' h =
    let (inserted, first, rest) =
      >>=-eq-ok (insert_participant execution_id db id) (insert_participants execution_id ids) h in
    let (one, same) = insert_participant-Kept execution_id id db inserted first in
    let (all, still) = insert_participants-Kept execution_id ids inserted db' rest in
    ((λ e. all (one e)), still ∙ same)

All-append {ℓ κ} :
    {A : Type ℓ} (P : A → Type κ) (xs : List A) (x : A) → All P xs → P x → All P (xs ++ x ∷ [])
All-append P [] x h p = (p, tt)
All-append P (y ∷ ys) x h p = (h.0, All-append P ys x h.1 p)

insert_execution-keeps :
    (input : CreateExecutionInput) (id : Text) (budget rounds : ℕ) (db db' : Db)
    → insert_execution input id budget rounds db ≡ ok db'
    → (AreWithin db → AreWithin db') × (db'.execution_participants ≡ db.execution_participants)
unfolding insert_execution
insert_execution-keeps input id budget rounds db db' h =
    elim (Bool-cases (exists_where (λ e. text_eq e.execution_id id) db.executions)) [
      | inl taken ↦ absurd (ground (arith, rw (taken, insert_execution) at h))
      | inr free ↦
          subst
            (λ d.
              (AreWithin db → AreWithin d) × (d.execution_participants ≡ db.execution_participants))
            (ok-injective
              (record db { executions = db.executions ++ created_row input id budget rounds ∷ [] })
              db' (rw (free, insert_execution) at h))
            (
              (λ within.
                  All-append IsWithin db.executions (created_row input id budget rounds) within
                    (omega arith, omega arith)),
              refl,
            )
    ]

-- Both at once, each on its own.
pub create-keeps :
    (input : CreateExecutionInput) (fresh_id : Text) (db db' : Db)
    → create input fresh_id db ≡ ok db'
    → (AreExclusive db.execution_participants → AreExclusive db'.execution_participants)
      × (AreWithin db → AreWithin db')
unfolding create Kept
create-keeps input fresh_id db db' h = elim (Bool-cases is_invalid) [
  | inl bad ↦ absurd (ground (arith, rw (bad, create) at h))
  | inr fine ↦ elim (Option-cases (safe_positive input.budget_tokens)) [
    | inl unsafe ↦ absurd (ground (arith, rw (fine, unsafe, create) at h))
    | inr (budget, safe) ↦ elim (Option-cases (safe_positive input.rounds_limit)) [
      | inl unsafe ↦ absurd (ground (arith, rw (fine, safe, unsafe, create) at h))
      | inr (rounds, also) ↦
          let (inserted, first, rest) =
            >>=-eq-ok (insert_execution input id budget rounds db)
              (insert_participants id input.binding_ids) (rw (fine, safe, also, create) at h) in
          let (keeps, same) = insert_execution-keeps input id budget rounds db inserted first in
          let (exclusion, executions) =
            insert_participants-Kept id input.binding_ids inserted db' rest in
          (
            λ exclusive. exclusion (subst AreExclusive (sym same) exclusive),
            λ within. subst (All IsWithin) (sym executions) (keeps within),
          )
    ]
  ]
]
  where
    id : Text
    id = or_default fresh_id input.execution_id

    is_invalid : Bool
    is_invalid =
        text_eq (trim input.subject_id) []
        || is_none input.binding_ids
        || has_duplicates input.binding_ids

-- Creating an execution keeps what is said of all executions: if at first no binding takes part,
-- without being released, in more than one place, and all executions are within their budgets
-- and rounds, then so it is when `create` has succeeded.
pub create-AreExclusive :
    (input : CreateExecutionInput) (fresh_id : Text) (db db' : Db)
    → AreExclusive db.execution_participants
    → AreWithin db
    → create input fresh_id db ≡ ok db'
    → AreExclusive db'.execution_participants × AreWithin db'
create-AreExclusive input fresh_id db db' exclusive within h =
    let (exclusion, keeps) = create-keeps input fresh_id db db' h in
    (exclusion exclusive, keeps within)
