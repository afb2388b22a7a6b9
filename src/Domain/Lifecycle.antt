-- ===== src/Domain/Lifecycle.antt =====
-- packages/domain/src/execution/rules.ts, packages/domain/src/qianji/lifecycle.ts and
-- packages/domain/src/wake/natural_wake.ts: which status may follow which, and who wakes.
pub mod Laws
use emergent_inc.Common.{Bool, true, false, List, [], ◌∷◌, any, Result, ok, err, not, if◌then◌else◌}
use emergent_inc.Common.Int.{ℤ, ◌-ℤ◌, leb_ℤ}

-- `ExecutionStatus` of packages/protocol/src/types/execution.ts
pub data ExecutionStatus : Type 0 where
  ready running awaiting_review blocked closed : ExecutionStatus

-- `===` on statuses
abbrev pub execution_status_eq : ExecutionStatus → ExecutionStatus → Bool
execution_status_eq ready ready = true
execution_status_eq running running = true
execution_status_eq awaiting_review awaiting_review = true
execution_status_eq blocked blocked = true
execution_status_eq closed closed = true
execution_status_eq _ _ = false

execution_transitions : ExecutionStatus → List ExecutionStatus
execution_transitions ready = running ∷ blocked ∷ closed ∷ []
execution_transitions running = awaiting_review ∷ blocked ∷ closed ∷ []
execution_transitions awaiting_review = running ∷ closed ∷ []
execution_transitions blocked = running ∷ closed ∷ []
execution_transitions closed = []

unfoldable pub can_transition_execution : ExecutionStatus → ExecutionStatus → Bool
unfolding execution_transitions
can_transition_execution from to = any (execution_status_eq to) (execution_transitions from)

-- "EXECUTION_TRANSITION_INVALID:from:to"
pub data TransitionError (Status : Type 0) : Type 0 where
  transition_invalid : Status → Status → TransitionError Status

unfoldable pub assert_execution_transition :
    ExecutionStatus → ExecutionStatus → Result (TransitionError ExecutionStatus) (Unit {0})
unfolding can_transition_execution
assert_execution_transition from to =
    if not (can_transition_execution from to) then err (transition_invalid from to) else ok tt

-- `QianjiCareerStatus` of packages/protocol/src/types/qianji.ts
pub data QianjiCareerStatus : Type 0 where
  candidate trial active retired : QianjiCareerStatus

abbrev pub career_status_eq : QianjiCareerStatus → QianjiCareerStatus → Bool
career_status_eq candidate candidate = true
career_status_eq trial trial = true
career_status_eq active active = true
career_status_eq retired retired = true
career_status_eq _ _ = false

qianji_transitions : QianjiCareerStatus → List QianjiCareerStatus
qianji_transitions candidate = trial ∷ retired ∷ []
qianji_transitions trial = candidate ∷ active ∷ retired ∷ []
qianji_transitions active = retired ∷ []
qianji_transitions retired = []

unfoldable pub can_transition_qianji : QianjiCareerStatus → QianjiCareerStatus → Bool
unfolding qianji_transitions
can_transition_qianji from to = any (career_status_eq to) (qianji_transitions from)

unfoldable pub assert_qianji_transition :
    QianjiCareerStatus → QianjiCareerStatus → Result (TransitionError QianjiCareerStatus) (Unit {0})
unfolding can_transition_qianji
assert_qianji_transition from to =
    if not (can_transition_qianji from to) then err (transition_invalid from to) else ok tt

pub record NaturalWakeCheckParams : Type 0 where
  pub is_active : Bool
  pub last_active_round : ℤ
  pub current_round : ℤ
  pub natural_wake_threshold : ℤ
  pub has_pending_messages : Bool

unfoldable pub should_natural_wake : NaturalWakeCheckParams → Bool
should_natural_wake p =
    if not p.is_active
    then false
    else if p.has_pending_messages
    then false
    else leb_ℤ p.natural_wake_threshold (p.current_round -ℤ p.last_active_round)
