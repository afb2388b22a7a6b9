-- ===== src/Domain/Lifecycle/Laws.antt =====
-- Sequences of status changes, each asserted, and `shouldNaturalWake`.
use emergent_inc.Common.{
  ◌≡◌, ◌≢◌, ◌⊎◌, ◌↔◌, refl, true, false, List, [], ◌∷◌, Result, ok, ◌>>◌, >>=-eq-ok, All, sym, inl,
  inr, arith,
}
use mathlib.Core.List.{Memᴰ}
use emergent_inc.Common.Int.{◌≤ℤ◌, ◌+ℤ◌, -ℤ_parts, +ℤ_parts}
use emergent_inc.Domain.Lifecycle.{
  ExecutionStatus, ready, running, awaiting_review, closed, assert_execution_transition,
  QianjiCareerStatus, trial, active, retired, assert_qianji_transition, TransitionError,
  NaturalWakeCheckParams, should_natural_wake,
}

-- The status after a sequence of changes, each asserted before it is made.
unfoldable pub execution_walk :
    ExecutionStatus
    → List ExecutionStatus
    → Result (TransitionError ExecutionStatus) ExecutionStatus
execution_walk s [] = ok s
execution_walk s (t ∷ ts) = do assert_execution_transition s t; execution_walk t ts

unfoldable pub qianji_walk :
    QianjiCareerStatus
    → List QianjiCareerStatus
    → Result (TransitionError QianjiCareerStatus) QianjiCareerStatus
qianji_walk s [] = ok s
qianji_walk s (t ∷ ts) = do assert_qianji_transition s t; qianji_walk t ts

execution_step :
    (s t : ExecutionStatus)
    → assert_execution_transition s t ≡ ok tt
    → (s ≢ closed) × (t ≢ ready) × ((t ≢ awaiting_review) ⊎ (s ≡ running))
unfolding assert_execution_transition
execution_step s t h = ground arith

-- An execution never becomes ready again, and nothing follows once it is closed.
pub execution_walk_forward :
    (s end : ExecutionStatus) (ts : List ExecutionStatus)
    → execution_walk s ts ≡ ok end
    → All (λ t. t ≢ ready) ts × ((s ≢ closed) ⊎ (ts ≡ []))
unfolding execution_walk
execution_walk_forward s end [] h = (tt, inr refl)
execution_walk_forward s end (t ∷ ts) h =
    let (u, step, rest) =
      >>=-eq-ok (assert_execution_transition s t) (λ _. execution_walk t ts) h in
    let facts = execution_step s t step in
    ((facts.1, (execution_walk_forward t end ts rest).0), inl facts.0)

-- An execution comes to review only after it was running.
pub review_needs_running :
    (s end : ExecutionStatus) (ts : List ExecutionStatus)
    → execution_walk s ts ≡ ok end
    → Memᴰ awaiting_review ts
    → (s ≡ running) ⊎ Memᴰ running ts
unfolding execution_walk
review_needs_running s end [] h m = elim m [ ]
review_needs_running s end (t ∷ ts) h (Memᴰ.head e) =
    let (u, step, rest) =
      >>=-eq-ok (assert_execution_transition s t) (λ _. execution_walk t ts) h in
    inl (ground (arith, execution_step s t step))
review_needs_running s end (t ∷ ts) h (Memᴰ.tail m) =
    let (u, step, rest) =
      >>=-eq-ok (assert_execution_transition s t) (λ _. execution_walk t ts) h in
    elim (review_needs_running t end ts rest m) [
      | inl e ↦ inr (Memᴰ.head (sym e))
      | inr m' ↦ inr (Memᴰ.tail m')
    ]

qianji_step :
    (s t : QianjiCareerStatus)
    → assert_qianji_transition s t ≡ ok tt
    → (s ≢ retired) × ((t ≢ active) ⊎ (s ≡ trial))
unfolding assert_qianji_transition
qianji_step s t h = ground arith

-- A retired character has no further career.
pub retired_is_final :
    (end : QianjiCareerStatus) (ts : List QianjiCareerStatus)
    → qianji_walk retired ts ≡ ok end
    → ts ≡ []
unfolding qianji_walk
retired_is_final end [] h = refl
retired_is_final end (t ∷ ts) h =
    let (u, step, rest) =
      >>=-eq-ok (assert_qianji_transition retired t) (λ _. qianji_walk t ts) h in
    absurd ((qianji_step retired t step).0 refl)

-- A character becomes active only after a trial.
pub active_needs_trial :
    (s end : QianjiCareerStatus) (ts : List QianjiCareerStatus)
    → qianji_walk s ts ≡ ok end
    → Memᴰ active ts
    → (s ≡ trial) ⊎ Memᴰ trial ts
unfolding qianji_walk
active_needs_trial s end [] h m = elim m [ ]
active_needs_trial s end (t ∷ ts) h (Memᴰ.head e) =
    let (u, step, rest) = >>=-eq-ok (assert_qianji_transition s t) (λ _. qianji_walk t ts) h in
    inl (ground (arith, qianji_step s t step))
active_needs_trial s end (t ∷ ts) h (Memᴰ.tail m) =
    let (u, step, rest) = >>=-eq-ok (assert_qianji_transition s t) (λ _. qianji_walk t ts) h in
    elim (active_needs_trial t end ts rest m) [
      | inl e ↦ inr (Memᴰ.head (sym e))
      | inr m' ↦ inr (Memᴰ.tail m')
    ]

-- A pixel wakes by itself exactly when it is active, has no pending message, and was last active
-- at least the threshold's number of rounds ago.
pub should_natural_wake_iff :
    (p : NaturalWakeCheckParams)
    → (should_natural_wake p ≡ true) ↔ (
        (p.is_active ≡ true)
        × (p.has_pending_messages ≡ false)
        × (p.last_active_round +ℤ p.natural_wake_threshold ≤ℤ p.current_round))
unfolding should_natural_wake
should_natural_wake_iff p = ground (
  arith,
  +ℤ_parts p.last_active_round p.natural_wake_threshold,
  -ℤ_parts p.current_round p.last_active_round,
)
