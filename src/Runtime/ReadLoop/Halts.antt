-- ===== src/Runtime/ReadLoop/Halts.antt =====
-- When `detectReadOnlyLoop` reports a loop.
use emergent_inc.Common.{
  ap, any, codes, ◌||◌, ◌%◌, ◌<◌, ◌≡◌, ◌↔◌, inl, inr, refl, sym, subst, arith, Bool, true, false,
  not, ◌&&◌, none, List, [], ◌∷◌, Text, text_eq, text_eq_iff, text_eq_refl, Bool-cases,
}
use emergent_inc.Runtime.Compiler.{ToolCall, AgentDecision, list_or_nil}
use emergent_inc.Runtime.ReadLoop.{
  is_empty_list, is_none, Streaks, put, Received, is_pure_read_only, is_external_stimulus, counted,
  signature_of, detect_read_only_loop,
}
use emergent_inc.Runtime.ReadLoop.Streaks.{
  Step, repeats, observe, Says, Says-other, Says-loud, Tells, counted-Tells,
}

observe-Tells :
    (s : Step) (history : List Step) (streaks : Streaks)
    → Says s.pixel history (streaks s.pixel)
    → Tells s history (observe s streaks)
unfolding observe repeats
observe-Tells s history streaks h = elim (Bool-cases s.quiet) [
  | inl quiet ↦
      let same : observe s streaks ≡ counted s.pixel s.signature (streaks s.pixel) streaks =
        rw (quiet, observe) refl in
      subst (Tells s history) (sym same) (counted-Tells s history (streaks s.pixel) streaks quiet h)
  | inr loud ↦
      let same : observe s streaks ≡ (false, put s.pixel none streaks) = rw (loud, observe) refl in
      let nothing : repeats s.pixel s.signature (s ∷ history) ≡ 0 =
        rw (text_eq_refl s.pixel, loud) refl in
      subst (Tells s history) (sym same) (record {
        reported = (λ h. ground arith, λ h. ground (arith, h.0, nothing));
        says = rw (text_eq_refl s.pixel) (Says-loud s history loud);
      })
]

observe-others :
    (s : Step) (id : Text) (streaks : Streaks)
    → text_eq s.pixel id ≡ false
    → (observe s streaks).1 id ≡ streaks id
unfolding observe counted
observe-others s id streaks other = ground arith

module _ {Json : Type 0} (is_read_only_tool : Text → Bool)
    (stringify : List (ToolCall Json) → Bool → Text) where
  -- Every operation of a decision only reads.
  abbrev pub all_read : List (ToolCall Json) → Bool
  all_read [] = true
  all_read (op ∷ ops) = is_read_only_tool op.tool && all_read ops

  -- A decision that transfers no energy, makes no new pixel and calls no tool but such as only read,
  -- and that does read. Whether it sends a message makes no difference.
  abbrev pub only_reads : AgentDecision Json → Bool
  only_reads decision =
      let operations = list_or_nil decision.operations in
      is_empty_list (list_or_nil decision.energy_transfer)
      && is_none decision.reproduce
      && all_read operations
      && (not (is_empty_list operations) || decision.environment_read)

  -- A step of the scheduler: the message, and the decision on it. A message of the system, of the
  -- environment or of the pixel itself is nobody else's.
  abbrev pub step_of : Received × AgentDecision Json → Step
  step_of (message, decision) = record {
    pixel = message.recipient;
    quiet =
        only_reads decision
        && (text_eq message.sender (codes "system")
            || text_eq message.sender (codes "environment")
            || text_eq message.sender message.recipient);
    signature = signature_of is_read_only_tool stringify decision;
  }

  abbrev pub steps_of : List (Received × AgentDecision Json) → List Step
  steps_of [] = []
  steps_of (x ∷ older) = step_of x ∷ steps_of older

  -- The map of a scheduler after the steps of a history, whose head is the newest.
  unfoldable pub streaks_after : List (Received × AgentDecision Json) → Streaks
  streaks_after [] = λ id. none
  streaks_after ((message, decision) ∷ older) =
      (detect_read_only_loop is_read_only_tool stringify message decision (streaks_after older)).1

  all_read-any :
      (ops : List (ToolCall Json))
      → all_read ops ≡ not (any (λ op. not (is_read_only_tool op.tool)) ops)
  all_read-any [] = refl
  all_read-any (op ∷ ops) = ground (arith, all_read-any ops)

  only_reads-is_pure_read_only :
      (decision : AgentDecision Json)
      → is_pure_read_only is_read_only_tool decision ≡ only_reads decision
  unfolding is_pure_read_only
  only_reads-is_pure_read_only decision =
      let operations = list_or_nil decision.operations in
      ap
        (λ b.
          is_empty_list (list_or_nil decision.energy_transfer)
          && is_none decision.reproduce
          && b
          && (not (is_empty_list operations) || decision.environment_read))
        (sym (all_read-any operations))

  detect-observe :
      (x : Received × AgentDecision Json) (streaks : Streaks)
      → detect_read_only_loop is_read_only_tool stringify x.0 x.1 streaks
        ≡ observe (step_of x) streaks
  unfolding detect_read_only_loop observe is_external_stimulus
  detect-observe (message, decision) streaks =
      let same = only_reads-is_pure_read_only decision in
      elim (Bool-cases (only_reads decision)) [
        | inr writes ↦ rw (same, writes) refl
        | inl reads ↦ elim (Bool-cases (is_external_stimulus message)) [
          | inl asked ↦ rw (same, reads, asked) (ground (arith, asked))
          | inr alone ↦ rw (same, reads, alone) (ground (arith, alone))
        ]
      ]

  streaks_after-Says :
      (history : List (Received × AgentDecision Json)) (id : Text)
      → Says id (steps_of history) (streaks_after history id)
  unfolding streaks_after repeats
  streaks_after-Says [] id = λ signature. refl
  streaks_after-Says (x ∷ older) id =
      let s = step_of x in
      let before = streaks_after older in
      subst (λ r. Says id (s ∷ steps_of older) (r.1 id)) (sym (detect-observe x before))
        (elim (Bool-cases (text_eq s.pixel id)) [
          | inl own ↦
              subst (λ k. Says k (s ∷ steps_of older) ((observe s before).1 k))
                ((text_eq_iff s.pixel id).0 own)
                (observe-Tells s (steps_of older) before (streaks_after-Says older s.pixel)).says
          | inr other ↦
              subst (Says id (s ∷ steps_of older)) (sym (observe-others s id before other))
                (Says-other id s (steps_of older) (before id) other (streaks_after-Says older id))
        ])

-- After any history of steps from the start of a scheduler, whatever tools only read and however
-- operations are printed: a step is reported as a loop exactly when the number of the pixel's latest
-- steps in a row, this one included, that only read, were asked for by nobody else and have this
-- step's signature is positive and a multiple of three. A step only reads if it transfers no energy,
-- makes no new pixel, calls no tool but such as only read, and calls one or reads the environment; one
-- that also sends a message to a neighbour counts like the others. The steps of other pixels in
-- between do not matter.
pub detect_read_only_loop_iff :
    {Json : Type 0} (is_read_only_tool : Text → Bool)
    (stringify : List (ToolCall Json) → Bool → Text) (x : Received × AgentDecision Json)
    (history : List (Received × AgentDecision Json))
    → let s = step_of is_read_only_tool stringify x in
      let n = repeats s.pixel s.signature (steps_of is_read_only_tool stringify (x ∷ history)) in
      let streaks = streaks_after is_read_only_tool stringify history in
      ((detect_read_only_loop is_read_only_tool stringify x.0 x.1 streaks).0 ≡ true)
      ↔ ((0 < n) × (n % 3 ≡ 0))
detect_read_only_loop_iff is_read_only_tool stringify x history =
    let s = step_of is_read_only_tool stringify x in
    let before = steps_of is_read_only_tool stringify history in
    let streaks = streaks_after is_read_only_tool stringify history in
    subst
      (λ r. (r.0 ≡ true) ↔ (
        (0 < repeats s.pixel s.signature (s ∷ before))
        × (repeats s.pixel s.signature (s ∷ before) % 3 ≡ 0)))
      (sym (detect-observe is_read_only_tool stringify x streaks))
      (observe-Tells s before streaks
        (streaks_after-Says is_read_only_tool stringify history s.pixel)).reported
