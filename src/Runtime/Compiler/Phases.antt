-- ===== src/Runtime/Compiler/Phases.antt =====
-- The order in which the kinds of effects of a decision come.
use emergent_inc.Common.{
  ℕ, suc, ◌≡◌, ◌≤◌, refl, sym, List, [], ◌∷◌, ◌++◌, map, Text, codes, text_eq, take, All,
  Bool-cases, Option-cases, inl, inr, arith, subst,
}
use emergent_inc.Grid.Number.{to_upper}
use emergent_inc.Store.Keys.{truthy}
use emergent_inc.Runtime.Compiler.{
  Detail, Effect, Payload, Request, CompileDecisionParams, update_mind, capability_unavailable,
  read_environment, tool_call, transfer_energy, reproduce_pixel, route_message, owner_reply_effect,
  numbered_id, effect_of, compile, mind_requests, capability_requests, environment_requests,
  tool_requests, transfer_requests, reproduce_requests, route_requests, reply_requests, list_or_nil,
}
use emergent_inc.Runtime.Compiler.Numbering.{concat, requests, number, compile-number}

-- Numbers that do not fall, from `lo` on.
abbrev pub IsAscending : ℕ → List ℕ → Type 0
IsAscending lo [] = Unit
IsAscending lo (n ∷ ns) = (lo ≤ n) × IsAscending n ns

IsAscending-≤ : (lo k : ℕ) (ns : List ℕ) → lo ≤ k → IsAscending k ns → IsAscending lo ns
IsAscending-≤ lo k [] h asc = tt
IsAscending-≤ lo k (n ∷ ns) h asc = (omega (arith, h, asc.0), asc.1)

module _ {Json : Type 0} where
  -- The position of each kind of effect.
  abbrev pub phase : Detail Json → ℕ
  phase (update_mind pixel_id content tips) = 0
  phase (capability_unavailable pixel_id capability raw) = 1
  phase (read_environment pixel_id) = 2
  phase (tool_call pixel_id operation_id op) = 3
  phase (transfer_energy from transfer) = 4
  phase (reproduce_pixel parent request) = 5
  phase (route_message sender recipient content hop) = 6
  phase (owner_reply_effect pixel_id reply) = 7

  abbrev pub AreOfPhase : ℕ → List (Request Json) → Type 0
  AreOfPhase k rs = All (λ r. (op : Text) → phase (r.detail op) ≡ k) rs

  pub mind-phase : (p : CompileDecisionParams Json) → AreOfPhase 0 (mind_requests p)
  unfolding mind_requests
  mind-phase p = elim (Option-cases p.decision.pixel_md) [
    | inl e ↦ rw e tt
    | inr (_, e) ↦ rw e ((λ op. refl), tt)
  ]

  pub capability-phase : (p : CompileDecisionParams Json) → AreOfPhase 1 (capability_requests p)
  unfolding capability_requests
  capability-phase p = elim (Option-cases p.decision.owner_request) [
    | inl e ↦ rw e tt
    | inr (_, e) ↦ rw e ((λ op. refl), tt)
  ]

  pub environment-phase : (p : CompileDecisionParams Json) → AreOfPhase 2 (environment_requests p)
  unfolding environment_requests
  environment-phase p = elim (Bool-cases p.decision.environment_read) [
    | inl e ↦ rw e ((λ op. refl), tt)
    | inr e ↦ rw e tt
  ]

  All-map {ℓ} :
      {A : Type ℓ} (k : ℕ) (f : A → Request Json) (xs : List A)
      → ((x : A) (op : Text) → phase ((f x).detail op) ≡ k)
      → AreOfPhase k (map f xs)
  All-map k f [] h = tt
  All-map k f (x ∷ xs) h = (h x, All-map k f xs h)

  pub tool-phase : (p : CompileDecisionParams Json) → AreOfPhase 3 (tool_requests p)
  unfolding tool_requests
  tool-phase p = All-map 3 _ (take 3 (list_or_nil p.decision.operations)) (λ x op. refl)

  pub transfer-phase : (p : CompileDecisionParams Json) → AreOfPhase 4 (transfer_requests p)
  unfolding transfer_requests
  transfer-phase p = All-map 4 _ (list_or_nil p.decision.energy_transfer) (λ x op. refl)

  pub reproduce-phase : (p : CompileDecisionParams Json) → AreOfPhase 5 (reproduce_requests p)
  unfolding reproduce_requests
  reproduce-phase p = elim (Option-cases p.decision.reproduce) [
    | inl e ↦ rw e tt
    | inr (_, e) ↦ rw e ((λ op. refl), tt)
  ]

  pub route-phase : (p : CompileDecisionParams Json) → AreOfPhase 6 (route_requests p)
  unfolding route_requests
  route-phase p = elim (Option-cases (truthy p.decision.send_to)) [
    | inl e ↦ rw (e, route_requests) tt
    | inr (r, e) ↦ elim (Bool-cases (text_eq (to_upper r) (codes "STOP"))) [
      | inl stop ↦ rw (e, stop, route_requests) tt
      | inr go ↦ rw (e, go, route_requests) ((λ op. refl), tt)
    ]
  ]

  pub reply-phase : (p : CompileDecisionParams Json) → AreOfPhase 7 (reply_requests p)
  unfolding reply_requests
  reply-phase p = elim (Option-cases (truthy p.decision.owner_reply)) [
    | inl e ↦ rw (e, reply_requests) tt
    | inr (_, e) ↦ rw (e, reply_requests) ((λ op. refl), tt)
  ]

  abbrev pub phases : List (Effect Json) → List ℕ
  phases es = map (λ e. phase e.detail) es

module _ {Json : Type 0} (sha256 : Payload Json → Text) where
  -- The requests can be numbered from anywhere, and their phases ascend from `lo`.
  Ascends : ℕ → List (Request Json) → Type 0
  Ascends lo rs = (m : Text) (k : ℕ) → IsAscending lo (phases (number sha256 m k rs))

  Ascends-append :
      (lo k : ℕ) (xs ys : List (Request Json))
      → lo ≤ k
      → AreOfPhase k xs
      → Ascends k ys
      → Ascends lo (xs ++ ys)
  unfolding Ascends effect_of
  Ascends-append lo k [] ys h of_phase asc =
      λ m i. IsAscending-≤ lo k (phases (number sha256 m i ys)) h (asc m i)
  Ascends-append lo k (x ∷ xs) ys h of_phase asc = λ m i.
      rw (of_phase.0 (numbered_id (codes "op_") m i (sha256 x.payload)))
        (h, Ascends-append k k xs ys (omega arith) of_phase.1 asc m (suc i))

  -- The effects of a decision come in the order of their kinds: mind, unavailable capability,
  -- environment, tools, transfers, reproduction, message, and the reply to the owner last.
  pub compile-IsAscending :
      (p : CompileDecisionParams Json) → IsAscending 0 (phases (compile sha256 p))
  unfolding Ascends
  compile-IsAscending p =
      subst (λ es. IsAscending 0 (phases es)) (sym (compile-number sha256 p))
        (ordered p.message_id 0)
    where
      ordered : Ascends 0 (concat (requests p))
      ordered = Ascends-append 0 0 (mind_requests p) _ (omega arith) (mind-phase p) (
          Ascends-append 0 1 (capability_requests p) _ (omega arith) (capability-phase p) (
            Ascends-append 1 2 (environment_requests p) _ (omega arith) (environment-phase p) (
              Ascends-append 2 3 (tool_requests p) _ (omega arith) (tool-phase p) (
                Ascends-append 3 4 (transfer_requests p) _ (omega arith) (transfer-phase p) (
                  Ascends-append 4 5 (reproduce_requests p) _ (omega arith) (reproduce-phase p) (
                    Ascends-append 5 6 (route_requests p) _ (omega arith) (route-phase p) (
                      Ascends-append 6 7 (reply_requests p) [] (omega arith) (reply-phase p)
                        (λ m k. tt))))))))
