-- ===== src/Runtime/Compiler/Contents.antt =====
-- Which requests of a decision become effects.
use emergent_inc.Common.{
  ℕ, suc, ◌<◌, ◌≡◌, ◌≢◌, refl, sym, ap, ◌∙◌, List, [], ◌∷◌, ◌++◌, map, Text, codes, take, arith,
}
use emergent_inc.Runtime.Compiler.{
  ToolCall, EnergyTransferRequest, Detail, Effect, Payload, Request, CompileDecisionParams,
  update_mind, capability_unavailable, read_environment, tool_call, transfer_energy,
  reproduce_pixel, route_message, owner_reply_effect, numbered_id, effect_of, compile,
  mind_requests, capability_requests, environment_requests, tool_requests, transfer_requests,
  reproduce_requests, route_requests, reply_requests, list_or_nil,
}
use emergent_inc.Runtime.Compiler.Numbering.{concat, requests, number, compile-number}
use emergent_inc.Runtime.Compiler.Phases.{
  phase, AreOfPhase, mind-phase, capability-phase, environment-phase, tool-phase, transfer-phase,
  reproduce-phase, route-phase, reply-phase,
}

module _ {Json : Type 0} where
  abbrev pub tool_call_of : Detail Json → List (ToolCall Json)
  tool_call_of (tool_call pixel_id operation_id op) = op ∷ []
  tool_call_of _ = []

  abbrev pub transfer_of : Detail Json → List EnergyTransferRequest
  transfer_of (transfer_energy from transfer) = transfer ∷ []
  transfer_of _ = []

  -- What the effects hold, in their order.
  abbrev pub collect : {X : Type 0} → (Detail Json → List X) → List (Effect Json) → List X
  collect f [] = []
  collect f (e ∷ es) = f e.detail ++ collect f es

module _ {Json : Type 0} (sha256 : Payload Json → Text) where
  -- Numbered from anywhere, the requests hold `xs`.
  abbrev Hold : {X : Type 0} → (Detail Json → List X) → List (Request Json) → List X → Type 0
  Hold f rs xs = (m : Text) (k : ℕ) → collect f (number sha256 m k rs) ≡ xs

  -- Requests of a phase whose effects hold nothing.
  Hold-quiet :
      {X : Type 0} (f : Detail Json → List X) (k : ℕ) (xs ys : List (Request Json)) (zs : List X)
      → ((d : Detail Json) → phase d ≡ k → f d ≡ [])
      → AreOfPhase k xs
      → Hold f ys zs
      → Hold f (xs ++ ys) zs
  unfolding effect_of
  Hold-quiet f k [] ys zs quiet of_phase rest = rest
  Hold-quiet f k (x ∷ xs) ys zs quiet of_phase rest = λ m i.
      let id = numbered_id (codes "op_") m i (sha256 x.payload) in
      rw (quiet (x.detail id) (of_phase.0 id))
        (Hold-quiet f k xs ys zs quiet of_phase.1 rest m (suc i))

  Hold-map :
      {A X : Type 0} (f : Detail Json → List X) (g : A → Request Json) (h : A → X) (xs : List A)
      (ys : List (Request Json)) (zs : List X)
      → ((a : A) (op : Text) → f ((g a).detail op) ≡ h a ∷ [])
      → Hold f ys zs
      → Hold f (map g xs ++ ys) (map h xs ++ zs)
  unfolding effect_of
  Hold-map f g h [] ys zs one rest = rest
  Hold-map f g h (x ∷ xs) ys zs one rest = λ m i.
      rw (one x (numbered_id (codes "op_") m i (sha256 (g x).payload)))
        (ap (λ l. h x ∷ l) (Hold-map f g h xs ys zs one rest m (suc i)))

  map-id {ℓ} : {A : Type ℓ} (xs : List A) → map (λ x. x) xs ++ [] ≡ xs
  map-id [] = refl
  map-id (x ∷ xs) = ap (λ l. x ∷ l) (map-id xs)

  tools_quiet : (k : ℕ) → k ≢ 3 → (d : Detail Json) → phase d ≡ k → tool_call_of d ≡ []
  tools_quiet k h (update_mind a b c) e = refl
  tools_quiet k h (capability_unavailable a b c) e = refl
  tools_quiet k h (read_environment a) e = refl
  tools_quiet k h (tool_call a b c) e = absurd (h (sym e))
  tools_quiet k h (transfer_energy a b) e = refl
  tools_quiet k h (reproduce_pixel a b) e = refl
  tools_quiet k h (route_message a b c n) e = refl
  tools_quiet k h (owner_reply_effect a b) e = refl

  transfers_quiet : (k : ℕ) → k ≢ 4 → (d : Detail Json) → phase d ≡ k → transfer_of d ≡ []
  transfers_quiet k h (update_mind a b c) e = refl
  transfers_quiet k h (capability_unavailable a b c) e = refl
  transfers_quiet k h (read_environment a) e = refl
  transfers_quiet k h (tool_call a b c) e = refl
  transfers_quiet k h (transfer_energy a b) e = absurd (h (sym e))
  transfers_quiet k h (reproduce_pixel a b) e = refl
  transfers_quiet k h (route_message a b c n) e = refl
  transfers_quiet k h (owner_reply_effect a b) e = refl

  -- The tool calls among the effects are the first three of the decision's operations, and the
  -- transfers are all of the decision's, both in the decision's order.
  pub compile-contents :
      (p : CompileDecisionParams Json)
      → (collect tool_call_of (compile sha256 p) ≡ take 3 (list_or_nil p.decision.operations))
        × (collect transfer_of (compile sha256 p) ≡ list_or_nil p.decision.energy_transfer)
  unfolding tool_requests transfer_requests
  compile-contents p = (
    rw (compile-number sha256 p) (before_tools p.message_id 0 ∙ map-id ops),
    rw (compile-number sha256 p) (before_transfers p.message_id 0 ∙ map-id transfers),
  )
    where
      ops : List (ToolCall Json)
      ops = take 3 (list_or_nil p.decision.operations)

      transfers : List EnergyTransferRequest
      transfers = list_or_nil p.decision.energy_transfer

      after_transfers :
          {X : Type 0} (f : Detail Json → List X)
          → ((k : ℕ) → 4 < k → (d : Detail Json) → phase d ≡ k → f d ≡ [])
          → Hold f (reproduce_requests p ++ (route_requests p ++ (reply_requests p ++ []))) []
      after_transfers f quiet =
          Hold-quiet f 5 (reproduce_requests p) _ [] (quiet 5 (omega arith)) (reproduce-phase p) (
            Hold-quiet f 6 (route_requests p) _ [] (quiet 6 (omega arith)) (route-phase p) (
              Hold-quiet f 7 (reply_requests p) [] [] (quiet 7 (omega arith)) (reply-phase p)
                (λ m k. refl)))

      before :
          {X : Type 0} (f : Detail Json → List X) (rest : List (Request Json)) (xs : List X)
          → ((k : ℕ) → k < 3 → (d : Detail Json) → phase d ≡ k → f d ≡ [])
          → Hold f rest xs
          → Hold f
              (mind_requests p ++ (capability_requests p ++ (environment_requests p ++ rest)))
              xs
      before f rest xs quiet h =
          Hold-quiet f 0 (mind_requests p) _ xs (quiet 0 (omega arith)) (mind-phase p) (
            Hold-quiet f 1 (capability_requests p) _ xs (quiet 1 (omega arith)) (capability-phase p)
              (Hold-quiet f 2 (environment_requests p) _ xs (quiet 2 (omega arith))
                (environment-phase p) h))

      before_tools : Hold tool_call_of (concat (requests p)) (map (λ op. op) ops ++ [])
      before_tools =
          before tool_call_of _ (map (λ op. op) ops ++ [])
            (λ k h. tools_quiet k (λ e. absurd (omega arith)))
            (Hold-map tool_call_of _ (λ op. op) ops _ [] (λ op id. refl)
              (Hold-quiet tool_call_of 4 (transfer_requests p) _ []
                (tools_quiet 4 (λ e. absurd (omega arith))) (transfer-phase p)
                (after_transfers tool_call_of (λ k h. tools_quiet k (λ e. absurd (omega arith))))))

      before_transfers : Hold transfer_of (concat (requests p)) (map (λ t. t) transfers ++ [])
      before_transfers =
          before transfer_of _ (map (λ t. t) transfers ++ [])
            (λ k h. transfers_quiet k (λ e. absurd (omega arith)))
            (Hold-quiet transfer_of 3 (tool_requests p) _ (map (λ t. t) transfers ++ [])
              (transfers_quiet 3 (λ e. absurd (omega arith))) (tool-phase p)
              (Hold-map transfer_of _ (λ t. t) transfers _ [] (λ t id. refl)
                (after_transfers transfer_of
                  (λ k h. transfers_quiet k (λ e. absurd (omega arith))))))
