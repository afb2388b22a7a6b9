-- ===== src/Runtime/Compiler/Numbering.antt =====
-- The indexes of the effects that `DecisionCompiler.compile` gives.
use emergent_inc.Common.{
  ℕ, zero, suc, ◌+◌, ◌≡◌, refl, sym, ap, ◌∙◌, List, [], ◌∷◌, ◌++◌, Text, codes, some, get_elem?,
  arith, subst, some-injective, append_assoc, append_nil,
}
use emergent_inc.Runtime.Compiler.{
  Effect, pending, Payload, Request, CompileDecisionParams, CompilerState, numbered_id, effect_of,
  push_all, compile, mind_requests, capability_requests, environment_requests, tool_requests,
  transfer_requests, reproduce_requests, route_requests, reply_requests,
}

abbrev pub concat {ℓ} : {A : Type ℓ} → List (List A) → List A
concat [] = []
concat (xs ∷ xss) = xs ++ concat xss

-- All requests of a decision, by phase.
abbrev pub requests : {Json : Type 0} → CompileDecisionParams Json → List (List (Request Json))
requests p =
    mind_requests p
    ∷ capability_requests p
    ∷ environment_requests p
    ∷ tool_requests p
    ∷ transfer_requests p
    ∷ reproduce_requests p
    ∷ route_requests p
    ∷ reply_requests p
    ∷ []

module _ {Json : Type 0} (sha256 : Payload Json → Text) where
  abbrev pub number : Text → ℕ → List (Request Json) → List (Effect Json)
  number m k [] = []
  number m k (r ∷ rs) = effect_of sha256 m k r ∷ number m (suc k) rs

  push_all-push_all :
      (m : Text) (xs ys : List (Request Json)) (s : CompilerState Json)
      → push_all sha256 m ys (push_all sha256 m xs s) ≡ push_all sha256 m (xs ++ ys) s
  unfolding push_all
  push_all-push_all m [] ys s = refl
  push_all-push_all m (x ∷ xs) ys s = push_all-push_all m xs ys (record {
    effects = s.effects ++ effect_of sha256 m s.effect_index x ∷ [];
    effect_index = suc s.effect_index;
  })

  push_each : Text → List (List (Request Json)) → CompilerState Json → CompilerState Json
  push_each m [] s = s
  push_each m (rs ∷ rss) s = push_each m rss (push_all sha256 m rs s)

  push_each-concat :
      (m : Text) (rss : List (List (Request Json))) (s : CompilerState Json)
      → push_each m rss s ≡ push_all sha256 m (concat rss) s
  unfolding push_each push_all
  push_each-concat m [] s = refl
  push_each-concat m (rs ∷ rss) s =
      push_each-concat m rss (push_all sha256 m rs s) ∙ push_all-push_all m rs (concat rss) s

  push_all-number :
      (m : Text) (rs : List (Request Json)) (s : CompilerState Json)
      → (push_all sha256 m rs s).effects ≡ s.effects ++ number m s.effect_index rs
  unfolding push_all
  push_all-number m [] s = sym (append_nil s.effects)
  push_all-number m (r ∷ rs) s =
      push_all-number m rs (record {
        effects = s.effects ++ effect_of sha256 m s.effect_index r ∷ [];
        effect_index = suc s.effect_index;
      })
      ∙ append_assoc s.effects (effect_of sha256 m s.effect_index r ∷ [])
          (number m (suc s.effect_index) rs)

  pub compile-number :
      (p : CompileDecisionParams Json)
      → compile sha256 p ≡ number p.message_id 0 (concat (requests p))
  unfolding compile push_each
  compile-number p =
      ap (λ s. s.effects) (push_each-concat p.message_id (requests p) start)
      ∙ push_all-number p.message_id (concat (requests p)) start
    where
      start : CompilerState Json
      start = record { effects = []; effect_index = 0 }

  number-at :
      (m : Text) (k i : ℕ) (rs : List (Request Json)) (e : Effect Json)
      → get_elem? (number m k rs) i ≡ some e
      → (r : Request Json) × (e ≡ effect_of sha256 m (k + i) r)
  number-at m k i [] e h = absurd (ground arith)
  number-at m k zero (r ∷ rs) e h = (
    r,
    sym (some-injective (effect_of sha256 m k r) e h)
        ∙ ap (λ n. effect_of sha256 m n r) (omega arith),
  )
  number-at m k (suc i) (r ∷ rs) e h =
      let (r', found) = number-at m (suc k) i rs e h in
      (r', found ∙ ap (λ n. effect_of sha256 m n r') (omega arith))

  pub compile-at :
      (p : CompileDecisionParams Json) (i : ℕ) (e : Effect Json)
      → get_elem? (compile sha256 p) i ≡ some e
      → (r : Request Json) × (e ≡ effect_of sha256 p.message_id i r)
  compile-at p i e h =
      let (r, same) =
        number-at p.message_id 0 i (concat (requests p)) e
          (subst (λ es. get_elem? es i ≡ some e) (compile-number p) h) in
      (r, same ∙ ap (λ n. effect_of sha256 p.message_id n r) (omega arith))

  -- The effect at position `i` has the index `i`, belongs to the message, is pending, and carries
  -- the id that is made of the message, the index and the hash of its payload.
  pub compile-numbered :
      (p : CompileDecisionParams Json) (i : ℕ) (e : Effect Json)
      → get_elem? (compile sha256 p) i ≡ some e
      → (e.effect_index ≡ i)
        × (e.message_id ≡ p.message_id)
        × (e.status ≡ pending)
        × (e.effect_id ≡ numbered_id (codes "eff_") p.message_id i e.payload_hash)
  unfolding effect_of
  compile-numbered p i e h = let (r, same) = compile-at p i e h in rw same (refl, refl, refl, refl)
