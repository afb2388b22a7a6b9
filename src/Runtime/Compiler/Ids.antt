-- ===== src/Runtime/Compiler/Ids.antt =====
-- The ids of the effects of one decision.
use emergent_inc.Common.{
  ℕ, ◌≡◌, ◌≢◌, refl, sym, ap, ◌∙◌, List, [], ◌∷◌, ◌++◌, Text, codes, Option, some, none, get_elem?,
  take, some-injective,
}
use emergent_inc.Grid.Number.{split, print_nat, parse_digits}
use emergent_inc.Grid.RoundTrip.{split-append, print_nat-NoSeparator, parse_digits-print_nat}
use emergent_inc.Runtime.Compiler.{Effect, Payload, CompileDecisionParams, numbered_id, compile}
use emergent_inc.Runtime.Compiler.Numbering.{compile-numbered}

first_or_nil : List Text → Text
first_or_nil [] = []
first_or_nil (t ∷ ts) = t

-- The number that follows a prefix, up to the separator.
number_of : Text → Text → Option ℕ
number_of [] id = parse_digits none (first_or_nil (split b'_' id))
number_of (c ∷ cs) [] = none
number_of (c ∷ cs) (d ∷ ds) = number_of cs ds

number_of-append :
    (prefix : Text) (n : ℕ) (rest : Text)
    → number_of prefix (prefix ++ (print_nat n ++ (b'_' ∷ rest))) ≡ some n
unfolding number_of first_or_nil
number_of-append [] n rest =
    rw (split-append (print_nat n) rest (print_nat-NoSeparator n)) (parse_digits-print_nat n)
number_of-append (c ∷ cs) n rest = number_of-append cs n rest

append_assoc3 : (a b rest : Text) → a ++ (b ++ (b'_' ∷ rest)) ≡ (a ++ (b ++ b'_' ∷ [])) ++ rest
append_assoc3 [] [] rest = refl
append_assoc3 [] (c ∷ b) rest = ap (λ l. c ∷ l) (append_assoc3 [] b rest)
append_assoc3 (c ∷ a) b rest = ap (λ l. c ∷ l) (append_assoc3 a b rest)

numbered_id-injective :
    (prefix message_id hash hash' : Text) (i j : ℕ)
    → numbered_id prefix message_id i hash ≡ numbered_id prefix message_id j hash'
    → i ≡ j
unfolding numbered_id
numbered_id-injective prefix message_id hash hash' i j h =
    some-injective i j (sym (read i hash) ∙ ap (number_of before) h ∙ read j hash')
  where
    before : Text
    before = prefix ++ (message_id ++ b'_' ∷ [])

    read : (n : ℕ) (hash : Text) → number_of before (numbered_id prefix message_id n hash) ≡ some n
    read n hash =
        unfold numbered_id in
        ap (number_of before)
          (append_assoc3 prefix message_id (print_nat n ++ (b'_' ∷ take 8 hash)))
        ∙ number_of-append before n (take 8 hash)

-- Effects at different places of a decision have different ids, whatever the hash function is.
pub compile-ids_distinct :
    {Json : Type 0} (sha256 : Payload Json → Text) (p : CompileDecisionParams Json) (i j : ℕ)
    (e f : Effect Json)
    → get_elem? (compile sha256 p) i ≡ some e
    → get_elem? (compile sha256 p) j ≡ some f
    → i ≢ j
    → e.effect_id ≢ f.effect_id
compile-ids_distinct sha256 p i j e f at_i at_j apart = λ same.
    let (_, _, _, e_id) = compile-numbered sha256 p i e at_i in
    let (_, _, _, f_id) = compile-numbered sha256 p j f at_j in
    apart (
      numbered_id-injective (codes "eff_") p.message_id e.payload_hash f.payload_hash i j
        (sym e_id ∙ same ∙ f_id))
