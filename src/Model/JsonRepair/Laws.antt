-- ===== src/Model/JsonRepair/Laws.antt =====
-- `repairMissingJsonClosers` and `parseJsonWithRepair`.
use emergent_inc.Common.{
  ◌≡◌, refl, true, false, Option, none, some, Text, arith, Option-cases, inl, inr, some-injective,
  subst,
}
use emergent_inc.Model.JsonRepair.{repair_missing_json_closers, Parsed, parse_json_with_repair}
use emergent_inc.Model.JsonRepair.Reader.{IsBalanced}
use emergent_inc.Model.JsonRepair.Balance.{repaired_IsBalanced}
use emergent_inc.Model.JsonRepair.Faithful.{repair_of_balanced}
use emergent_inc.Model.JsonRepair.Insertion.{ClosersAdded, ClosersAdded-refl, repaired_ClosersAdded}

-- A repaired text is read as balanced by the reference reader, which matches each closing bracket
-- outside strings with the innermost open one and needs every bracket and string to be closed at
-- the end; it is the raw text with closing brackets put in and nothing else changed; and the raw
-- text was not balanced.
pub repair_missing_json_closers-IsBalanced :
    (raw out : Text)
    → repair_missing_json_closers raw ≡ some out
    → IsBalanced out × ClosersAdded raw out × ¬ (IsBalanced raw)
repair_missing_json_closers-IsBalanced raw out e = (
  repaired_IsBalanced raw out e,
  repaired_ClosersAdded raw out e,
  λ h. ground (arith, e, repair_of_balanced raw h),
)

-- What was parsed for a raw text: where the value comes from.
pub record IsParsed {ℓ} {J : Type ℓ} (json_parse : Text → Option J) (raw : Text) (r : Parsed J)
    : Type ℓ where
  text : Text
  parsed : json_parse text ≡ some r.data_value
  added : ClosersAdded raw text
  unchanged : r.repaired ≡ false → text ≡ raw
  needed : r.repaired ≡ true → json_parse raw ≡ none

module _ {ℓ} {J : Type ℓ} (json_parse : Text → Option J) where
  parse_repaired :
      (raw text : Text) (r : Parsed J)
      → json_parse raw ≡ none
      → repair_missing_json_closers raw ≡ some text
      → parse_json_with_repair json_parse raw ≡ some r
      → IsParsed json_parse raw r
  unfolding parse_json_with_repair
  parse_repaired raw text r failed e h = elim (Option-cases (json_parse text)) [
    | inl again ↦ absurd (ground (arith, rw (failed, e, again, parse_json_with_repair) at h))
    | inr (value, parsed) ↦
        subst (IsParsed json_parse raw)
          (some-injective (record { data_value = value; repaired = true }) r
            (rw (failed, e, parsed, parse_json_with_repair) at h))
          (record {
            text = text;
            parsed = parsed;
            added = repaired_ClosersAdded raw text e;
            unchanged = λ (z : true ≡ false). absurd (ground arith);
            needed = λ _. failed;
          })
  ]

-- Whatever parser is used: a value that is returned is the parser's value of the raw text, or, and
-- only where the parser refuses the raw text, of the raw text with closing brackets put in; the
-- flag `repaired` says which.
pub parse_json_with_repair-IsParsed :
    {J : Type 0} (json_parse : Text → Option J) (raw : Text) (r : Parsed J)
    → parse_json_with_repair json_parse raw ≡ some r
    → IsParsed json_parse raw r
unfolding parse_json_with_repair
parse_json_with_repair-IsParsed json_parse raw r h = elim (Option-cases (json_parse raw)) [
  | inr (value, parsed) ↦
      subst (IsParsed json_parse raw)
        (some-injective (record { data_value = value; repaired = false }) r
          (rw (parsed, parse_json_with_repair) at h))
        (record {
          text = raw;
          parsed = parsed;
          added = ClosersAdded-refl raw;
          unchanged = λ _. refl;
          needed = λ (z : false ≡ true). absurd (ground arith);
        })
  | inl failed ↦ elim (Option-cases (repair_missing_json_closers raw)) [
    | inl stuck ↦ absurd (ground (arith, rw (failed, stuck, parse_json_with_repair) at h))
    | inr (text, e) ↦ parse_repaired json_parse raw text r failed e h
  ]
]
