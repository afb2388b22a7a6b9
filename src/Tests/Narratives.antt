-- ===== src/Tests/Narratives.antt =====
-- A narrative at a concrete input.
use emergent_inc.Common.{◌≡◌, refl, some, none, [], ◌∷◌, codes, text_eq, includes}
use emergent_inc.Common.Int.{pos}
use emergent_inc.Domain.Narrative.{
  decimal, number_value, text_value, array_value, object_value, no_values, value_and, Fields,
  no_fields, field_and, QianjiNarrativeSpec, valid_narrative, validate_qianji_narrative, field_of,
  unknown_errors, read_text, read_traits, read_entries, read_number, read_profile, read_behaviors,
  read_behavior,
}
use emergent_inc.Domain.Narrative.Laws.{IsNarrative, validate_qianji_narrative-IsNarrative}
use emergent_inc.Grid.Number.{trim}

-- A name, one trait of 0.5, one behaviour and a flaw.
abbrev fields : Fields
fields = field_and (codes "displayName") (text_value (codes "Lin")) (
    field_and (codes "traits")
      (object_value (field_and (codes "calm") (number_value (decimal (pos 5) 1)) no_fields))
      (field_and (codes "behaviorProfile")
        (array_value (value_and (text_value (codes "listens")) no_values))
        (field_and (codes "flaw") (text_value (codes "slow")) no_fields)))

abbrev lin : QianjiNarrativeSpec
lin = record {
  display_name = codes "Lin";
  title = none;
  role_label = none;
  traits = (codes "calm", decimal (pos 5) 1) ∷ [];
  behavior_profile = codes "listens" ∷ [];
  flaw = some (codes "slow");
  short_bio = none;
  appearance_spec = none;
  portrait_asset = none;
  content_revision = none;
}

accepts : validate_qianji_narrative (object_value fields) ≡ valid_narrative lin
unfolding validate_qianji_narrative field_of unknown_errors read_text read_traits read_entries
    read_number read_profile read_behaviors read_behavior text_eq includes trim
accepts = refl

validate_qianji_narrative-IsNarrative_example :
    (at : Fields) × (object_value fields ≡ object_value at) × IsNarrative at lin
validate_qianji_narrative-IsNarrative_example =
    validate_qianji_narrative-IsNarrative (object_value fields) lin accepts
