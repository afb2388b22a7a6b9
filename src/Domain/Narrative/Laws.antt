-- ===== src/Domain/Narrative/Laws.antt =====
-- The limits of an accepted narrative.
use emergent_inc.Common.{
  ℕ, ◌+◌, ◌^◌, ◌≤◌, ◌≡◌, inl, inr, refl, subst, arith, Bool, true, false, not, ◌||◌, Option, none,
  some, List, [], ◌∷◌, ◌++◌, Text, codes, text_eq, includes, ltb, length, length-append, All,
  All-append, Bool-cases, Option-cases,
}
use emergent_inc.Common.Int.{pos, negsuc}
use emergent_inc.Grid.Number.{trim}
use emergent_inc.Domain.Narrative.{
  NumberValue, decimal, not_finite, Value, undefined_value, null_value, other_value, number_value,
  text_value, array_value, object_value, Values, no_values, value_and, Fields, no_fields, field_and,
  QianjiNarrativeSpec, valid_narrative, error_if, field_of, unknown_errors, read_text, is_fraction,
  set_trait, read_number, read_entries, count_fields, count_values, read_traits, read_behavior,
  read_behaviors, read_profile, is_nil, read_display_name, narrative_of, narrative_errors,
  narrative_fields, validate_qianji_narrative,
}

abbrev IsShort : ℕ → Option Text → Type 0
IsShort maximum none = Unit
IsShort maximum (some s) = length s ≤ maximum

-- A number from 0 to 1
abbrev IsFraction : NumberValue → Type 0
IsFraction not_finite = ⊥
IsFraction (decimal (pos n) places) = n ≤ 10 ^ places
IsFraction (decimal (negsuc n) places) = ⊥

abbrev IsTrait : Text × NumberValue → Type 0
IsTrait (key, n) = (text_eq key [] ≡ false) × (length key ≤ 32) × IsFraction n

-- Every key is a narrative's.
abbrev KnowsKeys : Fields → Type 0
KnowsKeys no_fields = Unit
KnowsKeys (field_and key value rest) = (includes narrative_fields key ≡ true) × KnowsKeys rest

-- A narrative within the limits, whose name is that of the input.
pub record IsNarrative (fields : Fields) (v : QianjiNarrativeSpec) : Type 0 where
  known : KnowsKeys fields
  named : field_of (codes "displayName") fields ≡ text_value v.display_name
  written : text_eq (trim v.display_name) [] ≡ false
  display_name : length v.display_name ≤ 80
  title : IsShort 80 v.title
  role_label : IsShort 80 v.role_label
  flaw : IsShort 500 v.flaw
  short_bio : IsShort 2000 v.short_bio
  appearance_spec : IsShort 2000 v.appearance_spec
  content_revision : IsShort 100 v.content_revision
  portrait_asset : IsShort 128 v.portrait_asset
  few_traits : length v.traits ≤ 16
  traits : All IsTrait v.traits
  few_behaviors : length v.behavior_profile ≤ 12
  behaviors : All (λ s. length s ≤ 300) v.behavior_profile

append_is_nil {ℓ} : {A : Type ℓ} (xs ys : List A) → xs ++ ys ≡ [] → (xs ≡ []) × (ys ≡ [])
append_is_nil [] ys e = (refl, e)
append_is_nil (x ∷ xs) ys e = absurd (ground (arith, e))

error_if_nil :
    (failed : Bool) (name message : Text) → error_if failed name message ≡ [] → failed ≡ false
error_if_nil true name message e = absurd (ground (arith, e))
error_if_nil false name message e = refl

unknown_errors-KnowsKeys : (fields : Fields) → unknown_errors fields ≡ [] → KnowsKeys fields
unfolding unknown_errors
unknown_errors-KnowsKeys no_fields e = tt
unknown_errors-KnowsKeys (field_and key value rest) e =
    let (bad, later) = append_is_nil _ _ e in
    let good = error_if_nil (not (includes narrative_fields key)) _ _ bad in
    (ground (arith, good), unknown_errors-KnowsKeys rest later)

read_text-IsShort :
    (name : Text) (maximum : ℕ) (required nullable : Bool) (value : Value)
    → (read_text name maximum required nullable value).1 ≡ []
    → IsShort maximum (read_text name maximum required nullable value).0
unfolding read_text
read_text-IsShort name maximum required nullable undefined_value e = tt
read_text-IsShort name maximum required nullable null_value e = tt
read_text-IsShort name maximum required nullable other_value e = tt
read_text-IsShort name maximum required nullable (number_value n) e = tt
read_text-IsShort name maximum required nullable (array_value vs) e = tt
read_text-IsShort name maximum required nullable (object_value fs) e = tt
read_text-IsShort name maximum required nullable (text_value s) e =
    let (blank, long) = append_is_nil _ _ e in
    let short = error_if_nil (ltb maximum (length s)) name _ long in ground (arith, short)

read_text-named :
    (name : Text) (maximum : ℕ) (value : Value) (s : Text)
    → (read_text name maximum true false value).0 ≡ some s
    → (read_text name maximum true false value).1 ≡ []
    → (value ≡ text_value s) × (text_eq (trim s) [] ≡ false) × (length s ≤ maximum)
unfolding read_text
read_text-named name maximum undefined_value s found e = absurd (ground (arith, found))
read_text-named name maximum null_value s found e = absurd (ground (arith, found))
read_text-named name maximum other_value s found e = absurd (ground (arith, found))
read_text-named name maximum (number_value n) s found e = absurd (ground (arith, found))
read_text-named name maximum (array_value vs) s found e = absurd (ground (arith, found))
read_text-named name maximum (object_value fs) s found e = absurd (ground (arith, found))
read_text-named name maximum (text_value t) s found e =
    let (blank, long) = append_is_nil _ _ e in
    let written = error_if_nil (text_eq (trim t) []) name _ blank in
    let short = error_if_nil (ltb maximum (length t)) name _ long in
    ground (arith, found, written, short)

is_fraction-IsFraction : (n : NumberValue) → is_fraction n ≡ true → IsFraction n
unfolding is_fraction
is_fraction-IsFraction not_finite h = ground (arith, h)
is_fraction-IsFraction (decimal (pos n) places) h = ground (arith, h)
is_fraction-IsFraction (decimal (negsuc n) places) h = ground (arith, h)

-- At most one trait for an entry, and a good one.
read_number-IsTrait :
    (key : Text) (value : Value)
    → text_eq key [] ≡ false
    → length key ≤ 32
    → (length (read_number key value).0 ≤ 1) × All IsTrait (read_number key value).0
unfolding read_number set_trait
read_number-IsTrait key undefined_value written short = (omega arith, tt)
read_number-IsTrait key null_value written short = (omega arith, tt)
read_number-IsTrait key other_value written short = (omega arith, tt)
read_number-IsTrait key (text_value s) written short = (omega arith, tt)
read_number-IsTrait key (array_value vs) written short = (omega arith, tt)
read_number-IsTrait key (object_value fs) written short = (omega arith, tt)
read_number-IsTrait key (number_value n) written short = elim (Bool-cases (is_fraction n)) [
  | inr not_in ↦ rw not_in (omega arith, tt)
  | inl fraction ↦ elim (Bool-cases (text_eq key (codes "__proto__"))) [
    | inl proto ↦ rw (fraction, proto) (omega arith, tt)
    | inr own ↦
        rw (fraction, own) (omega arith, ((written, short, is_fraction-IsFraction n fraction), tt))
  ]
]

read_entries-IsTrait :
    (fields : Fields)
    → (read_entries fields).1 ≡ []
    → (length (read_entries fields).0 ≤ count_fields fields) × All IsTrait (read_entries fields).0
unfolding read_entries
read_entries-IsTrait no_fields e = (omega arith, tt)
read_entries-IsTrait (field_and key value rest) e =
    let (bad_key, others) = append_is_nil _ _ e in
    let (bad_value, later) = append_is_nil _ _ others in
    let good = error_if_nil (text_eq key [] || ltb 32 (length key)) _ _ bad_key in
    let (one, entry) =
      read_number-IsTrait key value (ground (arith, good)) (ground (arith, good)) in
    let (few, traits) = read_entries-IsTrait rest later in
    (
      omega (arith, one, few, length-append (read_number key value).0 (read_entries rest).0),
      All-append IsTrait (read_number key value).0 (read_entries rest).0 entry traits,
    )

read_traits-IsTrait :
    (value : Value)
    → (read_traits value).1 ≡ []
    → (length (read_traits value).0 ≤ 16) × All IsTrait (read_traits value).0
unfolding read_traits
read_traits-IsTrait undefined_value e = (omega arith, tt)
read_traits-IsTrait null_value e = (omega arith, tt)
read_traits-IsTrait other_value e = (omega arith, tt)
read_traits-IsTrait (number_value n) e = (omega arith, tt)
read_traits-IsTrait (text_value s) e = (omega arith, tt)
read_traits-IsTrait (array_value vs) e = (omega arith, tt)
read_traits-IsTrait (object_value entries) e =
    let (many, bad) = append_is_nil _ _ e in
    let few = error_if_nil (ltb 16 (count_fields entries)) _ _ many in
    let (fewer, traits) = read_entries-IsTrait entries bad in (ground (arith, few, fewer), traits)

read_behavior-short :
    (index : ℕ) (value : Value)
    → (length (read_behavior index value).0 ≤ 1)
      × All (λ s. length s ≤ 300) (read_behavior index value).0
unfolding read_behavior
read_behavior-short index undefined_value = (omega arith, tt)
read_behavior-short index null_value = (omega arith, tt)
read_behavior-short index other_value = (omega arith, tt)
read_behavior-short index (number_value n) = (omega arith, tt)
read_behavior-short index (array_value vs) = (omega arith, tt)
read_behavior-short index (object_value fs) = (omega arith, tt)
read_behavior-short index (text_value s) = elim (Bool-cases (ltb 300 (length s))) [
  | inl long ↦ rw long (omega arith, tt)
  | inr short ↦ rw short (omega arith, (ground (arith, short), tt))
]

read_behaviors-short :
    (index : ℕ) (values : Values)
    → (length (read_behaviors index values).0 ≤ count_values values)
      × All (λ s. length s ≤ 300) (read_behaviors index values).0
unfolding read_behaviors
read_behaviors-short index no_values = (omega arith, tt)
read_behaviors-short index (value_and value rest) =
    let (one, first) = read_behavior-short index value in
    let (few, later) = read_behaviors-short (index + 1) rest in
    (
      omega (
        arith,
        one,
        few,
        length-append (read_behavior index value).0 (read_behaviors (index + 1) rest).0,
      ),
      All-append (λ s. length s ≤ 300) (read_behavior index value).0
          (read_behaviors (index + 1) rest).0 first later,
    )

read_profile-short :
    (value : Value)
    → (read_profile value).1 ≡ []
    → (length (read_profile value).0 ≤ 12) × All (λ s. length s ≤ 300) (read_profile value).0
unfolding read_profile
read_profile-short undefined_value e = (omega arith, tt)
read_profile-short null_value e = (omega arith, tt)
read_profile-short other_value e = (omega arith, tt)
read_profile-short (number_value n) e = (omega arith, tt)
read_profile-short (text_value s) e = (omega arith, tt)
read_profile-short (object_value fs) e = (omega arith, tt)
read_profile-short (array_value values) e =
    let few = error_if_nil (ltb 12 (count_values values)) _ _ (append_is_nil _ _ e).0 in
    let (fewer, behaviors) = read_behaviors-short 0 values in
    (ground (arith, few, fewer), behaviors)

narrative_of-IsNarrative :
    (fields : Fields) (name : Text)
    → (read_display_name fields).0 ≡ some name
    → narrative_errors fields ≡ []
    → IsNarrative fields (narrative_of name fields)
narrative_of-IsNarrative fields name found e =
    let (e1, bad_profile) = append_is_nil _ _ e in
    let (e2, bad_traits) = append_is_nil _ _ e1 in
    let (e3, bad_portrait) = append_is_nil _ _ e2 in
    let (e4, bad_revision) = append_is_nil _ _ e3 in
    let (e5, bad_look) = append_is_nil _ _ e4 in
    let (e6, bad_bio) = append_is_nil _ _ e5 in
    let (e7, bad_flaw) = append_is_nil _ _ e6 in
    let (e8, bad_role) = append_is_nil _ _ e7 in
    let (e9, bad_title) = append_is_nil _ _ e8 in
    let (unknown, bad_name) = append_is_nil _ _ e9 in
    let (named, written, short) = read_text-named _ 80 _ name found bad_name in
    let (few, traits) = read_traits-IsTrait _ bad_traits in
    let (fewer, behaviors) = read_profile-short _ bad_profile in
    record {
      known = unknown_errors-KnowsKeys fields unknown;
      named = named;
      written = written;
      display_name = short;
      title = read_text-IsShort _ 80 false true _ bad_title;
      role_label = read_text-IsShort _ 80 false true _ bad_role;
      flaw = read_text-IsShort _ 500 false true _ bad_flaw;
      short_bio = read_text-IsShort _ 2000 false true _ bad_bio;
      appearance_spec = read_text-IsShort _ 2000 false true _ bad_look;
      content_revision = read_text-IsShort _ 100 false true _ bad_revision;
      portrait_asset = read_text-IsShort _ 128 false true _ bad_portrait;
      few_traits = few;
      traits = traits;
      few_behaviors = fewer;
      behaviors = behaviors;
    }

is_nil_sound {ℓ} : {A : Type ℓ} (xs : List A) → is_nil xs ≡ true → xs ≡ []
is_nil_sound [] h = refl
is_nil_sound (x ∷ xs) h = absurd (ground (arith, h))

valid_narrative-injective :
    (v w : QianjiNarrativeSpec) → valid_narrative v ≡ valid_narrative w → v ≡ w
valid_narrative-injective v w e = ground (arith, e)

-- An accepted narrative is within the limits: if the validation of a value succeeds, the value is an
-- object with no key but a narrative's, the display name is its field's, has no more than 80 code
-- points and is not blank, every other text keeps to the length of its field, there are at most 16
-- traits, each with a key of 1 to 32 code points and a finite number from 0 to 1, and at most 12
-- behaviours, each of at most 300 code points.
pub validate_qianji_narrative-IsNarrative :
    (input : Value) (v : QianjiNarrativeSpec)
    → validate_qianji_narrative input ≡ valid_narrative v
    → (fields : Fields) × (input ≡ object_value fields) × IsNarrative fields v
unfolding validate_qianji_narrative
validate_qianji_narrative-IsNarrative (object_value fields) v e =
    elim (Option-cases (read_display_name fields).0) [
      | inl missing ↦ absurd (ground (arith, rw (missing, validate_qianji_narrative) at e))
      | inr (name, found) ↦ elim (Bool-cases (is_nil (narrative_errors fields))) [
        | inr bad ↦ absurd (ground (arith, rw (found, bad, validate_qianji_narrative) at e))
        | inl good ↦ (
          fields,
          refl,
          subst (IsNarrative fields)
              (valid_narrative-injective _ v (rw (found, good, validate_qianji_narrative) at e))
              (narrative_of-IsNarrative fields name found (is_nil_sound _ good)),
        )
      ]
    ]
validate_qianji_narrative-IsNarrative undefined_value v e = absurd (ground (arith, e))
validate_qianji_narrative-IsNarrative null_value v e = absurd (ground (arith, e))
validate_qianji_narrative-IsNarrative other_value v e = absurd (ground (arith, e))
validate_qianji_narrative-IsNarrative (number_value n) v e = absurd (ground (arith, e))
validate_qianji_narrative-IsNarrative (text_value s) v e = absurd (ground (arith, e))
validate_qianji_narrative-IsNarrative (array_value vs) v e = absurd (ground (arith, e))
