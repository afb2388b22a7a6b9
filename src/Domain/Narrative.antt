-- ===== src/Domain/Narrative.antt =====
-- packages/domain/src/qianji/validation.ts: the narrative that a character is given. A value of
-- type `unknown` is a tree; the keys of an object are distinct, and an array has no holes.
pub mod Laws
use emergent_inc.Common.{
  ℕ, suc, ◌+◌, ◌^◌, Bool, true, false, not, ◌&&◌, ◌||◌, Option, none, some, List, [], ◌∷◌, ◌++◌,
  Text, codes, text_eq, includes, ltb, leb, length, if◌then◌else◌,
}
use emergent_inc.Common.Int.{ℤ, pos, negsuc}
use emergent_inc.Grid.Number.{trim, print_nat}

-- A number: a finite one is a decimal fraction, its digits and the count of its decimals.
pub data NumberValue : Type 0 where
  decimal : ℤ → ℕ → NumberValue
  not_finite : NumberValue

mutual
  pub data Value : Type 0 where
    undefined_value null_value other_value : Value
    number_value : NumberValue → Value
    text_value : Text → Value
    array_value : Values → Value
    object_value : Fields → Value

  pub data Values : Type 0 where
    no_values : Values
    value_and : Value → Values → Values

  pub data Fields : Type 0 where
    no_fields : Fields
    field_and : Text → Value → Fields → Fields

pub record QianjiValidationError : Type 0 where
  pub path : Text
  pub message : Text

pub record QianjiNarrativeSpec : Type 0 where
  pub display_name : Text
  pub title : Option Text
  pub role_label : Option Text
  pub traits : List (Text × NumberValue)
  pub behavior_profile : List Text
  pub flaw : Option Text
  pub short_bio : Option Text
  pub appearance_spec : Option Text
  pub portrait_asset : Option Text
  pub content_revision : Option Text

pub data QianjiNarrativeValidation : Type 0 where
  valid_narrative : QianjiNarrativeSpec → QianjiNarrativeValidation
  invalid_narrative : List QianjiValidationError → QianjiNarrativeValidation

-- What a reader returns, and the errors that it pushes.
abbrev pub Read {ℓ} : Type ℓ → Type ℓ
Read A = A × List QianjiValidationError

abbrev pub narrative_fields : List Text
narrative_fields =
    codes "displayName"
    ∷ codes "title"
    ∷ codes "roleLabel"
    ∷ codes "traits"
    ∷ codes "behaviorProfile"
    ∷ codes "flaw"
    ∷ codes "shortBio"
    ∷ codes "appearanceSpec"
    ∷ codes "portraitAsset"
    ∷ codes "contentRevision"
    ∷ []

-- `if (failed) errors.push({ path: "narrative." + name, message })`
abbrev pub error_if : Bool → Text → Text → List QianjiValidationError
error_if failed name message =
    if failed then record { path = codes "narrative." ++ name; message = message } ∷ [] else []

unfoldable pub field_of : Text → Fields → Value
field_of name no_fields = undefined_value
field_of name (field_and key value rest) =
    let later = field_of name rest in if text_eq key name then value else later

unfoldable pub unknown_errors : Fields → List QianjiValidationError
unknown_errors no_fields = []
unknown_errors (field_and key value rest) =
    error_if (not (includes narrative_fields key)) key (codes "unknown field")
    ++ unknown_errors rest

-- `readText`, of the field's value
unfoldable pub read_text : Text → ℕ → Bool → Bool → Value → Read (Option Text)
read_text name maximum required nullable undefined_value =
    (none, error_if required name (codes "is required"))
read_text name maximum required nullable null_value =
    (none, error_if (not nullable) name (codes "must be a string"))
read_text name maximum required nullable (text_value s) = (
  some s,
  error_if (required && text_eq (trim s) []) name (codes "must not be blank")
      ++ error_if (ltb maximum (length s)) name
          (codes "must be at most " ++ print_nat maximum ++ codes " Unicode code points"),
)
read_text name maximum required nullable other =
    (none, error_if true name (codes "must be a string"))

-- `typeof value === "number" && Number.isFinite(value) && value >= 0 && value <= 1`
unfoldable pub is_fraction : NumberValue → Bool
is_fraction not_finite = false
is_fraction (decimal (pos n) places) = leb n (10 ^ places)
is_fraction (decimal (negsuc n) places) = false

-- The assignment `traits[key] = value`, which has no effect for the key of the prototype
unfoldable pub set_trait : Text → NumberValue → List (Text × NumberValue)
set_trait key n = if text_eq key (codes "__proto__") then [] else (key, n) ∷ []

unfoldable pub read_number : Text → Value → Read (List (Text × NumberValue))
unfolding is_fraction set_trait
read_number key (number_value n) = (
  if is_fraction n then set_trait key n else [],
  error_if (not (is_fraction n)) (codes "traits." ++ key)
      (codes "must be a finite number from 0 to 1"),
)
read_number key other =
    ([], error_if true (codes "traits." ++ key) (codes "must be a finite number from 0 to 1"))

unfoldable pub read_entries : Fields → Read (List (Text × NumberValue))
read_entries no_fields = ([], [])
read_entries (field_and key value rest) =
    let later = read_entries rest in
    let entry = read_number key value in
    (
      entry.0 ++ later.0,
      error_if (text_eq key [] || ltb 32 (length key)) (codes "traits." ++ key)
            (codes "key must contain 1-32 Unicode code points")
          ++ (entry.1 ++ later.1),
    )

abbrev pub count_fields : Fields → ℕ
count_fields no_fields = 0
count_fields (field_and key value rest) = suc (count_fields rest)

abbrev pub count_values : Values → ℕ
count_values no_values = 0
count_values (value_and value rest) = suc (count_values rest)

unfoldable pub read_traits : Value → Read (List (Text × NumberValue))
read_traits (object_value entries) = (
  (read_entries entries).0,
  error_if (ltb 16 (count_fields entries)) (codes "traits")
        (codes "must contain at most 16 entries")
      ++ (read_entries entries).1,
)
read_traits other =
    ([], error_if true (codes "traits") (codes "must be an object of finite numbers from 0 to 1"))

-- The error of one behaviour, or its text
unfoldable pub read_behavior : ℕ → Value → Read (List Text)
read_behavior index (text_value s) = (
  if ltb 300 (length s) then [] else s ∷ [],
  error_if (ltb 300 (length s)) (codes "behaviorProfile." ++ print_nat index)
      (codes "must be at most 300 Unicode code points"),
)
read_behavior index other =
    ([], error_if true (codes "behaviorProfile." ++ print_nat index) (codes "must be a string"))

unfoldable pub read_behaviors : ℕ → Values → Read (List Text)
read_behaviors index no_values = ([], [])
read_behaviors index (value_and value rest) =
    let later = read_behaviors (index + 1) rest in
    let first = read_behavior index value in (first.0 ++ later.0, first.1 ++ later.1)

unfoldable pub read_profile : Value → Read (List Text)
read_profile (array_value values) = (
  (read_behaviors 0 values).0,
  error_if (ltb 12 (count_values values)) (codes "behaviorProfile")
        (codes "must contain at most 12 entries")
      ++ (read_behaviors 0 values).1,
)
read_profile other =
    ([], error_if true (codes "behaviorProfile") (codes "must be an array of strings"))

abbrev pub is_nil {ℓ} : {A : Type ℓ} → List A → Bool
is_nil [] = true
is_nil (x ∷ xs) = false

-- A text that may be null or left out
abbrev pub read_optional : Text → ℕ → Fields → Read (Option Text)
read_optional name maximum fields = read_text name maximum false true (field_of name fields)

abbrev pub read_display_name : Fields → Read (Option Text)
read_display_name fields =
    read_text (codes "displayName") 80 true false (field_of (codes "displayName") fields)

abbrev pub narrative_of : Text → Fields → QianjiNarrativeSpec
narrative_of display_name fields = record {
  display_name = display_name;
  title = (read_optional (codes "title") 80 fields).0;
  role_label = (read_optional (codes "roleLabel") 80 fields).0;
  traits = (read_traits (field_of (codes "traits") fields)).0;
  behavior_profile = (read_profile (field_of (codes "behaviorProfile") fields)).0;
  flaw = (read_optional (codes "flaw") 500 fields).0;
  short_bio = (read_optional (codes "shortBio") 2000 fields).0;
  appearance_spec = (read_optional (codes "appearanceSpec") 2000 fields).0;
  portrait_asset = (read_optional (codes "portraitAsset") 128 fields).0;
  content_revision = (read_optional (codes "contentRevision") 100 fields).0;
}

-- All errors, in the order in which they are pushed
abbrev pub narrative_errors : Fields → List QianjiValidationError
narrative_errors fields =
    unknown_errors fields
    ++ (read_display_name fields).1
    ++ (read_optional (codes "title") 80 fields).1
    ++ (read_optional (codes "roleLabel") 80 fields).1
    ++ (read_optional (codes "flaw") 500 fields).1
    ++ (read_optional (codes "shortBio") 2000 fields).1
    ++ (read_optional (codes "appearanceSpec") 2000 fields).1
    ++ (read_optional (codes "contentRevision") 100 fields).1
    ++ (read_optional (codes "portraitAsset") 128 fields).1
    ++ (read_traits (field_of (codes "traits") fields)).1
    ++ (read_profile (field_of (codes "behaviorProfile") fields)).1

unfoldable pub validate_qianji_narrative : Value → QianjiNarrativeValidation
validate_qianji_narrative (object_value fields) = elim (read_display_name fields).0 [
  | none ↦ invalid_narrative (narrative_errors fields)
  | some display_name ↦
      if is_nil (narrative_errors fields)
      then valid_narrative (narrative_of display_name fields)
      else invalid_narrative (narrative_errors fields)
]
validate_qianji_narrative other =
    invalid_narrative
      (record { path = codes "narrative"; message = codes "must be an object" } ∷ [])
