-- ===== src/Model/JsonRepair.antt =====
-- packages/model/src/parser/json_repair.ts: the loop over the characters is a step function on a
-- scanner, and the array `stack` is a list whose head is the array's end. `JSON.parse` is a
-- parameter; `none` is the exception that it throws.
pub mod Reader
pub mod Balance
pub mod Faithful
pub mod Insertion
pub mod Laws
use emergent_inc.Common.{
  ℕ, Bool, true, false, not, Option, none, some, List, [], ◌∷◌, ◌++◌, Text, text_eq, ◌==◌,
  if◌then◌else◌,
}

pub data Bracket : Type 0 where
  brace square : Bracket

abbrev pub bracket_eq : Bracket → Bracket → Bool
bracket_eq brace brace = true
bracket_eq square square = true
bracket_eq _ _ = false

-- The keys and the values of `matchingClose`
abbrev pub opener : Bracket → ℕ
opener brace = b'{'
opener square = b'['

abbrev pub closer : Bracket → ℕ
closer brace = b'}'
closer square = b']'

-- `matchingClose[char]`, and `matchingOpen[char]`
abbrev pub opened_by : ℕ → Option Bracket
opened_by c = if c == b'{' then some brace else if c == b'[' then some square else none

abbrev pub closed_by : ℕ → Option Bracket
closed_by c = if c == b'}' then some brace else if c == b']' then some square else none

pub record Scanner : Type 0 where
  pub stack : List Bracket
  pub output : Text
  pub in_string : Bool
  pub escaped : Bool

abbrev pub initial : Scanner
initial = record { stack = []; output = []; in_string = false; escaped = false }

abbrev push : Scanner → ℕ → Scanner
push s c = record s { output = s.output ++ c ∷ [] }

-- `stack.includes(required)`
unfoldable pub has_open : Bracket → List Bracket → Bool
has_open required [] = false
has_open required (top ∷ rest) = if bracket_eq top required then true else has_open required rest

-- `while (stack.length > 0 && top !== required)`, then `stack.pop()`
unfoldable pub close_above : Bracket → List Bracket → Text → Text
close_above required [] out = out
close_above required (top ∷ rest) out =
    let closed = close_above required rest (out ++ closer top ∷ []) in
    if bracket_eq top required then out else closed

unfoldable pub pop_through : Bracket → List Bracket → List Bracket
pop_through required [] = []
pop_through required (top ∷ rest) =
    if bracket_eq top required then rest else pop_through required rest

unfoldable pub step_string : ℕ → Scanner → Scanner
step_string c s =
    if s.escaped
    then record (push s c) { escaped = false }
    else if c == b'\\'
    then record (push s c) { escaped = true }
    else if c == b'"'
    then record (push s c) { in_string = false }
    else push s c

unfoldable pub step_close : ℕ → Bracket → Scanner → Option Scanner
step_close c required s =
    if not (has_open required s.stack)
    then none
    else some (record s {
      stack = pop_through required s.stack;
      output = close_above required s.stack s.output ++ c ∷ [];
    })

unfoldable pub step_outside : ℕ → Scanner → Option Scanner
step_outside c s =
    if c == b'"' then some (record (push s c) { in_string = true }) else elim (opened_by c) [
      | some b ↦ some (record (push s c) { stack = b ∷ s.stack })
      | none ↦ elim (closed_by c) [ some b ↦ step_close c b s | none ↦ some (push s c) ]
    ]

unfoldable pub step : ℕ → Scanner → Option Scanner
step c s = if s.in_string then some (step_string c s) else step_outside c s

unfoldable pub scan : Text → Scanner → Option Scanner
scan [] s = some s
scan (c ∷ cs) s = elim (step c s) [ none ↦ none | some next ↦ scan cs next ]

-- The closing loop: `while (stack.length > 0)`
unfoldable pub close_all : List Bracket → Text → Text
close_all [] out = out
close_all (top ∷ rest) out = close_all rest (out ++ closer top ∷ [])

unfoldable pub finish : Text → Scanner → Option Text
finish raw s =
    let repaired = close_all s.stack s.output in
    if s.in_string then none else if text_eq repaired raw then none else some repaired

unfoldable pub repair_missing_json_closers : Text → Option Text
repair_missing_json_closers raw = elim (scan raw initial) [ none ↦ none | some s ↦ finish raw s ]

-- `{ data, repaired }`, or the parser's own exception
pub record Parsed {ℓ} (J : Type ℓ) : Type ℓ where
  pub data_value : J
  pub repaired : Bool

module _ {ℓ} {J : Type ℓ} (json_parse : Text → Option J) where
  unfoldable pub parse_json_with_repair : Text → Option (Parsed J)
  parse_json_with_repair raw = elim (json_parse raw) [
    | some value ↦ some (record { data_value = value; repaired = false })
    | none ↦ elim (repair_missing_json_closers raw) [
      | none ↦ none
      | some text ↦ elim (json_parse text) [
        | some value ↦ some (record { data_value = value; repaired = true })
        | none ↦ none
      ]
    ]
  ]
