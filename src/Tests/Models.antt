-- ===== src/Tests/Models.antt =====
-- The repair of JSON texts at concrete inputs.
use emergent_inc.Common.{
  ℕ, ◌≡◌, ◌≤◌, ◌*◌, refl, true, Option, none, some, [], ◌∷◌, ◌++◌, Text, text_eq, length,
  if◌then◌else◌,
}
use emergent_inc.Model.JsonRepair.{
  close_above, close_all, finish, has_open, parse_json_with_repair, pop_through,
  repair_missing_json_closers, scan, step, step_close, step_outside, step_string,
}
use emergent_inc.Model.JsonRepair.Reader.{IsBalanced}
use emergent_inc.Model.JsonRepair.Insertion.{ClosersAdded, repair_bound}
use emergent_inc.Model.JsonRepair.Laws.{
  repair_missing_json_closers-IsBalanced, IsParsed, parse_json_with_repair-IsParsed,
}

-- {"a":[1,"]"  with both brackets left open
abbrev cut_off : Text
cut_off = b'{' ∷ b'"' ∷ b'a' ∷ b'"' ∷ b':' ∷ b'[' ∷ b'1' ∷ b'"' ∷ b']' ∷ b'"' ∷ []

abbrev completed : Text
completed = cut_off ++ b']' ∷ b'}' ∷ []

cut_off_repaired : repair_missing_json_closers cut_off ≡ some completed
unfolding repair_missing_json_closers scan step step_outside step_string finish text_eq close_all
cut_off_repaired = refl

-- [{]  has the inner brace closed before the bracket.
crossed_repaired :
    repair_missing_json_closers (b'[' ∷ b'{' ∷ b']' ∷ []) ≡ some (b'[' ∷ b'{' ∷ b'}' ∷ b']' ∷ [])
unfolding repair_missing_json_closers scan step step_outside step_close has_open finish text_eq
    close_all pop_through close_above
crossed_repaired = refl

extra_closer_refused : repair_missing_json_closers (b'}' ∷ []) ≡ none
unfolding repair_missing_json_closers scan step step_outside step_close has_open
extra_closer_refused = refl

open_string_refused : repair_missing_json_closers (b'{' ∷ b'"' ∷ []) ≡ none
unfolding repair_missing_json_closers scan step step_outside finish
open_string_refused = refl

repair_missing_json_closers-IsBalanced_example :
    IsBalanced completed × ClosersAdded cut_off completed × ¬ (IsBalanced cut_off)
repair_missing_json_closers-IsBalanced_example =
    repair_missing_json_closers-IsBalanced cut_off completed cut_off_repaired

repair_bound_example : length completed ≤ 2 * length cut_off
repair_bound_example = repair_bound cut_off completed cut_off_repaired

-- A parser that knows one text.
abbrev one_text : Text → Option ℕ
one_text text = if text_eq text completed then some 7 else none

parsed_after_repair :
    parse_json_with_repair one_text cut_off ≡ some (record { data_value = 7; repaired = true })
unfolding parse_json_with_repair repair_missing_json_closers text_eq scan step step_outside
    step_string finish close_all
parsed_after_repair = refl

parse_json_with_repair-IsParsed_example :
    IsParsed one_text cut_off (record { data_value = 7; repaired = true })
parse_json_with_repair-IsParsed_example =
    parse_json_with_repair-IsParsed one_text cut_off _ parsed_after_repair
