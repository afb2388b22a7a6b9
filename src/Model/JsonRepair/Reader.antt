-- ===== src/Model/JsonRepair/Reader.antt =====
-- A reference for the brackets of a JSON text, apart from the code: a reader that goes through
-- the text once and accepts it when every closing bracket matches the innermost open one, and
-- nothing is open at the end.
use emergent_inc.Common.{
  ℕ, ◌≡◌, Option, none, some, List, [], ◌∷◌, ◌++◌, Text, ◌==◌, if◌then◌else◌, Option-cases, inl,
  inr, arith,
}
use emergent_inc.Model.JsonRepair.{Bracket, bracket_eq, opened_by, closed_by}

pub data Place : Type 0 where
  outside inside after_backslash : Place

pub record Reader : Type 0 where
  pub place : Place
  pub open_brackets : List Bracket

abbrev pub reader : Place → List Bracket → Reader
reader place open_brackets = record { place = place; open_brackets = open_brackets }

-- A closing bracket needs its opening one on top.
abbrev pub read_closer : Bracket → List Bracket → Option Reader
read_closer b [] = none
read_closer b (top ∷ rest) = if bracket_eq top b then some (reader outside rest) else none

unfoldable pub read_outside : ℕ → List Bracket → Option Reader
read_outside c bs = if c == b'"' then some (reader inside bs) else elim (opened_by c) [
  | some b ↦ some (reader outside (b ∷ bs))
  | none ↦ elim (closed_by c) [ some b ↦ read_closer b bs | none ↦ some (reader outside bs) ]
]

unfoldable pub read_at : Place → ℕ → List Bracket → Option Reader
read_at outside c bs = read_outside c bs
read_at inside c bs =
    some (reader (if c == b'\\' then after_backslash else if c == b'"' then outside else inside) bs)
read_at after_backslash c bs = some (reader inside bs)

unfoldable pub read_all : Text → Reader → Option Reader
read_all [] r = some r
read_all (c ∷ cs) r = elim (read_at r.place c r.open_brackets) [
  | none ↦ none
  | some next ↦ read_all cs next
]

-- Every bracket and every string of the text is closed, and in the right order.
abbrev pub IsBalanced : Text → Type 0
IsBalanced text = read_all text (reader outside []) ≡ some (reader outside [])

-- Reading a text, and then one more character.
pub read_all-snoc :
    (xs : Text) (c : ℕ) (r middle : Reader)
    → read_all xs r ≡ some middle
    → read_all (xs ++ c ∷ []) r ≡ read_at middle.place c middle.open_brackets
unfolding read_all
read_all-snoc [] c r middle e = ground arith
read_all-snoc (x ∷ xs) c r middle e = elim (Option-cases (read_at r.place x r.open_brackets)) [
  | inl stuck ↦ absurd (ground (arith, rw (stuck, read_all) at e))
  | inr (next, step) ↦
      rw (step, read_all) (read_all-snoc xs c next middle (rw (step, read_all) at e))
]
