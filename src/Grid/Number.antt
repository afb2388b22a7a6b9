-- ===== src/Grid/Number.antt =====
-- The parts of JavaScript's numbers and strings that packages/domain/src/topology/grid.ts uses:
-- `parseInt(s, 10)`, `${n}`, `trim`, `toUpperCase` and `split`. Integers are exact, as the
-- language's are up to 2 ** 53.
use emergent_inc.Common.{
  ℕ, zero, suc, ◌+◌, ◌-◌, ◌*◌, ◌/◌, ◌%◌, Bool, ◌&&◌, ◌||◌, Option, none, some, List, [], ◌∷◌, ◌++◌,
  Text, ltb, leb, ◌==◌, if◌then◌else◌,
}
use emergent_inc.Common.Int.{ℤ, pos, negsuc}

-- WhiteSpace and LineTerminator of the language.
unfoldable pub is_space : ℕ → Bool
is_space c =
    (leb 9 c && leb c 13)
    || c == 32
    || c == 0xa0
    || c == 0x1680
    || (leb 0x2000 c && leb c 0x200a)
    || c == 0x2028
    || c == 0x2029
    || c == 0x202f
    || c == 0x205f
    || c == 0x3000
    || c == 0xfeff

unfoldable pub trim_start : Text → Text
unfolding is_space
trim_start [] = []
trim_start (c ∷ cs) = if is_space c then trim_start cs else c ∷ cs

-- White space at the end: a code point stays if anything stays behind it.
unfoldable pub cons_unless_trailing : ℕ → Text → Text
unfolding is_space
cons_unless_trailing c [] = if is_space c then [] else c ∷ []
cons_unless_trailing c (d ∷ ds) = c ∷ d ∷ ds

unfoldable pub trim_end : Text → Text
unfolding cons_unless_trailing
trim_end [] = []
trim_end (c ∷ cs) = cons_unless_trailing c (trim_end cs)

unfoldable pub trim : Text → Text
unfolding trim_start trim_end
trim s = trim_end (trim_start s)

-- Upper case, exact for every code point whose upper case is ASCII; the other code points are
-- left, so a comparison with an ASCII word has the result that it has in the source.
unfoldable pub upper_of : ℕ → Text
upper_of c =
    if leb b'a' c && leb c b'z'
    then (c - 32) ∷ []
    else if c == 0x131
    then b'I' ∷ []
    else if c == 0x17f
    then b'S' ∷ []
    else if c == 0xdf
    then b'S' ∷ b'S' ∷ []
    else if c == 0xfb00
    then b'F' ∷ b'F' ∷ []
    else if c == 0xfb01
    then b'F' ∷ b'I' ∷ []
    else if c == 0xfb02
    then b'F' ∷ b'L' ∷ []
    else if c == 0xfb03
    then b'F' ∷ b'F' ∷ b'I' ∷ []
    else if c == 0xfb04
    then b'F' ∷ b'F' ∷ b'L' ∷ []
    else if c == 0xfb05 || c == 0xfb06
    then b'S' ∷ b'T' ∷ []
    else c ∷ []

unfoldable pub to_upper : Text → Text
unfolding upper_of
to_upper [] = []
to_upper (c ∷ cs) = upper_of c ++ to_upper cs

abbrev pub cons_head : ℕ → List Text → List Text
cons_head c [] = (c ∷ []) ∷ []
cons_head c (p ∷ ps) = (c ∷ p) ∷ ps

-- `s.split(sep)` for a separator of one code point.
unfoldable pub split : ℕ → Text → List Text
split sep [] = [] ∷ []
split sep (c ∷ cs) = let rest = split sep cs in if c == sep then [] ∷ rest else cons_head c rest

abbrev pub is_digit : ℕ → Bool
is_digit c = leb b'0' c && leb c b'9'

abbrev pub or_zero : Option ℕ → ℕ
or_zero none = 0
or_zero (some n) = n

-- The longest prefix of digits; `none` is `NaN`.
unfoldable pub parse_digits : Option ℕ → Text → Option ℕ
parse_digits acc [] = acc
parse_digits acc (c ∷ cs) =
    let rest = parse_digits (some (or_zero acc * 10 + (c - b'0'))) cs in
    if is_digit c then rest else acc

abbrev pub negate : ℕ → ℤ
negate zero = pos 0
negate (suc n) = negsuc n

abbrev pub to_pos : Option ℕ → Option ℤ
to_pos none = none
to_pos (some n) = some (pos n)

abbrev pub to_neg : Option ℕ → Option ℤ
to_neg none = none
to_neg (some n) = some (negate n)

unfoldable pub parse_signed : Text → Option ℤ
unfolding parse_digits
parse_signed [] = none
parse_signed (c ∷ cs) =
    if c == b'-'
    then to_neg (parse_digits none cs)
    else if c == b'+'
    then to_pos (parse_digits none cs)
    else to_pos (parse_digits none (c ∷ cs))

-- `parseInt(s, 10)`
unfoldable pub parse_int : Text → Option ℤ
unfolding trim_start parse_signed
parse_int s = parse_signed (trim_start s)

-- The decimal digits of `n` before `out`; each round divides by ten, so `n + 1` rounds are enough.
unfoldable pub emit_digits : ℕ → ℕ → Text → Text
emit_digits zero n out = out
emit_digits (suc fuel) n out =
    let longer = emit_digits fuel (n / 10) ((b'0' + n % 10) ∷ out) in
    if ltb n 10 then (b'0' + n) ∷ out else longer

unfoldable pub print_nat : ℕ → Text
unfolding emit_digits
print_nat n = emit_digits (suc n) n []

-- `${n}` of an integer
unfoldable pub print_int : ℤ → Text
unfolding print_nat
print_int (pos n) = print_nat n
print_int (negsuc n) = b'-' ∷ print_nat (suc n)
