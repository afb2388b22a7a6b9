-- ===== src/Grid/RoundTrip.antt =====
-- Printing and reading the ids of packages/domain/src/topology/grid.ts.
use emergent_inc.Common.{
  ℕ, zero, suc, ◌+◌, ◌/◌, ◌%◌, ◌<◌, ◌≡◌, refl, ap, ◌∙◌, true, false, none, some, [], ◌∷◌, ◌++◌,
  Text, ltb, ◌==◌, All, Bool-cases, inl, inr, arith, ok,
}
use emergent_inc.Common.Int.{ℤ, pos, negsuc}
use emergent_inc.Grid.Number.{
  is_space, split, is_digit, parse_digits, negate, to_pos, parse_int, emit_digits, print_nat,
  print_int,
}
use emergent_inc.Grid.{Coord3D, coord_to_id, id_to_coord}

-- Reading the digits of `n` and then `out` is reading `out` from `n`.
parse_digits-emit_digits :
    (fuel n : ℕ) (out : Text)
    → n < fuel
    → parse_digits none (emit_digits fuel n out) ≡ parse_digits (some n) out
unfolding emit_digits parse_digits
parse_digits-emit_digits zero n out h = elim h [ ]
parse_digits-emit_digits (suc fuel) n out h = elim (Bool-cases (ltb n 10)) [
  | inl small ↦ rw small (ground arith)
  | inr large ↦ rw large (
      rw (parse_digits-emit_digits fuel (n / 10) ((b'0' + n % 10) ∷ out) (ground arith))
        (ground arith))
]

-- A digit comes first.
abbrev StartsWithDigit : Text → Type 0
StartsWithDigit s = (d : ℕ) × (ds : Text) × (s ≡ d ∷ ds) × (is_digit d ≡ true)

emit_digits-StartsWithDigit :
    (fuel n : ℕ) (out : Text) → n < fuel → StartsWithDigit (emit_digits fuel n out)
unfolding emit_digits
emit_digits-StartsWithDigit zero n out h = elim h [ ]
emit_digits-StartsWithDigit (suc fuel) n out h = elim (Bool-cases (ltb n 10)) [
  | inl small ↦ rw small (b'0' + n, out, refl, ground arith)
  | inr large ↦
      rw large (emit_digits-StartsWithDigit fuel (n / 10) ((b'0' + n % 10) ∷ out) (ground arith))
]

abbrev pub NoSeparator : Text → Type 0
NoSeparator = All (λ c. (c == b'_') ≡ false)

emit_digits-NoSeparator :
    (fuel n : ℕ) (out : Text) → NoSeparator out → NoSeparator (emit_digits fuel n out)
unfolding emit_digits
emit_digits-NoSeparator zero n out h = h
emit_digits-NoSeparator (suc fuel) n out h = elim (Bool-cases (ltb n 10)) [
  | inl small ↦ rw small (ground arith, h)
  | inr large ↦
      rw large (emit_digits-NoSeparator fuel (n / 10) ((b'0' + n % 10) ∷ out) (ground arith, h))
]

pub print_nat-NoSeparator : (n : ℕ) → NoSeparator (print_nat n)
unfolding print_nat
print_nat-NoSeparator n = emit_digits-NoSeparator (suc n) n [] tt

print_int-NoSeparator : (z : ℤ) → NoSeparator (print_int z)
unfolding print_int
print_int-NoSeparator (pos n) = emit_digits-NoSeparator (suc n) n [] tt
print_int-NoSeparator (negsuc n) = (refl, emit_digits-NoSeparator (suc (suc n)) (suc n) [] tt)

digit_not_space : (d : ℕ) → is_digit d ≡ true → is_space d ≡ false
unfolding is_space
digit_not_space d h = grind arith

parse_signed_digit :
    (d : ℕ) (ds : Text)
    → is_digit d ≡ true
    → parse_int (d ∷ ds) ≡ to_pos (parse_digits none (d ∷ ds))
unfolding parse_int
parse_signed_digit d ds h = rw (digit_not_space d h) (ground arith)

parse_int-digits :
    (s : Text) (n : ℕ)
    → StartsWithDigit s
    → parse_digits none s ≡ some n
    → parse_int s ≡ some (pos n)
parse_int-digits s n (d, ds, e, h) p = rw e (parse_signed_digit d ds h ∙ ap to_pos (rw e at p))

-- Behind the sign, digits are read as a negative number.
parse_int-minus :
    (s : Text) (n : ℕ) → parse_digits none s ≡ some n → parse_int (b'-' ∷ s) ≡ some (negate n)
unfolding parse_int is_space
parse_int-minus s n p = rw p

pub parse_digits-print_nat : (n : ℕ) → parse_digits none (print_nat n) ≡ some n
unfolding print_nat parse_digits
parse_digits-print_nat n = parse_digits-emit_digits (suc n) n [] (omega arith)

pub parse_int-print_int : (z : ℤ) → parse_int (print_int z) ≡ some z
unfolding print_int
parse_int-print_int (pos n) =
    parse_int-digits (print_nat n) n
      (unfold print_nat in emit_digits-StartsWithDigit (suc n) n [] (omega arith))
      (parse_digits-print_nat n)
parse_int-print_int (negsuc n) =
    parse_int-minus (print_nat (suc n)) (suc n) (parse_digits-print_nat (suc n))

pub split-append :
    (a rest : Text) → NoSeparator a → split b'_' (a ++ (b'_' ∷ rest)) ≡ a ∷ split b'_' rest
unfolding split
split-append [] rest h = refl
split-append (c ∷ cs) rest h = rw (h.0, split-append cs rest h.1)

split-NoSeparator : (a : Text) → NoSeparator a → split b'_' a ≡ a ∷ []
unfolding split
split-NoSeparator [] h = refl
split-NoSeparator (c ∷ cs) h = rw (h.0, split-NoSeparator cs h.1)

-- The three numbers of an id stand between its two separators.
split-coord_to_id :
    (p : Coord3D) → split b'_' (coord_to_id p) ≡ print_int p.0 ∷ print_int p.1 ∷ print_int p.2 ∷ []
unfolding coord_to_id
split-coord_to_id (x, y, z) =
    rw (split-append (print_int x) (print_int y ++ (b'_' ∷ print_int z)) (print_int-NoSeparator x))
      (rw (split-append (print_int y) (print_int z) (print_int-NoSeparator y))
        (rw (split-NoSeparator (print_int z) (print_int-NoSeparator z))))

-- The id of every position, negative coordinates included, is read back as that position.
pub id_to_coord-coord_to_id : (p : Coord3D) → id_to_coord (coord_to_id p) ≡ ok p
unfolding id_to_coord
id_to_coord-coord_to_id (x, y, z) =
    rw (split-coord_to_id (x, y, z))
      (rw (parse_int-print_int x) (rw (parse_int-print_int y) (rw (parse_int-print_int z))))
