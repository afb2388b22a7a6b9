-- ===== src/Domain/Birth.antt =====
-- packages/domain/src/qianji/birth.ts: a hexagram, a moving line and the changed hexagram from a
-- decimal seed. `createBirthSeed` only draws random bits and is not modelled.
pub mod Hexagram
pub mod Laws
use Prim.Native.Nat.{bit_xor}
use emergent_inc.Common.{
  ℕ, zero, suc, ◌+◌, ◌-◌, ◌*◌, ◌/◌, ◌%◌, ◌^◌, Bool, true, ◌&&◌, List, [], ◌∷◌, ◌++◌, Text, codes,
  Result, ok, err, if◌then◌else◌, get_elem?,
}
use emergent_inc.Grid.Number.{is_digit, print_nat}
use Hexagram.{hexagram, tension}

pub record DerivedBirth : Type 0 where
  pub birth_seed : Text
  pub birth_algorithm_version : ℕ
  pub primary_hexagram : Text
  pub moving_line : ℕ
  pub changed_hexagram : Text
  pub birth_text : Text
  pub primary_bits : ℕ
  pub changed_bits : ℕ

pub data BirthError : Type 0 where
  birth_seed_invalid : BirthError

-- `\d*`
all_digits : Text → Bool
all_digits [] = true
all_digits (c ∷ cs) = is_digit c && all_digits cs

-- `/^\d+$/.test(s)`
unfoldable pub is_seed_text : Text → Bool
unfolding all_digits
is_seed_text [] = Bool.false
is_seed_text (c ∷ cs) = all_digits (c ∷ cs)

value_from : ℕ → Text → ℕ
value_from n [] = n
value_from n (c ∷ cs) = value_from (n * 10 + (c - b'0')) cs

-- `BigInt(s)` of decimal digits
unfoldable pub big_int : Text → ℕ
unfolding value_from
big_int s = value_from 0 s

-- `seed & 63n` and `(seed >> 6n) % 6n + 1`
unfoldable pub primary_bits_of : ℕ → ℕ
primary_bits_of seed = seed % 64

unfoldable pub moving_line_of : ℕ → ℕ
moving_line_of seed = (seed / 64) % 6 + 1

-- `bits ^ (1 << (line - 1))`
unfoldable pub changed_bits_of : ℕ → ℕ → ℕ
changed_bits_of bits line = bit_xor bits (2 ^ (line - 1))

birth_text_of : Text → Text → ℕ → ℕ → Text
birth_text_of primary changed line bits =
    codes "从"
    ++ (primary
        ++ (codes "走向"
            ++ (changed
                ++ (codes "，转折落在第"
                    ++ (print_nat line
                        ++ (codes "爻。面对尚未定形的事情，或会"
                            ++ (tension ((bits / 8) % 8)
                                ++ codes "；另一种选择也始终存在。究竟如何取舍，仍要由之后的相遇、行动和结果慢慢写成。")))))))

unfoldable pub derive_birth_identity : Text → Result BirthError DerivedBirth
unfolding birth_text_of
derive_birth_identity seed_text =
    let seed = big_int seed_text in
    let bits = primary_bits_of seed in
    let line = moving_line_of seed in
    let changed = changed_bits_of bits line in
    if is_seed_text seed_text
    then ok (record {
      birth_seed = seed_text;
      birth_algorithm_version = 1;
      primary_hexagram = hexagram bits;
      moving_line = line;
      changed_hexagram = hexagram changed;
      birth_text = birth_text_of (hexagram bits) (hexagram changed) line bits;
      primary_bits = bits;
      changed_bits = changed;
    })
    else err birth_seed_invalid
