-- ===== src/Domain/Validation.antt =====
-- What the rules share: `DomainValidationResult` of packages/domain/src/energy/conservation.ts, the
-- numbers that they test, and the length tests of packages/protocol/src/unicode.ts. The texts of
-- `errorMessage` are not modelled: a refusal is its `errorCode`.
use emergent_inc.Common.{ℕ, zero, suc, ◌≡◌, refl, Bool, true, false, Text, length, leb, arith}
use emergent_inc.Common.Int.{ℤ, pos, negsuc, leb_ℤ}

-- A number of the language: an integer, or any other (a fraction, an infinity, `NaN`).
pub data Number : Type 0 where
  integer : ℤ → Number
  non_integer : Number

-- `amount <= 0 || !Number.isInteger(amount)`; the second test holds of every `non_integer`.
unfoldable pub is_not_positive_integer : Number → Bool
is_not_positive_integer (integer z) = leb_ℤ z (pos 0)
is_not_positive_integer non_integer = true

pub positive_integer :
    (n : Number) → is_not_positive_integer n ≡ false → (k : ℕ) × (n ≡ integer (pos (suc k)))
unfolding is_not_positive_integer
positive_integer (integer (pos zero)) h = cc
positive_integer (integer (pos (suc k))) h = (k, refl)
positive_integer (integer (negsuc k)) h = absurd (ground arith)
positive_integer non_integer h = cc

pub data ErrorCode : Type 0 where
  sender_inactive invalid_amount self_transfer_disallowed non_neighbor_transfer : ErrorCode
  target_not_found insufficient_energy : ErrorCode
  message_too_long non_neighbor_routing target_inactive : ErrorCode
  parent_inactive invalid_child_energy insufficient_energy_for_reproduction : ErrorCode
  invalid_reproduction_direction target_position_occupied child_mind_too_long : ErrorCode

pub data Validation : Type 0 where
  valid : Validation
  invalid : ErrorCode → Validation

abbrev pub max_pixel_md_code_points : ℕ
max_pixel_md_code_points = 2000

abbrev pub max_message_md_code_points : ℕ
max_message_md_code_points = 2000

-- A text is the list of its code points, so the loop of the source counts its length.
unfoldable pub get_unicode_length : Text → ℕ
get_unicode_length s = length s

unfoldable pub is_valid_pixel_md_length : Text → Bool
unfolding get_unicode_length
is_valid_pixel_md_length content = leb (get_unicode_length content) max_pixel_md_code_points

unfoldable pub is_valid_message_md_length : Text → Bool
unfolding get_unicode_length
is_valid_message_md_length content = leb (get_unicode_length content) max_message_md_code_points
