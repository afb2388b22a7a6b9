-- ===== src/Store/Keys.antt =====
-- Comparing nullable columns, and JavaScript's truth of an optional text.
use emergent_inc.Common.{
  ℕ, ◌≡◌, ◌↔◌, refl, ap, Bool, true, false, Option, none, some, [], ◌∷◌, Text, text_eq, text_eq_iff,
  ◌==◌, arith,
}

-- `(a ?? null) === (b ?? null)`, and SQL's `a IS b`
unfoldable pub optional_text_eq : Option Text → Option Text → Bool
optional_text_eq none none = true
optional_text_eq none (some b) = false
optional_text_eq (some a) none = false
optional_text_eq (some a) (some b) = text_eq a b

unfoldable pub optional_nat_eq : Option ℕ → Option ℕ → Bool
optional_nat_eq none none = true
optional_nat_eq none (some b) = false
optional_nat_eq (some a) none = false
optional_nat_eq (some a) (some b) = a == b

-- `if (a)`: null, undefined and the empty text count as false.
unfoldable pub truthy : Option Text → Option Text
truthy none = none
truthy (some []) = none
truthy (some (c ∷ cs)) = some (c ∷ cs)

-- SQL's `column = id` on a nullable column.
unfoldable pub is_id : Option Text → Text → Bool
is_id none id = false
is_id (some a) id = text_eq a id

pub optional_text_eq_iff : (a b : Option Text) → (optional_text_eq a b ≡ true) ↔ (a ≡ b)
unfolding optional_text_eq
optional_text_eq_iff none none = (λ _. refl, λ _. refl)
optional_text_eq_iff none (some b) = ground arith
optional_text_eq_iff (some a) none = ground arith
optional_text_eq_iff (some a) (some b) = ground (arith, text_eq_iff a b)

pub is_id-some : (o : Option Text) (id : Text) → is_id o id ≡ true → o ≡ some id
unfolding is_id
is_id-some none id h = absurd (ground (arith, h))
is_id-some (some a) id h = ap some ((text_eq_iff a id).0 h)

pub truthy-truthy : (o : Option Text) → truthy (truthy o) ≡ truthy o
unfolding truthy
truthy-truthy none = refl
truthy-truthy (some []) = refl
truthy-truthy (some (c ∷ cs)) = refl
