-- ===== src/Store/Table.antt =====
-- SQL statements on a table: `SELECT … LIMIT 1`, `UPDATE … WHERE`, `SELECT SUM`, `SELECT COUNT`.
use emergent_inc.Common.{
  ℕ, ◌+◌, ◌≡◌, refl, sym, ◌++◌, Bool, true, false, Option, none, some, List, [], ◌∷◌, if◌then◌else◌,
  All, arith, Bool-cases, inl, inr, subst, some-injective,
}
use mathlib.Core.List.{Memᴰ}
use mathlib.Core.List.Memᴰ.{head, tail}

module _ {ℓ} {A : Type ℓ} where
  -- The first row that meets the condition.
  unfoldable pub select_first : (A → Bool) → List A → Option A
  select_first p [] = none
  select_first p (x ∷ xs) = if p x then some x else select_first p xs

  unfoldable pub exists_where : (A → Bool) → List A → Bool
  exists_where p [] = false
  exists_where p (x ∷ xs) = if p x then true else exists_where p xs

  unfoldable pub update_where : (A → Bool) → (A → A) → List A → List A
  update_where p f [] = []
  update_where p f (x ∷ xs) = (if p x then f x else x) ∷ update_where p f xs

  unfoldable pub sum_where : (A → Bool) → (A → ℕ) → List A → ℕ
  sum_where p f [] = 0
  sum_where p f (x ∷ xs) = (if p x then f x else 0) + sum_where p f xs

  unfoldable pub count_where : (A → Bool) → List A → ℕ
  count_where p [] = 0
  count_where p (x ∷ xs) = (if p x then 1 else 0) + count_where p xs

-- An update that keeps what is said of each row.
pub All-update_where {ℓ κ μ} :
    {A : Type ℓ} {P : A → Type κ} {Q : A → Type μ} (test : A → Bool) (f : A → A) (xs : List A)
    → ((x : A) → P x → test x ≡ true → Q (f x))
    → ((x : A) → P x → test x ≡ false → Q x)
    → All P xs
    → All Q (update_where test f xs)
unfolding update_where
All-update_where test f [] hit miss h = tt
All-update_where {Q} test f (x ∷ xs) hit miss h =
    (step (test x) refl, All-update_where test f xs hit miss h.1)
  where
    step : (b : Bool) → test x ≡ b → Q (if b then f x else x)
    step true e = hit x h.0 e
    step false e = miss x h.0 e

pub All-impl {ℓ κ μ} :
    {A : Type ℓ} {P : A → Type κ} {Q : A → Type μ} (xs : List A)
    → ((x : A) → P x → Q x)
    → All P xs
    → All Q xs
All-impl [] f h = tt
All-impl (x ∷ xs) f h = (f x h.0, All-impl xs f h.1)

-- The row that a select finds meets its condition.
pub select_first-meets {ℓ} :
    {A : Type ℓ} (p : A → Bool) (xs : List A) (x : A) → select_first p xs ≡ some x → p x ≡ true
unfolding select_first
select_first-meets p [] x h = ground arith
select_first-meets p (y ∷ ys) x h = elim (Bool-cases (p y)) [
  | inl hit ↦ subst (λ z. p z ≡ true) (some-injective y x (rw hit at h)) hit
  | inr miss ↦ select_first-meets p ys x (rw miss at h)
]

-- The row that a select finds is one of the table.
pub select_first-Memᴰ {ℓ} :
    {A : Type ℓ} (p : A → Bool) (xs : List A) (x : A) → select_first p xs ≡ some x → Memᴰ x xs
unfolding select_first
select_first-Memᴰ p [] x h = absurd (ground (arith, h))
select_first-Memᴰ p (y ∷ ys) x h = elim (Bool-cases (p y)) [
  | inl hit ↦ head (sym (some-injective y x (rw (hit, select_first) at h)))
  | inr miss ↦ tail (select_first-Memᴰ p ys x (rw (miss, select_first) at h))
]

-- A row that meets the condition is enough for a select to find one.
pub Memᴰ-select_first {ℓ} :
    {A : Type ℓ} (p : A → Bool) (xs : List A) (x : A)
    → Memᴰ x xs
    → p x ≡ true
    → (y : A) × (select_first p xs ≡ some y)
unfolding select_first
Memᴰ-select_first p [] x h hit = elim h [ ]
Memᴰ-select_first p (y ∷ ys) x (head e) hit = (y, rw (sym e, hit) refl)
Memᴰ-select_first p (y ∷ ys) x (tail h) hit = elim (Bool-cases (p y)) [
  | inl first ↦ (y, rw first refl)
  | inr miss ↦ let (z, found) = Memᴰ-select_first p ys x h hit in (z, rw (miss, found) refl)
]

pub Memᴰ-last {ℓ} : {A : Type ℓ} (xs : List A) (x : A) → Memᴰ x (xs ++ x ∷ [])
Memᴰ-last [] x = head refl
Memᴰ-last (y ∷ ys) x = tail (Memᴰ-last ys x)
