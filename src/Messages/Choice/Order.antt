-- ===== src/Messages/Choice/Order.antt =====
-- The order of the query in `claimNext`, and its first row.
use emergent_inc.Common.{
  ℕ, ◌≡◌, ◌<◌, ◌≤◌, ◌⊎◌, refl, sym, subst, Bool, true, false, ◌&&◌, ◌||◌, Option, none, some, List,
  [], ◌∷◌, ltb, ◌==◌, if◌then◌else◌, All, Bool-cases, inl, inr, arith,
}
use mathlib.Core.List.{Memᴰ}
use mathlib.Core.List.Memᴰ.{head, tail}
use emergent_inc.Store.{MessageRow, MessageStatus, SourceType, response_stored, system}
use emergent_inc.Messages.Types.{is_response_stored, is_system}
use emergent_inc.Store.Table.{All-impl}
use emergent_inc.Messages.Claim.{rank, precedes, better, first_in_order}

precedes_irrefl : (a : MessageRow) → precedes a a ≡ false
unfolding precedes
precedes_irrefl a = ground arith

precedes-asymm : (a b : MessageRow) → precedes a b ≡ true → precedes b a ≡ false
unfolding precedes
precedes-asymm a b h = ground arith

-- The lexicographic test and what it says when it fails.
abbrev before : ℕ → ℕ → ℕ → ℕ → Bool
before r s c d = ltb r s || (r == s && ltb c d)

not_before : (r s c d : ℕ) → before r s c d ≡ false → (s < r) ⊎ ((r ≡ s) × (d ≤ c))
not_before r s c d h = ground arith

is_not_before : (r s c d : ℕ) → (s < r) ⊎ ((r ≡ s) × (d ≤ c)) → before r s c d ≡ false
is_not_before r s c d h = ground arith

not_before_trans :
    (r s t c d e : ℕ)
    → (s < r) ⊎ ((r ≡ s) × (d ≤ c))
    → (t < s) ⊎ ((s ≡ t) × (e ≤ d))
    → (t < r) ⊎ ((r ≡ t) × (e ≤ c))
not_before_trans r s t c d e h k = ground arith

-- Not preceding is transitive.
follows_trans :
    (a b c : MessageRow) → precedes a b ≡ false → precedes b c ≡ false → precedes a c ≡ false
unfolding precedes
follows_trans a b c h k = is_not_before (rank a) (rank c) a.created_at c.created_at (
    not_before_trans (rank a) (rank b) (rank c) a.created_at b.created_at c.created_at
      (not_before (rank a) (rank b) a.created_at b.created_at h)
      (not_before (rank b) (rank c) b.created_at c.created_at k))

-- The first row in the order of those that meet the condition.
unfoldable pub IsFirst : (MessageRow → Bool) → List MessageRow → Option MessageRow → Type 0
IsFirst p xs none = All (λ x. p x ≡ false) xs
IsFirst p xs (some m) = Memᴰ m xs × (p m ≡ true) × All (λ x. p x ≡ true → precedes x m ≡ false) xs

better_later : (y x : MessageRow) → precedes y x ≡ true → better (some y) x ≡ y
unfolding better
better_later y x h = rw h

better_first : (y x : MessageRow) → precedes y x ≡ false → better (some y) x ≡ x
unfolding better
better_first y x h = rw h

better-none : (x : MessageRow) → better none x ≡ x
unfolding better
better-none x = refl

IsFirst-step :
    (p : MessageRow → Bool) (x : MessageRow) (xs : List MessageRow) (rest : Option MessageRow)
    → IsFirst p xs rest
    → IsFirst p (x ∷ xs) (if p x then some (better rest x) else rest)
unfolding IsFirst
IsFirst-step p x xs none h = elim (Bool-cases (p x)) [
  | inl hit ↦
      rw (hit, better-none x)
        (
          head refl,
          hit,
          ((λ _. precedes_irrefl x), All-impl xs (λ z no yes'. absurd (ground arith)) h),
        )
  | inr miss ↦ rw miss (miss, h)
]
IsFirst-step p x xs (some y) (found, holds, leads) = elim (Bool-cases (p x)) [
  | inl hit ↦ rw hit (elim (Bool-cases (precedes y x)) [
    | inl later ↦
        subst (λ m. IsFirst p (x ∷ xs) (some m)) (sym (better_later y x later))
          (tail found, holds, ((λ _. precedes-asymm y x later), leads))
    | inr first ↦
        subst (λ m. IsFirst p (x ∷ xs) (some m)) (sym (better_first y x first))
          (
            head refl,
            hit,
            (
              (λ _. precedes_irrefl x),
              All-impl xs (λ z before ok'. follows_trans z y x (before ok') first) leads,
            ),
          )
  ])
  | inr miss ↦ rw miss (tail found, holds, ((λ here. absurd (ground arith)), leads))
]

pub first_in_order-IsFirst :
    (p : MessageRow → Bool) (xs : List MessageRow) → IsFirst p xs (first_in_order p xs)
unfolding first_in_order IsFirst
first_in_order-IsFirst p [] = tt
first_in_order-IsFirst p (x ∷ xs) =
    IsFirst-step p x xs (first_in_order p xs) (first_in_order-IsFirst p xs)

-- Stored responses come first, then what the system sends, then the rest.
abbrev pub level : MessageStatus → SourceType → ℕ
level response_stored source = 0
level status system = 1
level status source = 2

-- A row is handed out before another: by its level, or else by its time.
abbrev pub ComesFirst : MessageRow → MessageRow → Type 0
ComesFirst a b =
    (level a.status a.source_type < level b.status b.source_type)
    ⊎ ((level a.status a.source_type ≡ level b.status b.source_type)
        × (a.created_at ≤ b.created_at))

rank-level : (m : MessageRow) → rank m ≡ level m.status m.source_type
unfolding rank
rank-level m = by m.status m.source_type
  where
    by :
        (s : MessageStatus) (t : SourceType)
        → (if is_response_stored s then 0 else if is_system t then 1 else 2) ≡ level s t
    by s t = ground arith

pub precedes-ComesFirst : (a b : MessageRow) → precedes b a ≡ false → ComesFirst a b
unfolding precedes
precedes-ComesFirst a b h = ground (arith, h, rank-level a, rank-level b)
