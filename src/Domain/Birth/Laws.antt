-- ===== src/Domain/Birth/Laws.antt =====
-- The two hexagrams of a birth.
use emergent_inc.Common.{
  ℕ, ◌+◌, ◌-◌, ◌*◌, ◌^◌, ◌/◌, ◌%◌, ◌≤◌, ◌<◌, ◌≡◌, ◌≢◌, refl, sym, ap, ◌∙◌, Bool, true, false, not,
  ◌&&◌, Option, none, some, List, [], ◌∷◌, Text, codes, ◌==◌, ==_iff, ltb, ok, arith, text_eq,
  String, if◌then◌else◌, Bool-cases, inl, inr,
}
use emergent_inc.Common.Finite.{holds_below, holds_below-at}
use emergent_inc.Domain.Birth.{
  DerivedBirth, big_int, primary_bits_of, moving_line_of, changed_bits_of, derive_birth_identity,
}
use emergent_inc.Domain.Birth.Hexagram.{trigram, name_of, hexagram, trigrams}

-- The number that three lines stand for, read off a trigram's sign.
index_of : ℕ → ℕ → List String → ℕ
index_of c i [] = 8
index_of c i (t ∷ ts) =
    let rest = index_of c (i + 1) ts in if text_eq (c ∷ []) (codes t) then i else rest

lines_of : Text → ℕ
unfolding index_of
lines_of (upper ∷ lower ∷ name) = index_of upper 0 trigrams * 8 + index_of lower 0 trigrams
lines_of _ = 64

is_some : Option Text → Bool
is_some none = false
is_some (some _) = true

has_lines : ℕ → Bool
unfolding lines_of
has_lines bits = lines_of (hexagram bits) == bits

has_lines_table : holds_below 64 has_lines ≡ true
unfolding holds_below has_lines hexagram text_eq
has_lines_table = refl

has_name : ℕ → Bool
unfolding is_some
has_name bits = is_some (name_of (trigram (bits / 8)) (trigram (bits % 8)))

has_name_table : holds_below 64 has_name ≡ true
unfolding holds_below has_name hexagram
has_name_table = refl

hexagram_lines : (bits : ℕ) → bits < 64 → lines_of (hexagram bits) ≡ bits
unfolding has_lines
hexagram_lines bits h = (==_iff _ bits).0 (holds_below-at 64 has_lines bits has_lines_table h)

name_exists :
    (bits : ℕ)
    → has_name bits ≡ true
    → (s : Text) × (name_of (trigram (bits / 8)) (trigram (bits % 8)) ≡ some s)
unfolding has_name
name_exists bits h = ground arith

-- Two different sets of six lines have different hexagram texts, and each of the 64 sets has a
-- name in the table.
pub hexagram_faithful :
    (a b : ℕ)
    → a < 64
    → b < 64
    → hexagram a ≡ hexagram b
    → (a ≡ b) × ((s : Text) × (name_of (trigram (a / 8)) (trigram (a % 8)) ≡ some s))
hexagram_faithful a b ha hb e = (
  sym (hexagram_lines a ha) ∙ ap lines_of e ∙ hexagram_lines b hb,
  name_exists a (holds_below-at 64 has_name a has_name_table ha),
)

-- Whether a line is whole, counted from 0 at the bottom
abbrev pub line_at : ℕ → ℕ → ℕ
line_at bits k = (bits / 2 ^ k) % 2

-- Line k of the two sets of lines, where line m + 1 is the one that moves
moves : ℕ → ℕ → ℕ → Bool
moves bits m k =
    line_at (changed_bits_of bits (m + 1)) k
    == (if k == m then 1 - line_at bits k else line_at bits k)

moves_table : holds_below 64 (λ bits. holds_below 6 (λ m. holds_below 6 (moves bits m))) ≡ true
unfolding holds_below moves changed_bits_of
moves_table = refl

moves_at : (bits m k : ℕ) → bits < 64 → m < 6 → k < 6 → moves bits m k ≡ true
moves_at bits m k hb hm hk =
    holds_below-at 6 (moves bits m) k
      (holds_below-at 6 (λ m. holds_below 6 (moves bits m)) m
        (holds_below-at 64 (λ b. holds_below 6 (λ m. holds_below 6 (moves b m))) bits moves_table
          hb)
        hm)
      hk

moved_line :
    (bits m k : ℕ)
    → bits < 64
    → m < 6
    → k < 6
    → line_at (changed_bits_of bits (m + 1)) k
      ≡ (if k + 1 == m + 1 then 1 - line_at bits k else line_at bits k)
unfolding moves
moved_line bits m k hb hm hk =
    let at = (==_iff _ _).0 (moves_at bits m k hb hm hk) in
    elim (Bool-cases (k == m)) [
      | inl same ↦ ground (arith, same, at)
      | inr other ↦ ground (arith, other, at)
    ]

flips : ℕ → ℕ → Bool
flips bits k =
    let changed = changed_bits_of bits (k + 1) in
    ltb changed 64 && not (changed == bits) && (changed_bits_of changed (k + 1) == bits)

flips_table : holds_below 64 (λ bits. holds_below 6 (flips bits)) ≡ true
unfolding holds_below flips changed_bits_of
flips_table = refl

flips_at : (bits k : ℕ) → bits < 64 → k < 6 → flips bits k ≡ true
flips_at bits k hb hk =
    holds_below-at 6 (flips bits) k
      (holds_below-at 64 (λ b. holds_below 6 (flips b)) bits flips_table hb) hk

pub record IsBirth (d : DerivedBirth) : Type 0 where
  pub primary_range : d.primary_bits < 64
  pub changed_range : d.changed_bits < 64
  pub line_range : (1 ≤ d.moving_line) × (d.moving_line ≤ 6)
  pub from_seed : d.primary_bits ≡ big_int d.birth_seed % 64
  pub line_from_seed : d.moving_line ≡ (big_int d.birth_seed / 64) % 6 + 1
  pub line_moved :
      (k : ℕ)
      → k < 6
      → line_at d.changed_bits k ≡ (
          if k + 1 == d.moving_line then 1 - line_at d.primary_bits k else line_at d.primary_bits k)
  pub primary_text : d.primary_hexagram ≡ hexagram d.primary_bits
  pub changed_text : d.changed_hexagram ≡ hexagram d.changed_bits
  pub texts_differ : d.primary_hexagram ≢ d.changed_hexagram

flipped_facts :
    (bits k : ℕ)
    → flips bits k ≡ true
    → (changed_bits_of bits (k + 1) < 64)
      × (changed_bits_of bits (k + 1) ≢ bits)
      × (changed_bits_of (changed_bits_of bits (k + 1)) (k + 1) ≡ bits)
unfolding flips
flipped_facts bits k h = ground arith

derived :
    (seed_text : Text) (d : DerivedBirth)
    → derive_birth_identity seed_text ≡ ok d
    → let seed = big_int seed_text in
      let bits = primary_bits_of seed in
      let line = moving_line_of seed in
      (d.primary_bits ≡ bits)
      × (d.moving_line ≡ line)
      × (d.changed_bits ≡ changed_bits_of bits line)
      × (d.birth_seed ≡ seed_text)
      × (d.primary_hexagram ≡ hexagram bits)
      × (d.changed_hexagram ≡ hexagram (changed_bits_of bits line))
unfolding derive_birth_identity
derived seed_text d h = ground arith

-- Of every seed that is accepted: the six lines of the primary hexagram are the seed's last six bits,
-- the moving line is one of the six, the one that the rest of the seed gives modulo 6, the changed
-- hexagram has the moving line inverted and the five others as they were, the two texts are those of
-- the two sets of lines, both in the table's range, and they differ.
pub derive_birth_identity-IsBirth :
    (seed_text : Text) (d : DerivedBirth) → derive_birth_identity seed_text ≡ ok d → IsBirth d
unfolding primary_bits_of moving_line_of
derive_birth_identity-IsBirth seed_text d h =
    let seed = big_int seed_text in
    let bits = primary_bits_of seed in
    let k = (seed / 64) % 6 in
    let (bits_is, line_is, changed_is, seed_is, primary_is, text_is) = derived seed_text d h in
    let (range, differ, back) =
      flipped_facts bits k (flips_at bits k (omega arith) (omega arith)) in
    record {
      primary_range = omega arith;
      changed_range = rw changed_is range;
      line_range = omega arith;
      from_seed = rw (seed_is, bits_is);
      line_from_seed = rw (seed_is, line_is);
      line_moved = λ j below.
          rw (changed_is, line_is, bits_is) (moved_line bits k j (omega arith) (omega arith) below);
      primary_text = rw (primary_is, bits_is);
      changed_text = rw (text_is, changed_is);
      texts_differ = λ same. differ (
          sym
            (hexagram_faithful bits (changed_bits_of bits (k + 1)) (omega arith) range
              (rw (primary_is, text_is) at same)).0);
    }
