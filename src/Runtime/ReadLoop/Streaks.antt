-- ===== src/Runtime/ReadLoop/Streaks.antt =====
-- The streaks against the history of the steps.
use emergent_inc.Common.{
  ℕ, ◌+◌, ◌%◌, ◌≡◌, ◌<◌, ◌∙◌, ◌↔◌, inl, inr, refl, sym, ap, subst, arith, Bool, true, false, not,
  ◌&&◌, Option, none, some, List, [], ◌∷◌, Text, text_eq, text_eq_iff, text_eq_refl, leb, leb→le,
  ◌≤◌, if◌then◌else◌, Bool-cases,
}
use emergent_inc.Runtime.ReadLoop.{Streak, Streaks, put, counted}

-- A step as the detector sees it: whose it was, whether it only read and nobody else asked for it,
-- and the signature of what it read.
pub record Step : Type 0 where
  pub pixel : Text
  pub quiet : Bool
  pub signature : Text

-- The reference: how many of a pixel's latest steps in a row were quiet with the signature. The
-- newest step is the head, and the steps of other pixels do not matter.
unfoldable pub repeats : Text → Text → List Step → ℕ
repeats id signature [] = 0
repeats id signature (s ∷ older) =
    let before = repeats id signature older in
    if not (text_eq s.pixel id)
    then before
    else if s.quiet && text_eq s.signature signature
    then before + 1
    else 0

unfoldable pub observe : Step → Streaks → Bool × Streaks
observe s streaks =
    if not s.quiet
    then (false, put s.pixel none streaks)
    else counted s.pixel s.signature (streaks s.pixel) streaks

-- What a streak says of the history.
abbrev pub Says : Text → List Step → Option Streak → Type 0
Says id history none = (signature : Text) → repeats id signature history % 3 ≡ 0
Says id history (some streak) =
    (0 < streak.count)
    × (streak.count < 3)
    × (repeats id streak.last_op_hash history % 3 ≡ streak.count)
    × ((signature : Text)
        → text_eq streak.last_op_hash signature ≡ false
        → repeats id signature history ≡ 0)

pub Says-other :
    (id : Text) (s : Step) (history : List Step) (streak : Option Streak)
    → text_eq s.pixel id ≡ false
    → Says id history streak
    → Says id (s ∷ history) streak
unfolding repeats
Says-other id s history none other h = λ signature. rw other (h signature)
Says-other id s history (some streak) other (positive, small, same, rest) =
    (positive, small, rw other same, λ signature differs. rw other (rest signature differs))

-- A step that is not quiet ends the streak.
pub Says-loud : (s : Step) (history : List Step) → s.quiet ≡ false → Says s.pixel (s ∷ history) none
unfolding repeats
Says-loud s history loud signature = rw (text_eq_refl s.pixel, loud) (omega arith)

repeats-quiet :
    (s : Step) (history : List Step) (signature : Text)
    → s.quiet ≡ true
    → repeats s.pixel signature (s ∷ history)
      ≡ (if text_eq s.signature signature then repeats s.pixel signature history + 1 else 0)
unfolding repeats
repeats-quiet s history signature quiet = rw (text_eq_refl s.pixel, quiet) refl

-- What a quiet step says after a count of `n` repetitions, modulo three.
Says-quiet :
    (s : Step) (history : List Step) (count : ℕ)
    → s.quiet ≡ true
    → 0 < count
    → count < 3
    → (repeats s.pixel s.signature history + 1) % 3 ≡ count
    → Says s.pixel (s ∷ history) (some (record { count = count; last_op_hash = s.signature }))
Says-quiet s history count quiet positive small same = (
  positive,
  small,
  rw (repeats-quiet s history s.signature quiet, text_eq_refl s.signature) same,
  λ signature differs. rw (repeats-quiet s history signature quiet, differs) refl,
)

Says-reported :
    (s : Step) (history : List Step)
    → s.quiet ≡ true
    → (repeats s.pixel s.signature history + 1) % 3 ≡ 0
    → Says s.pixel (s ∷ history) none
Says-reported s history quiet same signature = elim (Bool-cases (text_eq s.signature signature)) [
  | inl hit ↦
      rw (repeats-quiet s history signature quiet, hit)
        (subst (λ k. (repeats s.pixel k history + 1) % 3 ≡ 0)
          ((text_eq_iff s.signature signature).0 hit) same)
  | inr miss ↦ rw (repeats-quiet s history signature quiet, miss) refl
]

-- One step: whether a loop is reported, and the pixel's streak after it.
pub record Tells (s : Step) (history : List Step) (r : Bool × Streaks) : Type 0 where
  pub reported : (r.0 ≡ true) ↔ (
      (0 < repeats s.pixel s.signature (s ∷ history))
      × (repeats s.pixel s.signature (s ∷ history) % 3 ≡ 0))
  pub says : Says s.pixel (s ∷ history) (r.1 s.pixel)

quiet_total :
    (s : Step) (history : List Step)
    → s.quiet ≡ true
    → repeats s.pixel s.signature (s ∷ history) ≡ repeats s.pixel s.signature history + 1
quiet_total s history quiet =
    rw (repeats-quiet s history s.signature quiet, text_eq_refl s.signature) refl

Tells-silent :
    (s : Step) (history : List Step) (streaks : Streaks) (count : ℕ)
    → s.quiet ≡ true
    → 0 < count
    → count < 3
    → (repeats s.pixel s.signature history + 1) % 3 ≡ count
    → Tells s history
        (false, put s.pixel (some (record { count = count; last_op_hash = s.signature })) streaks)
Tells-silent s history streaks count quiet positive small same =
    let now = quiet_total s history quiet in
    record {
      reported = (λ h. ground arith, λ h. ground (arith, h.1, now, same, positive));
      says = rw (text_eq_refl s.pixel) (Says-quiet s history count quiet positive small same);
    }

Tells-loop :
    (s : Step) (history : List Step) (streaks : Streaks)
    → s.quiet ≡ true
    → (repeats s.pixel s.signature history + 1) % 3 ≡ 0
    → Tells s history (true, put s.pixel none streaks)
Tells-loop s history streaks quiet same =
    let now = quiet_total s history quiet in
    record {
      reported = (λ h. (omega (arith, now), ap (λ n. n % 3) now ∙ same), λ h. refl);
      says = rw (text_eq_refl s.pixel) (Says-reported s history quiet same);
    }

-- The third repetition is where the remainder comes back to zero.
next_remainder : (n count : ℕ) → n % 3 ≡ count → count + 1 < 3 → (n + 1) % 3 ≡ count + 1
next_remainder n count h small = omega (arith, h)

last_remainder : (n count : ℕ) → n % 3 ≡ count → count < 3 → 3 ≤ count + 1 → (n + 1) % 3 ≡ 0
last_remainder n count h small large = omega (arith, h)

pub counted-Tells :
    (s : Step) (history : List Step) (o : Option Streak) (streaks : Streaks)
    → s.quiet ≡ true
    → Says s.pixel history o
    → Tells s history (counted s.pixel s.signature o streaks)
unfolding counted
counted-Tells s history none streaks quiet h =
    Tells-silent s history streaks 1 quiet (omega arith) (omega arith)
      (next_remainder _ 0 (h s.signature) (omega arith))
counted-Tells s history (some streak) streaks quiet (positive, small, same, rest) =
    elim (Bool-cases (text_eq streak.last_op_hash s.signature)) [
      | inr differs ↦ rw differs (
          Tells-silent s history streaks 1 quiet (omega arith) (omega arith)
            (ap (λ n. (n + 1) % 3) (rest s.signature differs)))
      | inl hit ↦
          let hash = (text_eq_iff streak.last_op_hash s.signature).0 hit in
          let same' = subst (λ k. repeats s.pixel k history % 3 ≡ streak.count) hash same in
          elim (Bool-cases (leb 3 (streak.count + 1))) [
            | inl third ↦
                rw (hit, third)
                  (Tells-loop s history streaks quiet
                    (last_remainder _ streak.count same' small (leb→le 3 (streak.count + 1) third)))
            | inr early ↦
                rw (hit, early)
                  (subst
                    (λ k. Tells s history (
                      false,
                      put s.pixel (some (record { count = streak.count + 1; last_op_hash = k }))
                          streaks,
                    ))
                    (sym hash)
                    (Tells-silent s history streaks (streak.count + 1) quiet (omega arith)
                      (ground arith) (next_remainder _ streak.count same' (ground arith))))
          ]
    ]
