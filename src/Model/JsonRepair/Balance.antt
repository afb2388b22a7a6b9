-- ===== src/Model/JsonRepair/Balance.antt =====
-- The reader of balanced texts on what the scanner writes.
use emergent_inc.Common.{
  ℕ, ◌≡◌, Bool, true, false, some, List, [], ◌∷◌, ◌++◌, Text, refl, sym, arith, Option-cases,
  Bool-cases, inl, inr, subst, some-injective,
}
use emergent_inc.Model.JsonRepair.{
  Bracket, brace, square, bracket_eq, closer, closed_by, Scanner, initial, has_open, close_above,
  pop_through, step_string, step_close, step_outside, step, scan, close_all, finish,
  repair_missing_json_closers,
}
use emergent_inc.Model.JsonRepair.Reader.{
  Place, outside, inside, after_backslash, reader, read_outside, read_at, read_all, IsBalanced,
  read_all-snoc,
}

abbrev pub place_of : Bool → Bool → Place
place_of false e = outside
place_of true false = inside
place_of true true = after_backslash

-- The reader, after what the scanner has written, is where the scanner is.
abbrev Follows : Scanner → Type 0
Follows s =
    (read_all s.output (reader outside []) ≡ some (reader (place_of s.in_string s.escaped) s.stack))
    × (s.in_string ≡ false → s.escaped ≡ false)

abbrev AtOutside : Text → List Bracket → Type 0
AtOutside out bs = read_all out (reader outside []) ≡ some (reader outside bs)

read_closer_char :
    (b : Bracket) (rest : List Bracket)
    → read_at outside (closer b) (b ∷ rest) ≡ some (reader outside rest)
unfolding read_at read_outside
read_closer_char brace rest = refl
read_closer_char square rest = refl

AtOutside-close :
    (b : Bracket) (rest : List Bracket) (out : Text)
    → AtOutside out (b ∷ rest)
    → AtOutside (out ++ closer b ∷ []) rest
AtOutside-close b rest out h =
    rw (read_all-snoc out (closer b) (reader outside []) (reader outside (b ∷ rest)) h)
      (read_closer_char b rest)

close_all-AtOutside :
    (bs : List Bracket) (out : Text) → AtOutside out bs → AtOutside (close_all bs out) []
unfolding close_all
close_all-AtOutside [] out h = h
close_all-AtOutside (b ∷ bs) out h =
    close_all-AtOutside bs (out ++ closer b ∷ []) (AtOutside-close b bs out h)

closed_by-read :
    (c : ℕ) (b : Bracket) (rest : List Bracket)
    → closed_by c ≡ some b
    → read_at outside c (b ∷ rest) ≡ some (reader outside rest)
unfolding read_at read_outside
closed_by-read c b rest h = ground arith

-- Closing what is open above a bracket, and then the bracket itself.
bracket_eq-true : (a b : Bracket) → bracket_eq a b ≡ true → a ≡ b
bracket_eq-true brace brace h = refl
bracket_eq-true square square h = refl
bracket_eq-true brace square h = absurd (ground arith)
bracket_eq-true square brace h = absurd (ground arith)

close_above-AtOutside :
    (c : ℕ) (b : Bracket) (bs : List Bracket) (out : Text)
    → closed_by c ≡ some b
    → has_open b bs ≡ true
    → AtOutside out bs
    → AtOutside (close_above b bs out ++ c ∷ []) (pop_through b bs)
unfolding has_open close_above pop_through
close_above-AtOutside c b [] out ch has h = absurd (ground arith)
close_above-AtOutside c b (top ∷ rest) out ch has h = elim (Bool-cases (bracket_eq top b)) [
  | inl same ↦ rw same (
      rw (read_all-snoc out c (reader outside []) (reader outside (top ∷ rest)) h) (
        subst (λ t. read_at outside c (t ∷ rest) ≡ some (reader outside rest))
          (sym (bracket_eq-true top b same)) (closed_by-read c b rest ch)))
  | inr other ↦ rw other (
      close_above-AtOutside c b rest (out ++ closer top ∷ []) ch (rw (other, has_open) at has)
        (AtOutside-close top rest out h))
]

step_string-Follows :
    (c : ℕ) (s : Scanner) → s.in_string ≡ true → Follows s → Follows (step_string c s)
unfolding step_string read_at
step_string-Follows c s e h =
    let snoc = read_all-snoc s.output c (reader outside []) _ h.0 in ground (arith, e, h.1, snoc)

step_close-Follows :
    (c : ℕ) (b : Bracket) (s next : Scanner)
    → s.in_string ≡ false
    → closed_by c ≡ some b
    → Follows s
    → step_close c b s ≡ some next
    → Follows next
unfolding step_close
step_close-Follows c b s next e ch h st = elim (Bool-cases (has_open b s.stack)) [
  | inl has ↦
      let above = close_above-AtOutside c b s.stack s.output ch has (rw e at h.0) in
      ground (arith, e, h.1, above, rw (has, step_close) at st)
  | inr misses ↦ absurd (ground (arith, rw (misses, step_close) at st))
]

step_outside-Follows :
    (c : ℕ) (s next : Scanner)
    → s.in_string ≡ false
    → Follows s
    → step_outside c s ≡ some next
    → Follows next
unfolding step_outside read_at read_outside
step_outside-Follows c s next e h st =
    let snoc = read_all-snoc s.output c (reader outside []) _ h.0 in
    elim (Option-cases (closed_by c)) [
      | inl other ↦ ground (arith, e, h.1, snoc, other)
      | inr (b, ch) ↦ ground (arith, e, h.1, snoc, ch, step_close-Follows c b s next e ch h)
    ]

step-Follows : (c : ℕ) (s next : Scanner) → Follows s → step c s ≡ some next → Follows next
unfolding step
step-Follows c s next h st = elim (Bool-cases s.in_string) [
  | inl e ↦
      subst Follows (some-injective (step_string c s) next (ground (arith, e, st)))
        (step_string-Follows c s e h)
  | inr e ↦ step_outside-Follows c s next e h (ground (arith, e, st))
]

scan-Follows : (cs : Text) (s last : Scanner) → Follows s → scan cs s ≡ some last → Follows last
unfolding scan
scan-Follows [] s last h e = subst Follows (some-injective s last e) h
scan-Follows (c ∷ cs) s last h e = elim (Option-cases (step c s)) [
  | inl stuck ↦ absurd (ground (arith, rw (stuck, scan) at e))
  | inr (next, st) ↦ scan-Follows cs next last (step-Follows c s next h st) (rw (st, scan) at e)
]

-- What the scanner has written is balanced once the closing loop has run.
finish-IsBalanced :
    (raw out : Text) (s : Scanner) → Follows s → finish raw s ≡ some out → IsBalanced out
unfolding finish
finish-IsBalanced raw out s h e = elim (Bool-cases s.in_string) [
  | inl e' ↦ absurd (ground (arith, e', e))
  | inr e' ↦
      let closed = close_all-AtOutside s.stack s.output (rw e' at h.0) in
      subst IsBalanced (ground (arith, e', e)) closed
]

pub repaired_IsBalanced :
    (raw out : Text) → repair_missing_json_closers raw ≡ some out → IsBalanced out
unfolding repair_missing_json_closers read_all
repaired_IsBalanced raw out e = elim (Option-cases (scan raw initial)) [
  | inl stuck ↦ absurd (ground (arith, rw (stuck, repair_missing_json_closers) at e))
  | inr (s, scanned) ↦
      finish-IsBalanced raw out s (scan-Follows raw initial s (refl, λ h. refl) scanned)
        (rw (scanned, repair_missing_json_closers) at e)
]
