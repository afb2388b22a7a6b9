-- ===== src/Model/JsonRepair/Insertion.antt =====
-- What the scanner adds to the text that it reads.
use emergent_inc.Common.{
  ℕ, ◌≡◌, ◌+◌, ◌*◌, ◌≤◌, some, List, [], ◌∷◌, ◌++◌, Text, sym, arith, length, length-append,
  append_assoc, append_nil, Option-cases, Bool-cases, inl, inr, subst, some-injective,
}
use emergent_inc.Model.JsonRepair.{
  Bracket, bracket_eq, closer, closed_by, Scanner, initial, close_above, pop_through, step_string,
  step_close, step_outside, step, scan, close_all, finish, repair_missing_json_closers,
}

-- The second text is the first with closing brackets put in; nothing is left out or moved.
pub data ClosersAdded : Text → Text → Type 0 where
  done : ClosersAdded [] []
  keep : {xs ys : Text} (c : ℕ) → ClosersAdded xs ys → ClosersAdded (c ∷ xs) (c ∷ ys)
  add : {xs ys : Text} (b : Bracket) → ClosersAdded xs ys → ClosersAdded xs (closer b ∷ ys)

pub ClosersAdded-refl : (xs : Text) → ClosersAdded xs xs
ClosersAdded-refl [] = done
ClosersAdded-refl (c ∷ xs) = keep c (ClosersAdded-refl xs)

keep-snoc : {xs ys : Text} (c : ℕ) → ClosersAdded xs ys → ClosersAdded (xs ++ c ∷ []) (ys ++ c ∷ [])
keep-snoc c done = keep c done
keep-snoc c (keep d h) = keep d (keep-snoc c h)
keep-snoc c (add b h) = add b (keep-snoc c h)

add-snoc : {xs ys : Text} (b : Bracket) → ClosersAdded xs ys → ClosersAdded xs (ys ++ closer b ∷ [])
add-snoc b done = add b done
add-snoc b (keep d h) = keep d (add-snoc b h)
add-snoc b (add a h) = add a (add-snoc b h)

-- Characters written and brackets open, against characters read.
abbrev IsBounded : Text → Scanner → Type 0
IsBounded read s = length s.output + length s.stack ≤ 2 * length read

record Reads (read : Text) (s : Scanner) : Type 0 where
  added : ClosersAdded read s.output
  bounded : IsBounded read s

close_above-ClosersAdded :
    {read : Text} (b : Bracket) (bs : List Bracket) (out : Text)
    → ClosersAdded read out
    → ClosersAdded read (close_above b bs out)
unfolding close_above
close_above-ClosersAdded b [] out h = h
close_above-ClosersAdded b (top ∷ rest) out h = elim (Bool-cases (bracket_eq top b)) [
  | inl same ↦ rw same h
  | inr other ↦ rw other (close_above-ClosersAdded b rest _ (add-snoc top h))
]

close_above_bound :
    (b : Bracket) (bs : List Bracket) (out : Text)
    → length (close_above b bs out) + length (pop_through b bs) ≤ length out + length bs
unfolding close_above pop_through
close_above_bound b [] out = omega arith
close_above_bound b (top ∷ rest) out = elim (Bool-cases (bracket_eq top b)) [
  | inl same ↦ rw same (omega arith)
  | inr other ↦ rw other (
      omega (
        arith,
        close_above_bound b rest (out ++ closer top ∷ []),
        length-append out (closer top ∷ []),
      ))
]

close_all-ClosersAdded :
    {read : Text} (bs : List Bracket) (out : Text)
    → ClosersAdded read out
    → ClosersAdded read (close_all bs out)
unfolding close_all
close_all-ClosersAdded [] out h = h
close_all-ClosersAdded (b ∷ bs) out h = close_all-ClosersAdded bs _ (add-snoc b h)

length-close_all :
    (bs : List Bracket) (out : Text) → length (close_all bs out) ≡ length out + length bs
unfolding close_all
length-close_all [] out = omega arith
length-close_all (b ∷ bs) out =
    omega (arith, length-close_all bs (out ++ closer b ∷ []), length-append out (closer b ∷ []))

step-added :
    (c : ℕ) (read : Text) (s next : Scanner)
    → ClosersAdded read s.output
    → step c s ≡ some next
    → ClosersAdded (read ++ c ∷ []) next.output
unfolding step step_string step_outside step_close
step-added c read s next h e =
    let kept = keep-snoc c h in
    elim (Option-cases (closed_by c)) [
      | inl other ↦ ground (arith, kept, other, e)
      | inr (b, ch) ↦
          let above = keep-snoc c (close_above-ClosersAdded b s.stack s.output h) in
          ground (arith, kept, ch, e, above)
    ]

step-IsBounded :
    (c : ℕ) (read : Text) (s next : Scanner)
    → IsBounded read s
    → step c s ≡ some next
    → IsBounded (read ++ c ∷ []) next
unfolding step step_string step_outside step_close
step-IsBounded c read s next h e =
    let more = length-append s.output (c ∷ []) in
    let longer = length-append read (c ∷ []) in
    elim (Option-cases (closed_by c)) [
      | inl other ↦ ground (arith, more, longer, other, e)
      | inr (b, ch) ↦
          let closed = length-append (close_above b s.stack s.output) (c ∷ []) in
          ground (arith, more, longer, ch, e, closed, close_above_bound b s.stack s.output)
    ]

step-Reads :
    (c : ℕ) (read : Text) (s next : Scanner)
    → Reads read s
    → step c s ≡ some next
    → Reads (read ++ c ∷ []) next
step-Reads c read s next h e = record {
  added = step-added c read s next h.added e;
  bounded = step-IsBounded c read s next h.bounded e;
}

scan-Reads :
    (cs read : Text) (s last : Scanner)
    → Reads read s
    → scan cs s ≡ some last
    → Reads (read ++ cs) last
unfolding scan
scan-Reads [] read s last h e =
    subst (Reads (read ++ [])) (some-injective s last e)
      (subst (λ xs. Reads xs s) (sym (append_nil read)) h)
scan-Reads (c ∷ cs) read s last h e = elim (Option-cases (step c s)) [
  | inl stuck ↦ absurd (ground (arith, rw (stuck, scan) at e))
  | inr (next, st) ↦
      subst (λ xs. Reads xs last) (append_assoc read (c ∷ []) cs)
        (scan-Reads cs (read ++ c ∷ []) next last (step-Reads c read s next h st)
          (rw (st, scan) at e))
]

-- What the scanner and its closing loop make of the whole text.
repair_inverts :
    (raw out : Text)
    → repair_missing_json_closers raw ≡ some out
    → (s : Scanner) × Reads raw s × (close_all s.stack s.output ≡ out)
unfolding repair_missing_json_closers finish
repair_inverts raw out e = elim (Option-cases (scan raw initial)) [
  | inl stuck ↦ absurd (ground (arith, rw (stuck, repair_missing_json_closers) at e))
  | inr (s, scanned) ↦ (
    s,
    scan-Reads raw [] initial s (record { added = done; bounded = omega arith }) scanned,
    ground (arith, rw (scanned, repair_missing_json_closers) at e),
  )
]

pub repaired_ClosersAdded :
    (raw out : Text) → repair_missing_json_closers raw ≡ some out → ClosersAdded raw out
repaired_ClosersAdded raw out e =
    let (s, h, closed) = repair_inverts raw out e in
    subst (ClosersAdded raw) closed (close_all-ClosersAdded s.stack s.output h.added)

-- A repaired text is at most twice as long as the text that was repaired.
pub repair_bound :
    (raw out : Text) → repair_missing_json_closers raw ≡ some out → length out ≤ 2 * length raw
repair_bound raw out e =
    let (s, h, closed) = repair_inverts raw out e in
    subst (λ ys. length ys ≤ 2 * length raw) closed
      (omega (arith, h.bounded, length-close_all s.stack s.output))
