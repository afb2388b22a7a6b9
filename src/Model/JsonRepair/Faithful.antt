-- ===== src/Model/JsonRepair/Faithful.antt =====
-- The scanner on a text that needs no repair.
use emergent_inc.Common.{
  ℕ, ◌≡◌, true, false, none, some, List, [], ◌∷◌, ◌++◌, Text, refl, sym, ◌∙◌, arith, Option-cases,
  Bool-cases, inl, inr, text_eq_refl, append_nil, append_assoc, ◌==◌, subst,
}
use emergent_inc.Model.JsonRepair.{
  Bracket, bracket_eq, closed_by, Scanner, initial, has_open, close_above, pop_through, step_string,
  step_close, step_outside, step, scan, close_all, finish, repair_missing_json_closers,
}
use emergent_inc.Model.JsonRepair.Reader.{
  Place, outside, Reader, reader, read_closer, read_outside, read_at, read_all, IsBalanced,
}
use emergent_inc.Model.JsonRepair.Balance.{place_of}

-- A reader that goes on past a closing bracket found it on top: nothing is closed above it.
record IsOnTop (b : Bracket) (bs : List Bracket) (out : Text) (r : Reader) : Type 0 where
  is_open : has_open b bs ≡ true
  nothing_above : close_above b bs out ≡ out
  popped : pop_through b bs ≡ r.open_brackets
  outside_place : r.place ≡ outside

read_closer-IsOnTop :
    (b : Bracket) (bs : List Bracket) (out : Text) (r : Reader)
    → read_closer b bs ≡ some r
    → IsOnTop b bs out r
unfolding has_open close_above pop_through
read_closer-IsOnTop b [] out r h = absurd (ground arith)
read_closer-IsOnTop b (top ∷ rest) out r h = elim (Bool-cases (bracket_eq top b)) [
  | inl same ↦ record {
    is_open = ground (arith, same);
    nothing_above = ground (arith, same);
    popped = ground (arith, same, h);
    outside_place = ground (arith, same, h);
  }
  | inr other ↦ absurd (ground (arith, other, h))
]

-- Where the reader goes on, the scanner copies the character.
record Copies (c : ℕ) (s : Scanner) (r : Reader) : Type 0 where
  next : Scanner
  stepped : step c s ≡ some next
  copied : next.output ≡ s.output ++ c ∷ []
  same_place : r.place ≡ place_of next.in_string next.escaped
  same_stack : r.open_brackets ≡ next.stack
  clean : next.in_string ≡ false → next.escaped ≡ false

step_string-Copies :
    (c : ℕ) (s : Scanner) (r : Reader)
    → s.in_string ≡ true
    → read_at (place_of s.in_string s.escaped) c s.stack ≡ some r
    → Copies c s r
unfolding step step_string read_at
step_string-Copies c s r e h = record {
  next = step_string c s;
  stepped = ground (arith, e);
  copied = ground arith;
  same_place = ground (arith, e, h);
  same_stack = ground (arith, e, h);
  clean = ground (arith, e);
}

closing-Copies :
    (c : ℕ) (b : Bracket) (s : Scanner) (r : Reader)
    → s.in_string ≡ false
    → s.escaped ≡ false
    → closed_by c ≡ some b
    → read_closer b s.stack ≡ some r
    → Copies c s r
unfolding step step_outside step_close
closing-Copies c b s r e clean ch h =
    let top = read_closer-IsOnTop b s.stack s.output r h in
    record {
      next = record s { stack = r.open_brackets; output = s.output ++ c ∷ [] };
      stepped = ground (arith, e, ch, top.is_open, top.nothing_above, top.popped);
      copied = refl;
      same_place = ground (arith, e, top.outside_place);
      same_stack = refl;
      clean = λ _. clean;
    }

-- A character that is no closing bracket.
other-Copies :
    (c : ℕ) (s : Scanner) (r : Reader)
    → s.in_string ≡ false
    → s.escaped ≡ false
    → closed_by c ≡ none
    → read_outside c s.stack ≡ some r
    → Copies c s r
unfolding step step_outside read_outside
other-Copies c s r e clean ch h = elim (Bool-cases (c == b'"')) [
  | inl quote ↦ record {
    next = record s { in_string = true; output = s.output ++ c ∷ [] };
    stepped = ground (arith, e, quote);
    copied = refl;
    same_place = ground (arith, quote, clean, h);
    same_stack = ground (arith, quote, h);
    clean = λ (z : true ≡ false). clean;
  }
  | inr plain ↦ record {
    next = record s { stack = r.open_brackets; output = s.output ++ c ∷ [] };
    stepped = ground (arith, e, plain, ch, h);
    copied = refl;
    same_place = ground (arith, plain, ch, e, h);
    same_stack = refl;
    clean = λ _. clean;
  }
]

step-Copies :
    (c : ℕ) (s : Scanner) (r : Reader)
    → (s.in_string ≡ false → s.escaped ≡ false)
    → read_at (place_of s.in_string s.escaped) c s.stack ≡ some r
    → Copies c s r
unfolding read_at read_outside
step-Copies c s r clean h = elim (Bool-cases s.in_string) [
  | inl e ↦ step_string-Copies c s r e h
  | inr e ↦ elim (Option-cases (closed_by c)) [
    | inl other ↦ other-Copies c s r e (clean e) other (ground (arith, e, h))
    | inr (b, ch) ↦ closing-Copies c b s r e (clean e) ch (ground (arith, e, ch, h))
  ]
]

reader_of :
    (r : Reader) (p : Place) (bs : List Bracket)
    → r.place ≡ p
    → r.open_brackets ≡ bs
    → r ≡ reader p bs
reader_of r p bs e f = ground (arith, e, f)

-- A text that the reader goes through is copied.
scan_copies :
    (cs : Text) (s : Scanner) (r : Reader)
    → (s.in_string ≡ false → s.escaped ≡ false)
    → read_all cs (reader (place_of s.in_string s.escaped) s.stack) ≡ some r
    → (last : Scanner) × (scan cs s ≡ some last)
      × (last.output ≡ s.output ++ cs)
      × (r.place ≡ place_of last.in_string last.escaped)
      × (r.open_brackets ≡ last.stack)
unfolding scan read_all
scan_copies [] s r clean h = (s, refl, sym (append_nil s.output), ground arith, ground arith)
scan_copies (c ∷ cs) s r clean h =
    elim (Option-cases (read_at (place_of s.in_string s.escaped) c s.stack)) [
      | inl stuck ↦ absurd (ground (arith, rw (stuck, read_all) at h))
      | inr (m, reads) ↦
          let n = step-Copies c s m clean reads in
          let same = reader_of m _ _ n.same_place n.same_stack in
          let (last, scanned, copied, place, stack) =
            scan_copies cs n.next r n.clean
              (subst (λ q. read_all cs q ≡ some r) same (rw (reads, read_all) at h)) in
          (
            last,
            rw (n.stepped, scan) scanned,
            copied ∙ (rw n.copied (append_assoc s.output (c ∷ []) cs)),
            place,
            stack,
          )
    ]

-- A balanced text is returned as it is: there is nothing to repair.
pub repair_of_balanced : (raw : Text) → IsBalanced raw → repair_missing_json_closers raw ≡ none
unfolding repair_missing_json_closers finish close_all
repair_of_balanced raw h =
    let (last, scanned, copied, place, stack) =
      scan_copies raw initial (reader outside []) (λ _. refl) h in
    elim (Bool-cases last.in_string) [
      | inl e ↦ rw (scanned, repair_missing_json_closers, finish, e) refl
      | inr e ↦
          rw
            (
              scanned,
              repair_missing_json_closers,
              finish,
              e,
              sym stack,
              close_all,
              copied,
              text_eq_refl raw,
            )
            refl
    ]
