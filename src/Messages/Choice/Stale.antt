-- ===== src/Messages/Choice/Stale.antt =====
-- The messages that `claimNext` abandons.
use emergent_inc.Common.{
  ℕ, ◌≡◌, ◌≤◌, ◌⊎◌, refl, sym, subst, ap, Bool, true, ◌&&◌, Option, none, some, List, [], ◌∷◌, Text,
  text_eq, Bool-cases, inl, inr, arith, leb, ◌≢◌, ◌∙◌, codes, text_eq_iff,
}
use mathlib.Core.List.{Memᴰ}
use mathlib.Core.List.Memᴰ.{head, tail}
use emergent_inc.Store.{Db, MessageRow, abandoned}
use emergent_inc.Messages.Queue.{current_binding_id}
use emergent_inc.Store.Table.{update_where}
use emergent_inc.Store.Keys.{truthy, optional_text_eq, is_id, optional_text_eq_iff, is_id-some}
use emergent_inc.Messages.Types.{is_processable}
use emergent_inc.Messages.Claim.{abandon, is_in_scope, is_claimable, is_rebound}

abbrev pub with_messages : List MessageRow → Db → Db
with_messages ms db = record db { messages = ms }

-- A row of a message that may not be worked on any more: the table has a row of its id that is
-- pending, is due and belongs to the scope, and whose recipient's binding was captured and is not the
-- current one.
pub record IsStale (round : ℕ) (scope : Option Text) (db : Db) (x : MessageRow) : Type 0 where
  pub row : MessageRow
  pub stands : Memᴰ row db.messages
  pub same_message : row.message_id ≡ x.message_id
  pub pending : is_processable row.status ≡ true
  pub due : row.round_num ≤ round
  pub in_scope : truthy row.execution_id ≡ scope
  pub captured : row.binding_snapshot_captured ≡ true
  pub rebound : row.recipient_binding_id ≢ current_binding_id row.recipient db

-- The second list is the first, some of whose rows, of messages that are stale, are abandoned.
abbrev pub Abandons : (MessageRow → Type 0) → List MessageRow → List MessageRow → Type 0
Abandons Stale [] [] = Unit
Abandons Stale (x ∷ xs) (y ∷ ys) =
    ((y ≡ x)
      ⊎ (Stale x
          × (y ≡ record x {
            status = abandoned;
            abandoned_reason = some (codes "RECIPIENT_BINDING_CHANGED");
          })))
    × Abandons Stale xs ys
Abandons Stale [] (y ∷ ys) = ⊥
Abandons Stale (x ∷ xs) [] = ⊥

module _ (Stale : MessageRow → Type 0) where
  -- Abandoning more rows, by what their messages are.
  pub Abandons-update_where :
      (test : MessageRow → Bool) (xs ys : List MessageRow)
      → ((x : MessageRow) → test (abandon x) ≡ test x)
      → ((x : MessageRow) → test x ≡ true → Stale x)
      → Abandons Stale xs ys
      → Abandons Stale xs (update_where test abandon ys)
  unfolding update_where
  Abandons-update_where test [] [] keeps stale h = tt
  Abandons-update_where test [] (y ∷ ys) keeps stale h = elim h [ ]
  Abandons-update_where test (x ∷ xs) [] keeps stale h = elim h [ ]
  Abandons-update_where test (x ∷ xs) (y ∷ ys) keeps stale h =
      let rest = Abandons-update_where test xs ys keeps stale h.1 in
      elim (Bool-cases (test y)) [
        | inr miss ↦ rw miss (h.0, rest)
        | inl hit ↦ elim h.0 [
          | inl same ↦
              rw hit (inr (stale x (subst (λ z. test z ≡ true) same hit), ap abandon same), rest)
          | inr (old, same) ↦ rw hit (inr (old, ap abandon same), rest)
        ]
      ]

  -- Abandoning rows of a table.
  pub Abandons-stale :
      (test : MessageRow → Bool) (xs : List MessageRow)
      → ((x : MessageRow) → Memᴰ x xs → test x ≡ true → Stale x)
      → Abandons Stale xs (update_where test abandon xs)
  unfolding update_where
  Abandons-stale test [] stale = tt
  Abandons-stale test (x ∷ xs) stale =
      let rest = Abandons-stale test xs (λ y h hit. stale y (tail h) hit) in
      elim (Bool-cases (test x)) [
        | inl hit ↦ rw hit (inr (stale x (head refl) hit, refl), rest)
        | inr miss ↦ rw miss (inl refl, rest)
      ]

  -- A row that may be processed was not abandoned.
  Abandons-Memᴰ :
      (xs ys : List MessageRow) (y : MessageRow)
      → Abandons Stale xs ys
      → Memᴰ y ys
      → is_processable y.status ≡ true
      → Memᴰ y xs
  Abandons-Memᴰ [] [] y h there may = elim there [ ]
  Abandons-Memᴰ [] (z ∷ zs) y h there may = elim h [ ]
  Abandons-Memᴰ (x ∷ xs) [] y h there may = elim h [ ]
  Abandons-Memᴰ (x ∷ xs) (z ∷ zs) y h (tail there) may = tail (Abandons-Memᴰ xs zs y h.1 there may)
  Abandons-Memᴰ (x ∷ xs) (z ∷ zs) y h (head e) may = elim h.0 [
    | inl same ↦ head (e ∙ same)
    | inr (old, same) ↦ absurd (ground (arith, may, ap (λ m. is_processable m.status) (e ∙ same)))
  ]

pub in_scope_of :
    (scope : Option Text) (db : Db) (m : MessageRow)
    → is_in_scope scope db m ≡ true
    → m.execution_id ≡ scope
unfolding is_in_scope
in_scope_of none db m h = (optional_text_eq_iff m.execution_id none).0 (ground (arith, h))
in_scope_of (some id) db m h = id_of m.execution_id (ground (arith, h))
  where
    id_of : (o : Option Text) → is_id o id ≡ true → o ≡ some id
    id_of o h = is_id-some o id h

-- A claimable row that was bound anew makes its message stale.
pub claimable-IsStale :
    (round : ℕ) (scope : Option Text) (db : Db) (ms : List MessageRow) (row : MessageRow)
    → truthy scope ≡ scope
    → Abandons (IsStale round scope db) db.messages ms
    → Memᴰ row ms
    → is_claimable round scope db row ≡ true
    → is_rebound (with_messages ms db) row ≡ true
    → (x : MessageRow) → text_eq x.message_id row.message_id ≡ true
    → IsStale round scope db x
unfolding is_claimable is_rebound current_binding_id
claimable-IsStale round scope db ms row plain so_far there may rebound x same =
    let pending : is_processable row.status ≡ true = ground (arith, may) in
    record {
      row = row;
      stands = Abandons-Memᴰ (IsStale round scope db) db.messages ms row so_far there pending;
      same_message = sym ((text_eq_iff x.message_id row.message_id).0 same);
      pending = pending;
      due = ground (arith, may);
      in_scope = ap truthy (in_scope_of scope db row (ground (arith, may))) ∙ plain;
      captured = ground (arith, rebound);
      rebound = λ e. ground (arith, rebound, (optional_text_eq_iff _ _).1 e);
    }

-- The first update of `claimNext` abandons stale rows.
pub gone-IsStale :
    (round : ℕ) (execution_id : Option Text) (db : Db) (x : MessageRow)
    → Memᴰ x db.messages
    → (optional_text_eq x.execution_id execution_id
          && leb x.round_num round
          && is_processable x.status
          && is_rebound db x
        ≡ true)
    → IsStale round (truthy execution_id) db x
unfolding is_rebound
gone-IsStale round execution_id db x stands h = record {
  row = x;
  stands = stands;
  same_message = refl;
  pending = ground (arith, h);
  due = ground (arith, h);
  in_scope = ap truthy ((optional_text_eq_iff x.execution_id execution_id).0 (ground (arith, h)));
  captured = ground (arith, h);
  rebound = λ e. ground (arith, h, (optional_text_eq_iff _ _).1 e);
}
