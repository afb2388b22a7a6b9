-- ===== src/Messages/Choice.antt =====
-- What `claimNext` returns, and its loop.
pub mod Order
pub mod Stale
pub mod Once
pub mod Fuel
use emergent_inc.Common.{
  ap, ◌∙◌, if◌then◌else◌, leb, inl, inr, ℕ, zero, suc, ◌≡◌, ◌<◌, ◌≤◌, ◌⊎◌, refl, sym, subst, ap,
  Bool, true, false, ◌&&◌, Option, none, some, List, [], ◌∷◌, Text, text_eq, text_eq_refl,
  if◌then◌else◌, All, Bool-cases, Option-cases, inl, inr, arith, leb, ◌≢◌, ◌∙◌, codes, text_eq_iff,
}
use mathlib.Core.List.{Memᴰ}
use mathlib.Core.List.Memᴰ.{head, tail}
use emergent_inc.Store.{Db, MessageRow, processing, abandoned}
use emergent_inc.Messages.Queue.{current_binding_id}
use emergent_inc.Store.Table.{All-impl, update_where, count_where}
use emergent_inc.Store.Keys.{
  truthy, optional_text_eq, is_id, optional_text_eq_iff, is_id-some, truthy-truthy,
}
use emergent_inc.Messages.Types.{is_queued, is_processable, is_processable, is_queued}
use emergent_inc.Messages.Claim.{
  is_in_scope, abandon, is_in_scope, takes_part, is_free_or_active, is_engaged, is_claimable,
  is_rebound, precedes, first_in_order, abandon_message, abandon_rebound, handed, hand_out,
  claim_loop, claim_next,
}
use emergent_inc.Messages.Choice.Order.{
  IsFirst, first_in_order-IsFirst, ComesFirst, precedes-ComesFirst,
}
use emergent_inc.Messages.Choice.Stale.{
  with_messages, IsStale, Abandons, Abandons-update_where, Abandons-stale, claimable-IsStale,
  gone-IsStale, in_scope_of,
}

-- A message that `claimNext` returns: with the stale rows abandoned, the first claimable row in the
-- order, whose recipient is still bound as it was.
pub record IsChoice (round : ℕ) (scope : Option Text) (at : Db) (m : MessageRow) (after : Db)
    : Type 0 where
  pub row : MessageRow
  pub stands : Memᴰ row at.messages
  pub claimable : is_claimable round scope at row ≡ true
  pub bound : is_rebound at row ≡ false
  pub leads :
      All
        (λ other. is_claimable round scope at other ≡ true → precedes other row ≡ false)
        at.messages
  pub pending : is_processable row.status ≡ true
  pub due : row.round_num ≤ round
  pub in_scope : truthy row.execution_id ≡ scope
  pub in_order :
      All (λ other. is_claimable round scope at other ≡ true → ComesFirst row other) at.messages
  pub message :
      (m.message_id ≡ row.message_id) × (m.recipient ≡ row.recipient) × (m.content ≡ row.content)
  pub status : m.status ≡ (if is_queued row.status then processing else row.status)
  pub envelope : m ≡ handed at row
  pub update : after ≡ hand_out row at

-- What `claimNext` returns, and the database it leaves.
unfoldable pub IsClaim : ℕ → Option Text → Db → Option MessageRow × Db → Type 0
IsClaim round scope db (none, after) =
    (ms : List MessageRow) × Abandons (IsStale round scope db) db.messages ms
    × (after ≡ with_messages ms db)
    × All (λ m. is_claimable round scope db m ≡ false) ms
IsClaim round scope db (some m, after) =
    (ms : List MessageRow) × Abandons (IsStale round scope db) db.messages ms
    × IsChoice round scope (with_messages ms db) m after

-- Which rows are claimable does not depend on the other messages.
same_claimable :
    (round : ℕ) (scope : Option Text) (ms : List MessageRow) (db : Db)
    → is_claimable round scope (with_messages ms db) ≡ is_claimable round scope db
unfolding is_claimable is_in_scope takes_part is_free_or_active is_engaged
same_claimable round none ms db = refl
same_claimable round (some id) ms db = refl

abandoned_not_claimable :
    (round : ℕ) (scope : Option Text) (db : Db) (m : MessageRow)
    → is_claimable round scope db (abandon m) ≡ false
unfolding is_claimable
abandoned_not_claimable round scope db m = ground arith

count_where-abandon-≤ :
    (p test : MessageRow → Bool) (xs : List MessageRow)
    → ((m : MessageRow) → p (abandon m) ≡ false)
    → count_where p (update_where test abandon xs) ≤ count_where p xs
unfolding count_where update_where
count_where-abandon-≤ p test [] gone = omega arith
count_where-abandon-≤ p test (x ∷ xs) gone =
    let rest = count_where-abandon-≤ p test xs gone in
    elim (Bool-cases (test x)) [
      | inl hit ↦ rw (hit, gone x) (ground (arith, rest))
      | inr miss ↦ rw miss (ground (arith, rest))
    ]

-- Abandoning a row that counts lowers the count.
count_where-abandon-< :
    (p test : MessageRow → Bool) (m : MessageRow) (xs : List MessageRow)
    → ((m : MessageRow) → p (abandon m) ≡ false)
    → Memᴰ m xs
    → p m ≡ true
    → test m ≡ true
    → count_where p (update_where test abandon xs) < count_where p xs
unfolding count_where update_where
count_where-abandon-< p test m [] gone h counts hit = elim h [ ]
count_where-abandon-< p test m (x ∷ xs) gone (head e) counts hit =
    let rest = count_where-abandon-≤ p test xs gone in
    rw (sym e, hit, gone m, counts) (ground (arith, rest))
count_where-abandon-< p test m (x ∷ xs) gone (tail h) counts hit =
    let rest = count_where-abandon-< p test m xs gone h counts hit in
    elim (Bool-cases (test x)) [
      | inl there ↦ rw (there, gone x) (ground (arith, rest))
      | inr miss ↦ rw miss (ground (arith, rest))
    ]

unfold_claimable :
    (round : ℕ) (scope : Option Text) (db : Db) (m : MessageRow)
    → is_claimable round scope db m ≡ true
    → (m.round_num ≤ round) × (is_processable m.status ≡ true) × (is_in_scope scope db m ≡ true)
unfolding is_claimable
unfold_claimable round scope db m h = ground (arith, h)

handed-same :
    (at : Db) (row : MessageRow)
    → ((handed at row).message_id ≡ row.message_id)
      × ((handed at row).recipient ≡ row.recipient)
      × ((handed at row).content ≡ row.content)
unfolding handed
handed-same at row = elim (Bool-cases (is_queued row.status)) [
  | inl e ↦ rw e (refl, refl, refl)
  | inr e ↦ rw e (refl, refl, refl)
]

handed-status :
    (at : Db) (row : MessageRow)
    → (handed at row).status ≡ (if is_queued row.status then processing else row.status)
unfolding handed
handed-status at row = elim (Bool-cases (is_queued row.status)) [
  | inl e ↦ rw e refl
  | inr e ↦ rw e refl
]

-- With more fuel than there are claimable rows, the loop ends, with what it should.
claim_loop-IsClaim :
    (fuel round : ℕ) (scope : Option Text) (db : Db) (ms : List MessageRow)
    → truthy scope ≡ scope
    → Abandons (IsStale round scope db) db.messages ms
    → count_where (is_claimable round scope db) ms < fuel
    → (r : Option MessageRow × Db) × (claim_loop fuel round scope (with_messages ms db) ≡ some r)
      × IsClaim round scope db r
unfolding claim_loop IsClaim IsFirst abandon_message
claim_loop-IsClaim zero round scope db ms plain so_far enough = absurd (omega arith)
claim_loop-IsClaim (suc fuel) round scope db ms plain so_far enough =
    elim (Option-cases (first_in_order claimable ms)) [
      | inl nothing ↦ (
        (none, with_messages ms db),
        rw (claim_loop, same, nothing),
        (ms, so_far, refl, subst (IsFirst claimable ms) nothing first),
      )
      | inr (row, found) ↦
          let (stands, holds, leads) = subst (IsFirst claimable ms) found first in
          elim (Bool-cases (is_rebound (with_messages ms db) row)) [
            | inl rebound ↦
                let less =
                  count_where-abandon-< claimable (λ m. text_eq m.message_id row.message_id) row ms
                    (abandoned_not_claimable round scope db) stands holds
                    (text_eq_refl row.message_id) in
                let (r, e, claim) =
                  claim_loop-IsClaim fuel round scope db
                    (update_where (λ m. text_eq m.message_id row.message_id) abandon ms) plain
                    (Abandons-update_where (IsStale round scope db)
                      (λ m. text_eq m.message_id row.message_id) db.messages ms (λ x. refl)
                      (claimable-IsStale round scope db ms row plain so_far stands holds rebound)
                      so_far)
                    (omega (arith, less, enough)) in
                (r, rw (claim_loop, same, found, rebound, e), claim)
            | inr bound ↦ (
              (some (handed (with_messages ms db) row), hand_out row (with_messages ms db)),
              rw (claim_loop, same, found, bound),
              (
                ms,
                so_far,
                record {
                  row = row;
                  stands = stands;
                  claimable = rw (same, holds);
                  bound = bound;
                  leads = rw same leads;
                  pending = ground (arith, unfold_claimable round scope db row holds);
                  due = ground (arith, unfold_claimable round scope db row holds);
                  in_scope =
                      ap truthy
                        (in_scope_of scope db row (unfold_claimable round scope db row holds).2)
                      ∙ plain;
                  in_order = rw same (
                      All-impl ms (λ other first may. precedes-ComesFirst row other (first may))
                        leads);
                  message = handed-same (with_messages ms db) row;
                  status = handed-status (with_messages ms db) row;
                  envelope = refl;
                  update = refl;
                },
              ),
            )
          ]
    ]
  where
    claimable : MessageRow → Bool
    claimable = is_claimable round scope db

    same : is_claimable round scope (with_messages ms db) ≡ is_claimable round scope db
    same = same_claimable round scope ms db

    first : IsFirst claimable ms (first_in_order claimable ms)
    first = first_in_order-IsFirst claimable ms

pub claim_next-IsClaim :
    (round : ℕ) (execution_id : Option Text) (db : Db)
    → (r : Option MessageRow × Db) × (claim_next round execution_id db ≡ some r)
      × IsClaim round (truthy execution_id) db r
unfolding claim_next abandon_rebound
claim_next-IsClaim round execution_id db =
    claim_loop-IsClaim (suc (count_where (is_claimable round scope start) start.messages)) round
      scope db start.messages (truthy-truthy execution_id)
      (Abandons-stale (IsStale round scope db) gone db.messages
        (gone-IsStale round execution_id db))
      (omega (
        arith,
        ap (λ p. count_where p start.messages) (same_claimable round scope start.messages db),
      ))
  where
    scope : Option Text
    scope = truthy execution_id

    start : Db
    start = abandon_rebound round execution_id db

    gone : MessageRow → Bool
    gone m =
        optional_text_eq m.execution_id execution_id
        && leb m.round_num round
        && is_processable m.status
        && is_rebound db m
