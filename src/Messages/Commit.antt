-- ===== src/Messages/Commit.antt =====
-- `commitMessage`, called more than once.
use emergent_inc.Common.{
  ℕ, zero, suc, ◌+◌, ◌≡◌, ◌∙◌, refl, sym, ap, Bool, true, false, not, ◌&&◌, if◌then◌else◌, Option,
  none, some, List, [], ◌∷◌, map, Text, text_eq, All, Bool-cases, inl, inr, arith,
}
use emergent_inc.Store.{Db, MessageRow, MessageStatus, CheckpointRow, committed}
use emergent_inc.Store.Table.{update_where, count_where, exists_where}
use emergent_inc.Messages.Types.{is_committed}
use emergent_inc.Store.Keys.{truthy}
use emergent_inc.Messages.Queue.{count_message, is_uncommitted, commit_message}

abbrev commit_rows : Text → List MessageRow → List MessageRow
commit_rows id ms = update_where (is_uncommitted id) (λ m. record m { status = committed }) ms

none_left :
    (id : Text) (ms : List MessageRow) → count_where (is_uncommitted id) (commit_rows id ms) ≡ 0
unfolding count_where update_where
none_left id [] = refl
none_left id (m ∷ ms) = elim (Bool-cases (is_uncommitted id m)) [
  | inl hit ↦ rw (hit, none_left id ms) (ground arith)
  | inr miss ↦ rw (miss, miss, none_left id ms)
]

update_none :
    (id : Text) (ms : List MessageRow)
    → count_where (is_uncommitted id) ms ≡ 0
    → commit_rows id ms ≡ ms
unfolding count_where update_where
update_none id [] h = refl
update_none id (m ∷ ms) h = elim (Bool-cases (is_uncommitted id m)) [
  | inl hit ↦ absurd (omega (arith, rw hit at h))
  | inr miss ↦ rw (miss, update_none id ms (omega (arith, rw miss at h)))
]

messages_of_count :
    (run_id : Option Text) (n : ℕ) (db : Db) → (count_message run_id n db).messages ≡ db.messages
unfolding count_message
messages_of_count none n db = refl
messages_of_count (some id) zero db = refl
messages_of_count (some id) (suc n) db = refl

count_none : (run_id : Option Text) (db : Db) → count_message run_id 0 db ≡ db
unfolding count_message
count_none none db = refl
count_none (some id) db = refl

recommit :
    (id : Text) (db : Db)
    → count_where (is_uncommitted id) db.messages ≡ 0
    → (run_id : Option Text) → commit_message id run_id db ≡ db
unfolding commit_message
recommit id db h run_id = rw (h, update_none id db.messages h, count_none (truthy run_id) db)

-- Whether a message of the id was not committed yet
abbrev pub is_waiting : Text → Db → Bool
is_waiting id db =
    exists_where (λ m. text_eq m.message_id id && not (is_committed m.status)) db.messages

-- A checkpoint after a commit: that of the run counts one message more, if its round has started
-- and a message was committed.
abbrev pub counted_checkpoint : Option Text → Bool → CheckpointRow → CheckpointRow
counted_checkpoint none waiting c = c
counted_checkpoint (some run_id) waiting c =
    if text_eq c.run_id run_id && c.round_started && waiting
    then record c { round_messages = c.round_messages + 1 }
    else c

count_where-zero {ℓ} :
    {A : Type ℓ} (p : A → Bool) (xs : List A) → exists_where p xs ≡ false → count_where p xs ≡ 0
unfolding count_where exists_where
count_where-zero p [] h = refl
count_where-zero p (x ∷ xs) h = elim (Bool-cases (p x)) [
  | inl hit ↦ absurd (ground (arith, rw (hit, exists_where) at h))
  | inr miss ↦ rw (miss, count_where-zero p xs (rw (miss, exists_where) at h)) refl
]

count_where-suc {ℓ} :
    {A : Type ℓ} (p : A → Bool) (xs : List A)
    → exists_where p xs ≡ true
    → (n : ℕ) × (count_where p xs ≡ suc n)
unfolding count_where exists_where
count_where-suc p [] h = absurd (ground (arith, h))
count_where-suc p (x ∷ xs) h = elim (Bool-cases (p x)) [
  | inl hit ↦ (count_where p xs, rw hit (omega arith))
  | inr miss ↦
      let (n, e) = count_where-suc p xs (rw (miss, exists_where) at h) in
      (n, rw (miss, e) (omega arith))
]

update_where-map :
    (run_id : Text) (cs : List CheckpointRow)
    → update_where
        (λ c. text_eq c.run_id run_id && c.round_started)
        (λ c. record c { round_messages = c.round_messages + 1 })
        cs
      ≡ map (counted_checkpoint (some run_id) true) cs
unfolding update_where
update_where-map run_id [] = refl
update_where-map run_id (c ∷ cs) = elim (Bool-cases (text_eq c.run_id run_id && c.round_started)) [
  | inl hit ↦ ground (arith, hit, update_where-map run_id cs)
  | inr miss ↦ ground (arith, miss, update_where-map run_id cs)
]

map-none :
    (waiting : Bool) (cs : List CheckpointRow) → map (counted_checkpoint none waiting) cs ≡ cs
map-none waiting [] = refl
map-none waiting (c ∷ cs) = ap (λ ds. c ∷ ds) (map-none waiting cs)

map-idle :
    (run_id : Text) (cs : List CheckpointRow) → map (counted_checkpoint (some run_id) false) cs ≡ cs
map-idle run_id [] = refl
map-idle run_id (c ∷ cs) = ground (arith, map-idle run_id cs)

-- The checkpoints after a count.
count_message-map :
    (run_id : Option Text) (id : Text) (db rest : Db)
    → rest.run_checkpoints ≡ db.run_checkpoints
    → (count_message run_id (count_where (is_uncommitted id) db.messages) rest).run_checkpoints
      ≡ map (counted_checkpoint run_id (is_waiting id db)) db.run_checkpoints
unfolding count_message
count_message-map none id db rest same = same ∙ sym (map-none (is_waiting id db) db.run_checkpoints)
count_message-map (some run_id) id db rest same = elim (Bool-cases (is_waiting id db)) [
  | inl waiting ↦
      let (n, e) = count_where-suc (is_uncommitted id) db.messages waiting in
      rw (waiting, e, count_message) (rw same (update_where-map run_id db.run_checkpoints))
  | inr idle ↦
      rw (idle, count_where-zero (is_uncommitted id) db.messages idle, count_message)
        (same ∙ sym (map-idle run_id db.run_checkpoints))
]

commit_rows-committed :
    (id : Text) (ms : List MessageRow)
    → All (λ m. text_eq m.message_id id ≡ true → m.status ≡ committed) (commit_rows id ms)
unfolding update_where
commit_rows-committed id [] = tt
commit_rows-committed id (m ∷ ms) = elim (Bool-cases (is_uncommitted id m)) [
  | inl hit ↦ rw hit (λ same. refl, commit_rows-committed id ms)
  | inr miss ↦
      rw miss
        (λ same. is_committed-status m (ground (arith, miss, same)), commit_rows-committed id ms)
]
  where
    is_committed-status : (m : MessageRow) → is_committed m.status ≡ true → m.status ≡ committed
    is_committed-status m h = status_of m.status h
      where
        status_of : (s : MessageStatus) → is_committed s ≡ true → s ≡ committed
        status_of s h = ground (arith, h)

-- A message is committed and counted once: after a commit every row of the message is committed, and
-- of the checkpoints exactly those of the run that is given, if one is, whose round has started count
-- one message more, if the message was not committed before; and committing it again, for
-- whatever run, changes nothing, the counts included.
pub commit_message-once :
    (id : Text) (first again : Option Text) (db : Db)
    → let after = commit_message id first db in
      All (λ m. text_eq m.message_id id ≡ true → m.status ≡ committed) after.messages
      × (after.run_checkpoints
          ≡ map (counted_checkpoint (truthy first) (is_waiting id db)) db.run_checkpoints)
      × (commit_message id again after ≡ after)
commit_message-once id first again db = (
  rw rows (commit_rows-committed id db.messages),
  unfold commit_message in
      count_message-map (truthy first) id db (record db { messages = commit_rows id db.messages })
        refl,
  recommit id (commit_message id first db) (rw rows (none_left id db.messages)) again,
)
  where
    rows : (commit_message id first db).messages ≡ commit_rows id db.messages
    rows =
        unfold commit_message in
        messages_of_count (truthy first) (count_where (is_uncommitted id) db.messages)
          (record db { messages = commit_rows id db.messages })
