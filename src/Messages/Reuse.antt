-- ===== src/Messages/Reuse.antt =====
-- The deduplication of `enqueueMessage`.
use emergent_inc.Common.{
  ℕ, ◌≡◌, refl, Bool, true, none, some, List, [], ◌∷◌, ◌++◌, Text, text_eq, text_eq_refl,
  Bool-cases, Option-cases, inl, inr, arith, ok, subst, ok-injective, ◌⊎◌, sym, text_eq_iff,
}
use mathlib.Core.List.{Memᴰ}
use emergent_inc.Store.{Db, MessageRow, queued}
use emergent_inc.Store.Table.{
  select_first, exists_where, select_first-meets, select_first-Memᴰ, Memᴰ-select_first, Memᴰ-last,
}
use emergent_inc.Store.Keys.{optional_text_eq_iff, truthy}
use emergent_inc.Messages.Types.{EnqueueParams, is_queued}
use emergent_inc.Messages.Queue.{
  may_reuse, message_of, is_same_message, insert_message, enqueue_message, or_default,
  current_binding_id,
}

select_first-append {ℓ} :
    {A : Type ℓ} (p : A → Bool) (xs : List A) (x : A)
    → select_first p xs ≡ none
    → p x ≡ true
    → select_first p (xs ++ x ∷ []) ≡ some x
unfolding select_first
select_first-append p [] x absent hit = rw hit
select_first-append p (y ∷ ys) x absent hit = elim (Bool-cases (p y)) [
  | inl found ↦ absurd (ground (arith, rw found at absent))
  | inr miss ↦ rw (miss, select_first-append p ys x (rw miss at absent) hit)
]

may_reuse-is_queued :
    (p : EnqueueParams) → may_reuse p ≡ true → is_queued (or_default queued p.status) ≡ true
unfolding may_reuse
may_reuse-is_queued p h = elim (Option-cases (truthy p.message_id)) [
  | inl absent ↦ ground (arith, rw (absent, may_reuse) at h)
  | inr (id, given) ↦ absurd (ground (arith, rw (given, may_reuse) at h))
]

-- The query looks for what the insertion adds.
same_as_itself :
    (p : EnqueueParams) (fresh_id again_id : Text) (now later : ℕ) (db : Db)
    → may_reuse p ≡ true
    → is_same_message (message_of p again_id later db) (message_of p fresh_id now db) ≡ true
unfolding is_same_message message_of
same_as_itself p fresh_id again_id now later db h = rw (
  text_eq_refl p.recipient,
  text_eq_refl p.sender,
  text_eq_refl p.content,
  may_reuse-is_queued p h,
  (optional_text_eq_iff p.execution_id p.execution_id).1 refl,
  (optional_text_eq_iff (or_default (current_binding_id p.sender db) p.sender_binding_id)
        (or_default (current_binding_id p.sender db) p.sender_binding_id)).1
      refl,
  (optional_text_eq_iff (or_default (current_binding_id p.recipient db) p.recipient_binding_id)
        (or_default (current_binding_id p.recipient db) p.recipient_binding_id)).1
      refl,
)

-- What the query asks does not depend on the id or the time of the new row.
same_query :
    (p : EnqueueParams) (fresh_id again_id : Text) (now later : ℕ) (db : Db)
    → is_same_message (message_of p fresh_id now db)
      ≡ is_same_message (message_of p again_id later db)
unfolding is_same_message message_of
same_query p fresh_id again_id now later db = refl

reuse_found :
    (p : EnqueueParams) (again_id : Text) (later : ℕ) (db : Db) (m : MessageRow)
    → may_reuse p ≡ true
    → select_first (is_same_message (message_of p again_id later db)) db.messages ≡ some m
    → enqueue_message p again_id later db ≡ ok (m, db)
unfolding enqueue_message
reuse_found p again_id later db m h found = rw (h, found)

abbrev inserted : MessageRow → Db → Db
inserted row db = record db { messages = db.messages ++ row ∷ [] }

reuse_inserted :
    (p : EnqueueParams) (fresh_id again_id : Text) (now later : ℕ) (db : Db)
    → may_reuse p ≡ true
    → select_first (is_same_message (message_of p fresh_id now db)) db.messages ≡ none
    → enqueue_message p again_id later (inserted (message_of p fresh_id now db) db)
      ≡ ok (message_of p fresh_id now db, inserted (message_of p fresh_id now db) db)
unfolding message_of current_binding_id is_same_message
reuse_inserted p fresh_id again_id now later db h absent =
    reuse_found p again_id later (inserted row db) row h (
      select_first-append (is_same_message (message_of p again_id later db)) db.messages row absent
        (same_as_itself p fresh_id again_id now later db h))
  where
    row : MessageRow
    row = message_of p fresh_id now db

abbrev reply : MessageRow → Db → MessageRow × Db
reply m db = (m, db)

insert_message-cases :
    (row m : MessageRow) (db db' : Db)
    → insert_message row db ≡ ok (m, db')
    → reply row (inserted row db) ≡ reply m db'
unfolding insert_message
insert_message-cases row m db db' e =
    elim (Bool-cases (exists_where (λ r. text_eq r.message_id row.message_id) db.messages)) [
      | inl clash ↦ absurd (ground (arith, rw clash at e))
      | inr free ↦ ok-injective (row, inserted row db) (m, db') (rw free at e)
    ]

enqueue_message-cases :
    (p : EnqueueParams) (fresh_id : Text) (now : ℕ) (db : Db) (r : MessageRow × Db)
    → may_reuse p ≡ true
    → enqueue_message p fresh_id now db ≡ ok r
    → ((old : MessageRow) × (select_first
            (is_same_message (message_of p fresh_id now db))
            db.messages
          ≡ some old)
        × (reply old db ≡ r))
      ⊎ ((select_first (is_same_message (message_of p fresh_id now db)) db.messages ≡ none)
          × (reply (message_of p fresh_id now db) (inserted (message_of p fresh_id now db) db) ≡ r))
unfolding enqueue_message
enqueue_message-cases p fresh_id now db (m, db') h e =
    elim (Option-cases (select_first (is_same_message row) db.messages)) [
      | inl absent ↦
          inr (absent, insert_message-cases row m db db' (rw (h, absent, enqueue_message) at e))
      | inr (old, found) ↦
          inl (old, found, ok-injective (old, db) (m, db') (rw (h, found, enqueue_message) at e))
    ]
  where
    row : MessageRow
    row = message_of p fresh_id now db

repeated :
    (p : EnqueueParams) (fresh_id again_id : Text) (now later : ℕ) (db db' : Db) (m : MessageRow)
    → may_reuse p ≡ true
    → enqueue_message p fresh_id now db ≡ ok (m, db')
    → enqueue_message p again_id later db' ≡ ok (m, db')
repeated p fresh_id again_id now later db db' m h e =
    elim (enqueue_message-cases p fresh_id now db (m, db') h e) [
      | inl (old, found, same) ↦ subst repeats same (
          reuse_found p again_id later db old h (
            subst (λ q. select_first q db.messages ≡ some old)
              (same_query p fresh_id again_id now later db) found))
      | inr (absent, same) ↦
          subst repeats same (reuse_inserted p fresh_id again_id now later db h absent)
    ]
  where
    repeats : MessageRow × Db → Type 0
    repeats r = enqueue_message p again_id later r.1 ≡ ok r

-- The first call leaves a row that answers its query.
answered :
    (p : EnqueueParams) (fresh_id : Text) (now : ℕ) (db db' : Db) (m : MessageRow)
    → may_reuse p ≡ true
    → enqueue_message p fresh_id now db ≡ ok (m, db')
    → Memᴰ m db'.messages × (is_same_message (message_of p fresh_id now db) m ≡ true)
answered p fresh_id now db db' m h e = elim (enqueue_message-cases p fresh_id now db (m, db') h e) [
  | inl (old, found, same) ↦ subst answers same (
    select_first-Memᴰ asked db.messages old found,
    select_first-meets asked db.messages old found,
  )
  | inr (absent, same) ↦ subst answers same (
    Memᴰ-last db.messages (message_of p fresh_id now db),
    same_as_itself p fresh_id fresh_id now now db h,
  )
]
  where
    asked : MessageRow → Bool
    asked = is_same_message (message_of p fresh_id now db)

    answers : MessageRow × Db → Type 0
    answers r = Memᴰ r.0 r.1.messages × (asked r.0 ≡ true)

-- A row with what a message says, that was not consumed yet.
pub record IsUnconsumed (p : EnqueueParams) (m : MessageRow) : Type 0 where
  pub recipient : m.recipient ≡ p.recipient
  pub sender : m.sender ≡ p.sender
  pub content : m.content ≡ p.content
  pub execution_id : m.execution_id ≡ p.execution_id
  pub status : is_queued m.status ≡ true

pub is_same_message-IsUnconsumed :
    (p : EnqueueParams) (id : Text) (now : ℕ) (db : Db) (m : MessageRow)
    → is_same_message (message_of p id now db) m ≡ true
    → IsUnconsumed p m
unfolding is_same_message message_of
is_same_message-IsUnconsumed p id now db m h = record {
  recipient = (text_eq_iff m.recipient p.recipient).0 (ground (arith, h));
  sender = (text_eq_iff m.sender p.sender).0 (ground (arith, h));
  content = (text_eq_iff m.content p.content).0 (ground (arith, h));
  execution_id = (optional_text_eq_iff m.execution_id p.execution_id).0 (ground (arith, h));
  status = ground (arith, h);
}

-- The query is the same as long as the bindings are.
same_bindings :
    (p : EnqueueParams) (fresh_id again_id : Text) (now later : ℕ) (db other : Db)
    → current_binding_id p.sender other ≡ current_binding_id p.sender db
    → current_binding_id p.recipient other ≡ current_binding_id p.recipient db
    → is_same_message (message_of p again_id later other)
      ≡ is_same_message (message_of p fresh_id now db)
unfolding is_same_message message_of
same_bindings p fresh_id again_id now later db other sender recipient = rw (sender, recipient) refl

-- A message that may be reused is not queued twice while it waits: once a call has succeeded, the
-- message that it gave is in the queue, and the same call right afterwards, at any time and with
-- any new id, gives that message again; and in any later state in which that message still stands as
-- it was given, and the current bindings of the sender and the recipient are those of the first
-- call, enqueuing it again adds nothing and gives a queued row of the same sender, recipient,
-- content and execution.
pub enqueue_message-once :
    (p : EnqueueParams) (fresh_id again_id : Text) (now later : ℕ) (db db' other : Db)
    (m : MessageRow)
    → may_reuse p ≡ true
    → enqueue_message p fresh_id now db ≡ ok (m, db')
    → Memᴰ m other.messages
    → current_binding_id p.sender other ≡ current_binding_id p.sender db
    → current_binding_id p.recipient other ≡ current_binding_id p.recipient db
    → Memᴰ m db'.messages
      × (enqueue_message p again_id later db' ≡ ok (m, db'))
      × ((old : MessageRow) × Memᴰ old other.messages
          × IsUnconsumed p old
          × (enqueue_message p again_id later other ≡ ok (old, other)))
enqueue_message-once p fresh_id again_id now later db db' other m h e waits sender recipient =
    let (stands, answers) = answered p fresh_id now db db' m h e in
    let asked = is_same_message (message_of p again_id later other) in
    let hit =
      subst (λ q. q m ≡ true)
        (sym (same_bindings p fresh_id again_id now later db other sender recipient)) answers in
    let (old, found) = Memᴰ-select_first asked other.messages m waits hit in
    (
      stands,
      repeated p fresh_id again_id now later db db' m h e,
      (
        old,
        select_first-Memᴰ asked other.messages old found,
        is_same_message-IsUnconsumed p again_id later other old
            (select_first-meets asked other.messages old found),
        reuse_found p again_id later other old h found,
      ),
    )
