-- ===== src/Messages/Waiting.antt =====
-- `countPendingMessages`, `hasProcessableMessages`, `resetWaitingRunBudgetMessages` and
-- `tryRecoverWaitingPixelBudgetMessages`.
use emergent_inc.Common.{
  ℕ, ◌≡◌, ◌<◌, refl, Bool, true, ◌&&◌, Option, none, some, List, [], ◌∷◌, Text, text_eq, leb, ◌==◌,
  Bool-cases, inl, inr, arith,
}
use emergent_inc.Store.{
  Db, MessageRow, MessageStatus, queued, processing, reserved, calling, response_stored, committed,
  waiting_pixel_budget, waiting_run_budget, waiting_execution_budget, call_outcome_unknown,
  awaiting_settlement, abandoned, model_response_invalid,
}
use emergent_inc.Store.Table.{exists_where, update_where, count_where}
use emergent_inc.Store.Keys.{optional_text_eq, truthy}
use emergent_inc.Messages.Types.{
  is_pending, is_processable, is_waiting_run_budget, is_waiting_pixel_budget,
}

abbrev is_for : Option Text → MessageRow → Bool
is_for none m = true
is_for (some pixel_id) m = text_eq m.recipient pixel_id

abbrev counts_as_pending : Option Text → Option Text → MessageRow → Bool
counts_as_pending pixel_id execution_id m =
    optional_text_eq m.execution_id execution_id && is_pending m.status && is_for pixel_id m

unfoldable pub count_pending_messages : Option Text → Option Text → Db → ℕ
count_pending_messages pixel_id execution_id db =
    count_where (counts_as_pending (truthy pixel_id) execution_id) db.messages

unfoldable pub has_processable_messages : Option Text → Db → Bool
has_processable_messages execution_id db =
    exists_where (λ m. optional_text_eq m.execution_id execution_id && is_processable m.status)
      db.messages

-- Putting the rows that meet a condition back into the queue, and how many they were.
abbrev requeue : (MessageRow → Bool) → Db → ℕ × Db
requeue test db = (
  count_where test db.messages,
  record db { messages = update_where test (λ m. record m { status = queued }) db.messages },
)

abbrev waits_for_run : Option Text → MessageRow → Bool
waits_for_run execution_id m =
    is_waiting_run_budget m.status && optional_text_eq m.execution_id execution_id

unfoldable pub reset_waiting_run_budget_messages : Option Text → Db → ℕ × Db
reset_waiting_run_budget_messages execution_id db = requeue (waits_for_run execution_id) db

-- The recipient is active, has the energy and owes nothing.
abbrev can_pay : ℕ → Db → Text → Bool
can_pay min_energy db recipient =
    exists_where
      (λ p.
        text_eq p.pixel_id recipient
        && leb min_energy p.energy
        && p.active
        && p.refund_deficit_tokens == 0)
      db.pixel_accounts

abbrev waits_for_pixel : ℕ → Option Text → Db → MessageRow → Bool
waits_for_pixel min_energy execution_id db m =
    is_waiting_pixel_budget m.status
    && optional_text_eq m.execution_id execution_id
    && can_pay min_energy db m.recipient

unfoldable pub try_recover_waiting_pixel_budget_messages : ℕ → Option Text → Db → ℕ × Db
try_recover_waiting_pixel_budget_messages min_energy execution_id db =
    requeue (waits_for_pixel min_energy execution_id db) db

-- An update that keeps a test of the rows keeps their count.
count_where-update_where {ℓ} :
    {A : Type ℓ} (p test : A → Bool) (f : A → A) (xs : List A)
    → ((x : A) → test x ≡ true → p (f x) ≡ p x)
    → count_where p (update_where test f xs) ≡ count_where p xs
unfolding count_where update_where
count_where-update_where p test f [] same = refl
count_where-update_where p test f (x ∷ xs) same =
    let rest = count_where-update_where p test f xs same in
    elim (Bool-cases (test x)) [ inl hit ↦ rw (hit, same x hit, rest) | inr miss ↦ rw (miss, rest) ]

is_for-queued :
    (pixel_id : Option Text) (m : MessageRow)
    → is_for pixel_id (record m { status = queued }) ≡ is_for pixel_id m
is_for-queued none m = refl
is_for-queued (some id) m = refl

requeue-pending :
    (test : MessageRow → Bool) (pixel_id execution_id : Option Text) (db : Db)
    → ((m : MessageRow) → test m ≡ true → is_pending m.status ≡ true)
    → count_pending_messages pixel_id execution_id (requeue test db).1
      ≡ count_pending_messages pixel_id execution_id db
unfolding count_pending_messages
requeue-pending test pixel_id execution_id db waits =
    count_where-update_where (counts_as_pending (truthy pixel_id) execution_id) test
      (λ m. record m { status = queued }) db.messages
      (λ m h. rw (waits m h, is_for-queued (truthy pixel_id) m))

-- Rows that an update makes meet a test.
exists_where-update_where {ℓ} :
    {A : Type ℓ} (p test : A → Bool) (f : A → A) (xs : List A)
    → ((x : A) → test x ≡ true → p (f x) ≡ true)
    → 0 < count_where test xs
    → exists_where p (update_where test f xs) ≡ true
unfolding exists_where update_where count_where
exists_where-update_where p test f [] meets h = ground arith
exists_where-update_where p test f (x ∷ xs) meets h = elim (Bool-cases (test x)) [
  | inl hit ↦ rw (hit, meets x hit)
  | inr miss ↦
      let rest = exists_where-update_where p test f xs meets (omega (arith, rw miss at h)) in
      elim (Bool-cases (p x)) [ inl kept ↦ rw (miss, kept) | inr lost ↦ rw (miss, lost, rest) ]
]

waiting-IsPending :
    (m : MessageRow)
    → (is_waiting_run_budget m.status ≡ true → is_pending m.status ≡ true)
      × (is_waiting_pixel_budget m.status ≡ true → is_pending m.status ≡ true)
waiting-IsPending m = by_status m.status
  where
    by_status :
        (s : MessageStatus)
        → (is_waiting_run_budget s ≡ true → is_pending s ≡ true)
          × (is_waiting_pixel_budget s ≡ true → is_pending s ≡ true)
    by_status queued = ground arith
    by_status processing = ground arith
    by_status reserved = ground arith
    by_status calling = ground arith
    by_status response_stored = ground arith
    by_status committed = ground arith
    by_status waiting_pixel_budget = ground arith
    by_status waiting_run_budget = ground arith
    by_status waiting_execution_budget = ground arith
    by_status call_outcome_unknown = ground arith
    by_status awaiting_settlement = ground arith
    by_status abandoned = ground arith
    by_status model_response_invalid = ground arith

-- Putting waiting messages back into the queue, by either method, changes no count of pending
-- messages, of a pixel or of all, in any execution.
pub requeue-keeps_pending :
    (pixel_id execution_id waiting : Option Text) (min_energy : ℕ) (db : Db)
    → (count_pending_messages pixel_id execution_id (reset_waiting_run_budget_messages waiting db).1
        ≡ count_pending_messages pixel_id execution_id db)
      × (count_pending_messages pixel_id execution_id
            (try_recover_waiting_pixel_budget_messages min_energy waiting db).1
          ≡ count_pending_messages pixel_id execution_id db)
unfolding reset_waiting_run_budget_messages try_recover_waiting_pixel_budget_messages
requeue-keeps_pending pixel_id execution_id waiting min_energy db = (
  requeue-pending (waits_for_run waiting) pixel_id execution_id db
      (λ m h. (waiting-IsPending m).0 (ground arith)),
  requeue-pending (waits_for_pixel min_energy waiting db) pixel_id execution_id db
      (λ m h. (waiting-IsPending m).1 (ground arith)),
)

-- Where either method reports that it put a message of the execution back, the execution has
-- processable messages afterwards.
pub requeue-has_processable :
    (execution_id : Option Text) (min_energy : ℕ) (db : Db)
    → (0 < (reset_waiting_run_budget_messages execution_id db).0
        → has_processable_messages execution_id
            (reset_waiting_run_budget_messages execution_id db).1
          ≡ true)
      × (0 < (try_recover_waiting_pixel_budget_messages min_energy execution_id db).0
          → has_processable_messages execution_id
              (try_recover_waiting_pixel_budget_messages min_energy execution_id db).1
            ≡ true)
unfolding reset_waiting_run_budget_messages try_recover_waiting_pixel_budget_messages
    has_processable_messages
requeue-has_processable execution_id min_energy db = (
  exists_where-update_where
      (λ m. optional_text_eq m.execution_id execution_id && is_processable m.status)
      (waits_for_run execution_id) (λ m. record m { status = queued }) db.messages
      (λ m h. ground arith),
  exists_where-update_where
      (λ m. optional_text_eq m.execution_id execution_id && is_processable m.status)
      (waits_for_pixel min_energy execution_id db) (λ m. record m { status = queued }) db.messages
      (λ m h. ground arith),
)
