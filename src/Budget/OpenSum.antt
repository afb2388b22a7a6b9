-- ===== src/Budget/OpenSum.antt =====
-- The amounts of the open reservations that meet a condition, under an insertion and under a change
-- of status.
use emergent_inc.Common.{
  ℕ, ◌+◌, ◌≡◌, refl, ◌∙◌, Bool, true, false, ◌&&◌, Option, some, List, [], ◌∷◌, ◌++◌, Text, text_eq,
  text_eq_iff, text_eq_refl, if◌then◌else◌, Bool-cases, inl, inr, arith, some-injective,
}
use emergent_inc.Store.{ReservationRow, ReservationStatus}
use emergent_inc.Store.Table.{select_first, exists_where, update_where, sum_where}
use emergent_inc.Budget.Operations.{is_open}

-- No two rows have the same call.
abbrev pub HasUniqueCalls : List ReservationRow → Type 0
HasUniqueCalls [] = Unit
HasUniqueCalls (x ∷ xs) =
    (exists_where (λ r. text_eq r.call_id x.call_id) xs ≡ false) × HasUniqueCalls xs

abbrev pub set_status : Text → ReservationStatus → List ReservationRow → List ReservationRow
set_status id status rows =
    update_where (λ r. text_eq r.call_id id) (λ r. record r { status = status }) rows

abbrev pub first_open : Text → List ReservationRow → Option ReservationRow
first_open id rows = select_first (λ r. text_eq r.call_id id && is_open r.status) rows

set_status_absent :
    (id : Text) (status : ReservationStatus) (xs : List ReservationRow)
    → exists_where (λ r. text_eq r.call_id id) xs ≡ false
    → set_status id status xs ≡ xs
unfolding exists_where update_where
set_status_absent id status [] h = refl
set_status_absent id status (x ∷ xs) h = elim (Bool-cases (text_eq x.call_id id)) [
  | inl same ↦ absurd (ground arith)
  | inr other ↦ rw (other, set_status_absent id status xs (rw other at h))
]

set_status_head :
    (status : ReservationStatus) (x : ReservationRow) (xs : List ReservationRow)
    → exists_where (λ r. text_eq r.call_id x.call_id) xs ≡ false
    → set_status x.call_id status (x ∷ xs) ≡ record x { status = status } ∷ xs
unfolding update_where
set_status_head status x xs h = rw (text_eq_refl x.call_id, set_status_absent x.call_id status xs h)

and_right : (a b : Bool) → a && b ≡ true → b ≡ true
and_right true b h = h
and_right false b h = absurd (ground arith)

text_eq_symm : (a b : Text) → text_eq a b ≡ false → text_eq b a ≡ false
text_eq_symm a b h = ground (arith, text_eq_iff a b, text_eq_iff b a)

-- A row that is found does not have a call that no row has.
first_open_differs :
    (id k : Text) (res : ReservationRow) (xs : List ReservationRow)
    → first_open id xs ≡ some res
    → exists_where (λ r. text_eq r.call_id k) xs ≡ false
    → text_eq res.call_id k ≡ false
unfolding select_first exists_where
first_open_differs id k res [] e h = absurd (ground arith)
first_open_differs id k res (x ∷ xs) e h =
    elim (Bool-cases (text_eq x.call_id id && is_open x.status)) [
      | inl hit ↦ ground arith
      | inr miss ↦ first_open_differs id k res xs (rw miss at e) (ground arith)
    ]

exists-set_status :
    (k id : Text) (status : ReservationStatus) (xs : List ReservationRow)
    → exists_where (λ r. text_eq r.call_id k) (set_status id status xs)
      ≡ exists_where (λ r. text_eq r.call_id k) xs
unfolding exists_where update_where
exists-set_status k id status [] = refl
exists-set_status k id status (x ∷ xs) = ground (arith, exists-set_status k id status xs)

exists-append :
    (k : Text) (xs : List ReservationRow) (row : ReservationRow)
    → exists_where (λ r. text_eq r.call_id k) xs ≡ false
    → text_eq row.call_id k ≡ false
    → exists_where (λ r. text_eq r.call_id k) (xs ++ row ∷ []) ≡ false
unfolding exists_where
exists-append k [] row h d = rw d
exists-append k (x ∷ xs) row h d = ground (arith, exists-append k xs row)

pub HasUniqueCalls-set_status :
    (id : Text) (status : ReservationStatus) (xs : List ReservationRow)
    → HasUniqueCalls xs
    → HasUniqueCalls (set_status id status xs)
unfolding update_where
HasUniqueCalls-set_status id status [] h = tt
HasUniqueCalls-set_status id status (x ∷ xs) h =
    let rest = HasUniqueCalls-set_status id status xs h.1 in
    let absent = exists-set_status x.call_id id status xs ∙ h.0 in
    elim (Bool-cases (text_eq x.call_id id)) [
      | inl same ↦ rw same (absent, rest)
      | inr other ↦ rw other (absent, rest)
    ]

pub HasUniqueCalls-append :
    (xs : List ReservationRow) (row : ReservationRow)
    → exists_where (λ r. text_eq r.call_id row.call_id) xs ≡ false
    → HasUniqueCalls xs
    → HasUniqueCalls (xs ++ row ∷ [])
unfolding exists_where
HasUniqueCalls-append [] row h u = (refl, tt)
HasUniqueCalls-append (x ∷ xs) row h u = (
  exists-append x.call_id xs row u.0 (text_eq_symm x.call_id row.call_id (ground arith)),
  HasUniqueCalls-append xs row (ground arith) u.1,
)

module _ (c : ReservationRow → Bool) where
  abbrev pub open_sum : List ReservationRow → ℕ
  open_sum rows = sum_where (λ r. c r && is_open r.status) (λ r. r.amount) rows

  pub open_sum-append :
      (xs : List ReservationRow) (row : ReservationRow)
      → open_sum (xs ++ row ∷ [])
        ≡ open_sum xs + (if c row && is_open row.status then row.amount else 0)
  unfolding sum_where
  open_sum-append [] row = omega arith
  open_sum-append (x ∷ xs) row = omega (arith, open_sum-append xs row)

module _ (c : ReservationRow → Bool)
    (steady : (r : ReservationRow) (s : ReservationStatus)
      → c (record r { status = s }) ≡ c r) where
  hit_sum :
      (x res : ReservationRow) (status : ReservationStatus) (xs : List ReservationRow)
      → x ≡ res
      → is_open status ≡ false
      → is_open x.status ≡ true
      → exists_where (λ r. text_eq r.call_id x.call_id) xs ≡ false
      → open_sum c (set_status res.call_id status (x ∷ xs)) + (if c res then res.amount else 0)
        ≡ open_sum c (x ∷ xs)
  unfolding sum_where
  hit_sum x res status xs same closed hit absent =
      rw (← same, set_status_head status x xs absent) (ground (arith, steady x status))

  -- Closing an open reservation takes its amount out of the sums that count it.
  pub open_sum-set_status :
      (id : Text) (status : ReservationStatus) (res : ReservationRow) (xs : List ReservationRow)
      → is_open status ≡ false
      → HasUniqueCalls xs
      → first_open id xs ≡ some res
      → open_sum c (set_status res.call_id status xs) + (if c res then res.amount else 0)
        ≡ open_sum c xs
  unfolding sum_where update_where select_first
  open_sum-set_status id status res [] closed u e = absurd (ground arith)
  open_sum-set_status id status res (x ∷ xs) closed u e =
      elim (Bool-cases (text_eq x.call_id id && is_open x.status)) [
        | inl hit ↦
            let same : x ≡ res = some-injective x res (rw hit at e) in
            hit_sum x res status xs same closed
              (and_right (text_eq x.call_id id) (is_open x.status) hit) u.0
        | inr miss ↦
            let found : first_open id xs ≡ some res = rw miss at e in
            let other =
              text_eq_symm res.call_id x.call_id
                (first_open_differs id x.call_id res xs found u.0) in
            rw other (omega (arith, open_sum-set_status id status res xs closed u.1 found))
      ]
