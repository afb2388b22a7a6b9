-- ===== src/Store/Unique.antt =====
-- Tables with a primary key.
use emergent_inc.Common.{
  ℕ, ◌+◌, ◌≡◌, refl, Bool, true, false, none, some, List, [], ◌∷◌, ◌++◌, Text, text_eq, text_eq_iff,
  text_eq_comm, Bool-cases, inl, inr, arith, some-injective, sym, subst, ◌∙◌,
}
use emergent_inc.Store.Table.{select_first, exists_where, update_where}

module _ {ℓ} {A : Type ℓ} (key : A → Text) where
  abbrev pub is_key : Text → A → Bool
  is_key id x = text_eq (key x) id

  -- No two rows have the same key.
  abbrev pub HasUniqueKeys : List A → Type 0
  HasUniqueKeys [] = Unit
  HasUniqueKeys (x ∷ xs) = (exists_where (is_key (key x)) xs ≡ false) × HasUniqueKeys xs

  unfoldable pub total : (A → ℕ) → List A → ℕ
  total weight [] = 0
  total weight (x ∷ xs) = weight x + total weight xs

  pub exists_where-select_first :
      (id : Text) (xs : List A) (x : A)
      → select_first (is_key id) xs ≡ some x
      → exists_where (is_key id) xs ≡ true
  unfolding select_first exists_where
  exists_where-select_first id [] x h = absurd (ground arith)
  exists_where-select_first id (y ∷ ys) x h = elim (Bool-cases (is_key id y)) [
    | inl hit ↦ rw hit refl
    | inr miss ↦ rw miss (exists_where-select_first id ys x (rw (miss, select_first) at h))
  ]

  update_where-none :
      (id : Text) (f : A → A) (xs : List A)
      → exists_where (is_key id) xs ≡ false
      → update_where (is_key id) f xs ≡ xs
  unfolding exists_where update_where
  update_where-none id f [] h = refl
  update_where-none id f (x ∷ xs) h = elim (Bool-cases (is_key id x)) [
    | inl hit ↦ absurd (ground (arith, rw (hit, exists_where) at h))
    | inr miss ↦ rw (miss, update_where-none id f xs (rw (miss, exists_where) at h)) refl
  ]

  -- An update of one row moves a total by what it moves that row.
  pub total-update_where :
      (id : Text) (f : A → A) (weight : A → ℕ) (xs : List A) (x : A)
      → HasUniqueKeys xs
      → select_first (is_key id) xs ≡ some x
      → total weight (update_where (is_key id) f xs) + weight x ≡ total weight xs + weight (f x)
  unfolding total select_first update_where
  total-update_where id f weight [] x unique h = absurd (ground arith)
  total-update_where id f weight (y ∷ ys) x unique h = elim (Bool-cases (is_key id y)) [
    | inl hit ↦
        let same = update_where-none id f ys (
          subst (λ k. exists_where (is_key k) ys ≡ false) ((text_eq_iff (key y) id).0 hit)
            unique.0) in
        let found = some-injective y x (rw (hit, select_first) at h) in
        rw (hit, same, sym found) (omega arith)
    | inr miss ↦
        rw miss (
          omega
            (arith, total-update_where id f weight ys x unique.1 (rw (miss, select_first) at h)))
  ]

  pub select_first-update_where :
      (id : Text) (f : A → A) (xs : List A) (x : A)
      → key (f x) ≡ key x
      → select_first (is_key id) xs ≡ some x
      → select_first (is_key id) (update_where (is_key id) f xs) ≡ some (f x)
  unfolding select_first update_where
  select_first-update_where id f [] x k h = absurd (ground arith)
  select_first-update_where id f (y ∷ ys) x k h = elim (Bool-cases (is_key id y)) [
    | inl hit ↦
        let found = some-injective y x (rw (hit, select_first) at h) in
        rw hit (rw found (rw (k, subst (λ z. text_eq (key z) id ≡ true) found hit) refl))
    | inr miss ↦
        rw (miss, miss) (select_first-update_where id f ys x k (rw (miss, select_first) at h))
  ]

  pub select_first-none :
      (p : A → Bool) (xs : List A) → select_first p xs ≡ none → exists_where p xs ≡ false
  unfolding select_first exists_where
  select_first-none p [] h = refl
  select_first-none p (x ∷ xs) h = elim (Bool-cases (p x)) [
    | inl hit ↦ absurd (ground (arith, rw (hit, select_first) at h))
    | inr miss ↦ rw miss (select_first-none p xs (rw (miss, select_first) at h))
  ]

  exists_where-append :
      (p : A → Bool) (xs : List A) (x : A)
      → p x ≡ false
      → exists_where p (xs ++ x ∷ []) ≡ exists_where p xs
  unfolding exists_where
  exists_where-append p [] x h = ground (arith, h)
  exists_where-append p (y ∷ ys) x h = ground (arith, exists_where-append p ys x h)

  -- A new row with a new key.
  pub HasUniqueKeys-append :
      (xs : List A) (x : A)
      → exists_where (is_key (key x)) xs ≡ false
      → HasUniqueKeys xs
      → HasUniqueKeys (xs ++ x ∷ [])
  unfolding exists_where
  HasUniqueKeys-append [] x fresh h = (refl, tt)
  HasUniqueKeys-append (y ∷ ys) x fresh h = elim (Bool-cases (is_key (key x) y)) [
    | inl hit ↦ absurd (ground (arith, rw (hit, exists_where) at fresh))
    | inr miss ↦ (
      exists_where-append (is_key (key y)) ys x (text_eq_comm (key x) (key y) ∙ miss) ∙ h.0,
      HasUniqueKeys-append ys x (rw (miss, exists_where) at fresh) h.1,
    )
  ]

  pub total-append :
      (weight : A → ℕ) (xs : List A) (x : A)
      → total weight (xs ++ x ∷ []) ≡ total weight xs + weight x
  unfolding total
  total-append weight [] x = omega arith
  total-append weight (y ∷ ys) x = omega (arith, total-append weight ys x)

  pub select_first-append :
      (id : Text) (xs : List A) (x : A)
      → select_first (is_key id) xs ≡ none
      → key x ≡ id
      → select_first (is_key id) (xs ++ x ∷ []) ≡ some x
  unfolding select_first
  select_first-append id [] x h k = ground (arith, (text_eq_iff (key x) id).1 k)
  select_first-append id (y ∷ ys) x h k = elim (Bool-cases (is_key id y)) [
    | inl hit ↦ absurd (ground (arith, rw (hit, select_first) at h))
    | inr miss ↦ rw miss (select_first-append id ys x (rw (miss, select_first) at h) k)
  ]

  exists_where-update_where :
      (id k : Text) (f : A → A) (xs : List A)
      → ((x : A) → key (f x) ≡ key x)
      → exists_where (is_key k) (update_where (is_key id) f xs) ≡ exists_where (is_key k) xs
  unfolding exists_where update_where
  exists_where-update_where id k f [] keeps = refl
  exists_where-update_where id k f (x ∷ xs) keeps =
      ground (arith, keeps x, exists_where-update_where id k f xs keeps)

  -- An update that leaves the keys alone.
  pub HasUniqueKeys-update_where :
      (id : Text) (f : A → A) (xs : List A)
      → ((x : A) → key (f x) ≡ key x)
      → HasUniqueKeys xs
      → HasUniqueKeys (update_where (is_key id) f xs)
  unfolding update_where
  HasUniqueKeys-update_where id f [] keeps h = tt
  HasUniqueKeys-update_where id f (x ∷ xs) keeps h =
      let same = exists_where-update_where id (key x) f xs keeps in
      let rest = HasUniqueKeys-update_where id f xs keeps h.1 in
      elim (Bool-cases (is_key id x)) [
        | inl hit ↦ rw hit (rw (keeps x) (same ∙ h.0), rest)
        | inr miss ↦ rw miss (same ∙ h.0, rest)
      ]

  -- The row of another key.
  pub select_first-update_other :
      (id other : Text) (f : A → A) (xs : List A)
      → ((x : A) → key (f x) ≡ key x)
      → text_eq id other ≡ false
      → select_first (is_key other) (update_where (is_key id) f xs) ≡ select_first (is_key other) xs
  unfolding select_first update_where
  select_first-update_other id other f [] keeps apart = refl
  select_first-update_other id other f (x ∷ xs) keeps apart =
      let rest = select_first-update_other id other f xs keeps apart in
      elim (Bool-cases (is_key id x)) [
        | inl hit ↦
            let missed : is_key other x ≡ false =
              subst (λ k. text_eq k other ≡ false) (sym ((text_eq_iff (key x) id).0 hit)) apart in
            rw (hit, keeps x, missed) rest
        | inr miss ↦ rw (miss, rest) refl
      ]
