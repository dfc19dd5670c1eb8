-- ===== src/Table/Laws.antt =====
-- Lookups by primary key after each statement, and the constraint on keys.
use cloister.Prelude.{
  All, ◌++◌, false, length, ◌+◌, some, ◌≡◌, refl, Bool, not, ◌&&◌, none, some, List, [], ◌∷◌, arith,
  if◌then◌else◌, Bool-cases, inl, inr, is_some,
}
use cloister.Prelude.Keys.{Eq, ◌==◌}
use mathlib.Core.Option
use cloister.Table.{
  exists, select, delete_where, find, upsert, insert_or_ignore, update, HasDistinctKeys,
}

module _ {ℓ κ} {R : Type ℓ} {K : Type κ} ⦃e : Eq K⦄ (key : R → K) where
  pub find-upsert :
      (r : R) (k : K) (t : List R)
      → find key k (upsert key r t) ≡ (if key r == k then some r else find key k t)
  unfolding find upsert
  find-upsert r k [] = refl
  find-upsert r k (s ∷ t) = ground (
    arith,
    find-upsert r k t,
    e.beq_iff (key s) (key r),
    e.beq_iff (key s) k,
    e.beq_iff (key r) k,
  )

  pub find-insert_or_ignore :
      (r : R) (k : K) (t : List R)
      → find key k (insert_or_ignore key r t)
        ≡ (if key r == k && not (is_some (find key k t)) then some r else find key k t)
  unfolding find insert_or_ignore
  find-insert_or_ignore r k [] = ground arith
  find-insert_or_ignore r k (s ∷ t) = ground (
    arith,
    find-insert_or_ignore r k t,
    e.beq_iff (key s) (key r),
    e.beq_iff (key s) k,
    e.beq_iff (key r) k,
  )

  pub find-update :
      (f : R → R) (k j : K) (t : List R)
      → ((r : R) → key (f r) ≡ key r)
      → find key j (update key k f t)
        ≡ (if k == j then Option.map f (find key j t) else find key j t)
  unfolding find update
  find-update f k j [] keeps = ground arith
  find-update f k j (s ∷ t) keeps =
      ground (
        arith,
        find-update f k j t,
        keeps s,
        e.beq_iff (key s) k,
        e.beq_iff (key s) j,
        e.beq_iff k j,
      )

  -- A deletion by key finds nothing of that key afterwards, and leaves the other keys.
  pub find-delete_where :
      (k j : K) (t : List R)
      → find key j (delete_where (λ r. key r == k) t) ≡ (if k == j then none else find key j t)
  unfolding find delete_where
  find-delete_where k j [] = ground arith
  find-delete_where k j (s ∷ t) =
      ground
        (arith, find-delete_where k j t, e.beq_iff (key s) k, e.beq_iff (key s) j, e.beq_iff k j)

  -- Deleting rows can only lose a key.
  find-delete-eq-none :
      (p : R → Bool) (j : K) (t : List R)
      → find key j t ≡ none
      → find key j (delete_where p t) ≡ none
  unfolding find delete_where
  find-delete-eq-none p j [] h = refl
  find-delete-eq-none p j (s ∷ t) h = ground (arith, find-delete-eq-none p j t)

  pub upsert-HasDistinctKeys :
      (r : R) (t : List R) → HasDistinctKeys key t → HasDistinctKeys key (upsert key r t)
  unfolding find upsert
  upsert-HasDistinctKeys r [] h = (refl, tt)
  upsert-HasDistinctKeys r (s ∷ t) h = elim (Bool-cases (key s == key r)) [
    | inl same ↦ rw same (rw ((e.beq_iff _ _).0 same) at h.0, h.1)
    | inr other ↦ rw other (
      rw (find-upsert r (key s) t)
          (ground (arith, h.0, e.beq_iff (key s) (key r), e.beq_iff (key r) (key s))),
      upsert-HasDistinctKeys r t h.1,
    )
  ]

  pub insert_or_ignore-HasDistinctKeys :
      (r : R) (t : List R) → HasDistinctKeys key t → HasDistinctKeys key (insert_or_ignore key r t)
  unfolding find insert_or_ignore
  insert_or_ignore-HasDistinctKeys r [] h = (refl, tt)
  insert_or_ignore-HasDistinctKeys r (s ∷ t) h = elim (Bool-cases (key s == key r)) [
    | inl same ↦ rw same h
    | inr other ↦ rw other (
      rw (find-insert_or_ignore r (key s) t)
          (ground (arith, h.0, e.beq_iff (key s) (key r), e.beq_iff (key r) (key s))),
      insert_or_ignore-HasDistinctKeys r t h.1,
    )
  ]

  find-update-eq-none :
      (f : R → R) (k j : K) (t : List R)
      → ((r : R) → key (f r) ≡ key r)
      → find key j t ≡ none
      → find key j (update key k f t) ≡ none
  find-update-eq-none f k j t keeps h = rw (find-update f k j t keeps) (ground (arith, h))

  pub update-HasDistinctKeys :
      (k : K) (f : R → R) (t : List R)
      → ((r : R) → key (f r) ≡ key r)
      → HasDistinctKeys key t
      → HasDistinctKeys key (update key k f t)
  unfolding update
  update-HasDistinctKeys k f [] keeps h = tt
  update-HasDistinctKeys k f (s ∷ t) keeps h = elim (Bool-cases (key s == k)) [
    | inl same ↦
        rw (same, keeps s)
          (find-update-eq-none f k (key s) t keeps h.0, update-HasDistinctKeys k f t keeps h.1)
    | inr other ↦
        rw other
          (find-update-eq-none f k (key s) t keeps h.0, update-HasDistinctKeys k f t keeps h.1)
  ]

  pub delete_where-HasDistinctKeys :
      (p : R → Bool) (t : List R) → HasDistinctKeys key t → HasDistinctKeys key (delete_where p t)
  unfolding delete_where
  delete_where-HasDistinctKeys p [] h = tt
  delete_where-HasDistinctKeys p (s ∷ t) h = elim (Bool-cases (p s)) [
    | inl gone ↦ rw gone (delete_where-HasDistinctKeys p t h.1)
    | inr kept ↦ rw kept (find-delete-eq-none p (key s) t h.0, delete_where-HasDistinctKeys p t h.1)
  ]

  -- With distinct keys, a deletion takes away the row of a key exactly if it meets the condition.
  pub find-delete_where_distinct :
      (p : R → Bool) (j : K) (t : List R)
      → HasDistinctKeys key t
      → find key j (delete_where p t)
        ≡ elim (find key j t) [ none ↦ none | some r ↦ if p r then none else some r ]
  unfolding find delete_where
  find-delete_where_distinct p j [] h = refl
  find-delete_where_distinct p j (s ∷ t) h = elim (Bool-cases (key s == j)) [
    | inl same ↦ ground (arith, find-delete-eq-none p j t (rw ((e.beq_iff _ _).0 same) at h.0))
    | inr other ↦ ground (arith, find-delete_where_distinct p j t h.1)
  ]

  exists-key-eq-false :
      (q : R → Bool) (k : K) (t : List R)
      → find key k t ≡ none
      → exists (λ r. key r == k && q r) t ≡ false
  unfolding find exists
  exists-key-eq-false q k [] h = refl
  exists-key-eq-false q k (s ∷ t) h = ground (arith, exists-key-eq-false q k t)

  -- With distinct keys, a test on the rows of one key is a test on the row that is found.
  pub exists-key :
      (q : R → Bool) (k : K) (t : List R)
      → HasDistinctKeys key t
      → exists (λ r. key r == k && q r) t ≡ elim (find key k t) [ none ↦ false | some r ↦ q r ]
  unfolding find exists
  exists-key q k [] h = refl
  exists-key q k (s ∷ t) h = elim (Bool-cases (key s == k)) [
    | inl same ↦ ground (arith, exists-key-eq-false q k t (rw ((e.beq_iff _ _).0 same) at h.0))
    | inr other ↦ ground (arith, exists-key q k t h.1)
  ]

  -- A row is found exactly if some row has the key.
  pub is_some-find : (k : K) (t : List R) → is_some (find key k t) ≡ exists (λ r. key r == k) t
  unfolding find exists
  is_some-find k [] = refl
  is_some-find k (s ∷ t) = ground (arith, is_some-find k t)

module _ {ℓ} {R : Type ℓ} where
  pub length-delete_where :
      (p : R → Bool) (t : List R) → length (delete_where p t) + length (select p t) ≡ length t
  unfolding delete_where select
  length-delete_where p [] = omega arith
  length-delete_where p (r ∷ t) = ground (arith, length-delete_where p t)

  pub select-append : (p : R → Bool) (s t : List R) → select p (s ++ t) ≡ select p s ++ select p t
  unfolding select
  select-append p [] t = refl
  select-append p (r ∷ s) t = ground (arith, select-append p s t)

-- What holds of every row after each statement.
module _ {ℓ κ} {R : Type ℓ} (P : R → Type κ) where
  pub delete_where-All : (p : R → Bool) (t : List R) → All P t → All P (delete_where p t)
  unfolding delete_where
  delete_where-All p [] h = tt
  delete_where-All p (r ∷ t) h = elim (Bool-cases (p r)) [
    | inl gone ↦ rw gone (delete_where-All p t h.1)
    | inr kept ↦ rw kept (h.0, delete_where-All p t h.1)
  ]

  module _ {μ} {K : Type μ} ⦃e : Eq K⦄ (key : R → K) where
    pub insert_or_ignore-All :
        (r : R) (t : List R) → P r → All P t → All P (insert_or_ignore key r t)
    unfolding insert_or_ignore
    insert_or_ignore-All r [] p h = (p, tt)
    insert_or_ignore-All r (s ∷ t) p h = elim (Bool-cases (key s == key r)) [
      | inl same ↦ rw same h
      | inr other ↦ rw other (h.0, insert_or_ignore-All r t p h.1)
    ]

    pub update-All :
        (k : K) (f : R → R) (t : List R) → ((r : R) → P (f r)) → All P t → All P (update key k f t)
    unfolding update
    update-All k f [] p h = tt
    update-All k f (s ∷ t) p h = elim (Bool-cases (key s == k)) [
      | inl same ↦ rw same (p s, update-All k f t p h.1)
      | inr other ↦ rw other (h.0, update-All k f t p h.1)
    ]
