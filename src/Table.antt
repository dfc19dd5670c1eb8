-- ===== src/Table.antt =====
-- A SQL table as its rows in rowid order, and the statements that the storage helpers send to it.
-- `key` is the primary key. `upsert` is `INSERT ... ON CONFLICT(key) DO UPDATE SET` where every
-- other column is set from `excluded`, `insert_or_ignore` is `ON CONFLICT DO NOTHING`.
pub mod Laws
use cloister.Prelude.{Bool, true, false, ◌≡◌, Option, none, some, List, [], ◌∷◌, if◌then◌else◌}
use cloister.Prelude.Keys.{Eq, ◌==◌}

module _ {ℓ} {R : Type ℓ} where
  -- SELECT ... WHERE p
  unfoldable pub select : (R → Bool) → List R → List R
  select p [] = []
  select p (r ∷ t) = if p r then r ∷ select p t else select p t

  -- DELETE ... WHERE p, and the number of rows that RETURNING lists
  unfoldable pub delete_where : (R → Bool) → List R → List R
  delete_where p [] = []
  delete_where p (r ∷ t) = if p r then delete_where p t else r ∷ delete_where p t

  -- SELECT 1 ... WHERE p LIMIT 1
  unfoldable pub exists : (R → Bool) → List R → Bool
  exists p [] = false
  exists p (r ∷ t) = if p r then true else exists p t

  module _ {κ} {K : Type κ} ⦃e : Eq K⦄ (key : R → K) where
    -- SELECT ... WHERE key = k LIMIT 1
    unfoldable pub find : K → List R → Option R
    find k [] = none
    find k (r ∷ t) = if key r == k then some r else find k t

    unfoldable pub upsert : R → List R → List R
    upsert r [] = r ∷ []
    upsert r (s ∷ t) = if key s == key r then r ∷ t else s ∷ upsert r t

    unfoldable pub insert_or_ignore : R → List R → List R
    insert_or_ignore r [] = r ∷ []
    insert_or_ignore r (s ∷ t) = if key s == key r then s ∷ t else s ∷ insert_or_ignore r t

    -- UPDATE ... SET f WHERE key = k
    unfoldable pub update : K → (R → R) → List R → List R
    update k f [] = []
    update k f (r ∷ t) = if key r == k then f r ∷ update k f t else r ∷ update k f t

    -- the primary key's constraint
    abbrev pub HasDistinctKeys : List R → Type ℓ
    HasDistinctKeys [] = Unit
    HasDistinctKeys (r ∷ t) = (find (key r) t ≡ none) × HasDistinctKeys t
