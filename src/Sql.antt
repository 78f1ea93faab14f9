-- ===== src/Sql.antt =====
-- Statements on one table, as internal/*/repository.go writes them: the rows in the order of their
-- insertion, a WHERE clause as a test, `SET` as a function on the row.
pub mod Laws
pub mod Keys
pub mod Counts
pub mod Sole
use cloud_box.Base.{
  ℕ, suc, Bool, Option, none, some, List, [], ◌∷◌, ◌++◌, if◌then◌else◌, leb, length,
}

module _ {ℓ} {A : Type ℓ} where
  -- SELECT ... WHERE p, read with QueryRow: the first row.
  unfoldable pub find_where : (A → Bool) → List A → Option A
  find_where p [] = none
  find_where p (r ∷ rows) = if p r then some r else find_where p rows

  -- SELECT ... WHERE p
  unfoldable pub select_where : (A → Bool) → List A → List A
  select_where p [] = []
  select_where p (r ∷ rows) = let rest = select_where p rows in if p r then r ∷ rest else rest

  -- UPDATE ... SET f WHERE p
  unfoldable pub update_where : (A → Bool) → (A → A) → List A → List A
  update_where p f [] = []
  update_where p f (r ∷ rows) = (if p r then f r else r) ∷ update_where p f rows

  -- UPDATE ... SET f WHERE p RETURNING ..., read with QueryRow: the first row that was changed.
  unfoldable pub returning : (A → Bool) → (A → A) → List A → Option A
  returning p f [] = none
  returning p f (r ∷ rows) = if p r then some (f r) else returning p f rows

  -- DELETE ... WHERE p
  unfoldable pub delete_where : (A → Bool) → List A → List A
  delete_where p [] = []
  delete_where p (r ∷ rows) = let rest = delete_where p rows in if p r then rest else r ∷ rest

  -- RowsAffected of a statement with WHERE p
  unfoldable pub affected : (A → Bool) → List A → ℕ
  affected p [] = 0
  affected p (r ∷ rows) = let rest = affected p rows in if p r then suc rest else rest

  -- INSERT
  abbrev pub insert_row : A → List A → List A
  insert_row r rows = rows ++ r ∷ []

  -- Insertion into rows that an ORDER BY has sorted; `before r q` says that `r` may stand before `q`.
  unfoldable pub sort_insert : (A → A → Bool) → A → List A → List A
  sort_insert before r [] = r ∷ []
  sort_insert before r (q ∷ rows) =
      let rest = sort_insert before r rows in if before r q then r ∷ q ∷ rows else q ∷ rest

  -- ORDER BY; rows that are equal under it keep their order.
  unfoldable pub order_by : (A → A → Bool) → List A → List A
  unfolding sort_insert
  order_by before [] = []
  order_by before (r ∷ rows) = sort_insert before r (order_by before rows)
