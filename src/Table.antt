-- ===== src/Table.antt =====
-- A table of the database as SQLAlchemy's queries see it (models/*.py): its rows in the order in
-- which the database returns them, and the sequence that gives the next primary key.
pub mod Laws
pub mod Keys
use gsm_sv.Prelude.{
  ℕ, suc, ◌+◌, Bool, true, false, Option, none, some, List, [], ◌∷◌, ◌++◌, if◌then◌else◌,
}

pub record Table (A : Type 0) : Type 0 where
  pub rows : List A
  pub next_id : ℕ

module _ {A : Type 0} where
  -- `.filter(p).first()`
  abbrev pub find_first : (A → Bool) → List A → Option A
  find_first p [] = none
  find_first p (x ∷ xs) = if p x then some x else find_first p xs

  -- `.filter(p).all()`
  abbrev pub select : (A → Bool) → List A → List A
  select p [] = []
  select p (x ∷ xs) = if p x then x ∷ select p xs else select p xs

  -- `.filter(p).count()`
  abbrev pub count_where : (A → Bool) → List A → ℕ
  count_where p [] = 0
  count_where p (x ∷ xs) = (if p x then 1 else 0) + count_where p xs

  -- `.filter(p).delete()`
  abbrev pub drop_where : (A → Bool) → List A → List A
  drop_where p [] = []
  drop_where p (x ∷ xs) = if p x then drop_where p xs else x ∷ drop_where p xs

  -- `.filter(p).update(f)`, and assignments to the fields of the rows that pass the test
  abbrev pub update_where : (A → Bool) → (A → A) → List A → List A
  update_where p f [] = []
  update_where p f (x ∷ xs) = (if p x then f x else x) ∷ update_where p f xs

  abbrev pub delete_where : (A → Bool) → Table A → Table A
  delete_where p t = record t { rows = drop_where p t.rows }

  abbrev pub set_where : (A → Bool) → (A → A) → Table A → Table A
  set_where p f t = record t { rows = update_where p f t.rows }

  -- `db.add(row)`: the sequence gives the key.
  abbrev pub insert : (ℕ → A) → Table A → Table A
  insert row t = record { rows = t.rows ++ row t.next_id ∷ []; next_id = suc t.next_id }
