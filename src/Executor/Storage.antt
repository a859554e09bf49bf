-- ===== src/Executor/Storage.antt =====
-- The native tables and indexes, as engine/executor/dml.py calls them. `D` is the database, `V` a
-- value of a column and `R` the identifier of a row. Each call gives the database that it leaves;
-- `none`, or `false` where a call returns nothing, is an exception.
use quipudb.Prelude.{ℕ, String, ◌≡◌, Bool, true, false, Option, List, str_eq}

pub record Storage (D V R : Type 0) : Type 0 where
  -- `database.table(name)` and `database.index(table, name)` give a handle.
  pub has_table : String → D → Bool
  pub has_index : String → String → D → Bool
  pub insert_row : String → List V → D → D × Option R
  -- `remove(key)`, with the number of rows that it has removed.
  pub remove_rows : String → V → D → D × Option ℕ
  -- `read(rid)`, which can raise, and can find no row.
  pub read_row : String → R → D → Option (Option (List V))
  pub insert_entry : String → String → V → R → D → D × Bool
  -- `remove_one(key, rid)`, which says whether the entry was there.
  pub remove_entry : String → String → V → R → D → D × Option Bool

-- What the native core documents of the insertions into the indexes of a table.
pub record IsIndexing {D V R : Type 0} (s : Storage D V R) (table : String) : Type 0 where
  -- The index has the entry.
  pub has_entry : String → V → R → D → Bool
  -- An insertion that returns has put its entry into the index.
  pub entry_added :
      (i : String) (k : V) (r : R) (d : D)
      → (s.insert_entry table i k r d).1 ≡ true
      → has_entry i k r (s.insert_entry table i k r d).0 ≡ true
  -- An insertion into one index leaves the others as they were.
  pub entry_kept :
      (i j : String) (k l : V) (r q : R) (d : D)
      → str_eq i j ≡ false
      → has_entry j l q (s.insert_entry table i k r d).0 ≡ has_entry j l q d
