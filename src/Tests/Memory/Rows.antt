-- ===== src/Tests/Memory/Rows.antt =====
-- A table as a list of rows, new rows first, with the queue of events beside it.
use skit_x.Common.{
  ℕ, ◌≡◌, String, ◌<>◌, Bool, false, Option, none, some, List, [], ◌∷◌, ◌++◌, Result, ok, err,
  length, take, filter, all, ◌==◌, str_eq, if◌then◌else◌,
}
use skit_x.Dbx.{
  Error, db_duplicated_entry, db_not_found, failure, Arg, text, bytes, num, time, uuid, Params, get,
  Querier,
}
use skit_x.Dbx.Table.{Table, find, is_fresh, is_taken, key}
use skit_x.Keyset.{is_past}
use skit_x.Widget.{Created}

pub record Db (Row : Type 0) : Type 0 where
  pub rows : List Row
  pub outbox : List Created

-- A table with the reading of a row from its parameters and the meaning of its predicates.
pub record Sample (Row : Type 0) : Type 0 where
  pub table : Table Row
  pub row_from : Params → Option Row
  pub holds : String → Params → Row → Bool
  pub rows_from : List Arg → List Row
  pub reads : (r : Row) → row_from (table.args r) ≡ some r
  pub stored_id : (r : Row) → table.id (table.stored r) ≡ table.id r
  pub assign_id : (r old : Row) → table.id (table.assign r old) ≡ table.id old
  pub differ : str_eq table.delete_sql table.update_sql ≡ false

abbrev pub duplicated : Error
duplicated = record { text = "duplicated entry"; causes = db_duplicated_entry ∷ [] }

abbrev pub no_row : Error
no_row = record { text = "not found"; causes = db_not_found ∷ [] }

abbrev pub bad_args : Error
bad_args = record { text = "bad arguments"; causes = failure 9 ∷ [] }

abbrev pub id_from : Params → ℕ
id_from ((_, uuid i) ∷ []) = i
id_from _ = 0

-- ILIKE that asks for the whole value.
abbrev pub ilike : String → String → Bool
ilike value pattern' = str_eq ("%" <> value <> "%") pattern'

abbrev pub ilike_arg : String → Option Arg → Bool
ilike_arg value (some (text s)) = ilike value s
ilike_arg value _ = false

module _ {Row : Type 0} (t : Table Row) where
  -- the row comparison with the two parameters of the boundary
  abbrev pub past_args : Row → Option Arg → Option Arg → Bool
  past_args r (some (time ts)) (some (bytes (i ∷ []))) = is_past (key t r) (ts, i)
  past_args r _ _ = false

module _ {Row : Type 0} (s : Sample Row) where
  unfoldable pub replace : Row → List Row → List Row
  replace r [] = []
  replace r (x ∷ xs) =
      if s.table.id x == s.table.id r
      then s.table.assign (s.table.stored r) x ∷ xs
      else x ∷ replace r xs

  unfoldable pub erase : ℕ → List Row → List Row
  erase i [] = []
  erase i (x ∷ xs) = let rest = erase i xs in if s.table.id x == i then rest else x ∷ rest

  -- the rows whose id is missing, one after another
  unfoldable pub add_missing : List Row → List Row → List Row
  add_missing [] rs = rs
  add_missing (n ∷ ns) rs = elim (find s.table (s.table.id n) rs) [
    | none ↦ add_missing ns (s.table.stored n ∷ rs)
    | some _ ↦ add_missing ns rs
  ]

  abbrev pub insert_row : Option Row → Db Row → Result Error (Unit {0}) × Db Row
  insert_row none db = (err bad_args, db)
  insert_row (some r) db =
      if is_fresh s.table r db.rows
      then (ok tt, record db { rows = s.table.stored r ∷ db.rows })
      else (err duplicated, db)

  abbrev update_old : Row → Option Row → Db Row → Result Error ℕ × Db Row
  update_old r none db = (ok 0, db)
  update_old r (some old) db =
      if is_taken s.table r db.rows
      then (err duplicated, db)
      else (ok 1, record db { rows = replace r db.rows })

  abbrev pub update_row : Option Row → Db Row → Result Error ℕ × Db Row
  update_row none db = (err bad_args, db)
  update_row (some r) db = update_old r (find s.table (s.table.id r) db.rows) db

  abbrev delete_old : ℕ → Option Row → Db Row → Result Error ℕ × Db Row
  delete_old i none db = (ok 0, db)
  delete_old i (some old) db = (ok 1, record db { rows = erase i db.rows })

  abbrev pub delete_row : ℕ → Db Row → Result Error ℕ × Db Row
  delete_row i db = delete_old i (find s.table i db.rows) db

  abbrev one_row : Option Row → Result Error Row
  one_row none = err no_row
  one_row (some r) = ok r

  unfoldable pub selected : List String → Params → Db Row → List Row
  selected conds p db = filter (λ r. all (λ c. s.holds c p r) conds) db.rows

  abbrev limited : Option Arg → List Row → List Row
  limited (some (num n)) rs = take n rs
  limited _ rs = rs

  abbrev pub committed :
      Db Row → Result Error (Unit {0}) × Db Row → Result Error (Unit {0}) × Db Row
  committed old (ok tt, db) = (ok tt, db)
  committed old (err e, db) = (err e, old)

  abbrev pub memory : Querier Row
  memory = record {
    Db = Db Row;
    named_exec = λ sql p db. insert_row (s.row_from p) db;
    named_exec_rows_affected = λ sql p db.
        if str_eq sql s.table.update_sql
        then update_row (s.row_from p) db
        else delete_row (id_from p) db;
    bulk_insert = λ table columns values tail db.
        (ok tt, record db { rows = add_missing (s.rows_from values) db.rows });
    named_query_one = λ sql p db. one_row (find s.table (id_from p) db.rows);
    named_query_count = λ st p db. ok (length (selected st.conditions p db));
    named_query_list = λ st p db. ok (limited (get "limit" p) (selected st.conditions p db));
    within_tran = λ f db. committed db (f db);
  }

  -- The scheduler of a transaction.
  abbrev pub tasks : Created → Db Row → Result Error (Unit {0}) × Db Row
  tasks c db = (ok tt, record db { outbox = db.outbox ++ c ∷ [] })
