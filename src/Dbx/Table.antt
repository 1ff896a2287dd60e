-- ===== src/Dbx/Table.antt =====
-- What is assumed of Postgres behind dbx for one table: the documented effect of the statements of
-- a store under the table's primary key and unique index, while the database answers (`up`), and
-- that a statement which fails changes nothing.
use skit_x.Common.{
  ℕ, String, ◌≡◌, Bool, true, false, not, ◌&&◌, ◌*◌, ◌/◌, Option, none, some, List, [], ◌∷◌, ok,
  err, length, take, filter, any, all, ◌==◌, if◌then◌else◌,
}
use skit_x.Keyset.{Key}
use skit_x.Dbx.{
  Error, is, err_not_found, db_duplicated_entry, db_not_found, num, uuid, Params, get, Querier,
}

-- The statements of a store and what they name in the table: the parameters of a row, its id and
-- sort key, when two rows collide in the unique index, what UPDATE assigns, and what the columns
-- keep of the values that they are given.
pub record Table (Row : Type 0) : Type 0 where
  pub insert_sql : String
  pub update_sql : String
  pub delete_sql : String
  pub select_one_sql : String
  pub select_sql : String
  pub count_sql : String
  pub args : Row → Params
  pub id : Row → ℕ
  pub created_at : Row → ℕ
  pub collide : Row → Row → Bool
  pub assign : Row → Row → Row
  -- the row as its columns keep it
  pub stored : Row → Row

-- A TIMESTAMPTZ column keeps microseconds: what the driver sends of a time in nanoseconds.
unfoldable pub micros : ℕ → ℕ
micros t = t / 1000 * 1000

-- The tails of the listings.
abbrev pub newest_first : String
newest_first = " ORDER BY created_at DESC, id DESC LIMIT :limit"

abbrev pub offset_rows : String
offset_rows = " OFFSET :offset ROWS FETCH NEXT :rows_per_page ROWS ONLY"

module _ {Row : Type 0} (t : Table Row) where
  abbrev pub key : Row → Key
  key r = (t.created_at r, t.id r)

  unfoldable pub find : ℕ → List Row → Option Row
  find i [] = none
  find i (r ∷ rs) = if t.id r == i then some r else find i rs

  -- another row has the value of `r` in the unique index
  unfoldable pub is_taken : Row → List Row → Bool
  is_taken r = any (λ s. not (t.id s == t.id r) && t.collide r s)

  -- neither the id nor the unique value of `r` is in the table
  abbrev pub is_fresh : Row → List Row → Bool
  is_fresh r rs = elim (find (t.id r) rs) [ none ↦ not (is_taken r rs) | some _ ↦ false ]

  pub record Serves (q : Querier Row) : Type 0 where
    -- the rows, newest first; whether the database answers; the meaning of a predicate of a WHERE
    pub listing : q.Db → List Row
    pub up : q.Db → Bool
    pub holds : String → Params → Row → Bool
    pub insert_fresh :
        (r : Row) (db : q.Db)
        → up db ≡ true
        → is_fresh r (listing db) ≡ true
        → (db' : q.Db) × (q.named_exec t.insert_sql (t.args r) db ≡ (ok tt, db'))
          × (up db' ≡ true)
          × ((i : ℕ)
              → find i (listing db')
                ≡ (if t.id r == i then some (t.stored r) else find i (listing db)))
    pub insert_taken :
        (r : Row) (db : q.Db)
        → up db ≡ true
        → is_fresh r (listing db) ≡ false
        → (e : Error) × (q.named_exec t.insert_sql (t.args r) db ≡ (err e, db))
          × (is e db_duplicated_entry ≡ true)
    pub update_row :
        (r old : Row) (db : q.Db)
        → up db ≡ true
        → find (t.id r) (listing db) ≡ some old
        → is_taken r (listing db) ≡ false
        → (db' : q.Db) × (q.named_exec_rows_affected t.update_sql (t.args r) db ≡ (ok 1, db'))
          × (up db' ≡ true)
          × ((i : ℕ)
              → find i (listing db')
                ≡ (if t.id r == i then some (t.assign (t.stored r) old) else find i (listing db)))
    pub update_taken :
        (r old : Row) (db : q.Db)
        → up db ≡ true
        → find (t.id r) (listing db) ≡ some old
        → is_taken r (listing db) ≡ true
        → (e : Error) × (q.named_exec_rows_affected t.update_sql (t.args r) db ≡ (err e, db))
          × (is e db_duplicated_entry ≡ true)
          × (is e err_not_found ≡ false)
    pub update_absent :
        (r : Row) (db : q.Db)
        → up db ≡ true
        → find (t.id r) (listing db) ≡ none
        → q.named_exec_rows_affected t.update_sql (t.args r) db ≡ (ok 0, db)
    pub delete_row :
        (i : ℕ) (old : Row) (db : q.Db)
        → up db ≡ true
        → find i (listing db) ≡ some old
        → (db' : q.Db) × (q.named_exec_rows_affected t.delete_sql (("id", uuid i) ∷ []) db
            ≡ (ok 1, db'))
          × (up db' ≡ true)
          × ((j : ℕ) → find j (listing db') ≡ (if i == j then none else find j (listing db)))
    pub delete_absent :
        (i : ℕ) (db : q.Db)
        → up db ≡ true
        → find i (listing db) ≡ none
        → q.named_exec_rows_affected t.delete_sql (("id", uuid i) ∷ []) db ≡ (ok 0, db)
    pub select_found :
        (i : ℕ) (r : Row) (db : q.Db)
        → up db ≡ true
        → find i (listing db) ≡ some r
        → q.named_query_one t.select_one_sql (("id", uuid i) ∷ []) db ≡ ok r
    pub select_absent :
        (i : ℕ) (db : q.Db)
        → up db ≡ true
        → find i (listing db) ≡ none
        → (e : Error) × (q.named_query_one t.select_one_sql (("id", uuid i) ∷ []) db ≡ err e)
          × (is e db_not_found ≡ true)
    pub count_rows :
        (conds : List String) (p : Params) (db : q.Db)
        → up db ≡ true
        → q.named_query_count
            (record { select = t.count_sql; conditions = conds; suffix = "" })
            p
            db
          ≡ ok (length (filter (λ r. all (λ c. holds c p r) conds) (listing db)))
    pub list_newest :
        (conds : List String) (p : Params) (n : ℕ) (db : q.Db)
        → up db ≡ true
        → get "limit" p ≡ some (num n)
        → q.named_query_list
            (record { select = t.select_sql; conditions = conds; suffix = newest_first })
            p
            db
          ≡ ok (take n (filter (λ r. all (λ c. holds c p r) conds) (listing db)))
    -- A database that does not answer fails every call with an error of its own.
    pub exec_down :
        (sql : String) (p : Params) (db : q.Db)
        → up db ≡ false
        → (e : Error) × (q.named_exec sql p db ≡ (err e, db)) × (is e db_duplicated_entry ≡ false)
    pub exec_rows_down :
        (sql : String) (p : Params) (db : q.Db)
        → up db ≡ false
        → (e : Error) × (q.named_exec_rows_affected sql p db ≡ (err e, db))
          × (is e err_not_found ≡ false)
    pub query_one_down :
        (sql : String) (p : Params) (db : q.Db)
        → up db ≡ false
        → (e : Error) × (q.named_query_one sql p db ≡ err e)
          × (is e db_not_found ≡ false)
          × (is e err_not_found ≡ false)
