-- ===== src/Dbx.antt =====
-- What the stores (core/*/…db) take from the packages dbx, page and order: errors that wrap
-- sentinels, named parameters, statements, and the querier that runs them on a database. The
-- querier is a parameter: `Querier` lists its calls, Dbx/Table.antt what is assumed of them.
pub mod Table
pub mod Find
pub mod Affected
pub mod Changes
use skit_x.Common.{
  ℕ, String, ◌<>◌, Bool, true, false, Option, none, some, List, [], ◌∷◌, ◌++◌, Result, any, str_eq,
  if◌then◌else◌, ℤ, Bytes,
}

-- The sentinels that errors.Is looks for. `failure` is any other error, by its number.
pub data Cause : Type 0 where
  err_not_found err_already_exists err_no_tasks : Cause
  db_duplicated_entry db_not_found : Cause
  panicked : Cause
  failure : ℕ → Cause

abbrev pub same_cause : Cause → Cause → Bool
same_cause err_not_found err_not_found = true
same_cause err_already_exists err_already_exists = true
same_cause err_no_tasks err_no_tasks = true
same_cause db_duplicated_entry db_duplicated_entry = true
same_cause db_not_found db_not_found = true
same_cause panicked panicked = true
same_cause _ _ = false

-- A Go error: its text and the sentinels that it wraps.
pub record Error : Type 0 where
  pub text : String
  pub causes : List Cause

-- errors.Is
abbrev pub is : Error → Cause → Bool
is e c = any (same_cause c) e.causes

-- fmt.Errorf("prefix: %w", e)
abbrev pub wrap : String → Error → Error
wrap prefix e = record { text = prefix <> ": " <> e.text; causes = e.causes }

-- fmt.Errorf("prefix: %w: %w", a, b)
abbrev pub wrap_both : String → Error → Error → Error
wrap_both prefix a b = record {
  text = prefix <> ": " <> a.text <> ": " <> b.text;
  causes = a.causes ++ b.causes;
}

-- The value of a named parameter.
pub data Arg : Type 0 where
  text : String → Arg
  bytes : Bytes → Arg
  int : ℤ → Arg
  num time uuid : ℕ → Arg

-- `map[string]any`, and the `db` tags of a struct with their values.
abbrev pub Params : Type 0
Params = List (String × Arg)

unfoldable pub get : String → Params → Option Arg
get name [] = none
get name ((n, a) ∷ ps) = if str_eq n name then some a else get name ps

-- The parts that the text of a query is written from: its head, the predicates of its WHERE and
-- what stands behind them.
pub record Statement : Type 0 where
  pub select : String
  pub conditions : List String
  pub suffix : String

-- order.By and page.Page, as the packages hand them over.
pub record By : Type 0 where
  pub field : String
  pub direction : String

pub record Page : Type 0 where
  pub offset : ℕ
  pub rows_per_page : ℕ

-- page.Cursor: the token of the request and the limit, after the package's default.
pub record Cursor : Type 0 where
  pub token : String
  pub limit : ℕ

-- The package page: decoding of a token (Cursor.Key) and EncodeCursor.
pub record Tokens : Type 0 where
  pub key : String → Result Error Bytes
  pub encode : Bytes → String

-- dbx.Querier (a pool or a transaction) and the helpers of dbx over it. A write returns the
-- database that it leaves, also beside an error. `within_tran` is dbx.WithinTran: its callback
-- works on the database as the transaction sees it.
pub record Querier (Row : Type 0) : Type 1 where
  pub Db : Type 0
  pub named_exec : String → Params → Db → Result Error (Unit {0}) × Db
  pub named_exec_rows_affected : String → Params → Db → Result Error ℕ × Db
  pub bulk_insert : String → List String → List Arg → String → Db → Result Error (Unit {0}) × Db
  pub named_query_one : String → Params → Db → Result Error Row
  pub named_query_count : Statement → Params → Db → Result Error ℕ
  pub named_query_list : Statement → Params → Db → Result Error (List Row)
  pub within_tran : (Db → Result Error (Unit {0}) × Db) → Db → Result Error (Unit {0}) × Db
