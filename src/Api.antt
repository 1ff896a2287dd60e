-- ===== src/Api.antt =====
-- The REST handlers of api: what they take from the request, and their answers. A handler returns
-- its document or an error of the API.
pub mod Inputs
pub mod Users
pub mod UserPages
pub mod Widgets
pub mod WidgetPages
pub mod Products
pub mod ProductPages
use skit_x.Common.{ℕ, ℤ, String, Option, Result, List}
use skit_x.Dbx.{Error, By, Page}
use skit_x.Errs.{AppError}

-- The code of others: uuid.Parse and String, page.Parse, order.Parse with the allowed fields,
-- strconv.Atoi (0 for a malformed number) and ParseInt, the limit that page.NewCursor makes of a
-- number, strings.TrimSpace, errs.From of an error that is none of the API.
pub record Edge : Type 0 where
  pub parse_uuid : String → Option ℕ
  pub uuid_text : ℕ → String
  pub parse_page : String → String → Result Error Page
  pub parse_order : List String → String → By → Result Error By
  pub atoi : String → ℤ
  pub parse_int : String → Result Error ℤ
  pub cursor_limit : ℤ → ℕ
  pub trim_space : String → String
  pub from_error : Error → AppError

-- The parameters of a listing that a client may give; one that is absent is "".
pub record ListQuery : Type 0 where
  pub page : String
  pub rows : String
  pub order_by : String
  pub cursor : String
  pub limit : String
  pub name : String
  pub email : String
  pub description : String
  pub min_price : String
  pub max_price : String

-- rest.JSON and rest.JSONStatus: the status and the document.
pub record Answer (A : Type 0) : Type 0 where
  pub status : ℕ
  pub document : A

-- rest.Result, without what it computes from the total.
pub record Paged (A : Type 0) : Type 0 where
  pub items : List A
  pub total : ℕ
  pub page : Page
