-- ===== src/Context.antt =====
-- internal/app/reqctx/reqctx.go: the request headers, parsed once into the context.
use skit_x.Common.{String, ℤ, pos, Option, none, some, Result, ok, err}
use skit_x.Dbx.{Error}

abbrev pub tenant_header : String
tenant_header = "X-Tenant-Id"

abbrev pub city_header : String
city_header = "X-City-Id"

pub record RequestContext : Type 0 where
  pub language : String
  pub tenant_id : String
  pub city_id : ℤ

-- The request, as far as the middleware reads it: Header.Get.
pub record HttpRequest : Type 0 where
  pub header : String → String

-- The value under the key of this package in a context.
abbrev pub Ctx : Type 0
Ctx = Option RequestContext

abbrev pub zero_context : RequestContext
zero_context = record { language = ""; tenant_id = ""; city_id = pos 0 }

-- FromContext
abbrev pub from_context : Ctx → RequestContext
from_context none = zero_context
from_context (some rc) = rc

-- Language, TenantID and CityID
abbrev pub language : Ctx → String
language ctx = (from_context ctx).language

abbrev pub tenant_id : Ctx → String
tenant_id ctx = (from_context ctx).tenant_id

abbrev pub city_id : Ctx → ℤ
city_id ctx = (from_context ctx).city_id

abbrev or_zero : Result Error ℤ → ℤ
or_zero (ok n) = n
or_zero (err e) = pos 0

-- The code of others: strconv.Atoi and i18n.RequestLang.
module _ (atoi : String → Result Error ℤ) (request_lang : HttpRequest → String) where
  -- headerInt
  abbrev pub header_int : HttpRequest → String → ℤ
  header_int r key = or_zero (atoi (r.header key))

  -- Middleware: `next` gets the context with the parsed headers.
  unfoldable pub middleware : {A : Type 0} → (Ctx → HttpRequest → A) → Ctx → HttpRequest → A
  middleware next ctx r =
      next
        (some (record {
          language = request_lang r;
          tenant_id = r.header tenant_header;
          city_id = header_int r city_header;
        }))
        r
