-- ===== src/Api/Widgets.antt =====
-- api/widget/widget.go and api/widget/model.go: the documents, and the handlers that call the
-- widget Core. The ones that call more are in the child Service.
pub mod Service
pub mod Requests
pub mod Accounts
pub mod Traces
use skit_x.Common.{ℕ, ℤ, String, Bool, Option, List, [], ◌∷◌, map, Result, ok, err, ◌>>=◌}
use skit_x.Api.{Edge, ListQuery, Answer, Paged}
use skit_x.Api.Inputs.{
  given, invalidated, id_of, cursor_of, responded, answered, cursor_page, paged_list,
}
use skit_x.Dbx.{By, Tokens}
use skit_x.Errs.{AppError}
use skit_x.Widget.{Widget, NewWidget, QueryFilter, Store}
use skit_x.Widget.Core
use skit_x.Widget.Core.{State}
use skit_x.Widget.Settings.{Settings}
use skit_x.Widget.World.{Ctx, Options, audit_model_type}

-- Response; the zero time.Time is 0.
pub record WidgetResponse : Type 0 where
  pub id : String
  pub name : String
  pub description : String
  pub created_at : ℕ
  pub updated_at : ℕ

-- Resource, the document of JSON:API
pub record WidgetResource : Type 0 where
  pub id : String
  pub name : String
  pub description : String
  pub created_at : ℕ
  pub updated_at : ℕ

-- Response.GetTranslationKey
abbrev pub get_translation_key : WidgetResponse → String × String
get_translation_key r = (audit_model_type, r.id)

-- The bodies, decoded and validated by rest.Decode.
pub record CreateWidgetReq : Type 0 where
  pub name : String
  pub description : String

pub record UpdateWidgetReq : Type 0 where
  pub name : Option String
  pub description : Option String

-- widget.DefaultOrder and widget.SortableFields
abbrev pub default_order : By
default_order = record { field = "created_at"; direction = "DESC" }

abbrev pub sortable_fields : List String
sortable_fields = "created_at" ∷ "name" ∷ []

abbrev pub new_of : CreateWidgetReq → NewWidget
new_of req = record { name = req.name; description = req.description }

module _ (e : Edge) where
  -- toResponse
  abbrev pub to_response : Widget → WidgetResponse
  to_response w = record {
    id = e.uuid_text w.id;
    name = w.name;
    description = w.description;
    created_at = w.created_at;
    updated_at = w.updated_at;
  }

  -- toResponseList
  abbrev pub to_response_list : List Widget → List WidgetResponse
  to_response_list = map to_response

  -- toResource
  abbrev pub to_resource : Widget → WidgetResource
  to_resource w = record {
    id = e.uuid_text w.id;
    name = w.name;
    description = w.description;
    created_at = w.created_at;
    updated_at = w.updated_at;
  }

  -- toResourceList
  abbrev pub to_resource_list : List Widget → List WidgetResource
  to_resource_list = map to_resource

  -- parseWidgetFilter
  unfoldable pub parse_widget_filter : ListQuery → QueryFilter
  parse_widget_filter q = record {
    name = given (e.trim_space q.name);
    description = given (e.trim_space q.description);
  }

  module _ (s : Store) (o : Options) where
    -- Handler.create, by the decoded body
    unfoldable pub create :
        Ctx
        → Result AppError CreateWidgetReq
        → State s o
        → Result AppError (Answer WidgetResponse) × State s o
    create ctx (err x) world = (err x, world)
    create ctx (ok req) world = answered 201 to_response (Core.create s o ctx (new_of req) world)

    -- Handler.query
    unfoldable pub query : ListQuery → State s o → Result AppError (Paged WidgetResponse)
    query q world = do
      pg ← invalidated (e.parse_page q.page q.rows)
      by ← invalidated (e.parse_order sortable_fields q.order_by default_order)
      paged_list to_response pg (Core.query s o (parse_widget_filter q) by pg world)
          (Core.count s o (parse_widget_filter q) world)

    -- Handler.queryCursor
    unfoldable pub query_cursor :
        Tokens → ListQuery → State s o → Result AppError (List WidgetResponse × String)
    query_cursor tokens q world = do
      _ ← invalidated (tokens.key q.cursor)
      cursor_page to_response
          (Core.query_by_cursor s o (parse_widget_filter q) (cursor_of e q) world)

    -- Handler.queryByID
    unfoldable pub query_by_id : String → State s o → Result AppError WidgetResponse
    query_by_id id world = do i ← id_of e id; responded to_response (Core.query_by_id s o i world)

    -- Handler.queryJSONAPI
    unfoldable pub query_json_api : ListQuery → State s o → Result AppError (List WidgetResource)
    query_json_api q world = do
      pg ← invalidated (e.parse_page q.page q.rows)
      by ← invalidated (e.parse_order sortable_fields q.order_by default_order)
      responded to_resource_list (Core.query s o (parse_widget_filter q) by pg world)

    -- Handler.queryByIDJSONAPI
    unfoldable pub query_by_id_json_api : String → State s o → Result AppError WidgetResource
    query_by_id_json_api id world = do
      i ← id_of e id
      responded to_resource (Core.query_by_id s o i world)

    abbrev pub update_decoded :
        Ctx
        → Result AppError ℕ
        → Result AppError UpdateWidgetReq
        → State s o
        → Result AppError (Answer WidgetResponse) × State s o
    update_decoded ctx (err x) body world = (err x, world)
    update_decoded ctx (ok i) (err x) world = (err x, world)
    update_decoded ctx (ok i) (ok req) world =
        answered 200 to_response
          (Core.update s o ctx i (record { name = req.name; description = req.description }) world)

    -- Handler.update, by the decoded body
    unfoldable pub update :
        Ctx
        → String
        → Result AppError UpdateWidgetReq
        → State s o
        → Result AppError (Answer WidgetResponse) × State s o
    update ctx id body world = update_decoded ctx (id_of e id) body world

    abbrev pub delete_parsed :
        Result AppError ℕ → State s o → Result AppError (Unit {0}) × State s o
    delete_parsed (err x) world = (err x, world)
    delete_parsed (ok i) world = Core.delete s o i world

    -- Handler.delete: no document is the status 204.
    unfoldable pub delete : String → State s o → Result AppError (Unit {0}) × State s o
    delete id world = delete_parsed (id_of e id) world
