-- ===== src/Grpc.antt =====
-- internal/app/handlers/widgetgrpc/widgetgrpc.go: the gRPC WidgetService over the widget Core.
pub mod Failures
pub mod RoundTrip
use skit_x.Common.{ℕ, ℤ, String, Option, none, some, List, [], ◌∷◌, map, Result, ok, err}
use skit_x.Dbx.{text, By, Page}
use skit_x.Errs.{AppError, newf, invalid_argument}
use skit_x.Widget.{Widget, NewWidget, UpdateWidget, Store}
use skit_x.Widget.Core
use skit_x.Widget.Core.{State}
use skit_x.Widget.World.{Ctx, Options}

-- The requests, as their getters read them; a field of an update that is not set is `none`.
pub record CreateWidgetRequest : Type 0 where
  pub name : String
  pub description : String

pub record WidgetId : Type 0 where
  pub id : String

pub record ListWidgetsRequest : Type 0 where
  pub page : ℤ
  pub page_size : ℤ

pub record UpdateWidgetRequest : Type 0 where
  pub id : String
  pub name : Option String
  pub description : Option String

-- widgetv1.Widget
pub record ProtoWidget : Type 0 where
  pub id : String
  pub name : String
  pub description : String
  pub created_at : ℕ
  pub updated_at : ℕ

-- The code of others: uuid.Parse and String, validate.Check of the name (required, at most 100
-- characters), and page.New.
pub record Edge : Type 0 where
  pub parse_uuid : String → Option ℕ
  pub uuid_text : ℕ → String
  pub check_name : String → Result AppError (Unit {0})
  pub new_page : ℤ → ℤ → Page

abbrev pub invalid_id : String → AppError
invalid_id s = newf invalid_argument "invalid id %q" (text s ∷ [])

-- widget.DefaultOrder
abbrev pub default_order : By
default_order = record { field = "created_at"; direction = "DESC" }

module _ (e : Edge) where
  abbrev id_or_invalid : String → Option ℕ → Result AppError ℕ
  id_or_invalid s none = err (invalid_id s)
  id_or_invalid s (some i) = ok i

  -- parseID
  abbrev pub parse_id : String → Result AppError ℕ
  parse_id s = id_or_invalid s (e.parse_uuid s)

  -- toProto
  abbrev pub to_proto : Widget → ProtoWidget
  to_proto w = record {
    id = e.uuid_text w.id;
    name = w.name;
    description = w.description;
    created_at = w.created_at;
    updated_at = w.updated_at;
  }

  abbrev pub proto : Result AppError Widget → Result AppError ProtoWidget
  proto (ok w) = ok (to_proto w)
  proto (err x) = err x

  abbrev protos : Result AppError (List Widget) → Result AppError (List ProtoWidget)
  protos (ok ws) = ok (map to_proto ws)
  protos (err x) = err x

  module _ (s : Store) (o : Options) where
    abbrev pub answered :
        Result AppError Widget × State s o → Result AppError ProtoWidget × State s o
    answered (r, world) = (proto r, world)

    create_checked :
        Ctx
        → CreateWidgetRequest
        → Result AppError (Unit {0})
        → State s o
        → Result AppError ProtoWidget × State s o
    create_checked ctx req (err x) world = (err x, world)
    create_checked ctx req (ok _) world =
        answered
          (Core.create s o ctx (record { name = req.name; description = req.description }) world)

    -- CreateWidget
    unfoldable pub create_widget :
        Ctx → CreateWidgetRequest → State s o → Result AppError ProtoWidget × State s o
    unfolding create_checked
    create_widget ctx req world = create_checked ctx req (e.check_name req.name) world

    get_parsed : Result AppError ℕ → State s o → Result AppError ProtoWidget
    get_parsed (err x) world = err x
    get_parsed (ok i) world = proto (Core.query_by_id s o i world)

    -- GetWidget
    unfoldable pub get_widget : WidgetId → State s o → Result AppError ProtoWidget
    unfolding get_parsed
    get_widget req world = get_parsed (parse_id req.id) world

    -- ListWidgets
    unfoldable pub list_widgets :
        ListWidgetsRequest → State s o → Result AppError (List ProtoWidget)
    list_widgets req world = protos (
        Core.query s o (record { name = none; description = none }) default_order
          (e.new_page req.page req.page_size) world)

    update_parsed :
        Ctx
        → UpdateWidgetRequest
        → Result AppError ℕ
        → State s o
        → Result AppError ProtoWidget × State s o
    update_parsed ctx req (err x) world = (err x, world)
    update_parsed ctx req (ok i) world =
        answered
          (Core.update s o ctx i (record { name = req.name; description = req.description }) world)

    -- UpdateWidget
    unfoldable pub update_widget :
        Ctx → UpdateWidgetRequest → State s o → Result AppError ProtoWidget × State s o
    unfolding update_parsed
    update_widget ctx req world = update_parsed ctx req (parse_id req.id) world

    delete_parsed : Result AppError ℕ → State s o → Result AppError (Unit {0}) × State s o
    delete_parsed (err x) world = (err x, world)
    delete_parsed (ok i) world = Core.delete s o i world

    -- DeleteWidget
    unfoldable pub delete_widget : WidgetId → State s o → Result AppError (Unit {0}) × State s o
    unfolding delete_parsed
    delete_widget req world = delete_parsed (parse_id req.id) world
