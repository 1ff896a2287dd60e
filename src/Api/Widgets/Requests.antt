-- ===== src/Api/Widgets/Requests.antt =====
-- Sequences of requests to the handlers of api/widget/widget.go that change state, with the rereads
-- of the settings between them, in any order.
use skit_x.Common.{String, ◌≡◌, List, [], ◌∷◌, Result, ok}
use skit_x.Api.{Edge}
use skit_x.Api.Widgets as Handlers
use skit_x.Api.Widgets.{CreateWidgetReq, UpdateWidgetReq}
use skit_x.Api.Widgets.Service.{
  SettingsReq, ImportWidgetsReq, TranslateWidgetReq, Serving, Translator, save_settings,
  import_batch, save_translation,
}
use skit_x.Dbx.{Error}
use skit_x.Errs.{AppError}
use skit_x.Import as WidgetImport
use skit_x.Import.{Queue, Codec}
use skit_x.Widget.{Store}
use skit_x.Widget.Settings.{Settings, check}
use skit_x.Widget.World.{Ctx, Options, World}

-- A request with its decoded body, or a reread that finds settings which another replica saved.
pub data Request : Type 0 where
  create : Ctx → Result AppError CreateWidgetReq → Request
  update : Ctx → String → Result AppError UpdateWidgetReq → Request
  delete : String → Request
  save : Result AppError SettingsReq → Request
  import : WidgetImport.Ctx → Result AppError ImportWidgetsReq → Request
  translate : String → Result AppError TranslateWidgetReq → Request
  reread : (set : Settings) → check set ≡ ok tt → Request

module _ (e : Edge) (s : Store) (o : Options) {P T : Type 0} (q : Queue P) (codec : Codec P)
    (translator : Translator T)
    (save_in_force : Settings → World s.Db → Result Error (Unit {0}) × World s.Db) where
  abbrev pub Run : Type 0
  Run = Serving e s q codec translator save_in_force

  -- The state behind one request.
  unfoldable pub serve : Request → Run → Run
  serve (create ctx body) sv = record sv { world = (Handlers.create e s o ctx body sv.world).1 }
  serve (update ctx id body) sv = record sv {
    world = (Handlers.update e s o ctx id body sv.world).1;
  }
  serve (delete id) sv = record sv { world = (Handlers.delete e s o id sv.world).1 }
  serve (save body) sv = (save_settings e s q codec translator save_in_force body sv).1
  serve (import ctx body) sv = (import_batch e s q codec translator save_in_force ctx body sv).1
  serve (translate id body) sv =
      (save_translation e s q codec translator save_in_force id body sv).1
  serve (reread set passed) sv = record sv { world = record sv.world { settings = set } }

  unfoldable pub serve_all : List Request → Run → Run
  serve_all [] sv = sv
  serve_all (r ∷ rs) sv = serve_all rs (serve r sv)
