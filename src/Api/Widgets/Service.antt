-- ===== src/Api/Widgets/Service.antt =====
-- api/widget/widget.go: the handlers of the settings, of an import, of a translation and of the
-- cached count, and the state that all handlers share.
use skit_x.Common.{ℕ, ℤ, String, Bool, List, [], ◌∷◌, map, Result, ok, err, length}
use skit_x.Api.{Edge, Answer}
use skit_x.Api.Inputs.{id_of}
use skit_x.Api.Widgets.{WidgetResponse, CreateWidgetReq, get_translation_key, new_of}
use skit_x.Dbx.{Error, text}
use skit_x.Errs.{AppError, newf, wrapped, internal, invalid_argument}
use skit_x.Import as WidgetImport
use skit_x.Import.{Queue, Codec, ScheduleError, rejected, failed}
use skit_x.Widget.{Store}
use skit_x.Widget.Settings.{Settings, check}
use skit_x.Widget.World.{World}

-- TranslateWidgetReq, ImportWidgetsReq and SettingsReq, decoded
pub record TranslateWidgetReq : Type 0 where
  pub language : String
  pub name : String
  pub description : String

pub record ImportWidgetsReq : Type 0 where
  pub name : String
  pub widgets : List CreateWidgetReq

pub record SettingsReq : Type 0 where
  pub read_only : Bool
  pub import_limit : ℤ

-- ImportResponse, CountResponse and SettingsResponse
pub record ImportResponse : Type 0 where
  pub scheduled : Bool
  pub count : ℕ

pub record CountResponse : Type 0 where
  pub count : ℕ

pub record SettingsResponse : Type 0 where
  pub read_only : Bool
  pub import_limit : ℤ

-- toSettingsResponse
abbrev pub to_settings_response : Settings → SettingsResponse
to_settings_response s = record { read_only = s.read_only; import_limit = s.import_limit }

-- What a handler reads and changes: the world of the Core with the settings in force, the queue of
-- the imports, the stored translations and the count that the poller keeps.
pub record Service (Db Q T : Type 0) : Type 0 where
  pub world : World Db
  pub queue : Q
  pub translations : T
  pub cached_count : ℕ

-- translation.Translator: ValidateLanguage, and Save of a document under its key, with the
-- errs.From of the handler.
pub record Translator (T : Type 0) : Type 0 where
  pub validate_language : String → Result Error (Unit {0})
  pub save : String → String × String → WidgetResponse → T → Result AppError (Unit {0}) × T

module _ (e : Edge) (s : Store) {P T : Type 0} (q : Queue P) (codec : Codec P)
    (translator : Translator T)
    (save : Settings → World s.Db → Result Error (Unit {0}) × World s.Db) where
  abbrev pub Serving : Type 0
  Serving = Service s.Db q.State T

  -- Handler.querySettings
  unfoldable pub query_settings : Serving → SettingsResponse
  query_settings sv = to_settings_response sv.world.settings

  abbrev pub saved :
      Result Error (Unit {0}) × World s.Db
      → Serving
      → Result AppError (Answer SettingsResponse) × Serving
  saved (err x, world) sv = (err (wrapped internal x), record sv { world = world })
  saved (ok _, world) sv = (
    ok (record { status = 200; document = to_settings_response world.settings }),
    record sv { world = world },
  )

  abbrev pub save_checked :
      Settings
      → Result AppError (Unit {0})
      → Serving
      → Result AppError (Answer SettingsResponse) × Serving
  save_checked set (err x) sv = (err x, sv)
  save_checked set (ok _) sv = saved (save set sv.world) sv

  -- Handler.saveSettings, by the decoded body
  unfoldable pub save_settings :
      Result AppError SettingsReq → Serving → Result AppError (Answer SettingsResponse) × Serving
  save_settings (err x) sv = (err x, sv)
  save_settings (ok req) sv =
      let set : Settings = record { read_only = req.read_only; import_limit = req.import_limit } in
      save_checked set (check set) sv

  -- errs.From of an error of Schedule
  abbrev pub app_error : ScheduleError → AppError
  app_error (rejected x) = x
  app_error (failed x) = e.from_error x

  abbrev pub scheduled :
      ℕ
      → Result ScheduleError Bool × q.State
      → Serving
      → Result AppError (Answer ImportResponse) × Serving
  scheduled n (err x, queue) sv = (err (app_error x), record sv { queue = queue })
  scheduled n (ok b, queue) sv = (
    ok (record { status = 202; document = record { scheduled = b; count = n } }),
    record sv { queue = queue },
  )

  -- Handler.importBatch, by the decoded body
  unfoldable pub import_batch :
      WidgetImport.Ctx
      → Result AppError ImportWidgetsReq
      → Serving
      → Result AppError (Answer ImportResponse) × Serving
  import_batch ctx (err x) sv = (err x, sv)
  import_batch ctx (ok req) sv =
      let news = map new_of req.widgets in
      scheduled (length news)
        (WidgetImport.schedule q codec ctx sv.world.settings req.name news sv.queue) sv

  -- Handler.count
  unfoldable pub count : Serving → CountResponse
  count sv = record { count = sv.cached_count }

  abbrev pub translated :
      WidgetResponse
      → Result AppError (Unit {0}) × T
      → Serving
      → Result AppError WidgetResponse × Serving
  translated tr (err x, ts) sv = (err x, record sv { translations = ts })
  translated tr (ok _, ts) sv = (ok tr, record sv { translations = ts })

  -- the document that carries a translation; its times are zero
  abbrev pub translation_of : ℕ → TranslateWidgetReq → WidgetResponse
  translation_of i req = record {
    id = e.uuid_text i;
    name = req.name;
    description = req.description;
    created_at = 0;
    updated_at = 0;
  }

  abbrev pub save_in :
      ℕ
      → TranslateWidgetReq
      → Result Error (Unit {0})
      → Serving
      → Result AppError WidgetResponse × Serving
  save_in i req (err x) sv =
      (err (newf invalid_argument "unsupported language %q" (text req.language ∷ [])), sv)
  save_in i req (ok _) sv =
      let tr = translation_of i req in
      translated tr (translator.save req.language (get_translation_key tr) tr sv.translations) sv

  abbrev pub translate_decoded :
      Result AppError ℕ
      → Result AppError TranslateWidgetReq
      → Serving
      → Result AppError WidgetResponse × Serving
  translate_decoded (err x) body sv = (err x, sv)
  translate_decoded (ok i) (err x) sv = (err x, sv)
  translate_decoded (ok i) (ok req) sv =
      save_in i req (translator.validate_language req.language) sv

  -- Handler.saveTranslation, by the decoded body
  unfoldable pub save_translation :
      String
      → Result AppError TranslateWidgetReq
      → Serving
      → Result AppError WidgetResponse × Serving
  save_translation id body sv = translate_decoded (id_of e id) body sv
