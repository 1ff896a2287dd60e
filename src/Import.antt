-- ===== src/Import.antt =====
-- core/widgetimport/widgetimport.go: Schedule and Handle over a queue, JSON and the widget store.
pub mod Scheduled
pub mod Replay
pub mod Delivered
pub mod Log
pub mod Workers
use skit_x.Common.{
  ℕ, suc, String, ◌<>◌, ◌++◌, List, [], ◌∷◌, Bool, Result, ok, err, ℤ, pos, ltb_ℤ, length,
  if◌then◌else◌,
}
use skit_x.Dbx.{Error, wrap, failure, int, num, Querier}
use skit_x.Errs.{AppError, newf, invalid_argument}
use skit_x.Widget.{Widget, NewWidget}
use skit_x.Widget.Db.{DbWidget, bulk_insert}
use skit_x.Widget.Settings.{Settings, writable}

-- `P` is the type of a payload, bytes that only the codec reads.
--
-- queue.Params; the queue and the kind are both "widget-import".
pub record Task (P : Type 0) : Type 0 where
  pub queue : String
  pub kind : String
  pub key : String
  pub payload : P

-- queue.PG.Schedule, and json.Marshal and json.Unmarshal of the widgets.
pub record Queue (P : Type 0) : Type 1 where
  pub State : Type 0
  pub schedule : Task P → State → Result Error Bool × State

pub record Codec (P : Type 0) : Type 0 where
  pub marshal : List Widget → Result Error P
  pub unmarshal : P → Result Error (List Widget)

-- What a call takes from outside: time.Now and the ids that uuid.New gives one after another.
pub record Ctx : Type 0 where
  pub now : ℕ
  pub new_ids : ℕ → ℕ

-- The errors of Schedule: those of the API, and any other.
pub data ScheduleError : Type 0 where
  rejected : AppError → ScheduleError
  failed : Error → ScheduleError

-- The errors of Handle: queue.Permanent, and one that the queue retries.
pub data HandleError : Type 0 where
  permanent : Error → HandleError
  retried : Error → HandleError

abbrev pub import_queue : String
import_queue = "widget-import"

abbrev pub bad_payload : Error
bad_payload = record { text = "widgetimport: bad payload"; causes = failure 4 ∷ [] }

-- fmt.Errorf("%w: %w", ErrBadPayload, e)
abbrev undecodable : Error → Error
undecodable e = record {
  text = bad_payload.text <> ": " <> e.text;
  causes = bad_payload.causes ++ e.causes;
}

-- the widgets of the batch, from the n-th id on
abbrev pub new_widgets : Ctx → ℕ → List NewWidget → List Widget
new_widgets ctx n [] = []
new_widgets ctx n (w ∷ ws) =
    record {
      id = ctx.new_ids n;
      name = w.name;
      description = w.description;
      created_at = ctx.now;
      updated_at = ctx.now;
    }
    ∷ new_widgets ctx (suc n) ws

abbrev pub over_limit : Settings → List NewWidget → Bool
over_limit set news = ltb_ℤ set.import_limit (pos (length news))

abbrev limit_error : Settings → List NewWidget → AppError
limit_error set news =
    newf invalid_argument "an import takes up to %d widgets, not %d"
      (int set.import_limit ∷ num (length news) ∷ [])

module _ {P : Type 0} (q : Queue P) (codec : Codec P) where
  abbrev asked : Result Error Bool × q.State → Result ScheduleError Bool × q.State
  asked (ok inserted, st) = (ok inserted, st)
  asked (err e, st) = (err (failed e), st)

  abbrev enqueue : String → Result Error P → q.State → Result ScheduleError Bool × q.State
  enqueue name (err e) st = (err (failed (wrap "widgetimport schedule: marshal" e)), st)
  enqueue name (ok payload) st = asked (
      q.schedule
        (record { queue = import_queue; kind = import_queue; key = name; payload = payload }) st)

  schedule_writable :
      Ctx
      → Settings
      → String
      → List NewWidget
      → Result AppError (Unit {0})
      → q.State
      → Result ScheduleError Bool × q.State
  schedule_writable ctx set name news (err e) st = (err (rejected e), st)
  schedule_writable ctx set name news (ok _) st =
      if over_limit set news
      then (err (rejected (limit_error set news)), st)
      else enqueue name (codec.marshal (new_widgets ctx 0 news)) st

  -- Schedule, on the settings in force
  unfoldable pub schedule :
      Ctx → Settings → String → List NewWidget → q.State → Result ScheduleError Bool × q.State
  unfolding schedule_writable
  schedule ctx set name news st = schedule_writable ctx set name news (writable set) st

module _ {P : Type 0} (codec : Codec P) (q : Querier DbWidget) where
  abbrev handled : Result Error (Unit {0}) × q.Db → Result HandleError (Unit {0}) × q.Db
  handled (ok _, db) = (ok tt, db)
  handled (err e, db) = (err (retried (wrap "widgetimport handle" e)), db)

  handle_decoded : Result Error (List Widget) → q.Db → Result HandleError (Unit {0}) × q.Db
  handle_decoded (err e) db = (err (permanent (undecodable e)), db)
  handle_decoded (ok ws) db = handled (bulk_insert q ws db)

  -- Handle
  unfoldable pub handle : P → q.Db → Result HandleError (Unit {0}) × q.Db
  unfolding handle_decoded
  handle payload db = handle_decoded (codec.unmarshal payload) db
