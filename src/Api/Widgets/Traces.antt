-- ===== src/Api/Widgets/Traces.antt =====
-- What no sequence of requests to the handlers of api/widget/widget.go breaks.
use mathlib.Core.Path.{subst}
use skit_x.Common.{ℕ, ◌+◌, ◌≡◌, refl, sym, ap, ◌∙◌, List, [], ◌∷◌, Result, ok, err, length, arith}
use skit_x.Api.{Edge}
use skit_x.Api.Inputs.{id_of}
use skit_x.Api.Widgets as Handlers
use skit_x.Api.Widgets.{CreateWidgetReq, UpdateWidgetReq, update_decoded, delete_parsed, new_of}
use skit_x.Api.Widgets.Accounts.{Accounted, create-Accounted, update-Accounted, delete-Accounted}
use skit_x.Api.Widgets.Requests.{
  Request, create, update, delete, save, import, translate, reread, Run, serve, serve_all,
}
use skit_x.Api.Widgets.Service.{
  SettingsReq, ImportWidgetsReq, TranslateWidgetReq, Translator, save_settings, saved, save_checked,
  import_batch, scheduled, save_translation, translated, save_in, translate_decoded,
}
use skit_x.Dbx.{Error}
use skit_x.Errs.{AppError}
use skit_x.Import as WidgetImport
use skit_x.Import.{Queue, Codec, schedule, ScheduleError}
use skit_x.Import.Log.{HoldsTasks, AllBounded, schedule-AllBounded}
use skit_x.Import.Scheduled.{IsCodec}
use skit_x.Widget.{Store}
use skit_x.Widget.Settings.{Settings, check}
use skit_x.Widget.Spec.{IsStore}
use skit_x.Widget.World.{Ctx, Options, World}

-- What is assumed of settings.Save: the saved settings are in force on this replica at once, an
-- error leaves those that were.
pub record KeepsSettings {Db : Type 0}
    (save : Settings → World Db → Result Error (Unit {0}) × World Db) : Type 0 where
  pub save_ok :
      (set : Settings) (world world' : World Db)
      → save set world ≡ (ok tt, world')
      → world' ≡ record world { settings = set }
  pub save_err :
      (set : Settings) (x : Error) (world world' : World Db)
      → save set world ≡ (err x, world')
      → world' ≡ world

module _ (e : Edge) (s : Store) (o : Options) {P T : Type 0} (q : Queue P) (codec : Codec P)
    (translator : Translator T)
    (save_in_force : Settings → World s.Db → Result Error (Unit {0}) × World s.Db)
    (spec : IsStore s) (lawful : IsCodec codec) (held : HoldsTasks q codec)
    (keeps : KeepsSettings save_in_force) where
  open spec use {outbox}

  abbrev Running : Type 0
  Running = Run e s o q codec translator save_in_force

  -- Since `start`: the settings in force pass their check, the imports in the queue are within the
  -- limit, and the scheduled events have grown as the count of created widgets has.
  pub record IsSound (start sv : Running) : Type 0 where
    pub passed : check sv.world.settings ≡ ok tt
    pub bounded : AllBounded q codec lawful held sv.queue
    pub events :
        length (outbox sv.world.db) + start.world.created_total
        ≡ length (outbox start.world.db) + sv.world.created_total

  moved :
      (start sv : Running) (world : World s.Db)
      → IsSound start sv
      → Accounted s o spec sv.world world
      → IsSound start (record sv { world = world })
  moved start sv world sound a = record {
    passed = ap check a.settings ∙ sound.passed;
    bounded = sound.bounded;
    events = omega (arith, a.events, sound.events);
  }

  created_keeps :
      (start sv : Running) (ctx : Ctx) (body : Result AppError CreateWidgetReq)
      → IsSound start sv
      → IsSound start (serve e s o q codec translator save_in_force (create ctx body) sv)
  unfolding serve Handlers.create
  created_keeps start sv ctx (err x) sound = sound
  created_keeps start sv ctx (ok req) sound =
      moved start sv _ sound (create-Accounted s o spec ctx (new_of req) sv.world)

  updated_keeps :
      (start sv : Running) (ctx : Ctx) (i : Result AppError ℕ)
      (body : Result AppError UpdateWidgetReq)
      → IsSound start sv
      → IsSound start (record sv { world = (update_decoded e s o ctx i body sv.world).1 })
  updated_keeps start sv ctx (err x) body sound = sound
  updated_keeps start sv ctx (ok i) (err x) sound = sound
  updated_keeps start sv ctx (ok i) (ok req) sound =
      moved start sv _ sound (update-Accounted s o spec ctx i _ sv.world)

  deleted_keeps :
      (start sv : Running) (i : Result AppError ℕ)
      → IsSound start sv
      → IsSound start (record sv { world = (delete_parsed e s o i sv.world).1 })
  deleted_keeps start sv (err x) sound = sound
  deleted_keeps start sv (ok i) sound =
      moved start sv _ sound (delete-Accounted s o spec i sv.world)

  in_force :
      (start sv : Running) (set : Settings)
      → check set ≡ ok tt
      → IsSound start sv
      → IsSound start (record sv { world = record sv.world { settings = set } })
  in_force start sv set passes sound = record {
    passed = passes;
    bounded = sound.bounded;
    events = sound.events;
  }

  saved_keeps :
      (start sv : Running) (set : Settings) (r : Result Error (Unit {0}) × World s.Db)
      → save_in_force set sv.world ≡ r
      → check set ≡ ok tt
      → IsSound start sv
      → IsSound start (saved e s q codec translator save_in_force r sv).1
  saved_keeps start sv set (ok _, world) h passes sound =
      subst (λ w. IsSound start (record sv { world = w }))
        (sym (keeps.save_ok set sv.world world h)) (in_force start sv set passes sound)
  saved_keeps start sv set (err x, world) h passes sound =
      subst (λ w. IsSound start (record sv { world = w }))
        (sym (keeps.save_err set x sv.world world h)) sound

  checked_keeps :
      (start sv : Running) (set : Settings) (r : Result AppError (Unit {0}))
      → check set ≡ r
      → IsSound start sv
      → IsSound start (save_checked e s q codec translator save_in_force set r sv).1
  checked_keeps start sv set (err x) h sound = sound
  checked_keeps start sv set (ok _) h sound =
      saved_keeps start sv set (save_in_force set sv.world) refl h sound

  save_keeps :
      (start sv : Running) (body : Result AppError SettingsReq)
      → IsSound start sv
      → IsSound start (serve e s o q codec translator save_in_force (save body) sv)
  unfolding serve save_settings
  save_keeps start sv (err x) sound = sound
  save_keeps start sv (ok req) sound = checked_keeps start sv _ _ refl sound

  queued :
      (start sv : Running) (n : ℕ) (r : Result ScheduleError _ × q.State)
      → AllBounded q codec lawful held r.1
      → IsSound start sv
      → IsSound start (scheduled e s q codec translator save_in_force n r sv).1
  queued start sv n (ok b, queue) all sound = record {
    passed = sound.passed;
    bounded = all;
    events = sound.events;
  }
  queued start sv n (err x, queue) all sound = record {
    passed = sound.passed;
    bounded = all;
    events = sound.events;
  }

  import_keeps :
      (start sv : Running) (ctx : WidgetImport.Ctx) (body : Result AppError ImportWidgetsReq)
      → IsSound start sv
      → IsSound start (serve e s o q codec translator save_in_force (import ctx body) sv)
  unfolding serve import_batch
  import_keeps start sv ctx (err x) sound = sound
  import_keeps start sv ctx (ok req) sound =
      queued start sv _ _
        (schedule-AllBounded q codec lawful held ctx sv.world.settings req.name _ sv.queue
          sound.passed sound.bounded)
        sound

  retold :
      (start sv : Running) (ts : T)
      → IsSound start sv
      → IsSound start (record sv { translations = ts })
  retold start sv ts sound = record {
    passed = sound.passed;
    bounded = sound.bounded;
    events = sound.events;
  }

  translated_keeps :
      (start sv : Running) (i : Result AppError ℕ) (body : Result AppError TranslateWidgetReq)
      → IsSound start sv
      → IsSound start (translate_decoded e s q codec translator save_in_force i body sv).1
  translated_keeps start sv (err x) body sound = sound
  translated_keeps start sv (ok i) (err x) sound = sound
  translated_keeps start sv (ok i) (ok req) sound =
      by_language (translator.validate_language req.language)
    where
      by_answer :
          (tr : _) (r : Result AppError (Unit {0}) × T)
          → IsSound start (translated e s q codec translator save_in_force tr r sv).1
      by_answer tr (ok _, ts) = retold start sv ts sound
      by_answer tr (err x, ts) = retold start sv ts sound

      by_language :
          (r : Result Error (Unit {0}))
          → IsSound start (save_in e s q codec translator save_in_force i req r sv).1
      by_language (err x) = sound
      by_language (ok _) = by_answer _ _

  serve-IsSound :
      (start sv : Running) (r : Request)
      → IsSound start sv
      → IsSound start (serve e s o q codec translator save_in_force r sv)
  unfolding serve Handlers.update Handlers.delete save_translation
  serve-IsSound start sv (create ctx body) sound = created_keeps start sv ctx body sound
  serve-IsSound start sv (update ctx id body) sound =
      updated_keeps start sv ctx (id_of e id) body sound
  serve-IsSound start sv (delete id) sound = deleted_keeps start sv (id_of e id) sound
  serve-IsSound start sv (save body) sound = save_keeps start sv body sound
  serve-IsSound start sv (import ctx body) sound = import_keeps start sv ctx body sound
  serve-IsSound start sv (translate id body) sound =
      translated_keeps start sv (id_of e id) body sound
  serve-IsSound start sv (reread set passed) sound = in_force start sv set passed sound

  serve_all_from :
      (start : Running) (rs : List Request) (sv : Running)
      → IsSound start sv
      → IsSound start (serve_all e s o q codec translator save_in_force rs sv)
  unfolding serve_all
  serve_all_from start [] sv sound = sound
  serve_all_from start (r ∷ rs) sv sound =
      serve_all_from start rs (serve e s o q codec translator save_in_force r sv)
        (serve-IsSound start sv r sound)

  -- Over a store that keeps its contract, a queue that holds its tasks and settings whose saves are
  -- in force at once: whatever requests a service gets, in any order and with any answers, and
  -- whichever accepted settings it rereads between them, the settings in force pass their check, no
  -- import in the queue has more than max_import widgets, and exactly one event has been scheduled
  -- for each widget that was counted as created. It starts with settings that pass and such a
  -- queue.
  pub serve_all-IsSound :
      (start : Running) (rs : List Request)
      → check start.world.settings ≡ ok tt
      → AllBounded q codec lawful held start.queue
      → IsSound start (serve_all e s o q codec translator save_in_force rs start)
  serve_all-IsSound start rs passed bounded =
      serve_all_from start rs start (record { passed = passed; bounded = bounded; events = refl })
