-- ===== src/Tests/Traces.antt =====
-- Requests to the widget service over the store and the queue in memory.
use skit_x.Common.{pos, ◌≡◌, refl, sym, ap, false, List, [], ◌∷◌, Result, ok}
use skit_x.Api.Widgets.Requests.{Request, create, delete, save, import, serve_all}
use skit_x.Api.Widgets.Service.{Service, Translator}
use skit_x.Api.Widgets.Traces.{KeepsSettings, IsSound, serve_all-IsSound}
use skit_x.Dbx.{Error}
use skit_x.Import.{Task}
use skit_x.Import.Log.{HoldsTasks}
use skit_x.Tests.Api.{edge}
use skit_x.Tests.Imports.{codec, codec-IsCodec, tasks_queue, ctx as import_ctx}
use skit_x.Tests.Memory.{Db}
use skit_x.Tests.Widgets.{at_rest, ctx, options, shop, shop-IsStore}
use skit_x.Widget.{Widget}
use skit_x.Widget.Db.{DbWidget}
use skit_x.Widget.Settings.{Settings, check}
use skit_x.Widget.World.{World}

abbrev save_in_force :
    Settings → World (Db DbWidget) → Result Error (Unit {0}) × World (Db DbWidget)
save_in_force set world = (ok tt, record world { settings = set })

in_force : KeepsSettings save_in_force
in_force = record {
  save_ok = λ set world world' h. sym (ap (λ p. p.1) h);
  save_err = λ set x world world' h. cc (ap (λ p. p.0) h);
}

held : HoldsTasks tasks_queue codec
held = record {
  tasks = λ st. st;
  schedule_new = λ t st st' h. sym (ap (λ p. p.1) h);
  schedule_known = λ t st st' h. cc (ap (λ p. p.0) h);
  schedule_failed = λ t x st st' h. cc (ap (λ p. p.0) h);
}

abbrev translator : Translator (Unit {0})
translator = record {
  validate_language = λ language. ok tt;
  save = λ language key document st. (ok tt, st);
}

abbrev start : Service (Db DbWidget) (List (Task (List Widget))) (Unit {0})
start = record { world = at_rest; queue = []; translations = tt; cached_count = 0 }

-- the limit of an import becomes 1, so the import of two is rejected
abbrev requests : List Request
requests =
    save (ok (record { read_only = false; import_limit = pos 1 }))
    ∷ import import_ctx (
        ok (record {
          name = "k";
          widgets =
              record { name = "a"; description = "" }
              ∷ record { name = "b"; description = "" }
              ∷ [];
        }))
    ∷ create ctx (ok (record { name = "d"; description = "new" }))
    ∷ delete "no uuid"
    ∷ []

start_passes : check at_rest.settings ≡ ok tt
unfolding check
start_passes = refl

serve_all-IsSound_example :
    IsSound edge shop options tasks_queue codec translator save_in_force shop-IsStore codec-IsCodec
      held in_force start
      (serve_all edge shop options tasks_queue codec translator save_in_force requests start)
unfolding held
serve_all-IsSound_example =
    serve_all-IsSound edge shop options tasks_queue codec translator save_in_force shop-IsStore
      codec-IsCodec held in_force start requests start_passes tt
