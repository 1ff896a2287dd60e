-- ===== src/Tests/Imports.antt =====
-- Imports at a concrete batch, queue and codec.
use skit_x.Common.{
  ℕ, map, err, ◌≢◌, sym, ◌+◌, ◌≤◌, ◌≡◌, refl, Bool, true, List, [], ◌∷◌, ◌++◌, Result, ok, length,
}
use skit_x.Dbx.{Error}
use skit_x.Import.{Queue, Codec, Ctx, Task, schedule, handle, new_widgets, import_queue, permanent}
use skit_x.Import.Scheduled.{IsCodec, IsTaskOf, imported as batch_of, schedule_hands_over}
use skit_x.Import.Delivered.{schedule-handle}
use skit_x.Dbx.Table.{find}
use skit_x.Import.Replay.{or_else, kept_row, replay_changes_nothing}
use skit_x.Tests.Memory.{Db, memory, serves, widget_sample, skips}
use skit_x.Widget.{Widget, NewWidget}
use skit_x.Widget.Db.{DbWidget, widgets, bulk_insert}
use skit_x.Widget.Settings.{default_settings, check, writable, max_import}

-- A payload is the batch itself, and the queue accepts every task.
abbrev pub codec : Codec (List Widget)
codec = record { marshal = λ ws. ok ws; unmarshal = λ ws. ok ws }

pub codec-IsCodec : IsCodec codec
codec-IsCodec = record { unmarshal-marshal = λ ws b h. sym h }

abbrev pub tasks_queue : Queue (List Widget)
tasks_queue = record {
  State = List (Task (List Widget));
  schedule = λ task st. (ok true, st ++ task ∷ []);
}

abbrev pub ctx : Ctx
ctx = record { now = 7; new_ids = λ n. n + 5 }

abbrev batch : List NewWidget
batch =
    record { name = "a"; description = "first" }
    ∷ record { name = "b"; description = "second" }
    ∷ []

abbrev task : Task (List Widget)
task = record {
  queue = import_queue;
  kind = import_queue;
  key = "k";
  payload = new_widgets ctx 0 batch;
}

schedule_runs : schedule tasks_queue codec ctx default_settings "k" batch [] ≡ (ok true, task ∷ [])
unfolding schedule writable
schedule_runs = refl

default_saved : check default_settings ≡ ok tt
unfolding check
default_saved = refl

schedule_hands_over_example :
    (t : Task (List Widget)) × IsTaskOf tasks_queue codec ctx "k" batch t
    × (◌≡◌ {A = Result Error Bool × List (Task (List Widget))}
        (ok true, t ∷ [])
        (ok true, task ∷ []))
    × (length batch ≤ max_import)
schedule_hands_over_example =
    schedule_hands_over tasks_queue codec codec-IsCodec ctx default_settings "k" batch []
      (task ∷ []) true default_saved schedule_runs

abbrev empty : Db DbWidget
empty = record { rows = []; outbox = [] }

abbrev imported : Db DbWidget
imported = (handle codec (memory widget_sample) (new_widgets ctx 0 batch) empty).1

handle_runs :
    handle codec (memory widget_sample) (new_widgets ctx 0 batch) empty ≡ (ok tt, imported)
unfolding handle bulk_insert
handle_runs = refl

replay_changes_nothing_example :
    handle codec (memory widget_sample) (new_widgets ctx 0 batch) imported ≡ (ok tt, imported)
unfolding serves
replay_changes_nothing_example =
    replay_changes_nothing (serves widget_sample) codec skips (new_widgets ctx 0 batch) empty
      imported imported handle_runs refl (λ i absent. absent)

schedule-handle_example :
    (t : Task (List Widget)) × (tasks_queue.schedule t [] ≡ (ok true, task ∷ []))
    × ((db db' : Db DbWidget) (e : Error)
        → handle codec (memory widget_sample) t.payload db ≢ (err (permanent e), db'))
    × ((db db' : Db DbWidget)
        → handle codec (memory widget_sample) t.payload db ≡ (ok tt, db')
        → (i : ℕ)
        → find widgets i db'.rows
          ≡ or_else (find widgets i db.rows) (find widgets i (map kept_row (batch_of ctx 0 batch))))
unfolding serves
schedule-handle_example =
    schedule-handle tasks_queue codec codec-IsCodec (serves widget_sample) skips ctx
      default_settings "k" batch [] (task ∷ []) true default_saved schedule_runs
