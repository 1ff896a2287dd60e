-- ===== src/Import/Delivered.antt =====
-- A batch from its Schedule to its Handle.
use skit_x.Common.{
  ℕ, String, ◌≡◌, ◌≢◌, sym, ap, ◌∙◌, Bool, List, map, Result, ok, err, ok-injective,
}
use skit_x.Dbx.{Error, Querier}
use skit_x.Dbx.Table.{Serves, find}
use skit_x.Import.{Queue, Codec, Ctx, Task, permanent, schedule, handle, handled}
use skit_x.Import.Replay.{SkipsConflicts, or_else, kept_row, row_of, handled-inv, bulk_insert-adds}
use skit_x.Import.Scheduled.{IsCodec, imported, schedule_hands_over}
use skit_x.Widget.{Widget, NewWidget}
use skit_x.Widget.Db.{DbWidget, widgets, bulk_insert}
use skit_x.Widget.Settings.{Settings, check}

module _ {P : Type 0} (queue : Queue P) (codec : Codec P) (lawful : IsCodec codec)
    {q : Querier DbWidget} (serves : Serves widgets q) (skips : SkipsConflicts serves) where
  -- a batch that reads is never given up for good
  retried_only :
      (ws : List Widget) (payload : P) (db db' : q.Db) (e : Error)
      → codec.unmarshal payload ≡ ok ws
      → handle codec q payload db ≢ (err (permanent e), db')
  unfolding handle
  retried_only ws payload db db' e read h = by_insert (bulk_insert q ws db) (rw read at h)
    where
      by_insert :
          (r : Result Error (Unit {0}) × q.Db) → handled codec q r ≢ (err (permanent e), db')
      by_insert (ok _, d) g = cc (ap (λ p. p.0) g)
      by_insert (err x, d) g = cc (ap (λ p. p.0) g)

  adds :
      (ws : List Widget) (payload : P) (db db' : q.Db)
      → codec.unmarshal payload ≡ ok ws
      → handle codec q payload db ≡ (ok tt, db')
      → (i : ℕ)
      → row_of serves db' i ≡ or_else (row_of serves db i) (find widgets i (map kept_row ws))
  adds ws payload db db' read h i =
      let (vs, decoded, inserted) = handled-inv serves codec payload db db' h in
      let same = ok-injective {E = Error} vs ws (sym decoded ∙ read) in
      bulk_insert-adds serves skips vs db db' inserted i
      ∙ ap (λ us. or_else (row_of serves db i) (find widgets i (map kept_row us))) same

  -- What a Schedule that succeeds hands to the queue is a task that, whenever it is handled, is
  -- never given up as a bad payload, and whose Handle, where it succeeds, has put each widget of
  -- the batch into the table, under the id and the time of the Schedule, unless its id was there,
  -- and has changed no other row. JSON reads back what it wrote, the settings pass their check, and
  -- an INSERT with ON CONFLICT (id) DO NOTHING that succeeds is assumed to add the rows whose id
  -- was missing.
  pub schedule-handle :
      (ctx : Ctx) (set : Settings) (name : String) (news : List NewWidget) (st st' : queue.State)
      (b : Bool)
      → check set ≡ ok tt
      → schedule queue codec ctx set name news st ≡ (ok b, st')
      → (task : Task P) × (queue.schedule task st ≡ (ok b, st'))
        × ((db db' : q.Db) (e : Error) → handle codec q task.payload db ≢ (err (permanent e), db'))
        × ((db db' : q.Db)
            → handle codec q task.payload db ≡ (ok tt, db')
            → (i : ℕ)
            → row_of serves db' i
              ≡ or_else (row_of serves db i) (find widgets i (map kept_row (imported ctx 0 news))))
  schedule-handle ctx set name news st st' b saved h =
      let (task, (_, _, _, read), sent, _) =
        schedule_hands_over queue codec lawful ctx set name news st st' b saved h in
      (
        task,
        sent,
        λ db db' e. retried_only (imported ctx 0 news) task.payload db db' e read,
        λ db db' done. adds (imported ctx 0 news) task.payload db db' read done,
      )
