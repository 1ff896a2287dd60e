-- ===== src/Events/Audit.antt =====
-- core/widgetaudit/widgetaudit.go: Recorder.Handle, over any querier.
use skit_x.Common.{
  ℕ, String, Option, none, some, [], ◌∷◌, Result, ok, err, ◌==◌, Bytes, if◌then◌else◌,
}
use skit_x.Dbx.{Error, bytes, time, uuid, Params, Querier}
use skit_x.Idempotency.Broker.{Action, ack, requeue, discard, Message}

-- A row of widget_event_log, by the `db` tags of its argument.
pub record EventRow : Type 0 where
  pub event_id : ℕ
  pub occurred_at : ℕ
  pub type : Bytes
  pub payload : Bytes

abbrev pub insert_sql : String
insert_sql =
    "INSERT INTO widget_event_log (event_id, occurred_at, type, payload) VALUES (:event_id, :occurred_at, :type, :payload) ON CONFLICT (event_id, occurred_at) DO NOTHING"

abbrev pub event_args : EventRow → Params
event_args r =
    ("event_id", uuid r.event_id)
    ∷ ("occurred_at", time r.occurred_at)
    ∷ ("type", bytes r.type)
    ∷ ("payload", bytes r.payload)
    ∷ []

-- The row that a message asks for; `parse_uuid` is uuid.Parse.
abbrev pub row_with : Message → Option ℕ → Option EventRow
row_with m none = none
row_with m (some i) =
    if m.time == 0
    then none
    else some (record { event_id = i; occurred_at = m.time; type = m.type; payload = m.payload })

module _ (parse_uuid : Bytes → Option ℕ) (q : Querier EventRow) where
  -- The verdict of an INSERT.
  abbrev recorded : Result Error (Unit {0}) × q.Db → Action × q.Db
  recorded (ok _, db) = (ack, db)
  recorded (err e, db) = (requeue, db)

  abbrev pub handle_row : Option EventRow → q.Db → Action × q.Db
  handle_row none db = (discard, db)
  handle_row (some r) db = recorded (q.named_exec insert_sql (event_args r) db)

  -- Recorder.Handle: a malformed id or a zero time is dropped.
  unfoldable pub handle : Message → q.Db → Action × q.Db
  handle m db = handle_row (row_with m (parse_uuid m.id)) db
