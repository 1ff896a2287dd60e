-- ===== src/Events/Recorded.antt =====
-- Which events the recorder of core/widgetaudit/widgetaudit.go has written after its deliveries.
use skit_x.Common.{
  ℕ, ◌≡◌, refl, ap, ◌∙◌, Bool, true, false, ◌&&◌, Option, none, some, List, [], ◌∷◌, Result, ok,
  err, ◌==◌, Bytes, if◌then◌else◌, arith,
}
use skit_x.Dbx.{Error, bytes, time, uuid, Querier}
use skit_x.Dbx.Table.{micros}
use skit_x.Events.Audit.{EventRow, row_with, handle}
use skit_x.Idempotency.Broker.{Action, ack, requeue, discard, Message}
use skit_x.Import.Replay.{or_else}

-- The primary key of widget_event_log.
abbrev pub EventKey : Type 0
EventKey = ℕ × ℕ

abbrev pub has_key : EventKey → EventRow → Bool
has_key (i, at) r = r.event_id == i && r.occurred_at == at

abbrev pub row_for : EventKey → Option EventRow → Option EventRow
row_for k none = none
row_for k (some r) = if has_key k r then some r else none

-- the row as the table keeps it
abbrev pub as_kept : EventRow → EventRow
as_kept r = record r { occurred_at = micros r.occurred_at }

module _ (parse_uuid : Bytes → Option ℕ) (q : Querier EventRow) where
  -- the INSERT that leaves a row whose key it finds as it is
  abbrev pub insert_ignoring : EventRow → q.Db → Result Error (Unit {0}) × q.Db
  insert_ignoring r db =
      q.named_exec
        "INSERT INTO widget_event_log (event_id, occurred_at, type, payload) VALUES (:event_id, :occurred_at, :type, :payload) ON CONFLICT (event_id, occurred_at) DO NOTHING"
        (("event_id", uuid r.event_id)
          ∷ ("occurred_at", time r.occurred_at)
          ∷ ("type", bytes r.type)
          ∷ ("payload", bytes r.payload)
          ∷ [])
        db

  -- What is assumed of Postgres for that INSERT: on a database that
  -- answers and has the partition of the month (`ready`) it succeeds and adds the row, its time to
  -- the microsecond, if the key it then has was free, otherwise it fails and changes nothing.
  pub record KeepsLog : Type 0 where
    pub log : q.Db → EventKey → Option EventRow
    pub ready : q.Db → ℕ → Bool
    pub insert_ready :
        (r : EventRow) (db : q.Db)
        → ready db r.occurred_at ≡ true
        → (db' : q.Db) × (insert_ignoring r db ≡ (ok tt, db'))
          × ((k : EventKey) → log db' k ≡ or_else (log db k) (row_for k (some (as_kept r))))
          × ((at : ℕ) → ready db' at ≡ ready db at)
    pub insert_unready :
        (r : EventRow) (db : q.Db)
        → ready db r.occurred_at ≡ false
        → (e : Error) × (insert_ignoring r db ≡ (err e, db))

  abbrev pub row_of : Message → Option EventRow
  row_of m = row_with m (parse_uuid m.id)

  -- the row that the table would keep of it
  abbrev pub asked_row : Option EventRow → Option EventRow
  asked_row none = none
  asked_row (some r) = some (as_kept r)

  -- The messages one after another: the verdicts, and the database that is left.
  unfoldable pub deliver : List Message → q.Db → List Action × q.Db
  deliver [] db = ([], db)
  deliver (m ∷ ms) db =
      let (a, db') = handle parse_uuid q m db in let (as', end) = deliver ms db' in (a ∷ as', end)

  -- The first message that asks for a row of the key.
  unfoldable pub first_for : EventKey → List Message → Option EventRow
  first_for k [] = none
  first_for k (m ∷ ms) = or_else (row_for k (asked_row (row_of m))) (first_for k ms)

  abbrev verdict : Option EventRow → Action
  verdict none = discard
  verdict (some r) = ack

  unfoldable pub verdicts : List Message → List Action
  verdicts [] = []
  verdicts (m ∷ ms) = verdict (row_of m) ∷ verdicts ms

  module _ (keeps : KeepsLog) where
    open keeps use {log, ready}

    -- the database takes the events of these messages
    abbrev pub ReadyFor : q.Db → Option EventRow → Type 0
    ReadyFor db none = Unit
    ReadyFor db (some r) = ready db r.occurred_at ≡ true

    abbrev pub AllReady : q.Db → List Message → Type 0
    AllReady db [] = Unit
    AllReady db (m ∷ ms) = ReadyFor db (row_of m) × AllReady db ms

  abbrev until_settled : Action × q.Db → (q.Db → Action × q.Db) → Action × q.Db
  until_settled (ack, db) again = (ack, db)
  until_settled (discard, db) again = (discard, db)
  until_settled (requeue, db) again = again db

  -- A broker that delivers a requeued message again, after whatever else happened meanwhile; the
  -- list says what happens to the database before each delivery.
  unfoldable pub redeliver : List (q.Db → q.Db) → Message → q.Db → Action × q.Db
  redeliver [] m db = (requeue, db)
  redeliver (before ∷ rest) m db =
      until_settled (handle parse_uuid q m (before db)) (redeliver rest m)

  module _ (keeps : KeepsLog) where
    open keeps use {log, ready}

    -- At one of the deliveries the database answers and has the partition of the time.
    pub data Comes (at : ℕ) : List (q.Db → q.Db) → q.Db → Type 0 where
      now :
          {before : q.Db → q.Db} {rest : List (q.Db → q.Db)} {db : q.Db}
          → ready (before db) at ≡ true
          → Comes at (before ∷ rest) db
      later :
          {before : q.Db → q.Db} {rest : List (q.Db → q.Db)} {db : q.Db}
          → Comes at rest (before db)
          → Comes at (before ∷ rest) db

    or_else-some :
        (x : Option EventRow) (r : EventRow) → (r' : EventRow) × (or_else x (some r) ≡ some r')
    or_else-some none r = (r, refl)
    or_else-some (some r') r = (r', refl)

    own_key : (r : EventRow) → has_key (r.event_id, micros r.occurred_at) (as_kept r) ≡ true
    own_key r = ground arith

    -- what an INSERT leaves under its own key
    pub row_there :
        (r : EventRow) (db db' : q.Db)
        → ((k : EventKey) → log db' k ≡ or_else (log db k) (row_for k (some (as_kept r))))
        → (r' : EventRow) × (log db' (r.event_id, micros r.occurred_at) ≡ some r')
    row_there r db db' seen =
        let k : EventKey = (r.event_id, micros r.occurred_at) in
        let (r', e) = or_else-some (log db k) (as_kept r) in
        (
          r',
          seen k
              ∙ ap (λ b. or_else (log db k) (if b then some (as_kept r) else none)) (own_key r)
              ∙ e,
        )
