-- ===== src/Events/Consumer.antt =====
-- The consumer of the broker (App.initConsumers of internal/app/server/server.go): the recorder of
-- core/widgetaudit inside the Handler of internal/app/idempotency.
use mathlib.Core.Path.{subst}
use skit_x.Common.{
  All, ◌≡◌, ◌≢◌, refl, sym, ap, ◌∙◌, Option, none, some, List, [], ◌∷◌, ok, err, Bytes, Bytes-cases,
  Option-cases, inl, inr, Bool-cases, ℕ,
}
use skit_x.Dbx.{Error, Querier}
use skit_x.Dbx.Table.{micros}
use skit_x.Events.Audit.{EventRow, handle}
use skit_x.Events.Recorded.{
  EventKey, row_for, as_kept, insert_ignoring, KeepsLog, row_of, row_there,
}
use skit_x.Idempotency.Broker.{
  Action, ack, requeue, discard, Message, NotAcked, not_acked, handler, handler_named,
  handler_unnamed, judging, conclude,
}
use skit_x.Idempotency.Keeper.{Keeper, IsKeeper, Status, free, busy, down, stored}
use skit_x.Idempotency.Keys.{broker_key}
use skit_x.Import.Replay.{or_else}

module _ (parse_uuid : Bytes → Option ℕ) (q : Querier EventRow)
    (k : Keeper (Unit {0}) NotAcked (q.Db × Action)) (queue : Bytes) where
  -- what the consumer does with a message
  unfoldable pub consume : Message → k.Store → q.Db → Action × k.Store × q.Db
  consume m = handler k queue (handle parse_uuid q m) m

  -- The messages one after another, `before` being what happens to the database before each.
  unfoldable pub consume_all : List ((q.Db → q.Db) × Message) → k.Store → q.Db → k.Store × q.Db
  consume_all [] st db = (st, db)
  consume_all ((before, m) ∷ ms) st db =
      let out = consume m st (before db) in consume_all ms out.1 out.2

  module _ (keeper : IsKeeper k) (keeps : KeepsLog parse_uuid q) where
    open keeps use {log, ready}
    open keeper use {status}

    -- the log has a row under the id and the time of the message
    abbrev pub HasRow : Message → q.Db → Type 0
    HasRow m db =
        (r : EventRow) × (row_of parse_uuid q m ≡ some r)
        × ((r' : EventRow) × (log db (r.event_id, micros r.occurred_at) ≡ some r'))

    -- no row goes
    abbrev pub Grows : q.Db → q.Db → Type 0
    Grows db db' = (at : EventKey) (r : EventRow) → log db at ≡ some r → log db' at ≡ some r

    -- Each key that the keeper remembers is that of a message which is in the log.
    abbrev pub Backed : k.Store → q.Db → Type 0
    Backed st db =
        (key : Bytes)
        → status st key ≡ stored tt
        → (m : Message) × (broker_key queue m.source m.id ≡ key) × HasRow m db

    HasRow-Grows : (m : Message) (db db' : q.Db) → Grows db db' → HasRow m db → HasRow m db'
    HasRow-Grows m db db' grows (r, asked, (r', there)) = (r, asked, (r', grows _ r' there))

    Backed-Grows : (st : k.Store) (db db' : q.Db) → Grows db db' → Backed st db → Backed st db'
    Backed-Grows st db db' grows backed key h =
        let (m, same, there) = backed key h in (m, same, HasRow-Grows m db db' grows there)

    -- No row goes, and what is acked is in the log.
    abbrev Kept : Message → q.Db → Action × q.Db → Type 0
    Kept m db (a, db') = Grows db db' × (a ≡ ack → HasRow m db')

    handle_absent :
        (m : Message) (db : q.Db)
        → row_of parse_uuid q m ≡ none
        → handle parse_uuid q m db ≡ (discard, db)
    unfolding handle
    handle_absent m db h = rw h

    handle_ready :
        (m : Message) (r : EventRow) (db db' : q.Db)
        → row_of parse_uuid q m ≡ some r
        → insert_ignoring parse_uuid q r db ≡ (ok tt, db')
        → handle parse_uuid q m db ≡ (ack, db')
    unfolding handle
    handle_ready m r db db' h x = rw h (rw x)

    handle_unready :
        (m : Message) (r : EventRow) (e : Error) (db : q.Db)
        → row_of parse_uuid q m ≡ some r
        → insert_ignoring parse_uuid q r db ≡ (err e, db)
        → handle parse_uuid q m db ≡ (requeue, db)
    unfolding handle
    handle_unready m r e db h x = rw h (rw x)

    handle-Kept : (m : Message) (db : q.Db) → Kept m db (handle parse_uuid q m db)
    handle-Kept m db = elim (Option-cases (row_of parse_uuid q m)) [
      | inl absent ↦ subst (Kept m db) (sym (handle_absent m db absent)) (λ at r h. h, λ a. cc a)
      | inr (r, asked) ↦ elim (Bool-cases (ready db r.occurred_at)) [
        | inl good ↦
            let (db', x, seen, _) = keeps.insert_ready r db good in
            subst (Kept m db) (sym (handle_ready m r db db' asked x)) (
              λ at s h. seen at ∙ ap (λ o. or_else o (row_for at (some (as_kept r)))) h,
              λ a. (r, asked, row_there parse_uuid q keeps r db db' seen),
            )
        | inr bad ↦
            let (e, x) = keeps.insert_unready r db bad in
            subst (Kept m db) (sym (handle_unready m r e db asked x)) (λ at s h. h, λ a. cc a)
      ]
    ]

    -- a message with the key of this one is in the log
    abbrev pub IsRecorded : Message → q.Db → Type 0
    IsRecorded m db =
        (m' : Message) × (broker_key queue m'.source m'.id ≡ broker_key queue m.source m.id)
        × HasRow m' db

    -- What the keeper remembers is in the log, and so is the message, if it was acked.
    abbrev Sound : Message → Action × k.Store × q.Db → Type 0
    Sound m (a, st, db) = Backed st db × (a ≡ ack → IsRecorded m db)

    -- Each delivery that is acked is of a message which is in the log then.
    abbrev pub AckedAreRecorded : List ((q.Db → q.Db) × Message) → k.Store → q.Db → Type 0
    AckedAreRecorded [] st db = Unit
    AckedAreRecorded ((before, m) ∷ ms) st db =
        let out = consume m st (before db) in
        (out.0 ≡ ack → IsRecorded m out.2) × AckedAreRecorded ms out.1 out.2

    -- with the key of the message remembered
    remembered :
        (m : Message) (st st' : k.Store) (db : q.Db)
        → ((j : Bytes) → j ≢ broker_key queue m.source m.id → status st' j ≡ status st j)
        → HasRow m db
        → Backed st db
        → Backed st' db
    remembered m st st' db others there backed key h =
        elim (Bytes-cases key (broker_key queue m.source m.id)) [
          | inl same ↦ (m, sym same, there)
          | inr differ ↦ backed key (sym (others key differ) ∙ h)
        ]

    -- with the key of the message free again
    forgotten :
        (key : Bytes) (st st' : k.Store) (db : q.Db)
        → status st' key ≡ free
        → ((j : Bytes) → j ≢ key → status st' j ≡ status st j)
        → Backed st db
        → Backed st' db
    forgotten key st st' db freed others backed j h = elim (Bytes-cases j key) [
      | inl same ↦ cc (same, freed, h)
      | inr differ ↦ backed j (sym (others j differ) ∙ h)
    ]

    module _ (m : Message) (st : k.Store) (db : q.Db) (backed : Backed st db) where
      abbrev key : Bytes
      key = broker_key queue m.source m.id

      abbrev run_handle : Action × k.Store × q.Db
      run_handle = conclude k (k.run key (judging k (handle parse_uuid q m)) st (db, ack))

      free_key :
          (out : Action × q.Db)
          → handle parse_uuid q m db ≡ out
          → Kept m db out
          → status st key ≡ free
          → Sound m run_handle
      free_key (ack, db') ran (grows, there) fresh =
          let (st', x, saved, others) =
            keeper.run_ok key (judging k (handle parse_uuid q m)) tt st (db, ack) (db', ack) fresh
              (rw ran) in
          subst (λ o. Sound m (conclude k o)) (sym x)
            (
              remembered m st st' db' others (there refl) (Backed-Grows st db db' grows backed),
              λ a. (m, refl, there refl),
            )
      free_key (requeue, db') ran (grows, there) fresh =
          let (st', x, freed, others) =
            keeper.run_err key (judging k (handle parse_uuid q m)) not_acked st (db, ack)
              (db', requeue) fresh (rw ran) in
          subst (λ o. Sound m (conclude k o)) (sym x)
            (forgotten key st st' db' freed others (Backed-Grows st db db' grows backed), λ a. cc a)
      free_key (discard, db') ran (grows, there) fresh =
          let (st', x, freed, others) =
            keeper.run_err key (judging k (handle parse_uuid q m)) not_acked st (db, ack)
              (db', discard) fresh (rw ran) in
          subst (λ o. Sound m (conclude k o)) (sym x)
            (forgotten key st st' db' freed others (Backed-Grows st db db' grows backed), λ a. cc a)

      by_status : (s : Status (Unit {0})) → status st key ≡ s → Sound m run_handle
      by_status free h = free_key (handle parse_uuid q m db) refl (handle-Kept m db) h
      by_status busy h =
          subst (λ o. Sound m (conclude k o))
            (sym (keeper.run_busy key (judging k (handle parse_uuid q m)) st (db, ack) h))
            (backed, λ a. cc a)
      by_status down h =
          subst (λ o. Sound m (conclude k o))
            (sym (keeper.run_down key (judging k (handle parse_uuid q m)) st (db, ack) h))
            (backed, λ a. cc a)
      by_status (stored tt) h =
          subst (λ o. Sound m (conclude k o))
            (sym (keeper.replay key (judging k (handle parse_uuid q m)) tt st (db, ack) h))
            (backed, λ a. backed key h)

      consume-Sound : Sound m (consume m st db)
      unfolding consume
      consume-Sound = by_id m.id refl
        where
          by_id :
              (id : Bytes) → m.id ≡ id → Sound m (handler k queue (handle parse_uuid q m) m st db)
          by_id [] none' =
              subst (Sound m) (sym (handler_unnamed k queue m (handle parse_uuid q m) st db none'))
                (
                  Backed-Grows st db _ (handle-Kept m db).0 backed,
                  λ a. (m, refl, (handle-Kept m db).1 a),
                )
          by_id (c ∷ cs) e =
              subst (Sound m)
                (sym
                  (handler_named k keeper queue m (λ n. cc (n, e)) (handle parse_uuid q m) st db))
                (by_status (status st key) refl)

    -- The consumer swallows no event. Where each key that the keeper remembers is that of a message
    -- whose row is in the log, every delivery that is then acked, with or without the recorder, is
    -- of a message whose key has its row in the log at that time, and what the keeper remembers
    -- after the deliveries has its rows as well. The deliveries may come in any order and get any
    -- verdicts; between them the database may go down, come back and get other rows, but it keeps
    -- those that it has; the keeper keeps its values.
    pub consume_all-Backed :
        (ms : List ((q.Db → q.Db) × Message)) (st : k.Store) (db : q.Db)
        → All (λ d. (db' : q.Db) → Grows db' (d.0 db')) ms
        → Backed st db
        → AckedAreRecorded ms st db × Backed (consume_all ms st db).0 (consume_all ms st db).1
    unfolding consume_all
    consume_all-Backed [] st db grows backed = (tt, backed)
    consume_all-Backed ((before, m) ∷ ms) st db (grows, rest) backed =
        let (still, acked) =
          consume-Sound m st (before db) (Backed-Grows st db (before db) (grows db) backed) in
        let (others, end) =
          consume_all-Backed ms (consume m st (before db)).1 (consume m st (before db)).2 rest
            still in
        ((acked, others), end)
