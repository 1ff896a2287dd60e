-- ===== src/Tests/Events.antt =====
-- The recorder over a log in memory, and the notifier over a client that counts its posts.
use skit_x.Common.{
  ℕ, suc, ◌≡◌, ◌↔◌, refl, Bool, true, false, Option, none, some, List, [], ◌∷◌, ◌++◌, Result, ok,
  err, Bytes, codes, if◌then◌else◌, Bool-cases, inl, inr,
}
use skit_x.Dbx.{Error, failure, bytes, time, uuid, Params, Querier}
use skit_x.Events.Audit.{EventRow}
use skit_x.Events.Recorded.{EventKey, as_kept, has_key, row_for, KeepsLog}
use skit_x.Events.Consumer.{consume_all, AckedAreRecorded, Backed, consume_all-Backed}
use skit_x.Idempotency.Keeper.{free, Keeper}
use skit_x.Tests.KeeperMemory.{Statuses, keeper, keeps}
use skit_x.Events.Webhook.{Client, handle, Delivered, handle_iff_Delivered}
use skit_x.Idempotency.Broker.{Message, Action, NotAcked}
use skit_x.Import.Replay.{or_else}
use skit_x.Widget.{Created}

-- whether the database answers, and the rows
abbrev Log : Type 0
Log = Bool × List EventRow

abbrev down : Error
down = record { text = "down"; causes = failure 11 ∷ [] }

abbrev row_from : Params → Option EventRow
row_from ((_, uuid i) ∷ (_, time at) ∷ (_, bytes t) ∷ (_, bytes p) ∷ []) =
    some (record { event_id = i; occurred_at = at; type = t; payload = p })
row_from _ = none

unfoldable find_event : EventKey → List EventRow → Option EventRow
find_event k [] = none
find_event k (r ∷ rs) = if has_key k r then some r else find_event k rs

-- a row whose key is there stands behind the one that is found
abbrev insert : Option EventRow → Log → Result Error (Unit {0}) × Log
insert none db = (err down, db)
insert (some r) (true, rows) = (ok tt, (true, rows ++ as_kept r ∷ []))
insert (some r) (false, rows) = (err down, (false, rows))

abbrev memory_log : Querier EventRow
memory_log = record {
  Db = Log;
  named_exec = λ sql p db. insert (row_from p) db;
  named_exec_rows_affected = λ sql p db. (err down, db);
  bulk_insert = λ table columns values tail db. (err down, db);
  named_query_one = λ sql p db. err down;
  named_query_count = λ st p db. err down;
  named_query_list = λ st p db. err down;
  within_tran = λ f db. f db;
}

-- uuids of one byte
abbrev one_byte : Bytes → Option ℕ
one_byte (b ∷ []) = some b
one_byte _ = none

find_event-append :
    (k : EventKey) (rs : List EventRow) (r : EventRow)
    → find_event k (rs ++ r ∷ []) ≡ or_else (find_event k rs) (row_for k (some r))
unfolding find_event
find_event-append k [] r = refl
find_event-append k (x ∷ rs) r = elim (Bool-cases (has_key k x)) [
  | inl e ↦ rw e
  | inr e ↦ rw e (find_event-append k rs r)
]

insert_answers :
    (r : EventRow) (up : Bool) (rows : List EventRow)
    → up ≡ true
    → insert (some r) (up, rows) ≡ (ok tt, (up, rows ++ as_kept r ∷ []))
insert_answers r true rows h = refl
insert_answers r false rows h = cc

insert_fails :
    (r : EventRow) (up : Bool) (rows : List EventRow)
    → up ≡ false
    → insert (some r) (up, rows) ≡ (err down, (up, rows))
insert_fails r true rows h = cc
insert_fails r false rows h = refl

unfoldable keeps_log : KeepsLog one_byte memory_log
keeps_log = record {
  log = λ db k. find_event k db.1;
  ready = λ db at. db.0;
  insert_ready = λ r db h. (
    (db.0, db.1 ++ as_kept r ∷ []),
    insert_answers r db.0 db.1 h,
    λ k. find_event-append k db.1 (as_kept r),
    λ at. refl,
  );
  insert_unready = λ r db h. (down, insert_fails r db.0 db.1 h);
}

abbrev event : Bytes → ℕ → Message
event i at = record {
  id = i;
  source = codes "skit";
  type = codes "widget.created";
  time = at;
  payload = codes "{}";
}

abbrev messages : List Message
messages = event (7 ∷ []) 3210 ∷ event [] 3210 ∷ event (7 ∷ []) 3210 ∷ event (8 ∷ []) 0 ∷ []

abbrev empty : Log
empty = (true, [])

abbrev recovers : List (Log → Log)
recovers = (λ db. (false, db.1)) ∷ (λ db. (true, db.1)) ∷ []

abbrev seventh : EventRow
seventh = record {
  event_id = 7;
  occurred_at = 3210;
  type = codes "widget.created";
  payload = codes "{}";
}

abbrev no_keys : Statuses (Unit {0})
no_keys key = free

abbrev consumer : Keeper (Unit {0}) NotAcked (Log × Action)
consumer = keeper (Unit {0}) NotAcked (Log × Action)

-- The message comes while the database is down, then twice while it is up.
abbrev deliveries : List ((Log → Log) × Message)
deliveries =
    ((λ db. (false, db.1)), event (7 ∷ []) 3210)
    ∷ ((λ db. (true, db.1)), event (7 ∷ []) 3210)
    ∷ ((λ db. db), event (7 ∷ []) 3210)
    ∷ []

abbrev after : Statuses (Unit {0}) × Log
after = consume_all one_byte memory_log consumer (codes "audit") deliveries no_keys empty

consume_all-Backed_example :
    AckedAreRecorded one_byte memory_log consumer
      (codes "audit")
      (keeps (Unit {0}) NotAcked (Log × Action))
      keeps_log
      deliveries
      no_keys
      empty
    × Backed one_byte memory_log consumer
        (codes "audit")
        (keeps (Unit {0}) NotAcked (Log × Action))
        keeps_log
        after.0
        after.1
unfolding keeps_log keeps
consume_all-Backed_example =
    consume_all-Backed one_byte memory_log consumer (codes "audit")
      (keeps (Unit {0}) NotAcked (Log × Action)) keeps_log deliveries no_keys empty
      ((λ db at r h. h), ((λ db at r h. h), ((λ db at r h. h), tt))) (λ key h. cc h)

-- the world is the number of posts
abbrev client : Client Created ℕ
client = record {
  decode = λ d. ok d;
  marshal = λ c. ok (codes "{}");
  new_request = λ url. ok tt;
  send = λ request w. (ok 204, suc w);
  status_text = λ n. "204";
}

abbrev widget_created : Created
widget_created = record { id = 1; name = "a"; description = ""; created_at = 5 }

handle_iff_Delivered_example :
    (handle client "http://hook" widget_created 0 ≡ (ok tt, 1))
    ↔ Delivered client "http://hook" widget_created 0 1
handle_iff_Delivered_example = handle_iff_Delivered client "http://hook" widget_created 0 1
