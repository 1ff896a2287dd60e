-- ===== src/Widget/Stack.antt =====
-- The operations of Core over the store of widgetdb, on a database that answers: what the caller
-- gets on every branch.
pub mod Rows
use mathlib.Core.Option
use skit_x.Common.{
  ℕ, zero, suc, String, ◌≡◌, refl, sym, ap, ◌∙◌, Bool, true, false, Option, none, some, List, [],
  ◌∷◌, ◌++◌, Result, ok, err, arith, inl, inr, Bool-cases, Option-cases, ◌==◌, if◌then◌else◌,
}
use skit_x.Dbx.{
  Error, Cause, is, wrap_both, err_not_found, err_already_exists, uuid, Params, Tokens, Querier,
}
use skit_x.Dbx.Table.{Serves, find, is_fresh, is_taken}
use skit_x.Errs.{AppError, internal, wrapped}
use skit_x.Listing.{Formats}
use skit_x.Widget.{Widget, NewWidget, UpdateWidget, Created, Store}
use skit_x.Widget.Settings.{writable}
use skit_x.Widget.Core
use skit_x.Widget.Core.{State, new_widget, patch, insert, insert_callback}
use skit_x.Widget.World.{Ctx, Options, World, not_found_error, already_exists_error, created_of}
use skit_x.Widget.Core.Replies
use skit_x.Widget.Db
use skit_x.Widget.Db.{
  DbWidget, widgets, row_args, to_db_widget, to_core_widget, store, sentinel_already_exists,
}

module _ {q : Querier DbWidget} (serves : Serves widgets q) where
  -- A transaction on a database that answers commits the work of its callback, and one whose
  -- callback fails is undone with an error that wraps the same sentinels. The queue takes an event.
  pub record IsLive (tasks : Created → q.Db → Result Error (Unit {0}) × q.Db) : Type 0 where
    pub schedules :
        (c : Created) (db : q.Db) → serves.up db ≡ true → (db' : q.Db) × (tasks c db ≡ (ok tt, db'))
    pub commits :
        (f : q.Db → Result Error (Unit {0}) × q.Db) (db db' : q.Db)
        → serves.up db ≡ true
        → f db ≡ (ok tt, db')
        → q.within_tran f db ≡ (ok tt, db')
    pub undoes :
        (f : q.Db → Result Error (Unit {0}) × q.Db) (e : Error) (db db' : q.Db)
        → f db ≡ (err e, db')
        → (e' : Error) × (q.within_tran f db ≡ (err e', db)) × ((c : Cause) → is e' c ≡ is e c)

  module _ (tasks : Created → q.Db → Result Error (Unit {0}) × q.Db) (live : IsLive tasks)
      (f : Formats) (tokens : Tokens) (o : Options) where
    abbrev pub widget_store : Store
    widget_store = store q f tokens (some tasks)

    abbrev pub Stack : Type 0
    Stack = State widget_store o

    -- the widget of a Create
    abbrev pub made : Ctx → NewWidget → Widget
    made ctx nw = record {
      id = ctx.new_id;
      name = nw.name;
      description = nw.description;
      created_at = ctx.now;
      updated_at = ctx.now;
    }

    -- An insert of a free id and name commits.
    insert_fresh :
        (w : Widget) (db : q.Db)
        → serves.up db ≡ true
        → is_fresh widgets (to_db_widget w) (serves.listing db) ≡ true
        → (db' : q.Db) × (insert widget_store o w db ≡ (ok tt, db'))
    unfolding insert Db.create
    insert_fresh w db up fresh =
        let (mid, x, still, _) = serves.insert_fresh (to_db_widget w) db up fresh in
        let (db', y) = live.schedules (created_of w) mid still in
        (db', live.commits (insert_callback widget_store o w) db db' up (rw x y))

    -- An insert of a taken id or name is undone with an error that says so.
    insert_taken :
        (w : Widget) (db : q.Db)
        → serves.up db ≡ true
        → is_fresh widgets (to_db_widget w) (serves.listing db) ≡ false
        → (e : Error) × (insert widget_store o w db ≡ (err e, db))
          × (is e err_already_exists ≡ true)
    unfolding insert Db.create
    insert_taken w db up taken =
        let (e, x, dup) = serves.insert_taken (to_db_widget w) db up taken in
        let (e', y, same) =
          live.undoes (insert_callback widget_store o w)
            (wrap_both "create" sentinel_already_exists e) db db (rw x (rw dup refl)) in
        (e', y, same err_already_exists)

    -- On a database that answers, with a queue that takes events and transactions that commit,
    -- Create of a writable service succeeds with the new widget exactly when neither the id nor
    -- the name is in the table; otherwise the caller gets AlreadyExists with the name, never
    -- Internal.
    pub create_outcome :
        (ctx : Ctx) (nw : NewWidget) (world : Stack)
        → serves.up world.db ≡ true
        → world.settings.read_only ≡ false
        → (Core.create widget_store o ctx nw world).0 ≡ (
            if is_fresh widgets (to_db_widget (made ctx nw)) (serves.listing world.db)
            then ok (made ctx nw)
            else err (already_exists_error nw.name))
    create_outcome ctx nw world up open' =
        let w = new_widget widget_store o ctx nw in
        elim (Bool-cases (is_fresh widgets (to_db_widget w) (serves.listing world.db))) [
          | inl fresh ↦
              let (db', x) = insert_fresh w world.db up fresh in
              rw (fresh, is_fresh) (Replies.create-ok widget_store o world open' ctx nw db' x)
          | inr taken ↦
              let (e, x, dup) = insert_taken w world.db up taken in
              rw (taken, is_fresh)
                (Replies.create-err widget_store o world open' ctx nw e world.db x ∙ rw dup)
        ]
