-- ===== src/Widget/Core.antt =====
-- core/widget/widget.go: the operations of Core over any Store. A call takes the world (the
-- database, the counter of created widgets, what the event bus was given, the settings in force)
-- and returns it with its result.
pub mod Announce
pub mod Writes
pub mod Updates
pub mod Deletes
pub mod Replies
use skit_x.Widget.World.{
  AuditEvent, Published, created, audit, Ctx, World, Options, audit_model_type, audit_actor,
  audit_fields, not_found_error, already_exists_error, created_of, not_found_or_internal,
  create_error, internally,
}
use skit_x.Common.{
  ℕ, suc, String, ◌≡◌, Bool, true, false, Option, none, some, List, [], ◌∷◌, ◌++◌, Result, ok, err,
  if◌then◌else◌, Bytes,
}
use mathlib.Core.Option.{get_or}
use skit_x.Dbx.{
  Error, is, err_not_found, err_already_exists, Arg, text, time, uuid, Params, By, Page, Cursor,
}
use skit_x.Errs.{AppError, newf, wrapped, not_found, already_exists, internal}
use skit_x.Widget.{Widget, NewWidget, UpdateWidget, QueryFilter, Created, Store}
use skit_x.Widget.Settings.{Settings, writable}

module _ (s : Store) (o : Options) where
  abbrev pub State : Type 0
  State = World s.Db

  -- Bus.Publish, when a bus is set
  abbrev pub publish : Published → State → State
  publish p w = if o.bus then record w { published = w.published ++ p ∷ [] } else w

  abbrev audit_marshalled : Ctx → Widget → Result Error Bytes → State → State
  audit_marshalled ctx w (err e) world = world
  audit_marshalled ctx w (ok payload) world =
      publish
        (audit (record {
          model_type = audit_model_type;
          model_id = w.id;
          created_by = audit_actor ctx;
          payload = payload;
        }))
        world

  -- publishAudit
  unfoldable pub publish_audit : Ctx → Widget → State → State
  publish_audit ctx w world = audit_marshalled ctx w (o.marshal (audit_fields w)) world

  -- The callback of insert: the row, then its event, in one transaction.
  abbrev then_schedule : Widget → Result Error (Unit {0}) × s.Db → Result Error (Unit {0}) × s.Db
  then_schedule w (ok _, db) = s.schedule (created_of w) db
  then_schedule w (err e, db) = (err e, db)

  abbrev pub insert_callback : Widget → s.Db → Result Error (Unit {0}) × s.Db
  insert_callback w db = then_schedule w (s.create w db)

  -- Core.insert
  unfoldable pub insert : Widget → s.Db → Result Error (Unit {0}) × s.Db
  insert w = s.within_tran_tasks (insert_callback w)

  abbrev pub new_widget : Ctx → NewWidget → Widget
  new_widget ctx nw = record {
    id = ctx.new_id;
    name = nw.name;
    description = nw.description;
    created_at = ctx.now;
    updated_at = ctx.now;
  }

  abbrev created_world : Ctx → Widget → s.Db → State → State
  created_world ctx w db world = publish_audit ctx w (
      publish (created (created_of w))
        (record world { db = db; created_total = suc world.created_total }))

  abbrev after_insert :
      Ctx → Widget → Result Error (Unit {0}) × s.Db → State → Result AppError Widget × State
  after_insert ctx w (err e, db) world = (err (create_error w.name e), record world { db = db })
  after_insert ctx w (ok _, db) world = (ok w, created_world ctx w db world)

  create_writable :
      Ctx → NewWidget → Result AppError (Unit {0}) → State → Result AppError Widget × State
  create_writable ctx nw (err e) world = (err e, world)
  create_writable ctx nw (ok _) world =
      after_insert ctx (new_widget ctx nw) (insert (new_widget ctx nw) world.db) world

  -- Core.Create
  unfoldable pub create : Ctx → NewWidget → State → Result AppError Widget × State
  unfolding create_writable
  create ctx nw world = create_writable ctx nw (writable world.settings) world

  abbrev mapped : ℕ → Result Error Widget → Result AppError Widget
  mapped i (ok w) = ok w
  mapped i (err e) = err (not_found_or_internal i e)

  -- Core.QueryByID
  unfoldable pub query_by_id : ℕ → State → Result AppError Widget
  query_by_id i world = mapped i (s.query_by_id i world.db)

  -- the partial update: a nil field is left unchanged
  abbrev pub patch : Ctx → UpdateWidget → Widget → Widget
  patch ctx uw w = record w {
    name = get_or uw.name w.name;
    description = get_or uw.description w.description;
    updated_at = ctx.now;
  }

  abbrev after_update :
      Ctx → ℕ → Widget → Result Error (Unit {0}) × s.Db → State → Result AppError Widget × State
  after_update ctx i w (err e, db) world =
      (err (not_found_or_internal i e), record world { db = db })
  after_update ctx i w (ok _, db) world = (ok w, publish_audit ctx w (record world { db = db }))

  update_found :
      Ctx → ℕ → UpdateWidget → Result AppError Widget → State → Result AppError Widget × State
  update_found ctx i uw (err e) world = (err e, world)
  update_found ctx i uw (ok w) world =
      after_update ctx i (patch ctx uw w) (s.update (patch ctx uw w) world.db) world

  update_writable :
      Ctx → ℕ → UpdateWidget → Result AppError (Unit {0}) → State → Result AppError Widget × State
  unfolding update_found
  update_writable ctx i uw (err e) world = (err e, world)
  update_writable ctx i uw (ok _) world = update_found ctx i uw (query_by_id i world) world

  -- Core.Update
  unfoldable pub update : Ctx → ℕ → UpdateWidget → State → Result AppError Widget × State
  unfolding update_writable query_by_id
  update ctx i uw world = update_writable ctx i uw (writable world.settings) world

  abbrev after_delete :
      ℕ → Result Error (Unit {0}) × s.Db → State → Result AppError (Unit {0}) × State
  after_delete i (err e, db) world = (err (not_found_or_internal i e), record world { db = db })
  after_delete i (ok _, db) world = (ok tt, record world { db = db })

  delete_writable : ℕ → Result AppError (Unit {0}) → State → Result AppError (Unit {0}) × State
  delete_writable i (err e) world = (err e, world)
  delete_writable i (ok _) world = after_delete i (s.delete i world.db) world

  -- Core.Delete
  unfoldable pub delete : ℕ → State → Result AppError (Unit {0}) × State
  unfolding delete_writable
  delete i world = delete_writable i (writable world.settings) world

  -- Core.Count
  unfoldable pub count : QueryFilter → State → Result AppError ℕ
  count filter world = internally (s.count filter world.db)

  -- Core.Query
  unfoldable pub query : QueryFilter → By → Page → State → Result AppError (List Widget)
  query filter by pg world = internally (s.query filter by pg world.db)

  -- Core.QueryByCursor
  unfoldable pub query_by_cursor :
      QueryFilter → Cursor → State → Result AppError (List Widget × String)
  query_by_cursor filter cur world = internally (s.query_by_cursor filter cur world.db)
