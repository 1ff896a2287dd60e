-- ===== src/Widget/Core/Replies.antt =====
-- What the caller of a writable Core gets, by what the store answers.
use skit_x.Common.{ℕ, ◌≡◌, false, ok, err}
use skit_x.Dbx.{Error}
use skit_x.Widget.{Widget, NewWidget, UpdateWidget, Store}
use skit_x.Widget.Settings.{writable_open}
use skit_x.Widget.Core.{
  State, create, update, delete, insert, new_widget, patch, create_writable, update_writable,
  delete_writable,
}
use skit_x.Widget.World.{Ctx, Options, create_error, not_found_or_internal}

module _ (s : Store) (o : Options) (world : State s o)
    (open' : world.settings.read_only ≡ false) where
  pub create-ok :
      (ctx : Ctx) (nw : NewWidget) (db : s.Db)
      → insert s o (new_widget s o ctx nw) world.db ≡ (ok tt, db)
      → (create s o ctx nw world).0 ≡ ok (new_widget s o ctx nw)
  unfolding create
  create-ok ctx nw db h = rw (writable_open world.settings open', create_writable) (rw h)

  pub create-err :
      (ctx : Ctx) (nw : NewWidget) (e : Error) (db : s.Db)
      → insert s o (new_widget s o ctx nw) world.db ≡ (err e, db)
      → (create s o ctx nw world).0 ≡ err (create_error nw.name e)
  unfolding create
  create-err ctx nw e db h = rw (writable_open world.settings open', create_writable) (rw h)

  pub update-missing :
      (ctx : Ctx) (i : ℕ) (uw : UpdateWidget) (e : Error)
      → s.query_by_id i world.db ≡ err e
      → (update s o ctx i uw world).0 ≡ err (not_found_or_internal i e)
  unfolding update
  update-missing ctx i uw e h = rw (writable_open world.settings open', update_writable) (rw h)

  pub update-ok :
      (ctx : Ctx) (i : ℕ) (uw : UpdateWidget) (w : Widget) (db : s.Db)
      → s.query_by_id i world.db ≡ ok w
      → s.update (patch s o ctx uw w) world.db ≡ (ok tt, db)
      → (update s o ctx i uw world).0 ≡ ok (patch s o ctx uw w)
  unfolding update
  update-ok ctx i uw w db h k =
      rw (writable_open world.settings open', update_writable) (rw h (rw k))

  pub update-err :
      (ctx : Ctx) (i : ℕ) (uw : UpdateWidget) (w : Widget) (e : Error) (db : s.Db)
      → s.query_by_id i world.db ≡ ok w
      → s.update (patch s o ctx uw w) world.db ≡ (err e, db)
      → (update s o ctx i uw world).0 ≡ err (not_found_or_internal i e)
  unfolding update
  update-err ctx i uw w e db h k =
      rw (writable_open world.settings open', update_writable) (rw h (rw k))

  pub delete-ok :
      (i : ℕ) (db : s.Db) → s.delete i world.db ≡ (ok tt, db) → (delete s o i world).0 ≡ ok tt
  unfolding delete
  delete-ok i db h = rw (writable_open world.settings open', delete_writable) (rw h)

  pub delete-err :
      (i : ℕ) (e : Error) (db : s.Db)
      → s.delete i world.db ≡ (err e, db)
      → (delete s o i world).0 ≡ err (not_found_or_internal i e)
  unfolding delete
  delete-err i e db h = rw (writable_open world.settings open', delete_writable) (rw h)
