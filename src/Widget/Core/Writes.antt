-- ===== src/Widget/Core/Writes.antt =====
-- What Create, Update and Delete of core/widget/widget.go leave behind, over any Store.
use mathlib.Core.Path.{subst₂}
use skit_x.Widget.Core.Announce.{create_events, created_world_lem}
use skit_x.Common.{
  ℕ, suc, ◌≡◌, refl, sym, ◌∙◌, ap, none, some, [], ◌∷◌, ◌++◌, Result, ok, err, ◌==◌, if◌then◌else◌,
}
use skit_x.Dbx.{Error}
use skit_x.Errs.{AppError}
use skit_x.Widget.{Widget, NewWidget, Store}
use skit_x.Widget.Settings.{writable}
use skit_x.Widget.Spec.{IsStore, kept}
use skit_x.Widget.Core.{
  State, create, insert, insert_callback, new_widget, after_insert, created_world, create_writable,
  then_schedule,
}
use skit_x.Widget.World.{Ctx, Options, created_of}

module _ (s : Store) (o : Options) where
  after_insert-inv :
      (ctx : Ctx) (v w : Widget) (r : Result Error (Unit {0}) × s.Db) (world world' : State s o)
      → after_insert s o ctx v r world ≡ (ok w, world')
      → (r ≡ (ok tt, r.1)) × (w ≡ v) × (world' ≡ created_world s o ctx v r.1 world)
  after_insert-inv ctx v w (ok tt, db) world world' h =
      (refl, cc (ap (λ p. p.0) h), cc (ap (λ p. p.1) h))
  after_insert-inv ctx v w (err e, db) world world' h = cc (ap (λ p. p.0) h)

  create_writable-inv :
      (ctx : Ctx) (nw : NewWidget) (g : Result AppError (Unit {0})) (world world' : State s o)
      (w : Widget)
      → create_writable s o ctx nw g world ≡ (ok w, world')
      → let v = new_widget s o ctx nw in
        after_insert s o ctx v (insert s o v world.db) world ≡ (ok w, world')
  unfolding create
  create_writable-inv ctx nw (ok _) world world' w h = h
  create_writable-inv ctx nw (err e) world world' w h = cc (ap (λ p. p.0) h)

  -- What a successful Create has done, by its calls.
  pub create-inv :
      (ctx : Ctx) (nw : NewWidget) (world world' : State s o) (w : Widget)
      → create s o ctx nw world ≡ (ok w, world')
      → (db : s.Db) × (insert s o (new_widget s o ctx nw) world.db ≡ (ok tt, db))
        × (w ≡ new_widget s o ctx nw)
        × (world' ≡ created_world s o ctx (new_widget s o ctx nw) db world)
  unfolding create
  create-inv ctx nw world world' w h =
      let v = new_widget s o ctx nw in
      let r = insert s o v world.db in
      let g = create_writable-inv ctx nw (writable world.settings) world world' w h in
      let (a, b, c) = after_insert-inv ctx v w r world world' g in (r.1, a, b, c)

  -- The callback of the transaction succeeds only after both of its calls did.
  insert_callback-inv :
      (w : Widget) (db db' : s.Db)
      → insert_callback s o w db ≡ (ok tt, db')
      → (mid : s.Db) × (s.create w db ≡ (ok tt, mid))
        × (s.schedule (created_of w) mid ≡ (ok tt, db'))
  insert_callback-inv w db db' h = then_schedule-inv (s.create w db) h
    where
      then_schedule-inv :
          (r : Result Error (Unit {0}) × s.Db)
          → then_schedule s o w r ≡ (ok tt, db')
          → (mid : s.Db) × (r ≡ (ok tt, mid)) × (s.schedule (created_of w) mid ≡ (ok tt, db'))
      then_schedule-inv (ok tt, mid) g = (mid, refl, g)
      then_schedule-inv (err e, mid) g = cc (ap (λ p. p.0) g)

  module _ (spec : IsStore s) where
    open spec use {find, outbox}

    -- An insert that commits has written the widget, which was absent, and scheduled its event.
    pub insert_ok :
        (w : Widget) (db db' : s.Db)
        → insert s o w db ≡ (ok tt, db')
        → (find db w.id ≡ none)
          × ((i : ℕ) → find db' i ≡ (if w.id == i then some (kept w) else find db i))
          × (outbox db' ≡ outbox db ++ created_of w ∷ [])
    unfolding insert
    insert_ok w db db' h =
        let (mid, c, e) = insert_callback-inv w db db' (spec.within_ok _ db db' h) in
        let (absent, found, kept) = spec.create_ok w db mid c in
        let (sent, same) = spec.schedule_ok (created_of w) mid db' e in
        (absent, λ i. same i ∙ found i, sent ∙ ap (λ l. l ++ created_of w ∷ []) kept)

    -- The database of the callers that fail is the one they were given.
    after_insert-err :
        (ctx : Ctx) (v : Widget) (r : Result Error (Unit {0}) × s.Db) (world world' : State s o)
        (e : AppError)
        → ((x : Error) → r.0 ≡ err x → r.1 ≡ world.db)
        → after_insert s o ctx v r world ≡ (err e, world')
        → world' ≡ world
    after_insert-err ctx v (ok _, db) world world' e same h = cc (ap (λ p. p.0) h)
    after_insert-err ctx v (err x, db) world world' e same h =
        sym (ap (λ p. p.1) h) ∙ ap (λ d. record world { db = d }) (same x refl)

    insert-err :
        (w : Widget) (db : s.Db) (x : Error)
        → (insert s o w db).0 ≡ err x
        → (insert s o w db).1 ≡ db
    unfolding insert
    insert-err w db x h =
        spec.within_err _ x db (s.within_tran_tasks (insert_callback s o w) db).1
          (λ i. (h i, (s.within_tran_tasks (insert_callback s o w) db).1))

    create_writable-err :
        (ctx : Ctx) (nw : NewWidget) (g : Result AppError (Unit {0})) (world world' : State s o)
        (e : AppError)
        → create_writable s o ctx nw g world ≡ (err e, world')
        → world' ≡ world
    unfolding create
    create_writable-err ctx nw (err _) world world' e h = sym (ap (λ p. p.1) h)
    create_writable-err ctx nw (ok _) world world' e h =
        let v = new_widget s o ctx nw in
        after_insert-err ctx v (insert s o v world.db) world world' e (insert-err v world.db) h

    -- Over a store that keeps its contract, a Create that fails, on whatever branch, changes
    -- nothing: no row, no scheduled event, no count and no message on the bus.
    pub create_fails :
        (ctx : Ctx) (nw : NewWidget) (world world' : State s o) (e : AppError)
        → create s o ctx nw world ≡ (err e, world')
        → world' ≡ world
    unfolding create
    create_fails ctx nw world world' e h =
        create_writable-err ctx nw (writable world.settings) world world' e h

    -- `w` and its event are all that the call has added: the widget was absent, every other id
    -- answers as before, one creation is counted and the bus has its messages.
    abbrev pub IsCommitOf : Ctx → State s o → Widget → State s o → Type 0
    IsCommitOf ctx world w world' =
        (find world.db w.id ≡ none)
        × ((i : ℕ) → find world'.db i ≡ (if w.id == i then some (kept w) else find world.db i))
        × (outbox world'.db ≡ outbox world.db ++ created_of w ∷ [])
        × (world'.created_total ≡ suc world.created_total)
        × (world'.published ≡ world.published ++ create_events o ctx w)
        × (world'.settings ≡ world.settings)

    -- Over a store that keeps its contract, a Create that succeeds returns the new widget under
    -- the id and the time of the call with the name and the description it was given, for an id
    -- that was absent. It adds that widget alone, its times to the microsecond,
    -- appends its event to the scheduled ones, counts one creation, publishes the created event
    -- and then the audit event if a bus is set, and leaves the settings.
    pub create_commits :
        (ctx : Ctx) (nw : NewWidget) (world world' : State s o) (w : Widget)
        → create s o ctx nw world ≡ (ok w, world')
        → (w ≡ record {
          id = ctx.new_id;
          name = nw.name;
          description = nw.description;
          created_at = ctx.now;
          updated_at = ctx.now;
        })
          × IsCommitOf ctx world w world'
    create_commits ctx nw world world' w h =
        let (db, inserted, same, left) = create-inv ctx nw world world' w h in
        let v = new_widget s o ctx nw in
        let (absent, found, sent) = insert_ok v world.db db inserted in
        let end = left ∙ created_world_lem s o ctx v db world in
        (
          same,
          subst₂ (IsCommitOf ctx world) (sym same) (sym end)
              (absent, found, sent, refl, refl, refl),
        )
