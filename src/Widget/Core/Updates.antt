-- ===== src/Widget/Core/Updates.antt =====
-- What Update and Delete of core/widget/widget.go leave behind, over any Store.
use mathlib.Core.Option.{get_or}
use mathlib.Core.Path.{subst, subst₂}
use skit_x.Common.{ℕ, ◌≡◌, refl, sym, ◌∙◌, ap, some, ◌++◌, Result, ok, err, ◌==◌, if◌then◌else◌}
use skit_x.Dbx.{Error}
use skit_x.Errs.{AppError}
use skit_x.Widget.{Widget, UpdateWidget, Store}
use skit_x.Widget.Settings.{writable}
use skit_x.Widget.Spec.{IsStore, kept}
use skit_x.Widget.Core.{
  State, update, publish_audit, patch, query_by_id, mapped, after_update, update_found,
  update_writable,
}
use skit_x.Widget.World.{Ctx, Options}
use skit_x.Widget.Core.Announce.{audit_events, publish_audit_lem}

module _ (s : Store) (o : Options) where
  mapped-ok : (i : ℕ) (r : Result Error Widget) (w : Widget) → mapped s o i r ≡ ok w → r ≡ ok w
  mapped-ok i (ok v) w h = cc
  mapped-ok i (err e) w h = cc

  after_update-inv :
      (ctx : Ctx) (i : ℕ) (v w : Widget) (r : Result Error (Unit {0}) × s.Db)
      (world world' : State s o)
      → after_update s o ctx i v r world ≡ (ok w, world')
      → (r ≡ (ok tt, r.1))
        × (w ≡ v)
        × (world' ≡ publish_audit s o ctx v (record world { db = r.1 }))
  after_update-inv ctx i v w (ok tt, db) world world' h =
      (refl, cc (ap (λ p. p.0) h), sym (ap (λ p. p.1) h))
  after_update-inv ctx i v w (err e, db) world world' h = cc (ap (λ p. p.0) h)

  update_found-inv :
      (ctx : Ctx) (i : ℕ) (uw : UpdateWidget) (q : Result AppError Widget)
      (world world' : State s o) (w : Widget)
      → update_found s o ctx i uw q world ≡ (ok w, world')
      → (old : Widget) × (q ≡ ok old)
        × (after_update s o ctx i
              (patch s o ctx uw old)
              (s.update (patch s o ctx uw old) world.db)
              world
            ≡ (ok w, world'))
  unfolding update
  update_found-inv ctx i uw (ok old) world world' w h = (old, refl, h)
  update_found-inv ctx i uw (err e) world world' w h = cc (ap (λ p. p.0) h)

  update_writable-inv :
      (ctx : Ctx) (i : ℕ) (uw : UpdateWidget) (g : Result AppError (Unit {0}))
      (world world' : State s o) (w : Widget)
      → update_writable s o ctx i uw g world ≡ (ok w, world')
      → update_found s o ctx i uw (query_by_id s o i world) world ≡ (ok w, world')
  unfolding update
  update_writable-inv ctx i uw (ok _) world world' w h = h
  update_writable-inv ctx i uw (err e) world world' w h = cc (ap (λ p. p.0) h)

  -- What a successful Update has done, by its calls.
  update-inv :
      (ctx : Ctx) (i : ℕ) (uw : UpdateWidget) (world world' : State s o) (w : Widget)
      → update s o ctx i uw world ≡ (ok w, world')
      → (old : Widget) × (db : s.Db) × (s.query_by_id i world.db ≡ ok old)
        × (w ≡ patch s o ctx uw old)
        × (s.update (patch s o ctx uw old) world.db ≡ (ok tt, db))
        × (world' ≡ publish_audit s o ctx (patch s o ctx uw old) (record world { db = db }))
  unfolding update
  update-inv ctx i uw world world' w h =
      let f = update_writable-inv ctx i uw (writable world.settings) world world' w h in
      let (old, q, g) = update_found-inv ctx i uw (query_by_id s o i world) world world' w f in
      let v = patch s o ctx uw old in
      let (a, b, c) = after_update-inv ctx i v w (s.update v world.db) world world' g in
      (old, (s.update v world.db).1, mapped-ok i (s.query_by_id i world.db) old q, b, a, c)

  module _ (spec : IsStore s) where
    open spec use {find, outbox}

    -- the widget with the fields that were given and a new updated_at
    abbrev pub patched : Ctx → UpdateWidget → Widget → Widget
    patched ctx uw old = record {
      id = old.id;
      name = get_or uw.name old.name;
      description = get_or uw.description old.description;
      created_at = old.created_at;
      updated_at = ctx.now;
    }

    -- The old widget of the id and its patch: every other id and the scheduled events are as
    -- before, and the audit event of the patch is the one message on the bus.
    abbrev pub IsPatchOf : Ctx → ℕ → UpdateWidget → State s o → Widget → State s o → Type 0
    IsPatchOf ctx i uw world w world' =
        (old : Widget) × (find world.db i ≡ some old)
        × (w ≡ patched ctx uw old)
        × ((j : ℕ)
            → find world'.db j ≡ (
                if i == j
                then some (record (kept w) { created_at = old.created_at })
                else find world.db j))
        × (outbox world'.db ≡ outbox world.db)
        × (world'.created_total ≡ world.created_total)
        × (world'.published ≡ world.published ++ audit_events o ctx w)
        × (world'.settings ≡ world.settings)

    -- Over a store that keeps its contract, an Update that succeeds returns the stored widget with
    -- the fields that were given and a new updated_at, keeps its id, its created_at and the fields
    -- that were not given, stores just that with its updated_at to the microsecond, and publishes its audit event if a bus is set.
    pub update_commits :
        (ctx : Ctx) (i : ℕ) (uw : UpdateWidget) (world world' : State s o) (w : Widget)
        → update s o ctx i uw world ≡ (ok w, world')
        → IsPatchOf ctx i uw world w world'
    update_commits ctx i uw world world' w h =
        let (old, db, q, same, u, left) = update-inv ctx i uw world world' w h in
        let v = patch s o ctx uw old in
        let found = spec.query_by_id_ok i old world.db q in
        let own = spec.find-id i old world.db found in
        let (seen, same_events) =
          spec.update_ok v old world.db db (subst (λ j. find world.db j ≡ some old) (sym own) found)
            u in
        let end = left ∙ publish_audit_lem s o ctx v (record world { db = db }) in
        subst₂ (IsPatchOf ctx i uw world) (sym same) (sym end) (
          old,
          found,
          refl,
          subst
              (λ k.
                (j : ℕ)
                → find db j ≡ (
                    if k == j
                    then some (record (kept v) { created_at = old.created_at })
                    else find world.db j))
              own seen,
          same_events,
          refl,
          refl,
          refl,
        )

    after_update-err :
        (ctx : Ctx) (i : ℕ) (v : Widget) (r : Result Error (Unit {0}) × s.Db)
        (world world' : State s o) (e : AppError)
        → ((x : Error) → r.0 ≡ err x → r.1 ≡ world.db)
        → after_update s o ctx i v r world ≡ (err e, world')
        → world' ≡ world
    after_update-err ctx i v (ok _, db) world world' e same h = cc (ap (λ p. p.0) h)
    after_update-err ctx i v (err x, db) world world' e same h =
        sym (ap (λ p. p.1) h) ∙ ap (λ d. record world { db = d }) (same x refl)

    update_found-err :
        (ctx : Ctx) (i : ℕ) (uw : UpdateWidget) (q : Result AppError Widget)
        (world world' : State s o) (e : AppError)
        → update_found s o ctx i uw q world ≡ (err e, world')
        → world' ≡ world
    unfolding update
    update_found-err ctx i uw (err _) world world' e h = sym (ap (λ p. p.1) h)
    update_found-err ctx i uw (ok old) world world' e h =
        let v = patch s o ctx uw old in
        after_update-err ctx i v (s.update v world.db) world world' e
          (λ x g.
            spec.update_err v x world.db (s.update v world.db).1
              (λ k. (g k, (s.update v world.db).1)))
          h

    update_writable-err :
        (ctx : Ctx) (i : ℕ) (uw : UpdateWidget) (g : Result AppError (Unit {0}))
        (world world' : State s o) (e : AppError)
        → update_writable s o ctx i uw g world ≡ (err e, world')
        → world' ≡ world
    unfolding update
    update_writable-err ctx i uw (err _) world world' e h = sym (ap (λ p. p.1) h)
    update_writable-err ctx i uw (ok _) world world' e h =
        update_found-err ctx i uw (query_by_id s o i world) world world' e h

    -- Over a store that keeps its contract, an Update that fails, on whatever branch, changes
    -- nothing.
    pub update_fails :
        (ctx : Ctx) (i : ℕ) (uw : UpdateWidget) (world world' : State s o) (e : AppError)
        → update s o ctx i uw world ≡ (err e, world')
        → world' ≡ world
    unfolding update
    update_fails ctx i uw world world' e h =
        update_writable-err ctx i uw (writable world.settings) world world' e h
