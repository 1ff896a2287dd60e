-- ===== src/Api/Widgets/Accounts.antt =====
-- The accounts of a write of the Core (core/widget/widget.go): its settings and its events.
use mathlib.Core.Path.{subst}
use skit_x.Common.{
  ℕ, ◌+◌, ◌≡◌, refl, sym, ap, [], ◌∷◌, Result, ok, err, length, length-append, arith,
}
use skit_x.Errs.{AppError}
use skit_x.Widget.{Widget, NewWidget, UpdateWidget, Store}
use skit_x.Widget.Core
use skit_x.Widget.Core.{State}
use skit_x.Widget.Core.Deletes.{delete-Leaves, Leaves}
use skit_x.Widget.Core.Updates.{update_commits, update_fails}
use skit_x.Widget.Core.Writes.{create_commits, create_fails}
use skit_x.Widget.Spec.{IsStore}
use skit_x.Widget.World.{Ctx, Options, created_of}

-- The operations of the Core: they leave the settings, and schedule one event for each widget that
-- they count.
module _ (s : Store) (o : Options) (spec : IsStore s) where
  open spec use {outbox}

  pub record Accounted (world world' : State s o) : Type 0 where
    pub settings : world'.settings ≡ world.settings
    pub events :
        length (outbox world'.db) + world.created_total
        ≡ length (outbox world.db) + world'.created_total

  pub unmoved : (world world' : State s o) → world' ≡ world → Accounted world world'
  unmoved world world' h =
      subst (Accounted world) (sym h) (record { settings = refl; events = refl })

  pub create-Accounted :
      (ctx : Ctx) (nw : NewWidget) (world : State s o)
      → Accounted world (Core.create s o ctx nw world).1
  create-Accounted ctx nw world = by_result (Core.create s o ctx nw world) refl
    where
      by_result :
          (r : Result AppError Widget × State s o)
          → Core.create s o ctx nw world ≡ r
          → Accounted world r.1
      by_result (err x, world') h =
          unmoved world world' (create_fails s o spec ctx nw world world' x h)
      by_result (ok w, world') h =
          let (_, (_, _, sent, total, _, kept)) = create_commits s o spec ctx nw world world' w h in
          record {
            settings = kept;
            events =
                omega (
                  arith,
                  ap length sent,
                  length-append (outbox world.db) (created_of w ∷ []),
                  total,
                );
          }

  pub update-Accounted :
      (ctx : Ctx) (i : ℕ) (uw : UpdateWidget) (world : State s o)
      → Accounted world (Core.update s o ctx i uw world).1
  update-Accounted ctx i uw world = by_result (Core.update s o ctx i uw world) refl
    where
      by_result :
          (r : Result AppError Widget × State s o)
          → Core.update s o ctx i uw world ≡ r
          → Accounted world r.1
      by_result (err x, world') h =
          unmoved world world' (update_fails s o spec ctx i uw world world' x h)
      by_result (ok w, world') h =
          let (_, _, _, _, sent, total, _, kept) =
            update_commits s o spec ctx i uw world world' w h in
          record { settings = kept; events = omega (arith, ap length sent, total) }

  pub delete-Accounted : (i : ℕ) (world : State s o) → Accounted world (Core.delete s o i world).1
  delete-Accounted i world = by_result (Core.delete s o i world) (delete-Leaves s o spec i world)
    where
      by_result :
          (r : Result AppError (Unit {0}) × State s o)
          → Leaves s o spec i world r
          → Accounted world r.1
      by_result (err x, world') h = unmoved world world' h
      by_result (ok _, world') (_, sent, rest) = record {
        settings = ap (λ (w : State s o). w.settings) rest;
        events = omega (arith, ap length sent, ap (λ (w : State s o). w.created_total) rest);
      }
