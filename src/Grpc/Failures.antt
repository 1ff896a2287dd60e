-- ===== src/Grpc/Failures.antt =====
-- A call of the gRPC service that fails.
use skit_x.Common.{ℕ, ◌≡◌, sym, ap, ◌∙◌, Result, ok, err}
use skit_x.Errs.{AppError}
use skit_x.Grpc.{
  Edge, CreateWidgetRequest, UpdateWidgetRequest, WidgetId, create_widget, create_checked,
  update_widget, update_parsed, delete_widget, delete_parsed, parse_id, answered,
}
use skit_x.Widget.{Widget, Store}
use skit_x.Widget.Spec.{IsStore}
use skit_x.Widget.Core
use skit_x.Widget.Core.{State}
use skit_x.Widget.World.{Ctx, Options}
use skit_x.Widget.Core.Writes.{create_fails}
use skit_x.Widget.Core.Updates.{update_fails}
use skit_x.Widget.Core.Deletes.{delete-Leaves, Leaves}

module _ (e : Edge) (s : Store) (o : Options) (spec : IsStore s) where
  answered-err :
      (r : Result AppError Widget × State s o) (x : AppError) (world' : State s o)
      → answered e s o r ≡ (err x, world')
      → r ≡ (err x, world')
  answered-err (ok w, d) x world' h = cc (ap (λ p. p.0) h)
  answered-err (err y, d) x world' h = cc (ap (λ p. p.0) h, ap (λ p. p.1) h)

  create_checked-err :
      (ctx : Ctx) (req : CreateWidgetRequest) (c : Result AppError (Unit {0}))
      (world world' : State s o) (x : AppError)
      → create_checked e s o ctx req c world ≡ (err x, world')
      → world' ≡ world
  unfolding create_widget
  create_checked-err ctx req (err y) world world' x h = sym (ap (λ p. p.1) h)
  create_checked-err ctx req (ok _) world world' x h =
      create_fails s o spec ctx _ world world' x (answered-err _ x world' h)

  update_parsed-err :
      (ctx : Ctx) (req : UpdateWidgetRequest) (i : Result AppError ℕ) (world world' : State s o)
      (x : AppError)
      → update_parsed e s o ctx req i world ≡ (err x, world')
      → world' ≡ world
  unfolding update_widget
  update_parsed-err ctx req (err y) world world' x h = sym (ap (λ p. p.1) h)
  update_parsed-err ctx req (ok i) world world' x h =
      update_fails s o spec ctx i _ world world' x (answered-err _ x world' h)

  left :
      (i : ℕ) (world world' : State s o) (x : AppError) (r : Result AppError (Unit {0}) × State s o)
      → Leaves s o spec i world r
      → r ≡ (err x, world')
      → world' ≡ world
  left i world world' x (ok _, d) leaves h = cc (ap (λ p. p.0) h)
  left i world world' x (err y, d) leaves h = sym (ap (λ p. p.1) h) ∙ leaves

  delete_parsed-err :
      (i : Result AppError ℕ) (world world' : State s o) (x : AppError)
      → delete_parsed e s o i world ≡ (err x, world')
      → world' ≡ world
  unfolding delete_widget
  delete_parsed-err (err y) world world' x h = sym (ap (λ p. p.1) h)
  delete_parsed-err (ok i) world world' x h =
      left i world world' x (Core.delete s o i world) (delete-Leaves s o spec i world) h

  -- Over a store that keeps its contract, a CreateWidget, an UpdateWidget or a DeleteWidget that
  -- answers an error, from the check of the request, the parse of the id or the Core, has changed
  -- nothing: no row, no scheduled event, no count and no message on the bus.
  pub grpc_failures_change_nothing :
      (ctx : Ctx) (create : CreateWidgetRequest) (update : UpdateWidgetRequest) (delete : WidgetId)
      (world world' : State s o) (x : AppError)
      → (create_widget e s o ctx create world ≡ (err x, world') → world' ≡ world)
        × (update_widget e s o ctx update world ≡ (err x, world') → world' ≡ world)
        × (delete_widget e s o delete world ≡ (err x, world') → world' ≡ world)
  unfolding create_widget update_widget delete_widget
  grpc_failures_change_nothing ctx create update delete world world' x = (
    create_checked-err ctx create (e.check_name create.name) world world' x,
    update_parsed-err ctx update (parse_id e update.id) world world' x,
    delete_parsed-err (parse_id e delete.id) world world' x,
  )
