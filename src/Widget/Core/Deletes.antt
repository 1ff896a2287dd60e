-- ===== src/Widget/Core/Deletes.antt =====
-- What Delete of core/widget/widget.go leaves behind, over any Store.
use skit_x.Common.{ℕ, ◌≡◌, refl, ap, none, Result, ok, err, ◌==◌, if◌then◌else◌}
use skit_x.Dbx.{Error}
use skit_x.Errs.{AppError}
use skit_x.Widget.{Store}
use skit_x.Widget.Settings.{writable}
use skit_x.Widget.Spec.{IsStore}
use skit_x.Widget.Core.{State, delete, after_delete, delete_writable}
use skit_x.Widget.World.{Options}

module _ (s : Store) (o : Options) (spec : IsStore s) where
  open spec use {find, outbox}

  -- The widget of the id is gone, and nothing else has changed.
  abbrev pub IsRemovalOf : ℕ → State s o → State s o → Type 0
  IsRemovalOf i world world' =
      ((j : ℕ) → find world'.db j ≡ (if i == j then none else find world.db j))
      × (outbox world'.db ≡ outbox world.db)
      × (world' ≡ record world { db = world'.db })

  -- What a result of Delete says of the world that it leaves.
  abbrev pub Leaves : ℕ → State s o → Result AppError (Unit {0}) × State s o → Type 0
  Leaves i world (ok _, world') = IsRemovalOf i world world'
  Leaves i world (err _, world') = world' ≡ world

  after_delete-Leaves :
      (i : ℕ) (r : Result Error (Unit {0}) × s.Db) (world : State s o)
      → s.delete i world.db ≡ r
      → Leaves i world (after_delete s o i r world)
  after_delete-Leaves i (ok tt, db) world h =
      let (gone, kept) = spec.delete_ok i world.db db h in (gone, kept, refl)
  after_delete-Leaves i (err e, db) world h =
      ap (λ d. record world { db = d }) (spec.delete_err i e world.db db h)

  delete_writable-Leaves :
      (i : ℕ) (g : Result AppError (Unit {0})) (world : State s o)
      → Leaves i world (delete_writable s o i g world)
  unfolding delete
  delete_writable-Leaves i (err e) world = refl
  delete_writable-Leaves i (ok _) world = after_delete-Leaves i (s.delete i world.db) world refl

  -- Over a store that keeps its contract, a Delete that succeeds removes the widget of the id and
  -- changes nothing else, neither another widget nor a scheduled event, the counter, the bus or
  -- the settings. One that fails, on whatever branch, changes nothing.
  pub delete-Leaves : (i : ℕ) (world : State s o) → Leaves i world (delete s o i world)
  unfolding delete
  delete-Leaves i world = delete_writable-Leaves i (writable world.settings) world
