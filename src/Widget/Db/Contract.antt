-- ===== src/Widget/Db/Contract.antt =====
-- The store of widgetdb, over a database that serves its table and a queue of tasks, keeps the
-- contract that Core relies on.
use mathlib.Core.Option
use mathlib.Core.Option.{some-injective}
use skit_x.Common.{
  ℕ, refl, ◌≡◌, sym, ap, ◌∙◌, true, none, some, Result, ok, err, err-injective, arith, inl, inr,
  Bool-cases, Option-cases, ◌==◌, if◌then◌else◌,
}
use skit_x.Dbx.{Error, is, err_not_found, Tokens, Querier}
use skit_x.Dbx.Table.{Serves, find, is_fresh}
use skit_x.Dbx.Find.{find-id, find_of_fresh, map-if}
use skit_x.Listing.{Formats}
use skit_x.Widget.{Widget, Created}
use skit_x.Widget.Spec.{IsStore, kept}
use skit_x.Widget.Db.Queue.{HasTasks, find_widget}
use skit_x.Widget.Db.Outcomes.{update-Outcome, delete-Outcome, query_by_id-Outcome}
use skit_x.Widget.Db.{
  DbWidget, widgets, row_args, to_db_widget, to_core_widget, create, create_done, update, delete,
  query_by_id, store,
}

module _ {q : Querier DbWidget} (serves : Serves widgets q) where
  -- UPDATE leaves the id and the created_at of the row.
  patched :
      (w old : Widget) (row : DbWidget)
      → row.id ≡ w.id
      → to_core_widget row ≡ old
      → to_core_widget (widgets.assign (widgets.stored (to_db_widget w)) row)
        ≡ record (kept w) { created_at = old.created_at }
  patched w old row own same = ground (arith, ap (λ (v : Widget). v.created_at) same)

  create_done-ok :
      (r : Result Error (Unit {0}) × q.Db) (db' : q.Db)
      → create_done q r ≡ (ok tt, db')
      → r ≡ (ok tt, db')
  create_done-ok (ok tt, db) db' h = ap (λ p. (ok tt, p.1)) h
  create_done-ok (err e, db) db' h = cc (ap (λ p. p.0) h)

  -- An INSERT that succeeds found the id and the name free.
  insert-inv :
      (r : DbWidget) (db db' : q.Db)
      → q.named_exec widgets.insert_sql (row_args r) db ≡ (ok tt, db')
      → (is_fresh widgets r (serves.listing db) ≡ true)
        × ((i : ℕ)
            → find widgets i (serves.listing db')
              ≡ (if r.id == i then some (widgets.stored r) else find widgets i (serves.listing db)))
  insert-inv r db db' h = elim (Bool-cases (serves.up db)) [
    | inr down ↦
        let (e, x, _) = serves.exec_down widgets.insert_sql (row_args r) db down in
        cc (ap (λ p. p.0) (sym x ∙ h))
    | inl up ↦ elim (Bool-cases (is_fresh widgets r (serves.listing db))) [
      | inl fresh ↦
          let (db'', x, _, found) = serves.insert_fresh r db up fresh in
          let same = ap (λ p. p.1) (sym x ∙ h) in
          (fresh, λ i. ap (λ d. find widgets i (serves.listing d)) (sym same) ∙ found i)
      | inr taken ↦
          let (e, x, _) = serves.insert_taken r db up taken in cc (ap (λ p. p.0) (sym x ∙ h))
    ]
  ]

  module _ (tasks : Created → q.Db → Result Error (Unit {0}) × q.Db)
      (queued : HasTasks serves tasks) where
    open queued use {outbox}

    pub update-ok :
        (w old : Widget) (db db' : q.Db)
        → find_widget serves db w.id ≡ some old
        → update q w db ≡ (ok tt, db')
        → ((i : ℕ)
            → find_widget serves db' i ≡ (
                if w.id == i
                then some (record (kept w) { created_at = old.created_at })
                else find_widget serves db i))
          × (outbox db' ≡ outbox db)
    unfolding update
    update-ok w old db db' found h = elim (update-Outcome serves (to_db_widget w) db) [
      | inl (e, x) ↦ cc (ap (λ p. p.0) (rw x at h))
      | inr (inl (x, absent)) ↦ cc (ap (λ p. p.0) (rw x at h))
      | inr (inr (row, db'', seen, x, after)) ↦
          let same = ap (λ p. p.1) (rw x at h) in
          let own = find-id widgets w.id (serves.listing db) row seen in
          let read = some-injective _ _ (ap (Option.map to_core_widget) (sym seen) ∙ found) in
          (
            λ i.
                ap (λ d. find_widget serves d i) (sym same)
                ∙ ap (Option.map to_core_widget) (after i)
                ∙ map-if to_core_widget (w.id == i) _ _
                ∙ ap (λ v. if w.id == i then some v else find_widget serves db i)
                    (patched w old row own read),
            ap outbox (sym same) ∙ queued.update_outbox _ 1 db db'' x,
          )
    ]

    pub update-err :
        (w : Widget) (e : Error) (db db' : q.Db) → update q w db ≡ (err e, db') → db' ≡ db
    unfolding update
    update-err w e db db' h = elim (update-Outcome serves (to_db_widget w) db) [
      | inl (_, x) ↦ sym (ap (λ p. p.1) (rw x at h))
      | inr (inl (x, absent)) ↦ sym (ap (λ p. p.1) (rw x at h))
      | inr (inr (row, db'', seen, x, after)) ↦ cc (ap (λ p. p.0) (rw x at h))
    ]

    pub delete-ok :
        (i : ℕ) (db db' : q.Db)
        → delete q i db ≡ (ok tt, db')
        → ((j : ℕ) → find_widget serves db' j ≡ (if i == j then none else find_widget serves db j))
          × (outbox db' ≡ outbox db)
    unfolding delete
    delete-ok i db db' h = elim (delete-Outcome serves i db) [
      | inl (e, x) ↦ cc (ap (λ p. p.0) (rw x at h))
      | inr (inl (x, absent)) ↦ cc (ap (λ p. p.0) (rw x at h))
      | inr (inr (row, db'', seen, x, after)) ↦
          let same = ap (λ p. p.1) (rw x at h) in
          (
            λ j.
                ap (λ d. find_widget serves d j) (sym same)
                ∙ ap (Option.map to_core_widget) (after j)
                ∙ map-if to_core_widget (i == j) none _,
            ap outbox (sym same) ∙ queued.delete_outbox _ 1 db db'' x,
          )
    ]

    pub delete-err : (i : ℕ) (e : Error) (db db' : q.Db) → delete q i db ≡ (err e, db') → db' ≡ db
    unfolding delete
    delete-err i e db db' h = elim (delete-Outcome serves i db) [
      | inl (_, x) ↦ sym (ap (λ p. p.1) (rw x at h))
      | inr (inl (x, absent)) ↦ sym (ap (λ p. p.1) (rw x at h))
      | inr (inr (row, db'', seen, x, after)) ↦ cc (ap (λ p. p.0) (rw x at h))
    ]

    pub create-ok :
        (w : Widget) (db db' : q.Db)
        → create q w db ≡ (ok tt, db')
        → (find_widget serves db w.id ≡ none)
          × ((i : ℕ)
              → find_widget serves db' i
                ≡ (if w.id == i then some (kept w) else find_widget serves db i))
          × (outbox db' ≡ outbox db)
    unfolding create
    create-ok w db db' h =
        let raw =
          create_done-ok (q.named_exec widgets.insert_sql (row_args (to_db_widget w)) db) db' h in
        let (fresh, found) = insert-inv (to_db_widget w) db db' raw in
        (
          ap (Option.map to_core_widget)
              (find_of_fresh widgets (to_db_widget w) (serves.listing db) fresh),
          λ i. ap (Option.map to_core_widget) (found i) ∙ map-if to_core_widget (w.id == i) _ _,
          queued.insert_outbox _ db db' raw,
        )

    pub query_by_id-ok :
        (i : ℕ) (w : Widget) (db : q.Db)
        → query_by_id q i db ≡ ok w
        → find_widget serves db i ≡ some w
    unfolding query_by_id
    query_by_id-ok i w db h = elim (query_by_id-Outcome serves i db) [
      | inl (e, x, _, _) ↦ cc (rw x at h)
      | inr (inl (e, x, _, _)) ↦ cc (rw x at h)
      | inr (inr (row, x, found)) ↦ ap (Option.map to_core_widget) found ∙ cc (rw x at h)
    ]

    pub query_by_id-missing :
        (i : ℕ) (e : Error) (db : q.Db)
        → query_by_id q i db ≡ err e
        → is e err_not_found ≡ true
        → find_widget serves db i ≡ none
    unfolding query_by_id
    query_by_id-missing i e db h missing = elim (query_by_id-Outcome serves i db) [
      | inl (y, x, other, lacks) ↦
          let same = err-injective {A = Widget} _ e (rw (x, other) at h) in
          cc (lacks, missing, ap (λ v. is v err_not_found) same)
      | inr (inl (y, x, m, absent)) ↦ ap (Option.map to_core_widget) absent
      | inr (inr (row, x, found)) ↦ cc (rw x at h)
    ]

    pub find_widget-id :
        (i : ℕ) (w : Widget) (db : q.Db) → find_widget serves db i ≡ some w → w.id ≡ i
    find_widget-id i w db h = elim (Option-cases (find widgets i (serves.listing db))) [
      | inl absent ↦ cc (rw absent at h)
      | inr (row, found) ↦
          ap (λ (v : Widget). v.id)
            (some-injective w (to_core_widget row) (sym h ∙ ap (Option.map to_core_widget) found))
          ∙ find-id widgets i (serves.listing db) row found
    ]

    -- The map and the queue of the store, with the proofs of what Core relies on.
    unfoldable pub store_contract :
        (f : Formats) (tokens : Tokens) → IsStore (store q f tokens (some tasks))
    store_contract f tokens = record {
      find = find_widget serves;
      outbox = outbox;
      find-id = find_widget-id;
      query_by_id_ok = query_by_id-ok;
      query_by_id_missing = query_by_id-missing;
      create_ok = create-ok;
      update_ok = update-ok;
      update_err = update-err;
      delete_ok = delete-ok;
      delete_err = delete-err;
      schedule_ok = λ c db db' h.
          let (sent, same) = queued.schedule_ok c db db' h in
          (sent, λ i. ap (Option.map to_core_widget) (same i));
      within_ok = queued.within_ok;
      within_err = queued.within_err;
    }

    -- The store of widgetdb, built with tasks that put every event into the queue of the
    -- transaction, is the store that Core relies on: an insert, an update, a delete and a read act
    -- on one map of widgets, which keeps times to the microsecond, its events go to the queue, and
    -- what fails leaves the database as it was. The map is the rows of the table, and the queue is
    -- that of the scheduler. With the broker switched off the scheduler drops the events, which
    -- this does not cover.
    pub store-IsStore :
        (f : Formats) (tokens : Tokens)
        → (spec : IsStore (store q f tokens (some tasks))) × ((db : q.Db) (i : ℕ)
            → spec.find db i ≡ find_widget serves db i)
          × ((db : q.Db) → spec.outbox db ≡ outbox db)
    unfolding store_contract
    store-IsStore f tokens = (store_contract f tokens, λ db i. refl, λ db. refl)
