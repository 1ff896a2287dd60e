-- ===== src/Widget/Db/Outcomes.antt =====
-- Every outcome of the UPDATE and the DELETE of the widget store.
use skit_x.Common.{
  ℕ, ◌≡◌, ◌⊎◌, true, false, Option, none, some, [], ◌∷◌, Result, ok, err, inl, inr, Bool-cases,
  Option-cases, ◌==◌, if◌then◌else◌,
}
use skit_x.Dbx.{Error, is, db_not_found, err_not_found, uuid, Querier}
use skit_x.Dbx.Table.{Serves, find, is_taken}
use skit_x.Widget.Db.{DbWidget, widgets, row_args}

-- `call` is what dbx answers to a statement on the row of `i`: it fails and changes nothing, it
-- finds no row and changes nothing, or it changes the one row to `new`.
module _ {q : Querier DbWidget} (serves : Serves widgets q) where
  abbrev pub Outcome : Result Error ℕ × q.Db → ℕ → (DbWidget → Option DbWidget) → q.Db → Type 0
  Outcome call i new db =
      ((e : Error) × (call ≡ (err e, db)))
      ⊎ (((call ≡ (ok 0, db)) × (find widgets i (serves.listing db) ≡ none))
          ⊎ ((old : DbWidget) × (db' : q.Db) × (find widgets i (serves.listing db) ≡ some old)
              × (call ≡ (ok 1, db'))
              × ((j : ℕ)
                  → find widgets j (serves.listing db')
                    ≡ (if i == j then new old else find widgets j (serves.listing db)))))

  pub update-Outcome :
      (r : DbWidget) (db : q.Db)
      → Outcome
          (q.named_exec_rows_affected widgets.update_sql (row_args r) db)
          r.id
          (λ old. some (widgets.assign (widgets.stored r) old))
          db
  update-Outcome r db = elim (Bool-cases (serves.up db)) [
    | inr down ↦
        let (e, x, _) = serves.exec_rows_down widgets.update_sql (row_args r) db down in inl (e, x)
    | inl up ↦ elim (Option-cases (find widgets r.id (serves.listing db))) [
      | inl absent ↦ inr (inl (serves.update_absent r db up absent, absent))
      | inr (old, found) ↦ elim (Bool-cases (is_taken widgets r (serves.listing db))) [
        | inl taken ↦ let (e, x, _, _) = serves.update_taken r old db up found taken in inl (e, x)
        | inr free ↦
            let (db', x, _, seen) = serves.update_row r old db up found free in
            inr (inr (old, db', found, x, seen))
      ]
    ]
  ]

  pub delete-Outcome :
      (i : ℕ) (db : q.Db)
      → Outcome
          (q.named_exec_rows_affected widgets.delete_sql (("id", uuid i) ∷ []) db)
          i
          (λ old. none)
          db
  delete-Outcome i db = elim (Bool-cases (serves.up db)) [
    | inr down ↦
        let (e, x, _) = serves.exec_rows_down widgets.delete_sql (("id", uuid i) ∷ []) db down in
        inl (e, x)
    | inl up ↦ elim (Option-cases (find widgets i (serves.listing db))) [
      | inl absent ↦ inr (inl (serves.delete_absent i db up absent, absent))
      | inr (old, found) ↦
          let (db', x, _, seen) = serves.delete_row i old db up found in
          inr (inr (old, db', found, x, seen))
    ]
  ]

  -- The row of an id: an error, no row, or the row.
  pub query_by_id-Outcome :
      (i : ℕ) (db : q.Db)
      → let call = q.named_query_one widgets.select_one_sql (("id", uuid i) ∷ []) db in
        ((e : Error) × (call ≡ err e) × (is e db_not_found ≡ false) × (is e err_not_found ≡ false))
        ⊎ (((e : Error) × (call ≡ err e)
              × (is e db_not_found ≡ true)
              × (find widgets i (serves.listing db) ≡ none))
            ⊎ ((row : DbWidget) × (call ≡ ok row)
                × (find widgets i (serves.listing db) ≡ some row)))
  query_by_id-Outcome i db = elim (Bool-cases (serves.up db)) [
    | inr down ↦ inl (serves.query_one_down widgets.select_one_sql (("id", uuid i) ∷ []) db down)
    | inl up ↦ elim (Option-cases (find widgets i (serves.listing db))) [
      | inl absent ↦
          let (e, x, m) = serves.select_absent i db up absent in inr (inl (e, x, m, absent))
      | inr (row, found) ↦ inr (inr (row, serves.select_found i row db up found, found))
    ]
  ]
