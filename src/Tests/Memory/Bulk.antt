-- ===== src/Tests/Memory/Bulk.antt =====
-- The multi-row INSERT of the table in memory.
use skit_x.Common.{
  ℕ, ◌≡◌, refl, sym, ap, ◌∙◌, none, List, [], ◌∷◌, map, ok, arith, inl, inr, Bool-cases,
  Option-cases, ◌==◌, ==_iff,
}
use skit_x.Dbx.Table.{find}
use skit_x.Import.Replay.{SkipsConflicts, or_else, batch_values, insert_ignoring, kept_row}
use skit_x.Tests.Memory.Laws.{serves}
use skit_x.Tests.Memory.Rows.{Db, Sample, add_missing}
use skit_x.Tests.Memory.Samples.{widget_sample, widgets_from}
use skit_x.Widget.{Widget}
use skit_x.Widget.Db.{DbWidget, widgets, to_db_widget}

module _ {Row : Type 0} (s : Sample Row) where
  find-add_missing :
      (ns rs : List Row) (i : ℕ)
      → find s.table i (add_missing s ns rs)
        ≡ or_else (find s.table i rs) (find s.table i (map s.table.stored ns))
  unfolding find add_missing
  find-add_missing [] rs i = elim (Option-cases (find s.table i rs)) [
    | inl e ↦ rw e
    | inr (x, e) ↦ rw e
  ]
  find-add_missing (n ∷ ns) rs i = elim (Option-cases (find s.table (s.table.id n) rs)) [
    | inl e ↦
        rw (e, add_missing)
          (find-add_missing ns (s.table.stored n ∷ rs) i ∙ elim (Bool-cases (s.table.id n == i)) [
            | inl same ↦
                let absent =
                  ap (λ j. find s.table j rs) (sym ((==_iff (s.table.id n) i).0 same)) ∙ e in
                rw (s.stored_id n, find) (rw (same) (rw (absent) refl))
            | inr other ↦ rw (s.stored_id n, find) (rw (other) refl)
          ])
    | inr (x, e) ↦
        rw (e, add_missing)
          (find-add_missing ns rs i ∙ elim (Bool-cases (s.table.id n == i)) [
            | inl same ↦
                let there =
                  ap (λ j. find s.table j rs) (sym ((==_iff (s.table.id n) i).0 same)) ∙ e in
                rw there
            | inr other ↦ rw (s.stored_id n, find) (rw (other) refl)
          ])
  ]

  add_missing_present :
      (ns rs : List Row)
      → ((i : ℕ) → find s.table i rs ≡ none → find s.table i ns ≡ none)
      → add_missing s ns rs ≡ rs
  unfolding find add_missing
  add_missing_present [] rs h = refl
  add_missing_present (n ∷ ns) rs h = elim (Option-cases (find s.table (s.table.id n) rs)) [
    | inl e ↦ let own = h (s.table.id n) e in ground (arith, own)
    | inr (x, e) ↦
        rw (e, add_missing)
          (add_missing_present ns rs
            (λ i absent. let none_of = h i absent in ground (arith, none_of)))
  ]

widgets_from-batch_values :
    (ws : List Widget) → widgets_from (batch_values ws) ≡ map to_db_widget ws
unfolding widgets_from batch_values
widgets_from-batch_values [] = refl
widgets_from-batch_values (w ∷ ws) = ap (λ rs. to_db_widget w ∷ rs) (widgets_from-batch_values ws)

batch_run :
    (ws : List Widget) (db : Db DbWidget)
    → insert_ignoring (serves widget_sample) ws db
      ≡ (ok tt, record db { rows = add_missing widget_sample (map to_db_widget ws) db.rows })
batch_run ws db =
    ap (λ rs. (ok tt, record db { rows = add_missing widget_sample rs db.rows }))
      (widgets_from-batch_values ws)

map-stored : (ws : List Widget) → map widgets.stored (map to_db_widget ws) ≡ map kept_row ws
map-stored [] = refl
map-stored (w ∷ ws) = ap (λ rs. kept_row w ∷ rs) (map-stored ws)

-- A row of a batch has the ids of the batch.
find-stored_none :
    (ws : List Widget) (i : ℕ)
    → find widgets i (map kept_row ws) ≡ none
    → find widgets i (map to_db_widget ws) ≡ none
unfolding find
find-stored_none [] i h = refl
find-stored_none (w ∷ ws) i h = elim (Bool-cases (w.id == i)) [
  | inl e ↦ cc (rw e at h)
  | inr n ↦ rw n (find-stored_none ws i (rw n at h))
]

-- The table in memory skips the conflicts.
pub skips : SkipsConflicts (serves widget_sample)
unfolding serves
skips = record {
  adds_missing = λ w ws db db' h i.
      ap (λ p. find widgets i p.1.rows) (sym h ∙ batch_run (w ∷ ws) db)
      ∙ find-add_missing widget_sample (map to_db_widget (w ∷ ws)) db.rows i
      ∙ ap (λ rs. or_else (find widgets i db.rows) (find widgets i rs)) (map-stored (w ∷ ws));
  skips_present = λ w ws db up h.
      batch_run (w ∷ ws) db
      ∙ rw (
          add_missing_present widget_sample (map to_db_widget (w ∷ ws)) db.rows
            (λ i absent. find-stored_none (w ∷ ws) i (h i absent)));
}
