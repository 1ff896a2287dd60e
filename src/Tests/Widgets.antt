-- ===== src/Tests/Widgets.antt =====
-- The widget core over the store in memory, at a table of three widgets.
use skit_x.Common.{
  ℕ, String, ◌<>◌, ◌≡◌, ◌⊎◌, refl, true, none, some, [], ◌∷◌, ok, err, arith, filter, str_eq,
}
use skit_x.Dbx.{By}
use skit_x.Dbx.Table.{is_taken, find}
use skit_x.Keyset.{is_past}
use skit_x.Keyset.Walk.{walk}
use skit_x.Listing.Codec.{decode-encode}
use skit_x.Listing.{decode_cursor, encode_cursor}
use skit_x.Widget.{Widget, NewWidget, UpdateWidget, QueryFilter, Store}
use skit_x.Widget.Settings.{default_settings, writable}
use skit_x.Widget.Core
use skit_x.Widget.Core.{State, patch, new_widget, insert}
use skit_x.Widget.World.{Ctx, Options, not_found_error, already_exists_error}
use skit_x.Widget.Core.Writes.{create_commits, create_fails, IsCommitOf}
use skit_x.Widget.Core.Updates.{update_commits, update_fails, IsPatchOf}
use skit_x.Widget.Core.Deletes.{delete-Leaves, Leaves}
use skit_x.Widget.Spec.{IsStore}
use skit_x.Widget.Db
use skit_x.Widget.Db.{
  DbWidget, widgets, store, to_core_widget, to_db_widget, where_conditions, order_by_clause, count,
}
use skit_x.Widget.Db.Contract.{store_contract, store-IsStore}
use skit_x.Widget.Db.Queue.{find_widget}
use skit_x.Widget.Db.Listings.{order_by_clause-columns, walk_matches_count}
use skit_x.Widget.Stack.{create_outcome}
use skit_x.Widget.Stack.Rows.{update_outcome, UpdateReply}
use skit_x.Tests.Memory.{
  Db, memory, tasks, serves, widget_sample, queued, live, widget_filters, widget_keyset,
}
use skit_x.Tests.Formats.{formats, formats_lawful, tokens, tokens_lawful}

abbrev pub row : ℕ → String → DbWidget
row n name = record { id = n; name = name; description = "d"; created_at = n; updated_at = n }

abbrev pub table : Db DbWidget
table = record { rows = row 3 "c" ∷ row 2 "b" ∷ row 1 "a" ∷ []; outbox = [] }

abbrev pub options : Options
options = record { bus = true; marshal = λ fields. ok [] }

abbrev pub shop : Store
shop = store (memory widget_sample) formats tokens (some (tasks widget_sample))

abbrev pub shop-IsStore : IsStore shop
shop-IsStore = store_contract (serves widget_sample) (tasks widget_sample) queued formats tokens

abbrev pub at_rest : State shop options
at_rest = record { db = table; created_total = 0; published = []; settings = default_settings }

abbrev pub ctx : Ctx
ctx = record { now = 9; new_id = 4; subject = some "ada" }

abbrev pub fourth : NewWidget
fourth = record { name = "d"; description = "new" }

abbrev second_b : NewWidget
second_b = record { name = "b"; description = "again" }

abbrev rename : String → UpdateWidget
rename name = record { name = some name; description = none }

store-IsStore_example :
    (spec : IsStore shop) × ((db : Db DbWidget) (i : ℕ)
      → spec.find db i ≡ find_widget (serves widget_sample) db i)
    × ((db : Db DbWidget) → spec.outbox db ≡ queued.outbox db)
store-IsStore_example =
    store-IsStore (serves widget_sample) (tasks widget_sample) queued formats tokens

-- the world that a create leaves
abbrev after : NewWidget → State shop options
after nw = (Core.create shop options ctx nw at_rest).1

create_runs :
    Core.create shop options ctx fourth at_rest
    ≡ (ok (new_widget shop options ctx fourth), after fourth)
unfolding Core.create insert Db.create find is_taken str_eq Core.publish_audit writable
create_runs = refl

create_commits_example :
    (new_widget shop options ctx fourth ≡ new_widget shop options ctx fourth)
    × IsCommitOf shop options shop-IsStore ctx at_rest
        (new_widget shop options ctx fourth)
        (after fourth)
create_commits_example =
    create_commits shop options shop-IsStore ctx fourth at_rest (after fourth)
      (new_widget shop options ctx fourth) create_runs

taken_name :
    Core.create shop options ctx second_b at_rest ≡ (err (already_exists_error "b"), at_rest)
unfolding Core.create insert Db.create find is_taken str_eq Core.publish_audit writable
taken_name = refl

create_fails_example : at_rest ≡ at_rest
create_fails_example =
    create_fails shop options shop-IsStore ctx second_b at_rest at_rest (already_exists_error "b")
      taken_name

abbrev second : Widget
second = to_core_widget (row 2 "b")

abbrev renamed : Widget
renamed = patch shop options ctx (rename "x") second

abbrev after_rename : State shop options
after_rename = (Core.update shop options ctx 2 (rename "x") at_rest).1

update_runs : Core.update shop options ctx 2 (rename "x") at_rest ≡ (ok renamed, after_rename)
unfolding Core.update Db.query_by_id Db.update find is_taken str_eq Core.publish_audit writable
update_runs = refl

update_commits_example :
    IsPatchOf shop options shop-IsStore ctx 2 (rename "x") at_rest renamed after_rename
update_commits_example =
    update_commits shop options shop-IsStore ctx 2 (rename "x") at_rest after_rename renamed
      update_runs

update_of_missing :
    Core.update shop options ctx 8 (rename "x") at_rest ≡ (err (not_found_error 8), at_rest)
unfolding Core.update Db.query_by_id find str_eq writable
update_of_missing = refl

update_fails_example : at_rest ≡ at_rest
update_fails_example =
    update_fails shop options shop-IsStore ctx 8 (rename "x") at_rest at_rest (not_found_error 8)
      update_of_missing

delete-Leaves_example :
    Leaves shop options shop-IsStore 2 at_rest (Core.delete shop options 2 at_rest)
delete-Leaves_example = delete-Leaves shop options shop-IsStore 2 at_rest

create_outcome_example :
    (Core.create shop options ctx fourth at_rest).0 ≡ ok (new_widget shop options ctx fourth)
unfolding serves find is_taken str_eq
create_outcome_example =
    create_outcome (serves widget_sample) (tasks widget_sample) live formats tokens options ctx
      fourth at_rest refl refl

update_outcome_example :
    UpdateReply
      (serves widget_sample)
      formats
      tokens
      (some (tasks widget_sample))
      options
      ctx
      2
      (rename "c")
      table.rows
      (some (row 2 "b"))
      (Core.update shop options ctx 2 (rename "c") at_rest).0
unfolding serves find str_eq
update_outcome_example =
    update_outcome (serves widget_sample) formats tokens (some (tasks widget_sample)) options ctx 2
      (rename "c") at_rest refl refl

decode-encode_example : decode_cursor formats (encode_cursor formats 3 1) ≡ ok (3, 1 ∷ [])
unfolding formats
decode-encode_example = decode-encode formats formats_lawful 3 1 (omega arith)

abbrev named : String → QueryFilter
named name = record { name = some name; description = none }

abbrev by_name : By
by_name = record { field = "name"; direction = "ASC" }

by_name_clause : order_by_clause by_name ≡ ok (" ORDER BY name ASC, id ASC")
unfolding order_by_clause str_eq
by_name_clause = refl

order_by_clause-columns_example :
    (col : String) × ((col ≡ "created_at") ⊎ (col ≡ "name"))
    × ("name" ≡ col)
    × (" ORDER BY name ASC, id ASC" ≡ " ORDER BY " <> col <> " " <> "ASC" <> ", id " <> "ASC")
order_by_clause-columns_example =
    order_by_clause-columns by_name " ORDER BY name ASC, id ASC" by_name_clause

abbrev everything : QueryFilter
everything = record { name = none; description = none }

-- Pages of two.
walk_matches_count_example :
    (walk 4
        (λ token.
          Db.query_by_cursor
            (memory widget_sample)
            formats
            tokens
            everything
            (record { token = token; limit = 2 })
            table)
        ""
      ≡ some (
          to_core_widget (row 3 "c")
          ∷ to_core_widget (row 2 "b")
          ∷ to_core_widget (row 1 "a")
          ∷ []))
    × (count (memory widget_sample) everything table ≡ ok 3)
unfolding serves widget_filters is_past filter
walk_matches_count_example =
    walk_matches_count (serves widget_sample) formats tokens formats_lawful tokens_lawful
      widget_keyset widget_filters 2 everything table (omega arith) refl
      (
        ((refl, (refl, tt)), ((refl, tt), (tt, tt))),
        (omega arith, (omega arith, (omega arith, tt))),
      )
      4 (omega arith)
