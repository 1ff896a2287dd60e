-- ===== src/Tests/Memory/Laws.antt =====
-- The table in memory does what Dbx/Table.antt assumes of Postgres.
use mathlib.Core.Option.{some-injective}
use skit_x.Common.{
  ℕ, ◌≡◌, refl, sym, ap, Bool, true, false, Option, none, some, List, [], ◌∷◌, Result, ok, err,
  arith, inl, inr, Bool-cases, Option-cases, ◌==◌, str_eq, str_eq_iff, if◌then◌else◌,
}
use skit_x.Dbx.{Error}
use skit_x.Dbx.Table.{Serves, find, is_fresh, is_taken}
use skit_x.Tests.Memory.Rows.{
  Sample, Db, memory, committed, duplicated, no_row, selected, replace, erase, update_row,
  insert_row, delete_row,
}

module _ {Row : Type 0} (s : Sample Row) where
  pub find-replace :
      (r old : Row) (rs : List Row)
      → find s.table (s.table.id r) rs ≡ some old
      → (i : ℕ)
      → find s.table i (replace s r rs) ≡ (
          if s.table.id r == i
          then some (s.table.assign (s.table.stored r) old)
          else find s.table i rs)
  unfolding find replace
  find-replace r old [] h i = cc
  find-replace r old (x ∷ xs) h i = elim (Bool-cases (s.table.id x == s.table.id r)) [
    | inl e ↦
        let same = some-injective x old (rw (e, find) at h) in
        let own = s.assign_id (s.table.stored r) x in
        rw (e, find) (rw (sym same) (ground (arith, own, e)))
    | inr n ↦
        let rest = find-replace r old xs (rw (n, find) at h) i in
        rw (n, find) (rw (rest, find) (ground (arith, n)))
  ]

  pub find-erase :
      (i : ℕ) (rs : List Row) (j : ℕ)
      → find s.table j (erase s i rs) ≡ (if i == j then none else find s.table j rs)
  unfolding find erase
  find-erase i [] j = ground arith
  find-erase i (x ∷ xs) j = ground (arith, find-erase i xs j)

  pub update_sql : str_eq s.table.update_sql s.table.update_sql ≡ true
  update_sql = (str_eq_iff _ _).1 refl

  -- The laws of Serves.
  unfoldable pub serves : Serves s.table (memory s)
  unfolding selected find
  serves = record {
    listing = λ db. db.rows;
    up = λ db. true;
    holds = s.holds;
    insert_fresh = λ r db up fresh. (
      record db { rows = s.table.stored r ∷ db.rows },
      rw (s.reads r) (rw fresh),
      refl,
      λ i. rw (s.stored_id r) refl,
    );
    insert_taken = λ r db up taken. (duplicated, rw (s.reads r) (rw taken), refl);
    update_row = λ r old db up found free. (
      record db { rows = replace s r db.rows },
      rw update_sql (rw (s.reads r) (rw found (rw free))),
      refl,
      find-replace r old db.rows found,
    );
    update_taken = λ r old db up found taken.
        (duplicated, rw update_sql (rw (s.reads r) (rw found (rw taken))), refl, refl);
    update_absent = λ r db up absent. rw update_sql (rw (s.reads r) (rw absent));
    delete_row = λ i old db up found. (
      record db { rows = erase s i db.rows },
      rw s.differ (rw found),
      refl,
      find-erase i db.rows,
    );
    delete_absent = λ i db up absent. rw s.differ (rw absent);
    select_found = λ i r db up found. rw found;
    select_absent = λ i db up absent. (no_row, rw absent, refl);
    count_rows = λ conds p db up. refl;
    list_newest = λ conds p n db up limit. rw limit;
    exec_down = λ sql p db down. cc;
    exec_rows_down = λ sql p db down. cc;
    query_one_down = λ sql p db down. cc;
  }

  pub insert_outbox :
      (o : Option Row) (db db' : Db Row) → insert_row s o db ≡ (ok tt, db') → db'.outbox ≡ db.outbox
  insert_outbox none db db' h = cc (ap (λ p. p.0) h)
  insert_outbox (some r) db db' h = elim (Bool-cases (is_fresh s.table r db.rows)) [
    | inl e ↦ ap (λ p. p.1.outbox) (sym (rw e at h))
    | inr e ↦ cc (ap (λ p. p.0) (rw e at h))
  ]

  change_outbox :
      (b : Bool) (e : Error) (n : ℕ) (rows : List Row) (db db' : Db Row)
      → ◌≡◌ {A = Result Error ℕ × Db Row}
          (if b then (err e, db) else (ok 1, record db { rows = rows }))
          (ok n, db')
      → db'.outbox ≡ db.outbox
  change_outbox true e n rows db db' h = cc (ap (λ p. p.0) h)
  change_outbox false e n rows db db' h = ap (λ p. p.1.outbox) (sym h)

  update_outbox :
      (o : Option Row) (n : ℕ) (db db' : Db Row)
      → update_row s o db ≡ (ok n, db')
      → db'.outbox ≡ db.outbox
  update_outbox none n db db' h = cc (ap (λ p. p.0) h)
  update_outbox (some r) n db db' h = elim (Option-cases (find s.table (s.table.id r) db.rows)) [
    | inl e ↦ ap (λ p. p.1.outbox) (sym (rw e at h))
    | inr (old, e) ↦ change_outbox (is_taken s.table r db.rows) duplicated n _ db db' (rw e at h)
  ]

  delete_outbox :
      (i n : ℕ) (db db' : Db Row) → delete_row s i db ≡ (ok n, db') → db'.outbox ≡ db.outbox
  delete_outbox i n db db' h = elim (Option-cases (find s.table i db.rows)) [
    | inl e ↦ ap (λ p. p.1.outbox) (sym (rw e at h))
    | inr (old, e) ↦ ap (λ p. p.1.outbox) (sym (rw e at h))
  ]

  pub rows_outbox :
      (b : Bool) (o : Option Row) (i n : ℕ) (db db' : Db Row)
      → (if b then update_row s o db else delete_row s i db) ≡ (ok n, db')
      → db'.outbox ≡ db.outbox
  rows_outbox true o i n db db' h = update_outbox o n db db' h
  rows_outbox false o i n db db' h = delete_outbox i n db db' h

  pub committed_ok :
      (old db' : Db Row) (r : Result Error (Unit {0}) × Db Row)
      → committed s old r ≡ (ok tt, db')
      → r ≡ (ok tt, db')
  committed_ok old db' (ok tt, db) h = h
  committed_ok old db' (err e, db) h = cc (ap (λ p. p.0) h)

  pub committed_err :
      (old db' : Db Row) (e : Error) (r : Result Error (Unit {0}) × Db Row)
      → committed s old r ≡ (err e, db')
      → db' ≡ old
  committed_err old db' e (ok tt, db) h = cc (ap (λ p. p.0) h)
  committed_err old db' e (err _, db) h = ap (λ p. p.1) (sym h)
