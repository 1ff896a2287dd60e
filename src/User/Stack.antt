-- ===== src/User/Stack.antt =====
-- The operations of core/user over the store of userdb, on a database that answers: the reply and
-- the rows that are left, on every branch.
use mathlib.Core.Option.{get_or}
use mathlib.Core.Path.{subst}
use skit_x.Common.{
  ℕ, ◌≡◌, refl, sym, ap, ◌∙◌, Bool, true, false, Option, none, some, Result, ok, err, inl, inr,
  Option-cases,
}
use skit_x.Dbx.{Tokens, Querier}
use skit_x.Dbx.Find.{find-id}
use skit_x.Dbx.Table.{Serves, find, is_fresh, is_taken}
use skit_x.Dbx.Changes.{Puts}
use skit_x.Errs.{AppError}
use skit_x.Listing.{Formats}
use skit_x.User.{User, NewUser, UpdateUser, Store}
use skit_x.User.Core
use skit_x.User.Core.{Ctx, new_user, patch, not_found_error, already_exists_error}
use skit_x.User.Db
use skit_x.User.Db.{DbUser, users, to_db_user, to_core_user, store, sentinel_not_found}

module _ {q : Querier DbUser} (serves : Serves users q) (f : Formats) (tokens : Tokens) where
  abbrev pub user_store : Store
  user_store = store q f tokens

  abbrev pub row_of : ℕ → q.Db → Option DbUser
  row_of i db = find users i (serves.listing db)

  -- the reply `ok a`, and the rows in which `new` stands under the id
  abbrev pub Leaves :
      {A : Type 0} → A → ℕ → Option DbUser → q.Db → Result AppError A × q.Db → Type 0
  Leaves a i new db out =
      (db' : q.Db) × (out ≡ (ok a, db')) × Puts users i new (serves.listing db) (serves.listing db')

  -- the user of a Create, and the row with the fields that an Update gave and a new updated_at
  abbrev pub made : Ctx → NewUser → User
  made ctx nu = record {
    id = ctx.new_id;
    email = nu.email;
    name = nu.name;
    created_at = ctx.now;
    updated_at = ctx.now;
  }

  abbrev pub patched : Ctx → UpdateUser → DbUser → User
  patched ctx uu row = record {
    id = row.id;
    email = get_or uu.email row.email;
    name = get_or uu.name row.name;
    created_at = row.created_at;
    updated_at = ctx.now;
  }

  -- the row that an Update leaves: the created_at is that of the old row
  abbrev pub updated_row : User → DbUser
  updated_row u = record (users.stored (to_db_user u)) { created_at = u.created_at }

  -- What Create does: the user is stored if its id and email are free, otherwise AlreadyExists.
  abbrev pub Created : Ctx → NewUser → q.Db → Bool → Result AppError User × q.Db → Type 0
  Created ctx nu db true out =
      Leaves (made ctx nu) ctx.new_id (some (users.stored (to_db_user (made ctx nu)))) db out
  Created ctx nu db false out = out ≡ (err (already_exists_error nu.email), db)

  create_by_fresh :
      (ctx : Ctx) (nu : NewUser) (db : q.Db) (b : Bool)
      → is_fresh users (to_db_user (made ctx nu)) (serves.listing db) ≡ b
      → serves.up db ≡ true
      → Created ctx nu db b (Core.create user_store ctx nu db)
  unfolding Core.create Db.create
  create_by_fresh ctx nu db true fresh up =
      let (db', x, _, seen) = serves.insert_fresh (to_db_user (new_user ctx nu)) db up fresh in
      (db', rw x, seen)
  create_by_fresh ctx nu db false taken up =
      let (e, x, dup) = serves.insert_taken (to_db_user (new_user ctx nu)) db up taken in
      rw x (rw dup)

  -- On a database that answers, Create of a user whose id and email are free returns and stores it
  -- and changes no other row; otherwise it answers AlreadyExists with the email and changes
  -- nothing.
  pub user_create_outcome :
      (ctx : Ctx) (nu : NewUser) (db : q.Db)
      → serves.up db ≡ true
      → Created ctx nu db
          (is_fresh users (to_db_user (made ctx nu)) (serves.listing db))
          (Core.create user_store ctx nu db)
  user_create_outcome ctx nu db up = create_by_fresh ctx nu db _ refl up

  -- What Update does with the row of the id, if there is one, and whether another user has the
  -- email.
  abbrev pub Updated :
      Ctx → ℕ → UpdateUser → q.Db → Option DbUser → Result AppError User × q.Db → Type 0
  Updated ctx i uu db none out = out ≡ (err (not_found_error i), db)
  Updated ctx i uu db (some row) out =
      let u = patched ctx uu row in
      (is_taken users (to_db_user u) (serves.listing db) ≡ false
        → Leaves u i (some (updated_row u)) db out)
      × (is_taken users (to_db_user u) (serves.listing db) ≡ true
          → out ≡ (err (already_exists_error u.email), db))

  update_by_row :
      (ctx : Ctx) (i : ℕ) (uu : UpdateUser) (db : q.Db) (row : DbUser)
      → row_of i db ≡ some row
      → serves.up db ≡ true
      → Updated ctx i uu db (some row) (Core.update user_store ctx i uu db)
  unfolding Core.update Db.update Db.query_by_id
  update_by_row ctx i uu db row found up =
      let own = find-id users i (serves.listing db) row found in
      let u = patch ctx uu (to_core_user row) in
      let there = ap (λ j. find users j (serves.listing db)) own ∙ found in
      let read = serves.select_found i row db up found in
      (
        λ free.
            let (db', x, _, seen) = serves.update_row (to_db_user u) row db up there free in
            (
              db',
              rw read (rw x),
              subst
                  (λ k.
                    Puts users k (some (updated_row u)) (serves.listing db) (serves.listing db'))
                  own seen,
            ),
        λ taken.
            let (e, x, dup, lacks) = serves.update_taken (to_db_user u) row db up there taken in
            rw read (rw x (rw dup (rw lacks))),
      )

  -- On a database that answers, Update answers NotFound for an id that the table lacks and
  -- AlreadyExists where the new email belongs to another user, and changes nothing then; otherwise
  -- it stores and returns the patched user and changes no other row.
  pub user_update_outcome :
      (ctx : Ctx) (i : ℕ) (uu : UpdateUser) (db : q.Db)
      → serves.up db ≡ true
      → Updated ctx i uu db (row_of i db) (Core.update user_store ctx i uu db)
  unfolding Core.update Db.query_by_id
  user_update_outcome ctx i uu db up = elim (Option-cases (row_of i db)) [
    | inl absent ↦
        let (e, x, m) = serves.select_absent i db up absent in rw (absent, Updated) (rw x (rw m))
    | inr (row, found) ↦
        subst (λ r. Updated ctx i uu db r (Core.update user_store ctx i uu db)) (sym found)
          (update_by_row ctx i uu db row found up)
  ]

  -- What Delete does with the row of the id, if there is one.
  abbrev pub Deleted : ℕ → q.Db → Option DbUser → Result AppError (Unit {0}) × q.Db → Type 0
  Deleted i db none out = out ≡ (err (not_found_error i), db)
  Deleted i db (some row) out = Leaves tt i none db out

  delete_by_row :
      (i : ℕ) (db : q.Db) (o : Option DbUser)
      → row_of i db ≡ o
      → serves.up db ≡ true
      → Deleted i db o (Core.delete user_store i db)
  unfolding Core.delete Db.delete
  delete_by_row i db none absent up = rw (serves.delete_absent i db up absent)
  delete_by_row i db (some row) found up =
      let (db', x, _, seen) = serves.delete_row i row db up found in (db', rw x, seen)

  -- On a database that answers, Delete removes the row of the id and no other, or answers NotFound
  -- for an id that the table lacks and changes nothing.
  pub user_delete_outcome :
      (i : ℕ) (db : q.Db)
      → serves.up db ≡ true
      → Deleted i db (row_of i db) (Core.delete user_store i db)
  user_delete_outcome i db up = delete_by_row i db _ refl up

  -- On a database that answers: Create of a user whose id and email are free returns and stores it,
  -- under the id and the time of the call, and changes no other row, and otherwise answers AlreadyExists with the email and changes
  -- nothing. Update of an id that is there answers AlreadyExists where the new email belongs to
  -- another user, and changes nothing then, and otherwise stores and returns the user with the
  -- fields that were given and a new updated_at;
  -- Delete removes the row; neither changes another row, and both answer NotFound for an id that
  -- the table lacks and change nothing then. What is stored has its times to the microsecond.
  pub user_writes_outcome :
      (ctx : Ctx) (nu : NewUser) (i : ℕ) (uu : UpdateUser) (db : q.Db)
      → serves.up db ≡ true
      → Created ctx nu db
          (is_fresh users (to_db_user (made ctx nu)) (serves.listing db))
          (Core.create user_store ctx nu db)
        × Updated ctx i uu db (row_of i db) (Core.update user_store ctx i uu db)
        × Deleted i db (row_of i db) (Core.delete user_store i db)
  user_writes_outcome ctx nu i uu db up = (
    user_create_outcome ctx nu db up,
    user_update_outcome ctx i uu db up,
    user_delete_outcome i db up,
  )
