-- ===== src/Product/Stack.antt =====
-- The operations of core/product over the store of productdb, on a database that answers: the reply
-- and the rows that are left, on every branch.
use mathlib.Core.Option.{get_or}
use mathlib.Core.Path.{subst}
use skit_x.Common.{
  ℕ, arith, ◌≡◌, refl, ap, ◌∙◌, Bool, true, false, Option, none, some, List, [], ◌∷◌, Result, ok,
  err,
}
use skit_x.Dbx.{Error, wrap, Tokens, Querier}
use skit_x.Dbx.Find.{find-id}
use skit_x.Dbx.Table.{Serves, find, is_fresh, is_taken}
use skit_x.Dbx.Changes.{Puts}
use skit_x.Errs.{AppError, wrapped, internal}
use skit_x.Listing.{Formats}
use skit_x.Product.{Product, NewProduct, UpdateProduct, Store}
use skit_x.Product.Core
use skit_x.Product.Core.{Ctx, new_product, patch, not_found_error}
use skit_x.Product.Db
use skit_x.Product.Db.{
  DbProduct, products, to_db_product, to_core_product, store, sentinel_not_found,
}

module _ {q : Querier DbProduct} (serves : Serves products q) (f : Formats) (tokens : Tokens) where
  abbrev pub product_store : Store
  product_store = store q f tokens

  abbrev pub row_of : ℕ → q.Db → Option DbProduct
  row_of i db = find products i (serves.listing db)

  -- the reply `ok a`, and the rows in which `new` stands under the id
  abbrev pub Leaves :
      {A : Type 0} → A → ℕ → Option DbProduct → q.Db → Result AppError A × q.Db → Type 0
  Leaves a i new db out =
      (db' : q.Db) × (out ≡ (ok a, db'))
      × Puts products i new (serves.listing db) (serves.listing db')

  -- the product of a Create, and the row with the fields that an Update gave and a new updated_at
  abbrev pub made : Ctx → NewProduct → Product
  made ctx np = record {
    id = ctx.new_id;
    name = np.name;
    price = np.price;
    created_at = ctx.now;
    updated_at = ctx.now;
  }

  abbrev pub patched : Ctx → UpdateProduct → DbProduct → Product
  patched ctx given row = record {
    id = row.id;
    name = get_or given.name row.name;
    price = get_or given.price row.price;
    created_at = row.created_at;
    updated_at = ctx.now;
  }

  -- the row that an Update leaves: the created_at is that of the old row
  abbrev pub updated_row : Product → DbProduct
  updated_row p = record (products.stored (to_db_product p)) { created_at = p.created_at }

  -- What Create does: the product is stored if its id is free, otherwise the answer is Internal.
  abbrev pub Created : Ctx → NewProduct → q.Db → Bool → Result AppError Product × q.Db → Type 0
  Created ctx np db true out =
      Leaves (made ctx np) ctx.new_id (some (products.stored (to_db_product (made ctx np)))) db out
  Created ctx np db false out = (e : Error) × (out ≡ (err (wrapped internal e), db))

  create_by_fresh :
      (ctx : Ctx) (np : NewProduct) (db : q.Db) (b : Bool)
      → is_fresh products (to_db_product (made ctx np)) (serves.listing db) ≡ b
      → serves.up db ≡ true
      → Created ctx np db b (Core.create product_store ctx np db)
  unfolding Core.create Db.create
  create_by_fresh ctx np db true fresh live =
      let (db', x, _, seen) =
        serves.insert_fresh (to_db_product (new_product ctx np)) db live fresh in
      (db', rw x, seen)
  create_by_fresh ctx np db false taken live =
      let (e, x, _) = serves.insert_taken (to_db_product (new_product ctx np)) db live taken in
      (wrap "create" e, rw x)

  -- On a database that answers, Create of a product whose id is free returns and stores it and
  -- changes no other row; otherwise it answers Internal and changes nothing.
  product_create_outcome :
      (ctx : Ctx) (np : NewProduct) (db : q.Db)
      → serves.up db ≡ true
      → Created ctx np db
          (is_fresh products (to_db_product (made ctx np)) (serves.listing db))
          (Core.create product_store ctx np db)
  product_create_outcome ctx np db live = create_by_fresh ctx np db _ refl live

  -- no unique index but the primary key
  never_taken : (r : DbProduct) (rs : List DbProduct) → is_taken products r rs ≡ false
  unfolding is_taken
  never_taken r [] = refl
  never_taken r (x ∷ xs) = ground (arith, never_taken r xs)

  -- What Update does with the row of the id, if there is one.
  abbrev pub Updated :
      Ctx → ℕ → UpdateProduct → q.Db → Option DbProduct → Result AppError Product × q.Db → Type 0
  Updated ctx i patch' db none out = out ≡ (err (not_found_error i), db)
  Updated ctx i patch' db (some row) out =
      let p = patched ctx patch' row in Leaves p i (some (updated_row p)) db out

  update_by_row :
      (ctx : Ctx) (i : ℕ) (patch' : UpdateProduct) (db : q.Db) (o : Option DbProduct)
      → row_of i db ≡ o
      → serves.up db ≡ true
      → Updated ctx i patch' db o (Core.update product_store ctx i patch' db)
  unfolding Core.update Db.update Db.query_by_id
  update_by_row ctx i patch' db none absent live =
      let (e, x, m) = serves.select_absent i db live absent in rw x (rw m)
  update_by_row ctx i patch' db (some row) found live =
      let own = find-id products i (serves.listing db) row found in
      let p = patch ctx patch' (to_core_product row) in
      let there = ap (λ j. find products j (serves.listing db)) own ∙ found in
      let (db', x, _, seen) =
        serves.update_row (to_db_product p) row db live there (never_taken (to_db_product p) _) in
      (
        db',
        rw (serves.select_found i row db live found) (rw x),
        subst (λ k. Puts products k (some (updated_row p)) (serves.listing db) (serves.listing db'))
            own seen,
      )

  -- On a database that answers, Update answers NotFound for an id that the table lacks and changes
  -- nothing; otherwise it stores and returns the patched product and changes no other row.
  product_update_outcome :
      (ctx : Ctx) (i : ℕ) (patch' : UpdateProduct) (db : q.Db)
      → serves.up db ≡ true
      → Updated ctx i patch' db (row_of i db) (Core.update product_store ctx i patch' db)
  product_update_outcome ctx i patch' db live = update_by_row ctx i patch' db _ refl live

  -- What Delete does with the row of the id, if there is one.
  abbrev pub Deleted : ℕ → q.Db → Option DbProduct → Result AppError (Unit {0}) × q.Db → Type 0
  Deleted i db none out = out ≡ (err (not_found_error i), db)
  Deleted i db (some row) out = Leaves tt i none db out

  delete_by_row :
      (i : ℕ) (db : q.Db) (o : Option DbProduct)
      → row_of i db ≡ o
      → serves.up db ≡ true
      → Deleted i db o (Core.delete product_store i db)
  unfolding Core.delete Db.delete
  delete_by_row i db none absent up = rw (serves.delete_absent i db up absent)
  delete_by_row i db (some row) found up =
      let (db', x, _, seen) = serves.delete_row i row db up found in (db', rw x, seen)

  -- On a database that answers, Delete removes the row of the id and no other, or answers NotFound
  -- for an id that the table lacks and changes nothing.
  product_delete_outcome :
      (i : ℕ) (db : q.Db)
      → serves.up db ≡ true
      → Deleted i db (row_of i db) (Core.delete product_store i db)
  product_delete_outcome i db up = delete_by_row i db _ refl up

  -- On a database that answers: Create of a product whose id is free returns and stores it and
  -- changes no other row, and otherwise answers Internal; Update of an id that is there stores and
  -- returns the patched product, and Delete removes it, neither with any other row changed, and
  -- both answer NotFound for an id that the table lacks and change nothing then. A Create returns the
  -- product under the id and the time of the call, an Update the stored one with the fields that
  -- were given and a new updated_at; what is stored has its times to the microsecond.
  pub product_writes_outcome :
      (ctx : Ctx) (np : NewProduct) (i : ℕ) (patch' : UpdateProduct) (db : q.Db)
      → serves.up db ≡ true
      → Created ctx np db
          (is_fresh products (to_db_product (made ctx np)) (serves.listing db))
          (Core.create product_store ctx np db)
        × Updated ctx i patch' db (row_of i db) (Core.update product_store ctx i patch' db)
        × Deleted i db (row_of i db) (Core.delete product_store i db)
  product_writes_outcome ctx np i patch' db up = (
    product_create_outcome ctx np db up,
    product_update_outcome ctx i patch' db up,
    product_delete_outcome i db up,
  )
