-- ===== src/Tests/Products.antt =====
-- The product core over its table in memory.
use skit_x.Common.{pos, refl, false, none, some, [], ◌∷◌, str_eq}
use skit_x.Dbx.Table.{find, is_taken}
use skit_x.Product.{NewProduct, UpdateProduct}
use skit_x.Product.Core
use skit_x.Product.Db.{DbProduct}
use skit_x.Product.Stack
use skit_x.Product.Stack.{product_store, product_writes_outcome}
use skit_x.Tests.Memory.{Db as Table, serves, product_sample}
use skit_x.Tests.Formats.{formats, tokens}

abbrev pub pen : DbProduct
pen = record { id = 2; name = "pen"; price = pos 5; created_at = 2; updated_at = 2 }

abbrev pub ink : DbProduct
ink = record { id = 1; name = "ink"; price = pos 9; created_at = 1; updated_at = 1 }

abbrev pub shelf : Table DbProduct
shelf = record { rows = pen ∷ ink ∷ []; outbox = [] }

abbrev product_ctx : Core.Ctx
product_ctx = record { now = 9; new_id = 1 }

abbrev cap : NewProduct
cap = record { name = "cap"; price = pos 3 }

abbrev cheaper : UpdateProduct
cheaper = record { name = none; price = some (pos 1) }

product_writes_outcome_example :
    Stack.Created
      (serves product_sample)
      formats
      tokens
      product_ctx
      cap
      shelf
      false
      (Core.create (product_store (serves product_sample) formats tokens) product_ctx cap shelf)
    × Stack.Updated (serves product_sample) formats tokens product_ctx 2 cheaper shelf (some pen) (
        Core.update
          (product_store (serves product_sample) formats tokens)
          product_ctx
          2
          cheaper
          shelf)
    × Stack.Deleted
        (serves product_sample)
        formats
        tokens
        2
        shelf
        (some pen)
        (Core.delete (product_store (serves product_sample) formats tokens) 2 shelf)
unfolding serves find is_taken str_eq
product_writes_outcome_example =
    product_writes_outcome (serves product_sample) formats tokens product_ctx cap 2 cheaper shelf
      refl
