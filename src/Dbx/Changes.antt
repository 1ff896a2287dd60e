-- ===== src/Dbx/Changes.antt =====
-- What a statement does to the rows of a table.
use skit_x.Common.{ℕ, ◌≡◌, Option, List, ◌==◌, if◌then◌else◌}
use skit_x.Dbx.Table.{Table, find}

module _ {Row : Type 0} (t : Table Row) where
  -- The row of `i` becomes `new`, or goes where `new` is none; every other id answers as before.
  abbrev pub Puts : ℕ → Option Row → List Row → List Row → Type 0
  Puts i new rs rs' = (j : ℕ) → find t j rs' ≡ (if i == j then new else find t j rs)
