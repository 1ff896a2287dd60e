-- ===== src/Listing/Clauses.antt =====
-- The parts of a query's text that the three stores build alike: the ORDER BY (orderByClause in
-- order.go) and the optional substring filters of whereConditions.
use skit_x.Common.{
  String, ◌<>◌, ◌≡◌, refl, Option, none, some, List, [], ◌∷◌, ◌++◌, Result, ok, err,
}
use skit_x.Dbx.{Error, failure, text, Params}

abbrev unknown_field : Error
unknown_field = record { text = "order: unknown field"; causes = failure 3 ∷ [] }

abbrev pub clause_of : String → Option String → Result Error String
clause_of direction none = err unknown_field
clause_of direction (some col) =
    ok (" ORDER BY " <> col <> " " <> direction <> ", id " <> direction)

pub clause_of-inv :
    (direction : String) (o : Option String) (clause : String)
    → clause_of direction o ≡ ok clause
    → (col : String) × (o ≡ some col)
      × (clause ≡ " ORDER BY " <> col <> " " <> direction <> ", id " <> direction)
clause_of-inv direction none clause h = cc
clause_of-inv direction (some col) clause h = (col, refl, cc)

-- One optional substring filter of whereConditions.
abbrev pub substring : String → String → Option String → List String × Params → List String × Params
substring column condition none part = part
substring column condition (some s) (wc, data') =
    (wc ++ condition ∷ [], (column, text ("%" <> s <> "%")) ∷ data')

-- A filter is given in both or in neither.
abbrev pub SameShape {ℓ} : {A : Type ℓ} → Option A → Option A → Type 0
SameShape none none = Unit
SameShape (some _) (some _) = Unit
SameShape _ _ = ⊥
