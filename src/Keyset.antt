-- ===== src/Keyset.antt =====
-- Keyset order of the listings: the predicate `(created_at, id) < (:after_ts, …)` and the order
-- `ORDER BY created_at DESC, id DESC` of QueryByCursor (core/widget/widgetdb/widgetdb.go and its
-- twins of the user and product stores).
pub mod Order
pub mod Page
pub mod Walk
pub mod Views
pub mod Moving
use skit_x.Common.{ℕ, ◌≡◌, Bool, ◌&&◌, ◌||◌, List, [], ◌∷◌, true, ltb, ◌==◌, All}

-- The sort key of a row: its created_at and its id.
abbrev pub Key : Type 0
Key = ℕ × ℕ

-- `a` is older than `b`: it comes after `b` in a newest-first listing.
unfoldable pub is_past : Key → Key → Bool
is_past (at, id) (at', id') = ltb at at' || (at == at' && ltb id id')

module _ {Row : Type 0} (key : Row → Key) where
  -- The rows stand newest first, each key once.
  abbrev pub IsNewestFirst : List Row → Type 0
  IsNewestFirst [] = Unit
  IsNewestFirst (x ∷ xs) = All (λ y. is_past (key y) (key x) ≡ true) xs × IsNewestFirst xs
