-- ===== src/Dbx/Find.antt =====
-- Laws of looking a row up by its id.
use skit_x.Common.{
  none, Option-cases, inl, inr, ℕ, ◌≡◌, refl, Option, some, List, [], ◌∷◌, arith, if◌then◌else◌,
  true, false, Bool,
}
use mathlib.Core.Option
use skit_x.Dbx.Table.{Table, find, is_fresh}

pub find-id :
    {Row : Type 0} (t : Table Row) (i : ℕ) (rs : List Row) (r : Row)
    → find t i rs ≡ some r
    → t.id r ≡ i
unfolding find
find-id t i [] r h = ground arith
find-id t i (x ∷ rs) r h = ground (arith, find-id t i rs r)

pub map-if :
    {A B : Type 0} (f : A → B) (b : Bool) (o p : Option A)
    → Option.map f (if b then o else p) ≡ (if b then Option.map f o else Option.map f p)
map-if f true o p = refl
map-if f false o p = refl

pub find_of_fresh :
    {Row : Type 0} (t : Table Row) (r : Row) (rs : List Row)
    → is_fresh t r rs ≡ true
    → find t (t.id r) rs ≡ none
find_of_fresh t r rs h = elim (Option-cases (find t (t.id r) rs)) [
  | inl e ↦ e
  | inr (x, e) ↦ cc (rw (e, is_fresh) at h)
]
