-- ===== src/Keyset/Page.antt =====
-- The end of QueryByCursor: one row more than the limit is fetched, and cut off again
-- (core/widget/widgetdb/widgetdb.go and the same lines of the user and product stores).
use skit_x.Common.{
  ℕ, zero, suc, ◌≤◌, ◌<◌, String, ◌≡◌, refl, none, some, List, [], ◌∷◌, arith, length, take,
  get_last?, take-eq_of_le, take-take-suc, length-take, Result, ok, err, ltb, lt→ltb, if◌then◌else◌,
}

module _ {ℓ κ} {Row : Type ℓ} {E : Type κ} (panicked : E) (limit : ℕ) (encode : Row → String) where
  -- `last := rows[len(rows)-1]` panics on an empty slice.
  next_of : List Row → Result E (List Row × String)
  next_of rows = elim (get_last? rows) [ none ↦ err panicked | some r ↦ ok (rows, encode r) ]

  unfoldable pub trim : List Row → Result E (List Row × String)
  unfolding next_of
  trim rows = if ltb limit (length rows) then next_of (take limit rows) else ok (rows, "")

  -- Rows that fit the limit are the last page.
  pub trim_last : (rs : List Row) → length rs ≤ limit → trim (take (suc limit) rs) ≡ ok (rs, "")
  unfolding trim
  trim_last rs h = rw (take-eq_of_le (suc limit) rs (omega arith)) (ground arith)

  -- More rows than the limit are cut at it, and the token is of the last row that is kept.
  pub trim_more :
      (rs : List Row) (r : Row)
      → limit < length rs
      → get_last? (take limit rs) ≡ some r
      → trim (take (suc limit) rs) ≡ ok (take limit rs, encode r)
  unfolding trim
  trim_more rs r h e =
      rw (lt→ltb limit (length (take (suc limit) rs)) (omega (arith, length-take (suc limit) rs)))
        (rw (take-take-suc limit rs) (rw (e, next_of)))

module _ {ℓ} {A : Type ℓ} where
  pub get_last?-some : (x : A) (xs : List A) → (r : A) × (get_last? (x ∷ xs) ≡ some r)
  get_last?-some x [] = (x, refl)
  get_last?-some x (y ∷ ys) = get_last?-some y ys

  -- A positive limit under the length leaves a last row.
  pub get_last?-take :
      (n : ℕ) (xs : List A) → 0 < n → n ≤ length xs → (r : A) × (get_last? (take n xs) ≡ some r)
  get_last?-take zero xs h k = absurd (omega arith)
  get_last?-take (suc n) [] h k = absurd (omega arith)
  get_last?-take (suc n) (x ∷ xs) h k = get_last?-some x (take n xs)
