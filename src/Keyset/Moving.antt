-- ===== src/Keyset/Moving.antt =====
-- A client that follows the next-page tokens of a listing which grows at its head meanwhile.
use skit_x.Common.{
  ℕ, zero, suc, String, ◌≡◌, ◌⊎◌, refl, ◌∙◌, Option, none, some, List, [], ◌∷◌, ◌++◌, Result, ok,
  err, All, filter, str_eq, str_eq_iff, if◌then◌else◌, true, inl, inr, arith,
}
use skit_x.Keyset.{Key, is_past, IsNewestFirst}
use skit_x.Keyset.Order.{behind, behind-skip, is_past-asymm}
use skit_x.Keyset.Walk.{walk, prepend}

module _ {E A : Type 0} where
  -- As `walk`, but the listing may be another at each page.
  unfoldable pub follow :
      ℕ → ℕ → (ℕ → String → Result E (List A × String)) → String → Option (List A)
  follow zero page fetch token = none
  follow (suc fuel) page fetch token = elim (fetch page token) [
    | err e ↦ none
    | ok (items, next) ↦
        let rest = prepend items (follow fuel (suc page) fetch next) in
        if str_eq next "" then some items else rest
  ]

  -- Tokens of a kind whose pages do not change lead to tokens of that kind.
  module _ (fetch : ℕ → String → Result E (List A × String))
      (same : String → Result E (List A × String)) (Q : String → Type 0)
      (agree : (page : ℕ) (t : String) → Q t → fetch page t ≡ same t)
      (closed : (t next : String) (items : List A)
        → same t ≡ ok (items, next)
        → (t ≡ "") ⊎ Q t
        → (next ≡ "") ⊎ Q next) where
    follow-step :
        (fuel page : ℕ) (t : String)
        → ((next : String) → Q next → follow fuel (suc page) fetch next ≡ walk fuel same next)
        → fetch page t ≡ same t
        → (t ≡ "") ⊎ Q t
        → follow (suc fuel) page fetch t ≡ walk (suc fuel) same t
    unfolding follow walk
    follow-step fuel page t again e q = by_page (same t) refl
      where
        by_page :
            (r : Result E (List A × String))
            → same t ≡ r
            → follow (suc fuel) page fetch t ≡ walk (suc fuel) same t
        by_page (err x) h = rw (e, h, follow, walk)
        by_page (ok (items, next)) h = elim (closed t next items h q) [
          | inl last ↦ rw (e, h, follow, walk) (rw ((str_eq_iff next "").1 last))
          | inr more ↦ rw (e, h, follow, walk) (rw (again next more))
        ]

    follow-walk : (fuel page : ℕ) (t : String) → Q t → follow fuel page fetch t ≡ walk fuel same t
    unfolding follow walk
    follow-walk zero page t q = refl
    follow-walk (suc fuel) page t q =
        follow-step fuel page t (λ next. follow-walk fuel (suc page) next) (agree page t q) (inr q)

    -- The walk over the changing listings is that over the first of them.
    pub follow-eq-walk :
        (fuel : ℕ) → fetch 0 "" ≡ same "" → follow fuel 0 fetch "" ≡ walk fuel same ""
    unfolding follow walk
    follow-eq-walk zero e = refl
    follow-eq-walk (suc fuel) e =
        follow-step fuel 0 "" (λ next. follow-walk fuel 1 next) e (inl refl)

module _ {A : Type 0} where
  pub All-zip :
      (P Q R : A → Type 0)
      → ((x : A) → P x → Q x → R x)
      → (xs : List A) → All P xs
      → All Q xs
      → All R xs
  All-zip P Q R f [] h k = tt
  All-zip P Q R f (x ∷ xs) (h, hs) (k, ks) = (f x h k, All-zip P Q R f xs hs ks)

  All-any : (P : A → Type 0) → ((x : A) → P x) → (xs : List A) → All P xs
  All-any P f [] = tt
  All-any P f (x ∷ xs) = (f x, All-any P f xs)

  All-behind : (P : A → Type 0) (xs ys : List A) → All P (xs ++ ys) → All P ys
  All-behind P [] ys h = h
  All-behind P (x ∷ xs) ys (h, hs) = All-behind P xs ys hs

  pub filter-append :
      (p : A → _) (xs ys : List A) → filter p (xs ++ ys) ≡ filter p xs ++ filter p ys
  unfolding filter
  filter-append p [] ys = refl
  filter-append p (x ∷ xs) ys = ground (arith, filter-append p xs ys)

-- What stands behind an old row does not change with newer rows.
pub behind-grown :
    {Row : Type 0} (key : Row → Key) (news old : List Row)
    → IsNewestFirst key (news ++ old)
    → All (λ r. behind key r (news ++ old) ≡ behind key r old) old
behind-grown key [] old sorted = All-any _ (λ r. refl) old
behind-grown key (x ∷ xs) old (newer, sorted) =
    All-zip (λ r. is_past (key r) (key x) ≡ true) (λ r. behind key r (xs ++ old) ≡ behind key r old)
      _ (λ r past same. behind-skip key x (xs ++ old) r (is_past-asymm (key r) (key x) past) ∙ same)
      old (All-behind _ xs old newer) (behind-grown key xs old sorted)
