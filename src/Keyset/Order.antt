-- ===== src/Keyset/Order.antt =====
-- What the rows past a boundary of a newest-first listing are.
use mathlib.Core.Path.{subst}
use mathlib.Core.Option.{some-injective}
use skit_x.Common.{
  ℕ, zero, suc, ◌≡◌, refl, sym, ap, ◌∙◌, Bool, true, false, ◌&&◌, some, List, [], ◌∷◌, arith, take,
  drop, get_last?, filter, All, inl, inr, Bool-cases,
}
use skit_x.Keyset.{Key, is_past, IsNewestFirst}

pub is_past_irrefl : (k : Key) → is_past k k ≡ false
unfolding is_past
is_past_irrefl (t, i) = ground arith

pub is_past-asymm : (a b : Key) → is_past a b ≡ true → is_past b a ≡ false
unfolding is_past
is_past-asymm (t, i) (u, j) h = ground arith

pub is_past_trans : (a b c : Key) → is_past a b ≡ true → is_past b c ≡ true → is_past a c ≡ true
unfolding is_past
is_past_trans (t, i) (u, j) (v, k) h g = ground arith

module _ {ℓ} {A : Type ℓ} where
  pub filter-eq_self : (p : A → Bool) (xs : List A) → All (λ x. p x ≡ true) xs → filter p xs ≡ xs
  unfolding filter
  filter-eq_self p [] h = refl
  filter-eq_self p (x ∷ xs) (h, hs) = rw h (ap (λ t. x ∷ t) (filter-eq_self p xs hs))

  pub filter-filter :
      (p q : A → Bool) (xs : List A)
      → ((x : A) → p x ≡ true → q x ≡ true)
      → filter p (filter q xs) ≡ filter p xs
  unfolding filter
  filter-filter p q [] h = refl
  filter-filter p q (x ∷ xs) h = ground (arith, filter-filter p q xs h, h x)

  pub filter-and :
      (p q : A → Bool) (xs : List A) → filter (λ x. p x && q x) xs ≡ filter q (filter p xs)
  unfolding filter
  filter-and p q [] = refl
  filter-and p q (x ∷ xs) = ground (arith, filter-and p q xs)

  pub All-filter {κ} :
      (P : A → Type κ) (p : A → Bool) (xs : List A) → All P xs → All P (filter p xs)
  unfolding filter
  All-filter P p [] h = tt
  All-filter P p (x ∷ xs) (h, hs) = elim (Bool-cases (p x)) [
    | inl e ↦ rw e (h, All-filter P p xs hs)
    | inr e ↦ rw e (All-filter P p xs hs)
  ]

  pub All-filter_self : (p : A → Bool) (xs : List A) → All (λ x. p x ≡ true) (filter p xs)
  unfolding filter
  All-filter_self p [] = tt
  All-filter_self p (x ∷ xs) = elim (Bool-cases (p x)) [
    | inl e ↦ rw (e, filter) (e, All-filter_self p xs)
    | inr e ↦ rw (e, filter) (All-filter_self p xs)
  ]

  pub All-last_take {κ} :
      (P : A → Type κ) (n : ℕ) (xs : List A) (r : A)
      → All P xs
      → get_last? (take n xs) ≡ some r
      → P r
  All-last_take P zero xs r h e = cc
  All-last_take P (suc n) [] r h e = cc
  All-last_take P (suc zero) (x ∷ xs) r (h, hs) e = subst P (some-injective x r e) h
  All-last_take P (suc (suc n)) (x ∷ []) r (h, hs) e = subst P (some-injective x r e) h
  All-last_take P (suc (suc n)) (x ∷ y ∷ ys) r (h, hs) e = All-last_take P (suc n) (y ∷ ys) r hs e

module _ {Row : Type 0} (key : Row → Key) where
  -- the rows of a listing that stand behind `r`
  abbrev pub behind : Row → List Row → List Row
  behind r = filter (λ y. is_past (key y) (key r))

  pub filter-IsNewestFirst :
      (p : Row → Bool) (xs : List Row) → IsNewestFirst key xs → IsNewestFirst key (filter p xs)
  unfolding filter
  filter-IsNewestFirst p [] h = tt
  filter-IsNewestFirst p (x ∷ xs) (h, hs) = elim (Bool-cases (p x)) [
    | inl e ↦ rw e (All-filter _ p xs h, filter-IsNewestFirst p xs hs)
    | inr e ↦ rw e (filter-IsNewestFirst p xs hs)
  ]

  pub behind-skip :
      (x : Row) (xs : List Row) (r : Row)
      → is_past (key x) (key r) ≡ false
      → behind r (x ∷ xs) ≡ behind r xs
  unfolding filter
  behind-skip x xs r h = rw h

  behind-head :
      (x : Row) (xs : List Row)
      → All (λ y. is_past (key y) (key x) ≡ true) xs
      → behind x (x ∷ xs) ≡ xs
  unfolding filter
  behind-head x xs h = rw (is_past_irrefl (key x)) (filter-eq_self _ xs h)

  -- What stands behind the last of the first `n` rows are the rows from the `n`-th on.
  pub behind-last :
      (n : ℕ) (xs : List Row) (r : Row)
      → IsNewestFirst key xs
      → get_last? (take n xs) ≡ some r
      → behind r xs ≡ drop n xs
  behind-last zero xs r h e = cc
  behind-last (suc n) [] r h e = cc
  behind-last (suc zero) (x ∷ xs) r (h, hs) e =
      subst (λ z. behind z (x ∷ xs) ≡ xs) (some-injective x r e) (behind-head x xs h)
  behind-last (suc (suc n)) (x ∷ []) r (h, hs) e =
      subst (λ z. behind z (x ∷ []) ≡ []) (some-injective x r e) (behind-head x [] h)
  behind-last (suc (suc n)) (x ∷ y ∷ ys) r (h, hs) e =
      behind-skip x (y ∷ ys) r
        (is_past-asymm (key r) (key x) (All-last_take _ (suc n) (y ∷ ys) r h e))
      ∙ behind-last (suc n) (y ∷ ys) r hs e

  -- Only what is past a boundary can be past a later one.
  pub behind-filter :
      (k : Key) (r : Row) (xs : List Row)
      → is_past (key r) k ≡ true
      → behind r (filter (λ y. is_past (key y) k) xs) ≡ behind r xs
  behind-filter k r xs h = filter-filter _ _ xs λ y p. is_past_trans (key y) (key r) k p h

  -- The rows behind the last of a page are those of the listing that the page has left.
  pub behind-next :
      (n : ℕ) (r r' : Row) (xs : List Row)
      → IsNewestFirst key xs
      → get_last? (take n (behind r xs)) ≡ some r'
      → behind r' xs ≡ drop n (behind r xs)
  behind-next n r r' xs h e =
      sym (
        behind-filter (key r) r' xs (
          All-last_take (λ y. is_past (key y) (key r) ≡ true) n (behind r xs) r'
            (All-filter_self _ xs) e))
      ∙ behind-last n (behind r xs) r' (filter-IsNewestFirst _ xs h) e
