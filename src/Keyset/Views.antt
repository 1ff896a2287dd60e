-- ===== src/Keyset/Views.antt =====
-- A listing whose pages are those of another under a view, such as the documents of its rows, is
-- walked alike.
use mathlib.Core.Option.{some-injective}
use mathlib.Core.List.{map-append}
use skit_x.Common.{
  ℕ, zero, suc, String, ◌≡◌, refl, sym, ap, ◌∙◌, Option, none, some, List, map, Result, ok, err,
  inl, inr, Bool-cases, str_eq,
}
use skit_x.Keyset.Walk.{walk, prepend}

abbrev pub answer : {E A : Type 0} → Result E A → Option A
answer (ok a) = some a
answer (err e) = none

abbrev pub viewed : {A B : Type 0} → (A → B) → Option (List A × String) → Option (List B × String)
viewed f none = none
viewed f (some (xs, next)) = some (map f xs, next)

-- Two listings whose pages are the same under a view are walked alike.
pub walk-viewed :
    {E F A B : Type 0} (f : A → B) (fetch : String → Result E (List A × String))
    (shown : String → Result F (List B × String))
    → ((t : String) → answer (shown t) ≡ viewed f (answer (fetch t)))
    → (pages : ℕ) (t : String) (xs : List A) → walk pages fetch t ≡ some xs
    → walk pages shown t ≡ some (map f xs)
unfolding walk
walk-viewed f fetch shown same zero t xs h = cc
walk-viewed {E = E} {F = F} {A = A} {B = B} f fetch shown same (suc n) t xs h =
    by_answer (λ next ys. walk-viewed f fetch shown same n next ys) (fetch t) (shown t) refl refl
      (same t)
  where
    -- the pages behind one that is not the last
    by_rest :
        ((next : String) (ys : List A)
          → walk n fetch next ≡ some ys
          → walk n shown next ≡ some (map f ys))
        → (items : List A) (next : String) (o : Option (List A)) → walk n fetch next ≡ o
        → prepend items o ≡ some xs
        → prepend (map f items) (walk n shown next) ≡ some (map f xs)
    by_rest again items next none e g = cc
    by_rest again items next (some ys) e g =
        rw (again next ys e)
          (ap some (sym (map-append f items ys) ∙ ap (map f) (some-injective _ _ g)))

    by_page :
        ((next : String) (ys : List A)
          → walk n fetch next ≡ some ys
          → walk n shown next ≡ some (map f ys))
        → (items : List A) (next : String) → fetch t ≡ ok (items, next)
        → shown t ≡ ok (map f items, next)
        → walk (suc n) shown t ≡ some (map f xs)
    by_page again items next e e' = elim (Bool-cases (str_eq next "")) [
      | inl last ↦
          let g = rw last at (rw (e, walk) at h) in
          rw (e', walk) (rw last (ap some (ap (map f) (some-injective _ _ g))))
      | inr more ↦
          let g = rw more at (rw (e, walk) at h) in
          rw (e', walk) (rw more (by_rest again items next (walk n fetch next) refl g))
    ]

    by_answer :
        ((next : String) (ys : List A)
          → walk n fetch next ≡ some ys
          → walk n shown next ≡ some (map f ys))
        → (r : Result E (List A × String)) (r' : Result F (List B × String)) → fetch t ≡ r
        → shown t ≡ r'
        → answer r' ≡ viewed f (answer r)
        → walk (suc n) shown t ≡ some (map f xs)
    by_answer again (err x) r' e e' g = cc (rw (e, walk) at h)
    by_answer again (ok (items, next)) (err y) e e' g = cc
    by_answer again (ok (items, next)) (ok p) e e' g =
        by_page again items next e (e' ∙ ap ok (some-injective _ _ g))
