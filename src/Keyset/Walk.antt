-- ===== src/Keyset/Walk.antt =====
-- A client that follows the next-page tokens until an answer has none.
use mathlib.Core.Path.{subst}
use mathlib.Core.List.{map-append}
use skit_x.Common.{
  ℕ, zero, suc, ◌≤◌, ◌<◌, String, ◌≡◌, ◌≢◌, refl, ap, ◌∙◌, Option, none, some, List, ◌++◌, map,
  arith, length, take, drop, get_last?, length-drop, take-append-drop, Result, ok, err, ltb, str_eq,
  str_eq_iff, All, if◌then◌else◌, inl, inr, Bool-cases,
}
use skit_x.Keyset.{Key, IsNewestFirst}
use skit_x.Keyset.Order.{behind, behind-last, behind-next, All-filter, All-last_take}
use skit_x.Keyset.Page.{get_last?-take}

abbrev pub prepend : {A : Type 0} → List A → Option (List A) → Option (List A)
prepend xs none = none
prepend xs (some ys) = some (xs ++ ys)

module _ {E A : Type 0} where
  -- `none` is a page that failed, or fuel that ran out.
  unfoldable pub walk : ℕ → (String → Result E (List A × String)) → String → Option (List A)
  walk zero fetch token = none
  walk (suc fuel) fetch token = elim (fetch token) [
    | err e ↦ none
    | ok (items, next) ↦
        let rest = prepend items (walk fuel fetch next) in
        if str_eq next "" then some items else rest
  ]

  walk-last :
      (fuel : ℕ) (fetch : String → Result E (List A × String)) (token : String) (items : List A)
      → fetch token ≡ ok (items, "")
      → walk (suc fuel) fetch token ≡ some items
  unfolding walk
  walk-last fuel fetch token items h = rw (h, walk) (rw ((str_eq_iff "" "").1 refl))

  walk-more :
      (fuel : ℕ) (fetch : String → Result E (List A × String)) (token next : String)
      (items rest : List A)
      → fetch token ≡ ok (items, next)
      → next ≢ ""
      → walk fuel fetch next ≡ some rest
      → walk (suc fuel) fetch token ≡ some (items ++ rest)
  unfolding walk
  walk-more fuel fetch token next items rest h ne w = elim (Bool-cases (str_eq next "")) [
    | inl e ↦ absurd (ne ((str_eq_iff next "").0 e))
    | inr e ↦ rw (h, walk) (rw e (rw w))
  ]

module _ {Row E A : Type 0} (view : Row → A) (encode : Row → String) (limit : ℕ)
    (fetch : String → Result E (List A × String)) where
  -- What the page of a token is, when `rs` are the rows still to come.
  pub record IsPage (t : String) (rs : List Row) : Type 0 where
    pub last : length rs ≤ limit → fetch t ≡ ok (map view rs, "")
    pub more :
        (r : Row)
        → limit < length rs
        → get_last? (take limit rs) ≡ some r
        → fetch t ≡ ok (map view (take limit rs), encode r)

-- Pages cut from one newest-first listing, each behind the last row of the page before it.
module _ {Row E A : Type 0} (key : Row → Key) (view : Row → A) (encode : Row → String) (limit : ℕ)
    (fetch : String → Result E (List A × String)) (listing : List Row)
    (sorted : IsNewestFirst key listing) (positive : 0 < limit) (token : (r : Row) → encode r ≢ "")
    (P : Row → Type 0) (all_P : All P listing) where
  map-take-drop :
      (rs : List Row) → map view (take limit rs) ++ map view (drop limit rs) ≡ map view rs
  map-take-drop rs = rw (← map-append, take-append-drop limit rs)

  walk-page :
      (fuel : ℕ) (t : String) (rs : List Row) (r : Row)
      → IsPage view encode limit fetch t rs
      → limit < length rs
      → get_last? (take limit rs) ≡ some r
      → walk fuel fetch (encode r) ≡ some (map view (drop limit rs))
      → walk (suc fuel) fetch t ≡ some (map view rs)
  walk-page fuel t rs r page h e w =
      walk-more fuel fetch t (encode r) _ _ (page.more r h e) (token r) w
      ∙ ap some (map-take-drop rs)

  module _
      (pages : (r : Row)
        → P r
        → IsPage view encode limit fetch (encode r) (behind key r listing)) where
    -- one page, then whatever the walk gives behind its last row
    walk-cases :
        (fuel : ℕ) (t : String) (rs : List Row)
        → IsPage view encode limit fetch t rs
        → ((r : Row)
            → limit < length rs
            → get_last? (take limit rs) ≡ some r
            → walk fuel fetch (encode r) ≡ some (map view (drop limit rs)))
        → walk (suc fuel) fetch t ≡ some (map view rs)
    walk-cases fuel t rs page next = elim (Bool-cases (ltb limit (length rs))) [
      | inl h ↦
          let (r, e) = get_last?-take limit rs positive (ground arith) in
          walk-page fuel t rs r page (ground arith) e (next r (ground arith) e)
      | inr h ↦ walk-last fuel fetch t _ (page.last (ground arith))
    ]

    -- the rows behind `r` are what the walk from its token returns
    walk-behind :
        (fuel : ℕ) (r : Row)
        → P r
        → length (behind key r listing) < fuel
        → walk fuel fetch (encode r) ≡ some (map view (behind key r listing))
    walk-behind zero r p h = absurd (omega arith)
    walk-behind (suc fuel) r p h =
        walk-cases fuel (encode r) (behind key r listing) (pages r p) λ r' more e.
          let next = behind-next key limit r r' listing sorted e in
          subst (λ rs. walk fuel fetch (encode r') ≡ some (map view rs)) next
            (walk-behind fuel r'
              (All-last_take P limit (behind key r listing) r' (All-filter P _ listing all_P) e)
              (omega (arith, ap length next, length-drop limit (behind key r listing))))

    -- Following the tokens from a page of the whole listing returns each row once, in order.
    pub walk-listing :
        (fuel : ℕ) (t : String)
        → IsPage view encode limit fetch t listing
        → length listing < fuel
        → walk fuel fetch t ≡ some (map view listing)
    walk-listing zero t page h = absurd (omega arith)
    walk-listing (suc fuel) t page h = walk-cases fuel t listing page λ r more e.
        let next = behind-last key limit listing r sorted e in
        subst (λ rs. walk fuel fetch (encode r) ≡ some (map view rs)) next
          (walk-behind fuel r (All-last_take P limit listing r all_P e)
            (omega (arith, ap length next, length-drop limit listing)))
