-- ===== src/Api/Inputs.antt =====
-- What the handlers of api/user/user.go, api/widget/widget.go and api/product/product.go do alike
-- with a request and with the result of the Core.
use skit_x.Common.{
  ℕ, String, Option, none, some, List, [], ◌∷◌, map, Result, ok, err, ◌>>=◌, str_eq, ap, ◌≡◌,
  if◌then◌else◌,
}
use skit_x.Api.{Edge, ListQuery, Answer, Paged}
use skit_x.Dbx.{Error, text, Page, Cursor}
use skit_x.Errs.{AppError, newf, wrapped, invalid_argument}

-- an optional parameter: nil where the text is empty
abbrev pub given : String → Option String
given s = if str_eq s "" then none else some s

-- errs.New(errs.InvalidArgument, err)
abbrev pub invalidated : {A : Type 0} → Result Error A → Result AppError A
invalidated (ok a) = ok a
invalidated (err x) = err (wrapped invalid_argument x)

abbrev id_or_invalid : String → Option ℕ → Result AppError ℕ
id_or_invalid s none = err (newf invalid_argument "invalid id %q" (text s ∷ []))
id_or_invalid s (some i) = ok i

-- uuid.Parse of the id in the path
abbrev pub id_of : Edge → String → Result AppError ℕ
id_of e s = id_or_invalid s (e.parse_uuid s)

-- page.NewCursor of ?cursor and ?limit
abbrev pub cursor_of : Edge → ListQuery → Cursor
cursor_of e q = record { token = q.cursor; limit = e.cursor_limit (e.atoi q.limit) }

-- The document of a result.
abbrev pub responded : {E A B : Type 0} → (A → B) → Result E A → Result E B
responded f (ok a) = ok (f a)
responded f (err x) = err x

-- The answer of a write with a status.
abbrev pub answered : {E A B S : Type 0} → ℕ → (A → B) → Result E A × S → Result E (Answer B) × S
answered status f (r, st) = (responded (λ a. record { status = status; document = f a }) r, st)

-- A page and the token of the next one.
abbrev pub cursor_page :
    {E A B : Type 0} → (A → B) → Result E (List A × String) → Result E (List B × String)
cursor_page f (err x) = err x
cursor_page f (ok (xs, next)) = ok (map f xs, next)

-- A page of a listing: what the Core found, then what it counts for the same filter.
abbrev pub paged_list :
    {E A B : Type 0} → (A → B) → Page → Result E (List A) → Result E ℕ → Result E (Paged B)
paged_list f pg found counted = do
  xs ← found
  total ← counted
  ok (record { items = map f xs; total = total; page = pg })

-- The total of a page is the count.
pub paged_list-total :
    {E A B : Type 0} (f : A → B) (pg : Page) (found : Result E (List A)) (counted : Result E ℕ)
    (page : Paged B)
    → paged_list f pg found counted ≡ ok page
    → counted ≡ ok page.total
paged_list-total f pg (err x) counted page h = cc
paged_list-total f pg (ok xs) (err x) page h = cc
paged_list-total f pg (ok xs) (ok n) page h =
    ap ok (ap (λ r. elim r [ ok p ↦ p.total | err _ ↦ n ]) h)
