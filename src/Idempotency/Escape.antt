-- ===== src/Idempotency/Escape.antt =====
-- url.PathEscape, and `join`, which escapes each part and joins them with "/".
use mathlib.Core.Path.{ap₂}
use skit_x.Common.{
  ℕ, ◌+◌, ◌/◌, ◌%◌, ◌<◌, ◌≡◌, ◌≢◌, refl, sym, ap, Bool, true, false, ◌&&◌, ◌||◌, not, List, [], ◌∷◌,
  ◌++◌, arith, ltb, leb, ◌==◌, if◌then◌else◌, Bytes, codes, All, Lacks, any, inl, inr, Bool-cases,
  ==_iff,
}

-- The bytes of a path segment that stay: letters, digits and -_.~$&+=:@
unreserved : ℕ → Bool
unreserved c =
    (leb b'a' c && leb c b'z')
    || (leb b'A' c && leb c b'Z')
    || (leb b'0' c && leb c b'9')
    || any (λ d. c == d) (codes "-_.~$&+=:@")

unfoldable pub should_escape : ℕ → Bool
unfolding unreserved
should_escape c = not (unreserved c)

-- the digit of "0123456789ABCDEF"
abbrev pub upper_hex : ℕ → ℕ
upper_hex n = if ltb n 10 then 48 + n else 55 + n

abbrev pub escape_byte : ℕ → Bytes
escape_byte c =
    if should_escape c then b'%' ∷ upper_hex (c / 16) ∷ upper_hex (c % 16) ∷ [] else c ∷ []

unfoldable pub path_escape : Bytes → Bytes
path_escape [] = []
path_escape (c ∷ cs) = escape_byte c ++ path_escape cs

abbrev pub slash : ℕ
slash = b'/'

-- strings.Join of the escaped parts
unfoldable pub join : List Bytes → Bytes
join [] = []
join (p ∷ []) = path_escape p
join (p ∷ r ∷ ps) = path_escape p ++ slash ∷ join (r ∷ ps)

abbrev pub AreBytes : Bytes → Type 0
AreBytes = All (λ c. c < 256)

escapes_percent : should_escape b'%' ≡ true
unfolding should_escape
escapes_percent = refl

escapes_slash : should_escape slash ≡ true
unfolding should_escape
escapes_slash = refl

-- An escaped byte is followed by two digits above the separator, and a byte that stays is none of
-- the two that are always escaped.
stays_ne : (c d : ℕ) → should_escape d ≡ true → should_escape c ≡ false → (c == d) ≡ false
stays_ne c d h k = elim (Bool-cases (c == d)) [
  | inl e ↦ cc (ap should_escape ((==_iff c d).0 e))
  | inr n ↦ n
]

upper_hex-ne_slash : (n : ℕ) → (upper_hex n == slash) ≡ false
upper_hex-ne_slash n = ground arith

upper_hex-injective : (m n : ℕ) → m < 16 → n < 16 → upper_hex m ≡ upper_hex n → m ≡ n
upper_hex-injective m n h k e = ground arith

pub path_escape-Lacks : (s : Bytes) → Lacks slash (path_escape s)
unfolding path_escape
path_escape-Lacks [] = tt
path_escape-Lacks (c ∷ cs) = elim (Bool-cases (should_escape c)) [
  | inl e ↦
      rw e
        (refl, (upper_hex-ne_slash (c / 16), (upper_hex-ne_slash (c % 16), path_escape-Lacks cs)))
  | inr n ↦ rw n (stays_ne c slash escapes_slash n, path_escape-Lacks cs)
]

cons-injective : (a b : ℕ) (xs ys : Bytes) → a ∷ xs ≡ b ∷ ys → (a ≡ b) × (xs ≡ ys)
cons-injective a b xs ys e = (cc, cc)

digits-injective :
    (c d : ℕ)
    → c < 256
    → d < 256
    → upper_hex (c / 16) ≡ upper_hex (d / 16)
    → upper_hex (c % 16) ≡ upper_hex (d % 16)
    → c ≡ d
digits-injective c d h k hi lo = omega (
  arith,
  upper_hex-injective (c / 16) (d / 16) (omega arith) (omega arith) hi,
  upper_hex-injective (c % 16) (d % 16) (omega arith) (omega arith) lo,
)

-- The first byte of an escaped text and what stands behind it can be read off.
escape_byte-injective :
    (c d : ℕ) (xs ys : Bytes)
    → c < 256
    → d < 256
    → escape_byte c ++ xs ≡ escape_byte d ++ ys
    → (c ≡ d) × (xs ≡ ys)
escape_byte-injective c d xs ys h k e = elim (Bool-cases (should_escape c)) [
  | inl p ↦ elim (Bool-cases (should_escape d)) [
    | inl q ↦
        let (_, e₁) = cons-injective _ _ _ _ (rw (p, q) at e) in
        let (hi, e₂) = cons-injective _ _ _ _ e₁ in
        let (lo, e₃) = cons-injective _ _ _ _ e₂ in (digits-injective c d h k hi lo, e₃)
    | inr q ↦
        let (same, _) = cons-injective _ _ _ _ (rw (p, q) at e) in
        cc (escapes_percent, ap should_escape same)
  ]
  | inr p ↦ elim (Bool-cases (should_escape d)) [
    | inl q ↦
        let (same, _) = cons-injective _ _ _ _ (rw (p, q) at e) in
        cc (escapes_percent, ap should_escape same)
    | inr q ↦ cons-injective _ _ _ _ (rw (p, q) at e)
  ]
]

escape_byte-ne_nil : (c : ℕ) (xs : Bytes) → escape_byte c ++ xs ≢ []
escape_byte-ne_nil c xs e = elim (Bool-cases (should_escape c)) [
  | inl p ↦ cc (rw p at e)
  | inr p ↦ cc (rw p at e)
]

-- Two texts of bytes with the same escaped form are the same.
pub path_escape-injective :
    (s t : Bytes) → AreBytes s → AreBytes t → path_escape s ≡ path_escape t → s ≡ t
unfolding path_escape
path_escape-injective [] [] h k e = refl
path_escape-injective [] (d ∷ ds) h k e = absurd (escape_byte-ne_nil d _ (sym e))
path_escape-injective (c ∷ cs) [] h k e = absurd (escape_byte-ne_nil c _ e)
path_escape-injective (c ∷ cs) (d ∷ ds) (h, hs) (k, ks) e =
    let (same, rest) = escape_byte-injective c d (path_escape cs) (path_escape ds) h k e in
    ap₂ (λ x xs. x ∷ xs) same (path_escape-injective cs ds hs ks rest)
