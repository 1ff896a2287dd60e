-- ===== src/Common/ByteText.antt =====
-- A Go string whose bytes the program reads: its bytes, and the `strings` functions on them.
use Prim.Native.Nat.{ℕ}
use Prim.Native.Char.{code}
use Prim.Native.String.{String}
use mathlib.Core.Path.{◌≡◌, refl, ap₂}
use mathlib.Core.Logic.{◌≢◌, ◌⊎◌, inl, inr}
use native.Mathlib.Omega.{arith}
use mathlib.Core.Bool.{Bool, true, false, ◌&&◌}
use mathlib.Core.Option.{Option, none, some}
use mathlib.Core.List.{List, [], ◌∷◌, ◌++◌}
use skit_x.Common.Tests.{◌==◌, ==_refl, ==_iff, &&-eq-true, Bool-cases, if◌then◌else◌}
use skit_x.Common.Lists.{All}

abbrev pub Bytes : Type 0
Bytes = List ℕ

-- The bytes of an ASCII literal.
abbrev pub codes : String → Bytes
codes String.[] = []
codes (String.◌∷◌ c s) = code c ∷ codes s

-- `c` is not among the bytes.
abbrev pub Lacks : ℕ → Bytes → Type 0
Lacks c = All (λ b. (b == c) ≡ false)

abbrev prefix_cut : ℕ → Option (Bytes × Bytes) → Option (Bytes × Bytes)
prefix_cut b none = none
prefix_cut b (some (before, after)) = some (b ∷ before, after)

-- strings.Cut at a single byte: what stands before and after its first occurrence.
unfoldable pub cut : ℕ → Bytes → Option (Bytes × Bytes)
cut c [] = none
cut c (b ∷ bs) = let rest = prefix_cut b (cut c bs) in if b == c then some ([], bs) else rest

-- A cut at the separator behind a part that lacks it gives that part and the rest.
pub cut-append :
    (c : ℕ) (part rest : Bytes) → Lacks c part → cut c (part ++ c ∷ rest) ≡ some (part, rest)
unfolding cut
cut-append c [] rest h = rw (==_refl c)
cut-append c (b ∷ part) rest (h, hs) = rw h (rw (cut-append c part rest hs))

unfoldable pub bytes_eq : Bytes → Bytes → Bool
bytes_eq [] [] = true
bytes_eq (x ∷ xs) (y ∷ ys) = (x == y) && bytes_eq xs ys
bytes_eq _ _ = false

pub bytes_eq_refl : (a : Bytes) → bytes_eq a a ≡ true
unfolding bytes_eq
bytes_eq_refl [] = refl
bytes_eq_refl (x ∷ xs) = ground (arith, bytes_eq_refl xs)

pub bytes_eq-eq : (a b : Bytes) → bytes_eq a b ≡ true → a ≡ b
unfolding bytes_eq
bytes_eq-eq [] [] h = refl
bytes_eq-eq [] (y ∷ ys) h = cc
bytes_eq-eq (x ∷ xs) [] h = cc
bytes_eq-eq (x ∷ xs) (y ∷ ys) h =
    let (e, es) = &&-eq-true _ _ h in ap₂ (λ z zs. z ∷ zs) ((==_iff x y).0 e) (bytes_eq-eq xs ys es)

pub Bytes-cases : (a b : Bytes) → (a ≡ b) ⊎ (a ≢ b)
Bytes-cases a b = elim (Bool-cases (bytes_eq a b)) [
  | inl e ↦ inl (bytes_eq-eq a b e)
  | inr n ↦ inr (λ e. cc (n, e, bytes_eq_refl a))
]
