-- ===== src/Widget/Settings.antt =====
-- core/widget/settings.go
use skit_x.Common.{
  ℕ, ◌≤◌, ◌↔◌, ◌≡◌, refl, ℤ, pos, negsuc, ltb_ℤ, Bool, false, ◌||◌, Result, ok, err, if◌then◌else◌,
  arith, ◌∷◌, [],
}
use skit_x.Dbx.{num}
use skit_x.Errs.{AppError, newf, unavailable, invalid_argument}

abbrev pub max_import : ℕ
max_import = 1000

pub record Settings : Type 0 where
  pub read_only : Bool
  pub import_limit : ℤ

abbrev pub default_settings : Settings
default_settings = record { read_only = false; import_limit = pos max_import }

-- Settings.Check.
unfoldable pub check : Settings → Result AppError (Unit {0})
check s =
    if ltb_ℤ s.import_limit (pos 1) || ltb_ℤ (pos max_import) s.import_limit
    then err (newf invalid_argument "import_limit must be within 1..%d" (num max_import ∷ []))
    else ok tt

abbrev pub read_only_error : AppError
read_only_error = record (newf unavailable "widgets are read-only" []) {
  message_id = "widget.read_only";
}

-- Settings.Writable
unfoldable pub writable : Settings → Result AppError (Unit {0})
writable s = if s.read_only then err read_only_error else ok tt

check-ok :
    (s : Settings) (n : ℕ) → s.import_limit ≡ pos n → 1 ≤ n → n ≤ max_import → check s ≡ ok tt
unfolding check
check-ok s n h lo hi = ground arith

check-ok_limit :
    (s : Settings)
    → check s ≡ ok tt
    → (n : ℕ) × (s.import_limit ≡ pos n) × (1 ≤ n) × (n ≤ max_import)
unfolding check
check-ok_limit s h = limit_of s.import_limit refl
  where
    limit_of :
        (l : ℤ)
        → s.import_limit ≡ l
        → (n : ℕ) × (s.import_limit ≡ pos n) × (1 ≤ n) × (n ≤ max_import)
    limit_of (pos n) e = (n, e, ground arith, ground arith)
    limit_of (negsuc n) e = absurd (ground arith)

pub writable_open : (s : Settings) → s.read_only ≡ false → writable s ≡ ok tt
unfolding writable
writable_open s h = rw h

-- Settings are accepted exactly when the import limit is within 1 and max_import; the read-only
-- switch does not matter.
pub check_iff :
    (s : Settings)
    → (check s ≡ ok tt) ↔ ((n : ℕ) × (s.import_limit ≡ pos n) × (1 ≤ n) × (n ≤ max_import))
check_iff s = (check-ok_limit s, λ b. let (n, e, lo, hi) = b in check-ok s n e lo hi)
