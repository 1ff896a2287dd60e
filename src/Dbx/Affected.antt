-- ===== src/Dbx/Affected.antt =====
-- The end of an UPDATE and a DELETE of the three stores.
use skit_x.Common.{ℕ, String, Result, ok, err, ◌==◌, if◌then◌else◌}
use skit_x.Dbx.{Error, wrap}

-- `n == 0` is a missing row.
abbrev pub affected : Error → String → Result Error ℕ → Result Error (Unit {0})
affected missing op (err e) = err (wrap op e)
affected missing op (ok n) = if n == 0 then err (wrap op missing) else ok tt
