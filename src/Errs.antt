-- ===== src/Errs.antt =====
-- The errors of the package errs as the program builds them: the code, the text as its format and
-- operands, and what WithMessageID and WithArgs add.
use skit_x.Common.{String, List, [], ◌∷◌}
use skit_x.Dbx.{Arg, text}
use skit_x.Dbx

pub data Code : Type 0 where
  invalid_argument not_found already_exists aborted unavailable internal : Code

pub record AppError : Type 0 where
  pub code : Code
  pub format : String
  pub operands : List Arg
  pub message_id : String
  pub args : List (String × Arg)

-- errs.Newf
abbrev pub newf : Code → String → List Arg → AppError
newf code format operands = record {
  code = code;
  format = format;
  operands = operands;
  message_id = "";
  args = [];
}

-- errs.New: the text is that of the wrapped error.
abbrev pub wrapped : Code → Dbx.Error → AppError
wrapped code e = newf code "%w" (text e.text ∷ [])
