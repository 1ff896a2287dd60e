-- ===== src/Idempotency/Http.antt =====
-- HTTP of internal/app/idempotency/idempotency.go
pub mod Laws
pub mod Traffic
use skit_x.Common.{
  ℕ, ◌≤◌, ◌<◌, String, ◌≡◌, refl, Bool, true, false, ◌||◌, not, Option, none, some, List, [], ◌∷◌,
  Result, ok, err, leb, Bytes, codes, str_eq, if◌then◌else◌,
}
use mathlib.Core.Option.{get_or}
use skit_x.Dbx.{Error, text}
use skit_x.Errs.{AppError, newf, wrapped, aborted, unavailable, internal}
use skit_x.Idempotency.Keys.{Caller, http_key}
use skit_x.Idempotency.Keeper
use skit_x.Idempotency.Keeper.{Keeper, DoError}

-- A rest.ResponseEncoder: nil, an *errs.Error, rest.NoResponse, or a document with its status, if
-- it sets one, and what its Encode returns.
pub data Response : Type 0 where
  nil : Response
  failed : AppError → Response
  no_response : Response
  document : Option ℕ → Result Error (Bytes × Bytes) → Response

-- `response`: what is stored for a key.
pub record Stored : Type 0 where
  pub status : ℕ
  pub content_type : Bytes
  pub body : Bytes

-- The errors of `record`.
pub data RecordError : Type 0 where
  handler_error : AppError → RecordError
  encode_error : Error → RecordError
  not_stored : RecordError

abbrev within_4xx : Stored → Result RecordError Stored
within_4xx s = if leb 500 s.status then err not_stored else ok s

-- record
unfoldable pub record_response : Response → Result RecordError Stored
record_response nil = ok (record { status = 204; content_type = []; body = [] })
record_response (failed e) = err (handler_error e)
record_response no_response = err not_stored
record_response (document status (err e)) = err (encode_error e)
record_response (document status (ok (body, content_type))) =
    within_4xx (record { status = get_or status 200; content_type = content_type; body = body })

-- What the middleware answers: the live response of the handler, a stored one, or an error, with
-- Retry-After where it is set.
pub data Answer : Type 0 where
  live : Response → Answer
  replayed : Stored → Answer
  refused : AppError → Bool → Answer

pub record Request : Type 0 where
  pub method : String
  pub caller : Caller
  -- whether the context has the writer of the response
  pub writer : Bool

abbrev pub in_progress_error : AppError
in_progress_error =
    newf aborted "a request with this %s is in progress" (text "Idempotency-Key" ∷ [])

abbrev pub unavailable_error : AppError
unavailable_error = newf unavailable "%w" (text "dedup: unavailable" ∷ [])

abbrev pub other_error : AppError
other_error = newf internal "%w" (text "dedup: the call failed" ∷ [])

-- `live != nil`
abbrev is_nil : Response → Bool
is_nil nil = true
is_nil _ = false

abbrev mapped : Request → DoError RecordError → Answer
mapped req DoError.in_progress = refused in_progress_error req.writer
mapped req DoError.unavailable = refused unavailable_error false
mapped req (DoError.returned e) = refused other_error false

-- What follows the call of Do, by its result and the response that the handler left in `live`.
abbrev pub answer : Request → Result (DoError RecordError) Stored → Response → Answer
answer req (ok s) ran = replayed s
answer req (err e) ran = if is_nil ran then mapped req e else live ran

abbrev has_no_header : Bytes → Bool
has_no_header [] = true
has_no_header (c ∷ cs) = false

-- A request that is passed through.
abbrev pub passes : Request → Bool
passes req = not (str_eq req.method "POST") || has_no_header req.caller.header

module _ {W : Type 0} (k : Keeper Stored RecordError (W × Response)) where
  abbrev recorded : Response × W → Result RecordError Stored × (W × Response)
  recorded (resp, w) = (record_response resp, (w, resp))

  -- The function that Do runs: the handler, whose response stays in `live`.
  abbrev pub recording :
      (W → Response × W) → W × Response → Result RecordError Stored × (W × Response)
  recording next (w, _) = recorded (next w)

  abbrev finish :
      Request
      → Result (DoError RecordError) Stored × k.Store × (W × Response)
      → Answer × k.Store × W
  finish req (r, st, (w, ran)) = (answer req r ran, st, w)

  abbrev pass : k.Store → Response × W → Answer × k.Store × W
  pass st (resp, w) = (live resp, st, w)

  -- HTTP: the middleware around the handler `next`, which works on the world `W`.
  unfoldable pub http : (W → Response × W) → Request → k.Store → W → Answer × k.Store × W
  http next req st w =
      if passes req
      then pass st (next w)
      else finish req (k.run (http_key req.caller) (recording next) st (w, nil))
