-- ===== src/Listing/Codec.antt =====
-- The key of a cursor decodes to what it was encoded from.
use skit_x.Common.{
  String, List, [], ℕ, ◌≡◌, some, ok, Bytes, ◌++◌, ◌∷◌, Lacks, cut-append, ◌<◌, All,
}
use skit_x.Dbx.{Params, bytes, time}
use skit_x.Dbx.Table.{Table, key}
use skit_x.Keyset.{IsNewestFirst}
use skit_x.Listing.{Formats, separator, encode_cursor, decode_cursor, bound, keyset_condition}

-- The first instant whose year has five digits, in nanoseconds from the zero time.Time: the text
-- that RFC3339Nano gives a time from there on does not parse.
abbrev pub year_10000 : ℕ
year_10000 = 315537897600000000000

-- What is assumed of the formats: a time before the year 10000 that was formatted parses to itself,
-- and its text has no separator.
pub record IsFormats (f : Formats) : Type 0 where
  pub parse-format : (t : ℕ) → t < year_10000 → f.parse_time (f.format_time t) ≡ some t
  pub format-Lacks : (t : ℕ) → Lacks separator (f.format_time t)

-- The rows of a table as a listing needs them: newest first, and created before the year 10000.
abbrev pub IsListing : {Row : Type 0} → Table Row → List Row → Type 0
IsListing t rs = IsNewestFirst (key t) rs × All (λ r. t.created_at r < year_10000) rs

-- Decoding the key of a row that was created before the year 10000 gives its created_at and the
-- text of its id, whatever that text is; the format of such times is assumed to parse back and to
-- have no separator.
pub decode-encode :
    (f : Formats)
    → IsFormats f
    → (created_at id : ℕ) → created_at < year_10000
    → decode_cursor f (encode_cursor f created_at id) ≡ ok (created_at, f.uuid_text id)
unfolding decode_cursor encode_cursor
decode-encode f h created_at id before =
    rw
      (cut-append separator (f.format_time created_at) (f.uuid_text id) (h.format-Lacks created_at))
      (rw (h.parse-format created_at before))

bound-append :
    (f : Formats) (xs ys : Bytes) (c : ℕ) (part : List String × Params) (ts : ℕ) (id : Bytes)
    → decode_cursor f (xs ++ c ∷ ys) ≡ ok (ts, id)
    → bound f (xs ++ c ∷ ys) part
      ≡ ok
          (part.0 ++ keyset_condition ∷ [], ("after_id", bytes id) ∷ ("after_ts", time ts) ∷ part.1)
unfolding bound
bound-append f [] ys c part ts id h = rw h
bound-append f (x ∷ xs) ys c part ts id h = rw h

-- The key of a row adds the keyset predicate with that row's created_at and id.
pub bound-encode :
    (f : Formats)
    → IsFormats f
    → (part : List String × Params) (created_at id : ℕ) → created_at < year_10000
    → bound f (encode_cursor f created_at id) part
      ≡ ok (
        part.0 ++ keyset_condition ∷ [],
        ("after_id", bytes (f.uuid_text id)) ∷ ("after_ts", time created_at) ∷ part.1,
      )
unfolding encode_cursor
bound-encode f h part ts id before =
    bound-append f (f.format_time ts) (f.uuid_text id) separator part ts (f.uuid_text id)
      (decode-encode f h ts id before)
