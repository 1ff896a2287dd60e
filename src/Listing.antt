-- ===== src/Listing.antt =====
-- The code that the three stores share word for word: the WHERE, the codec of a cursor key and
-- QueryByCursor (core/widget/widgetdb/widgetdb.go, core/user/userdb/userdb.go,
-- core/product/productdb/productdb.go). A store gives its table, its filter and its row mapping.
pub mod Clauses
pub mod Codec
pub mod Pages
pub mod Moving
use skit_x.Common.{
  ℕ, suc, String, ◌<>◌, ◌≡◌, Bool, true, false, Option, none, some, List, [], ◌∷◌, ◌++◌, map,
  Result, ok, err, ◌>>=◌, cut, Bytes, codes, All, Lacks, if◌then◌else◌,
}
use skit_x.Dbx.{
  Error, wrap, panicked, failure, Arg, bytes, num, time, Params, Statement, Cursor, Tokens, Querier,
}
use skit_x.Dbx.Table.{Table, newest_first}
use skit_x.Keyset.Page.{trim}

-- time.Time.Format and time.Parse with RFC3339Nano, and uuid.UUID.String.
pub record Formats : Type 0 where
  pub format_time : ℕ → Bytes
  pub parse_time : Bytes → Option ℕ
  pub uuid_text : ℕ → Bytes

-- writeWhere: " WHERE a AND b AND …", nothing for no predicate.
join_and : List String → String
join_and [] = ""
join_and (c ∷ []) = c
join_and (c ∷ d ∷ cs) = c <> " AND " <> join_and (d ∷ cs)

unfoldable pub where_text : List String → String
unfolding join_and
where_text [] = ""
where_text (c ∷ cs) = " WHERE " <> join_and (c ∷ cs)

-- The text of the buffer that a listing hands to dbx.
unfoldable pub sql : Statement → String
unfolding where_text
sql st = st.select <> where_text st.conditions <> st.suffix

abbrev pub separator : ℕ
separator = b'|'

abbrev pub keyset_condition : String
keyset_condition = "(created_at, id) < (:after_ts, CAST(:after_id AS uuid))"

abbrev pub malformed_key : Error
malformed_key = record { text = "malformed cursor key"; causes = failure 1 ∷ [] }

abbrev pub malformed_timestamp : Error
malformed_timestamp = record { text = "malformed cursor timestamp"; causes = failure 2 ∷ [] }

-- encodeWidgetCursor, encodeUserCursor, encodeProductCursor
unfoldable pub encode_cursor : Formats → ℕ → ℕ → Bytes
encode_cursor f created_at id = f.format_time created_at ++ separator ∷ f.uuid_text id

abbrev timestamp_of : Bytes → Option ℕ → Result Error (ℕ × Bytes)
timestamp_of id none = err malformed_timestamp
timestamp_of id (some ts) = ok (ts, id)

abbrev parts_of : Formats → Option (Bytes × Bytes) → Result Error (ℕ × Bytes)
parts_of f none = err malformed_key
parts_of f (some (ts, id)) = timestamp_of id (f.parse_time ts)

-- decodeWidgetCursor, decodeUserCursor, decodeProductCursor
unfoldable pub decode_cursor : Formats → Bytes → Result Error (ℕ × Bytes)
decode_cursor f key = parts_of f (cut separator key)

abbrev pub wrap_err {ℓ} : {A : Type ℓ} → String → Result Error A → Result Error A
wrap_err prefix (ok a) = ok a
wrap_err prefix (err e) = err (wrap prefix e)

-- `if key != "" { … }`: the keyset boundary as one more predicate.
unfoldable pub bound : Formats → Bytes → List String × Params → Result Error (List String × Params)
bound f [] part = ok part
bound f (b ∷ bs) part = do
  after ← decode_cursor f (b ∷ bs)
  ok (
    part.0 ++ keyset_condition ∷ [],
    ("after_id", bytes after.1) ∷ ("after_ts", time after.0) ∷ part.1,
  )

module _ {Row A : Type 0} (t : Table Row) (q : Querier Row) (f : Formats) (tokens : Tokens)
    (view : Row → A) where
  abbrev pub token_of : Row → String
  token_of r = tokens.encode (encode_cursor f (t.created_at r) (t.id r))

  -- QueryByCursor over the predicates and parameters that whereConditions returns.
  unfoldable pub query_by_cursor :
      (Params → List String × Params) → Cursor → q.Db → Result Error (List A × String)
  query_by_cursor where_conditions cur db = do
    key ← wrap_err "querybycursor" (tokens.key cur.token)
    part ←
        wrap_err "querybycursor"
          (bound f key (where_conditions (("limit", num (suc cur.limit)) ∷ [])))
    rows ← wrap_err "querybycursor" (
        q.named_query_list
          (record { select = t.select_sql; conditions = part.0; suffix = newest_first }) part.1 db)
    page ←
        trim (record { text = "index out of range"; causes = panicked ∷ [] }) cur.limit token_of
          rows
    ok (map view page.0, page.1)
