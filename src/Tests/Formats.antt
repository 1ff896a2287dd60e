-- ===== src/Tests/Formats.antt =====
-- Formats of times and ids, and tokens, to run the listings on: a time is one byte from 200 up, an
-- id is one byte, a token writes each byte in unary.
use Prim.Native.Char.{code}
use skit_x.Common.{
  ℕ, zero, suc, ◌+◌, ◌-◌, String, ◌≡◌, ◌≢◌, refl, ap, true, false, Option, none, some, ◌∙◌, [], ◌∷◌,
  Result, ok, err, arith, Bytes, ◌==◌, leb, if◌then◌else◌,
}
use skit_x.Dbx.{Error, failure, Tokens}
use skit_x.Listing.{Formats}
use skit_x.Listing.Codec.{IsFormats}
use skit_x.Listing.Pages.{IsTokens}

abbrev parse : Bytes → Option ℕ
parse (b ∷ []) = if leb 200 b then some (b - 200) else none
parse _ = none

unfoldable pub formats : Formats
formats = record { format_time = λ t. (200 + t) ∷ []; parse_time = parse; uuid_text = λ i. i ∷ [] }

pub formats_lawful : IsFormats formats
unfolding formats
formats_lawful = record {
  parse-format = λ t before. ground arith;
  format-Lacks = λ t. (ground arith, tt);
}

unfoldable pub unary : ℕ → String → String
unary zero rest = String.◌∷◌ "b" rest
unary (suc n) rest = String.◌∷◌ "a" (unary n rest)

unfoldable pub encode : Bytes → String
encode [] = "z"
encode (b ∷ bs) = unary b (encode bs)

abbrev malformed : Error
malformed = record { text = "malformed cursor token"; causes = failure 8 ∷ [] }

abbrev with_byte : ℕ → Result Error Bytes → Result Error Bytes
with_byte n (err e) = err e
with_byte n (ok bs) = ok (n ∷ bs)

-- the byte that is being read, and the text
unfoldable pub decode : ℕ → String → Result Error Bytes
decode n String.[] = err malformed
decode n (String.◌∷◌ c s) = elim (code c == b'a') [
  | true ↦ decode (suc n) s
  | false ↦ elim (code c == b'b') [ true ↦ with_byte n (decode 0 s) | false ↦ ok [] ]
]

decode-unary : (n m : ℕ) (s : String) → decode m (unary n s) ≡ with_byte (m + n) (decode 0 s)
unfolding decode unary
decode-unary zero m s = ap (λ k. with_byte k (decode 0 s)) (omega arith)
decode-unary (suc n) m s =
    decode-unary n (suc m) s ∙ ap (λ k. with_byte k (decode 0 s)) (omega arith)

decode-encode : (bs : Bytes) → decode 0 (encode bs) ≡ ok bs
unfolding encode decode
decode-encode [] = refl
decode-encode (b ∷ bs) =
    decode-unary b 0 (encode bs) ∙ rw (decode-encode bs) (ap (λ n. ok (n ∷ bs)) (omega arith))

abbrev pub key_of : String → Result Error Bytes
key_of String.[] = ok []
key_of (String.◌∷◌ c s) = decode 0 (String.◌∷◌ c s)

unfoldable pub tokens : Tokens
tokens = record { key = key_of; encode = encode }

unary-ne_empty : (n : ℕ) (s : String) → unary n s ≢ ""
unfolding unary
unary-ne_empty zero s = λ e. cc e
unary-ne_empty (suc n) s = λ e. cc e

encode-ne_empty : (bs : Bytes) → encode bs ≢ ""
unfolding encode
encode-ne_empty [] = λ e. cc e
encode-ne_empty (b ∷ bs) = unary-ne_empty b (encode bs)

key_of-ne_empty : (s : String) → s ≢ "" → key_of s ≡ decode 0 s
key_of-ne_empty String.[] ne = absurd (ne refl)
key_of-ne_empty (String.◌∷◌ c s) ne = refl

pub tokens_lawful : IsTokens tokens
unfolding tokens
tokens_lawful = record {
  key-empty = refl;
  key-encode = λ k. key_of-ne_empty (encode k) (encode-ne_empty k) ∙ decode-encode k;
  encode-ne_empty = encode-ne_empty;
}
