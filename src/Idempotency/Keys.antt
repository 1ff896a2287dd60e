-- ===== src/Idempotency/Keys.antt =====
-- The keys of the two wrappers, and that no two callers share one.
use mathlib.Core.Path.{ap₂}
use mathlib.Core.Option.{some-injective}
use skit_x.Common.{
  ◌≡◌, ◌≢◌, refl, sym, ap, ◌∙◌, Option, none, some, List, [], ◌∷◌, ◌++◌, arith, Bytes, codes, All,
  Lacks, cut, cut-append,
}
use skit_x.Idempotency.Escape.{
  path_escape, join, slash, AreBytes, path_escape-Lacks, path_escape-injective,
}

-- What the keys are made of: the route and the header, and the subject of the principal, `none`
-- without a principal.
pub record Caller : Type 0 where
  pub pattern : Bytes
  pub header : Bytes
  pub subject : Option Bytes

abbrev pub anonymous : Bytes
anonymous = codes "anonymous"

-- A principal with an empty subject is anonymous too.
abbrev pub owner_of : Option Bytes → Bytes
owner_of none = anonymous
owner_of (some []) = anonymous
owner_of (some (c ∷ cs)) = c ∷ cs

unfoldable pub http_key : Caller → Bytes
unfolding join
http_key c = join (codes "http" ∷ c.pattern ∷ owner_of c.subject ∷ c.header ∷ [])

unfoldable pub broker_key : Bytes → Bytes → Bytes → Bytes
unfolding join
broker_key group source id = join (codes "broker" ∷ group ∷ source ∷ id ∷ [])

cut-Lacks : (s : Bytes) → Lacks slash s → cut slash s ≡ none
unfolding cut
cut-Lacks [] h = refl
cut-Lacks (c ∷ cs) (h, hs) = rw h (rw (cut-Lacks cs hs))

cut_escaped :
    (p rest : Bytes) → cut slash (path_escape p ++ slash ∷ rest) ≡ some (path_escape p, rest)
cut_escaped p rest = cut-append slash (path_escape p) rest (path_escape-Lacks p)

abbrev pub AllBytes : List Bytes → Type 0
AllBytes = All AreBytes

-- One part and the rest of a joined text, read back.
join-cons-injective :
    (p r : Bytes) (ps rs : Bytes)
    → AreBytes p
    → AreBytes r
    → path_escape p ++ slash ∷ ps ≡ path_escape r ++ slash ∷ rs
    → (p ≡ r) × (ps ≡ rs)
join-cons-injective p r ps rs h k e =
    let same = some-injective _ _ (sym (cut_escaped p ps) ∙ ap (cut slash) e ∙ cut_escaped r rs) in
    (path_escape-injective p r h k (ap (λ x. x.0) same), ap (λ x. x.1) same)

-- Joined texts differ where the parts do, or their number.
pub join-injective :
    (ps rs : List Bytes)
    → ps ≢ []
    → rs ≢ []
    → AllBytes ps
    → AllBytes rs
    → join ps ≡ join rs
    → ps ≡ rs
unfolding join
join-injective [] rs ne _ h k e = absurd (ne refl)
join-injective (p ∷ ps) [] _ ne h k e = absurd (ne refl)
join-injective (p ∷ []) (r ∷ []) _ _ (h, _) (k, _) e =
    ap (λ x. x ∷ []) (path_escape-injective p r h k e)
join-injective (p ∷ []) (r ∷ r' ∷ rs) _ _ h k e =
    cc (sym (cut-Lacks (path_escape p) (path_escape-Lacks p)) ∙ ap (cut slash) e ∙ cut_escaped r _)
join-injective (p ∷ p' ∷ ps) (r ∷ []) _ _ h k e =
    cc (sym (cut_escaped p _) ∙ ap (cut slash) e ∙ cut-Lacks (path_escape r) (path_escape-Lacks r))
join-injective (p ∷ p' ∷ ps) (r ∷ r' ∷ rs) _ _ (h, hs) (k, ks) e =
    let (same, rest) = join-cons-injective p r (join (p' ∷ ps)) (join (r' ∷ rs)) h k e in
    ap₂ (λ x xs. x ∷ xs) same
      (join-injective (p' ∷ ps) (r' ∷ rs) (λ n. cc n) (λ n. cc n) hs ks rest)

join-cons :
    (p r : Bytes) (ps rs : List Bytes)
    → AllBytes (p ∷ ps)
    → AllBytes (r ∷ rs)
    → join (p ∷ ps) ≡ join (r ∷ rs)
    → p ∷ ps ≡ r ∷ rs
join-cons p r ps rs h k e = join-injective (p ∷ ps) (r ∷ rs) (λ n. cc n) (λ n. cc n) h k e

-- The texts of a request are bytes.
pub record IsCaller (c : Caller) : Type 0 where
  pub pattern : AreBytes c.pattern
  pub header : AreBytes c.header
  pub subject : AreBytes (owner_of c.subject)

http : AreBytes (codes "http")
http = omega arith

broker : AreBytes (codes "broker")
broker = omega arith

abbrev head : Bytes → List Bytes → Bytes
head d [] = d
head d (p ∷ ps) = p

abbrev rest : List Bytes → List Bytes
rest [] = []
rest (p ∷ ps) = ps

abbrev http_parts : Caller → List Bytes
http_parts c = c.pattern ∷ owner_of c.subject ∷ c.header ∷ []

-- Two requests whose texts are bytes have the same key only if their route, their owner and their
-- header are the same: none of the three can be crafted to look like a part of another.
pub http_key-injective :
    (c d : Caller)
    → IsCaller c
    → IsCaller d
    → http_key c ≡ http_key d
    → (c.pattern ≡ d.pattern) × (owner_of c.subject ≡ owner_of d.subject) × (c.header ≡ d.header)
unfolding http_key
http_key-injective c d h k e =
    let same =
      join-cons (codes "http") (codes "http") (http_parts c) (http_parts d)
        (http, (h.pattern, (h.subject, (h.header, tt))))
        (http, (k.pattern, (k.subject, (k.header, tt)))) e in
    let tail = ap rest same in
    (ap (head []) tail, ap (λ ps. head [] (rest ps)) tail, ap (λ ps. head [] (rest (rest ps))) tail)

-- Two messages whose texts are bytes have the same key only if their group, their source and their
-- id are the same.
pub broker_key-injective :
    (group source id group' source' id' : Bytes)
    → AllBytes (group ∷ source ∷ id ∷ [])
    → AllBytes (group' ∷ source' ∷ id' ∷ [])
    → broker_key group source id ≡ broker_key group' source' id'
    → (group ≡ group') × (source ≡ source') × (id ≡ id')
unfolding broker_key
broker_key-injective group source id group' source' id' h k e =
    let same =
      join-cons (codes "broker") (codes "broker") (group ∷ source ∷ id ∷ [])
        (group' ∷ source' ∷ id' ∷ []) (broker, h) (broker, k) e in
    let tail = ap rest same in
    (ap (head []) tail, ap (λ ps. head [] (rest ps)) tail, ap (λ ps. head [] (rest (rest ps))) tail)

-- Where all texts are bytes, a request never has the key of a message, so the two wrappers can
-- share one keeper.
pub http_key-ne-broker_key :
    (c : Caller) (group source id : Bytes)
    → IsCaller c
    → AllBytes (group ∷ source ∷ id ∷ [])
    → http_key c ≢ broker_key group source id
unfolding http_key broker_key
http_key-ne-broker_key c group source id h k e =
    let same =
      join-cons (codes "http") (codes "broker") (http_parts c) (group ∷ source ∷ id ∷ [])
        (http, (h.pattern, (h.subject, (h.header, tt)))) (broker, k) e in
    cc (ap (head []) same)
