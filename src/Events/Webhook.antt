-- ===== src/Events/Webhook.antt =====
-- core/widgetwebhook/widgetwebhook.go: Notifier.handle.
use skit_x.Common.{
  ℕ, ◌<◌, String, ◌<>◌, ◌≡◌, refl, ap, [], ◌∷◌, Result, ok, err, Bytes, leb, arith, if◌then◌else◌,
  inl, inr, Bool-cases, ◌↔◌,
}
use skit_x.Dbx.{Error, wrap, failure}
use skit_x.Widget.{Created}

-- The request of the notifier: its method, its URL, its one header and its body.
pub record Request : Type 0 where
  pub method : String
  pub url : String
  pub content_type : String
  pub body : Bytes

-- The code of others: Decode of the event bus, json.Marshal, http.NewRequestWithContext (which
-- reads the URL), the client that sends the request, and the decimal text of a status. `W` is the
-- world outside, `D` the data of the bus.
pub record Client (D W : Type 0) : Type 0 where
  pub decode : D → Result Error Created
  pub marshal : Created → Result Error Bytes
  pub new_request : String → Result Error (Unit {0})
  pub send : Request → W → Result Error ℕ × W
  pub status_text : ℕ → String

module _ {D W : Type 0} (c : Client D W) (url : String) where
  abbrev pub rejected : ℕ → Error
  rejected status = record {
    text = "widgetwebhook: " <> url <> " returned " <> c.status_text status;
    causes = failure 7 ∷ [];
  }

  abbrev replied : Result Error ℕ × W → Result Error (Unit {0}) × W
  replied (err e, w) = (err (wrap ("widgetwebhook: post " <> url) e), w)
  replied (ok status, w) = (if leb 300 status then err (rejected status) else ok tt, w)

  abbrev request_of : Bytes → Request
  request_of body = record {
    method = "POST";
    url = url;
    content_type = "application/json";
    body = body;
  }

  abbrev requested : Bytes → Result Error (Unit {0}) → W → Result Error (Unit {0}) × W
  requested body (err e) w = (err (wrap "widgetwebhook: build request" e), w)
  requested body (ok _) w = replied (c.send (request_of body) w)

  abbrev marshalled : Result Error Bytes → W → Result Error (Unit {0}) × W
  marshalled (err e) w = (err (wrap "widgetwebhook: marshal" e), w)
  marshalled (ok body) w = requested body (c.new_request url) w

  abbrev decoded : Result Error Created → W → Result Error (Unit {0}) × W
  decoded (err e) w = (err e, w)
  decoded (ok ev) w = marshalled (c.marshal ev) w

  -- Notifier.handle
  unfoldable pub handle : D → W → Result Error (Unit {0}) × W
  handle d w = decoded (c.decode d) w

  -- The event of the data was posted to the URL, once, and the answer is below 300.
  pub record Delivered (d : D) (w w' : W) : Type 0 where
    pub event : Created
    pub body : Bytes
    pub status : ℕ
    pub read : c.decode d ≡ ok event
    pub written : c.marshal event ≡ ok body
    pub addressed : c.new_request url ≡ ok tt
    pub posted :
        c.send
          (record { method = "POST"; url = url; content_type = "application/json"; body = body })
          w
        ≡ (ok status, w')
    pub accepted : status < 300

  handle-Delivered : (d : D) (w w' : W) → handle d w ≡ (ok tt, w') → Delivered d w w'
  unfolding handle
  handle-Delivered d w w' h = from_event (c.decode d) refl h
    where
      from_reply :
          (ev : Created) (body : Bytes) (r : Result Error ℕ × W)
          → c.decode d ≡ ok ev
          → c.marshal ev ≡ ok body
          → c.new_request url ≡ ok tt
          → c.send (request_of body) w ≡ r
          → replied r ≡ (ok tt, w')
          → Delivered d w w'
      from_reply ev body (err e, v) rd wr ad p g = cc (ap (λ x. x.0) g)
      from_reply ev body (ok status, v) rd wr ad p g = elim (Bool-cases (leb 300 status)) [
        | inl over ↦ cc (ap (λ x. x.0) (rw over at g))
        | inr below ↦ record {
          event = ev;
          body = body;
          status = status;
          read = rd;
          written = wr;
          addressed = ad;
          posted = cc (p, ap (λ x. x.1) g);
          accepted = ground arith;
        }
      ]

      from_request :
          (ev : Created) (body : Bytes) (r : Result Error (Unit {0}))
          → c.decode d ≡ ok ev
          → c.marshal ev ≡ ok body
          → c.new_request url ≡ r
          → requested body r w ≡ (ok tt, w')
          → Delivered d w w'
      from_request ev body (err e) rd wr ad g = cc (ap (λ x. x.0) g)
      from_request ev body (ok tt) rd wr ad g =
          from_reply ev body (c.send (request_of body) w) rd wr ad refl g

      from_body :
          (ev : Created) (r : Result Error Bytes)
          → c.decode d ≡ ok ev
          → c.marshal ev ≡ r
          → marshalled r w ≡ (ok tt, w')
          → Delivered d w w'
      from_body ev (err e) rd wr g = cc (ap (λ x. x.0) g)
      from_body ev (ok body) rd wr g = from_request ev body (c.new_request url) rd wr refl g

      from_event :
          (r : Result Error Created) → c.decode d ≡ r → decoded r w ≡ (ok tt, w') → Delivered d w w'
      from_event (err e) rd g = cc (ap (λ x. x.0) g)
      from_event (ok ev) rd g = from_body ev (c.marshal ev) rd refl g

  Delivered-handle : (d : D) (w w' : W) → Delivered d w w' → handle d w ≡ (ok tt, w')
  unfolding handle
  Delivered-handle d w w' dv =
      rw (dv.read)
        (rw (dv.written) (rw (dv.addressed) (rw (dv.posted) (ground (arith, dv.accepted)))))

  -- The notifier succeeds exactly if the data reads as an event, the event has a JSON text, the URL
  -- makes a request, and the one POST of that text as JSON to the URL was answered with a status
  -- below 300.
  pub handle_iff_Delivered : (d : D) (w w' : W) → (handle d w ≡ (ok tt, w')) ↔ Delivered d w w'
  handle_iff_Delivered d w w' = (handle-Delivered d w w', Delivered-handle d w w')
