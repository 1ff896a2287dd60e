-- ===== src/Tests/Requests.antt =====
-- The two wrappers of idempotency and their keys at concrete requests and messages.
use skit_x.Common.{
  ℕ, ◌+◌, ◌≡◌, ◌≢◌, str_eq, refl, true, false, none, some, List, [], ◌∷◌, ok, err, arith, Bytes,
  codes, ◌<◌,
}
use skit_x.Idempotency.Keys.{
  Caller, IsCaller, AllBytes, owner_of, http_key, http_key-injective, broker_key-injective,
}
use skit_x.Idempotency.Keeper.{Keeper, free}
use skit_x.Idempotency.Http.{
  Response, failed, document, Stored, RecordError, handler_error, Request, passes, http, live,
  replayed, record_response,
}
use skit_x.Idempotency.Http.Laws.{stored_below_500, error_frees_key, callers_do_not_share}
use skit_x.Idempotency.Http.Traffic.{http_all, http-http_all}
use skit_x.Idempotency.Broker.{Action, ack, discard, Message, NotAcked, handler}
use skit_x.Idempotency.Broker.Traffic.{handle_all, redelivery_acked}
use skit_x.Errs.{AppError, newf, not_found}
use skit_x.Tests.KeeperMemory.{Statuses, keeper, keeps}

abbrev ada : Caller
ada = record {
  pattern = codes "POST /v1/widgets";
  header = codes "k1";
  subject = some (codes "a/b");
}

abbrev anyone : Caller
anyone = record { pattern = codes "POST /v1/widgets"; header = codes "k1"; subject = none }

ada-IsCaller : IsCaller ada
ada-IsCaller = record { pattern = omega arith; header = omega arith; subject = omega arith }

anyone-IsCaller : IsCaller anyone
anyone-IsCaller = record { pattern = omega arith; header = omega arith; subject = omega arith }

message-AllBytes : AllBytes (codes "widgets" ∷ codes "webhook" ∷ codes "m1" ∷ [])
message-AllBytes = omega arith

http_key-injective_example :
    (ada.pattern ≡ ada.pattern)
    × (owner_of ada.subject ≡ owner_of ada.subject)
    × (ada.header ≡ ada.header)
http_key-injective_example = http_key-injective ada ada ada-IsCaller ada-IsCaller refl

broker_key-injective_example :
    (codes "widgets" ≡ codes "widgets")
    × (codes "webhook" ≡ codes "webhook")
    × (codes "m1" ≡ codes "m1")
broker_key-injective_example =
    broker_key-injective (codes "widgets") (codes "webhook") (codes "m1") (codes "widgets")
      (codes "webhook") (codes "m1") message-AllBytes message-AllBytes refl

abbrev created : Response
created = document (some 201) (ok (codes "{}", codes "application/json"))

abbrev kept : Stored
kept = record { status = 201; content_type = codes "application/json"; body = codes "{}" }

created_recorded : record_response created ≡ ok kept
unfolding record_response
created_recorded = refl

stored_below_500_example : 201 < 500
stored_below_500_example = stored_below_500 created kept created_recorded

-- The world is the number of calls of the handler.
abbrev create_one : ℕ → Response × ℕ
create_one n = (created, n + 1)

abbrev missing : AppError
missing = newf not_found "widget %s not found" []

abbrev find_none : ℕ → Response × ℕ
find_none n = (failed missing, n + 1)

abbrev posted : Caller → Request
posted c = record { method = "POST"; caller = c; writer = true }

posted_keyed : (c : Caller) → c.header ≡ codes "k1" → passes (posted c) ≡ false
unfolding str_eq
posted_keyed c h = rw h

abbrev responses : Statuses Stored
responses key = free

abbrev responder : Keeper Stored RecordError (ℕ × Response)
responder = keeper Stored RecordError (ℕ × Response)

http-http_all_example :
    (st' : Statuses Stored) × (http responder create_one (posted ada) responses 0
      ≡ (replayed kept, st', 1))
    × ((traffic : List (Request × (ℕ → Response × ℕ))) (next' : ℕ → Response × ℕ)
        → let now = http_all responder traffic st' 1 in
          http responder next' (posted ada) now.0 now.1 ≡ (replayed kept, now.0, now.1))
unfolding keeps
http-http_all_example =
    http-http_all responder (keeps Stored RecordError (ℕ × Response)) (posted ada) create_one
      responses 0 kept (posted_keyed ada refl) refl created_recorded

failed_lost : record_response (failed missing) ≡ err (handler_error missing)
unfolding record_response
failed_lost = refl

error_frees_key_example :
    (st' : Statuses Stored) × (http responder find_none (posted ada) responses 0
      ≡ (live (failed missing), st', 1))
    × (st' (http_key ada) ≡ free)
    × ((j : Bytes) → j ≢ http_key ada → st' j ≡ responses j)
unfolding keeps
error_frees_key_example =
    error_frees_key responder (keeps Stored RecordError (ℕ × Response)) (posted ada)
      (posted_keyed ada refl) find_none responses 0 (handler_error missing) refl failed_lost

-- the other caller has a handler of its own
abbrev another : Response
another = document (some 202) (ok (codes "[]", codes "application/json"))

abbrev other : Stored
other = record { status = 202; content_type = codes "application/json"; body = codes "[]" }

another_recorded : record_response another ≡ ok other
unfolding record_response
another_recorded = refl

abbrev create_another : ℕ → Response × ℕ
create_another n = (another, n + 2)

callers_do_not_share_example :
    (st' : Statuses Stored) × (st'' : Statuses Stored) × (http responder create_one
        (posted ada)
        responses
        0
      ≡ (replayed kept, st', 1))
    × (http responder create_another (posted anyone) st' 1 ≡ (replayed other, st'', 3))
unfolding keeps
callers_do_not_share_example =
    callers_do_not_share responder (keeps Stored RecordError (ℕ × Response)) (posted ada)
      (posted anyone) (posted_keyed ada refl) (posted_keyed anyone refl) ada-IsCaller
      anyone-IsCaller (λ e. cc e) create_one create_another responses 0 kept other refl refl
      created_recorded another_recorded

abbrev subscriber : Keeper (Unit {0}) NotAcked (ℕ × Action)
subscriber = keeper (Unit {0}) NotAcked (ℕ × Action)

abbrev delivery : Message
delivery = record {
  id = codes "m1";
  source = codes "webhook";
  type = codes "widget.created";
  time = 5;
  payload = codes "{}";
}

abbrev seen : Statuses (Unit {0})
seen key = free

abbrev acks : ℕ → Action × ℕ
acks n = (ack, n + 1)

abbrev rejects : ℕ → Action × ℕ
rejects n = (discard, n + 1)

named : delivery.id ≢ []
named = λ e. cc e

redelivery_acked_example :
    (st' : Statuses (Unit {0})) × (handler subscriber (codes "widgets") acks delivery seen 0
      ≡ (ack, st', 1))
    × ((traffic : List (Bytes × (ℕ → Action × ℕ) × Message)) (h' : ℕ → Action × ℕ) (x : ℕ)
        → let later = (handle_all subscriber traffic st' 1).0 in
          handler subscriber (codes "widgets") h' delivery later x ≡ (ack, later, x))
unfolding keeps
redelivery_acked_example =
    redelivery_acked subscriber (keeps (Unit {0}) NotAcked (ℕ × Action)) (codes "widgets") delivery
      acks seen 0 1 named refl refl
