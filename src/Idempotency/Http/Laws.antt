-- ===== src/Idempotency/Http/Laws.antt =====
-- What a retry gets, and when the handler runs.
use skit_x.Common.{◌<◌, ◌≡◌, ◌≢◌, refl, sym, ap, ◌∙◌, false, ok, err, Bytes, if◌then◌else◌, arith}
use skit_x.Idempotency.Keys.{IsCaller, owner_of, http_key, http_key-injective}
use skit_x.Idempotency.Keeper.{Keeper, IsKeeper, free, stored}
use skit_x.Idempotency.Http.{
  other_error, document, failed, no_response, Response, nil, Stored, RecordError, Request, live,
  replayed, refused, passes, record_response, recording, http, finish, is_nil,
}

-- Every stored response has a status below 500, whatever the handler returned.
pub stored_below_500 : (resp : Response) (v : Stored) → record_response resp ≡ ok v → v.status < 500
unfolding record_response
stored_below_500 nil v h = ground arith
stored_below_500 (failed e) v h = cc
stored_below_500 no_response v h = cc
stored_below_500 (document status (err e)) v h = cc
stored_below_500 (document status (ok (body, content_type))) v h = ground arith

-- A handler that answers nil is stored, so a response that is not stored is live.
unstored-is_nil :
    (resp : Response) (e : RecordError) → record_response resp ≡ err e → is_nil resp ≡ false
unfolding record_response
unstored-is_nil nil e h = cc
unstored-is_nil (failed _) e h = refl
unstored-is_nil no_response e h = refl
unstored-is_nil (document _ _) e h = refl

module _ {W : Type 0} (k : Keeper Stored RecordError (W × Response)) (keeps : IsKeeper k)
    (req : Request) (keyed : passes req ≡ false) where
  open keeps use {status}

  abbrev key : Bytes
  key = http_key req.caller

  -- a request with a key goes to the keeper
  pub http_keyed :
      (next : W → Response × W) (st : k.Store) (w : W)
      → http k next req st w ≡ finish k req (k.run key (recording k next) st (w, nil))
  unfolding http
  http_keyed next st w = rw keyed

  -- A response that is stored is the answer, and the key holds it.
  pub http_stores :
      (next : W → Response × W) (st : k.Store) (w : W) (v : Stored)
      → status st key ≡ free
      → record_response (next w).0 ≡ ok v
      → (st' : k.Store) × (http k next req st w ≡ (replayed v, st', (next w).1))
        × (status st' key ≡ stored v)
        × ((j : Bytes) → j ≢ key → status st' j ≡ status st j)
  http_stores next st w v fresh kept =
      let (st', x, saved, others) =
        keeps.run_ok key (recording k next) v st (w, nil) ((next w).1, (next w).0) fresh
          (λ i. (kept i, ((next w).1, (next w).0))) in
      (st', http_keyed next st w ∙ ap (finish k req) x, saved, others)

  -- On a free key the handler runs once and its response, where it is one that is stored, is the
  -- answer. From then on a request with the same key gets that answer, whatever the world has
  -- become and whatever handler is behind it, and nothing runs: neither the store nor the world
  -- changes. No other key is touched.
  retry_replays :
      (next : W → Response × W) (st : k.Store) (w : W) (v : Stored)
      → status st key ≡ free
      → record_response (next w).0 ≡ ok v
      → (st' : k.Store) × (http k next req st w ≡ (replayed v, st', (next w).1))
        × ((next' : W → Response × W) (w' : W) → http k next' req st' w' ≡ (replayed v, st', w'))
        × ((j : Bytes) → j ≢ key → status st' j ≡ status st j)
  retry_replays next st w v fresh kept =
      let (st', x, saved, others) = http_stores next st w v fresh kept in
      (
        st',
        x,
        λ next' w'.
            http_keyed next' st' w'
            ∙ ap (finish k req) (keeps.replay key (recording k next') v st' (w', nil) saved),
        others,
      )

  -- On a free key, a response that is not stored goes to the caller as the handler gave it, and the
  -- key is free again, so a retry runs the handler again; no other key is touched.
  pub error_frees_key :
      (next : W → Response × W) (st : k.Store) (w : W) (e : RecordError)
      → status st key ≡ free
      → record_response (next w).0 ≡ err e
      → (st' : k.Store) × (http k next req st w ≡ (live (next w).0, st', (next w).1))
        × (status st' key ≡ free)
        × ((j : Bytes) → j ≢ key → status st' j ≡ status st j)
  error_frees_key next st w e fresh lost =
      let (st', x, freed, others) =
        keeps.run_err key (recording k next) e st (w, nil) ((next w).1, (next w).0) fresh
          (λ i. (lost i, ((next w).1, (next w).0))) in
      (
        st',
        http_keyed next st w
            ∙ ap (finish k req) x
            ∙ ap (λ b. (if b then refused other_error false else live (next w).0, st', (next w).1))
                (unstored-is_nil (next w).0 e lost),
        freed,
        others,
      )

-- Two callers with an Idempotency-Key and texts that are bytes, also the same one on the same route, whose owners differ
-- and whose keys are free: each handler runs, and each caller gets the response of its own, if
-- both responses are stored ones.
pub callers_do_not_share :
    {W : Type 0} (k : Keeper Stored RecordError (W × Response)) (keeps : IsKeeper k)
    (first second : Request)
    → passes first ≡ false
    → passes second ≡ false
    → IsCaller first.caller
    → IsCaller second.caller
    → owner_of first.caller.subject ≢ owner_of second.caller.subject
    → (next next' : W → Response × W) (st : k.Store) (w : W) (v v' : Stored)
    → keeps.status st (http_key first.caller) ≡ free
    → keeps.status st (http_key second.caller) ≡ free
    → record_response (next w).0 ≡ ok v
    → record_response (next' (next w).1).0 ≡ ok v'
    → (st' : k.Store) × (st'' : k.Store) × (http k next first st w ≡ (replayed v, st', (next w).1))
      × (http k next' second st' (next w).1 ≡ (replayed v', st'', (next' (next w).1).1))
callers_do_not_share k keeps first second keyed keyed' c d differ next next' st w v v' fresh fresh'
      kept kept' =
    let (st', x, _, others) = retry_replays k keeps first keyed next st w v fresh kept in
    let apart = λ (e : http_key second.caller ≡ http_key first.caller).
      differ (sym (http_key-injective second.caller first.caller d c e).1) in
    let (st'', y, _, _) =
      retry_replays k keeps second keyed' next' st' (next w).1 v' (others _ apart ∙ fresh') kept' in
    (st', st'', x, y)
