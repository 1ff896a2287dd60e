-- ===== src/Idempotency/Http/Traffic.antt =====
-- A response that HTTP has stored, under any traffic (internal/app/idempotency/idempotency.go).
use mathlib.Core.Path.{subst}
use skit_x.Common.{
  ◌≡◌, ◌≢◌, refl, sym, ap, ◌∙◌, true, false, List, [], ◌∷◌, Result, ok, err, Bytes, Bytes-cases,
  Bool-cases, inl, inr,
}
use skit_x.Idempotency.Http.{
  Answer, Response, Stored, RecordError, Request, replayed, passes, record_response, recording,
  http, finish, nil,
}
use skit_x.Idempotency.Http.Laws.{http_keyed, http_stores, error_frees_key}
use skit_x.Idempotency.Keeper.{Keeper, IsKeeper, Status, free, busy, down, stored}
use skit_x.Idempotency.Keys.{http_key}

module _ {W : Type 0} (k : Keeper Stored RecordError (W × Response)) where
  -- Requests one after another, each with the handler behind it.
  unfoldable pub http_all : List (Request × (W → Response × W)) → k.Store → W → k.Store × W
  http_all [] st w = (st, w)
  http_all ((req, next) ∷ rs) st w = let out = http k next req st w in http_all rs out.1 out.2

  module _ (keeps : IsKeeper k) where
    open keeps use {status}

    -- the store of an outcome
    abbrev Holds : Bytes → Stored → Answer × k.Store × W → Type 0
    Holds j v (a, st, w) = status st j ≡ stored v

    passed_on :
        (req : Request) (next : W → Response × W) (st : k.Store) (w : W) (j : Bytes) (v : Stored)
        → passes req ≡ true
        → status st j ≡ stored v
        → Holds j v (http k next req st w)
    unfolding http
    passed_on req next st w j v open' h = rw open' h

    module _ (req : Request) (keyed : passes req ≡ false) (next : W → Response × W) (st : k.Store)
        (w : W) (j : Bytes) (v : Stored) (held : status st j ≡ stored v) where
      abbrev key : Bytes
      key = http_key req.caller

      -- a key that is free is not the one that is held
      other_kept :
          (st' : k.Store)
          → status st key ≡ free
          → ((i : Bytes) → i ≢ key → status st' i ≡ status st i)
          → status st' j ≡ stored v
      other_kept st' fresh others = elim (Bytes-cases j key) [
        | inl same ↦ cc (same, fresh, held)
        | inr differ ↦ others j differ ∙ held
      ]

      by_record :
          (r : Result RecordError Stored)
          → record_response (next w).0 ≡ r
          → status st key ≡ free
          → Holds j v (http k next req st w)
      by_record (ok u) kept fresh =
          let (st', x, _, others) = http_stores k keeps req keyed next st w u fresh kept in
          subst (Holds j v) (sym x) (other_kept st' fresh others)
      by_record (err e) lost fresh =
          let (st', x, _, others) = error_frees_key k keeps req keyed next st w e fresh lost in
          subst (Holds j v) (sym x) (other_kept st' fresh others)

      by_status : (s : Status Stored) → status st key ≡ s → Holds j v (http k next req st w)
      by_status free h = by_record (record_response (next w).0) refl h
      by_status busy h =
          subst (Holds j v)
            (sym (
              http_keyed k keeps req keyed next st w
              ∙ ap (finish k req) (keeps.run_busy key (recording k next) st (w, nil) h)))
            held
      by_status down h =
          subst (Holds j v)
            (sym (
              http_keyed k keeps req keyed next st w
              ∙ ap (finish k req) (keeps.run_down key (recording k next) st (w, nil) h)))
            held
      by_status (stored u) h =
          subst (Holds j v)
            (sym (
              http_keyed k keeps req keyed next st w
              ∙ ap (finish k req) (keeps.replay key (recording k next) u st (w, nil) h)))
            held

    http-Holds :
        (req : Request) (next : W → Response × W) (st : k.Store) (w : W) (j : Bytes) (v : Stored)
        → status st j ≡ stored v
        → Holds j v (http k next req st w)
    http-Holds req next st w j v held = elim (Bool-cases (passes req)) [
      | inl open' ↦ passed_on req next st w j v open' held
      | inr keyed ↦ by_status req keyed next st w j v held _ refl
    ]

    http_all_keeps :
        (rs : List (Request × (W → Response × W))) (st : k.Store) (w : W) (j : Bytes) (v : Stored)
        → status st j ≡ stored v
        → status (http_all rs st w).0 j ≡ stored v
    unfolding http_all
    http_all_keeps [] st w j v held = held
    http_all_keeps ((req, next) ∷ rs) st w j v held =
        http_all_keeps rs (http k next req st w).1 (http k next req st w).2 j v
          (http-Holds req next st w j v held)

    -- On a free key the handler runs once and its response, where it is one that is stored, is the
    -- answer. From then on, whatever requests came in between, with whatever keys, handlers and
    -- answers, a request with the same key gets that answer, and nothing runs: neither the store
    -- nor the world changes. The store is assumed to keep its values.
    pub http-http_all :
        (req : Request) (next : W → Response × W) (st : k.Store) (w : W) (v : Stored)
        → passes req ≡ false
        → status st (http_key req.caller) ≡ free
        → record_response (next w).0 ≡ ok v
        → (st' : k.Store) × (http k next req st w ≡ (replayed v, st', (next w).1))
          × ((traffic : List (Request × (W → Response × W))) (next' : W → Response × W)
              → let now = http_all traffic st' (next w).1 in
                http k next' req now.0 now.1 ≡ (replayed v, now.0, now.1))
    http-http_all req next st w v keyed fresh kept =
        let (st', x, saved, others) = http_stores k keeps req keyed next st w v fresh kept in
        (
          st',
          x,
          λ traffic next'.
              let now = http_all traffic st' (next w).1 in
              http_keyed k keeps req keyed next' now.0 now.1
              ∙ ap (finish k req) (
                  keeps.replay (http_key req.caller) (recording k next') v now.0 (now.1, nil)
                    (http_all_keeps traffic st' (next w).1 (http_key req.caller) v saved)),
        )
