-- ===== src/Idempotency/Broker/Traffic.antt =====
-- A message that was acked, under any later messages (Handler of
-- internal/app/idempotency/idempotency.go).
use mathlib.Core.Path.{subst}
use skit_x.Common.{◌≡◌, ◌≢◌, refl, sym, ap, ◌∙◌, List, [], ◌∷◌, err, Bytes, Bytes-cases, inl, inr}
use skit_x.Idempotency.Broker.{
  Action, ack, requeue, discard, Message, NotAcked, not_acked, judging, conclude, handler,
  handler_named, handler_unnamed, verdict_result,
}
use skit_x.Idempotency.Keeper.{Keeper, IsKeeper, Status, free, busy, down, stored}
use skit_x.Idempotency.Keys.{broker_key}

module _ {W : Type 0} (k : Keeper (Unit {0}) NotAcked (W × Action)) where
  -- Messages one after another, each with the group and the handler that it comes to.
  unfoldable pub handle_all : List (Bytes × (W → Action × W) × Message) → k.Store → W → k.Store × W
  handle_all [] st w = (st, w)
  handle_all ((group, h, m) ∷ ms) st w =
      let out = handler k group h m st w in handle_all ms out.1 out.2

  module _ (keeps : IsKeeper k) where
    open keeps use {status}

    -- the store of an outcome
    abbrev Holds : Bytes → Action × k.Store × W → Type 0
    Holds j (a, st, w) = status st j ≡ stored tt

    module _ (group : Bytes) (m : Message) (h : W → Action × W) (st : k.Store) (w : W) (j : Bytes)
        (held : status st j ≡ stored tt) where
      abbrev key : Bytes
      key = broker_key group m.source m.id

      -- a key that is free is not the one that is held
      other_kept :
          (st' : k.Store)
          → status st key ≡ free
          → ((i : Bytes) → i ≢ key → status st' i ≡ status st i)
          → status st' j ≡ stored tt
      other_kept st' fresh others = elim (Bytes-cases j key) [
        | inl same ↦ cc (same, fresh, held)
        | inr differ ↦ others j differ ∙ held
      ]

      -- the run of a handler that did not ack
      run_lost :
          (a : Action) (w' : W)
          → verdict_result k (h w) ≡ (err not_acked, (w', a))
          → status st key ≡ free
          → Holds j (conclude k (k.run key (judging k h) st (w, ack)))
      run_lost a w' ran fresh =
          let (st', x, _, others) =
            keeps.run_err key (judging k h) not_acked st (w, ack) (w', a) fresh ran in
          subst (λ o. Holds j (conclude k o)) (sym x) (other_kept st' fresh others)

      by_verdict :
          (out : Action × W)
          → h w ≡ out
          → status st key ≡ free
          → Holds j (conclude k (k.run key (judging k h) st (w, ack)))
      by_verdict (ack, w') ran fresh =
          let (st', x, _, others) =
            keeps.run_ok key (judging k h) tt st (w, ack) (w', ack) fresh
              (ap (verdict_result k) ran) in
          subst (λ o. Holds j (conclude k o)) (sym x) (other_kept st' fresh others)
      by_verdict (requeue, w') ran fresh = run_lost requeue w' (ap (verdict_result k) ran) fresh
      by_verdict (discard, w') ran fresh = run_lost discard w' (ap (verdict_result k) ran) fresh

      by_status :
          (s : Status (Unit {0}))
          → status st key ≡ s
          → Holds j (conclude k (k.run key (judging k h) st (w, ack)))
      by_status free e = by_verdict (h w) refl e
      by_status busy e =
          subst (λ o. Holds j (conclude k o)) (sym (keeps.run_busy key (judging k h) st (w, ack) e))
            held
      by_status down e =
          subst (λ o. Holds j (conclude k o)) (sym (keeps.run_down key (judging k h) st (w, ack) e))
            held
      by_status (stored tt) e =
          subst (λ o. Holds j (conclude k o))
            (sym (keeps.replay key (judging k h) tt st (w, ack) e)) held

      handler-Holds : (id : Bytes) → m.id ≡ id → Holds j (handler k group h m st w)
      handler-Holds [] e = subst (Holds j) (sym (handler_unnamed k group m h st w e)) held
      handler-Holds (c ∷ cs) e =
          subst (Holds j) (sym (handler_named k keeps group m (λ n. cc (n, e)) h st w))
            (by_status (status st key) refl)

    handle_all_keeps :
        (ms : List (Bytes × (W → Action × W) × Message)) (st : k.Store) (w : W) (j : Bytes)
        → status st j ≡ stored tt
        → status (handle_all ms st w).0 j ≡ stored tt
    unfolding handle_all
    handle_all_keeps [] st w j held = held
    handle_all_keeps ((group, h, m) ∷ ms) st w j held =
        let out = handler k group h m st w in
        handle_all_keeps ms out.1 out.2 j (handler-Holds group m h st w j held m.id refl)

    -- A message with an id that its handler acks, on a free key, is acked. From then on, whatever messages
    -- came in between, to whatever groups and handlers and with whatever verdicts, its redelivery
    -- to the group is acked without running a handler: neither the store nor the world changes,
    -- whatever the world has become. The store is assumed to keep its values.
    pub redelivery_acked :
        (group : Bytes) (m : Message) (h : W → Action × W) (st : k.Store) (w w' : W)
        → m.id ≢ []
        → status st (broker_key group m.source m.id) ≡ free
        → h w ≡ (ack, w')
        → (st' : k.Store) × (handler k group h m st w ≡ (ack, st', w'))
          × ((traffic : List (Bytes × (W → Action × W) × Message)) (h' : W → Action × W) (x : W)
              → let later = (handle_all traffic st' w').0 in
                handler k group h' m later x ≡ (ack, later, x))
    redelivery_acked group m h st w w' named fresh acked =
        let key = broker_key group m.source m.id in
        let (st', x, saved, _) =
          keeps.run_ok key (judging k h) tt st (w, ack) (w', ack) fresh
            (ap (verdict_result k) acked) in
        (
          st',
          handler_named k keeps group m named h st w ∙ ap (conclude k) x,
          λ traffic h' y.
              let later = (handle_all traffic st' w').0 in
              handler_named k keeps group m named h' later y
              ∙ ap (conclude k) (
                  keeps.replay key (judging k h') tt later (y, ack)
                    (handle_all_keeps traffic st' w' key saved)),
        )
