-- ===== src/Idempotency/Broker.antt =====
-- Handler of internal/app/idempotency/idempotency.go, for the messages of a broker.
pub mod Traffic
use skit_x.Common.{ℕ, ◌≡◌, ◌≢◌, refl, ap, ◌∙◌, [], ◌∷◌, Result, ok, err, Bytes}
use skit_x.Idempotency.Keys.{broker_key}
use skit_x.Idempotency.Keeper.{
  Keeper, IsKeeper, DoError, in_progress, unavailable, returned, free, busy, down,
}

-- broker.Action
pub data Action : Type 0 where
  ack requeue discard : Action

-- broker.Message; a zero time is 0, `payload` is its Data.
pub record Message : Type 0 where
  pub id : Bytes
  pub source : Bytes
  pub type : Bytes
  pub time : ℕ
  pub payload : Bytes

-- errNotAcked
pub data NotAcked : Type 0 where
  not_acked : NotAcked

module _ {W : Type 0} (k : Keeper (Unit {0}) NotAcked (W × Action)) where
  -- the function that Do runs, whose verdict stays in `verdict`
  abbrev pub verdict_result : Action × W → Result NotAcked (Unit {0}) × (W × Action)
  verdict_result (ack, w) = (ok tt, (w, ack))
  verdict_result (requeue, w) = (err not_acked, (w, requeue))
  verdict_result (discard, w) = (err not_acked, (w, discard))

  abbrev pub judging : (W → Action × W) → W × Action → Result NotAcked (Unit {0}) × (W × Action)
  judging h (w, _) = verdict_result (h w)

  abbrev pub conclude :
      Result (DoError NotAcked) (Unit {0}) × k.Store × (W × Action) → Action × k.Store × W
  conclude (ok _, st, (w, verdict)) = (ack, st, w)
  conclude (err (returned not_acked), st, (w, verdict)) = (verdict, st, w)
  conclude (err in_progress, st, (w, verdict)) = (requeue, st, w)
  conclude (err unavailable, st, (w, verdict)) = (requeue, st, w)

  abbrev straight : k.Store → Action × W → Action × k.Store × W
  straight st (a, w) = (a, st, w)

  unfoldable handled : Bytes → (W → Action × W) → Bytes → Bytes → k.Store → W → Action × k.Store × W
  handled group h [] source st w = straight st (h w)
  handled group h (c ∷ cs) source st w =
      conclude (k.run (broker_key group source (c ∷ cs)) (judging h) st (w, ack))

  -- Handler: a message without an id goes straight to `h`.
  unfoldable pub handler : Bytes → (W → Action × W) → Message → k.Store → W → Action × k.Store × W
  unfolding handled
  handler group h m st w = handled group h m.id m.source st w

-- A message without an id runs the handler and leaves the store.
pub handler_unnamed :
    {W : Type 0} (k : Keeper (Unit {0}) NotAcked (W × Action)) (group : Bytes) (m : Message)
    (h : W → Action × W) (st : k.Store) (w : W)
    → m.id ≡ []
    → handler k group h m st w ≡ ((h w).0, st, (h w).1)
unfolding handler handled
handler_unnamed k group m h st w e = rw e

module _ {W : Type 0} (k : Keeper (Unit {0}) NotAcked (W × Action)) (keeps : IsKeeper k)
    (group : Bytes) (m : Message) (named : m.id ≢ []) where
  open keeps use {status}

  abbrev key : Bytes
  key = broker_key group m.source m.id

  handled_named :
      (h : W → Action × W) (id : Bytes) (st : k.Store) (w : W)
      → id ≢ []
      → handled k group h id m.source st w
        ≡ conclude k (k.run (broker_key group m.source id) (judging k h) st (w, ack))
  unfolding handler
  handled_named h [] st w ne = absurd (ne refl)
  handled_named h (c ∷ cs) st w ne = refl

  pub handler_named :
      (h : W → Action × W) (st : k.Store) (w : W)
      → handler k group h m st w ≡ conclude k (k.run key (judging k h) st (w, ack))
  unfolding handler
  handler_named h st w = handled_named h m.id st w named

  not_acked_result :
      (a : Action) (w : W) → a ≢ ack → verdict_result k (a, w) ≡ (err not_acked, (w, a))
  not_acked_result ack w ne = absurd (ne refl)
  not_acked_result requeue w ne = refl
  not_acked_result discard w ne = refl

  -- A verdict other than Ack is the answer as it is, and the key is free again, so a redelivery
  -- runs the handler again.
  pub verdict_frees_key :
      (h : W → Action × W) (st : k.Store) (w w' : W) (a : Action)
      → status st key ≡ free
      → a ≢ ack
      → h w ≡ (a, w')
      → (st' : k.Store) × (handler k group h m st w ≡ (a, st', w')) × (status st' key ≡ free)
  verdict_frees_key h st w w' a fresh ne verdict =
      let (st', x, freed, _) =
        keeps.run_err key (judging k h) not_acked st (w, ack) (w', a) fresh
          (ap (verdict_result k) verdict ∙ not_acked_result a w' ne) in
      (st', handler_named h st w ∙ ap (conclude k) x, freed)

  -- A store that is busy with the message or does not answer requeues it and runs nothing.
  pub busy_requeues :
      (h : W → Action × W) (st : k.Store) (w : W)
      → (status st key ≡ busy → handler k group h m st w ≡ (requeue, st, w))
        × (status st key ≡ down → handler k group h m st w ≡ (requeue, st, w))
  busy_requeues h st w = (
    λ s. handler_named h st w ∙ ap (conclude k) (keeps.run_busy key (judging k h) st (w, ack) s),
    λ s. handler_named h st w ∙ ap (conclude k) (keeps.run_down key (judging k h) st (w, ack) s),
  )
