-- ===== src/Tests/KeeperMemory.antt =====
-- A keeper in memory, to run the two wrappers of idempotency on: the status of a key as a function.
use skit_x.Common.{
  ◌≡◌, ◌≢◌, Result, ok, err, if◌then◌else◌, Bytes, bytes_eq, bytes_eq_refl, bytes_eq-eq, inl, inr,
  Bool-cases,
}
use skit_x.Idempotency.Keeper.{
  Status, free, busy, down, stored, DoError, in_progress, unavailable, returned, Keeper, IsKeeper,
}

-- the status of every key
abbrev pub Statuses : Type 0 → Type 0
Statuses V = Bytes → Status V

module _ {V : Type 0} where
  abbrev pub put : Bytes → Status V → Statuses V → Statuses V
  put key s st j = if bytes_eq j key then s else st j

  pub put_same : (key : Bytes) (s : Status V) (st : Statuses V) → put key s st key ≡ s
  put_same key s st = rw (bytes_eq_refl key)

  pub put_other :
      (key : Bytes) (s : Status V) (st : Statuses V) (j : Bytes) → j ≢ key → put key s st j ≡ st j
  put_other key s st j ne = elim (Bool-cases (bytes_eq j key)) [
    | inl e ↦ absurd (ne (bytes_eq-eq j key e))
    | inr e ↦ rw e
  ]

module _ (V E W : Type 0) where
  abbrev settle : Bytes → Statuses V → Result E V × W → Result (DoError E) V × Statuses V × W
  settle key st (ok v, w) = (ok v, put key (stored v) st, w)
  settle key st (err e, w) = (err (returned e), put key free st, w)

  abbrev by_status :
      Bytes
      → (W → Result E V × W)
      → Status V
      → Statuses V
      → W
      → Result (DoError E) V × Statuses V × W
  by_status key fn free st w = settle key st (fn w)
  by_status key fn busy st w = (err in_progress, st, w)
  by_status key fn down st w = (err unavailable, st, w)
  by_status key fn (stored v) st w = (ok v, st, w)

  abbrev pub keeper : Keeper V E W
  keeper = record { Store = Statuses V; run = λ key fn st w. by_status key fn (st key) st w }

  unfoldable pub keeps : IsKeeper keeper
  keeps = record {
    status = λ st key. st key;
    run_ok = λ key fn v st w w' fresh ran. (
      put key (stored v) st,
      rw fresh (rw ran),
      put_same key (stored v) st,
      put_other key (stored v) st,
    );
    run_err = λ key fn e st w w' fresh ran.
        (put key free st, rw fresh (rw ran), put_same key free st, put_other key free st);
    replay = λ key fn v st w h. rw h;
    run_busy = λ key fn st w h. rw h;
    run_down = λ key fn st w h. rw h;
  }
