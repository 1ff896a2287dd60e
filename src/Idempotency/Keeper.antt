-- ===== src/Idempotency/Keeper.antt =====
-- dedup.Keeper, a parameter: Do runs a function once per key and stores what it returns.
use skit_x.Common.{◌≡◌, ◌≢◌, Result, ok, err, Bytes}

-- What the store of a keeper has for a key: nothing, a call that runs, a stored value, or no
-- answer.
pub data Status {ℓ} (V : Type ℓ) : Type ℓ where
  free busy down : Status V
  stored : V → Status V

-- The error of Do: one of the keeper's, or the one that the function returned.
pub data DoError {ℓ} (E : Type ℓ) : Type ℓ where
  in_progress unavailable : DoError E
  returned : E → DoError E

-- `W` is the state that the function works on. A run returns the store and that state too.
pub record Keeper (V E W : Type 0) : Type 1 where
  pub Store : Type 0
  pub run : Bytes → (W → Result E V × W) → Store → W → Result (DoError E) V × Store × W

-- The documented behaviour of Do.
module _ {V E W : Type 0} (k : Keeper V E W) where
  pub record IsKeeper : Type 0 where
    pub status : k.Store → Bytes → Status V
    -- a free key: the function runs, its value is stored, its error frees the key again
    pub run_ok :
        (key : Bytes) (fn : W → Result E V × W) (v : V) (st : k.Store) (w w' : W)
        → status st key ≡ free
        → fn w ≡ (ok v, w')
        → (st' : k.Store) × (k.run key fn st w ≡ (ok v, st', w'))
          × (status st' key ≡ stored v)
          × ((j : Bytes) → j ≢ key → status st' j ≡ status st j)
    pub run_err :
        (key : Bytes) (fn : W → Result E V × W) (e : E) (st : k.Store) (w w' : W)
        → status st key ≡ free
        → fn w ≡ (err e, w')
        → (st' : k.Store) × (k.run key fn st w ≡ (err (returned e), st', w'))
          × (status st' key ≡ free)
          × ((j : Bytes) → j ≢ key → status st' j ≡ status st j)
    -- any other key: the function does not run
    pub replay :
        (key : Bytes) (fn : W → Result E V × W) (v : V) (st : k.Store) (w : W)
        → status st key ≡ stored v
        → k.run key fn st w ≡ (ok v, st, w)
    pub run_busy :
        (key : Bytes) (fn : W → Result E V × W) (st : k.Store) (w : W)
        → status st key ≡ busy
        → k.run key fn st w ≡ (err in_progress, st, w)
    pub run_down :
        (key : Bytes) (fn : W → Result E V × W) (st : k.Store) (w : W)
        → status st key ≡ down
        → k.run key fn st w ≡ (err unavailable, st, w)
