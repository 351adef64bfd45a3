-- ===== src/Async.antt =====
-- async_api: a call of the crate on a thread of tokio, and what the async functions make of its end.
pub mod Device
pub mod Handle
pub mod Reads
pub mod Shared
use zoned.Base.{◌≡◌, refl, ◌∙◌, String}
use zoned.Errors.{
  Io, Outcome, ok, err, panic, timeout, map_err, ◌>>=◌, and_then, Returns, ZonedError, io, custom,
  other,
}

-- `tokio::task::spawn_blocking`, awaited: what the call came to, or the text of a `JoinError`.
pub record Runtime : Type 1 where
  pub spawn : {W T : Type 0} → Io W ZonedError T → Io W String (Outcome ZonedError T)

-- A runtime that is not shut down runs the call to its end; a panic becomes a `JoinError`.
pub record Runs (rt : Runtime) : Type 1 where
  pub passes_ok :
      {W T : Type 0} (f : Io W ZonedError T) (a : T) (w w' : W)
      → f w ≡ (ok a, w')
      → rt.spawn f w ≡ (ok (ok a), w')
  pub passes_err :
      {W T : Type 0} (f : Io W ZonedError T) (e : ZonedError) (w w' : W)
      → f w ≡ (err e, w')
      → rt.spawn f w ≡ (ok (err e), w')
  pub joins_panic :
      {W T : Type 0} (f : Io W ZonedError T) (w w' : W)
      → f w ≡ (panic, w')
      → (text : String) × (rt.spawn f w ≡ (err text, w'))
  -- One that does not end is not joined.
  pub waits :
      {W T : Type 0} (f : Io W ZonedError T) (w w' : W)
      → f w ≡ (timeout, w')
      → rt.spawn f w ≡ (timeout, w')

unfoldable pub join_error : String → ZonedError
join_error text = io "<async task>" (custom other text)

-- `.await.map_err(join_error)?` on the task.
unfoldable pub spawn_blocking : {W T : Type 0} → Runtime → Io W ZonedError T → Io W ZonedError T
spawn_blocking rt f = do finished ← map_err join_error (rt.spawn f); λ w. (finished, w)

module _ {W T : Type 0} (rt : Runtime) (runs : Runs rt) (f : Io W ZonedError T) where
  -- A call that comes back comes to the same on a thread of the runtime.
  pub spawn_blocking-Returns : (w : W) → Returns (f w).0 → spawn_blocking rt f w ≡ f w
  unfolding spawn_blocking
  spawn_blocking-Returns w returns = go (f w) refl returns
    where
      go : (r : Outcome ZonedError T × W) → f w ≡ r → Returns r.0 → spawn_blocking rt f w ≡ f w
      go (ok a, w') e h = rw (runs.passes_ok f a w w' e, e) refl
      go (err x, w') e h = rw (runs.passes_err f x w w' e, e) refl
      go (panic, w') e h = elim h [ ]
      go (timeout, w') e h = elim h [ ]

  -- One that panics gives the error of a task that could not be joined.
  pub spawn_blocking-panic :
      (w w' : W)
      → f w ≡ (panic, w')
      → (text : String) × (spawn_blocking rt f w ≡ (err (join_error text), w'))
  unfolding spawn_blocking
  spawn_blocking-panic w w' e =
      let (text, joined) = runs.joins_panic f w w' e in (text, rw joined refl)

  -- A success is that of the call.
  pub spawn_blocking-value :
      (w w' : W) (a : T) → spawn_blocking rt f w ≡ (ok a, w') → f w ≡ (ok a, w')
  unfolding spawn_blocking
  spawn_blocking-value w w' a e = go (f w) refl
    where
      go : (r : Outcome ZonedError T × W) → f w ≡ r → f w ≡ (ok a, w')
      go (ok b, v) h = let e' = rw (runs.passes_ok f b w v h) at e in h ∙ e'
      go (err x, v) h = let e' = rw (runs.passes_err f x w v h) at e in absurd cc
      go (panic, v) h = let e' = rw (runs.joins_panic f w v h).1 at e in absurd cc
      go (timeout, v) h = let e' = rw (runs.waits f w v h) at e in absurd cc

  pub spawn_blocking-ok : (w w' : W) (a : T) → f w ≡ (ok a, w') → spawn_blocking rt f w ≡ (ok a, w')
  unfolding spawn_blocking
  spawn_blocking-ok w w' a e = rw (runs.passes_ok f a w w' e) refl
