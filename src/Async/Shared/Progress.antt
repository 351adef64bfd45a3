-- ===== src/Async/Shared/Progress.antt =====
-- The progress of tasks that share an AsyncZoneHandle.
use zoned.Base.{
  ℕ, suc, ◌+◌, ◌*◌, ◌≡◌, refl, ◌⊎◌, inl, inr, Option, none, some, List, [], ◌∷◌, arith, length,
  length-append,
}
use zoned.Device.{ZonedDevice}
use zoned.Async.{Runtime, Runs}
use zoned.Async.Handle.{write_all_sequential}
use zoned.Async.Shared.{Tasks, Step, takes_lock, writes, Reach, here, next, held}
use zoned.Async.Shared.Ends.{Ends, write_all-Kept}

-- The steps of a run.
pub steps : {W : Type 0} {rt : Runtime} {s t : Tasks W} → Reach rt s t → ℕ
steps here = 0
steps (next r st) = suc (steps r)

-- The steps that are left: two of each task that waits, and one of the task that holds the lock.
abbrev pub left : {W : Type 0} → Tasks W → ℕ
left t = length (held t.lock) + 2 * length t.waiting

abbrev pub tasks_of : {W : Type 0} → Tasks W → ℕ
tasks_of t = length t.finished + (length (held t.lock) + length t.waiting)

-- The tasks at `t`, after a run of `count` steps from `s`: a step can be taken, or all tasks are finished.
pub record Advances {W : Type 0} (rt : Runtime) (s : Tasks W) (count : ℕ) (t : Tasks W)
    : Type 0 where
  pub bounded : count + left t ≡ left s
  pub goes_on : ((u : Tasks W) × Step rt t u) ⊎ (left t ≡ 0)
  pub all : left t ≡ 0 → length t.finished ≡ tasks_of s

module _ (rt : Runtime) (runs : Runs rt) {W : Type 0} (d : ZonedDevice W)
    (answers : (buf : List ℕ) (offset : ℕ) (w : W) → Ends (d.inner.write_at buf offset w).0) where
  record Invariant (s : Tasks W) (count : ℕ) (t : Tasks W) : Type 0 where
    count_left : count + left t ≡ left s
    none_lost : tasks_of t ≡ tasks_of s
    on_device : t.shared.0.device ≡ d

  Step-Invariant :
      {s t u : Tasks W} (count : ℕ) → Step rt t u → Invariant s count t → Invariant s (suc count) u
  Step-Invariant count (takes_lock t pre post buf free split) v = record {
    count_left = omega (
      arith,
      rw (free, split, length-append pre (buf ∷ post)) at v.count_left,
      length-append pre post,
    );
    none_lost = omega (
      arith,
      rw (free, split, length-append pre (buf ∷ post)) at v.none_lost,
      length-append pre post,
    );
    on_device = v.on_device;
  }
  Step-Invariant count (writes t buf locked returned) v = record {
    count_left = omega (arith, rw locked at v.count_left);
    none_lost = omega (
      arith,
      rw locked at v.none_lost,
      length-append t.finished ((buf, (write_all_sequential rt buf t.shared).0) ∷ []),
    );
    on_device = (write_all-Kept d answers rt runs buf t.shared v.on_device).1;
  }

  Reach-Invariant :
      {s t : Tasks W} → s.shared.0.device ≡ d → (r : Reach rt s t) → Invariant s (steps r) t
  unfolding steps
  Reach-Invariant e here = record { count_left = omega arith; none_lost = refl; on_device = e }
  Reach-Invariant e (next r st) = Step-Invariant (steps r) st (Reach-Invariant e r)

  -- The lock is held, or free with a task that waits or with none.
  goes_on_from :
      (t : Tasks W) → t.shared.0.device ≡ d → ((u : Tasks W) × Step rt t u) ⊎ (left t ≡ 0)
  goes_on_from t e = by_lock t.lock t.waiting refl refl
    where
      by_lock :
          (l : Option (List ℕ)) (ws : List (List ℕ))
          → t.lock ≡ l
          → t.waiting ≡ ws
          → ((u : Tasks W) × Step rt t u) ⊎ (left t ≡ 0)
      by_lock none [] free waits = inr (rw (free, waits) refl)
      by_lock none (buf ∷ ws) free waits = inl (_, takes_lock t [] ws buf free waits)
      by_lock (some buf) ws locked waits =
          inl (_, writes t buf locked (write_all-Kept d answers rt runs buf t.shared e).0)

  -- Tasks share the handle of a zone whose device answers every write, with whatever result, in a
  -- runtime that runs their calls. Then, however the lock goes round, a run has at most two steps for each task that
  -- waits at first and one for the task that holds the lock, and it can go on until all tasks are finished: each
  -- write of a task comes back, so that the task gives the lock back.
  pub reach-Advances :
      {s t : Tasks W} → s.shared.0.device ≡ d → (r : Reach rt s t) → Advances rt s (steps r) t
  reach-Advances {s} {t} e r =
      let v = Reach-Invariant e r in
      record {
        bounded = v.count_left;
        goes_on = goes_on_from t v.on_device;
        all = λ z. omega (arith, z, v.none_lost);
      }
