-- ===== src/Async/Shared.antt =====
-- Tasks that share an AsyncZoneHandle of async_api/zone_handle.rs: each waits for the mutex, writes
-- its buffer under it, and gives it back.
pub mod Parts
pub mod Order
pub mod Ends
pub mod Progress
use zoned.Base.{
  ℕ, ◌+◌, ◌*◌, ◌/◌, ◌%◌, ◌≤◌, ◌≡◌, refl, sym, ap, ◌∙◌, subst, Option, none, some, List, [], ◌∷◌,
  ◌++◌, map, append_assoc, append-nil, arith, length, length-append, length-take, take, take-length,
  u64_mod,
}
use mathlib.Core.List.{flatten, Perm, perm_middle, map-append}
use mathlib.Core.List.Perm
use zoned.Errors.{Outcome, ok, ZonedError, Returns}
use zoned.Types.{sector_size}
use zoned.Device.Storage.{overlay, Same, Storage, overlay-append, overlay-Same, overlay-nil}
use zoned.Handle
use zoned.Handle.{ZoneHandle}
use zoned.Handle.Write.{Appended, write_all_sequential-Appended}
use zoned.Async.{Runtime, Runs, spawn_blocking-Returns}
use zoned.Async.Handle.{write_all_sequential}

-- The buffer of the task that holds the lock, those of the tasks that wait for it, those of the
-- finished tasks with what they returned, in the order in which they held the lock, and the handle
-- beside the world.
pub record Tasks (W : Type 0) : Type 0 where
  pub lock : Option (List ℕ)
  pub waiting : List (List ℕ)
  pub finished : List (List ℕ × Outcome ZonedError (Unit {0}))
  pub shared : ZoneHandle W × W

-- The lock goes to any of the tasks that wait. A write that does not come back keeps it.
pub data Step {W : Type 0} (rt : Runtime) : Tasks W → Tasks W → Type 0 where
  takes_lock :
      (t : Tasks W) (pre post : List (List ℕ)) (buf : List ℕ)
      → t.lock ≡ none
      → t.waiting ≡ pre ++ buf ∷ post
      → Step rt t (record t { lock = some buf; waiting = pre ++ post })
  writes :
      (t : Tasks W) (buf : List ℕ)
      → t.lock ≡ some buf
      → Returns (write_all_sequential rt buf t.shared).0
      → Step rt t (record t {
        lock = none;
        finished = t.finished ++ (buf, (write_all_sequential rt buf t.shared).0) ∷ [];
        shared = (write_all_sequential rt buf t.shared).1;
      })

pub data Reach {W : Type 0} (rt : Runtime) (s : Tasks W) : Tasks W → Type 0 where
  here : Reach rt s s
  next : {t u : Tasks W} → Reach rt s t → Step rt t u → Reach rt s u

abbrev pub idle : {W : Type 0} → List (List ℕ) → ZoneHandle W → W → Tasks W
idle bufs h w = record { lock = none; waiting = bufs; finished = []; shared = (h, w) }

abbrev held : Option (List ℕ) → List (List ℕ)
held none = []
held (some buf) = buf ∷ []

abbrev buffer_of : List ℕ × Outcome ZonedError (Unit {0}) → List ℕ
buffer_of f = f.0

abbrev pub buffers : {W : Type 0} → Tasks W → List (List ℕ)
buffers t = held t.lock ++ (map buffer_of t.finished ++ t.waiting)

-- What the finished tasks put into the zone: each the first sectors of its buffer, the whole buffer
-- if its write succeeded.
abbrev pub Parts : List (List ℕ × Outcome ZonedError (Unit {0})) → List (List ℕ) → Type 0
Parts [] [] = Unit {0}
Parts [] (p ∷ ps) = ⊥
Parts (f ∷ fs) [] = ⊥
Parts ((buf, r) ∷ fs) (p ∷ ps) =
    (((p ≡ take (length p) buf) × (length p % sector_size ≡ 0))
      × ((r ≡ ok tt → p ≡ buf) × Returns r))
    × Parts fs ps

abbrev pub AllWhole : List (List ℕ) → Type 0
AllWhole [] = Unit {0}
AllWhole (buf ∷ bufs) = (length buf % sector_size ≡ 0) × AllWhole bufs

abbrev pub total : List (List ℕ) → ℕ
total [] = 0
total (buf ∷ bufs) = length buf + total bufs

-- What the tasks with the buffers `bufs` have come to, from the handle `h₀` over the medium `m`: the
-- medium holds the parts of the finished tasks one behind the other from the write pointer on, in the
-- order of the lock, and the handle's pointer is behind them. Each task waits, writes or is finished.
pub record InOrder {W : Type 0} (media : W → ℕ → ℕ) (m : ℕ → ℕ) (h₀ : ZoneHandle W)
    (bufs : List (List ℕ)) (t : Tasks W) : Type 0 where
  pub parts : List (List ℕ)
  pub written : Parts t.finished parts
  pub bytes : Same (media t.shared.1) (overlay m (h₀.write_pointer * sector_size) (flatten parts))
  pub handle :
      t.shared.0
      ≡ record h₀ { write_pointer = h₀.write_pointer + length (flatten parts) / sector_size }
  pub tasks : Perm (buffers t) bufs
