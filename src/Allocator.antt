-- ===== src/Allocator.antt =====
-- zone_allocator/mod.rs: the shared set of zones that are checked out, and the handles that it
-- hands out. A call runs in the set beside the world of the device; each use of the set holds the
-- lock, so it is one step.
pub mod Set
pub mod Exclusive
pub mod Calls
pub mod Granted
use zoned.Base.{
  ℕ, suc, ◌+◌, ◌%◌, Bool, true, false, Option, none, some, List, [], ◌∷◌, ◌&&◌, not, leb,
  if◌then◌else◌, u32_mod,
}
use zoned.Errors.{
  Io, Outcome, ok, err, panic, timeout, fail, return, ◌>>=◌, ◌>>◌, and_then, ZonedError,
  invalid_range, zone_already_allocated, zone_not_allocated,
}
use zoned.Types.{ZoneIndex, Zone, type_eq, condition_eq, sequential_write_required, empty}
use zoned.Device.{ZonedDevice, report_all_zones}
use zoned.Handle.{ZoneHandle, new_with_allocator}
use Set.{contains, insert, remove, sort}

-- The device is the same for all calls; the set is the state behind the mutex.
pub record ZoneAllocator (W : Type 0) : Type 0 where
  pub device : ZonedDevice W

abbrev pub Allocated : Type 0
Allocated = List ZoneIndex

abbrev pub Aio : Type 0 → Type 0 → Type 0
Aio W A = Io (Allocated × W) ZonedError A

abbrev pub fresh : Allocated
fresh = []

-- Whether `allocate` may take the zone at an index.
unfoldable pub eligible : Allocated → ZoneIndex → Zone → Bool
eligible set idx zone =
    type_eq zone.zone_type sequential_write_required
    && (condition_eq zone.condition empty && not (contains idx set))

-- The `for` of `allocate`, from the `i`-th zone on.
unfoldable pub first_eligible : Allocated → ℕ → List Zone → Option ZoneIndex
first_eligible set i [] = none
first_eligible set i (zone ∷ zones) =
    let rest : Option ZoneIndex = first_eligible set (suc i) zones in
    if eligible set (i % u32_mod) zone then some (i % u32_mod) else rest

module _ {W : Type 0} where
  -- `AllocatorInner::release`. (No call panics while it holds the lock, so it is not poisoned.)
  pub release_inner : ZoneIndex → Allocated × W → Allocated × W
  release_inner zone_index (set, w) = (remove zone_index set, w)

  unfoldable pub try_allocate : ZoneIndex → Aio W (Unit {0})
  try_allocate zone_index (set, w) =
      if contains zone_index set
      then (err (zone_already_allocated zone_index), (set, w))
      else (ok tt, (insert zone_index set, w))

  -- The `match` of `allocate_zone`: a failure to build the handle rolls the allocation back.
  settle :
      ZoneIndex
      → Allocated
      → Outcome ZonedError (ZoneHandle W) × W
      → Outcome ZonedError (ZoneHandle W) × (Allocated × W)
  unfolding release_inner
  settle zone_index set (ok handle, w) = (ok handle, (set, w))
  settle zone_index set (err e, w) = (err e, release_inner zone_index (set, w))
  settle zone_index set (panic, w) = (panic, (set, w))
  settle zone_index set (timeout, w) = (timeout, (set, w))

  unfoldable pub allocate_zone : ZoneAllocator W → ZoneIndex → Aio W (ZoneHandle W)
  unfolding try_allocate settle
  allocate_zone a zone_index = do
    try_allocate zone_index
    λ (set, w). settle zone_index set (new_with_allocator a.device zone_index w)

  -- What `allocate` does with the zone that its scan found.
  take_found : ZoneAllocator W → Option ZoneIndex → Aio W (ZoneHandle W)
  unfolding allocate_zone
  take_found a none = fail (invalid_range 0 0)
  take_found a (some idx) = allocate_zone a idx

  unfoldable pub allocate : ZoneAllocator W → Aio W (ZoneHandle W)
  unfolding take_found
  allocate a (set, w) =
      let (r, w') = report_all_zones a.device 512 w in
      and_then (r, (set, w')) λ zones. take_found a (first_eligible set 0 zones)

  pub release : ZoneIndex → Aio W (Unit {0})
  release zone_index (set, w) =
      if contains zone_index set
      then (ok tt, (remove zone_index set, w))
      else (err (zone_not_allocated zone_index), (set, w))

  unfoldable pub allocated_zones : Allocated × W → List ZoneIndex
  unfolding sort
  allocated_zones (set, w) = sort set

  -- `Drop` of a handle.
  pub drop_handle : ZoneHandle W → Allocated × W → Allocated × W
  unfolding release_inner
  drop_handle h s = if h.registered then release_inner h.zone_index s else s
