-- ===== src/Allocator/Granted.antt =====
-- What `allocate` of zone_allocator/mod.rs hands out, in terms of the handle.
use zoned.Base.{ℕ, ◌≡◌, sym, subst, Option, none, some, false}
use zoned.Errors.{Outcome, ok, err, panic, timeout, ZonedError, and_then}
use zoned.Types.{ZoneIndex, Zone}
use zoned.Device.{report_all_zones}
use zoned.Handle.{ZoneHandle}
use zoned.Allocator.{ZoneAllocator, Allocated, take_found, allocate, allocate_zone, first_eligible}
use zoned.Allocator.Calls.{Grants, allocate_zone-Grants}
use zoned.Allocator.Set.{contains, insert}
use zoned.Base.{List}

module _ {W : Type 0} where
  -- A call that returned a handle found its zone free and put it in the set.
  abbrev pub Granted : Allocated → Outcome ZonedError (ZoneHandle W) × (Allocated × W) → Type 0
  Granted set (ok h, (set', w)) =
      (contains h.zone_index set ≡ false) × (set' ≡ insert h.zone_index set)
  Granted set (err e, s) = Unit {0}
  Granted set (panic, s) = Unit {0}
  Granted set (timeout, s) = Unit {0}

  Grants-Granted :
      (a : ZoneAllocator W) (idx : ZoneIndex) (set : Allocated)
      (r : Outcome ZonedError (ZoneHandle W) × (Allocated × W))
      → Grants a idx set r
      → Granted set r
  Grants-Granted a idx set (ok h, (set', w)) (free, e, known) =
      subst (λ (k : ℕ). (contains k set ≡ false) × (set' ≡ insert k set)) (sym known.1) (free, e)
  Grants-Granted a idx set (err e, s) g = tt
  Grants-Granted a idx set (panic, s) g = tt
  Grants-Granted a idx set (timeout, s) g = tt

  take_found-Granted :
      (a : ZoneAllocator W) (found : Option ZoneIndex) (set : Allocated) (w : W)
      → Granted set (take_found a found (set, w))
  unfolding take_found
  take_found-Granted a none set w = tt
  take_found-Granted a (some idx) set w =
      Grants-Granted a idx set (allocate_zone a idx (set, w)) (allocate_zone-Grants a idx set w)

  pub allocate-Granted :
      (a : ZoneAllocator W) (set : Allocated) (w : W) → Granted set (allocate a (set, w))
  unfolding allocate
  allocate-Granted a set w = scanned (report_all_zones a.device 512 w)
    where
      scanned :
          (r : Outcome ZonedError (List Zone) × W)
          → Granted set
              (and_then (r.0, (set, r.1)) λ zones. take_found a (first_eligible set 0 zones))
      scanned (ok zones, w') = take_found-Granted a (first_eligible set 0 zones) set w'
      scanned (err e, w') = tt
      scanned (panic, w') = tt
      scanned (timeout, w') = tt
