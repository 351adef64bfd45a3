-- ===== src/Tests/Allocator.antt =====
-- Allocation of zone_allocator/mod.rs at the small device.
use zoned.Base.{◌+◌, ◌≤◌, ◌≡◌, refl, ◌⊎◌, false, true, List, [], ◌∷◌, ◌++◌, arith, length}
use zoned.Errors.{err, invalid_range}
use zoned.Types.{Zone}
use zoned.Allocator.{ZoneAllocator, fresh, eligible, allocate, allocate_zone}
use zoned.Allocator.Set.{count}
use zoned.Allocator.Calls.{Grants, NoneEligible, allocate_zone-Grants, allocate-first}
use zoned.Allocator.Exclusive.{
  Threads, claim, Reach, here, next, idle, reachable-Exclusive, release-breaks_exclusion,
}
use zoned.Tests.{Medium, device, blank, four_zones, device-Serves}

abbrev allocator : ZoneAllocator Medium
allocator = record { device = device }

allocate_zone-Grants_example :
    Grants allocator 2 (3 ∷ []) (allocate_zone allocator 2 (3 ∷ [], blank))
allocate_zone-Grants_example = allocate_zone-Grants allocator 2 (3 ∷ []) blank

allocate-first_example :
    (NoneEligible (2 ∷ []) 0 four_zones
      × (allocate allocator (2 ∷ [], blank) ≡ (err (invalid_range 0 0), (2 ∷ [], blank))))
    ⊎ ((pre : List Zone) × (z : Zone) × (post : List Zone) × (four_zones ≡ pre ++ z ∷ post)
        × NoneEligible (2 ∷ []) 0 pre
        × (eligible (2 ∷ []) (length pre) z ≡ true)
        × (allocate allocator (2 ∷ [], blank)
            ≡ allocate_zone allocator (length pre) (2 ∷ [], blank)))
allocate-first_example =
    allocate-first allocator four_zones (2 ∷ []) blank (device-Serves blank) (omega arith)

-- Zone 5 is claimed, and zone 6 after it.
abbrev two_claims : Threads
two_claims = record { allocated = 6 ∷ 5 ∷ []; building = 6 ∷ 5 ∷ []; live = [] }

two_claims-Reach : Reach false idle two_claims
unfolding zoned.Allocator.try_allocate zoned.Allocator.Set.contains zoned.Allocator.Set.insert
two_claims-Reach = next (next here (claim _ 5 (5 ∷ []) refl)) (claim _ 6 (6 ∷ 5 ∷ []) refl)

reachable-Exclusive_example : count 5 (6 ∷ 5 ∷ []) + count 5 [] ≤ 1
reachable-Exclusive_example = reachable-Exclusive {t = two_claims} two_claims-Reach 5

release-breaks_exclusion_example : (t : Threads) × Reach true idle t × (count 7 t.live ≡ 2)
release-breaks_exclusion_example = release-breaks_exclusion 7
