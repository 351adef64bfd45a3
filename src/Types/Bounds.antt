-- ===== src/Types/Bounds.antt =====
-- What is left of a zone, in types/mod.rs, within machine words.
use zoned.Base.{
  ◌+◌, ◌-◌, ◌≤◌, ◌<◌, ◌≡◌, ◌⊎◌, inl, inr, Bool-cases, arith, ltb, ltb→lt, ltb_false→le, some,
  u64_mod,
}
use zoned.Types.{Sector, Zone, remaining_capacity, capacity_left}

-- For a zone with a write pointer at or behind its start, in 64 bits: up to the end of its capacity,
-- the remaining capacity is what lies between the two. For a pointer behind that end it is not 0: it
-- wraps to as much below 2^64 as the pointer is behind the end.
pub remaining_capacity-bounds :
    (z : Zone) (wp : Sector)
    → z.write_pointer ≡ some wp
    → z.start ≤ wp
    → wp < u64_mod
    → z.capacity < u64_mod
    → ((wp ≤ z.start + z.capacity) × (wp + remaining_capacity z ≡ z.start + z.capacity))
      ⊎ ((z.start + z.capacity < wp)
          × (remaining_capacity z + (wp - (z.start + z.capacity)) ≡ u64_mod))
unfolding remaining_capacity capacity_left
remaining_capacity-bounds z wp at above small fits =
    elim (Bool-cases (ltb (z.start + z.capacity) wp)) [
      | inl beyond ↦
          inr (ltb→lt _ _ beyond, rw at (omega (arith, ltb→lt _ _ beyond, above, small, fits)))
      | inr within ↦ inl (
        ltb_false→le _ _ within,
        rw at (omega (arith, ltb_false→le _ _ within, above, small, fits)),
      )
    ]
