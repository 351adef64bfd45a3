-- ===== src/Allocator/Calls.antt =====
-- The calls of zone_allocator/mod.rs one at a time: what they hand out and what they leave in the
-- set, on every branch.
use native.Mathlib.Nat.{add-zero, zero-add}
use zoned.Device.Layout.{Serves}
use zoned.Device.Report.{report_all_zones_complete}
use zoned.Base.{
  ◌+◌, ◌%◌, ◌≤◌, ◌++◌, ◌∷◌, ◌⊎◌, length, u32_mod, ap, sym, subst, ◌∙◌, ℕ, suc, ◌≡◌, refl, true,
  false, Option, none, some, List, [], arith, Bool-cases, inl, inr,
}
use zoned.Errors.{Outcome, ok, err, panic, timeout, ZonedError, OnOk, invalid_range}
use zoned.Types.{ZoneIndex, Zone}
use zoned.Handle.{ZoneHandle, new_with_allocator}
use zoned.Handle.Create.{Knows, new_with_allocator-Knows}
use zoned.Allocator.{
  ZoneAllocator, Allocated, settle, allocate_zone, allocate, eligible, first_eligible,
}
use zoned.Allocator.Set.{contains, insert, remove}

module _ {W : Type 0} (a : ZoneAllocator W) (idx : ZoneIndex) (set : Allocated) where
  -- The zone was free; it is in the set now and the handle is a registered one of that zone. Or the
  -- call failed, and the set is as it was.
  abbrev pub Grants : Outcome ZonedError (ZoneHandle W) × (Allocated × W) → Type 0
  Grants (ok h, (set', w)) =
      (contains idx set ≡ false) × (set' ≡ insert idx set) × Knows a.device idx true h
  Grants (err e, (set', w)) = set' ≡ set
  Grants (panic, (set', w)) = (contains idx set ≡ false) × (set' ≡ insert idx set)
  Grants (timeout, (set', w)) = (contains idx set ≡ false) × (set' ≡ insert idx set)

  settle-Grants :
      (r : Outcome ZonedError (ZoneHandle W) × W)
      → contains idx set ≡ false
      → OnOk (Knows a.device idx true) r.0
      → Grants (settle idx (insert idx set) r)
  unfolding settle insert remove
  settle-Grants (ok h, w) free k = (free, refl, k)
  settle-Grants (err e, w) free k = ground arith
  settle-Grants (panic, w) free k = (free, refl)
  settle-Grants (timeout, w) free k = (free, refl)

  -- For every device and every set: a call of `allocate_zone` that returns a handle found the zone
  -- free, put it in the set, and the handle is registered and for that zone and device. A call
  -- that returns an error leaves the set as it was, also where building the handle failed.
  pub allocate_zone-Grants : (w : W) → Grants (allocate_zone a idx (set, w))
  unfolding allocate_zone
  allocate_zone-Grants w = elim (Bool-cases (contains idx set)) [
    | inl taken ↦ rw taken refl
    | inr free ↦ rw free (
        settle-Grants (new_with_allocator a.device idx w) free
          (new_with_allocator-Knows a.device idx w))
  ]

-- No zone of the list, counted from `i`, may be taken.
abbrev pub NoneEligible : Allocated → ℕ → List Zone → Type 0
NoneEligible set i [] = Unit {0}
NoneEligible set i (z ∷ zs) = (eligible set i z ≡ false) × NoneEligible set (suc i) zs

-- What the scan of `allocate` from the `i`-th zone on comes to.
abbrev Scan : Allocated → ℕ → List Zone → Option ZoneIndex → Type 0
Scan set i zs found =
    ((found ≡ none) × NoneEligible set i zs)
    ⊎ ((pre : List Zone) × (z : Zone) × (post : List Zone) × (zs ≡ pre ++ z ∷ post)
        × (found ≡ some (i + length pre))
        × (eligible set (i + length pre) z ≡ true)
        × NoneEligible set i pre)

first_eligible-Scan :
    (set : Allocated) (i : ℕ) (zs : List Zone)
    → i + length zs ≤ u32_mod
    → Scan set i zs (first_eligible set i zs)
unfolding first_eligible
first_eligible-Scan set i [] h = inl (refl, tt)
first_eligible-Scan set i (z ∷ zs) h = elim (Bool-cases (eligible set i z)) [
  | inl hit ↦
      inr ([], z, zs, refl, rw (small, hit) (ap some (sym (add-zero i))), rw (add-zero i) hit, tt)
  | inr miss ↦ elim (first_eligible-Scan set (suc i) zs (omega arith)) [
    | inl (e, all) ↦ inl (rw (small, miss) e, (miss, all))
    | inr (pre, z', post, split, e, hit, all) ↦ inr (
      z ∷ pre,
      z',
      post,
      ap (◌∷◌ z) split,
      rw (small, miss) (e ∙ ap some (omega arith)),
      subst (λ k. eligible set k z' ≡ true) (omega arith) hit,
      (miss, all),
    )
  ]
]
  where
    small : i % u32_mod ≡ i
    small = omega arith

module _ {W : Type 0} (a : ZoneAllocator W) (zs : List Zone) (set : Allocated) (w : W) where
  -- On a device that reports the zones `zs` (at most 2^32), `allocate` fails with `InvalidRange` and
  -- changes nothing if no zone is eligible. Otherwise it is `allocate_zone` of the first eligible
  -- zone, whose index is its place in `zs`.
  pub allocate-first :
      Serves a.device zs w
      → length zs ≤ u32_mod
      → (NoneEligible set 0 zs × (allocate a (set, w) ≡ (err (invalid_range 0 0), (set, w))))
        ⊎ ((pre : List Zone) × (z : Zone) × (post : List Zone) × (zs ≡ pre ++ z ∷ post)
            × NoneEligible set 0 pre
            × (eligible set (length pre) z ≡ true)
            × (allocate a (set, w) ≡ allocate_zone a (length pre) (set, w)))
  unfolding allocate
  allocate-first served small =
      rw (report_all_zones_complete a.device zs w served 512 (omega arith))
        (elim (first_eligible-Scan set 0 zs (omega arith)) [
          | inl (e, all) ↦ inl (all, rw e)
          | inr (pre, z, post, split, e, hit, all) ↦
              inr (pre, z, post, split, all, rw zero-add at hit, rw (e, zero-add (length pre)))
        ])
