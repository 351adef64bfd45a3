-- ===== src/Handle/Create.antt =====
-- The constructors of zone_handle/mod.rs: what a new handle knows of its zone.
use zoned.Base.{Bool, true, ◌≡◌, refl, mul_u64}
use zoned.Errors.{OnOk, and_then-OnOk}
use zoned.Types.{ZoneIndex}
use zoned.Device
use zoned.Device.{ZonedDevice}
use zoned.Handle.{ZoneHandle, first_zone, new_inner, new_with_allocator}

module _ {W : Type 0} (d : ZonedDevice W) (idx : ZoneIndex) (registered : Bool) where
  abbrev pub Knows : ZoneHandle W → Type 0
  Knows h = (h.device ≡ d) × (h.zone_index ≡ idx) × (h.registered ≡ registered)

  pub new_inner-Knows : (w : W) → OnOk Knows (new_inner d idx registered w).0
  unfolding new_inner
  new_inner-Knows w = and_then-OnOk Knows (Device.device_info d w) _ λ info w'.
      and_then-OnOk Knows (Device.report_zones d (mul_u64 info.zone_size idx) 1 w') _ λ zones w''.
        and_then-OnOk Knows (first_zone (mul_u64 info.zone_size idx) zones w'') _
          λ zone w3. (refl, refl, refl)

pub new_with_allocator-Knows :
    {W : Type 0} (d : ZonedDevice W) (idx : ZoneIndex) (w : W)
    → OnOk (Knows d idx true) (new_with_allocator d idx w).0
unfolding new_with_allocator
new_with_allocator-Knows d idx w = new_inner-Knows d idx true w
