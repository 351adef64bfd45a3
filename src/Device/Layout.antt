-- ===== src/Device/Layout.antt =====
-- What a report of device/mod.rs relies on: the zones of a device and how a platform reports them.
use zoned.Base.{
  ℕ, ◌+◌, ◌≤◌, ◌<◌, ◌≡◌, refl, List, [], ◌∷◌, ◌++◌, arith, leb, if◌then◌else◌, le→leb, lt→leb_false,
  take, last_or, length, u64_mod, u32_mod,
}
use zoned.Errors.{ok}
use zoned.Types.{Sector, Zone, DeviceInfo, end_of}
use zoned.Device.{ZonedDevice, device_info, report_zones}

-- Each zone begins where the one before it ends, and the last ends below 2^64.
abbrev pub Contiguous : Sector → List Zone → Type 0
Contiguous s [] = Unit {0}
Contiguous s (z ∷ zs) =
    (z.start ≡ s) × (0 < z.len) × (s + z.len < u64_mod) × Contiguous (s + z.len) zs

-- The zones that end behind a sector: the one that holds it and those after it.
abbrev pub from_sector : Sector → List Zone → List Zone
from_sector s [] = []
from_sector s (z ∷ zs) = if leb (z.start + z.len) s then from_sector s zs else z ∷ zs

-- The sector behind a run of zones that begins at `s`.
abbrev pub span : Sector → List Zone → Sector
span s [] = s
span s (z ∷ zs) = span (s + z.len) zs

-- A platform that reports the zones `zs`: the documented behaviour of a report, which starts with
-- the zone that holds the sector (a u64), is in order, and has no more zones than asked for (a u32).
pub record Serves {W : Type 0} (d : ZonedDevice W) (zs : List Zone) (w : W) : Type 0 where
  pub layout : Contiguous 0 zs
  pub info : DeviceInfo
  pub info_answer : device_info d w ≡ (ok info, w)
  pub info_count : info.nr_zones ≡ length zs
  pub answers :
      (s : Sector) (count : ℕ)
      → s < u64_mod
      → 0 < count
      → count < u32_mod
      → report_zones d s count w ≡ (ok (take count (from_sector s zs)), w)

le-span : (s : Sector) (zs : List Zone) → s ≤ span s zs
le-span s [] = omega arith
le-span s (z ∷ zs) = omega (arith, le-span (s + z.len) zs)

pub span-append : (s : Sector) (xs ys : List Zone) → span s (xs ++ ys) ≡ span (span s xs) ys
span-append s [] ys = refl
span-append s (x ∷ xs) ys = span-append (s + x.len) xs ys

pub Contiguous-append :
    (s : Sector) (xs ys : List Zone) → Contiguous s (xs ++ ys) → Contiguous (span s xs) ys
Contiguous-append s [] ys c = c
Contiguous-append s (x ∷ xs) ys c = Contiguous-append (s + x.len) xs ys c.3

pub Contiguous-left : (s : Sector) (xs ys : List Zone) → Contiguous s (xs ++ ys) → Contiguous s xs
Contiguous-left s [] ys c = tt
Contiguous-left s (x ∷ xs) ys c = (c.0, c.1, c.2, Contiguous-left (s + x.len) xs ys c.3)

pub span-lt : (s : Sector) (xs : List Zone) → s < u64_mod → Contiguous s xs → span s xs < u64_mod
span-lt s [] h c = h
span-lt s (x ∷ xs) h c = span-lt (s + x.len) xs c.2 c.3

-- A report from the end of a run gives what follows the run.
pub from_sector-span :
    (s : Sector) (xs ys : List Zone)
    → Contiguous s (xs ++ ys)
    → from_sector (span s xs) (xs ++ ys) ≡ ys
from_sector-span s [] [] c = refl
from_sector-span s [] (y ∷ ys) c = rw (lt→leb_false (y.start + y.len) s (omega arith))
from_sector-span s (x ∷ xs) ys c =
    rw (le→leb (x.start + x.len) (span (s + x.len) xs) (omega (arith, le-span (s + x.len) xs)))
      (from_sector-span (s + x.len) xs ys c.3)

-- The end of the last zone of a run is the end of the run, and lies behind its start.
pub end_of-last :
    (s : Sector) (z : Zone) (zs : List Zone)
    → Contiguous s (z ∷ zs)
    → end_of (last_or z zs) ≡ span s (z ∷ zs)
end_of-last s z [] c = omega arith
end_of-last s z (y ∷ zs) c = end_of-last (s + z.len) y zs c.3

pub lt-span : (s : Sector) (z : Zone) (zs : List Zone) → 0 < z.len → s < span s (z ∷ zs)
lt-span s z zs h = omega (arith, le-span (s + z.len) zs)
