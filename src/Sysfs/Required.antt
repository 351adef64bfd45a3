-- ===== src/Sysfs/Required.antt =====
-- Which attributes `device_properties` of sysfs.rs needs: the model, the zone size and the zone count.
use zoned.Base.{ℕ, ◌≡◌, refl, String, Option, none, some, u32_mod, u64_mod, Option-cases, inl, inr}
use zoned.Base.Text.{parse_uint}
use zoned.Base.Text.Edit.{file_name}
use zoned.Errors.{
  Io, Outcome, ok, err, panic, timeout, ZonedError, sysfs, Returns, and_then, and_then-Returns,
  convert_err,
}
use zoned.Types.{DeviceModel}
use zoned.Types.Properties.{DeviceProperties}
use zoned.FileSystem.{Fs}
use zoned.Sysfs.{
  read_attr, parse_attr, settled, optional, number, device_model, device_name_from_path, gather,
  device_properties,
}

convert_err-Returns :
    {E F A : Type 0} (g : E → F) (r : Outcome E A) → Returns r → Returns (convert_err g r)
convert_err-Returns g (ok a) h = h
convert_err-Returns g (err e) h = h
convert_err-Returns g panic h = h
convert_err-Returns g timeout h = h

-- A call that gives a value of which `P` holds.
abbrev pub Gives : {W A : Type 0} → (A → Type 0) → Outcome ZonedError A × W → Type 0
Gives {W = W} {A = A} P r = (a : A) × (w : W) × (r ≡ (ok a, w)) × P a

-- What the required attributes say of the properties.
abbrev pub Says : DeviceModel → ℕ → ℕ → DeviceProperties → Type 0
Says model chunk_sectors nr_zones p =
    (p.model ≡ model)
    × (p.geometry.chunk_sectors ≡ chunk_sectors)
    × (p.geometry.nr_zones ≡ nr_zones)

module _ {W : Type 0} (fs : Fs W)
    (answered : (file : String) (w : W) → Returns (fs.read_to_string file w).0) where
  read_attr-Returns :
      (directory path name attribute : String) (w : W)
      → Returns (read_attr fs directory path name attribute w).0
  unfolding read_attr
  read_attr-Returns directory path name attribute w =
      and_then-Returns _ _ (convert_err-Returns (sysfs path attribute) _ (answered _ w))
        λ text w'. tt

  number-Returns :
      (directory : String) (limit : ℕ) (path name attribute : String) (w : W)
      → Returns (number fs directory limit path name attribute w).0
  unfolding number parse_attr
  number-Returns directory limit path name attribute w =
      and_then-Returns (read_attr fs directory path name attribute w) _
        (read_attr-Returns directory path name attribute w)
        λ value w'. elim (Option-cases (parse_uint limit value)) [
          | inl bad ↦ rw (bad, Returns) tt
          | inr (n, good) ↦ rw (good, Returns) tt
        ]

  -- An optional read goes on, whatever it comes to.
  optional-Gives :
      {A B : Type 0} (P : B → Type 0) (m : Io W ZonedError A) (k : Option A → Io W ZonedError B)
      (w : W)
      → Returns (m w).0
      → ((a : Option A) (w : W) → Gives P (k a w))
      → Gives P (and_then (optional fs m w) k)
  unfolding optional settled
  optional-Gives {A = A} {B = B} P m k w h g = go (m w) h
    where
      go : (r : Outcome ZonedError A × W) → Returns r.0 → Gives P (and_then (settled fs r) k)
      go (ok a, w') h = g (some a) w'
      go (err e, w') h = g none w'
      go (panic, w') h = elim h [ ]
      go (timeout, w') h = elim h [ ]

  name_found :
      (path name : String) (w : W)
      → file_name path ≡ some name
      → device_name_from_path fs path w ≡ (ok name, w)
  unfolding device_name_from_path
  name_found path name w e = rw e refl

  gather-Gives :
      (path name : String) (model : DeviceModel) (chunk_sectors nr_zones : ℕ) (w : W)
      → Gives
          (Says model chunk_sectors nr_zones)
          (gather fs path name model chunk_sectors nr_zones w)
  unfolding gather
  gather-Gives path name model chunk_sectors nr_zones w =
      next_number "/queue/" u64_mod "zone_append_max_bytes" _ w λ a1 w1.
        next_number "/queue/" u32_mod "max_open_zones" _ w1 λ a2 w2.
          next_number "/queue/" u32_mod "max_active_zones" _ w2 λ a3 w3.
            next_number "/queue/" u32_mod "logical_block_size" _ w3 λ a4 w4.
              next_number "/queue/" u32_mod "physical_block_size" _ w4 λ a5 w5.
                next_number "/queue/" u32_mod "max_hw_sectors_kb" _ w5 λ a6 w6.
                  next_number "/queue/" u32_mod "max_sectors_kb" _ w6 λ a7 w7.
                    next_number "/" u64_mod "size" _ w7 λ a8 w8.
                      next_text "/queue/" "scheduler" _ w8 λ a9 w9.
                        next_text "/device/" "vendor" _ w9 λ a10 w10.
                          next_text "/device/" "model" _ w10
                            λ a11 w11. (_, w11, refl, (refl, refl, refl))
    where
      next_number :
          (directory : String) (limit : ℕ) (attribute : String)
          (k : Option ℕ → Io W ZonedError DeviceProperties) (w : W)
          → ((a : Option ℕ) (w : W) → Gives (Says model chunk_sectors nr_zones) (k a w))
          → Gives
              (Says model chunk_sectors nr_zones)
              (and_then (optional fs (number fs directory limit path name attribute) w) k)
      next_number directory limit attribute k w =
          optional-Gives (Says model chunk_sectors nr_zones)
            (number fs directory limit path name attribute) k w
            (number-Returns directory limit path name attribute w)

      next_text :
          (directory attribute : String) (k : Option String → Io W ZonedError DeviceProperties)
          (w : W)
          → ((a : Option String) (w : W) → Gives (Says model chunk_sectors nr_zones) (k a w))
          → Gives
              (Says model chunk_sectors nr_zones)
              (and_then (optional fs (read_attr fs directory path name attribute) w) k)
      next_text directory attribute k w =
          optional-Gives (Says model chunk_sectors nr_zones)
            (read_attr fs directory path name attribute) k w
            (read_attr-Returns directory path name attribute w)

  -- Over a file system whose reads come back, `device_properties` gives properties with the model,
  -- the zone size and the zone count as read whenever these three can be read, whatever the other
  -- attributes hold and whether they can be read.
  pub device_properties-Gives :
      (path name : String) (model : DeviceModel) (chunk_sectors nr_zones : ℕ) (w w1 w2 w3 : W)
      → file_name path ≡ some name
      → device_model fs path w ≡ (ok model, w1)
      → number fs "/queue/" u32_mod path name "chunk_sectors" w1 ≡ (ok chunk_sectors, w2)
      → number fs "/queue/" u32_mod path name "nr_zones" w2 ≡ (ok nr_zones, w3)
      → Gives (Says model chunk_sectors nr_zones) (device_properties fs path w)
  unfolding device_properties
  device_properties-Gives path name model chunk_sectors nr_zones w w1 w2 w3 named e1 e2 e3 =
      rw (name_ok, e1, e2, e3, Gives) (gather-Gives path name model chunk_sectors nr_zones w3)
    where
      name_ok : device_name_from_path fs path w ≡ (ok name, w)
      name_ok = name_found path name w named
