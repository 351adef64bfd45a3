-- ===== src/Platform/Linux/Report.antt =====
-- A report of platform/linux.rs: what the kernel writes into the buffer comes back as zones.
use zoned.Base.{
  ℕ, zero, suc, ◌+◌, ◌*◌, ◌%◌, ◌^◌, ◌≤◌, ◌<◌, ◌≡◌, refl, ap, sym, ◌∙◌, Bool, List, [], ◌∷◌, ◌++◌,
  arith, leb, ◌==◌, if◌then◌else◌, length, take, drop, drop-add, length-drop, le→ltb_false,
  lt→==_false, length-take, u32_mod, u64_mod, Bool-cases, inl, inr,
}
use zoned.Base.Bytes.{to_le, from_le-to_le}
use zoned.Errors.{ok}
use zoned.Types.{Sector, Zone}
use zoned.Platform.Linux.Struct.{
  BlkZone, write_blk_zone, read_blk_zone, blk_zone_to_zone, Fits, read-write_blk_zone,
  drop-write_blk_zone, length-write_blk_zone,
}
use zoned.Device.Layout.{Contiguous, from_sector, Serves}
use zoned.Platform.Linux.{
  blkgetzonesz_nr, blkgetnrzones_nr, device_info, platform, Ioctls, File, returned_zones,
  has_capacity, read_zones, report_zones, request,
}

-- The bytes of a list of structs in front of others.
abbrev pub write_zones : List BlkZone → List ℕ → List ℕ
write_zones [] tail = tail
write_zones (z ∷ zs) tail = write_blk_zone z (write_zones zs tail)

-- A response: the header with the count of zones and the flags, the zones, and unused room.
abbrev pub response : Sector → ℕ → List BlkZone → List ℕ → List ℕ
response sector flags zs tail =
    to_le 8 sector ++ (to_le 4 (length zs) ++ (to_le 4 flags ++ write_zones zs tail))

abbrev pub AllFit : List BlkZone → Type 0
AllFit [] = Unit {0}
AllFit (z ∷ zs) = Fits z × AllFit zs

-- The crate's zones for the structs.
abbrev pub convert : Bool → List BlkZone → List Zone
convert capacity [] = []
convert capacity (z ∷ zs) = blk_zone_to_zone z capacity ∷ convert capacity zs

read_zones_lem :
    (zs : List BlkZone) (tail buf : List ℕ) (i : ℕ) (capacity : Bool)
    → AllFit zs
    → drop (16 + i * 64) buf ≡ write_zones zs tail
    → read_zones (length zs) i capacity buf ≡ convert capacity zs
unfolding read_zones
read_zones_lem [] tail buf i capacity f e = refl
read_zones_lem (z ∷ zs) tail buf i capacity f e =
    rw (le→ltb_false (length buf) (16 + i * 64 + 64) room) (λ j.
      blk_zone_to_zone (first j) capacity
      ∷ read_zones_lem zs tail buf (suc i) capacity f.1 behind j)
  where
    room : 16 + i * 64 + 64 ≤ length buf
    room = omega (
      arith,
      ap length e,
      length-drop (16 + i * 64) buf,
      length-write_blk_zone z (write_zones zs tail),
    )

    first : read_blk_zone (drop (16 + i * 64) buf) ≡ z
    first = ap read_blk_zone e ∙ read-write_blk_zone z (write_zones zs tail) f.0

    behind : drop (16 + suc i * 64) buf ≡ write_zones zs tail
    behind =
        ap (λ n. drop n buf) (omega arith)
        ∙ drop-add (16 + i * 64) 64 buf
        ∙ ap (drop 64) e
        ∙ drop-write_blk_zone z (write_zones zs tail)

-- What `report_zones` reads out of a response of fewer than 2^32 zones, whose fields are in the
-- range of their types, is those zones, converted in order.
pub report_zones-response :
    (sector flags : ℕ) (zs : List BlkZone) (tail : List ℕ)
    → length zs < 256 ^ 4
    → flags < 256 ^ 4
    → AllFit zs
    → let buf = response sector flags zs tail in
      read_zones (returned_zones buf) 0 (has_capacity buf) buf ≡ convert (flags % 2 == 1) zs
unfolding returned_zones has_capacity to_le
report_zones-response sector flags zs tail h k f =
    rw (from_le-to_le 4 (length zs) h, from_le-to_le 4 flags k)
      (read_zones_lem zs tail _ 0 _ f refl)

-- The structs of the zones that end behind a sector.
abbrev pub entries_from : Sector → List BlkZone → List BlkZone
entries_from s [] = []
entries_from s (z ∷ zs) = if leb (z.start + z.len) s then entries_from s zs else z ∷ zs

-- A kernel that answers for the zones `zs`, in the documented way: the size and the count of the
-- zones, and for a report a response with the first `count` of the zones from the sector on.
pub record Answers {W : Type 0} (io : Ioctls W) (f : File) (flags : ℕ) (zs : List BlkZone) (w : W)
    : Type 0 where
  pub zone_size : ℕ
  pub size_answer : io.ioctl_read_u32 f.fd blkgetzonesz_nr w ≡ (ok zone_size, w)
  pub size_positive : 0 < zone_size
  pub count_answer : io.ioctl_read_u32 f.fd blkgetnrzones_nr w ≡ (ok (length zs), w)
  pub count_fits : length zs < 256 ^ 4
  pub flags_fit : flags < 256 ^ 4
  pub all_fit : AllFit zs
  pub tail : Sector → ℕ → List ℕ
  pub report_answer :
      (s : Sector) (count : ℕ)
      → s < u64_mod
      → 0 < count
      → count < u32_mod
      → io.ioctl_report f.fd (request s count) w
        ≡ (ok (response s flags (take count (entries_from s zs)) (tail s count)), w)

convert-take :
    (n : ℕ) (b : Bool) (zs : List BlkZone) → convert b (take n zs) ≡ take n (convert b zs)
convert-take zero b zs = refl
convert-take (suc n) b [] = refl
convert-take (suc n) b (z ∷ zs) = ap (◌∷◌ (blk_zone_to_zone z b)) (convert-take n b zs)

convert-entries_from :
    (s : Sector) (b : Bool) (zs : List BlkZone)
    → convert b (entries_from s zs) ≡ from_sector s (convert b zs)
unfolding blk_zone_to_zone
convert-entries_from s b [] = refl
convert-entries_from s b (z ∷ zs) = elim (Bool-cases (leb (z.start + z.len) s)) [
  | inl skip ↦ rw skip (convert-entries_from s b zs)
  | inr keep ↦ rw keep
]

length-convert : (b : Bool) (zs : List BlkZone) → length (convert b zs) ≡ length zs
length-convert b [] = refl
length-convert b (z ∷ zs) = ap suc (length-convert b zs)

AllFit-take : (n : ℕ) (zs : List BlkZone) → AllFit zs → AllFit (take n zs)
AllFit-take zero zs f = tt
AllFit-take (suc n) [] f = tt
AllFit-take (suc n) (z ∷ zs) f = (f.0, AllFit-take n zs f.1)

AllFit-entries_from : (s : Sector) (zs : List BlkZone) → AllFit zs → AllFit (entries_from s zs)
AllFit-entries_from s [] f = tt
AllFit-entries_from s (z ∷ zs) f = elim (Bool-cases (leb (z.start + z.len) s)) [
  | inl skip ↦ rw skip (AllFit-entries_from s zs f.1)
  | inr keep ↦ rw keep f
]

length-entries_from : (s : Sector) (zs : List BlkZone) → length (entries_from s zs) ≤ length zs
length-entries_from s [] = omega arith
length-entries_from s (z ∷ zs) = ground (arith, length-entries_from s zs)

module _ {W : Type 0} (io : Ioctls W) (f : File) (flags : ℕ) (zs : List BlkZone) (w : W)
    (a : Answers io f flags zs w) where
  linux_report :
      (s : Sector) (count : ℕ)
      → s < u64_mod
      → 0 < count
      → count < u32_mod
      → report_zones io f s count w
        ≡ (ok (take count (from_sector s (convert (flags % 2 == 1) zs))), w)
  unfolding report_zones
  linux_report s count range h small = rw (
    lt→==_false count h,
    a.report_answer s count range h small,
    report_zones-response s flags (take count (entries_from s zs)) (a.tail s count)
        (omega
          (arith, a.count_fits, length-take count (entries_from s zs), length-entries_from s zs))
        a.flags_fit (AllFit-take count (entries_from s zs) (AllFit-entries_from s zs a.all_fit)),
    convert-take count (flags % 2 == 1) (entries_from s zs),
    convert-entries_from s (flags % 2 == 1) zs,
  )

  -- Over a kernel that answers in the documented way for contiguous zones, the Linux platform is a
  -- platform that reports those zones, converted, from the one that holds the sector on, so that the
  -- first may start before the sector: what `report_all_zones` and the iterator rely on.
  pub platform-Serves :
      Contiguous 0 (convert (flags % 2 == 1) zs)
      → Serves (record { inner = platform io f }) (convert (flags % 2 == 1) zs) w
  unfolding platform device_info zoned.Device.report_zones zoned.Device.device_info
  platform-Serves layout = record {
    layout = layout;
    info = record { zone_size = a.zone_size; nr_zones = length zs };
    info_answer = rw (a.size_answer, a.count_answer, lt→==_false a.zone_size a.size_positive);
    info_count = sym (length-convert (flags % 2 == 1) zs);
    answers = linux_report;
  }
