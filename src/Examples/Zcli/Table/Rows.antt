-- ===== src/Examples/Zcli/Table/Rows.antt =====
-- What `run_report` and `run_zones` of examples/zcli.rs print of a device that reports its zones.
use zoned.Base.{
  ℕ, zero, suc, ◌*◌, ◌<◌, ◌≡◌, refl, ap, inl, inr, Bool-cases, Option, List, [], ◌∷◌, arith, lt→ltb,
  if◌then◌else◌, take, length, select, u32_mod, ◌-◌,
}
use zoned.Errors.{ok}
use zoned.Types.{Sector, Zone}
use zoned.Types.Filter.{ZoneFilter, matches}
use zoned.Device.{ZonedDevice}
use zoned.Device.Layout.{Serves}
use zoned.Device.Iter.Complete.{report_zones_filtered-select}
use zoned.Examples.Zcli.{ZoneRow, zone_row, zone_rows, index_of}
use zoned.Examples.Zcli.Arguments.{ZoneTypeArg, ZoneCondArg}
use zoned.Examples.Zcli.Table.{filter_of, shown, show_zones}

-- Each zone, from the index `idx` on, starts at a multiple of the zone size by its index.
abbrev pub Uniform : Sector → ℕ → List Zone → Type 0
Uniform zone_size idx [] = Unit {0}
Uniform zone_size idx (z ∷ zs) = (z.start ≡ idx * zone_size) × Uniform zone_size (suc idx) zs

-- The rows of zones that are numbered from `idx` on.
abbrev pub numbered : ℕ → List Zone → List ZoneRow
numbered idx [] = []
numbered idx (z ∷ zs) = zone_row idx z ∷ numbered (suc idx) zs

-- The rows of those that match a filter, with their numbers among all.
abbrev pub matching : ZoneFilter → ℕ → List Zone → List ZoneRow
matching f idx [] = []
matching f idx (z ∷ zs) =
    let rest : List ZoneRow = matching f (suc idx) zs in
    if matches f z then zone_row idx z ∷ rest else rest

index_of-uniform :
    (zone_size idx : ℕ) (z : Zone)
    → 0 < zone_size
    → z.start ≡ idx * zone_size
    → index_of zone_size z ≡ idx
index_of-uniform zone_size idx z h e = rw (lt→ltb 0 zone_size h, e) (grind arith)

zone_rows-matching :
    (f : ZoneFilter) (zone_size idx : ℕ) (zs : List Zone)
    → 0 < zone_size
    → Uniform zone_size idx zs
    → zone_rows zone_size (select (matches f) zs) ≡ matching f idx zs
zone_rows-matching f zone_size idx [] h u = refl
zone_rows-matching f zone_size idx (z ∷ zs) h u = elim (Bool-cases (matches f z)) [
  | inl hit ↦ rw hit (
      rw (index_of-uniform zone_size idx z h u.0, zone_rows-matching f zone_size (suc idx) zs h u.1)
        refl)
  | inr miss ↦ rw miss (zone_rows-matching f zone_size (suc idx) zs h u.1)
]

zone_rows-take :
    (zone_size n : ℕ) (zs : List Zone)
    → zone_rows zone_size (take n zs) ≡ take n (zone_rows zone_size zs)
zone_rows-take zone_size zero zs = refl
zone_rows-take zone_size (suc n) [] = refl
zone_rows-take zone_size (suc n) (z ∷ zs) =
    ap (◌∷◌ (zone_row (index_of zone_size z) z)) (zone_rows-take zone_size n zs)

module _ {W : Type 0} (d : ZonedDevice W) (zs : List Zone) (w : W) (served : Serves d zs w)
    (sized : 0 < served.info.zone_size) (uniform : Uniform served.info.zone_size 0 zs) where
  -- On such a device `run_zones` prints the zones that match the filter in order, each under its index among all zones,
  -- up to the count that is asked for, and how many there are and are left out; any fuel above the count of the
  -- zones is enough.
  pub show_zones-matching :
      (fuel : ℕ) (zone_type : Option ZoneTypeArg) (condition : Option ZoneCondArg)
      (count : Option ℕ) (b : ℕ)
      → b < u32_mod
      → length zs < fuel
      → show_zones fuel d zone_type condition count b w ≡ (
        ok (record {
          matching = length (select (matches (filter_of zone_type condition)) zs);
          display_count =
              shown count (length (select (matches (filter_of zone_type condition)) zs));
          rows =
              take
                (shown count (length (select (matches (filter_of zone_type condition)) zs)))
                (matching (filter_of zone_type condition) 0 zs);
          not_shown =
              length (select (matches (filter_of zone_type condition)) zs)
              - shown count (length (select (matches (filter_of zone_type condition)) zs));
        }),
        w,
      )
  unfolding show_zones
  show_zones-matching fuel zone_type condition count b small enough =
      rw
        (
          report_zones_filtered-select d zs w served fuel (filter_of zone_type condition) b small
              enough,
          served.info_answer,
          zone_rows-take served.info.zone_size
              (shown count (length (select (matches (filter_of zone_type condition)) zs)))
              (select (matches (filter_of zone_type condition)) zs),
          zone_rows-matching (filter_of zone_type condition) served.info.zone_size 0 zs sized
              uniform,
        )
        refl
