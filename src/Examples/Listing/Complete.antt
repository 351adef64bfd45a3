-- ===== src/Examples/Listing/Complete.antt =====
-- What `cmd_list` prints of a device that reports its zones.
use zoned.Base.{
  ℕ, zero, suc, ◌+◌, ◌%◌, u32_mod, ◌<◌, ◌≡◌, refl, ap, ◌∙◌, List, [], ◌∷◌, ◌++◌, append-nil,
  append_assoc, arith, length, select,
}
use zoned.Errors.{ok}
use zoned.Types.{Zone}
use zoned.Types.Filter.{matches}
use zoned.Device
use zoned.Device.{ZonedDevice}
use zoned.Device.Layout.{Serves}
use zoned.Device.Report.{report_all_zones_complete}
use zoned.Device.Iter
use zoned.Device.Iter.{ZoneIterator}
use zoned.Device.Iter.Complete.{Pending, new-Pending, next-Yields, report_zones_filtered-select}
use zoned.Async.{Runtime, Runs, spawn_blocking-ok}
use zoned.Async.Device as AsyncDevice
use zoned.Examples.Listing.{
  Row, Listing, row, rows_from, empty_required, row_loop, list_zones, list_zones_async,
}

module _ {W : Type 0} (d : ZonedDevice W) (zs : List Zone) (w : W) (served : Serves d zs w) where
  row_loop_lem :
      (todo : List Zone) (fuel : ℕ) (it : ZoneIterator W) (idx : ℕ) (rows : List Row)
      → Pending d zs w served it todo
      → length todo < fuel
      → idx + length todo < u32_mod
      → row_loop fuel it idx rows w ≡ (ok (rows ++ rows_from idx todo), w)
  unfolding row_loop
  row_loop_lem [] zero it idx rows p h small = absurd (omega arith)
  row_loop_lem [] (suc fuel) it idx rows p h small =
      rw ((next-Yields d zs w served it [] p).1) (rw (append-nil rows))
  row_loop_lem (z ∷ todo) zero it idx rows p h small = absurd (omega arith)
  row_loop_lem (z ∷ todo) (suc fuel) it idx rows p h small =
      let (it', e, p') = next-Yields d zs w served it (z ∷ todo) p in
      let next_idx : suc idx % u32_mod ≡ suc idx = omega arith in
      rw (e, next_idx)
        (row_loop_lem todo fuel it' (suc idx) _ p' (omega arith) (omega arith)
          ∙ ap (λ ys. (ok ys, w)) (append_assoc rows (row idx z ∷ []) (rows_from (suc idx) todo)))

  -- The listing of all the zones.
  abbrev pub full_listing : Listing
  full_listing = record {
    info = served.info;
    rows = rows_from 0 zs;
    empty_seq = length (select (matches empty_required) zs);
  }

  -- On a device that reports its contiguous zones, fewer than 2^32, both programs print a line for each zone, numbered
  -- from 0, in order, and the count of the empty zones that require sequential writes, the async one
  -- in a runtime that runs its calls. Any fuel above the count of the zones is enough.
  pub list_zones-full_listing :
      (rt : Runtime)
      → Runs rt
      → (fuel : ℕ) → length zs < fuel
      → length zs < u32_mod
      → (list_zones fuel d w ≡ (ok full_listing, w))
        × (list_zones_async rt fuel (AsyncDevice.from_sync d) w ≡ (ok full_listing, w))
  unfolding list_zones list_zones_async AsyncDevice.device_info AsyncDevice.report_all_zones
      AsyncDevice.report_zones_filtered
  list_zones-full_listing rt runs fuel enough few = (
    rw
        (
          served.info_answer,
          row_loop_lem zs fuel (Iter.new d 256) 0 [] (new-Pending d zs w served 256 (omega arith))
              enough (omega arith),
          report_zones_filtered-select d zs w served fuel empty_required 512 (omega arith) enough,
        )
        refl,
    rw
        (
          served.info_answer,
          spawn_blocking-ok rt runs (Device.report_all_zones d 256) w w zs
              (report_all_zones_complete d zs w served 256 (omega arith)),
          spawn_blocking-ok rt runs (Iter.report_zones_filtered fuel d empty_required 512) w w _ (
              report_zones_filtered-select d zs w served fuel empty_required 512 (omega arith)
                enough),
        )
        refl,
  )
