-- ===== src/Device/Iter/Complete.antt =====
-- What the iterator of device/iter.rs yields, and what the filtered report of device/mod.rs returns.
use zoned.Base.{
  ℕ, zero, suc, ◌-◌, ◌<◌, ◌≡◌, refl, sym, ap, ◌∙◌, false, none, some, List, [], ◌∷◌, ◌++◌,
  append-nil, append_assoc, arith, lt→leb_false, get_elem?, length, u32_mod, take, drop, select,
  drop-eq-cons, drop-eq-nil, Option-cases, Bool-cases, inl, inr, take-append-drop,
}
use zoned.Errors.{ok}
use zoned.Types.{Zone}
use zoned.Types.Filter.{ZoneFilter, matches}
use zoned.Device.{ZonedDevice, report_zones, batch_or_default}
use zoned.Device.Layout.{Serves, span}
use zoned.Device.Report.{report-rest, split-grown, end_of-batch, lt-end_of-batch, batch-pos}
use zoned.Device.Iter.{
  ZoneIterator, Next, new, take_batch, next, filter_loop, report_zones_filtered,
}

module _ {W : Type 0} (d : ZonedDevice W) (zs : List Zone) (w : W) (served : Serves d zs w) where
  -- An iterator with the zones `todo` still to yield: those left in its buffer, and those behind
  -- the zones `pre` that it has fetched.
  pub record Pending (it : ZoneIterator W) (todo : List Zone) : Type 0 where
    pre : List Zone
    rest : List Zone
    on_device : it.device ≡ d
    size : ℕ
    batch : it.batch_size ≡ suc size
    small : suc size < u32_mod
    split : zs ≡ pre ++ rest
    sector : it.next_sector ≡ span 0 pre
    open_end : it.done ≡ false
    left : todo ≡ drop it.buf_pos it.buffer ++ rest

  pub new-Pending : (b : ℕ) → b < u32_mod → Pending (new d b) zs
  unfolding new
  new-Pending b h = record {
    pre = [];
    rest = zs;
    on_device = refl;
    size = batch_or_default b - 1;
    batch = batch-pos b;
    small = ground arith;
    split = refl;
    sector = refl;
    open_end = refl;
    left = refl;
  }

  -- What a call of `next` comes to with `todo` to yield.
  abbrev pub Yields : List Zone → Next W → Type 0
  Yields [] r = (it : ZoneIterator W) × (r ≡ (none, it, w))
  Yields (z ∷ todo) r = (it : ZoneIterator W) × (r ≡ (some (ok z), it, w)) × Pending it todo

  fetch-Yields :
      (it : ZoneIterator W) (pre rest : List Zone) (size : ℕ)
      → it.device ≡ d
      → it.batch_size ≡ suc size
      → suc size < u32_mod
      → zs ≡ pre ++ rest
      → it.next_sector ≡ span 0 pre
      → it.done ≡ false
      → Yields rest (take_batch it (report_zones it.device it.next_sector it.batch_size w))
  unfolding take_batch
  fetch-Yields it pre [] size on_device batch small split sector open_end =
      rw (on_device, batch, sector, report-rest d zs w served pre [] size small split) (_, refl)
  fetch-Yields it pre (z ∷ r) size on_device batch small split sector open_end =
      rw (on_device, batch, sector, report-rest d zs w served pre (z ∷ r) size small split)
        (
          _,
          refl,
          record {
            pre = pre ++ z ∷ take size r;
            rest = drop size r;
            on_device = refl;
            size = size;
            batch = refl;
            small = small;
            split = split-grown d zs w served pre z r size split;
            sector = end_of-batch d zs w served pre z r size split;
            open_end =
                rw (lt→leb_false _ _ (lt-end_of-batch d zs w served pre z r size split)) open_end;
            left = sym (take-append-drop size r);
          },
        )

  -- A call of `next` yields the first of the zones still to come, and an end when there is none.
  pub next-Yields :
      (it : ZoneIterator W) (todo : List Zone) → Pending it todo → Yields todo (next it w)
  unfolding next
  next-Yields it todo p = elim (Option-cases (get_elem? it.buffer it.buf_pos)) [
    | inl empty ↦
        rw (p.left, drop-eq-nil it.buffer it.buf_pos empty, empty, p.open_end, next)
          (fetch-Yields (record it { done = false }) p.pre p.rest p.size p.on_device p.batch p.small
            p.split p.sector refl)
    | inr (z, found) ↦
        rw (p.left, drop-eq-cons it.buffer it.buf_pos found, found, next)
          (
            _,
            refl,
            record {
              pre = p.pre;
              rest = p.rest;
              on_device = p.on_device;
              size = p.size;
              batch = p.batch;
              small = p.small;
              split = p.split;
              sector = p.sector;
              open_end = p.open_end;
              left = refl;
            },
          )
  ]

  filter_loop_lem :
      (f : ZoneFilter) (todo : List Zone) (fuel : ℕ) (it : ZoneIterator W) (result : List Zone)
      → Pending it todo
      → length todo < fuel
      → filter_loop fuel it f result w ≡ (ok (result ++ select (matches f) todo), w)
  unfolding filter_loop
  filter_loop_lem f [] zero it result p h = absurd (omega arith)
  filter_loop_lem f [] (suc fuel) it result p h =
      rw ((next-Yields it [] p).1) (rw (append-nil result))
  filter_loop_lem f (z ∷ todo) zero it result p h = absurd (omega arith)
  filter_loop_lem f (z ∷ todo) (suc fuel) it result p h =
      let (it', e, p') = next-Yields it (z ∷ todo) p in
      rw e (elim (Bool-cases (matches f z)) [
        | inl hit ↦ rw hit (
            filter_loop_lem f todo fuel it' _ p' (omega arith)
            ∙ ap (λ ys. (ok ys, w)) (append_assoc result (z ∷ []) _))
        | inr miss ↦ rw miss (filter_loop_lem f todo fuel it' result p' (omega arith))
      ])

  -- On a device that reports the zones `zs`, the filtered report returns the zones of `zs` that
  -- match the filter, in order, for every batch size of type u32; it makes one call of `next` for each zone and
  -- one more, so that any larger fuel is enough.
  pub report_zones_filtered-select :
      (fuel : ℕ) (f : ZoneFilter) (b : ℕ)
      → b < u32_mod
      → length zs < fuel
      → report_zones_filtered fuel d f b w ≡ (ok (select (matches f) zs), w)
  unfolding report_zones_filtered
  report_zones_filtered-select fuel f b small h =
      filter_loop_lem f zs fuel (new d b) [] (new-Pending b small) h
