-- ===== src/Device/Iter.antt =====
-- device/iter.rs: the lazy iterator over the zones, and the filtered report of device/mod.rs that
-- is a loop over it.
pub mod Complete
use zoned.Base.{
  ℕ, zero, suc, Bool, true, false, Option, none, some, List, [], ◌∷◌, ◌++◌, leb, if◌then◌else◌,
  get_elem?, last_or,
}
use zoned.Errors.{Outcome, ok, err, panic, timeout, ZonedError}
use zoned.Types.{Sector, Zone, end_of}
use zoned.Types.Filter.{ZoneFilter, matches}
use zoned.Device.{ZonedDevice, Zio, report_zones, batch_or_default}

pub record ZoneIterator (W : Type 0) : Type 0 where
  pub device : ZonedDevice W
  pub batch_size : ℕ
  pub buffer : List Zone
  pub buf_pos : ℕ
  pub next_sector : Sector
  pub done : Bool

-- What a call of `next` comes to: the item, the iterator after it and the world after it.
abbrev pub Next : Type 0 → Type 0
Next W = Option (Outcome ZonedError Zone) × ZoneIterator W × W

module _ {W : Type 0} where
  unfoldable pub new : ZonedDevice W → ℕ → ZoneIterator W
  new d batch_size = record {
    device = d;
    batch_size = batch_or_default batch_size;
    buffer = [];
    buf_pos = 0;
    next_sector = 0;
    done = false;
  }

  -- `ZonedDevice::zone_iter`.
  abbrev pub zone_iter : ZonedDevice W → ℕ → ZoneIterator W
  zone_iter d batch_size = new d batch_size

  -- What `next` makes of the batch that it fetched. A panic below is the call's own.
  take_batch : ZoneIterator W → Outcome ZonedError (List Zone) × W → Next W
  take_batch it (ok [], w) = (none, record it { done = true }, w)
  take_batch it (ok (z ∷ zs), w) =
      let next : Sector = end_of (last_or z zs) in
      (
        some (ok z),
        record it {
          done = if leb next it.next_sector then true else it.done;
          next_sector = next;
          buffer = z ∷ zs;
          buf_pos = 1;
        },
        w,
      )
  take_batch it (err e, w) = (some (err e), record it { done = true }, w)
  take_batch it (panic, w) = (some panic, it, w)
  take_batch it (timeout, w) = (some timeout, it, w)

  unfoldable pub next : ZoneIterator W → W → Next W
  unfolding take_batch
  next it w = elim (get_elem? it.buffer it.buf_pos) [
    | some zone ↦ (some (ok zone), record it { buf_pos = suc it.buf_pos }, w)
    | none ↦
        if it.done
        then (none, it, w)
        else take_batch it (report_zones it.device it.next_sector it.batch_size w)
  ]

  -- `for zone in …` with `?` on each item: `rest` is what follows an item.
  abbrev pub for_each :
      {A : Type 0} → (ZoneIterator W → Zone → Zio W A) → A → Next W → Outcome ZonedError A × W
  for_each rest result (none, it, w) = (ok result, w)
  for_each rest result (some (ok zone), it, w) = rest it zone w
  for_each rest result (some (err e), it, w) = (err e, w)
  for_each rest result (some panic, it, w) = (panic, w)
  for_each rest result (some timeout, it, w) = (timeout, w)

  pub filter_loop : ℕ → ZoneIterator W → ZoneFilter → List Zone → Zio W (List Zone)
  filter_loop zero it f result w = (timeout, w)
  filter_loop (suc fuel) it f result w =
      for_each
        (λ it' zone.
          filter_loop fuel it' f (if matches f zone then result ++ zone ∷ [] else result))
        result (next it w)

  pub report_zones_filtered : ℕ → ZonedDevice W → ZoneFilter → ℕ → Zio W (List Zone)
  report_zones_filtered fuel d f batch_size = filter_loop fuel (zone_iter d batch_size) f []
