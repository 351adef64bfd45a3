-- ===== src/Tests/Stores.antt =====
-- A stored file of the examples, at the small device.
use zoned.Base.{
  ◌%◌, replicate, length-replicate, add_u64, ℕ, ◌*◌, ◌≡◌, refl, false, String, List, [], ◌∷◌, arith,
  length,
}
use zoned.Errors.{◌>>◌, ok, err, os_error, not_found}
use zoned.Device.Reads.{FullReads}
use zoned.FileSystem.{Fs}
use zoned.Handle.{ZoneHandle}
use zoned.Async.Device.{from_sync}
use zoned.Examples.Layout.{padded-round_up}
use zoned.Examples.Store
use zoned.Examples.Store.{put_padding}
use zoned.Examples.Store.RoundTrip.{load-store_buffered}
use zoned.Examples.Store.Overflow.{write_file-header_alone}
use zoned.Examples.BufWriter.{on_inner, write_all, flush}
use zoned.Device.{write_at}
use zoned.Base.Bytes.{to_le}
use zoned.Examples.StoreAsync.{store, load}
use zoned.Examples.Restores.{Restores}
use zoned.Examples.StoreAsync.RoundTrip.{load-store}
use zoned.Types.{not_write_pointer, implicitly_open, empty}
use zoned.Examples.Listing.{Listing, list_zones, list_zones_async}
use zoned.Examples.Listing.Complete.{list_zones-full_listing}
use zoned.Tests.{Medium, device, blank, four_zones, device-Serves}
use zoned.Tests.Async.{
  threads, threads-Runs, async_device, readable, readable-Storage, readable-Readable,
}

-- Writing a file does nothing to the medium.
abbrev files : Fs Medium
files = record {
  metadata = λ path w. (err (os_error not_found), w);
  read_to_string = λ path w. (err (os_error not_found), w);
  read_dir = λ path w. (err (os_error not_found), w);
  exists = λ path w. false;
  canonicalize = λ path w. (err (os_error not_found), w);
  read = λ path w. (err (os_error not_found), w);
  write = λ path bytes w. (ok tt, w);
}

abbrev zone : ZoneHandle Medium
zone = record {
  device = readable;
  zone_index = 1;
  start = 8;
  len = 8;
  capacity = 8;
  write_pointer = 10;
  registered = false;
}

abbrev content : List ℕ
content = 104 ∷ 105 ∷ 10 ∷ []

readable-FullReads : FullReads readable
readable-FullReads = record { full = λ buf offset w. refl }

stored : store threads content (zone, blank) ≡ (ok tt, (store threads content (zone, blank)).1)
unfolding store zoned.Async.Handle.reset zoned.Async.Handle.write_all_sequential
    zoned.Async.spawn_blocking zoned.Tests.Async.joined zoned.Async.Handle.capacity
    zoned.Types.to_bytes zoned.Handle.reset zoned.Handle.write_all_sequential
    zoned.Handle.write_loop zoned.Handle.write_sequential zoned.Handle.after_write
    zoned.Device.reset_zones zoned.Device.write_at zoned.Device.validate_range
    zoned.Base.Bytes.to_le
stored = refl

load-store_example :
    Restores
      (λ m. m)
      (store threads content (zone, blank)).1.1
      files
      "/tmp/out"
      content
      (load threads files async_device 1 "/tmp/out" (store threads content (zone, blank)).1.1)
unfolding zoned.Async.Device.device_info zoned.Device.device_info
load-store_example =
    load-store threads threads-Runs (λ m. m) files zone (store threads content (zone, blank)).1.0
      async_device blank (store threads content (zone, blank)).1.1 1
      (record { zone_size = 8; nr_zones = 4 }) content "/tmp/out" readable-Storage readable-Readable
      readable-FullReads refl refl (omega arith) (omega arith)
      (omega (arith, padded-round_up content (omega arith))) (omega arith) (omega arith) stored

abbrev listed : Listing
listed = record {
  info = record { zone_size = 8; nr_zones = 4 };
  rows =
      record { index = 0; type_str = "conv"; condition = not_write_pointer; used = 0; capacity = 6 }
      ∷ record {
        index = 1;
        type_str = "seq-req";
        condition = implicitly_open;
        used = 2;
        capacity = 6;
      }
      ∷ record { index = 2; type_str = "seq-req"; condition = empty; used = 0; capacity = 6 }
      ∷ record { index = 3; type_str = "seq-req"; condition = empty; used = 0; capacity = 6 }
      ∷ [];
  empty_seq = 2;
}

list_zones-full_listing_example :
    (list_zones 5 device blank ≡ (ok listed, blank))
    × (list_zones_async threads 5 (from_sync device) blank ≡ (ok listed, blank))
unfolding device-Serves zoned.Types.Filter.matches zoned.Examples.Listing.empty_required
    zoned.Types.Filter.new zoned.Types.Filter.zone_type zoned.Types.Filter.condition
list_zones-full_listing_example =
    list_zones-full_listing device four_zones blank (device-Serves blank) threads threads-Runs 5
      (omega arith) (omega arith)

stored_buffered : Store.store content (zone, blank) ≡ (ok tt, (Store.store content (zone, blank)).1)
unfolding Store.store Store.write_file zoned.Examples.BufWriter.put zoned.Examples.BufWriter.flush
    zoned.Examples.BufWriter.flush_buf zoned.Examples.BufWriter.flush_loop
    zoned.Examples.BufWriter.with_writer zoned.Examples.BufWriter.drop_writer zoned.Types.to_bytes
    zoned.Handle.write zoned.Handle.flush zoned.Handle.reset zoned.Handle.write_sequential
    zoned.Device.reset_zones zoned.Device.fsync zoned.Device.write_at zoned.Device.validate_range
    zoned.Base.Bytes.to_le
stored_buffered = refl

load-store_buffered_example :
    Restores
      (λ m. m)
      (Store.store content (zone, blank)).1.1
      files
      "/tmp/out"
      content
      (Store.load files readable 1 "/tmp/out" (Store.store content (zone, blank)).1.1)
unfolding zoned.Device.device_info zoned.Device.fsync
load-store_buffered_example =
    load-store_buffered (λ m. m) files zone (Store.store content (zone, blank)).1.0 readable blank
      (Store.store content (zone, blank)).1.1 1 (record { zone_size = 8; nr_zones = 4 }) content
      "/tmp/out" readable-Storage (λ w i. refl) readable-Readable readable-FullReads refl refl
      (omega arith) (omega arith) (omega (arith, padded-round_up content (omega arith)))
      (omega arith) (omega arith) stored_buffered

abbrev large : List ℕ
large = replicate 131072 7

abbrev header_written : Medium
header_written = (write_at device 10 (to_le 8 (length large)) blank).1

write_file-header_alone_example :
    Store.write_file large ([], (record zone { device = device }, blank))
    ≡ (do
      on_inner (write_all (length large) large)
      put_padding (add_u64 8 (length large) % 4096)
      flush)
        ([], (record zone { device = device }, header_written))
unfolding write_at to_le
write_file-header_alone_example =
    write_file-header_alone large (record zone { device = device }) blank header_written
      (omega (arith, length-replicate {A = ℕ} 131072 7)) (omega arith) (omega arith) refl
