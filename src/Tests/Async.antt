-- ===== src/Tests/Async.antt =====
-- The async wrappers of async_api at the small device.
use zoned.Base.{
  ℕ, ◌≡◌, refl, ap, sym, append-nil, drop-length, false, String, none, some, List, [], ◌∷◌, arith,
  length, replicate,
}
use zoned.Errors.{Outcome, ok, err, panic, timeout, ZonedError}
use zoned.Device.{ZonedDevice}
use zoned.Device.Storage.{Storage}
use zoned.Device.Reads.{Readable, bytes_at}
use zoned.Handle.{ZoneHandle}
use zoned.Async.{Runtime, Runs}
use zoned.Async.Device.{AsyncZonedDevice, read_at, write_all_at}
use zoned.Async.Handle.{write_all_sequential}
use zoned.Async.Reads.{ReadsBack, read_at-written}
use zoned.Async.Shared.{Tasks, takes_lock, writes, here, next, idle, InOrder}
use zoned.Async.Shared.Order.{reachable-InOrder}
use zoned.Tests.{Medium, platform, device, blank, device-Storage}

unfoldable pub joined :
    {W T : Type 0} → Outcome ZonedError T × W → Outcome String (Outcome ZonedError T) × W
joined (ok a, w) = (ok (ok a), w)
joined (err e, w) = (ok (err e), w)
joined (panic, w) = (err "task panicked", w)
joined (timeout, w) = (timeout, w)

abbrev pub threads : Runtime
threads = record { spawn = λ f w. joined (f w) }

pub threads-Runs : Runs threads
unfolding joined
threads-Runs = record {
  passes_ok = λ f a w w' e. ap joined e;
  passes_err = λ f x w w' e. ap joined e;
  joins_panic = λ f w w' e. ("task panicked", ap joined e);
  waits = λ f w w' e. ap joined e;
}

-- Reads fill their buffer.
abbrev pub readable : ZonedDevice Medium
readable = record {
  inner = record platform {
    read_at = λ buf offset m. (ok (length buf, bytes_at m offset (length buf)), m);
  };
}

pub readable-Storage : Storage readable (λ m. m)
readable-Storage = record { honest = device-Storage.honest }

pub readable-Readable : Readable readable (λ m. m)
readable-Readable = record {
  honest = λ buf offset w. (
    omega arith,
    rw (drop-length buf) (sym (append-nil (bytes_at w offset (length buf)))),
    (λ i. refl),
  );
}

abbrev pub async_device : AsyncZonedDevice Medium
async_device = record { inner = readable }

abbrev pub two_sectors : List ℕ
two_sectors = replicate 1024 7

written :
    write_all_at threads async_device 8 two_sectors blank
    ≡ (ok tt, (write_all_at threads async_device 8 two_sectors blank).1)
unfolding joined write_all_at zoned.Async.spawn_blocking zoned.Device.write_all_at
    zoned.Device.write_loop zoned.Device.after_write zoned.Device.write_at
written = refl

read_at-written_example :
    ReadsBack
      (λ m. m)
      (write_all_at threads async_device 8 two_sectors blank).1
      two_sectors
      1000
      (read_at threads async_device 8 1000
        (write_all_at threads async_device 8 two_sectors blank).1)
read_at-written_example =
    read_at-written threads threads-Runs (λ m. m) async_device readable-Storage readable-Readable 8
      two_sectors 1000 blank (write_all_at threads async_device 8 two_sectors blank).1 (omega arith)
      refl (omega arith) written

abbrev pub zone : ZoneHandle Medium
zone = record {
  device = device;
  zone_index = 1;
  start = 8;
  len = 8;
  capacity = 6;
  write_pointer = 10;
  registered = false;
}

-- Of two tasks, the second takes the lock first.
abbrev pub before : Tasks Medium
before = idle (two_sectors ∷ replicate 512 5 ∷ []) zone blank

reachable-InOrder_example :
    InOrder
      (λ m. m)
      blank
      zone
      (two_sectors ∷ replicate 512 5 ∷ [])
      (record before {
        lock = none;
        waiting = two_sectors ∷ [];
        finished =
            (replicate 512 5, (write_all_sequential threads (replicate 512 5) (zone, blank)).0)
            ∷ [];
        shared = (write_all_sequential threads (replicate 512 5) (zone, blank)).1;
      })
unfolding joined write_all_sequential zoned.Async.spawn_blocking zoned.Handle.write_all_sequential
    zoned.Handle.write_loop zoned.Handle.after_write zoned.Handle.write_sequential
    zoned.Device.write_at
reachable-InOrder_example =
    reachable-InOrder threads threads-Runs (λ m. m) zone blank (two_sectors ∷ replicate 512 5 ∷ [])
      device-Storage (omega arith) (refl, (refl, tt))
      (next (next here (takes_lock before (two_sectors ∷ []) [] (replicate 512 5) refl refl)) (
        writes (record before { lock = some (replicate 512 5); waiting = two_sectors ∷ [] })
          (replicate 512 5) refl tt))
