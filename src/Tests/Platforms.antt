-- ===== src/Tests/Platforms.antt =====
-- Both platforms over a kernel whose file is a medium.
use zoned.Base.{
  ℕ, ◌*◌, ◌≡◌, refl, true, false, List, [], ◌∷◌, arith, ℤ, pos, negsuc, length, min, take,
  replicate, u64_mod,
}
use mathlib.Core.List.{flatten}
use zoned.Errors.{Outcome, IoError, ok, err, os_error, unsupported}
use zoned.Platform.Kernel.{Kernel}
use zoned.Platform.Linux
use zoned.Platform.Freebsd
use zoned.Platform.Writes.{Vectored, PosixWrites, Stores, off_t_end}
use zoned.Platform.Writes.Stored.{platforms-Stores}
use zoned.Device.{write_at, writev_at}
use zoned.Device.Storage.{overlay}
use zoned.Device.Reads.{bytes_at}
use zoned.Tests.{Medium, blank}

-- A vectored write, of at most two sectors.
abbrev put_vectored : ℤ → List ℕ → Medium → Outcome IoError ℤ × Medium
put_vectored (pos offset) bytes m =
    (ok (pos (min (length bytes) 1024)), overlay m offset (take (min (length bytes) 1024) bytes))
put_vectored (negsuc x) bytes m = (ok (negsuc 0), m)

-- A write takes at most two sectors.
abbrev kernel : Kernel Medium
kernel = record {
  open_file = λ path mode w. (ok 3, w);
  sync_all = λ fd w. (ok tt, w);
  pwrite = λ fd buf offset m.
      (ok (min (length buf) 1024), overlay m offset (take (min (length buf) 1024) buf));
  pread = λ fd buf offset m. (ok (length buf, bytes_at m offset (length buf)), m);
  pwritev = λ fd bufs offset m. put_vectored offset (flatten bufs) m;
  preadv = λ fd bufs offset w. (ok (pos 0, bufs), w);
  last_os_error = λ w. os_error unsupported;
}

put_vectored-Vectored :
    (offset : ℤ) (bytes : List ℕ) (m : Medium)
    → Vectored (λ w. w) m offset bytes (put_vectored offset bytes m)
put_vectored-Vectored (pos offset) bytes m = (omega arith, (λ h. omega arith), (λ i. refl))
put_vectored-Vectored (negsuc x) bytes m = λ i. refl

kernel-PosixWrites : PosixWrites kernel 3 (λ m. m)
kernel-PosixWrites = record {
  pwrites = λ buf offset w. (omega arith, (λ h. omega arith), (λ i. refl));
  pwritevs = λ bufs offset w. put_vectored-Vectored offset (flatten bufs) w;
}

abbrev linux : Linux.Ioctls Medium
linux = record {
  kernel = kernel;
  ioctl_read_u32 = λ fd nr w. (ok 8, w);
  ioctl_report = λ fd buf w. (ok buf, w);
  ioctl_range = λ fd nr range w. (ok tt, w);
}

abbrev linux_file : Linux.File
linux_file = record { fd = 3; path = "/dev/sdb"; writable = true }

abbrev freebsd : Freebsd.Ioctls Medium
freebsd = record {
  kernel = kernel;
  sector_size = λ fd w. (ok 512, w);
  media_size = λ fd w. (ok (pos 16384), w);
  params = λ fd w. (
    ok (record {
      zone_mode = 4;
      flags = 0;
      optimal_seq_zones = 0;
      optimal_nonseq_zones = 0;
      max_seq_zones = 0;
    }),
    w,
  );
  report = λ fd lba allocated w. (ok ([], 0), w);
  command = λ fd cmd lba flags w. (ok tt, w);
}

abbrev freebsd_file : Freebsd.File
freebsd_file = record {
  fd = 3;
  path = "/dev/da0";
  writable = false;
  sector_size = 512;
  lba_scale = 1;
}

abbrev one_sector : List ℕ
one_sector = replicate 512 7

platforms-Stores_example :
    (Stores
        (λ m. m)
        "/dev/sdb"
        true
        (λ e w'. kernel.pwrite 3 one_sector (8 * 512) blank ≡ (err e, w'))
        u64_mod
        8
        one_sector
        blank
        (write_at (record { inner = Linux.platform linux linux_file }) 8 one_sector blank)
      × Stores
          (λ m. m)
          "/dev/sdb"
          true
          (λ e w'. e ≡ os_error unsupported)
          off_t_end
          8
          (flatten (one_sector ∷ one_sector ∷ []))
          blank
          (writev_at
            (record { inner = Linux.platform linux linux_file })
            8
            (one_sector ∷ one_sector ∷ [])
            blank))
    × (Stores
          (λ m. m)
          "/dev/da0"
          false
          (λ e w'. kernel.pwrite 3 one_sector (8 * 512) blank ≡ (err e, w'))
          u64_mod
          8
          one_sector
          blank
          (write_at (record { inner = Freebsd.platform freebsd freebsd_file }) 8 one_sector blank)
        × Stores
            (λ m. m)
            "/dev/da0"
            false
            (λ e w'. e ≡ os_error unsupported)
            off_t_end
            8
            (flatten (one_sector ∷ one_sector ∷ []))
            blank
            (writev_at
              (record { inner = Freebsd.platform freebsd freebsd_file })
              8
              (one_sector ∷ one_sector ∷ [])
              blank))
platforms-Stores_example =
    platforms-Stores (λ m. m) linux linux_file freebsd freebsd_file kernel-PosixWrites
      kernel-PosixWrites 8 one_sector (one_sector ∷ one_sector ∷ []) blank
