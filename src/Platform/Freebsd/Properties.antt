-- ===== src/Platform/Freebsd/Properties.antt =====
-- platform/freebsd.rs: the properties of a device, from its ioctls.
use zoned.Base.{◌/◌, none}
use zoned.Errors.{Io, return, ◌>>=◌, ZonedError}
use zoned.Types.Properties.{DeviceProperties}
use zoned.Platform.Freebsd.{Ioctls, File, as_u64, device_info, device_model, get_media_size}

module _ {W : Type 0} (io : Ioctls W) where
  -- The fields that have no counterpart on FreeBSD are 0 or absent.
  pub device_properties : File → Io W ZonedError DeviceProperties
  device_properties f = do
    model ← device_model io f
    info ← device_info io f
    media_size ← get_media_size io f
    return (record {
      model = model;
      identity = record { vendor = none; model_name = none };
      geometry = record {
        chunk_sectors = info.zone_size;
        nr_zones = info.nr_zones;
        capacity_sectors = as_u64 media_size / 512;
      };
      limits = record {
        zone_append_max_bytes = 0;
        max_open_zones = none;
        max_active_zones = none;
        max_hw_sectors_kb = 0;
        max_sectors_kb = 0;
      };
      block_sizes = record {
        logical_block_size = f.sector_size;
        physical_block_size = f.sector_size;
      };
      scheduler = none;
    })
