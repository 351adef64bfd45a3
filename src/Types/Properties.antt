-- ===== src/Types/Properties.antt =====
-- types/mod.rs: the extended properties of a device.
use zoned.Base.{ℕ, String, Option}
use zoned.Types.{Sector, DeviceModel}

pub record DeviceIdentity : Type 0 where
  pub vendor : Option String
  pub model_name : Option String

pub record DeviceGeometry : Type 0 where
  pub chunk_sectors : Sector
  pub nr_zones : ℕ
  pub capacity_sectors : Sector

pub record DeviceLimits : Type 0 where
  pub zone_append_max_bytes : ℕ
  pub max_open_zones : Option ℕ
  pub max_active_zones : Option ℕ
  pub max_hw_sectors_kb : ℕ
  pub max_sectors_kb : ℕ

pub record BlockSizes : Type 0 where
  pub logical_block_size : ℕ
  pub physical_block_size : ℕ

pub record DeviceProperties : Type 0 where
  pub model : DeviceModel
  pub identity : DeviceIdentity
  pub geometry : DeviceGeometry
  pub limits : DeviceLimits
  pub block_sizes : BlockSizes
  pub scheduler : Option String
