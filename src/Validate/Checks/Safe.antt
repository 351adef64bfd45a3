-- ===== src/Validate/Checks/Safe.antt =====
-- The checks of validate/mod.rs behind the builder of device/builder.rs, all four together, on Linux.
use zoned.Base.{◌≡◌, ◌≢◌, String, true, some, List, [], inl, inr, Bool-cases, map}
use zoned.Base.Text.Edit.{file_name}
use zoned.Errors.{ok}
use zoned.Types.{DeviceModel, unzoned, host_aware, host_managed}
use zoned.FileSystem.{Fs, Metadata, entry}
use zoned.Sysfs.{device_model}
use zoned.Device.{ZonedDevice}
use zoned.Device.Builder.{Opener, DeviceBuilder, open_device}
use zoned.Device.Builder.Order.{open_device-Passed}
use zoned.Validate.{is_device, is_block_device, is_not_mounted, dev_major, dev_minor}
use zoned.Validate.Mounts.{Mount, AllWellFormed, table, NoneNames, is_not_mounted-first}
use zoned.Validate.Partitions.{is_partition, select_names, sysfs_dir, has_no_partitions}
use zoned.Validate.Partitions.Listed.{has_no_partitions-Listing}
use zoned.Validate.Checks.{zoned_or_error, is_zoned_device, linux_checks}

-- A file system at rest: what it says of a device does not change between the checks.
pub record AtRest {W : Type 0} (fs : Fs W) (path : String) : Type 0 where
  pub stat : Metadata
  pub mounts : List Mount
  pub dev_name : String
  pub entries : List String
  pub model : DeviceModel
  pub stat_answer : (w : W) → fs.metadata path w ≡ (ok stat, w)
  pub mounts_answer : (w : W) → fs.read_to_string "/proc/self/mountinfo" w ≡ (ok (table mounts), w)
  pub mounts_formed : AllWellFormed mounts
  pub named : file_name path ≡ some dev_name
  pub has_dir : (w : W) → fs.exists (sysfs_dir dev_name) w ≡ true
  pub dir_answer : (w : W) → fs.read_dir (sysfs_dir dev_name) w ≡ (ok (map entry entries), w)
  pub model_answer : (w : W) → device_model fs path w ≡ (ok model, w)

module _ {W : Type 0} (fs : Fs W) (path : String) (r : AtRest fs path) where
  block-passed :
      (w w' : W)
      → is_block_device fs path w ≡ (ok tt, w')
      → (is_device r.stat.mode ≡ true) × (w' ≡ w)
  unfolding is_block_device
  block-passed w w' e = elim (Bool-cases (is_device r.stat.mode)) [
    | inl device ↦ (device, (let e' = rw (r.stat_answer w, device) at e in cc))
    | inr other ↦ (let e' = rw (r.stat_answer w, other) at e in absurd cc)
  ]

  mount-passed :
      (w w' : W)
      → is_not_mounted fs path w ≡ (ok tt, w')
      → NoneNames (dev_major r.stat.rdev) (dev_minor r.stat.rdev) r.mounts × (w' ≡ w)
  mount-passed w w' e =
      elim (is_not_mounted-first fs path r.stat r.mounts w w w (r.stat_answer w) (r.mounts_answer w)
        r.mounts_formed) [
          | inl (none, e') ↦ (none, cc)
          | inr (pre, m, post, split, others, names, e') ↦ absurd cc
        ]

  partitions-passed :
      (w w' : W)
      → has_no_partitions fs path w ≡ (ok tt, w')
      → (select_names (is_partition fs r.dev_name w) r.entries ≡ []) × (w' ≡ w)
  partitions-passed w w' e =
      elim (has_no_partitions-Listing fs path r.dev_name r.entries w w r.named (r.has_dir w)
        (r.dir_answer w)) [
          | inl (none, e') ↦ (none, cc)
          | inr (listed, e', found, sorted, perm) ↦ absurd cc
        ]

  zoned-passed :
      (w w' : W)
      → is_zoned_device (device_model fs) path w ≡ (ok tt, w')
      → (r.model ≢ unzoned) × (w' ≡ w)
  unfolding is_zoned_device
  zoned-passed w w' e = go r.model (rw (r.model_answer w) at e)
    where
      go : (m : DeviceModel) → zoned_or_error path m w ≡ (ok tt, w') → (m ≢ unzoned) × (w' ≡ w)
      go unzoned e = absurd cc
      go host_aware e = ((λ x. cc), cc)
      go host_managed e = ((λ x. cc), cc)

  -- If a builder with all four checks opened a device over a file system at rest, then the path is a
  -- device file, no mount is of that device by its major and minor number, the device's directory
  -- has no partition, and its model is that of a zoned device.
  pub open_device-Safe :
      (opener : Opener W) (b : DeviceBuilder) (d : ZonedDevice W) (w w' : W)
      → b.path ≡ path
      → b.check_block_device ≡ true
      → b.check_not_mounted ≡ true
      → b.check_no_partitions ≡ true
      → b.check_is_zoned ≡ true
      → open_device (linux_checks fs) opener b w ≡ (ok d, w')
      → (is_device r.stat.mode ≡ true)
        × NoneNames (dev_major r.stat.rdev) (dev_minor r.stat.rdev) r.mounts
        × (select_names (is_partition fs r.dev_name w) r.entries ≡ [])
        × (r.model ≢ unzoned)
  unfolding linux_checks
  open_device-Safe opener b d w w' at_path c1 c2 c3 c4 e =
      let (w1, w2, w3, w4, p1, p2, p3, p4, opened) =
        open_device-Passed (linux_checks fs) opener b w w' d e in
      let (device, e1) = block-passed w w1 (rw (c1, at_path) at p1) in
      let (unmounted, e2) = mount-passed w1 w2 (rw (c2, at_path) at p2) in
      let (whole, e3) = partitions-passed w2 w3 (rw (c3, at_path) at p3) in
      let (zoned, e4) = zoned-passed w3 w4 (rw (c4, at_path) at p4) in
      (device, unmounted, rw (e2, e1) at whole, zoned)
