-- ===== src/Tests/Validate.antt =====
-- The mount check of validate/mod.rs on a table of two mounts.
use zoned.Base.{◌≡◌, refl, List, [], ◌∷◌, ◌++◌, ◌⊎◌, arith}
use zoned.Errors.{ok, err, device_mounted}
use zoned.FileSystem.{Fs, Metadata}
use zoned.Tests.{no_files}
use zoned.Validate.{is_not_mounted}
use zoned.Validate.Mounts.{Mount, WellFormed, table, Names, NoneNames, is_not_mounted-first}

abbrev pub root_mount : Mount
root_mount = record {
  id = "22";
  parent = "1";
  major = 8;
  minor = 1;
  root = "/";
  point = "/";
  options = "rw" ∷ [];
}

abbrev data_mount : Mount
data_mount = record {
  id = "36";
  parent = "22";
  major = 8;
  minor = 16;
  root = "/";
  point = "/mnt";
  options = "rw" ∷ "-" ∷ [];
}

abbrev mounts : List Mount
mounts = root_mount ∷ data_mount ∷ []

abbrev stat : Metadata
stat = record { mode = 25008; rdev = 2064 }

abbrev fs : Fs (Unit {0})
fs = record no_files {
  metadata = λ path w. (ok stat, w);
  read_to_string = λ path w. (ok (table mounts), w);
}

pub root_mount-WellFormed : WellFormed root_mount
root_mount-WellFormed = record {
  id_word = (refl, refl);
  parent_word = refl;
  root_word = refl;
  point_word = refl;
  options_words = ((refl, refl), tt);
  major_fits = omega arith;
  minor_fits = omega arith;
}

data_mount-WellFormed : WellFormed data_mount
data_mount-WellFormed = record {
  id_word = (refl, refl);
  parent_word = (refl, refl);
  root_word = refl;
  point_word = (refl, (refl, (refl, refl)));
  options_words = ((refl, refl), (refl, tt));
  major_fits = omega arith;
  minor_fits = omega arith;
}

is_not_mounted-first_example :
    (NoneNames 8 16 mounts × (is_not_mounted fs "/dev/sdb" tt ≡ (ok tt, tt)))
    ⊎ ((pre : List Mount) × (m : Mount) × (post : List Mount) × (mounts ≡ pre ++ m ∷ post)
        × NoneNames 8 16 pre
        × Names 8 16 m
        × (is_not_mounted fs "/dev/sdb" tt ≡ (err (device_mounted "/dev/sdb" m.point), tt)))
is_not_mounted-first_example =
    is_not_mounted-first fs "/dev/sdb" stat mounts tt tt tt refl refl
      (root_mount-WellFormed, (data_mount-WellFormed, tt))
