-- ===== src/Validate/Partitions/Listed.antt =====
-- Which partitions the checks of validate/mod.rs find, and how they list them.
use zoned.Base.{
  ℕ, ◌≡◌, ◌≢◌, refl, String, true, some, List, [], ◌∷◌, ◌⊎◌, inl, inr, map, arith, suc,
}
use mathlib.Core.List.{Perm}
use zoned.Base.Text.{push}
use zoned.Base.Text.Edit.{file_name}
use zoned.Base.Text.Order.{strip_prefix-push, sort, Sorted, sort-Sorted, sort-Perm}
use zoned.Base.Text.Decimal.{show, Each, is_digit, Each-show_onto, show_onto-first}
use zoned.Errors.{Outcome, ZonedError, ok, err, device_has_partitions}
use zoned.FileSystem.{Fs, DirItem, entry}
use zoned.Validate.Partitions.{
  all_digits, partition_suffix, is_partition_name, names, select_names, is_partition, collect,
  partitions_error, sysfs_dir, has_no_partitions, entries_or_none, has_no_device_nodes,
}

-- What a check that found the partitions `found` comes to: it passes if there are none. Otherwise
-- its error lists them, each as often as it was found, in the order of texts.
abbrev pub Listing :
    {W : Type 0} → String → List String → W → Outcome ZonedError (Unit {0}) × W → Type 0
Listing path found w r =
    ((found ≡ []) × (r ≡ (ok tt, w)))
    ⊎ ((listed : List String) × (r ≡ (err (device_has_partitions path listed), w))
        × (found ≢ [])
        × Sorted listed
        × Perm listed found)

module _ {W : Type 0} (fs : Fs W) (path dev_name : String) (w w1 : W) where
  partitions_error-Listing :
      (found : List String) → Listing path found w (partitions_error fs path found w)
  unfolding partitions_error
  partitions_error-Listing [] = inl (refl, refl)
  partitions_error-Listing (s ∷ ss) =
      inr (sort (s ∷ ss), refl, (λ e. cc), sort-Sorted (s ∷ ss), sort-Perm (s ∷ ss))

  collect-select :
      (ns : List String)
      → collect fs path dev_name (map entry ns) w
        ≡ (ok (select_names (is_partition fs dev_name w) ns), w)
  unfolding collect
  collect-select [] = refl
  collect-select (n ∷ ns) = rw (collect-select ns) refl

-- On Linux, where the directory of the device and its entries can be read, the partitions are the
-- entries that begin with the device's name and have a file `partition`.
pub has_no_partitions-Listing :
    {W : Type 0} (fs : Fs W) (path dev_name : String) (ns : List String) (w w1 : W)
    → file_name path ≡ some dev_name
    → fs.exists (sysfs_dir dev_name) w ≡ true
    → fs.read_dir (sysfs_dir dev_name) w ≡ (ok (map entry ns), w1)
    → Listing path (select_names (is_partition fs dev_name w1) ns) w1 (has_no_partitions fs path w)
unfolding has_no_partitions
has_no_partitions-Listing fs path dev_name ns w w1 named there read =
    rw (named, there, read, collect-select fs path dev_name w1 w1 ns)
      (partitions_error-Listing fs path dev_name w1 w1 _)

-- On FreeBSD, where /dev can be read, the partitions are its entries, those that cannot be read left
-- out, that are the device's name with a partition's suffix.
pub has_no_device_nodes-Listing :
    {W : Type 0} (fs : Fs W) (path dev_name : String) (items : List DirItem) (w w1 : W)
    → file_name path ≡ some dev_name
    → fs.read_dir "/dev" w ≡ (ok items, w1)
    → Listing path
        (select_names (is_partition_name dev_name) (names items))
        w1
        (has_no_device_nodes fs path w)
unfolding has_no_device_nodes entries_or_none
has_no_device_nodes-Listing fs path dev_name items w w1 named read =
    rw (named, read) (partitions_error-Listing fs path dev_name w1 w1 _)

digits-all : (s : String) → Each is_digit s → all_digits s ≡ true
digits-all String.[] h = refl
digits-all (String.◌∷◌ c s) h = ground (arith, h.0, digits-all s h.1)

suffix-numbered :
    (s : String) (n : ℕ)
    → (s ≡ "p") ⊎ (s ≡ "s")
    → partition_suffix (some (push s (show n ""))) ≡ true
suffix-numbered s n h =
    let (c, t, d, e) = show_onto-first (suc n) n "" (omega arith) in
    let digits = digits-all (show n "") (Each-show_onto is_digit (suc n) n "" (λ c h. h) tt) in
    elim h [ inl p ↦ rw (p, e) (rw e at digits) | inr s ↦ rw (s, e) (rw e at digits) ]

-- On FreeBSD, the device's name with `p` or `s` and a number behind it names a partition.
pub is_partition_name-numbered :
    (dev_name s : String) (n : ℕ)
    → (s ≡ "p") ⊎ (s ≡ "s")
    → is_partition_name dev_name (push dev_name (push s (show n ""))) ≡ true
unfolding is_partition_name
is_partition_name-numbered dev_name s n h =
    rw (strip_prefix-push dev_name (push s (show n ""))) (suffix-numbered s n h)
