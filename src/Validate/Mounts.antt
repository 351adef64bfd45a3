-- ===== src/Validate/Mounts.antt =====
-- The mount check of validate/mod.rs on a table of mounts.
use zoned.Base.{
  ℕ, ◌<◌, ◌≡◌, refl, ap, String, Option, none, some, List, [], ◌∷◌, ◌++◌, ◌⊎◌, inl, inr, map, arith,
  u32_mod, ◌==◌, Bool-cases,
}
use zoned.Base.Text.Rows.{IsWord, AllRows, AllWords, unwords, unlines, words-unwords, lines-unlines}
use zoned.Base.Text.Decimal.{show_pair, split_once-show_pair, show_pair-IsWord, parse_uint-show}
use zoned.Errors.{ok, err, device_mounted}
use zoned.FileSystem.{Fs, Metadata}
use zoned.Validate.{
  dev_major, dev_minor, mount_of, or_rest, first_mount, unwrap_or_default, is_not_mounted,
}

-- A mount as mountinfo has it: the fields are words.
pub record Mount : Type 0 where
  pub id : String
  pub parent : String
  pub major : ℕ
  pub minor : ℕ
  pub root : String
  pub point : String
  pub options : List String

abbrev pub row_of : Mount → List String
row_of m = m.id ∷ (m.parent ∷ (show_pair m.major m.minor ∷ (m.root ∷ (m.point ∷ m.options))))

-- The fields have a character and no whitespace, the numbers 32 bits.
pub record WellFormed (m : Mount) : Type 0 where
  pub id_word : IsWord m.id
  pub parent_word : IsWord m.parent
  pub root_word : IsWord m.root
  pub point_word : IsWord m.point
  pub options_words : AllWords m.options
  pub major_fits : m.major < u32_mod
  pub minor_fits : m.minor < u32_mod

abbrev pub AllWellFormed : List Mount → Type 0
AllWellFormed [] = Unit {0}
AllWellFormed (m ∷ ms) = WellFormed m × AllWellFormed ms

-- The text of the file: a line for each mount.
abbrev pub table : List Mount → String
table ms = unlines (map unwords (map row_of ms))

abbrev pub Names : ℕ → ℕ → Mount → Type 0
Names major minor m = (m.major ≡ major) × (m.minor ≡ minor)

-- No mount is of the device.
abbrev pub NoneNames : ℕ → ℕ → List Mount → Type 0
NoneNames major minor [] = Unit {0}
NoneNames major minor (m ∷ ms) = (¬ Names major minor m) × NoneNames major minor ms

AllRows-table : (ms : List Mount) → AllWellFormed ms → AllRows (map row_of ms)
AllRows-table [] h = tt
AllRows-table (m ∷ ms) h = (
  (
    h.0.id_word,
    (
      h.0.parent_word,
      (show_pair-IsWord m.major m.minor, (h.0.root_word, (h.0.point_word, h.0.options_words))),
    ),
  ),
  AllRows-table ms h.1,
)

mount_of-row :
    (major minor : ℕ) (m : Mount)
    → WellFormed m
    → ((Names major minor m) × (mount_of major minor (row_of m) ≡ some m.point))
      ⊎ ((¬ Names major minor m) × (mount_of major minor (row_of m) ≡ none))
unfolding mount_of
mount_of-row major minor m f =
    rw
      (
        split_once-show_pair m.major m.minor,
        parse_uint-show u32_mod m.major f.major_fits,
        parse_uint-show u32_mod m.minor f.minor_fits,
      )
      (elim (Bool-cases (m.major == major)) [
        | inr other ↦ rw other (inr ((λ n. absurd (ground (arith, n.0))), refl))
        | inl same ↦ elim (Bool-cases (m.minor == minor)) [
          | inr other ↦ rw (same, other) (inr ((λ n. absurd (ground (arith, n.1))), refl))
          | inl both ↦ rw (same, both) (inl ((ground arith, ground arith), refl))
        ]
      ])

first_mount-row :
    (major minor : ℕ) (m : Mount) (ms : List Mount)
    → WellFormed m
    → first_mount major minor (map unwords (map row_of (m ∷ ms)))
      ≡ or_rest
          (mount_of major minor (row_of m))
          (first_mount major minor (map unwords (map row_of ms)))
unfolding first_mount
first_mount-row major minor m ms f =
    rw (words-unwords (row_of m) (AllRows-table (m ∷ []) (f, tt)).0) refl

-- What a search for the device finds in the table.
abbrev Search : ℕ → ℕ → List Mount → Option String → Type 0
Search major minor ms found =
    (NoneNames major minor ms × (found ≡ none))
    ⊎ ((pre : List Mount) × (m : Mount) × (post : List Mount) × (ms ≡ pre ++ m ∷ post)
        × NoneNames major minor pre
        × Names major minor m
        × (found ≡ some m.point))

first_mount-Search :
    (major minor : ℕ) (ms : List Mount)
    → AllWellFormed ms
    → Search major minor ms (first_mount major minor (map unwords (map row_of ms)))
unfolding first_mount or_rest
first_mount-Search major minor [] h = inl (tt, refl)
first_mount-Search major minor (m ∷ ms) h =
    rw (first_mount-row major minor m ms h.0) (elim (mount_of-row major minor m h.0) [
      | inl (names, e) ↦ inr ([], m, ms, refl, tt, names, rw e refl)
      | inr (other, e) ↦ elim (first_mount-Search major minor ms h.1) [
        | inl (all, e') ↦ inl ((other, all), rw e e')
        | inr (pre, m', post, split, all, names, e') ↦
            inr (m ∷ pre, m', post, ap (◌∷◌ m) split, (other, all), names, rw e e')
      ]
    ])

module _ {W : Type 0} (fs : Fs W) (path : String) (stat : Metadata) (ms : List Mount)
    (w w1 w2 : W) where
  -- Where the file's metadata and the table of mounts can be read, and the fields of the table are
  -- words and its numbers of 32 bits, the check passes if no mount is of the device whose major and
  -- minor number it takes from `st_rdev`, and otherwise fails with the mount point of the first one.
  pub is_not_mounted-first :
      fs.metadata path w ≡ (ok stat, w1)
      → fs.read_to_string "/proc/self/mountinfo" w1 ≡ (ok (table ms), w2)
      → AllWellFormed ms
      → (NoneNames (dev_major stat.rdev) (dev_minor stat.rdev) ms
          × (is_not_mounted fs path w ≡ (ok tt, w2)))
        ⊎ ((pre : List Mount) × (m : Mount) × (post : List Mount) × (ms ≡ pre ++ m ∷ post)
            × NoneNames (dev_major stat.rdev) (dev_minor stat.rdev) pre
            × Names (dev_major stat.rdev) (dev_minor stat.rdev) m
            × (is_not_mounted fs path w ≡ (err (device_mounted path m.point), w2)))
  unfolding is_not_mounted unwrap_or_default
  is_not_mounted-first known read formed =
      rw (known, read, lines-unlines (map row_of ms) (AllRows-table ms formed))
        (elim (first_mount-Search (dev_major stat.rdev) (dev_minor stat.rdev) ms formed) [
          | inl (all, e) ↦ inl (all, rw e refl)
          | inr (pre, m, post, split, all, names, e) ↦
              inr (pre, m, post, split, all, names, rw e refl)
        ])
