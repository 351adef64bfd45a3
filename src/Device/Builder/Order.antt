-- ===== src/Device/Builder/Order.antt =====
-- The order of the checks and of the open in device/builder.rs.
use zoned.Base.{◌≡◌, refl, ap, sym, ◌∙◌, Bool, true, false, List, [], ◌∷◌, if◌then◌else◌}
use mathlib.Core.Bool.{◌||◌, or-false, or-true, or_assoc}
use zoned.Errors.{Io, Outcome, ok, err, panic, timeout, return, ◌>>◌, and_then, ZonedError}
use zoned.Device.{ZonedDevice}
use zoned.Device.Builder.{
  Validate, Opener, DeviceBuilder, open_in_mode, open_device, writable, direct_io, validate_all,
  validate_block_device, validate_not_mounted, validate_no_partitions, validate_is_zoned,
}

-- A check that is asked for has passed, between the worlds `w` and `w'`; one that is not has not run.
abbrev pub Passed : {W : Type 0} → Bool → Io W ZonedError (Unit {0}) → W → W → Type 0
Passed true check w w' = check w ≡ (ok tt, w')
Passed false check w w' = w' ≡ w

-- What has passed when a run of checks succeeded.
and_then-ok :
    {W A : Type 0} (flag : Bool) (check : Io W ZonedError (Unit {0})) (k : Io W ZonedError A)
    (w w' : W) (a : A)
    → ((if flag then check else return tt) >> k) w ≡ (ok a, w')
    → (w1 : W) × Passed flag check w w1 × (k w1 ≡ (ok a, w'))
and_then-ok false check k w w' a e = (w, refl, e)
and_then-ok {W = W} true check k w w' a e = passed (check w) refl e
  where
    passed :
        (r : Outcome ZonedError (Unit {0}) × W)
        → check w ≡ r
        → and_then r (λ _. k) ≡ (ok a, w')
        → (w1 : W) × (check w ≡ (ok tt, w1)) × (k w1 ≡ (ok a, w'))
    passed (ok u, w1) h e = (w1, h, e)
    passed (err x, w1) h e = absurd cc
    passed (panic, w1) h e = absurd cc
    passed (timeout, w1) h e = absurd cc

module _ {W : Type 0} (validate : Validate W) (opener : Opener W) (b : DeviceBuilder) where
  -- If the builder's open returns a device, then every check that was asked for has passed, one
  -- behind the other in the order block device, not mounted, no partitions, zoned; no other check
  -- has run; and behind them the device was opened in the mode of the builder.
  pub open_device-Passed :
      (w w' : W) (d : ZonedDevice W)
      → open_device validate opener b w ≡ (ok d, w')
      → (w1 : W) × (w2 : W) × (w3 : W) × (w4 : W) × Passed b.check_block_device
          (validate.is_block_device b.path)
          w
          w1
        × Passed b.check_not_mounted (validate.is_not_mounted b.path) w1 w2
        × Passed b.check_no_partitions (validate.has_no_partitions b.path) w2 w3
        × Passed b.check_is_zoned (validate.is_zoned_device b.path) w3 w4
        × (open_in_mode validate opener b w4 ≡ (ok d, w'))
  unfolding open_device
  open_device-Passed w w' d e =
      let (w1, p1, e1) = and_then-ok b.check_block_device _ _ w w' d e in
      let (w2, p2, e2) = and_then-ok b.check_not_mounted _ _ w1 w' d e1 in
      let (w3, p3, e3) = and_then-ok b.check_no_partitions _ _ w2 w' d e2 in
      let (w4, p4, e4) = and_then-ok b.check_is_zoned _ _ w3 w' d e3 in
      (w1, w2, w3, w4, p1, p2, p3, p4, e4)

-- The methods that set an option.
pub data Setting : Type 0 where
  sets_writable sets_direct_io : Setting
  asks_block_device asks_not_mounted asks_no_partitions asks_is_zoned asks_all : Setting

pub set : Setting → DeviceBuilder → DeviceBuilder
unfolding writable direct_io validate_block_device validate_not_mounted validate_no_partitions
    validate_is_zoned validate_all
set sets_writable b = writable b
set sets_direct_io b = direct_io b
set asks_block_device b = validate_block_device b
set asks_not_mounted b = validate_not_mounted b
set asks_no_partitions b = validate_no_partitions b
set asks_is_zoned b = validate_is_zoned b
set asks_all b = validate_all b

-- A chain of methods.
pub configure : List Setting → DeviceBuilder → DeviceBuilder
configure [] b = b
configure (s ∷ ss) b = configure ss (set s b)

abbrev pub is_any : (Setting → Bool) → List Setting → Bool
is_any p [] = false
is_any p (s ∷ ss) = p s || is_any p ss

-- Which methods set which option.
abbrev pub opens_writable : Setting → Bool
opens_writable sets_writable = true
opens_writable sets_direct_io = true
opens_writable _ = false

abbrev pub opens_direct : Setting → Bool
opens_direct sets_direct_io = true
opens_direct _ = false

abbrev pub block_device_asked : Setting → Bool
block_device_asked asks_block_device = true
block_device_asked asks_all = true
block_device_asked _ = false

abbrev pub not_mounted_asked : Setting → Bool
not_mounted_asked asks_not_mounted = true
not_mounted_asked asks_all = true
not_mounted_asked _ = false

abbrev pub no_partitions_asked : Setting → Bool
no_partitions_asked asks_no_partitions = true
no_partitions_asked asks_all = true
no_partitions_asked _ = false

abbrev pub is_zoned_asked : Setting → Bool
is_zoned_asked asks_is_zoned = true
is_zoned_asked asks_all = true
is_zoned_asked _ = false

-- An option that is set by the settings of `p`, through a chain of methods.
option-configure :
    (field : DeviceBuilder → Bool) (p : Setting → Bool)
    → ((s : Setting) (b : DeviceBuilder) → field (set s b) ≡ (field b || is_any p (s ∷ [])))
    → (ss : List Setting) (b : DeviceBuilder) → field (configure ss b) ≡ (field b || is_any p ss)
unfolding configure
option-configure field p h [] b = sym (or-false (field b))
option-configure field p h (s ∷ ss) b =
    option-configure field p h ss (set s b)
    ∙ ap (λ x. x || is_any p ss) (h s b ∙ ap (λ x. field b || x) (or-false (p s)))
    ∙ or_assoc (field b) (p s) (is_any p ss)

-- Each option of a builder is the old one or asked for by one of the settings.
abbrev pub Asks : DeviceBuilder → DeviceBuilder → List Setting → Type 0
Asks b' b ss =
    (b'.path ≡ b.path)
    × (b'.is_writable ≡ (b.is_writable || is_any opens_writable ss))
    × (b'.is_direct_io ≡ (b.is_direct_io || is_any opens_direct ss))
    × (b'.check_block_device ≡ (b.check_block_device || is_any block_device_asked ss))
    × (b'.check_not_mounted ≡ (b.check_not_mounted || is_any not_mounted_asked ss))
    × (b'.check_no_partitions ≡ (b.check_no_partitions || is_any no_partitions_asked ss))
    × (b'.check_is_zoned ≡ (b.check_is_zoned || is_any is_zoned_asked ss))

set-Asks : (s : Setting) (b : DeviceBuilder) → Asks (set s b) b (s ∷ [])
unfolding set
set-Asks sets_writable b = simp (or-false, or-true) (refl, refl, refl, refl, refl, refl, refl)
set-Asks sets_direct_io b = simp (or-false, or-true) (refl, refl, refl, refl, refl, refl, refl)
set-Asks asks_block_device b = simp (or-false, or-true) (refl, refl, refl, refl, refl, refl, refl)
set-Asks asks_not_mounted b = simp (or-false, or-true) (refl, refl, refl, refl, refl, refl, refl)
set-Asks asks_no_partitions b = simp (or-false, or-true) (refl, refl, refl, refl, refl, refl, refl)
set-Asks asks_is_zoned b = simp (or-false, or-true) (refl, refl, refl, refl, refl, refl, refl)
set-Asks asks_all b = simp (or-false, or-true) (refl, refl, refl, refl, refl, refl, refl)

-- The path survives any chain of methods, and each option of the builder after it is on if it was
-- on before or one of the methods sets it; so neither their order nor a repetition matters, and
-- `direct_io` implies writable.
pub configure-Asks : (ss : List Setting) (b : DeviceBuilder) → Asks (configure ss b) b ss
unfolding configure
configure-Asks ss b = (
  path_kept ss b,
  option-configure (λ b. b.is_writable) opens_writable (λ s b. (set-Asks s b).1) ss b,
  option-configure (λ b. b.is_direct_io) opens_direct (λ s b. (set-Asks s b).2) ss b,
  option-configure (λ b. b.check_block_device) block_device_asked (λ s b. (set-Asks s b).3) ss b,
  option-configure (λ b. b.check_not_mounted) not_mounted_asked (λ s b. (set-Asks s b).4) ss b,
  option-configure (λ b. b.check_no_partitions) no_partitions_asked (λ s b. (set-Asks s b).5) ss b,
  option-configure (λ b. b.check_is_zoned) is_zoned_asked (λ s b. (set-Asks s b).6) ss b,
)
  where
    path_kept : (ss : List Setting) (b : DeviceBuilder) → (configure ss b).path ≡ b.path
    path_kept [] b = refl
    path_kept (s ∷ ss) b = path_kept ss (set s b) ∙ (set-Asks s b).0
