-- ===== src/Examples/Zcli/Info/Counted.antt =====
-- What the census of `run_info` counts on a device that reports its zones.
use zoned.Base.{
  ℕ, zero, suc, ◌+◌, ◌%◌, ◌≤◌, ◌<◌, ◌≡◌, refl, sym, ap, subst, ◌∙◌, Bool, Option, List, [], ◌∷◌,
  ◌++◌, append-nil, append_assoc, arith, if◌then◌else◌, length, select, length-append, u32_mod,
  u64_mod,
}
use zoned.Errors.{ok}
use zoned.Types.{
  Zone, ZoneType, conventional, sequential_write_required, sequential_write_preferred, type_eq,
  ZoneCondition, condition_eq, DeviceInfo,
}
use zoned.Types.Properties.{DeviceProperties}
use zoned.Device.{ZonedDevice}
use zoned.Device.Layout.{Contiguous, Serves, span, span-append, Contiguous-append}
use zoned.Device.Iter
use zoned.Device.Iter.{ZoneIterator}
use zoned.Device.Iter.Complete.{Pending, new-Pending, next-Yields}
use zoned.Examples.Zcli.Info.{
  Census, new_census, bump_if, count_type, counted, tally, census_loop, report_of, take_census,
}

-- How many of the zones pass a test.
abbrev pub count : (Zone → Bool) → List Zone → ℕ
count p zones = length (select p zones)

abbrev pub has_type : ZoneType → Zone → Bool
has_type t z = type_eq z.zone_type t

abbrev pub has_condition : ZoneCondition → Zone → Bool
has_condition cond z = condition_eq cond z.condition

abbrev pub is_non_seq : Zone → Bool
is_non_seq z = z.non_seq

abbrev pub is_reset_recommended : Zone → Bool
is_reset_recommended z = z.reset_recommended

abbrev pub capacities : List Zone → ℕ
capacities [] = 0
capacities (z ∷ zs) = z.capacity + capacities zs

-- A census of the zones: each count is that of the zones it is about, and the two sums are theirs.
pub record Counts (all_zones : Bool) (zones : List Zone) (c : Census) : Type 0 where
  pub conditions : (cond : ZoneCondition) → c.cond_counts cond ≡ count (has_condition cond) zones
  pub conventionals : c.conventional_count ≡ count (has_type conventional) zones
  pub required : c.seq_required_count ≡ count (has_type sequential_write_required) zones
  pub preferred : c.seq_preferred_count ≡ count (has_type sequential_write_preferred) zones
  pub non_seq : c.non_seq_count ≡ count is_non_seq zones
  pub reset_recommended : c.reset_recommended_count ≡ count is_reset_recommended zones
  pub len : c.total_len ≡ span 0 zones
  pub capacity : c.total_capacity ≡ capacities zones % u64_mod
  pub listed : c.zone_list ≡ (if all_zones then zones else [])

count-le : (p : Zone → Bool) (zones : List Zone) → count p zones ≤ length zones
count-le p [] = omega arith
count-le p (z ∷ zones) = ground (arith, count-le p zones)

count-snoc :
    (p : Zone → Bool) (zones : List Zone) (z : Zone)
    → count p (zones ++ z ∷ []) ≡ (if p z then suc (count p zones) else count p zones)
count-snoc p [] z = ground arith
count-snoc p (y ∷ zones) z = ground (arith, count-snoc p zones z)

capacities-snoc :
    (zones : List Zone) (z : Zone) → capacities (zones ++ z ∷ []) ≡ capacities zones + z.capacity
capacities-snoc [] z = omega arith
capacities-snoc (y ∷ zones) z = omega (arith, capacities-snoc zones z)

bump_if-count :
    (p : Zone → Bool) (zones : List Zone) (z : Zone) (n : ℕ)
    → n ≡ count p zones
    → suc (length zones) < u32_mod
    → bump_if (p z) n ≡ count p (zones ++ z ∷ [])
bump_if-count p zones z n e h = ground (arith, count-snoc p zones z, count-le p zones)

-- What counting a zone by its type leaves of a census.
count_type_fields :
    (t : ZoneType) (c : Census)
    → ((count_type t c).conventional_count ≡ bump_if (type_eq t conventional) c.conventional_count)
      × ((count_type t c).seq_required_count
          ≡ bump_if (type_eq t sequential_write_required) c.seq_required_count)
      × ((count_type t c).seq_preferred_count
          ≡ bump_if (type_eq t sequential_write_preferred) c.seq_preferred_count)
      × ((count_type t c).cond_counts ≡ c.cond_counts)
      × ((count_type t c).non_seq_count ≡ c.non_seq_count)
      × ((count_type t c).reset_recommended_count ≡ c.reset_recommended_count)
      × ((count_type t c).total_len ≡ c.total_len)
      × ((count_type t c).total_capacity ≡ c.total_capacity)
      × ((count_type t c).zone_list ≡ c.zone_list)
count_type_fields conventional c = (refl, refl, refl, refl, refl, refl, refl, refl, refl)
count_type_fields sequential_write_required c =
    (refl, refl, refl, refl, refl, refl, refl, refl, refl)
count_type_fields sequential_write_preferred c =
    (refl, refl, refl, refl, refl, refl, refl, refl, refl)

tally-Counts :
    (all_zones : Bool) (zones : List Zone) (z : Zone) (c : Census)
    → suc (length zones) < u32_mod
    → span 0 zones + z.len < u64_mod
    → Counts all_zones zones c
    → Counts all_zones (zones ++ z ∷ []) (tally all_zones c z)
unfolding tally
tally-Counts all_zones zones z c h k v =
    let f = count_type_fields z.zone_type (counted all_zones c z) in
    record {
      conditions = λ cond.
          ap (λ (g : ZoneCondition → ℕ). g cond) f.3
          ∙ bump_if-count (has_condition cond) zones z (c.cond_counts cond) (v.conditions cond) h;
      conventionals = f.0 ∙ bump_if-count (has_type conventional) zones z _ v.conventionals h;
      required = f.1 ∙ bump_if-count (has_type sequential_write_required) zones z _ v.required h;
      preferred = f.2 ∙ bump_if-count (has_type sequential_write_preferred) zones z _ v.preferred h;
      non_seq = f.4 ∙ bump_if-count is_non_seq zones z _ v.non_seq h;
      reset_recommended = f.5 ∙ bump_if-count is_reset_recommended zones z _ v.reset_recommended h;
      len = f.6 ∙ omega (arith, v.len, span-append 0 zones (z ∷ []));
      capacity = f.7 ∙ omega (arith, v.capacity, capacities-snoc zones z);
      listed = f.8 ∙ ground (arith, v.listed);
    }

unfoldable census_of : Bool → Census → List Zone → Census
census_of all_zones c [] = c
census_of all_zones c (z ∷ zones) = census_of all_zones (tally all_zones c z) zones

census_of-Counts :
    (all_zones : Bool) (pre todo : List Zone) (c : Census)
    → length (pre ++ todo) < u32_mod
    → Contiguous 0 (pre ++ todo)
    → Counts all_zones pre c
    → Counts all_zones (pre ++ todo) (census_of all_zones c todo)
unfolding census_of
census_of-Counts all_zones pre [] c h k v =
    subst (λ zs. Counts all_zones zs c) (sym (append-nil pre)) v
census_of-Counts all_zones pre (z ∷ todo) c h k v =
    subst (λ zs. Counts all_zones zs (census_of all_zones (tally all_zones c z) todo))
      (append_assoc pre (z ∷ []) todo)
      (census_of-Counts all_zones (pre ++ z ∷ []) todo (tally all_zones c z)
        (subst (λ zs. length zs < u32_mod) (sym (append_assoc pre (z ∷ []) todo)) h)
        (subst (Contiguous 0) (sym (append_assoc pre (z ∷ []) todo)) k)
        (tally-Counts all_zones pre z c (omega (arith, length-append pre (z ∷ todo)))
          ((Contiguous-append 0 pre (z ∷ todo) k).2) v))

count-cons :
    (p : Zone → Bool) (z : Zone) (zones : List Zone)
    → count p (z ∷ zones) ≡ (if p z then suc (count p zones) else count p zones)
count-cons p z zones = ground arith

one_type :
    (t : ZoneType) (a b c n : ℕ)
    → a + b + c ≡ n
    → (if type_eq t conventional then suc a else a)
        + (if type_eq t sequential_write_required then suc b else b)
        + (if type_eq t sequential_write_preferred then suc c else c)
      ≡ suc n
one_type conventional a b c n h = omega arith
one_type sequential_write_required a b c n h = omega arith
one_type sequential_write_preferred a b c n h = omega arith

-- The counts of the three types of zone make up all the zones.
count-types :
    (zones : List Zone)
    → count (has_type conventional) zones
        + count (has_type sequential_write_required) zones
        + count (has_type sequential_write_preferred) zones
      ≡ length zones
count-types [] = omega arith
count-types (z ∷ zones) =
    rw
      (
        count-cons (has_type conventional) z zones,
        count-cons (has_type sequential_write_required) z zones,
        count-cons (has_type sequential_write_preferred) z zones,
      )
      (one_type z.zone_type _ _ _ _ (count-types zones))

new_census-Counts : (all_zones : Bool) → Counts all_zones [] new_census
unfolding new_census
new_census-Counts all_zones = record {
  conditions = λ cond. refl;
  conventionals = refl;
  required = refl;
  preferred = refl;
  non_seq = refl;
  reset_recommended = refl;
  len = refl;
  capacity = refl;
  listed = ground arith;
}

module _ {W : Type 0} (d : ZonedDevice W) (zs : List Zone) (w : W) (served : Serves d zs w) where
  census_loop_lem :
      (all_zones : Bool) (todo : List Zone) (fuel : ℕ) (it : ZoneIterator W) (c : Census)
      → Pending d zs w served it todo
      → length todo < fuel
      → census_loop fuel all_zones it c w ≡ (ok (census_of all_zones c todo), w)
  unfolding census_loop census_of
  census_loop_lem all_zones [] zero it c p h = absurd (omega arith)
  census_loop_lem all_zones [] (suc fuel) it c p h = rw ((next-Yields d zs w served it [] p).1) refl
  census_loop_lem all_zones (z ∷ todo) zero it c p h = absurd (omega arith)
  census_loop_lem all_zones (z ∷ todo) (suc fuel) it c p h =
      let (it', e, p') = next-Yields d zs w served it (z ∷ todo) p in
      rw e (census_loop_lem all_zones todo fuel it' (tally all_zones c z) p' (omega arith))

  -- On a device that reports its contiguous zones, fewer than 2^32, `run_info` counts each of them
  -- once, for every batch size of type u32: the counts by type, condition and flag are those of the
  -- zones, those by type add up to the device's count, the length is the end of the last zone, the capacity the
  -- sum modulo 2^64, and the table has all the zones in order if it is asked for. Any fuel above the count of
  -- the zones is enough.
  pub take_census-Counts :
      (fuel : ℕ) (props : Option DeviceProperties) (info : DeviceInfo) (all_zones : Bool) (b : ℕ)
      → b < u32_mod
      → length zs < fuel
      → length zs < u32_mod
      → (c : Census) × (take_census fuel d props info all_zones b w
          ≡ (ok (report_of props info c), w))
        × Counts all_zones zs c
        × ((report_of props info c).total_zones ≡ length zs)
  unfolding take_census report_of
  take_census-Counts fuel props info all_zones b small enough few =
      let v : Counts all_zones zs (census_of all_zones new_census zs) =
        census_of-Counts all_zones [] zs new_census few served.layout
          (new_census-Counts all_zones) in
      (
        census_of all_zones new_census zs,
        rw
            (census_loop_lem all_zones zs fuel (Iter.new d b) new_census
              (new-Pending d zs w served b small) enough)
            refl,
        v,
        omega (arith, v.conventionals, v.required, v.preferred, count-types zs),
      )
