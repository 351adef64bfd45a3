-- ===== src/Examples/Zcli/Manage/Resets.antt =====
-- What `run_reset` of examples/zcli.rs resets.
use native.Mathlib.Nat.{zero-add}
use zoned.Base.{
  ℕ, zero, suc, ◌+◌, ◌≤◌, ◌<◌, ◌≡◌, refl, ap, ◌∙◌, ◌⊎◌, inl, inr, Bool, true, leb→le, le→leb, List,
  [], ◌∷◌, arith, leb, ◌==◌, Bool-cases, length, select, mul_u64, ==_iff, ==_false→lt,
}
use zoned.Errors.{Outcome, ok, err, panic, timeout, ZonedError, and_then, map_err, return}
use zoned.Types.{Sector, Zone, DeviceInfo}
use zoned.Device
use zoned.Device.{ZonedDevice}
use zoned.Device.Layout.{Serves}
use zoned.Device.Iter
use zoned.Device.Iter.{ZoneIterator}
use zoned.Device.Iter.Complete.{Pending, new-Pending, next-Yields}
use zoned.Examples.Zcli.{Console, failed}
use zoned.Examples.Zcli.Manage.{
  already_empty, reset_zones, is_dirty, count_loop, reset_all, reset_each,
}

-- What a reset of a whole zone may come to, by a view of the world that gives a state for the index of each zone. A
-- success puts that zone into the state `clean` and leaves the others, an error leaves all.
abbrev pub Clears :
    {W S : Type 0} → (W → ℕ → S) → S → ℕ → W → Outcome ZonedError (Unit {0}) × W → Type 0
Clears state clean idx w (ok u, w') =
    (state w' idx ≡ clean) × ((i : ℕ) → (i ≡ idx → ⊥) → state w' i ≡ state w i)
Clears state clean idx w (err e, w') = (i : ℕ) → state w' i ≡ state w i
Clears state clean idx w (panic, w') = ⊥
Clears state clean idx w (timeout, w') = ⊥

-- A device whose resets of one zone of `zone_size` sectors, below `zones`, are such.
pub record Resettable {W S : Type 0} (d : ZonedDevice W) (zone_size : Sector) (zones : ℕ)
    (state : W → ℕ → S) (clean : S) : Type 0 where
  pub clears :
      (idx : ℕ) (w : W)
      → idx < zones
      → Clears state clean idx w (Device.reset_zones d (mul_u64 zone_size idx) zone_size w)

module _ {W S : Type 0} (d : ZonedDevice W) (zone_size : Sector) (zones : ℕ) (state : W → ℕ → S)
    (clean : S) where
  -- The zones from `idx` on, `done` of them, are clean now, and the others as they were. If the call succeeded, these are
  -- all the zones of the range.
  pub record Reset (idx count : ℕ) (w : W) (r : Outcome ZonedError (Unit {0}) × W) : Type 0 where
    pub done : ℕ
    pub within : done ≤ count
    pub cleared : (i : ℕ) → idx ≤ i → i < idx + done → state r.1 i ≡ clean
    pub below : (i : ℕ) → i < idx → state r.1 i ≡ state w i
    pub behind : (i : ℕ) → idx + done ≤ i → state r.1 i ≡ state w i
    pub outcome :
        ((r.0 ≡ ok tt) × (done ≡ count)) ⊎ ((e : ZonedError) × (r.0 ≡ err e) × (done < count))

  -- A range of whole zones below the count of the zones is reset from its first zone on, each once, up
  -- to the first that fails; a call that succeeds has reset them all.
  pub reset_each-Reset :
      Resettable d zone_size zones state clean
      → (count idx : ℕ) (w : W) → idx + count ≤ zones
      → Reset idx count w (reset_each d zone_size count idx w)
  unfolding reset_each
  reset_each-Reset able zero idx w h = record {
    done = 0;
    within = omega arith;
    cleared = λ i a b. absurd (omega arith);
    below = λ i a. refl;
    behind = λ i a. refl;
    outcome = inl (refl, refl);
  }
  reset_each-Reset able (suc count) idx w h =
      round (Device.reset_zones d (mul_u64 zone_size idx) zone_size w)
        (able.clears idx w (omega arith))
        λ w'. reset_each-Reset able count (suc idx) w' (omega arith)
    where
      round :
          (r : Outcome ZonedError (Unit {0}) × W)
          → Clears state clean idx w r
          → ((w' : W) → Reset (suc idx) count w' (reset_each d zone_size count (suc idx) w'))
          → Reset idx (suc count) w (and_then r λ _. reset_each d zone_size count (suc idx))
      round (ok u, w') c more =
          let rest : Reset (suc idx) count w' (reset_each d zone_size count (suc idx) w') =
            more w' in
          record {
            done = suc rest.done;
            within = omega (arith, rest.within);
            cleared = λ i a b. elim (Bool-cases (leb i idx)) [
              | inl first ↦
                  rest.below i (omega (arith, leb→le i idx first))
                  ∙ ap (state w') (omega (arith, leb→le i idx first))
                  ∙ c.0
              | inr later ↦ rest.cleared i (ground (arith, le→leb i idx)) (omega arith)
            ];
            below = λ i a. rest.below i (omega arith) ∙ c.1 i (λ e. omega arith);
            behind = λ i a. rest.behind i (omega arith) ∙ c.1 i (λ e. omega arith);
            outcome = elim rest.outcome [
              | inl (e, all) ↦ inl (e, omega arith)
              | inr (x, e, few) ↦ inr (x, e, omega arith)
            ];
          }
      round (err e, w') c more = record {
        done = 0;
        within = omega arith;
        cleared = λ i a b. absurd (omega arith);
        below = λ i a. c i;
        behind = λ i a. c i;
        outcome = inr (e, refl, omega arith);
      }
      round (panic, w') c more = elim c [ ]
      round (timeout, w') c more = elim c [ ]

-- The branch of `--all`.
module _ {W : Type 0} (console : Console W) (d : ZonedDevice W) (info : DeviceInfo) where
  -- Where the first report fails, `--all` says that all zones are empty already, resets nothing and
  -- succeeds.
  pub reset_all-unreported :
      (fuel : ℕ) (skip_confirm : Bool) (e : ZonedError) (w w' : W)
      → Device.report_zones d 0 512 w ≡ (err e, w')
      → reset_all console (suc (suc fuel)) d info skip_confirm w ≡ (ok already_empty, w')
  unfolding reset_all count_loop Iter.next Iter.new
  reset_all-unreported fuel skip_confirm e w w' unanswered = rw unanswered refl

  module _ (zs : List Zone) (w : W) (served : Serves d zs w) where
    count_loop_lem :
        (todo : List Zone) (fuel : ℕ) (it : ZoneIterator W) (n : ℕ)
        → Pending d zs w served it todo
        → length todo < fuel
        → count_loop fuel it n w ≡ (ok (n + length (select is_dirty todo)), w)
    unfolding count_loop
    count_loop_lem [] zero it n p h = absurd (omega arith)
    count_loop_lem [] (suc fuel) it n p h =
        rw ((next-Yields d zs w served it [] p).1) (ap (λ (k : ℕ). (ok k, w)) (omega arith))
    count_loop_lem (z ∷ todo) zero it n p h = absurd (omega arith)
    count_loop_lem (z ∷ todo) (suc fuel) it n p h =
        let (it', e, p') = next-Yields d zs w served it (z ∷ todo) p in
        rw e (elim (Bool-cases (is_dirty z)) [
          | inl dirty ↦ rw dirty (
              count_loop_lem todo fuel it' (suc n) p' (omega arith)
              ∙ ap (λ (k : ℕ). (ok k, w)) (omega arith))
          | inr clean ↦ rw clean (count_loop_lem todo fuel it' n p' (omega arith))
        ])

    -- On a device that reports its contiguous zones, `--all` without a confirmation resets nothing if every zone
    -- that requires sequential writes is empty, and otherwise all the zones of the device by one call, from sector 0
    -- on, and says how many there were.
    pub reset_all-dirty :
        (fuel : ℕ)
        → length zs < fuel
        → ((length (select is_dirty zs) ≡ 0)
            × (reset_all console fuel d info true w ≡ (ok already_empty, w)))
          ⊎ ((0 < length (select is_dirty zs))
              × (reset_all console fuel d info true w
                  ≡ and_then
                      (map_err failed
                        (Device.reset_zones d 0 (mul_u64 info.zone_size info.nr_zones))
                        w)
                      (λ _. return (reset_zones (length (select is_dirty zs))))))
    unfolding reset_all
    reset_all-dirty fuel enough =
        rw
          (
            count_loop_lem zs fuel (Iter.new d 512) 0 (new-Pending d zs w served 512 (omega arith))
                enough,
            zero-add (length (select is_dirty zs)),
          )
          (elim (Bool-cases (length (select is_dirty zs) == 0)) [
            | inl empty ↦ inl ((==_iff _ _).0 empty, rw empty refl)
            | inr some_dirty ↦ inr (==_false→lt _ some_dirty, rw some_dirty refl)
          ])
