-- ===== src/Device/Report.antt =====
-- What `report_all_zones` of device/mod.rs returns, and its end.
use zoned.Base.{
  ℕ, zero, suc, ◌+◌, ◌-◌, ◌≤◌, ◌<◌, ◌≡◌, refl, sym, ap, subst, ◌∙◌, inl, inr, List, [], ◌∷◌, ◌++◌,
  append-nil, append_assoc, arith, Bool-cases, leb, leb→le, lt→leb_false, length, u32_mod, take,
  drop, last_or, length-append, eq-nil_of_length, length-drop, take-append-drop,
}
use zoned.Errors.{ok, Returns, and_then-Returns}
use zoned.Types.{Sector, Zone, end_of}
use zoned.Device.{
  ZonedDevice, Zio, device_info, report_round, report_zones, report_loop, report_all_zones,
  batch_or_default,
}
use zoned.Device.Layout.{
  Contiguous, from_sector, Serves, span, span-lt, span-append, Contiguous-append, Contiguous-left,
  from_sector-span, end_of-last, lt-span,
}

pub batch-pos : (b : ℕ) → batch_or_default b ≡ suc (batch_or_default b - 1)
batch-pos b = ground arith

module _ {W : Type 0} (d : ZonedDevice W) (zs : List Zone) (w : W) (served : Serves d zs w) where
  -- The answer to a request from the end of the zones that are already there.
  pub report-rest :
      (pre rest : List Zone) (k : ℕ)
      → suc k < u32_mod
      → zs ≡ pre ++ rest
      → report_zones d (span 0 pre) (suc k) w ≡ (ok (take (suc k) rest), w)
  report-rest pre rest k small e =
      served.answers (span 0 pre) (suc k)
        (span-lt 0 pre (omega arith)
          (Contiguous-left 0 pre rest (subst (Contiguous 0) e served.layout)))
        (omega arith) small
      ∙ ap (λ ys. (ok (take (suc k) ys), w))
          (ap (from_sector (span 0 pre)) e
            ∙ from_sector-span 0 pre rest (subst (Contiguous 0) e served.layout))

  -- A batch `z ∷ zs'` that is a prefix of what is still to come.
  module _ (pre : List Zone) (z : Zone) (r : List Zone) (k : ℕ) (e : zs ≡ pre ++ z ∷ r) where
    abbrev grown : List Zone
    grown = pre ++ z ∷ take k r

    pub split-grown : zs ≡ grown ++ drop k r
    split-grown =
        e
        ∙ ap (λ ys. pre ++ z ∷ ys) (sym (take-append-drop k r))
        ∙ sym (append_assoc pre (z ∷ take k r) (drop k r))

    Contiguous-batch : Contiguous (span 0 pre) (z ∷ take k r)
    Contiguous-batch =
        Contiguous-append 0 pre (z ∷ take k r)
          (Contiguous-left 0 grown (drop k r) (subst (Contiguous 0) split-grown served.layout))

    -- The next request starts where the zones collected so far end, which is further on.
    pub end_of-batch : end_of (last_or z (take k r)) ≡ span 0 grown
    end_of-batch =
        end_of-last (span 0 pre) z (take k r) Contiguous-batch
        ∙ sym (span-append 0 pre (z ∷ take k r))

    pub lt-end_of-batch : span 0 pre < end_of (last_or z (take k r))
    lt-end_of-batch =
        rw (end_of-last (span 0 pre) z (take k r) Contiguous-batch)
          (lt-span (span 0 pre) z (take k r) Contiguous-batch.1)

    -- When as many zones are there as the device has, they are all there.
    grown_complete : length zs ≤ length grown → grown ≡ zs
    grown_complete h =
        sym (append-nil grown)
        ∙ ap (λ ys. grown ++ ys) (sym (eq-nil_of_length (drop k r) none_left))
        ∙ sym split-grown
      where
        none_left : length (drop k r) ≡ 0
        none_left = omega (arith, ap length split-grown, length-append grown (drop k r))

  -- The loop, with the zones of `pre` collected and those of `rest` still to come.
  report_loop_lem :
      (fuel k : ℕ) (pre rest : List Zone)
      → suc k < u32_mod
      → zs ≡ pre ++ rest
      → length rest < fuel
      → report_loop fuel d (length zs) (suc k) (span 0 pre) pre w ≡ (ok zs, w)
  unfolding report_loop
  report_loop_lem zero k pre rest small e h = absurd (omega arith)
  report_loop_lem (suc fuel) k pre [] small e h =
      rw (report-rest pre [] k small e) (rw (e, append-nil pre))
  report_loop_lem (suc fuel) k pre (z ∷ r) small e h =
      rw (report-rest pre (z ∷ r) k small e)
        (elim (Bool-cases (leb (length zs) (length (pre ++ z ∷ take k r)))) [
          | inl all ↦ rw all (ap (λ ys. (ok ys, w)) (grown_complete pre z r k e (leb→le _ _ all)))
          | inr more ↦
              rw (more, lt→leb_false _ _ (lt-end_of-batch pre z r k e), end_of-batch pre z r k e)
                (report_loop_lem fuel k (pre ++ z ∷ take k r) (drop k r) small
                  (split-grown pre z r k e) (omega (arith, length-drop k r)))
        ])

  -- On a device that reports the zones `zs`, `report_all_zones` returns exactly `zs`, in order, for
  -- every batch size of type u32 (0 included), and leaves the world as it was.
  pub report_all_zones_complete : (b : ℕ) → b < u32_mod → report_all_zones d b w ≡ (ok zs, w)
  unfolding report_all_zones
  report_all_zones_complete b h = rw (served.info_answer) (
      rw (served.info_count, batch-pos b)
        (report_loop_lem (suc (length zs)) _ [] zs (ground arith) refl (omega arith)))

module _ {W : Type 0} (d : ZonedDevice W) (informed : (w : W) → Returns (device_info d w).0)
    (answered : (s : Sector) (count : ℕ) (w : W) → Returns (report_zones d s count w).0) where
  report_round-Returns :
      (again : Sector → List Zone → Zio W (List Zone)) (nr : ℕ) (s : Sector) (all zs : List Zone)
      (w : W)
      → ((next : Sector) (all' : List Zone) (w : W)
          → length all < length all'
          → length all' < nr
          → Returns (again next all' w).0)
      → Returns (report_round again nr s all zs w).0
  unfolding report_round
  report_round-Returns again nr s all [] w h = tt
  report_round-Returns again nr s all (z ∷ zs) w h =
      ground (arith, h (end_of (last_or z zs)) (all ++ z ∷ zs) w, length-append all (z ∷ zs))

  report_loop-Returns :
      (fuel nr batch : ℕ) (s : Sector) (all : List Zone) (w : W)
      → nr < fuel + length all
      → length all ≤ nr
      → Returns (report_loop fuel d nr batch s all w).0
  unfolding report_loop
  report_loop-Returns zero nr batch s all w h g = absurd (omega arith)
  report_loop-Returns (suc fuel) nr batch s all w h g =
      and_then-Returns (report_zones d s batch w)
        (report_round (report_loop fuel d nr batch) nr s all) (answered s batch w)
        λ zones w'.
          report_round-Returns (report_loop fuel d nr batch) nr s all zones w'
            λ next all' w'' more less.
              report_loop-Returns fuel nr batch next all' w'' (omega arith) (omega arith)

  -- On any device whose calls come back, whatever they answer, `report_all_zones` comes back:
  -- `nr_zones + 1` rounds are enough.
  pub report_all_zones-Returns : (b : ℕ) (w : W) → Returns (report_all_zones d b w).0
  unfolding report_all_zones
  report_all_zones-Returns b w = and_then-Returns (device_info d w) _ (informed w) λ info w'.
      report_loop-Returns (suc info.nr_zones) info.nr_zones _ 0 [] w' (omega arith) (omega arith)
