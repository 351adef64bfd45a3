-- ===== src/Examples/Zcli/Validation/Passed.antt =====
-- When `run_validate` of examples/zcli.rs exits with success.
use zoned.Base.{
  ◌+◌, ◌%◌, ◌<◌, ◌≡◌, ◌↔◌, refl, ap, ◌∙◌, String, List, [], ◌∷◌, ◌++◌, arith, length, u32_mod, none,
}
use zoned.Errors.{Outcome, ok, err, panic, timeout, ZonedError, and_then-value}
use zoned.Device.Builder
use zoned.Device.Builder.{Validate, Opener, open_device}
use zoned.Examples.Zcli.{Cio}
use zoned.Examples.Zcli.Arguments.{ValidateCheck}
use zoned.Examples.Zcli.Validation.{
  Verdict, name_of, check_list, nothing_run, result_of, counted, check_loop, exit_if_failed,
  run_validate,
}

module _ {W : Type 0} (validate : Validate W) (path : String) where
  -- The checks pass one behind the other, each in the world that the one before it left.
  abbrev pub AllPass : List ValidateCheck → W → W → Type 0
  AllPass [] w w' = w ≡ w'
  AllPass (check ∷ checks) w w' =
      (w1 : W) × (result_of validate path check w ≡ (ok tt, w1)) × AllPass checks w1 w'

  -- A round that ended without a failure passed its check.
  round_passed :
      (rest : Verdict → Cio W Verdict) (name : String) (v v' : Verdict) (w' : W)
      (r : Outcome ZonedError (Unit {0}) × W)
      → v.failed + 1 < u32_mod
      → ((u : Verdict) (w1 : W) → u.failed ≡ v.failed + 1 → rest u w1 ≡ (ok v', w') → u.failed ≡ 0)
      → counted rest name v r ≡ (ok v', w')
      → (w1 : W) × (r ≡ (ok tt, w1))
        × (rest
              (record v { lines = v.lines ++ (name, none) ∷ []; passed = (v.passed + 1) % u32_mod })
              w1
            ≡ (ok v', w'))
  round_passed rest name v v' w' (ok u, w1) h k e = (w1, refl, e)
  round_passed rest name v v' w' (err x, w1) h k e = absurd (omega (arith, k _ w1 (omega arith) e))
  round_passed rest name v v' w' (panic, w1) h k e = absurd cc
  round_passed rest name v v' w' (timeout, w1) h k e = absurd cc

  check_loop-AllPass :
      (checks : List ValidateCheck) (v v' : Verdict) (w w' : W)
      → v.failed + length checks < u32_mod
      → v'.failed ≡ 0
      → check_loop validate path checks v w ≡ (ok v', w')
      → (v.failed ≡ 0) × AllPass checks w w'
  unfolding check_loop
  check_loop-AllPass [] v v' w w' h k e = (cc, cc)
  check_loop-AllPass (check ∷ checks) v v' w w' h k e =
      let (w1, passed, rest) =
        round_passed (check_loop validate path checks) (name_of check) v v' w'
          (result_of validate path check w) (omega arith)
          (λ u w2 more e'. (check_loop-AllPass checks u v' w2 w' (omega arith) k e').0) e in
      let tail : (v.failed ≡ 0) × AllPass checks w1 w' =
        check_loop-AllPass checks _ v' w1 w' (omega arith) k rest in
      (tail.0, (w1, passed, tail.1))

  AllPass-check_loop :
      (checks : List ValidateCheck) (v : Verdict) (w w' : W)
      → v.failed ≡ 0
      → AllPass checks w w'
      → (v' : Verdict) × (v'.failed ≡ 0) × (check_loop validate path checks v w ≡ (ok v', w'))
  unfolding check_loop
  AllPass-check_loop [] v w w' k a = (v, k, ap (λ (x : W). (ok v, x)) a)
  AllPass-check_loop (check ∷ checks) v w w' k (w1, passed, all) =
      let (v', k', e) =
        AllPass-check_loop checks
          (record v {
            lines = v.lines ++ (name_of check, none) ∷ [];
            passed = (v.passed + 1) % u32_mod;
          })
          w1 w' k all in
      (v', k', rw passed e)

  exit_value :
      (v v' : Verdict) (w w' : W)
      → exit_if_failed v w ≡ (ok v', w')
      → (v.failed ≡ 0) × (v ≡ v') × (w ≡ w')
  exit_value v v' w w' e = ground arith

  -- For fewer than 2^32 checks, `run_validate` exits with success, leaving the world `w'`, exactly if the checks it
  -- is asked for, or all four where it is asked for none, pass one behind the other from `w` to `w'`.
  pub run_validate-AllPass :
      (checks : List ValidateCheck) (w w' : W)
      → length (check_list checks) < u32_mod
      → ((v : Verdict) × (run_validate validate path checks w ≡ (ok v, w')))
        ↔ AllPass (check_list checks) w w'
  unfolding run_validate
  run_validate-AllPass checks w w' few = (
    (λ (v, e).
        let (v1, w1, e1, e2) =
          and_then-value (check_loop validate path (check_list checks) nothing_run w) _ v w' e in
        let (none_failed, same, at) = exit_value v1 v w1 w' e2 in
        (check_loop-AllPass (check_list checks) nothing_run v1 w w' (omega arith) none_failed
          (e1 ∙ ap (λ (x : W). (ok v1, x)) at)).1),
    (λ all.
        let (v, none_failed, e) =
          AllPass-check_loop (check_list checks) nothing_run w w' refl all in
        (v, rw (e, none_failed) refl)),
  )

  -- If `run_validate` without a check exits with success, in a world that it left as `w'`, then an open
  -- with all checks comes to what the open without a check comes to in `w'`.
  pub run_validate-open_device :
      (opener : Opener W) (v : Verdict) (w w' : W)
      → run_validate validate path [] w ≡ (ok v, w')
      → open_device validate opener (Builder.validate_all (Builder.new path)) w
        ≡ opener.open_path path w'
  unfolding open_device Builder.validate_all Builder.new
  run_validate-open_device opener v w w' e =
      let (w1, p1, (w2, p2, (w3, p3, (w4, p4, at)))) =
        (run_validate-AllPass [] w w' (omega arith)).0 (v, e) in
      rw (p1, p2, p3, p4, at) refl
