-- ===== src/Examples/Zcli/Bench/Distinct.antt =====
-- The zones that `run_bench` of examples/zcli.rs gives its threads.
use zoned.Base.{
  ℕ, zero, suc, ◌+◌, ◌≤◌, ◌≡◌, refl, sym, ap, subst, List, [], ◌∷◌, ◌++◌, arith, length,
}
use zoned.Errors.{
  Outcome, ok, err, panic, timeout, ZonedError, and_then, and_then-value, convert_err-value,
}
use zoned.Types.{ZoneIndex}
use zoned.Device
use zoned.Device.{ZonedDevice}
use zoned.Handle
use zoned.Handle.{ZoneHandle}
use zoned.Allocator
use zoned.Allocator.{ZoneAllocator, Allocated, fresh}
use zoned.Allocator.Granted.{Granted, allocate-Granted}
use zoned.Allocator.Set.{insert, count, contains-count, count-sort, sort}
use zoned.Examples.Zcli.{CliError}
use zoned.Examples.Zcli.Bench.Phases.{
  allocate_for, allocate_all, allocate_zones, listed, reset_result, reset_new,
}

-- A set of zones grows by the given ones, and has none twice if it had none twice.
abbrev Grows : Allocated → List ZoneIndex → Allocated → Type 0
Grows set new set' =
    (z : ℕ) → (count z set' ≡ count z set + count z new) × (count z set ≤ 1 → count z set' ≤ 1)

count-append : (z : ℕ) (xs ys : List ℕ) → count z (xs ++ ys) ≡ count z xs + count z ys
count-append z [] ys = omega arith
count-append z (x ∷ xs) ys = ground (arith, count-append z xs ys)

Grows-trans :
    (set set' set'' : Allocated) (xs ys : List ZoneIndex)
    → Grows set xs set'
    → Grows set' ys set''
    → Grows set (xs ++ ys) set''
Grows-trans set set' set'' xs ys g k z =
    (omega (arith, (g z).0, (k z).0, count-append z xs ys), λ h. (k z).1 ((g z).1 h))

module _ {W : Type 0} where
  abbrev pub indices : List (ZoneHandle W) → List ZoneIndex
  indices [] = []
  indices (h ∷ hs) = h.zone_index ∷ indices hs

  abbrev pub all_indices : List (List (ZoneHandle W)) → List ZoneIndex
  all_indices [] = []
  all_indices (hs ∷ hss) = indices hs ++ all_indices hss

  reset-index : (h : ZoneHandle W) (w : W) → (Handle.reset (h, w)).1.0.zone_index ≡ h.zone_index
  unfolding Handle.reset
  reset-index h w = of_call (Device.reset_zones h.device h.start h.len w)
    where
      of_call :
          (r : Outcome ZonedError (Unit {0}) × W)
          → (and_then {W = ZoneHandle W × W}
              (r.0, (h, r.1))
              (λ _. Handle.set_pointer h.start)).1.0.zone_index
            ≡ h.zone_index
      of_call (ok u, w') = refl
      of_call (err x, w') = refl
      of_call (panic, w') = refl
      of_call (timeout, w') = refl

  -- The handle that a reset leaves is that of the same zone.
  reset_new-value :
      (h h' : ZoneHandle W) (set set' : Allocated) (w w' : W)
      → reset_new h (set, w) ≡ (ok h', (set', w'))
      → (h'.zone_index ≡ h.zone_index) × (set' ≡ set)
  reset_new-value h h' set set' w w' e = of_result (Handle.reset (h, w)) (reset-index h w) e
    where
      of_result :
          (r : Outcome ZonedError (Unit {0}) × (ZoneHandle W × W))
          → r.1.0.zone_index ≡ h.zone_index
          → reset_result set r ≡ (ok h', (set', w'))
          → (h'.zone_index ≡ h.zone_index) × (set' ≡ set)
      of_result (ok u, (k, v)) i e = (cc, cc)
      of_result (err x, (k, v)) i e = absurd cc
      of_result (panic, (k, v)) i e = absurd cc
      of_result (timeout, (k, v)) i e = absurd cc

  allocate-Grows :
      (a : ZoneAllocator W) (h : ZoneHandle W) (set set' : Allocated) (w w' : W)
      → Allocator.allocate a (set, w) ≡ (ok h, (set', w'))
      → Grows set (h.zone_index ∷ []) set'
  unfolding insert
  allocate-Grows a h set set' w w' e z =
      let g = subst (Granted set) e (allocate-Granted a set w) in
      rw (g.1) (ground (arith, contains-count h.zone_index set, g.0))

  cons-Grows :
      (h h' : ZoneHandle W) (hs' hs : List (ZoneHandle W)) (n : ℕ)
      (set set1 set2 set3 set' : Allocated) (w3 w' : W)
      → Grows set (h.zone_index ∷ []) set1
      → (h'.zone_index ≡ h.zone_index) × (set2 ≡ set1)
      → Grows set2 (indices hs') set3 × (length hs' ≡ n)
      → Path
          (Outcome CliError (List (ZoneHandle W)) × (Allocated × W))
          (ok (h' ∷ hs'), (set3, w3))
          (ok hs, (set', w'))
      → Grows set (indices hs) set' × (length hs ≡ suc n)
  cons-Grows h h' hs' hs n set set1 set2 set3 set' w3 w' g same k e =
      let new : h' ∷ hs' ≡ hs = cc in
      let at : set3 ≡ set' = cc in
      let kept : Grows set1 (indices hs') set3 =
        subst (λ x. Grows x (indices hs') set3) same.1 k.0 in
      let grown : Grows set (h.zone_index ∷ indices hs') set' =
        subst (Grows set (h.zone_index ∷ indices hs')) at
          (Grows-trans set set1 set3 (h.zone_index ∷ []) (indices hs') g kept) in
      (
        subst (λ xs. Grows set (indices xs) set') new
            (subst (λ (i : ℕ). Grows set (i ∷ indices hs') set') (sym same.0) grown),
        omega (arith, ap length new, k.1),
      )

  allocate_for-Grows :
      (a : ZoneAllocator W) (t n : ℕ) (hs : List (ZoneHandle W)) (set set' : Allocated) (w w' : W)
      → allocate_for a t n (set, w) ≡ (ok hs, (set', w'))
      → Grows set (indices hs) set' × (length hs ≡ n)
  unfolding allocate_for
  allocate_for-Grows a t zero hs set set' w w' e =
      let h : [] ≡ hs = cc in
      let s : set ≡ set' = cc in
      (
        (λ z. (
          omega (arith, ap (count z) s, ap (λ xs. count z (indices xs)) h),
          λ k. omega (arith, ap (count z) s, k),
        )),
        ap length (sym h),
      )
  allocate_for-Grows a t (suc n) hs set set' w w' e =
      let (h, s1, e1, rest1) = and_then-value _ _ hs (set', w') e in
      let (h', s2, e2, rest2) = and_then-value _ _ hs (set', w') rest1 in
      let (hs', s3, e3, last) = and_then-value _ _ hs (set', w') rest2 in
      let g1 = allocate-Grows a h set s1.0 w s1.1 (convert_err-value _ _ h s1 e1) in
      let g2 = reset_new-value h h' s1.0 s2.0 s1.1 s2.1 (convert_err-value _ _ h' s2 e2) in
      let g3 = allocate_for-Grows a t n hs' s2.0 s3.0 s2.1 s3.1 e3 in
      cons-Grows h h' hs' hs n set s1.0 s2.0 s3.0 set' s3.1 w' g1 g2 g3 last

  abbrev pub EachHas : ℕ → List (List (ZoneHandle W)) → Type 0
  EachHas n [] = Unit {0}
  EachHas n (hs ∷ hss) = (length hs ≡ n) × EachHas n hss

  -- What an allocation for `threads` threads of `n` zones each hands out.
  abbrev Shares : ℕ → ℕ → Allocated → List (List (ZoneHandle W)) → Allocated → Type 0
  Shares n threads set hss set' =
      Grows set (all_indices hss) set' × (length hss ≡ threads) × EachHas n hss

  nil-Shares :
      (n : ℕ) (hss : List (List (ZoneHandle W))) (set set' : Allocated) (w w' : W)
      → Path
          (Outcome CliError (List (List (ZoneHandle W))) × (Allocated × W))
          (ok [], (set, w))
          (ok hss, (set', w'))
      → Shares n 0 set hss set'
  nil-Shares n hss set set' w w' e =
      let new : [] ≡ hss = cc in
      let at : set ≡ set' = cc in
      subst (λ xs. Shares n 0 set xs set') new
        ((λ z. (omega (arith, ap (count z) at), λ k. omega (arith, ap (count z) at, k))), refl, tt)

  cons-Shares :
      (hs : List (ZoneHandle W)) (hss hss' : List (List (ZoneHandle W))) (n threads : ℕ)
      (set set1 set2 set' : Allocated) (w2 w' : W)
      → Grows set (indices hs) set1 × (length hs ≡ n)
      → Shares n threads set1 hss set2
      → Path
          (Outcome CliError (List (List (ZoneHandle W))) × (Allocated × W))
          (ok (hs ∷ hss), (set2, w2))
          (ok hss', (set', w'))
      → Shares n (suc threads) set hss' set'
  cons-Shares hs hss hss' n threads set set1 set2 set' w2 w' g k e =
      let new : hs ∷ hss ≡ hss' = cc in
      let at : set2 ≡ set' = cc in
      subst (λ xs. Shares n (suc threads) set xs set') new
        (
          subst (Grows set (all_indices (hs ∷ hss))) at
              (Grows-trans set set1 set2 (indices hs) (all_indices hss) g.0 k.0),
          ap suc k.1,
          (g.1, k.2),
        )

  allocate_all-Shares :
      (a : ZoneAllocator W) (n t threads : ℕ) (hss : List (List (ZoneHandle W)))
      (set set' : Allocated) (w w' : W)
      → allocate_all a n t threads (set, w) ≡ (ok hss, (set', w'))
      → Shares n threads set hss set'
  unfolding allocate_all
  allocate_all-Shares a n t zero hss set set' w w' e = nil-Shares n hss set set' w w' e
  allocate_all-Shares a n t (suc threads) hss set set' w w' e =
      let (hs, s1, e1, rest1) = and_then-value _ _ hss (set', w') e in
      let (hss', s2, e2, last) = and_then-value _ _ hss (set', w') rest1 in
      cons-Shares hs hss' hss n threads set s1.0 s2.0 set' s2.1 w'
        (allocate_for-Grows a t n hs set s1.0 w s1.1 e1)
        (allocate_all-Shares a n (suc t) threads hss' s1.0 s2.0 s1.1 s2.1 e2) last

  -- On every device, a bench whose allocation succeeds has given each of its threads the number of zones that
  -- was asked for, no zone to two threads or twice to one, and the list of zones that it resets at its end has
  -- exactly the zones that it gave out.
  pub allocate_zones-Distinct :
      (d : ZonedDevice W) (threads n : ℕ) (hss : List (List (ZoneHandle W)))
      (allocated : List ZoneIndex) (w w' : W)
      → allocate_zones d threads n w ≡ (ok (hss, allocated), w')
      → ((z : ℕ)
          → (count z (all_indices hss) ≤ 1) × (count z allocated ≡ count z (all_indices hss)))
        × (length hss ≡ threads)
        × EachHas n hss
  unfolding allocate_zones Allocator.allocated_zones
  allocate_zones-Distinct d threads n hss allocated w w' e =
      of_result (allocate_all (record { device = d }) n 0 threads (fresh, w)) refl e
    where
      of_result :
          (r : Outcome CliError (List (List (ZoneHandle W))) × (Allocated × W))
          → allocate_all (record { device = d }) n 0 threads (fresh, w) ≡ r
          → listed r ≡ (ok (hss, allocated), w')
          → ((z : ℕ)
              → (count z (all_indices hss) ≤ 1) × (count z allocated ≡ count z (all_indices hss)))
            × (length hss ≡ threads)
            × EachHas n hss
      of_result (ok hss', (set', v)) k e' =
          let s = allocate_all-Shares (record { device = d }) n 0 threads hss' fresh set' w v k in
          let new : hss' ≡ hss = cc in
          let at : sort set' ≡ allocated = cc in
          subst
            (λ xs.
              ((z : ℕ)
                → (count z (all_indices xs) ≤ 1) × (count z allocated ≡ count z (all_indices xs)))
              × (length xs ≡ threads)
              × EachHas n xs)
            new
            (
              (λ z. (
                omega (arith, (s.0 z).0, (s.0 z).1 (omega arith)),
                omega (arith, (s.0 z).0, ap (count z) at, count-sort z set'),
              )),
              s.1,
              s.2,
            )
      of_result (err x, (set', v)) k e' = absurd cc
      of_result (panic, (set', v)) k e' = absurd cc
      of_result (timeout, (set', v)) k e' = absurd cc
