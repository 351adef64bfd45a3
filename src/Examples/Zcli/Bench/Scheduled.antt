-- ===== src/Examples/Zcli/Bench/Scheduled.antt =====
-- What the threads of `run_bench` of examples/zcli.rs have written, under every schedule.
use zoned.Base.{
  ℕ, zero, suc, ◌+◌, ◌%◌, ◌≤◌, ◌<◌, ◌≡◌, refl, ap, subst, inl, inr, Bool, List, [], ◌∷◌, arith, ltb,
  Bool-cases, length, u32_mod, u64_mod,
}
use zoned.Errors.{Outcome, ok, err, panic, timeout, ZonedError}
use zoned.Types.{to_bytes}
use zoned.Handle.{ZoneHandle}
use zoned.Examples.Zcli.Bench.{
  Status, running, finished, panicked, blocked, broken, Writer, after_write, write_some, fill_step,
  on_handles, on_status, step, step_at, run, spawn_from,
}
use zoned.Examples.Zcli.Bench.Filled.{
  Filling, capacity_bytes, AllBounded, first_capacity, Ended, step-Filling,
}

-- The counter and a sum of the threads grow alike, modulo 2^64.
abbrev Alike : ℕ → ℕ → ℕ → ℕ → Type 0
Alike c x c' x' = ((c' + x) % u64_mod ≡ (c + x') % u64_mod) × (c < u64_mod → c' < u64_mod)

module _ {W : Type 0} where
  -- The threads of a bench, each on the way through its own zones.
  abbrev FillingAll : List (List (ZoneHandle W)) → List (Writer W) → Type 0
  FillingAll [] [] = Unit {0}
  FillingAll [] (t ∷ ts) = ⊥
  FillingAll (hs ∷ hss) [] = ⊥
  FillingAll (hs ∷ hss) (t ∷ ts) = Filling (capacity_bytes hs) (length hs) t × FillingAll hss ts

  abbrev pub all_capacity_bytes : List (List (ZoneHandle W)) → ℕ
  all_capacity_bytes [] = 0
  all_capacity_bytes (hs ∷ hss) = capacity_bytes hs + all_capacity_bytes hss

  -- What is supposed of each thread's zones: few enough, and on devices that report what they write.
  abbrev pub Fillable : List (List (ZoneHandle W)) → Type 0
  Fillable [] = Unit {0}
  Fillable (hs ∷ hss) = (length hs < u32_mod) × AllBounded hs × Fillable hss

  abbrev pub bytes_of : List (Writer W) → ℕ
  bytes_of [] = 0
  bytes_of (t ∷ ts) = t.thread_bytes + bytes_of ts

  -- What each thread has written of its zones: at most their capacities, and exactly these once it is
  -- finished.
  abbrev pub Filled : List (List (ZoneHandle W)) → List (Writer W) → Type 0
  Filled [] [] = Unit {0}
  Filled [] (t ∷ ts) = ⊥
  Filled (hs ∷ hss) [] = ⊥
  Filled (hs ∷ hss) (t ∷ ts) =
      (t.thread_bytes ≤ capacity_bytes hs)
      × (t.status ≡ finished → (t.thread_bytes ≡ capacity_bytes hs) × (t.zones_written ≡ length hs))
      × Filled hss ts

  spawn_from-Filling :
      (buf_size : ℕ) (use_writev : Bool) (i : ℕ) (hss : List (List (ZoneHandle W)))
      → Fillable hss
      → FillingAll hss (spawn_from buf_size use_writev i hss)
  unfolding spawn_from
  spawn_from-Filling buf_size use_writev i [] f = tt
  spawn_from-Filling buf_size use_writev i (hs ∷ hss) f = (
    record {
      sum = omega arith;
      bound = omega arith;
      left = omega arith;
      devices = f.1;
      ended = tt;
    },
    spawn_from-Filling buf_size use_writev (suc i) hss f.2,
  )

  step_at-Filling :
      (i : ℕ) (hss : List (List (ZoneHandle W))) (ts : List (Writer W)) (s : ℕ × W)
      → Fillable hss
      → all_capacity_bytes hss < u64_mod
      → FillingAll hss ts
      → FillingAll hss (step_at i ts s).0
  unfolding step_at
  step_at-Filling i [] [] s f fits v = tt
  step_at-Filling i [] (t ∷ ts) s f fits v = elim v [ ]
  step_at-Filling i (hs ∷ hss) [] s f fits v = elim v [ ]
  step_at-Filling zero (hs ∷ hss) (t ∷ ts) s f fits v =
      (step-Filling (capacity_bytes hs) (length hs) (omega (arith, fits)) f.0 t s v.0, v.1)
  step_at-Filling (suc i) (hs ∷ hss) (t ∷ ts) s f fits v =
      (v.0, step_at-Filling i hss ts s f.2 (omega (arith, fits)) v.1)

  after_write-Alike :
      (t : Writer W) (rest : List (ZoneHandle W)) (c : ℕ)
      (r : Outcome ZonedError ℕ × (ZoneHandle W × W))
      → Alike c t.thread_bytes (after_write t rest c r).1.0 (after_write t rest c r).0.thread_bytes
  unfolding after_write
  after_write-Alike t rest c (ok n, (h, w)) = (omega arith, λ k. omega arith)
  after_write-Alike t rest c (err e, (h, w)) = (refl, λ k. k)
  after_write-Alike t rest c (panic, (h, w)) = (refl, λ k. k)
  after_write-Alike t rest c (timeout, (h, w)) = (refl, λ k. k)

  step-Alike :
      (t : Writer W) (c : ℕ) (w : W)
      → Alike c t.thread_bytes (step t (c, w)).1.0 (step t (c, w)).0.thread_bytes
  unfolding step fill_step
  step-Alike t c w = by_status t.status
    where
      by_handles :
          (hs : List (ZoneHandle W))
          → Alike c t.thread_bytes
              (on_handles t hs (c, w)).1.0
              (on_handles t hs (c, w)).0.thread_bytes
      by_handles [] = (refl, λ k. k)
      by_handles (h ∷ rest) = elim (Bool-cases (ltb t.zone_bytes (to_bytes h.capacity))) [
        | inl more ↦ rw more (after_write-Alike t rest c (write_some t (h, w)))
        | inr full ↦ rw full (refl, λ k. k)
      ]

      by_status :
          (st : Status)
          → Alike c t.thread_bytes
              (on_status st t (c, w)).1.0
              (on_status st t (c, w)).0.thread_bytes
      by_status running = by_handles t.handles
      by_status finished = (refl, λ k. k)
      by_status panicked = (refl, λ k. k)
      by_status blocked = (refl, λ k. k)
      by_status (broken m e) = (refl, λ k. k)

  step_at-Alike :
      (i : ℕ) (ts : List (Writer W)) (c : ℕ) (w : W)
      → Alike c (bytes_of ts) (step_at i ts (c, w)).1.0 (bytes_of (step_at i ts (c, w)).0)
  unfolding step_at
  step_at-Alike i [] c w = (refl, λ k. k)
  step_at-Alike zero (t ∷ ts) c w = let a = step-Alike t c w in (omega (arith, a.0), λ k. a.1 k)
  step_at-Alike (suc i) (t ∷ ts) c w =
      let a = step_at-Alike i ts c w in (omega (arith, a.0), λ k. a.1 k)

  run-Filling :
      (schedule : List ℕ) (hss : List (List (ZoneHandle W))) (ts : List (Writer W)) (s : ℕ × W)
      → Fillable hss
      → all_capacity_bytes hss < u64_mod
      → FillingAll hss ts
      → FillingAll hss (run schedule ts s).0
  unfolding run
  run-Filling [] hss ts s f fits v = v
  run-Filling (i ∷ schedule) hss ts s f fits v =
      run-Filling schedule hss (step_at i ts s).0 (step_at i ts s).1 f fits
        (step_at-Filling i hss ts s f fits v)

  run-Alike :
      (schedule : List ℕ) (ts : List (Writer W)) (s : ℕ × W)
      → Alike s.0 (bytes_of ts) (run schedule ts s).1.0 (bytes_of (run schedule ts s).0)
  unfolding run
  run-Alike [] ts s = (refl, λ k. k)
  run-Alike (i ∷ schedule) ts (c, w) =
      let a = step_at-Alike i ts c w in
      let b = run-Alike schedule (step_at i ts (c, w)).0 (step_at i ts (c, w)).1 in
      (omega (arith, a.0, b.0), λ k. b.1 (a.1 k))

  Ended-nil : (t : Writer W) → t.status ≡ finished → Ended t.status t.handles → t.handles ≡ []
  Ended-nil t e v = subst (λ st. Ended st t.handles) e v

  le-capacity_bytes : (hs : List (ZoneHandle W)) → first_capacity hs ≤ capacity_bytes hs
  le-capacity_bytes [] = omega arith
  le-capacity_bytes (h ∷ hs) = omega arith

  FillingAll-Filled :
      (hss : List (List (ZoneHandle W))) (ts : List (Writer W))
      → FillingAll hss ts
      → Filled hss ts × (bytes_of ts ≤ all_capacity_bytes hss)
  FillingAll-Filled [] [] v = (tt, omega arith)
  FillingAll-Filled [] (t ∷ ts) v = elim v [ ]
  FillingAll-Filled (hs ∷ hss) [] v = elim v [ ]
  FillingAll-Filled (hs ∷ hss) (t ∷ ts) v =
      let rest = FillingAll-Filled hss ts v.1 in
      let le : t.thread_bytes ≤ capacity_bytes hs =
        omega (arith, v.0.sum, v.0.bound, le-capacity_bytes t.handles) in
      (
        (
          le,
          (λ e.
              let at : t.handles ≡ [] = Ended-nil t e v.0.ended in
              (
                omega (arith, v.0.sum, v.0.bound, ap capacity_bytes at, ap first_capacity at),
                omega (arith, v.0.left, ap length at),
              )),
          rest.0,
        ),
        omega (arith, le, rest.1),
      )

  bytes_of-spawn_from :
      (buf_size : ℕ) (use_writev : Bool) (i : ℕ) (hss : List (List (ZoneHandle W)))
      → bytes_of (spawn_from buf_size use_writev i hss) ≡ 0
  unfolding spawn_from
  bytes_of-spawn_from buf_size use_writev i [] = refl
  bytes_of-spawn_from buf_size use_writev i (hs ∷ hss) =
      omega (arith, bytes_of-spawn_from buf_size use_writev (suc i) hss)

  -- On devices whose writes report at most what they were given, for zones of fewer than 2^64 bytes in all and
  -- fewer than 2^32 for each thread, the shared counter is the sum of the threads' bytes after every schedule of
  -- the threads; each thread has written at most the capacities of its zones, and exactly these, in all of its zones,
  -- once it is finished.
  pub run-Filled :
      (schedule : List ℕ) (buf_size : ℕ) (use_writev : Bool) (hss : List (List (ZoneHandle W)))
      (w : W)
      → Fillable hss
      → all_capacity_bytes hss < u64_mod
      → ((run schedule (spawn_from buf_size use_writev 0 hss) (0, w)).1.0
          ≡ bytes_of (run schedule (spawn_from buf_size use_writev 0 hss) (0, w)).0)
        × Filled hss (run schedule (spawn_from buf_size use_writev 0 hss) (0, w)).0
  run-Filled schedule buf_size use_writev hss w f fits =
      let ts : List (Writer W) = spawn_from buf_size use_writev 0 hss in
      let v = FillingAll-Filled hss (run schedule ts (0, w)).0 (
        run-Filling schedule hss ts (0, w) f fits
          (spawn_from-Filling buf_size use_writev 0 hss f)) in
      let a = run-Alike schedule ts (0, w) in
      (
        omega (arith, a.0, a.1 (omega arith), v.1, bytes_of-spawn_from buf_size use_writev 0 hss),
        v.0,
      )
