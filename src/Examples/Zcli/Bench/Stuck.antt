-- ===== src/Examples/Zcli/Bench/Stuck.antt =====
-- A bench of examples/zcli.rs with a device that takes no byte.
use zoned.Base.{
  ℕ, zero, suc, ◌*◌, ◌<◌, ◌≡◌, refl, ap, false, true, Bool, List, [], ◌∷◌, ◌++◌, ◌⊎◌, inl, inr,
  arith, ◌∙◌, lt→ltb, add_u64, lt→leb_false, u64_mod,
}
use zoned.Errors.{Outcome, ok, err, timeout, and_then, return}
use zoned.Types.{sector_size, to_bytes}
use zoned.Device.Write.{write_at-bytes, writev_at-bytes}
use zoned.Handle.{ZoneHandle, write_sequential, writev_sequential, capacity_end}
use zoned.Examples.Zcli.{CliError, context, message}
use zoned.Examples.Zcli.Bench.{
  Status, running, finished, panicked, blocked, broken, ThreadResult, Writer, after_write,
  write_some, fill_step, step, step_at, run, writer, spawn_from, join_all, run_threads,
}

-- A zone at whose write pointer its device takes no byte, in any state of the world, though there is room.
pub record TakesNothing {W : Type 0} (h : ZoneHandle W) : Type 0 where
  pub write_at :
      (buf : List ℕ) (w : W)
      → h.device.inner.write_at buf (h.write_pointer * sector_size) w ≡ (ok 0, w)
  pub writev_at :
      (bufs : List (List ℕ)) (w : W)
      → h.device.inner.writev_at bufs (h.write_pointer * sector_size) w ≡ (ok 0, w)
  pub some_room : 0 < to_bytes h.capacity
  pub before : h.write_pointer < capacity_end h
  pub fits : h.write_pointer * sector_size < u64_mod

-- A command that ended without a result, or never ends.
abbrev pub Unfinished : {W A : Type 0} → Outcome CliError A × W → Type 0
Unfinished {W} r = ((w : W) × (r ≡ (timeout, w))) ⊎ ((e : CliError) × (w : W) × (r ≡ (err e, w)))

module _ {W : Type 0} (h : ZoneHandle W) (nothing : TakesNothing h) where
  write_sequential-stuck : (buf : List ℕ) (w : W) → write_sequential buf (h, w) ≡ (ok 0, (h, w))
  unfolding write_sequential
  write_sequential-stuck buf w =
      rw
        (
          lt→leb_false (capacity_end h) h.write_pointer nothing.before,
          write_at-bytes h.device h.write_pointer buf w nothing.fits,
          nothing.write_at buf w,
        )
        (ap (λ (k : ℕ). (ok 0, (record h { write_pointer = k }, w))) (omega (arith, nothing.fits)))

  writev_sequential-stuck :
      (bufs : List (List ℕ)) (w : W) → writev_sequential bufs (h, w) ≡ (ok 0, (h, w))
  unfolding writev_sequential
  writev_sequential-stuck bufs w =
      rw
        (
          lt→leb_false (capacity_end h) h.write_pointer nothing.before,
          writev_at-bytes h.device h.write_pointer bufs w nothing.fits,
          nothing.writev_at bufs w,
        )
        (ap (λ (k : ℕ). (ok 0, (record h { write_pointer = k }, w))) (omega (arith, nothing.fits)))

  write_some-stuck : (t : Writer W) (w : W) → write_some t (h, w) ≡ (ok 0, (h, w))
  write_some-stuck t w = go t.use_writev refl
    where
      go : (b : Bool) → t.use_writev ≡ b → write_some t (h, w) ≡ (ok 0, (h, w))
      go true e = rw e (writev_sequential-stuck _ w)
      go false e = rw e (write_sequential-stuck _ w)

  module _ (buf_size : ℕ) (use_writev : Bool) (rest : List (ZoneHandle W)) where
    abbrev waiting : ℕ → Writer W
    waiting thread_id = writer buf_size use_writev thread_id (h ∷ rest)

    step-stuck : (i n : ℕ) (w : W) → step (waiting i) (n, w) ≡ (waiting i, (add_u64 n 0, w))
    unfolding step fill_step after_write
    step-stuck i n w =
        rw (lt→ltb 0 (to_bytes h.capacity) nothing.some_room, write_some-stuck (waiting i) w) refl

    -- Some thread of a bench waits at the zone.
    Waits : List (Writer W) → Type 0
    Waits [] = ⊥
    Waits (t ∷ ts) = ((i : ℕ) × (t ≡ waiting i)) ⊎ Waits ts

    step_at-Waits : (k : ℕ) (ts : List (Writer W)) (s : ℕ × W) → Waits ts → Waits (step_at k ts s).0
    unfolding Waits step_at
    step_at-Waits k [] s v = elim v [ ]
    step_at-Waits zero (t ∷ ts) (n, w) (inl (i, e)) =
        inl (i, rw e (ap (λ (r : Writer W × (ℕ × W)). r.0) (step-stuck i n w)))
    step_at-Waits zero (t ∷ ts) s (inr v) = inr v
    step_at-Waits (suc k) (t ∷ ts) s (inl v) = inl v
    step_at-Waits (suc k) (t ∷ ts) s (inr v) = inr (step_at-Waits k ts s v)

    run-Waits :
        (schedule : List ℕ) (ts : List (Writer W)) (s : ℕ × W)
        → Waits ts
        → Waits (run schedule ts s).0
    unfolding run
    run-Waits [] ts s v = v
    run-Waits (k ∷ schedule) ts s v =
        run-Waits schedule (step_at k ts s).0 (step_at k ts s).1 (step_at-Waits k ts s v)

    spawn_from-Waits :
        (pre post : List (List (ZoneHandle W))) (i : ℕ)
        → Waits (spawn_from buf_size use_writev i (pre ++ (h ∷ rest) ∷ post))
    unfolding spawn_from Waits
    spawn_from-Waits [] post i = inl (i, refl)
    spawn_from-Waits (hs ∷ pre) post i = inr (spawn_from-Waits pre post (suc i))

    join_all-Unfinished :
        (ts : List (Writer W)) (results : List ThreadResult) (w : W)
        → Waits ts
        → Unfinished (join_all ts results w)
    unfolding join_all Waits
    join_all-Unfinished [] results w v = elim v [ ]
    join_all-Unfinished (t ∷ ts) results w (inl (i, e)) = inl (w, rw e refl)
    join_all-Unfinished (t ∷ ts) results w (inr v) =
        by_status (λ results'. join_all-Unfinished ts results' w v) t.status refl
      where
        by_status :
            ((rs : List ThreadResult) → Unfinished (join_all ts rs w))
            → (st : Status) → t.status ≡ st
            → Unfinished (join_all (t ∷ ts) results w)
        by_status others running e = inl (w, rw e refl)
        by_status others finished e = rw e (others _)
        by_status others panicked e = inr (message "a writer thread panicked", w, rw e refl)
        by_status others blocked e = inl (w, rw e refl)
        by_status others (broken m x) e = inr (context m x, w, rw e refl)

    joined-Unfinished :
        (r : Outcome CliError (List ThreadResult) × W) (n : ℕ)
        → Unfinished r
        → Unfinished {A = List ThreadResult × ℕ} (and_then r (λ results. return (results, n)))
    joined-Unfinished r n (inl (w, e)) = inl (w, rw e refl)
    joined-Unfinished r n (inr (x, w, e)) = inr (x, w, rw e refl)

    -- The first thread, to be joined before the others.
    run-first :
        (schedule : List ℕ) (i : ℕ) (ts : List (Writer W)) (s : ℕ × W)
        → (ts' : List (Writer W)) × ((run schedule (waiting i ∷ ts) s).0 ≡ waiting i ∷ ts')
    unfolding run step_at
    run-first [] i ts s = (ts, refl)
    run-first (zero ∷ schedule) i ts (n, w) =
        let (ts', e) = run-first schedule i ts (step (waiting i) (n, w)).1 in
        (
          ts',
          ap (λ (t : Writer W). (run schedule (t ∷ ts) (step (waiting i) (n, w)).1).0)
                (ap (λ (r : Writer W × (ℕ × W)). r.0) (step-stuck i n w))
              ∙ e,
        )
    run-first (suc k ∷ schedule) i ts s = run-first schedule i (step_at k ts s).0 (step_at k ts s).1

    -- A bench one of whose threads begins with a zone that has room, with a write pointer before the end of
    -- its capacity and below 2^64 bytes, but whose device reports 0 bytes for every write at that pointer and
    -- changes nothing, gives no results after any schedule, in
    -- writes or vectored writes, whatever the other threads do: it waits without end, or fails with the error
    -- of a thread that is joined before. If it is the first thread, the bench waits without end.
    pub run_threads-stuck :
        (pre post : List (List (ZoneHandle W))) (schedule : List ℕ) (w : W)
        → Unfinished
            (run_threads schedule (spawn_from buf_size use_writev 0 (pre ++ (h ∷ rest) ∷ post)) w)
          × ((w' : W) × (run_threads schedule
                  (spawn_from buf_size use_writev 0 ((h ∷ rest) ∷ post))
                  w
                ≡ (timeout, w')))
    unfolding run_threads spawn_from join_all
    run_threads-stuck pre post schedule w = (
      joined-Unfinished _ _
          (join_all-Unfinished _ [] _ (run-Waits schedule _ (0, w) (spawn_from-Waits pre post 0))),
      let (ts', e) = run-first schedule 0 (spawn_from buf_size use_writev 1 post) (0, w) in
          (
            (run schedule (spawn_from buf_size use_writev 0 ((h ∷ rest) ∷ post)) (0, w)).1.1,
            rw e refl,
          ),
    )
