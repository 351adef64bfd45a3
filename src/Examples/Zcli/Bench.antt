-- ===== src/Examples/Zcli/Bench.antt =====
-- The threads of `run_bench` of examples/zcli.rs, which fill the zones that an allocator gave them.
-- Bench.Phases has what stands around them.
pub mod Phases
pub mod Distinct
pub mod Writes
pub mod Filled
pub mod Scheduled
pub mod Stuck
use zoned.Base.{
  ℕ, zero, suc, ◌+◌, ◌-◌, ◌*◌, ◌%◌, min, String, Bool, true, false, Option, none, some, List, [],
  ◌∷◌, ◌++◌, ◌&&◌, not, ltb, ◌==◌, if◌then◌else◌, length, take, replicate, u32_mod, add_u64,
  mul_u64,
}
use zoned.Base.Text.{push}
use zoned.Base.Text.Decimal.{show}
use zoned.Errors.{
  Io, Outcome, ok, err, panic, timeout, ZonedError, fail, return, map_err, ◌>>=◌, ◌>>◌, and_then,
}
use zoned.Types.{Sector, ZoneIndex, to_bytes}
use zoned.Types.Properties.{DeviceProperties}
use zoned.Device
use zoned.Device.{ZonedDevice, Zio}
use zoned.Device.Builder
use zoned.Device.Builder.{Validate, Opener, DeviceBuilder, open_device}
use zoned.Handle
use zoned.Handle.{ZoneHandle}
use zoned.Allocator
use zoned.Allocator.{ZoneAllocator, Allocated, Aio, fresh}
use zoned.Examples.Zcli.{Cio, CliError, passes, attempt, message, context, Console, unless_skipped}
use zoned.Examples.Zcli.Transfer.{halves}

pub record ThreadResult : Type 0 where
  pub thread_id : ℕ
  pub bytes_written : ℕ
  pub zones_written : ℕ

-- The contents of `alloc_aligned_buf`: the size is not 0.
abbrev pub aligned_buf : ℕ → ℕ → List ℕ
aligned_buf size fill = replicate size fill

-- `((thread_id & 0xFF) as u8).wrapping_add(0xA0)`.
abbrev pub fill_of : ℕ → ℕ
fill_of thread_id = (thread_id % 256 + 0xA0) % 256

-- What a thread has come to; it is blocked in a write that does not come back.
pub data Status : Type 0 where
  running finished panicked blocked : Status
  broken : String → ZonedError → Status

-- A writer thread between two writes: the handle that it fills, at the front, and those after it.
pub record Writer (W : Type 0) : Type 0 where
  pub thread_id : ℕ
  pub buf : List ℕ
  pub use_writev : Bool
  pub handles : List (ZoneHandle W)
  pub zone_bytes : ℕ
  pub thread_bytes : ℕ
  pub zones_written : ℕ
  pub status : Status

module _ {W : Type 0} where
  abbrev write_message : ℕ → ZoneHandle W → String
  write_message thread_id h =
      push "thread " (show thread_id (push " zone " (show h.zone_index (push ": " ""))))

  -- What a write came to: the three sums, or the end of the thread. The threads' counter of bytes
  -- is read only after they are joined, so that its addition is in one step with the write.
  unfoldable pub after_write :
      Writer W
      → List (ZoneHandle W)
      → ℕ
      → Outcome ZonedError ℕ × (ZoneHandle W × W)
      → Writer W × (ℕ × W)
  after_write t rest counter (ok written, (h, w)) = (
    record t {
      handles = h ∷ rest;
      zone_bytes = add_u64 t.zone_bytes written;
      thread_bytes = add_u64 t.thread_bytes written;
    },
    (add_u64 counter written, w),
  )
  after_write t rest counter (err e, (h, w)) = (
    record t { handles = h ∷ rest; status = broken (write_message t.thread_id h) e },
    (counter, w),
  )
  after_write t rest counter (panic, (h, w)) =
      (record t { handles = h ∷ rest; status = panicked }, (counter, w))
  after_write t rest counter (timeout, (h, w)) =
      (record t { handles = h ∷ rest; status = blocked }, (counter, w))

  -- `&buf[..write_len]` for `remaining.min(buf.len())`.
  abbrev pub piece : Writer W → ZoneHandle W → List ℕ
  piece t h = take (min (to_bytes h.capacity - t.zone_bytes) (length t.buf)) t.buf

  abbrev pub write_some : Writer W → ZoneHandle W × W → Outcome ZonedError ℕ × (ZoneHandle W × W)
  write_some t (h, w) =
      (if t.use_writev
          then Handle.writev_sequential (halves (piece t h))
          else Handle.write_sequential (piece t h))
        (h, w)

  -- A step with the handle `h` at the front: a write, or on to the next zone. The drop of a handle frees
  -- its zone in an allocator from which nothing is allocated any more, and is left out.
  unfoldable pub fill_step :
      Writer W → ZoneHandle W → List (ZoneHandle W) → ℕ × W → Writer W × (ℕ × W)
  unfolding after_write
  fill_step t h rest (counter, w) =
      if ltb t.zone_bytes (to_bytes h.capacity)
      then after_write t rest counter (write_some t (h, w))
      else (
        record t {
          handles = rest;
          zone_bytes = 0;
          zones_written = (t.zones_written + 1) % u32_mod;
        },
        (counter, w),
      )

  abbrev pub on_handles : Writer W → List (ZoneHandle W) → ℕ × W → Writer W × (ℕ × W)
  on_handles t [] s = (record t { status = finished }, s)
  on_handles t (h ∷ rest) s = fill_step t h rest s

  -- A step of a thread in the counter of bytes beside the world.
  abbrev pub on_status : Status → Writer W → ℕ × W → Writer W × (ℕ × W)
  on_status running t s = on_handles t t.handles s
  on_status finished t s = (t, s)
  on_status panicked t s = (t, s)
  on_status blocked t s = (t, s)
  on_status (broken m e) t s = (t, s)

  unfoldable pub step : Writer W → ℕ × W → Writer W × (ℕ × W)
  unfolding fill_step
  step t s = on_status t.status t s

  -- A step of the thread at an index; no thread, no step.
  unfoldable pub step_at : ℕ → List (Writer W) → ℕ × W → List (Writer W) × (ℕ × W)
  step_at i [] s = ([], s)
  step_at zero (t ∷ ts) s = ((step t s).0 ∷ ts, (step t s).1)
  step_at (suc i) (t ∷ ts) s = (t ∷ (step_at i ts s).0, (step_at i ts s).1)

  -- The threads run in the order of a schedule.
  unfoldable pub run : List ℕ → List (Writer W) → ℕ × W → List (Writer W) × (ℕ × W)
  run [] ts s = (ts, s)
  run (i ∷ schedule) ts s = run schedule (step_at i ts s).0 (step_at i ts s).1

  abbrev pub writer : ℕ → Bool → ℕ → List (ZoneHandle W) → Writer W
  writer buf_size use_writev thread_id handles = record {
    thread_id = thread_id;
    buf = aligned_buf buf_size (fill_of thread_id);
    use_writev = use_writev;
    handles = handles;
    zone_bytes = 0;
    thread_bytes = 0;
    zones_written = 0;
    status = running;
  }

  unfoldable pub spawn_from : ℕ → Bool → ℕ → List (List (ZoneHandle W)) → List (Writer W)
  spawn_from buf_size use_writev thread_id [] = []
  spawn_from buf_size use_writev thread_id (handles ∷ thread_zones) =
      writer buf_size use_writev thread_id handles
      ∷ spawn_from buf_size use_writev (suc thread_id) thread_zones

  -- `jh.join()` of a thread, with the results of those before it: one that still runs, or is blocked, is
  -- waited for in vain, as the schedule is at its end.
  abbrev join_one :
      Status
      → Writer W
      → List ThreadResult
      → (List ThreadResult → Cio W (List ThreadResult))
      → Cio W (List ThreadResult)
  join_one finished t results rest = rest (
      results
      ++ record {
        thread_id = t.thread_id;
        bytes_written = t.thread_bytes;
        zones_written = t.zones_written;
      }
        ∷ [])
  join_one (broken m e) t results rest = fail (context m e)
  join_one panicked t results rest = fail (message "a writer thread panicked")
  join_one running t results rest = λ w. (timeout, w)
  join_one blocked t results rest = λ w. (timeout, w)

  unfoldable pub join_all : List (Writer W) → List ThreadResult → Cio W (List ThreadResult)
  join_all [] results = return results
  join_all (t ∷ ts) results = join_one t.status t results (join_all ts)

  -- A part that runs in the counter beside the world, on a world that has none.
  abbrev after_run :
      List (Writer W) × (ℕ × W)
      → (List (Writer W) → ℕ → Cio W (List ThreadResult × ℕ))
      → Outcome CliError (List ThreadResult × ℕ) × W
  after_run (ts, (counter, w)) rest = rest ts counter w

  unfoldable pub run_threads : List ℕ → List (Writer W) → Cio W (List ThreadResult × ℕ)
  run_threads schedule ts w =
      after_run (run schedule ts (0, w))
        λ ts' counter. do results ← join_all ts' []; return (results, counter)
