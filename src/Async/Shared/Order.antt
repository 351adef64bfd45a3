-- ===== src/Async/Shared/Order.antt =====
-- The order in which the writes of tasks that share an AsyncZoneHandle reach the zone.
use zoned.Base.{
  ℕ, ◌+◌, ◌*◌, ◌/◌, ◌%◌, ◌≤◌, ◌≡◌, sym, ap, ◌∙◌, subst, none, some, List, [], ◌∷◌, ◌++◌, map, arith,
  length, length-append, length-take, take, take-length, u64_mod,
}
use mathlib.Core.List.{flatten}
use mathlib.Core.List.Perm
use zoned.Errors.{Outcome, ok, ZonedError}
use zoned.Types.{sector_size}
use zoned.Device.Storage.{overlay, Storage, overlay-append, overlay-Same, overlay-nil}
use zoned.Handle
use zoned.Handle.{ZoneHandle}
use zoned.Handle.Write.{Appended, write_all_sequential-Appended}
use zoned.Async.{Runtime, Runs, spawn_blocking-Returns}
use zoned.Async.Handle.{write_all_sequential}
use zoned.Async.Shared.{
  Tasks, Step, takes_lock, writes, Reach, here, next, idle, held, buffer_of, AllWhole, total,
  InOrder,
}
use zoned.Async.Shared.Parts.{
  total-append, AllWhole-middle, Parts-snoc, flatten-snoc, taken-Perm, finished-Perm,
}

-- With what the next step needs.
record Ordered {W : Type 0} (media : W → ℕ → ℕ) (m : ℕ → ℕ) (h₀ : ZoneHandle W)
    (bufs : List (List ℕ)) (t : Tasks W) : Type 0 where
  order : InOrder media m h₀ bufs t
  units : length (flatten order.parts) % sector_size ≡ 0
  room : length (flatten order.parts) + (total (held t.lock) + total t.waiting) ≤ total bufs
  lock_whole : AllWhole (held t.lock)
  waiting_whole : AllWhole t.waiting

idle-Ordered :
    {W : Type 0} (media : W → ℕ → ℕ) (h₀ : ZoneHandle W) (w : W) (bufs : List (List ℕ))
    → AllWhole bufs
    → Ordered media (media w) h₀ bufs (idle bufs h₀ w)
unfolding flatten
idle-Ordered media h₀ w bufs whole = record {
  order = record {
    parts = [];
    written = tt;
    bytes = overlay-nil (media w) (h₀.write_pointer * sector_size);
    handle = ap (λ (k : ℕ). record h₀ { write_pointer = k }) (omega arith);
    tasks = Perm.refl bufs;
  };
  units = omega arith;
  room = omega arith;
  lock_whole = tt;
  waiting_whole = whole;
}

module _ (rt : Runtime) (runs : Runs rt) {W : Type 0} (media : W → ℕ → ℕ) (m : ℕ → ℕ)
    (h₀ : ZoneHandle W) (bufs : List (List ℕ)) (storage : Storage h₀.device media)
    (fits : h₀.write_pointer * sector_size + total bufs ≤ u64_mod) where
  takes_lock-Ordered :
      (t : Tasks W) (pre post : List (List ℕ)) (buf : List ℕ)
      → t.lock ≡ none
      → t.waiting ≡ pre ++ buf ∷ post
      → Ordered media m h₀ bufs t
      → Ordered media m h₀ bufs (record t { lock = some buf; waiting = pre ++ post })
  takes_lock-Ordered t pre post buf free split v =
      let (whole, rest) = AllWhole-middle pre post buf (subst AllWhole split v.waiting_whole) in
      record {
        order = record {
          parts = v.order.parts;
          written = v.order.written;
          bytes = v.order.bytes;
          handle = v.order.handle;
          tasks =
              Perm.trans (taken-Perm (map buffer_of t.finished) pre post buf)
                (rw (free, split) at v.order.tasks);
        };
        units = v.units;
        room = omega (
          arith,
          rw (free, split, total-append pre (buf ∷ post)) at v.room,
          total-append pre post,
        );
        lock_whole = (whole, tt);
        waiting_whole = rest;
      }

  -- What the write of the buffer `buf` came to, as a result `r` of its own.
  Appended-Ordered :
      (t : Tasks W) (buf : List ℕ) (r : Outcome ZonedError (Unit {0}) × (ZoneHandle W × W))
      → t.lock ≡ some buf
      → Ordered media m h₀ bufs t
      → Appended media (media t.shared.1) t.shared.0 buf r
      → Ordered media m h₀ bufs
          (record t { lock = none; finished = t.finished ++ (buf, r.0) ∷ []; shared = r.1 })
  Appended-Ordered t buf r locked v a = record {
    order = record {
      parts = v.order.parts ++ part ∷ [];
      written = Parts-snoc t.finished v.order.parts buf part r.0 v.order.written (
          (
            (
              (ap (λ k. take k buf) (sym part_length), omega (arith, a.units, part_length)),
              (whole, a.returned),
            ),
            tt,
          ));
      bytes = λ i.
          a.bytes i
          ∙ overlay-Same (media t.shared.1)
              (overlay m (h₀.write_pointer * sector_size) (flatten v.order.parts))
              (t.shared.0.write_pointer * sector_size) part v.order.bytes i
          ∙ rw (flatten-snoc v.order.parts part) (
              subst
                (λ k.
                  overlay (overlay m (h₀.write_pointer * sector_size) (flatten v.order.parts)) k
                    part i
                  ≡ overlay m (h₀.write_pointer * sector_size) (flatten v.order.parts ++ part) i)
                (sym behind)
                (overlay-append m (h₀.write_pointer * sector_size) (flatten v.order.parts) part i));
      handle =
          a.handle
          ∙ ap
              (λ (x : ZoneHandle W). record x {
                write_pointer = x.write_pointer + a.count / sector_size;
              })
              v.order.handle
          ∙ ap (λ (k : ℕ). record h₀ { write_pointer = k }) moved;
      tasks = Perm.trans (finished-Perm t.finished t.waiting buf r.0) (rw locked at v.order.tasks);
    };
    units = rw (flatten-snoc v.order.parts part) (omega (arith, joined, v.units, a.units));
    room =
        rw (flatten-snoc v.order.parts part) (omega (arith, joined, rw locked at v.room, a.within));
    lock_whole = tt;
    waiting_whole = v.waiting_whole;
  }
    where
      part : List ℕ
      part = take a.count buf

      part_length : length part ≡ a.count
      part_length = omega (arith, length-take a.count buf, a.within)

      whole : r.0 ≡ ok tt → part ≡ buf
      whole e = take-length a.count buf (omega (arith, a.whole e))

      joined : length (flatten v.order.parts ++ part) ≡ length (flatten v.order.parts) + a.count
      joined = omega (arith, length-append (flatten v.order.parts) part, part_length)

      pointer :
          t.shared.0.write_pointer ≡ h₀.write_pointer + length (flatten v.order.parts) / sector_size
      pointer = ap (λ (h : ZoneHandle W). h.write_pointer) v.order.handle

      behind :
          t.shared.0.write_pointer * sector_size
          ≡ h₀.write_pointer * sector_size + length (flatten v.order.parts)
      behind = omega (arith, pointer, v.units)

      moved :
          h₀.write_pointer + length (flatten v.order.parts) / sector_size + a.count / sector_size
          ≡ h₀.write_pointer + length (flatten (v.order.parts ++ part ∷ [])) / sector_size
      moved = rw (flatten-snoc v.order.parts part, joined) (omega (arith, v.units, a.units))

  writes-Ordered :
      (t : Tasks W) (buf : List ℕ)
      → t.lock ≡ some buf
      → Ordered media m h₀ bufs t
      → Ordered media m h₀ bufs (record t {
        lock = none;
        finished = t.finished ++ (buf, (write_all_sequential rt buf t.shared).0) ∷ [];
        shared = (write_all_sequential rt buf t.shared).1;
      })
  unfolding write_all_sequential
  writes-Ordered t buf locked v =
      rw (spawn_blocking-Returns rt runs (Handle.write_all_sequential buf) t.shared a.returned)
        (Appended-Ordered t buf _ locked v a)
    where
      pointer :
          t.shared.0.write_pointer ≡ h₀.write_pointer + length (flatten v.order.parts) / sector_size
      pointer = ap (λ (h : ZoneHandle W). h.write_pointer) v.order.handle

      a :
          Appended media
            (media t.shared.1)
            t.shared.0
            buf
            (Handle.write_all_sequential buf t.shared)
      a =
          write_all_sequential-Appended media t.shared.0 buf t.shared.1
            (subst (λ (h : ZoneHandle W). Storage h.device media) (sym v.order.handle) storage)
            (omega (arith, fits, pointer, v.units, rw locked at v.room))
            ((rw locked at v.lock_whole).0)

  Step-Ordered :
      {t u : Tasks W} → Step rt t u → Ordered media m h₀ bufs t → Ordered media m h₀ bufs u
  Step-Ordered (takes_lock t pre post buf free split) v =
      takes_lock-Ordered t pre post buf free split v
  Step-Ordered (writes t buf locked returned) v = writes-Ordered t buf locked v

  Reach-Ordered :
      {s t : Tasks W} → Ordered media m h₀ bufs s → Reach rt s t → Ordered media m h₀ bufs t
  Reach-Ordered v here = v
  Reach-Ordered v (next r st) = Step-Ordered st (Reach-Ordered v r)

-- Tasks share the handle of a zone over a device whose writes are honest and in whole sectors, in a
-- runtime that runs their calls. Their buffers are whole sectors that fit together behind the write
-- pointer below 2^64 bytes. Then, whichever task the lock goes to each time, the parts that the finished
-- tasks wrote lie one behind the other in the order of the lock, the pointer is behind them, nothing
-- else has changed, and each task waits, writes or is finished, once.
pub reachable-InOrder :
    (rt : Runtime)
    → Runs rt
    → {W : Type 0} (media : W → ℕ → ℕ) (h₀ : ZoneHandle W) (w : W) (bufs : List (List ℕ))
    → Storage h₀.device media
    → h₀.write_pointer * sector_size + total bufs ≤ u64_mod
    → AllWhole bufs
    → {t : Tasks W} → Reach rt (idle bufs h₀ w) t
    → InOrder media (media w) h₀ bufs t
reachable-InOrder rt runs media h₀ w bufs storage fits whole r =
    (Reach-Ordered rt runs media (media w) h₀ bufs storage fits (idle-Ordered media h₀ w bufs whole)
      r).order
