-- ===== src/Examples/Zcli/Bench/Filled.antt =====
-- A thread of `run_bench` of examples/zcli.rs on the way through its zones.
use zoned.Base.{
  ℕ, suc, ◌+◌, ◌-◌, ◌≤◌, ◌<◌, ◌≡◌, refl, sym, ap, subst, inl, inr, List, [], ◌∷◌, arith, ltb,
  Bool-cases, length, u32_mod, u64_mod, ltb→lt, ltb_false→le,
}
use zoned.Errors.{Outcome, ok, err, panic, timeout, ZonedError}
use zoned.Types.{to_bytes}
use zoned.Handle.{ZoneHandle}
use zoned.Examples.Zcli.Bench.{
  Status, running, finished, panicked, blocked, broken, Writer, after_write, write_some, fill_step,
  on_handles, on_status, step,
}
use zoned.Examples.Zcli.Bench.Writes.{Bounded, Reports, write_some-Reports}

to_bytes-lt : (s : ℕ) → to_bytes s < u64_mod
unfolding to_bytes
to_bytes-lt s = omega arith

module _ {W : Type 0} where
  -- The bytes of the capacities of some zones.
  abbrev pub capacity_bytes : List (ZoneHandle W) → ℕ
  capacity_bytes [] = 0
  capacity_bytes (h ∷ hs) = to_bytes h.capacity + capacity_bytes hs

  abbrev pub first_capacity : List (ZoneHandle W) → ℕ
  first_capacity [] = 0
  first_capacity (h ∷ hs) = to_bytes h.capacity

  abbrev pub AllBounded : List (ZoneHandle W) → Type 0
  AllBounded [] = Unit {0}
  AllBounded (h ∷ hs) = Bounded h.device × AllBounded hs

  abbrev pub Ended : Status → List (ZoneHandle W) → Type 0
  Ended finished hs = hs ≡ []
  Ended running hs = Unit {0}
  Ended panicked hs = Unit {0}
  Ended blocked hs = Unit {0}
  Ended (broken m e) hs = Unit {0}

  -- A thread on the way through zones of `all` bytes, `zones` of them.
  pub record Filling (all zones : ℕ) (t : Writer W) : Type 0 where
    pub sum : t.thread_bytes + capacity_bytes t.handles ≡ all + t.zone_bytes
    pub bound : t.zone_bytes ≤ first_capacity t.handles
    pub left : t.zones_written + length t.handles ≡ zones
    pub devices : AllBounded t.handles
    pub ended : Ended t.status t.handles

  same_devices :
      (h h' : ZoneHandle W) (rest : List (ZoneHandle W))
      → h'.device ≡ h.device
      → AllBounded (h ∷ rest)
      → AllBounded (h' ∷ rest)
  same_devices h h' rest e v = (subst Bounded (sym e) v.0, v.1)

  module _ (all zones : ℕ) (fits : all < u64_mod) (few : zones < u32_mod) where
    -- A thread that ends in an error has its handle back.
    stopped :
        (t : Writer W) (h h' : ZoneHandle W) (rest : List (ZoneHandle W)) (st : Status)
        → t.handles ≡ h ∷ rest
        → t.zone_bytes < to_bytes h.capacity
        → Filling all zones t
        → h'.device ≡ h.device
        → h'.capacity ≡ h.capacity
        → Ended st (h' ∷ rest)
        → Filling all zones (record t { handles = h' ∷ rest; status = st })
    stopped t h h' rest st at more v d k end =
        let c : to_bytes h'.capacity ≡ to_bytes h.capacity = ap to_bytes k in
        let s : capacity_bytes t.handles ≡ to_bytes h.capacity + capacity_bytes rest =
          ap capacity_bytes at in
        let l : length t.handles ≡ suc (length rest) = ap length at in
        record {
          sum = omega (arith, v.sum);
          bound = omega arith;
          left = omega (arith, v.left);
          devices = same_devices h h' rest d (subst AllBounded at v.devices);
          ended = end;
        }

    after_write-Filling :
        (t : Writer W) (h : ZoneHandle W) (rest : List (ZoneHandle W)) (counter : ℕ)
        (r : Outcome ZonedError ℕ × (ZoneHandle W × W))
        → t.handles ≡ h ∷ rest
        → t.status ≡ running
        → t.zone_bytes < to_bytes h.capacity
        → Filling all zones t
        → Reports h (to_bytes h.capacity - t.zone_bytes) r
        → Filling all zones (after_write t rest counter r).0
    unfolding after_write
    after_write-Filling t h rest counter (ok n, (h', w)) at on more v k =
        let c : to_bytes h'.capacity ≡ to_bytes h.capacity = ap to_bytes k.2 in
        let s : capacity_bytes t.handles ≡ to_bytes h.capacity + capacity_bytes rest =
          ap capacity_bytes at in
        let b : to_bytes h.capacity < u64_mod = to_bytes-lt h.capacity in
        let l : length t.handles ≡ suc (length rest) = ap length at in
        record {
          sum = omega (arith, v.sum, k.0);
          bound = omega (arith, k.0);
          left = omega (arith, v.left);
          devices = same_devices h h' rest k.1 (subst AllBounded at v.devices);
          ended = subst (λ st. Ended st (h' ∷ rest)) (sym on) tt;
        }
    after_write-Filling t h rest counter (err e, (h', w)) at on more v k =
        stopped t h h' rest _ at more v k.1 k.2 tt
    after_write-Filling t h rest counter (panic, (h', w)) at on more v k =
        stopped t h h' rest _ at more v k.1 k.2 tt
    after_write-Filling t h rest counter (timeout, (h', w)) at on more v k =
        stopped t h h' rest _ at more v k.1 k.2 tt

    on_handles-Filling :
        (t : Writer W) (hs : List (ZoneHandle W)) (s : ℕ × W)
        → t.handles ≡ hs
        → t.status ≡ running
        → Filling all zones t
        → Filling all zones (on_handles t hs s).0
    unfolding fill_step
    on_handles-Filling t [] s at on v = record {
      sum = v.sum;
      bound = v.bound;
      left = v.left;
      devices = v.devices;
      ended = at;
    }
    on_handles-Filling t (h ∷ rest) (counter, w) at on v =
        elim (Bool-cases (ltb t.zone_bytes (to_bytes h.capacity))) [
          | inl more ↦ rw more (
              after_write-Filling t h rest counter (write_some t (h, w)) at on
                (ltb→lt t.zone_bytes (to_bytes h.capacity) more) v
                (write_some-Reports h w (subst AllBounded at v.devices).0 t))
          | inr full ↦ rw full (
              let s : capacity_bytes t.handles ≡ to_bytes h.capacity + capacity_bytes rest =
                ap capacity_bytes at in
              let f : first_capacity t.handles ≡ to_bytes h.capacity = ap first_capacity at in
              let l : length t.handles ≡ suc (length rest) = ap length at in
              let z : to_bytes h.capacity ≤ t.zone_bytes =
                ltb_false→le t.zone_bytes (to_bytes h.capacity) full in
              record {
                sum = omega (arith, v.sum, v.bound);
                bound = omega arith;
                left = omega (arith, v.left);
                devices = (subst AllBounded at v.devices).1;
                ended = subst (λ st. Ended st rest) (sym on) tt;
              })
        ]

    pub step-Filling :
        (t : Writer W) (s : ℕ × W) → Filling all zones t → Filling all zones (step t s).0
    unfolding step
    step-Filling t s v = by_status t.status refl
      where
        by_status : (st : Status) → t.status ≡ st → Filling all zones (on_status st t s).0
        by_status running e = on_handles-Filling t t.handles s refl e v
        by_status finished e = v
        by_status panicked e = v
        by_status blocked e = v
        by_status (broken m x) e = v
