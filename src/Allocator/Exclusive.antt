-- ===== src/Allocator/Exclusive.antt =====
-- Threads that share an allocator of zone_allocator/mod.rs: the steps that they take in turn, each
-- under the lock, and who owns which zone.
use zoned.Base.{ℕ, ◌+◌, ◌≤◌, ◌≡◌, refl, Bool, true, false, List, [], ◌∷◌, arith}
use zoned.Errors.{ok, err, ZonedError}
use zoned.Types.{ZoneIndex}
use zoned.Allocator.{Allocated, fresh, try_allocate, release_inner, release}
use zoned.Allocator.Set.{count, contains, insert, remove, contains-count, count-remove}

-- The set, the zones of the `allocate_zone` calls that have claimed one and are still building the
-- handle, and the zones of the registered handles that are not dropped.
pub record Threads : Type 0 where
  pub allocated : Allocated
  pub building : List ZoneIndex
  pub live : List ZoneIndex

-- A step of any thread. The first argument says whether threads call `release` themselves.
pub data Step (releasing : Bool) : Threads → Threads → Type 0 where
  claim :
      (t : Threads) (i : ZoneIndex) (set : Allocated)
      → try_allocate i (t.allocated, tt {0}) ≡ (ok tt, (set, tt))
      → Step releasing t (record t { allocated = set; building = i ∷ t.building })
  refuse :
      (t : Threads) (i : ZoneIndex) (e : ZonedError) (set : Allocated)
      → try_allocate i (t.allocated, tt {0}) ≡ (err e, (set, tt))
      → Step releasing t (record t { allocated = set })
  build :
      (t : Threads) (i : ZoneIndex)
      → contains i t.building ≡ true
      → Step releasing t (record t { building = remove i t.building; live = i ∷ t.live })
  roll_back :
      (t : Threads) (i : ZoneIndex)
      → contains i t.building ≡ true
      → Step releasing t (record t {
        building = remove i t.building;
        allocated = (release_inner i (t.allocated, tt {0})).0;
      })
  drop_live :
      (t : Threads) (i : ZoneIndex)
      → contains i t.live ≡ true
      → Step releasing t (record t {
        live = remove i t.live;
        allocated = (release_inner i (t.allocated, tt {0})).0;
      })
  give_back :
      (t : Threads) (i : ZoneIndex) (set : Allocated)
      → releasing ≡ true
      → release i (t.allocated, tt {0}) ≡ (ok tt, (set, tt))
      → Step releasing t (record t { allocated = set })

pub data Reach (releasing : Bool) (s : Threads) : Threads → Type 0 where
  here : Reach releasing s s
  next : {t u : Threads} → Reach releasing s t → Step releasing t u → Reach releasing s u

abbrev pub idle : Threads
idle = record { allocated = fresh; building = []; live = [] }

-- Each allocated zone has exactly one owner, a handle or a call that builds one, and is in the set
-- once.
abbrev pub Exclusive : Threads → Type 0
Exclusive t =
    (i : ℕ)
    → (count i t.building + count i t.live ≡ count i t.allocated) × (count i t.allocated ≤ 1)

claimed :
    (i : ZoneIndex) (s set : Allocated)
    → try_allocate i (s, tt {0}) ≡ (ok tt, (set, tt))
    → (contains i s ≡ false) × (set ≡ i ∷ s)
unfolding try_allocate insert
claimed i s set e = ground arith

refused :
    (i : ZoneIndex) (s set : Allocated) (x : ZonedError)
    → try_allocate i (s, tt {0}) ≡ (err x, (set, tt))
    → set ≡ s
unfolding try_allocate
refused i s set x e = ground arith

Step-Exclusive : {t u : Threads} → Step false t u → Exclusive t → Exclusive u
unfolding release_inner
Step-Exclusive (claim t i set e) v j =
    ground (arith, claimed i t.allocated set e, contains-count i t.allocated, v i, v j)
Step-Exclusive (refuse t i x set e) v j = ground (arith, refused i t.allocated set x e, v j)
Step-Exclusive (build t i h) v j =
    ground (arith, v j, contains-count i t.building, count-remove j i t.building)
Step-Exclusive (roll_back t i h) v j = ground (
  arith,
  v j,
  v i,
  contains-count i t.building,
  count-remove j i t.building,
  count-remove j i t.allocated,
)
Step-Exclusive (drop_live t i h) v j = ground (
  arith,
  v j,
  v i,
  contains-count i t.live,
  count-remove j i t.live,
  count-remove j i t.allocated,
)
Step-Exclusive (give_back t i set r e) v j = cc

Reach-Exclusive : {s t : Threads} → Exclusive s → Reach false s t → Exclusive t
Reach-Exclusive v here = v
Reach-Exclusive v (next r st) = Step-Exclusive st (Reach-Exclusive v r)

-- However the threads interleave, as long as none calls `release` itself, no zone ever has two
-- live handles, and none has a live handle while a call is building another for it.
pub reachable-Exclusive :
    {t : Threads} → Reach false idle t → (i : ZoneIndex) → count i t.building + count i t.live ≤ 1
reachable-Exclusive r i = omega (arith, Reach-Exclusive (λ j. (refl, omega arith)) r i)

-- One round in which a thread claims a zone and gets its handle.
taken :
    (releasing : Bool) (s t : Threads) (i : ZoneIndex)
    → contains i t.allocated ≡ false
    → Reach releasing s t
    → Reach releasing s (record t {
      allocated = insert i t.allocated;
      building = remove i (i ∷ t.building);
      live = i ∷ t.live;
    })
unfolding try_allocate insert contains
taken releasing s t i free r =
    next (next r (claim t i (i ∷ t.allocated) (ground arith))) (build _ i (ground arith))

-- If threads do call `release`, then every zone can come to have two live handles: one is handed
-- out, its index is released while the handle lives, and the zone is handed out again.
pub release-breaks_exclusion :
    (i : ZoneIndex) → (t : Threads) × Reach true idle t × (count i t.live ≡ 2)
unfolding release insert remove contains
release-breaks_exclusion i = (
  _,
  taken true idle _ i (ground arith) (
      next (taken true idle idle i refl here)
        (give_back _ i (remove i (i ∷ [])) refl (ground arith))),
  ground arith,
)
