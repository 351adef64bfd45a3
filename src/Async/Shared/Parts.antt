-- ===== src/Async/Shared/Parts.antt =====
-- Lists of buffers: their lengths, and what changes when one is taken out or put behind.
use zoned.Base.{
  ℕ, ◌+◌, ◌%◌, ◌≡◌, sym, List, [], ◌∷◌, ◌++◌, map, append_assoc, append-nil, arith, length,
}
use mathlib.Core.List.{flatten, Perm, perm_middle, map-append}
use mathlib.Core.List.Perm
use zoned.Errors.{Outcome, ZonedError}
use zoned.Types.{sector_size}
use zoned.Async.Shared.{buffer_of, Parts, AllWhole, total}

pub total-append : (xs ys : List (List ℕ)) → total (xs ++ ys) ≡ total xs + total ys
total-append [] ys = omega arith
total-append (x ∷ xs) ys = omega (arith, total-append xs ys)

pub AllWhole-middle :
    (pre post : List (List ℕ)) (buf : List ℕ)
    → AllWhole (pre ++ buf ∷ post)
    → (length buf % sector_size ≡ 0) × AllWhole (pre ++ post)
AllWhole-middle [] post buf h = h
AllWhole-middle (x ∷ pre) post buf h =
    let (whole, rest) = AllWhole-middle pre post buf h.1 in (whole, (h.0, rest))

pub Parts-snoc :
    (fs : List (List ℕ × Outcome ZonedError (Unit {0}))) (ps : List (List ℕ)) (buf p : List ℕ)
    (r : Outcome ZonedError (Unit {0}))
    → Parts fs ps
    → Parts ((buf, r) ∷ []) (p ∷ [])
    → Parts (fs ++ (buf, r) ∷ []) (ps ++ p ∷ [])
Parts-snoc [] [] buf p r h k = k
Parts-snoc [] (q ∷ ps) buf p r h k = elim h [ ]
Parts-snoc (f ∷ fs) [] buf p r h k = elim h [ ]
Parts-snoc (f ∷ fs) (q ∷ ps) buf p r h k = (h.0, Parts-snoc fs ps buf p r h.1 k)

pub flatten-snoc : (ps : List (List ℕ)) (p : List ℕ) → flatten (ps ++ p ∷ []) ≡ flatten ps ++ p
unfolding flatten
flatten-snoc [] p = append-nil p
flatten-snoc (q ∷ ps) p = rw (flatten-snoc ps p) (sym (append_assoc q (flatten ps) p))

pub taken-Perm :
    (fs pre post : List (List ℕ)) (buf : List ℕ)
    → Perm (buf ∷ (fs ++ (pre ++ post))) (fs ++ (pre ++ buf ∷ post))
taken-Perm fs pre post buf =
    rw (sym (append_assoc fs pre post), sym (append_assoc fs pre (buf ∷ post)))
      (Perm.symm (perm_middle (fs ++ pre) post))

pub finished-Perm :
    (fs : List (List ℕ × Outcome ZonedError (Unit {0}))) (waiting : List (List ℕ)) (buf : List ℕ)
    (r : Outcome ZonedError (Unit {0}))
    → Perm (map buffer_of (fs ++ (buf, r) ∷ []) ++ waiting) (buf ∷ (map buffer_of fs ++ waiting))
finished-Perm fs waiting buf r =
    rw (map-append buffer_of fs ((buf, r) ∷ []), append_assoc (map buffer_of fs) (buf ∷ []) waiting)
      (perm_middle (map buffer_of fs) waiting)
