-- ===== src/Platform/Freebsd/Range.antt =====
-- The loop of platform/freebsd.rs that manages the zones of a range: its end, and the zones it takes.
use zoned.Base.{
  ℕ, zero, suc, ◌+◌, ◌-◌, ◌/◌, ◌≤◌, ◌<◌, ◌≡◌, ap, sym, subst, ◌∙◌, List, [], ◌∷◌, ◌++◌,
  append_assoc, arith, map, ltb, leb, if◌then◌else◌, Bool-cases, inl, inr, length, take, lt→ltb,
  le→ltb_false, lt→leb_false, lt→==_false, u64_mod, add_u64, fun_ext,
}
use zoned.Errors.{Io, ok, and_then, return, ◌>>◌, ZonedError, Returns, and_then-Returns}
use zoned.Types.{Sector, Zone}
use zoned.Device.Layout.{
  Contiguous, from_sector, span, span-lt, span-append, Contiguous-append, Contiguous-left,
  from_sector-span, lt-span,
}
use zoned.Platform.Freebsd.{
  Ioctls, File, report_zones, range_round, range_loop, for_each_zone_in_range,
}

-- The action on each of a list of LBAs, up to the first that fails.
unfoldable pub each :
    {W : Type 0} → (ℕ → Io W ZonedError (Unit {0})) → List ℕ → Io W ZonedError (Unit {0})
each action [] = return tt
each action (lba ∷ lbas) = action lba >> each action lbas

le-span-length : (s : Sector) (xs : List Zone) → Contiguous s xs → s + length xs ≤ span s xs
le-span-length s [] c = omega arith
le-span-length s (x ∷ xs) c = omega (arith, le-span-length (s + x.len) xs c.3)

module _ {W : Type 0} (io : Ioctls W) (f : File) (scaled : 0 < f.lba_scale)
    (action : ℕ → Io W ZonedError (Unit {0})) where
  module _ (answered : (s : Sector) (w : W) → Returns (report_zones io f s 1 w).0)
      (acted : (lba : ℕ) (w : W) → Returns (action lba w).0) where
    range_round-Returns :
        (again : Sector → Io W ZonedError (Unit {0})) (cursor : Sector) (zones : List Zone) (w : W)
        → ((next : Sector) (w : W) → cursor < next → Returns (again next w).0)
        → Returns (range_round io again f cursor action zones w).0
    unfolding range_round
    range_round-Returns again cursor [] w h = tt
    range_round-Returns again cursor (z ∷ zs) w h =
        rw (lt→==_false f.lba_scale scaled)
          (and_then-Returns (action (z.start / f.lba_scale) w) _ (acted _ w) λ u w'. rest w')
      where
        rest :
            (w' : W)
            → Returns
                ((if leb (add_u64 z.start z.len) cursor
                    then return tt
                    else again (add_u64 z.start z.len))
                  w').0
        rest w' = elim (Bool-cases (leb (add_u64 z.start z.len) cursor)) [
          | inl stuck ↦ rw stuck tt
          | inr moved ↦ rw moved (h _ w' (ground arith))
        ]

    range_loop-Returns :
        (fuel : ℕ) (cursor end_sector : Sector) (w : W)
        → end_sector ≤ cursor + fuel
        → Returns (range_loop io fuel f cursor end_sector action w).0
    unfolding range_loop
    range_loop-Returns zero cursor end_sector w h =
        rw (le→ltb_false cursor end_sector (omega arith)) tt
    range_loop-Returns (suc fuel) cursor end_sector w h =
        elim (Bool-cases (ltb cursor end_sector)) [
          | inr done ↦ rw done tt
          | inl more ↦ rw more (
              and_then-Returns (report_zones io f cursor 1 w) _ (answered cursor w) λ zones w'.
                range_round-Returns (λ next. range_loop io fuel f next end_sector action) cursor
                  zones w'
                  λ next w'' ahead. range_loop-Returns fuel next end_sector w'' (omega arith))
        ]

    -- Where the scale is positive and the kernel's calls come back, so does the loop over a range,
    -- whatever the kernel answers.
    pub for_each_zone_in_range-Returns :
        (sector nr_sectors : Sector) (w : W)
        → Returns (for_each_zone_in_range io f sector nr_sectors action w).0
    unfolding for_each_zone_in_range
    for_each_zone_in_range-Returns sector nr_sectors w =
        range_loop-Returns _ sector (add_u64 sector nr_sectors) w (omega arith)

  -- A device whose zones keep their places while their states change: a world `w` shows a zone `z`
  -- of `zs` as `dress w z`.
  module _ (zs : List Zone) (dress : W → Zone → Zone) (layout : Contiguous 0 zs)
      (same_start : (w : W) (z : Zone) → (dress w z).start ≡ z.start)
      (same_len : (w : W) (z : Zone) → (dress w z).len ≡ z.len)
      (answers : (s : Sector) (w : W)
        → report_zones io f s 1 w ≡ (ok (map (dress w) (take 1 (from_sector s zs))), w)) where
    abbrev pub lbas : List Zone → List ℕ
    lbas = map λ z. z.start / f.lba_scale

    round-each :
        (again : Sector → Io W ZonedError (Unit {0})) (cursor : Sector) (z : Zone) (w : W)
        → z.start ≡ cursor
        → 0 < z.len
        → cursor + z.len < u64_mod
        → range_round io again f cursor action (dress w z ∷ []) w
          ≡ (action (z.start / f.lba_scale) >> again (cursor + z.len)) w
    unfolding range_round
    round-each again cursor z w at_cursor some_len fits = rw (
      same_start w z,
      same_len w z,
      lt→==_false f.lba_scale scaled,
      next_sector,
      lt→leb_false (cursor + z.len) cursor (omega arith),
    )
      where
        next_sector : add_u64 z.start z.len ≡ cursor + z.len
        next_sector = omega arith

    report-each :
        (pre : List Zone) (z : Zone) (rest : List Zone) (w : W)
        → zs ≡ pre ++ z ∷ rest
        → report_zones io f (span 0 pre) 1 w ≡ (ok (dress w z ∷ []), w)
    report-each pre z rest w e =
        answers (span 0 pre) w
        ∙ ap (λ ys. (ok (map (dress w) (take 1 ys)), w))
            (ap (from_sector (span 0 pre)) e
              ∙ from_sector-span 0 pre (z ∷ rest) (subst (Contiguous 0) e layout))

    range_loop-each :
        (fuel : ℕ) (pre mid post : List Zone) (w : W)
        → zs ≡ pre ++ (mid ++ post)
        → length mid ≤ fuel
        → range_loop io fuel f (span 0 pre) (span (span 0 pre) mid) action w
          ≡ each action (lbas mid) w
    unfolding range_loop each
    range_loop-each zero pre [] post w e h =
        rw (le→ltb_false (span 0 pre) (span 0 pre) (omega arith))
    range_loop-each (suc fuel) pre [] post w e h =
        rw (le→ltb_false (span 0 pre) (span 0 pre) (omega arith))
    range_loop-each zero pre (z ∷ mid) post w e h = absurd (omega arith)
    range_loop-each (suc fuel) pre (z ∷ mid) post w e h =
        let c = Contiguous-append 0 pre (z ∷ (mid ++ post)) (subst (Contiguous 0) e layout) in
        let behind : span 0 (pre ++ z ∷ []) ≡ span 0 pre + z.len = span-append 0 pre (z ∷ []) in
        let split : zs ≡ (pre ++ z ∷ []) ++ (mid ++ post) =
          e ∙ sym (append_assoc pre (z ∷ []) (mid ++ post)) in
        rw (lt→ltb _ _ (lt-span (span 0 pre) z mid c.1), report-each pre z (mid ++ post) w e)
          (round-each (λ next. range_loop io fuel f next (span (span 0 pre) (z ∷ mid)) action)
              (span 0 pre) z w c.0 c.1 c.2
            ∙ ap (and_then (action (z.start / f.lba_scale) w)) (
                fun_ext λ u. fun_ext λ w'.
                  subst
                    (λ s. range_loop io fuel f s (span s mid) action w' ≡ each action (lbas mid) w')
                    behind (range_loop-each fuel (pre ++ z ∷ []) mid post w' split (omega arith))))

    -- On such a device, the loop over a range that holds whole zones, `mid`, takes the action on
    -- each of them once, in order, up to the first that fails, and on no other zone.
    pub for_each_zone_in_range-each :
        (pre mid post : List Zone) (w : W)
        → zs ≡ pre ++ (mid ++ post)
        → for_each_zone_in_range io f (span 0 pre) (span (span 0 pre) mid - span 0 pre) action w
          ≡ each action (lbas mid) w
    unfolding for_each_zone_in_range
    for_each_zone_in_range-each pre mid post w e =
        rw range_end (
          range_loop-each _ pre mid post w e
            (omega (arith, le-span-length (span 0 pre) mid behind)))
      where
        whole : Contiguous 0 (pre ++ (mid ++ post))
        whole = subst (Contiguous 0) e layout

        behind : Contiguous (span 0 pre) mid
        behind = Contiguous-left (span 0 pre) mid post (Contiguous-append 0 pre (mid ++ post) whole)

        range_end :
            add_u64 (span 0 pre) (span (span 0 pre) mid - span 0 pre) ≡ span (span 0 pre) mid
        range_end = omega (
          arith,
          le-span-length (span 0 pre) mid behind,
          span-lt 0 pre (omega arith) (Contiguous-left 0 pre (mid ++ post) whole),
          span-lt (span 0 pre) mid
              (span-lt 0 pre (omega arith) (Contiguous-left 0 pre (mid ++ post) whole)) behind,
        )
