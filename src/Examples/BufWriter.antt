-- ===== src/Examples/BufWriter.antt =====
-- std::io::BufWriter over a ZoneHandle and Write::write_all, as the standard library has them, which
-- zone_store.rs writes through. The errors of a handle are never `Interrupted`.
pub mod Flushed
use zoned.Base.{
  ℕ, zero, suc, ◌+◌, ◌-◌, ◌≤◌, ◌<◌, ◌≡◌, refl, sym, ap, ◌∙◌, inl, inr, List, [], ◌∷◌, ◌++◌, arith,
  ltb, leb, ◌==◌, if◌then◌else◌, length, drop, Bool-cases, le→ltb_false, lt→leb_false, lt→==_false,
  le→leb, drop-length, lt→ltb,
}
use zoned.Errors.{
  Io, Outcome, ok, err, panic, timeout, fail, return, map_err, convert_err, and_then,
  and_then-value, ZonedError, ◌>>◌, ◌>>=◌, IoError, custom, write_zero, wrapped,
}
use zoned.Handle
use zoned.Handle.{ZoneHandle, Hio}

-- A call on the writer runs in its buffer, beside the handle and the world.
abbrev pub Wio : Type 0 → Type 0 → Type 0
Wio W A = Io (List ℕ × (ZoneHandle W × W)) IoError A

module _ {W : Type 0} where
  -- The rest of a round of `Write::write_all` on the handle.
  abbrev after_write :
      (List ℕ → Io (ZoneHandle W × W) IoError (Unit {0}))
      → List ℕ
      → ℕ
      → Io (ZoneHandle W × W) IoError (Unit {0})
  after_write again buf written =
      if written == 0
      then fail (custom write_zero "failed to write whole buffer")
      else if ltb (length buf) written
      then (λ s. (panic, s))
      else again (drop written buf)

  pub write_all : ℕ → List ℕ → Io (ZoneHandle W × W) IoError (Unit {0})
  write_all fuel [] s = (ok tt, s)
  write_all zero (b ∷ bs) s = (timeout, s)
  write_all (suc fuel) (b ∷ bs) s =
      and_then (Handle.write (b ∷ bs) s) (after_write (write_all fuel) (b ∷ bs))

  -- The rest of a round of `flush_buf`. What is not written stays in the buffer.
  abbrev after_flush :
      Wio W (Unit {0})
      → List ℕ
      → Outcome IoError ℕ × (ZoneHandle W × W)
      → Outcome IoError (Unit {0}) × (List ℕ × (ZoneHandle W × W))
  after_flush again buffer (ok written, s) =
      if written == 0
      then (err (custom write_zero "failed to write the buffered data"), (buffer, s))
      else if ltb (length buffer) written
      then (panic, (buffer, s))
      else again (drop written buffer, s)
  after_flush again buffer (err e, s) = (err e, (buffer, s))
  after_flush again buffer (panic, s) = (panic, (buffer, s))
  after_flush again buffer (timeout, s) = (timeout, (buffer, s))

  unfoldable pub flush_loop : ℕ → Wio W (Unit {0})
  flush_loop fuel ([], s) = (ok tt, ([], s))
  flush_loop zero (b ∷ bs, s) = (timeout, (b ∷ bs, s))
  flush_loop (suc fuel) (b ∷ bs, s) =
      after_flush (flush_loop fuel) (b ∷ bs) (Handle.write (b ∷ bs) s)

  -- Each round writes a byte, so the buffer's length is fuel enough.
  unfoldable pub flush_buf : Wio W (Unit {0})
  unfolding flush_loop
  flush_buf (buffer, s) = flush_loop (length buffer) (buffer, s)

  -- A call on the handle leaves the buffer alone.
  abbrev pub on_inner : {A : Type 0} → Io (ZoneHandle W × W) IoError A → Wio W A
  on_inner f (buffer, s) = let (r, s') = f s in (r, (buffer, s'))

  abbrev push_back : List ℕ → Wio W (Unit {0})
  push_back buf (buffer, s) = (ok tt, (buffer ++ buf, s))

  -- `write_all` of the writer, with its capacity.
  unfoldable pub put : ℕ → List ℕ → Wio W (Unit {0})
  put capacity buf (buffer, s) =
      (if ltb (length buf) (capacity - length buffer) then push_back buf else (do
        if ltb (capacity - length buffer) (length buf) then flush_buf else return tt
        if leb capacity (length buf) then on_inner (write_all (length buf) buf) else push_back buf))
        (buffer, s)

  unfoldable pub flush : Wio W (Unit {0})
  flush = flush_buf >> on_inner Handle.flush

  -- The writer is dropped at the end, also behind an error: it writes what it still has, and what
  -- comes of that is forgotten.
  unfoldable pub drop_writer :
      Outcome IoError (Unit {0}) × (List ℕ × (ZoneHandle W × W))
      → Outcome IoError (Unit {0}) × (ZoneHandle W × W)
  drop_writer (panic, (buffer, s)) = (panic, s)
  drop_writer (ok u, s) = (ok u, (flush_buf s).1.1)
  drop_writer (err e, s) = (err e, (flush_buf s).1.1)
  drop_writer (timeout, (buffer, s)) = (timeout, s)

  unfoldable pub with_writer : Wio W (Unit {0}) → Io (ZoneHandle W × W) IoError (Unit {0})
  unfolding drop_writer
  with_writer f s = drop_writer (f ([], s))
