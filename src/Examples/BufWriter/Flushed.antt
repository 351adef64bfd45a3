-- ===== src/Examples/BufWriter/Flushed.antt =====
-- What calls on a BufWriter that succeeded have written.
use zoned.Base.{
  ℕ, zero, suc, ◌+◌, ◌-◌, ◌≤◌, ◌<◌, ◌≡◌, refl, sym, ap, ◌∙◌, inl, inr, List, [], ◌∷◌, ◌++◌, arith,
  ltb, ◌==◌, length, drop, Bool-cases, le→ltb_false, lt→leb_false, lt→==_false, le→leb, drop-length,
  lt→ltb,
}
use zoned.Errors.{
  Outcome, ok, err, panic, timeout, convert_err, and_then, and_then-value, ZonedError, IoError,
  wrapped,
}
use zoned.Handle
use zoned.Handle.{ZoneHandle, Hio}
use zoned.Examples.BufWriter.{
  Wio, after_flush, write_all, flush_loop, flush_buf, on_inner, put, flush, drop_writer,
  with_writer,
}

module _ {W : Type 0} where
  -- Where there is room, `write_all` only fills the buffer.
  pub put-room :
      (capacity : ℕ) (buf buffer : List ℕ) (s : ZoneHandle W × W)
      → length buffer + length buf ≤ capacity
      → length buf < capacity
      → put capacity buf (buffer, s) ≡ (ok tt, (buffer ++ buf, s))
  unfolding put
  put-room capacity buf buffer s room less =
      elim (Bool-cases (ltb (length buf) (capacity - length buffer))) [
        | inl fits ↦ rw fits refl
        | inr exact ↦
            rw
              (
                exact,
                le→ltb_false (capacity - length buffer) (length buf) (omega (arith, room)),
                lt→leb_false capacity (length buf) less,
              )
              refl
      ]

  flush_loop-nil : (fuel : ℕ) (s : ZoneHandle W × W) → flush_loop fuel ([], s) ≡ (ok tt, ([], s))
  unfolding flush_loop
  flush_loop-nil zero s = refl
  flush_loop-nil (suc fuel) s = refl

  -- A buffer that the handle takes in one write is flushed by it.
  pub flush_buf-once :
      (buffer : List ℕ) (s s1 : ZoneHandle W × W)
      → 0 < length buffer
      → Handle.write buffer s ≡ (ok (length buffer), s1)
      → flush_buf (buffer, s) ≡ (ok tt, ([], s1))
  unfolding flush_buf flush_loop
  flush_buf-once [] s s1 some e = absurd (omega arith)
  flush_buf-once (b ∷ bs) s s1 some e =
      rw
        (
          e,
          lt→==_false (length (b ∷ bs)) some,
          le→ltb_false (length (b ∷ bs)) (length (b ∷ bs)) (omega arith),
          drop-length bs,
          flush_loop-nil (length bs) s1,
        )
        refl

  -- What does not fit goes to the handle behind the buffer.
  pub put-overflow :
      (capacity : ℕ) (buf buffer : List ℕ) (s s1 : ZoneHandle W × W)
      → 0 < capacity
      → 0 < length buffer
      → capacity ≤ length buf
      → flush_buf (buffer, s) ≡ (ok tt, ([], s1))
      → put capacity buf (buffer, s) ≡ on_inner (write_all (length buf) buf) ([], s1)
  unfolding put
  put-overflow capacity buf buffer s s1 some filled large e =
      rw
        (
          le→ltb_false (length buf) (capacity - length buffer) (omega arith),
          lt→ltb (capacity - length buffer) (length buf) (omega (arith, some, filled, large)),
          e,
          le→leb capacity (length buf) large,
        )
        refl

  -- A round of a flush that succeeded, against the same round of `write_all_sequential`.
  after_flush-value :
      (again : Wio W (Unit {0})) (loop : List ℕ → Hio W (Unit {0})) (buffer rest : List ℕ)
      (s' : ZoneHandle W × W) (r : Outcome ZonedError ℕ × (ZoneHandle W × W))
      → ((n : ℕ) (s : ZoneHandle W × W)
          → again (drop n buffer, s) ≡ (ok tt, (rest, s'))
          → (rest ≡ []) × (loop (drop n buffer) s ≡ (ok tt, s')))
      → after_flush again buffer (convert_err wrapped r.0, r.1) ≡ (ok tt, (rest, s'))
      → (rest ≡ []) × (and_then r (Handle.after_write loop buffer) ≡ (ok tt, s'))
  unfolding Handle.after_write
  after_flush-value again loop buffer rest s' (ok n, s) step e = elim (Bool-cases (n == 0)) [
    | inl none_written ↦ (let e' = rw none_written at e in absurd cc)
    | inr some_written ↦ elim (Bool-cases (ltb (length buffer) n)) [
      | inl beyond ↦ (let e' = rw (some_written, beyond) at e in absurd cc)
      | inr within ↦ rw (some_written, within) (step n s (rw (some_written, within) at e))
    ]
  ]
  after_flush-value again loop buffer rest s' (err x, s) step e = absurd cc
  after_flush-value again loop buffer rest s' (panic, s) step e = absurd cc
  after_flush-value again loop buffer rest s' (timeout, s) step e = absurd cc

  -- A flush that succeeded wrote the whole buffer as `write_all_sequential` does.
  flush_loop-value :
      (fuel : ℕ) (buffer rest : List ℕ) (s s' : ZoneHandle W × W)
      → flush_loop fuel (buffer, s) ≡ (ok tt, (rest, s'))
      → (rest ≡ []) × (Handle.write_loop fuel buffer s ≡ (ok tt, s'))
  unfolding flush_loop Handle.write_loop Handle.write
  flush_loop-value fuel [] rest s s' e = (cc, cc)
  flush_loop-value zero (b ∷ bs) rest s s' e = absurd cc
  flush_loop-value (suc fuel) (b ∷ bs) rest s s' e =
      after_flush-value (flush_loop fuel) (Handle.write_loop fuel) (b ∷ bs) rest s'
        (Handle.write_sequential (b ∷ bs) s)
        (λ n s1 e'. flush_loop-value fuel (drop n (b ∷ bs)) rest s1 s' e') e

  pub flush-value :
      (buffer rest : List ℕ) (s s' : ZoneHandle W × W)
      → flush (buffer, s) ≡ (ok tt, (rest, s'))
      → (s1 : ZoneHandle W × W) × (rest ≡ [])
        × (Handle.write_all_sequential buffer s ≡ (ok tt, s1))
        × (Handle.flush s1 ≡ (ok tt, s'))
  unfolding flush flush_buf Handle.write_all_sequential
  flush-value buffer rest s s' e =
      let (u, (rest1, s1), flushed, synced) = and_then-value _ _ tt (rest, s') e in
      let (empty, written) = flush_loop-value (length buffer) buffer rest1 s s1 flushed in
      (
        s1,
        sym (ap (λ (x : Outcome IoError (Unit {0}) × (List ℕ × (ZoneHandle W × W))). x.1.0) synced)
            ∙ empty,
        written,
        ap (λ (x : Outcome IoError (Unit {0}) × (List ℕ × (ZoneHandle W × W))). (x.0, x.1.1))
            synced,
      )

  -- A block that succeeded through the writer, and left its buffer empty.
  pub with_writer-value :
      (f : Wio W (Unit {0})) (s s' : ZoneHandle W × W)
      → with_writer f s ≡ (ok tt, s')
      → ((rest : List ℕ) (s1 : ZoneHandle W × W) → f ([], s) ≡ (ok tt, (rest, s1)) → rest ≡ [])
      → f ([], s) ≡ (ok tt, ([], s'))
  unfolding with_writer drop_writer flush_buf flush_loop
  with_writer-value f s s' e empty = go (f ([], s)) refl e
    where
      go :
          (r : Outcome IoError (Unit {0}) × (List ℕ × (ZoneHandle W × W)))
          → f ([], s) ≡ r
          → drop_writer r ≡ (ok tt, s')
          → f ([], s) ≡ (ok tt, ([], s'))
      go (ok u, (rest, s1)) h d =
          let left = empty rest s1 h in
          let d' = rw left at d in
          let h' = rw left at h in
          h' ∙ ap (λ (x : Outcome IoError (Unit {0}) × (ZoneHandle W × W)). (x.0, ([], x.1))) d'
      go (err x, t) h d = absurd cc
      go (panic, (rest, s1)) h d = absurd cc
      go (timeout, (rest, s1)) h d = absurd cc
