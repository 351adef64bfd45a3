-- ===== src/Examples/Restores.antt =====
-- What reading a stored file comes to, from what the reads of its zone gave.
use zoned.Base.{ℕ, ◌+◌, ◌<◌, ◌≡◌, refl, ◌∙◌, String, List, ◌⊎◌, inl, inr, length, u64_mod, add_u64}
use zoned.Errors.{
  Outcome, ok, err, panic, timeout, and_then, map_err, convert_err, ◌>>=◌, ZonedError, io,
}
use zoned.FileSystem.{Fs}
use zoned.Device.Storage.{Same}
use zoned.Device.Reads.{ReadsAll}
use zoned.Examples.{Failure, failed, header_size, write_align, padded, payload_of, slice}
use zoned.Examples.Layout.{slice-content}

-- What reading a stored file comes to: an error of the device, or the write of the content to the
-- output file, with the medium as it was.
abbrev pub Restores :
    {W : Type 0}
    → (W → ℕ → ℕ)
    → (ℕ → ℕ)
    → Fs W
    → String
    → List ℕ
    → Outcome Failure (Unit {0}) × W
    → Type 0
Restores {W} media m fs output content r =
    ((e : ZonedError) × (w : W) × (r ≡ (err (failed e), w)))
    ⊎ ((w : W) × Same (media w) m
        × (r ≡ map_err (λ e. failed (io output e)) (fs.write output content) w))

module _ {W : Type 0} (media : W → ℕ → ℕ) where
  pub ReadsAll-Same :
      (m m' : ℕ → ℕ) (bytes : List ℕ) (r : Outcome ZonedError (List ℕ) × W)
      → Same m m'
      → ReadsAll media m bytes r
      → ReadsAll media m' bytes r
  ReadsAll-Same m m' bytes (ok read, w) h a = (a.0, (λ i. a.1 i ∙ h i))
  ReadsAll-Same m m' bytes (err e, w) h a = λ i. a i ∙ h i
  ReadsAll-Same m m' bytes (panic, w) h a = a
  ReadsAll-Same m m' bytes (timeout, w) h a = a

  -- The content is read back from the whole payload.
  pub content-Restores :
      (fs : Fs W) (output : String) (content : List ℕ) (m : ℕ → ℕ)
      (r : Outcome ZonedError (List ℕ) × W)
      → header_size + length content + write_align < u64_mod
      → ReadsAll media m (padded (payload_of content)) r
      → Restores media m fs output content (
          and_then {B = Unit {0}}
            (convert_err failed r.0, r.1)
            (λ raw. slice header_size (add_u64 header_size (length content)) raw >>= λ stored.
              map_err (λ e. failed (io output e)) (fs.write output stored)))
  content-Restores fs output content m (ok raw, w) fits (whole, same) =
      inr (w, same, rw (whole, slice-content content {E = Failure} w fits) refl)
  content-Restores fs output content m (err e, w) fits same = inl (e, w, refl)
  content-Restores fs output content m (panic, w) fits h = elim h [ ]
  content-Restores fs output content m (timeout, w) fits h = elim h [ ]
