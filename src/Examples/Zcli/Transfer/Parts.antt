-- ===== src/Examples/Zcli/Transfer/Parts.antt =====
-- What `run_read` of examples/zcli.rs shows of a scattered read.
use zoned.Base.{
  ℕ, zero, suc, ◌+◌, ◌-◌, ◌≡◌, refl, sym, ap, ◌∙◌, List, [], ◌∷◌, ◌++◌, arith, min, map, length,
  take, take-length,
}
use mathlib.Core.List.{flatten}
use zoned.Errors.{ok}
use zoned.Types.{Sector}
use zoned.Device
use zoned.Device.{ZonedDevice}
use zoned.Base.{replicate}
use zoned.Examples.Zcli.HexDump.{hex_dump}
use zoned.Examples.Zcli.Transfer.{filled_parts, scatter_read}

take-append :
    {A : Type 0} (n : ℕ) (xs ys : List A) → take n (xs ++ ys) ≡ take n xs ++ take (n - length xs) ys
take-append zero [] ys = refl
take-append (suc n) [] ys = let all : suc n ≡ suc n - 0 = omega arith in ap (λ k. take k ys) all
take-append zero (x ∷ xs) ys =
    let none_left : 0 ≡ 0 - suc (length xs) = omega arith in ap (λ k. take k ys) none_left
take-append (suc n) (x ∷ xs) ys =
    ap (◌∷◌ x) (take-append n xs ys ∙ ap (λ k. take n xs ++ take k ys) (omega arith))

take-min : {A : Type 0} (n : ℕ) (xs : List A) → take (min (length xs) n) xs ≡ take n xs
take-min zero xs = let least : min (length xs) 0 ≡ 0 = omega arith in ap (λ k. take k xs) least
take-min (suc n) [] = let least : min 0 (suc n) ≡ 0 = omega arith in ap (λ (k : ℕ). take k []) least
take-min (suc n) (x ∷ xs) =
    let least : min (suc (length xs)) (suc n) ≡ suc (min (length xs) n) = omega arith in
    ap (λ k. take k (x ∷ xs)) least ∙ ap (◌∷◌ x) (take-min n xs)

flatten-filled_parts :
    (n consumed : ℕ) (bufs : List (List ℕ))
    → flatten (filled_parts n consumed bufs) ≡ take (n - consumed) (flatten bufs)
unfolding filled_parts flatten
flatten-filled_parts n consumed [] = sym (take-length (n - consumed) [] (omega arith))
flatten-filled_parts n consumed (buf ∷ bufs) =
    rw
      (
        take-append (n - consumed) buf (flatten bufs),
        take-min (n - consumed) buf,
        flatten-filled_parts n (consumed + length buf) bufs,
      )
      (ap (λ k. take (n - consumed) buf ++ take k (flatten bufs)) (omega arith))

-- Of a scattered read that reports `n` bytes, `run_read` dumps for each buffer a part, which in a row are the first
-- `n` bytes of the buffers in a row.
pub scatter_read-parts :
    {W : Type 0} (d : ZonedDevice W) (s : Sector) (sizes : List ℕ) (n : ℕ) (bufs : List (List ℕ))
    (w w' : W)
    → Device.readv_at d s (map (λ k. replicate k 0) sizes) w ≡ (ok (n, bufs), w')
    → (parts : List (List ℕ)) × (scatter_read d s sizes w ≡ (ok (map hex_dump parts), w'))
      × (flatten parts ≡ take n (flatten bufs))
unfolding scatter_read
scatter_read-parts d s sizes n bufs w w' e = (
  filled_parts n 0 bufs,
  rw e refl,
  flatten-filled_parts n 0 bufs ∙ ap (λ k. take k (flatten bufs)) (omega arith),
)
