-- ===== src/Base/Bytes.antt =====
-- Integers as little-endian bytes.
use Prim.Native.Nat.{ℕ, zero, suc, ◌+◌, ◌*◌, ◌/◌, ◌%◌, ◌^◌, ◌<◌}
use mathlib.Core.Path.{◌≡◌, refl, ap}
use mathlib.Core.List.{List, [], ◌∷◌, ◌++◌}
use native.Mathlib.Omega.{arith}
use native.Mathlib.Nat.{pow-suc}
use zoned.Base.Lists.{length, take, drop}

-- The low `width` bytes of a number, and the number that bytes stand for.
unfoldable pub to_le : ℕ → ℕ → List ℕ
to_le zero n = []
to_le (suc width) n = n % 256 ∷ to_le width (n / 256)

unfoldable pub from_le : List ℕ → ℕ
from_le [] = 0
from_le (b ∷ bs) = b + 256 * from_le bs

pub length-to_le : (width n : ℕ) → length (to_le width n) ≡ width
unfolding to_le
length-to_le zero n = refl
length-to_le (suc width) n = ap suc (length-to_le width (n / 256))

pub from_le-to_le : (width n : ℕ) → n < 256 ^ width → from_le (to_le width n) ≡ n
unfolding to_le from_le
from_le-to_le zero n h = omega arith
from_le-to_le (suc width) n h = omega (arith, from_le-to_le width (n / 256) small)
  where
    small : n / 256 < 256 ^ width
    small = omega (arith, rw pow-suc at h)

-- The bytes of a field that stands at the front, and those behind it.
pub take-field : (width n : ℕ) (rest : List ℕ) → take width (to_le width n ++ rest) ≡ to_le width n
unfolding to_le
take-field zero n rest = refl
take-field (suc width) n rest = ap (◌∷◌ (n % 256)) (take-field width (n / 256) rest)

pub drop-field : (width n : ℕ) (rest : List ℕ) → drop width (to_le width n ++ rest) ≡ rest
unfolding to_le
drop-field zero n rest = refl
drop-field (suc width) n rest = drop-field width (n / 256) rest
