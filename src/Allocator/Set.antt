-- ===== src/Allocator/Set.antt =====
-- The `HashSet` of zone_allocator/mod.rs as a list, read through the number of times that it holds
-- an index, and the sorting of its elements.
use zoned.Base.{
  ℕ, suc, ◌-◌, ◌≤◌, ◌≡◌, refl, Bool, false, List, [], ◌∷◌, ◌||◌, ◌==◌, leb, if◌then◌else◌, arith,
}

abbrev pub count : ℕ → List ℕ → ℕ
count a [] = 0
count a (x ∷ xs) = let rest = count a xs in if x == a then suc rest else rest

unfoldable pub contains : ℕ → List ℕ → Bool
contains a [] = false
contains a (x ∷ xs) = x == a || contains a xs

unfoldable pub insert : ℕ → List ℕ → List ℕ
insert a xs = a ∷ xs

unfoldable pub remove : ℕ → List ℕ → List ℕ
remove a [] = []
remove a (x ∷ xs) = if x == a then xs else x ∷ remove a xs

place : ℕ → List ℕ → List ℕ
place a [] = a ∷ []
place a (x ∷ xs) = if leb a x then a ∷ x ∷ xs else x ∷ place a xs

-- `sort_unstable`.
unfoldable pub sort : List ℕ → List ℕ
unfolding place
sort [] = []
sort (x ∷ xs) = place x (sort xs)

pub contains-count : (a : ℕ) (xs : List ℕ) → contains a xs ≡ leb 1 (count a xs)
unfolding contains
contains-count a [] = refl
contains-count a (x ∷ xs) = ground (arith, contains-count a xs)

pub count-remove :
    (a b : ℕ) (xs : List ℕ)
    → count a (remove b xs) ≡ (if b == a then count a xs - 1 else count a xs)
unfolding remove
count-remove a b [] = ground arith
count-remove a b (x ∷ xs) = ground (arith, count-remove a b xs)

pub remove_absent : (a : ℕ) (xs : List ℕ) → count a xs ≡ 0 → remove a xs ≡ xs
unfolding remove
remove_absent a [] h = refl
remove_absent a (x ∷ xs) h = ground (arith, remove_absent a xs)

-- Each element is at least the bound, and then the bound of what follows it.
abbrev pub Sorted : ℕ → List ℕ → Type 0
Sorted b [] = Unit {0}
Sorted b (x ∷ xs) = (b ≤ x) × Sorted x xs

place-Sorted : (a b : ℕ) (xs : List ℕ) → b ≤ a → Sorted b xs → Sorted b (place a xs)
unfolding place
place-Sorted a b [] h s = (h, tt)
place-Sorted a b (x ∷ xs) h s = ground (arith, place-Sorted a x xs)

pub sort-Sorted : (xs : List ℕ) → Sorted 0 (sort xs)
unfolding sort
sort-Sorted [] = tt
sort-Sorted (x ∷ xs) = place-Sorted x 0 (sort xs) (omega arith) (sort-Sorted xs)

count-place : (a b : ℕ) (xs : List ℕ) → count a (place b xs) ≡ count a (b ∷ xs)
unfolding place
count-place a b [] = refl
count-place a b (x ∷ xs) = ground (arith, count-place a b xs)

pub count-sort : (a : ℕ) (xs : List ℕ) → count a (sort xs) ≡ count a xs
unfolding sort
count-sort a [] = refl
count-sort a (x ∷ xs) = ground (arith, count-place a x (sort xs), count-sort a xs)
