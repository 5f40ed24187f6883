-- ===== src/Prelude/Distinct.antt =====
-- Lists of numbers without repetition, and the pigeonhole principle for them.
use byz_bank.Prelude.{
  ℕ, suc, ◌+◌, ◌≤◌, ◌≡◌, refl, ◌≢◌, ◌⊎◌, inl, inr, Bool, true, false, ◌||◌, List, [], ◌∷◌, ◌++◌,
  if◌then◌else◌, arith, length, length-append, Bool-cases,
}
use byz_bank.Prelude.Keys.{◌==◌, nat_key}

unfoldable pub contains : ℕ → List ℕ → Bool
contains k [] = false
contains k (x ∷ xs) = (x == k) || contains k xs

abbrev pub IsDistinct : List ℕ → Type 0
IsDistinct [] = Unit {0}
IsDistinct (x ∷ xs) = (contains x xs ≡ false) × IsDistinct xs

abbrev pub Subset : List ℕ → List ℕ → Type 0
Subset [] ys = Unit {0}
Subset (x ∷ xs) ys = (contains x ys ≡ true) × Subset xs ys

remove : ℕ → List ℕ → List ℕ
remove k [] = []
remove k (x ∷ xs) = if x == k then xs else x ∷ remove k xs

length-remove :
    (k : ℕ) (xs : List ℕ) → contains k xs ≡ true → length xs ≡ suc (length (remove k xs))
unfolding contains remove
length-remove k [] h = cc
length-remove k (x ∷ xs) h = ground (arith, length-remove k xs)

contains-remove :
    (j k : ℕ) (xs : List ℕ) → j ≢ k → contains j xs ≡ true → contains j (remove k xs) ≡ true
unfolding contains remove
contains-remove j k [] ne h = cc
contains-remove j k (x ∷ xs) ne h = ground (arith, contains-remove j k xs ne)

Subset-remove :
    (k : ℕ) (xs ys : List ℕ) → contains k xs ≡ false → Subset xs ys → Subset xs (remove k ys)
unfolding contains
Subset-remove k [] ys h s = tt
Subset-remove k (x ∷ xs) ys h s =
    (contains-remove x k ys (ground arith) s.0, Subset-remove k xs ys (ground arith) s.1)

-- A list without repetition is no longer than a list that holds all of it.
pub length-Subset : (xs ys : List ℕ) → IsDistinct xs → Subset xs ys → length xs ≤ length ys
length-Subset [] ys d s = omega arith
length-Subset (x ∷ xs) ys d s = omega (
  arith,
  length-remove x ys s.0,
  length-Subset xs (remove x ys) d.1 (Subset-remove x xs ys d.0 s.1),
)

-- The members of the first list that are in the second, and those that are not.
unfoldable pub common : List ℕ → List ℕ → List ℕ
common [] ys = []
common (x ∷ xs) ys = let rest = common xs ys in if contains x ys then x ∷ rest else rest

only_first : List ℕ → List ℕ → List ℕ
only_first [] ys = []
only_first (x ∷ xs) ys = let rest = only_first xs ys in if contains x ys then rest else x ∷ rest

length-common : (xs ys : List ℕ) → length xs ≡ length (common xs ys) + length (only_first xs ys)
unfolding common only_first
length-common [] ys = omega arith
length-common (x ∷ xs) ys = ground (arith, length-common xs ys)

contains-append :
    (k : ℕ) (xs ys : List ℕ) → contains k (xs ++ ys) ≡ (contains k xs || contains k ys)
unfolding contains
contains-append k [] ys = refl
contains-append k (x ∷ xs) ys = ground (arith, contains-append k xs ys)

contains-only_first :
    (k : ℕ) (xs ys : List ℕ) → contains k xs ≡ false → contains k (only_first xs ys) ≡ false
unfolding contains only_first
contains-only_first k [] ys h = refl
contains-only_first k (x ∷ xs) ys h = ground (arith, contains-only_first k xs ys)

contains-common :
    (k : ℕ) (xs ys : List ℕ) → contains k xs ≡ false → contains k (common xs ys) ≡ false
unfolding contains common
contains-common k [] ys h = refl
contains-common k (x ∷ xs) ys h = ground (arith, contains-common k xs ys)

only_first-IsDistinct :
    (xs ys : List ℕ) → IsDistinct xs → IsDistinct ys → IsDistinct (only_first xs ys ++ ys)
unfolding only_first
only_first-IsDistinct [] ys dx dy = dy
only_first-IsDistinct (x ∷ xs) ys dx dy = ground (
  arith,
  only_first-IsDistinct xs ys dx.1 dy,
  contains-append x (only_first xs ys) ys,
  contains-only_first x xs ys dx.0,
)

pub common-IsDistinct : (xs ys : List ℕ) → IsDistinct xs → IsDistinct (common xs ys)
unfolding common
common-IsDistinct [] ys dx = tt
common-IsDistinct (x ∷ xs) ys dx =
    ground (arith, common-IsDistinct xs ys dx.1, contains-common x xs ys dx.0)

only_first-Subset :
    (xs ys zs : List ℕ) → Subset xs zs → Subset ys zs → Subset (only_first xs ys ++ ys) zs
unfolding only_first
only_first-Subset [] ys zs sx sy = sy
only_first-Subset (x ∷ xs) ys zs sx sy = ground (arith, only_first-Subset xs ys zs sx.1 sy)

-- Two subsets of a list of n members share all that they hold together beyond n.
pub length-common-le :
    (xs ys zs : List ℕ)
    → IsDistinct xs
    → IsDistinct ys
    → Subset xs zs
    → Subset ys zs
    → length xs + length ys ≤ length zs + length (common xs ys)
length-common-le xs ys zs dx dy sx sy = omega (
  arith,
  length-common xs ys,
  length-append (only_first xs ys) ys,
  length-Subset (only_first xs ys ++ ys) zs (only_first-IsDistinct xs ys dx dy)
      (only_first-Subset xs ys zs sx sy),
)

subset_or_outside :
    (xs ys : List ℕ) → Subset xs ys ⊎ ((k : ℕ) × (contains k xs ≡ true) × (contains k ys ≡ false))
unfolding contains
subset_or_outside [] ys = inl tt
subset_or_outside (x ∷ xs) ys = elim (Bool-cases (contains x ys)) [
  | inr out ↦ inr (x, ground arith, out)
  | inl here ↦ elim (subset_or_outside xs ys) [
    | inl sub ↦ inl (here, sub)
    | inr (k, a, b) ↦ inr (k, ground arith, b)
  ]
]

-- A list without repetition that is longer than another has a member that the other lacks.
pub member_outside :
    (xs ys : List ℕ)
    → IsDistinct xs
    → length ys + 1 ≤ length xs
    → (k : ℕ) × (contains k xs ≡ true) × (contains k ys ≡ false)
member_outside xs ys d longer = elim (subset_or_outside xs ys) [
  | inl sub ↦ absurd (omega (arith, length-Subset xs ys d sub))
  | inr found ↦ found
]

pub contains-common_iff :
    (k : ℕ) (xs ys : List ℕ)
    → contains k (common xs ys) ≡ true
    → (contains k xs ≡ true) × (contains k ys ≡ true)
unfolding contains common
contains-common_iff k [] ys h = cc
contains-common_iff k (x ∷ xs) ys h = ground (arith, contains-common_iff k xs ys)
