-- ===== src/Base/Sets.antt =====
-- Sets and bags of pointers (numbers) as lists, measured by `count`.
use Prim.Native.Nat.{ℕ, ◌+◌, ◌-◌, ◌<◌}
use mathlib.Core.Path.{◌≡◌, refl}
use mathlib.Core.Bool.{Bool}
use mathlib.Core.List.{List, [], ◌∷◌, ◌++◌}
use native.Mathlib.Omega.{arith}
use crank4go.Base.Tests.{if◌then◌else◌, ◌==◌, ltb}
use crank4go.Base.Lists.{length}

abbrev pub is_same : ℕ → ℕ → ℕ
is_same x y = if x == y then 1 else 0

unfoldable pub count : ℕ → List ℕ → ℕ
count x [] = 0
count x (y ∷ ys) = is_same x y + count x ys

abbrev pub elem : ℕ → List ℕ → Bool
elem x xs = ltb 0 (count x xs)

-- Takes out the first occurrence.
unfoldable pub erase : ℕ → List ℕ → List ℕ
erase x [] = []
erase x (y ∷ ys) = if x == y then ys else y ∷ erase x ys

-- Adds an element that is not there yet.
unfoldable pub store : ℕ → List ℕ → List ℕ
store x xs = if elem x xs then xs else x ∷ xs

pub count-append : (x : ℕ) (xs ys : List ℕ) → count x (xs ++ ys) ≡ count x xs + count x ys
unfolding count
count-append x [] ys = omega arith
count-append x (y ∷ xs) ys = omega (arith, count-append x xs ys)

pub count-erase : (x y : ℕ) (ys : List ℕ) → count x (erase y ys) ≡ count x ys - is_same x y
unfolding count erase
count-erase x y [] = omega arith
count-erase x y (z ∷ ys) = ground (arith, count-erase x y ys)

pub length-erase : (y : ℕ) (ys : List ℕ) → 0 < count y ys → length (erase y ys) + 1 ≡ length ys
unfolding count erase
length-erase y [] h = absurd (omega arith)
length-erase y (z ∷ ys) h = ground (arith, length-erase y ys)

pub erase_absent : (y : ℕ) (ys : List ℕ) → count y ys ≡ 0 → erase y ys ≡ ys
unfolding count erase
erase_absent y [] h = refl
erase_absent y (z ∷ ys) h = ground (arith, erase_absent y ys)

pub count-store :
    (x y : ℕ) (ys : List ℕ) → count y ys ≡ 0 → count x (store y ys) ≡ count x ys + is_same x y
unfolding count store
count-store x y ys h = ground arith

pub length-store : (y : ℕ) (ys : List ℕ) → count y ys ≡ 0 → length (store y ys) ≡ length ys + 1
unfolding store
length-store y ys h = ground arith

pub count-cons : (x y : ℕ) (ys : List ℕ) → count x (y ∷ ys) ≡ is_same x y + count x ys
unfolding count
count-cons x y ys = refl

pub count-nil : (x : ℕ) → count x [] ≡ 0
unfolding count
count-nil x = refl
