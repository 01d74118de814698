-- ===== src/Base/Decimal.antt =====
-- `%d`, strconv.Itoa and strconv.Atoi on 64-bit integers.
use Prim.Native.Nat.{ℕ, zero, suc, ◌+◌, ◌-◌, ◌*◌, ◌/◌, ◌%◌, ◌^◌, ◌<◌, ◌≤◌}
use mathlib.Core.Path.{◌≡◌, refl, ◌∙◌}
use mathlib.Core.Bool.{Bool, true, false, ◌&&◌}
use mathlib.Core.Logic.{inl, inr}
use mathlib.Core.List.{[], ◌∷◌}
use native.Mathlib.Omega.{arith}
use crank4go.Base.Tests.{leb, ltb, ◌==◌, if◌then◌else◌, Bool-cases}
use crank4go.Base.Int.{ℤ, pos, negsuc, sub_ℕ}
use crank4go.Base.Lists.{Lacks}
use crank4go.Base.Strings.{Text}

abbrev pub is_digit : ℕ → Bool
is_digit c = leb b'0' c && leb c b'9'

-- One round for each digit; more than `n` rounds of fuel are enough.
unfoldable pub digits : ℕ → ℕ → Text → Text
digits zero n out = out
digits (suc fuel) n out =
    let rest = digits fuel (n / 10) ((b'0' + n % 10) ∷ out) in
    if ltb n 10 then (b'0' + n) ∷ out else rest

unfoldable pub itoa : ℤ → Text
unfolding digits
itoa (pos n) = digits (suc n) n []
itoa (negsuc n) = b'-' ∷ digits (suc (suc n)) (suc n) []

pub data Scan : Type 0 where
  value : ℕ → Scan
  syntax range : Scan

-- The loop of strconv.ParseUint in base 10.
unfoldable pub scan : Text → ℕ → Scan
scan [] n = value n
scan (c ∷ s) n =
    let m = n * 10 + (c - b'0') in
    if is_digit c then (if leb (2 ^ 64) m then range else scan s m) else syntax

-- A result with an error flag, as `(i, err != nil)`.
abbrev clamp : Bool → Scan → ℤ × Bool
clamp minus syntax = (pos 0, true)
clamp true range = (sub_ℕ 0 (2 ^ 63), true)
clamp false range = (pos (2 ^ 63 - 1), true)
clamp true (value m) = if ltb (2 ^ 63) m then (sub_ℕ 0 (2 ^ 63), true) else (sub_ℕ 0 m, false)
clamp false (value m) = if leb (2 ^ 63) m then (pos (2 ^ 63 - 1), true) else (pos m, false)

abbrev magnitude : Bool → Text → ℤ × Bool
magnitude minus [] = (pos 0, true)
magnitude minus (c ∷ s) = clamp minus (scan (c ∷ s) 0)

unfoldable pub atoi : Text → ℤ × Bool
unfolding scan
atoi [] = (pos 0, true)
atoi (c ∷ s) =
    if c == b'-'
    then magnitude true s
    else if c == b'+'
    then magnitude false s
    else magnitude false (c ∷ s)

scan-digits :
    (fuel n : ℕ) (out : Text) → n < fuel → n < 2 ^ 64 → scan (digits fuel n out) 0 ≡ scan out n
unfolding scan digits
scan-digits zero n out h fits = absurd (omega arith)
scan-digits (suc fuel) n out h fits = elim (Bool-cases (ltb n 10)) [
  | inl e ↦ rw e (ground arith)
  | inr e ↦ rw e (
      scan-digits fuel (n / 10) ((b'0' + n % 10) ∷ out) (ground arith) (omega arith) ∙ ground arith)
]

-- The first byte of a number is a digit.
digits-head :
    (fuel n : ℕ) (out : Text)
    → n < fuel
    → (c : ℕ) × (s : Text) × (digits fuel n out ≡ c ∷ s) × (b'0' ≤ c)
unfolding digits
digits-head zero n out h = absurd (omega arith)
digits-head (suc fuel) n out h = elim (Bool-cases (ltb n 10)) [
  | inl e ↦ (b'0' + n, out, rw e, omega arith)
  | inr e ↦ rw e (digits-head fuel (n / 10) _ (ground arith))
]

pub atoi-itoa : (n : ℕ) → n < 2 ^ 63 → atoi (itoa (pos n)) ≡ (pos n, false)
unfolding itoa atoi
atoi-itoa n h =
    let (c, s, e, le) = digits-head (suc n) n [] (omega arith) in
    let back : scan (c ∷ s) 0 ≡ value n =
      rw e at (scan-digits (suc n) n [] (omega arith) (omega arith)) in
    rw e (ground arith)

pub digits-Lacks :
    (b fuel n : ℕ) (out : Text) → b < b'0' → Lacks b out → Lacks b (digits fuel n out)
unfolding digits
digits-Lacks b zero n out h k = k
digits-Lacks b (suc fuel) n out h k = elim (Bool-cases (ltb n 10)) [
  | inl e ↦ rw e ((λ q. omega arith), k)
  | inr e ↦ rw e (digits-Lacks b fuel (n / 10) _ h ((λ q. omega arith), k))
]

pub itoa-Lacks : (b n : ℕ) → b < b'0' → Lacks b (itoa (pos n))
unfolding itoa
itoa-Lacks b n h = digits-Lacks b (suc n) n [] h tt

scan-Lacks : (s : Text) (n : ℕ) {m : ℕ} → scan s n ≡ value m → Lacks b':' s
unfolding scan
scan-Lacks [] n h = tt
scan-Lacks (c ∷ s) n h = elim (Bool-cases (is_digit c)) [
  | inr e ↦ cc (rw e at h)
  | inl e ↦ (elim (Bool-cases (leb (2 ^ 64) (n * 10 + (c - b'0')))) [
    | inl k ↦ cc (rw (e, k) at h)
    | inr k ↦ ((λ q. ground arith), scan-Lacks s _ (rw (e, k) at h))
  ])
]

clamp-value :
    (minus : Bool) (r : Scan) {z : ℤ} → clamp minus r ≡ (z, false) → (m : ℕ) × (r ≡ value m)
clamp-value minus (value m) h = (m, refl)
clamp-value minus syntax h = cc
clamp-value true range h = cc
clamp-value false range h = cc

magnitude-Lacks : (minus : Bool) (s : Text) {z : ℤ} → magnitude minus s ≡ (z, false) → Lacks b':' s
magnitude-Lacks minus [] h = tt
magnitude-Lacks minus (c ∷ s) h =
    let (m, e) = clamp-value minus (scan (c ∷ s) 0) h in scan-Lacks (c ∷ s) 0 e

-- What `Atoi` reads without an error has no colon.
pub atoi-Lacks : (s : Text) {z : ℤ} → atoi s ≡ (z, false) → Lacks b':' s
unfolding atoi
atoi-Lacks [] h = tt
atoi-Lacks (c ∷ s) h = elim (Bool-cases (c == b'-')) [
  | inl e ↦ (ground arith, magnitude-Lacks true s (rw e at h))
  | inr e ↦ (elim (Bool-cases (c == b'+')) [
    | inl k ↦ (ground arith, magnitude-Lacks false s (rw (e, k) at h))
    | inr k ↦ magnitude-Lacks false (c ∷ s) (rw (e, k) at h)
  ])
]
