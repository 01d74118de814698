-- ===== src/Base/Word.antt =====
-- int32 counters, as their bit patterns: `atomic.AddInt32` wraps round.
use Prim.Native.Nat.{ℕ, ◌+◌, ◌-◌, ◌%◌, ◌^◌, ◌<◌}
use mathlib.Core.Path.{◌≡◌}
use native.Mathlib.Omega.{arith}
use crank4go.Base.Tests.{ltb, if◌then◌else◌}
use crank4go.Base.Int.{ℤ, pos, negsuc}

abbrev pub u32_mod : ℕ
u32_mod = 2 ^ 32

-- atomic.AddInt32(&n, 1)
abbrev pub inc32 : ℕ → ℕ
inc32 n = (n + 1) % u32_mod

-- atomic.AddInt32(&n, -1)
abbrev pub dec32 : ℕ → ℕ
dec32 n = (n + (u32_mod - 1)) % u32_mod

-- The integer that the pattern stands for.
abbrev pub to_int32 : ℕ → ℤ
to_int32 n = if ltb n (2 ^ 31) then pos n else negsuc (u32_mod - 1 - n)

pub dec32-inc32 : (n : ℕ) → n < u32_mod → dec32 (inc32 n) ≡ n
dec32-inc32 n h = omega arith

pub inc32-dec32 : (n : ℕ) → n < u32_mod → inc32 (dec32 n) ≡ n
inc32-dec32 n h = omega arith

abbrev pub u64_mod : ℕ
u64_mod = 2 ^ 64

abbrev pub to_int64 : ℕ → ℤ
to_int64 n = if ltb n (2 ^ 63) then pos n else negsuc (u64_mod - 1 - n)
