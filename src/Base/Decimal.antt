-- ===== src/Base/Decimal.antt =====
-- `strconv.Itoa` on the native numbers.
use Prim.Native.Nat.{ℕ, zero, suc, ◌+◌, ◌/◌, ◌%◌, ◌≤◌}
use Prim.Native.String.{String, slice, ◌++◌ as append}
use mathlib.Core.Path.{◌≡◌, refl, ap}
use mathlib.Core.Logic.{inl, inr}
use native.Mathlib.Omega.{arith}
use hummtube.Base.Tests.{ltb, if◌then◌else◌, Bool-cases}

abbrev pub digit : ℕ → String
digit n = slice "0123456789" n (n + 1)

-- `strconv.Itoa`; every call on fuel drops a digit, so the number itself is fuel enough.
unfoldable pub itoa_from : ℕ → ℕ → String
itoa_from zero n = digit (n % 10)
itoa_from (suc fuel) n =
    let front = itoa_from fuel (n / 10) in
    if ltb n 10 then digit n else append front (digit (n % 10))

unfoldable pub itoa : ℕ → String
unfolding itoa_from
itoa n = itoa_from n n

-- More fuel than the number itself changes nothing.
itoa_from-enough : (fuel n : ℕ) → n ≤ fuel → itoa_from (suc fuel) n ≡ itoa_from fuel n
unfolding itoa_from
itoa_from-enough zero n h = let e : n ≡ 0 = omega (arith, h) in rw e refl
itoa_from-enough (suc fuel) n h = elim (Bool-cases (ltb n 10)) [
  | inl y ↦ rw y refl
  | inr m ↦
      rw m (
        ap (λ front. append front (digit (n % 10))) (itoa_from-enough fuel (n / 10) (ground arith)))
]
