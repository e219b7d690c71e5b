-- ===== src/Base/Every.antt =====
-- Tests of every number below a bound, to prove by computation.
use Prim.Native.Nat.{ℕ, zero, suc, ◌<◌}
use mathlib.Core.Path.{◌≡◌, refl}
use mathlib.Core.Bool.{Bool, true, false}
use native.Mathlib.Omega.{arith}
use gdpfs.Base.Tests.{if◌then◌else◌}

-- `test` passes for each of the `count` smallest numbers.
unfoldable pub every : (ℕ → Bool) → (count : ℕ) → Bool
every test zero = true
every test (suc k) = if test k then every test k else false

pub every_at :
    (test : ℕ → Bool) {count : ℕ} (m : ℕ) → m < count → every test count ≡ true → test m ≡ true
unfolding every
every_at test {count = zero} m within passed = absurd (omega arith)
every_at test {count = suc k} m within passed = ground (arith, every_at test {count = k} m)

pub every_intro :
    (test : ℕ → Bool) (count : ℕ) → ((m : ℕ) → m < count → test m ≡ true) → every test count ≡ true
unfolding every
every_intro test zero passed = refl
every_intro test (suc k) passed =
    ground (arith, passed k, every_intro test k (λ m within. passed m (omega arith)))
