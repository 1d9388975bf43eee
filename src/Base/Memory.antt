-- ===== src/Base/Memory.antt =====
-- A store of cells by address. Addresses are numbers, with no wrap-around at the end of the
-- address space.
use Prim.Native.Nat.{ℕ}
use native.Mathlib.Omega.{arith}
use mathlib.Core.Path.{◌≡◌}
use mathlib.Core.Logic.{◌≢◌}
use beaveros.Base.Tests.{◌==◌, if◌then◌else◌}

abbrev pub Memory : Type 0
Memory = ℕ → ℕ

abbrev pub store : Memory → ℕ → ℕ → Memory
store m a v b = if b == a then v else m b

pub store_self : (m : Memory) (a v : ℕ) → store m a v a ≡ v
store_self m a v = ground arith

pub store_ne : (m : Memory) (a v b : ℕ) → b ≢ a → store m a v b ≡ m b
store_ne m a v b h = ground arith
