-- ===== src/Common/Store.antt =====
-- A store is a function of an address; an assignment replaces its value at one address.
use Prim.Native.Nat.{ℕ}
use mathlib.Core.Path.{◌≡◌}
use mathlib.Core.Logic.{◌≢◌}
use native.Mathlib.Omega.{arith}
use bhos.Common.Tests.{◌==◌, if◌then◌else◌}

module _ {ℓ} {A : Type ℓ} where
  abbrev pub update : (ℕ → A) → ℕ → A → ℕ → A
  update f a v b = if a == b then v else f b

  pub update_self : (f : ℕ → A) (a : ℕ) (v : A) → update f a v a ≡ v
  update_self f a v = ground arith

  pub update_ne : (f : ℕ → A) (a b : ℕ) (v : A) → a ≢ b → update f a v b ≡ f b
  update_ne f a b v h = ground arith
