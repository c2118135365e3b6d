-- ===== src/Base/Store.antt =====
-- Memory as a function from addresses to objects, and the write of one object.
use Prim.Native.Nat.{ℕ}
use mathlib.Core.Path.{◌≡◌}
use mathlib.Core.Logic.{◌≢◌}
use native.Mathlib.Omega.{arith}
use crack_os.Base.Tests.{◌==◌, if◌then◌else◌}

module _ {ℓ} {A : Type ℓ} where
  unfoldable pub update : (ℕ → A) → ℕ → A → ℕ → A
  update m p r q = if q == p then r else m q

  pub update_self : (m : ℕ → A) (p : ℕ) (r : A) → update m p r p ≡ r
  unfolding update
  update_self m p r = ground arith

  pub update_ne : (m : ℕ → A) (p : ℕ) (r : A) (q : ℕ) → q ≢ p → update m p r q ≡ m q
  unfolding update
  update_ne m p r q h = ground arith
