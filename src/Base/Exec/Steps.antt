-- ===== src/Base/Exec/Steps.antt =====
-- How a sequence of actions goes on from what its first action does.
use Prim.Native.Nat.{ℕ}
use mathlib.Core.Path.{◌≡◌, refl}
use giitestutils.Base.Exec.{returned, exited, Exec, continue, ◌>>=◌}

module _ {ℓ κ} {W : Type 0} {A : Type ℓ} {B : Type κ} where
  pub bind-returned :
      (m : Exec W A) (f : A → Exec W B) (w : W) (a : A) (w' : W)
      → m w ≡ (returned a, w')
      → (m >>= f) w ≡ f a w'
  unfolding ◌>>=◌
  bind-returned m f w a w' e = rw (e, continue) refl

  pub bind-exited :
      (m : Exec W A) (f : A → Exec W B) (w : W) (n : ℕ) (w' : W)
      → m w ≡ (exited n, w')
      → (m >>= f) w ≡ (exited n, w')
  unfolding ◌>>=◌
  bind-exited m f w n w' e = rw (e, continue) refl

  pub bind-same :
      (m n : Exec W A) (f : A → Exec W B) (w v : W) → m w ≡ n v → (m >>= f) w ≡ (n >>= f) v
  unfolding ◌>>=◌
  bind-same m n f w v e = rw (e, continue) refl
