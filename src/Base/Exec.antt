-- ===== src/Base/Exec.antt =====
-- Actions of the process: they change a state, and may end the process.
pub mod Keeps
pub mod Ensures
pub mod Steps
use Prim.Native.Nat.{ℕ}
use mathlib.Core.Option.{Option, none, some}
use giitestutils.Base.Outcome.{Checked, done, critical}

-- `exited n`: exit (n). `aborted`: abort, a trap, or a failed g_assert. `undefined`: the C standard
-- gives the call no meaning.
pub data Outcome {ℓ} (A : Type ℓ) : Type ℓ where
  returned : A → Outcome A
  exited : ℕ → Outcome A
  aborted : Outcome A
  undefined : Outcome A

abbrev pub Exec {ℓ} : Type 0 → Type ℓ → Type ℓ
Exec W A = W → Outcome A × W

module _ {ℓ} {W : Type 0} {A : Type ℓ} where
  unfoldable pub pure : A → Exec W A
  pure a w = (returned a, w)

  unfoldable pub stop : Outcome A → Exec W A
  stop r w = (r, w)

  unfoldable pub gets : (W → A) → Exec W A
  gets f w = (returned (f w), w)

unfoldable pub modify : {W : Type 0} → (W → W) → Exec W (Unit {0})
modify f w = (returned tt, f w)

module _ {ℓ κ} {W : Type 0} {A : Type ℓ} {B : Type κ} where
  abbrev pub continue : Outcome A → (A → Exec W B) → Exec W B
  continue (returned a) f w = f a w
  continue (exited n) f w = (exited n, w)
  continue aborted f w = (aborted, w)
  continue undefined f w = (undefined, w)

  infixl 10 ◌>>=◌ ◌>>◌
  -- To unfold this is to unfold all ways to build an action.
  unfoldable pub ◌>>=◌ : Exec W A → (A → Exec W B) → Exec W B
  unfolding pure stop gets modify
  ◌>>=◌ m f w = let (r, w') = m w in continue r f w'

  abbrev pub ◌>>◌ : Exec W A → Exec W B → Exec W B
  m >> n = m >>= λ _. n

-- The two ways to go on after a test.
module _ {ℓ κ} {W : Type 0} {A : Type ℓ} {B : Type κ} where
  unfoldable pub on_checked : Checked A → (A → Exec W B) → (A → Exec W B) → Exec W B
  on_checked (done a) passed failed = passed a
  on_checked (critical a) passed failed = failed a

  unfoldable pub on_option : Option A → Exec W B → (A → Exec W B) → Exec W B
  on_option none missing found = missing
  on_option (some a) missing found = found a
