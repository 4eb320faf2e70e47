-- ===== src/Base/Exec/Keeps.antt =====
-- Invariants of actions: a rule for each way to build an action.
use mathlib.Core.Bool.{Bool, true, false}
use mathlib.Core.Option.{Option, none, some}
use giitestutils.Base.Outcome.{Checked, done, critical}
use giitestutils.Base.Tests.{if◌then◌else◌}
use giitestutils.Base.Exec.{
  Outcome, returned, exited, aborted, undefined, Exec, pure, stop, gets, modify, continue, ◌>>=◌,
  on_checked, on_option,
}

-- Whatever its outcome, `m` keeps `P` of the state.
pub record Keeps {ℓ} {W : Type 0} {A : Type ℓ} (P : W → Type 0) (m : Exec W A) : Type ℓ where
  pub at : (w : W) → P w → P (m w).1

module _ {ℓ} {W : Type 0} {A : Type ℓ} {P : W → Type 0} where
  pub Keeps-pure : (a : A) → Keeps P (pure a)
  unfolding pure
  Keeps-pure a = record { at = λ w h. h }

  pub Keeps-stop : (r : Outcome A) → Keeps P (stop r)
  unfolding stop
  Keeps-stop r = record { at = λ w h. h }

  pub Keeps-gets : (f : W → A) → Keeps P (gets f)
  unfolding gets
  Keeps-gets f = record { at = λ w h. h }

  pub Keeps-if : (b : Bool) (m n : Exec W A) → Keeps P m → Keeps P n → Keeps P (if b then m else n)
  Keeps-if true m n h k = h
  Keeps-if false m n h k = k

pub Keeps-modify :
    {W : Type 0} {P : W → Type 0} (f : W → W) → ((w : W) → P w → P (f w)) → Keeps P (modify f)
unfolding modify
Keeps-modify f h = record { at = h }

module _ {ℓ κ} {W : Type 0} {A : Type ℓ} {B : Type κ} {P : W → Type 0} where
  pub Keeps-bind :
      (m : Exec W A) (f : A → Exec W B) → Keeps P m → ((a : A) → Keeps P (f a)) → Keeps P (m >>= f)
  unfolding ◌>>=◌
  Keeps-bind m f h k = record { at = λ w p. go (m w).0 (m w).1 (h.at w p) }
    where
      go : (r : Outcome A) (w : W) → P w → P (continue r f w).1
      go (returned a) w p = (k a).at w p
      go (exited n) w p = p
      go aborted w p = p
      go undefined w p = p

  pub Keeps-on_checked :
      (c : Checked A) (f g : A → Exec W B)
      → ((a : A) → Keeps P (f a))
      → ((a : A) → Keeps P (g a))
      → Keeps P (on_checked c f g)
  unfolding on_checked
  Keeps-on_checked (done a) f g h k = h a
  Keeps-on_checked (critical a) f g h k = k a

  pub Keeps-on_option :
      (o : Option A) (m : Exec W B) (f : A → Exec W B)
      → Keeps P m
      → ((a : A) → Keeps P (f a))
      → Keeps P (on_option o m f)
  unfolding on_option
  Keeps-on_option none m f h k = h
  Keeps-on_option (some a) m f h k = k a

pub ruleset keeps_rules = (Keeps-pure, Keeps-stop, Keeps-gets, Keeps-if, Keeps-bind)
