-- ===== src/Base/Exec/Ensures.antt =====
-- What holds after an action that is begun in one state: a rule for each way to build an action.
use Prim.Native.Nat.{ℕ}
use mathlib.Core.Path.{◌≡◌, refl, sym, subst}
use mathlib.Core.Bool.{Bool, true, false}
use mathlib.Core.Option.{Option, none, some}
use giitestutils.Base.Outcome.{Checked, done, critical}
use giitestutils.Base.Tests.{if◌then◌else◌}
use giitestutils.Base.Exec.{
  Outcome, returned, exited, aborted, undefined, Exec, pure, stop, gets, modify, continue, ◌>>=◌,
  on_checked, on_option,
}
use giitestutils.Base.Exec.Keeps.{Keeps}

-- `E` is what holds if the action does not return: `Unit` if it need not, `⊥` if it always does.
abbrev pub Post {ℓ} : {W : Type 0} {A : Type ℓ} → Type 0 → (A → W → Type 0) → Outcome A → W → Type 0
Post E Q (returned a) w = Q a w
Post E Q (exited n) w = E
Post E Q aborted w = E
Post E Q undefined w = E

-- Begun in `w`, the action `m` returns with `Q`, or ends as `E` allows.
pub record Ensures {ℓ} {W : Type 0} {A : Type ℓ} (E : Type 0) (m : Exec W A) (w : W)
    (Q : A → W → Type 0) : Type ℓ where
  pub holds : Post E Q (m w).0 (m w).1

module _ {ℓ} {W : Type 0} {A : Type ℓ} {E : Type 0} {Q : A → W → Type 0} where
  pub Ensures-pure : (a : A) (w : W) → Q a w → Ensures E (pure a) w Q
  unfolding pure
  Ensures-pure a w h = record { holds = h }

  pub Ensures-aborted : (w : W) → E → Ensures E (stop aborted) w Q
  unfolding stop
  Ensures-aborted w h = record { holds = h }

  pub Ensures-exited : (n : ℕ) (w : W) → E → Ensures E (stop (exited n)) w Q
  unfolding stop
  Ensures-exited n w h = record { holds = h }

  pub Ensures-undefined : (w : W) → E → Ensures E (stop undefined) w Q
  unfolding stop
  Ensures-undefined w h = record { holds = h }

  pub Ensures-gets : (f : W → A) (w : W) → Q (f w) w → Ensures E (gets f) w Q
  unfolding gets
  Ensures-gets f w h = record { holds = h }

  pub Ensures-if :
      (b : Bool) (m n : Exec W A) (w : W)
      → (b ≡ true → Ensures E m w Q)
      → (b ≡ false → Ensures E n w Q)
      → Ensures E (if b then m else n) w Q
  Ensures-if true m n w h k = h refl
  Ensures-if false m n w h k = k refl

  pub Ensures-weaken :
      {R : A → W → Type 0} (m : Exec W A) (w : W)
      → Ensures E m w R
      → ((a : A) (w' : W) → R a w' → Q a w')
      → Ensures E m w Q
  Ensures-weaken {R} m w h k = record { holds = go (m w).0 (m w).1 h.holds }
    where
      go : (r : Outcome A) (w' : W) → Post E R r w' → Post E Q r w'
      go (returned a) w' p = k a w' p
      go (exited n) w' p = p
      go aborted w' p = p
      go undefined w' p = p

pub Ensures-modify :
    {W : Type 0} {E : Type 0} {Q : Unit {0} → W → Type 0} (f : W → W) (w : W)
    → Q tt (f w)
    → Ensures E (modify f) w Q
unfolding modify
Ensures-modify f w h = record { holds = h }

-- An invariant holds after an action that returns.
pub Ensures-Keeps {ℓ} :
    {W : Type 0} {A : Type ℓ} {P : W → Type 0} (m : Exec W A) (w : W)
    → Keeps P m
    → P w
    → Ensures Unit m w (λ a w'. P w')
Ensures-Keeps {W} {A} {P} m w k p = record { holds = go (m w).0 (m w).1 (k.at w p) }
  where
    go : (r : Outcome A) (w' : W) → P w' → Post Unit (λ a v. P v) r w'
    go (returned a) w' p = p
    go (exited n) w' p = tt
    go aborted w' p = tt
    go undefined w' p = tt

module _ {ℓ κ} {W : Type 0} {A : Type ℓ} {B : Type κ} {E : Type 0} {Q : B → W → Type 0} where
  pub Ensures-bind :
      {R : A → W → Type 0} (m : Exec W A) (f : A → Exec W B) (w : W)
      → Ensures E m w R
      → ((a : A) (w' : W) → R a w' → Ensures E (f a) w' Q)
      → Ensures E (m >>= f) w Q
  unfolding ◌>>=◌
  Ensures-bind {R} m f w h k = record { holds = go (m w).0 (m w).1 h.holds }
    where
      go :
          (r : Outcome A) (w' : W)
          → Post E R r w'
          → Post E Q (continue r f w').0 (continue r f w').1
      go (returned a) w' p = (k a w' p).holds
      go (exited n) w' p = p
      go aborted w' p = p
      go undefined w' p = p

  pub Ensures-on_checked :
      (c : Checked A) (f g : A → Exec W B) (w : W)
      → ((a : A) → c ≡ done a → Ensures E (f a) w Q)
      → ((a : A) → c ≡ critical a → Ensures E (g a) w Q)
      → Ensures E (on_checked c f g) w Q
  unfolding on_checked
  Ensures-on_checked (done a) f g w h k = h a refl
  Ensures-on_checked (critical a) f g w h k = k a refl

  pub Ensures-on_option :
      (o : Option A) (m : Exec W B) (f : A → Exec W B) (w : W)
      → (o ≡ none → Ensures E m w Q)
      → ((a : A) → o ≡ some a → Ensures E (f a) w Q)
      → Ensures E (on_option o m f) w Q
  unfolding on_option
  Ensures-on_option none m f w h k = h refl
  Ensures-on_option (some a) m f w h k = k a refl

-- An action that is known to return.
pub Ensures-returned {ℓ} :
    {W : Type 0} {A : Type ℓ} {E : Type 0} {Q : A → W → Type 0} (m : Exec W A) (w : W) (a : A)
    (w' : W)
    → m w ≡ (returned a, w')
    → Q a w'
    → Ensures E m w Q
Ensures-returned {E} {Q} m w a w' e h = record { holds = subst (λ r. Post E Q r.0 r.1) (sym e) h }
