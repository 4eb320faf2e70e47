-- ===== src/Object/Rules.antt =====
-- What holds after the ways to use an object of the store, when it is live.
use giitestutils.Base.{◌≡◌, ◌≢◌, some, ◌==◌, arith, Checked}
use giitestutils.Base.Exec.{Exec}
use giitestutils.Base.Exec.Ensures.{Ensures, Ensures-modify, Ensures-if}
use giitestutils.Object.{Ref, null, GtuTestObject, Store, put, on_object, check_object, write}

module _ {ℓ} {A : Type ℓ} {E : Type 0} {Q : A → Store → Type 0} where
  pub Ensures-on_object :
      (p : Ref) (k : GtuTestObject → Exec Store A) (h : Store) (o : GtuTestObject)
      → h.cell p ≡ some o
      → Ensures E (k o) h Q
      → Ensures E (on_object p k) h Q
  unfolding on_object
  Ensures-on_object p k h o e r = record { holds = rw (e, on_object) r.holds }

module _ {ℓ} {A : Type ℓ} {E : Type 0} {Q : Checked A → Store → Type 0} where
  pub Ensures-check_object :
      (p : Ref) (failed : A) (k : GtuTestObject → Exec Store (Checked A)) (h : Store)
      (o : GtuTestObject)
      → p ≢ null
      → h.cell p ≡ some o
      → Ensures E (k o) h Q
      → Ensures E (check_object p failed k) h Q
  unfolding check_object
  Ensures-check_object p failed k h o n e r =
      Ensures-if (p == null) _ _ h (λ is_null. absurd (n (ground arith)))
        (λ _. Ensures-on_object p k h o e r)

pub Ensures-write :
    {E : Type 0} {Q : Unit {0} → Store → Type 0} (p : Ref) (o : GtuTestObject) (h : Store)
    → Q tt (put p (some o) h)
    → Ensures E (write p o) h Q
unfolding write
Ensures-write p o h q = Ensures-modify _ h q
