-- ===== src/Object/Depth.antt =====
-- The depth of the objects below another.
use giitestutils.Base.{
  ℕ, zero, suc, ◌<◌, ◌≤◌, ◌≡◌, List, [], ◌∷◌, some, arith, All, All-imp, subst, inl, inr,
}
use giitestutils.Object.{Ref, GtuTestObject, Store}
use giitestutils.Object.Counts.{children_of, occurs, Address-cases}
use giitestutils.Object.Later.{Bounded}

pub Bounded-le : (h : Store) (n m : ℕ) (p : Ref) → n ≤ m → Bounded h n p → Bounded h m p
Bounded-le h zero m p le b = absurd b
Bounded-le h (suc n) zero p le b = absurd (omega (arith, le))
Bounded-le h (suc n) (suc m) p le (o, l, a) = (
  o,
  l,
  All-imp _ (λ c. Bounded h m c) (children_of o.kind) (λ c. Bounded-le h n m c (omega (arith, le)))
      a,
)

-- A store with all the objects of another.
pub Bounded-more :
    (h h' : Store) (n : ℕ) (p : Ref)
    → ((q : Ref) (o : GtuTestObject) → h.cell q ≡ some o → h'.cell q ≡ some o)
    → Bounded h n p
    → Bounded h' n p
Bounded-more h h' zero p keeps b = b
Bounded-more h h' (suc n) p keeps (o, l, a) = (
  o,
  keeps p o l,
  All-imp (λ c. Bounded h n c) (λ c. Bounded h' n c) (children_of o.kind)
      (λ c. Bounded-more h h' n c keeps) a,
)

pub All-occurs :
    (P Q : Ref → Type 0) (cs : List Ref)
    → ((c : Ref) → 0 < occurs c cs → P c → Q c)
    → All P cs
    → All Q cs
All-occurs P Q [] f a = tt
All-occurs P Q (c ∷ cs) f a =
    (f c (ground arith) a.0, All-occurs P Q cs (λ d there. f d (omega (arith, there))) a.1)

pub All-get : (P : Ref → Type 0) (cs : List Ref) (c : Ref) → All P cs → 0 < occurs c cs → P c
All-get P [] c a there = absurd (omega (arith, there))
All-get P (d ∷ cs) c a there = elim (Address-cases d c) [
  | inl same ↦ subst P same a.0
  | inr other ↦ All-get P cs c a.1 (ground (arith, there, other))
]
