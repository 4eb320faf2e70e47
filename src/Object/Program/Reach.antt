-- ===== src/Object/Program/Reach.antt =====
-- The stores that a program reaches, and what is left when it has dropped its references.
use giitestutils.Base.{
  ◌⊎◌, ◌↔◌, ℕ, zero, suc, ◌-◌, ◌<◌, ◌≡◌, refl, Bool, Option, none, some, arith, subst, inl, inr,
  zero_or_pos, Option-cases,
}
use giitestutils.Base.Exec.{returned}
use giitestutils.Base.Exec.Ensures.{Post}
use giitestutils.Object.{Ref, GtuTestObject, Store}
use giitestutils.Object.Counts.{children_of, children_at, occurs, held, IsLive}
use giitestutils.Object.Later.{Bounded}
use giitestutils.Object.Depth.{All-get}
use giitestutils.Object.Valid.{IsValid}
use giitestutils.Object.Program.{Call, perform, IsAllowed, owned_after, perform-IsValid}

-- No object has been allocated, and NULL is no address.
abbrev pub empty : Store
empty = record { cell = λ p. none; next = 1 }

-- Enough fuel for each object of the store.
abbrev pub IsDepth : Store → ℕ → Type 0
IsDepth h n = (p : Ref) → IsLive h p → Bounded h n p

module _ (isspace : ℕ → Bool) where
  -- A store, and the references of the program, after some allowed calls that have returned.
  pub data Reach : Store → (Ref → ℕ) → Type 0 where
    start : {h : Store} {owned : Ref → ℕ} → h ≡ empty → owned ≡ (λ p. 0) → Reach h owned
    call :
        {h h' : Store} {owned kept : Ref → ℕ} (c : Call) (a : IsAllowed isspace h owned c) (n : ℕ)
        → Reach h owned
        → IsDepth h n
        → perform isspace n c h ≡ (returned tt, h')
        → kept ≡ owned_after isspace h owned c a
        → Reach h' kept

  empty-IsValid : IsValid isspace empty (λ p. 0)
  empty-IsValid = record {
    forest = record {
      counted = record {
        no_null = refl;
        unused = λ p beyond. refl;
        counts = λ p o l. ground (arith, l);
        fits = λ p o l. ground (arith, l);
        parents = λ q p there. absurd (omega (arith, there));
        owns = λ p some_owned. absurd (omega (arith, some_owned));
      };
      alive = λ p o l. ground (arith, l);
      linked = λ p o l n live. ground (arith, l);
      started = omega arith;
      old_parents = λ p o l. ground (arith, l);
      named = λ p o l. ground (arith, l);
      depth = 0;
      bounded = λ p (o, l). ground (arith, l);
    };
    fresh = record {
      elements = λ p xs path names e. ground (arith, e);
      string = λ p path s e printed. ground (arith, e);
    };
  }

  -- The depth of a valid store may be any that bounds its objects.
  abbrev pub at_depth :
      {h : Store} {owned : Ref → ℕ} (n : ℕ)
      → IsDepth h n
      → IsValid isspace h owned
      → IsValid isspace h owned
  at_depth n d v = record v { forest = record v.forest { depth = n; bounded = d } }

  pub Reach-IsValid : {h : Store} {owned : Ref → ℕ} → Reach h owned → IsValid isspace h owned
  Reach-IsValid (start e f) = rw (e, f) empty-IsValid
  Reach-IsValid (call {h} {h'} {owned} {kept} c a n r d e f) =
      let w =
        perform-IsValid isspace h owned (at_depth n d (Reach-IsValid r)) c a n (omega arith) in
      rw f (
        subst (λ x. Post ⊥ (λ u g. IsValid isspace g (owned_after isspace h owned c a)) x.0 x.1) e
          w.holds)

  -- An object that the program does not own stands in the array of a live suite.
  module _ {h : Store} {owned : Ref → ℕ} (v : IsValid isspace h owned)
      (none_owned : (p : Ref) → owned p ≡ 0) where
    ever_less : (k : ℕ) (p : Ref) → IsLive h p → Bounded h (v.forest.depth - k) p
    ever_less zero p live = subst (λ n. Bounded h n p) (omega arith) (v.forest.bounded p live)
    ever_less (suc k) p (o, l) =
        let n = v.forest.counted.counts p o l in
        let some_held : 0 < held h p o = omega (arith, n, v.forest.alive p o l, none_owned p) in
        below (v.forest.depth - k) (omega arith)
          (ever_less k o.parent (has_children o.parent (h.cell o.parent) refl some_held)) some_held
      where
        has_children :
            (q : Ref) (c : Option GtuTestObject)
            → h.cell q ≡ c
            → 0 < occurs p (children_at c)
            → IsLive h q
        has_children q none e there = absurd (omega (arith, there))
        has_children q (some x) e there = (x, e)

        below :
            (m : ℕ)
            → v.forest.depth - suc k ≡ m - 1
            → Bounded h m o.parent
            → 0 < held h p o
            → Bounded h (v.forest.depth - suc k) p
        below zero e b there = absurd b
        below (suc m) e (x, lx, a) there =
            let same : m ≡ v.forest.depth - suc k = omega (arith, e) in
            subst (λ j. Bounded h j p) same
              (All-get (λ c. Bounded h m c) (children_of x.kind) p a
                (subst (λ c. 0 < occurs p (children_at c)) lx there))

  -- After any allowed calls, an object is live exactly when the program owns a reference to it or it
  -- stands in the array of children of a live suite.
  pub Reach-IsLive_iff :
      {h : Store} {owned : Ref → ℕ} (p : Ref)
      → Reach h owned
      → IsLive h p ↔ ((0 < owned p) ⊎ (q : Ref) × (0 < occurs p (children_at (h.cell q))))
  Reach-IsLive_iff {h} {owned} p r =
      let v = Reach-IsValid r in
      (
        (λ (o, l).
            let n = v.forest.counted.counts p o l in
            elim (zero_or_pos (owned p)) [
              | inr some_owned ↦ inl some_owned
              | inl none_owned ↦ inr (o.parent, omega (arith, n, none_owned, v.forest.alive p o l))
            ]),
        (λ there. elim there [
          | inl some_owned ↦ v.forest.counted.owns p some_owned
          | inr (q, some_held) ↦ let (o, l, e) = v.forest.counted.parents q p some_held in (o, l)
        ]),
      )

  -- Once a program, after any allowed calls, owns no reference any more, no object is left: also
  -- those that the suites held have been destroyed.
  pub Reach-all_freed :
      {h : Store} {owned : Ref → ℕ}
      → Reach h owned
      → ((p : Ref) → owned p ≡ 0)
      → (p : Ref) → h.cell p ≡ none
  Reach-all_freed {h} r none_owned p =
      let v = Reach-IsValid r in
      elim (Option-cases (h.cell p)) [
        | inl gone ↦ gone
        | inr live ↦
            let none_left : v.forest.depth - v.forest.depth ≡ 0 = omega arith in
            absurd
              (subst (λ n. Bounded h n p) none_left (ever_less v none_owned v.forest.depth p live))
      ]
