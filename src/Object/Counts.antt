-- ===== src/Object/Counts.antt =====
-- The references to the objects of a store: those that the program owns, and those that suites hold.
use Prim.Native.Nat.{◌^◌}
use giitestutils.Base.{
  ℕ, ◌+◌, ◌<◌, ◌≤◌, ◌≡◌, ◌≢◌, refl, sym, ap, ◌∙◌, ◌⊎◌, inl, inr, List, [], ◌∷◌, ◌++◌, Option, none,
  some, ◌==◌, if◌then◌else◌, arith, subst, Bool-cases,
}
use giitestutils.Object.{Ref, null, Kind, test_case, test_suite, GtuTestObject, Store, put}

abbrev pub children_of : Kind → List Ref
children_of (test_case priv) = []
children_of (test_suite children child_names) = children

abbrev pub children_at : Option GtuTestObject → List Ref
children_at none = []
children_at (some o) = children_of o.kind

-- How often the address stands in the array.
abbrev pub occurs : Ref → List Ref → ℕ
occurs p [] = 0
occurs p (c ∷ cs) = (if c == p then 1 else 0) + occurs p cs

pub occurs-append : (p : Ref) (xs ys : List Ref) → occurs p (xs ++ ys) ≡ occurs p xs + occurs p ys
occurs-append p [] ys = omega arith
occurs-append p (x ∷ xs) ys = omega (arith, occurs-append p xs ys)

abbrev pub IsLive : Store → Ref → Type 0
IsLive h p = (o : GtuTestObject) × (h.cell p ≡ some o)

-- The references that the array of the object's parent has to it.
abbrev pub held : Store → Ref → GtuTestObject → ℕ
held h p o = occurs p (children_at (h.cell o.parent))

-- `owned p`: the references to `p` that the program holds, a floating one included.
pub record IsCounted (h : Store) (owned : Ref → ℕ) : Type 0 where
  pub no_null : h.cell null ≡ none
  pub unused : (p : Ref) → h.next ≤ p → h.cell p ≡ none
  pub counts :
      (p : Ref) (o : GtuTestObject) → h.cell p ≡ some o → o.ref_count ≡ owned p + held h p o
  pub fits : (p : Ref) (o : GtuTestObject) → h.cell p ≡ some o → o.ref_count < 2 ^ 32
  pub parents :
      (q p : Ref)
      → 0 < occurs p (children_at (h.cell q))
      → (o : GtuTestObject) × (h.cell p ≡ some o) × (o.parent ≡ q)
  pub owns : (p : Ref) → 0 < owned p → IsLive h p

-- The counts depend on the values of `owned`.
pub IsCounted-same :
    {h : Store} {owned kept : Ref → ℕ}
    → ((p : Ref) → owned p ≡ kept p)
    → IsCounted h owned
    → IsCounted h kept
IsCounted-same e c = record {
  no_null = c.no_null;
  unused = c.unused;
  counts = λ p o live. omega (arith, c.counts p o live, e p);
  fits = c.fits;
  parents = c.parents;
  owns = λ p some_owned. c.owns p (omega (arith, e p));
}

-- What `put` leaves at an address.
pub at_put : (h : Store) (p : Ref) (c : Option GtuTestObject) → (put p c h).cell p ≡ c
at_put h p c = ground arith

pub off_put :
    (h : Store) (p q : Ref) (c : Option GtuTestObject) → q ≢ p → (put p c h).cell q ≡ h.cell q
off_put h p q c n = ground arith

pub Address-cases : (q p : Ref) → (q ≡ p) ⊎ (q ≢ p)
Address-cases q p = elim (Bool-cases (q == p)) [
  | inl same ↦ inl (ground arith)
  | inr other ↦ inr (λ is_p. ground arith)
]

-- The objects have the same parents and children in both stores.
pub record IsSameShape (o o' : GtuTestObject) : Type 0 where
  pub parent : o'.parent ≡ o.parent
  pub children : children_of o'.kind ≡ children_of o.kind

-- Writing an object with the same parent and children leaves the arrays as they are.
module _ (h : Store) (p : Ref) {o o' : GtuTestObject} (e : h.cell p ≡ some o)
    (s : IsSameShape o o') where
  pub children-put : (q : Ref) → children_at ((put p (some o') h).cell q) ≡ children_at (h.cell q)
  children-put q = elim (Address-cases q p) [
    | inl same ↦ rw same (ground (arith, e, s.children))
    | inr other ↦ rw (off_put h p q (some o') other) refl
  ]

  pub IsLive-put : (q : Ref) → IsLive h q → IsLive (put p (some o') h) q
  IsLive-put q (x, l) = elim (Address-cases q p) [
    | inl same ↦ (o', ground (arith, same))
    | inr other ↦ (x, off_put h p q (some o') other ∙ l)
  ]

  parents-put :
      (q r : Ref)
      → (x : GtuTestObject) × (h.cell r ≡ some x) × (x.parent ≡ q)
      → (x : GtuTestObject) × ((put p (some o') h).cell r ≡ some x) × (x.parent ≡ q)
  parents-put q r (x, l, f) = elim (Address-cases r p) [
    | inl same ↦ (o', ground (arith, same), ground (arith, s.parent, same, e, l, f))
    | inr other ↦ (x, off_put h p r (some o') other ∙ l, f)
  ]

  -- The count of the object may change, with the references that the program owns.
  pub write-IsCounted :
      {owned : Ref → ℕ} (kept : Ref → ℕ)
      → IsCounted h owned
      → o'.ref_count ≡ kept p + held h p o
      → o'.ref_count < 2 ^ 32
      → ((q : Ref) → q ≢ p → kept q ≡ owned q)
      → IsCounted (put p (some o') h) kept
  write-IsCounted kept c count small others = record {
    no_null = off_put h p null (some o') (λ is_p. ground (arith, is_p, c.no_null, e)) ∙ c.no_null;
    unused = λ q beyond.
        off_put h p q (some o') (λ is_p. ground (arith, is_p, c.unused q beyond, e))
        ∙ c.unused q beyond;
    counts = λ q x l. elim (Address-cases q p) [
      | inl same ↦
          let f : x ≡ o' = ground (arith, l, same) in
          rw (f, same, children-put o'.parent, s.parent) count
      | inr other ↦
          let f : h.cell q ≡ some x = sym (off_put h p q (some o') other) ∙ l in
          rw (children-put x.parent) (omega (arith, c.counts q x f, others q other))
    ];
    fits = λ q x l. elim (Address-cases q p) [
      | inl same ↦ let f : x ≡ o' = ground (arith, l, same) in rw f small
      | inr other ↦ c.fits q x (sym (off_put h p q (some o') other) ∙ l)
    ];
    parents = λ q r some_there.
        parents-put q r (c.parents q r (subst (λ cs. 0 < occurs r cs) (children-put q) some_there));
    owns = λ q some_owned. elim (Address-cases q p) [
      | inl same ↦ (o', ground (arith, same))
      | inr other ↦ IsLive-put q (c.owns q (omega (arith, others q other)))
    ];
  }

-- A dead object without children, which no array holds then, can be freed.
module _ (h : Store) (p : Ref) {o : GtuTestObject} (e : h.cell p ≡ some o)
    (childless : children_of o.kind ≡ []) where
  children-free : (q : Ref) → children_at ((put p none h).cell q) ≡ children_at (h.cell q)
  children-free q = elim (Address-cases q p) [
    | inl same ↦ rw same (ground (arith, e, childless))
    | inr other ↦ rw (off_put h p q none other) refl
  ]

  pub free-IsCounted :
      {owned : Ref → ℕ} → IsCounted h owned → o.ref_count ≡ 0 → IsCounted (put p none h) owned
  free-IsCounted {owned} c dead = record {
    no_null = elim (Address-cases null p) [
      | inl same ↦ ground (arith, same)
      | inr other ↦ off_put h p null none other ∙ c.no_null
    ];
    unused = λ q beyond. elim (Address-cases q p) [
      | inl same ↦ ground (arith, same)
      | inr other ↦ off_put h p q none other ∙ c.unused q beyond
    ];
    counts = λ q x l.
        rw (children-free x.parent) (c.counts q x (sym (off_put h p q none (not_freed q x l)) ∙ l));
    fits = λ q x l. c.fits q x (sym (off_put h p q none (not_freed q x l)) ∙ l);
    parents = λ q r some_there.
        let (x, l, f) =
          c.parents q r (subst (λ cs. 0 < occurs r cs) (children-free q) some_there) in
        let some_held : 0 < held h r x =
          rw f (subst (λ cs. 0 < occurs r cs) (children-free q) some_there) in
        (x, off_put h p r none (λ is_p. no_count r x l is_p (inr some_held)) ∙ l, f);
    owns = λ q some_owned.
        let (x, l) = c.owns q some_owned in
        (x, off_put h p q none (λ is_p. no_count q x l is_p (inl some_owned)) ∙ l);
  }
    where
      not_freed : (q : Ref) (x : GtuTestObject) → (put p none h).cell q ≡ some x → q ≢ p
      not_freed q x l is_p = ground (arith, l, is_p)

      no_count :
          (q : Ref) (x : GtuTestObject)
          → h.cell q ≡ some x
          → q ≡ p
          → (0 < owned q) ⊎ (0 < held h q x)
          → ⊥
      no_count q x l is_p some_ref =
          let f : x ≡ o = ground (arith, is_p, l, e) in
          let n = c.counts q x l in
          elim some_ref [
            | inl a ↦ omega (arith, n, ap GtuTestObject.ref_count f, dead)
            | inr a ↦ omega (arith, n, ap GtuTestObject.ref_count f, dead)
          ]
