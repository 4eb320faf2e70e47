-- ===== src/Object/Collect/Tree.antt =====
-- The tree of suites and cases that a store holds below an object, and the cases that
-- _gtu_test_object_collect_tests finds (src/test-suite/test-suite.c).
use giitestutils.Base.{
  Bool, ℕ, zero, suc, ◌<◌, ◌≤◌, ◌≡◌, refl, sym, ap, ◌∙◌, subst, List, [], ◌∷◌, ◌++◌, none, some,
  arith, Bytes, append_assoc, append-nil,
}
use giitestutils.Base.Exec.{returned, pure}
use giitestutils.Base.Exec.Steps.{bind-returned}
use giitestutils.TestCase.{GtuTestCase}
use giitestutils.TestSuite.{TestObject, Children, none_left, child, collect_tests}
use giitestutils.TestSuite
use giitestutils.TestSuite.Tree.{leaves, leaves_below, collect-leaves}
use giitestutils.Object.{
  NameKey, Ref, GtuTestCasePrivate, at_path, Kind, test_case, test_suite, GtuTestObject, Store,
  on_object,
}
use giitestutils.Object.Counts.{children_of, children_at, occurs, IsLive, IsCounted}
use giitestutils.Object.Later.{Bounded}
use giitestutils.Object.Depth.{Bounded-le, All-get}
use giitestutils.Object.Ancestry.{Names, root, inside}
use giitestutils.Object.Valid.{IsValid}
use giitestutils.Object.Collect.{collect_each, object_collect_tests}

-- The case at an address, with the path of its names.
pub record IsCaseAt (h : Store) (p : Ref) (self : GtuTestCase) : Type 0 where
  pub object : GtuTestObject
  pub priv : GtuTestCasePrivate
  pub names : List Bytes
  pub at : h.cell p ≡ some object
  pub is_case : object.kind ≡ test_case priv
  pub named : Names h p names
  pub same : self ≡ at_path (record { elements = names; cached_string = none }) priv

-- The cases at some addresses, in their order.
abbrev pub CasesAt : Store → List Ref → List GtuTestCase → Type 0
CasesAt h [] [] = Unit
CasesAt h (p ∷ ps) (c ∷ cs) = IsCaseAt h p c × CasesAt h ps cs
CasesAt h _ _ = ⊥

-- The tree of an object: an array of children is in the order of their addition.
mutual
  pub data Spells (h : Store) : Ref → TestObject → Type 0 where
    a_case :
        {p : Ref} {self : GtuTestCase} → IsCaseAt h p self → Spells h p (TestSuite.test_case self)
    a_suite :
        {p : Ref} (o : GtuTestObject) (cs : List Ref) (ns : List NameKey) {children : Children}
        → h.cell p ≡ some o
        → o.kind ≡ test_suite cs ns
        → SpellsAll h cs children
        → Spells h p (TestSuite.test_suite children)

  pub data SpellsAll (h : Store) : List Ref → Children → Type 0 where
    none_spelt : {ps : List Ref} → ps ≡ [] → SpellsAll h ps none_left
    spelt :
        {ps : List Ref} (p : Ref) (rest : List Ref) {t : TestObject} {ts : Children}
        → ps ≡ p ∷ rest
        → Spells h p t
        → SpellsAll h rest ts
        → SpellsAll h ps (child t ts)

CasesAt-append :
    (h : Store) (ps qs : List Ref) (cs ds : List GtuTestCase)
    → CasesAt h ps cs
    → CasesAt h qs ds
    → CasesAt h (ps ++ qs) (cs ++ ds)
CasesAt-append h [] qs [] ds a b = b
CasesAt-append h [] qs (c ∷ cs) ds a b = absurd a
CasesAt-append h (p ∷ ps) qs [] ds a b = absurd a
CasesAt-append h (p ∷ ps) qs (c ∷ cs) ds a b = (a.0, CasesAt-append h ps qs cs ds a.1 b)

-- What is found below an object, or below the objects of an array.
record Collects (h : Store) (n : ℕ) (p : Ref) : Type 0 where
  tree : TestObject
  refs : List Ref
  spells : Spells h p tree
  run : (tests : List Ref) → object_collect_tests n p tests h ≡ (returned (tests ++ refs), h)
  cases : CasesAt h refs (leaves tree)

record CollectsAll (h : Store) (n : ℕ) (ps : List Ref) : Type 0 where
  trees : Children
  refs : List Ref
  spells : SpellsAll h ps trees
  run :
      (tests : List Ref)
      → collect_each (object_collect_tests n) ps tests h ≡ (returned (tests ++ refs), h)
  cases : CasesAt h refs (leaves_below trees)

Names-IsLive : {h : Store} {p : Ref} {xs : List Bytes} → Names h p xs → IsLive h p
Names-IsLive (root o l top e) = (o, l)
Names-IsLive (inside o front l n above e) = (o, l)

module _ (h : Store) where
  each-Collects :
      (n : ℕ) (ps : List Ref) → ((p : Ref) → 0 < occurs p ps → Collects h n p) → CollectsAll h n ps
  unfolding collect_each leaves leaves_below pure
  each-Collects n [] all = record {
    trees = none_left;
    refs = [];
    spells = none_spelt refl;
    run = λ tests. ap (λ ts. (returned ts, h)) (sym (append-nil tests));
    cases = tt;
  }
  each-Collects n (p ∷ ps) all =
      let first = all p (ground arith) in
      let rest = each-Collects n ps (λ q there. all q (omega (arith, there))) in
      record {
        trees = child first.tree rest.trees;
        refs = first.refs ++ rest.refs;
        spells = spelt p ps refl first.spells rest.spells;
        run = λ tests.
            bind-returned _ _ h (tests ++ first.refs) h (first.run tests)
            ∙ rest.run (tests ++ first.refs)
            ∙ ap (λ ts. (returned ts, h)) (append_assoc tests first.refs rest.refs);
        cases =
            CasesAt-append h first.refs rest.refs (leaves first.tree) (leaves_below rest.trees)
              first.cases rest.cases;
      }

  kind-Collects :
      (n : ℕ) (p : Ref) (xs : List Bytes) (o : GtuTestObject) (k : Kind)
      → h.cell p ≡ some o
      → o.kind ≡ k
      → Names h p xs
      → ((q : Ref) → 0 < occurs q (children_of k) → Collects h n q)
      → Collects h (suc n) p
  unfolding object_collect_tests leaves pure
  kind-Collects n p xs o (test_case priv) l e names below = record {
    tree = TestSuite.test_case (at_path (record { elements = xs; cached_string = none }) priv);
    refs = p ∷ [];
    spells = a_case (the_case refl);
    run = λ tests. rw (l, on_object, e) refl;
    cases = (the_case refl, tt);
  }
    where
      the_case :
          {self : GtuTestCase}
          → self ≡ at_path (record { elements = xs; cached_string = none }) priv
          → IsCaseAt h p self
      the_case same = record {
        object = o;
        priv = priv;
        names = xs;
        at = l;
        is_case = e;
        named = names;
        same = same;
      }
  kind-Collects n p xs o (test_suite cs ns) l e names below =
      let all = each-Collects n cs below in
      record {
        tree = TestSuite.test_suite all.trees;
        refs = all.refs;
        spells = a_suite o cs ns l e all.spells;
        run = λ tests. rw (l, on_object, e) (all.run tests);
        cases = all.cases;
      }

  object-Collects :
      {owned : Ref → ℕ}
      → IsCounted h owned
      → (n : ℕ) (p : Ref) (xs : List Bytes) → Bounded h n p
      → Names h p xs
      → Collects h n p
  object-Collects c zero p xs b names = absurd b
  object-Collects c (suc n) p xs (o, l, below) names =
      kind-Collects n p xs o o.kind l refl names (λ q there.
        let (x, lx, f) = c.parents p q (subst (λ k. 0 < occurs q (children_at k)) (sym l) there) in
        object-Collects c n q (xs ++ x.name ∷ [])
          (All-get (λ d. Bounded h n d) (children_of o.kind) q below there)
          (inside x xs lx (λ e. ground (arith, sym f ∙ e, c.no_null, l))
            (subst (λ r. Names h r xs) (sym f) names) refl))

  -- In a valid store, with fuel for its depth, _gtu_test_object_collect_tests of an object whose
  -- ancestors are live changes nothing and returns the cases of the tree that the store holds below
  -- the object, each with the path of its names: those that the function finds in that tree, in the
  -- same order.
  pub object_collect_tests-tree :
      (isspace : ℕ → Bool) (owned : Ref → ℕ) (v : IsValid isspace h owned) (p : Ref)
      (xs : List Bytes) (n : ℕ)
      → Names h p xs
      → v.forest.depth ≤ n
      → (tree : TestObject) × Spells h p tree
        × ((refs : List Ref) × (object_collect_tests n p [] h ≡ (returned refs, h))
            × CasesAt h refs (collect_tests tree []))
  object_collect_tests-tree isspace owned v p xs n names enough =
      let found =
        object-Collects v.forest.counted n p xs
          (Bounded-le h v.forest.depth n p enough (v.forest.bounded p (Names-IsLive names)))
          names in
      (
        found.tree,
        found.spells,
        (
          found.refs,
          found.run [],
          subst (CasesAt h found.refs) (sym (collect-leaves found.tree [])) found.cases,
        ),
      )
