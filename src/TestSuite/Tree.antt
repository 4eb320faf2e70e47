-- ===== src/TestSuite/Tree.antt =====
-- The cases of a tree of suites, in the order of the run: src/test-suite/test-suite.c.
use Prim.Native.Nat.{◌%◌, ◌^◌}
use giitestutils.Base.{
  ℕ, suc, length, Option, none, some, ◌+◌, ◌≡◌, refl, sym, ap, ◌∙◌, List, [], ◌∷◌, ◌++◌, arith,
  append_assoc, append-nil,
}
use giitestutils.TestCase.{GtuTestCase}
use giitestutils.TestCase.Complex.{Subunit}
use giitestutils.TestSuite.{
  TestObject, Children, test_case, test_suite, none_left, child, collect_tests, collect_children,
  count_tests, planned,
}
use giitestutils.TestSuite.Plan.{total, count_tests-total}

-- The leaves of the tree, from left to right.
unfoldable mutual
  pub leaves : TestObject → List GtuTestCase
  leaves (test_case self) = self ∷ []
  leaves (test_suite children) = leaves_below children

  pub leaves_below : Children → List GtuTestCase
  leaves_below none_left = []
  leaves_below (child object rest) = leaves object ++ leaves_below rest

-- The result lines of a case: one, and one more for each subunit of a complex case.
abbrev pub lines_of : Option (List Subunit) → ℕ
lines_of none = 1
lines_of (some subunits) = suc (length subunits)

planned-lines_of : (self : GtuTestCase) → planned self ≡ lines_of self.subunits
planned-lines_of self = go self.subunits
  where
    go :
        (s : Option (List Subunit))
        → elim s [ none ↦ 1 | some subunits ↦ length subunits + 1 ] ≡ lines_of s
    go none = refl
    go (some subunits) = omega arith

-- The sum of the result lines of the cases below an object.
unfoldable mutual
  pub lines : TestObject → ℕ
  lines (test_case self) = lines_of self.subunits
  lines (test_suite children) = lines_below children

  pub lines_below : Children → ℕ
  lines_below none_left = 0
  lines_below (child object rest) = lines object + lines_below rest

total-append : (xs ys : List GtuTestCase) → total (xs ++ ys) ≡ total xs + total ys
total-append [] ys = omega arith
total-append (x ∷ xs) ys = omega (arith, total-append xs ys)

mutual
  unfolding collect_tests collect_children leaves leaves_below

  pub collect-leaves :
      (object : TestObject) (tests : List GtuTestCase)
      → collect_tests object tests ≡ tests ++ leaves object
  collect-leaves (test_case self) tests = refl
  collect-leaves (test_suite children) tests = collect-leaves_below children tests

  pub collect-leaves_below :
      (children : Children) (tests : List GtuTestCase)
      → collect_children children tests ≡ tests ++ leaves_below children
  collect-leaves_below none_left tests = sym (append-nil tests)
  collect-leaves_below (child object rest) tests =
      collect-leaves_below rest (collect_tests object tests)
      ∙ ap (λ l. l ++ leaves_below rest) (collect-leaves object tests)
      ∙ append_assoc tests (leaves object) (leaves_below rest)

mutual
  unfolding leaves leaves_below lines lines_below

  total-leaves : (object : TestObject) → total (leaves object) ≡ lines object
  total-leaves (test_case self) = omega (arith, planned-lines_of self)
  total-leaves (test_suite children) = total-leaves_below children

  total-leaves_below : (children : Children) → total (leaves_below children) ≡ lines_below children
  total-leaves_below none_left = refl
  total-leaves_below (child object rest) = omega (
    arith,
    total-append (leaves object) (leaves_below rest),
    total-leaves object,
    total-leaves_below rest,
  )

-- The cases that a suite runs are the leaves of its tree from left to right, however the suites are
-- nested, and the plan's counter is the sum over the tree of the lines of its cases (1 for a simple
-- case, one more than its subunits for a complex one), modulo 2^32.
pub collect_tests-leaves :
    (children : Children)
    → (collect_children children [] ≡ leaves_below children)
      × (count_tests (collect_children children []) 0 ≡ lines_below children % 2 ^ 32)
collect_tests-leaves children = (
  collect-leaves_below children [],
  count_tests-total (collect_children children []) 0 (omega arith)
      ∙ ap (λ n. n % 2 ^ 32)
          (omega (arith)
            ∙ ap total (collect-leaves_below children [])
            ∙ total-leaves_below children),
)
