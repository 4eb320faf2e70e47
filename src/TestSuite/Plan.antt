-- ===== src/TestSuite/Plan.antt =====
-- The lines that src/test-suite/run.c promises for the cases of a suite, and its plan.
use Prim.Native.Nat.{◌%◌, ◌^◌}
use giitestutils.Base.{
  ℕ, ◌+◌, ◌<◌, ◌≡◌, ◌≢◌, refl, sym, ◌∙◌, true, false, ◌||◌, List, [], ◌∷◌, ◌++◌, Option, none, some,
  arith, length, length-append, All, if◌then◌else◌, ltb, Option-cases, inl, inr,
}
use giitestutils.TestPath.{gtu_path_should_run}
use giitestutils.Process.{Env, GtuTestResult, skip, fail}
use giitestutils.TestCase.{GtuTestCase, gtu_test_case_has_run}
use giitestutils.TestCase.Complex.{Subunit}
use giitestutils.TestCase.Complex.Overall.{is_fail, any_fail, overall}
use giitestutils.TestCase.Verdicts.{Subresults}
use giitestutils.TestSuite.{planned, count_tests}

abbrev pub failed_case : GtuTestResult → ℕ
failed_case r = if is_fail r then 1 else 0

module _ (env : Env) where
  -- The verdicts that the run prints of a case, and by how many it raises the number of failed
  -- cases: a case that has run, or is only listed, has none; one that the command line deselects is
  -- skipped; any other has those of its subunits and its own.
  pub data CaseLines : GtuTestCase → List GtuTestResult → ℕ → Type 0 where
    already_run : {self : GtuTestCase} → gtu_test_case_has_run self ≡ true → CaseLines self [] 0
    only_listed : {self : GtuTestCase} → env.test_mode.list_only ≡ true → CaseLines self [] 0
    deselected :
        {self : GtuTestCase}
        → gtu_path_should_run env.test_mode self.path ≡ false
        → CaseLines self (skip ∷ []) 0
    ran :
        {self : GtuTestCase} (new : List GtuTestResult) (r : GtuTestResult)
        → gtu_path_should_run env.test_mode self.path ≡ true
        → Subresults self.subunits new r
        → CaseLines self (new ++ r ∷ []) (failed_case r)

  -- The same of a list of cases, in its order.
  pub data SuiteLines : List GtuTestCase → List GtuTestResult → ℕ → Type 0 where
    no_case : SuiteLines [] [] 0
    next_case :
        {self : GtuTestCase} {tests : List GtuTestCase} (vs ws : List GtuTestResult) (n m : ℕ)
        → CaseLines self vs n
        → SuiteLines tests ws m
        → SuiteLines (self ∷ tests) (vs ++ ws) (n + m)

  -- A case that the run is going to print as many lines of as the plan counts.
  pub record IsDue (self : GtuTestCase) : Type 0 where
    pub fresh : gtu_test_case_has_run self ≡ false
    pub runs : env.test_mode.list_only ≡ false
    pub selected : self.subunits ≢ none → gtu_path_should_run env.test_mode self.path ≡ true

abbrev pub total : List GtuTestCase → ℕ
total [] = 0
total (self ∷ tests) = planned self + total tests

any_fail-append : (xs ys : List GtuTestResult) → any_fail (xs ++ ys) ≡ any_fail xs || any_fail ys
any_fail-append [] ys = refl
any_fail-append (x ∷ xs) ys = ground (arith, any_fail-append xs ys)

is_fail-overall : (vs : List GtuTestResult) → is_fail (overall vs) ≡ any_fail vs
is_fail-overall vs = ground arith

Subresults-length :
    (o : Option (List Subunit)) (new : List GtuTestResult) (r : GtuTestResult)
    → Subresults o new r
    → length new + 1 ≡ elim o [ none ↦ 1 | some us ↦ length us + 1 ]
Subresults-length none new r s = rw s refl
Subresults-length (some us) new r s = omega (arith, s.0)

Subresults-failed :
    (o : Option (List Subunit)) (new : List GtuTestResult) (r : GtuTestResult)
    → Subresults o new r
    → any_fail (new ++ r ∷ []) ≡ is_fail r
Subresults-failed none new r s = rw s (ground arith)
Subresults-failed (some us) new r s =
    ground (arith, s.2, any_fail-append new (r ∷ []), is_fail-overall new)

module _ (env : Env) where
  CaseLines-planned :
      {self : GtuTestCase} {vs : List GtuTestResult} {n : ℕ}
      → IsDue env self
      → CaseLines env self vs n
      → length vs ≡ planned self
  CaseLines-planned d (already_run h) = ground (arith, d.fresh)
  CaseLines-planned d (only_listed h) = ground (arith, d.runs)
  CaseLines-planned {self} d (deselected h) = elim (Option-cases self.subunits) [
    | inl simple ↦ rw (simple, planned) refl
    | inr (us, complex) ↦ absurd (ground (arith, d.selected (λ e. ground (arith, e, complex))))
  ]
  CaseLines-planned {self} d (ran new r h s) =
      length-append new (r ∷ []) ∙ Subresults-length self.subunits new r s

  CaseLines-failed :
      {self : GtuTestCase} {vs : List GtuTestResult} {n : ℕ}
      → CaseLines env self vs n
      → ltb 0 n ≡ any_fail vs
  CaseLines-failed (already_run h) = refl
  CaseLines-failed (only_listed h) = refl
  CaseLines-failed (deselected h) = refl
  CaseLines-failed {self} (ran new r h s) = failed r ∙ sym (Subresults-failed self.subunits new r s)
    where
      failed : (r : GtuTestResult) → ltb 0 (failed_case r) ≡ is_fail r
      failed fail = refl
      failed _ = refl

  -- As many lines as the plan counts.
  pub suite_lines-total :
      {tests : List GtuTestCase} {vs : List GtuTestResult} {n : ℕ}
      → All (IsDue env) tests
      → SuiteLines env tests vs n
      → length vs ≡ total tests
  suite_lines-total d no_case = refl
  suite_lines-total d (next_case vs ws n m l ls) =
      omega (arith, length-append vs ws, CaseLines-planned d.0 l, suite_lines-total d.1 ls)

  -- The number of failed cases is zero exactly when no line says `not ok`.
  pub suite_lines-failed :
      {tests : List GtuTestCase} {vs : List GtuTestResult} {n : ℕ}
      → SuiteLines env tests vs n
      → ltb 0 n ≡ any_fail vs
  suite_lines-failed no_case = refl
  suite_lines-failed (next_case vs ws n m l ls) =
      ground (arith, any_fail-append vs ws, CaseLines-failed l, suite_lines-failed ls)

-- The plan's counter, which wraps around.
pub count_tests-total :
    (tests : List GtuTestCase) (n : ℕ)
    → n < 2 ^ 32
    → count_tests tests n ≡ (n + total tests) % 2 ^ 32
unfolding count_tests
count_tests-total [] n h = omega arith
count_tests-total (self ∷ tests) n h =
    count_tests-total tests ((n + planned self) % 2 ^ 32) (omega arith) ∙ omega arith
