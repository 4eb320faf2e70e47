-- ===== src/TestSuite/Accounting.antt =====
-- The plan, the result lines and the exit status of gtu_test_suite_run of src/test-suite.
use Prim.Native.Nat.{◌%◌, ◌^◌}
use giitestutils.Base.{
  ℕ, ◌<◌, ◌≡◌, refl, ◌∙◌, subst, true, false, not, List, [], ◌++◌, arith, length, All, ltb, ◌==◌,
  Bool-cases, inl, inr,
}
use giitestutils.Base.Exec.Ensures.{
  Ensures, Ensures-pure, Ensures-bind, Ensures-modify, Ensures-if, Ensures-weaken, Ensures-gets,
}
use giitestutils.Log.Tap.{gtu_log_test_plan, log_test_plan, plan}
use giitestutils.Process.{Env, World, GtuTestResult, on_log}
use giitestutils.Process.Verdicts.{Shows-print, verdicts}
use giitestutils.TestCase.{GtuTestCase}
use giitestutils.TestCase.Complex.Overall.{any_fail}
use giitestutils.TestCase.Complex.Verdicts.{Sees}
use giitestutils.TestSuite.{
  Children, collect_children, count_tests, gtu_test_suite_run_internal, gtu_test_suite_run,
}
use giitestutils.TestSuite.Plan.{
  SuiteLines, IsDue, total, suite_lines-total, suite_lines-failed, count_tests-total,
}
use giitestutils.TestSuite.Verdicts.{run_tests-Ensures}

-- The cases of a suite, in the order of the run.
abbrev pub cases : Children → List GtuTestCase
cases children = collect_children children []

-- A run of `tests`, begun behind the verdicts `vs`, has returned `n`: the log shows the lines that were promised of the cases.
pub record SuiteRan (env : Env) (vs : List GtuTestResult) (tests : List GtuTestCase) (n : ℕ)
    (w : World) : Type 0 where
  pub new : List GtuTestResult
  pub lines : SuiteLines env tests new n
  pub shown : verdicts w.log.out ≡ vs ++ new
  pub announced : w.log.expected_tests ≡ total tests % 2 ^ 32

module _ (env : Env) where
  test_plan-Ensures :
      (n e : ℕ) (vs : List GtuTestResult) (w : World)
      → w.log.plan_entered ≡ false
      → Sees vs e w
      → Ensures Unit (on_log (gtu_log_test_plan n)) w (λ u w'. Sees vs n w')
  unfolding on_log gtu_log_test_plan log_test_plan
  test_plan-Ensures n e vs w fresh s = elim (Bool-cases (n == 0)) [
    | inl empty ↦ record { holds = rw (fresh, empty) tt }
    | inr some_tests ↦ record {
      holds =
          rw (fresh, some_tests)
            (record { shown = (Shows-print (plan n) vs e w.log refl s).shown; announced = refl });
    }
  ]

  run_internal-Ensures :
      (tests : List GtuTestCase) (vs : List GtuTestResult) (w : World)
      → verdicts w.log.out ≡ vs
      → w.log.plan_entered ≡ false
      → Ensures Unit
          (gtu_test_suite_run_internal env tests)
          w
          (λ ran w'. SuiteRan env vs tests ran.0 w')
  unfolding gtu_test_suite_run_internal
  run_internal-Ensures tests vs w seen fresh =
      Ensures-bind _ _ w
        (test_plan-Ensures (count_tests tests 0) w.log.expected_tests vs w fresh
          (record { shown = seen; announced = refl }))
        λ u w1 s1.
          Ensures-weaken _ w1 (run_tests-Ensures env (count_tests tests 0) tests 0 vs w1 s1)
            (λ ran w2 a. record {
              new = a.new;
              lines = subst (SuiteLines env tests a.new) (omega (arith, a.counted)) a.as_promised;
              shown = a.seen.shown;
              announced = a.seen.announced ∙ count_tests-total tests 0 (omega arith) ∙ omega arith;
            })

  -- Once per process, and whatever the tests do: when gtu_test_suite_run returns, it has printed of
  -- each case, in the order of the tree, the verdicts that `CaseLines` promises; it returns the number
  -- of the cases whose own verdict is a failure; and the plan has announced the 32-bit sum of the
  -- planned lines. Conditions: gtu_init has run, no plan has been entered, and no suite has run.
  pub suite_run-SuiteRan :
      (children : Children) (w : World)
      → env.has_initialized ≡ true
      → w.has_run ≡ false
      → w.log.plan_entered ≡ false
      → Ensures Unit
          (gtu_test_suite_run env children)
          w
          (λ n w'. SuiteRan env (verdicts w.log.out) (cases children) n w' × (w'.has_run ≡ true))
  unfolding gtu_test_suite_run
  suite_run-SuiteRan children w init first fresh =
      Ensures-if (not env.has_initialized) _ _ w (λ before. absurd (ground (arith, init, before)))
        (λ _.
          Ensures-bind
            {R = λ has_run w'.
              (has_run ≡ false)
              × (w'.log.plan_entered ≡ false)
              × (verdicts w'.log.out ≡ verdicts w.log.out)}
            _ _ w (Ensures-gets _ w (first, fresh, refl))
            (λ has_run w1 same.
              Ensures-if has_run _ _ w1 (λ again. absurd (ground (arith, same.0)))
                (λ once.
                  Ensures-bind _ _ w1
                    (run_internal-Ensures (cases children) (verdicts w.log.out) w1 same.2 same.1)
                    λ ran w2 r.
                      Ensures-bind
                        {R = λ u w'.
                          SuiteRan env (verdicts w.log.out) (cases children) ran.0 w'
                          × (w'.has_run ≡ true)}
                        _ _ w2 (Ensures-modify _ w2 (kept r, refl))
                        (λ u w3 t. Ensures-pure _ w3 t))))
    where
      kept :
          {n : ℕ} {w' : World}
          → SuiteRan env (verdicts w.log.out) (cases children) n w'
          → SuiteRan env (verdicts w.log.out) (cases children) n (record w' { has_run = true })
      kept r = record { new = r.new; lines = r.lines; shown = r.shown; announced = r.announced }

  -- When every case below the suite is due (it has not run, the run is not a listing, and a complex
  -- case is not deselected by the command line) and their lines are fewer than 2^32, the run prints
  -- exactly as many result lines as its plan announced, if it returns; and what it returns is 0
  -- exactly when none of these lines is a failure.
  pub suite_run-plan :
      (children : Children) (w : World)
      → env.has_initialized ≡ true
      → w.has_run ≡ false
      → w.log.plan_entered ≡ false
      → All (IsDue env) (cases children)
      → total (cases children) < 2 ^ 32
      → Ensures Unit (gtu_test_suite_run env children) w (λ n w'.
        (new : List GtuTestResult) × (verdicts w'.log.out ≡ verdicts w.log.out ++ new)
        × (length new ≡ w'.log.expected_tests)
        × (ltb 0 n ≡ any_fail new))
  suite_run-plan children w init first fresh due small =
      Ensures-weaken _ w (suite_run-SuiteRan children w init first fresh) (λ n w' r. (
        r.0.new,
        r.0.shown,
        omega (arith, suite_lines-total env due r.0.lines, r.0.announced, small),
        suite_lines-failed env r.0.lines,
      ))
