-- ===== src/TestSuite.antt =====
-- src/test-suite: the tree of suites and cases, and its run (test-suite.c, run.c).
pub mod Plan
pub mod Accounting
pub mod Returns
pub mod Stream
pub mod Tree
pub mod Verdicts
use Prim.Native.Nat.{◌%◌, ◌^◌}
use giitestutils.Base.{
  ℕ, zero, suc, ◌+◌, Bool, true, false, not, List, [], ◌∷◌, ◌++◌, Option, none, some, length,
  if◌then◌else◌, Bytes, codes,
}
use giitestutils.Base.Exec.{Exec, Outcome, returned, aborted, pure, stop, gets, modify, ◌>>=◌, ◌>>◌}
use giitestutils.TestPath.{gtu_path_should_run}
use giitestutils.Log.Tap.{
  listed, print, gtu_log_test_plan, gtu_log_test_success, gtu_log_test_skipped, gtu_log_test_failed,
}
use giitestutils.Process.{
  Env, World, GtuTestResult, invalid, pass, skip, fail, on_log, failed_check,
}
use giitestutils.TestCase.{GtuTestCase, gtu_test_case_has_run, gtu_test_case_run}
use giitestutils.TestCase.Complex.{change_log, path_string}

-- The objects below a suite.
mutual
  pub data TestObject : Type 0 where
    test_case : GtuTestCase → TestObject
    test_suite : Children → TestObject

  pub data Children : Type 0 where
    none_left : Children
    child : TestObject → Children → Children

-- _gtu_test_object_collect_tests: the cases, appended to `tests` from left to right.
unfoldable mutual
  pub collect_tests : TestObject → List GtuTestCase → List GtuTestCase
  collect_tests (test_case self) tests = tests ++ self ∷ []
  collect_tests (test_suite children) tests = collect_children children tests

  pub collect_children : Children → List GtuTestCase → List GtuTestCase
  collect_children none_left tests = tests
  collect_children (child object rest) tests = collect_children rest (collect_tests object tests)

-- The number of lines that the plan counts for a case.
abbrev pub planned : GtuTestCase → ℕ
planned self = elim self.subunits [ none ↦ 1 | some subunits ↦ length subunits + 1 ]

-- The loop of g_ptr_array_foreach over count_tests, on an unsigned counter.
unfoldable pub count_tests : List GtuTestCase → ℕ → ℕ
count_tests [] n_tests = n_tests
count_tests (self ∷ tests) n_tests = count_tests tests ((n_tests + planned self) % 2 ^ 32)

module _ (env : Env) where
  -- The switch of run_test: the number of failed cases after it.
  unfoldable pub log_case : GtuTestResult → Option Bytes → Option Bytes → ℕ → Exec World ℕ
  log_case pass path message n_failed =
      change_log (gtu_log_test_success path message) >> pure n_failed
  log_case skip path message n_failed =
      change_log (gtu_log_test_skipped path message) >> pure n_failed
  log_case fail path message n_failed =
      change_log (gtu_log_test_failed path message) >> pure (n_failed + 1)
  log_case invalid path message n_failed = stop aborted

  -- What run_test takes for the result, and the case after it.
  unfoldable pub run_selected :
      GtuTestCase → Exec World ((GtuTestResult × Option Bytes) × GtuTestCase)
  unfolding gtu_test_case_run
  run_selected self =
      if gtu_path_should_run env.test_mode self.path
      then gtu_test_case_run env self
      else pure ((skip, some (codes "due to command line args")), self)

  unfoldable pub run_test : GtuTestCase → ℕ → Exec World (ℕ × GtuTestCase)
  unfolding gtu_test_case_has_run log_case run_selected path_string
  run_test self n_failed =
      if gtu_test_case_has_run self
      then pure (n_failed, self)
      else if env.test_mode.list_only
      then (path_string env self.path >>= λ path.
          change_log (print (listed (elim path [ none ↦ codes "(null)" | some p ↦ p ])))
          >> pure (n_failed, self))
      else (do
        ran ← run_selected self
        path ← path_string env self.path
        n ← log_case ran.0.0 path ran.0.1 n_failed
        pure (n, ran.1))

  -- The loop of g_ptr_array_foreach over run_test, and the cases afterwards.
  unfoldable pub run_tests : List GtuTestCase → ℕ → Exec World (ℕ × List GtuTestCase)
  unfolding run_test
  run_tests [] n_failed = pure (n_failed, [])
  run_tests (self ∷ tests) n_failed = do
    first ← run_test self n_failed
    rest ← run_tests tests first.0
    pure (rest.0, first.1 ∷ rest.1)

  unfoldable pub gtu_test_suite_run_internal : List GtuTestCase → Exec World (ℕ × List GtuTestCase)
  unfolding count_tests run_tests on_log
  gtu_test_suite_run_internal tests = do
    on_log (gtu_log_test_plan (count_tests tests 0))
    run_tests tests 0

  -- gtu_test_suite_run, but for its references to the suite.
  unfoldable pub gtu_test_suite_run : Children → Exec World ℕ
  unfolding gtu_test_suite_run_internal collect_children failed_check
  gtu_test_suite_run children = if not env.has_initialized then pure 1 else do
    has_run ← gets (λ w. w.has_run)
    if has_run then (failed_check env (codes "gtu_test_suite_run") >> pure 1) else do
      ran ← gtu_test_suite_run_internal (collect_children children [])
      modify (λ w. record w { has_run = true })
      pure ran.0
