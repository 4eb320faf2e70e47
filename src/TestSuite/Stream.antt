-- ===== src/TestSuite/Stream.antt =====
-- The run of a suite prints a TAP stream.
use giitestutils.Base.{ℕ, true, false, Option, List, [], ◌∷◌, Bytes}
use giitestutils.Base.Exec.Keeps.{
  Keeps, Keeps-pure, Keeps-stop, Keeps-gets, Keeps-if, Keeps-modify, Keeps-bind,
}
use giitestutils.Log.Tap.{Log, gtu_log_test_plan}
use giitestutils.Log.Tap.Counts.{
  IsTap, after-IsTap, diagnose, bail, list_path, log_test_plan-IsTap, log_test_result-IsTap,
}
use giitestutils.Process.{Env, World, GtuTestResult, invalid, pass, skip, fail}
use giitestutils.Process.Stream.{
  LogInvariant, OnLog, OnLog-WorldInvariant, Keeps-on_log, Keeps-failed_check,
}
use giitestutils.TestCase.{GtuTestCase}
use giitestutils.TestCase.Stream.{Keeps-case_run, Keeps-path_string, Keeps-change_log}
use giitestutils.TestSuite.{
  Children, collect_children, log_case, run_selected, run_test, run_tests,
  gtu_test_suite_run_internal, gtu_test_suite_run,
}

module _ {Q : Log → Type 0} (q : LogInvariant Q) (env : Env) where
  Keeps-log_case :
      (r : GtuTestResult) (path message : Option Bytes) (n : ℕ)
      → Keeps (OnLog Q) (log_case env r path message n)
  unfolding log_case
  Keeps-log_case pass path message n =
      Keeps-bind _ _ (Keeps-change_log q env _ (q.result _ _ _ _)) (λ u. Keeps-pure _)
  Keeps-log_case skip path message n =
      Keeps-bind _ _ (Keeps-change_log q env _ (q.result _ _ _ _)) (λ u. Keeps-pure _)
  Keeps-log_case fail path message n =
      Keeps-bind _ _ (Keeps-change_log q env _ (q.result _ _ _ _)) (λ u. Keeps-pure _)
  Keeps-log_case invalid path message n = Keeps-stop _

  Keeps-run_selected : (self : GtuTestCase) → Keeps (OnLog Q) (run_selected env self)
  unfolding run_selected
  Keeps-run_selected self = Keeps-if _ _ _ (Keeps-case_run q env self) (Keeps-pure _)

  Keeps-run_test : (self : GtuTestCase) (n : ℕ) → Keeps (OnLog Q) (run_test env self n)
  unfolding run_test
  Keeps-run_test self n = Keeps-if _ _ _ (Keeps-pure _) (
      Keeps-if _ _ _
        (Keeps-bind _ _ (Keeps-path_string (OnLog-WorldInvariant q.messages) env self.path)
          λ path. Keeps-bind _ _ (Keeps-change_log q env _ (q.listing _)) λ u. Keeps-pure _)
        (Keeps-bind _ _ (Keeps-run_selected self) λ ran.
          Keeps-bind _ _ (Keeps-path_string (OnLog-WorldInvariant q.messages) env self.path)
            λ path. Keeps-bind _ _ (Keeps-log_case _ _ _ _) λ m. Keeps-pure _))

  Keeps-run_tests : (tests : List GtuTestCase) (n : ℕ) → Keeps (OnLog Q) (run_tests env tests n)
  unfolding run_tests
  Keeps-run_tests [] n = Keeps-pure _
  Keeps-run_tests (self ∷ tests) n =
      Keeps-bind _ _ (Keeps-run_test self n)
        λ first. Keeps-bind _ _ (Keeps-run_tests tests first.0) λ rest. Keeps-pure _

  Keeps-run_internal :
      (tests : List GtuTestCase) → Keeps (OnLog Q) (gtu_test_suite_run_internal env tests)
  unfolding gtu_test_suite_run_internal gtu_log_test_plan
  Keeps-run_internal tests =
      Keeps-bind _ _ (Keeps-on_log Q _ (q.plan _ false)) (λ u. Keeps-run_tests tests 0)

  pub Keeps-suite_run : (children : Children) → Keeps (OnLog Q) (gtu_test_suite_run env children)
  unfolding gtu_test_suite_run
  Keeps-suite_run children = Keeps-if _ _ _ (Keeps-pure _) (
      Keeps-bind _ _ (Keeps-gets _) λ has_run.
        Keeps-if _ _ _
          (Keeps-bind _ _ (Keeps-failed_check (OnLog-WorldInvariant q.messages) env _)
            (λ s. Keeps-pure _))
          (Keeps-bind _ _ (Keeps-run_internal (collect_children children [])) λ ran.
            Keeps-bind _ _ (Keeps-modify (λ w. record w { has_run = true }) (λ w h. h))
              λ u. Keeps-pure ran.0))

IsTap-LogInvariant : LogInvariant IsTap
IsTap-LogInvariant = record {
  messages = record {
    diagnostic = λ f. record { at = λ log t. after-IsTap (diagnose f) log t };
    bail_out = λ b f. record { at = λ log t. after-IsTap (bail b f) log t };
  };
  plan = λ n d. record { at = λ log t. log_test_plan-IsTap n d log t };
  result = λ s d t u log h. log_test_result-IsTap s d t u log h;
  listing = λ path log t. after-IsTap (list_path path) log t;
}

-- Whatever the tests of a suite do, and however the process ends, the log of gtu_test_suite_run is a
-- TAP stream if it was one before: the results are numbered consecutively (as 32-bit counters) up to
-- the test count, and there is at most one plan, none before log_test_plan has been entered.
pub suite_run-IsTap :
    (env : Env) (children : Children) (w : World)
    → IsTap w.log
    → IsTap (gtu_test_suite_run env children w).1.log
suite_run-IsTap env children w t = (Keeps-suite_run IsTap-LogInvariant env children).at w t
