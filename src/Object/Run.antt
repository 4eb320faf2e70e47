-- ===== src/Object/Run.antt =====
-- gtu_test_suite_run of src/test-suite/test-suite.c, with src/test-suite/run.c, on the store of objects:
-- the state of the process and the store side by side. `n` is the fuel of the operations on objects.
use giitestutils.Base.{ℕ, true, not, List, [], ◌∷◌, some, ◌==◌, if◌then◌else◌, codes, value}
use giitestutils.Base.Exec.{Exec, undefined, pure, stop, gets, modify, on_option, ◌>>=◌, ◌>>◌}
use giitestutils.TestPath.{gtu_path_new}
use giitestutils.Log.Tap.{gtu_log_test_plan}
use giitestutils.Process.{Env, World, on_log, failed_check}
use giitestutils.TestCase.{gtu_test_case_has_run}
use giitestutils.TestSuite.{count_tests, run_test}
use giitestutils.Object.{
  Ref, null, GtuTestCasePrivate, at_path, private_part, test_case, test_suite, Store, on_object,
  write, gtu_test_object_sink, gtu_test_object_unref,
}
use giitestutils.Object.Paths.{gtu_test_object_get_path, print_path}
use giitestutils.Object.Collect.{object_collect_tests}

pub record Machine : Type 0 where
  pub world : World
  pub store : Store

abbrev pub on_world {ℓ} : {A : Type ℓ} → Exec World A → Exec Machine A
on_world m s = let (r, w) = m s.world in (r, record s { world = w })

abbrev pub on_store {ℓ} : {A : Type ℓ} → Exec Store A → Exec Machine A
on_store m s = let (r, h) = m s.store in (r, record s { store = h })

-- The private data of the test case at `p`.
abbrev pub case_at : Ref → Exec Store GtuTestCasePrivate
case_at p = on_object p (λ o. elim o.kind [
  | test_case priv ↦ pure priv
  | test_suite children child_names ↦ stop undefined
])

abbrev pub set_private : Ref → GtuTestCasePrivate → Exec Store (Unit {0})
set_private p priv = on_object p (λ o. write p (record o { kind = test_case priv }))

-- The loop over count_tests.
unfoldable pub count_tests_at : List Ref → ℕ → Exec Store ℕ
unfolding on_object count_tests
count_tests_at [] n_tests = pure n_tests
count_tests_at (p ∷ tests) n_tests = case_at p >>= λ priv.
    count_tests_at tests (count_tests (at_path gtu_path_new priv ∷ []) n_tests)

module _ (env : Env) (n : ℕ) where
  -- run_test, on the case at `p` with its path, whose string is printed and kept in each of its ends.
  unfoldable pub run_test_at : Ref → ℕ → Exec Machine ℕ
  unfolding on_object write gtu_test_object_get_path print_path run_test gtu_test_case_has_run
  run_test_at p n_failed = on_store (case_at p) >>= λ priv.
      if gtu_test_case_has_run (at_path gtu_path_new priv)
      then pure n_failed
      else (on_store (gtu_test_object_get_path env.isspace n p) >>= λ got.
          on_option (value got) (stop undefined) (λ path.
            on_store (print_path p (some path))
            >> (on_world (run_test env (at_path path priv) n_failed) >>= λ ran.
                on_store (set_private p (private_part ran.1)) >> pure ran.0)))

  unfoldable pub run_tests_at : List Ref → ℕ → Exec Machine ℕ
  unfolding run_test_at
  run_tests_at [] n_failed = pure n_failed
  run_tests_at (p ∷ tests) n_failed = run_test_at p n_failed >>= run_tests_at tests

  -- The run of a suite: behind the checks.
  unfoldable pub run_suite_at : Ref → Exec Machine ℕ
  unfolding gtu_test_object_sink gtu_test_object_unref object_collect_tests count_tests_at
      run_tests_at on_log
  run_suite_at p =
      on_store (gtu_test_object_sink p)
      >> (on_store (object_collect_tests n p []) >>= λ tests.
          on_store (count_tests_at tests 0) >>= λ n_tests.
          on_world (on_log (gtu_log_test_plan n_tests))
          >> (run_tests_at tests 0 >>= λ ret.
              on_store (gtu_test_object_unref n p)
              >> on_world (modify (λ w. record w { has_run = true }))
              >> pure ret))

  abbrev refuse_run : Exec Machine ℕ
  refuse_run = on_world (failed_check env (codes "gtu_test_suite_run")) >> pure 1

  unfoldable pub gtu_test_suite_run_at : Ref → Exec Machine ℕ
  unfolding run_suite_at failed_check
  gtu_test_suite_run_at p =
      if not env.has_initialized
      then pure 1
      else (on_world (gets (λ w. w.has_run)) >>= λ has_run.
          if has_run
          then refuse_run
          else if p == null
          then refuse_run
          else (on_store (on_object p (λ o. pure o.kind)) >>= λ kind. elim kind [
            | test_case priv ↦ refuse_run
            | test_suite children child_names ↦ run_suite_at p
          ]))
