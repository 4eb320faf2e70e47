-- ===== src/TestCase.antt =====
-- src/test-case: a test case and its run (test-case.c, run-setjmp.c, run-init.c, complex.c).
pub mod Exec
pub mod Complex
pub mod Restores
pub mod Returns
pub mod Stream
pub mod Verdicts
use giitestutils.Base.{
  ℕ, suc, Bool, true, false, not, List, [], ◌∷◌, ◌++◌, Option, none, some, if◌then◌else◌, Bytes,
  codes,
}
use giitestutils.Base.Exec.{
  Outcome, returned, aborted, undefined, pure, stop, gets, modify, on_option, ◌>>=◌, ◌>>◌,
}
use giitestutils.Base.Exec as Action
use giitestutils.TestPath.{GtuPath}
use giitestutils.Log.Level.{Level}
use giitestutils.Log.Color.{GtuLogColor, disable, bold_fg, gtu_log_lookup_color}
use giitestutils.Log.Hooks.{gtu_log_hooks_push, gtu_log_hooks_pop}
use giitestutils.Process.{
  Env, World, GtuTestResult, invalid, log_hook, running_case, same_func, or_abort,
}
use giitestutils.Process.Expect.{GtuExpectedMessage}
use Exec.{Body, gtu_test_case_exec_inner}
use Complex.{Subunit, library_message, path_string, gtu_complex_case_run}

-- GtuTestCasePrivate and what a run needs of its object. `subunits` is there for a GtuComplexCase.
-- `func` and `expected_msgs` are NULL once the case is disposed of; `freed` counts the calls of
-- func_target_destroy.
pub record GtuTestCase : Type 0 where
  pub path : GtuPath
  pub subunits : Option (List Subunit)
  pub func : Option Body
  pub func_target_destroy : Bool
  pub expected_msgs : Option (List GtuExpectedMessage)
  pub result : GtuTestResult
  pub has_disposed : Bool
  pub freed : ℕ

unfoldable pub gtu_test_case_dispose : GtuTestCase → GtuTestCase
gtu_test_case_dispose self = if self.has_disposed then self else record self {
  func = none;
  freed = if self.func_target_destroy then suc self.freed else self.freed;
  func_target_destroy = false;
  expected_msgs = none;
  has_disposed = true;
}

unfoldable pub gtu_test_case_has_run : GtuTestCase → Bool
gtu_test_case_has_run self = elim self.result [ invalid ↦ false | _ ↦ true ]

module _ (env : Env) where
  -- g_info ("%s>>> %s%s", ...), and the same with "<<< ".
  unfoldable pub announce : Bytes → Bytes → Action.Exec World (Unit {0})
  unfolding gtu_log_lookup_color library_message
  announce arrows path = do
    begin ← or_abort (gtu_log_lookup_color env.supports_color (record disable { bold = true }))
    end ← or_abort (gtu_log_lookup_color env.supports_color disable)
    library_message env Level.info (begin ++ arrows ++ path ++ end)

  -- The call of the test's function, or of the complex case's loop.
  unfoldable pub run_func : GtuTestCase → Action.Exec World (GtuTestResult × Option Bytes)
  unfolding gtu_test_case_exec_inner gtu_complex_case_run
  run_func self =
      on_option self.subunits
        (on_option self.func (stop aborted) (λ func. gtu_test_case_exec_inner env func))
        (λ subunits. gtu_complex_case_run env self.path subunits)

  unfoldable pub pop_log_hook : Action.Exec World (Unit {0})
  unfolding gtu_log_hooks_pop
  pop_log_hook = do
    hooks ← gets (λ w. w.hooks)
    on_option (gtu_log_hooks_pop same_func log_hook hooks) (stop aborted)
        (λ rest. modify (λ w. record w { hooks = rest }))

  abbrev pub push_log_hook : Action.Exec World (Unit {0})
  push_log_hook =
      modify (λ w. record w { hooks = gtu_log_hooks_push log_hook running_case w.hooks })

  -- The run of a case that has not run: its result and message, and the case afterwards.
  unfoldable pub first_run :
      GtuTestCase → Action.Exec World ((GtuTestResult × Option Bytes) × GtuTestCase)
  unfolding announce run_func gtu_test_case_dispose path_string gtu_log_hooks_push pop_log_hook
  first_run self = do
    path ← path_string env self.path
    modify (λ w. record w { expected_msgs = self.expected_msgs })
    push_log_hook
    announce (codes ">>> ") (elim path [ none ↦ codes "(null)" | some p ↦ p ])
    ran ← run_func self
    announce (codes "<<< ") (elim path [ none ↦ codes "(null)" | some p ↦ p ])
    pop_log_hook
    modify (λ w. record w { expected_msgs = none })
    pure (ran, gtu_test_case_dispose (record self { result = ran.0 }))

  unfoldable pub gtu_test_case_run :
      GtuTestCase → Action.Exec World ((GtuTestResult × Option Bytes) × GtuTestCase)
  unfolding first_run gtu_test_case_has_run
  gtu_test_case_run self =
      if gtu_test_case_has_run self
      then (path_string env self.path >> pure ((self.result, none), self))
      else first_run self
