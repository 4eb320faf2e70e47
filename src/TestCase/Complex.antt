-- ===== src/TestCase/Complex.antt =====
-- src/test-case/complex.c: a test case whose subunits are the values of an enumeration.
pub mod Overall
pub mod Restores
pub mod Verdicts
use giitestutils.Base.{
  ℕ, suc, ◌+◌, Bool, true, false, List, [], ◌∷◌, ◌++◌, Option, none, some, ◌==◌, length,
  if◌then◌else◌, Bytes, codes,
}
use giitestutils.Base.Exec.{
  Exec, Outcome, returned, aborted, undefined, pure, stop, modify, on_checked, ◌>>=◌, ◌>>◌,
}
use giitestutils.TestPath.{
  GtuPath, gtu_path_copy, gtu_path_append_element, gtu_path_to_string, gtu_path_should_run,
}
use giitestutils.Log.Level.{Level, level_flags}
use giitestutils.Log.Level.Flags.{gtu_test_mode_flags_get_flags, has, flag_verbose}
use giitestutils.Log.Tap.{Log, gtu_log_test_success, gtu_log_test_skipped, gtu_log_test_failed}
use giitestutils.Process.{
  Env, World, GtuTestResult, invalid, pass, skip, fail, or_abort, gtu_log_domain, Signal, goes_on,
  preempted, g_log, failed_check,
}
use giitestutils.TestCase.Exec.{Body, gtu_test_case_exec_inner}

-- A value of the enumeration: its nick, and test_impl at this value.
pub record Subunit : Type 0 where
  pub nick : Bytes
  pub test_impl : Body

abbrev pub change_log : (Log → Log) → Exec World (Unit {0})
change_log f = modify (λ w. record w { log = f w.log })

abbrev pub no_jump : Signal → Exec World (Unit {0})
no_jump goes_on = pure tt
no_jump preempted = stop undefined

-- A message of the library outside a test: there is nothing to jump back to.
unfoldable pub library_message : Env → Level → Bytes → Exec World (Unit {0})
unfolding g_log
library_message env level body =
    g_log env (record { domain = some gtu_log_domain; flags = level_flags level; body = body })
    >>= λ signal. no_jump signal

module _ (env : Env) where
  unfoldable pub path_string : GtuPath → Exec World (Option Bytes)
  unfolding failed_check gtu_path_to_string
  path_string path =
      on_checked (gtu_path_to_string path) (λ r. pure r.0)
        (λ r. failed_check env (codes "gtu_path_to_string") >> pure r.0)

  unfoldable pub subunit_path : GtuPath → Bytes → Exec World GtuPath
  unfolding failed_check gtu_path_append_element gtu_path_copy
  subunit_path our_path nick =
      on_checked (gtu_path_append_element env.isspace (gtu_path_copy our_path) (some nick)) pure
        (λ p. failed_check env (codes "gtu_path_append_element") >> pure p)

  unfoldable pub note_selection : GtuPath → Exec World (Unit {0})
  unfolding library_message
  note_selection temp_path =
      if gtu_path_should_run env.test_mode temp_path
      then pure tt
      else library_message env Level.message
          (codes "Ignoring skip arguments: cannot skip individual subunits of a complex test case")

  -- The switch in the loop: what is logged of a subunit, and the number of skipped ones.
  unfoldable pub log_subunit : GtuTestResult → Option Bytes → Option Bytes → ℕ → Exec World ℕ
  log_subunit pass path message n_skipped =
      change_log (gtu_log_test_success path message) >> pure n_skipped
  log_subunit skip path message n_skipped =
      change_log (gtu_log_test_skipped path message) >> pure (n_skipped + 1)
  log_subunit fail path message n_skipped =
      change_log (
        gtu_log_test_failed path
          (elim message [ none ↦ some (codes "Previous subunit failed") | some m ↦ some m ]))
      >> pure n_skipped
  log_subunit invalid path message n_skipped = stop aborted

  -- A subunit is not run once one has failed.
  unfoldable pub run_subunit : GtuTestResult → Body → Exec World (GtuTestResult × Option Bytes)
  unfolding gtu_test_case_exec_inner
  run_subunit fail test_impl = pure (fail, none)
  run_subunit result test_impl = gtu_test_case_exec_inner env test_impl

  -- The loop of _gtu_complex_case_run, with `result` and `n_skipped` so far.
  unfoldable pub run_subunits :
      GtuPath → List Subunit → GtuTestResult → ℕ → Exec World (GtuTestResult × ℕ)
  unfolding path_string subunit_path log_subunit run_subunit note_selection
  run_subunits our_path [] result n_skipped = pure (result, n_skipped)
  run_subunits our_path (u ∷ us) result n_skipped = do
    temp_path ← subunit_path our_path u.nick
    note_selection temp_path
    ran ← run_subunit result u.test_impl
    path ← path_string temp_path
    n ← log_subunit ran.0 path ran.1 n_skipped
    run_subunits our_path us ran.0 n

  -- The end of _gtu_complex_case_run, behind the second switch.
  unfoldable pub all_passed : Exec World (GtuTestResult × Option Bytes)
  unfolding gtu_test_mode_flags_get_flags
  all_passed = do
    flags ← or_abort (gtu_test_mode_flags_get_flags env.has_initialized env.g_test)
    let message =
        if has flags flag_verbose then some (codes "All subunits passed successfully") else none
    pure (pass, message)

  -- The second switch: the result of the case, and its message.
  unfoldable pub complex_result : GtuTestResult → ℕ → ℕ → Exec World (GtuTestResult × Option Bytes)
  unfolding all_passed
  complex_result fail n_skipped n_values = pure (fail, some (codes "Subunits failed"))
  complex_result skip n_skipped n_values =
      if n_skipped == n_values
      then pure (skip, some (codes "All subunits were skipped"))
      else all_passed
  complex_result pass n_skipped n_values = all_passed
  complex_result invalid n_skipped n_values = all_passed

  unfoldable pub gtu_complex_case_run :
      GtuPath → List Subunit → Exec World (GtuTestResult × Option Bytes)
  unfolding run_subunits complex_result
  gtu_complex_case_run our_path subunits = do
    done_all ← run_subunits our_path subunits invalid 0
    complex_result done_all.0 done_all.1 (length subunits)
