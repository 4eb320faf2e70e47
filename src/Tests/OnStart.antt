-- ===== src/Tests/OnStart.antt =====
-- The start of a program, structured messages and the macros, on concrete inputs.
use giitestutils.Base.{
  List, ℕ, ◌≡◌, refl, Bool, true, false, [], ◌∷◌, ◌++◌, none, some, done, critical, codes,
}
use giitestutils.Base.Exec.Ensures.{Ensures}
use giitestutils.Log.Level.{Level, level_flags}
use giitestutils.Log.Level.Flags.{gtu_test_mode_flags_get_flags}
use giitestutils.Log.Suppress.{
  SuppressInfo, nothing, gtu_log_g_install_suppress_func, gtu_log_g_uninstall_suppress_func,
}
use giitestutils.Base.Exec.{aborted, on_checked, ◌>>=◌}
use giitestutils.Process.Policy.LogHook.{both}
use giitestutils.Process.{World, pass, null, skip, fail}
use giitestutils.Process.Structured.{GLogField, structured_handler}
use giitestutils.TestCase.Exec.{ends, assertion_text}
use giitestutils.TestCase.Exec.Macros.{
  gtu_assert, gtu_skip_if_not_thorough, gtu_skip_if_not_perf, gtu_skip_if_not_undefined, RunsOr,
  macros-RunsOr,
}
use giitestutils.CommandLine.Added.{Added}
use giitestutils.Startup.{Surroundings}
use giitestutils.Tests.Data.{isspace, env, world, place, quick_run, quick_run-IsConsistent}

abbrev fields : List GLogField
fields =
    record { key = codes "PRIORITY"; value = some (codes "5") }
    ∷ record { key = codes "MESSAGE"; value = some (codes "hello") }
    ∷ record { key = codes "GLIB_DOMAIN"; value = some (codes "App") }
    ∷ record { key = codes "BLOB"; value = none }
    ∷ []

quick_flags : gtu_test_mode_flags_get_flags true quick_run ≡ some 12
unfolding gtu_test_mode_flags_get_flags
quick_flags = refl

macros-RunsOr_example :
    RunsOr env world
      (gtu_assert place false (codes "x == 1") ends)
      false
      ends
      fail
      (assertion_text place (some (codes "assertion failed: " ++ codes "x == 1")))
    × RunsOr env world
        (gtu_skip_if_not_thorough place 12 ends)
        false
        ends
        skip
        (codes "Thorough tests disabled")
    × RunsOr env world
        (gtu_skip_if_not_perf place 12 ends)
        false
        ends
        skip
        (codes "Performance tests disabled")
    × RunsOr env world
        (gtu_skip_if_not_undefined place 12 ends)
        true
        ends
        skip
        (codes "Tests invoking undefined behaviour are disabled")
macros-RunsOr_example =
    macros-RunsOr env refl world place false (codes "x == 1") ends refl refl quick_run-IsConsistent
      12 quick_flags

abbrev surroundings : Surroundings
surroundings = record {
  isspace = isspace;
  g_debug = level_flags Level.critical;
  gtu_debug_fatal_asserts = false;
  unwinds = true;
  check_text = codes "gtu_init: assertion 'args != NULL' failed";
}

-- A function that is installed is the one that messages are given to until it is uninstalled; a second
-- one is refused.
abbrev installed : SuppressInfo Bool ℕ
installed = record { func = some true; user_data = some 7 }

second_refused : gtu_log_g_install_suppress_func (some false) none installed ≡ critical installed
unfolding gtu_log_g_install_suppress_func
second_refused = refl

uninstalled : gtu_log_g_uninstall_suppress_func (λ a b. true) (some true) installed ≡ done nothing
unfolding gtu_log_g_uninstall_suppress_func
uninstalled = refl

-- An unexpected structured warning in a running test, from a stack without g_logv.
abbrev running : World
running = record world {
  hooks = both null;
  expected_msgs = some [];
  tr_context = some (record { message = none; result = pass });
}

structured_in_test :
    (structured_handler env
      (λ text. text)
      false
      (level_flags Level.error)
      (level_flags Level.warning)
      fields
      running).0
    ≡ aborted
unfolding structured_handler on_checked ◌>>=◌
structured_in_test = refl
