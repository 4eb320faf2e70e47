-- ===== src/Tests/Data.antt =====
-- The inputs of the tests: a run with --keep-going, and the objects of a small test program.
use giitestutils.Base.{
  ℕ, Bool, true, false, ◌||◌, List, [], ◌∷◌, none, some, ◌==◌, codes, refl, inl,
}
use giitestutils.TestPath.{GtuPath, GtuTestMode}
use giitestutils.Log.Level.{Level, level_flags}
use giitestutils.Log.Level.Flags.{GTest, IsConsistent}
use giitestutils.Log.Tap.{initial}
use giitestutils.Log.Message.{GtuLogGMessage}
use giitestutils.Process.{Env, World, verbosity_handler, null, invalid}
use giitestutils.TestCase.{GtuTestCase}
use giitestutils.TestCase.Exec.{Body, Location, ends, asserts_fail, skips}
use giitestutils.TestCase.Complex.{Subunit}
use giitestutils.TestSuite.{Children, test_case, test_suite, none_left, child}

-- g_ascii_isspace
abbrev pub isspace : ℕ → Bool
isspace c = c == 32 || c == 9 || c == 10 || c == 12 || c == 13

abbrev pub quick_run : GTest
quick_run = record {
  perf = false;
  slow = false;
  quick = true;
  undefined = true;
  verbose = false;
  quiet = false;
}

pub quick_run-IsConsistent : IsConsistent quick_run
quick_run-IsConsistent = record { slow_or_quick = refl; verbose_or_quiet = inl refl }

abbrev pub path_a : GtuPath
path_a = record { elements = codes "a" ∷ []; cached_string = none }

abbrev pub path_b : GtuPath
path_b = record { elements = codes "a" ∷ codes "b" ∷ []; cached_string = none }

abbrev pub all_tests : GtuTestMode
all_tests = record { path_selectors = []; path_skippers = []; list_only = false }

abbrev pub env : Env
env = record {
  has_initialized = true;
  g_test = quick_run;
  supports_color = false;
  keep_going = true;
  fatal_asserts = false;
  test_mode = all_tests;
  isspace = isspace;
  glib_aborts = λ m. false;
  check_message = λ function. function;
}

abbrev pub world : World
world = record {
  log = initial;
  hooks = record { func = verbosity_handler; target = null } ∷ [];
  tr_context = none;
  expected_msgs = none;
  has_run = false;
}

abbrev pub place : Location
place = record { file = codes "test.c"; line = codes "7"; function = codes "main" }

abbrev pub a_case : GtuPath → Body → GtuTestCase
a_case path func = record {
  path = path;
  subunits = none;
  func = some func;
  func_target_destroy = true;
  expected_msgs = some [];
  result = invalid;
  has_disposed = false;
  freed = 0;
}

abbrev pub subunits : List Subunit
subunits =
    record { nick = codes "x"; test_impl = ends }
    ∷ record { nick = codes "y"; test_impl = asserts_fail place none }
    ∷ record { nick = codes "z"; test_impl = ends }
    ∷ []

abbrev pub complex_case : GtuTestCase
complex_case = record (a_case path_b ends) { subunits = some subunits; func = none }

-- A suite of a case that passes, and of a suite of one that fails and one that skips.
abbrev pub simple_suite : Children
simple_suite = child (test_case (a_case path_a ends)) (
    child
      (test_suite (
        child (test_case (a_case path_b (asserts_fail place none)))
          (child (test_case (a_case path_a (skips none (some (codes "later"))))) none_left)))
      none_left)

abbrev pub mixed_suite : Children
mixed_suite = child (test_case (a_case path_a ends)) (child (test_case complex_case) none_left)

abbrev pub warning : GtuLogGMessage
warning = record {
  domain = some (codes "App");
  flags = level_flags Level.warning;
  body = codes "low";
}
