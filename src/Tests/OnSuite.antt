-- ===== src/Tests/OnSuite.antt =====
-- Runs of test functions, cases and suites, on concrete ones.
use Prim.Native.Nat.{◌%◌, ◌^◌}
use giitestutils.Base.{
  ◌<◌, ◌≡◌, refl, Bool, true, false, not, ◌&&◌, List, [], ◌∷◌, ◌++◌, none, some, Bytes, codes,
  length, ltb, ◌==◌, All, arith,
}
use giitestutils.Base.Exec.{returned, exited, undefined, pure, on_checked, on_option, ◌>>=◌, ◌>>◌}
use giitestutils.Base.Exec.Ensures.{Ensures}
use giitestutils.TestPath.{gtu_path_is_valid, gtu_path_should_run, gtu_path_element_is_valid}
use giitestutils.Log.Tap.{bail_out, print, gtu_log_test_plan, log_test_result}
use giitestutils.Log.Tap.Counts.{IsTap, IsTap-initial}
use giitestutils.Process.{Env, World, GtuTestResult, pass, fail, null}
use giitestutils.Process.Verdicts.{verdicts}
use giitestutils.TestCase.{gtu_test_case_has_run, gtu_test_case_dispose, gtu_test_case_run}
use giitestutils.TestCase.Exec.{
  ends, asserts_fail, skips, assertion_text, gtu_assertion_message, gtu_test_case_exec_inner,
}
use giitestutils.TestCase.Exec.Percent.{HasConversion, assertion_message-bail_out}
use giitestutils.TestCase.Exec.Verdict.{Returned, exec_inner-Returned}
use giitestutils.TestCase.Complex.{path_string, gtu_complex_case_run}
use giitestutils.TestCase.Complex.Overall.{any_fail}
use giitestutils.TestCase.Complex.Verdicts.{ComplexRan, complex_case_run-overall}
use giitestutils.TestCase.Restores.{CaseDone, case_run-once}
use giitestutils.TestCase.Returns.{IsQuiet, IsSimpleCase, IsIdle}
use giitestutils.TestSuite.{collect_children, count_tests, gtu_test_suite_run}
use giitestutils.TestSuite.Plan.{IsDue, total}
use giitestutils.TestSuite.Tree.{leaves_below, lines_below, collect_tests-leaves}
use giitestutils.TestSuite.Stream.{suite_run-IsTap}
use giitestutils.TestSuite.Accounting.{SuiteRan, cases, suite_run-SuiteRan, suite_run-plan}
use giitestutils.TestSuite.Returns.{predicted_all, count_failed, suite_run-returns}
use giitestutils.Tests.Data.{
  env, world, quick_run-IsConsistent, place, a_case, path_a, path_b, subunits, simple_suite,
  mixed_suite,
}

suite_run-IsTap_example : IsTap (gtu_test_suite_run env mixed_suite world).1.log
suite_run-IsTap_example = suite_run-IsTap env mixed_suite world IsTap-initial

suite_run-SuiteRan_example :
    Ensures Unit
      (gtu_test_suite_run env mixed_suite)
      world
      (λ n w'. SuiteRan env [] (cases mixed_suite) n w' × (w'.has_run ≡ true))
suite_run-SuiteRan_example = suite_run-SuiteRan env mixed_suite world refl refl refl

all-IsDue : All (IsDue env) (cases mixed_suite)
unfolding collect_children gtu_test_case_has_run gtu_path_should_run
all-IsDue = (
  record { fresh = refl; runs = refl; selected = λ h. refl },
  (record { fresh = refl; runs = refl; selected = λ h. refl }, tt),
)

few_lines : total (cases mixed_suite) < 2 ^ 32
unfolding collect_children
few_lines = omega arith

suite_run-plan_example : Ensures Unit (gtu_test_suite_run env mixed_suite) world (λ n w'.
    (new : List GtuTestResult) × (verdicts w'.log.out ≡ [] ++ new)
    × (length new ≡ w'.log.expected_tests)
    × (ltb 0 n ≡ any_fail new))
suite_run-plan_example = suite_run-plan env mixed_suite world refl refl refl all-IsDue few_lines

env-IsQuiet : IsQuiet env
env-IsQuiet = record {
  init = refl;
  consistent = quick_run-IsConsistent;
  not_verbose = refl;
  keeps_going = refl;
  not_fatal = refl;
  survives = λ m. refl;
}

world-IsIdle : IsIdle world
world-IsIdle = record { target = null; hooked = refl; idle = refl }

all_simple : All IsSimpleCase (cases simple_suite)
unfolding collect_children gtu_test_case_has_run gtu_path_is_valid
all_simple = (
  record {
    body = ends;
    simple = tt;
    has_func = refl;
    not_complex = refl;
    expects = refl;
    fresh = refl;
    named = refl;
  },
  (
    record {
      body = asserts_fail place none;
      simple = tt;
      has_func = refl;
      not_complex = refl;
      expects = refl;
      fresh = refl;
      named = refl;
    },
    (
      record {
        body = skips none (some (codes "later"));
        simple = tt;
        has_func = refl;
        not_complex = refl;
        expects = refl;
        fresh = refl;
        named = refl;
      },
      tt,
    ),
  ),
)

three_cases : length (cases simple_suite) ≡ 3
unfolding collect_children
three_cases = refl

suite_run-returns_example : Ensures ⊥ (gtu_test_suite_run env simple_suite) world (λ n w'.
    (verdicts w'.log.out ≡ [] ++ predicted_all env (cases simple_suite) all_simple)
    × (w'.log.expected_tests ≡ length (cases simple_suite))
    × (n ≡ count_failed (predicted_all env (cases simple_suite) all_simple)))
suite_run-returns_example =
    suite_run-returns env env-IsQuiet simple_suite all_simple world refl
      (omega (arith, three_cases)) (omega (arith, three_cases)) refl refl world-IsIdle

-- The mixed suite returns, and its plan is its number of lines.
mixed_run :
    ((gtu_test_suite_run env mixed_suite world).0 ≡ returned 1)
    × ((gtu_test_suite_run env mixed_suite world).1.log.expected_tests ≡ 5)
    × (verdicts (gtu_test_suite_run env mixed_suite world).1.log.out
        ≡ pass ∷ pass ∷ fail ∷ fail ∷ fail ∷ [])
unfolding gtu_test_suite_run ◌>>=◌ gtu_log_test_plan gtu_path_should_run on_checked on_option
    gtu_path_element_is_valid log_test_result
mixed_run = (refl, refl, refl)

complex_case_run-overall_example :
    Ensures Unit (gtu_complex_case_run env path_b subunits) world (ComplexRan [] 0 subunits)
complex_case_run-overall_example =
    complex_case_run-overall env 0 path_b subunits [] world
      (record { shown = refl; announced = refl })

case_run-once_example : Ensures Unit (gtu_test_case_run env (a_case path_a ends)) world (λ ran w'.
    CaseDone world (a_case path_a ends) ran w'
    × (gtu_test_case_has_run ran.1 ≡ true)
    × (ran.1.result ≡ ran.0.0)
    × (ran.1.freed ≡ 1)
    × (gtu_test_case_dispose ran.1 ≡ ran.1)
    × (gtu_test_case_run env ran.1 ≡ (path_string env ran.1.path >> pure ((ran.0.0, none), ran.1))))
unfolding gtu_test_case_has_run
case_run-once_example =
    case_run-once env (a_case path_a ends) world refl refl (λ e. ground (arith, e))

abbrev expecting : World
expecting = record world { expected_msgs = some [] }

exec_inner-Returned_example :
    Ensures Unit
      (gtu_test_case_exec_inner env (asserts_fail place none))
      expecting
      (λ ran w'. Returned expecting ran.0 ran.1 w')
exec_inner-Returned_example =
    exec_inner-Returned env (asserts_fail place none) expecting (λ e. ground (arith, e))

collect_tests-leaves_example :
    (collect_children simple_suite [] ≡ leaves_below simple_suite)
    × (count_tests (collect_children simple_suite []) 0 ≡ lines_below simple_suite % 2 ^ 32)
collect_tests-leaves_example = collect_tests-leaves simple_suite

abbrev stopping : Env
stopping = record env { keep_going = false }

abbrev in_test : World
in_test = record expecting { tr_context = some (record { message = none; result = pass }) }

assertion_message-bail_out_example :
    (All (λ b. (b == b'%') ≡ false) (assertion_text place (some (codes "a % b == 0")))
      → gtu_assertion_message stopping place (some (codes "a % b == 0")) in_test ≡ (
        exited 99,
        record in_test {
          log =
              print
                (bail_out (some (assertion_text place (some (codes "a % b == 0")))))
                (record in_test.log { plan_entered = true });
        },
      ))
    × (HasConversion (assertion_text place (some (codes "a % b == 0")))
        → (gtu_assertion_message stopping place (some (codes "a % b == 0")) in_test).0 ≡ undefined)
assertion_message-bail_out_example =
    assertion_message-bail_out stopping place (some (codes "a % b == 0")) in_test
      (record { message = none; result = pass }) refl refl refl refl refl

abbrev is_plain : Bytes → Bool
is_plain [] = true
is_plain (c ∷ cs) = not (c == b'%') && is_plain cs

is_plain-All : (s : Bytes) → is_plain s ≡ true → All (λ c. (c == b'%') ≡ false) s
is_plain-All [] h = tt
is_plain-All (c ∷ cs) h = (ground arith, is_plain-All cs (ground arith))

remainder : HasConversion (assertion_text place (some (codes "a % b == 0")))
remainder = record {
  before = codes "test.c:7:main: a ";
  conversion = b' ';
  after = codes "b == 0";
  splits = refl;
  plain = is_plain-All (codes "test.c:7:main: a ") refl;
  other = refl;
}
