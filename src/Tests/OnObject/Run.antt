-- ===== src/Tests/OnObject/Run.antt =====
-- The cases below the suite of the small program, and its run.
use giitestutils.Base.{◌≡◌, refl, List, [], ◌∷◌, none, arith, codes}
use giitestutils.Base.Exec.{returned, on_option, on_checked, ◌>>=◌}
use giitestutils.TestPath.{
  gtu_path_element_is_valid, gtu_path_prepend_path, gtu_path_new, gtu_path_should_run,
}
use giitestutils.Log.Tap.{gtu_log_test_plan}
use giitestutils.TestSuite.{TestObject, collect_tests}
use giitestutils.Object.{Ref}
use giitestutils.Object.Suite.{gtu_test_suite_add}
use giitestutils.Object.Construct.{gtu_test_case_new, gtu_test_suite_new}
use giitestutils.Object.Collect.{object_collect_tests}
use giitestutils.Object.Collect.Tree.{Spells, CasesAt, object_collect_tests-tree}
use giitestutils.Object.Program.{perform}
use giitestutils.Object.Program.Reach.{at_depth, Reach-IsValid}
use giitestutils.Object.Run.{Machine, gtu_test_suite_run_at}
use giitestutils.Tests.Data.{isspace, env, world}
use giitestutils.Tests.OnObject.{linked, owned_linked, linked-IsDepth, linked-Reach, suite-Names}

object_collect_tests-tree_example :
    (tree : TestObject) × Spells linked 1 tree
    × ((refs : List Ref) × (object_collect_tests 3 1 [] linked ≡ (returned refs, linked))
        × CasesAt linked refs (collect_tests tree []))
object_collect_tests-tree_example =
    object_collect_tests-tree linked isspace owned_linked
      (at_depth isspace 3 linked-IsDepth (Reach-IsValid isspace linked-Reach)) 1 (codes "a" ∷ []) 3
      suite-Names (omega arith)

-- The run of the suite frees it and its case.
abbrev after_run : Machine
after_run = (gtu_test_suite_run_at env 9 1 (record { world = world; store = linked })).1

ran_returned :
    (gtu_test_suite_run_at env 9 1 (record { world = world; store = linked })).0 ≡ returned 0
unfolding gtu_test_suite_run_at ◌>>=◌ perform gtu_test_suite_add gtu_test_case_new
    gtu_path_element_is_valid gtu_test_suite_new gtu_log_test_plan on_option on_checked
    gtu_path_prepend_path gtu_path_new gtu_path_should_run
ran_returned = refl

ran_freed : (after_run.store.cell 1 ≡ none) × (after_run.store.cell 2 ≡ none)
unfolding gtu_test_suite_run_at ◌>>=◌ perform gtu_test_suite_add gtu_test_case_new
    gtu_path_element_is_valid gtu_test_suite_new gtu_log_test_plan on_option on_checked
    gtu_path_prepend_path gtu_path_new gtu_path_should_run
ran_freed = (refl, refl)
