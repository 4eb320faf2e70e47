-- ===== src/Object/Collect.antt =====
-- src/test-suite/test-suite.c: _gtu_test_object_collect_tests on the store of objects. Every object is
-- a case or a suite, so that its critical message is not reached.
pub mod Tree
use giitestutils.Base.{ℕ, zero, suc, List, [], ◌∷◌, ◌++◌}
use giitestutils.Base.Exec.{Exec, undefined, pure, stop, ◌>>=◌}
use giitestutils.Object.{Ref, test_case, test_suite, Store, on_object}

-- g_ptr_array_foreach, with the array of tests for its data.
unfoldable pub collect_each :
    (Ref → List Ref → Exec Store (List Ref)) → List Ref → List Ref → Exec Store (List Ref)
collect_each f [] tests = pure tests
collect_each f (p ∷ ps) tests = f p tests >>= collect_each f ps

-- The fuel bounds the depth of the suites.
unfoldable pub object_collect_tests : ℕ → Ref → List Ref → Exec Store (List Ref)
unfolding on_object collect_each
object_collect_tests zero p tests = stop undefined
object_collect_tests (suc n) p tests = on_object p (λ o. elim o.kind [
  | test_case priv ↦ pure (tests ++ p ∷ [])
  | test_suite children child_names ↦ collect_each (object_collect_tests n) children tests
])
