-- ===== src/Object/Values.antt =====
-- src/object.c: the functions of a GValue that holds a test object, which is given as its pointer. The
-- objects at pointers are test objects, so that value_collect has two ends.
use giitestutils.Base.{ℕ, Bool, ◌==◌, if◌then◌else◌, Bytes, Checked, done, codes, ◌++◌}
use giitestutils.Base.Exec.{Exec, pure, ◌>>=◌}
use giitestutils.Object.{
  Ref, null, Store, on_object, check_object, gtu_test_object_ref, gtu_test_object_unref,
}

abbrev pub value_init : Ref
value_init = null

abbrev pub value_peek : Ref → Ref
value_peek value = value

-- The fuel is that of unref.
unfoldable pub value_free : ℕ → Ref → Exec Store (Checked (Unit {0}))
unfolding check_object gtu_test_object_unref
value_free n value = check_object value tt (λ o. gtu_test_object_unref n value)

-- What the other value holds then; a failed check leaves it.
unfoldable pub value_copy : Ref → Exec Store (Checked Ref)
unfolding check_object gtu_test_object_ref
value_copy value = check_object value null (λ o. gtu_test_object_ref value)

-- What the value holds for a collected pointer.
unfoldable pub value_collect : Ref → Exec Store (Checked Ref)
unfolding on_object gtu_test_object_ref
value_collect p = if p == null then pure (done null) else on_object p (λ o. gtu_test_object_ref p)

-- What is written at the location, or the text of an error: there is none.
pub data Copied : Type 0 where
  copied : Checked Ref → Copied
  no_location : Bytes → Copied

unfoldable pub value_lcopy : Bytes → Bool → Bool → Ref → Exec Store Copied
unfolding gtu_test_object_ref
value_lcopy type_name location_is_null nocopy_contents value =
    if location_is_null
    then pure (no_location (codes "value location for `" ++ type_name ++ codes "' passed as NULL"))
    else if value == null
    then pure (copied (done null))
    else if nocopy_contents
    then pure (copied (done value))
    else (gtu_test_object_ref value >>= λ p. pure (copied p))
