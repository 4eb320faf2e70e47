-- ===== src/Object/Construct.antt =====
-- The constructors of test objects: src/object.c, test-suite/test-suite.c, test-case/test-case.c and
-- test-case/complex.c. A type is given by what g_type_is_a says of it.
use giitestutils.Base.{
  ℕ, suc, Bool, true, false, not, ◌&&◌, List, [], ◌∷◌, Option, none, some, if◌then◌else◌, Bytes,
  Checked, done, critical,
}
use giitestutils.Base.Exec.{Exec, returned, aborted, undefined, pure, stop, on_checked, ◌>>=◌, ◌>>◌}
use giitestutils.TestPath.{gtu_path_element_is_valid}
use giitestutils.Process.{invalid}
use giitestutils.TestCase.Exec.{Body}
use giitestutils.TestCase.Complex.{Subunit}
use giitestutils.Object.{
  Ref, null, GtuTestCasePrivate, Kind, test_case, test_suite, GtuTestObject, Store, put,
  gtu_test_object_unref,
}

-- What _gtu_test_object_init leaves, with the name.
abbrev pub new_object : Bytes → Kind → GtuTestObject
new_object name kind = record {
  name = name;
  parent = null;
  path = none;
  ref_count = 1;
  is_floating = true;
  kind = kind;
}

-- What gtu_test_case_init leaves.
abbrev pub new_private : GtuTestCasePrivate
new_private = record {
  subunits = none;
  func = none;
  func_target_destroy = false;
  expected_msgs = some [];
  result = invalid;
  has_disposed = false;
  freed = 0;
}

-- g_type_create_instance: the next address.
unfoldable pub create_instance : GtuTestObject → Exec Store Ref
create_instance o h = (returned h.next, record (put h.next (some o) h) { next = suc h.next })

-- A subtype of GtuTestCase: what its class overrides.
pub record CaseType : Type 0 where
  pub is_test_case : Bool
  pub is_complex_case : Bool
  pub test_impl : Option Body

module _ (isspace : ℕ → Bool) where
  -- _gtu_test_object_construct
  unfoldable pub object_construct : Option Bytes → Kind → Exec Store Ref
  unfolding create_instance
  object_construct none kind = stop aborted
  object_construct (some name) kind =
      if gtu_path_element_is_valid isspace (some name)
      then create_instance (new_object name kind)
      else stop aborted

  unfoldable pub gtu_test_suite_construct : Bool → Option Bytes → Exec Store (Checked Ref)
  unfolding object_construct
  gtu_test_suite_construct is_test_suite name =
      if not is_test_suite
      then pure (critical null)
      else if not (gtu_path_element_is_valid isspace name)
      then pure (critical null)
      else (object_construct name (test_suite [] []) >>= λ p. pure (done p))

  unfoldable pub gtu_test_suite_new : Option Bytes → Exec Store (Checked Ref)
  unfolding gtu_test_suite_construct
  gtu_test_suite_new name = gtu_test_suite_construct true name

  -- The private part is filled in by the callers.
  unfoldable pub construct_internal :
      Bool → Option Bytes → GtuTestCasePrivate → Exec Store (Checked Ref)
  unfolding object_construct
  construct_internal is_test_case none priv = pure (critical null)
  construct_internal is_test_case (some name) priv =
      if not is_test_case
      then pure (critical null)
      else (object_construct (some name) (test_case priv) >>= λ p. pure (done p))

  -- `none` for `func` is NULL.
  unfoldable pub gtu_test_case_new : Option Bytes → Option Body → Bool → Exec Store (Checked Ref)
  unfolding construct_internal
  gtu_test_case_new name none destroys = pure (critical null)
  gtu_test_case_new name (some func) destroys =
      if not (gtu_path_element_is_valid isspace name)
      then pure (critical null)
      else construct_internal true name
          (record new_private { func = some func; func_target_destroy = destroys })

  -- A class that leaves test_impl as it is has the dummy, which is `none`; the one reference to its
  -- object is dropped. For a complex case the enumeration is filled in by its own constructor.
  unfoldable pub gtu_test_case_construct :
      CaseType → Option Bytes → Option (List Subunit) → Exec Store (Checked Ref)
  unfolding construct_internal gtu_test_object_unref
  gtu_test_case_construct type name subunits =
      if not (gtu_path_element_is_valid isspace name)
      then pure (critical null)
      else (construct_internal type.is_test_case name
            (record new_private { func = type.test_impl; subunits = subunits })
          >>= λ made.
              on_checked made
                (λ self. elim type.test_impl [
                  | some func ↦ pure (done self)
                  | none ↦
                      if type.is_complex_case
                      then pure (done self)
                      else (gtu_test_object_unref 1 self >> pure (critical null))
                ])
                (λ self. pure (critical null)))

  unfoldable pub check_enum_names : List Subunit → Bool
  check_enum_names [] = true
  check_enum_names (u ∷ us) = gtu_path_element_is_valid isspace (some u.nick) && check_enum_names us

  -- `none` for the values is a type that is no enumeration. A NULL object is written through.
  unfoldable pub gtu_complex_case_construct :
      CaseType → Option Bytes → Option (List Subunit) → Exec Store (Checked Ref)
  unfolding gtu_test_case_construct check_enum_names
  gtu_complex_case_construct type name none = pure (critical null)
  gtu_complex_case_construct type name (some values) =
      if not type.is_complex_case
      then pure (critical null)
      else (gtu_test_case_construct type name (some values) >>= λ made.
          on_checked made
            (λ self.
              if check_enum_names values
              then pure (done self)
              else (gtu_test_object_unref 1 self >> pure (critical null)))
            (λ self. stop undefined))
