-- ===== src/Object/Paths.antt =====
-- src/object.c: the name and the path of an object, which it keeps until its ancestry changes.
use giitestutils.Base.{
  ℕ, zero, suc, Bool, Option, none, some, ◌==◌, if◌then◌else◌, Bytes, Checked, done, critical,
  value,
}
use giitestutils.Base.Exec.{Exec, undefined, pure, stop, on_checked, on_option, ◌>>=◌, ◌>>◌}
use giitestutils.TestPath.{
  GtuPath, gtu_path_new, gtu_path_append_element, gtu_path_prepend_path, gtu_path_to_string,
}
use giitestutils.Object.{Ref, null, Store, on_object, check_object, write}

unfoldable pub gtu_test_object_get_name : Ref → Exec Store (Checked (Option Bytes))
unfolding check_object
gtu_test_object_get_name p = check_object p none (λ o. pure (done (some o.name)))

unfoldable pub gtu_test_object_get_parent_suite : Ref → Exec Store (Checked Ref)
unfolding check_object
gtu_test_object_get_parent_suite p = check_object p null (λ o. pure (done o.parent))

abbrev pub set_path : Ref → GtuPath → Exec Store (Unit {0})
set_path p path = on_object p (λ o. write p (record o { path = some path }))

-- What the getter of a path gives: the path of the object, which is not NULL.
abbrev pub path_of : Ref → Exec Store (Checked (Option GtuPath))
path_of p = on_object p (λ o. pure (done o.path))

-- gtu_path_prepend_path to the path of `p`. A path that is put in front of itself has no end.
unfoldable pub prepend_to : Ref → Ref → Option GtuPath → Exec Store (Unit {0})
unfolding on_object write
prepend_to p parent none = stop undefined
prepend_to p parent (some front) =
    if p == parent
    then stop undefined
    else on_object p (λ o.
      on_option o.path (stop undefined)
        (λ path. write p (record o { path = some (gtu_path_prepend_path path front) })))

-- gtu_path_to_string of the object's own path, which keeps the string.
unfoldable pub print_path : Ref → Option GtuPath → Exec Store (Checked (Option Bytes))
unfolding gtu_path_to_string on_object write
print_path p none = pure (critical none)
print_path p (some path) =
    let printed = gtu_path_to_string path in
    set_path p (value printed).1
    >> on_checked printed (λ r. pure (done r.0)) (λ r. pure (critical r.0))

module _ (isspace : ℕ → Bool) where
  -- A new path of the object's own name.
  abbrev pub own_path : Bytes → GtuPath
  own_path name = value (gtu_path_append_element isspace gtu_path_new (some name))

  -- The fuel bounds the number of ancestors.
  unfoldable pub gtu_test_object_get_path : ℕ → Ref → Exec Store (Checked (Option GtuPath))
  unfolding prepend_to check_object
  gtu_test_object_get_path zero p = stop undefined
  gtu_test_object_get_path (suc n) p = check_object p none (λ o.
      on_option o.path
        (set_path p (own_path o.name)
          >> (if o.parent == null
              then pure tt
              else (gtu_test_object_get_path n o.parent >>= λ front.
                  prepend_to p o.parent (value front)))
          >> path_of p)
        (λ path. pure (done (some path))))

  unfoldable pub gtu_test_object_get_path_string : ℕ → Ref → Exec Store (Checked (Option Bytes))
  unfolding gtu_test_object_get_path print_path
  gtu_test_object_get_path_string n p =
      check_object p none (λ o. gtu_test_object_get_path n p >>= λ path. print_path p (value path))
