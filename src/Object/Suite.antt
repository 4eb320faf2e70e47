-- ===== src/Object/Suite.antt =====
-- src/test-suite/test-suite.c: gtu_test_suite_add.
use giitestutils.Base.{
  ℕ, Bool, false, not, ◌||◌, List, [], ◌∷◌, ◌++◌, ◌==◌, if◌then◌else◌, Bytes, str_eq, Checked, done,
  critical,
}
use giitestutils.Base.Exec.{Exec, pure, stop, undefined, ◌>>◌}
use giitestutils.Object.{
  NameKey, Ref, null, test_case, test_suite, Store, on_object, check_object, write,
  gtu_test_object_ref_sink, set_parent_suite,
}

-- Whether the set has a key of this text.
unfoldable pub has_name : Bytes → List NameKey → Bool
unfolding str_eq
has_name name [] = false
has_name name (k ∷ keys) = str_eq k.text name || has_name name keys

-- The object to whose name the key points.
unfoldable pub owner_of : Bytes → List NameKey → Ref
unfolding str_eq
owner_of name [] = null
owner_of name (k ∷ keys) = if str_eq k.text name then k.owner else owner_of name keys

-- g_hash_table_add of a name that is there: the new pointer replaces the key.
unfoldable pub take_over : Ref → Bytes → List NameKey → List NameKey
unfolding str_eq
take_over p name [] = []
take_over p name (k ∷ keys) =
    let rest = take_over p name keys in
    if str_eq k.text name then record { owner = p; text = name } ∷ keys else k ∷ rest

abbrev pub refuse : Exec Store (Checked (Unit {0}))
refuse = pure (critical tt)

-- Changes the private data of a suite.
unfoldable pub change_suite :
    Ref → (List Ref → List Ref) → (List NameKey → List NameKey) → Exec Store (Unit {0})
unfolding on_object write
change_suite p f g = on_object p (λ o. elim o.kind [
  | test_case priv ↦ stop undefined
  | test_suite children child_names ↦
      write p (record o { kind = test_suite (f children) (g child_names) })
])

-- What gtu_test_suite_add does once the checks have passed, for an object of this name.
unfoldable pub adopt : ℕ → Ref → Ref → Bytes → Exec Store (Checked (Unit {0}))
unfolding change_suite gtu_test_object_ref_sink set_parent_suite
adopt n self p name =
    change_suite self (λ cs. cs) (λ names. names ++ record { owner = p; text = name } ∷ [])
    >> gtu_test_object_ref_sink p
    >> change_suite self (λ cs. cs ++ p ∷ []) (λ names. names)
    >> set_parent_suite n p self
    >> pure (done tt)

-- The key of a name that is taken is compared, and replaced, before the check of its uniqueness fails.
unfoldable pub refuse_name : Ref → Ref → Bytes → List NameKey → Exec Store (Checked (Unit {0}))
unfolding on_object change_suite owner_of take_over
refuse_name self p name keys =
    on_object (owner_of name keys) (λ x. change_suite self (λ cs. cs) (take_over p name) >> refuse)

-- The fuel is that of the signal.
unfoldable pub gtu_test_suite_add : ℕ → Ref → Ref → Exec Store (Checked (Unit {0}))
unfolding check_object has_name adopt refuse_name
gtu_test_suite_add n self p = check_object self tt (λ s. elim s.kind [
  | test_case priv ↦ refuse
  | test_suite children child_names ↦ check_object p tt (λ o.
      if not (o.parent == null)
      then refuse
      else if has_name o.name child_names
      then refuse_name self p o.name child_names
      else adopt n self p o.name)
])
