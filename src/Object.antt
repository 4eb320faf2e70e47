-- ===== src/Object.antt =====
-- src/object.c and the private data of src/test-suite/test-suite.c: test objects at addresses. A
-- failed check of a pointer is `critical`; a freed address that is read is `undefined`, and so is a
-- recursion that has no fuel left.
pub mod Paths
pub mod Suite
pub mod Construct
pub mod Values
pub mod Collect
pub mod Run
pub mod Counts
pub mod Later
pub mod Rules
pub mod Depth
pub mod Finalize
pub mod Unref
pub mod Ancestry
pub mod Emit
pub mod GetPath
pub mod Valid
pub mod Adopt
pub mod Add
pub mod Program
use Prim.Native.Nat.{◌^◌, ◌%◌}
use giitestutils.Base.{
  ℕ, zero, suc, ◌+◌, ◌-◌, Bool, true, false, not, List, [], ◌∷◌, ◌++◌, Option, none, some, ◌==◌,
  if◌then◌else◌, Bytes, Checked, done, critical, value,
}
use giitestutils.Base.Exec.{
  Outcome, returned, aborted, undefined, Exec, pure, stop, modify, ◌>>=◌, ◌>>◌,
}
use giitestutils.TestPath.{
  GtuPath, gtu_path_new, gtu_path_append_element, gtu_path_prepend_path, gtu_path_to_string,
}
use giitestutils.Process.{GtuTestResult}
use giitestutils.Process.Expect.{GtuExpectedMessage}
use giitestutils.TestCase.{GtuTestCase, gtu_test_case_dispose}
use giitestutils.TestCase.Exec.{Body}
use giitestutils.TestCase.Complex.{Subunit}

abbrev pub Ref : Type 0
Ref = ℕ

abbrev pub null : Ref
null = 0

-- GtuTestCasePrivate, with the enumeration of a GtuComplexCase.
pub record GtuTestCasePrivate : Type 0 where
  pub subunits : Option (List Subunit)
  pub func : Option Body
  pub func_target_destroy : Bool
  pub expected_msgs : Option (List GtuExpectedMessage)
  pub result : GtuTestResult
  pub has_disposed : Bool
  pub freed : ℕ

-- The case as its run sees it, with the path that its object has.
abbrev pub at_path : GtuPath → GtuTestCasePrivate → GtuTestCase
at_path path priv = record {
  path = path;
  subunits = priv.subunits;
  func = priv.func;
  func_target_destroy = priv.func_target_destroy;
  expected_msgs = priv.expected_msgs;
  result = priv.result;
  has_disposed = priv.has_disposed;
  freed = priv.freed;
}

abbrev pub private_part : GtuTestCase → GtuTestCasePrivate
private_part self = record {
  subunits = self.subunits;
  func = self.func;
  func_target_destroy = self.func_target_destroy;
  expected_msgs = self.expected_msgs;
  result = self.result;
  has_disposed = self.has_disposed;
  freed = self.freed;
}

-- A key of the hash table of names: a pointer to the name of an object. A lookup reads a key only where
-- the hashes agree, which stands here for the same text.
pub record NameKey : Type 0 where
  pub owner : Ref
  pub text : Bytes

-- The classes of objects: `test_suite children child_names`, the set as the list of its keys.
pub data Kind : Type 0 where
  test_case : GtuTestCasePrivate → Kind
  test_suite : List Ref → List NameKey → Kind

-- GtuTestObjectPrivate, without the sanity flag.
pub record GtuTestObject : Type 0 where
  pub name : Bytes
  pub parent : Ref
  pub path : Option GtuPath
  pub ref_count : ℕ
  pub is_floating : Bool
  pub kind : Kind

-- `next` is the address of the next allocation; no address is used twice.
pub record Store : Type 0 where
  pub cell : Ref → Option GtuTestObject
  pub next : Ref

abbrev pub put : Ref → Option GtuTestObject → Store → Store
put p c h = record h { cell = λ q. if q == p then c else h.cell q }

-- Reads the object at `p`.
unfoldable pub on_object {ℓ} : {A : Type ℓ} → Ref → (GtuTestObject → Exec Store A) → Exec Store A
on_object p k h = elim (h.cell p) [ none ↦ (undefined, h) | some o ↦ k o h ]

unfoldable pub write : Ref → GtuTestObject → Exec Store (Unit {0})
write p o = modify (put p (some o))

-- g_return_val_if_fail (GTU_IS_TEST_OBJECT (p), failed)
unfoldable pub check_object {ℓ} :
    {A : Type ℓ} → Ref → A → (GtuTestObject → Exec Store (Checked A)) → Exec Store (Checked A)
unfolding on_object
check_object p failed k = if p == null then pure (critical failed) else on_object p k

-- g_atomic_int_inc and g_atomic_int_dec_and_test, on 32 bits.
abbrev pub inc : ℕ → ℕ
inc n = (n + 1) % 2 ^ 32

abbrev pub dec : ℕ → ℕ
dec n = (n + 2 ^ 32 - 1) % 2 ^ 32

abbrev pub more_refs : GtuTestObject → GtuTestObject
more_refs o = record o { ref_count = inc o.ref_count }

unfoldable pub gtu_test_object_ref : Ref → Exec Store (Checked Ref)
unfolding check_object write
gtu_test_object_ref p = check_object p null (λ o. write p (more_refs o) >> pure (done p))

unfoldable pub gtu_test_object_sink : Ref → Exec Store (Checked Ref)
unfolding check_object write
gtu_test_object_sink p =
    check_object p null (λ o. write p (record o { is_floating = false }) >> pure (done p))

unfoldable pub gtu_test_object_ref_sink : Ref → Exec Store (Checked Ref)
unfolding check_object write
gtu_test_object_ref_sink p = check_object p null (λ o.
    write p (if o.is_floating then record o { is_floating = false } else more_refs o)
    >> pure (done p))

-- A loop over an array of objects.
unfoldable pub each {ℓ} : {A : Type ℓ} → (Ref → Exec Store A) → List Ref → Exec Store (Unit {0})
each f [] = pure tt
each f (p ∷ ps) = f p >> each f ps

-- gtu_test_case_finalize and gtu_test_suite_finalize, with `unref` for the elements of the array
-- that g_ptr_array_free gives up.
unfoldable pub finalize :
    (Ref → Exec Store (Checked (Unit {0}))) → Ref → Kind → Exec Store (Unit {0})
unfolding on_object write each gtu_test_case_dispose
finalize unref p (test_case priv) = on_object p (λ o. write p (record o {
  kind = test_case (private_part (gtu_test_case_dispose (at_path gtu_path_new priv)));
}))
finalize unref p (test_suite children child_names) =
    on_object p (λ o. write p (record o { kind = test_suite [] [] })) >> each unref children

-- Destroys a reference, and the object with its last one. The fuel bounds the depth of the suites.
unfoldable pub gtu_test_object_unref : ℕ → Ref → Exec Store (Checked (Unit {0}))
unfolding check_object write finalize
gtu_test_object_unref zero p = stop undefined
gtu_test_object_unref (suc n) p = check_object p tt (λ o.
    write p (record o { ref_count = dec o.ref_count })
    >> (if dec o.ref_count == 0
        then finalize (gtu_test_object_unref n) p o.kind >> modify (put p none) >> pure (done tt)
        else pure (done tt)))

unfoldable pub dirty_path : Ref → Exec Store (Unit {0})
unfolding on_object write
dirty_path p = on_object p (λ o. write p (record o { path = none }))

-- The handler that gtu_test_suite_init connects, which emits the signal on each child.
unfoldable pub propagate_signal : (Ref → Exec Store (Unit {0})) → Kind → Exec Store (Unit {0})
unfolding each
propagate_signal emit (test_case priv) = pure tt
propagate_signal emit (test_suite children child_names) = each emit children

-- The signal ancestry-changed: its handlers in the order of their connection, dirty_path and for a
-- suite propagate_signal.
unfoldable pub emit_ancestry_signal : ℕ → Ref → Exec Store (Unit {0})
unfolding dirty_path propagate_signal
emit_ancestry_signal zero p = stop undefined
emit_ancestry_signal (suc n) p =
    dirty_path p >> on_object p (λ o. propagate_signal (emit_ancestry_signal n) o.kind)

unfoldable pub set_parent_suite : ℕ → Ref → Ref → Exec Store (Unit {0})
unfolding emit_ancestry_signal
set_parent_suite n p suite = on_object p (λ o.
    if not (o.parent == null)
    then stop aborted
    else (write p (record o { parent = suite }) >> emit_ancestry_signal n p))
