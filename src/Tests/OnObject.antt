-- ===== src/Tests/OnObject.antt =====
-- Test objects on a small program: a suite "a" and a case "b" that is added to it.
mod Run
use Prim.Native.Nat.{◌^◌}
use giitestutils.Base.{
  ◌⊎◌, ◌↔◌, ℕ, ◌+◌, ◌<◌, ◌≡◌, ◌≢◌, refl, sym, true, false, [], ◌∷◌, none, some, arith, codes, inl,
  inr,
}
use giitestutils.Base.Exec.{returned, undefined, on_option, on_checked, ◌>>=◌}
use giitestutils.TestPath.{
  gtu_path_element_is_valid, gtu_path_prepend_path, gtu_path_append_element, gtu_path_new,
}
use giitestutils.TestCase.Exec.{ends}
use giitestutils.Object.{
  Ref, test_case, GtuTestObject, Store, gtu_test_object_unref, gtu_test_object_ref_sink,
}
use giitestutils.Object.Suite.{gtu_test_suite_add, has_name}
use giitestutils.Tests.Data.{subunits}
use giitestutils.Object.Construct.{
  CaseType, gtu_complex_case_construct, gtu_test_case_new, gtu_test_suite_new, new_object,
  new_private,
}
use giitestutils.Object.Counts.{Address-cases, IsLive, occurs, children_at}
use giitestutils.Object.Ancestry.{Below, here, down, Names, root, inside, OnlyPaths, IsFresh}
use giitestutils.Object.Later.{Bounded}
use giitestutils.Object.Finalize.{drop}
use giitestutils.Object.Valid.Refs.{more}
use giitestutils.Object.Adopt.{given}
use giitestutils.Object.Program.{
  Call, new_suite, new_case, unref, ref_sink, add, perform, MayAdd, perform-IsValid, owned_after,
}
use giitestutils.Object.Program.Reach.{
  empty, IsDepth, Reach, start, call, at_depth, Reach-IsValid, Reach-IsLive_iff, Reach-all_freed,
}
use giitestutils.TestPath.{GtuPath}
use giitestutils.Base.{done, critical}
use giitestutils.Base.Exec.Ensures.{Ensures}
use giitestutils.Object.{emit_ancestry_signal}
use giitestutils.Object.Paths.{gtu_test_object_get_path, gtu_test_object_get_path_string}
use giitestutils.Object.Valid.{IsValid}
use giitestutils.Object.GetPath.Result.{get_path-Names}
use giitestutils.Object.Emit.{ClearsBelow, emit-ClearsBelow}
use giitestutils.TestSuite.{TestObject, collect_tests}
use giitestutils.Object.Collect.{object_collect_tests}
use giitestutils.Object.Collect.Tree.{Spells, CasesAt, object_collect_tests-tree}
use giitestutils.Object.Run.{Machine, gtu_test_suite_run_at}
use giitestutils.Tests.Data.{isspace, env, world}

abbrev run : Call → Store → Store
run c h = (perform isspace 3 c h).1

abbrev one_suite : Store
one_suite = run (new_suite (codes "a")) empty

abbrev two_objects : Store
two_objects = run (new_case (codes "b") ends true) one_suite

abbrev linked : Store
linked = run (add 1 2) two_objects

abbrev cleaned : Store
cleaned = run (unref 1) linked

-- The depth of a store that has no other objects.
two-IsDepth :
    (h : Store)
    → ((p : Ref) → p ≢ 1 → p ≢ 2 → h.cell p ≡ none)
    → (IsLive h 1 → Bounded h 3 1)
    → (IsLive h 2 → Bounded h 3 2)
    → IsDepth h 3
two-IsDepth h others one two p (o, l) = elim (Address-cases p 1) [
  | inl same ↦ rw same (one (o, rw (sym same) l))
  | inr first ↦ elim (Address-cases p 2) [
    | inl same ↦ rw same (two (o, rw (sym same) l))
    | inr second ↦ ground (arith, others p first second, l)
  ]
]

abbrev owned_1 : Ref → ℕ
owned_1 = more 1 (λ p. 0)

abbrev owned_2 : Ref → ℕ
owned_2 = more 2 owned_1

abbrev owned_linked : Ref → ℕ
owned_linked = given true 2 owned_2

abbrev owned_cleaned : Ref → ℕ
owned_cleaned = drop 1 owned_linked

one_suite-Reach : Reach isspace one_suite owned_1
unfolding perform ◌>>=◌ gtu_test_suite_new gtu_path_element_is_valid
one_suite-Reach =
    call (new_suite (codes "a")) refl 3 (start refl refl) (λ p (o, l). ground (arith, l)) refl refl

two_objects-Reach : Reach isspace two_objects owned_2
unfolding perform ◌>>=◌ gtu_test_suite_new gtu_test_case_new gtu_path_element_is_valid
two_objects-Reach =
    call (new_case (codes "b") ends true) refl 3 one_suite-Reach
      (two-IsDepth one_suite (λ p first second. ground (arith, first)) (λ live. (_, refl, tt))
        (λ (o, l). ground (arith, l)))
      refl refl

case_alone : ¬ Below two_objects 2 1
unfolding perform ◌>>=◌ gtu_test_suite_new gtu_test_case_new gtu_path_element_is_valid
case_alone (here same) = omega (arith, same)
case_alone (down c there rest) = omega (arith, there)

abbrev may_add : MayAdd two_objects 1 2
unfolding perform ◌>>=◌ gtu_test_suite_new gtu_test_case_new gtu_path_element_is_valid has_name
may_add = record {
  suite = _;
  suite_at = refl;
  children = [];
  child_names = [];
  is_suite = refl;
  room = record { object = _; at = refl; small = omega arith };
  accepted = refl;
  apart = case_alone;
}

two_objects-IsDepth : IsDepth two_objects 3
unfolding perform ◌>>=◌ gtu_test_suite_new gtu_test_case_new gtu_path_element_is_valid
two_objects-IsDepth =
    two-IsDepth two_objects (λ p first second. ground (arith, first, second))
      (λ live. (_, refl, tt)) (λ live. (_, refl, tt))

linked-Reach : Reach isspace linked owned_linked
unfolding perform ◌>>=◌ gtu_test_suite_new gtu_test_case_new gtu_path_element_is_valid
    gtu_test_suite_add
linked-Reach = call (add 1 2) may_add 3 two_objects-Reach two_objects-IsDepth refl refl

linked-IsDepth : IsDepth linked 3
unfolding perform ◌>>=◌ gtu_test_suite_new gtu_test_case_new gtu_path_element_is_valid
    gtu_test_suite_add
linked-IsDepth =
    two-IsDepth linked (λ p first second. ground (arith, first, second))
      (λ live. (_, refl, ((_, refl, tt), tt))) (λ live. (_, refl, tt))

cleaned-Reach : Reach isspace cleaned owned_cleaned
unfolding perform ◌>>=◌ gtu_test_suite_new gtu_test_case_new gtu_path_element_is_valid
    gtu_test_suite_add gtu_test_object_unref
cleaned-Reach = call (unref 1) (omega arith) 3 linked-Reach linked-IsDepth refl refl

suite-Names : Names linked 1 (codes "a" ∷ [])
unfolding perform ◌>>=◌ gtu_test_suite_new gtu_test_case_new gtu_path_element_is_valid
    gtu_test_suite_add
suite-Names = root _ refl refl refl

linked-Names : Names linked 2 (codes "a" ∷ codes "b" ∷ [])
unfolding perform ◌>>=◌ gtu_test_suite_new gtu_test_case_new gtu_path_element_is_valid
    gtu_test_suite_add
linked-Names = inside _ (codes "a" ∷ []) refl (λ e. omega (arith, e)) (root _ refl refl refl) refl

linked-IsLive : IsLive linked 1
unfolding perform ◌>>=◌ gtu_test_suite_new gtu_test_case_new gtu_path_element_is_valid
    gtu_test_suite_add
linked-IsLive = (_, refl)

Reach-all_freed_example : cleaned.cell 2 ≡ none
Reach-all_freed_example = Reach-all_freed isspace cleaned-Reach (λ p. ground arith) 2

Reach-IsLive_iff_example :
    IsLive linked 2
    ↔ ((0 < owned_linked 2) ⊎ (q : Ref) × (0 < occurs 2 (children_at (linked.cell q))))
Reach-IsLive_iff_example = Reach-IsLive_iff isspace 2 linked-Reach

perform-IsValid_example :
    Ensures ⊥
      (perform isspace 3 (unref 1))
      linked
      (λ u h'. IsValid isspace h' (owned_after isspace linked owned_linked (unref 1) (omega arith)))
perform-IsValid_example =
    perform-IsValid isspace linked owned_linked
      (at_depth isspace 3 linked-IsDepth (Reach-IsValid isspace linked-Reach)) (unref 1)
      (omega arith) 3 (omega arith)

get_path-Names_example : Ensures ⊥ (gtu_test_object_get_path isspace 2 2) linked (λ r h'.
    ((path : GtuPath) × (r ≡ done (some path)) × (path.elements ≡ codes "a" ∷ codes "b" ∷ []))
    × IsFresh h'
    × OnlyPaths linked h')
get_path-Names_example =
    get_path-Names isspace 2 linked 2 (codes "a" ∷ codes "b" ∷ [])
      (Reach-IsValid isspace linked-Reach).forest.counted.no_null
      (Reach-IsValid isspace linked-Reach).forest.named (Reach-IsValid isspace linked-Reach).fresh
      linked-Names (omega arith)

emit-ClearsBelow_example :
    Ensures ⊥ (emit_ancestry_signal 3 1) linked (λ u h'. ClearsBelow linked 1 h')
emit-ClearsBelow_example = emit-ClearsBelow 3 1 linked (linked-IsDepth 1 linked-IsLive)

-- A suite that is added to itself: the signal does not end.
self_add : (gtu_test_suite_add 9 1 1 one_suite).0 ≡ undefined
unfolding perform ◌>>=◌ gtu_test_suite_new gtu_path_element_is_valid gtu_test_suite_add
self_add = refl

-- A case that outlives its suite.
abbrev outlives : Store
outlives = run (unref 1) (run (ref_sink 2) linked)

outlives_path : (gtu_test_object_get_path isspace 9 2 outlives).0 ≡ undefined
unfolding perform ◌>>=◌ gtu_test_suite_new gtu_test_case_new gtu_path_element_is_valid
    gtu_test_suite_add gtu_test_object_unref gtu_test_object_ref_sink gtu_test_object_get_path
    on_option
outlives_path = refl

path_string :
    (gtu_test_object_get_path_string isspace 9 2 linked).0 ≡ returned (done (some (codes "/a/b")))
unfolding perform ◌>>=◌ gtu_test_suite_new gtu_test_case_new gtu_path_element_is_valid
    gtu_test_suite_add gtu_test_object_get_path_string on_option on_checked gtu_path_prepend_path
    gtu_path_append_element gtu_path_new
path_string = refl

-- A complex case with a name that is no element of a path.
abbrev complex_type : CaseType
complex_type = record { is_test_case = true; is_complex_case = true; test_impl = none }

nameless_complex :
    (gtu_complex_case_construct isspace complex_type (some (codes "a/b")) (some subunits) empty).0
    ≡ undefined
unfolding gtu_complex_case_construct gtu_path_element_is_valid ◌>>=◌ on_checked
nameless_complex = refl

-- An object whose name is taken is refused, and its name is the key from then on: once that object has
-- been freed, a third of this name is compared with freed memory.
abbrev second : Store
second = (gtu_test_suite_add 3 1 3 (run (new_case (codes "b") ends true) linked)).1

abbrev third : Store
third = run (new_case (codes "b") ends true) (run (unref 3) second)

stale_key :
    ((gtu_test_suite_add 3 1 3 (run (new_case (codes "b") ends true) linked)).0
      ≡ returned (critical tt))
    × ((gtu_test_suite_add 3 1 4 third).0 ≡ undefined)
unfolding perform ◌>>=◌ gtu_test_suite_new gtu_test_case_new gtu_path_element_is_valid
    gtu_test_suite_add gtu_test_object_unref
stale_key = (refl, refl)
