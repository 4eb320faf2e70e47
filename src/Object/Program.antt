-- ===== src/Object/Program.antt =====
-- A program's calls on test objects, one after the other, from the start of the process.
pub mod Reach
use Prim.Native.Nat.{◌^◌}
use giitestutils.Base.{
  ◌==◌, ℕ, zero, suc, ◌+◌, ◌<◌, ◌≤◌, ◌≡◌, ◌≢◌, refl, sym, ap, ◌∙◌, Bool, true, false, List, [], ◌∷◌,
  ◌++◌, Option, none, some, arith, subst, Bytes, if◌then◌else◌, length, length-append, Checked,
  done, Option-cases, inl, inr,
}
use giitestutils.Base.Exec.{Exec, pure, ◌>>=◌, ◌>>◌}
use giitestutils.Base.Exec.Ensures.{Ensures, Ensures-pure, Ensures-bind, Ensures-weaken, Ensures-if}
use giitestutils.TestPath.{gtu_path_element_is_valid}
use giitestutils.TestCase.Exec.{Body}
use giitestutils.Object.{
  Ref, null, NameKey, test_case, test_suite, GtuTestObject, Store, gtu_test_object_ref,
  gtu_test_object_ref_sink, gtu_test_object_unref,
}
use giitestutils.Object.Construct.{
  gtu_test_suite_new, gtu_test_case_new, gtu_test_suite_construct, construct_internal,
  object_construct,
}
use giitestutils.Object.Suite.{has_name, gtu_test_suite_add}
use giitestutils.Object.Paths.{gtu_test_object_get_path}
use giitestutils.Object.Values
use giitestutils.Object.Rules.{Ensures-check_object, Ensures-on_object}
use giitestutils.Object.Counts.{children_of, children_at, occurs, IsLive}
use giitestutils.Object.Later.{Bounded}
use giitestutils.Object.Ancestry.{Names, root, inside, Below, OnlyPaths}
use giitestutils.Object.Finalize.{drop}
use giitestutils.Object.Unref.{unref-Drops}
use giitestutils.Object.Depth.{Bounded-le, All-get}
use giitestutils.Object.GetPath.Result.{get_path-Names}
use giitestutils.Object.Valid.{IsForest, IsValid, IsForest-OnlyPaths}
use giitestutils.Object.Valid.Drop.{IsValid-Later}
use giitestutils.Object.Valid.Refs.{more, ref-IsValid, ref_sink-IsValid, create_instance-IsValid}
use giitestutils.Object.Adopt.{given}
use giitestutils.Object.Add.{Admission, accepted, admission, AddOutcome, suite_add-outcome}

pub data Call : Type 0 where
  new_suite : Bytes → Call
  new_case : Bytes → Body → Bool → Call
  ref ref_sink unref : Ref → Call
  add : Ref → Ref → Call
  get_path : Ref → Call
  value_copy value_free value_collect : Ref → Call

-- A call's result is not used.
abbrev ignoring {ℓ} : {A : Type ℓ} → Exec Store A → Exec Store (Unit {0})
ignoring m = m >>= λ _. pure tt

-- An object that takes one more reference.
pub record HasRoom (h : Store) (p : Ref) : Type 0 where
  pub object : GtuTestObject
  pub at : h.cell p ≡ some object
  pub small : object.ref_count + 1 < 2 ^ 32

-- The suite and the object of a call of gtu_test_suite_add that is accepted.
pub record MayAdd (h : Store) (self p : Ref) : Type 0 where
  pub suite : GtuTestObject
  pub suite_at : h.cell self ≡ some suite
  pub children : List Ref
  pub child_names : List NameKey
  pub is_suite : suite.kind ≡ test_suite children child_names
  pub room : HasRoom h p
  pub accepted : admission room.object child_names ≡ Admission.accepted
  pub apart : ¬ Below h p self

module _ (isspace : ℕ → Bool) where
  -- The call, on fuel.
  unfoldable pub perform : ℕ → Call → Exec Store (Unit {0})
  perform n (new_suite name) = ignoring (gtu_test_suite_new isspace (some name))
  perform n (new_case name func destroys) =
      ignoring (gtu_test_case_new isspace (some name) (some func) destroys)
  perform n (ref p) = ignoring (gtu_test_object_ref p)
  perform n (ref_sink p) = ignoring (gtu_test_object_ref_sink p)
  perform n (unref p) = ignoring (gtu_test_object_unref n p)
  perform n (add self p) = ignoring (gtu_test_suite_add n self p)
  perform n (get_path p) = ignoring (gtu_test_object_get_path isspace n p)
  perform n (value_copy p) = ignoring (Values.value_copy p)
  perform n (value_free p) = ignoring (Values.value_free n p)
  perform n (value_collect p) = ignoring (Values.value_collect p)

  -- What the program sees to: names are elements of paths, only its own references are dropped,
  -- pointers are to live objects, a suite is not put below itself, and the path is asked of an object
  -- whose ancestors are live.
  abbrev pub IsAllowed : Store → (Ref → ℕ) → Call → Type 0
  IsAllowed h owned (new_suite name) = gtu_path_element_is_valid isspace (some name) ≡ true
  IsAllowed h owned (new_case name func destroys) =
      gtu_path_element_is_valid isspace (some name) ≡ true
  IsAllowed h owned (ref p) = HasRoom h p
  IsAllowed h owned (ref_sink p) = HasRoom h p
  IsAllowed h owned (unref p) = 0 < owned p
  IsAllowed h owned (add self p) = MayAdd h self p
  IsAllowed h owned (get_path p) = (xs : List Bytes) × Names h p xs
  IsAllowed h owned (value_copy p) = HasRoom h p
  IsAllowed h owned (value_free p) = 0 < owned p
  IsAllowed h owned (value_collect p) = HasRoom h p

  -- The references that the program owns after the call.
  abbrev pub owned_after : (h : Store) (owned : Ref → ℕ) (c : Call) → IsAllowed h owned c → Ref → ℕ
  owned_after h owned (new_suite name) a = more h.next owned
  owned_after h owned (new_case name func destroys) a = more h.next owned
  owned_after h owned (ref p) a = more p owned
  owned_after h owned (ref_sink p) a = if a.object.is_floating then owned else more p owned
  owned_after h owned (unref p) a = drop p owned
  owned_after h owned (add self p) a = given a.room.object.is_floating p owned
  owned_after h owned (get_path p) a = owned
  owned_after h owned (value_copy p) a = more p owned
  owned_after h owned (value_free p) a = drop p owned
  owned_after h owned (value_collect p) a = more p owned

  -- The ancestors of an object are no more than the store is deep.
  ancestors-depth :
      (h : Store) {owned : Ref → ℕ} (f : IsForest isspace h owned) {p : Ref} {xs : List Bytes}
      → Names h p xs
      → (n : ℕ) × (n + length xs ≡ f.depth + 1) × Bounded h n p
  ancestors-depth h f {p} (root o l top e) =
      (f.depth, omega (arith, ap length e), f.bounded p (o, l))
  ancestors-depth h f {p} {xs} (inside o front l n above e) =
      let (k, total, b) = ancestors-depth h f above in below k total b
    where
      below :
          (k : ℕ)
          → k + length front ≡ f.depth + 1
          → Bounded h k o.parent
          → (n : ℕ) × (n + length xs ≡ f.depth + 1) × Bounded h n p
      below zero total b = absurd b
      below (suc k) total (s, ls, a) = (
        k,
        omega (arith, total, ap length e, length-append front (o.name ∷ [])),
        All-get (λ c. Bounded h k c) (children_of s.kind) p a
            (subst (λ c. 0 < occurs p (children_at c)) ls (f.linked p o l n (s, ls))),
      )

  Names-le-depth :
      (h : Store) {owned : Ref → ℕ} (f : IsForest isspace h owned) {p : Ref} {xs : List Bytes}
      → Names h p xs
      → length xs ≤ f.depth
  Names-le-depth h f {p} {xs} names = let (n, total, b) = ancestors-depth h f names in go n total b
    where
      go : (n : ℕ) → n + length xs ≡ f.depth + 1 → Bounded h n p → length xs ≤ f.depth
      go zero total b = absurd b
      go (suc n) total b = omega (arith, total)

  ignoring-keeps {ℓ} :
      {A : Type ℓ} (P : Store → Type 0) (Q : A → Store → Type 0) (m : Exec Store A) (h : Store)
      → Ensures ⊥ m h Q
      → ((a : A) (h' : Store) → Q a h' → P h')
      → Ensures ⊥ (ignoring m) h (λ u h'. P h')
  ignoring-keeps P Q m h run imp =
      Ensures-bind m _ h run (λ a h' q. Ensures-pure tt h' (imp a h' q))

  construct-IsValid :
      (h : Store) (name : Bytes) {owned : Ref → ℕ}
      → IsValid isspace h owned
      → gtu_path_element_is_valid isspace (some name) ≡ true
      → Ensures ⊥
          (gtu_test_suite_new isspace (some name))
          h
          (λ r h'. IsValid isspace h' (more h.next owned))
  unfolding gtu_test_suite_new
  construct-IsValid h name v valid = rw valid (
      Ensures-bind _ _ h (create_instance-IsValid isspace h name (test_suite [] []) v valid refl)
        (λ p h' w. Ensures-pure _ h' w.1))

  case_new-IsValid :
      (h : Store) (name : Bytes) (func : Body) (destroys : Bool) {owned : Ref → ℕ}
      → IsValid isspace h owned
      → gtu_path_element_is_valid isspace (some name) ≡ true
      → Ensures ⊥
          (gtu_test_case_new isspace (some name) (some func) destroys)
          h
          (λ r h'. IsValid isspace h' (more h.next owned))
  unfolding gtu_test_case_new
  case_new-IsValid h name func destroys v valid = rw valid (
      Ensures-bind _ _ h (create_instance-IsValid isspace h name (test_case _) v valid refl)
        (λ p h' w. Ensures-pure _ h' w.1))

  live_not_null :
      (h : Store) {owned : Ref → ℕ} → IsValid isspace h owned → (p : Ref) → IsLive h p → p ≢ null
  live_not_null h v p (o, l) is_null = ground (arith, is_null, v.forest.counted.no_null, l)

  dropped :
      (h : Store) (owned : Ref → ℕ) (v : IsValid isspace h owned) (p : Ref)
      → 0 < owned p
      → (n : ℕ) → v.forest.depth ≤ n
      → Ensures ⊥ (gtu_test_object_unref n p) h (λ r h'. IsValid isspace h' (drop p owned))
  dropped h owned v p a n enough =
      Ensures-weaken _ h
        (unref-Drops n p h owned v.forest.counted a (
          inl (
            Bounded-le h v.forest.depth n p enough
              (v.forest.bounded p (v.forest.counted.owns p a)))))
        (λ r h' w. IsValid-Later isspace v w.1 w.2)

  not_taken :
      {h : Store} {self p : Ref} (a : MayAdd h self p)
      → has_name a.room.object.name a.child_names ≡ true
      → ⊥
  not_taken a taken = ground (arith, a.accepted, taken)

  -- Every allowed call on a valid store returns, on fuel for the depth of the store, and leaves a
  -- valid store: no object is used after it has been freed, an object lives exactly as long as
  -- there are references to it, and the paths that objects keep are those of their ancestry.
  pub perform-IsValid :
      (h : Store) (owned : Ref → ℕ) (v : IsValid isspace h owned) (c : Call)
      (a : IsAllowed h owned c) (n : ℕ)
      → v.forest.depth ≤ n
      → Ensures ⊥ (perform n c) h (λ u h'. IsValid isspace h' (owned_after h owned c a))
  unfolding perform Values.value_copy Values.value_free Values.value_collect
  perform-IsValid h owned v (new_suite name) a n enough =
      ignoring-keeps _ _ _ h (construct-IsValid h name v a) (λ r h' w. w)
  perform-IsValid h owned v (new_case name func destroys) a n enough =
      ignoring-keeps _ _ _ h (case_new-IsValid h name func destroys v a) (λ r h' w. w)
  perform-IsValid h owned v (ref p) a n enough =
      ignoring-keeps _ _ _ h (ref-IsValid isspace h p v a.at a.small) (λ r h' w. w.1)
  perform-IsValid h owned v (ref_sink p) a n enough =
      ignoring-keeps _ _ _ h (ref_sink-IsValid isspace h p v a.at a.small) (λ r h' w. w.1)
  perform-IsValid h owned v (unref p) a n enough =
      ignoring-keeps _ _ _ h (dropped h owned v p a n enough) (λ r h' w. w)
  perform-IsValid h owned v (add self p) a n enough =
      ignoring-keeps _ _ _ h
        (suite_add-outcome isspace n h owned v self p a.suite a.room.object a.children a.child_names
          a.suite_at a.is_suite a.room.at a.apart a.room.small enough
          (λ taken. absurd (not_taken a taken)))
        (λ r h' w.
          (subst
            (λ b.
              AddOutcome isspace h (given a.room.object.is_floating p owned) self p a.suite
                a.room.object a.children a.child_names b r h')
            a.accepted w).1)
  perform-IsValid h owned v (get_path p) (xs, names) n enough =
      ignoring-keeps _ _ _ h
        (get_path-Names isspace n h p xs v.forest.counted.no_null v.forest.named v.fresh names
          (omega (arith, enough, Names-le-depth h v.forest names)))
        (λ r h' w. record { forest = IsForest-OnlyPaths isspace w.2 v.forest; fresh = w.1 })
  perform-IsValid h owned v (value_copy p) a n enough =
      ignoring-keeps _ _ _ h
        (Ensures-check_object p null _ h a.object (live_not_null h v p (a.object, a.at)) a.at
          (ref-IsValid isspace h p v a.at a.small))
        (λ r h' w. w.1)
  perform-IsValid h owned v (value_free p) a n enough =
      let (o, l) = v.forest.counted.owns p a in
      ignoring-keeps _ _ _ h
        (Ensures-check_object p tt _ h o (live_not_null h v p (o, l)) l
          (dropped h owned v p a n enough))
        (λ r h' w. w)
  perform-IsValid h owned v (value_collect p) a n enough =
      ignoring-keeps _ _ _ h
        (Ensures-if (p == null) _ _ h
          (λ is_null. absurd (live_not_null h v p (a.object, a.at) (ground (arith, is_null))))
          (λ other. Ensures-on_object p _ h a.object a.at (ref-IsValid isspace h p v a.at a.small)))
        (λ r h' w. w.1)
