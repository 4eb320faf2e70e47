-- ===== src/Object/Add.antt =====
-- gtu_test_suite_add of src/test-suite/test-suite.c: its checks, and the store that it leaves.
use Prim.Native.Nat.{◌^◌}
use giitestutils.Base.{
  ℕ, ◌+◌, ◌<◌, ◌≤◌, ◌≡◌, ◌≢◌, refl, ap, Bool, true, List, some, arith, ◌==◌, if◌then◌else◌, Checked,
  done, critical, not,
}
use giitestutils.Base.Exec.Ensures.{Ensures, Ensures-pure, Ensures-if}
use giitestutils.Object.{Ref, null, NameKey, test_suite, GtuTestObject, Store, put}
use giitestutils.Object.Suite.{has_name, owner_of, take_over, refuse_name, gtu_test_suite_add}
use giitestutils.Object.Counts.{children_of, IsLive}
use giitestutils.Object.Ancestry.{Below}
use giitestutils.Object.Rules.{Ensures-on_object, Ensures-check_object}
use giitestutils.Object.Valid.{IsValid}
use giitestutils.Object.Adopt.{given}
use giitestutils.Object.Adopt.Entered.{IsEntered, Ensures-then, change_suite-eq, adopt-IsEntered}

-- How gtu_test_suite_add answers.
pub data Admission : Type 0 where
  accepted has_parent name_taken : Admission

abbrev pub admission : GtuTestObject → List NameKey → Admission
admission o ns =
    if not (o.parent == null)
    then has_parent
    else if has_name o.name ns
    then name_taken
    else accepted

module _ (isspace : ℕ → Bool) (h : Store) (kept : Ref → ℕ) (self p : Ref) (s o : GtuTestObject)
    (cs : List Ref) (ns : List NameKey) where
  -- An accepted object is entered in a valid store, a refused one leaves the store as it is but for the
  -- key of a name that was taken.
  abbrev pub AddOutcome : Admission → Checked (Unit {0}) → Store → Type 0
  AddOutcome accepted r h' = (r ≡ done tt) × IsValid isspace h' kept × IsEntered h h' self p o cs ns
  AddOutcome has_parent r h' = (r ≡ critical tt) × (h' ≡ h)
  AddOutcome name_taken r h' =
      (r ≡ critical tt)
      × (h' ≡ put self (some (record s { kind = test_suite cs (take_over p o.name ns) })) h)

pub suite_add-outcome :
    (isspace : ℕ → Bool) (n : ℕ) (h : Store) (owned : Ref → ℕ) (v : IsValid isspace h owned)
    (self p : Ref) (s o : GtuTestObject) (cs : List Ref) (ns : List NameKey)
    → h.cell self ≡ some s
    → s.kind ≡ test_suite cs ns
    → h.cell p ≡ some o
    → (¬ Below h p self)
    → o.ref_count + 1 < 2 ^ 32
    → v.forest.depth ≤ n
    → (has_name o.name ns ≡ true → IsLive h (owner_of o.name ns))
    → Ensures ⊥ (gtu_test_suite_add n self p) h (λ r h'.
      AddOutcome isspace h (given o.is_floating p owned) self p s o cs ns (admission o ns) r h')
unfolding gtu_test_suite_add
suite_add-outcome isspace n h owned v self p s o cs ns ls k lo apart small enough owner =
    let not_null : (q : Ref) → IsLive h q → q ≢ null =
      λ q (x, l) is_null. ground (arith, is_null, v.forest.counted.no_null, l) in
    Ensures-check_object self tt _ h s (not_null self (s, ls)) ls (
      rw k (
        Ensures-check_object p tt _ h o (not_null p (o, lo)) lo (
          Ensures-if (not (o.parent == null)) _ _ h (λ has. rw has (Ensures-pure _ h (refl, refl)))
            (λ top.
              Ensures-if (has_name o.name ns) _ _ h
                (λ taken. rw (top, taken) (name_taken-refused (owner taken)))
                (λ new.
                  rw (top, new)
                    (adopt-IsEntered ns k
                      (record {
                        forest = v.forest;
                        self_at = ls;
                        self_children = ap children_of k;
                        child_at = lo;
                        is_root = ground (arith, top);
                        not_below = apart;
                        small = small;
                      })
                      n v.fresh enough))))))
  where
    name_taken-refused :
        IsLive h (owner_of o.name ns)
        → Ensures ⊥ (refuse_name self p o.name ns) h (λ r h'.
          (r ≡ critical tt)
          × (h' ≡ put self (some (record s { kind = test_suite cs (take_over p o.name ns) })) h))
    name_taken-refused (x, lx) = Ensures-on_object (owner_of o.name ns) _ h x lx (
        Ensures-then _ _ h tt _
          (change_suite-eq self (λ cs. cs) (take_over p o.name) h s cs ns ls k)
          (Ensures-pure _ _ (refl, refl)))
