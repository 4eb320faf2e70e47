-- ===== src/Object/Adopt/Entered.antt =====
-- The object that gtu_test_suite_add of src/test-suite/test-suite.c accepts: its name and its place in
-- the suite, and the store that it leaves.
use giitestutils.Base.{
  ℕ, ◌+◌, ◌≤◌, ◌≡◌, ◌≢◌, refl, sym, ap, ◌∙◌, inl, inr, Bool, false, List, [], ◌∷◌, ◌++◌, none, some,
  arith, subst, ◌==◌, if◌then◌else◌, Bool-cases, done, not,
}
use giitestutils.Base.Exec.{Exec, returned, modify, ◌>>=◌}
use giitestutils.Base.Exec.Ensures.{
  Ensures, Post, Ensures-pure, Ensures-bind, Ensures-weaken, Ensures-if,
}
use giitestutils.Base.Exec.Steps.{bind-returned}
use giitestutils.Object.{
  Ref, null, NameKey, test_suite, GtuTestObject, Store, put, inc, more_refs, on_object,
  gtu_test_object_ref_sink, emit_ancestry_signal, set_parent_suite,
}
use giitestutils.Object.Suite.{change_suite, adopt}
use giitestutils.Object.Counts.{children_of, off_put, at_put}
use giitestutils.Object.Depth.{Bounded-le}
use giitestutils.Object.Emit.{ClearsBelow, emit-ClearsBelow}
use giitestutils.Object.Ancestry.{here, IsFresh, OnlyPaths-sym, before, strip, path_at}
use giitestutils.Object.Rules.{Ensures-on_object, Ensures-write}
use giitestutils.Object.Valid.{IsValid}
use giitestutils.Object.Adopt.{Adopted, MayAdopt, given}
use giitestutils.Object.Adopt.Ancestors.{IsValid-adopt, child-Bounded}

pub Ensures-then {ℓ κ} :
    {A : Type ℓ} {B : Type κ} {E : Type 0} {Q : B → Store → Type 0} (m : Exec Store A)
    (f : A → Exec Store B) (h : Store) (a : A) (h' : Store)
    → m h ≡ (returned a, h')
    → Ensures E (f a) h' Q
    → Ensures E (m >>= f) h Q
Ensures-then {E = E} {Q = Q} m f h a h' e r = record {
  holds = subst (λ x. Post E Q x.0 x.1) (sym (bind-returned m f h a h' e)) r.holds;
}

pub change_suite-eq :
    (p : Ref) (f : List Ref → List Ref) (g : List NameKey → List NameKey) (h : Store)
    (s : GtuTestObject) (cs : List Ref) (ns : List NameKey)
    → h.cell p ≡ some s
    → s.kind ≡ test_suite cs ns
    → change_suite p f g h
      ≡ (returned tt, put p (some (record s { kind = test_suite (f cs) (g ns) })) h)
unfolding change_suite modify
change_suite-eq p f g h s cs ns l k = rw (l, on_object) (rw k refl)

abbrev sunk : GtuTestObject → GtuTestObject
sunk o = if o.is_floating then record o { is_floating = false } else more_refs o

ref_sink-eq :
    (p : Ref) (h : Store) (o : GtuTestObject)
    → p ≢ null
    → h.cell p ≡ some o
    → gtu_test_object_ref_sink p h ≡ (returned (done p), put p (some (sunk o)) h)
unfolding gtu_test_object_ref_sink ◌>>=◌
ref_sink-eq p h o n l = let f : (p == null) ≡ false = ground arith in rw f (rw (l, on_object) refl)

sunk_parent : (o : GtuTestObject) → (sunk o).parent ≡ o.parent
sunk_parent o = elim (Bool-cases o.is_floating) [ inl f ↦ rw f refl | inr f ↦ rw f refl ]

sunk_children : (o : GtuTestObject) → children_of (sunk o).kind ≡ children_of o.kind
sunk_children o = elim (Bool-cases o.is_floating) [ inl f ↦ rw f refl | inr f ↦ rw f refl ]

sunk_name : (o : GtuTestObject) → (sunk o).name ≡ o.name
sunk_name o = elim (Bool-cases o.is_floating) [ inl f ↦ rw f refl | inr f ↦ rw f refl ]

sunk_path : (o : GtuTestObject) → (sunk o).path ≡ o.path
sunk_path o = elim (Bool-cases o.is_floating) [ inl f ↦ rw f refl | inr f ↦ rw f refl ]

sunk_count :
    (o : GtuTestObject)
    → (sunk o).ref_count ≡ (if o.is_floating then o.ref_count else inc o.ref_count)
sunk_count o = elim (Bool-cases o.is_floating) [ inl f ↦ rw f refl | inr f ↦ rw f refl ]

sunk_floating : (o : GtuTestObject) → (sunk o).is_floating ≡ false
sunk_floating o = ground arith

-- What gtu_test_suite_add has changed: the object is the last child of the suite and its name the last
-- key; it has its new parent, does not float, has the reference that floated or else one more, and no
-- path; and nothing else has changed but for paths.
pub record IsEntered (h h' : Store) (self p : Ref) (o : GtuTestObject) (cs : List Ref)
    (ns : List NameKey) : Type 0 where
  pub suite : GtuTestObject
  pub suite_at : h'.cell self ≡ some suite
  pub suite_kind :
      suite.kind ≡ test_suite (cs ++ p ∷ []) (ns ++ record { owner = p; text = o.name } ∷ [])
  pub child : GtuTestObject
  pub child_at : h'.cell p ≡ some child
  pub child_name : child.name ≡ o.name
  pub child_parent : child.parent ≡ self
  pub child_sunk : child.is_floating ≡ false
  pub child_count : child.ref_count ≡ (if o.is_floating then o.ref_count else o.ref_count + 1)
  pub child_path : child.path ≡ none
  pub others : (q : Ref) → q ≢ self → q ≢ p → strip (h'.cell q) ≡ strip (h.cell q)

module _ {isspace : ℕ → Bool} {h : Store} {owned : Ref → ℕ} {self p : Ref} {s o : GtuTestObject}
    {cs : List Ref} (ns : List NameKey) (is_suite : s.kind ≡ test_suite cs ns)
    (m : MayAdopt isspace h owned self p s o cs) where
  self-ne : self ≢ p
  self-ne same = m.not_below (here same)

  p-ne-null : p ≢ null
  p-ne-null is_null = ground (arith, is_null, m.forest.counted.no_null, m.child_at)

  abbrev key : NameKey
  key = record { owner = p; text = o.name }

  -- The names are entered, the reference is taken, the array grows, and the parent is written.
  abbrev entered : GtuTestObject
  entered = record s { kind = test_suite cs (ns ++ key ∷ []) }

  abbrev grown : GtuTestObject
  grown = record s { kind = test_suite (cs ++ p ∷ []) (ns ++ key ∷ []) }

  abbrev h1 : Store
  h1 = put self (some entered) h

  abbrev h2 : Store
  h2 = put p (some (sunk o)) h1

  abbrev h3 : Store
  h3 = put self (some grown) h2

  abbrev adopted : Store
  adopted = put p (some (record (sunk o) { parent = self })) h3

  at_h1 : h1.cell p ≡ some o
  at_h1 = off_put h self p _ (λ same. self-ne (sym same)) ∙ m.child_at

  self_h2 : h2.cell self ≡ some entered
  self_h2 = off_put h1 p self _ self-ne ∙ at_put h self _

  at_h3 : h3.cell p ≡ some (sunk o)
  at_h3 = off_put h2 self p _ (λ same. self-ne (sym same)) ∙ at_put h1 p _

  suite_there : adopted.cell self ≡ some grown
  suite_there = off_put h3 p self _ self-ne ∙ at_put h2 self _

  adopted-Adopted : Adopted h adopted self p s o cs
  adopted-Adopted = record {
    next = refl;
    suite = grown;
    suite_at = suite_there;
    suite_name = refl;
    suite_parent = refl;
    suite_path = refl;
    suite_count = refl;
    suite_children = refl;
    child = record (sunk o) { parent = self };
    child_at = at_put h3 p _;
    child_name = sunk_name o;
    child_parent = refl;
    child_path = sunk_path o;
    child_children = sunk_children o;
    child_count = sunk_count o;
    others = λ q not_self not_p.
        off_put h3 p q _ not_p
        ∙ off_put h2 self q _ not_self
        ∙ off_put h1 p q _ not_p
        ∙ off_put h self q _ not_self;
  }

  -- What holds of the store after the signal.
  adopted-IsEntered : (h4 : Store) → ClearsBelow adopted p h4 → IsEntered h h4 self p o cs ns
  adopted-IsEntered h4 (clears, gone) =
      let back = OnlyPaths-sym clears.only in
      let (x, lx, fx) = before back self grown suite_there in
      let (y, ly, fy) = before back p (record (sunk o) { parent = self }) (at_put h3 p _) in
      record {
        suite = x;
        suite_at = lx;
        suite_kind = ap GtuTestObject.kind fx;
        child = y;
        child_at = ly;
        child_name = ap GtuTestObject.name fy ∙ sunk_name o;
        child_parent = ap GtuTestObject.parent fy;
        child_sunk = ap GtuTestObject.is_floating fy ∙ sunk_floating o;
        child_count = ap GtuTestObject.ref_count fy ∙ sunk_count o ∙ counted_once;
        child_path = ap path_at (sym ly) ∙ gone p (here refl);
        others = λ q not_self not_p.
            clears.only.rest q ∙ ap strip (adopted-Adopted.others q not_self not_p);
      }
    where
      counted_once :
          (if o.is_floating then o.ref_count else inc o.ref_count)
          ≡ (if o.is_floating then o.ref_count else o.ref_count + 1)
      counted_once = ground (arith, m.small)

  pub adopt-IsEntered :
      (n : ℕ)
      → IsFresh h
      → m.forest.depth ≤ n
      → Ensures ⊥ (adopt n self p o.name) h (λ r h'.
        (r ≡ done tt)
        × IsValid isspace h' (given o.is_floating p owned)
        × IsEntered h h' self p o cs ns)
  unfolding adopt set_parent_suite
  adopt-IsEntered n fresh enough =
      let e1 =
        change_suite-eq self (λ cs. cs) (λ names. names ++ key ∷ []) h s cs ns m.self_at is_suite in
      let e2 = ref_sink-eq p h1 o p-ne-null at_h1 in
      let e3 =
        change_suite-eq self (λ cs. cs ++ p ∷ []) (λ names. names) h2 entered cs (ns ++ key ∷ [])
          self_h2 refl in
      Ensures-bind _ _ h
        (Ensures-then _ _ h tt h3
          (bind-returned _ _ h (done p) h2 (bind-returned _ _ h tt h1 e1 ∙ e2) ∙ e3)
          (Ensures-on_object p _ h3 (sunk o) at_h3 (
            Ensures-if (not ((sunk o).parent == null)) _ _ h3
              (λ has. absurd (ground (arith, has, sunk_parent o, m.is_root)))
              (λ _.
                Ensures-bind {R = λ u h'. h' ≡ adopted} _ _ h3 (Ensures-write p _ h3 refl)
                  (λ u h' same.
                    subst
                      (λ g. Ensures ⊥ (emit_ancestry_signal n p) g (λ v h4.
                        IsValid isspace h4 (given o.is_floating p owned)
                        × IsEntered h h4 self p o cs ns))
                      (sym same)
                      (Ensures-weaken _ adopted
                        (emit-ClearsBelow n p adopted (
                          Bounded-le adopted m.forest.depth n p enough
                            (child-Bounded m adopted-Adopted)))
                        (λ v h4 cleared. (
                          IsValid-adopt m adopted-Adopted h4 fresh cleared,
                          adopted-IsEntered h4 cleared,
                        ))))))))
        (λ u h4 v. Ensures-pure _ h4 (refl, v.0, v.1))
