-- ===== src/Object/Adopt.antt =====
-- A root object becomes the last child of a suite: what gtu_test_suite_add of
-- src/test-suite/test-suite.c has written when the signal is emitted.
pub mod Keeps
pub mod Ancestors
pub mod Entered
use Prim.Native.Nat.{◌^◌, ◌%◌}
use giitestutils.Base.{
  ℕ, zero, suc, ◌+◌, ◌-◌, ◌<◌, ◌≤◌, ◌≡◌, ◌≢◌, refl, sym, ap, ◌∙◌, ◌⊎◌, inl, inr, Bool, true, false,
  ◌&&◌, List, [], ◌∷◌, ◌++◌, Option, none, some, arith, subst, Bytes, ◌==◌, if◌then◌else◌,
  Bool-cases, All, All-imp, zero_or_pos,
}
use giitestutils.Object.{Ref, null, Kind, test_suite, GtuTestObject, Store, inc}
use giitestutils.Object.Counts.{
  children_of, children_at, occurs, occurs-append, held, IsLive, IsCounted, Address-cases,
}
use giitestutils.Object.Later.{Bounded}
use giitestutils.Object.Ancestry.{Names, root, inside, Below, here, down, Below-child, path_at}
use giitestutils.Object.Depth.{Bounded-le}
use giitestutils.Object.Valid.{IsForest, IsValid}

pub record Adopted (h h3 : Store) (self p : Ref) (s o : GtuTestObject) (cs : List Ref)
    : Type 0 where
  pub next : h3.next ≡ h.next
  pub suite : GtuTestObject
  pub suite_at : h3.cell self ≡ some suite
  pub suite_name : suite.name ≡ s.name
  pub suite_parent : suite.parent ≡ s.parent
  pub suite_path : suite.path ≡ s.path
  pub suite_count : suite.ref_count ≡ s.ref_count
  pub suite_children : children_of suite.kind ≡ cs ++ p ∷ []
  pub child : GtuTestObject
  pub child_at : h3.cell p ≡ some child
  pub child_name : child.name ≡ o.name
  pub child_parent : child.parent ≡ self
  pub child_path : child.path ≡ o.path
  pub child_children : children_of child.kind ≡ children_of o.kind
  pub child_count : child.ref_count ≡ (if o.is_floating then o.ref_count else inc o.ref_count)
  pub others : (q : Ref) → q ≢ self → q ≢ p → h3.cell q ≡ h.cell q

-- What the program owns when a suite has taken the reference, the floating one if there is one.
abbrev pub given : Bool → Ref → (Ref → ℕ) → Ref → ℕ
given floating p owned q = if floating && (q == p) then owned q - 1 else owned q

-- A root `p` that is put into the suite `self`, which is not below it.
pub record MayAdopt (isspace : ℕ → Bool) (h : Store) (owned : Ref → ℕ) (self p : Ref)
    (s o : GtuTestObject) (cs : List Ref) : Type 0 where
  pub forest : IsForest isspace h owned
  pub self_at : h.cell self ≡ some s
  pub self_children : children_of s.kind ≡ cs
  pub child_at : h.cell p ≡ some o
  pub is_root : o.parent ≡ null
  pub not_below : ¬ Below h p self
  pub small : o.ref_count + 1 < 2 ^ 32

module _ {isspace : ℕ → Bool} {h h3 : Store} {owned : Ref → ℕ} {self p : Ref} {s o : GtuTestObject}
    {cs : List Ref} (m : MayAdopt isspace h owned self p s o cs)
    (a : Adopted h h3 self p s o cs) where
  pub self-ne-child : self ≢ p
  self-ne-child same = m.not_below (here same)

  self-ne-null : self ≢ null
  self-ne-null is_null = ground (arith, is_null, m.forest.counted.no_null, m.self_at)

  array_before : children_at (h.cell self) ≡ cs
  array_before = ap children_at m.self_at ∙ m.self_children

  array_after : children_at (h3.cell self) ≡ cs ++ p ∷ []
  array_after = ap children_at a.suite_at ∙ a.suite_children

  pub same_arrays : (q : Ref) → q ≢ self → children_at (h3.cell q) ≡ children_at (h.cell q)
  same_arrays q other = elim (Address-cases q p) [
    | inl same ↦
        rw same (ap children_at a.child_at ∙ a.child_children ∙ sym (ap children_at m.child_at))
    | inr distinct ↦ ap children_at (a.others q other distinct)
  ]

  -- The array of the suite has one reference more, to the child.
  pub occurs_after :
      (q r : Ref) → q ≢ p → occurs q (children_at (h3.cell r)) ≡ occurs q (children_at (h.cell r))
  occurs_after q r other = elim (Address-cases r self) [
    | inr distinct ↦ ap (occurs q) (same_arrays r distinct)
    | inl same ↦
        rw (same, array_after, array_before) (ground (arith, occurs-append q cs (p ∷ []), other))
  ]

  -- A root stands in no array.
  not_there : (r : Ref) → occurs p (children_at (h.cell r)) ≡ 0
  not_there r = elim (zero_or_pos (occurs p (children_at (h.cell r)))) [
    | inl none_there ↦ none_there
    | inr some_there ↦
        let (x, l, f) = m.forest.counted.parents r p some_there in
        let g : x ≡ o = ground (arith, l, m.child_at) in
        let r_null : r ≡ null = sym f ∙ ap GtuTestObject.parent g ∙ m.is_root in
        absurd (
          omega (
            arith,
            some_there,
            ap (λ q. occurs p (children_at (h.cell q))) r_null,
            ap (λ c. occurs p (children_at c)) m.forest.counted.no_null,
          ))
  ]

  pub child_there : occurs p (children_at (h3.cell self)) ≡ 1
  child_there =
      rw array_after (
        omega (arith, occurs-append p cs (p ∷ []), one, ap (occurs p) array_before, not_there self))
    where
      one : occurs p (p ∷ []) ≡ 1
      one = ground arith

  -- The object of the later store, as it was.
  pub data Was (q : Ref) (x : GtuTestObject) : Type 0 where
    is_child : q ≡ p → x ≡ a.child → Was q x
    is_old :
        q ≢ p
        → (y : GtuTestObject) → h.cell q ≡ some y
        → x.name ≡ y.name
        → x.parent ≡ y.parent
        → x.path ≡ y.path
        → x.ref_count ≡ y.ref_count
        → Was q x

  pub was : (q : Ref) (x : GtuTestObject) → h3.cell q ≡ some x → Was q x
  was q x l = elim (Address-cases q p) [
    | inl same ↦ is_child same (ground (arith, l, same, a.child_at))
    | inr other ↦ elim (Address-cases q self) [
      | inl same ↦
          let f : x ≡ a.suite = ground (arith, l, same, a.suite_at) in
          is_old other s (ap h.cell same ∙ m.self_at) (ap GtuTestObject.name f ∙ a.suite_name)
            (ap GtuTestObject.parent f ∙ a.suite_parent) (ap GtuTestObject.path f ∙ a.suite_path)
            (ap GtuTestObject.ref_count f ∙ a.suite_count)
      | inr distinct ↦ is_old other x (sym (a.others q distinct other) ∙ l) refl refl refl refl
    ]
  ]

  pub still_live : (q : Ref) → IsLive h q → (x : GtuTestObject) × (h3.cell q ≡ some x)
  still_live q (y, l) = elim (Address-cases q p) [
    | inl same ↦ (a.child, ap h3.cell same ∙ a.child_at)
    | inr other ↦ elim (Address-cases q self) [
      | inl same ↦ (a.suite, ap h3.cell same ∙ a.suite_at)
      | inr distinct ↦ (y, a.others q distinct other ∙ l)
    ]
  ]
