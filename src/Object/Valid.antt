-- ===== src/Object/Valid.antt =====
-- What holds of a store of test objects between two calls of a program.
pub mod Drop
pub mod Refs
use Prim.Native.Nat.{◌^◌}
use giitestutils.Base.{
  ℕ, zero, suc, ◌+◌, ◌<◌, ◌≤◌, ◌≡◌, ◌≢◌, refl, sym, ap, ◌∙◌, ◌⊎◌, inl, inr, Bool, true, List, [],
  ◌∷◌, ◌++◌, Option, none, some, arith, subst, Bytes,
}
use giitestutils.TestPath.{GtuPath, gtu_path_element_is_valid}
use giitestutils.Object.{Ref, null, Kind, GtuTestObject, Store, put}
use giitestutils.Object.Counts.{
  children_of, children_at, occurs, held, IsLive, IsCounted, IsSameShape, Address-cases, off_put,
  at_put, write-IsCounted,
}
use giitestutils.Object.Later.{Bounded, IsKin, Bounded-Later}
use giitestutils.Object.Ancestry.{
  Names, root, inside, path_at, OnlyPaths, OnlyPaths-sym, before, children-before, Names-before,
  IsCounted-OnlyPaths, IsFresh,
}
use giitestutils.Object.Emit.{Bounded-OnlyPaths}
use giitestutils.Object.GetPath.{AllNamed}

-- The references are counted, no object is dead, an object is in the array of its parent as long as
-- that lives, no parent is yet to be allocated, every name is an element of a path, and no chain of children goes on for ever.
pub record IsForest (isspace : ℕ → Bool) (h : Store) (owned : Ref → ℕ) : Type 0 where
  pub counted : IsCounted h owned
  pub alive : (p : Ref) (o : GtuTestObject) → h.cell p ≡ some o → 0 < o.ref_count
  pub linked :
      (p : Ref) (o : GtuTestObject)
      → h.cell p ≡ some o
      → o.parent ≢ null
      → IsLive h o.parent
      → 0 < occurs p (children_at (h.cell o.parent))
  pub started : null < h.next
  pub old_parents : (p : Ref) (o : GtuTestObject) → h.cell p ≡ some o → o.parent < h.next
  pub named : AllNamed isspace h
  pub depth : ℕ
  pub bounded : (p : Ref) → IsLive h p → Bounded h depth p

-- Besides, the paths that objects have are those of their ancestry.
pub record IsValid (isspace : ℕ → Bool) (h : Store) (owned : Ref → ℕ) : Type 0 where
  pub forest : IsForest isspace h owned
  pub fresh : IsFresh h

module _ (isspace : ℕ → Bool) where
  pub IsForest-OnlyPaths :
      {h h' : Store} {owned : Ref → ℕ}
      → OnlyPaths h h'
      → IsForest isspace h owned
      → IsForest isspace h' owned
  IsForest-OnlyPaths {h} {h'} only f = record {
    counted = IsCounted-OnlyPaths only f.counted;
    alive = λ p o l.
        let (x, m, e) = before only p o l in
        subst (λ n. 0 < n) (ap GtuTestObject.ref_count e) (f.alive p x m);
    linked = λ p o l n (s, k).
        let (x, m, e) = before only p o l in
        let g : x.parent ≡ o.parent = ap GtuTestObject.parent e in
        let (t, k', _) = before only o.parent s k in
        rw (children-before only o.parent) (
          subst (λ r. 0 < occurs p (children_at (h.cell r))) g
            (f.linked p x m (λ top. n (sym g ∙ top)) (t, ap h.cell g ∙ k')));
    started = omega (arith, f.started, only.next);
    old_parents = λ p o l.
        let (x, m, e) = before only p o l in
        omega (arith, f.old_parents p x m, ap GtuTestObject.parent e, only.next);
    named = λ p o l.
        let (x, m, e) = before only p o l in
        subst (λ name. gtu_path_element_is_valid isspace (some name) ≡ true)
          (ap GtuTestObject.name e) (f.named p x m);
    depth = f.depth;
    bounded = λ p (o, l).
        let (x, m, e) = before only p o l in Bounded-OnlyPaths f.depth p only (f.bounded p (x, m));
  }
