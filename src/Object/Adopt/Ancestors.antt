-- ===== src/Object/Adopt/Ancestors.antt =====
-- The ancestry of the objects when a root is adopted: only the objects below it have new names.
use giitestutils.Base.{
  ℕ, zero, suc, ◌+◌, ◌<◌, ◌≤◌, ◌≡◌, ◌≢◌, refl, sym, ap, ◌∙◌, ◌⊎◌, inl, inr, Bool, true, List, [],
  ◌∷◌, ◌++◌, Option, none, some, arith, subst, Bytes, All, All-imp, All-append, if◌then◌else◌,
  false,
}
use giitestutils.TestPath.{GtuPath, gtu_path_element_is_valid}
use giitestutils.Object.{Ref, GtuTestObject, Store, inc}
use giitestutils.Object.Counts.{children_of, children_at, occurs, IsLive, Address-cases}
use giitestutils.Object.Later.{Bounded}
use giitestutils.Object.Ancestry.{
  Names, root, inside, Below, here, down, Below-child, path_at, Names-before, IsFresh,
}
use giitestutils.Object.Depth.{Bounded-le, All-occurs}
use giitestutils.Object.Emit.{ClearsBelow}
use giitestutils.Object.Valid.{IsForest, IsValid, IsForest-OnlyPaths}
use giitestutils.Object.Adopt.{
  Adopted, given, MayAdopt, same_arrays, array_before, array_after, is_child, is_old, was,
  still_live,
}
use giitestutils.Object.Adopt.Keeps.{IsCounted-adopt, linked_after, known, IsLive-before}

module _ {isspace : ℕ → Bool} {h h3 : Store} {owned : Ref → ℕ} {self p : Ref} {s o : GtuTestObject}
    {cs : List Ref} (m : MayAdopt isspace h owned self p s o cs)
    (a : Adopted h h3 self p s o cs) where
  -- What is not above the suite is as deep as before.
  Bounded-apart : (n : ℕ) (q : Ref) → Bounded h n q → (¬ Below h q self) → Bounded h3 n q
  Bounded-apart zero q b apart = b
  Bounded-apart (suc n) q (y, l, below) apart =
      let (x, k) = still_live m a q (y, l) in
      let e : children_of x.kind ≡ children_of y.kind =
        sym (ap children_at k)
        ∙ same_arrays m a q (λ is_self. apart (here (sym is_self)))
        ∙ ap children_at l in
      (
        x,
        k,
        subst (λ ds. All (λ d. Bounded h3 n d) ds) (sym e)
            (All-occurs (λ d. Bounded h n d) (λ d. Bounded h3 n d) (children_of y.kind)
              (λ d there b. Bounded-apart n d b (λ under.
                apart
                  (down d (subst (λ ds. 0 < occurs d ds) (sym (ap children_at l)) there) under)))
              below),
      )

  child_depth : Bounded h3 m.forest.depth p
  child_depth = Bounded-apart m.forest.depth p (m.forest.bounded p (o, m.child_at)) m.not_below

  -- What is above it is deeper by the depth of the child at most.
  Bounded-adopt : (n k : ℕ) (q : Ref) → n + m.forest.depth ≤ k → Bounded h n q → Bounded h3 k q
  Bounded-adopt zero k q le b = absurd b
  Bounded-adopt (suc n) zero q le b = absurd (omega (arith, le))
  Bounded-adopt (suc n) (suc k) q le (y, l, below) =
      let (x, lx) = still_live m a q (y, l) in
      let rest =
        All-imp (λ d. Bounded h n d) (λ d. Bounded h3 k d) (children_of y.kind)
          (λ d. Bounded-adopt n k d (omega (arith, le))) below in
      (
        x,
        lx,
        elim (Address-cases q self) [
          | inr other ↦
              subst (λ ds. All (λ d. Bounded h3 k d) ds)
                (sym (ap children_at l) ∙ sym (same_arrays m a q other) ∙ ap children_at lx) rest
          | inl same ↦
              subst (λ ds. All (λ d. Bounded h3 k d) ds)
                (sym (array_after m a)
                  ∙ ap (λ r. children_at (h3.cell r)) (sym same)
                  ∙ ap children_at lx)
                (All-append (λ d. Bounded h3 k d) cs (p ∷ [])
                  (subst (λ ds. All (λ d. Bounded h3 k d) ds)
                    (sym (ap children_at l)
                      ∙ ap (λ r. children_at (h.cell r)) same
                      ∙ array_before m a)
                    rest)
                  (Bounded-le h3 m.forest.depth k p (omega (arith, le)) child_depth, tt))
        ],
      )

  pub IsForest-adopt : IsForest isspace h3 (given o.is_floating p owned)
  IsForest-adopt = record {
    counted = IsCounted-adopt m a;
    alive = λ q x l. elim (was m a q x l) [
      | is_child e f ↦
          omega (arith, ap GtuTestObject.ref_count f, a.child_count, child_alive o.is_floating)
      | is_old other y k n r t c ↦ omega (arith, c, m.forest.alive q y k)
    ];
    linked = linked_after m a;
    started = omega (arith, m.forest.started, a.next);
    old_parents = λ q x l. elim (was m a q x l) [
      | is_child e f ↦
          omega (
            arith,
            ap GtuTestObject.parent f,
            a.child_parent,
            a.next,
            known m a self (s, m.self_at),
          )
      | is_old other y k n r t c ↦ omega (arith, r, a.next, m.forest.old_parents q y k)
    ];
    named = λ q x l. elim (was m a q x l) [
      | is_child e f ↦
          subst (λ name. gtu_path_element_is_valid isspace (some name) ≡ true)
            (sym (ap GtuTestObject.name f ∙ a.child_name)) (m.forest.named p o m.child_at)
      | is_old other y k n r t c ↦
          subst (λ name. gtu_path_element_is_valid isspace (some name) ≡ true) (sym n)
            (m.forest.named q y k)
    ];
    depth = m.forest.depth + m.forest.depth;
    bounded = λ q live.
        Bounded-adopt m.forest.depth (m.forest.depth + m.forest.depth) q (omega arith)
          (m.forest.bounded q (IsLive-before m a q live));
  }
    where
      child_alive : (b : Bool) → 0 < (if b then o.ref_count else inc o.ref_count)
      child_alive true = m.forest.alive p o m.child_at
      child_alive false = omega (arith, m.small)

  -- Below the child, or with the names of before.
  Names-adopt : {q : Ref} {xs : List Bytes} → Names h3 q xs → Below h3 p q ⊎ Names h q xs
  Names-adopt {q} {xs} (root x l top e) = elim (was m a q x l) [
    | is_child same f ↦ inl (here same)
    | is_old other y k n r t c ↦ inr (root y k (sym r ∙ top) (e ∙ ap (λ w. w ∷ []) n))
  ]
  Names-adopt {q} {xs} (inside x front l n above e) = elim (was m a q x l) [
    | is_child same f ↦ inl (here same)
    | is_old other y k nm r t c ↦ elim (Names-adopt above) [
      | inl under ↦ inl (Below-child h3 q under (linked_after m a q x l n (live_of above)))
      | inr names ↦ inr (
          inside y front k (λ top. n (r ∙ top)) (subst (λ v. Names h v front) r names)
            (e ∙ ap (λ w. front ++ w ∷ []) nm))
    ]
  ]
    where
      live_of : {v : Ref} {ys : List Bytes} → Names h3 v ys → IsLive h3 v
      live_of (root z lz top ez) = (z, lz)
      live_of (inside z ys lz nz az ez) = (z, lz)

  path_before :
      (q : Ref) (path : GtuPath)
      → q ≢ p
      → path_at (h3.cell q) ≡ some path
      → path_at (h.cell q) ≡ some path
  path_before q path other e = go (h3.cell q) refl e
    where
      go :
          (c : Option GtuTestObject)
          → h3.cell q ≡ c
          → path_at c ≡ some path
          → path_at (h.cell q) ≡ some path
      go none l e = ground arith
      go (some x) l e = elim (was m a q x l) [
        | is_child same f ↦ absurd (other same)
        | is_old n y k nm r t c ↦ ap path_at k ∙ sym t ∙ e
      ]

  -- A path that has outlived the signal was there before.
  kept_path :
      (h4 : Store) (q : Ref) (path : GtuPath)
      → ClearsBelow h3 p h4
      → path_at (h4.cell q) ≡ some path
      → (¬ Below h3 p q) × (path_at (h.cell q) ≡ some path)
  kept_path h4 q path cleared e = elim (cleared.0.paths q) [
    | inl gone ↦ absurd (ground (arith, gone, e))
    | inr same ↦ (
      λ under. ground (arith, cleared.1 q under, e),
      path_before q path (λ is_p. ground (arith, cleared.1 q (here is_p), e)) (sym same ∙ e),
    )
  ]

  -- Once the signal has been emitted, all paths are right again.
  pub IsValid-adopt :
      (h4 : Store)
      → IsFresh h
      → ClearsBelow h3 p h4
      → IsValid isspace h4 (given o.is_floating p owned)
  IsValid-adopt h4 fresh cleared = record {
    forest = IsForest-OnlyPaths isspace cleared.0.only IsForest-adopt;
    fresh = record {
      elements = λ q xs path names e.
          let (apart, before) = kept_path h4 q path cleared e in
          elim (Names-adopt (Names-before cleared.0.only names)) [
            | inl under ↦ absurd (apart under)
            | inr names_before ↦ fresh.elements q xs path names_before before
          ];
      string =
          λ q path t e printed. fresh.string q path t (kept_path h4 q path cleared e).1 printed;
    };
  }

  pub child-Bounded : Bounded h3 m.forest.depth p
  child-Bounded = child_depth
