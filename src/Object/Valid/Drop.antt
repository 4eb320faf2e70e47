-- ===== src/Object/Valid/Drop.antt =====
-- What a drop of a reference keeps.
use giitestutils.Base.{
  ℕ, zero, suc, ◌<◌, ◌≡◌, refl, sym, ap, ◌∙◌, inl, inr, Bool, true, List, [], ◌∷◌, ◌++◌, Option,
  none, some, arith, subst, Bytes,
}
use giitestutils.TestPath.{GtuPath, gtu_path_element_is_valid}
use giitestutils.Object.{Ref, null, GtuTestObject, Store}
use giitestutils.Object.Counts.{children_of, children_at, occurs, IsLive, IsCounted}
use giitestutils.Object.Later.{IsKin, Bounded-Later, Later}
use giitestutils.Object.Ancestry.{Names, root, inside, path_at, IsFresh}
use giitestutils.Object.Valid.{IsValid}

module _ {h h' : Store} (later : Later h h')
    (alive : (p : Ref) (o : GtuTestObject) → h.cell p ≡ some o → 0 < o.ref_count) where
  -- No object has died and stayed.
  still_alive : (p : Ref) (o : GtuTestObject) → h'.cell p ≡ some o → 0 < o.ref_count
  still_alive p o l = go o.ref_count refl
    where
      go : (n : ℕ) → o.ref_count ≡ n → 0 < o.ref_count
      go zero e = absurd (omega (arith, alive p o ((later p).dead o l e), e))
      go (suc n) e = omega (arith, e)

  same_kind : (p : Ref) (o o' : GtuTestObject) → h'.cell p ≡ some o' → IsKin o o' → o'.kind ≡ o.kind
  same_kind p o o' l k = elim k.kind [
    | inl same ↦ same
    | inr gone ↦ absurd (omega (arith, still_alive p o' l, gone.0))
  ]

  same_children : (p : Ref) → IsLive h' p → children_at (h'.cell p) ≡ children_at (h.cell p)
  same_children p (o', l) =
      let (o, m, k) = (later p).was o' l in
      ap children_at l ∙ ap children_of (same_kind p o o' l k) ∙ sym (ap children_at m)

  Names-Later : {p : Ref} {xs : List Bytes} → Names h' p xs → Names h p xs
  Names-Later {p} (root o l top e) =
      let (x, m, k) = (later p).was o l in
      root x m (sym k.parent ∙ top) (e ∙ ap (λ n. n ∷ []) k.name)
  Names-Later {p} (inside o front l n above e) =
      let (x, m, k) = (later p).was o l in
      inside x front m (λ top. n (k.parent ∙ top))
        (subst (λ r. Names h r front) k.parent (Names-Later above))
        (e ∙ ap (λ n. front ++ n ∷ []) k.name)

  path-Later :
      (p : Ref) (path : GtuPath) → path_at (h'.cell p) ≡ some path → path_at (h.cell p) ≡ some path
  path-Later p path e = go (h'.cell p) refl e
    where
      go :
          (c : Option GtuTestObject)
          → h'.cell p ≡ c
          → path_at c ≡ some path
          → path_at (h.cell p) ≡ some path
      go none l e = ground arith
      go (some o) l e = let (x, m, k) = (later p).was o l in ap path_at m ∙ sym k.path ∙ e

  IsFresh-Later : IsFresh h → IsFresh h'
  IsFresh-Later f = record {
    elements = λ p xs path names e. f.elements p xs path (Names-Later names) (path-Later p path e);
    string = λ p path s e printed. f.string p path s (path-Later p path e) printed;
  }

pub IsValid-Later :
    (isspace : ℕ → Bool) {h h' : Store} {owned kept : Ref → ℕ}
    → IsValid isspace h owned
    → IsCounted h' kept
    → Later h h'
    → IsValid isspace h' kept
IsValid-Later isspace {h} {h'} v c later = record {
  forest = record {
    counted = c;
    alive = still_alive later v.forest.alive;
    linked = λ p o l n (s, k).
        let (x, m, kin) = (later p).was o l in
        let (t, k', _) = (later o.parent).was s k in
        rw (same_children later v.forest.alive o.parent (s, k)) (
          subst (λ r. 0 < occurs p (children_at (h.cell r))) (sym kin.parent)
            (v.forest.linked p x m (λ top. n (kin.parent ∙ top))
              (t, ap h.cell (sym kin.parent) ∙ k')));
    started = omega (arith, v.forest.started, (later null).next);
    old_parents = λ p o l.
        let (x, m, k) = (later p).was o l in
        omega (arith, v.forest.old_parents p x m, k.parent, (later p).next);
    named = λ p o l.
        let (x, m, k) = (later p).was o l in
        subst (λ name. gtu_path_element_is_valid isspace (some name) ≡ true) (sym k.name)
          (v.forest.named p x m);
    depth = v.forest.depth;
    bounded = λ p (o, l).
        let (x, m, k) = (later p).was o l in
        Bounded-Later h h' c (λ q. (later q).was) v.forest.depth p (v.forest.bounded p (x, m))
          (o, l);
  };
  fresh = IsFresh-Later later v.forest.alive v.fresh;
}
