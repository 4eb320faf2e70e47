-- ===== src/Object/GetPath/Result.antt =====
-- gtu_test_object_get_path gives the names of the ancestors and of the object.
use giitestutils.Base.{
  ℕ, zero, suc, ◌≤◌, ◌≡◌, ◌≢◌, refl, sym, ap, ◌∙◌, inl, inr, Bool, true, List, [], ◌∷◌, ◌++◌,
  Option, none, some, arith, subst, Bytes, length, length-append, done, value, ◌==◌,
}
use giitestutils.Base.Exec.{Exec, ◌>>=◌, ◌>>◌}
use giitestutils.Base.Exec.Ensures.{
  Ensures, Ensures-pure, Ensures-bind, Ensures-weaken, Ensures-if, Ensures-on_option,
}
use giitestutils.TestPath.{GtuPath, gtu_path_element_is_valid}
use giitestutils.TestPath.Elements.{join_paths}
use giitestutils.Object.{Ref, null, GtuTestObject, Store}
use giitestutils.Object.Paths.{own_path, set_path, path_of, prepend_to, gtu_test_object_get_path}
use giitestutils.Object.Counts.{Address-cases, off_put, at_put}
use giitestutils.Object.Ancestry.{
  Names, root, inside, path_at, OnlyPaths, OnlyPaths-refl, OnlyPaths-sym, before, Names-before,
  IsFresh,
}
use giitestutils.Object.Rules.{Ensures-on_object, Ensures-check_object, Ensures-write}
use giitestutils.Object.GetPath.{
  Names-unique, not_own_parent, Fills, Fills-refl, IsFresh-Fills, FreshTo, AllNamed, OnlyPaths-put,
  GivesPath, with_own, own_at, own_off, only_own, Fills-own,
}

path_some :
    (c : Option GtuTestObject) (path : GtuPath)
    → path_at c ≡ some path
    → (o : GtuTestObject) × (c ≡ some o) × (o.path ≡ some path)
path_some none path e = ground arith
path_some (some o) path e = (o, refl, e)

path_of-Gives :
    (h h' : Store) (p : Ref) (xs : List Bytes) (path : GtuPath)
    → path_at (h'.cell p) ≡ some path
    → path.elements ≡ xs
    → Fills h h'
    → Ensures ⊥ (path_of p) h' (λ r h''. GivesPath h p xs r h'')
path_of-Gives h h' p xs path e right f =
    let (o, l, e') = path_some (h'.cell p) path e in
    Ensures-on_object p _ h' o l (Ensures-pure _ h' (path, ap done e', right, e, f))

-- The path of the parent is put in front of the object's own.
prepend_to-Prepends :
    (h : Store) (p parent : Ref) (own front : GtuPath)
    → p ≢ parent
    → path_at (h.cell p) ≡ some own
    → Ensures ⊥ (prepend_to p parent (some front)) h (λ u h'.
      OnlyPaths h h'
      × ((q : Ref) → q ≢ p → path_at (h'.cell q) ≡ path_at (h.cell q))
      × (path_at (h'.cell p) ≡ some (record own { elements = front.elements ++ own.elements })))
unfolding prepend_to
prepend_to-Prepends h p parent own front n e =
    let (o, l, e') = path_some (h.cell p) own e in
    Ensures-if (p == parent) _ _ h (λ same. absurd (n (ground arith)))
      (λ _. Ensures-on_object p _ h o l (
        Ensures-on_option o.path _ _ h (λ missing. absurd (ground (arith, missing, e')))
          (λ path there. Ensures-write p _ h (
            OnlyPaths-put h p o _ l,
            λ q other. ap path_at (off_put h p q _ other),
            ap path_at (at_put h p _)
                ∙ ap some (
                    (join_paths path front).0
                    ∙ ap
                        (λ (own : GtuPath). record own {
                          elements = front.elements ++ own.elements;
                        })
                        (ground (arith, there, e'))),
          ))))

module _ (isspace : ℕ → Bool) where
  abbrev Gives : ℕ → Type 0
  Gives n =
      (h : Store) (p : Ref) (xs : List Bytes)
      → h.cell null ≡ none
      → AllNamed isspace h
      → FreshTo h (length xs)
      → Names h p xs
      → length xs ≤ n
      → Ensures ⊥ (gtu_test_object_get_path isspace n p) h (λ r h'. GivesPath h p xs r h')

  -- What happens to an object without a path inside a suite.
  inside-Prepends :
      (n : ℕ)
      → Gives n
      → (h : Store) (p : Ref) (o : GtuTestObject) (front : List Bytes) (l : h.cell p ≡ some o)
        (named : AllNamed isspace h)
      → h.cell null ≡ none
      → FreshTo h (length (front ++ o.name ∷ []))
      → o.path ≡ none
      → o.parent ≢ null
      → Names h o.parent front
      → length (front ++ o.name ∷ []) ≤ suc n
      → Ensures ⊥
          (gtu_test_object_get_path isspace n o.parent >>= λ r. prepend_to p o.parent (value r))
          (with_own isspace h p l named)
          (λ u h3.
            Fills h h3
            × (path_at (h3.cell p)
                ≡ some (record { elements = front ++ o.name ∷ []; cached_string = none })))
  inside-Prepends n gives h p o front l named no_null fresh missing n_root above le =
      let h1 : Store = with_own isspace h p l named in
      let only1 : OnlyPaths h h1 = only_own isspace h p l named in
      let own : GtuPath = record { elements = o.name ∷ []; cached_string = none } in
      let shorter = length-append front (o.name ∷ []) in
      Ensures-bind _ _ h1
        (gives h1 o.parent front
          (off_put h p null _ (λ is_p. ground (arith, is_p, no_null, l)) ∙ no_null)
          (λ q x m.
            let (y, m', f) = before only1 q x m in
            subst (λ name. gtu_path_element_is_valid isspace (some name) ≡ true)
              (ap GtuTestObject.name f) (named q y m'))
          (λ q ys path names short e. elim (Address-cases q p) [
            | inl same ↦
                let were : Names h p ys =
                  subst (λ r. Names h r ys) same (Names-before only1 names) in
                absurd (
                  omega (
                    arith,
                    short,
                    shorter,
                    ap length (Names-unique h were (inside o front l n_root above refl)),
                  ))
            | inr other ↦
                fresh q ys path (Names-before only1 names) (omega (arith, short, shorter))
                  (sym (own_off isspace h p l named q other) ∙ e)
          ])
          (Names-before (OnlyPaths-sym only1) above) (omega (arith, le, shorter)))
        (λ r h2 (path, is_done, right, there, f).
          let own_there : path_at (h2.cell p) ≡ some own = elim (f.paths p) [
            | inl same ↦ same ∙ own_at isspace h p l named
            | inr filled ↦ absurd (ground (arith, filled.missing, own_at isspace h p l named))
          ] in
          subst
            (λ x. Ensures ⊥ (prepend_to p o.parent (value x)) h2 (λ u h3.
              Fills h h3
              × (path_at (h3.cell p)
                  ≡ some (record { elements = front ++ o.name ∷ []; cached_string = none }))))
            (sym is_done)
            (Ensures-weaken _ h2
              (prepend_to-Prepends h2 p o.parent own path (not_own_parent h o front l n_root above)
                own_there)
              (λ u h3 (only3, others, e3).
                let e4 : path_at (h3.cell p)
                    ≡ some (record { elements = front ++ o.name ∷ []; cached_string = none }) =
                  e3
                  ∙ ap (λ t. some (record { elements = t ++ o.name ∷ []; cached_string = none }))
                      right in
                (
                  Fills-own isspace h p l named h2 h3 (front ++ o.name ∷ []) _ missing
                      (inside o front l n_root above refl) f only3 others e4 refl refl,
                  e4,
                ))))

  -- The path is looked for once the object's own path stands there.
  first_time-Gives :
      (h : Store) (p : Ref) (o : GtuTestObject) (xs : List Bytes) (l : h.cell p ≡ some o)
      (named : AllNamed isspace h) (m : Exec Store (Unit {0}))
      → Ensures ⊥ m (with_own isspace h p l named) (λ u h3.
        Fills h h3 × (path_at (h3.cell p) ≡ some (record { elements = xs; cached_string = none })))
      → Ensures ⊥
          (set_path p (own_path isspace o.name) >> m >> path_of p)
          h
          (λ r h'. GivesPath h p xs r h')
  first_time-Gives h p o xs l named m run =
      Ensures-bind _ _ h
        (Ensures-bind {R = λ u h'. h' ≡ with_own isspace h p l named} _ _ h
          (Ensures-on_object p _ h o l (Ensures-write p _ h refl))
          (λ u h' same.
            subst
              (λ g. Ensures ⊥ m g (λ v h3.
                Fills h h3
                × (path_at (h3.cell p) ≡ some (record { elements = xs; cached_string = none }))))
              (sym same) run))
        (λ u h3 f. path_of-Gives h h3 p xs _ f.1 refl f.0)

  -- The path that an object has is given as it is.
  known-Gives :
      (h : Store) (p : Ref) (o : GtuTestObject) (xs : List Bytes) (path : GtuPath)
      → FreshTo h (length xs)
      → Names h p xs
      → h.cell p ≡ some o
      → o.path ≡ some path
      → GivesPath h p xs (done (some path)) h
  known-Gives h p o xs path fresh names l e =
      let there = ap path_at l ∙ e in
      (path, refl, fresh p xs path names (omega arith) there, there, Fills-refl h)

  get_path-Gives : (n : ℕ) → Gives n
  unfolding gtu_test_object_get_path
  get_path-Gives zero h p xs no_null named fresh (root o l top e) le =
      absurd (omega (arith, ap length e, le))
  get_path-Gives zero h p xs no_null named fresh (inside o front l n above e) le =
      absurd (omega (arith, ap length e, length-append front (o.name ∷ []), le))
  get_path-Gives (suc n) h p xs no_null named fresh (root o l top e) le =
      Ensures-check_object p none _ h o (λ is_null. ground (arith, is_null, no_null, l)) l
        (Ensures-on_option o.path _ _ h
          (λ missing. first_time-Gives h p o xs l named _ (
            Ensures-if (o.parent == null) _ _ _
              (λ _. Ensures-pure tt _ (
                Fills-own isspace h p l named _ _ xs _ missing (root o l top e) (Fills-refl _)
                    (OnlyPaths-refl _) (λ q other. refl) (own_at isspace h p l named) (sym e) refl,
                own_at isspace h p l named
                    ∙ ap (λ t. some (record { elements = t; cached_string = none })) (sym e),
              ))
              (λ has. absurd (ground (arith, has, top)))))
          (λ path there.
            Ensures-pure _ h (known-Gives h p o xs path fresh (root o l top e) l there)))
  get_path-Gives (suc n) h p xs no_null named fresh (inside o front l n_root above e) le =
      Ensures-check_object p none _ h o (λ is_null. ground (arith, is_null, no_null, l)) l
        (Ensures-on_option o.path _ _ h
          (λ missing. first_time-Gives h p o xs l named _ (
            Ensures-if (o.parent == null) _ _ _ (λ is_root. absurd (n_root (ground arith)))
              (λ _. rw e (
                inside-Prepends n (get_path-Gives n) h p o front l named no_null
                  (subst (λ t. FreshTo h (length t)) e fresh) missing n_root above
                  (subst (λ t. length t ≤ suc n) e le)))))
          (λ path there.
            Ensures-pure _ h
              (known-Gives h p o xs path fresh (inside o front l n_root above e) l there)))

  -- With fuel for the number of names, gtu_test_object_get_path returns the path of the names of the
  -- object's ancestors, the outermost first, and of its own; the paths that it leaves in the objects
  -- are right again, and nothing else changes. Conditions: the names are elements of paths, and the
  -- paths that objects have are those of their ancestry.
  pub get_path-Names :
      (n : ℕ) (h : Store) (p : Ref) (xs : List Bytes)
      → h.cell null ≡ none
      → AllNamed isspace h
      → IsFresh h
      → Names h p xs
      → length xs ≤ n
      → Ensures ⊥ (gtu_test_object_get_path isspace n p) h (λ r h'.
        ((path : GtuPath) × (r ≡ done (some path)) × (path.elements ≡ xs))
        × IsFresh h'
        × OnlyPaths h h')
  get_path-Names n h p xs no_null named fresh names le =
      Ensures-weaken _ h
        (get_path-Gives n h p xs no_null named
          (λ q ys path were _ e. fresh.elements q ys path were e) names le)
        (λ r h' (path, is_done, right, there, f).
          ((path, is_done, right), IsFresh-Fills f fresh, f.only))
