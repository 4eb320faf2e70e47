-- ===== src/Object/GetPath.antt =====
-- gtu_test_object_get_path: the path it gives, and the paths that it leaves in the objects.
pub mod Result
use giitestutils.Base.{
  ℕ, zero, suc, ◌+◌, ◌<◌, ◌≤◌, ◌≡◌, ◌≢◌, refl, sym, ap, ◌∙◌, ◌⊎◌, inl, inr, Bool, true, false, List,
  [], ◌∷◌, ◌++◌, Option, none, some, arith, subst, Bytes, length, length-append, Checked, done,
  value, Bool-cases, ◌==◌, if◌then◌else◌, Option-cases,
}
use giitestutils.Base.Exec.{Exec, pure, ◌>>=◌, ◌>>◌}
use giitestutils.Base.Exec.Ensures.{
  Ensures, Ensures-pure, Ensures-bind, Ensures-weaken, Ensures-if, Ensures-on_option,
}
use giitestutils.TestPath.{
  GtuPath, gtu_path_new, gtu_path_append_element, gtu_path_prepend_path, gtu_path_element_is_valid,
  join,
}
use giitestutils.TestPath.Elements.{join_paths}
use giitestutils.Object.{Ref, null, GtuTestObject, Store, put, on_object}
use giitestutils.Object.Paths.{own_path, set_path, path_of, prepend_to, gtu_test_object_get_path}
use giitestutils.Object.Counts.{Address-cases, off_put, at_put}
use giitestutils.Object.Ancestry.{
  Names, root, inside, strip, path_at, OnlyPaths, OnlyPaths-refl, OnlyPaths-trans, OnlyPaths-sym,
  before, Names-before, IsFresh,
}
use giitestutils.Object.Rules.{Ensures-on_object, Ensures-check_object, Ensures-write}

-- An object has one list of names.
pub Names-unique :
    (h : Store) {p : Ref} {xs ys : List Bytes} → Names h p xs → Names h p ys → xs ≡ ys
Names-unique h (root o l top e) (root o' l' top' e') =
    let f : o ≡ o' = ground (arith, l, l') in e ∙ ap (λ (x : GtuTestObject). x.name ∷ []) f ∙ sym e'
Names-unique h (root o l top e) (inside o' front' l' n' above' e') =
    let f : o ≡ o' = ground (arith, l, l') in absurd (n' (sym (ap GtuTestObject.parent f) ∙ top))
Names-unique h (inside o front l n above e) (root o' l' top' e') =
    let f : o ≡ o' = ground (arith, l, l') in absurd (n (ap GtuTestObject.parent f ∙ top'))
Names-unique h (inside o front l n above e) (inside o' front' l' n' above' e') =
    let f : o ≡ o' = ground (arith, l, l') in
    let g : front ≡ front' =
      Names-unique h above
        (subst (λ r. Names h r front') (sym (ap GtuTestObject.parent f)) above') in
    e ∙ ap (λ t. t ++ o.name ∷ []) g ∙ ap (λ (x : GtuTestObject). front' ++ x.name ∷ []) f ∙ sym e'

-- No object is its own parent.
not_own_parent :
    (h : Store) {p : Ref} (o : GtuTestObject) (front : List Bytes)
    → h.cell p ≡ some o
    → o.parent ≢ null
    → Names h o.parent front
    → p ≢ o.parent
not_own_parent h {p} o front l n above is_own =
    let same =
      Names-unique h (subst (λ r. Names h r front) (sym is_own) above)
        (inside o front l n above refl) in
    omega (arith, ap length same, length-append front (o.name ∷ []))

-- A missing path has been filled in, for the names that the object had.
pub record FilledAt (h h' : Store) (q : Ref) : Type 0 where
  pub missing : path_at (h.cell q) ≡ none
  pub names : List Bytes
  pub path : GtuPath
  pub were : Names h q names
  pub there : path_at (h'.cell q) ≡ some path
  pub right : path.elements ≡ names
  pub unprinted : path.cached_string ≡ none

-- Missing paths have been filled in, and nothing else has changed.
pub record Fills (h h' : Store) : Type 0 where
  pub only : OnlyPaths h h'
  pub paths : (q : Ref) → (path_at (h'.cell q) ≡ path_at (h.cell q)) ⊎ FilledAt h h' q

pub Fills-refl : (h : Store) → Fills h h
Fills-refl h = record { only = OnlyPaths-refl h; paths = λ q. inl refl }

pub IsFresh-Fills : {h h' : Store} → Fills h h' → IsFresh h → IsFresh h'
IsFresh-Fills {h} {h'} f fresh = record {
  elements = λ p xs path names e. elim (f.paths p) [
    | inl same ↦ fresh.elements p xs path (Names-before f.only names) (sym same ∙ e)
    | inr filled ↦
        let g : path ≡ filled.path = ground (arith, e, filled.there) in
        ap GtuPath.elements g
        ∙ filled.right
        ∙ Names-unique h filled.were (Names-before f.only names)
  ];
  string = λ p path s e printed. elim (f.paths p) [
    | inl same ↦ fresh.string p path s (sym same ∙ e) printed
    | inr filled ↦
        let g : path ≡ filled.path = ground (arith, e, filled.there) in
        absurd (ground (arith, ap GtuPath.cached_string g, printed, filled.unprinted))
  ];
}

-- The paths of the objects with at most `k` names are right.
abbrev FreshTo : Store → ℕ → Type 0
FreshTo h k =
    (q : Ref) (ys : List Bytes) (path : GtuPath)
    → Names h q ys
    → length ys ≤ k
    → path_at (h.cell q) ≡ some path
    → path.elements ≡ ys

-- Every object's name is an element of a path.
abbrev pub AllNamed : (ℕ → Bool) → Store → Type 0
AllNamed isspace h =
    (p : Ref) (o : GtuTestObject)
    → h.cell p ≡ some o
    → gtu_path_element_is_valid isspace (some o.name) ≡ true

-- A write of a path.
OnlyPaths-put :
    (h : Store) (p : Ref) (o : GtuTestObject) (c : Option GtuPath)
    → h.cell p ≡ some o
    → OnlyPaths h (put p (some (record o { path = c })) h)
OnlyPaths-put h p o c l = record {
  next = refl;
  rest = λ q. elim (Address-cases q p) [
    | inl same ↦ ground (arith, same, l)
    | inr other ↦ ap strip (off_put h p q _ other)
  ];
}

-- A new path has the own name of the object alone.
own_path-names :
    (isspace : ℕ → Bool) (name : Bytes)
    → gtu_path_element_is_valid isspace (some name) ≡ true
    → own_path isspace name ≡ record { elements = name ∷ []; cached_string = none }
unfolding gtu_path_append_element gtu_path_new
own_path-names isspace name valid = rw valid refl

-- What gtu_test_object_get_path does.
abbrev pub GivesPath : Store → Ref → List Bytes → Checked (Option GtuPath) → Store → Type 0
GivesPath h p xs r h' =
    (path : GtuPath) × (r ≡ done (some path))
    × (path.elements ≡ xs)
    × (path_at (h'.cell p) ≡ some path)
    × Fills h h'

module _ (isspace : ℕ → Bool) (h : Store) (p : Ref) {o : GtuTestObject} (l : h.cell p ≡ some o)
    (named : AllNamed isspace h) where
  abbrev with_own : Store
  with_own = put p (some (record o { path = some (own_path isspace o.name) })) h

  own_at :
      path_at (with_own.cell p) ≡ some (record { elements = o.name ∷ []; cached_string = none })
  own_at = ap path_at (at_put h p _) ∙ ap some (own_path-names isspace o.name (named p o l))

  own_off : (q : Ref) → q ≢ p → path_at (with_own.cell q) ≡ path_at (h.cell q)
  own_off q other = ap path_at (off_put h p q _ other)

  only_own : OnlyPaths h with_own
  only_own = OnlyPaths-put h p o _ l

  -- The end, once the path of `p` is whole in a store that is like `with_own` otherwise.
  Fills-own :
      (h2 h3 : Store) (xs : List Bytes) (path : GtuPath)
      → o.path ≡ none
      → Names h p xs
      → Fills with_own h2
      → OnlyPaths h2 h3
      → ((q : Ref) → q ≢ p → path_at (h3.cell q) ≡ path_at (h2.cell q))
      → path_at (h3.cell p) ≡ some path
      → path.elements ≡ xs
      → path.cached_string ≡ none
      → Fills h h3
  Fills-own h2 h3 xs path e names f only3 others there right unprinted = record {
    only = OnlyPaths-trans (OnlyPaths-trans only_own f.only) only3;
    paths = λ q. elim (Address-cases q p) [
      | inl same ↦ inr (
          subst (FilledAt h h3) (sym same) (record {
            missing = ap path_at l ∙ e;
            names = xs;
            path = path;
            were = names;
            there = there;
            right = right;
            unprinted = unprinted;
          }))
      | inr other ↦ elim (f.paths q) [
        | inl same ↦ inl (others q other ∙ same ∙ own_off q other)
        | inr filled ↦ inr (record {
          missing = sym (own_off q other) ∙ filled.missing;
          names = filled.names;
          path = filled.path;
          were = Names-before only_own filled.were;
          there = others q other ∙ filled.there;
          right = filled.right;
          unprinted = filled.unprinted;
        })
      ]
    ];
  }
