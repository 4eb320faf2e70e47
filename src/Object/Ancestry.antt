-- ===== src/Object/Ancestry.antt =====
-- The ancestry of test objects: the names that make a path, and the objects below another.
use giitestutils.Base.{
  ℕ, ◌<◌, ◌≤◌, ◌≡◌, ◌≢◌, refl, sym, ap, ◌∙◌, List, [], ◌∷◌, ◌++◌, Option, none, some, arith, Bytes,
  subst,
}
use giitestutils.TestPath.{GtuPath, join}
use giitestutils.Object.{Ref, null, GtuTestObject, Store}
use giitestutils.Object.Counts.{children_at, occurs, IsCounted}

-- The names of the ancestors of an object, the outermost first, and its own.
pub data Names (h : Store) : Ref → List Bytes → Type 0 where
  root :
      {p : Ref} {xs : List Bytes} (o : GtuTestObject)
      → h.cell p ≡ some o
      → o.parent ≡ null
      → xs ≡ o.name ∷ []
      → Names h p xs
  inside :
      {p : Ref} {xs : List Bytes} (o : GtuTestObject) (front : List Bytes)
      → h.cell p ≡ some o
      → o.parent ≢ null
      → Names h o.parent front
      → xs ≡ front ++ o.name ∷ []
      → Names h p xs

-- Something in the array of the first, or the object itself.
pub data Below (h : Store) : Ref → Ref → Type 0 where
  here : {p q : Ref} → q ≡ p → Below h p q
  down : {p q : Ref} (c : Ref) → 0 < occurs c (children_at (h.cell p)) → Below h c q → Below h p q

pub Below-child :
    (h : Store) {p q : Ref} (c : Ref)
    → Below h p q
    → 0 < occurs c (children_at (h.cell q))
    → Below h p c
Below-child h {p} {q} c (here e) there =
    down c (subst (λ r. 0 < occurs c (children_at (h.cell r))) e there) (here refl)
Below-child h c (down d e b) there = down d e (Below-child h c b there)

-- The objects, but for their paths.
abbrev pub strip : Option GtuTestObject → Option GtuTestObject
strip none = none
strip (some o) = some (record o { path = none })

abbrev pub path_at : Option GtuTestObject → Option GtuPath
path_at none = none
path_at (some o) = o.path

-- Nothing but paths has changed.
pub record OnlyPaths (h h' : Store) : Type 0 where
  pub next : h'.next ≡ h.next
  pub rest : (q : Ref) → strip (h'.cell q) ≡ strip (h.cell q)

pub OnlyPaths-refl : (h : Store) → OnlyPaths h h
OnlyPaths-refl h = record { next = refl; rest = λ q. refl }

pub OnlyPaths-trans : {h h' h'' : Store} → OnlyPaths h h' → OnlyPaths h' h'' → OnlyPaths h h''
OnlyPaths-trans a b = record { next = b.next ∙ a.next; rest = λ q. b.rest q ∙ a.rest q }

pub OnlyPaths-sym : {h h' : Store} → OnlyPaths h h' → OnlyPaths h' h
OnlyPaths-sym a = record { next = sym a.next; rest = λ q. sym (a.rest q) }

strip-some :
    (c d : Option GtuTestObject) (o : GtuTestObject)
    → strip c ≡ strip d
    → c ≡ some o
    → (x : GtuTestObject) × (d ≡ some x) × (record x { path = none } ≡ record o { path = none })
strip-some none none o e l = ground arith
strip-some none (some y) o e l = ground arith
strip-some (some x) none o e l = ground arith
strip-some (some x) (some y) o e l = (y, refl, ground arith)

strip-children : (c d : Option GtuTestObject) → strip c ≡ strip d → children_at c ≡ children_at d
strip-children none none e = refl
strip-children none (some y) e = ground arith
strip-children (some x) none e = ground arith
strip-children (some x) (some y) e = ground arith

strip-none : (c d : Option GtuTestObject) → strip c ≡ strip d → c ≡ none → d ≡ none
strip-none none none e l = refl
strip-none none (some y) e l = ground arith
strip-none (some x) d e l = ground arith

module _ {h h' : Store} (only : OnlyPaths h h') where
  -- An object of the later store, as it was.
  pub before :
      (q : Ref) (o : GtuTestObject)
      → h'.cell q ≡ some o
      → (x : GtuTestObject) × (h.cell q ≡ some x)
        × (record x { path = none } ≡ record o { path = none })
  before q o l = strip-some (h'.cell q) (h.cell q) o (only.rest q) l

  pub children-before : (q : Ref) → children_at (h'.cell q) ≡ children_at (h.cell q)
  children-before q = strip-children (h'.cell q) (h.cell q) (only.rest q)

  pub Names-before : {p : Ref} {xs : List Bytes} → Names h' p xs → Names h p xs
  Names-before {p} (root o l top e) =
      let (x, m, f) = before p o l in
      root x m (ap GtuTestObject.parent f ∙ top)
        (e ∙ ap (λ n. n ∷ []) (sym (ap GtuTestObject.name f)))
  Names-before {p} (inside o front l n above e) =
      let (x, m, f) = before p o l in
      let g : x.parent ≡ o.parent = ap GtuTestObject.parent f in
      inside x front m (λ top. n (sym g ∙ top))
        (subst (λ r. Names h r front) (sym g) (Names-before above))
        (e ∙ ap (λ n. front ++ n ∷ []) (sym (ap GtuTestObject.name f)))

  pub IsCounted-OnlyPaths : {owned : Ref → ℕ} → IsCounted h owned → IsCounted h' owned
  IsCounted-OnlyPaths c = record {
    no_null = strip-none (h.cell null) (h'.cell null) (sym (only.rest null)) c.no_null;
    unused = λ p beyond.
        strip-none (h.cell p) (h'.cell p) (sym (only.rest p))
          (c.unused p (subst (λ n. n ≤ p) only.next beyond));
    counts = λ p o l.
        let (x, m, f) = before p o l in
        rw
          (
            children-before o.parent,
            sym (ap GtuTestObject.parent f),
            sym (ap GtuTestObject.ref_count f),
          )
          (c.counts p x m);
    fits = λ p o l.
        let (x, m, f) = before p o l in rw (sym (ap GtuTestObject.ref_count f)) (c.fits p x m);
    parents = λ q p there.
        let (x, m, f) = c.parents q p (rw (sym (children-before q)) there) in
        let (y, l, g) = strip-some (h.cell p) (h'.cell p) x (sym (only.rest p)) m in
        (y, l, ap GtuTestObject.parent g ∙ f);
    owns = λ p some_owned.
        let (x, m) = c.owns p some_owned in
        let (y, l, g) = strip-some (h.cell p) (h'.cell p) x (sym (only.rest p)) m in (y, l);
  }

-- A cached path is that of the ancestry, and so is its string.
pub record IsFresh (h : Store) : Type 0 where
  pub elements :
      (p : Ref) (xs : List Bytes) (path : GtuPath)
      → Names h p xs
      → path_at (h.cell p) ≡ some path
      → path.elements ≡ xs
  pub string :
      (p : Ref) (path : GtuPath) (s : Bytes)
      → path_at (h.cell p) ≡ some path
      → path.cached_string ≡ some s
      → s ≡ join path.elements
