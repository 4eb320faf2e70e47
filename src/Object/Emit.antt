-- ===== src/Object/Emit.antt =====
-- The signal ancestry-changed: it reaches the object and all below it, and drops their paths.
use giitestutils.Base.{
  ℕ, zero, suc, ◌<◌, ◌≡◌, refl, sym, ap, ◌∙◌, ◌⊎◌, inl, inr, List, [], ◌∷◌, none, some, arith, All,
  All-imp, subst,
}
use giitestutils.Base.Exec.{Exec}
use giitestutils.Base.Exec.Ensures.{Ensures, Ensures-pure, Ensures-bind, Ensures-weaken}
use giitestutils.Object.{
  Ref, Kind, test_case, test_suite, GtuTestObject, Store, each, dirty_path, propagate_signal,
  emit_ancestry_signal,
}
use giitestutils.Object.Counts.{children_of, children_at, occurs, Address-cases, off_put, at_put}
use giitestutils.Object.Later.{Bounded}
use giitestutils.Object.Ancestry.{
  Below, here, down, strip, path_at, OnlyPaths, OnlyPaths-refl, OnlyPaths-trans, OnlyPaths-sym,
  before, children-before,
}
use giitestutils.Object.Rules.{Ensures-on_object, Ensures-write}

-- Some paths have been dropped, and nothing else has changed.
pub record Clears (h h' : Store) : Type 0 where
  pub only : OnlyPaths h h'
  pub paths : (q : Ref) → (path_at (h'.cell q) ≡ none) ⊎ (path_at (h'.cell q) ≡ path_at (h.cell q))

Clears-refl : (h : Store) → Clears h h
Clears-refl h = record { only = OnlyPaths-refl h; paths = λ q. inr refl }

Clears-trans : {h h' h'' : Store} → Clears h h' → Clears h' h'' → Clears h h''
Clears-trans a b = record {
  only = OnlyPaths-trans a.only b.only;
  paths = λ q. elim (b.paths q) [
    | inl gone ↦ inl gone
    | inr same ↦ elim (a.paths q) [ inl gone ↦ inl (same ∙ gone) | inr first ↦ inr (same ∙ first) ]
  ];
}

-- A path that is gone stays so.
stays_clear :
    {h h' : Store} (q : Ref) → Clears h h' → path_at (h.cell q) ≡ none → path_at (h'.cell q) ≡ none
stays_clear q c e = elim (c.paths q) [ inl gone ↦ gone | inr same ↦ same ∙ e ]

pub Bounded-OnlyPaths :
    {h h' : Store} (n : ℕ) (p : Ref) → OnlyPaths h h' → Bounded h n p → Bounded h' n p
Bounded-OnlyPaths zero p only b = b
Bounded-OnlyPaths {h} {h'} (suc n) p only (o, l, a) =
    let (x, m, f) = before (OnlyPaths-sym only) p o l in
    (
      x,
      m,
      subst (λ k. All (λ c. Bounded h' n c) (children_of k)) (sym (ap GtuTestObject.kind f))
          (All-imp (λ c. Bounded h n c) (λ c. Bounded h' n c) (children_of o.kind)
            (λ c. Bounded-OnlyPaths n c only) a),
    )

pub Below-OnlyPaths : {h h' : Store} {p q : Ref} → OnlyPaths h h' → Below h p q → Below h' p q
Below-OnlyPaths only (here e) = here e
Below-OnlyPaths {p = p} only (down c there b) =
    down c (rw (children-before only p) there) (Below-OnlyPaths only b)

dirty_path-Clears :
    (p : Ref) (h : Store) (o : GtuTestObject)
    → h.cell p ≡ some o
    → Ensures ⊥ (dirty_path p) h (λ u h'. Clears h h' × (path_at (h'.cell p) ≡ none))
unfolding dirty_path
dirty_path-Clears p h o l = Ensures-on_object p _ h o l (
    Ensures-write p _ h (
      record {
        only = record {
          next = refl;
          rest = λ q. elim (Address-cases q p) [
            | inl same ↦ ground (arith, same, l)
            | inr other ↦ ap strip (off_put h p q _ other)
          ];
        };
        paths = λ q. elim (Address-cases q p) [
          | inl same ↦ inl (ground (arith, same))
          | inr other ↦ inr (ap path_at (off_put h p q _ other))
        ];
      },
      ap path_at (at_put h p _),
    ))

-- The objects that a loop over an array has reached.
abbrev ClearsAll : Store → List Ref → Store → Type 0
ClearsAll h cs h' =
    Clears h h' × ((c q : Ref) → 0 < occurs c cs → Below h c q → path_at (h'.cell q) ≡ none)

-- An object and all below it have lost their paths.
abbrev pub ClearsBelow : Store → Ref → Store → Type 0
ClearsBelow h p h' = Clears h h' × ((q : Ref) → Below h p q → path_at (h'.cell q) ≡ none)

each-ClearsAll :
    (n : ℕ) (f : Ref → Exec Store (Unit {0}))
    → ((p : Ref) (h : Store) → Bounded h n p → Ensures ⊥ (f p) h (λ u h'. ClearsBelow h p h'))
    → (cs : List Ref) (h : Store) → All (λ c. Bounded h n c) cs
    → Ensures ⊥ (each f cs) h (λ u h'. ClearsAll h cs h')
unfolding each
each-ClearsAll n f clears [] h a =
    Ensures-pure tt h (Clears-refl h, λ c q there. absurd (omega (arith, there)))
each-ClearsAll n f clears (d ∷ cs) h a = Ensures-bind _ _ h (clears d h a.0) (λ u h1 s.
    Ensures-weaken _ h1
      (each-ClearsAll n f clears cs h1 (
        All-imp (λ c. Bounded h n c) (λ c. Bounded h1 n c) cs (λ c. Bounded-OnlyPaths n c s.0.only)
          a.1))
      (λ v h2 t. (
        Clears-trans s.0 t.0,
        λ c q there b. elim (Address-cases d c) [
          | inl same ↦ stays_clear q t.0 (s.1 q (subst (λ r. Below h r q) (sym same) b))
          | inr other ↦ t.1 c q (ground (arith, there, other)) (Below-OnlyPaths s.0.only b)
        ],
      )))

-- What the second handler does, when the first has dropped the path of `p`.
propagate-ClearsBelow :
    (n : ℕ) (f : Ref → Exec Store (Unit {0}))
    → ((p : Ref) (h : Store) → Bounded h n p → Ensures ⊥ (f p) h (λ u h'. ClearsBelow h p h'))
    → (h h1 : Store) (p : Ref) → Clears h h1
    → path_at (h1.cell p) ≡ none
    → (k : Kind) → children_at (h.cell p) ≡ children_of k
    → All (λ c. Bounded h1 n c) (children_of k)
    → Ensures ⊥ (propagate_signal f k) h1 (λ u h2. ClearsBelow h p h2)
unfolding propagate_signal
propagate-ClearsBelow n f clears h h1 p s gone (test_case priv) e a =
    Ensures-pure tt h1 (s, λ q b. go q b)
  where
    go : (q : Ref) → Below h p q → path_at (h1.cell q) ≡ none
    go q (here same) = subst (λ r. path_at (h1.cell r) ≡ none) (sym same) gone
    go q (down c there rest) = absurd (omega (arith, subst (λ cs. 0 < occurs c cs) e there))
propagate-ClearsBelow n f clears h h1 p s gone (test_suite cs names) e a =
    Ensures-weaken _ h1 (each-ClearsAll n f clears cs h1 a)
      (λ u h2 t. (Clears-trans s t.0, λ q b. go h2 t q b))
  where
    go : (h2 : Store) → ClearsAll h1 cs h2 → (q : Ref) → Below h p q → path_at (h2.cell q) ≡ none
    go h2 t q (here same) =
        stays_clear q t.0 (subst (λ r. path_at (h1.cell r) ≡ none) (sym same) gone)
    go h2 t q (down c there rest) =
        t.1 c q (subst (λ ds. 0 < occurs c ds) e there) (Below-OnlyPaths s.only rest)

-- With fuel for the depth, the signal ends, and the object and all below it have lost their paths.
pub emit-ClearsBelow :
    (n : ℕ) (p : Ref) (h : Store)
    → Bounded h n p
    → Ensures ⊥ (emit_ancestry_signal n p) h (λ u h'. ClearsBelow h p h')
unfolding emit_ancestry_signal
emit-ClearsBelow zero p h b = absurd b
emit-ClearsBelow (suc n) p h (o, l, a) = Ensures-bind _ _ h (dirty_path-Clears p h o l) (λ u h1 s.
    let (x, m, f) = before (OnlyPaths-sym s.0.only) p o l in
    let g : x.kind ≡ o.kind = ap GtuTestObject.kind f in
    Ensures-on_object p _ h1 x m (
      propagate-ClearsBelow n (emit_ancestry_signal n) (emit-ClearsBelow n) h h1 p s.0 s.1 x.kind
        (ap children_at l ∙ ap children_of (sym g))
        (subst (λ k. All (λ c. Bounded h1 n c) (children_of k)) (sym g)
          (All-imp (λ c. Bounded h n c) (λ c. Bounded h1 n c) (children_of o.kind)
            (λ c. Bounded-OnlyPaths n c s.0.only) a))))
