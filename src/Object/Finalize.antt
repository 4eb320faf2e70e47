-- ===== src/Object/Finalize.antt =====
-- The finalizers of cases and suites: the references that they drop, and the objects that are
-- destroyed with them (gtu_test_suite_finalize of src/test-suite/test-suite.c).
use giitestutils.Base.{
  ℕ, ◌+◌, ◌-◌, ◌<◌, ◌≡◌, ◌≢◌, refl, sym, ap, ◌∙◌, ◌⊎◌, inl, inr, List, [], ◌∷◌, some, arith, All,
  subst, ◌==◌, if◌then◌else◌, Checked, done, zero_or_pos,
}
use giitestutils.Base.Exec.{Exec}
use giitestutils.Base.Exec.Ensures.{Ensures, Ensures-pure, Ensures-bind, Ensures-weaken}
use giitestutils.Object.{
  Ref, null, NameKey, Kind, test_case, test_suite, GtuTestObject, Store, put, each, finalize,
}
use giitestutils.Object.Counts.{
  children_of, children_at, occurs, held, IsLive, IsCounted, IsCounted-same, Address-cases, at_put,
  off_put, write-IsCounted,
}
use giitestutils.Object.Later.{
  Later, LaterAt, LaterAt-same, LaterAt-trans, IsKin, Bounded, Bounded-Later, All-Bounded,
}
use giitestutils.Object.Rules.{Ensures-on_object, Ensures-write}

-- The program's references, one to `p` less.
abbrev pub drop : Ref → (Ref → ℕ) → Ref → ℕ
drop p owned q = if q == p then owned q - 1 else owned q

-- What the drop of a reference does.
abbrev pub Drops : Type 0 → ℕ → (Ref → Exec Store (Checked (Unit {0}))) → Type 0
Drops E n f =
    (p : Ref) (h : Store) (owned : Ref → ℕ)
    → IsCounted h owned
    → 0 < owned p
    → Bounded h n p ⊎ E
    → Ensures E (f p) h (λ r h'. (r ≡ done tt) × IsCounted h' (drop p owned) × Later h h')

-- A dead suite gives up its array: its references to its children are for the caller to drop.
module _ (h : Store) (p : Ref) {o : GtuTestObject} (e : h.cell p ≡ some o) (children : List Ref)
    (child_names : List NameKey) (is_suite : o.kind ≡ test_suite children child_names) where
  abbrev given_up : Store
  given_up = put p (some (record o { kind = test_suite [] [] })) h

  array-eq : children_at (h.cell p) ≡ children
  array-eq = ground (arith, e, is_suite)

  held_before :
      {owned : Ref → ℕ} (q : Ref) (x : GtuTestObject)
      → IsCounted h owned
      → h.cell q ≡ some x
      → occurs q children + held given_up q x ≡ held h q x
  held_before q x c l = elim (Address-cases x.parent p) [
    | inl same ↦
        rw (same, array-eq)
          (ground (arith, at_put h p (some (record o { kind = test_suite [] [] }))))
    | inr other ↦ elim (zero_or_pos (occurs q children)) [
      | inl none_there ↦
          rw (off_put h p x.parent (some (record o { kind = test_suite [] [] })) other)
            (omega (arith, none_there))
      | inr some_there ↦
          let (y, m, f) = c.parents p q (rw array-eq some_there) in
          let g : x ≡ y = ground (arith, l, m) in absurd (other (ap GtuTestObject.parent g ∙ f))
    ]
  ]

  give_up-IsCounted :
      {owned : Ref → ℕ} → IsCounted h owned → IsCounted given_up (λ q. owned q + occurs q children)
  give_up-IsCounted {owned} c = record {
    no_null = off_put h p null _ (λ is_p. ground (arith, is_p, c.no_null, e)) ∙ c.no_null;
    unused = λ q beyond.
        off_put h p q _ (λ is_p. ground (arith, is_p, c.unused q beyond, e)) ∙ c.unused q beyond;
    counts = λ q x l. elim (Address-cases q p) [
      | inl same ↦
          let f : x ≡ record o { kind = test_suite [] [] } = ground (arith, l, same) in
          rw (f, same) (omega (arith, c.counts p o e, held_before p o c e))
      | inr other ↦
          let f : h.cell q ≡ some x = sym (off_put h p q _ other) ∙ l in
          omega (arith, c.counts q x f, held_before q x c f)
    ];
    fits = λ q x l. elim (Address-cases q p) [
      | inl same ↦
          let f : x ≡ record o { kind = test_suite [] [] } = ground (arith, l, same) in
          rw f (c.fits p o e)
      | inr other ↦ c.fits q x (sym (off_put h p q _ other) ∙ l)
    ];
    parents = λ q r some_there. elim (Address-cases q p) [
      | inl same ↦ absurd (ground (arith, same, some_there))
      | inr other ↦ same_parent q r (
          c.parents q r
            (subst (λ x. 0 < occurs r (children_at x)) (off_put h p q _ other) some_there))
    ];
    owns = λ q some_owned. elim (zero_or_pos (occurs q children)) [
      | inl none_there ↦ still_live q (c.owns q (omega (arith, some_owned, none_there)))
      | inr some_there ↦
          let (x, l, f) = c.parents p q (rw array-eq some_there) in still_live q (x, l)
    ];
  }
    where
      still_live : (q : Ref) → IsLive h q → IsLive given_up q
      still_live q (x, l) = elim (Address-cases q p) [
        | inl same ↦ (record o { kind = test_suite [] [] }, ground (arith, same))
        | inr other ↦ (x, off_put h p q _ other ∙ l)
      ]

      same_parent :
          (q r : Ref)
          → (x : GtuTestObject) × (h.cell r ≡ some x) × (x.parent ≡ q)
          → (x : GtuTestObject) × (given_up.cell r ≡ some x) × (x.parent ≡ q)
      same_parent q r (x, l, f) = elim (Address-cases r p) [
        | inl same ↦
            let g : x ≡ o = ground (arith, l, e, same) in
            (
              record o { kind = test_suite [] [] },
              ground (arith, same),
              sym (ap GtuTestObject.parent g) ∙ f,
            )
        | inr other ↦ (x, off_put h p r _ other ∙ l, f)
      ]

  given_up-IsKin :
      o.ref_count ≡ 0
      → (q : Ref) (x' : GtuTestObject) → given_up.cell q ≡ some x'
      → (x : GtuTestObject) × (h.cell q ≡ some x) × IsKin x x'
  given_up-IsKin dead q x' l = elim (Address-cases q p) [
    | inl same ↦
        let f : x' ≡ record o { kind = test_suite [] [] } = ground (arith, l, same) in
        (
          o,
          ap h.cell same ∙ e,
          rw f (record { name = refl; parent = refl; path = refl; kind = inr (dead, refl) }),
        )
    | inr other ↦ (
      x',
      sym (off_put h p q _ other) ∙ l,
      record { name = refl; parent = refl; path = refl; kind = inl refl },
    )
  ]

  LaterAt-given_up : (q : Ref) → q ≢ p → LaterAt h given_up q
  LaterAt-given_up q other = LaterAt-same h given_up q refl (off_put h p q _ other)

-- After the finalizer, the object is still dead and has no children.
abbrev pub Finalized : Store → Ref → (Ref → ℕ) → Store → Type 0
Finalized h p owned h' =
    IsCounted h' owned
    × ((o : GtuTestObject) × (h'.cell p ≡ some o) × (o.ref_count ≡ 0) × (children_of o.kind ≡ []))
    × ((q : Ref) → q ≢ p → LaterAt h h' q)

module _ {E : Type 0} where
  each-IsCounted :
      (n : ℕ) (f : Ref → Exec Store (Checked (Unit {0})))
      → Drops E n f
      → (cs : List Ref) (h : Store) (owned : Ref → ℕ) → IsCounted h (λ q. owned q + occurs q cs)
      → All (λ d. Bounded h n d) cs ⊎ E
      → Ensures E (each f cs) h (λ u h'. IsCounted h' owned × Later h h')
  unfolding each
  each-IsCounted n f drops [] h owned c b =
      Ensures-pure tt h (IsCounted-same (λ q. omega arith) c, λ q. LaterAt-same h h q refl refl)
  each-IsCounted n f drops (d ∷ cs) h owned c b =
      Ensures-bind _ _ h (drops d h _ c (ground arith) (elim b [ inl a ↦ inl a.0 | inr e ↦ inr e ]))
        (λ r h1 s.
          let c1 = IsCounted-same {kept = λ q. owned q + occurs q cs} (λ q. ground arith) s.1 in
          Ensures-weaken _ h1
            (each-IsCounted n f drops cs h1 owned c1 (elim b [
              | inl a ↦ inl (
                  All-Bounded h h1 n cs (Bounded-Later h h1 c1 (λ q. (s.2 q).was) n)
                    (λ q some_there. c1.owns q (omega (arith, some_there))) a.1)
              | inr e ↦ inr e
            ]))
            (λ u h2 t. (t.0, λ q. LaterAt-trans h h1 h2 q (s.2 q) (t.1 q))))

  pub finalize-Finalized :
      (n : ℕ) (f : Ref → Exec Store (Checked (Unit {0})))
      → Drops E n f
      → (p : Ref) (h : Store) (o : GtuTestObject) (owned : Ref → ℕ) → IsCounted h owned
      → h.cell p ≡ some o
      → o.ref_count ≡ 0
      → (k : Kind) → o.kind ≡ k
      → All (λ d. Bounded h n d) (children_of k) ⊎ E
      → Ensures E (finalize f p k) h (λ u h'. Finalized h p owned h')
  unfolding finalize
  finalize-Finalized n f drops p h o owned c e dead (test_case priv) is_kind b =
      Ensures-on_object p _ h o e (
        Ensures-write p _ h (
          write-IsCounted h p e (record { parent = refl; children = ground (arith, is_kind) }) owned
              c (c.counts p o e) (c.fits p o e) (λ q other. refl),
          (_, at_put h p _, dead, refl),
          λ q other. LaterAt-same h _ q refl (off_put h p q _ other),
        ))
  finalize-Finalized n f drops p h o owned c e dead (test_suite cs names) is_kind b =
      let h2 : Store = given_up h p e cs names is_kind in
      let c2 = give_up-IsCounted h p e cs names is_kind c in
      let below : All (λ d. Bounded h2 n d) cs ⊎ E = elim b [
        | inl a ↦ inl (
            All-Bounded h h2 n cs
              (Bounded-Later h h2 c2 (given_up-IsKin h p e cs names is_kind dead) n)
              (λ q some_there. c2.owns q (omega (arith, some_there))) a)
        | inr x ↦ inr x
      ] in
      Ensures-bind {R = λ u h'. h' ≡ h2} _ _ h
        (Ensures-on_object p _ h o e (Ensures-write p _ h refl))
        (λ u h' eq.
          subst (λ g. Ensures E (each f cs) g (λ v h3. Finalized h p owned h3)) (sym eq)
            (Ensures-weaken _ h2 (each-IsCounted n f drops cs h2 owned c2 below) (λ v h3 r. (
              r.0,
              (_, (r.1 p).stays _ (at_put h p _) dead, dead, refl),
              λ q other.
                  LaterAt-trans h h2 h3 q (LaterAt-given_up h p e cs names is_kind q other) (r.1 q),
            ))))
