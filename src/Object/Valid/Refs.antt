-- ===== src/Object/Valid/Refs.antt =====
-- What new objects and new references keep.
use Prim.Native.Nat.{◌^◌}
use giitestutils.Base.{
  ℕ, suc, ◌+◌, ◌<◌, ◌≡◌, ◌≢◌, refl, sym, ap, ◌∙◌, inl, inr, Bool, true, false, List, [], some,
  arith, subst, Bytes, ◌==◌, if◌then◌else◌, done, zero_or_pos,
}
use giitestutils.Base.Exec.Ensures.{Ensures, Ensures-pure, Ensures-bind}
use giitestutils.TestPath.{gtu_path_element_is_valid}
use giitestutils.Object.{
  Ref, null, Kind, GtuTestObject, Store, put, inc, more_refs, gtu_test_object_ref,
  gtu_test_object_ref_sink,
}
use giitestutils.Object.Construct.{new_object, create_instance}
use giitestutils.Object.Counts.{
  children_of, children_at, occurs, held, IsLive, IsCounted, Address-cases, off_put,
  write-IsCounted,
}
use giitestutils.Object.Later.{LaterAt, LaterAt-same}
use giitestutils.Object.Ancestry.{Names, root, inside, path_at}
use giitestutils.Object.Depth.{Bounded-le, Bounded-more}
use giitestutils.Object.Rules.{Ensures-check_object, Ensures-write}
use giitestutils.Object.Valid.{IsValid}
use giitestutils.Object.Valid.Drop.{IsValid-Later}

-- The program's references, one to `p` more.
abbrev pub more : Ref → (Ref → ℕ) → Ref → ℕ
more p owned q = if q == p then owned q + 1 else owned q

module _ (isspace : ℕ → Bool) where
  -- A write that changes the count and the floating flag alone.
  recount-IsValid :
      (h : Store) (p : Ref) {o : GtuTestObject} (n : ℕ) (floating : Bool) {owned : Ref → ℕ}
      (kept : Ref → ℕ)
      → IsValid isspace h owned
      → h.cell p ≡ some o
      → 0 < n
      → n < 2 ^ 32
      → n ≡ kept p + held h p o
      → ((q : Ref) → q ≢ p → kept q ≡ owned q)
      → IsValid isspace (put p (some (record o { ref_count = n; is_floating = floating })) h) kept
  recount-IsValid h p {o} n floating kept v l positive small count others =
      IsValid-Later isspace v
        (write-IsCounted h p l (record { parent = refl; children = refl }) kept v.forest.counted
          count small others)
        (λ q. elim (Address-cases q p) [
          | inr other ↦ LaterAt-same h _ q refl (off_put h p q _ other)
          | inl same ↦ subst (LaterAt h _) (sym same) (record {
            next = refl;
            stays = λ x m d.
                let f : x ≡ o = ground (arith, l, m) in
                absurd (omega (arith, v.forest.alive p o l, ap GtuTestObject.ref_count f, d));
            dead = λ x' m d.
                let f : x' ≡ record o { ref_count = n; is_floating = floating } =
                  ground (arith, m) in
                absurd (omega (arith, positive, ap GtuTestObject.ref_count f, d));
            was = λ x' m.
                let f : x' ≡ record o { ref_count = n; is_floating = floating } =
                  ground (arith, m) in
                (
                  o,
                  l,
                  record {
                    name = ap GtuTestObject.name f;
                    parent = ap GtuTestObject.parent f;
                    path = ap GtuTestObject.path f;
                    kind = inl (ap GtuTestObject.kind f);
                  },
                );
          })
        ])

  module _ (h : Store) (p : Ref) {owned : Ref → ℕ} (v : IsValid isspace h owned) {o : GtuTestObject}
      (l : h.cell p ≡ some o) (small : o.ref_count + 1 < 2 ^ 32) where
    not_null : p ≢ null
    not_null is_null = ground (arith, is_null, v.forest.counted.no_null, l)

    pub ref-IsValid :
        Ensures ⊥
          (gtu_test_object_ref p)
          h
          (λ r h'. (r ≡ done p) × IsValid isspace h' (more p owned))
    unfolding gtu_test_object_ref
    ref-IsValid =
        let c = v.forest.counted.counts p o l in
        Ensures-check_object p null _ h o not_null l (
          Ensures-bind {R = λ u h'. IsValid isspace h' (more p owned)} _ _ h
            (Ensures-write p _ h (
              recount-IsValid h p (inc o.ref_count) o.is_floating (more p owned) v l
                (omega (arith, small)) (omega arith) (ground (arith, c, small))
                (λ q other. ground arith)))
            (λ u h' w. Ensures-pure _ h' (refl, w)))

    -- A floating reference becomes the caller's; else there is one more.
    pub ref_sink-IsValid :
        Ensures ⊥ (gtu_test_object_ref_sink p) h (λ r h'.
          (r ≡ done p) × IsValid isspace h' (if o.is_floating then owned else more p owned))
    unfolding gtu_test_object_ref_sink
    ref_sink-IsValid = Ensures-check_object p null _ h o not_null l (
        Ensures-bind
          {R = λ u h'. IsValid isspace h' (if o.is_floating then owned else more p owned)} _ _ h
          (Ensures-write p _ h (sunk o.is_floating)) (λ u h' w. Ensures-pure _ h' (refl, w)))
      where
        sunk :
            (b : Bool)
            → IsValid isspace
                (put p (some (if b then record o { is_floating = false } else more_refs o)) h)
                (if b then owned else more p owned)
        sunk true =
            recount-IsValid h p o.ref_count false owned v l (v.forest.alive p o l)
              (omega (arith, small)) (v.forest.counted.counts p o l) (λ q other. refl)
        sunk false =
            recount-IsValid h p (inc o.ref_count) o.is_floating (more p owned) v l
              (omega (arith, small)) (omega arith)
              (ground (arith, v.forest.counted.counts p o l, small)) (λ q other. ground arith)

  module _ (h : Store) (name : Bytes) (k : Kind) {owned : Ref → ℕ} (v : IsValid isspace h owned)
      (valid : gtu_path_element_is_valid isspace (some name) ≡ true)
      (childless : children_of k ≡ []) where
    abbrev created : Store
    created = record (put h.next (some (new_object name k)) h) { next = suc h.next }

    not_new : (q : Ref) (o : GtuTestObject) → h.cell q ≡ some o → q ≢ h.next
    not_new q o l is_new = ground (arith, v.forest.counted.unused q (omega (arith, is_new)), l)

    keeps_old : (q : Ref) (o : GtuTestObject) → h.cell q ≡ some o → created.cell q ≡ some o
    keeps_old q o l = off_put h h.next q _ (not_new q o l) ∙ l

    was_old : (q : Ref) → q ≢ h.next → created.cell q ≡ h.cell q
    was_old q other = off_put h h.next q _ other

    no_children : children_at (h.cell h.next) ≡ []
    no_children = ap children_at (v.forest.counted.unused h.next (omega arith))

    same_arrays : (q : Ref) → children_at (created.cell q) ≡ children_at (h.cell q)
    same_arrays q = elim (Address-cases q h.next) [
      | inl same ↦ rw (same, no_children) (ground (arith, childless))
      | inr other ↦ ap children_at (was_old q other)
    ]

    owned_new : owned h.next ≡ 0
    owned_new = elim (zero_or_pos (owned h.next)) [
      | inl none_owned ↦ none_owned
      | inr some_owned ↦
          let (o, l) = v.forest.counted.owns h.next some_owned in absurd (not_new h.next o l refl)
    ]

    created-IsCounted : IsCounted created (more h.next owned)
    created-IsCounted = record {
      no_null =
          was_old null (λ is_new. omega (arith, v.forest.started, is_new))
          ∙ v.forest.counted.no_null;
      unused = λ p beyond.
          was_old p (λ is_new. omega (arith, is_new, beyond))
          ∙ v.forest.counted.unused p (omega (arith, beyond));
      counts = λ p o l. elim (Address-cases p h.next) [
        | inl same ↦
            let f : o ≡ new_object name k = ground (arith, l, same) in
            rw (f, same, same_arrays null, v.forest.counted.no_null) (ground (arith, owned_new))
        | inr other ↦
            rw (same_arrays o.parent)
              (ground (arith, v.forest.counted.counts p o (sym (was_old p other) ∙ l), other))
      ];
      fits = λ p o l. elim (Address-cases p h.next) [
        | inl same ↦ let f : o ≡ new_object name k = ground (arith, l, same) in rw f (omega arith)
        | inr other ↦ v.forest.counted.fits p o (sym (was_old p other) ∙ l)
      ];
      parents = λ q p there.
          let (o, l, f) =
            v.forest.counted.parents q p (subst (λ cs. 0 < occurs p cs) (same_arrays q) there) in
          (o, keeps_old p o l, f);
      owns = λ p some_owned. elim (Address-cases p h.next) [
        | inl same ↦ (new_object name k, ground (arith, same))
        | inr other ↦
            let (o, l) = v.forest.counted.owns p (ground (arith, some_owned, other)) in
            (o, keeps_old p o l)
      ];
    }

    Names-old : {p : Ref} {xs : List Bytes} → p ≢ h.next → Names created p xs → Names h p xs
    Names-old {p} other (root o l top e) = root o (sym (was_old p other) ∙ l) top e
    Names-old {p} other (inside o front l n above e) =
        let m = sym (was_old p other) ∙ l in
        inside o front m n
          (Names-old (λ is_new. omega (arith, v.forest.old_parents p o m, is_new)) above) e

    created-IsValid : IsValid isspace created (more h.next owned)
    created-IsValid = record {
      forest = record {
        counted = created-IsCounted;
        alive = λ p o l. elim (Address-cases p h.next) [
          | inl same ↦ let f : o ≡ new_object name k = ground (arith, l, same) in rw f (omega arith)
          | inr other ↦ v.forest.alive p o (sym (was_old p other) ∙ l)
        ];
        linked = λ p o l n live. elim (Address-cases p h.next) [
          | inl same ↦
              let f : o ≡ new_object name k = ground (arith, l, same) in
              absurd (n (ap GtuTestObject.parent f))
          | inr other ↦ linked_old p o (sym (was_old p other) ∙ l) n live
        ];
        started = omega (arith, v.forest.started);
        old_parents = λ p o l. elim (Address-cases p h.next) [
          | inl same ↦ let f : o ≡ new_object name k = ground (arith, l, same) in rw f (omega arith)
          | inr other ↦ omega (arith, v.forest.old_parents p o (sym (was_old p other) ∙ l))
        ];
        named = λ p o l. elim (Address-cases p h.next) [
          | inl same ↦ let f : o ≡ new_object name k = ground (arith, l, same) in rw f valid
          | inr other ↦ v.forest.named p o (sym (was_old p other) ∙ l)
        ];
        depth = suc v.forest.depth;
        bounded = λ p (o, l). elim (Address-cases p h.next) [
          | inl same ↦ (new_object name k, ground (arith, same), rw childless tt)
          | inr other ↦ Bounded-le created v.forest.depth (suc v.forest.depth) p (omega arith) (
              Bounded-more h created v.forest.depth p keeps_old
                (v.forest.bounded p (o, sym (was_old p other) ∙ l)))
        ];
      };
      fresh = record {
        elements = λ p xs path names e. elim (Address-cases p h.next) [
          | inl same ↦ ground (arith, same, e)
          | inr other ↦
              v.fresh.elements p xs path (Names-old other names)
                (ap path_at (sym (was_old p other)) ∙ e)
        ];
        string = λ p path s e printed. elim (Address-cases p h.next) [
          | inl same ↦ ground (arith, same, e)
          | inr other ↦ v.fresh.string p path s (ap path_at (sym (was_old p other)) ∙ e) printed
        ];
      };
    }
      where
        linked_old :
            (p : Ref) (o : GtuTestObject)
            → h.cell p ≡ some o
            → o.parent ≢ null
            → IsLive created o.parent
            → 0 < occurs p (children_at (created.cell o.parent))
        linked_old p o l n (s, m) =
            let old =
              was_old o.parent (λ is_new. omega (arith, v.forest.old_parents p o l, is_new)) in
            rw (same_arrays o.parent) (v.forest.linked p o l n (s, sym old ∙ m))

  -- A new object has one reference, which floats.
  pub create_instance-IsValid :
      (h : Store) (name : Bytes) (k : Kind) {owned : Ref → ℕ}
      → IsValid isspace h owned
      → gtu_path_element_is_valid isspace (some name) ≡ true
      → children_of k ≡ []
      → Ensures ⊥
          (create_instance (new_object name k))
          h
          (λ p h'. (p ≡ h.next) × IsValid isspace h' (more h.next owned))
  unfolding create_instance
  create_instance-IsValid h name k v valid childless = record {
    holds = (refl, created-IsValid h name k v valid childless);
  }
