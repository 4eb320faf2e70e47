-- ===== src/Object/Unref.antt =====
-- gtu_test_object_unref: the references that are left, and the objects that are destroyed.
use giitestutils.Base.{
  ℕ, zero, suc, ◌<◌, ◌≡◌, ◌≢◌, refl, sym, ap, ◌∙◌, ◌⊎◌, inl, inr, none, some, arith, All, subst,
  ◌==◌, Checked, done,
}
use giitestutils.Base.Exec.{Exec, ◌>>◌, pure, modify}
use giitestutils.Base.Exec.Ensures.{
  Ensures, Ensures-pure, Ensures-bind, Ensures-modify, Ensures-undefined, Ensures-if,
}
use giitestutils.Object.{Ref, GtuTestObject, Store, put, dec, finalize, gtu_test_object_unref}
use giitestutils.Object.Counts.{
  children_of, IsCounted, Address-cases, at_put, off_put, write-IsCounted, free-IsCounted,
}
use giitestutils.Object.Later.{
  Later, LaterAt, LaterAt-same, LaterAt-trans, IsKin, Bounded, Bounded-Later, All-Bounded,
  child-IsLive,
}
use giitestutils.Object.Rules.{Ensures-check_object, Ensures-write}
use giitestutils.Object.Finalize.{drop, Drops, finalize-Finalized}

-- The write of the lower count.
module _ (h : Store) (p : Ref) {o : GtuTestObject} (l : h.cell p ≡ some o) where
  abbrev lowered : GtuTestObject
  lowered = record o { ref_count = dec o.ref_count }

  lowered-IsKin :
      (q : Ref) (x' : GtuTestObject)
      → (put p (some lowered) h).cell q ≡ some x'
      → (x : GtuTestObject) × (h.cell q ≡ some x) × IsKin x x'
  lowered-IsKin q x' m = elim (Address-cases q p) [
    | inl same ↦
        let f : x' ≡ lowered = ground (arith, m, same) in
        (
          o,
          ap h.cell same ∙ l,
          rw f (record { name = refl; parent = refl; path = refl; kind = inl refl }),
        )
    | inr other ↦ (
      x',
      sym (off_put h p q _ other) ∙ m,
      record { name = refl; parent = refl; path = refl; kind = inl refl },
    )
  ]

  lowered-IsCounted :
      {owned : Ref → ℕ}
      → IsCounted h owned
      → 0 < owned p
      → IsCounted (put p (some lowered) h) (drop p owned)
  lowered-IsCounted {owned} c some_owned =
      write-IsCounted h p l (record { parent = refl; children = refl }) (drop p owned) c
        (ground (arith, c.counts p o l, c.fits p o l)) (ground (arith, c.fits p o l))
        (λ q other. ground arith)

  -- From the addresses other than `p` to all, where the object at `p` was not dead.
  Later-but :
      (h' : Store)
      → 0 < o.ref_count
      → ((q : Ref) → q ≢ p → LaterAt h h' q)
      → ((x' : GtuTestObject) → h'.cell p ≡ some x' → (x'.ref_count ≢ 0) × IsKin o x')
      → Later h h'
  Later-but h' alive others there q = elim (Address-cases q p) [
    | inr other ↦ others q other
    | inl same ↦ subst (LaterAt h h') (sym same) (record {
      next = (others (suc p) (λ is_p. omega (arith, is_p))).next;
      stays = λ x m d.
          let f : x ≡ o = ground (arith, l, m) in
          absurd (omega (arith, alive, ap GtuTestObject.ref_count f, d));
      dead = λ x' m d. absurd ((there x' m).0 d);
      was = λ x' m. (o, l, (there x' m).1);
    })
  ]

  IsKin-lowered : (x' : GtuTestObject) → (put p (some lowered) h).cell p ≡ some x' → IsKin o x'
  IsKin-lowered x' m =
      let f : x' ≡ lowered = ground (arith, m) in
      rw f (record { name = refl; parent = refl; path = refl; kind = inl refl })

  -- Other references are left.
  lowered-Later : 0 < o.ref_count → dec o.ref_count ≢ 0 → Later h (put p (some lowered) h)
  lowered-Later alive more =
      Later-but (put p (some lowered) h) alive
        (λ q other. LaterAt-same h _ q refl (off_put h p q _ other))
        (λ x' m.
          let f : x' ≡ lowered = ground (arith, m) in
          (λ none_left. more (sym (ap GtuTestObject.ref_count f) ∙ none_left), IsKin-lowered x' m))

  -- The object is finalized and freed with its last reference.
  last_reference :
      {E : Type 0} (n : ℕ) (f : Ref → Exec Store (Checked (Unit {0})))
      → Drops E n f
      → (owned : Ref → ℕ) → IsCounted h owned
      → 0 < owned p
      → dec o.ref_count ≡ 0
      → All (λ d. Bounded h n d) (children_of o.kind) ⊎ E
      → Ensures E
          (finalize f p o.kind >> modify (put p none) >> pure (done tt))
          (put p (some lowered) h)
          (λ r h4. (r ≡ done tt) × IsCounted h4 (drop p owned) × Later h h4)
  last_reference {E} n f drops owned c some_owned last b =
      let h1 : Store = put p (some lowered) h in
      let c1 = lowered-IsCounted c some_owned in
      let below : All (λ d. Bounded h1 n d) (children_of o.kind) ⊎ E = elim b [
        | inl a ↦ inl (
            All-Bounded h h1 n (children_of o.kind) (Bounded-Later h h1 c1 lowered-IsKin n)
              (λ r. child-IsLive h1 p r lowered c1 (at_put h p _)) a)
        | inr x ↦ inr x
      ] in
      Ensures-bind {R = λ u h4. IsCounted h4 (drop p owned) × Later h h4} _ _ h1
        (Ensures-bind _ _ h1
          (finalize-Finalized n f drops p h1 lowered (drop p owned) c1 (at_put h p _) last o.kind
            refl below)
          (λ u h3 done3.
            let (c3, (o3, l3, dead, childless), others) = done3 in
            Ensures-modify _ h3 (
              free-IsCounted h3 p l3 childless c3 dead,
              Later-but (put p none h3) (omega (arith, c.counts p o l, some_owned))
                  (λ q other.
                    LaterAt-trans h h1 (put p none h3) q
                      (LaterAt-same h h1 q refl (off_put h p q _ other))
                      (LaterAt-trans h1 h3 (put p none h3) q (others q other)
                        (LaterAt-same h3 _ q refl (off_put h3 p q none other))))
                  (λ x' m. absurd (ground (arith, m))),
            )))
        (λ u h4 r. Ensures-pure _ h4 (refl, r.0, r.1))

module _ {E : Type 0} where
  pub unref-Drops : (n : ℕ) → Drops E n (gtu_test_object_unref n)
  unfolding gtu_test_object_unref
  unref-Drops zero p h owned c some_owned b =
      Ensures-undefined h (elim b [ inl a ↦ absurd a | inr e ↦ e ])
  unref-Drops (suc n) p h owned c some_owned b =
      let (o, l) = c.owns p some_owned in
      let alive : 0 < o.ref_count = omega (arith, c.counts p o l, some_owned) in
      let h1 : Store = put p (some (lowered h p l)) h in
      Ensures-check_object p tt _ h o (λ is_null. ground (arith, is_null, c.no_null, l)) l
        (Ensures-bind {R = λ u h'. h' ≡ h1} _ _ h (Ensures-write p _ h refl) (λ u h' eq. rw eq (
          Ensures-if (dec o.ref_count == 0) _ _ h1
            (λ last.
              last_reference h p l n (gtu_test_object_unref n) (unref-Drops n) owned c some_owned
                (ground (arith, last))
                (elim b [
                  | inl (x, m, a) ↦
                      let f : x ≡ o = ground (arith, l, m) in
                      inl (
                        subst (λ (y : GtuTestObject). All (λ d. Bounded h n d) (children_of y.kind))
                          f a)
                  | inr e ↦ inr e
                ]))
            (λ more. Ensures-pure _ h1 (
              refl,
              lowered-IsCounted h p l c some_owned,
              lowered-Later h p l alive (λ none_left. ground (arith, more, none_left)),
            )))))
