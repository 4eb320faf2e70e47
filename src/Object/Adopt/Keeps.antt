-- ===== src/Object/Adopt/Keeps.antt =====
-- A store stays a forest when a root is adopted.
use Prim.Native.Nat.{◌^◌}
use giitestutils.Base.{
  ℕ, suc, ◌+◌, ◌-◌, ◌<◌, ◌≡◌, ◌≢◌, refl, sym, ap, ◌∙◌, inl, inr, Bool, true, false, List, some,
  arith, subst, if◌then◌else◌, zero_or_pos,
}
use giitestutils.Object.{Ref, null, GtuTestObject, Store, inc}
use giitestutils.Object.Counts.{children_at, occurs, held, IsLive, IsCounted, Address-cases}
use giitestutils.Object.Adopt.{
  Adopted, given, MayAdopt, self-ne-null, same_arrays, occurs_after, not_there, child_there,
  is_child, is_old, was, still_live,
}

module _ {isspace : ℕ → Bool} {h h3 : Store} {owned : Ref → ℕ} {self p : Ref} {s o : GtuTestObject}
    {cs : List Ref} (m : MayAdopt isspace h owned self p s o cs)
    (a : Adopted h h3 self p s o cs) where
  pub IsLive-before : (q : Ref) → IsLive h3 q → IsLive h q
  IsLive-before q (x, l) = elim (was m a q x l) [
    | is_child e f ↦ (o, ap h.cell e ∙ m.child_at)
    | is_old other y k n r t c ↦ (y, k)
  ]

  pub known : (q : Ref) → IsLive h q → q < h.next
  known q (y, l) = elim (zero_or_pos (suc q - h.next)) [
    | inl below ↦ omega (arith, below)
    | inr beyond ↦ absurd (ground (arith, m.forest.counted.unused q (omega (arith, beyond)), l))
  ]

  child_refs : o.ref_count ≡ owned p
  child_refs = omega (arith, m.forest.counted.counts p o m.child_at, not_there m a o.parent)

  child_total : (b : Bool) → (if b then o.ref_count else inc o.ref_count) ≡ given b p owned p + 1
  child_total true = ground (arith, child_refs, m.forest.alive p o m.child_at)
  child_total false = ground (arith, child_refs, m.small)

  counts_after :
      (q : Ref) (x : GtuTestObject)
      → h3.cell q ≡ some x
      → x.ref_count ≡ given o.is_floating p owned q + held h3 q x
  counts_after q x l = elim (was m a q x l) [
    | is_child e f ↦
        rw (e, f, a.child_parent, child_there m a) (a.child_count ∙ child_total o.is_floating)
    | is_old other y k n r t c ↦
        rw (occurs_after m a q x.parent other, r)
          (c
            ∙ m.forest.counted.counts q y k
            ∙ ap (λ w. w + held h q y) (given_other o.is_floating q other))
  ]
    where
      given_other : (b : Bool) (q : Ref) → q ≢ p → owned q ≡ given b p owned q
      given_other true q other = ground arith
      given_other false q other = refl

  pub IsCounted-adopt : IsCounted h3 (given o.is_floating p owned)
  IsCounted-adopt = record {
    no_null =
        a.others null (λ is_self. self-ne-null m a (sym is_self))
          (λ is_p. ground (arith, is_p, m.forest.counted.no_null, m.child_at))
        ∙ m.forest.counted.no_null;
    unused = λ q beyond.
        a.others q (λ is_self. omega (arith, is_self, beyond, a.next, known self (s, m.self_at)))
          (λ is_p. omega (arith, is_p, beyond, a.next, known p (o, m.child_at)))
        ∙ m.forest.counted.unused q (omega (arith, beyond, a.next));
    counts = counts_after;
    fits = λ q x l. elim (was m a q x l) [
      | is_child e f ↦ rw f (omega (arith, a.child_count, child_fits o.is_floating))
      | is_old other y k n r t c ↦ omega (arith, c, m.forest.counted.fits q y k)
    ];
    parents = λ r q there. elim (Address-cases q p) [
      | inl same ↦ elim (Address-cases r self) [
        | inl is_self ↦ (a.child, ap h3.cell same ∙ a.child_at, a.child_parent ∙ sym is_self)
        | inr other ↦ absurd (
            omega (
              arith,
              subst (λ c. 0 < occurs c (children_at (h3.cell r))) same there,
              ap (occurs p) (same_arrays m a r other),
              not_there m a r,
            ))
      ]
      | inr other ↦
          let (y, l, f) =
            m.forest.counted.parents r q (subst (λ n. 0 < n) (occurs_after m a q r other) there) in
          same_parent q r other y l f (still_live m a q (y, l))
    ];
    owns = λ q some_owned. still_live m a q (m.forest.counted.owns q (ground (arith, some_owned)));
  }
    where
      child_fits : (b : Bool) → (if b then o.ref_count else inc o.ref_count) < 2 ^ 32
      child_fits true = omega (arith, m.small)
      child_fits false = omega arith

      same_parent :
          (q r : Ref)
          → q ≢ p
          → (y : GtuTestObject) → h.cell q ≡ some y
          → y.parent ≡ r
          → (x : GtuTestObject) × (h3.cell q ≡ some x)
          → (x : GtuTestObject) × (h3.cell q ≡ some x) × (x.parent ≡ r)
      same_parent q r other y l f (x, k) = elim (was m a q x k) [
        | is_child e g ↦ absurd (other e)
        | is_old n z lz nz rz tz cz ↦
            let g : z ≡ y = ground (arith, l, lz) in (x, k, rz ∙ ap GtuTestObject.parent g ∙ f)
      ]

  pub linked_after :
      (q : Ref) (x : GtuTestObject)
      → h3.cell q ≡ some x
      → x.parent ≢ null
      → IsLive h3 x.parent
      → 0 < occurs q (children_at (h3.cell x.parent))
  linked_after q x l n live = elim (was m a q x l) [
    | is_child e f ↦ rw (e, f, a.child_parent, child_there m a) (omega arith)
    | is_old other y k nm r t c ↦ rw (occurs_after m a q x.parent other) (
        subst (λ v. 0 < occurs q (children_at (h.cell v))) (sym r)
          (m.forest.linked q y k (λ top. n (r ∙ top))
            (subst (IsLive h) r (IsLive-before x.parent live))))
  ]
