-- ===== src/Object/Later.antt =====
-- How the objects of a store change while references are dropped.
use giitestutils.Base.{
  ℕ, zero, suc, ◌<◌, ◌≡◌, refl, sym, ap, ◌∙◌, ◌⊎◌, inl, inr, List, [], ◌∷◌, some, arith, All, subst,
}
use giitestutils.Object.{Ref, GtuTestObject, Store}
use giitestutils.Object.Counts.{children_of, occurs, IsLive, IsCounted}

-- Only the count has changed, or else the object is dead and has no children left.
pub record IsKin (o o' : GtuTestObject) : Type 0 where
  pub name : o'.name ≡ o.name
  pub parent : o'.parent ≡ o.parent
  pub path : o'.path ≡ o.path
  pub kind : (o'.kind ≡ o.kind) ⊎ ((o'.ref_count ≡ 0) × (children_of o'.kind ≡ []))

-- At an address: a dead object stays, no object is left dead, and none is new.
pub record LaterAt (h h' : Store) (q : Ref) : Type 0 where
  pub next : h'.next ≡ h.next
  pub stays : (o : GtuTestObject) → h.cell q ≡ some o → o.ref_count ≡ 0 → h'.cell q ≡ some o
  pub dead : (o' : GtuTestObject) → h'.cell q ≡ some o' → o'.ref_count ≡ 0 → h.cell q ≡ some o'
  pub was :
      (o' : GtuTestObject)
      → h'.cell q ≡ some o'
      → (o : GtuTestObject) × (h.cell q ≡ some o) × IsKin o o'

IsKin-refl : (o : GtuTestObject) → IsKin o o
IsKin-refl o = record { name = refl; parent = refl; path = refl; kind = inl refl }

pub LaterAt-same :
    (h h' : Store) (q : Ref) → h'.next ≡ h.next → h'.cell q ≡ h.cell q → LaterAt h h' q
LaterAt-same h h' q n e = record {
  next = n;
  stays = λ o l d. e ∙ l;
  dead = λ o' l d. sym e ∙ l;
  was = λ o' l. (o', sym e ∙ l, IsKin-refl o');
}

pub LaterAt-trans :
    (h h' h'' : Store) (q : Ref) → LaterAt h h' q → LaterAt h' h'' q → LaterAt h h'' q
LaterAt-trans h h' h'' q a b = record {
  next = b.next ∙ a.next;
  stays = λ o l d. b.stays o (a.stays o l d) d;
  dead = λ o l d. a.dead o (b.dead o l d) d;
  was = λ o'' l'.
      let (o', l, k) = b.was o'' l' in
      let (o, first, j) = a.was o' l in
      (
        o,
        first,
        record {
          name = k.name ∙ j.name;
          parent = k.parent ∙ j.parent;
          path = k.path ∙ j.path;
          kind = both o o' o'' j k l l';
        },
      );
}
  where
    both :
        (o o' o'' : GtuTestObject)
        → IsKin o o'
        → IsKin o' o''
        → h'.cell q ≡ some o'
        → h''.cell q ≡ some o''
        → (o''.kind ≡ o.kind) ⊎ ((o''.ref_count ≡ 0) × (children_of o''.kind ≡ []))
    both o o' o'' j k l l' = elim k.kind [
      | inr gone ↦ inr gone
      | inl second ↦ elim j.kind [
        | inl first ↦ inl (second ∙ first)
        | inr gone ↦
            let f : o'' ≡ o' = ground (arith, l', b.stays o' l gone.0) in
            inr (
              ap GtuTestObject.ref_count f ∙ gone.0,
              ap (λ (x : GtuTestObject). children_of x.kind) f ∙ gone.1,
            )
      ]
    ]

abbrev pub Later : Store → Store → Type 0
Later h h' = (q : Ref) → LaterAt h h' q

-- The object and those below it are live, and no chain of children is longer than the fuel.
abbrev pub Bounded : Store → ℕ → Ref → Type 0
Bounded h zero p = ⊥
Bounded h (suc n) p =
    (o : GtuTestObject) × (h.cell p ≡ some o) × All (λ c. Bounded h n c) (children_of o.kind)

pub All-Bounded :
    (h h' : Store) (n : ℕ) (cs : List Ref)
    → ((d : Ref) → Bounded h n d → IsLive h' d → Bounded h' n d)
    → ((d : Ref) → 0 < occurs d cs → IsLive h' d)
    → All (λ d. Bounded h n d) cs
    → All (λ d. Bounded h' n d) cs
All-Bounded h h' n [] f live a = tt
All-Bounded h h' n (d ∷ cs) f live a = (
  f d a.0 (live d (ground arith)),
  All-Bounded h h' n cs f (λ r some_there. live r (omega (arith, some_there))) a.1,
)

pub child-IsLive :
    (h : Store) {owned : Ref → ℕ} (p r : Ref) (o : GtuTestObject)
    → IsCounted h owned
    → h.cell p ≡ some o
    → 0 < occurs r (children_of o.kind)
    → IsLive h r
child-IsLive h p r o c l some_there = let (x, lx, f) = c.parents p r (rw l some_there) in (x, lx)

-- What is still live is bounded as before.
module _ (h h' : Store) {owned : Ref → ℕ} (c : IsCounted h' owned)
    (was : (q : Ref) (o' : GtuTestObject)
      → h'.cell q ≡ some o'
      → (o : GtuTestObject) × (h.cell q ≡ some o) × IsKin o o') where
  pub Bounded-Later : (n : ℕ) (p : Ref) → Bounded h n p → IsLive h' p → Bounded h' n p
  Bounded-Later zero p b live = b
  Bounded-Later (suc n) p (o, l, below) (o', l') =
      let (x, lx, k) = was p o' l' in
      let f : x ≡ o = ground (arith, lx, l) in
      (
        o',
        l',
        elim k.kind [
          | inr gone ↦ rw gone.1 tt
          | inl same ↦
              All-Bounded h h' n (children_of o'.kind) (Bounded-Later n)
                (λ r. child-IsLive h' p r o' c l')
                (subst (λ x. All (λ d. Bounded h n d) (children_of x))
                  (sym (same ∙ ap GtuTestObject.kind f)) below)
        ],
      )
