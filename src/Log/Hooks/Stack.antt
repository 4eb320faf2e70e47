-- ===== src/Log/Hooks/Stack.antt =====
-- The stack of log hooks of src/log/hooks.c: what gtu_log_hooks_pop removes.
use giitestutils.Base.{
  ◌≡◌, refl, ap, Bool, true, false, List, [], ◌∷◌, ◌++◌, Option, none, some, All, Bool-cases, inl,
  inr,
}
use giitestutils.Log.Hooks.{Hook, gtu_log_hooks_pop}

module _ {F T : Type 0} (same : F → F → Bool) (hook : F) where
  -- No hook of the stack has this function.
  abbrev pub IsFree : List (Hook F T) → Type 0
  IsFree hooks = All (λ h. same h.func hook ≡ false) hooks

  -- `rest` is the stack without the newest hook of this function.
  pub record Removed (hooks rest : List (Hook F T)) : Type 0 where
    pub newer : List (Hook F T)
    pub it : Hook F T
    pub older : List (Hook F T)
    pub before : hooks ≡ newer ++ it ∷ older
    pub after : rest ≡ newer ++ older
    pub found : same it.func hook ≡ true
    pub newest : IsFree newer

  -- What a pop gives.
  abbrev pub Popped : List (Hook F T) → Option (List (Hook F T)) → Type 0
  Popped hooks none = IsFree hooks
  Popped hooks (some rest) = Removed hooks rest

  pop-next :
      (h : Hook F T) (hooks : List (Hook F T)) (r : Option (List (Hook F T)))
      → same h.func hook ≡ false
      → Popped hooks r
      → Popped (h ∷ hooks) (elim r [ none ↦ none | some rest ↦ some (h ∷ rest) ])
  pop-next h hooks none other p = (other, p)
  pop-next h hooks (some rest) other p = record {
    newer = h ∷ p.newer;
    it = p.it;
    older = p.older;
    before = ap (◌∷◌ h) p.before;
    after = ap (◌∷◌ h) p.after;
    found = p.found;
    newest = (other, p.newest);
  }

  -- gtu_log_hooks_pop removes the newest hook of the given function, wherever it is in the stack, and
  -- keeps the order of the others; it fails an assertion only if there is none.
  pub hooks_pop-newest :
      (hooks : List (Hook F T)) → Popped hooks (gtu_log_hooks_pop same hook hooks)
  unfolding gtu_log_hooks_pop
  hooks_pop-newest [] = tt
  hooks_pop-newest (h ∷ hooks) = elim (Bool-cases (same h.func hook)) [
    | inl yes_it ↦
        rw (yes_it, gtu_log_hooks_pop)
          (record {
            newer = [];
            it = h;
            older = hooks;
            before = refl;
            after = refl;
            found = yes_it;
            newest = tt;
          })
    | inr other ↦
        rw (other, gtu_log_hooks_pop)
          (pop-next h hooks (gtu_log_hooks_pop same hook hooks) other (hooks_pop-newest hooks))
  ]
