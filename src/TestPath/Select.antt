-- ===== src/TestPath/Select.antt =====
-- Which tests the command line selects: gtu_path_has_prefix and _gtu_path_should_run of src/path.c.
use giitestutils.Base.{
  ◌≡◌, refl, Bool, true, false, not, List, [], ◌∷◌, ◌++◌, arith, All, Bytes, length-append,
  str_eq→eq, str_eq_refl, ◌↔◌, Bool-cases, inl, inr,
}
use giitestutils.TestPath.{
  GtuPath, GtuTestMode, matches_from, gtu_path_has_prefix, select_from, skip_from,
  gtu_path_should_run,
}

-- The elements of `prefix` are the first elements of `path`.
pub record HasPrefix (path prefix : GtuPath) : Type 0 where
  pub rest : List Bytes
  pub splits : path.elements ≡ prefix.elements ++ rest

matches_from_sound :
    (xs ps : List Bytes) → matches_from xs ps ≡ true → (rest : List Bytes) × (xs ≡ ps ++ rest)
unfolding matches_from
matches_from_sound xs [] h = (xs, refl)
matches_from_sound [] (p ∷ ps) h = ground arith
matches_from_sound (x ∷ xs) (p ∷ ps) h =
    let (rest, e) = matches_from_sound xs ps (ground arith) in
    (rest, cc (str_eq→eq x p (ground arith), e))

matches_from_complete : (ps rest : List Bytes) → matches_from (ps ++ rest) ps ≡ true
unfolding matches_from
matches_from_complete [] rest = refl
matches_from_complete (p ∷ ps) rest = ground (arith, str_eq_refl p, matches_from_complete ps rest)

HasPrefix-complete :
    (path prefix : GtuPath) → HasPrefix path prefix → gtu_path_has_prefix path prefix ≡ true
unfolding gtu_path_has_prefix
HasPrefix-complete path prefix h = ground (
  arith,
  matches_from_complete prefix.elements h.rest,
  length-append prefix.elements h.rest,
  h.splits,
)

HasPrefix-sound :
    (path prefix : GtuPath) → gtu_path_has_prefix path prefix ≡ true → HasPrefix path prefix
unfolding gtu_path_has_prefix
HasPrefix-sound path prefix h =
    let (rest, e) = matches_from_sound path.elements prefix.elements (ground arith) in
    record { rest = rest; splits = e }

-- gtu_path_has_prefix decides whether the elements of one path begin those of the other.
pub HasPrefix-iff :
    (path prefix : GtuPath) → (gtu_path_has_prefix path prefix ≡ true) ↔ HasPrefix path prefix
HasPrefix-iff path prefix = (HasPrefix-sound path prefix, HasPrefix-complete path prefix)

-- The path is below every selector and below no skipper.
pub record IsSelected (test_mode : GtuTestMode) (path : GtuPath) : Type 0 where
  pub below_selectors : All (HasPrefix path) test_mode.path_selectors
  pub not_skipped : All (λ p. ¬ HasPrefix path p) test_mode.path_skippers

select_from_sound :
    (path : GtuPath) (b : Bool) (ps : List GtuPath)
    → select_from path b ps ≡ true
    → (b ≡ true) × All (HasPrefix path) ps
unfolding select_from
select_from_sound path b [] h = (h, tt)
select_from_sound path true (p ∷ ps) h =
    let (q, r) = select_from_sound path (gtu_path_has_prefix path p) ps h in
    (refl, (HasPrefix-sound path p q, r))
select_from_sound path false (p ∷ ps) h = ground arith

select_from_complete :
    (path : GtuPath) (ps : List GtuPath) → All (HasPrefix path) ps → select_from path true ps ≡ true
unfolding select_from
select_from_complete path [] a = refl
select_from_complete path (p ∷ ps) a =
    rw (HasPrefix-complete path p a.0) (select_from_complete path ps a.1)

skip_from_sound :
    (path : GtuPath) (b : Bool) (ps : List GtuPath)
    → skip_from path b ps ≡ true
    → (b ≡ true) × All (λ p. ¬ HasPrefix path p) ps
unfolding skip_from
skip_from_sound path b [] h = (h, tt)
skip_from_sound path true (p ∷ ps) h =
    let (q, r) = skip_from_sound path (not (gtu_path_has_prefix path p)) ps h in
    (refl, (λ below. ground (arith, HasPrefix-complete path p below), r))
skip_from_sound path false (p ∷ ps) h = ground arith

skip_from_complete :
    (path : GtuPath) (ps : List GtuPath)
    → All (λ p. ¬ HasPrefix path p) ps
    → skip_from path true ps ≡ true
unfolding skip_from
skip_from_complete path [] a = refl
skip_from_complete path (p ∷ ps) a = elim (Bool-cases (gtu_path_has_prefix path p)) [
  | inl below ↦ absurd (a.0 (HasPrefix-sound path p below))
  | inr other ↦ rw other (skip_from_complete path ps a.1)
]

-- A test runs exactly when its path is below every `-p` selector and below no `-s` skipper.
pub should_run_iff :
    (test_mode : GtuTestMode) (path : GtuPath)
    → (gtu_path_should_run test_mode path ≡ true) ↔ IsSelected test_mode path
unfolding gtu_path_should_run
should_run_iff test_mode path = (
  λ h.
      let (q, r) =
        skip_from_sound path (select_from path true test_mode.path_selectors)
          test_mode.path_skippers h in
      record {
        below_selectors = (select_from_sound path true test_mode.path_selectors q).1;
        not_skipped = r;
      },
  λ s.
      rw (select_from_complete path test_mode.path_selectors s.below_selectors)
        (skip_from_complete path test_mode.path_skippers s.not_skipped),
)
