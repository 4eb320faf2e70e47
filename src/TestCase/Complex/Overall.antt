-- ===== src/TestCase/Complex/Overall.antt =====
-- The result of a complex test case by the results of its subunits: the second switch of
-- src/test-case/complex.c.
use giitestutils.Base.{
  ℕ, ◌+◌, ◌≤◌, ◌≡◌, refl, sym, ap, ◌∙◌, Bool, true, false, ◌&&◌, ◌||◌, List, [], ◌∷◌, arith, length,
  is_empty, ◌==◌, if◌then◌else◌, not, Bool-cases, inl, inr,
}
use giitestutils.Process.{GtuTestResult, invalid, pass, skip, fail}

abbrev pub is_fail : GtuTestResult → Bool
is_fail fail = true
is_fail _ = false

abbrev pub is_skip : GtuTestResult → Bool
is_skip skip = true
is_skip _ = false

abbrev pub skips : List GtuTestResult → ℕ
skips [] = 0
skips (v ∷ vs) = (if is_skip v then 1 else 0) + skips vs

abbrev pub any_fail : List GtuTestResult → Bool
any_fail [] = false
any_fail (v ∷ vs) = is_fail v || any_fail vs

abbrev pub all_skip : List GtuTestResult → Bool
all_skip [] = true
all_skip (v ∷ vs) = is_skip v && all_skip vs

abbrev pub last : GtuTestResult → List GtuTestResult → GtuTestResult
last r [] = r
last r (v ∷ vs) = last v vs

-- Behind a failure there are failures only.
abbrev pub StaysFailed : GtuTestResult → List GtuTestResult → Type 0
StaysFailed r [] = Unit
StaysFailed r (v ∷ vs) = (r ≡ fail → v ≡ fail) × StaysFailed v vs

-- What a complex case promises: it fails when a subunit fails, it is skipped when all of at least
-- one subunit are, and it passes otherwise.
abbrev pub overall : List GtuTestResult → GtuTestResult
overall vs = if any_fail vs then fail else if not (is_empty vs) && all_skip vs then skip else pass

any_fail-last :
    (r : GtuTestResult) (vs : List GtuTestResult)
    → StaysFailed r vs
    → is_fail (last r vs) ≡ is_fail r || any_fail vs
any_fail-last r [] h = ground arith
any_fail-last fail (v ∷ vs) h =
    any_fail-last v vs h.1 ∙ ap (λ x. is_fail x || any_fail vs) (h.0 refl)
any_fail-last invalid (v ∷ vs) h = any_fail-last v vs h.1
any_fail-last pass (v ∷ vs) h = any_fail-last v vs h.1
any_fail-last skip (v ∷ vs) h = any_fail-last v vs h.1

all_skip-last :
    (r : GtuTestResult) (vs : List GtuTestResult)
    → is_skip r ≡ true
    → all_skip vs ≡ true
    → is_skip (last r vs) ≡ true
all_skip-last r [] h k = h
all_skip-last r (v ∷ vs) h k = all_skip-last v vs (ground arith) (ground arith)

skips-le : (vs : List GtuTestResult) → skips vs ≤ length vs
skips-le [] = omega arith
skips-le (v ∷ vs) = ground (arith, skips-le vs)

skips-all : (vs : List GtuTestResult) → (skips vs == length vs) ≡ all_skip vs
skips-all [] = refl
skips-all (v ∷ vs) = ground (arith, skips-all vs, skips-le vs)

-- What the second switch makes of the last result.
abbrev pub switched : List GtuTestResult → GtuTestResult → GtuTestResult
switched vs fail = fail
switched vs skip = if skips vs == length vs then skip else pass
switched vs pass = pass
switched vs invalid = pass

-- The last subunit is neither failed nor skipped.
overall-mixed :
    (v : GtuTestResult) (vs : List GtuTestResult)
    → StaysFailed invalid (v ∷ vs)
    → is_fail (last v vs) ≡ false
    → is_skip (last v vs) ≡ false
    → overall (v ∷ vs) ≡ pass
overall-mixed v vs h f k =
    let failed : any_fail (v ∷ vs) ≡ false = sym (any_fail-last v vs h.1) ∙ f in
    elim (Bool-cases (all_skip (v ∷ vs))) [
      | inl all ↦ absurd (ground (arith, all_skip-last v vs (ground arith) (ground arith)))
      | inr some_not ↦ rw (failed, some_not) refl
    ]

overall-last :
    (v : GtuTestResult) (vs : List GtuTestResult) (r : GtuTestResult)
    → StaysFailed invalid (v ∷ vs)
    → last v vs ≡ r
    → overall (v ∷ vs) ≡ switched (v ∷ vs) r
overall-last v vs fail h e =
    let failed : any_fail (v ∷ vs) ≡ true = sym (any_fail-last v vs h.1) ∙ ap is_fail e in
    rw failed refl
overall-last v vs skip h e =
    let failed : any_fail (v ∷ vs) ≡ false = sym (any_fail-last v vs h.1) ∙ ap is_fail e in
    rw (failed, skips-all (v ∷ vs)) refl
overall-last v vs pass h e = overall-mixed v vs h (ap is_fail e) (ap is_skip e)
overall-last v vs invalid h e = overall-mixed v vs h (ap is_fail e) (ap is_skip e)

pub overall_lem :
    (vs : List GtuTestResult) → StaysFailed invalid vs → overall vs ≡ switched vs (last invalid vs)
overall_lem [] h = refl
overall_lem (v ∷ vs) h = overall-last v vs (last v vs) h refl
