-- ===== src/CommandLine/Forms.antt =====
-- The two forms of an argument with a value: get_arg and GET_ARG of src/init.c.
use giitestutils.Base.{
  append-nil, append_assoc, ◌≢◌, ℕ, ◌≡◌, refl, ap, ◌∙◌, true, false, [], ◌∷◌, ◌++◌, none, some, ◌⊎◌,
  inl, inr, ◌↔◌, arith, length, length-append, Bytes, codes, Option-cases,
}
use giitestutils.CommandLine.{Args, starts_with, ends_in_equals, behind, get_arg, get_arg_form}

starts_with_sound : (p s : Bytes) → starts_with p s ≡ true → s ≡ p ++ behind (length p) s
unfolding starts_with behind
starts_with_sound [] s h = refl
starts_with_sound (c ∷ p) [] h = ground arith
starts_with_sound (c ∷ p) (d ∷ s) h = ground (arith, starts_with_sound p s)

starts_with-append : (p r : Bytes) → starts_with p (p ++ r) ≡ true
unfolding starts_with
starts_with-append [] r = refl
starts_with-append (c ∷ p) r = ground (arith, starts_with-append p r)

behind-append : (p r : Bytes) → behind (length p) (p ++ r) ≡ r
unfolding behind
behind-append [] r = refl
behind-append (c ∷ p) r = behind-append p r

ends_in_equals-append : (p : Bytes) → ends_in_equals (p ++ codes "=") ≡ true
unfolding ends_in_equals
ends_in_equals-append [] = refl
ends_in_equals-append (c ∷ []) = refl
ends_in_equals-append (c ∷ d ∷ p) = ends_in_equals-append (d ∷ p)

length-zero : (s : Bytes) → length s ≡ 0 → s ≡ []
length-zero [] h = refl
length-zero (c ∷ s) h = ground arith

-- `argstr` is followed by its value as the next argument.
abbrev pub NextForm : Bytes → Args → Bytes → Type 0
NextForm argstr args v = (rest : Args) × (args ≡ some argstr ∷ some v ∷ rest)

-- `argstr=value`, with a value that is not empty.
abbrev pub EqualsForm : Bytes → Args → Bytes → Type 0
EqualsForm argstr args v =
    (rest : Args) × (args ≡ some (argstr ++ codes "=" ++ v) ∷ rest) × (v ≢ [])

get_arg-equals_sound :
    (args : Args) (arg v : Bytes)
    → ends_in_equals arg ≡ true
    → get_arg args arg ≡ some v
    → (rest : Args) × (args ≡ some (arg ++ v) ∷ rest) × (v ≢ [])
unfolding get_arg
get_arg-equals_sound [] arg v q h = ground arith
get_arg-equals_sound (none ∷ rest) arg v q h = ground arith
get_arg-equals_sound (some s ∷ rest) arg v q h =
    let e : behind (length arg) s ≡ v = ground arith in
    (
      rest,
      ap (λ t. some t ∷ rest) (starts_with_sound arg s (ground arith) ∙ ap (λ r. arg ++ r) e),
      λ n. ground (arith, n),
    )

get_arg-next_sound :
    (args : Args) (arg v : Bytes)
    → ends_in_equals arg ≡ false
    → get_arg args arg ≡ some v
    → NextForm arg args v
unfolding get_arg
get_arg-next_sound [] arg v q h = ground arith
get_arg-next_sound (none ∷ rest) arg v q h = ground arith
get_arg-next_sound (some s ∷ []) arg v q h = ground arith
get_arg-next_sound (some s ∷ none ∷ rest) arg v q h = ground arith
get_arg-next_sound (some s ∷ some w ∷ rest) arg v q h =
    let b = starts_with_sound arg s (ground arith) in
    let n : length s ≡ length arg = ground arith in
    let z =
      length-zero (behind (length arg) s)
        (omega (arith, n, ap length b, length-append arg (behind (length arg) s))) in
    let e : s ≡ arg = b ∙ ap (λ r. arg ++ r) z ∙ append-nil arg in
    let f : w ≡ v = ground arith in (rest, cc (e, f))

get_arg-next_complete :
    (arg v : Bytes) (rest : Args)
    → ends_in_equals arg ≡ false
    → get_arg (some arg ∷ some v ∷ rest) arg ≡ some v
unfolding get_arg
get_arg-next_complete arg v rest q =
    ground (arith, q, ap (starts_with arg) (append-nil arg), starts_with-append arg [])

get_arg-equals_complete :
    (arg v : Bytes) (rest : Args)
    → ends_in_equals arg ≡ true
    → v ≢ []
    → get_arg (some (arg ++ v) ∷ rest) arg ≡ some v
unfolding get_arg
get_arg-equals_complete arg [] rest q n = absurd (n refl)
get_arg-equals_complete arg (c ∷ v) rest q n =
    rw (starts_with-append arg (c ∷ v), q, behind-append arg (c ∷ v)) (ground arith)

get_arg-longer :
    (arg t : Bytes) (c : ℕ) (rest : Args)
    → ends_in_equals arg ≡ false
    → get_arg (some (arg ++ c ∷ t) ∷ rest) arg ≡ none
unfolding get_arg
get_arg-longer arg t c rest q =
    ground (arith, q, starts_with-append arg (c ∷ t), length-append arg (c ∷ t))

get_arg_form_sound :
    (args : Args) (argstr v : Bytes)
    → ends_in_equals argstr ≡ false
    → get_arg_form args argstr ≡ some v
    → NextForm argstr args v ⊎ EqualsForm argstr args v
unfolding get_arg_form
get_arg_form_sound args argstr v q h = elim (Option-cases (get_arg args argstr)) [
  | inl missing ↦
      let (rest, e, n) =
        get_arg-equals_sound args (argstr ++ codes "=") v (ends_in_equals-append argstr)
          (ground (arith, missing)) in
      inr (rest, e, n)
  | inr (a, found) ↦ inl (get_arg-next_sound args argstr v q (ground (arith, found)))
]

pub get_arg_form-next :
    (argstr v : Bytes) (rest : Args)
    → ends_in_equals argstr ≡ false
    → get_arg_form (some argstr ∷ some v ∷ rest) argstr ≡ some v
unfolding get_arg_form
get_arg_form-next argstr v rest q = rw (get_arg_form, get_arg-next_complete argstr v rest q) refl

pub get_arg_form-equals :
    (argstr v : Bytes) (rest : Args)
    → ends_in_equals argstr ≡ false
    → v ≢ []
    → get_arg_form (some (argstr ++ codes "=" ++ v) ∷ rest) argstr ≡ some v
unfolding get_arg_form
get_arg_form-equals argstr v rest q n =
    rw
      (
        get_arg_form,
        ap (λ t. get_arg (some t ∷ rest) argstr) (append_assoc argstr (codes "=") v)
            ∙ get_arg-longer argstr v b'=' rest q,
      )
      (get_arg-equals_complete (argstr ++ codes "=") v rest (ends_in_equals-append argstr) n)

get_arg_form_complete :
    (args : Args) (argstr v : Bytes)
    → ends_in_equals argstr ≡ false
    → NextForm argstr args v ⊎ EqualsForm argstr args v
    → get_arg_form args argstr ≡ some v
get_arg_form_complete args argstr v q (inl (rest, e)) = rw e (get_arg_form-next argstr v rest q)
get_arg_form_complete args argstr v q (inr (rest, e, n)) =
    rw e (get_arg_form-equals argstr v rest q n)

-- GET_ARG, at the rest of the argument array, gives `v` exactly when the argument is the option and
-- the next argument is `v`, or the argument is the option, an equals sign and `v`, which is not
-- empty. Condition: the option does not end in an equals sign.
pub get_arg_form_iff :
    (args : Args) (argstr v : Bytes)
    → ends_in_equals argstr ≡ false
    → (get_arg_form args argstr ≡ some v) ↔ (NextForm argstr args v ⊎ EqualsForm argstr args v)
get_arg_form_iff args argstr v q =
    (get_arg_form_sound args argstr v q, get_arg_form_complete args argstr v q)
