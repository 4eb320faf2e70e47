-- ===== src/CommandLine/Added.antt =====
-- What the command line sets: parse_args of src/init.c against a description of its arguments.
use giitestutils.Base.{
  ℕ, ◌≡◌, refl, subst, sym, ◌∙◌, Bool, true, false, ◌||◌, List, [], ◌∷◌, none, some, inl, inr,
  arith, Bytes, codes, str_eq, str_eq→eq, Bool-cases,
}
use giitestutils.TestPath.{GtuPath, gtu_path_new_parse}
use giitestutils.Log.Tap.{is_some}
use giitestutils.CommandLine.{
  Args, Settings, get_arg_form, keep_going_on, tap_on, fatal_warnings_on, list_only_on, add_skipper,
  ends_in_equals,
}
use giitestutils.CommandLine.Forms.{get_arg_form_iff}

-- Some argument is this word.
abbrev pub has_word : Bytes → Args → Bool
has_word word [] = false
has_word word (none ∷ rest) = has_word word rest
has_word word (some arg ∷ rest) = str_eq arg word || has_word word rest

-- The list, newest first, in front of the other.
abbrev pub append_reversed {ℓ} : {A : Type ℓ} → List A → List A → List A
append_reversed [] ys = ys
append_reversed (x ∷ xs) ys = append_reversed xs (x ∷ ys)

-- Some argument has the form of `-p`.
abbrev pub has_selector : Args → Bool
has_selector [] = false
has_selector (arg ∷ rest) = is_some (get_arg_form (arg ∷ rest) (codes "-p")) || has_selector rest

module _ (isspace : ℕ → Bool) where
  -- The paths that the values of `-s` spell, in the order of the arguments.
  abbrev pub skipped : Args → List GtuPath
  skipped [] = []
  skipped (arg ∷ rest) = elim (get_arg_form (arg ∷ rest) (codes "-s")) [
    | none ↦ skipped rest
    | some text ↦ elim (gtu_path_new_parse isspace text).path [
      | none ↦ skipped rest
      | some path ↦ path ∷ skipped rest
    ]
  ]

  -- What the arguments add to the settings `s`, which are `t` behind them.
  pub record Added (args : Args) (s t : Settings) : Type 0 where
    pub keep_going :
        t.keep_going
        ≡ (s.keep_going || has_word (codes "--keep-going") args || has_word (codes "-k") args)
    pub tap_set : t.tap_set ≡ (s.tap_set || has_word (codes "--tap") args)
    pub fatal_warnings :
        t.fatal_warnings ≡ (s.fatal_warnings || has_word (codes "--g-fatal-warnings") args)
    pub list_only : t.test_mode.list_only ≡ (s.test_mode.list_only || has_word (codes "-l") args)
    pub path_selectors : t.test_mode.path_selectors ≡ s.test_mode.path_selectors
    pub path_skippers :
        t.test_mode.path_skippers ≡ append_reversed (skipped args) s.test_mode.path_skippers
    pub no_selector : has_selector args ≡ false

  -- What one argument, in front of `rest`, adds.
  pub record Sets (arg : Bytes) (rest : Args) (s t : Settings) : Type 0 where
    keep_going :
        t.keep_going
        ≡ (s.keep_going || (str_eq arg (codes "--keep-going") || str_eq arg (codes "-k")))
    tap_set : t.tap_set ≡ (s.tap_set || str_eq arg (codes "--tap"))
    fatal_warnings :
        t.fatal_warnings ≡ (s.fatal_warnings || str_eq arg (codes "--g-fatal-warnings"))
    list_only : t.test_mode.list_only ≡ (s.test_mode.list_only || str_eq arg (codes "-l"))
    path_selectors : t.test_mode.path_selectors ≡ s.test_mode.path_selectors
    path_skippers :
        append_reversed (skipped rest) t.test_mode.path_skippers
        ≡ append_reversed (skipped (some arg ∷ rest)) s.test_mode.path_skippers
    no_selector : is_some (get_arg_form (some arg ∷ rest) (codes "-p")) ≡ false

  pub Sets-Added :
      (arg : Bytes) (rest : Args) (s u t : Settings)
      → Sets arg rest s u
      → Added rest u t
      → Added (some arg ∷ rest) s t
  Sets-Added arg rest s u t h a = record {
    keep_going = ground (arith, h.keep_going, a.keep_going);
    tap_set = ground (arith, h.tap_set, a.tap_set);
    fatal_warnings = ground (arith, h.fatal_warnings, a.fatal_warnings);
    list_only = ground (arith, h.list_only, a.list_only);
    path_selectors = a.path_selectors ∙ h.path_selectors;
    path_skippers = a.path_skippers ∙ h.path_skippers;
    no_selector = ground (arith, h.no_selector, a.no_selector);
  }

  first_arg : {a b : Bytes} {xs bs : Args} → some a ∷ xs ≡ some b ∷ bs → a ≡ b
  first_arg {a} {b} {xs} {bs} e = ground (arith, e)

  -- An argument that is none of the words, and not `-s`.
  pub record IsOther (arg : Bytes) (rest : Args) : Type 0 where
    pub not_keep_going : str_eq arg (codes "--keep-going") ≡ false
    pub not_k : str_eq arg (codes "-k") ≡ false
    pub not_tap : str_eq arg (codes "--tap") ≡ false
    pub not_fatal_warnings : str_eq arg (codes "--g-fatal-warnings") ≡ false
    pub not_l : str_eq arg (codes "-l") ≡ false

  pub s-IsOther :
      (arg text : Bytes) (rest : Args)
      → get_arg_form (some arg ∷ rest) (codes "-s") ≡ some text
      → IsOther arg rest × (is_some (get_arg_form (some arg ∷ rest) (codes "-p")) ≡ false)
  unfolding str_eq ends_in_equals get_arg_form
  s-IsOther arg text rest h =
      elim ((get_arg_form_iff (some arg ∷ rest) (codes "-s") text refl).0 h) [
        | inl (r, e) ↦
            subst
              (λ a. IsOther a rest × (is_some (get_arg_form (some a ∷ rest) (codes "-p")) ≡ false))
              (sym (first_arg e))
              (
                record {
                  not_keep_going = refl;
                  not_k = refl;
                  not_tap = refl;
                  not_fatal_warnings = refl;
                  not_l = refl;
                },
                refl,
              )
        | inr (r, e, n) ↦
            subst
              (λ a. IsOther a rest × (is_some (get_arg_form (some a ∷ rest) (codes "-p")) ≡ false))
              (sym (first_arg e))
              (
                record {
                  not_keep_going = refl;
                  not_k = refl;
                  not_tap = refl;
                  not_fatal_warnings = refl;
                  not_l = refl;
                },
                refl,
              )
      ]

  pub IsOther-Sets :
      (arg : Bytes) (rest : Args) (s : Settings)
      → IsOther arg rest
      → get_arg_form (some arg ∷ rest) (codes "-s") ≡ none
      → is_some (get_arg_form (some arg ∷ rest) (codes "-p")) ≡ false
      → Sets arg rest s s
  unfolding get_arg_form
  IsOther-Sets arg rest s o n f = record {
    keep_going = ground (arith, o.not_keep_going, o.not_k);
    tap_set = ground (arith, o.not_tap);
    fatal_warnings = ground (arith, o.not_fatal_warnings);
    list_only = ground (arith, o.not_l);
    path_selectors = refl;
    path_skippers = rw n refl;
    no_selector = f;
  }

  pub keep_going-Sets :
      (rest : Args) (s : Settings) → Sets (codes "--keep-going") rest s (keep_going_on s)
  unfolding str_eq get_arg_form
  keep_going-Sets rest s = record {
    keep_going = ground arith;
    tap_set = ground arith;
    fatal_warnings = ground arith;
    list_only = ground arith;
    path_selectors = refl;
    path_skippers = refl;
    no_selector = refl;
  }

  pub k-Sets : (rest : Args) (s : Settings) → Sets (codes "-k") rest s (keep_going_on s)
  unfolding str_eq get_arg_form
  k-Sets rest s = record {
    keep_going = ground arith;
    tap_set = ground arith;
    fatal_warnings = ground arith;
    list_only = ground arith;
    path_selectors = refl;
    path_skippers = refl;
    no_selector = refl;
  }

  pub tap-Sets : (rest : Args) (s : Settings) → Sets (codes "--tap") rest s (tap_on s)
  unfolding str_eq get_arg_form
  tap-Sets rest s = record {
    keep_going = ground arith;
    tap_set = ground arith;
    fatal_warnings = ground arith;
    list_only = ground arith;
    path_selectors = refl;
    path_skippers = refl;
    no_selector = refl;
  }

  pub fatal_warnings-Sets :
      (rest : Args) (s : Settings) → Sets (codes "--g-fatal-warnings") rest s (fatal_warnings_on s)
  unfolding str_eq get_arg_form
  fatal_warnings-Sets rest s = record {
    keep_going = ground arith;
    tap_set = ground arith;
    fatal_warnings = ground arith;
    list_only = ground arith;
    path_selectors = refl;
    path_skippers = refl;
    no_selector = refl;
  }

  pub l-Sets : (rest : Args) (s : Settings) → Sets (codes "-l") rest s (list_only_on s)
  unfolding str_eq get_arg_form
  l-Sets rest s = record {
    keep_going = ground arith;
    tap_set = ground arith;
    fatal_warnings = ground arith;
    list_only = ground arith;
    path_selectors = refl;
    path_skippers = refl;
    no_selector = refl;
  }

  -- A `-s` whose value spells a path.
  pub s-Sets :
      (arg text : Bytes) (rest : Args) (path : GtuPath) (s : Settings)
      → get_arg_form (some arg ∷ rest) (codes "-s") ≡ some text
      → (gtu_path_new_parse isspace text).path ≡ some path
      → Sets arg rest s (add_skipper path s)
  s-Sets arg text rest path s h p = record {
    keep_going =
        ground (
          arith,
          (s-IsOther arg text rest h).0.not_keep_going,
          (s-IsOther arg text rest h).0.not_k,
        );
    tap_set = ground (arith, (s-IsOther arg text rest h).0.not_tap);
    fatal_warnings = ground (arith, (s-IsOther arg text rest h).0.not_fatal_warnings);
    list_only = ground (arith, (s-IsOther arg text rest h).0.not_l);
    path_selectors = refl;
    path_skippers = rw (append_reversed, skipped, h, p) refl;
    no_selector = (s-IsOther arg text rest h).1;
  }

  pub Added-nil : (s : Settings) → Added [] s s
  Added-nil s = record {
    keep_going = ground arith;
    tap_set = ground arith;
    fatal_warnings = ground arith;
    list_only = ground arith;
    path_selectors = refl;
    path_skippers = refl;
    no_selector = refl;
  }

  pub keep_going_on-Sets :
      (arg : Bytes) (rest : Args) (s : Settings)
      → (str_eq arg (codes "--keep-going") || str_eq arg (codes "-k")) ≡ true
      → Sets arg rest s (keep_going_on s)
  keep_going_on-Sets arg rest s h = elim (Bool-cases (str_eq arg (codes "--keep-going"))) [
    | inl long ↦
        subst (λ a. Sets a rest s (keep_going_on s)) (sym (str_eq→eq arg _ long))
          (keep_going-Sets rest s)
    | inr short ↦
        subst (λ a. Sets a rest s (keep_going_on s))
          (sym (str_eq→eq arg (codes "-k") (ground (arith, h, short)))) (k-Sets rest s)
  ]
