-- ===== src/CommandLine/Runs.antt =====
-- The run of parse_args of src/init.c: what it has set when it returns, and when it does return.
use giitestutils.Base.{
  ℕ, ◌≡◌, refl, not, ◌&&◌, Bool, true, false, ◌||◌, [], ◌∷◌, Option, none, some, inl, inr, arith,
  Bytes, codes, str_eq, str_eq→eq, Bool-cases, ◌⊎◌, subst, sym, ◌≢◌,
}
use giitestutils.Base.Exec.{pure}
use giitestutils.Base.Exec.Ensures.{
  Ensures, Ensures-pure, Ensures-aborted, Ensures-exited, Ensures-undefined, Ensures-if,
  Ensures-modify, Ensures-bind, Ensures-on_option, Ensures-weaken,
}
use giitestutils.TestPath.{gtu_path_new_parse}
use giitestutils.Log.Tap.{is_some, Log}
use giitestutils.CommandLine.{
  Args, Settings, get_arg_form, parse_arg, parse_from_paths, parse_each, parse_args,
  warn_without_tap, with_path, bail_unsupported, tap_on, fatal_warnings_on, list_only_on,
  add_skipper, add_selector, is_unsupported, cleared,
}
use giitestutils.CommandLine.Added.{
  Added, Added-nil, keep_going_on-Sets, Sets, Sets-Added, IsOther-Sets, tap-Sets,
  fatal_warnings-Sets, l-Sets, s-Sets, s-IsOther,
}

module _ (isspace : ℕ → Bool) where
  -- An argument that parse_args goes on behind: it is not a `-p` with a value, if it is a `-s` its value spells a
  -- path, and it is none of the three that GTU does not support.
  pub record IsFine (arg : Bytes) (rest : Args) : Type 0 where
    pub not_selector : is_some (get_arg_form (some arg ∷ rest) (codes "-p")) ≡ false
    pub parses :
        (text : Bytes)
        → get_arg_form (some arg ∷ rest) (codes "-s") ≡ some text
        → (gtu_path_new_parse isspace text).path ≢ none
    pub supported : is_unsupported (some arg ∷ rest) arg ≡ false

  abbrev pub AllFine : Args → Type 0
  AllFine [] = Unit
  AllFine (none ∷ rest) = ⊥
  AllFine (some arg ∷ rest) = IsFine arg rest × AllFine rest

  not_some : (o : Option Bytes) → is_some o ≡ false → o ≡ none
  not_some none h = refl
  not_some (some a) h = ground arith

  module _ {E : Type 0} where
    with_skipper-Ensures :
        (arg : Bytes) (rest : Args) (s : Settings) (o : Option Bytes)
        → IsFine arg rest ⊎ E
        → get_arg_form (some arg ∷ rest) (codes "-s") ≡ o
        → is_some o ≡ true
        → Ensures E (with_path isspace o add_skipper) s (λ u t. Sets isspace arg rest s t)
    unfolding with_path
    with_skipper-Ensures arg rest s none f e h = ground arith
    with_skipper-Ensures arg rest s (some text) f e h =
        Ensures-on_option _ _ _ s
          (λ n.
            Ensures-exited 1 s (elim f [ inl fine ↦ absurd (fine.parses text e n) | inr x ↦ x ]))
          (λ path p. Ensures-modify _ s (s-Sets isspace arg text rest path s e p))

    with_selector-Ensures :
        (arg : Bytes) (rest : Args) (s : Settings) (o : Option Bytes)
        → IsFine arg rest ⊎ E
        → get_arg_form (some arg ∷ rest) (codes "-s") ≡ o
        → is_some (get_arg_form (some arg ∷ rest) (codes "-p")) ≡ true
        → Ensures E (with_path isspace o add_selector) s (λ u t. Sets isspace arg rest s t)
    unfolding with_path
    with_selector-Ensures arg rest s none f e h =
        Ensures-undefined s
          (elim f [ inl fine ↦ absurd (ground (arith, h, fine.not_selector)) | inr x ↦ x ])
    with_selector-Ensures arg rest s (some text) f e h =
        absurd (ground (arith, h, (s-IsOther isspace arg text rest e).1))

    bail_unsupported-Ensures :
        (arg : Bytes) (rest : Args) (s : Settings)
        → IsFine arg rest ⊎ E
        → is_unsupported (some arg ∷ rest) arg ≡ true
        → Ensures E (bail_unsupported arg) s (λ u t. Sets isspace arg rest s t)
    unfolding bail_unsupported
    bail_unsupported-Ensures arg rest s f h = record {
      holds = elim f [ inl fine ↦ absurd (ground (arith, h, fine.supported)) | inr x ↦ x ];
    }

    from_paths-Ensures :
        (arg : Bytes) (rest : Args) (s : Settings)
        → IsFine arg rest ⊎ E
        → (str_eq arg (codes "--keep-going") || str_eq arg (codes "-k")) ≡ false
        → str_eq arg (codes "--tap") ≡ false
        → str_eq arg (codes "--g-fatal-warnings") ≡ false
        → Ensures E
            (parse_from_paths isspace (some arg ∷ rest) arg)
            s
            (λ u t. Sets isspace arg rest s t)
    unfolding parse_from_paths
    from_paths-Ensures arg rest s f k1 k2 k3 =
        Ensures-if _ _ _ s (λ h. with_selector-Ensures arg rest s _ f refl h)
          (λ no_p.
            Ensures-if _ _ _ s (λ h. with_skipper-Ensures arg rest s _ f refl h)
              (λ no_s.
                Ensures-if _ _ _ s
                  (λ h. Ensures-modify _ s (
                    subst (λ a. Sets isspace a rest s (list_only_on s)) (sym (str_eq→eq arg _ h))
                      (l-Sets isspace rest s)))
                  (λ not_l.
                    Ensures-if _ _ _ s (λ h. bail_unsupported-Ensures arg rest s f h)
                      (λ h. Ensures-pure tt s (
                        IsOther-Sets isspace arg rest s
                          (record {
                            not_keep_going = ground (arith, k1);
                            not_k = ground (arith, k1);
                            not_tap = k2;
                            not_fatal_warnings = k3;
                            not_l = not_l;
                          })
                          (not_some _ no_s) no_p)))))

    parse_arg-Ensures :
        (arg : Bytes) (rest : Args) (s : Settings)
        → IsFine arg rest ⊎ E
        → Ensures E (parse_arg isspace (some arg ∷ rest) arg) s (λ u t. Sets isspace arg rest s t)
    unfolding parse_arg
    parse_arg-Ensures arg rest s f =
        Ensures-if _ _ _ s (λ h. Ensures-modify _ s (keep_going_on-Sets isspace arg rest s h))
          (λ not_keep.
            Ensures-if _ _ _ s
              (λ h. Ensures-modify _ s (
                subst (λ a. Sets isspace a rest s (tap_on s)) (sym (str_eq→eq arg _ h))
                  (tap-Sets isspace rest s)))
              (λ not_tap.
                Ensures-if _ _ _ s
                  (λ h. Ensures-modify _ s (
                    subst (λ a. Sets isspace a rest s (fatal_warnings_on s))
                      (sym (str_eq→eq arg _ h)) (fatal_warnings-Sets isspace rest s)))
                  (λ not_fatal. from_paths-Ensures arg rest s f not_keep not_tap not_fatal)))

    parse_each-Ensures :
        (args : Args) (s : Settings)
        → AllFine args ⊎ E
        → Ensures E (parse_each isspace args) s (λ u t. Added isspace args s t)
    unfolding parse_each
    parse_each-Ensures [] s f = Ensures-pure tt s (Added-nil isspace s)
    parse_each-Ensures (none ∷ rest) s f =
        Ensures-aborted s (elim f [ inl bad ↦ absurd bad | inr e ↦ e ])
    parse_each-Ensures (some arg ∷ rest) s f =
        Ensures-bind _ _ s
          (parse_arg-Ensures arg rest s (elim f [ inl fine ↦ inl fine.0 | inr e ↦ inr e ]))
          (λ u t h.
            Ensures-weaken _ t
              (parse_each-Ensures rest t (elim f [ inl fine ↦ inl fine.1 | inr e ↦ inr e ]))
              (λ v w a. Sets-Added isspace arg rest s t w h a))

    warn-Ensures :
        (args : Args) (s t : Settings)
        → Added isspace args s t
        → Ensures E warn_without_tap t (λ u w. Added isspace args s w)
    unfolding warn_without_tap pure
    warn-Ensures args s t a = elim (Bool-cases (not t.tap_set && not t.test_mode.list_only)) [
      | inl warns ↦ record { holds = rw warns (same a) }
      | inr quiet ↦ record { holds = rw quiet a }
    ]
      where
        same : {log : Log} → Added isspace args s t → Added isspace args s (record t { log = log })
        same a = record {
          keep_going = a.keep_going;
          tap_set = a.tap_set;
          fatal_warnings = a.fatal_warnings;
          list_only = a.list_only;
          path_selectors = a.path_selectors;
          path_skippers = a.path_skippers;
          no_selector = a.no_selector;
        }

    parse_args-Ensures :
        (args : Args) (s : Settings)
        → AllFine args ⊎ E
        → Ensures E (parse_args isspace args) s (λ u t. Added isspace args (cleared s) t)
    unfolding parse_args
    parse_args-Ensures args s f =
        Ensures-bind {R = λ u t. Added isspace args (cleared s) t} _ _ s
          (Ensures-bind {R = λ u t. t ≡ cleared s} _ _ s (Ensures-modify _ s refl) (λ u t e.
            subst
              (λ t. Ensures E (parse_each isspace args) t (λ u w. Added isspace args (cleared s) w))
              (sym e) (parse_each-Ensures args (cleared s) f)))
          (λ u t a. warn-Ensures args (cleared s) t a)

  -- Whatever the arguments, when parse_args returns: keep_going is set exactly if `-k` or
  -- `--keep-going` is an argument, the results for `--tap` and `--g-fatal-warnings` exactly if these
  -- are, and list_only if `-l` is or it was set before; the paths of the `-s` arguments are in front
  -- of the skippers, newest first; no `-p` had a value, and the selectors are as before.
  pub parse_args-settings :
      (args : Args) (s : Settings)
      → Ensures Unit (parse_args isspace args) s (λ u t. Added isspace args (cleared s) t)
  parse_args-settings args s = parse_args-Ensures args s (inr tt)

  -- parse_args returns, with the settings that the arguments spell, when none of them is NULL, a `-p`
  -- with a value, a `-s` whose value spells no path, or one of the three that GTU does not support.
  pub parse_args-returns :
      (args : Args) (s : Settings)
      → AllFine args
      → Ensures ⊥ (parse_args isspace args) s (λ u t. Added isspace args (cleared s) t)
  parse_args-returns args s fine = parse_args-Ensures args s (inl fine)
