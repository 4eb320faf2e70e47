-- ===== src/CommandLine/Glib.antt =====
-- The arguments that gtu_init of src/init.c gives to GLib.
use giitestutils.Base.{
  ℕ, sym, subst, ◌+◌, ◌≡◌, refl, Bool, true, false, List, [], ◌∷◌, ◌++◌, Option, none, some, arith,
  codes, length, length-append, append-nil, ap, ◌∙◌, if◌then◌else◌,
}
use giitestutils.Base.Exec.Ensures.{Ensures, Ensures-weaken}
use giitestutils.CommandLine.{Args, Settings, parse_args, write, hide_paths, glib_args}
use giitestutils.CommandLine.Added.{has_selector}
use giitestutils.CommandLine.Runs.{parse_args-settings}

hide_paths-none :
    (args : Args) (i : ℕ) (temp_args : Args)
    → has_selector args ≡ false
    → hide_paths args i temp_args ≡ some temp_args
unfolding hide_paths
hide_paths-none [] i temp_args h = refl
hide_paths-none (arg ∷ rest) i temp_args h =
    ground (arith, h, hide_paths-none rest (i + 1) temp_args)

write-last :
    (args : Args) (last : Option (List ℕ)) (arg : List ℕ)
    → write (args ++ last ∷ []) (length args) arg ≡ some (args ++ some arg ∷ [])
unfolding write
write-last [] last arg = refl
write-last (a ∷ args) last arg = rw (write, write-last args last arg) refl

pub glib_args-none :
    (args : Args) (tap_set : Bool)
    → has_selector args ≡ false
    → glib_args args tap_set ≡ some (args ++ (if tap_set then [] else some (codes "--tap") ∷ []))
unfolding glib_args
glib_args-none args true h = hide_paths-none args 0 args h ∙ ap some (sym (append-nil args))
glib_args-none args false h =
    rw (glib_args, hide_paths-none args 0 (args ++ none ∷ []) h, length-append args (none ∷ []))
      (subst
        (λ n.
          write (args ++ none ∷ []) n (codes "--tap") ≡ some (args ++ some (codes "--tap") ∷ []))
        (omega arith) (write-last args none (codes "--tap")))

module _ (isspace : ℕ → Bool) where
  -- Whatever the arguments, when parse_args returns, gtu_init gives g_test_init all of them
  -- unchanged, followed by `--tap` if they do not ask for it: no entry is written outside the array,
  -- and none is hidden.
  pub glib_args_complete :
      (args : Args) (s : Settings)
      → Ensures Unit (parse_args isspace args) s (λ u t.
        glib_args args t.tap_set
        ≡ some (args ++ (if t.tap_set then [] else some (codes "--tap") ∷ [])))
  glib_args_complete args s =
      Ensures-weaken _ s (parse_args-settings isspace args s)
        (λ u t a. glib_args-none args t.tap_set a.no_selector)
