-- ===== src/TestPath/Accepts.antt =====
-- What gtu_path_new_parse of src/path.c accepts, and where it stops.
use giitestutils.Base.{
  ℕ, ◌+◌, ◌≡◌, refl, ap, ◌∙◌, sym, Bool, true, false, List, [], ◌∷◌, ◌++◌, Option, none, some,
  arith, append_assoc, All, All-append, Bytes, length, ◌==◌, ◌≢◌, value, subst, subst₂,
}
use mathlib.Core.List.{concat-ne-nil}
use giitestutils.TestPath.{
  GtuPath, Parsed, slash, parse_end, parse_loop, gtu_path_new_parse, is_clean, join,
  gtu_path_to_string,
}
use giitestutils.TestPath.Elements.{IsElement, IsWellFormed}
use giitestutils.TestPath.Parse.{IsElement-intro, parse_loop_cases}

join-append : (xs ys : List Bytes) → join (xs ++ ys) ≡ join xs ++ join ys
unfolding join
join-append [] ys = refl
join-append (x ∷ xs) ys =
    ap (λ l. slash ∷ (x ++ l)) (join-append xs ys)
    ∙ ap (◌∷◌ slash) (sym (append_assoc x (join xs) (join ys)))

-- The text that the loop has read, with the buffer behind the last stroke, and what is left.
abbrev whole : List Bytes → Bytes → Bytes → Bytes
whole es buf cs = join es ++ (slash ∷ (buf ++ cs))

whole-byte :
    (es : List Bytes) (buf : Bytes) (c : ℕ) (cs : Bytes)
    → whole es (buf ++ c ∷ []) cs ≡ whole es buf (c ∷ cs)
whole-byte es buf c cs = ap (λ l. join es ++ slash ∷ l) (append_assoc buf (c ∷ []) cs)

whole-slash :
    (es : List Bytes) (buf cs : Bytes) → whole (es ++ buf ∷ []) [] cs ≡ whole es buf (slash ∷ cs)
unfolding join
whole-slash es buf cs =
    ap (λ l. l ++ slash ∷ cs) (join-append es (buf ∷ []))
    ∙ append_assoc (join es) (join (buf ∷ [])) (slash ∷ cs)
    ∙ ap (λ l. join es ++ slash ∷ l) (append_assoc buf [] (slash ∷ cs))

module _ (isspace : ℕ → Bool) where
  -- The parsed path prints as `text`, is well formed, has an element and no cached string.
  abbrev ReadsPath : Bytes → ℕ → ℕ → Option GtuPath → Type 0
  ReadsPath text end endptr none = Unit
  ReadsPath text end endptr (some path) =
      (join path.elements ≡ text)
      × IsWellFormed isspace path
      × (path.elements ≢ [])
      × (path.cached_string ≡ none)
      × (endptr ≡ end)

  abbrev Reads : Bytes → ℕ → Parsed → Type 0
  Reads text end r = ReadsPath text end r.endptr r.path

  parse_end-Reads :
      (es : List Bytes) (buf : Bytes) (i : ℕ)
      → All (IsElement isspace) es
      → is_clean isspace buf ≡ true
      → Reads (whole es buf []) i (parse_end es buf i)
  unfolding parse_end join
  parse_end-Reads es [] i w h = tt
  parse_end-Reads es (c ∷ buf) i w h = (
    join-append es ((c ∷ buf) ∷ []),
    All-append (IsElement isspace) es ((c ∷ buf) ∷ []) w
        (IsElement-intro isspace (c ∷ buf) h refl, tt),
    concat-ne-nil (c ∷ buf) es,
    refl,
    refl,
  )

  is_clean-snoc :
      (buf : Bytes) (c : ℕ)
      → is_clean isspace buf ≡ true
      → (c == slash) ≡ false
      → isspace c ≡ false
      → is_clean isspace (buf ++ c ∷ []) ≡ true
  unfolding is_clean
  is_clean-snoc [] c h k l = rw (k, l)
  is_clean-snoc (b ∷ buf) c h k l = ground (arith, is_clean-snoc buf c)

  parse_loop-Reads :
      (es : List Bytes) (buf : Bytes) (i : ℕ) (cs : Bytes)
      → All (IsElement isspace) es
      → is_clean isspace buf ≡ true
      → Reads (whole es buf cs) (i + length cs) (parse_loop isspace es buf i cs)
  unfolding parse_loop is_clean
  parse_loop-Reads es buf i [] w h =
      subst (λ n. Reads (whole es buf []) n (parse_end es buf i)) (omega arith)
        (parse_end-Reads es buf i w h)
  parse_loop-Reads es buf i (c ∷ cs) w h =
      parse_loop_cases isspace (Reads (whole es buf (c ∷ cs)) (i + length (c ∷ cs))) es buf i c cs
        (λ s e. tt)
        (λ s e.
          subst₂ (λ t n. Reads t n (parse_loop isspace (es ++ buf ∷ []) [] (i + 1) cs))
            (whole-slash es buf cs ∙ ap (λ b. whole es buf (b ∷ cs)) (sym s)) (omega arith)
            (parse_loop-Reads (es ++ buf ∷ []) [] (i + 1) cs
              (All-append (IsElement isspace) es (buf ∷ []) w (IsElement-intro isspace buf h e, tt))
              refl))
        (λ s e. tt)
        (λ s e.
          subst₂ (λ t n. Reads t n (parse_loop isspace es (buf ++ c ∷ []) (i + 1) cs))
            (whole-byte es buf c cs) (omega arith)
            (parse_loop-Reads es (buf ++ c ∷ []) (i + 1) cs w (is_clean-snoc buf c h s e)))

  -- When gtu_path_new_parse accepts a text, gtu_path_to_string of the path that it returns is that
  -- text, all elements of the path are valid, and `endptr` is the end of the text.
  pub parse_accepts :
      (text : Bytes) (path : GtuPath) (endptr : ℕ)
      → gtu_path_new_parse isspace text ≡ record { path = some path; endptr = endptr }
      → (value (gtu_path_to_string path)).0 ≡ some text
        × IsWellFormed isspace path
        × (endptr ≡ length text)
  unfolding gtu_path_new_parse gtu_path_to_string is_clean
  parse_accepts [] path endptr h = ground arith
  parse_accepts (c ∷ cs) path endptr h = ground (arith, parse_loop-Reads [] [] 1 cs tt refl)
