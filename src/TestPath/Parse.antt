-- ===== src/TestPath/Parse.antt =====
-- gtu_path_new_parse of src/path.c against the validity rules of include/gtu-path.h.
use giitestutils.Base.{
  ℕ, ◌+◌, ◌≡◌, refl, ap, ◌∙◌, sym, Bool, true, false, List, [], ◌∷◌, ◌++◌, none, some, arith,
  append_assoc, append-nil, All, Bytes, length, length-append, is_empty, ◌==◌, Bool-cases, inl, inr,
  subst, ◌≢◌, value,
}
use giitestutils.TestPath.{
  GtuPath, Parsed, parse_error, slash, parse_loop, gtu_path_new_parse, is_clean,
  gtu_path_element_is_valid, join, gtu_path_to_string,
}
use giitestutils.TestPath.Elements.{IsElement, IsWellFormed}

abbrev pub parsed : List Bytes → ℕ → Parsed
parsed es n = record { path = some (record { elements = es; cached_string = none }); endptr = n }

module _ (isspace : ℕ → Bool) where
  -- The four ways through the loop's body.
  pub parse_loop_cases {κ} :
      (P : Parsed → Type κ) (es : List Bytes) (buf : Bytes) (i c : ℕ) (cs : Bytes)
      → (c ≡ slash → is_empty buf ≡ true → P (parse_error i))
      → (c ≡ slash → is_empty buf ≡ false → P (parse_loop isspace (es ++ buf ∷ []) [] (i + 1) cs))
      → ((c == slash) ≡ false → isspace c ≡ true → P (parse_error i))
      → ((c == slash) ≡ false
          → isspace c ≡ false
          → P (parse_loop isspace es (buf ++ c ∷ []) (i + 1) cs))
      → P (parse_loop isspace es buf i (c ∷ cs))
  unfolding parse_loop
  parse_loop_cases P es buf i c cs empty stroke space byte = elim (Bool-cases (c == slash)) [
    | inl s ↦ elim (Bool-cases (is_empty buf)) [
      | inl e ↦ rw (s, e) (empty (ground arith) e)
      | inr e ↦ rw (s, e) (stroke (ground arith) e)
    ]
    | inr s ↦ elim (Bool-cases (isspace c)) [
      | inl e ↦ rw (s, e) (space s e)
      | inr e ↦ rw (s, e) (byte s e)
    ]
  ]

  -- A byte of an element goes into the buffer.
  parse_loop-byte :
      (es : List Bytes) (buf : Bytes) (i c : ℕ) (cs : Bytes)
      → (c == slash) ≡ false
      → isspace c ≡ false
      → parse_loop isspace es buf i (c ∷ cs) ≡ parse_loop isspace es (buf ++ c ∷ []) (i + 1) cs
  unfolding parse_loop
  parse_loop-byte es buf i c cs h k = rw (h, k)

  parse_loop-clean :
      (es : List Bytes) (buf e rest : Bytes) (i j : ℕ)
      → is_clean isspace e ≡ true
      → i + length e ≡ j
      → parse_loop isspace es buf i (e ++ rest) ≡ parse_loop isspace es (buf ++ e) j rest
  unfolding is_clean
  parse_loop-clean es buf [] rest i j h k = let eq : i ≡ j = omega arith in rw (eq, append-nil buf)
  parse_loop-clean es buf (c ∷ e) rest i j h k =
      parse_loop-byte es buf i c (e ++ rest) (ground arith) (ground arith)
      ∙ parse_loop-clean es (buf ++ c ∷ []) e rest (i + 1) j (ground arith) (omega arith)
      ∙ ap (λ b. parse_loop isspace es b j rest) (append_assoc buf (c ∷ []) e)

  -- A stroke ends an element.
  parse_loop-slash :
      (es : List Bytes) (buf : Bytes) (i : ℕ) (cs : Bytes)
      → is_empty buf ≡ false
      → parse_loop isspace es buf i (slash ∷ cs) ≡ parse_loop isspace (es ++ buf ∷ []) [] (i + 1) cs
  unfolding parse_loop
  parse_loop-slash es buf i cs h = rw h

  parse_loop-nil :
      (es : List Bytes) (buf : Bytes) (i : ℕ)
      → is_empty buf ≡ false
      → parse_loop isspace es buf i [] ≡ parsed (es ++ buf ∷ []) i
  unfolding parse_loop
  parse_loop-nil es buf i h = rw h

  IsElement-parts :
      (e : Bytes) → IsElement isspace e → (is_clean isspace e ≡ true) × (is_empty e ≡ false)
  unfolding gtu_path_element_is_valid
  IsElement-parts [] h = ground arith
  IsElement-parts (c ∷ e) h = ground arith

  pub IsElement-intro :
      (e : Bytes) → is_clean isspace e ≡ true → is_empty e ≡ false → IsElement isspace e
  unfolding gtu_path_element_is_valid
  IsElement-intro [] h k = ground arith
  IsElement-intro (c ∷ e) h k = ground arith

  -- The loop behind the stroke in front of an element.
  parse_loop-join :
      (es : List Bytes) (e : Bytes) (more : List Bytes) (i j : ℕ)
      → All (IsElement isspace) (e ∷ more)
      → i + length (e ++ join more) ≡ j
      → parse_loop isspace es [] i (e ++ join more) ≡ parsed (es ++ e ∷ more) j
  unfolding join
  parse_loop-join es e [] i j w k =
      let (clean, full) = IsElement-parts e w.0 in
      parse_loop-clean es [] e [] i j clean (omega (arith, length-append e []))
      ∙ parse_loop-nil es e j full
  parse_loop-join es e (f ∷ more) i j w k =
      let (clean, full) = IsElement-parts e w.0 in
      parse_loop-clean es [] e (join (f ∷ more)) i (i + length e) clean refl
      ∙ parse_loop-slash es e (i + length e) (f ++ join more) full
      ∙ parse_loop-join (es ++ e ∷ []) f more (i + length e + 1) j w.1
          (omega (arith, length-append e (slash ∷ (f ++ join more))))
      ∙ ap (λ l. parsed l j) (append_assoc es (e ∷ []) (f ∷ more))

  -- A printed path is read back: for a path of at least one element, all valid, whose string is
  -- not yet cached, gtu_path_to_string gives a text that gtu_path_new_parse turns into the same
  -- elements, with `endptr` at the end of the text.
  pub parse-to_string :
      (path : GtuPath)
      → path.elements ≢ []
      → path.cached_string ≡ none
      → IsWellFormed isspace path
      → (text : Bytes) × (value (gtu_path_to_string path)
          ≡ (some text, record path { cached_string = some text }))
        × (gtu_path_new_parse isspace text ≡ parsed path.elements (length text))
  unfolding gtu_path_to_string gtu_path_new_parse join
  parse-to_string path some_elements no_cache w = print_parse path.elements refl
    where
      print_lem :
          {x : Bytes} {xs : List Bytes}
          → path.elements ≡ x ∷ xs
          → value (gtu_path_to_string path)
            ≡ (some (join (x ∷ xs)), record path { cached_string = some (join (x ∷ xs)) })
      print_lem {x} {xs} e = ground arith

      print_parse :
          (es : List Bytes)
          → path.elements ≡ es
          → (text : Bytes) × (value (gtu_path_to_string path)
              ≡ (some text, record path { cached_string = some text }))
            × (gtu_path_new_parse isspace text ≡ parsed path.elements (length text))
      print_parse [] e = absurd (some_elements e)
      print_parse (x ∷ xs) e = (
        join (x ∷ xs),
        print_lem e,
        parse_loop-join [] x xs 1 (length (join (x ∷ xs))) (subst (All (IsElement isspace)) e w)
              (omega arith)
            ∙ ap (λ l. parsed l (length (join (x ∷ xs)))) (sym e),
      )
