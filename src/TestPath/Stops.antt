-- ===== src/TestPath/Stops.antt =====
-- Where gtu_path_new_parse of src/path.c stops when it refuses a text.
use giitestutils.Base.{
  ℕ, ◌+◌, ◌≡◌, refl, ap, ◌∙◌, Bool, true, false, List, [], ◌∷◌, ◌++◌, Option, none, some, arith,
  append_assoc, All, All-append, Bytes, length, length-append, is_empty→nil, is_empty, ◌==◌, ◌≢◌,
  ◌⊎◌, inl, inr, subst,
}
use giitestutils.TestPath.{
  GtuPath, Parsed, parse_error, slash, parse_end, parse_loop, gtu_path_new_parse,
}
use giitestutils.TestPath.Parse.{parse_loop_cases}

module _ (isspace : ℕ → Bool) where
  -- A byte that is allowed somewhere in a path.
  abbrev pub IsAllowed : ℕ → Type 0
  IsAllowed c = (c ≡ slash) ⊎ (isspace c ≡ false)

  -- The text goes on with a stroke, or ends.
  abbrev pub EndsElement : Bytes → Type 0
  EndsElement [] = Unit
  EndsElement (c ∷ cs) = c ≡ slash

  abbrev pub StartsWhite : Bytes → Type 0
  StartsWhite [] = ⊥
  StartsWhite (c ∷ cs) = isspace c ≡ true

  -- No stroke follows another; `after` is whether a stroke stands in front of the text.
  abbrev pub Separated : Bool → Bytes → Type 0
  Separated after [] = Unit
  Separated after (c ∷ cs) = (after ≡ true → c ≢ slash) × Separated (c == slash) cs

  -- `endptr` is the first place where the text breaks a rule, which is white space or an element that
  -- would be empty: what is before it breaks none.
  pub record StopsAt (text : Bytes) (endptr : ℕ) : Type 0 where
    pub read : Bytes
    pub rest : Bytes
    pub splits : text ≡ read ++ rest
    pub here : endptr ≡ length read
    pub allowed : All IsAllowed read
    pub separated : Separated false read
    pub blocked :
        ((before : Bytes) × (read ≡ before ++ slash ∷ []) × EndsElement rest) ⊎ StartsWhite rest

  -- Whether the text, or what stands in front of it, ends in a stroke.
  abbrev ends_in_slash : Bool → Bytes → Bool
  ends_in_slash after [] = after
  ends_in_slash after (c ∷ cs) = ends_in_slash (c == slash) cs

  Separated-snoc :
      (after : Bool) (xs : Bytes) (c : ℕ)
      → Separated after xs
      → (ends_in_slash after xs ≡ true → c ≢ slash)
      → Separated after (xs ++ c ∷ [])
  Separated-snoc after [] c s k = (k, tt)
  Separated-snoc after (x ∷ xs) c s k = (s.0, Separated-snoc (x == slash) xs c s.1 k)

  ends_in_slash-append :
      (after : Bool) (xs ys : Bytes)
      → ends_in_slash after (xs ++ ys) ≡ ends_in_slash (ends_in_slash after xs) ys
  ends_in_slash-append after [] ys = refl
  ends_in_slash-append after (x ∷ xs) ys = ends_in_slash-append (x == slash) xs ys

  -- Where an element has bytes, no stroke is in front of what follows.
  inside_element :
      (after : Bool) (buf : Bytes)
      → All (λ c. (c == slash) ≡ false) buf
      → is_empty buf ≡ false
      → ends_in_slash after buf ≡ false
  inside_element after [] a e = ground (arith, e)
  inside_element after (c ∷ []) a e = a.0
  inside_element after (c ∷ d ∷ cs) a e = inside_element (c == slash) (d ∷ cs) a.1 refl

  stroke_after :
      (pre buf seen : Bytes)
      → seen ≡ pre ++ slash ∷ buf
      → All (λ c. (c == slash) ≡ false) buf
      → is_empty buf ≡ false
      → ends_in_slash false seen ≡ false
  stroke_after pre buf seen e a f =
      ap (ends_in_slash false) e
      ∙ ends_in_slash-append false pre (slash ∷ buf)
      ∙ inside_element true buf a f

  abbrev StopsPath : Bytes → ℕ → Option GtuPath → Type 0
  StopsPath text endptr (some path) = Unit
  StopsPath text endptr none = StopsAt text endptr

  abbrev Stops : Bytes → Parsed → Type 0
  Stops text r = StopsPath text r.endptr r.path

  parse_end-Stops :
      (es : List Bytes) (pre buf seen : Bytes) (i : ℕ)
      → seen ≡ pre ++ slash ∷ buf
      → All IsAllowed seen
      → Separated false seen
      → i ≡ length seen
      → Stops (seen ++ []) (parse_end es buf i)
  unfolding parse_end
  parse_end-Stops es pre [] seen i e a sep n = record {
    read = seen;
    rest = [];
    splits = refl;
    here = n;
    allowed = a;
    separated = sep;
    blocked = inl (pre, e, tt);
  }
  parse_end-Stops es pre (c ∷ buf) seen i e a sep n = tt

  parse_loop-Stops :
      (es : List Bytes) (pre buf seen : Bytes) (i : ℕ) (cs : Bytes)
      → seen ≡ pre ++ slash ∷ buf
      → All (λ c. (c == slash) ≡ false) buf
      → All IsAllowed seen
      → Separated false seen
      → i ≡ length seen
      → Stops (seen ++ cs) (parse_loop isspace es buf i cs)
  unfolding parse_loop
  parse_loop-Stops es pre buf seen i [] e b a sep n = parse_end-Stops es pre buf seen i e a sep n
  parse_loop-Stops es pre buf seen i (c ∷ cs) e b a sep n =
      parse_loop_cases isspace (Stops (seen ++ c ∷ cs)) es buf i c cs
        (λ s f. record {
          read = seen;
          rest = c ∷ cs;
          splits = refl;
          here = n;
          allowed = a;
          separated = sep;
          blocked = inl (pre, e ∙ ap (λ b. pre ++ slash ∷ b) (is_empty→nil buf f), s);
        })
        (λ s f.
          subst (λ t. Stops t (parse_loop isspace (es ++ buf ∷ []) [] (i + 1) cs))
            (append_assoc seen (c ∷ []) cs)
            (parse_loop-Stops (es ++ buf ∷ []) seen [] (seen ++ c ∷ []) (i + 1) cs
              (ap (λ b. seen ++ b ∷ []) s) tt (All-append IsAllowed seen (c ∷ []) a (inl s, tt))
              (Separated-snoc false seen c sep
                (λ after. ground (arith, after, stroke_after pre buf seen e b f)))
              (omega (arith, length-append seen (c ∷ [])))))
        (λ s f. record {
          read = seen;
          rest = c ∷ cs;
          splits = refl;
          here = n;
          allowed = a;
          separated = sep;
          blocked = inr f;
        })
        (λ s f.
          subst (λ t. Stops t (parse_loop isspace es (buf ++ c ∷ []) (i + 1) cs))
            (append_assoc seen (c ∷ []) cs)
            (parse_loop-Stops es pre (buf ++ c ∷ []) (seen ++ c ∷ []) (i + 1) cs
              (ap (λ l. l ++ c ∷ []) e ∙ append_assoc pre (slash ∷ buf) (c ∷ []))
              (All-append _ buf (c ∷ []) b (s, tt))
              (All-append IsAllowed seen (c ∷ []) a (inr f, tt))
              (Separated-snoc false seen c sep (λ after is_slash. ground (arith, s, is_slash)))
              (omega (arith, length-append seen (c ∷ [])))))

  -- When gtu_path_new_parse refuses a text that begins with a stroke, `endptr` is the offset of the
  -- first place that breaks a rule: what is before it holds no white space but strokes, and no stroke
  -- behind another; and there either white space follows, or a stroke stands before it and a stroke or
  -- the end of the text follows.
  pub parse_stops :
      (cs : Bytes) (endptr : ℕ)
      → gtu_path_new_parse isspace (slash ∷ cs) ≡ parse_error endptr
      → StopsAt (slash ∷ cs) endptr
  unfolding gtu_path_new_parse
  parse_stops cs endptr h = subst (Stops (slash ∷ cs)) h (
      parse_loop-Stops [] [] [] (slash ∷ []) 1 cs refl tt (inl refl, tt)
        ((λ after. ground (arith, after)), tt) refl)
