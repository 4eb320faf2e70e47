-- ===== src/Log/Tap/Comments.antt =====
-- What diag_vprintf of src/log/tap.c prints is a TAP comment on every line.
use giitestutils.Base.{
  ℕ, ◌≡◌, refl, ap, sym, ◌∙◌, Bool, false, [], ◌∷◌, ◌++◌, append_assoc, All, All-append, Bytes,
  ◌==◌, Bool-cases, inl, inr, subst, ==_iff,
}
use giitestutils.Log.Tap.{marker, newline, diag_loop, diag_text}

abbrev NoNewline : Bytes → Type 0
NoNewline = All (λ c. (c == newline) ≡ false)

-- The text is a sequence of whole lines that each begin with `mark`, and hold one at least.
pub data Comments (mark : Bytes) : Bytes → Type 0 where
  last :
      {text : Bytes} (body : Bytes)
      → NoNewline body
      → text ≡ mark ++ (body ++ newline ∷ [])
      → Comments mark text
  line :
      {text : Bytes} (body rest : Bytes)
      → NoNewline body
      → text ≡ mark ++ (body ++ newline ∷ rest)
      → Comments mark rest
      → Comments mark text

abbrev indent : Bytes
indent = b' ' ∷ b' ' ∷ []

diag_loop-newline :
    (mark : Bytes) (c : ℕ) (cs : Bytes)
    → diag_loop mark newline (c ∷ cs) ≡ mark ++ (indent ++ c ∷ diag_loop mark c cs)
unfolding diag_loop
diag_loop-newline mark c cs = append_assoc mark indent (c ∷ diag_loop mark c cs)

module _ (mark : Bytes) where
  mutual
    unfolding diag_loop

    -- Inside a line whose bytes so far are `body`.
    inside :
        (cs body : Bytes) (buf : ℕ)
        → NoNewline body
        → (buf == newline) ≡ false
        → Comments mark (mark ++ (body ++ diag_loop mark buf cs))
    inside [] body buf n h = last body n (rw h)
    inside (c ∷ cs) body buf n h = elim (Bool-cases (c == newline)) [
      | inl stop ↦
          subst (λ d. Comments mark (mark ++ (body ++ diag_loop mark buf (d ∷ cs))))
            (sym ((==_iff c newline).0 stop)) (rw h (next_line cs body n))
      | inr more ↦
          subst (λ t. Comments mark (mark ++ t))
            (append_assoc body (c ∷ []) (diag_loop mark c cs) ∙ sym (ap (λ t. body ++ t) (rw h)))
            (inside cs (body ++ c ∷ []) c
              (All-append (λ d. (d == newline) ≡ false) body (c ∷ []) n (more, tt)) more)
    ]

    -- At the end of a line.
    next_line :
        (cs body : Bytes)
        → NoNewline body
        → Comments mark (mark ++ (body ++ newline ∷ diag_loop mark newline cs))
    next_line [] body n = last body n refl
    next_line (c ∷ cs) body n = elim (Bool-cases (c == newline)) [
      | inl stop ↦
          subst (λ d. Comments mark (mark ++ (body ++ newline ∷ diag_loop mark newline (d ∷ cs))))
            (sym ((==_iff c newline).0 stop))
            (line body _ n
              (ap (λ t. mark ++ (body ++ newline ∷ t)) (diag_loop-newline mark newline cs))
              (next_line cs indent (refl, (refl, tt))))
      | inr more ↦
          line body _ n (ap (λ t. mark ++ (body ++ newline ∷ t)) (diag_loop-newline mark c cs))
            (inside cs (indent ++ c ∷ []) c (refl, (refl, (more, tt))) more)
    ]

-- Whatever the message, each line that gtu_log_diagnostic prints begins with the TAP comment mark,
-- and the last one is ended.
pub diag_text-Comments :
    (supports_color : Bool) (message : Bytes)
    → Comments (marker supports_color) (diag_text supports_color message)
unfolding diag_text
diag_text-Comments supports_color message = inside (marker supports_color) message [] 0 tt refl
