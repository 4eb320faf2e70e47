-- ===== src/Log/Color.antt =====
-- src/log/color.c and the table that it includes.
use giitestutils.Base.{
  ℕ, ◌+◌, Bool, true, false, not, ◌&&◌, List, [], ◌∷◌, ◌++◌, Option, none, some, ◌==◌, leb,
  if◌then◌else◌, Bytes, codes,
}

-- GtuLogColor: the flag bits, and the two fields, which are 0 where no colour is set.
pub record GtuLogColor : Type 0 where
  pub bold : Bool
  pub underscore : Bool
  pub blink : Bool
  pub fg : ℕ
  pub bg : ℕ

abbrev pub disable : GtuLogColor
disable = record { bold = false; underscore = false; blink = false; fg = 0; bg = 0 }

-- A colour alone, in bold.
abbrev pub bold_fg : ℕ → GtuLogColor
bold_fg c = record disable { bold = true; fg = c }

abbrev pub red : ℕ
red = 2

abbrev pub green : ℕ
green = 3

abbrev pub yellow : ℕ
yellow = 4

abbrev pub blue : ℕ
blue = 5

abbrev pub magenta : ℕ
magenta = 6

abbrev pub cyan : ℕ
cyan = 7

-- The parameters of the escape sequence, in the order of the table.
abbrev parameters : GtuLogColor → List Bytes
parameters c =
    (if c.bold then codes "1" ∷ [] else [])
    ++ (if c.underscore then codes "4" ∷ [] else [])
    ++ (if c.blink then codes "5" ∷ [] else [])
    ++ (if c.fg == 0 then [] else (b'3' ∷ (b'/' + c.fg) ∷ []) ∷ [])
    ++ (if c.bg == 0 then [] else (b'4' ∷ (b'/' + c.bg) ∷ []) ∷ [])

abbrev semicolons : List Bytes → Bytes
semicolons [] = []
semicolons (p ∷ []) = p
semicolons (p ∷ q ∷ ps) = p ++ b';' ∷ semicolons (q ∷ ps)

-- `none` is the default case, g_assert_not_reached. The table has a case for each colour with a flag
-- or a field set.
unfoldable pub gtu_log_lookup_color : Bool → GtuLogColor → Option Bytes
gtu_log_lookup_color supports_color c =
    if not supports_color
    then some []
    else if not (leb c.fg 8 && leb c.bg 8)
    then none
    else elim (parameters c) [
      | [] ↦ some (27 ∷ codes "[0m")
      | p ∷ ps ↦ some (27 ∷ b'[' ∷ (semicolons (p ∷ ps) ++ b'm' ∷ []))
    ]
