-- ===== src/TestPath.antt =====
-- src/path.c: GtuPath. The GPtrArray of elements is a list, and a GtuPath is a pointer that passes
-- `path_is_valid_pointer`. `isspace` is GLib's g_ascii_isspace.
pub mod Parse
pub mod Accepts
pub mod Stops
pub mod Cache
pub mod Elements
pub mod Select
use giitestutils.Base.{
  ℕ, zero, suc, ◌+◌, Bool, true, false, not, ◌&&◌, ◌||◌, List, [], ◌∷◌, ◌++◌, Option, none, some,
  ltb, ◌==◌, if◌then◌else◌, length, is_empty, Bytes, str_eq, Checked, done, critical,
}

pub record GtuPath : Type 0 where
  pub elements : List Bytes
  pub cached_string : Option Bytes

unfoldable pub gtu_path_new : GtuPath
gtu_path_new = record { elements = []; cached_string = none }

-- The result of gtu_path_new_parse, and `endptr` as an offset into the text.
pub record Parsed : Type 0 where
  pub path : Option GtuPath
  pub endptr : ℕ

abbrev pub parse_error : ℕ → Parsed
parse_error index = record { path = none; endptr = index }

abbrev pub slash : ℕ
slash = b'/'

-- The test and the g_ptr_array_add behind the loop; `index` is that of the terminator.
unfoldable pub parse_end : List Bytes → Bytes → ℕ → Parsed
parse_end elements element_buf index = if is_empty element_buf then parse_error index else record {
  path = some (record { elements = elements ++ element_buf ∷ []; cached_string = none });
  endptr = index;
}

module _ (isspace : ℕ → Bool) where
  -- The loop, from `index` on; the last argument is the text from there to its end.
  unfoldable pub parse_loop : List Bytes → Bytes → ℕ → Bytes → Parsed
  unfolding parse_end
  parse_loop elements element_buf index [] = parse_end elements element_buf index
  parse_loop elements element_buf index (c ∷ cs) =
      let next_element = parse_loop (elements ++ element_buf ∷ []) [] (index + 1) cs in
      let next_byte = parse_loop elements (element_buf ++ c ∷ []) (index + 1) cs in
      if c == slash
      then if is_empty element_buf then parse_error index else next_element
      else if isspace c
      then parse_error index
      else next_byte

  unfoldable pub gtu_path_new_parse : Bytes → Parsed
  unfolding parse_loop
  gtu_path_new_parse [] = parse_error 1
  gtu_path_new_parse (c ∷ cs) = if c == slash then parse_loop [] [] 1 cs else parse_error 1

  -- The loop of gtu_path_element_is_valid: no byte is a stroke or white space.
  unfoldable pub is_clean : Bytes → Bool
  is_clean [] = true
  is_clean (c ∷ cs) = not (c == slash || isspace c) && is_clean cs

  -- `none` is NULL.
  unfoldable pub gtu_path_element_is_valid : Option Bytes → Bool
  unfolding is_clean
  gtu_path_element_is_valid none = false
  gtu_path_element_is_valid (some element) = is_clean element && ltb 0 (length element)

unfoldable pub gtu_path_copy : GtuPath → GtuPath
gtu_path_copy path = record { elements = path.elements; cached_string = none }

unfoldable pub gtu_path_is_valid : GtuPath → Bool
gtu_path_is_valid path = ltb 0 (length path.elements)

-- The loop of gtu_path_to_string.
unfoldable pub join : List Bytes → Bytes
join [] = []
join (e ∷ es) = (slash ∷ e) ++ join es

-- The string, which stays in the path.
unfoldable pub gtu_path_to_string : GtuPath → Checked (Option Bytes × GtuPath)
unfolding gtu_path_is_valid join
gtu_path_to_string path =
    if not (gtu_path_is_valid path) then critical (none, path) else elim path.cached_string [
      | some s ↦ done (some s, path)
      | none ↦ let s = join path.elements in done (some s, record path { cached_string = some s })
    ]

-- g_ptr_array_insert (xs, i, x), for i ≤ length xs.
unfoldable pub insert {ℓ} : {A : Type ℓ} → List A → ℕ → A → List A
insert xs zero x = x ∷ xs
insert [] (suc i) x = x ∷ []
insert (y ∷ ys) (suc i) x = y ∷ insert ys i x

module _ (isspace : ℕ → Bool) where
  unfoldable pub gtu_path_prepend_element : GtuPath → Option Bytes → Checked GtuPath
  unfolding insert
  gtu_path_prepend_element path none = critical path
  gtu_path_prepend_element path (some element) =
      if gtu_path_element_is_valid isspace (some element)
      then done (record path { elements = insert path.elements 0 element })
      else critical path

  unfoldable pub gtu_path_append_element : GtuPath → Option Bytes → Checked GtuPath
  gtu_path_append_element path none = critical path
  gtu_path_append_element path (some element) =
      if gtu_path_element_is_valid isspace (some element)
      then done (record path { elements = path.elements ++ element ∷ [] })
      else critical path

-- The loop of gtu_path_prepend_path, over the elements from index `i` on. The two paths are
-- different objects.
unfoldable pub prepend_from : List Bytes → ℕ → List Bytes → List Bytes
unfolding insert
prepend_from elements i [] = elements
prepend_from elements i (e ∷ es) = prepend_from (insert elements i e) (i + 1) es

unfoldable pub gtu_path_prepend_path : GtuPath → GtuPath → GtuPath
unfolding prepend_from
gtu_path_prepend_path path to_prepend = record path {
  elements = prepend_from path.elements 0 to_prepend.elements;
}

-- The loop of gtu_path_append_path.
unfoldable pub append_from : List Bytes → List Bytes → List Bytes
append_from elements [] = elements
append_from elements (e ∷ es) = append_from (elements ++ e ∷ []) es

unfoldable pub gtu_path_append_path : GtuPath → GtuPath → GtuPath
unfolding append_from
gtu_path_append_path path to_append = record path {
  elements = append_from path.elements to_append.elements;
}

-- The loop of gtu_path_has_prefix, behind the test on the lengths.
unfoldable pub matches_from : List Bytes → List Bytes → Bool
unfolding str_eq
matches_from xs [] = true
matches_from [] (p ∷ ps) = false
matches_from (x ∷ xs) (p ∷ ps) = str_eq x p && matches_from xs ps

unfoldable pub gtu_path_has_prefix : GtuPath → GtuPath → Bool
unfolding matches_from
gtu_path_has_prefix path prefix =
    if ltb (length path.elements) (length prefix.elements)
    then false
    else matches_from path.elements prefix.elements

-- GtuTestMode
pub record GtuTestMode : Type 0 where
  pub path_selectors : List GtuPath
  pub path_skippers : List GtuPath
  pub list_only : Bool

-- The two loops of _gtu_path_should_run: each runs while `should_run` holds.
unfoldable pub select_from : GtuPath → Bool → List GtuPath → Bool
unfolding gtu_path_has_prefix
select_from path should_run [] = should_run
select_from path should_run (p ∷ ps) =
    let rest = select_from path (gtu_path_has_prefix path p) ps in
    if should_run then rest else should_run

unfoldable pub skip_from : GtuPath → Bool → List GtuPath → Bool
unfolding gtu_path_has_prefix
skip_from path should_run [] = should_run
skip_from path should_run (p ∷ ps) =
    let rest = skip_from path (not (gtu_path_has_prefix path p)) ps in
    if should_run then rest else should_run

unfoldable pub gtu_path_should_run : GtuTestMode → GtuPath → Bool
unfolding select_from skip_from
gtu_path_should_run test_mode path =
    skip_from path (select_from path true test_mode.path_selectors) test_mode.path_skippers
