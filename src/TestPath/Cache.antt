-- ===== src/TestPath/Cache.antt =====
-- The string that a GtuPath keeps: `cached_string` of src/path.c.
use giitestutils.Base.{
  ℕ, ◌≡◌, refl, Bool, true, [], ◌∷◌, Option, none, some, arith, Bytes, ◌≢◌, value, inl, inr,
  length-append, Option-cases,
}
use giitestutils.TestPath.{
  GtuPath, gtu_path_copy, gtu_path_append_element, gtu_path_prepend_element, gtu_path_to_string,
  gtu_path_is_valid, join,
}
use giitestutils.TestPath.Elements.{
  Edit, prepend_element, append_element, prepend_path, append_path, edit, copy, join_paths,
}

abbrev pub string_of : GtuPath → Option Bytes
string_of path = (value (gtu_path_to_string path)).0

-- The path after its string has been asked for.
abbrev pub printed : GtuPath → GtuPath
printed path = (value (gtu_path_to_string path)).1

string_of-cached :
    (path : GtuPath) (s : Bytes)
    → gtu_path_is_valid path ≡ true
    → path.cached_string ≡ some s
    → string_of path ≡ some s
unfolding gtu_path_to_string
string_of-cached path s v h = ground arith

printed_lem :
    (path : GtuPath)
    → gtu_path_is_valid path ≡ true
    → (s : Bytes) × (string_of path ≡ some s)
      × (printed path ≡ record path { cached_string = some s })
unfolding gtu_path_to_string
printed_lem path v = elim (Option-cases path.cached_string) [
  | inl fresh ↦ (join path.elements, ground arith, ground arith)
  | inr (s, cached) ↦ (s, ground arith, ground arith)
]

module _ (isspace : ℕ → Bool) where
  cached_string-edit :
      (e : Edit) (path : GtuPath)
      → e ≢ copy
      → (edit isspace e path).cached_string ≡ path.cached_string
  unfolding gtu_path_prepend_element gtu_path_append_element
  cached_string-edit (prepend_element none) path h = refl
  cached_string-edit (prepend_element (some e)) path h = ground arith
  cached_string-edit (append_element none) path h = refl
  cached_string-edit (append_element (some e)) path h = ground arith
  cached_string-edit (prepend_path other) path h = rw (join_paths path other).0
  cached_string-edit (append_path other) path h = rw (join_paths path other).1
  cached_string-edit copy path h = absurd (h refl)

  is_valid-edit :
      (e : Edit) (path : GtuPath)
      → gtu_path_is_valid path ≡ true
      → gtu_path_is_valid (edit isspace e path) ≡ true
  unfolding gtu_path_prepend_element gtu_path_append_element gtu_path_is_valid gtu_path_copy
  is_valid-edit (prepend_element none) path h = h
  is_valid-edit (prepend_element (some e)) path h = ground arith
  is_valid-edit (append_element none) path h = h
  is_valid-edit (append_element (some e)) path h =
      ground (arith, length-append path.elements (e ∷ []))
  is_valid-edit (prepend_path other) path h =
      rw (join_paths path other).0 (ground (arith, length-append other.elements path.elements))
  is_valid-edit (append_path other) path h =
      rw (join_paths path other).1 (ground (arith, length-append path.elements other.elements))
  is_valid-edit copy path h = h

  -- Once the string of a valid path has been asked for, no edit of the path but a copy changes what
  -- gtu_path_to_string returns: it is still the string of the path before the edit.
  pub string_of-edit :
      (e : Edit) (path : GtuPath)
      → gtu_path_is_valid path ≡ true
      → e ≢ copy
      → string_of (edit isspace e (printed path)) ≡ string_of path
  string_of-edit e path v h =
      let (s, now, kept) = printed_lem path v in
      rw (now, kept)
        (string_of-cached (edit isspace e (record path { cached_string = some s })) s
          (is_valid-edit e (record path { cached_string = some s }) (unfold gtu_path_is_valid in v))
          (cached_string-edit e (record path { cached_string = some s }) h))

-- The string of a copy is that of the elements that the path has now.
pub string_of-copy :
    (path : GtuPath)
    → gtu_path_is_valid path ≡ true
    → string_of (gtu_path_copy path) ≡ some (join path.elements)
unfolding gtu_path_to_string gtu_path_copy
string_of-copy path v = ground arith
