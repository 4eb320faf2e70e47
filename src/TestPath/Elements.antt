-- ===== src/TestPath/Elements.antt =====
-- The elements of a path: what the editing operations of src/path.c do to them.
use giitestutils.Base.{
  ℕ, ◌+◌, ◌≡◌, refl, ap, ◌∙◌, sym, Bool, true, List, [], ◌∷◌, ◌++◌, Option, none, some, arith,
  append_assoc, append-nil, All, All-append, Bytes, length, length-append, value, Bool-cases, inl,
  inr,
}
use giitestutils.TestPath.{
  GtuPath, gtu_path_copy, gtu_path_element_is_valid, insert, prepend_from, append_from,
  gtu_path_prepend_element, gtu_path_append_element, gtu_path_prepend_path, gtu_path_append_path,
}

insert-append {ℓ} :
    {A : Type ℓ} (xs ys : List A) (x : A) → insert (xs ++ ys) (length xs) x ≡ xs ++ x ∷ ys
unfolding insert
insert-append [] [] x = refl
insert-append [] (y ∷ ys) x = refl
insert-append (z ∷ xs) ys x = ground (arith, insert-append xs ys x)

-- The loop of gtu_path_prepend_path, once `front` has been inserted.
prepend_from-append :
    (front elements es : List Bytes) (i : ℕ)
    → i ≡ length front
    → prepend_from (front ++ elements) i es ≡ front ++ (es ++ elements)
unfolding prepend_from
prepend_from-append front elements [] i h = refl
prepend_from-append front elements (e ∷ es) i h =
    rw (h, insert-append front elements e)
      (ap (λ l. prepend_from l (length front + 1) es) (sym (append_assoc front (e ∷ []) elements))
        ∙ prepend_from-append (front ++ e ∷ []) elements es (length front + 1)
            (omega (arith, length-append front (e ∷ [])))
        ∙ append_assoc front (e ∷ []) (es ++ elements))

append_from-append : (elements es : List Bytes) → append_from elements es ≡ elements ++ es
unfolding append_from
append_from-append elements [] = sym (append-nil elements)
append_from-append elements (e ∷ es) =
    append_from-append (elements ++ e ∷ []) es ∙ append_assoc elements (e ∷ []) es

-- The elements of a path after each operation: gtu_path_prepend_path puts those of the other path
-- in front in their order, gtu_path_append_path behind, gtu_path_copy keeps them, and the string
-- that the path holds is left as it is by the first two.
pub join_paths :
    (path other : GtuPath)
    → (gtu_path_prepend_path path other
        ≡ record path { elements = other.elements ++ path.elements })
      × (gtu_path_append_path path other
          ≡ record path { elements = path.elements ++ other.elements })
unfolding gtu_path_prepend_path gtu_path_append_path
join_paths path other = (
  ap (λ l. record path { elements = l })
      (prepend_from-append [] path.elements other.elements 0 refl),
  ap (λ l. record path { elements = l }) (append_from-append path.elements other.elements),
)

module _ (isspace : ℕ → Bool) where
  abbrev pub IsElement : Bytes → Type 0
  IsElement e = gtu_path_element_is_valid isspace (some e) ≡ true

  -- Every element of the path is valid.
  abbrev pub IsWellFormed : GtuPath → Type 0
  IsWellFormed path = All IsElement path.elements

  pub append_element-IsWellFormed :
      (path : GtuPath) (element : Option Bytes)
      → IsWellFormed path
      → IsWellFormed (value (gtu_path_append_element isspace path element))
  unfolding gtu_path_append_element
  append_element-IsWellFormed path none w = w
  append_element-IsWellFormed path (some e) w =
      elim (Bool-cases (gtu_path_element_is_valid isspace (some e))) [
        | inl ok ↦ rw ok (All-append IsElement path.elements (e ∷ []) w (ok, tt))
        | inr bad ↦ rw bad w
      ]

  pub prepend_element-IsWellFormed :
      (path : GtuPath) (element : Option Bytes)
      → IsWellFormed path
      → IsWellFormed (value (gtu_path_prepend_element isspace path element))
  unfolding gtu_path_prepend_element
  prepend_element-IsWellFormed path none w = w
  prepend_element-IsWellFormed path (some e) w =
      elim (Bool-cases (gtu_path_element_is_valid isspace (some e))) [
        | inl ok ↦ rw ok (ok, w)
        | inr bad ↦ rw bad w
      ]

-- A call that edits a path.
pub data Edit : Type 0 where
  prepend_element append_element : Option Bytes → Edit
  prepend_path append_path : GtuPath → Edit
  copy : Edit

module _ (isspace : ℕ → Bool) where
  abbrev pub edit : Edit → GtuPath → GtuPath
  edit (prepend_element e) path = value (gtu_path_prepend_element isspace path e)
  edit (append_element e) path = value (gtu_path_append_element isspace path e)
  edit (prepend_path other) path = gtu_path_prepend_path path other
  edit (append_path other) path = gtu_path_append_path path other
  edit copy path = gtu_path_copy path

  abbrev pub edit_all : List Edit → GtuPath → GtuPath
  edit_all [] path = path
  edit_all (e ∷ es) path = edit_all es (edit e path)

  -- The path that the edit takes its elements from, if any, is well formed.
  abbrev pub TakesWellFormed : Edit → Type 0
  TakesWellFormed (prepend_path other) = IsWellFormed isspace other
  TakesWellFormed (append_path other) = IsWellFormed isspace other
  TakesWellFormed _ = Unit

  edit-IsWellFormed :
      (e : Edit) (path : GtuPath)
      → TakesWellFormed e
      → IsWellFormed isspace path
      → IsWellFormed isspace (edit e path)
  unfolding gtu_path_copy
  edit-IsWellFormed (prepend_element e) path t w = prepend_element-IsWellFormed isspace path e w
  edit-IsWellFormed (append_element e) path t w = append_element-IsWellFormed isspace path e w
  edit-IsWellFormed (prepend_path other) path t w =
      rw (join_paths path other).0 (All-append (IsElement isspace) other.elements path.elements t w)
  edit-IsWellFormed (append_path other) path t w =
      rw (join_paths path other).1 (All-append (IsElement isspace) path.elements other.elements w t)
  edit-IsWellFormed copy path t w = w

  -- However a path is edited, by elements that the caller has not checked and by other well-formed
  -- paths, a well-formed path stays well formed.
  pub edit_all-IsWellFormed :
      (es : List Edit) (path : GtuPath)
      → All TakesWellFormed es
      → IsWellFormed isspace path
      → IsWellFormed isspace (edit_all es path)
  edit_all-IsWellFormed [] path t w = w
  edit_all-IsWellFormed (e ∷ es) path t w =
      edit_all-IsWellFormed es (edit e path) t.1 (edit-IsWellFormed e path t.0 w)
