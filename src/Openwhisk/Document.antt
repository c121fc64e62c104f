-- ===== src/Openwhisk/Document.antt =====
-- JSON documents, as a specification of what a reader of their texts gives.
use seuss.Prelude.{
  ℕ, suc, ◌≡◌, Bool, nat_eq, true, false, Option, none, some, List, [], ◌∷◌, ◌++◌, Bytes, bytes_eq,
  ◌==◌, codes, if◌then◌else◌,
}
use seuss.Prelude.Int.{ℤ, to_string_signed}
use seuss.Openwhisk.Reader.{Yajl}

mutual
  pub data Json : Type 0 where
    string : Bytes → Json
    number : ℤ → Json
    object : Fields → Json
    array : Items → Json

  pub data Fields : Type 0 where
    end : Fields
    field : Bytes → Json → Fields → Fields

  pub data Items : Type 0 where
    nil : Items
    cons : Json → Items → Items

abbrev pub comma : Bool → Bytes
comma first = if first then [] else codes ","

-- The text without blanks; strings hold no character that JSON escapes.
unfoldable mutual
  pub render : Json → Bytes
  render (string s) = b'"' ∷ (s ++ codes "\"")
  render (number n) = to_string_signed n
  render (object fs) = codes "{" ++ (render_fields true fs ++ codes "}")
  render (array xs) = codes "[" ++ (render_items true xs ++ codes "]")

  pub render_fields : (first : Bool) → Fields → Bytes
  render_fields first end = []
  render_fields first (field k v fs) =
      comma first ++ ((b'"' ∷ (k ++ (codes "\":" ++ render v))) ++ render_fields false fs)

  pub render_items : (first : Bool) → Items → Bytes
  render_items first nil = []
  render_items first (cons x xs) = comma first ++ (render x ++ render_items false xs)

-- The value at a path of keys.
unfoldable pub find_field : Bytes → Fields → Option Json
find_field k end = none
find_field k (field j v fs) = if j == k then some v else find_field k fs

unfoldable pub at_path : List Bytes → Json → Option Json
unfolding find_field
at_path [] j = some j
at_path (k ∷ path) (object fs) = elim (find_field k fs) [ none ↦ none | some v ↦ at_path path v ]
at_path (k ∷ path) j = none

abbrev pub count_fields : Fields → ℕ
count_fields end = 0
count_fields (field k v fs) = suc (count_fields fs)

module _ (y : Yajl) where
  open y use {
    Tree, tree_parse, get_string, get_number, get_object, get_array, as_string, as_integer,
  }

  -- A value that YAJL gives reads as the string or the number that stands in the document.
  abbrev pub SameValue : Tree → Json → Type 0
  SameValue t (string s) = as_string t ≡ some s
  SameValue t (number n) = (as_string t ≡ none) × (as_integer t ≡ n)
  SameValue t other = as_string t ≡ none

  abbrev pub SameMembers : List (Bytes × Tree) → Fields → Type 0
  SameMembers [] end = Unit {0}
  SameMembers ((k, t) ∷ ms) (field j v fs) = (k ≡ j) × SameValue t v × SameMembers ms fs
  SameMembers _ _ = ⊥

  abbrev pub SameItems : List Tree → Items → Type 0
  SameItems [] nil = Unit {0}
  SameItems (t ∷ ts) (cons v xs) = SameValue t v × SameItems ts xs
  SameItems _ _ = ⊥

  -- YAJL reads the text of a document as that document.
  pub record Parses (j : Json) : Type 0 where
    pub tree : Tree
    pub parsed : tree_parse (render j) ≡ some tree
    pub strings :
        (path : List Bytes) (s : Bytes)
        → at_path path j ≡ some (string s)
        → get_string tree path ≡ some s
    pub numbers :
        (path : List Bytes) (n : ℤ)
        → at_path path j ≡ some (number n)
        → get_number tree path ≡ some n
    pub absent : (path : List Bytes) → at_path path j ≡ none → get_string tree path ≡ none
    pub objects :
        (path : List Bytes) (fs : Fields)
        → at_path path j ≡ some (object fs)
        → (ms : List (Bytes × Tree)) × (get_object tree path ≡ some ms) × SameMembers ms fs
    pub arrays :
        (path : List Bytes) (xs : Items)
        → at_path path j ≡ some (array xs)
        → (ts : List Tree) × (get_array tree path ≡ some ts) × SameItems ts xs
