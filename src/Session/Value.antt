-- ===== src/Session/Value.antt =====
-- `any`, as it comes from JSON claims: Go's dynamic types that the code tells apart.
use hog.Base.{String, Bool, Option, none, some, List, [], ◌∷◌}

mutual
  pub data Value : Type 0 where
    null : Value
    bool : Bool → Value
    num : String → Value  -- a float64, by its decimal text
    str : String → Value
    arr : Items → Value  -- []any
    strs : List String → Value  -- []string
    obj : Fields → Value  -- map[string]any

  pub data Items : Type 0 where
    nil : Items
    cons : Value → Items → Items

  pub data Fields : Type 0 where
    end : Fields
    field : String → Value → Fields → Fields

-- `v.(string)`, "" where the assertion fails
abbrev pub string_or_empty : Option Value → String
string_or_empty (some (str s)) = s
string_or_empty (some null) = ""
string_or_empty (some (bool _)) = ""
string_or_empty (some (num _)) = ""
string_or_empty (some (arr _)) = ""
string_or_empty (some (strs _)) = ""
string_or_empty (some (obj _)) = ""
string_or_empty none = ""

-- the strings of a `[]any`
abbrev pub item_strings : Items → List String
item_strings nil = []
item_strings (cons (str s) vs) = s ∷ item_strings vs
item_strings (cons null vs) = item_strings vs
item_strings (cons (bool _) vs) = item_strings vs
item_strings (cons (num _) vs) = item_strings vs
item_strings (cons (arr _) vs) = item_strings vs
item_strings (cons (strs _) vs) = item_strings vs
item_strings (cons (obj _) vs) = item_strings vs

-- `toStringSlice`
pub to_string_slice : Value → List String
to_string_slice (strs t) = t
to_string_slice (arr vs) = item_strings vs
to_string_slice _ = []
