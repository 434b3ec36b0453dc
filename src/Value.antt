-- ===== src/Value.antt =====
-- The values of Python that JSON columns, form data and tool results hold, and the parts of the
-- runtime that the program applies to them. A float is held by the text of its `repr`, which
-- determines it. `Runtime` has what is not written in the repository: the regular expression engine,
-- the Unicode tables, the float arithmetic and the `repr` of a container.
use aezab.Prelude.{ℕ, String, string_eq, Bool, true, false, not, ◌||◌, Option, List, [], ◌∷◌, ◌==◌}
use aezab.Prelude.Dict.{Dict}
use aezab.Prelude.Int.{ℤ, pos, show_int}

mutual
  pub data Value : Type 0 where
    null : Value
    bool : Bool → Value
    int : ℤ → Value
    float : String → Value
    str : String → Value
    arr : Items → Value
    obj : Entries → Value

  pub data Items : Type 0 where
    nil : Items
    cons : Value → Items → Items

  pub data Entries : Type 0 where
    end : Entries
    entry : String → Value → Entries → Entries

pub record Runtime : Type 0 where
  -- `repr` of a list or a dict
  pub repr : Value → String
  -- `str.lower`, `str.upper`, `str.strip()`
  pub lower : String → String
  pub upper : String → String
  pub strip : String → String
  -- `text.rstrip(chars)`, the characters first
  pub rstrip : String → String → String
  -- `re.match` and `re.search`, the pattern first; `none` is `re.error`
  pub re_match : String → String → Option Bool
  pub re_search : String → String → Option Bool
  -- `float(text)`, `float(int)` and the comparisons of floats
  pub parse_float : String → Option String
  pub float_of_int : ℤ → String
  pub float_lt : String → String → Bool
  pub float_le : String → String → Bool
  -- `text.split(",")`
  pub split_commas : String → List String
  -- `separator.join(texts)`
  pub join : String → List String → String
  -- `a in b`, for texts
  pub is_in : String → String → Bool
  -- `os.path.splitext(path)[1]`
  pub extension : String → String
  -- `int(text)`; `none` is `ValueError`
  pub parse_int : String → Option ℤ
  -- `int(float)`; `none` is `ValueError`
  pub int_of_float : String → Option ℤ

-- `str(value)`
unfoldable pub to_text : Runtime → Value → String
to_text py null = "None"
to_text py (bool true) = "True"
to_text py (bool false) = "False"
to_text py (int n) = show_int n
to_text py (float t) = t
to_text py (str t) = t
to_text py (arr xs) = py.repr (arr xs)
to_text py (obj es) = py.repr (obj es)

-- `bool(value)`
unfoldable pub truthy : Value → Bool
truthy null = false
truthy (bool b) = b
truthy (int (pos ℕ.zero)) = false
truthy (int _) = true
truthy (float t) = not (t == "0.0" || t == "-0.0")
truthy (str t) = not (t == "")
truthy (arr nil) = false
truthy (arr _) = true
truthy (obj end) = false
truthy (obj _) = true

-- The members of a list value, and the entries of a dict value.
unfoldable pub items : Items → List Value
items nil = []
items (cons v vs) = v ∷ items vs

unfoldable pub entries : Entries → Dict String Value
entries end = []
entries (entry k v es) = (k, v) ∷ entries es

unfoldable pub to_items : List Value → Items
to_items [] = nil
to_items (v ∷ vs) = cons v (to_items vs)

unfoldable pub to_entries : Dict String Value → Entries
to_entries [] = end
to_entries ((k, v) ∷ es) = entry k v (to_entries es)
