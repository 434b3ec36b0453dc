-- ===== src/Workflow/Fields.antt =====
-- server/engine/workflow_executor.py: `_is_empty_field`, `_confirmation_intent`, `validate_field`,
-- `_validate_file_field`, and the loop of `_handle_validate` over its rules.
use Prim.Native.String.{◌++◌ as ◌+++◌}
use text.Mathlib.Text.{starts_with}
use aezab.Prelude.{
  ◌*◌, String, string_eq, Bool, true, false, not, ◌&&◌, ◌||◌, Option, none, some, List, [], ◌∷◌,
  map, any, ltb, ◌==◌, if◌then◌else◌,
}
use aezab.Prelude.Dict.{get}
use aezab.Prelude.Int.{pos}
use aezab.Value.{Value, null, int, str, arr, obj, nil, Runtime, to_text, truthy, items, entries}
use aezab.Workflow.State.{FieldDef}

-- A missing key reads as `None`.
abbrev pub or_null : Option Value → Value
or_null none = null
or_null (some v) = v

abbrev pub is_empty_field : Value → Bool
is_empty_field null = true
is_empty_field (str t) = t == ""
is_empty_field (arr nil) = true
is_empty_field _ = false

abbrev pub refusals : List String
refusals =
    "取消" ∷ "不是" ∷ "不对" ∷ "不行" ∷ "重新" ∷ "修改" ∷ "cancel" ∷ "不确认" ∷ "不要" ∷ "不同意" ∷ "not" ∷ "don't" ∷ []

abbrev pub affirmations : List String
affirmations =
    "y" ∷ "yes" ∷ "ok" ∷ "sure" ∷ "确认" ∷ "确定" ∷ "是" ∷ "好" ∷ "对" ∷ "行" ∷ "可以" ∷ "没问题" ∷ "正确"
    ∷ "confirm" ∷ []

abbrev pub is_one_of : List String → String → Bool
is_one_of names t = any (λ n. n == t) names

-- `any(word in text for word in words)`
unfoldable pub contains_any : Runtime → List String → String → Bool
contains_any py words text = any (λ word. py.is_in word text) words

-- The intent of a text that is stripped and in lower case.
unfoldable pub intent_of : Runtime → String → Option Bool
intent_of py text =
    if is_one_of ("不" ∷ "n" ∷ "no" ∷ []) text || contains_any py refusals text
    then some false
    else if is_one_of affirmations text
    then some true
    else none

unfoldable pub confirmation_intent : Runtime → String → Option Bool
confirmation_intent py text = intent_of py (py.rstrip ".!。！" (py.lower (py.strip text)))

unfoldable pub builtin_validator : String → Option String
builtin_validator ftype =
    if ftype == "phone"
    then some "^1[3-9]\\d{9}$"
    else if ftype == "id_card"
    then some "^\\d{17}[\\dXx]$"
    else if ftype == "email"
    then some "^[^@\\s]+@[^@\\s]+\\.[^@\\s]+$"
    else if ftype == "date"
    then some "^\\d{4}-\\d{2}-\\d{2}$"
    else if ftype == "number"
    then some "^-?\\d+(\\.\\d+)?$"
    else none

abbrev pub is_multi : FieldDef → Bool
is_multi f = f.field_type == "multi_select"

abbrev outside : Runtime → FieldDef → Value → Bool
outside py f v = not (any (λ o. to_text py o == to_text py v) f.options)

-- The test of a `select` or `multi_select` value against the options; `none` if it passes.
unfoldable pub check_options : Runtime → FieldDef → Value → Option String
check_options py f (arr vs) =
    if is_multi f
    then (if any (outside py f) (items vs) then some ("'" +++ f.label +++ "' 包含无效选项") else none)
    else (if outside py f (arr vs) then some ("'" +++ f.label +++ "' 包含无效选项") else none)
check_options py f v =
    if is_multi f
    then some ("'" +++ f.label +++ "' 必须选择有效选项")
    else if outside py f v
    then some ("'" +++ f.label +++ "' 包含无效选项")
    else none

-- `BUILTIN_VALIDATORS[ftype].match(value)`; the patterns compile.
unfoldable pub check_builtin : Runtime → FieldDef → Option String → String → Option String
check_builtin py f none text = none
check_builtin py f (some pattern) text = elim (py.re_match pattern text) [
  | some true ↦ none
  | _ ↦ some ("'" +++ f.label +++ "' 格式不正确")
]

unfoldable pub check_rule : Runtime → FieldDef → String → Option String
check_rule py f text =
    if f.validation_rule == "" then none else elim (py.re_match f.validation_rule text) [
      | none ↦ some ("'" +++ f.label +++ "' 校验规则配置无效")
      | some matched ↦ if matched then none else some ("'" +++ f.label +++ "' 不符合校验规则")
    ]

-- The first error of a chain of checks.
abbrev pub or_else : Option String → Option String → Option String
or_else none next = next
or_else (some e) next = some e

-- The error message of a value, or `none` if it is valid.
unfoldable pub validate_field : Runtime → FieldDef → Value → Option String
validate_field py f v =
    if is_empty_field v
    then (if f.required then some ("字段 '" +++ f.label +++ "' 为必填项") else none)
    else or_else
        (if is_one_of ("select" ∷ "multi_select" ∷ []) f.field_type
          then check_options py f v
          else none)
        (or_else (check_builtin py f (builtin_validator f.field_type) (to_text py v))
          (check_rule py f (to_text py v)))

-- `e.lower() if e.startswith(".") else f".{e.lower()}"`; the extensions are ASCII.
unfoldable pub dotted : Runtime → String → String
dotted py e = if starts_with e "." then py.lower e else "." +++ py.lower e

unfoldable pub oversized : Runtime → FieldDef → Option Value → Option String
oversized py f (some (int (pos size))) =
    if ltb 0 f.max_size_mb && ltb (f.max_size_mb * 1048576) size
    then some ("'" +++ f.label +++ "' 文件过大，最大 " +++ to_text py (int (pos f.max_size_mb)) +++ "MB")
    else none
oversized py f _ = none

-- A file's name or path is tested by its extension, and an uploaded file by its size in bytes;
-- `size / 2 ** 20 > max` is written with the division cleared.
unfoldable pub validate_file : Runtime → FieldDef → Value → Option String
validate_file py f (str path) =
    if any (λ e. true) f.allowed_extensions
      && not (is_one_of (map (dotted py) f.allowed_extensions) (py.lower (py.extension path)))
    then some ("'" +++ f.label +++ "' 不支持此文件格式，仅支持: " +++ py.join ", " f.allowed_extensions)
    else none
validate_file py f (obj es) = oversized py f (get (entries es) "size")
validate_file py f _ = none

unfoldable pub validate_file_field : Runtime → FieldDef → Value → Option String
validate_file_field py f v =
    if truthy v
    then validate_file py f v
    else (if f.required then some ("字段 '" +++ f.label +++ "' 为必填项") else none)
