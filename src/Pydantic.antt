-- ===== src/Pydantic.antt =====
-- What the client uses of pydantic, which is not part of the repository: the annotations of its
-- model classes as data, and a validator for them as an interface with the documented behaviour
-- that the client relies on.
use macpony.Prelude.{
  ℕ, String, ◌≡◌, Bool, true, false, Option, none, some, List, [], ◌∷◌, if◌then◌else◌, str_eq,
}
use macpony.Prelude.Int.{ℤ, eq_nat}
use macpony.Json.{
  Float, Json, null, bool, int, float, str, obj, Fields, empty, field, get, is_empty_list, is_null,
}

mutual
  -- The annotations that the model classes and the calls use. `model legacy strict fields` is a
  -- class: `legacy` for a subclass of `Model` in models.py, whose "before" validator runs first,
  -- and `strict` for `extra="forbid"`.
  pub data Annotation : Type 0 where
    any_value none_type str_type int_type float_type bool_type : Annotation
    literal_str : List String → Annotation
    literal_int : ℕ → Annotation
    optional list_of dict_of : Annotation → Annotation
    either : Annotation → Annotation → Annotation
    model : Bool → Bool → Decls → Annotation

  -- The annotated fields of a class in order, the inherited ones first.
  pub data Decls : Type 0 where
    done : Decls
    required : String → Annotation → Decls → Decls
    default : String → Annotation → Json → Decls → Decls

-- The declarations of a base class followed by those of the class itself.
unfoldable pub extend : Decls → Decls → Decls
extend done ds = ds
extend (required k a es) ds = required k a (extend es ds)
extend (default k a v es) ds = default k a v (extend es ds)

infixl 5 ◌>>=◌
abbrev pub ◌>>=◌ {ℓ κ} : {A : Type ℓ} {B : Type κ} → Option A → (A → Option B) → Option B
none >>= f = none
some a >>= f = f a

-- A validator returns the validated value, dumped again as JSON, or `none` for a
-- `ValidationError`.
abbrev pub Validator : Type 0
Validator = Annotation → Json → Option Json

-- The fields of an instance from those of an input dict: each declared field is looked up by its
-- name and validated, a missing one takes its default or fails, and other input is ignored.
unfoldable pub collect : Validator → Decls → Fields → Option Fields
collect validate done fs = some empty
collect validate (required k a ds) fs = do
  given ← get k fs
  v ← validate a given
  rest ← collect validate ds fs
  some (field k v rest)
collect validate (default k a d ds) fs = do
  v ← elim (get k fs) [ none ↦ some d | some given ↦ validate a given ]
  rest ← collect validate ds fs
  some (field k v rest)

-- `Model._decode_empty_object_compatibility`
unfoldable pub decode_empty_object : Json → Json
decode_empty_object value = if is_empty_list value then obj empty else value

abbrev pub wrap : Option Fields → Option Json
wrap none = none
wrap (some fs) = some (obj fs)

-- One of the texts of a `Literal`.
unfoldable pub one_of : List String → String → Bool
one_of [] t = false
one_of (s ∷ ss) t = if str_eq s t then true else one_of ss t

-- Neither a list of JSON values nor a dict: the values that no model class accepts.
abbrev pub NotObject : Json → Type 0
NotObject (obj fs) = ⊥
NotObject _ = Unit {0}

abbrev pub NotText : Json → Type 0
NotText (str s) = ⊥
NotText _ = Unit {0}

-- The documented behaviour that the client relies on.
pub record IsPydantic (validate : Validator) : Type 0 where
  -- an instance is built field by field from a dict, and from nothing else
  pub model_dict :
      (ds : Decls) (fs : Fields)
      → validate (model false false ds) (obj fs) ≡ wrap (collect validate ds fs)
  pub model_other : (ds : Decls) (j : Json) → NotObject j → validate (model false false ds) j ≡ none
  -- a "before" validator sees the input first
  pub model_before :
      (ds : Decls) (j : Json)
      → validate (model true false ds) j ≡ validate (model false false ds) (decode_empty_object j)
  -- a `str` field and a text `Literal` accept texts only, unchanged
  pub str_text : (s : String) → validate str_type (str s) ≡ some (str s)
  pub str_other : (j : Json) → NotText j → validate str_type j ≡ none
  pub literal_text :
      (ss : List String) (s : String)
      → validate (literal_str ss) (str s) ≡ (if one_of ss s then some (str s) else none)
  pub literal_other : (ss : List String) (j : Json) → NotText j → validate (literal_str ss) j ≡ none
  -- a value that already has the type of its field is kept
  pub int_int : (i : ℤ) → validate int_type (int i) ≡ some (int i)
  pub float_float : (x : Float) → validate float_type (float x) ≡ some (float x)
  pub bool_bool : (b : Bool) → validate bool_type (bool b) ≡ some (bool b)
  pub literal_int_int :
      (n : ℕ) (i : ℤ)
      → validate (literal_int n) (int i) ≡ (if eq_nat i n then some (int i) else none)
  pub any_any : (j : Json) → validate any_value j ≡ some j
  pub json_dict : (fs : Fields) → validate (dict_of any_value) (obj fs) ≡ some (obj fs)
  -- what a validator returns has the type of the field
  pub int_returns : (j k : Json) → validate int_type j ≡ some k → (i : ℤ) × (k ≡ int i)
  pub float_returns : (j k : Json) → validate float_type j ≡ some k → (x : Float) × (k ≡ float x)
  pub bool_returns : (j k : Json) → validate bool_type j ≡ some k → (b : Bool) × (k ≡ bool b)
  pub literal_int_returns :
      (n : ℕ) (j k : Json)
      → validate (literal_int n) j ≡ some k
      → (i : ℤ) × (k ≡ int i) × (eq_nat i n ≡ true)
  pub dict_returns :
      (a : Annotation) (j k : Json) → validate (dict_of a) j ≡ some k → (fs : Fields) × (k ≡ obj fs)
  -- `T | None` accepts None, and anything else as `T` does
  pub optional_null : (a : Annotation) → validate (optional a) null ≡ some null
  pub optional_other :
      (a : Annotation) (j : Json) → is_null j ≡ false → validate (optional a) j ≡ validate a j
